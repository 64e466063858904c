-- ===== src/Database/Plan/Rows.antt =====
-- What the operators of a plan yield, from the rows that their child yields.
use query_x_engine.Common.{
  ℕ, zero, suc, ◌+◌, ◌≤◌, ◌<◌, ◌≡◌, refl, sym, ap, Bool, true, false, Option, some, List, [], ◌∷◌,
  map, length, take, drop, get_elem?, leb, All, arith, Result, ok,
}
use mathlib.Core.Path.{subst}
use query_x_engine.Common.Exec.{Exec, continue-ok}
use query_x_engine.Common.Bytes.{Bytes}
use query_x_engine.Common.Dict.{get, put}
use query_x_engine.Storage.Row.{Builtins, Text, Value}
use query_x_engine.Storage.HeapFile
use query_x_engine.Storage.HeapFile.{HeapFile, RowId}
use query_x_engine.Sql.Ast.{Expr, OrderItem}
use query_x_engine.Execution.Evaluate.{Row, value, column_index}
use query_x_engine.Execution.Operators.{Yields, ended, row, limit_next-take}
use query_x_engine.Execution.Filter as Filter
use query_x_engine.Execution.Filter.{
  first_seen, filter_next, filter_next-filter, distinct_next, distinct_next-first_seen,
}
use query_x_engine.Execution.Join.{drain, drain-Yields}
use query_x_engine.Execution.Scans.{Decode, seq_scan_next-Yields}
use query_x_engine.Execution.Sort.{sort_rows, sort_open, sort_next}
use query_x_engine.Database.{Database, on_heap}
use query_x_engine.Database.Plan.{
  Plan, Source, State, seq_scan, filter, sort, limit, distinct, names_of, beside, of_own, on_state,
  with_state, paired, next, open_plan, run,
}

module _ {D S : Type 0} where
  on_state-Yields :
      {m : Exec S (Option Row)} {s : S} {rows : List Row} (d : D)
      → Yields m s rows
      → Yields (on_state m) (d, s) rows
  unfolding on_state
  on_state-Yields d (ended {s' = s'} e) = ended {s' = (d, s')} (rw e refl)
  on_state-Yields d (row {s' = s'} e y) = row {s' = (d, s')} (rw e refl) (on_state-Yields d y)

module _ {D S A : Type 0} where
  of_own-Yields :
      {m : Exec A (Option Row)} {a : A} {rows : List Row} (d : D) (s : S)
      → Yields m a rows
      → Yields (of_own m) (d, (s, a)) rows
  unfolding of_own
  of_own-Yields d s (ended {s' = a'} e) = ended {s' = (d, (s, a'))} (rw e refl)
  of_own-Yields d s (row {s' = a'} e y) = row {s' = (d, (s, a'))} (rw e refl) (of_own-Yields d s y)

  beside-Yields :
      {m : Exec ((D × S) × A) (Option Row)} (d : D) (s : S) (a : A) {rows : List Row}
      → Yields m ((d, s), a) rows
      → Yields (beside m) (d, (s, a)) rows
  unfolding beside
  beside-Yields d s a (ended {s' = ((d', s'), a')} e) = ended {s' = (d', (s', a'))} (rw e refl)
  beside-Yields d s a (row {s' = ((d', s'), a')} e y) =
      row {s' = (d', (s', a'))} (rw e refl) (beside-Yields d' s' a' y)

drop_end : (rows : List Row) (at : ℕ) → length rows ≤ at → drop at rows ≡ []
drop_end [] zero h = refl
drop_end [] (suc at) h = refl
drop_end (r ∷ rows) zero h = absurd (omega arith)
drop_end (r ∷ rows) (suc at) h = drop_end rows at (omega arith)

drop_here :
    (rows : List Row) (at : ℕ)
    → at < length rows
    → (r : Row) × (get_elem? rows at ≡ some r) × (drop at rows ≡ r ∷ drop (at + 1) rows)
drop_here [] at h = absurd (omega arith)
drop_here (r ∷ rows) zero h = (r, refl, refl)
drop_here (r ∷ rows) (suc at) h =
    let (x, here, rest) = drop_here rows at (omega arith) in
    let next : suc at + 1 ≡ suc (at + 1) = omega arith in (x, here, rw next rest)

-- from a position within the sorted rows on
sort_next-drop :
    (left : ℕ) (rows : List Row) (at : ℕ)
    → at + left ≡ length rows
    → Yields sort_next (rows, at) (drop at rows)
unfolding sort_next
sort_next-drop zero rows at e =
    let past : leb (length rows) at ≡ true = ground (arith, e) in
    subst (Yields sort_next (rows, at)) (sym (drop_end rows at (omega arith)))
      (ended {s' = (rows, at)} (rw past refl))
sort_next-drop (suc left) rows at e =
    let inside : leb (length rows) at ≡ false = ground (arith, e) in
    let (r, here, rest) = drop_here rows at (omega arith) in
    subst (Yields sort_next (rows, at)) (sym rest) (
      row {s' = (rows, at + 1)} (rw inside (rw here refl))
        (sort_next-drop left rows (at + 1) (omega arith)))

module _ {D S B : Type 0} where
  with_state_ok :
      (m : Exec (D × S) B) (d : D) (s : S) (b : B) (end : D × S)
      → m (d, s) ≡ (ok b, end)
      → with_state s m d ≡ (ok (b, end.1), end.0)
  unfolding with_state paired
  with_state_ok m d s b end e = rw e refl

sort_open_ok :
    {S : Type 0} (child : Exec S (Option Row)) (fuel : ℕ) (idx : List (Text × ℕ))
    (items : List OrderItem) (s s' : S) (rows sorted : List Row)
    → drain child fuel s ≡ (ok rows, s')
    → sort_rows idx items rows ≡ ok sorted
    → sort_open child fuel idx items s ≡ (ok sorted, s')
unfolding sort_open
sort_open_ok child fuel idx items s s' rows sorted read ordered = rw read (rw ordered refl)

on_heap_ok :
    {A : Type 0} (table : Text) (m : Exec HeapFile A) (d : Database) (h h' : HeapFile) (a : A)
    → get table d.tables ≡ some h
    → m h ≡ (ok a, h')
    → on_heap table m d ≡ (ok a, record d { tables = put table h' d.tables })
unfolding on_heap
on_heap_ok table m d h h' a at e = rw (at, on_heap) (rw e refl)

module _ (py : Builtins) (crc32 : Bytes → ℕ) (fuel : ℕ) where
  -- The plan opens without an error, and then yields the rows and ends.
  abbrev pub Produces : Plan → Database → List Row → Type 0
  Produces p d rows =
      (s : State p) × (d' : Database) × (open_plan py crc32 fuel p d ≡ (ok s, d'))
      × Yields (next py crc32 fuel p) (d', s) rows

  pub seq_scan-Produces :
      (source : Source) (d : Database) (h h' : HeapFile) (items : List (RowId × Bytes))
      (values : List (List Value))
      → get source.table d.tables ≡ some h
      → HeapFile.scan crc32 h ≡ (ok items, h')
      → Decode py source.types items values
      → Produces (seq_scan source) d (map (λ v. map value v) values)
  unfolding open_plan next
  seq_scan-Produces source d h h' items values at read decoded = (
    items,
    record d { tables = put source.table h' d.tables },
    on_heap_ok source.table (HeapFile.scan crc32) d h h' items at read,
    on_state-Yields _ (seq_scan_next-Yields py source.types items values decoded),
  )

  next-filter :
      (e : Expr) (p : Plan) (names : List Text)
      → names_of p ≡ ok names
      → next py crc32 fuel (filter e p)
        ≡ filter_next (next py crc32 fuel p) fuel e (column_index names)
  unfolding next
  next-filter e p names named = rw (named, next) refl

  pub filter-Produces :
      (e : Expr) (p : Plan) (d : Database) (rows : List Row) (names : List Text) (q : Row → Bool)
      → names_of p ≡ ok names
      → length rows < fuel
      → Produces p d rows
      → All (Filter.Decides (next py crc32 fuel p) e (column_index names) q) rows
      → Produces (filter e p) d (Filter.filter q rows)
  unfolding open_plan next
  filter-Produces e p d rows names q named enough (s, d', opened, y) decided = (
    s,
    d',
    opened,
    (subst (λ (m : Exec (Database × State p) (Option Row)). Yields m (d', s) (Filter.filter q rows))
        (sym (next-filter e p names named))
        (filter_next-filter (next py crc32 fuel p) e (column_index names) q fuel (d', s) rows enough
          y decided)),
  )

  pub limit-Produces :
      (count : ℕ) (p : Plan) (d : Database) (rows : List Row)
      → Produces p d rows
      → Produces (limit count p) d (take count rows)
  unfolding open_plan next
  limit-Produces count p d rows (s, d', opened, y) = (
    (s, 0),
    d',
    rw opened refl,
    (beside-Yields d' s 0 (limit_next-take (next py crc32 fuel p) count (d', s) rows y)),
  )

  pub distinct-Produces :
      (p : Plan) (d : Database) (rows : List Row)
      → length rows < fuel
      → Produces p d rows
      → Produces (distinct p) d (first_seen [] rows)
  unfolding open_plan next
  distinct-Produces p d rows enough (s, d', opened, y) = (
    (s, []),
    d',
    rw opened refl,
    (beside-Yields d' s []
        (distinct_next-first_seen (next py crc32 fuel p) fuel (d', s) rows enough y)),
  )

  pub sort-Produces :
      (items : List OrderItem) (p : Plan) (d : Database) (rows sorted : List Row)
      (names : List Text)
      → names_of p ≡ ok names
      → length rows < fuel
      → Produces p d rows
      → sort_rows (column_index names) items rows ≡ ok sorted
      → Produces (sort items p) d sorted
  unfolding open_plan next
  sort-Produces items p d rows sorted names named enough (s, d', opened, y) ordered =
      let (end, read) = drain-Yields (next py crc32 fuel p) fuel (d', s) rows enough y in
      let call =
        with_state_ok (sort_open (next py crc32 fuel p) fuel (column_index names) items) d' s sorted
          end
          (sort_open_ok (next py crc32 fuel p) fuel (column_index names) items (d', s) end rows
            sorted read ordered) in
      (
        (end.1, (sorted, 0)),
        end.0,
        continue-ok _ opened (
            continue-ok _ (ap (λ (r : Result (List Text)). (r, d')) named)
              (continue-ok _ call refl)),
        (of_own-Yields end.0 end.1 (sort_next-drop (length sorted) sorted 0 (omega arith))),
      )

  -- A plan that yields some rows is run to a result with these rows, under the plan's column names.
  -- Fuel above the number of rows is enough.
  pub run-Produces :
      (p : Plan) (d : Database) (rows : List Row) (names : List Text)
      → names_of p ≡ ok names
      → length rows < fuel
      → Produces p d rows
      → (d' : Database) × (run py crc32 fuel p d
          ≡ (ok (record { columns = names; rows = rows }), d'))
  unfolding run
  run-Produces p d rows names named enough (s, d', opened, y) =
      let (end, read) = drain-Yields (next py crc32 fuel p) fuel (d', s) rows enough y in
      (
        end.0,
        continue-ok _ (ap (λ (r : Result (List Text)). (r, d)) named) (
            continue-ok _ opened (
              continue-ok _ (with_state_ok (drain (next py crc32 fuel p) fuel) d' s rows end read)
                refl)),
      )
