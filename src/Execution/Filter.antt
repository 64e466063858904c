-- ===== src/Execution/Filter.antt =====
-- `Filter` and `Distinct` of queryx/execution/operators.py. Their `next` pulls from the child until a
-- row passes; the fuel bounds the rows that it pulls.
use query_x_engine.Common.{
  ℕ, zero, suc, ◌<◌, ◌≡◌, refl, ◌∙◌, Bool, true, false, ◌&&◌, Option, none, some, List, [], ◌∷◌,
  length, All, arith, if◌then◌else◌, Bool-cases, inl, inr, ok, raise, out_of_fuel,
}
use query_x_engine.Common.Exec.{Exec, pure, throw, lift, gets, modify, ◌>>=◌, ◌>>◌}
use query_x_engine.Storage.Row.{Text}
use query_x_engine.Sql.Tokens
use query_x_engine.Sql.Ast.{Expr}
use query_x_engine.Execution.Evaluate.{Row, Datum, evaluate, truth, order_of, compare_by}
use query_x_engine.Execution.Operators.{pull, Yields, ended, row}

-- `==` of two data, and of two tuples
unfoldable pub same_datum : Datum → Datum → Bool
same_datum a b = elim (compare_by Tokens.eq_token (order_of a b)) [ ok e ↦ e | raise _ ↦ false ]

unfoldable pub same_row : Row → Row → Bool
same_row [] [] = true
same_row [] (b ∷ t) = false
same_row (a ∷ r) [] = false
same_row (a ∷ r) (b ∷ t) = let rest = same_row r t in same_datum a b && rest

-- `row in self._seen`
unfoldable pub is_seen : List Row → Row → Bool
is_seen [] r = false
is_seen (s ∷ seen) r = if same_row s r then true else is_seen seen r

module _ {S : Type 0} (child : Exec S (Option Row)) where
  -- `Filter.next`
  unfoldable pub filter_next : ℕ → Expr → List (Text × ℕ) → Exec S (Option Row)
  filter_next zero predicate index_of = throw out_of_fuel
  filter_next (suc fuel) predicate index_of =
      let again = filter_next fuel predicate index_of in
      do
        found ← child
        elim found [
          | none ↦ pure none
          | some r ↦ do
            d ← lift (evaluate predicate r index_of)
            if truth d then pure (some r) else again
        ]

  -- `Distinct.next`, with the rows seen so far as its field
  unfoldable pub distinct_next : ℕ → Exec (S × List Row) (Option Row)
  unfolding pull
  distinct_next zero = throw out_of_fuel
  distinct_next (suc fuel) =
      let again = distinct_next fuel in
      do
        found ← pull child
        seen ← gets (λ s. s.1)
        elim found [
          | none ↦ pure none
          | some r ↦
              if is_seen seen r then again else (do modify (λ s. (s.0, r ∷ s.1)); pure (some r))
        ]

-- an operator whose next call is that of another state yields what that state does
pub restart :
    {S : Type 0} {next : Exec S (Option Row)} {s s' : S} {rows : List Row}
    → next s ≡ next s'
    → Yields next s' rows
    → Yields next s rows
restart e (ended h) = ended (e ∙ h)
restart e (row h y) = row (e ∙ h) y

-- the rows for which a test holds, in order
unfoldable pub filter : (Row → Bool) → List Row → List Row
filter p [] = []
filter p (r ∷ rows) = let rest = filter p rows in if p r then r ∷ rest else rest

-- the rows that stand in none of `seen` and at no earlier place
unfoldable pub first_seen : List Row → List Row → List Row
first_seen seen [] = []
first_seen seen (r ∷ rows) =
    let new = first_seen (r ∷ seen) rows in
    let old = first_seen seen rows in if is_seen seen r then old else r ∷ new

module _ {S : Type 0} (child : Exec S (Option Row)) (predicate : Expr) (index_of : List (Text × ℕ))
    (p : Row → Bool) where
  -- the predicate evaluates on the row, to what `p` says
  abbrev pub Decides : Row → Type 0
  Decides r = (d : Datum) × (evaluate predicate r index_of ≡ ok d) × (truth d ≡ p r)

  -- the fuel does not matter if it exceeds the number of rows that are left
  fuel_same :
      (f g : ℕ) {s : S} {rows : List Row}
      → length rows < f
      → length rows < g
      → Yields child s rows
      → All Decides rows
      → filter_next child f predicate index_of s ≡ filter_next child g predicate index_of s
  unfolding filter_next
  fuel_same zero g h h' y d = absurd (omega arith)
  fuel_same (suc f) zero h h' y d = absurd (omega arith)
  fuel_same (suc f) (suc g) h h' (ended e) d = rw e refl
  fuel_same (suc f) (suc g) {rows = r ∷ rows} h h' (row {s' = s'} e y) ((d, ev, t), ds) = rw e (
      rw ev (elim (Bool-cases (truth d)) [
        | inl keep ↦ rw keep refl
        | inr drop ↦ rw drop (fuel_same f g (omega arith) (omega arith) y ds)
      ]))

  -- Over a child that yields some rows and ends, on which the predicate evaluates without an error,
  -- `Filter` yields exactly those for which it is true, in their order, and ends. Fuel above the
  -- number of rows is enough.
  pub filter_next-filter :
      (fuel : ℕ) (s : S) (rows : List Row)
      → length rows < fuel
      → Yields child s rows
      → All Decides rows
      → Yields (filter_next child fuel predicate index_of) s (filter p rows)
  unfolding filter_next filter
  filter_next-filter zero s rows h y d = absurd (omega arith)
  filter_next-filter (suc f) s _ h (ended {s' = s'} e) d = ended {s' = s'} (rw e refl)
  filter_next-filter (suc f) s _ h (row {s' = s'} {r = r} {rows = rows} e y) ((d, ev, t), ds) =
      let rest = filter_next-filter (suc f) s' rows (omega arith) y ds in
      elim (Bool-cases (p r)) [
        | inl keep ↦
            let pass : truth d ≡ true = t ∙ keep in
            rw keep (row {s' = s'} (rw e (rw ev (rw pass refl))) rest)
        | inr drop ↦
            let fail : truth d ≡ false = t ∙ drop in
            rw drop (
              restart
                ((rw e (rw ev (rw fail refl)))
                  ∙ fuel_same f (suc f) (omega arith) (omega arith) y ds)
                rest)
      ]

module _ {S : Type 0} (child : Exec S (Option Row)) where
  distinct_fuel :
      (f g : ℕ) {s : S} (seen : List Row) {rows : List Row}
      → length rows < f
      → length rows < g
      → Yields child s rows
      → distinct_next child f (s, seen) ≡ distinct_next child g (s, seen)
  unfolding distinct_next
  distinct_fuel zero g seen h h' y = absurd (omega arith)
  distinct_fuel (suc f) zero seen h h' y = absurd (omega arith)
  distinct_fuel (suc f) (suc g) seen h h' (ended e) = rw e refl
  distinct_fuel (suc f) (suc g) seen {rows = r ∷ rows} h h' (row {s' = s'} e y) =
      rw e (elim (Bool-cases (is_seen seen r)) [
        | inl old ↦ rw old (distinct_fuel f g seen (omega arith) (omega arith) y)
        | inr new ↦ rw new refl
      ])

  distinct_from :
      (fuel : ℕ) (s : S) (seen rows : List Row)
      → length rows < fuel
      → Yields child s rows
      → Yields (distinct_next child fuel) (s, seen) (first_seen seen rows)
  unfolding distinct_next first_seen
  distinct_from zero s seen rows h y = absurd (omega arith)
  distinct_from (suc f) s seen _ h (ended {s' = s'} e) = ended {s' = (s', seen)} (rw e refl)
  distinct_from (suc f) s seen _ h (row {s' = s'} {r = r} {rows = rows} e y) =
      elim (Bool-cases (is_seen seen r)) [
        | inl old ↦ rw old (
            restart
              ((rw e (rw old refl)) ∙ distinct_fuel f (suc f) seen (omega arith) (omega arith) y)
              (distinct_from (suc f) s' seen rows (omega arith) y))
        | inr new ↦ rw new (
            row {s' = (s', r ∷ seen)} (rw e (rw new refl))
              (distinct_from (suc f) s' (r ∷ seen) rows (omega arith) y))
      ]

  -- Over a child that yields some rows and ends, `Distinct` yields the rows that equal no earlier
  -- one, in their order, and ends. Fuel above the number of rows is enough.
  pub distinct_next-first_seen :
      (fuel : ℕ) (s : S) (rows : List Row)
      → length rows < fuel
      → Yields child s rows
      → Yields (distinct_next child fuel) (s, []) (first_seen [] rows)
  distinct_next-first_seen fuel s rows h y = distinct_from fuel s [] rows h y
