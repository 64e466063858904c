-- ===== src/Execution/HashAggregate/Partition.antt =====
-- The groups of `HashAggregate` against the rows that have a key.
use query_x_engine.Common.{
  ℕ, zero, suc, ◌≤◌, ◌<◌, ◌≡◌, refl, sym, ◌∙◌, Bool, not, Option, List, [], ◌∷◌, length, All, arith,
  Bool-cases, inl, inr, Result, ok, ◌>>=◌,
}
use mathlib.Core.Path.{subst}
use query_x_engine.Common.Exec.{Exec}
use query_x_engine.Storage.Row.{Text}
use query_x_engine.Execution.Evaluate.{Row}
use query_x_engine.Execution.Operators.{Yields, ended, row}
use query_x_engine.Execution.Filter.{same_row, filter}
use query_x_engine.Execution.Aggregate.{Aggregate, Totals, no_totals, count_row}
use query_x_engine.Execution.HashAggregate.{Group, group_key, add_row, group_row, group_rows}

module _ (aggs : List Aggregate) (idx : List (Text × ℕ)) (columns : List Text) (k : Row → Row) where
  -- what `Aggregate` counts of some rows, from the totals `t` on
  unfoldable pub tally : List Row → Totals → Result Totals
  unfolding count_row
  tally [] t = ok t
  tally (r ∷ rows) t = do t' ← count_row aggs idx r t; tally rows t'

  abbrev pub in_group : Row → Row → Bool
  in_group key r = same_row key (k r)

  abbrev pub elsewhere : Row → Row → Bool
  elsewhere key r = not (same_row key (k r))

  -- The groups of some rows: the first one has the key of the first row and counts the rows with
  -- that key, and the others are the groups of the rows without it.
  pub data Partition : List Row → List Group → Type 0 where
    no_rows : Partition [] []
    group :
        {r : Row} {rows : List Row} {t : Totals} {groups : List Group}
        → tally (r ∷ filter (in_group (k r)) rows) (no_totals aggs) ≡ ok t
        → Partition (filter (elsewhere (k r)) rows) groups
        → Partition (r ∷ rows) (record { key = k r; totals = t } ∷ groups)

  -- the row has its key and can be counted
  abbrev pub Counted : Row → Type 0
  Counted r =
      (group_key columns idx r ≡ ok (k r))
      × ((t : Totals) → (t' : Totals) × (count_row aggs idx r t ≡ ok t'))

  -- the loop over the rows of a list
  unfoldable fold : List Row → List Group → Result (List Group)
  unfolding group_row
  fold [] groups = ok groups
  fold (r ∷ rows) groups = do gs ← group_row aggs idx columns r groups; fold rows gs

  All-filter : (p : Row → Bool) (rows : List Row) → All Counted rows → All Counted (filter p rows)
  unfolding filter
  All-filter p [] h = tt
  All-filter p (r ∷ rows) (c, h) = elim (Bool-cases (p r)) [
    | inl keep ↦ rw keep (c, All-filter p rows h)
    | inr drop ↦ rw drop (All-filter p rows h)
  ]

  length-filter : (p : Row → Bool) (rows : List Row) → length (filter p rows) ≤ length rows
  unfolding filter
  length-filter p [] = omega arith
  length-filter p (r ∷ rows) = ground (arith, length-filter p rows)

  add_row_ok :
      (r : Row) (groups : List Group)
      → Counted r
      → (gs : List Group) × (add_row aggs idx (k r) r groups ≡ ok gs)
  unfolding add_row
  add_row_ok r [] (e, c) =
      let (t, call) = c (no_totals aggs) in (record { key = k r; totals = t } ∷ [], rw call refl)
  add_row_ok r (g ∷ groups) (e, c) =
      let (t, call) = c g.totals in
      let (gs, rest) = add_row_ok r groups (e, c) in
      elim (Bool-cases (same_row g.key (k r))) [
        | inl same ↦ (record { key = g.key; totals = t } ∷ groups, rw same (rw call refl))
        | inr other ↦ (g ∷ gs, rw other (rw rest refl))
      ]

  -- The first group takes the rows with its key, and the rest of the groups takes the other rows.
  absorb :
      (rows : List Row) (q : Row) (t : Totals) (groups : List Group)
      → All Counted rows
      → (t' : Totals) × (gs : List Group) × (fold rows (record { key = q; totals = t } ∷ groups)
          ≡ ok (record { key = q; totals = t' } ∷ gs))
        × (tally (filter (in_group q) rows) t ≡ ok t')
        × (fold (filter (elsewhere q) rows) groups ≡ ok gs)
  unfolding fold tally filter group_row add_row
  absorb [] q t groups h = (t, groups, refl, refl, refl)
  absorb (r ∷ rows) q t groups ((e, c), h) = elim (Bool-cases (same_row q (k r))) [
    | inl same ↦
        let (t1, call) = c t in
        let (t', gs, a, b, d) = absorb rows q t1 groups h in
        (t', gs, rw e (rw same (rw call a)), rw same (rw call b), rw same d)
    | inr other ↦
        let (gs1, call) = add_row_ok r groups (e, c) in
        let (t', gs, a, b, d) = absorb rows q t gs1 h in
        (t', gs, rw e (rw other (rw call a)), rw other b, rw other (rw e (rw call d)))
  ]

  fold-Partition :
      (n : ℕ) (rows : List Row)
      → length rows ≤ n
      → All Counted rows
      → (gs : List Group) × (fold rows [] ≡ ok gs) × Partition rows gs
  unfolding fold tally group_row add_row
  fold-Partition n [] l h = ([], refl, no_rows)
  fold-Partition zero (r ∷ rows) l h = absurd (omega arith)
  fold-Partition (suc n) (r ∷ rows) l ((e, c), h) =
      let (t, call) = c (no_totals aggs) in
      let (t', gs, a, b, d) = absorb rows (k r) t [] h in
      let shorter = length-filter (elsewhere (k r)) rows in
      let (gs', d', p) =
        fold-Partition n (filter (elsewhere (k r)) rows) (omega (arith, shorter))
          (All-filter (elsewhere (k r)) rows h) in
      let twice : ok gs' ≡ ok gs = sym d' ∙ d in
      let same : gs' ≡ gs = ground (arith, twice) in
      (
        record { key = k r; totals = t' } ∷ gs,
        rw e (rw call a),
        group (rw call b) (subst (Partition (filter (elsewhere (k r)) rows)) same p),
      )

  group_rows-fold :
      {S : Type 0} (child : Exec S (Option Row)) (fuel : ℕ) (s : S) (rows : List Row)
      (groups gs : List Group)
      → length rows < fuel
      → Yields child s rows
      → All Counted rows
      → fold rows groups ≡ ok gs
      → (s' : S) × (group_rows aggs idx child columns fuel groups s ≡ (ok gs, s'))
  unfolding group_rows fold group_row
  group_rows-fold child zero s rows groups gs l y h f = absurd (omega arith)
  group_rows-fold child (suc n) s _ groups gs l (ended {s' = s'} e) h f =
      let same : groups ≡ gs = ground (arith, f) in (s', rw e (rw same refl))
  group_rows-fold child (suc n) s _ groups gs l (row {s' = s'} {r = r} {rows = rows} e y)
        ((key, c), h) f =
      let (gs1, call) = add_row_ok r groups (key, c) in
      let rest : fold rows gs1 ≡ ok gs = rw call at (rw key at f) in
      let (end, loop) = group_rows-fold child n s' rows gs1 gs (omega arith) y h rest in
      (end, rw e (rw key (rw call loop)))

  -- Over a child that yields some rows and ends, of which each has its key and can be counted, the
  -- loop of `HashAggregate` raises nothing and returns the partition of the rows by their keys, in
  -- the order in which the keys are first seen: a group holds what `Aggregate` counts of exactly the
  -- rows with its key. Fuel above the number of rows is enough.
  pub group_rows-Partition :
      {S : Type 0} (child : Exec S (Option Row)) (fuel : ℕ) (s : S) (rows : List Row)
      → length rows < fuel
      → Yields child s rows
      → All Counted rows
      → (gs : List Group) × (s' : S) × (group_rows aggs idx child columns fuel [] s ≡ (ok gs, s'))
        × Partition rows gs
  group_rows-Partition child fuel s rows l y h =
      let (gs, f, p) = fold-Partition (length rows) rows (omega arith) h in
      let (s', call) = group_rows-fold child fuel s rows [] gs l y h f in (gs, s', call, p)
