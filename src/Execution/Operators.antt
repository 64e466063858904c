-- ===== src/Execution/Operators.antt =====
-- `Limit` and `Projection` of queryx/execution/operators.py, over any child operator: the state of
-- an operator holds its child's, and `child` is the child's `next`.
use query_x_engine.Common.{
  ℕ, zero, suc, ◌+◌, ◌≡◌, refl, true, false, Option, none, some, List, [], ◌∷◌, leb, if◌then◌else◌,
  take, get_elem?, arith, Result, ok, raise, key_error, index_error,
}
use query_x_engine.Common.Exec.{Exec, pure, lift, gets, modify, ◌>>=◌, ◌>>◌}
use query_x_engine.Common.Dict.{get}
use query_x_engine.Storage.Row.{Text}
use query_x_engine.Execution.Evaluate.{Row}

-- `[index_of[name] for name in self.column_names]` of `Projection.open`
unfoldable pub positions : List (Text × ℕ) → List Text → Result (List ℕ)
positions index_of [] = ok []
positions index_of (name ∷ names) = elim (get name index_of) [
  | none ↦ raise key_error
  | some i ↦ elim (positions index_of names) [ ok rest ↦ ok (i ∷ rest) | raise e ↦ raise e ]
]

-- `tuple(row[i] for i in self._positions)`
unfoldable pub reshape : List ℕ → Row → Result Row
reshape [] row = ok []
reshape (i ∷ rest) row = elim (get_elem? row i) [
  | none ↦ raise index_error
  | some d ↦ elim (reshape rest row) [ ok ds ↦ ok (d ∷ ds) | raise e ↦ raise e ]
]

module _ {S : Type 0} (child : Exec S (Option Row)) where
  -- `Projection.next`
  unfoldable pub projection_next : List ℕ → Exec S (Option Row)
  unfolding reshape
  projection_next columns = do
    found ← child
    elim found [
      | none ↦ pure none
      | some r ↦ do shaped ← lift (reshape columns r); pure (some shaped)
    ]

  -- a call of the child's `next`, the operator's own field kept
  unfoldable pub pull : {A : Type 0} → Exec (S × A) (Option Row)
  pull (s, a) = ((child s).0, ((child s).1, a))

  -- `Limit.next`, with the rows emitted so far as its field
  unfoldable pub limit_next : ℕ → Exec (S × ℕ) (Option Row)
  unfolding pull
  limit_next count = do
    emitted ← gets (λ s. s.1)
    if leb count emitted then pure none else (do
      row ← pull
      elim row [ none ↦ pure none | some r ↦ do modify (λ s. (s.0, s.1 + 1)); pure (some r) ])

  -- The operator yields the rows, in order, and then reports its end.
  pub data Yields : S → List Row → Type 0 where
    ended : {s s' : S} → child s ≡ (ok none, s') → Yields s []
    row :
        {s s' : S} {r : Row} {rows : List Row}
        → child s ≡ (ok (some r), s')
        → Yields s' rows
        → Yields s (r ∷ rows)

module _ {S : Type 0} (child : Exec S (Option Row)) (count : ℕ) where
  limit_from :
      (emitted left : ℕ) (s : S) (rows : List Row)
      → emitted + left ≡ count
      → Yields child s rows
      → Yields (limit_next child count) (s, emitted) (take left rows)
  unfolding limit_next
  limit_from emitted zero s rows e y =
      let full : leb count emitted ≡ true = ground arith in ended {s' = (s, emitted)} (rw full refl)
  limit_from emitted (suc left) s _ e (ended {s' = s'} h) =
      let room : leb count emitted ≡ false = ground arith in
      ended {s' = (s', emitted)} (rw (room, h) refl)
  limit_from emitted (suc left) s _ e (row {s' = s'} h y) =
      let room : leb count emitted ≡ false = ground arith in
      row {s' = (s', emitted + 1)} (rw (room, h) refl)
        (limit_from (emitted + 1) left s' _ (omega arith) y)

  -- Over a child that yields some rows and ends, `Limit` yields the first `count` of them and ends.
  pub limit_next-take :
      (s : S) (rows : List Row)
      → Yields child s rows
      → Yields (limit_next child count) (s, 0) (take count rows)
  limit_next-take s rows y = limit_from 0 count s rows (omega arith) y
