-- ===== src/Execution/Join.antt =====
-- `NestedLoopJoin` and `IndexNestedLoopJoin` of queryx/execution/operators.py. The state of a join
-- holds its left child's.
use query_x_engine.Common.{
  ℕ, zero, suc, ◌+◌, ◌<◌, ◌≡◌, refl, sym, ap, ◌∙◌, Bool, true, false, Option, none, some, List, [],
  ◌∷◌, ◌++◌, length, All, arith, if◌then◌else◌, drop, Bool-cases, inl, inr, ok, out_of_fuel,
  Result-cases,
}
use mathlib.Core.Path.{subst}
use query_x_engine.Common.Exec.{Exec, pure, throw, lift, gets, modify, ◌>>=◌, ◌>>◌}
use query_x_engine.Storage.Row.{Text}
use query_x_engine.Sql.Ast.{Expr}
use query_x_engine.Execution.Evaluate.{Row, Datum, evaluate, truth}
use query_x_engine.Execution.Operators.{Yields, ended, row}
use query_x_engine.Execution.Filter.{restart}

-- the fields of a `NestedLoopJoin` that change
pub record Loop (S : Type 0) : Type 0 where
  pub left : S
  pub right_rows : List Row
  pub left_row : Option Row
  pub ri : ℕ

module _ {S : Type 0} (left : Exec S (Option Row)) where
  -- the loop of `open` that reads all rows of an input
  unfoldable pub drain : ℕ → Exec S (List Row)
  drain zero = throw out_of_fuel
  drain (suc fuel) =
      let more = drain fuel in
      do found ← left; elim found [ none ↦ pure [] | some r ↦ do rest ← more; pure (r ∷ rest) ]

  -- Reading all rows of an operator that yields some rows and ends gives those rows.
  pub drain-Yields :
      (fuel : ℕ) (s : S) (rows : List Row)
      → length rows < fuel
      → Yields left s rows
      → (s' : S) × (drain fuel s ≡ (ok rows, s'))
  unfolding drain
  drain-Yields zero s rows h y = absurd (omega arith)
  drain-Yields (suc f) s _ h (ended {s' = s'} e) = (s', rw e refl)
  drain-Yields (suc f) s _ h (row {s' = s'} {rows = rows} e y) =
      let (end, call) = drain-Yields f s' rows (omega arith) y in (end, rw e (rw call refl))

  -- the inner loop of `NestedLoopJoin.next`, over the right rows that are left
  unfoldable pub probe : Expr → List (Text × ℕ) → Row → List Row → Exec (Loop S) (Option Row)
  probe on idx l [] = pure none
  probe on idx l (r ∷ rights) =
      let again = probe on idx l rights in
      do
        modify (λ s. record s { ri = s.ri + 1 })
        d ← lift (evaluate on (l ++ r) idx)
        if truth d then pure (some (l ++ r)) else again

  -- a call of the left child's `next`
  unfoldable pub pull_left : Exec (Loop S) (Option Row)
  pull_left s = ((left s.left).0, record s { left = (left s.left).1 })

  -- the start of a round: the current left row, or a new one
  unfoldable pub current : Option Row → Exec (Loop S) (Option Row)
  unfolding pull_left
  current (some l) = pure (some l)
  current none = do
    found ← pull_left
    elim found [
      | none ↦ do modify (λ s. record s { left_row = none }); pure none
      | some l ↦ do modify (λ s. record s { left_row = some l; ri = 0 }); pure (some l)
    ]

  -- `NestedLoopJoin.next`
  unfoldable pub join_next : ℕ → Expr → List (Text × ℕ) → Exec (Loop S) (Option Row)
  unfolding current probe
  join_next zero on idx = throw out_of_fuel
  join_next (suc fuel) on idx =
      let again = join_next fuel on idx in
      do
        old ← gets (λ s. s.left_row)
        l ← current old
        elim l [
          | none ↦ pure none
          | some l ↦ do
            rights ← gets (λ s. drop s.ri s.right_rows)
            found ← probe on idx l rights
            elim found [
              | some r ↦ pure (some r)
              | none ↦ do modify (λ s. record s { left_row = none }); again
            ]
        ]

-- the rows of `l` joined with each of `rights`, those that satisfy `p`
unfoldable pub matches : (Row → Bool) → Row → List Row → List Row
matches p l [] = []
matches p l (r ∷ rights) =
    let rest = matches p l rights in if p (l ++ r) then (l ++ r) ∷ rest else rest

-- the join as SQL defines it: all pairs, left row by left row, that satisfy `p`
unfoldable pub join_of : (Row → Bool) → List Row → List Row → List Row
join_of p [] rights = []
join_of p (l ∷ lefts) rights = matches p l rights ++ join_of p lefts rights

drop-suc :
    (all : List Row) (i : ℕ) (r : Row) (rest : List Row)
    → drop i all ≡ r ∷ rest
    → drop (suc i) all ≡ rest
drop-suc [] zero r rest h = cc
drop-suc (x ∷ all) zero r rest h = ground arith
drop-suc [] (suc i) r rest h = cc
drop-suc (x ∷ all) (suc i) r rest h = drop-suc all i r rest h

drop_next :
    (all : List Row) (i : ℕ) (r : Row) (rest : List Row)
    → drop i all ≡ r ∷ rest
    → drop (i + 1) all ≡ rest
drop_next all i r rest h =
    let next : i + 1 ≡ suc i = omega arith in ap (λ n. drop n all) next ∙ drop-suc all i r rest h

module _ {S : Type 0} (left : Exec S (Option Row)) (on : Expr) (idx : List (Text × ℕ)) where
  probe-left :
      (l : Row) (rights : List Row) (s : Loop S) → (probe left on idx l rights s).1.left ≡ s.left
  unfolding probe
  probe-left l [] s = refl
  probe-left l (r ∷ rights) s = elim (Result-cases (evaluate on (l ++ r) idx)) [
    | inl (d, e) ↦ rw e (elim (Bool-cases (truth d)) [
      | inl keep ↦ rw keep refl
      | inr drop ↦ rw drop (probe-left l rights (record s { ri = s.ri + 1 }))
    ])
    | inr (x, e) ↦ rw e refl
  ]

  -- the fuel does not matter at the start of a round if it exceeds the left rows that are left
  round_fuel :
      (f g : ℕ) (s : Loop S) {rows : List Row}
      → length rows < f
      → length rows < g
      → s.left_row ≡ none
      → Yields left s.left rows
      → join_next left f on idx s ≡ join_next left g on idx s
  unfolding join_next
  round_fuel zero g s h h' n y = absurd (omega arith)
  round_fuel (suc f) zero s h h' n y = absurd (omega arith)
  round_fuel (suc f) (suc g) s h h' n (ended e) = rw (n, current) (rw e refl)
  round_fuel (suc f) (suc g) s {rows = l ∷ rows} h h' n (row {s' = s'} e y) =
      let s1 : Loop S = record {
        left = s';
        right_rows = s.right_rows;
        left_row = some l;
        ri = 0;
      } in
      rw (n, current)
        (rw e (elim (Result-cases (probe left on idx l s.right_rows s1).0) [
          | inl (none, found) ↦ rw found (
              round_fuel f g (record (probe left on idx l s.right_rows s1).1 { left_row = none })
                (omega arith) (omega arith) refl
                (subst (λ t. Yields left t rows) (sym (probe-left l s.right_rows s1)) y))
          | inl (some r, found) ↦ rw found refl
          | inr (x, found) ↦ rw found refl
        ]))

  module _ (p : Row → Bool) where
    -- the ON predicate evaluates on the row, to what `p` says
    abbrev pub Decides : Row → Type 0
    Decides r = (d : Datum) × (evaluate on r idx ≡ ok d) × (truth d ≡ p r)

    -- the pairs of the left row `l` that are left, and then the rows that the next rounds yield
    pairs :
        (f : ℕ) (s : S) (all : List Row) (l : Row) (i : ℕ) (rights lefts rows : List Row)
        → length lefts < f
        → Yields left s lefts
        → drop i all ≡ rights
        → All (λ r. Decides (l ++ r)) rights
        → ((j : ℕ)
            → Yields
                (join_next left (suc f) on idx)
                (record { left = s; right_rows = all; left_row = none; ri = j })
                rows)
        → Yields
            (join_next left (suc f) on idx)
            (record { left = s; right_rows = all; left_row = some l; ri = i })
            (matches p l rights ++ rows)
    unfolding join_next current probe matches
    pairs f s all l i [] lefts rows h y at d next =
        restart
          ((rw (at, probe) refl)
            ∙ round_fuel f (suc f) (record { left = s; right_rows = all; left_row = none; ri = i })
                h (omega arith) refl y)
          (next i)
    pairs f s all l i (r ∷ rights) lefts rows h y at ((d, ev, t), ds) next =
        let at' : drop (i + 1) all ≡ rights = drop_next all i r rights at in
        let rest = pairs f s all l (i + 1) rights lefts rows h y at' ds next in
        let after : Loop S = record { left = s; right_rows = all; left_row = some l; ri = i + 1 } in
        elim (Bool-cases (p (l ++ r))) [
          | inl keep ↦
              let pass : truth d ≡ true = t ∙ keep in
              rw keep (row {s' = after} (rw (at, probe) (rw ev (rw pass refl))) rest)
          | inr skip ↦
              let fail : truth d ≡ false = t ∙ skip in
              rw skip (restart (rw (at, at', probe) (rw ev (rw fail refl))) rest)
        ]

    rounds :
        (f : ℕ) (s : S) (i : ℕ) (lefts rights : List Row)
        → length lefts < f
        → Yields left s lefts
        → All (λ l. All (λ r. Decides (l ++ r)) rights) lefts
        → Yields
            (join_next left (suc f) on idx)
            (record { left = s; right_rows = rights; left_row = none; ri = i })
            (join_of p lefts rights)
    unfolding join_next current join_of
    rounds f s i _ rights h (ended {s' = s'} e) d =
        ended {s' = record { left = s'; right_rows = rights; left_row = none; ri = i }} (rw e refl)
    rounds f s i _ rights h (row {s' = s'} {r = l} {rows = lefts} e y) (d, ds) =
        restart (rw e refl) (
          pairs f s' rights l 0 rights lefts (join_of p lefts rights) (omega arith) y refl d
            (λ j. rounds f s' j lefts rights (omega arith) y ds))

    -- Over a left child that yields some rows and ends, and with the right rows read, where the ON
    -- predicate evaluates on every pair without an error, `NestedLoopJoin` yields exactly the pairs
    -- for which it is true, in the order of the left rows and then of the right ones, and ends. Fuel
    -- above the number of left rows by two is enough.
    pub join_next-join_of :
        (fuel : ℕ) (s : S) (lefts rights : List Row)
        → length lefts + 1 < fuel
        → Yields left s lefts
        → All (λ l. All (λ r. Decides (l ++ r)) rights) lefts
        → Yields
            (join_next left fuel on idx)
            (record { left = s; right_rows = rights; left_row = none; ri = 0 })
            (join_of p lefts rights)
    join_next-join_of zero s lefts rights h y d = absurd (omega arith)
    join_next-join_of (suc f) s lefts rights h y d = rounds f s 0 lefts rights (omega arith) y d
