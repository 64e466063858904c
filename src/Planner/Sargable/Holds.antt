-- ===== src/Planner/Sargable/Holds.antt =====
-- What the conditions of a predicate say of a row for which the predicate is true.
use mathlib.Core.Path.{subst}
use query_x_engine.Common.{
  ℕ, ◌≡◌, inl, inr, refl, sym, ap, ◌∙◌, true, false, Option, none, some, List, [], ◌∷◌, ◌++◌, All,
  arith, Bool-cases, Result, ok, >>=-eq-ok,
}
use query_x_engine.Common.Dict.{get}
use query_x_engine.Storage.Row.{Text, Value}
use query_x_engine.Sql.Tokens.{TokenType}
use query_x_engine.Sql.Ast.{
  Expr, Column, column, literal, star, aggregate, comparison, and_node, or_node, not_node, key,
}
use query_x_engine.Execution.Evaluate.{
  Row, Datum, value, bool, truth, order_of, compare_by, at_position, evaluate,
}
use query_x_engine.Planner.Sargable.{
  Condition, flip, as_column, as_literal, normal, normalize_comparison, to_list,
  sargable_comparisons,
}
use query_x_engine.Planner.Sargable.Flip.{compared-by, Flipped, flip-Flipped}

module _ (row : Row) (idx : List (Text × ℕ)) where
  -- The condition holds of the row, in a column of the condition's name.
  abbrev pub Holds : Condition → Type 0
  Holds c =
      (col : Column) × (col.name ≡ c.column)
      × ((d : Datum) × (at_position row (get (key col) idx) ≡ ok d)
          × (compare_by c.op (order_of d (value c.value)) ≡ ok true))

  as_column-evaluate :
      (e : Expr) (c : Column)
      → as_column e ≡ some c
      → evaluate e row idx ≡ at_position row (get (key c) idx)
  unfolding as_column evaluate
  as_column-evaluate (column c') c h = let same : c' ≡ c = ground (arith, h) in rw same refl
  as_column-evaluate (literal v t) c h = cc
  as_column-evaluate star c h = cc
  as_column-evaluate (aggregate f e) c h = cc
  as_column-evaluate (comparison op a b) c h = cc
  as_column-evaluate (and_node a b) c h = cc
  as_column-evaluate (or_node a b) c h = cc
  as_column-evaluate (not_node a) c h = cc

  as_literal-evaluate :
      (e : Expr) (v : Value) → as_literal e ≡ some v → evaluate e row idx ≡ ok (value v)
  unfolding as_literal evaluate
  as_literal-evaluate (column c) v h = cc
  as_literal-evaluate (literal v' t) v h = let same : v' ≡ v = ground (arith, h) in rw same refl
  as_literal-evaluate star v h = cc
  as_literal-evaluate (aggregate f e) v h = cc
  as_literal-evaluate (comparison op a b) v h = cc
  as_literal-evaluate (and_node a b) v h = cc
  as_literal-evaluate (or_node a b) v h = cc
  as_literal-evaluate (not_node a) v h = cc

  -- a comparison is true if its sides evaluate and compare
  compared :
      (op : TokenType) (l r : Expr) (d : Datum)
      → evaluate (comparison op l r) row idx ≡ ok d
      → truth d ≡ true
      → (a : Datum) × (b : Datum) × (evaluate l row idx ≡ ok a)
        × (evaluate r row idx ≡ ok b)
        × (compare_by op (order_of a b) ≡ ok true)
  unfolding evaluate truth
  compared op l r d h t =
      let (a, e, h1) = >>=-eq-ok (evaluate l row idx) _ h in
      let (b, f, h2) = >>=-eq-ok (evaluate r row idx) _ h1 in
      let (found, g, h3) = >>=-eq-ok (compare_by op (order_of a b)) _ h2 in
      let same : bool found ≡ d = ground (arith, h3) in
      let yes_it_is : found ≡ true = ap truth same ∙ t in (a, b, e, f, g ∙ ap ok yes_it_is)

  column_first :
      (op : TokenType) (l r : Expr) (c : Column) (v : Value) (a b : Datum)
      → as_column l ≡ some c
      → as_literal r ≡ some v
      → evaluate l row idx ≡ ok a
      → evaluate r row idx ≡ ok b
      → compare_by op (order_of a b) ≡ ok true
      → Holds (record { column = c.name; op = op; value = v })
  column_first op l r c v a b e f ea eb g =
      let two : ok b ≡ ok (value v) = sym eb ∙ as_literal-evaluate r v f in
      let same : b ≡ value v = ground (arith, two) in
      (c, refl, (a, sym (as_column-evaluate l c e) ∙ ea, (rw same at g)))

  column_second :
      (op op' : TokenType) (l r : Expr) (c : Column) (v : Value) (a b : Datum)
      → flip op ≡ ok op'
      → as_column r ≡ some c
      → as_literal l ≡ some v
      → evaluate l row idx ≡ ok a
      → evaluate r row idx ≡ ok b
      → compare_by op (order_of a b) ≡ ok true
      → Holds (record { column = c.name; op = op'; value = v })
  unfolding Flipped
  column_second op op' l r c v a b fl e f ea eb g =
      let flipped : compare_by op (order_of a b) ≡ compare_by op' (order_of b a) =
        subst (λ (o : Result TokenType). Flipped op o a b) fl
          (flip-Flipped op a b (compared-by a b)) in
      column_first op' r l c v b a e f eb ea (sym flipped ∙ g)

  -- the condition that a true comparison gives holds
  normal-Holds :
      (op : TokenType) (l r : Expr) (a b : Datum) (lc : Option Column) (rv : Option Value)
      (rc : Option Column) (lv : Option Value) (c : Condition)
      → as_column l ≡ lc
      → as_literal r ≡ rv
      → as_column r ≡ rc
      → as_literal l ≡ lv
      → evaluate l row idx ≡ ok a
      → evaluate r row idx ≡ ok b
      → compare_by op (order_of a b) ≡ ok true
      → normal op lc rv rc lv ≡ ok (some c)
      → Holds c
  unfolding normal
  normal-Holds op l r a b (some k) (some v) rc lv c e f g h ea eb t n =
      let same : record { column = k.name; op = op; value = v } ≡ c = ground (arith, n) in
      subst Holds same (column_first op l r k v a b e f ea eb t)
  normal-Holds op l r a b none rv (some k) (some v) c e f g h ea eb t n =
      let (op', fl, m) = >>=-eq-ok (flip op) _ n in
      let same : record { column = k.name; op = op'; value = v } ≡ c = ground (arith, m) in
      subst Holds same (column_second op op' l r k v a b fl g h ea eb t)
  normal-Holds op l r a b (some j) none (some k) (some v) c e f g h ea eb t n =
      let (op', fl, m) = >>=-eq-ok (flip op) _ n in
      let same : record { column = k.name; op = op'; value = v } ≡ c = ground (arith, m) in
      subst Holds same (column_second op op' l r k v a b fl g h ea eb t)
  normal-Holds op l r a b none rv none lv c e f g h ea eb t n = absurd (ground (arith, n))
  normal-Holds op l r a b none rv (some k) none c e f g h ea eb t n = absurd (ground (arith, n))
  normal-Holds op l r a b (some j) none none lv c e f g h ea eb t n = absurd (ground (arith, n))
  normal-Holds op l r a b (some j) none (some k) none c e f g h ea eb t n =
      absurd (ground (arith, n))

  All-append : (cs ds : List Condition) → All Holds cs → All Holds ds → All Holds (cs ++ ds)
  All-append [] ds h k = k
  All-append (c ∷ cs) ds (h, hs) k = (h, All-append cs ds hs k)

  no_conditions : (cs : List Condition) → [] ≡ cs → All Holds cs
  no_conditions cs e = subst (All Holds) e tt

  both_true :
      (l r : Expr) (d : Datum)
      → evaluate (and_node l r) row idx ≡ ok d
      → truth d ≡ true
      → (a : Datum) × (b : Datum) × (evaluate l row idx ≡ ok a)
        × (truth a ≡ true)
        × (evaluate r row idx ≡ ok b)
        × (truth b ≡ true)
  unfolding evaluate truth
  both_true l r d h t =
      let (a, e, h1) = >>=-eq-ok (evaluate l row idx) _ h in
      elim (Bool-cases (truth a)) [
        | inl yes_a ↦
            let (b, f, h2) = >>=-eq-ok (evaluate r row idx) _ (rw yes_a at h1) in
            let same : bool (truth b) ≡ d = ground (arith, h2) in
            (a, b, e, yes_a, f, ap truth same ∙ t)
        | inr no_a ↦
            let same : bool false ≡ d = ground (arith, rw no_a at h1) in
            let clash : false ≡ true = ap truth same ∙ t in absurd (ground (arith, clash))
      ]

  -- If a WHERE predicate is true of a row, each of its sargable comparisons holds of that row: an
  -- index scan for any of them misses no row of the result.
  pub sargable_comparisons-Holds :
      (e : Expr) (cs : List Condition) (d : Datum)
      → sargable_comparisons e ≡ ok cs
      → evaluate e row idx ≡ ok d
      → truth d ≡ true
      → All Holds cs
  unfolding sargable_comparisons normalize_comparison to_list
  sargable_comparisons-Holds (comparison op l r) cs d s h t =
      let (a, b, ea, eb, g) = compared op l r d h t in
      let (n, e, f) = >>=-eq-ok (normalize_comparison op l r) _ s in
      go n e (ground (arith, f)) a b ea eb g
    where
      go :
          (n : Option Condition)
          → normalize_comparison op l r ≡ ok n
          → to_list n ≡ cs
          → (a b : Datum) → evaluate l row idx ≡ ok a
          → evaluate r row idx ≡ ok b
          → compare_by op (order_of a b) ≡ ok true
          → All Holds cs
      go none e f a b ea eb g = subst (All Holds) f tt
      go (some c) e f a b ea eb g = subst (All Holds) f (
        normal-Holds op l r a b (as_column l) (as_literal r) (as_column r) (as_literal l) c refl
            refl refl refl ea eb g e,
        tt,
      )
  sargable_comparisons-Holds (and_node l r) cs d s h t =
      let (a, b, ea, ta, eb, tb) = both_true l r d h t in
      let (xs, e, s1) = >>=-eq-ok (sargable_comparisons l) _ s in
      let (ys, f, s2) = >>=-eq-ok (sargable_comparisons r) _ s1 in
      let same : xs ++ ys ≡ cs = ground (arith, s2) in
      subst (All Holds) same (
        All-append xs ys (sargable_comparisons-Holds l xs a e ea ta)
          (sargable_comparisons-Holds r ys b f eb tb))
  sargable_comparisons-Holds (column c) cs d s h t = no_conditions cs (ground (arith, s))
  sargable_comparisons-Holds (literal v ty) cs d s h t = no_conditions cs (ground (arith, s))
  sargable_comparisons-Holds star cs d s h t = no_conditions cs (ground (arith, s))
  sargable_comparisons-Holds (aggregate fn e) cs d s h t = no_conditions cs (ground (arith, s))
  sargable_comparisons-Holds (or_node l r) cs d s h t = no_conditions cs (ground (arith, s))
  sargable_comparisons-Holds (not_node l) cs d s h t = no_conditions cs (ground (arith, s))
