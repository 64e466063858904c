-- ===== src/Planner/Sargable.antt =====
-- The comparisons of a predicate that an index can serve: `normalize_comparison` and
-- `sargable_comparisons` of queryx/planner/optimizer.py.
pub mod Flip
pub mod Holds
use query_x_engine.Common.{
  ℕ, ◌≡◌, ◌↔◌, ◌⊎◌, inl, inr, refl, sym, ap, ◌∙◌, Bool, true, false, not, ◌&&◌, ◌||◌, Option, none,
  some, List, [], ◌∷◌, ◌++◌, All, arith, ltb, ◌==◌, if◌then◌else◌, Bool-cases, Option-cases,
  Result-cases, Result, ok, raise, key_error, ◌>>=◌, >>=-eq-ok,
}
use query_x_engine.Common.Bytes.{bytes_eq}
use query_x_engine.Common.Int.{ℤ, pos, negsuc, ltb_ℤ, eqb_ℤ}
use query_x_engine.Common.Dict.{get, bytes_eq_sym}
use query_x_engine.Storage.Row.{Text, Value, num, str}
use query_x_engine.Sql.Tokens.{
  TokenType, eq_token, neq_token, lt_token, gt_token, lte_token, gte_token, enum_value,
}
use query_x_engine.Sql.Ast.{
  Expr, Column, column, literal, star, aggregate, comparison, and_node, or_node, not_node, key,
}
use query_x_engine.Execution.Evaluate.{
  Row, Datum, value, bool, number, truth, text_lt, order_of, compare_by, at_position, evaluate,
}

-- a comparison of a column with a value
pub record Condition : Type 0 where
  pub column : Text
  pub op : TokenType
  pub value : Value

-- `_FLIP[op]`
unfoldable pub flip : TokenType → Result TokenType
flip lt_token = ok gt_token
flip gt_token = ok lt_token
flip lte_token = ok gte_token
flip gte_token = ok lte_token
flip eq_token = ok eq_token
flip neq_token = ok neq_token
flip _ = raise key_error

-- isinstance(expr, ast.Column)
unfoldable pub as_column : Expr → Option Column
as_column (column c) = some c
as_column _ = none

-- isinstance(expr, ast.Literal), and its value
unfoldable pub as_literal : Expr → Option Value
as_literal (literal v type) = some v
as_literal _ = none

-- `normalize_comparison`, by the kinds of the two sides
unfoldable pub normal :
    TokenType
    → Option Column
    → Option Value
    → Option Column
    → Option Value
    → Result (Option Condition)
normal op (some c) (some v) _ _ = ok (some (record { column = c.name; op = op; value = v }))
normal op none v (some c) (some w) = do
  flipped ← flip op
  ok (some (record { column = c.name; op = flipped; value = w }))
normal op (some d) none (some c) (some w) = do
  flipped ← flip op
  ok (some (record { column = c.name; op = flipped; value = w }))
normal op _ _ _ _ = ok none

unfoldable pub normalize_comparison : TokenType → Expr → Expr → Result (Option Condition)
unfolding normal as_column as_literal
normalize_comparison op left right =
    normal op (as_column left) (as_literal right) (as_column right) (as_literal left)

unfoldable pub to_list : Option Condition → List Condition
to_list none = []
to_list (some c) = c ∷ []

unfoldable pub sargable_comparisons : Expr → Result (List Condition)
unfolding normalize_comparison to_list
sargable_comparisons (comparison op left right) = do
  norm ← normalize_comparison op left right
  ok (to_list norm)
sargable_comparisons (and_node left right) =
    let second = sargable_comparisons right in
    do a ← sargable_comparisons left; b ← second; ok (a ++ b)
sargable_comparisons _ = ok []
