-- ===== src/Sql/Parser/Expressions.antt =====
-- The predicates of queryx/sql/parser.py, by layers of precedence. `expr` stands for the call of
-- `_expression` on what a parenthesis opens.
use query_x_engine.Common.{
  ℕ, zero, suc, true, false, none, some, List, [], ◌∷◌, length, out_of_fuel,
}
use query_x_engine.Common.Exec.{pure, throw, gets, ◌>>=◌, ◌>>◌}
use query_x_engine.Sql.Tokens
use query_x_engine.Sql.Tokens.{TokenType, Token}
use query_x_engine.Sql.Ast.{Expr, comparison, and_node, or_node, not_node}
use query_x_engine.Sql.Parser.{
  Parser, peek, match_one, match_any, expect, aggregate_func, aggregate_call, literal_or_column,
}

unfoldable pub primary : Parser Expr → Parser Expr
primary expr = do
  opened ← match_one Tokens.lparen_token
  elim opened [
    | true ↦ do inner ← expr; expect Tokens.rparen_token; pure inner
    | false ↦ do
      token ← peek
      elim (aggregate_func token.type) [
        | some func ↦ aggregate_call func
        | none ↦ literal_or_column
      ]
  ]

abbrev comparisons : List TokenType
comparisons =
    Tokens.eq_token ∷ Tokens.neq_token ∷ Tokens.lt_token ∷ Tokens.gt_token ∷ Tokens.lte_token
    ∷ Tokens.gte_token ∷ []

unfoldable pub comparison_expr : Parser Expr → Parser Expr
unfolding primary
comparison_expr expr = do
  left ← primary expr
  op ← match_any comparisons
  elim op [
    | some token ↦ do right ← primary expr; pure (comparison token.type left right)
    | none ↦ pure left
  ]

unfoldable pub not_from : ℕ → Parser Expr → Parser Expr
not_from zero expr = throw out_of_fuel
not_from (suc fuel) expr = do
  negated ← match_one Tokens.not_token
  elim negated [
    | true ↦ do operand ← not_from fuel expr; pure (not_node operand)
    | false ↦ comparison_expr expr
  ]

unfoldable pub not_expr : Parser Expr → Parser Expr
unfolding not_from comparison_expr
not_expr expr = do fuel ← gets (λ s. suc (length s)); not_from fuel expr

-- `while self._match(type): left = node(left, operand())`
unfoldable pub chain : ℕ → TokenType → (Expr → Expr → Expr) → Parser Expr → Expr → Parser Expr
chain zero type node operand left = throw out_of_fuel
chain (suc fuel) type node operand left = do
  again ← match_one type
  elim again [
    | true ↦ do right ← operand; chain fuel type node operand (node left right)
    | false ↦ pure left
  ]

unfoldable pub and_expr : Parser Expr → Parser Expr
unfolding chain not_expr
and_expr expr = do
  left ← not_expr expr
  fuel ← gets (λ s. suc (length s))
  chain fuel Tokens.and_token and_node (not_expr expr) left

unfoldable pub or_expr : Parser Expr → Parser Expr
unfolding chain and_expr
or_expr expr = do
  left ← and_expr expr
  fuel ← gets (λ s. suc (length s))
  chain fuel Tokens.or_token or_node (and_expr expr) left

unfoldable pub expression_from : ℕ → Parser Expr
expression_from zero = throw out_of_fuel
expression_from (suc fuel) = or_expr (expression_from fuel)

unfoldable pub expression : Parser Expr
unfolding expression_from or_expr
expression = do fuel ← gets (λ s. suc (length s)); expression_from fuel
