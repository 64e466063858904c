-- ===== src/Planner/Statistics.antt =====
-- queryx/planner/statistics.py. Floating-point numbers are a parameter: their operations are those
-- of Python, and no law of them is used.
use query_x_engine.Common.{ℕ, Bool, Option, none, some, List, length, ltb, ◌==◌, if◌then◌else◌}
use query_x_engine.Common.Int.{ℤ, pos, negsuc}
use query_x_engine.Common.Dict.{get}
use query_x_engine.Storage.Row.{Text}
use query_x_engine.Sql.Tokens.{
  TokenType, eq_token, neq_token, lt_token, gt_token, lte_token, gte_token,
}
use query_x_engine.Sql.Ast.{Expr, comparison, and_node, or_node, not_node}
use query_x_engine.Planner.Sargable.{as_column, as_literal}

-- `float`, with `round` to an integer, the literal 0.1, and the builtins that the planner calls
pub record Floats : Type 1 where
  pub Float : Type 0
  pub of_ℕ : ℕ → Float
  pub tenth : Float
  pub add : Float → Float → Float
  pub sub : Float → Float → Float
  pub mul : Float → Float → Float
  pub div : Float → Float → Float
  pub lt : Float → Float → Bool
  pub max : Float → Float → Float
  pub log : Float → Float → Float
  pub round : Float → ℤ

pub record TableStats : Type 0 where
  pub row_count : ℕ
  pub num_data_pages : ℕ

-- `_comparison_column`
pub first_column : Option Text → Option Text → Option Text
first_column (some c) d = some c
first_column none d = d

unfoldable pub column_against : Expr → Expr → Option Text
unfolding as_column as_literal
column_against e f = elim (as_column e) [
  | none ↦ none
  | some c ↦ elim (as_literal f) [ none ↦ none | some v ↦ some c.name ]
]

unfoldable pub comparison_column : Expr → Expr → Option Text
unfolding column_against first_column
comparison_column left right = first_column (column_against left right) (column_against right left)

-- max(0, min(row_count, n))
unfoldable pub clamp : ℕ → ℤ → ℕ
clamp row_count (pos n) = if ltb n row_count then n else row_count
clamp row_count (negsuc n) = 0

module _ (f : Floats) where
  -- `1.0 / n_distinct if n_distinct else DEFAULT_EQ_SELECTIVITY`
  unfoldable pub equality_selectivity : Option ℕ → f.Float
  equality_selectivity none = f.tenth
  equality_selectivity (some n) = if n == 0 then f.tenth else f.div (f.of_ℕ 1) (f.of_ℕ n)

  unfoldable pub range_selectivity : f.Float
  range_selectivity = f.div (f.of_ℕ 1) (f.of_ℕ 3)

  unfoldable pub comparison_selectivity : TokenType → Option ℕ → f.Float
  unfolding equality_selectivity range_selectivity
  comparison_selectivity eq_token n_distinct = equality_selectivity n_distinct
  comparison_selectivity neq_token n_distinct = f.sub (f.of_ℕ 1) (equality_selectivity n_distinct)
  comparison_selectivity lt_token n_distinct = range_selectivity
  comparison_selectivity gt_token n_distinct = range_selectivity
  comparison_selectivity lte_token n_distinct = range_selectivity
  comparison_selectivity gte_token n_distinct = range_selectivity
  comparison_selectivity _ n_distinct = f.of_ℕ 1

  -- `n_distinct_by_column.get(column) if column else None`; an empty name is false too
  unfoldable pub distinct_of : Option Text → List (Text × ℕ) → Option ℕ
  distinct_of none known = none
  distinct_of (some name) known = if length name == 0 then none else get name known

  unfoldable pub expr_selectivity : Expr → List (Text × ℕ) → f.Float
  unfolding comparison_selectivity distinct_of comparison_column
  expr_selectivity (comparison op left right) known =
      comparison_selectivity op (distinct_of (comparison_column left right) known)
  expr_selectivity (and_node left right) known =
      f.mul (expr_selectivity left known) (expr_selectivity right known)
  expr_selectivity (or_node left right) known =
      let s1 = expr_selectivity left known in
      let s2 = expr_selectivity right known in f.sub (f.add s1 s2) (f.mul s1 s2)
  expr_selectivity (not_node operand) known = f.sub (f.of_ℕ 1) (expr_selectivity operand known)
  expr_selectivity _ known = f.of_ℕ 1

  unfoldable pub predicate_selectivity : Option Expr → List (Text × ℕ) → f.Float
  unfolding expr_selectivity
  predicate_selectivity none known = f.of_ℕ 1
  predicate_selectivity (some e) known = expr_selectivity e known

  unfoldable pub estimate_rows : ℕ → f.Float → ℕ
  unfolding clamp
  estimate_rows row_count selectivity =
      clamp row_count (f.round (f.mul (f.of_ℕ row_count) selectivity))
