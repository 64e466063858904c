-- ===== src/Planner/Optimizer.antt =====
-- `choose_access_path` of queryx/planner/optimizer.py.
pub mod Choice
use query_x_engine.Common.{
  ℕ, ◌≡◌, Bool, true, false, not, ◌&&◌, ◌||◌, Option, none, some, List, [], ◌∷◌, ltb, ◌==◌,
  if◌then◌else◌, Result, ok, raise, ◌>>=◌,
}
use query_x_engine.Common.Bytes.{bytes_eq}
use query_x_engine.Common.Int.{eqb_ℤ}
use query_x_engine.Common.Dict.{get, put}
use query_x_engine.Storage.Row.{Text, Value, num, str}
use query_x_engine.Sql.Tokens.{TokenType, eq_token, enum_value}
use query_x_engine.Sql.Ast.{Expr, comparison}
use query_x_engine.Catalog.{IndexInfo}
use query_x_engine.Planner.Sargable.{Condition, normalize_comparison, sargable_comparisons}
use query_x_engine.Planner.Statistics.{
  Floats, TableStats, comparison_selectivity, predicate_selectivity, estimate_rows,
}

pub data Method : Type 0 where
  seq_scan index_scan : Method

-- `hash`, as a string
abbrev pub hash_kind : Text
hash_kind = 104 ∷ 97 ∷ 115 ∷ 104 ∷ []

unfoldable pub same_value : Value → Value → Bool
same_value (num m) (num n) = eqb_ℤ m n
same_value (str s) (str t) = bytes_eq s t
same_value _ _ = false

-- `normalize_comparison(where) == (column, op, value)`
unfoldable pub same_condition : Condition → Option Condition → Bool
unfolding same_value
same_condition c none = false
same_condition c (some d) =
    bytes_eq d.column c.column && (enum_value d.op == enum_value c.op && same_value d.value c.value)

unfoldable pub is_whole_predicate : Expr → Condition → Result Bool
unfolding same_condition
is_whole_predicate (comparison op left right) c = do
  norm ← normalize_comparison op left right
  ok (same_condition c norm)
is_whole_predicate _ c = ok false

-- `{i.column: i for i in indexes}`
unfoldable pub index_by_column : List IndexInfo → List (Text × IndexInfo) → List (Text × IndexInfo)
index_by_column [] d = d
index_by_column (i ∷ indexes) d = index_by_column indexes (put i.column i d)

-- `where` of a statement that has one or none
unfoldable pub sargable : Option Expr → Result (List Condition)
sargable none = ok []
sargable (some e) = sargable_comparisons e

unfoldable pub is_whole : Option Expr → Condition → Result Bool
is_whole none c = ok false
is_whole (some e) c = is_whole_predicate e c

module _ (f : Floats) where
  pub record AccessPath : Type 0 where
    pub method : Method
    pub est_cost : f.Float
    pub est_rows : ℕ
    pub index_name : Option Text
    pub index_kind : Option Text
    pub column : Option Text
    pub op : Option TokenType
    pub value : Option Value
    pub residual : Option Expr
    pub seqscan_cost : f.Float

  unfoldable pub btree_descent_cost : ℕ → f.Float
  btree_descent_cost row_count =
      let n = if ltb row_count 2 then 2 else row_count in
      f.max (f.of_ℕ 2) (f.add (f.log (f.of_ℕ n) (f.of_ℕ 128)) (f.of_ℕ 1))

  unfoldable pub at_least_one : ℕ → ℕ
  at_least_one n = if n == 0 then 1 else n

  -- the path by an index, if it is cheaper; each path keeps the cost of the sequential scan
  unfoldable pub cheaper_of :
      Bool → Option Expr → f.Float → ℕ → IndexInfo → Condition → AccessPath → Result AccessPath
  cheaper_of false where_expr cost matched info c best = ok best
  cheaper_of true where_expr cost matched info c best = do
    whole ← is_whole where_expr c
    ok (record {
      method = index_scan;
      est_cost = cost;
      est_rows = matched;
      index_name = some info.name;
      index_kind = some info.kind;
      column = some c.column;
      op = some c.op;
      value = some c.value;
      residual = if whole then none else where_expr;
      seqscan_cost = best.seqscan_cost;
    })

  -- the end of the loop's body, for an index on the column
  unfoldable pub with_index :
      Option Expr → TableStats → IndexInfo → Condition → AccessPath → Result AccessPath
  unfolding btree_descent_cost at_least_one cheaper_of
  with_index where_expr stats info c best =
      let matched =
        at_least_one
          (estimate_rows f stats.row_count (comparison_selectivity f c.op info.n_distinct)) in
      let descent =
        if bytes_eq info.kind hash_kind then f.of_ℕ 1 else btree_descent_cost stats.row_count in
      let index_cost = f.add descent (f.of_ℕ matched) in
      cheaper_of (f.lt index_cost best.est_cost) where_expr index_cost matched info c best

  -- the body of the loop over the sargable comparisons
  unfoldable pub consider :
      Option Expr → TableStats → Option IndexInfo → Condition → AccessPath → Result AccessPath
  unfolding with_index
  consider where_expr stats none c best = ok best
  consider where_expr stats (some info) c best =
      if bytes_eq info.kind hash_kind && not (enum_value c.op == enum_value eq_token)
      then ok best
      else with_index where_expr stats info c best

  unfoldable pub best_of :
      Option Expr
      → TableStats
      → List (Text × IndexInfo)
      → List Condition
      → AccessPath
      → Result AccessPath
  unfolding consider
  best_of where_expr stats by_column [] best = ok best
  best_of where_expr stats by_column (c ∷ cs) best = do
    better ← consider where_expr stats (get c.column by_column) c best
    best_of where_expr stats by_column cs better

  unfoldable pub seq_path : Option Expr → TableStats → List (Text × ℕ) → AccessPath
  unfolding at_least_one
  seq_path where_expr stats known =
      let cost = f.of_ℕ (at_least_one stats.num_data_pages) in
      record {
        method = seq_scan;
        est_cost = cost;
        est_rows = estimate_rows f stats.row_count (predicate_selectivity f where_expr known);
        index_name = none;
        index_kind = none;
        column = none;
        op = none;
        value = none;
        residual = where_expr;
        seqscan_cost = cost;
      }

  unfoldable pub choose_access_path :
      Option Expr → TableStats → List IndexInfo → List (Text × ℕ) → Result AccessPath
  unfolding best_of seq_path sargable
  choose_access_path where_expr stats indexes known = do
    conditions ← sargable where_expr
    best_of where_expr stats (index_by_column indexes []) conditions
        (seq_path where_expr stats known)
