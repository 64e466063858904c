-- ===== src/Database/Execute.antt =====
-- `_explain`, `_explain_join` and `execute` of queryx/database.py.
use query_x_engine.Common.{
  ℕ, zero, suc, Bool, true, false, not, Option, none, some, List, [], ◌∷◌, ◌++◌, map, if◌then◌else◌,
  Result, ok, raise, query_error,
}
use query_x_engine.Common
use query_x_engine.Common.Exec.{Exec, pure, lift, gets, ◌>>=◌, ◌>>◌}
use query_x_engine.Common.Bytes.{Bytes}
use query_x_engine.Storage.Row.{Builtins, Text}
use query_x_engine.Sql.Ast.{Expr, OrderItem, Select, Join, Statement, column, key}
use query_x_engine.Sql.Ast
use query_x_engine.Sql.Lexer.{StrMethods}
use query_x_engine.Sql.Parser.Statements.{parse}
use query_x_engine.Catalog
use query_x_engine.Catalog.{Catalog, IndexInfo, index_on, indexes_for_table}
use query_x_engine.Planner.Statistics.{Floats}
use query_x_engine.Planner.Explain.{
  Printing, expr_to_str, join_with, times, limit_node, filter_node, sort_node, format_plan,
}
use query_x_engine.Database.{Database, on_catalog, create_table, drop_table, drop_index}
use query_x_engine.Database.Rows.{columns_in, validate_columns, equijoin}
use query_x_engine.Database.Dml.{insert, update, delete}
use query_x_engine.Database.Reads.{known_distinct, table_stats, create_index}
use query_x_engine.Database.Plan.{QueryResult}
use query_x_engine.Database.Select.{order_items, alias_or, any_star, select}

-- what `execute` returns: None, a number of rows, a `QueryResult` or the text of a plan
pub data Answer : Type 0 where
  nothing : Answer
  row_count : ℕ → Answer
  result : QueryResult → Answer
  plan_text : Text → Answer

-- the columns that `_explain` checks
unfoldable pub referenced : Select → List Text
unfolding columns_in order_items
referenced stmt =
    where_names stmt.where_expr ++ map (λ (o : OrderItem). o.column) (order_items stmt.order_by)
  where
    where_names : Option Expr → List Text
    where_names none = []
    where_names (some e) = columns_in e

-- `p.key for p in select.projections if isinstance(p, ast.Column)`
unfoldable pub column_keys : List Expr → List Text
column_keys [] = []
column_keys (column c ∷ projections) = key c ∷ column_keys projections
column_keys (_ ∷ projections) = column_keys projections

-- the right table of a join with its alias, and the operators for it
unfoldable pub scanned : Text → Text → Text → Text
scanned head table alias = head ++ table ++ (32 ∷ 40 ∷ 97 ∷ 115 ∷ 32 ∷ []) ++ alias ++ (41 ∷ [])

unfoldable pub method_of : Join → Text → Option IndexInfo → Text × Text
unfolding scanned
method_of join alias none = (
  (78 ∷ 101 ∷ 115 ∷ 116 ∷ 101 ∷ 100 ∷ 76 ∷ 111 ∷ 111 ∷ 112 ∷ 74 ∷ 111 ∷ 105 ∷ 110 ∷ []),
  scanned (83 ∷ 101 ∷ 113 ∷ 83 ∷ 99 ∷ 97 ∷ 110 ∷ 32 ∷ 111 ∷ 110 ∷ 32 ∷ []) join.table alias,
)
method_of join alias (some info) = (
  (73 ∷ 110 ∷ 100 ∷ 101 ∷ 120 ∷ 78 ∷ 101 ∷ 115 ∷ 116 ∷ 101 ∷ 100 ∷ 76 ∷ 111 ∷ 111 ∷ 112 ∷ 74 ∷ 111
      ∷ 105 ∷ 110 ∷ []),
  scanned (73 ∷ 110 ∷ 100 ∷ 101 ∷ 120 ∷ 83 ∷ 99 ∷ 97 ∷ 110 ∷ 32 ∷ 111 ∷ 110 ∷ 32 ∷ []) join.table
        alias
      ++ (32 ∷ 117 ∷ 115 ∷ 105 ∷ 110 ∷ 103 ∷ 32 ∷ [])
      ++ info.name,
)

-- the index that `_explain_join` finds for the join
unfoldable pub join_index : Select → Join → Catalog → Option IndexInfo
unfolding equijoin alias_or
join_index stmt join catalog =
    elim (equijoin join.condition (alias_or stmt.table_alias stmt.table)
      (alias_or join.alias join.table)) [
        | none ↦ none
        | some (left_key, right_key, right_col) ↦ index_on join.table right_col catalog
      ]

-- the lines of `emit`, from a depth on, and below the last one the two leaves
unfoldable pub emitted : ℕ → List Text → List Text → List Text
unfolding times
emitted depth [] leaves = map (λ t. times depth (32 ∷ 32 ∷ []) ++ (45 ∷ 62 ∷ 32 ∷ []) ++ t) leaves
emitted zero (t ∷ lines) leaves = t ∷ emitted 1 lines leaves
emitted (suc d) (t ∷ lines) leaves =
    (times (suc d) (32 ∷ 32 ∷ []) ++ (45 ∷ 62 ∷ 32 ∷ []) ++ t) ∷ emitted (suc (suc d)) lines leaves

module _ (f : Floats) (printing : Printing f) where
  -- `_explain_join`
  unfoldable pub explain_join : Select → Join → Catalog → Result Text
  unfolding join_index method_of scanned limit_node any_star column_keys join_with sort_node
      filter_node expr_to_str emitted
  explain_join stmt join catalog =
      let method = method_of join (alias_or join.alias join.table) (join_index stmt join catalog) in
      Common.◌>>=◌ (filter_node f printing stmt.where_expr) (λ filters.
        Common.◌>>=◌ (expr_to_str f printing join.condition) (λ condition. ok (
          join_with (10 ∷ []) (
            emitted 0
              (limit_node f printing stmt.limit
                ++ (if stmt.distinct
                    then (68 ∷ 105 ∷ 115 ∷ 116 ∷ 105 ∷ 110 ∷ 99 ∷ 116 ∷ []) ∷ []
                    else [])
                ++ (if any_star stmt.projections
                    then []
                    else ((80 ∷ 114 ∷ 111 ∷ 106 ∷ 101 ∷ 99 ∷ 116 ∷ 105 ∷ 111 ∷ 110 ∷ 58 ∷ 32 ∷ [])
                        ++ join_with (44 ∷ 32 ∷ []) (column_keys stmt.projections))
                      ∷ [])
                ++ sort_node f printing stmt.order_by
                ++ filters
                ++ ((method.0 ++ (32 ∷ 32 ∷ 91 ∷ []) ++ condition ++ (93 ∷ [])) ∷ []))
              (scanned (83 ∷ 101 ∷ 113 ∷ 83 ∷ 99 ∷ 97 ∷ 110 ∷ 32 ∷ 111 ∷ 110 ∷ 32 ∷ []) stmt.table
                  (alias_or stmt.table_alias stmt.table)
                ∷ method.1
                ∷ [])))))

  module _ (crc32 : Bytes → ℕ) where
    -- `_explain`
    unfoldable pub explain : Select → Exec Database Text
    unfolding explain_join on_catalog referenced validate_columns table_stats known_distinct
        format_plan
    explain stmt = elim stmt.join [
      | some join ↦ do catalog ← gets (λ s. s.catalog); lift (explain_join stmt join catalog)
      | none ↦ do
        info ← on_catalog (Catalog.get_table stmt.table)
        lift (validate_columns info (referenced stmt))
        indexes ← gets (λ s. indexes_for_table stmt.table s.catalog)
        stats ← table_stats crc32 stmt.table
        lift (format_plan f printing stmt info stats indexes (known_distinct indexes []))
    ]

    module _ (py : Builtins) (fuel : ℕ) where
      -- the branches of `execute`
      unfoldable pub execute_statement : Statement → Exec Database Answer
      unfolding create_table drop_table create_index drop_index insert select update delete explain
      execute_statement (Ast.create_table table columns) = do
        create_table crc32 table columns
        pure nothing
      execute_statement (Ast.drop_table table) = do drop_table crc32 table; pure nothing
      execute_statement (Ast.create_index name table col) = do
        create_index py crc32 name table col
        pure nothing
      execute_statement (Ast.drop_index name) = do drop_index crc32 name; pure nothing
      execute_statement (Ast.insert table columns rows) = do
        n ← insert py crc32 table columns rows
        pure (row_count n)
      execute_statement (Ast.select stmt) = do r ← select py crc32 fuel f stmt; pure (result r)
      execute_statement (Ast.update table assignments where_expr) = do
        n ← update py crc32 table assignments where_expr
        pure (row_count n)
      execute_statement (Ast.delete table where_expr) = do
        n ← delete py crc32 table where_expr
        pure (row_count n)
      execute_statement (Ast.explain stmt) = do t ← explain stmt; pure (plan_text t)

      -- `execute`
      unfoldable pub execute : StrMethods → Text → Exec Database Answer
      unfolding parse execute_statement
      execute methods sql = do st ← lift (parse methods sql); execute_statement st
