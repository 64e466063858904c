-- ===== src/Database/Select.antt =====
-- The SELECT statement of queryx/database.py, `EXPLAIN` and `execute`. Sets of names are lists, which
-- are checked in their order; every name that fails raises the same error.
pub mod Rows
use query_x_engine.Common.{
  ℕ, Bool, true, false, not, ◌&&◌, ◌||◌, Option, none, some, List, [], ◌∷◌, ◌++◌, map, length, ltb,
  ◌==◌, if◌then◌else◌, Result, ok, raise, query_error, key_error, type_error, attribute_error,
}
use query_x_engine.Common
use query_x_engine.Common.Exec.{Exec, pure, throw, lift, gets, ◌>>=◌, ◌>>◌}
use query_x_engine.Common.Int.{ℤ, pos_part}
use query_x_engine.Common.Bytes.{Bytes, bytes_eq}
use query_x_engine.Common.Dict.{get, has}
use query_x_engine.Storage.Row.{Builtins, Text, Value}
use query_x_engine.Sql.Tokens.{TokenType}
use query_x_engine.Sql.Ast.{Expr, OrderItem, Select, Join, column, star, aggregate, key}
use query_x_engine.Catalog
use query_x_engine.Catalog.{TableInfo, column_names, column_types, index_on}
use query_x_engine.Execution.Evaluate.{column_index, aggregates_in}
use query_x_engine.Execution.Aggregate.{Aggregate}
use query_x_engine.Execution.HashAggregate.{aggregates_of, in_having, output_names}
use query_x_engine.Planner.Statistics.{Floats}
use query_x_engine.Planner.Optimizer.{Method, seq_scan, index_scan, AccessPath}
use query_x_engine.Database.{Database, on_catalog, open_table, open_index}
use query_x_engine.Database.Rows.{
  is_name, columns_in, referenced_keys, validate_columns, validate_where, validate_keys, qualified,
  equijoin,
}
use query_x_engine.Database.Reads.{plan_scan, rowids_for}
use query_x_engine.Database.Plan.{
  Plan, Source, QueryResult, filter, projection, sort, limit, distinct, aggregates, hash_aggregate,
  nested_loop_join, index_join, run,
}
use query_x_engine.Database.Plan

-- `if residual is not None: root = Filter(root, residual)`
unfoldable pub filtered : Option Expr → Plan → Plan
filtered none p = p
filtered (some e) p = filter e p

-- `if stmt.limit is not None`; a limit below 0 emits no row, as 0 does
unfoldable pub limit_by : Option ℤ → Plan → Plan
limit_by none p = p
limit_by (some n) p = limit (pos_part n) p

-- `if stmt.distinct`
unfoldable pub distinct_if : Bool → Plan → Plan
distinct_if false p = p
distinct_if true p = distinct p

unfoldable pub limited : Select → Plan → Plan
unfolding limit_by distinct_if
limited stmt p = limit_by stmt.limit (distinct_if stmt.distinct p)

-- `if stmt.order_by`: the items, or none
unfoldable pub order_items : Option (List OrderItem) → List OrderItem
order_items none = []
order_items (some items) = items

unfoldable pub sorted : List OrderItem → Plan → Plan
sorted [] p = p
sorted (o ∷ items) p = sort (o ∷ items) p

-- `{agg.arg.name}`, where the argument is a column
unfoldable pub argument_names : List Aggregate → List Text
argument_names [] = []
argument_names ((func, column c) ∷ aggs) = c.name ∷ argument_names aggs
argument_names ((func, _) ∷ aggs) = argument_names aggs

-- whether `stars` has an element
unfoldable pub any_star : List Expr → Bool
any_star [] = false
any_star (star ∷ projections) = true
any_star (_ ∷ projections) = any_star projections

-- `[p.name for p in stmt.projections]`
unfoldable pub plain_names : List Expr → Result (List Text)
plain_names [] = ok []
plain_names (column c ∷ projections) =
    let rest = plain_names projections in Common.◌>>=◌ rest (λ names. ok (c.name ∷ names))
plain_names (_ ∷ projections) = raise attribute_error

unfoldable pub all_in : List Text → List Text → Bool
unfolding is_name
all_in names [] = true
all_in names (n ∷ ns) = is_name n names && all_in names ns

-- the select items of a GROUP BY query: a column is one of the group, an argument one of the table
unfoldable pub check_item : TableInfo → List Text → Expr → Result (Unit {0})
unfolding is_name validate_columns
check_item info group_by star = raise query_error
check_item info group_by (column c) = if is_name c.name group_by then ok tt else raise query_error
check_item info group_by (aggregate func (column c)) = validate_columns info (c.name ∷ [])
check_item info group_by _ = ok tt

unfoldable pub check_items : TableInfo → List Text → List Expr → Result (Unit {0})
unfolding check_item
check_items info group_by [] = ok tt
check_items info group_by (p ∷ projections) =
    let rest = check_items info group_by projections in
    Common.◌>>=◌ (check_item info group_by p) (λ _. rest)

-- the checks of HAVING
unfoldable pub check_having : TableInfo → List Text → Option Expr → Result (Unit {0})
unfolding all_in columns_in validate_columns argument_names
check_having info group_by none = ok tt
check_having info group_by (some e) =
    if all_in group_by (columns_in e)
    then validate_columns info (argument_names (aggregates_in e))
    else raise query_error

-- the plan of a query with aggregates and no GROUP BY
unfoldable pub scalar_plan : Select → TableInfo → Plan → List Aggregate → Result Plan
unfolding validate_columns argument_names order_items
scalar_plan stmt info root aggs =
    if not (length aggs == length stmt.projections)
    then raise query_error
    else if stmt.distinct || ltb 0 (length (order_items stmt.order_by))
    then raise query_error
    else Common.◌>>=◌ (validate_columns info (argument_names aggs)) (λ _. ok (aggregates aggs root))

-- the plan of a query of rows
unfoldable pub rows_plan : Select → TableInfo → Plan → Result Plan
unfolding any_star order_items validate_columns sorted plain_names limited
rows_plan stmt info root =
    let items = order_items stmt.order_by in
    if any_star stmt.projections && ltb 1 (length stmt.projections)
    then raise query_error
    else Common.◌>>=◌ (validate_columns info (map (λ (o : OrderItem). o.column) items)) (λ _.
      if any_star stmt.projections
      then ok (limited stmt (sorted items root))
      else Common.◌>>=◌ (plain_names stmt.projections) (λ names.
        Common.◌>>=◌ (validate_columns info names)
          (λ _. ok (limited stmt (projection names (sorted items root))))))

-- `_select_grouped`, up to the plan
unfoldable pub grouped_plan : Select → TableInfo → Plan → List Text → Result Plan
unfolding validate_columns check_items check_having order_items sorted limited all_in
grouped_plan stmt info root group_by =
    let items = order_items stmt.order_by in
    Common.◌>>=◌ (validate_columns info group_by) (λ _.
      Common.◌>>=◌ (check_items info group_by stmt.projections) (λ _.
        Common.◌>>=◌ (check_having info group_by stmt.having) (λ _.
          Common.◌>>=◌ (output_names stmt.projections) (λ output.
            if all_in output (map (λ (o : OrderItem). o.column) items)
            then ok (
                limited stmt
                  (sorted items (hash_aggregate group_by stmt.projections stmt.having root)))
            else raise query_error))))

-- the branches of `_select` on a plan of the scan
unfoldable pub select_plan : Select → TableInfo → Plan → Result Plan
unfolding aggregates_of grouped_plan scalar_plan rows_plan
select_plan stmt info root = elim stmt.group_by [
  | some group_by ↦ grouped_plan stmt info root group_by
  | none ↦ elim (aggregates_of stmt.projections) [
    | [] ↦ rows_plan stmt info root
    | a ∷ aggs ↦ scalar_plan stmt info root (a ∷ aggs)
  ]
]

-- `stmt.table_alias or stmt.table`
unfoldable pub alias_or : Option Text → Text → Text
alias_or none table = table
alias_or (some []) table = table
alias_or (some (c ∷ cs)) table = c ∷ cs

-- `[f"{alias}.{c}" for c in info.column_names]`
unfoldable pub qualified_names : Text → TableInfo → List Text
unfolding qualified
qualified_names alias info = map (qualified alias) (column_names info)

-- the columns of the projection of a join
unfoldable pub join_names : List (Text × ℕ) → List Expr → Result (List Text)
join_names idx [] = ok []
join_names idx (column c ∷ projections) =
    let rest = join_names idx projections in
    if has (key c) idx then Common.◌>>=◌ rest (λ names. ok (key c ∷ names)) else raise query_error
join_names idx (_ ∷ projections) = raise query_error

unfoldable pub all_keys : List (Text × ℕ) → List OrderItem → Bool
all_keys idx [] = true
all_keys idx (o ∷ items) = has o.column idx && all_keys idx items

-- the end of `_select_join`, on a plan of the join and its WHERE
unfoldable pub joined_plan : Select → List (Text × ℕ) → Plan → Result Plan
unfolding order_items all_keys any_star sorted limited join_names
joined_plan stmt idx root =
    let items = order_items stmt.order_by in
    if not (all_keys idx items)
    then raise query_error
    else if any_star stmt.projections && ltb 1 (length stmt.projections)
    then raise query_error
    else if any_star stmt.projections
    then ok (limited stmt (sorted items root))
    else Common.◌>>=◌ (join_names idx stmt.projections)
        (λ names. ok (limited stmt (projection names (sorted items root))))

-- the keys that `_validate_keys` looks up for an optional predicate
unfoldable pub where_keys : Option Expr → List Text
unfolding referenced_keys
where_keys none = []
where_keys (some e) = referenced_keys e

module _ (py : Builtins) (crc32 : Bytes → ℕ) where
  -- the scan of `_build_scan` by the index of the chosen path
  unfoldable pub by_index :
      Source → Option Text → Option TokenType → Option Value → Exec Database Plan
  unfolding rowids_for
  by_index source (some index) (some op) (some v) = do
    open_index crc32 index
    ids ← rowids_for crc32 index op v
    pure (Plan.index_scan source ids)
  by_index source _ _ _ = throw key_error

  -- `_build_scan`
  unfoldable pub build_scan : Floats → TableInfo → Text → Option Expr → Exec Database Plan
  unfolding plan_scan by_index filtered
  build_scan f info table where_expr = do
    path ← plan_scan crc32 f info table where_expr
    source ← pure (record { table = table; names = column_names info; types = column_types info })
    elim path.method [
      | seq_scan ↦ pure (filtered where_expr (Plan.seq_scan source))
      | index_scan ↦ do
        p ← by_index source path.index_name path.op path.value
        pure (filtered path.residual p)
    ]

  -- the operator of `_build_join`, for the index of the join column
  unfoldable pub build_join : Select → Join → Source → Source → Exec Database Plan
  unfolding equijoin alias_or
  build_join stmt join left right =
      elim (equijoin join.condition (alias_or stmt.table_alias stmt.table)
        (alias_or join.alias join.table)) [
          | none ↦ by_loop
          | some (left_key, right_key, right_col) ↦ do
            found ← gets (λ s. index_on join.table right_col s.catalog)
            elim found [
              | none ↦ by_loop
              | some info ↦ do
                open_index crc32 info.name
                open_table crc32 join.table
                pure (index_join left right left_key info.name)
            ]
        ]
    where
      by_loop : Exec Database Plan
      by_loop = do open_table crc32 join.table; pure (nested_loop_join left right join.condition)

  module _ (fuel : ℕ) where
    -- `_select_join`
    unfoldable pub select_join : Select → Join → Exec Database QueryResult
    unfolding on_catalog aggregates_of alias_or qualified_names validate_keys referenced_keys
        where_keys open_table build_join filtered joined_plan run
    select_join stmt join = do
      left_info ← on_catalog (Catalog.get_table stmt.table)
      right_info ← on_catalog (Catalog.get_table join.table)
      lift (no_groups stmt.group_by (aggregates_of stmt.projections))
      left_alias ← pure (alias_or stmt.table_alias stmt.table)
      right_alias ← pure (alias_or join.alias join.table)
      if bytes_eq left_alias right_alias then throw query_error else pure tt
      left ← pure (record {
        table = stmt.table;
        names = qualified_names left_alias left_info;
        types = column_types left_info;
      })
      right ← pure (record {
        table = join.table;
        names = qualified_names right_alias right_info;
        types = column_types right_info;
      })
      idx ← pure (
          column_index
            (qualified_names left_alias left_info ++ qualified_names right_alias right_info))
      lift (validate_keys (referenced_keys join.condition) idx)
      lift (validate_keys (where_keys stmt.where_expr) idx)
      open_table crc32 stmt.table
      root ← build_join stmt join left right
      p ← lift (joined_plan stmt idx (filtered stmt.where_expr root))
      run py crc32 fuel p
      where
        no_groups : Option (List Text) → List Aggregate → Result (Unit {0})
        no_groups none [] = ok tt
        no_groups _ _ = raise query_error

    -- `_select`, for one table
    unfoldable pub select_table : Floats → Select → Exec Database QueryResult
    unfolding on_catalog validate_where build_scan select_plan run
    select_table f stmt = do
      info ← on_catalog (Catalog.get_table stmt.table)
      lift (validate_where info stmt.where_expr)
      root ← build_scan f info stmt.table stmt.where_expr
      p ← lift (select_plan stmt info root)
      run py crc32 fuel p

    -- `_select`
    unfoldable pub select : Floats → Select → Exec Database QueryResult
    unfolding select_join select_table
    select f stmt = elim stmt.join [
      | some join ↦ select_join stmt join
      | none ↦ select_table f stmt
    ]
