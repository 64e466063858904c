-- ===== src/Database/Rows.antt =====
-- The checks of queryx/database.py on the columns and the literals of a statement.
use query_x_engine.Common.{
  ℕ, Bool, true, false, not, ◌&&◌, ◌||◌, Option, none, some, List, [], ◌∷◌, ◌++◌, length, ◌==◌,
  if◌then◌else◌, Result, ok, raise, query_error, catalog_error, ◌>>=◌,
}
use query_x_engine.Common.Bytes.{bytes_eq}
use query_x_engine.Common.Dict.{get, has}
use query_x_engine.Storage.Row.{Text, ColumnType, int, text, Value}
use query_x_engine.Sql.Tokens.{eq_token, enum_value}
use query_x_engine.Sql.Ast.{
  Expr, Column, column, literal, comparison, and_node, or_node, not_node, key, Assignment,
}
use query_x_engine.Catalog.{TableInfo, ColumnInfo, has_column}

unfoldable pub same_type : ColumnType → ColumnType → Bool
same_type int int = true
same_type text text = true
same_type _ _ = false

-- `_check_value_type`, which returns nothing, and then `literal.value`
unfoldable pub checked_value : ColumnType → Expr → Result Value
unfolding same_type
checked_value type (literal v t) = if same_type t type then ok v else raise query_error
checked_value type _ = raise query_error

-- the loop over `zip(table_info.columns, ordered)`
unfoldable pub checked_values : List ColumnInfo → List Expr → Result (List Value)
unfolding checked_value
checked_values [] exprs = ok []
checked_values (c ∷ columns) [] = ok []
checked_values (c ∷ columns) (e ∷ exprs) =
    let rest = checked_values columns exprs in do v ← checked_value c.type e; vs ← rest; ok (v ∷ vs)

unfoldable pub is_name : Text → List Text → Bool
is_name name [] = false
is_name name (n ∷ names) = bytes_eq n name || is_name name names

-- len(columns) != len(set(columns))
unfoldable pub has_twice : List Text → Bool
unfolding is_name
has_twice [] = false
has_twice (n ∷ names) = is_name n names || has_twice names

unfoldable pub all_columns : TableInfo → List Text → Bool
all_columns info [] = true
all_columns info (n ∷ names) = has_column info n && all_columns info names

-- dict(zip(columns, row_values)), for names that are all different
unfoldable pub provided : List Text → List Expr → List (Text × Expr)
provided [] exprs = []
provided (n ∷ names) [] = []
provided (n ∷ names) (e ∷ exprs) = (n, e) ∷ provided names exprs

-- `[provided[c] for c in table_info.column_names]`, where no column is missing
unfoldable pub found : Option Expr → Result Expr
found none = raise query_error
found (some e) = ok e

unfoldable pub ordered : List ColumnInfo → List (Text × Expr) → Result (List Expr)
unfolding found
ordered [] given = ok []
ordered (c ∷ columns) given =
    let rest = ordered columns given in do e ← found (get c.name given); es ← rest; ok (e ∷ es)

-- the first half of `_resolve_row`: the expressions in the order of the table's columns
unfoldable pub in_table_order : TableInfo → Option (List Text) → List Expr → Result (List Expr)
unfolding all_columns has_twice provided ordered
in_table_order info none exprs =
    if length exprs == length info.columns then ok exprs else raise query_error
in_table_order info (some names) exprs =
    if not (all_columns info names)
    then raise query_error
    else if has_twice names
    then raise query_error
    else if length names == length exprs
    then ordered info.columns (provided names exprs)
    else raise query_error

unfoldable pub resolve_row : TableInfo → Option (List Text) → List Expr → Result (List Value)
unfolding in_table_order checked_values
resolve_row info columns exprs = do
  es ← in_table_order info columns exprs
  checked_values info.columns es

-- the comprehension of `_insert`
unfoldable pub resolve_rows :
    TableInfo → Option (List Text) → List (List Expr) → Result (List (List Value))
unfolding resolve_row
resolve_rows info columns [] = ok []
resolve_rows info columns (r ∷ rows) =
    let rest = resolve_rows info columns rows in
    do values ← resolve_row info columns r; more ← rest; ok (values ∷ more)

-- `_columns_in`; a set is the list of its elements, and some may stand twice
unfoldable pub columns_in : Expr → List Text
columns_in (column c) = c.name ∷ []
columns_in (comparison op left right) = columns_in left ++ columns_in right
columns_in (and_node left right) = columns_in left ++ columns_in right
columns_in (or_node left right) = columns_in left ++ columns_in right
columns_in (not_node operand) = columns_in operand
columns_in _ = []

-- `_referenced_keys`
unfoldable pub referenced_keys : Expr → List Text
referenced_keys (column c) = key c ∷ []
referenced_keys (comparison op left right) = referenced_keys left ++ referenced_keys right
referenced_keys (and_node left right) = referenced_keys left ++ referenced_keys right
referenced_keys (or_node left right) = referenced_keys left ++ referenced_keys right
referenced_keys (not_node operand) = referenced_keys operand
referenced_keys _ = []

unfoldable pub validate_columns : TableInfo → List Text → Result (Unit {0})
unfolding all_columns
validate_columns info names = if all_columns info names then ok tt else raise catalog_error

-- `if stmt.where is not None: self._validate_columns(...)`
unfoldable pub validate_where : TableInfo → Option Expr → Result (Unit {0})
unfolding validate_columns columns_in
validate_where info none = ok tt
validate_where info (some e) = validate_columns info (columns_in e)

unfoldable pub validate_keys : List Text → List (Text × ℕ) → Result (Unit {0})
validate_keys [] idx = ok tt
validate_keys (k ∷ keys) idx = if has k idx then validate_keys keys idx else raise query_error

-- the loop of `_update` that checks the assignments: the column, and then the type of the literal
unfoldable pub check_assignments : TableInfo → List Assignment → Result (List (Text × Value))
unfolding checked_value
check_assignments info [] = ok []
check_assignments info (a ∷ assignments) =
    let rest = check_assignments info assignments in
    if has_column info a.column
    then (do
      v ← checked_assignment (type_of a.column info.columns) a.value
      vs ← rest
      ok ((a.column, v) ∷ vs))
    else raise query_error
  where
    -- `table_info.columns[table_info.position(column)].type`
    type_of : Text → List ColumnInfo → Option ColumnType
    type_of name [] = none
    type_of name (c ∷ columns) = if bytes_eq c.name name then some c.type else type_of name columns

    checked_assignment : Option ColumnType → Expr → Result Value
    checked_assignment none e = raise catalog_error
    checked_assignment (some t) e = checked_value t e

-- which side of a join a column belongs to
unfoldable pub side : Text → Text → Column → Option Bool
side left_alias right_alias c = elim c.table [
  | none ↦ none
  | some t ↦
      if bytes_eq t left_alias
      then some true
      else if bytes_eq t right_alias
      then some false
      else none
]

-- f"{alias}.{name}"
unfoldable pub qualified : Text → Text → Text
qualified alias name = alias ++ (46 ∷ name)

-- the end of `_equijoin`, for the sides of the two columns
unfoldable pub equijoin_of :
    Text → Text → Column → Column → Option Bool → Option Bool → Option (Text × Text × Text)
unfolding qualified
equijoin_of l r a b (some true) (some false) = some (qualified l a.name, qualified r b.name, b.name)
equijoin_of l r a b (some false) (some true) = some (qualified l b.name, qualified r a.name, a.name)
equijoin_of l r a b _ _ = none

unfoldable pub equijoin : Expr → Text → Text → Option (Text × Text × Text)
unfolding side equijoin_of
equijoin (comparison op (column a) (column b)) l r =
    if enum_value op == enum_value eq_token
    then equijoin_of l r a b (side l r a) (side l r b)
    else none
equijoin _ l r = none
