-- ===== src/Sql/Parser/Statements.antt =====
-- The statements of queryx/sql/parser.py, and `parse`.
use query_x_engine.Common.{
  true, false, Option, none, some, List, ◌∷◌, ◌++◌, if◌then◌else◌, Result, ok, raise,
}
use query_x_engine.Common.Exec.{pure, ◌>>=◌, ◌>>◌}
use query_x_engine.Common.Int.{ℤ}
use query_x_engine.Storage.Row.{int, text, Text}
use query_x_engine.Sql.Tokens
use query_x_engine.Sql.Tokens.{Token, TokenType, same}
use query_x_engine.Sql.Ast.{
  Expr, Statement, Select, ColumnDef, OrderItem, Assignment, Join, column, star, create_table,
  drop_table, insert, select, update, delete, create_index, drop_index, explain,
}
use query_x_engine.Sql.Lexer.{StrMethods, tokenize}
use query_x_engine.Sql.Parser.{
  Parser, peek, advance, check, match_one, error, expect, identifier, comma_list, optional_alias,
  column_ref, aggregate_func, aggregate_call, int_value, value,
}
use query_x_engine.Sql.Parser.Expressions.{expression}

-- an expression behind a keyword that may be absent
unfoldable pub optional_expr : TokenType → Parser (Option Expr)
optional_expr type = do
  there ← match_one type
  if there then (do e ← expression; pure (some e)) else pure none

unfoldable pub optional_where : Parser (Option Expr)
unfolding optional_expr
optional_where = optional_expr Tokens.where_token

unfoldable pub select_item : Parser Expr
select_item = do
  starred ← match_one Tokens.star_token
  if starred then pure star else (do
    token ← peek
    elim (aggregate_func token.type) [
      | some func ↦ aggregate_call func
      | none ↦ do c ← column_ref; pure (column c)
    ])

unfoldable pub optional_join : Parser (Option Join)
optional_join = do
  there ← match_one Tokens.join_token
  if there
      then (do
        table ← identifier
        alias ← optional_alias
        expect Tokens.on_token
        on ← expression
        pure (some (record { table = table; alias = alias; condition = on })))
      else pure none

unfoldable pub optional_group_by : Parser (Option (List Text) × Option Expr)
unfolding optional_expr
optional_group_by = do
  there ← match_one Tokens.group_token
  if there
      then (do
        expect Tokens.by_token
        columns ← comma_list identifier
        having ← optional_expr Tokens.having_token
        pure (some columns, having))
      else pure (none, none)

unfoldable pub order_item : Parser OrderItem
order_item = do
  first ← identifier
  dotted ← match_one Tokens.dot_token
  name ← if dotted then (do rest ← identifier; pure (first ++ (46 ∷ rest))) else pure first
  descending ← match_one Tokens.desc_token
  if descending
      then pure (record { column = name; descending = true })
      else (do match_one Tokens.asc_token; pure (record { column = name; descending = false }))

unfoldable pub optional_order_by : Parser (Option (List OrderItem))
unfolding order_item
optional_order_by = do
  there ← match_one Tokens.order_token
  if there
      then (do expect Tokens.by_token; items ← comma_list order_item; pure (some items))
      else pure none

unfoldable pub optional_limit : Parser (Option ℤ)
optional_limit = do
  there ← match_one Tokens.limit_token
  if there
      then (do token ← expect Tokens.number_token; n ← int_value token.value; pure (some n))
      else pure none

unfoldable pub select_statement : Parser Select
unfolding select_item optional_join optional_where optional_group_by optional_order_by
    optional_limit
select_statement = do
  expect Tokens.select_token
  distinct ← match_one Tokens.distinct_token
  projections ← comma_list select_item
  expect Tokens.from_token
  table ← identifier
  table_alias ← optional_alias
  join ← optional_join
  where_expr ← optional_where
  grouping ← optional_group_by
  order_by ← optional_order_by
  limit ← optional_limit
  pure (record {
    table = table;
    projections = projections;
    distinct = distinct;
    where_expr = where_expr;
    group_by = grouping.0;
    having = grouping.1;
    order_by = order_by;
    limit = limit;
    table_alias = table_alias;
    join = join;
  })

unfoldable pub value_tuple : Parser (List Expr)
value_tuple = do
  expect Tokens.lparen_token
  values ← comma_list value
  expect Tokens.rparen_token
  pure values

unfoldable pub insert_columns : Parser (Option (List Text))
insert_columns = do
  opened ← match_one Tokens.lparen_token
  if opened
      then (do columns ← comma_list identifier; expect Tokens.rparen_token; pure (some columns))
      else pure none

unfoldable pub insert_statement : Parser Statement
unfolding value_tuple insert_columns
insert_statement = do
  expect Tokens.insert_token
  expect Tokens.into_token
  table ← identifier
  columns ← insert_columns
  expect Tokens.values_token
  rows ← comma_list value_tuple
  pure (insert table columns rows)

unfoldable pub assignment : Parser Assignment
assignment = do
  name ← identifier
  expect Tokens.eq_token
  v ← value
  pure (record { column = name; value = v })

unfoldable pub update_statement : Parser Statement
unfolding assignment optional_where
update_statement = do
  expect Tokens.update_token
  table ← identifier
  expect Tokens.set_token
  assignments ← comma_list assignment
  where_expr ← optional_where
  pure (update table assignments where_expr)

unfoldable pub delete_statement : Parser Statement
unfolding optional_where
delete_statement = do
  expect Tokens.delete_token
  expect Tokens.from_token
  table ← identifier
  where_expr ← optional_where
  pure (delete table where_expr)

unfoldable pub column_def : Parser ColumnDef
column_def = do
  name ← identifier
  is_int ← match_one Tokens.int_token
  if is_int then pure (record { name = name; type = int }) else (do
    is_text ← match_one Tokens.text_token
    if is_text then pure (record { name = name; type = text }) else error)

unfoldable pub create_table_statement : Parser Statement
unfolding column_def
create_table_statement = do
  table ← identifier
  expect Tokens.lparen_token
  columns ← comma_list column_def
  expect Tokens.rparen_token
  pure (create_table table columns)

unfoldable pub create_index_statement : Parser Statement
create_index_statement = do
  name ← identifier
  expect Tokens.on_token
  table ← identifier
  expect Tokens.lparen_token
  column_name ← identifier
  expect Tokens.rparen_token
  pure (create_index name table column_name)

unfoldable pub create_statement : Parser Statement
unfolding create_table_statement create_index_statement
create_statement = do
  expect Tokens.create_token
  of_table ← match_one Tokens.table_token
  if of_table then create_table_statement else (do
    of_index ← match_one Tokens.index_token
    if of_index then create_index_statement else error)

unfoldable pub drop_statement : Parser Statement
drop_statement = do
  expect Tokens.drop_token
  of_table ← match_one Tokens.table_token
  if of_table then (do name ← identifier; pure (drop_table name)) else (do
    of_index ← match_one Tokens.index_token
    if of_index then (do name ← identifier; pure (drop_index name)) else error)

unfoldable pub statement : Parser Statement
unfolding select_statement insert_statement create_statement drop_statement update_statement
    delete_statement
statement = do
  token ← peek
  if same token.type Tokens.select_token
      then (do s ← select_statement; pure (select s))
      else if same token.type Tokens.insert_token
      then insert_statement
      else if same token.type Tokens.create_token
      then create_statement
      else if same token.type Tokens.drop_token
      then drop_statement
      else if same token.type Tokens.update_token
      then update_statement
      else if same token.type Tokens.delete_token
      then delete_statement
      else if same token.type Tokens.explain_token
      then (do advance; s ← select_statement; pure (explain s))
      else error

-- `Parser(tokens).parse()`
unfoldable pub parse_tokens : Parser Statement
unfolding statement
parse_tokens = do
  st ← statement
  match_one Tokens.semicolon_token
  ended ← check Tokens.eof_token
  if ended then pure st else error

-- `parse(sql)`
unfoldable pub parse : StrMethods → Text → Result Statement
unfolding parse_tokens
parse py sql = elim (tokenize py sql) [ ok tokens ↦ (parse_tokens tokens).0 | raise e ↦ raise e ]
