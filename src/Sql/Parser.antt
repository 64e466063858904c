-- ===== src/Sql/Parser.antt =====
-- The parser of queryx/sql/parser.py. `_pos` is given by the tokens from it on. An error keeps its
-- class; its message and position are left out. A loop and a recursion on the tokens run on fuel:
-- each round passes a token, so one more than the tokens left is enough.
pub mod Expressions
pub mod Statements
use query_x_engine.Common.{
  ℕ, zero, suc, ◌+◌, Bool, true, false, Option, none, some, List, [], ◌∷◌, ◌++◌, ◌||◌,
  if◌then◌else◌, length, Result, ok, raise, index_error, type_error, value_error, sql_syntax_error,
  out_of_fuel,
}
use query_x_engine.Common.Exec.{Exec, pure, throw, lift, gets, modify, ◌>>=◌, ◌>>◌}
use query_x_engine.Common.Int.{ℤ, pos, negsuc, neg_part, pos_part, sub_ℕ}
use query_x_engine.Storage.Row.{ColumnType, int, text, Text, Value, num, str}
use query_x_engine.Sql.Tokens
use query_x_engine.Sql.Tokens.{TokenType, Token, same}
use query_x_engine.Sql.Ast
use query_x_engine.Sql.Ast.{
  Expr, Statement, Select, Column, ColumnDef, OrderItem, Assignment, Join, AggregateFunc,
  count_func, sum_func, avg_func, min_func, max_func, column, literal, star, aggregate, comparison,
  and_node, or_node, not_node,
}

abbrev pub Parser : Type 0 → Type 0
Parser A = Exec (List Token) A

-- the token cursor
unfoldable pub peek : Parser Token
peek [] = (raise index_error, [])
peek (token ∷ rest) = (ok token, token ∷ rest)

unfoldable pub advance : Parser Token
advance [] = (raise index_error, [])
advance (token ∷ rest) = (ok token, if same token.type Tokens.eof_token then token ∷ rest else rest)

unfoldable pub check : TokenType → Parser Bool
unfolding peek
check type = do token ← peek; pure (same token.type type)

unfoldable pub is_one_of : List TokenType → TokenType → Bool
is_one_of [] type = false
is_one_of (t ∷ ts) type = same t type || is_one_of ts type

unfoldable pub match_any : List TokenType → Parser (Option Token)
unfolding peek advance
match_any types = do
  token ← peek
  if is_one_of types token.type then (do taken ← advance; pure (some taken)) else pure none

abbrev is_some : {A : Type 0} → Option A → Bool
is_some none = false
is_some (some _) = true

-- whether `_match` consumed a token
unfoldable pub match_one : TokenType → Parser Bool
unfolding match_any
match_one type = do taken ← match_any (type ∷ []); pure (is_some taken)

abbrev pub error : {A : Type 0} → Parser A
error = do peek; throw sql_syntax_error

unfoldable pub expect : TokenType → Parser Token
unfolding check advance
expect type = do there ← check type; if there then advance else error

unfoldable pub identifier : Parser Text
unfolding expect
identifier = do token ← expect Tokens.ident_token; pure token.lexeme

-- `while self._match(type): items.append(item())`, behind the items that were read
unfoldable pub more : {A : Type 0} → ℕ → Parser A → Parser (List A)
more zero item = throw out_of_fuel
more (suc fuel) item = do
  again ← match_one Tokens.comma_token
  elim again [ true ↦ do a ← item; rest ← more fuel item; pure (a ∷ rest) | false ↦ pure [] ]

-- one item or more, with commas between
unfoldable pub comma_list : {A : Type 0} → Parser A → Parser (List A)
unfolding more
comma_list item = do
  a ← item
  fuel ← gets (λ s. suc (length s))
  rest ← more fuel item
  pure (a ∷ rest)

abbrev optional : {A : Type 0} → Bool → Parser A → Parser (Option A)
optional true p = do a ← p; pure (some a)
optional false p = pure none

unfoldable pub optional_alias : Parser (Option Text)
optional_alias = do
  there ← check Tokens.ident_token
  if there then (do token ← advance; pure (some token.lexeme)) else pure none

unfoldable pub column_ref : Parser Column
column_ref = do
  first ← identifier
  dotted ← match_one Tokens.dot_token
  if dotted
      then (do name ← identifier; pure (record { name = name; table = some first }))
      else pure (record { name = first; table = none })

-- the test `type in _AGGREGATES`, and its value
unfoldable pub aggregate_func : TokenType → Option AggregateFunc
aggregate_func Tokens.count_token = some count_func
aggregate_func Tokens.sum_token = some sum_func
aggregate_func Tokens.avg_token = some avg_func
aggregate_func Tokens.min_token = some min_func
aggregate_func Tokens.max_token = some max_func
aggregate_func _ = none

-- `func == "COUNT" and self._match(TokenType.STAR)`
unfoldable pub count_star : AggregateFunc → Parser Bool
count_star count_func = match_one Tokens.star_token
count_star _ = pure false

-- `_aggregate`, for the function of the token that `_peek` has shown
unfoldable pub aggregate_call : AggregateFunc → Parser Expr
unfolding count_star
aggregate_call func = do
  advance
  expect Tokens.lparen_token
  starred ← count_star func
  arg ← if starred then pure star else (do c ← column_ref; pure (column c))
  expect Tokens.rparen_token
  pure (aggregate func arg)

-- int(token.value): the lexer gives a NUMBER an integer
unfoldable pub int_value : Option Value → Parser ℤ
int_value (some (num n)) = pure n
int_value (some (str s)) = throw value_error
int_value none = throw type_error

unfoldable pub text_value : Option Value → Parser Value
text_value (some v) = pure v
text_value none = throw type_error

abbrev negative : ℤ → ℤ
negative n = sub_ℕ (neg_part n) (pos_part n)

-- The start of `_literal_or_column` and `_value`; `none` when there is no literal.
unfoldable pub literal_start : Parser (Option Expr)
unfolding int_value text_value
literal_start = do
  negate ← match_one Tokens.minus_token
  number ← check Tokens.number_token
  if number
      then (do
        token ← advance
        n ← int_value token.value
        pure (some (literal (num (if negate then negative n else n)) int)))
      else if negate
      then error
      else (do
        string ← check Tokens.string_token
        if string
            then (do token ← advance; v ← text_value token.value; pure (some (literal v text)))
            else pure none)

unfoldable pub literal_or_column : Parser Expr
literal_or_column = do
  found ← literal_start
  elim found [
    | some e ↦ pure e
    | none ↦ do
      there ← check Tokens.ident_token
      if there then (do c ← column_ref; pure (column c)) else error
  ]

unfoldable pub value : Parser Expr
value = do found ← literal_start; elim found [ some e ↦ pure e | none ↦ error ]
