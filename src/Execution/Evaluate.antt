-- ===== src/Execution/Evaluate.antt =====
-- The evaluation of expressions in queryx/execution/operators.py.
use query_x_engine.Common.{
  ℕ, suc, ◌+◌, ◌-◌, ◌*◌, ◌^◌, Bool, true, false, not, ◌&&◌, ◌||◌, Option, none, some, List, [], ◌∷◌,
  ◌++◌, ltb, ◌==◌, if◌then◌else◌, get_elem?, Result, ok, raise, key_error, index_error, type_error,
  attribute_error, ◌>>=◌,
}
use query_x_engine.Common.Int.{ℤ, pos, negsuc, eqb_ℤ, ltb_ℤ}
use query_x_engine.Common.Bytes.{bytes_eq}
use query_x_engine.Common.Dict.{get, has, put}
use query_x_engine.Storage.Row.{Text, Value, num, str}
use query_x_engine.Sql.Tokens
use query_x_engine.Sql.Tokens.{TokenType}
use query_x_engine.Sql.Ast.{
  Expr, AggregateFunc, count_func, sum_func, avg_func, min_func, max_func, column, literal, star,
  aggregate, comparison, and_node, or_node, not_node, key,
}

-- what an expression evaluates to: a value of a row, a Python `bool`, a finite `float`, or `None`.
-- Every finite float is a multiple of the least positive one, 2 ^ -1074, and stands as this multiple.
pub data Datum : Type 0 where
  value : Value → Datum
  bool : Bool → Datum
  float : ℤ → Datum
  null : Datum

abbrev pub Row : Type 0
Row = List Datum

-- bool(x)
unfoldable pub truth : Datum → Bool
truth (value (num n)) = not (eqb_ℤ n (pos 0))
truth (value (str [])) = false
truth (value (str (c ∷ s))) = true
truth (bool b) = b
truth (float k) = not (eqb_ℤ k (pos 0))
truth null = false

-- the number that a datum is: a `bool` is an `int`
unfoldable pub number : Datum → Option ℤ
number (value (num n)) = some n
number (value (str s)) = none
number (bool true) = some (pos 1)
number (bool false) = some (pos 0)
number (float k) = none
number null = none

-- an integer as a multiple of 2 ^ -1074
unfoldable pub scale : ℤ → ℤ
scale (pos n) = pos (n * 2 ^ 1074)
scale (negsuc n) = negsuc (suc n * 2 ^ 1074 - 1)

-- a number as a multiple of 2 ^ -1074
unfoldable pub multiple : Datum → Option ℤ
unfolding scale
multiple (value (num n)) = some (scale n)
multiple (value (str s)) = none
multiple (bool true) = some (scale (pos 1))
multiple (bool false) = some (scale (pos 0))
multiple (float k) = some k
multiple null = none

-- `<` of two strings
unfoldable pub text_lt : Text → Text → Bool
text_lt s [] = false
text_lt [] (d ∷ t) = true
text_lt (c ∷ s) (d ∷ t) = let rest = text_lt s t in ltb c d || (c == d && rest)

-- How two data stand to each other: whether the first is less and whether they agree, where they
-- compare; and only whether they agree, where they have no order.
pub data Standing : Type 0 where
  ordered : Bool → Bool → Standing
  unordered : Bool → Standing

-- two numbers, where the data are numbers
unfoldable pub standing : Option ℤ → Option ℤ → Standing
standing (some m) (some n) = ordered (ltb_ℤ m n) (eqb_ℤ m n)
standing (some m) none = unordered false
standing none _ = unordered false

-- a float compares with an integer by its exact value, and `None` only equals itself
unfoldable pub order_of : Datum → Datum → Standing
unfolding number multiple text_lt standing
order_of (value (str s)) (value (str t)) = ordered (text_lt s t) (bytes_eq s t)
order_of null null = unordered true
order_of (float k) b = standing (some k) (multiple b)
order_of a (float k) = standing (multiple a) (some k)
order_of a b = standing (number a) (number b)

-- `_COMPARATORS[op]`: data of different kinds are not equal, and have no order
unfoldable pub compare_by : TokenType → Standing → Result Bool
compare_by Tokens.eq_token (unordered same) = ok same
compare_by Tokens.eq_token (ordered less same) = ok same
compare_by Tokens.neq_token (unordered same) = ok (not same)
compare_by Tokens.neq_token (ordered less same) = ok (not same)
compare_by Tokens.lt_token (ordered less same) = ok less
compare_by Tokens.gt_token (ordered less same) = ok (not (less || same))
compare_by Tokens.lte_token (ordered less same) = ok (less || same)
compare_by Tokens.gte_token (ordered less same) = ok (not less)
compare_by Tokens.lt_token (unordered same) = raise type_error
compare_by Tokens.gt_token (unordered same) = raise type_error
compare_by Tokens.lte_token (unordered same) = raise type_error
compare_by Tokens.gte_token (unordered same) = raise type_error
compare_by _ _ = raise key_error

-- name.split(".")[-1], for the part `last` that was read of the last piece
unfoldable pub bare_from : Text → Text → Text
bare_from last [] = last
bare_from last (c ∷ cs) = if c == 46 then bare_from [] cs else bare_from (last ++ (c ∷ [])) cs

unfoldable pub bare : Text → Text
unfolding bare_from
bare name = bare_from [] name

-- bare_counts[bare]
unfoldable pub bare_count : Text → List Text → ℕ
unfolding bare
bare_count b [] = 0
bare_count b (name ∷ names) =
    let n = bare_count b names in if bytes_eq (bare name) b then suc n else n

unfoldable pub full_names : ℕ → List Text → List (Text × ℕ) → List (Text × ℕ)
full_names i [] idx = idx
full_names i (name ∷ names) idx = full_names (i + 1) names (put name i idx)

unfoldable pub bare_names : List Text → ℕ → List Text → List (Text × ℕ) → List (Text × ℕ)
unfolding bare_count
bare_names all i [] idx = idx
bare_names all i (name ∷ names) idx = bare_names all (i + 1) names (
    if bare_count (bare name) all == 1 && not (has (bare name) idx)
    then put (bare name) i idx
    else idx)

unfoldable pub column_index : List Text → List (Text × ℕ)
unfolding full_names bare_names
column_index column_names = bare_names column_names 0 column_names (full_names 0 column_names [])

unfoldable pub func_name : AggregateFunc → Text
func_name count_func = 67 ∷ 79 ∷ 85 ∷ 78 ∷ 84 ∷ []
func_name sum_func = 83 ∷ 85 ∷ 77 ∷ []
func_name avg_func = 65 ∷ 86 ∷ 71 ∷ []
func_name min_func = 77 ∷ 73 ∷ 78 ∷ []
func_name max_func = 77 ∷ 65 ∷ 88 ∷ []

-- f"{func}({inner})"
unfoldable pub aggregate_label : AggregateFunc → Expr → Result Text
unfolding func_name
aggregate_label func star = ok (func_name func ++ (40 ∷ 42 ∷ 41 ∷ []))
aggregate_label func (column c) = ok (func_name func ++ (40 ∷ c.name ++ (41 ∷ [])))
aggregate_label func _ = raise attribute_error

-- row[index_of[name]]
unfoldable pub at_position : Row → Option ℕ → Result Datum
at_position row none = raise key_error
at_position row (some i) = elim (get_elem? row i) [ none ↦ raise index_error | some d ↦ ok d ]

unfoldable pub evaluate : Expr → Row → List (Text × ℕ) → Result Datum
unfolding at_position order_of compare_by aggregate_label truth
evaluate (literal v type) row index_of = ok (value v)
evaluate (column c) row index_of = at_position row (get (key c) index_of)
evaluate (comparison op left right) row index_of = do
  a ← evaluate left row index_of
  b ← evaluate right row index_of
  found ← compare_by op (order_of a b)
  ok (bool found)
evaluate (and_node left right) row index_of =
    let second = evaluate right row index_of in
    do
      a ← evaluate left row index_of
      if truth a then (do b ← second; ok (bool (truth b))) else ok (bool false)
evaluate (or_node left right) row index_of =
    let second = evaluate right row index_of in
    do
      a ← evaluate left row index_of
      if truth a then ok (bool true) else (do b ← second; ok (bool (truth b)))
evaluate (not_node operand) row index_of = do
  a ← evaluate operand row index_of
  ok (bool (not (truth a)))
evaluate (aggregate func arg) row index_of = do
  label ← aggregate_label func arg
  at_position row (get label index_of)
evaluate star row index_of = raise type_error

unfoldable pub aggregates_in : Expr → List (AggregateFunc × Expr)
aggregates_in (aggregate func arg) = (func, arg) ∷ []
aggregates_in (comparison op left right) = aggregates_in left ++ aggregates_in right
aggregates_in (and_node left right) = aggregates_in left ++ aggregates_in right
aggregates_in (or_node left right) = aggregates_in left ++ aggregates_in right
aggregates_in (not_node operand) = aggregates_in operand
aggregates_in _ = []
