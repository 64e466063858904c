-- ===== src/Execution/Sort.antt =====
-- `Sort` of queryx/execution/operators.py. `list.sort` is a stable sort; with `reverse` it keeps the
-- order of equal rows too. It raises where two keys do not compare, which is where the keys are
-- not all numbers or all strings; `None` compares with nothing.
pub mod Order
use query_x_engine.Common.{
  ℕ, suc, ◌+◌, ◌≡◌, refl, sym, ap, ◌∙◌, Bool, true, false, not, ◌&&◌, ◌||◌, Option, none, some,
  List, [], ◌∷◌, ltb, leb, ◌==◌, if◌then◌else◌, length, All, get_elem?, arith, Bool-cases, inl, inr,
  Result, ok, raise, key_error, index_error, type_error, ◌>>=◌, >>=-eq-ok,
}
use query_x_engine.Common.Exec
use query_x_engine.Common.Exec.{Exec}
use query_x_engine.Common.Int.{ℤ, pos, ltb_ℤ}
use query_x_engine.Common.Dict.{get}
use query_x_engine.Common.Sorting.{
  stable_sort, Pairwise, Lex, IsOrder, stable_sort-Pairwise, count, count-stable_sort,
}
use query_x_engine.Storage.Row.{Text, num, str}
use query_x_engine.Sql.Ast.{OrderItem}
use query_x_engine.Execution.Evaluate.{Row, Datum, value, bool, float, null, scale, text_lt}
use query_x_engine.Execution.Operators.{Yields, ended, row}
use query_x_engine.Execution.Join.{drain}

-- a sort key: a number, as a multiple of 2 ^ -1074, a string, or `None`
pub data Key : Type 0 where
  number_key : ℤ → Key
  text_key : Text → Key
  none_key : Key

unfoldable pub key_of : Datum → Key
unfolding scale
key_of (value (num n)) = number_key (scale n)
key_of (value (str s)) = text_key s
key_of (bool true) = number_key (scale (pos 1))
key_of (bool false) = number_key (scale (pos 0))
key_of (float k) = number_key k
key_of null = none_key

-- `<` of two keys of one kind; the kinds among each other stand in any order, as they raise
unfoldable pub key_lt : Key → Key → Bool
key_lt (number_key m) (number_key n) = ltb_ℤ m n
key_lt (number_key m) (text_key t) = true
key_lt (text_key s) (number_key n) = false
key_lt (text_key s) (text_key t) = text_lt s t
key_lt none_key (number_key n) = true
key_lt none_key (text_key t) = true
key_lt _ none_key = false

unfoldable pub same_kind : Key → Key → Bool
same_kind (number_key m) (number_key n) = true
same_kind (text_key s) (text_key t) = true
same_kind _ _ = false

-- whether all keys compare
unfoldable pub one_kind : List Key → Bool
one_kind [] = true
one_kind (k ∷ []) = true
one_kind (k ∷ j ∷ ks) = let rest = one_kind (j ∷ ks) in same_kind k j && rest

-- `[r[c] for r in rows]`, which `sort` computes first
unfoldable pub keys_at : ℕ → List Row → Result (List Key)
unfolding key_of
keys_at c [] = ok []
keys_at c (r ∷ rows) = elim (get_elem? r c) [
  | none ↦ raise index_error
  | some d ↦ elim (keys_at c rows) [ raise e ↦ raise e | ok ks ↦ ok (key_of d ∷ ks) ]
]

-- the order of two rows by column `c`; a row without it, which raises, comes first
unfoldable pub option_lt : Option Datum → Option Datum → Bool
unfolding key_lt key_of
option_lt a none = false
option_lt none (some b) = true
option_lt (some a) (some b) = key_lt (key_of a) (key_of b)

unfoldable pub row_lt : ℕ → Bool → Row → Row → Bool
unfolding option_lt
row_lt c false a b = option_lt (get_elem? a c) (get_elem? b c)
row_lt c true a b = option_lt (get_elem? b c) (get_elem? a c)

-- the loop of `Sort.open` over the items from the last one
unfoldable pub sort_rows : List (Text × ℕ) → List OrderItem → List Row → Result (List Row)
unfolding keys_at one_kind row_lt
sort_rows index_of [] rows = ok rows
sort_rows index_of (item ∷ items) rows = do
  later ← sort_rows index_of items rows
  elim (get item.column index_of) [
    | none ↦ raise key_error
    | some c ↦ do
      keys ← keys_at c later
      if one_kind keys then ok (stable_sort (row_lt c item.descending) later) else raise type_error
  ]

-- `Sort.open` and `Sort.next`: the rows and the position
module _ {S : Type 0} (child : Exec S (Option Row)) where
  unfoldable pub sort_open : ℕ → List (Text × ℕ) → List OrderItem → Exec S (List Row)
  sort_open fuel index_of items s =
      Exec.◌>>=◌ (drain child fuel) (λ rows. Exec.lift (sort_rows index_of items rows)) s

unfoldable pub sort_next : Exec (List Row × ℕ) (Option Row)
sort_next (rows, at) =
    if leb (length rows) at then (ok none, (rows, at)) else elim (get_elem? rows at) [
      | none ↦ (raise index_error, (rows, at))
      | some r ↦ (ok (some r), (rows, at + 1))
    ]
