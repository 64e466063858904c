-- ===== src/Storage/Row.antt =====
-- Row serialization of queryx/storage/page.py. A Python string is the list of its code points.
pub mod RoundTrip
use query_x_engine.Common.{
  ℕ, ◌+◌, Bool, true, false, Option, List, [], ◌∷◌, ◌++◌, ltb, ◌==◌, if◌then◌else◌, length, Result,
  ok, raise, value_error, ◌>>=◌,
}
use query_x_engine.Common.Int.{ℤ}
use query_x_engine.Common.Bytes.{Bytes, slice, read_from}
use query_x_engine.Common.Bytes.Words.{pack, pack_int, of_le, of_pattern}

pub data ColumnType : Type 0 where
  int text : ColumnType

abbrev pub Text : Type 0
Text = List ℕ

-- the values that a row holds: a Python `int` or `str`
pub data Value : Type 0 where
  num : ℤ → Value
  str : Text → Value

-- What the standard library does: the UTF-8 codec, and the conversions `int(s)` and `str(n)`.
pub record Builtins : Type 0 where
  pub encode : Text → Result Bytes
  pub decode : Bytes → Result Text
  pub parse_int : Text → Result ℤ
  pub show_int : ℤ → Text

module _ (py : Builtins) where
  -- int(value), str(value)
  pub int_of : Value → Result ℤ
  int_of (num n) = ok n
  int_of (str s) = py.parse_int s

  pub str_of : Value → Text
  str_of (num n) = py.show_int n
  str_of (str s) = s

  pub serialize_value : ColumnType → Value → Result Bytes
  serialize_value int value = do n ← int_of value; pack_int n
  serialize_value text value = do
    encoded ← py.encode (str_of value)
    if ltb 0xFFFF (length encoded)
        then raise value_error
        else (do prefix ← pack 2 (length encoded); ok (prefix ++ encoded))

  -- the loop over `zip(schema, values)`, which stops with the shorter of the two
  pub serialize_values : List ColumnType → List Value → Result Bytes
  serialize_values (t ∷ schema) (value ∷ values) = do
    part ← serialize_value t value
    rest ← serialize_values schema values
    ok (part ++ rest)
  serialize_values _ _ = ok []

  unfoldable pub serialize_row : List ColumnType → List Value → Result Bytes
  unfolding int_of str_of serialize_value serialize_values
  serialize_row schema values =
      if length schema == length values then serialize_values schema values else raise value_error

  -- the loop of `deserialize_row`, from the position `pos`
  pub deserialize_from : List ColumnType → Bytes → ℕ → Result (List Value)
  deserialize_from [] d pos = ok []
  deserialize_from (int ∷ schema) d pos = do
    b ← read_from d pos 8
    rest ← deserialize_from schema d (pos + 8)
    ok (num (of_pattern (of_le b)) ∷ rest)
  deserialize_from (text ∷ schema) d pos = do
    b ← read_from d pos 2
    s ← py.decode (slice d (pos + 2) (of_le b))
    rest ← deserialize_from schema d (pos + 2 + of_le b)
    ok (str s ∷ rest)

  unfoldable pub deserialize_row : List ColumnType → Bytes → Result (List Value)
  unfolding deserialize_from
  deserialize_row schema d = deserialize_from schema d 0
