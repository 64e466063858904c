-- ===== src/Sql/Tokens.antt =====
-- Token definitions of queryx/sql/tokens.py. A character is its code point. The constructors carry
-- `_token` after the source's name, since several names are words of the language or of an AST.
use query_x_engine.Common.{ℕ, Bool, Option, List, [], ◌∷◌, ◌==◌, if◌then◌else◌}
use query_x_engine.Common.Bytes.{bytes_eq}
use query_x_engine.Storage.Row.{Text, Value}

pub data TokenType : Type 0 where
  ident_token number_token string_token comma_token lparen_token rparen_token : TokenType
  semicolon_token star_token minus_token dot_token eq_token neq_token : TokenType
  lt_token gt_token lte_token gte_token : TokenType
  create_token table_token drop_token insert_token into_token values_token : TokenType
  select_token distinct_token from_token where_token order_token by_token : TokenType
  group_token having_token asc_token desc_token limit_token update_token : TokenType
  set_token delete_token index_token on_token join_token explain_token : TokenType
  and_token or_token not_token count_token sum_token avg_token : TokenType
  min_token max_token int_token text_token : TokenType
  eof_token : TokenType

-- the values that `auto()` gives
unfoldable pub enum_value : TokenType → ℕ
enum_value ident_token = 1
enum_value number_token = 2
enum_value string_token = 3
enum_value comma_token = 4
enum_value lparen_token = 5
enum_value rparen_token = 6
enum_value semicolon_token = 7
enum_value star_token = 8
enum_value minus_token = 9
enum_value dot_token = 10
enum_value eq_token = 11
enum_value neq_token = 12
enum_value lt_token = 13
enum_value gt_token = 14
enum_value lte_token = 15
enum_value gte_token = 16
enum_value create_token = 17
enum_value table_token = 18
enum_value drop_token = 19
enum_value insert_token = 20
enum_value into_token = 21
enum_value values_token = 22
enum_value select_token = 23
enum_value distinct_token = 24
enum_value from_token = 25
enum_value where_token = 26
enum_value order_token = 27
enum_value by_token = 28
enum_value group_token = 29
enum_value having_token = 30
enum_value asc_token = 31
enum_value desc_token = 32
enum_value limit_token = 33
enum_value update_token = 34
enum_value set_token = 35
enum_value delete_token = 36
enum_value index_token = 37
enum_value on_token = 38
enum_value join_token = 39
enum_value explain_token = 40
enum_value and_token = 41
enum_value or_token = 42
enum_value not_token = 43
enum_value count_token = 44
enum_value sum_token = 45
enum_value avg_token = 46
enum_value min_token = 47
enum_value max_token = 48
enum_value int_token = 49
enum_value text_token = 50
enum_value eof_token = 51

-- `==` of two members of the enumeration
unfoldable pub same : TokenType → TokenType → Bool
unfolding enum_value
same a b = enum_value a == enum_value b

abbrev keywords : List (Text × TokenType)
keywords =
    (67 ∷ 82 ∷ 69 ∷ 65 ∷ 84 ∷ 69 ∷ [], create_token)
    ∷  -- CREATE
        (84 ∷ 65 ∷ 66 ∷ 76 ∷ 69 ∷ [], table_token)
    ∷  -- TABLE
        (68 ∷ 82 ∷ 79 ∷ 80 ∷ [], drop_token)
    ∷  -- DROP
        (73 ∷ 78 ∷ 83 ∷ 69 ∷ 82 ∷ 84 ∷ [], insert_token)
    ∷  -- INSERT
        (73 ∷ 78 ∷ 84 ∷ 79 ∷ [], into_token)
    ∷  -- INTO
        (86 ∷ 65 ∷ 76 ∷ 85 ∷ 69 ∷ 83 ∷ [], values_token)
    ∷  -- VALUES
        (83 ∷ 69 ∷ 76 ∷ 69 ∷ 67 ∷ 84 ∷ [], select_token)
    ∷  -- SELECT
        (68 ∷ 73 ∷ 83 ∷ 84 ∷ 73 ∷ 78 ∷ 67 ∷ 84 ∷ [], distinct_token)
    ∷  -- DISTINCT
        (70 ∷ 82 ∷ 79 ∷ 77 ∷ [], from_token)
    ∷  -- FROM
        (87 ∷ 72 ∷ 69 ∷ 82 ∷ 69 ∷ [], where_token)
    ∷  -- WHERE
        (79 ∷ 82 ∷ 68 ∷ 69 ∷ 82 ∷ [], order_token)
    ∷  -- ORDER
        (66 ∷ 89 ∷ [], by_token)
    ∷  -- BY
        (71 ∷ 82 ∷ 79 ∷ 85 ∷ 80 ∷ [], group_token)
    ∷  -- GROUP
        (72 ∷ 65 ∷ 86 ∷ 73 ∷ 78 ∷ 71 ∷ [], having_token)
    ∷  -- HAVING
        (65 ∷ 83 ∷ 67 ∷ [], asc_token)
    ∷  -- ASC
        (68 ∷ 69 ∷ 83 ∷ 67 ∷ [], desc_token)
    ∷  -- DESC
        (76 ∷ 73 ∷ 77 ∷ 73 ∷ 84 ∷ [], limit_token)
    ∷  -- LIMIT
        (85 ∷ 80 ∷ 68 ∷ 65 ∷ 84 ∷ 69 ∷ [], update_token)
    ∷  -- UPDATE
        (83 ∷ 69 ∷ 84 ∷ [], set_token)
    ∷  -- SET
        (68 ∷ 69 ∷ 76 ∷ 69 ∷ 84 ∷ 69 ∷ [], delete_token)
    ∷  -- DELETE
        (73 ∷ 78 ∷ 68 ∷ 69 ∷ 88 ∷ [], index_token)
    ∷  -- INDEX
        (79 ∷ 78 ∷ [], on_token)
    ∷  -- ON
        (74 ∷ 79 ∷ 73 ∷ 78 ∷ [], join_token)
    ∷  -- JOIN
        (69 ∷ 88 ∷ 80 ∷ 76 ∷ 65 ∷ 73 ∷ 78 ∷ [], explain_token)
    ∷  -- EXPLAIN
        (65 ∷ 78 ∷ 68 ∷ [], and_token)
    ∷  -- AND
        (79 ∷ 82 ∷ [], or_token)
    ∷  -- OR
        (78 ∷ 79 ∷ 84 ∷ [], not_token)
    ∷  -- NOT
        (67 ∷ 79 ∷ 85 ∷ 78 ∷ 84 ∷ [], count_token)
    ∷  -- COUNT
        (83 ∷ 85 ∷ 77 ∷ [], sum_token)
    ∷  -- SUM
        (65 ∷ 86 ∷ 71 ∷ [], avg_token)
    ∷  -- AVG
        (77 ∷ 73 ∷ 78 ∷ [], min_token)
    ∷  -- MIN
        (77 ∷ 65 ∷ 88 ∷ [], max_token)
    ∷  -- MAX
        (73 ∷ 78 ∷ 84 ∷ [], int_token)
    ∷  -- INT
        (73 ∷ 78 ∷ 84 ∷ 69 ∷ 71 ∷ 69 ∷ 82 ∷ [], int_token)
    ∷  -- INTEGER
        (84 ∷ 69 ∷ 88 ∷ 84 ∷ [], text_token)
    ∷  -- TEXT
        []

-- KEYWORDS.get(word, TokenType.IDENT)
unfoldable pub get_from : List (Text × TokenType) → Text → TokenType
get_from [] word = ident_token
get_from ((name, type) ∷ rest) word =
    let found = get_from rest word in if bytes_eq name word then type else found

unfoldable pub keyword : Text → TokenType
unfolding get_from
keyword word = get_from keywords word

pub record Token : Type 0 where
  pub type : TokenType
  pub lexeme : Text
  pub position : ℕ
  pub value : Option Value
