-- ===== src/Sql/Lexer.antt =====
-- The lexer of queryx/sql/lexer.py. `_pos` is given by the part of the source that it has not yet
-- passed; a position is the length of the source less the length of that part.
pub mod Strings
pub mod Progress
pub mod Total
use query_x_engine.Common.{
  ℕ, zero, suc, ◌+◌, ◌-◌, Bool, true, false, Option, none, some, List, [], ◌∷◌, ◌==◌, ◌&&◌, ◌||◌,
  not, if◌then◌else◌, length, take, drop, Result, ok, raise, sql_syntax_error, index_error,
  out_of_fuel, ◌>>=◌,
}
use query_x_engine.Common.Int.{ℤ}
use query_x_engine.Storage.Row.{Text, Value, num, str}
use query_x_engine.Sql.Tokens.{
  TokenType, Token, keyword, number_token, string_token, comma_token, lparen_token, rparen_token,
  semicolon_token, star_token, minus_token, dot_token, eq_token, neq_token, lt_token, gt_token,
  lte_token, gte_token, eof_token,
}

-- What the standard library does: the methods of `str` on a character or a word, and `int(s)`.
pub record StrMethods : Type 0 where
  pub is_alpha : ℕ → Bool
  pub is_alnum : ℕ → Bool
  pub is_digit : ℕ → Bool
  pub upper : Text → Text
  pub parse_int : Text → Result ℤ

-- `_peek() == ch`, false at the end
unfoldable pub peek_is : ℕ → Text → Bool
peek_is ch [] = false
peek_is ch (c ∷ cs) = c == ch

unfoldable pub is_space : ℕ → Bool
is_space ch = ch == 32 || ch == 9 || ch == 13 || ch == 10

-- The first argument says whether the inner loop runs, which a line comment is in. The newline that
-- ends it is white space to the outer loop.
unfoldable pub skip : Bool → Text → Text
unfolding peek_is is_space
skip in_comment [] = []
skip true (ch ∷ cs) = elim (ch == 10) [ true ↦ skip false cs | false ↦ skip true cs ]
skip false (ch ∷ cs) = elim (is_space ch) [
  | true ↦ skip false cs
  | false ↦ elim (ch == 45 && peek_is 45 cs) [ true ↦ skip true cs | false ↦ ch ∷ cs ]
]

unfoldable pub skip_trivia : Text → Text
unfolding skip
skip_trivia src = skip false src

-- `while not self._at_end() and test(self._peek()): self._pos += 1`
unfoldable pub skip_while : (ℕ → Bool) → Text → Text
skip_while test [] = []
skip_while test (ch ∷ cs) = let rest = skip_while test cs in if test ch then rest else ch ∷ cs

-- `self._src[start:self._pos]`, for the sources from the two positions on
unfoldable pub lexeme_between : Text → Text → Text
lexeme_between src rest = take (length src - length rest) src

-- the loop of `_scan_string`: the characters, and the source behind the closing quote
unfoldable pub scan_chars : Text → Result (Text × Text)
scan_chars [] = raise sql_syntax_error
scan_chars (ch ∷ []) = if ch == 39 then ok ([], []) else raise sql_syntax_error
scan_chars (ch ∷ next ∷ cs) = elim (ch == 39) [
  | true ↦ elim (next == 39) [
    | true ↦ do (chars, rest) ← scan_chars cs; ok (39 ∷ chars, rest)
    | false ↦ ok ([], next ∷ cs)
  ]
  | false ↦ do (chars, rest) ← scan_chars (next ∷ cs); ok (ch ∷ chars, rest)
]

-- what `_scan_symbol` decides on: the type, and whether a second character belongs to the token
unfoldable pub symbol : ℕ → Text → Result (TokenType × ℕ)
unfolding peek_is
symbol ch rest =
    if ch == 44
    then ok (comma_token, 1)
    else if ch == 40
    then ok (lparen_token, 1)
    else if ch == 41
    then ok (rparen_token, 1)
    else if ch == 59
    then ok (semicolon_token, 1)
    else if ch == 46
    then ok (dot_token, 1)
    else if ch == 42
    then ok (star_token, 1)
    else if ch == 45
    then ok (minus_token, 1)
    else if ch == 61
    then ok (eq_token, 1)
    else if ch == 60
    then (if peek_is 61 rest
        then ok (lte_token, 2)
        else if peek_is 62 rest
        then ok (neq_token, 2)
        else ok (lt_token, 1))
    else if ch == 62
    then (if peek_is 61 rest then ok (gte_token, 2) else ok (gt_token, 1))
    else if ch == 33
    then (if peek_is 61 rest then ok (neq_token, 2) else raise sql_syntax_error)
    else raise sql_syntax_error

module _ (py : StrMethods) where
  pub starts_word : ℕ → Bool
  starts_word ch = py.is_alpha ch || ch == 95

  pub in_word : ℕ → Bool
  in_word ch = py.is_alnum ch || ch == 95

  -- `not self._at_end() and (...)`
  pub glued : Text → Bool
  glued [] = false
  glued (ch ∷ cs) = starts_word ch

  -- The scanners take the source from the start of the token on and the start, and return the
  -- token and the source behind it.
  unfoldable pub scan_word : Text → ℕ → Result (Token × Text)
  unfolding in_word
  scan_word src start =
      let rest = skip_while in_word src in
      let lexeme = lexeme_between src rest in
      ok (
        record {
          type = keyword (py.upper lexeme);
          lexeme = lexeme;
          position = start;
          value = none;
        },
        rest,
      )

  unfoldable pub scan_number : Text → ℕ → Result (Token × Text)
  unfolding glued starts_word
  scan_number src start =
      let rest = skip_while py.is_digit src in
      let lexeme = lexeme_between src rest in
      if glued rest then raise sql_syntax_error else do
        n ← py.parse_int lexeme
        ok (
          record { type = number_token; lexeme = lexeme; position = start; value = some (num n) },
          rest,
        )

  unfoldable pub scan_string : Text → ℕ → Result (Token × Text)
  scan_string src start = do
    (chars, rest) ← scan_chars (drop 1 src)
    ok (
      record {
        type = string_token;
        lexeme = lexeme_between src rest;
        position = start;
        value = some (str chars);
      },
      rest,
    )

  unfoldable pub scan_symbol : Text → ℕ → Result (Token × Text)
  scan_symbol [] start = raise index_error
  scan_symbol (ch ∷ cs) start = do
    (type, count) ← symbol ch cs
    ok (
      record { type = type; lexeme = take count (ch ∷ cs); position = start; value = none },
      drop count (ch ∷ cs),
    )

  unfoldable pub scan_token : Text → ℕ → Result (Token × Text)
  unfolding starts_word scan_symbol
  scan_token [] start = scan_symbol [] start
  scan_token (ch ∷ cs) start =
      if starts_word ch
      then scan_word (ch ∷ cs) start
      else if py.is_digit ch
      then scan_number (ch ∷ cs) start
      else if ch == 39
      then scan_string (ch ∷ cs) start
      else scan_symbol (ch ∷ cs) start

  -- The loop of `tokenize` on the rest of a source of `total` characters. An iteration that comes to
  -- a token passes at least one character, so a fuel above the length of the rest is enough.
  pub next_token : ℕ → Text → Result (Option (Token × Text))
  next_token total [] = ok none
  next_token total (ch ∷ cs) = do
    found ← scan_token (ch ∷ cs) (total - length (ch ∷ cs))
    ok (some found)

  unfoldable pub tokens_from : ℕ → ℕ → Text → Result (List Token)
  unfolding next_token
  tokens_from zero total src = raise out_of_fuel
  tokens_from (suc fuel) total src = do
    found ← next_token total (skip_trivia src)
    elim found [
      | none ↦ ok (record { type = eof_token; lexeme = []; position = total; value = none } ∷ [])
      | some (token, rest) ↦ do tokens ← tokens_from fuel total rest; ok (token ∷ tokens)
    ]

  unfoldable pub tokenize : Text → Result (List Token)
  tokenize source = tokens_from (length source + 1) (length source) source
