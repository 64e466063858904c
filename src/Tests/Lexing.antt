-- ===== src/Tests/Lexing.antt =====
-- A string literal with a quote in it, and a source for the loop of the lexer.
use query_x_engine.Common.{
  ℕ, ◌≡◌, ◌≢◌, raise, out_of_fuel, refl, Bool, true, [], ◌∷◌, ◌++◌, arith, length, leb, ◌&&◌, ◌||◌,
  ok,
}
use query_x_engine.Common.Int.{pos}
use query_x_engine.Storage.Row.{Text}
use query_x_engine.Sql.Lexer.{StrMethods, scan_chars, tokens_from, peek_is}
use query_x_engine.Sql.Lexer.Strings.{quoted, scan_chars-quoted}
use query_x_engine.Sql.Lexer.Total.{tokens_from-total}

scan_chars-quoted_example :
    scan_chars (quoted (105 ∷ 39 ∷ 115 ∷ []) ++ (39 ∷ 44 ∷ [])) ≡ ok (105 ∷ 39 ∷ 115 ∷ [], 44 ∷ [])
scan_chars-quoted_example =
    scan_chars-quoted (105 ∷ 39 ∷ 115 ∷ []) (44 ∷ []) (unfold peek_is in refl)

abbrev lower : ℕ → Bool
lower c = leb 97 c && leb c 122

abbrev digit : ℕ → Bool
digit c = leb 48 c && leb c 57

-- lower-case letters and digits of ASCII
abbrev ascii : StrMethods
ascii = record {
  is_alpha = lower;
  is_alnum = λ c. lower c || digit c;
  is_digit = digit;
  upper = λ s. s;
  parse_int = λ s. ok (pos (length s));
}

ascii-alnum : (c : ℕ) → lower c ≡ true → (lower c || digit c) ≡ true
ascii-alnum c h = rw h refl

abbrev source : Text
source = 97 ∷ 32 ∷ 61 ∷ 32 ∷ 55 ∷ []

counted : (s : Text) → ascii.parse_int s ≢ raise out_of_fuel
counted s h = cc

tokens_from-total_example :
    (tokens_from ascii 6 5 source ≢ raise out_of_fuel)
    × (tokens_from ascii 6 5 source ≡ tokens_from ascii 100 5 source)
tokens_from-total_example =
    tokens_from-total ascii counted ascii-alnum 6 100 5 source (omega arith) (omega arith)
