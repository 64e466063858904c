-- ===== src/Sql/Lexer/Total.antt =====
-- The loop of `tokenize` ends: with enough fuel it returns tokens or raises what the source raises.
use query_x_engine.Common.{
  ℕ, zero, suc, ◌-◌, ◌<◌, ◌≡◌, ◌≢◌, refl, ap, ◌∙◌, true, false, none, some, [], ◌∷◌, arith, ◌==◌,
  length, Result, ok, raise, out_of_fuel, sql_syntax_error, Error, ◌>>=◌, Bool-cases, inl, inr,
}
use query_x_engine.Common.Int.{ℤ}
use query_x_engine.Storage.Row.{Text}
use query_x_engine.Sql.Lexer.{
  StrMethods, skip_while, skip_trivia, scan_chars, symbol, scan_token, scan_word, scan_number,
  scan_string, scan_symbol, next_token, glued, tokens_from, starts_word, lexeme_between,
}
use query_x_engine.Sql.Lexer.Progress.{length-skip, round, next_token-shorter, tokens_from-enough}

-- a result that does not come from a lack of fuel
abbrev pub Ends {ℓ} : {A : Type ℓ} → Result A → Type 0
Ends (ok a) = Unit
Ends (raise e) = e ≢ out_of_fuel

raise-injective : {A : Type 0} {d e : Error} → ◌≡◌ {A = Result A} (raise d) (raise e) → d ≡ e
raise-injective h = cc

Ends-ne : {A : Type 0} (m : Result A) → Ends m → m ≢ raise out_of_fuel
Ends-ne (ok a) h e = cc
Ends-ne (raise d) h e = h (raise-injective e)

Ends-bind :
    {A B : Type 0} (m : Result A) (f : A → Result B)
    → Ends m
    → ((a : A) → m ≡ ok a → Ends (f a))
    → Ends (m >>= f)
Ends-bind (ok a) f h g = g a refl
Ends-bind (raise e) f h g = h

syntax : sql_syntax_error ≢ out_of_fuel
syntax h = cc

scan_chars-Ends : (l : Text) → Ends (scan_chars l)
unfolding scan_chars
scan_chars-Ends [] = syntax
scan_chars-Ends (c ∷ []) = elim (Bool-cases (c == 39)) [ inl e ↦ rw e tt | inr e ↦ rw e syntax ]
scan_chars-Ends (c ∷ d ∷ l) = elim (Bool-cases (c == 39)) [
  | inl e ↦ elim (Bool-cases (d == 39)) [
    | inl f ↦ rw (e, scan_chars) (rw f (Ends-bind (scan_chars l) _ (scan_chars-Ends l) λ r h. tt))
    | inr f ↦ rw (e, scan_chars) (rw f tt)
  ]
  | inr e ↦
      rw (e, scan_chars) (Ends-bind (scan_chars (d ∷ l)) _ (scan_chars-Ends (d ∷ l)) λ r h. tt)
]

symbol-Ends : (c : ℕ) (rest : Text) → Ends (symbol c rest)
unfolding symbol
symbol-Ends c rest = ground (arith, syntax)

scan_string-Ends :
    (py : StrMethods) (c : ℕ) (l : Text) (start : ℕ) → Ends (scan_string py (c ∷ l) start)
unfolding scan_string
scan_string-Ends py c l start = Ends-bind (scan_chars l) _ (scan_chars-Ends l) λ r h. tt

scan_symbol-Ends :
    (py : StrMethods) (c : ℕ) (l : Text) (start : ℕ) → Ends (scan_symbol py (c ∷ l) start)
unfolding scan_symbol
scan_symbol-Ends py c l start = Ends-bind (symbol c l) _ (symbol-Ends c l) λ r h. tt

module _ (py : StrMethods) (ints : (s : Text) → py.parse_int s ≢ raise out_of_fuel) where
  parse_int-Ends : (s : Text) (m : Result ℤ) → py.parse_int s ≡ m → Ends m
  parse_int-Ends s (ok n) h = tt
  parse_int-Ends s (raise e) h = λ same. ints s (h ∙ ap raise same)

  scan_number-Ends : (l : Text) (start : ℕ) → Ends (scan_number py l start)
  unfolding scan_number
  scan_number-Ends l start = elim (Bool-cases (glued py (skip_while py.is_digit l))) [
    | inl g ↦ rw g syntax
    | inr g ↦ rw g (
        Ends-bind (py.parse_int (lexeme_between l (skip_while py.is_digit l))) _
          (parse_int-Ends _ _ refl) λ n h. tt)
  ]

  scan_token-Ends : (c : ℕ) (l : Text) (start : ℕ) → Ends (scan_token py (c ∷ l) start)
  unfolding scan_token
  scan_token-Ends c l start = elim (Bool-cases (starts_word py c)) [
    | inl e ↦ rw e (unfold scan_word in tt)
    | inr e ↦ elim (Bool-cases (py.is_digit c)) [
      | inl d ↦ rw (e, d) (scan_number-Ends (c ∷ l) start)
      | inr d ↦ elim (Bool-cases (c == 39)) [
        | inl q ↦ rw (e, d, q) (scan_string-Ends py c l start)
        | inr q ↦ rw (e, d, q) (scan_symbol-Ends py c l start)
      ]
    ]
  ]

  next_token-Ends : (total : ℕ) (src : Text) → Ends (next_token py total src)
  unfolding next_token
  next_token-Ends total [] = tt
  next_token-Ends total (c ∷ l) =
      Ends-bind (scan_token py (c ∷ l) (total - length (c ∷ l))) _
        (scan_token-Ends c l (total - length (c ∷ l))) λ r h. tt

  module _ (alpha : (c : ℕ) → py.is_alpha c ≡ true → py.is_alnum c ≡ true) where
    tokens_from-Ends :
        (fuel total : ℕ) (src : Text) → length src < fuel → Ends (tokens_from py fuel total src)
    unfolding tokens_from skip_trivia
    tokens_from-Ends zero total src h = absurd (omega arith)
    tokens_from-Ends (suc fuel) total src h =
        Ends-bind (next_token py total (skip_trivia src)) _
          (next_token-Ends total (skip_trivia src))
          λ found e.
            elim found
                as (λ x.
                  next_token py total (skip_trivia src) ≡ ok x
                  → Ends (round total (tokens_from py fuel total) x)) [
                    | none ↦ λ e. tt
                    | some (token, rest) ↦ λ e.
                        let shorter =
                          next_token-shorter py alpha total (skip_trivia src) rest token e in
                        Ends-bind (tokens_from py fuel total rest) _
                          (tokens_from-Ends fuel total rest
                            (omega (arith, shorter, length-skip false src, h)))
                          λ tokens k. tt
                  ]
              e

    -- The loop of `tokenize` ends. When `isalnum` holds of every character that `isalpha` holds of,
    -- and `int` raises only exceptions of Python, every fuel above the length of the source gives
    -- the same result, which is tokens or an exception of the source and never a lack of fuel.
    pub tokens_from-total :
        (fuel fuel' total : ℕ) (src : Text)
        → length src < fuel
        → length src < fuel'
        → (tokens_from py fuel total src ≢ raise out_of_fuel)
          × (tokens_from py fuel total src ≡ tokens_from py fuel' total src)
    tokens_from-total fuel fuel' total src h h' = (
      Ends-ne (tokens_from py fuel total src) (tokens_from-Ends fuel total src h),
      tokens_from-enough py alpha fuel fuel' total src h h',
    )
