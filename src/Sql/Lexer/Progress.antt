-- ===== src/Sql/Lexer/Progress.antt =====
-- The lexer's loop passes a character in each round, so that its fuel is enough.
use query_x_engine.Common.{
  ℕ, zero, suc, ◌-◌, ◌≤◌, ◌<◌, ◌≡◌, refl, true, false, Bool, Option, none, some, List, [], ◌∷◌,
  arith, ◌==◌, length, Result, ok, raise, ◌>>=◌, >>=-eq-ok, Bool-cases, inl, inr, length-drop,
}
use query_x_engine.Storage.Row.{Text}
use query_x_engine.Sql.Tokens.{Token, TokenType, eof_token}
use query_x_engine.Sql.Lexer.{
  StrMethods, skip_while, skip, skip_trivia, scan_chars, symbol, scan_token, scan_word, scan_number,
  scan_string, scan_symbol, next_token, glued, tokens_from, starts_word, in_word,
}

length-skip_while : (test : ℕ → Bool) (l : Text) → length (skip_while test l) ≤ length l
unfolding skip_while
length-skip_while test [] = omega arith
length-skip_while test (c ∷ l) = ground (arith, length-skip_while test l)

pub length-skip : (b : Bool) (l : Text) → length (skip b l) ≤ length l
unfolding skip
length-skip b [] = omega arith
length-skip true (c ∷ l) = ground (arith, length-skip false l, length-skip true l)
length-skip false (c ∷ l) = ground (arith, length-skip false l, length-skip true l)

-- what a scan leaves is shorter than what it is given
abbrev Shorter {ℓ} : {A : Type ℓ} → Text → Result (A × Text) → Type 0
Shorter l (ok r) = length r.1 < length l
Shorter l (raise e) = Unit

Shorter-bind :
    {A B : Type 0} (l : Text) (m : Result A) (f : A → Result (B × Text))
    → ((a : A) → m ≡ ok a → Shorter l (f a))
    → Shorter l (m >>= f)
Shorter-bind l (ok a) f h = h a refl
Shorter-bind l (raise e) f h = tt

Shorter-ok :
    {A : Type 0} (l : Text) (m : Result (A × Text)) (r : A × Text)
    → Shorter l m
    → m ≡ ok r
    → length r.1 < length l
Shorter-ok l m r h e = rw e at h

scan_chars-Shorter : (l : Text) → Shorter l (scan_chars l)
unfolding scan_chars
scan_chars-Shorter [] = tt
scan_chars-Shorter (c ∷ []) = ground arith
scan_chars-Shorter (c ∷ d ∷ l) = elim (Bool-cases (c == 39)) [
  | inl e ↦ elim (Bool-cases (d == 39)) [
    | inl f ↦
        rw (e, scan_chars)
          (rw f (
            Shorter-bind (c ∷ d ∷ l) (scan_chars l) _
              λ r h. omega (arith, Shorter-ok l (scan_chars l) r (scan_chars-Shorter l) h)))
    | inr f ↦ rw (e, scan_chars) (rw f (omega arith))
  ]
  | inr e ↦
      rw (e, scan_chars)
        (Shorter-bind (c ∷ d ∷ l) (scan_chars (d ∷ l)) _ λ r h.
          omega (arith, Shorter-ok (d ∷ l) (scan_chars (d ∷ l)) r (scan_chars-Shorter (d ∷ l)) h))
]

-- a second argument of at least 1
abbrev Positive : Result (TokenType × ℕ) → Type 0
Positive (ok r) = 1 ≤ r.1
Positive (raise e) = Unit

Positive-ok : (m : Result (TokenType × ℕ)) (r : TokenType × ℕ) → Positive m → m ≡ ok r → 1 ≤ r.1
Positive-ok m r h e = rw e at h

symbol-Positive : (c : ℕ) (rest : Text) → Positive (symbol c rest)
unfolding symbol
symbol-Positive c rest = ground arith

abbrev pub round : ℕ → (Text → Result (List Token)) → Option (Token × Text) → Result (List Token)
round total f found = elim found [
  | none ↦ ok (record { type = eof_token; lexeme = []; position = total; value = none } ∷ [])
  | some (token, rest) ↦ do tokens ← f rest; ok (token ∷ tokens)
]

same_round :
    (m : Result (Option (Token × Text))) (f g : Text → Result (List Token)) (total : ℕ)
    → ((token : Token) (rest : Text) → m ≡ ok (some (token, rest)) → f rest ≡ g rest)
    → (m >>= round total f) ≡ (m >>= round total g)
same_round (raise e) f g total h = refl
same_round (ok none) f g total h = refl
same_round (ok (some (token, rest))) f g total h = rw (h token rest refl) refl

module _ (py : StrMethods) (alpha : (c : ℕ) → py.is_alpha c ≡ true → py.is_alnum c ≡ true) where
  scan_word-Shorter :
      (c : ℕ) (l : Text) (start : ℕ)
      → starts_word py c ≡ true
      → Shorter (c ∷ l) (scan_word py (c ∷ l) start)
  unfolding scan_word starts_word skip_while in_word
  scan_word-Shorter c l start h = ground (arith, alpha c, length-skip_while (in_word py) l)

  scan_number-Shorter :
      (c : ℕ) (l : Text) (start : ℕ)
      → py.is_digit c ≡ true
      → Shorter (c ∷ l) (scan_number py (c ∷ l) start)
  unfolding scan_number skip_while
  scan_number-Shorter c l start h =
      rw (h, skip_while)
        (elim (Bool-cases (glued py (skip_while py.is_digit l))) [
          | inl g ↦ rw g tt
          | inr g ↦ rw g (
              Shorter-bind (c ∷ l) (py.parse_int _) _
                λ n e. omega (arith, length-skip_while py.is_digit l))
        ])

  scan_string-Shorter :
      (c : ℕ) (l : Text) (start : ℕ) → Shorter (c ∷ l) (scan_string py (c ∷ l) start)
  unfolding scan_string
  scan_string-Shorter c l start =
      Shorter-bind (c ∷ l) (scan_chars l) _
        λ r e. omega (arith, Shorter-ok l (scan_chars l) r (scan_chars-Shorter l) e)

  scan_symbol-Shorter :
      (c : ℕ) (l : Text) (start : ℕ) → Shorter (c ∷ l) (scan_symbol py (c ∷ l) start)
  unfolding scan_symbol
  scan_symbol-Shorter c l start = Shorter-bind (c ∷ l) (symbol c l) _ λ r e.
      omega (arith, length-drop r.1 (c ∷ l), Positive-ok (symbol c l) r (symbol-Positive c l) e)

  scan_token-Shorter :
      (c : ℕ) (l : Text) (start : ℕ) → Shorter (c ∷ l) (scan_token py (c ∷ l) start)
  unfolding scan_token
  scan_token-Shorter c l start = elim (Bool-cases (starts_word py c)) [
    | inl e ↦ rw e (scan_word-Shorter c l start e)
    | inr e ↦ elim (Bool-cases (py.is_digit c)) [
      | inl d ↦ rw (e, d) (scan_number-Shorter c l start d)
      | inr d ↦ elim (Bool-cases (c == 39)) [
        | inl q ↦ rw (e, d, q) (scan_string-Shorter c l start)
        | inr q ↦ rw (e, d, q) (scan_symbol-Shorter c l start)
      ]
    ]
  ]

  pub next_token-shorter :
      (total : ℕ) (src rest : Text) (token : Token)
      → next_token py total src ≡ ok (some (token, rest))
      → length rest < length src
  unfolding next_token
  next_token-shorter total [] rest token h = cc
  next_token-shorter total (c ∷ l) rest token h =
      let (r, e, f) = >>=-eq-ok (scan_token py (c ∷ l) (total - length (c ∷ l))) _ h in
      let shorter =
        Shorter-ok (c ∷ l) (scan_token py (c ∷ l) (total - length (c ∷ l))) r
          (scan_token-Shorter c l (total - length (c ∷ l))) e in
      let same : some r ≡ some (token, rest) = cc in ground (arith, shorter, same)

  -- any two fuels above the length of the source give the same result
  pub tokens_from-enough :
      (fuel fuel' total : ℕ) (src : Text)
      → length src < fuel
      → length src < fuel'
      → tokens_from py fuel total src ≡ tokens_from py fuel' total src
  unfolding tokens_from skip_trivia
  tokens_from-enough zero fuel' total src h h' = ground arith
  tokens_from-enough (suc fuel) zero total src h h' = ground arith
  tokens_from-enough (suc fuel) (suc fuel') total src h h' =
      same_round (next_token py total (skip_trivia src)) (tokens_from py fuel total)
        (tokens_from py fuel' total) total
        λ token rest e.
          let shorter = next_token-shorter total (skip_trivia src) rest token e in
          tokens_from-enough fuel fuel' total rest
            (omega (arith, shorter, length-skip false src, h))
            (omega (arith, shorter, length-skip false src, h'))
