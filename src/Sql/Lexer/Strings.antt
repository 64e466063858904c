-- ===== src/Sql/Lexer/Strings.antt =====
-- String literals and line comments of the lexer.
use query_x_engine.Common.{
  ℕ, ◌≡◌, refl, false, [], ◌∷◌, ◌++◌, ◌==◌, if◌then◌else◌, Result, ok, ◌>>=◌, Bool-cases, inl, inr,
  ==_iff, ap, sym,
}
use query_x_engine.Storage.Row.{Text}
use query_x_engine.Sql.Lexer.{peek_is, scan_chars}

-- the characters of a string as they stand between the quotes, with a quote written twice
abbrev pub quoted : Text → Text
quoted [] = []
quoted (c ∷ cs) = let rest = quoted cs in if c == 39 then 39 ∷ 39 ∷ rest else c ∷ rest

-- puts a character before those that a scan gave
prefix : ℕ → Result (Text × Text) → Result (Text × Text)
prefix c m = do (chars, rest) ← m; ok (c ∷ chars, rest)

scan_chars-other :
    (c : ℕ) (l : Text) → (c == 39) ≡ false → scan_chars (c ∷ l) ≡ prefix c (scan_chars l)
unfolding scan_chars prefix
scan_chars-other c [] h = rw (h, scan_chars)
scan_chars-other c (d ∷ l) h = rw (h, scan_chars)

-- Scanning the quoted form of a string, with a closing quote and a source that goes on without
-- another quote, gives the string back and leaves what stands behind the closing quote.
pub scan_chars-quoted :
    (s rest : Text) → peek_is 39 rest ≡ false → scan_chars (quoted s ++ (39 ∷ rest)) ≡ ok (s, rest)
unfolding scan_chars peek_is prefix
scan_chars-quoted [] [] h = refl
scan_chars-quoted [] (c ∷ rest) h = rw (h, scan_chars)
scan_chars-quoted (c ∷ s) rest h = elim (Bool-cases (c == 39)) [
  | inl e ↦
      rw (e, scan_chars)
        (rw (scan_chars-quoted s rest h)
          (ap (λ (d : ℕ). ok (d ∷ s, rest)) (sym ((==_iff c 39).0 e))))
  | inr e ↦
      rw e
        (rw (scan_chars-other c (quoted s ++ (39 ∷ rest)) e) (rw (scan_chars-quoted s rest h) refl))
]
