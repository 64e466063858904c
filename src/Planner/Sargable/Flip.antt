-- ===== src/Planner/Sargable/Flip.antt =====
-- A comparison of two data, and its flip the other way round.
use query_x_engine.Common.{
  ◌≡◌, refl, ◌∙◌, Bool, true, false, not, ◌||◌, [], ◌∷◌, arith, Result, ok, raise,
}
use query_x_engine.Common.Bytes.{bytes_eq}
use query_x_engine.Common.Int.{ℤ, pos, ltb_ℤ, eqb_ℤ}
use query_x_engine.Common.Dict.{bytes_eq_sym}
use query_x_engine.Storage.Row.{Text, num, str}
use query_x_engine.Sql.Tokens.{
  TokenType, eq_token, neq_token, lt_token, gt_token, lte_token, gte_token,
}
use query_x_engine.Execution.Evaluate.{
  Datum, value, bool, float, null, scale, multiple, standing, ordered, unordered, number, text_lt,
  order_of, compare_by,
}
use query_x_engine.Planner.Sargable.{flip}

-- How the comparison of two data the other way round stands to it.
pub data Compared (a b : Datum) : Type 0 where
  incomparable :
      (same : Bool) → order_of a b ≡ unordered same → order_of b a ≡ unordered same → Compared a b
  comparable :
      (less same : Bool)
      → order_of a b ≡ ordered less same
      → order_of b a ≡ ordered (not (less || same)) same
      → (less ≡ true → same ≡ false)
      → Compared a b

text_total : (s t : Text) → text_lt t s ≡ not (text_lt s t || bytes_eq s t)
unfolding text_lt bytes_eq
text_total [] [] = refl
text_total [] (d ∷ t) = refl
text_total (c ∷ s) [] = refl
text_total (c ∷ s) (d ∷ t) = ground (arith, text_total s t)

text_irreflexive : (s t : Text) → text_lt s t ≡ true → bytes_eq s t ≡ false
unfolding text_lt bytes_eq
text_irreflexive s [] h = cc
text_irreflexive [] (d ∷ t) h = refl
text_irreflexive (c ∷ s) (d ∷ t) h = ground (arith, text_irreflexive s t)

total_ℤ : (m n : ℤ) → ltb_ℤ n m ≡ not (ltb_ℤ m n || eqb_ℤ m n)
total_ℤ m n = ground arith

numbers :
    (m n : ℤ) {a b : Datum}
    → order_of a b ≡ ordered (ltb_ℤ m n) (eqb_ℤ m n)
    → order_of b a ≡ ordered (ltb_ℤ n m) (eqb_ℤ n m)
    → Compared a b
numbers m n e f =
    let swapped : ordered (ltb_ℤ n m) (eqb_ℤ n m)
        ≡ ordered (not (ltb_ℤ m n || eqb_ℤ m n)) (eqb_ℤ m n) =
      ground (arith, total_ℤ m n) in
    comparable (ltb_ℤ m n) (eqb_ℤ m n) e (f ∙ swapped) (λ h. ground arith)

pub compared-by : (a b : Datum) → Compared a b
unfolding order_of number multiple standing
compared-by (value (str s)) (value (str t)) =
    comparable (text_lt s t) (bytes_eq s t) refl (ground (arith, text_total s t, bytes_eq_sym t s))
      (text_irreflexive s t)
compared-by (value (num m)) (value (num n)) = numbers m n refl refl
compared-by (value (num m)) (value (str t)) = incomparable false refl refl
compared-by (value (str s)) (value (num n)) = incomparable false refl refl
compared-by (value (str s)) (bool true) = incomparable false refl refl
compared-by (value (str s)) (bool false) = incomparable false refl refl
compared-by (bool true) (value (str t)) = incomparable false refl refl
compared-by (bool false) (value (str t)) = incomparable false refl refl
compared-by (value (num m)) (bool true) = numbers m (pos 1) refl refl
compared-by (value (num m)) (bool false) = numbers m (pos 0) refl refl
compared-by (bool true) (value (num n)) = numbers (pos 1) n refl refl
compared-by (bool false) (value (num n)) = numbers (pos 0) n refl refl
compared-by (bool true) (bool true) = numbers (pos 1) (pos 1) refl refl
compared-by (bool true) (bool false) = numbers (pos 1) (pos 0) refl refl
compared-by (bool false) (bool true) = numbers (pos 0) (pos 1) refl refl
compared-by (bool false) (bool false) = numbers (pos 0) (pos 0) refl refl
compared-by (float k) (value (num n)) = numbers k (scale n) refl refl
compared-by (value (num n)) (float k) = numbers (scale n) k refl refl
compared-by (float k) (bool true) = numbers k (scale (pos 1)) refl refl
compared-by (bool true) (float k) = numbers (scale (pos 1)) k refl refl
compared-by (float k) (bool false) = numbers k (scale (pos 0)) refl refl
compared-by (bool false) (float k) = numbers (scale (pos 0)) k refl refl
compared-by (float j) (float k) = numbers j k refl refl
compared-by (float k) (value (str s)) = incomparable false refl refl
compared-by (value (str s)) (float k) = incomparable false refl refl
compared-by (float k) null = incomparable false refl refl
compared-by null (float k) = incomparable false refl refl
compared-by (value (num n)) null = incomparable false refl refl
compared-by null (value (num n)) = incomparable false refl refl
compared-by (value (str s)) null = incomparable false refl refl
compared-by null (value (str s)) = incomparable false refl refl
compared-by (bool true) null = incomparable false refl refl
compared-by null (bool true) = incomparable false refl refl
compared-by (bool false) null = incomparable false refl refl
compared-by null (bool false) = incomparable false refl refl
compared-by null null = incomparable true refl refl

-- a comparison gives the same as its flip the other way round
unfoldable pub Flipped : TokenType → Result TokenType → Datum → Datum → Type 0
Flipped op (ok op') a b = compare_by op (order_of a b) ≡ compare_by op' (order_of b a)
Flipped op (raise e) a b = Unit

pub flip-Flipped : (op : TokenType) (a b : Datum) → Compared a b → Flipped op (flip op) a b
unfolding flip compare_by Flipped
flip-Flipped lt_token a b (incomparable same e f) = rw (e, f) refl
flip-Flipped gt_token a b (incomparable same e f) = rw (e, f) refl
flip-Flipped lte_token a b (incomparable same e f) = rw (e, f) refl
flip-Flipped gte_token a b (incomparable same e f) = rw (e, f) refl
flip-Flipped eq_token a b (incomparable same e f) = rw (e, f) refl
flip-Flipped neq_token a b (incomparable same e f) = rw (e, f) refl
flip-Flipped lt_token a b (comparable less same e f h) = rw (e, f) (ground (arith, h))
flip-Flipped gt_token a b (comparable less same e f h) = rw (e, f) (ground (arith, h))
flip-Flipped lte_token a b (comparable less same e f h) = rw (e, f) (ground (arith, h))
flip-Flipped gte_token a b (comparable less same e f h) = rw (e, f) (ground (arith, h))
flip-Flipped eq_token a b (comparable less same e f h) = rw (e, f) refl
flip-Flipped neq_token a b (comparable less same e f h) = rw (e, f) refl
flip-Flipped _ a b h = tt
