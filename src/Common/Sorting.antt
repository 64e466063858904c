-- ===== src/Common/Sorting.antt =====
-- A stable insertion sort, and what it does to the order of a list.
use Prim.Native.Nat.{ℕ, suc}
use mathlib.Core.Path.{◌≡◌, refl, ◌∙◌}
use mathlib.Core.Logic.{◌⊎◌, inl, inr}
use mathlib.Core.Bool.{Bool, true, false}
use mathlib.Core.List.{List, [], ◌∷◌}
use native.Mathlib.Omega.{arith}
use query_x_engine.Common.Tests.{if◌then◌else◌, Bool-cases}
use query_x_engine.Common.Lists.{All, length}

module _ {A : Type 0} (less : A → A → Bool) where
  -- before the first element that is not less
  unfoldable pub put_in : A → List A → List A
  put_in x [] = x ∷ []
  put_in x (y ∷ ys) = let rest = put_in x ys in if less y x then y ∷ rest else x ∷ y ∷ ys

  unfoldable pub stable_sort : List A → List A
  stable_sort [] = []
  stable_sort (x ∷ xs) = put_in x (stable_sort xs)

-- every element stands in the relation to all later ones
abbrev pub Pairwise : {A : Type 0} → (A → A → Type 0) → List A → Type 0
Pairwise R [] = Unit
Pairwise R (x ∷ xs) = All (R x) xs × Pairwise R xs

-- `less` first, and `R` where neither is less
abbrev pub Lex : {A : Type 0} → (A → A → Bool) → (A → A → Type 0) → A → A → Type 0
Lex less R x y = (less y x ≡ false) × ((less x y ≡ true) ⊎ R x y)

-- a strict weak order
pub record IsOrder {A : Type 0} (less : A → A → Bool) : Type 0 where
  pub asymmetric : (x y : A) → less x y ≡ true → less y x ≡ false
  pub negative : (x y z : A) → less y x ≡ false → less z y ≡ false → less z x ≡ false

module _ {A : Type 0} {less : A → A → Bool} (o : IsOrder less) (R : A → A → Type 0) where
  All-put_in : (P : A → Type 0) (x : A) (xs : List A) → P x → All P xs → All P (put_in less x xs)
  unfolding put_in
  All-put_in P x [] p ps = (p, tt)
  All-put_in P x (y ∷ ys) p (q, qs) = elim (Bool-cases (less y x)) [
    | inl before ↦ rw before (q, All-put_in P x ys p qs)
    | inr here ↦ rw here (p, (q, qs))
  ]

  pub All-stable_sort : (P : A → Type 0) (xs : List A) → All P xs → All P (stable_sort less xs)
  unfolding stable_sort
  All-stable_sort P [] h = tt
  All-stable_sort P (x ∷ xs) (p, ps) =
      All-put_in P x (stable_sort less xs) p (All-stable_sort P xs ps)

  -- nothing after an element that is not less than `x` is less than `x`
  not_less :
      (x y : A) (ys : List A)
      → less y x ≡ false
      → All (Lex less R y) ys
      → All (λ z. less z x ≡ false) ys
  not_less x y [] h ls = tt
  not_less x y (z ∷ zs) h (l, ls) = (o.negative x y z h l.0, not_less x y zs h ls)

  both :
      (x : A) (ys : List A) → All (λ z. less z x ≡ false) ys → All (R x) ys → All (Lex less R x) ys
  both x [] h r = tt
  both x (y ∷ ys) (h, hs) (r, rs) = ((h, inr r), both x ys hs rs)

  Pairwise-put_in :
      (x : A) (xs : List A)
      → All (R x) xs
      → Pairwise (Lex less R) xs
      → Pairwise (Lex less R) (put_in less x xs)
  unfolding put_in
  Pairwise-put_in x [] r p = (tt, tt)
  Pairwise-put_in x (y ∷ ys) (r, rs) (l, ls) = elim (Bool-cases (less y x)) [
    | inl before ↦ rw before (
      All-put_in (Lex less R y) x ys (o.asymmetric y x before, inl before) l,
      Pairwise-put_in x ys rs ls,
    )
    | inr here ↦ rw here (((here, inr r), both x ys (not_less x y ys here l) rs), (l, ls))
  ]

  -- A stable sort of a list that is in the order `R` is in the order of `less`, and of `R` where
  -- that decides nothing.
  pub stable_sort-Pairwise :
      (xs : List A) → Pairwise R xs → Pairwise (Lex less R) (stable_sort less xs)
  unfolding stable_sort
  stable_sort-Pairwise [] p = tt
  stable_sort-Pairwise (x ∷ xs) (r, p) =
      Pairwise-put_in x (stable_sort less xs) (All-stable_sort (R x) xs r)
        (stable_sort-Pairwise xs p)

-- the number of elements for which a test holds
unfoldable pub count : {A : Type 0} → (A → Bool) → List A → ℕ
count p [] = 0
count p (x ∷ xs) = let n = count p xs in if p x then suc n else n

module _ {A : Type 0} (less : A → A → Bool) (p : A → Bool) where
  count-put_in : (x : A) (xs : List A) → count p (put_in less x xs) ≡ count p (x ∷ xs)
  unfolding count put_in
  count-put_in x [] = refl
  count-put_in x (y ∷ ys) = ground (arith, count-put_in x ys)

  -- A sort keeps every element as often as it stood there.
  pub count-stable_sort : (xs : List A) → count p (stable_sort less xs) ≡ count p xs
  unfolding count stable_sort
  count-stable_sort [] = refl
  count-stable_sort (x ∷ xs) =
      count-put_in x (stable_sort less xs) ∙ ground (arith, count-stable_sort xs)

module _ {A : Type 0} (less : A → A → Bool) where
  length-put_in : (x : A) (xs : List A) → length (put_in less x xs) ≡ suc (length xs)
  unfolding put_in
  length-put_in x [] = omega arith
  length-put_in x (y ∷ ys) = ground (arith, length-put_in x ys)

  pub length-stable_sort : (xs : List A) → length (stable_sort less xs) ≡ length xs
  unfolding stable_sort
  length-stable_sort [] = refl
  length-stable_sort (x ∷ xs) =
      omega (arith, length-put_in x (stable_sort less xs), length-stable_sort xs)
