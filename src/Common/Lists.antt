-- ===== src/Common/Lists.antt =====
-- Lists measured, cut and indexed by native numbers, under the library's names.
use Prim.Native.Nat.{ℕ, zero, suc, ◌+◌, ◌-◌, ◌≤◌, ◌<◌, min}
use mathlib.Core.Path.{◌≡◌, refl, ap, ap₂}
use mathlib.Core.Logic.{◌≢◌}
use mathlib.Core.List.{List, [], ◌∷◌, ◌++◌}
use mathlib.Core.Option.{Option, none, some}
use native.Mathlib.Omega.{arith}

module _ {ℓ} {A : Type ℓ} where
  abbrev pub length : List A → ℕ
  length [] = 0
  length (x ∷ xs) = suc (length xs)

  abbrev pub get_elem? : List A → ℕ → Option A
  get_elem? [] i = none
  get_elem? (x ∷ xs) zero = some x
  get_elem? (x ∷ xs) (suc i) = get_elem? xs i

  -- A write out of bounds changes nothing.
  abbrev pub set : List A → ℕ → A → List A
  set [] i v = []
  set (x ∷ xs) zero v = v ∷ xs
  set (x ∷ xs) (suc i) v = x ∷ set xs i v

  abbrev pub take : ℕ → List A → List A
  take zero xs = []
  take (suc n) [] = []
  take (suc n) (x ∷ xs) = x ∷ take n xs

  abbrev pub drop : ℕ → List A → List A
  drop zero xs = xs
  drop (suc n) [] = []
  drop (suc n) (x ∷ xs) = drop n xs

  abbrev pub replicate : ℕ → A → List A
  replicate zero a = []
  replicate (suc n) a = a ∷ replicate n a

  abbrev pub All {κ} : (A → Type κ) → List A → Type κ
  All P [] = Unit {κ}
  All P (x ∷ xs) = P x × All P xs

  pub length-append : (xs ys : List A) → length (xs ++ ys) ≡ length xs + length ys
  length-append [] ys = omega arith
  length-append (x ∷ xs) ys = omega (arith, length-append xs ys)

  pub length-take : (n : ℕ) (xs : List A) → length (take n xs) ≡ min n (length xs)
  length-take zero xs = omega arith
  length-take (suc n) [] = omega arith
  length-take (suc n) (x ∷ xs) = omega (arith, length-take n xs)

  pub length-drop : (n : ℕ) (xs : List A) → length (drop n xs) ≡ length xs - n
  length-drop zero xs = omega arith
  length-drop (suc n) [] = omega arith
  length-drop (suc n) (x ∷ xs) = omega (arith, length-drop n xs)

  pub length-replicate : (n : ℕ) (a : A) → length (replicate n a) ≡ n
  length-replicate zero a = refl
  length-replicate (suc n) a = ap suc (length-replicate n a)

  pub take-append-drop : (n : ℕ) (xs : List A) → take n xs ++ drop n xs ≡ xs
  take-append-drop zero xs = refl
  take-append-drop (suc n) [] = refl
  take-append-drop (suc n) (x ∷ xs) = rw (take-append-drop n xs)

  -- The first `n` of a prefix of `n` elements, and what follows it.
  pub take-append_exact : (n : ℕ) (xs ys : List A) → length xs ≡ n → take n (xs ++ ys) ≡ xs
  take-append_exact zero [] ys h = refl
  take-append_exact zero (x ∷ xs) ys h = absurd (omega arith)
  take-append_exact (suc n) [] ys h = absurd (omega arith)
  take-append_exact (suc n) (x ∷ xs) ys h = ap (◌∷◌ x) (take-append_exact n xs ys (omega arith))

  pub drop-append_exact : (n : ℕ) (xs ys : List A) → length xs ≡ n → drop n (xs ++ ys) ≡ ys
  drop-append_exact zero [] ys h = refl
  drop-append_exact zero (x ∷ xs) ys h = absurd (omega arith)
  drop-append_exact (suc n) [] ys h = absurd (omega arith)
  drop-append_exact (suc n) (x ∷ xs) ys h = drop-append_exact n xs ys (omega arith)

  pub take-append_le : (n : ℕ) (xs ys : List A) → n ≤ length xs → take n (xs ++ ys) ≡ take n xs
  take-append_le zero xs ys h = refl
  take-append_le (suc n) [] ys h = absurd (omega arith)
  take-append_le (suc n) (x ∷ xs) ys h = ap (◌∷◌ x) (take-append_le n xs ys (omega arith))

  pub drop-append_le :
      (n : ℕ) (xs ys : List A) → n ≤ length xs → drop n (xs ++ ys) ≡ drop n xs ++ ys
  drop-append_le zero xs ys h = refl
  drop-append_le (suc n) [] ys h = absurd (omega arith)
  drop-append_le (suc n) (x ∷ xs) ys h = drop-append_le n xs ys (omega arith)

  pub drop-append_ge :
      (n m : ℕ) (xs ys : List A) → n ≡ length xs + m → drop n (xs ++ ys) ≡ drop m ys
  drop-append_ge n m [] ys h = let e : n ≡ m = omega arith in rw e
  drop-append_ge zero m (x ∷ xs) ys h = absurd (omega arith)
  drop-append_ge (suc n) m (x ∷ xs) ys h = drop-append_ge n m xs ys (omega arith)

  pub take_of_length-le : (n : ℕ) (xs : List A) → length xs ≤ n → take n xs ≡ xs
  take_of_length-le (suc n) [] h = refl
  take_of_length-le (suc n) (y ∷ ys) h = ap (λ l. y ∷ l) (take_of_length-le n ys (omega arith))
  take_of_length-le zero [] h = refl
  take_of_length-le zero (y ∷ ys) h = absurd (omega arith)

  pub drop_of_length-le : (n : ℕ) (xs : List A) → length xs ≤ n → drop n xs ≡ []
  drop_of_length-le zero [] h = refl
  drop_of_length-le zero (x ∷ xs) h = absurd (omega arith)
  drop_of_length-le (suc n) [] h = refl
  drop_of_length-le (suc n) (x ∷ xs) h = drop_of_length-le n xs (omega arith)

  pub drop-drop : (n m k : ℕ) (xs : List A) → n + m ≡ k → drop m (drop n xs) ≡ drop k xs
  drop-drop zero m k xs h = let e : m ≡ k = omega arith in rw e
  drop-drop (suc n) m zero xs h = absurd (omega arith)
  drop-drop (suc n) zero (suc k) [] h = refl
  drop-drop (suc n) (suc m) (suc k) [] h = refl
  drop-drop (suc n) m (suc k) (x ∷ xs) h = drop-drop n m k xs (omega arith)

  pub take-drop-take :
      (a b n : ℕ) (xs : List A) → a + n ≤ b → take n (drop a (take b xs)) ≡ take n (drop a xs)
  take-drop-take zero zero zero xs h = refl
  take-drop-take zero zero (suc n) xs h = absurd (omega arith)
  take-drop-take zero (suc b) zero xs h = refl
  take-drop-take zero (suc b) (suc n) [] h = refl
  take-drop-take zero (suc b) (suc n) (x ∷ xs) h =
      ap (◌∷◌ x) (take-drop-take zero b n xs (omega arith))
  take-drop-take (suc a) zero n xs h = absurd (omega arith)
  take-drop-take (suc a) (suc b) n [] h = refl
  take-drop-take (suc a) (suc b) n (x ∷ xs) h = take-drop-take a b n xs (omega arith)

module _ {ℓ} {A : Type ℓ} where
  pub length-set : (xs : List A) (i : ℕ) (v : A) → length (set xs i v) ≡ length xs
  length-set [] i v = refl
  length-set (x ∷ xs) zero v = refl
  length-set (x ∷ xs) (suc i) v = ap suc (length-set xs i v)

-- [f i, …, f (i + n - 1)]
module _ {ℓ} {A : Type ℓ} where
  unfoldable pub tabulate : ℕ → ℕ → (ℕ → A) → List A
  tabulate i zero f = []
  tabulate i (suc n) f = f i ∷ tabulate (i + 1) n f

  pub length-tabulate : (i n : ℕ) (f : ℕ → A) → length (tabulate i n f) ≡ n
  unfolding tabulate
  length-tabulate i zero f = refl
  length-tabulate i (suc n) f = ap suc (length-tabulate (i + 1) n f)

  pub get_elem?-tabulate :
      (i n : ℕ) (f : ℕ → A) (k j : ℕ)
      → k < n
      → i + k ≡ j
      → get_elem? (tabulate i n f) k ≡ some (f j)
  unfolding tabulate
  get_elem?-tabulate i zero f k j h e = absurd (omega arith)
  get_elem?-tabulate i (suc n) f zero j h e =
      let e' : i ≡ j = omega arith in ap (λ m. some (f m)) e'
  get_elem?-tabulate i (suc n) f (suc k) j h e =
      get_elem?-tabulate (i + 1) n f k j (omega arith) (omega arith)

  pub tabulate_ext :
      (i n : ℕ) (f g : ℕ → A)
      → ((j : ℕ) → i ≤ j → j < i + n → f j ≡ g j)
      → tabulate i n f ≡ tabulate i n g
  unfolding tabulate
  tabulate_ext i zero f g h = refl
  tabulate_ext i (suc n) f g h =
      ap₂ ◌∷◌ (h i (omega arith) (omega arith))
        (tabulate_ext (i + 1) n f g (λ j p q. h j (omega arith) (omega arith)))

  pub tabulate-suc :
      (i n : ℕ) (f : ℕ → A) (j : ℕ)
      → i + n ≡ j
      → tabulate i (suc n) f ≡ tabulate i n f ++ (f j ∷ [])
  unfolding tabulate
  tabulate-suc i zero f j e = let e' : i ≡ j = omega arith in ap (λ m. f m ∷ []) e'
  tabulate-suc i (suc n) f j e = ap (◌∷◌ (f i)) (tabulate-suc (i + 1) n f j (omega arith))

  -- Functions that differ at one place, the `k`-th, alone.
  pub tabulate-set :
      (i n : ℕ) (f g : ℕ → A) (k m : ℕ)
      → i + k ≡ m
      → ((j : ℕ) → j < i + n → j ≢ m → g j ≡ f j)
      → tabulate i n g ≡ set (tabulate i n f) k (g m)
  unfolding tabulate
  tabulate-set i zero f g k m e h = refl
  tabulate-set i (suc n) f g zero m e h =
      ap₂ ◌∷◌ (ap g (let e' : i ≡ m = omega arith in e'))
        (tabulate_ext (i + 1) n g f (λ j p q. h j (omega arith) (omega arith)))
  tabulate-set i (suc n) f g (suc k) m e h =
      ap₂ ◌∷◌ (h i (omega arith) (omega arith))
        (tabulate-set (i + 1) n f g k m (omega arith) (λ j p q. h j (omega arith) q))

module _ {ℓ} {A : Type ℓ} where
  pub take-append_past :
      (n m : ℕ) (xs ys : List A) → n ≡ length xs + m → take n (xs ++ ys) ≡ xs ++ take m ys
  take-append_past n m [] ys h = let e : n ≡ m = omega arith in rw e
  take-append_past zero m (x ∷ xs) ys h = absurd (omega arith)
  take-append_past (suc n) m (x ∷ xs) ys h = ap (◌∷◌ x) (take-append_past n m xs ys (omega arith))
