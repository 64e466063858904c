-- ===== src/Storage/Page/Places.antt =====
-- The cell that an insert fills: it held no record, and it is the only one to change.
use query_x_engine.Common.{
  ℕ, zero, suc, ◌+◌, ◌≡◌, ◌≢◌, refl, sym, ap, ◌∙◌, Option, none, some, List, [], ◌∷◌, ◌++◌, arith,
  length, set, get_elem?,
}
use query_x_engine.Common.Bytes.{Bytes}
use query_x_engine.Storage.Page.Contents.{first_dead}
use query_x_engine.Storage.Page.Insert.{place_at}

module _ {A : Type 0} where
  get_elem?-append_self : (xs : List A) (x : A) → get_elem? (xs ++ (x ∷ [])) (length xs) ≡ some x
  get_elem?-append_self [] x = refl
  get_elem?-append_self (y ∷ xs) x = get_elem?-append_self xs x

  get_elem?-append_ne :
      (xs : List A) (x : A) (j : ℕ) → j ≢ length xs → get_elem? (xs ++ (x ∷ [])) j ≡ get_elem? xs j
  get_elem?-append_ne [] x zero h = absurd (h refl)
  get_elem?-append_ne [] x (suc j) h = refl
  get_elem?-append_ne (y ∷ xs) x zero h = refl
  get_elem?-append_ne (y ∷ xs) x (suc j) h = get_elem?-append_ne xs x j (λ e. h (ap suc e))

  get_elem?_end : (xs : List A) → get_elem? xs (length xs) ≡ none
  get_elem?_end [] = refl
  get_elem?_end (x ∷ xs) = get_elem?_end xs

  get_elem?-set_self :
      (xs : List A) (i : ℕ) (x y : A) → get_elem? xs i ≡ some y → get_elem? (set xs i x) i ≡ some x
  get_elem?-set_self [] i x y h = cc
  get_elem?-set_self (z ∷ xs) zero x y h = refl
  get_elem?-set_self (z ∷ xs) (suc i) x y h = get_elem?-set_self xs i x y h

  pub get_elem?-set_ne :
      (xs : List A) (i j : ℕ) (x : A) → j ≢ i → get_elem? (set xs i x) j ≡ get_elem? xs j
  get_elem?-set_ne [] i j x h = refl
  get_elem?-set_ne (z ∷ xs) zero zero x h = absurd (h refl)
  get_elem?-set_ne (z ∷ xs) zero (suc j) x h = refl
  get_elem?-set_ne (z ∷ xs) (suc i) zero x h = refl
  get_elem?-set_ne (z ∷ xs) (suc i) (suc j) x h = get_elem?-set_ne xs i j x (λ e. h (ap suc e))

-- the first dead cell, counted from `i`, is dead
first_dead-cell :
    (i : ℕ) (cells : List (Option Bytes)) (k : ℕ)
    → first_dead i cells ≡ some k
    → (d : ℕ) × (k ≡ i + d) × (get_elem? cells d ≡ some none)
unfolding first_dead
first_dead-cell i [] k h = cc
first_dead-cell i (none ∷ cells) k h = (0, ground arith, refl)
first_dead-cell i (some r ∷ cells) k h =
    let (d, e, f) = first_dead-cell (i + 1) cells k h in (suc d, omega (arith, e), f)

-- What `place` does, the first dead cell given as `found`.
pub record Placed (cells : List (Option Bytes)) (rec : Bytes) (found : Option ℕ) : Type 0 where
  pub self : get_elem? (place_at cells rec found).1 (place_at cells rec found).0 ≡ some (some rec)
  pub free : (r : Bytes) → get_elem? cells (place_at cells rec found).0 ≢ some (some r)
  pub others :
      (j : ℕ)
      → j ≢ (place_at cells rec found).0
      → get_elem? (place_at cells rec found).1 j ≡ get_elem? cells j

Placed-by :
    (cells : List (Option Bytes)) (rec : Bytes) (found : Option ℕ)
    → first_dead 0 cells ≡ found
    → Placed cells rec found
Placed-by cells rec none e = record {
  self = get_elem?-append_self cells (some rec);
  free = λ r h. let end : get_elem? cells (length cells) ≡ none = get_elem?_end cells in cc;
  others = λ j ne. get_elem?-append_ne cells (some rec) j ne;
}
Placed-by cells rec (some i) e =
    let (d, f, g) = first_dead-cell 0 cells i e in
    let same : i ≡ d = omega (arith, f) in
    let at : get_elem? cells i ≡ some none = ap (get_elem? cells) same ∙ g in
    record {
      self = get_elem?-set_self cells i (some rec) none at;
      free = λ r h. let clash : some none ≡ some (some r) = sym at ∙ h in cc;
      others = λ j ne. get_elem?-set_ne cells i j (some rec) ne;
    }

pub place-Placed :
    (cells : List (Option Bytes)) (rec : Bytes) → Placed cells rec (first_dead 0 cells)
place-Placed cells rec = Placed-by cells rec (first_dead 0 cells) refl
