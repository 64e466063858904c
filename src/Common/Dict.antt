-- ===== src/Common/Dict.antt =====
-- Python's `dict` with strings for keys: an association list in insertion order.
use query_x_engine.Common.Tests.{Bool-cases, if◌then◌else◌}
use mathlib.Core.Path.{◌≡◌, refl, sym, ap, ◌∙◌}
use mathlib.Core.Logic.{inl, inr}
use mathlib.Core.Bool.{Bool, true, false}
use mathlib.Core.Option.{Option, none, some}
use mathlib.Core.List.{List, [], ◌∷◌}
use Prim.Native.Nat.{ℕ}
use native.Mathlib.Omega.{arith}
use query_x_engine.Common.Bytes.{bytes_eq, bytes_eq_refl, bytes_eq→eq}

pub bytes_eq_sym : (a b : List ℕ) → bytes_eq a b ≡ bytes_eq b a
unfolding bytes_eq
bytes_eq_sym [] [] = refl
bytes_eq_sym [] (y ∷ b) = refl
bytes_eq_sym (x ∷ a) [] = refl
bytes_eq_sym (x ∷ a) (y ∷ b) = ground (arith, bytes_eq_sym a b)

module _ {V : Type 0} where
  -- d.get(k)
  unfoldable pub get : List ℕ → List (List ℕ × V) → Option V
  get k [] = none
  get k ((j, v) ∷ d) = let found = get k d in if bytes_eq j k then some v else found

  -- k in d
  unfoldable pub has : List ℕ → List (List ℕ × V) → Bool
  has k [] = false
  has k ((j, v) ∷ d) = let found = has k d in if bytes_eq j k then true else found

  -- d[k] = v
  unfoldable pub put : List ℕ → V → List (List ℕ × V) → List (List ℕ × V)
  put k v [] = (k, v) ∷ []
  put k v ((j, w) ∷ d) = let rest = put k v d in if bytes_eq j k then (j, v) ∷ d else (j, w) ∷ rest

  -- the items whose value passes the test
  unfoldable pub keep : (V → Bool) → List (List ℕ × V) → List (List ℕ × V)
  keep test [] = []
  keep test ((j, v) ∷ d) = let rest = keep test d in if test v then (j, v) ∷ rest else rest

  -- del d[k]
  unfoldable pub del : List ℕ → List (List ℕ × V) → List (List ℕ × V)
  del k [] = []
  del k ((j, v) ∷ d) = let rest = del k d in if bytes_eq j k then rest else (j, v) ∷ rest

  abbrev pub DistinctKeys : List (List ℕ × V) → Type 0
  DistinctKeys [] = Unit
  DistinctKeys ((k, v) ∷ d) = (get k d ≡ none) × DistinctKeys d

  pub get-put_same : (k : List ℕ) (v : V) (d : List (List ℕ × V)) → get k (put k v d) ≡ some v
  unfolding get put
  get-put_same k v [] = rw (bytes_eq_refl k) refl
  get-put_same k v ((j, w) ∷ d) = ground (arith, get-put_same k v d)

  pub get-put_other :
      (k j : List ℕ) (v : V) (d : List (List ℕ × V))
      → bytes_eq k j ≡ false
      → get j (put k v d) ≡ get j d
  unfolding get put
  get-put_other k j v [] h = rw h refl
  get-put_other k j v ((i, w) ∷ d) h = elim (Bool-cases (bytes_eq i k)) [
    | inl e ↦
        let other : bytes_eq i j ≡ false = ap (λ x. bytes_eq x j) (bytes_eq→eq i k e) ∙ h in
        rw (e, other) refl
    | inr e ↦ rw (e, get-put_other k j v d h) refl
  ]

  pub get-keep :
      (test : V → Bool) (k : List ℕ) (v : V) (d : List (List ℕ × V))
      → DistinctKeys d
      → get k (keep test d) ≡ some v
      → (get k d ≡ some v) × (test v ≡ true)
  unfolding get keep
  get-keep test k v [] u h = cc
  get-keep test k v ((i, w) ∷ d) u h = ground (arith, get-keep test k v d u.1, bytes_eq→eq i k)

  get-del_same : (k : List ℕ) (d : List (List ℕ × V)) → get k (del k d) ≡ none
  unfolding get del
  get-del_same k [] = refl
  get-del_same k ((i, w) ∷ d) = ground (arith, get-del_same k d)

  pub get-del :
      (k j : List ℕ) (v : V) (d : List (List ℕ × V)) → get j (del k d) ≡ some v → get j d ≡ some v
  unfolding get del
  get-del k j v [] h = h
  get-del k j v ((i, w) ∷ d) h = elim (Bool-cases (bytes_eq i k)) [
    | inl e ↦ elim (Bool-cases (bytes_eq i j)) [
      | inl f ↦
          let same : j ≡ k = sym (bytes_eq→eq i j f) ∙ bytes_eq→eq i k e in
          let gone : get j (del k ((i, w) ∷ d)) ≡ none =
            ap (λ x. get x (del k ((i, w) ∷ d))) same ∙ get-del_same k ((i, w) ∷ d) in
          cc
      | inr f ↦ rw f (get-del k j v d (rw (e, get) at h))
    ]
    | inr e ↦ ground (arith, get-del k j v d)
  ]

  pub get-del_other :
      (k j : List ℕ) (d : List (List ℕ × V)) → bytes_eq k j ≡ false → get j (del k d) ≡ get j d
  unfolding get del
  get-del_other k j [] h = refl
  get-del_other k j ((i, w) ∷ d) h = elim (Bool-cases (bytes_eq i k)) [
    | inl e ↦
        let other : bytes_eq i j ≡ false = ap (λ x. bytes_eq x j) (bytes_eq→eq i k e) ∙ h in
        rw (e, other) (get-del_other k j d h)
    | inr e ↦ rw e (rw (get-del_other k j d h, get) refl)
  ]

  pub has-get : (k : List ℕ) (d : List (List ℕ × V)) → has k d ≡ false → get k d ≡ none
  unfolding get has
  has-get k [] h = refl
  has-get k ((i, w) ∷ d) h = ground (arith, has-get k d)

  get-keep-none :
      (test : V → Bool) (k : List ℕ) (d : List (List ℕ × V))
      → get k d ≡ none
      → get k (keep test d) ≡ none
  unfolding get keep
  get-keep-none test k [] h = refl
  get-keep-none test k ((i, w) ∷ d) h = ground (arith, get-keep-none test k d)

  get-del-none : (k j : List ℕ) (d : List (List ℕ × V)) → get j d ≡ none → get j (del k d) ≡ none
  unfolding get del
  get-del-none k j [] h = refl
  get-del-none k j ((i, w) ∷ d) h = ground (arith, get-del-none k j d)

  pub DistinctKeys-keep :
      (test : V → Bool) (d : List (List ℕ × V)) → DistinctKeys d → DistinctKeys (keep test d)
  unfolding keep
  DistinctKeys-keep test [] h = tt
  DistinctKeys-keep test ((i, w) ∷ d) (h, hs) =
      ground (arith, get-keep-none test i d, DistinctKeys-keep test d hs)

  pub DistinctKeys-del :
      (k : List ℕ) (d : List (List ℕ × V)) → DistinctKeys d → DistinctKeys (del k d)
  unfolding del
  DistinctKeys-del k [] h = tt
  DistinctKeys-del k ((i, w) ∷ d) (h, hs) =
      ground (arith, get-del-none k i d, DistinctKeys-del k d hs)

  pub DistinctKeys-put :
      (k : List ℕ) (v : V) (d : List (List ℕ × V)) → DistinctKeys d → DistinctKeys (put k v d)
  unfolding put get
  DistinctKeys-put k v [] h = (refl, tt)
  DistinctKeys-put k v ((i, w) ∷ d) (h, hs) = elim (Bool-cases (bytes_eq i k)) [
    | inl e ↦ rw e (h, hs)
    | inr e ↦ rw e (get-put_other k i v d (bytes_eq_sym k i ∙ e) ∙ h, DistinctKeys-put k v d hs)
  ]

  -- every item has the property
  module _ (P : List ℕ → V → Type 0) where
    abbrev pub Each : List (List ℕ × V) → Type 0
    Each [] = Unit
    Each ((k, v) ∷ d) = P k v × Each d

    pub Each-put : (k : List ℕ) (v : V) (d : List (List ℕ × V)) → P k v → Each d → Each (put k v d)
    unfolding put
    Each-put k v [] p h = (p, tt)
    Each-put k v ((i, w) ∷ d) p (h, hs) = elim (Bool-cases (bytes_eq i k)) [
      | inl e ↦ rw e (rw (bytes_eq→eq i k e) (p, hs))
      | inr e ↦ rw e (h, Each-put k v d p hs)
    ]

    pub Each-keep : (test : V → Bool) (d : List (List ℕ × V)) → Each d → Each (keep test d)
    unfolding keep
    Each-keep test [] h = tt
    Each-keep test ((i, w) ∷ d) (h, hs) = ground (arith, Each-keep test d hs)

    pub Each-del : (k : List ℕ) (d : List (List ℕ × V)) → Each d → Each (del k d)
    unfolding del
    Each-del k [] h = tt
    Each-del k ((i, w) ∷ d) (h, hs) = ground (arith, Each-del k d hs)

    pub Each-get : (k : List ℕ) (v : V) (d : List (List ℕ × V)) → Each d → get k d ≡ some v → P k v
    unfolding get
    Each-get k v [] h e = cc
    Each-get k v ((i, w) ∷ d) (h, hs) e = elim (Bool-cases (bytes_eq i k)) [
      | inl f ↦
          let same : w ≡ v = ground (arith, rw (f, get) at e) in
          rw (sym same) (rw (sym (bytes_eq→eq i k f)) h)
      | inr f ↦ Each-get k v d hs (rw (f, get) at e)
    ]
