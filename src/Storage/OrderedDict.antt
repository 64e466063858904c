-- ===== src/Storage/OrderedDict.antt =====
-- Python's `OrderedDict` with page numbers for keys: an association list in insertion order.
use query_x_engine.Common.{
  ℕ, ◌+◌, ◌≤◌, ◌≡◌, refl, Option, none, some, List, [], ◌∷◌, ◌++◌, arith, length, length-append,
  ◌==◌, if◌then◌else◌,
}

module _ {V : Type 0} where
  -- d.get(k)
  unfoldable pub lookup : ℕ → List (ℕ × V) → Option V
  lookup k [] = none
  lookup k ((j, v) ∷ l) = if j == k then some v else lookup k l

  -- del d[k]
  unfoldable pub remove : ℕ → List (ℕ × V) → List (ℕ × V)
  remove k [] = []
  remove k ((j, v) ∷ l) = let rest = remove k l in if j == k then rest else (j, v) ∷ rest

  -- d[k] = v, which keeps the place of a key that is there
  unfoldable pub assign : ℕ → V → List (ℕ × V) → List (ℕ × V)
  assign k v [] = (k, v) ∷ []
  assign k v ((j, w) ∷ l) = if j == k then (k, v) ∷ l else (j, w) ∷ assign k v l

  -- d.move_to_end(k), for the value `v` of `k`
  unfoldable pub move_to_end : ℕ → V → List (ℕ × V) → List (ℕ × V)
  move_to_end k v l = remove k l ++ ((k, v) ∷ [])

  abbrev pub DistinctKeys : List (ℕ × V) → Type 0
  DistinctKeys [] = Unit
  DistinctKeys ((k, v) ∷ l) = (lookup k l ≡ none) × DistinctKeys l

  pub lookup-assign :
      (k j : ℕ) (v : V) (l : List (ℕ × V))
      → lookup j (assign k v l) ≡ (if k == j then some v else lookup j l)
  unfolding lookup assign
  lookup-assign k j v [] = refl
  lookup-assign k j v ((i, w) ∷ l) = ground (arith, lookup-assign k j v l)

  lookup-remove :
      (k j : ℕ) (l : List (ℕ × V)) → lookup j (remove k l) ≡ (if k == j then none else lookup j l)
  unfolding lookup remove
  lookup-remove k j [] = ground arith
  lookup-remove k j ((i, w) ∷ l) = ground (arith, lookup-remove k j l)

  lookup-append :
      (k j : ℕ) (v : V) (l : List (ℕ × V))
      → lookup k l ≡ none
      → lookup j (l ++ ((k, v) ∷ [])) ≡ (if k == j then some v else lookup j l)
  unfolding lookup
  lookup-append k j v [] h = refl
  lookup-append k j v ((i, w) ∷ l) h = ground (arith, lookup-append k j v l)

  pub lookup-move_to_end :
      (k j : ℕ) (v : V) (l : List (ℕ × V))
      → lookup j (move_to_end k v l) ≡ (if k == j then some v else lookup j l)
  unfolding move_to_end
  lookup-move_to_end k j v l =
      ground (arith, lookup-append k j v (remove k l), lookup-remove k k l, lookup-remove k j l)

  DistinctKeys-remove : (k : ℕ) (l : List (ℕ × V)) → DistinctKeys l → DistinctKeys (remove k l)
  unfolding remove
  DistinctKeys-remove k [] h = tt
  DistinctKeys-remove k ((i, w) ∷ l) (h, hs) =
      ground (arith, lookup-remove k i l, DistinctKeys-remove k l hs)

  DistinctKeys-append :
      (k : ℕ) (v : V) (l : List (ℕ × V))
      → DistinctKeys l
      → lookup k l ≡ none
      → DistinctKeys (l ++ ((k, v) ∷ []))
  unfolding lookup
  DistinctKeys-append k v [] h f = (refl, tt)
  DistinctKeys-append k v ((i, w) ∷ l) (h, hs) f =
      (ground (arith, lookup-append k i v l), DistinctKeys-append k v l hs (ground arith))

  pub DistinctKeys-move_to_end :
      (k : ℕ) (v : V) (l : List (ℕ × V)) → DistinctKeys l → DistinctKeys (move_to_end k v l)
  unfolding move_to_end
  DistinctKeys-move_to_end k v l h =
      DistinctKeys-append k v (remove k l) (DistinctKeys-remove k l h)
        (ground (arith, lookup-remove k k l))

  pub DistinctKeys-assign :
      (k : ℕ) (v : V) (l : List (ℕ × V)) → DistinctKeys l → DistinctKeys (assign k v l)
  unfolding assign lookup
  DistinctKeys-assign k v [] h = (refl, tt)
  DistinctKeys-assign k v ((i, w) ∷ l) (h, hs) =
      ground (arith, lookup-assign k i v l, DistinctKeys-assign k v l hs)

  length-remove_absent :
      (k : ℕ) (l : List (ℕ × V)) → lookup k l ≡ none → length (remove k l) ≡ length l
  unfolding lookup remove
  length-remove_absent k [] h = refl
  length-remove_absent k ((i, w) ∷ l) h = ground (arith, length-remove_absent k l)

  length-remove :
      (k : ℕ) (v : V) (l : List (ℕ × V))
      → DistinctKeys l
      → lookup k l ≡ some v
      → length (remove k l) + 1 ≡ length l
  unfolding lookup remove
  length-remove k v [] d h = cc
  length-remove k v ((i, w) ∷ l) (d, ds) h =
      ground (arith, length-remove k v l ds, length-remove_absent k l)

  pub length-move_to_end :
      (k : ℕ) (v : V) (l : List (ℕ × V))
      → DistinctKeys l
      → lookup k l ≡ some v
      → length (move_to_end k v l) ≡ length l
  unfolding move_to_end
  length-move_to_end k v l d h =
      omega (arith, length-append (remove k l) ((k, v) ∷ []), length-remove k v l d h)

  pub length-assign_le : (k : ℕ) (v : V) (l : List (ℕ × V)) → length (assign k v l) ≤ length l + 1
  unfolding assign
  length-assign_le k v [] = omega arith
  length-assign_le k v ((i, w) ∷ l) = ground (arith, length-assign_le k v l)

  pub length-assign_self :
      (k : ℕ) (v w : V) (l : List (ℕ × V)) → lookup k l ≡ some w → length (assign k v l) ≡ length l
  unfolding assign lookup
  length-assign_self k v w [] h = cc
  length-assign_self k v w ((i, x) ∷ l) h = ground (arith, length-assign_self k v w l)

  pub assign-lookup : (k : ℕ) (v : V) (l : List (ℕ × V)) → lookup k l ≡ some v → assign k v l ≡ l
  unfolding assign lookup
  assign-lookup k v [] h = cc
  assign-lookup k v ((i, w) ∷ l) h = ground (arith, assign-lookup k v l)
