-- ===== src/Index/BTree/Insert.antt =====
-- The insertion of an entry into a sorted sequence of entries.
pub mod Walk
pub mod Leaf
use mathlib.Core.Path.{subst}
use query_x_engine.Common.{
  ℕ, zero, suc, ◌+◌, ◌/◌, ◌≤◌, ◌<◌, ◌≡◌, refl, sym, ap, ◌∙◌, Bool, true, false, ◌==◌, if◌then◌else◌,
  none, Option, some, List, [], ◌∷◌, ◌++◌, append-nil, append_assoc, length, length-append,
  length-take, length-drop, take-append-drop, take, drop, leb, map, All, arith, Bool-cases, inl,
  inr, ok,
}
use query_x_engine.Common.Sorting.{Pairwise}
use query_x_engine.Common.Exec.{pure, continue-ok}
use query_x_engine.Common.Int.{ℤ, ltb_ℤ, eqb_ℤ}
use query_x_engine.Storage.HeapFile.{RowId}
use query_x_engine.Index.BTree.{
  Node, NodeStore, bisect_right, insert_at, with_entry, store_or_split, insert_into, split_leaf,
  split_internal, search_from,
}
use query_x_engine.Index.BTree.Search.{
  Entry, InOrder, keys_of, values_of, rows_of, rows_of-append, rows_of_below, Pairwise-append,
  Leaves, end, next, search_from-rows_of,
}
use query_x_engine.Index.BTree.Split.{AtMost}

-- the entries with a new one after those under its key
unfoldable pub put_entry : ℤ → RowId → List Entry → List Entry
put_entry key id [] = (key, id) ∷ []
put_entry key id ((k, v) ∷ es) =
    let rest = put_entry key id es in if ltb_ℤ key k then (key, id) ∷ (k, v) ∷ es else (k, v) ∷ rest

pub keys-put_entry :
    (key : ℤ) (id : RowId) (es : List Entry)
    → insert_at (bisect_right (keys_of es) key) key (keys_of es) ≡ keys_of (put_entry key id es)
unfolding insert_at bisect_right put_entry
keys-put_entry key id [] = refl
keys-put_entry key id ((k, v) ∷ es) = elim (Bool-cases (ltb_ℤ key k)) [
  | inl above ↦ rw above refl
  | inr not_above ↦ rw not_above (ap (◌∷◌ k) (keys-put_entry key id es))
]

pub values-put_entry :
    (key : ℤ) (id : RowId) (es : List Entry)
    → insert_at (bisect_right (keys_of es) key) id (values_of es) ≡ values_of (put_entry key id es)
unfolding insert_at bisect_right put_entry
values-put_entry key id [] = refl
values-put_entry key id ((k, v) ∷ es) = elim (Bool-cases (ltb_ℤ key k)) [
  | inl above ↦ rw above refl
  | inr not_above ↦ rw not_above (ap (◌∷◌ v) (values-put_entry key id es))
]

pub length-put_entry :
    (key : ℤ) (id : RowId) (es : List Entry) → length (put_entry key id es) ≡ suc (length es)
unfolding put_entry
length-put_entry key id [] = omega arith
length-put_entry key id ((k, v) ∷ es) = ground (arith, length-put_entry key id es)

pub All-put_entry :
    (P : Entry → Type 0) (key : ℤ) (id : RowId) (es rest : List Entry)
    → P (key, id)
    → All P (es ++ rest)
    → All P (put_entry key id es ++ rest)
unfolding put_entry
All-put_entry P key id [] rest p a = (p, a)
All-put_entry P key id ((k, v) ∷ es) rest p (q, a) = elim (Bool-cases (ltb_ℤ key k)) [
  | inl above ↦ rw above (p, (q, a))
  | inr not_above ↦ rw not_above (q, All-put_entry P key id es rest p a)
]

-- an entry below the first one is below all
All-below :
    (key k : ℤ) (id v : RowId) (es : List Entry)
    → ltb_ℤ key k ≡ true
    → All (InOrder (k, v)) es
    → All (InOrder (key, id)) es
All-below key k id v [] h a = tt
All-below key k id v ((j, w) ∷ es) h (le, a) =
    let below : ltb_ℤ j key ≡ false = ground arith in (below, All-below key k id v es h a)

pub Pairwise-put_entry :
    (key : ℤ) (id : RowId) (es rest : List Entry)
    → Pairwise InOrder (es ++ rest)
    → All (InOrder (key, id)) rest
    → Pairwise InOrder (put_entry key id es ++ rest)
unfolding put_entry
Pairwise-put_entry key id [] rest p h = (h, p)
Pairwise-put_entry key id ((k, v) ∷ es) rest (a, p) h = elim (Bool-cases (ltb_ℤ key k)) [
  | inl above ↦
      let first : ltb_ℤ k key ≡ false = ground arith in
      rw above ((first, All-below key k id v (es ++ rest) above a), (a, p))
  | inr not_above ↦ rw not_above (
    All-put_entry (InOrder (k, v)) key id es rest not_above a,
    Pairwise-put_entry key id es rest p h,
  )
]

-- an entry before those with a greater key stands last under its own key
swap :
    (j key k : ℤ) (id v : RowId) (es : List Entry)
    → ltb_ℤ key k ≡ true
    → All (InOrder (k, v)) es
    → rows_of j ((key, id) ∷ []) ++ rows_of j ((k, v) ∷ es)
      ≡ rows_of j ((k, v) ∷ es) ++ rows_of j ((key, id) ∷ [])
swap j key k id v es above a = elim (Bool-cases (eqb_ℤ key j)) [
  | inl same ↦
      let below : ltb_ℤ j k ≡ true = ground arith in
      rw (rows_of_below j k v es below a) (append-nil (rows_of j ((key, id) ∷ [])))
  | inr other ↦
      let none_here : rows_of j ((key, id) ∷ []) ≡ [] = unfold rows_of in rw other refl in
      rw none_here (sym (append-nil (rows_of j ((k, v) ∷ es))))
]

rows_of_cons :
    (j : ℤ) (e : Entry) (es ds fs : List Entry)
    → rows_of j es ≡ rows_of j ds ++ rows_of j fs
    → rows_of j (e ∷ es) ≡ rows_of j (e ∷ ds) ++ rows_of j fs
unfolding rows_of
rows_of_cons j (k, v) es ds fs h = elim (Bool-cases (eqb_ℤ k j)) [
  | inl same ↦ rw same (ap (◌∷◌ v) h)
  | inr other ↦ rw other h
]

rows_of-put_entry :
    (j key : ℤ) (id : RowId) (es : List Entry)
    → Pairwise InOrder es
    → rows_of j (put_entry key id es) ≡ rows_of j es ++ rows_of j ((key, id) ∷ [])
unfolding put_entry
rows_of-put_entry j key id [] p = unfold rows_of in refl
rows_of-put_entry j key id ((k, v) ∷ es) (a, p) = elim (Bool-cases (ltb_ℤ key k)) [
  | inl above ↦
      rw above (rows_of-append j ((key, id) ∷ []) ((k, v) ∷ es) ∙ swap j key k id v es above a)
  | inr not_above ↦ rw not_above (
      rows_of_cons j (k, v) (put_entry key id es) es ((key, id) ∷ [])
        (rows_of-put_entry j key id es p))
]

-- the rows under a key after an insertion, with those of the later leaves
pub rows_after :
    (j key : ℤ) (id : RowId) (es rest : List Entry)
    → Pairwise InOrder (es ++ rest)
    → rows_of j (put_entry key id es ++ rest)
      ≡ rows_of j es ++ rows_of j ((key, id) ∷ []) ++ rows_of j rest
rows_after j key id es rest p =
    rows_of-append j (put_entry key id es) rest
    ∙ ap (λ (x : List RowId). x ++ rows_of j rest)
        (rows_of-put_entry j key id es (Pairwise-append es rest p).0)

pub length-map : {A B : Type 0} (f : A → B) (xs : List A) → length (map f xs) ≡ length xs
length-map f [] = refl
length-map f (x ∷ xs) = ap suc (length-map f xs)

pub then_branch :
    {A B : Type 0} (b : Bool) (f g : A → B) (a : A) → b ≡ true → (if b then f else g) a ≡ f a
then_branch b f g a h = rw h refl

pub map-take :
    {A B : Type 0} (f : A → B) (m : ℕ) (xs : List A) → map f (take m xs) ≡ take m (map f xs)
map-take f zero xs = refl
map-take f (suc m) [] = refl
map-take f (suc m) (x ∷ xs) = ap (◌∷◌ (f x)) (map-take f m xs)

pub map-drop :
    {A B : Type 0} (f : A → B) (m : ℕ) (xs : List A) → map f (drop m xs) ≡ drop m (map f xs)
map-drop f zero xs = refl
map-drop f (suc m) [] = refl
map-drop f (suc m) (x ∷ xs) = map-drop f m xs

-- sorted entries have sorted keys
pub Pairwise-keys_of : (es : List Entry) → Pairwise InOrder es → Pairwise AtMost (keys_of es)
Pairwise-keys_of [] p = tt
Pairwise-keys_of (e ∷ es) (a, p) = (each e es a, Pairwise-keys_of es p)
  where
    each : (e : Entry) (es : List Entry) → All (InOrder e) es → All (AtMost e.0) (keys_of es)
    each e [] a = tt
    each e (d ∷ es) (h, a) = (h, each e es a)
