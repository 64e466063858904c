-- ===== src/Index/BTree/Search.antt =====
-- The walk of `search` along the leaves.
use query_x_engine.Common.{
  ℕ, zero, suc, ◌≤◌, ◌≡◌, refl, sym, ap, ◌∙◌, Bool, true, false, ◌==◌, if◌then◌else◌, some, List,
  [], ◌∷◌, ◌++◌, append-nil, drop, map, All, arith, Bool-cases, inl, inr, Result, ok,
}
use query_x_engine.Common.Sorting.{Pairwise}
use query_x_engine.Common.Int.{ℤ, ltb_ℤ, eqb_ℤ}
use query_x_engine.Storage.HeapFile.{RowId}
use query_x_engine.Index.BTree.{
  Node, NodeStore, bisect_left, equal_run, last, walks_on, find_leaf, search_from, search,
}

abbrev pub Entry : Type 0
Entry = ℤ × RowId

-- the order of the entries of a tree
abbrev pub InOrder : Entry → Entry → Type 0
InOrder a b = ltb_ℤ b.0 a.0 ≡ false

abbrev pub keys_of : List Entry → List ℤ
keys_of es = map (λ (e : Entry). e.0) es

abbrev pub values_of : List Entry → List RowId
values_of es = map (λ (e : Entry). e.1) es

-- the rows under a key
unfoldable pub rows_of : ℤ → List Entry → List RowId
rows_of key [] = []
rows_of key ((k, v) ∷ es) = let rest = rows_of key es in if eqb_ℤ k key then v ∷ rest else rest

unfoldable any_above : ℤ → List Entry → Bool
any_above key [] = false
any_above key ((k, v) ∷ es) = let rest = any_above key es in if ltb_ℤ key k then true else rest

pub rows_of-append :
    (key : ℤ) (es ds : List Entry) → rows_of key (es ++ ds) ≡ rows_of key es ++ rows_of key ds
unfolding rows_of
rows_of-append key [] ds = refl
rows_of-append key ((k, v) ∷ es) ds = ground (arith, rows_of-append key es ds)

rows_of_above :
    (key : ℤ) (e : Entry) (es : List Entry)
    → ltb_ℤ key e.0 ≡ true
    → All (InOrder e) es
    → rows_of key es ≡ []
unfolding rows_of
rows_of_above key e [] h a = refl
rows_of_above key e ((k, v) ∷ es) h (le, a) = ground (arith, rows_of_above key e es h a)

pub rows_of_below :
    (key k : ℤ) (v : RowId) (es : List Entry)
    → ltb_ℤ key k ≡ true
    → All (InOrder (k, v)) es
    → rows_of key ((k, v) ∷ es) ≡ []
unfolding rows_of
rows_of_below key k v es h a = ground (arith, rows_of_above key (k, v) es h a)

-- from the first key that is not less, the run is that of the equal keys
equal_run-rows_of :
    (key : ℤ) (es : List Entry)
    → Pairwise InOrder es
    → All (λ (e : Entry). ltb_ℤ e.0 key ≡ false) es
    → equal_run key (keys_of es) (values_of es) ≡ (rows_of key es, any_above key es)
unfolding equal_run rows_of any_above
equal_run-rows_of key [] p a = refl
equal_run-rows_of key ((k, v) ∷ es) (o, p) (a, bs) = elim (Bool-cases (eqb_ℤ k key)) [
  | inl same ↦
      let at_most : ltb_ℤ key k ≡ false = ground arith in
      rw (same, at_most, equal_run-rows_of key es p bs) refl
  | inr other ↦
      let above : ltb_ℤ key k ≡ true = ground arith in
      rw (other, above, rows_of_above key (k, v) es above o) refl
]

All-at_least :
    (key k : ℤ) (v : RowId) (es : List Entry)
    → ltb_ℤ k key ≡ false
    → All (InOrder (k, v)) es
    → All (λ (e : Entry). ltb_ℤ e.0 key ≡ false) es
All-at_least key k v [] h a = tt
All-at_least key k v ((j, w) ∷ es) h (le, a) =
    let next : ltb_ℤ j key ≡ false = ground arith in (next, All-at_least key k v es h a)

skip :
    (key k : ℤ) (v : RowId) (es : List Entry)
    → eqb_ℤ k key ≡ false
    → ltb_ℤ key k ≡ false
    → ◌≡◌ {A = List RowId × Bool}
        (rows_of key ((k, v) ∷ es), any_above key ((k, v) ∷ es))
        (rows_of key es, any_above key es)
unfolding rows_of any_above
skip key k v es e f = rw (e, f) refl

-- what a round of `search` reads off a leaf
leaf_run :
    (key : ℤ) (es : List Entry)
    → Pairwise InOrder es
    → equal_run key
        (drop (bisect_left (keys_of es) key) (keys_of es))
        (drop (bisect_left (keys_of es) key) (values_of es))
      ≡ (rows_of key es, any_above key es)
unfolding bisect_left
leaf_run key [] p = unfold equal_run rows_of any_above in refl
leaf_run key ((k, v) ∷ es) (o, p) = elim (Bool-cases (ltb_ℤ k key)) [
  | inl below ↦
      let other : eqb_ℤ k key ≡ false = ground arith in
      let not_above : ltb_ℤ key k ≡ false = ground arith in
      rw below (leaf_run key es p ∙ sym (skip key k v es other not_above))
  | inr here ↦
      rw here (equal_run-rows_of key ((k, v) ∷ es) (o, p) (here, All-at_least key k v es here o))
]

pub Pairwise-append :
    (es ds : List Entry) → Pairwise InOrder (es ++ ds) → Pairwise InOrder es × Pairwise InOrder ds
Pairwise-append [] ds p = (tt, p)
Pairwise-append (e ∷ es) ds (a, p) =
    let (l, r) = Pairwise-append es ds p in ((All_first e es ds a, l), r)
  where
    All_first : (e : Entry) (es ds : List Entry) → All (InOrder e) (es ++ ds) → All (InOrder e) es
    All_first e [] ds a = tt
    All_first e (d ∷ es) ds (h, a) = (h, All_first e es ds a)

pub All-second : (e : Entry) (es ds : List Entry) → All (InOrder e) (es ++ ds) → All (InOrder e) ds
All-second e [] ds a = a
All-second e (d ∷ es) ds (h, a) = All-second e es ds a

-- behind a key above the one that is searched there is no match
nothing_after :
    (key : ℤ) (es ds : List Entry)
    → Pairwise InOrder (es ++ ds)
    → any_above key es ≡ true
    → rows_of key ds ≡ []
unfolding any_above
nothing_after key [] ds p h = cc
nothing_after key ((k, v) ∷ es) ds (a, p) h = elim (Bool-cases (ltb_ℤ key k)) [
  | inl above ↦ rows_of_above key (k, v) ds above (All-second (k, v) es ds a)
  | inr below ↦ nothing_after key es ds p (rw below at h)
]

-- a leaf that is not empty and holds no key above the one that is searched is walked past
last_not_above :
    (key : ℤ) (e : Entry) (es : List Entry)
    → any_above key (e ∷ es) ≡ false
    → (k : ℤ) × (last (keys_of (e ∷ es)) ≡ some k) × (ltb_ℤ key k ≡ false)
unfolding any_above last
last_not_above key (k, v) [] h = (k, refl, ground arith)
last_not_above key (k, v) (e ∷ es) h = last_not_above key e es (ground arith)

ended :
    {S : Type 0} (key : ℤ) (es rest : List Entry) (s : S)
    → Pairwise InOrder (es ++ rest)
    → any_above key es ≡ true
    → ◌≡◌ {A = Result (List RowId) × S} (ok (rows_of key es), s) (ok (rows_of key (es ++ rest)), s)
ended key es rest s p more =
    let all : rows_of key (es ++ rest) ≡ rows_of key es =
      rows_of-append key es rest
      ∙ ap (λ (x : List RowId). rows_of key es ++ x) (nothing_after key es rest p more)
      ∙ append-nil (rows_of key es) in
    ap (λ (x : List RowId). (ok x, s)) (sym all)

module _ {S : Type 0} (n : NodeStore S) where
  -- A number of leaves from a node on, as loads find them: each holds at least one entry, the
  -- entries of the leaf and then those of the next ones.
  pub data Leaves : ℕ → S → Node → List Entry → S → Type 0 where
    end :
        {s : S} {node : Node} (e : Entry) (es : List Entry)
        → node.keys ≡ keys_of (e ∷ es)
        → node.values ≡ values_of (e ∷ es)
        → node.next_leaf ≡ 0
        → Leaves 1 s node (e ∷ es) s
    next :
        {m : ℕ} {s s' s'' : S} {node after : Node} (e : Entry) (es rest : List Entry)
        → node.keys ≡ keys_of (e ∷ es)
        → node.values ≡ values_of (e ∷ es)
        → (node.next_leaf == 0) ≡ false
        → n.load node.next_leaf s ≡ (ok after, s')
        → Leaves m s' after rest s''
        → Leaves (suc m) s node ((e ∷ es) ++ rest) s''

  -- On sorted leaves none of which is empty, the walk of `search` returns the row identifiers under
  -- the key, all of them and in the order of the leaves. Fuel for the number of leaves is enough.
  pub search_from-rows_of :
      (fuel m : ℕ) (key : ℤ) (node : Node) (s s' : S) (entries : List Entry)
      → m ≤ fuel
      → Pairwise InOrder entries
      → Leaves m s node entries s'
      → (s'' : S) × (search_from n fuel key node s ≡ (ok (rows_of key entries), s''))
  unfolding search_from walks_on
  search_from-rows_of zero _ key node s _ _ h p (end e es ks vs z) = absurd (omega arith)
  search_from-rows_of zero _ key node s s' _ h p (next {m = m} e es rest ks vs nz call l) =
      absurd (omega arith)
  search_from-rows_of (suc f) _ key node s _ _ h p (end e es ks vs z) = (
    s,
    rw (ks, vs, leaf_run key (e ∷ es) p)
        (elim (Bool-cases (any_above key (e ∷ es))) [
          | inl more ↦ rw more refl
          | inr all ↦ rw (all, z) refl
        ]),
  )
  search_from-rows_of (suc f) _ key node s s' _ h p
        (next {m = m} {s' = s1} {after = after} e es rest ks vs nz call l) =
      let (pl, pr) = Pairwise-append (e ∷ es) rest p in
      elim (Bool-cases (any_above key (e ∷ es))) [
        | inl more ↦
            (s, rw (ks, vs, leaf_run key (e ∷ es) pl) (rw more (ended key (e ∷ es) rest s p more)))
        | inr all ↦
            let (k, at, le) = last_not_above key e es all in
            let (s2, rec) = search_from-rows_of f m key after s1 s' rest (omega (arith, h)) pr l in
            (
              s2,
              rw (ks, vs, leaf_run key (e ∷ es) pl)
                  (rw (all, nz)
                    (rw at (
                      rw le (
                        rw call (
                          rw rec (
                            ap (λ (x : List RowId). (ok x, s2))
                              (sym (rows_of-append key (e ∷ es) rest)))))))),
            )
      ]

  -- Where the descent ends in a leaf that deletes have emptied, `search` returns no row and reads no
  -- further leaf, whatever the leaves after it hold under the key.
  pub search-empty_leaf :
      (fuel root : ℕ) (key : ℤ) (s s' : S) (node : Node)
      → find_leaf n (suc fuel) root key s ≡ (ok node, s')
      → node.keys ≡ []
      → search n (suc fuel) root key s ≡ (ok [], s')
  unfolding search search_from equal_run walks_on last bisect_left
  search-empty_leaf fuel root key s s' node found none_left = rw found (
      rw none_left
        (elim (Bool-cases (node.next_leaf == 0)) [ inl e ↦ rw e refl | inr e ↦ rw e refl ]))
