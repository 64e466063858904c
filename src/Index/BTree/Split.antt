-- ===== src/Index/BTree/Split.antt =====
-- The split of a leaf.
use mathlib.Core.Path.{subst}
use query_x_engine.Common.{
  ℕ, ◌+◌, ◌/◌, ◌≤◌, ◌≡◌, refl, sym, ap, ◌∙◌, true, false, List, [], ◌∷◌, ◌++◌, length, take, drop,
  length-take, length-drop, take-append-drop, All, arith, ok,
}
use query_x_engine.Common.Sorting.{Pairwise}
use query_x_engine.Common.Int.{ℤ, ltb_ℤ}
use query_x_engine.Index.BTree.{Node, NodeStore, split_leaf, item}

-- the order of keys
abbrev pub AtMost : ℤ → ℤ → Type 0
AtMost a b = ltb_ℤ b a ≡ false

-- the two leaves that `split_leaf` stores
unfoldable pub left_half : Node → ℕ → Node
left_half node right_no = record node {
  keys = take (length node.keys / 2) node.keys;
  values = take (length node.keys / 2) node.values;
  next_leaf = right_no;
}

unfoldable pub right_half : Node → ℕ → Node
right_half node right_no = record {
  page_no = right_no;
  is_leaf = true;
  keys = drop (length node.keys / 2) node.keys;
  values = drop (length node.keys / 2) node.values;
  children = [];
  next_leaf = node.next_leaf;
}

-- A split of a leaf into two around a separator.
pub record SplitLeaf (max_keys : ℕ) (node left right : Node) (sep : ℤ) : Type 0 where
  pub keys : left.keys ++ right.keys ≡ node.keys
  pub values : left.values ++ right.values ≡ node.values
  pub aligned : (length left.values ≡ length left.keys) × (length right.values ≡ length right.keys)
  pub first : (rest : List ℤ) × (right.keys ≡ sep ∷ rest)
  pub left_size : (1 ≤ length left.keys) × (length left.keys ≤ max_keys)
  pub right_size : (1 ≤ length right.keys) × (length right.keys ≤ max_keys)
  pub below : All (λ k. AtMost k sep) left.keys
  pub above : All (λ k. AtMost sep k) right.keys
  pub chained : (left.next_leaf ≡ right.page_no) × (right.next_leaf ≡ node.next_leaf)

AtMost-All :
    (sep : ℤ) (ls rs : List ℤ) → Pairwise AtMost (ls ++ (sep ∷ rs)) → All (λ k. AtMost k sep) ls
AtMost-All sep [] rs p = tt
AtMost-All sep (k ∷ ls) rs (a, p) = (first k ls a, AtMost-All sep ls rs p)
  where
    first : (k : ℤ) (ls : List ℤ) → All (AtMost k) (ls ++ (sep ∷ rs)) → AtMost k sep
    first k [] (h, a) = h
    first k (l ∷ ls) (h, a) = first k ls a

at_least-All :
    (sep : ℤ) (ls rs : List ℤ)
    → Pairwise AtMost (ls ++ (sep ∷ rs))
    → All (λ k. AtMost sep k) (sep ∷ rs)
at_least-All sep [] rs (a, p) = (ground arith, a)
at_least-All sep (k ∷ ls) rs (a, p) = at_least-All sep ls rs p

head_of : (xs : List ℤ) → 1 ≤ length xs → (x : ℤ) × (rest : List ℤ) × (xs ≡ x ∷ rest)
head_of [] h = absurd (omega arith)
head_of (x ∷ xs) h = (x, xs, refl)

module _ {S : Type 0} (n : NodeStore S) where
  split_around :
      (max_keys right_no : ℕ) (node : Node) (s s1 s2 s3 : S) (sep : ℤ) (rest : List ℤ)
      → drop (length node.keys / 2) node.keys ≡ sep ∷ rest
      → 1 ≤ max_keys
      → length node.keys ≡ max_keys + 1
      → length node.values ≡ length node.keys
      → Pairwise AtMost node.keys
      → n.new_page s ≡ (ok right_no, s1)
      → n.store (left_half node right_no) s1 ≡ (ok tt, s2)
      → n.store (right_half node right_no) s2 ≡ (ok tt, s3)
      → (split_leaf n node s ≡ (ok (sep, right_no), s3))
        × SplitLeaf max_keys node (left_half node right_no) (right_half node right_no) sep
  unfolding split_leaf left_half right_half item
  split_around max_keys right_no node s s1 s2 s3 sep rest e pos size vsize sorted new left right =
      let mid = length node.keys / 2 in
      let lsize = length-take mid node.keys in
      let rsize = length-drop mid node.keys in
      let whole : take mid node.keys ++ (sep ∷ rest) ≡ node.keys =
        ap (λ (r : List ℤ). take mid node.keys ++ r) (sym e) ∙ take-append-drop mid node.keys in
      let p : Pairwise AtMost (take mid node.keys ++ (sep ∷ rest)) =
        subst (Pairwise AtMost) (sym whole) sorted in
      (
        rw new (rw left (rw right (rw e refl))),
        record {
          keys = take-append-drop mid node.keys;
          values = take-append-drop mid node.values;
          aligned = (
            omega (arith, lsize, vsize, length-take mid node.values),
            omega (arith, rsize, vsize, length-drop mid node.values),
          );
          first = (rest, e);
          left_size = (omega (arith, lsize, size, pos), omega (arith, lsize, size, pos));
          right_size = (omega (arith, rsize, size, pos), omega (arith, rsize, size, pos));
          below = AtMost-All sep (take mid node.keys) rest p;
          above =
              subst (All (λ k. AtMost sep k)) (sym e)
                (at_least-All sep (take mid node.keys) rest p);
          chained = (refl, refl);
        },
      )

  -- A leaf that has grown beyond `max_keys`, of at least one, by one sorted key is split in two
  -- leaves of 1 to `max_keys` keys. Together they hold its entries in order, the separator is the
  -- first key of the right one, no key on its left is above it and none on its right below, and
  -- the right leaf stands in the chain of leaves between the left one and the next.
  pub split_leaf-SplitLeaf :
      (max_keys right_no : ℕ) (node : Node) (s s1 s2 s3 : S)
      → 1 ≤ max_keys
      → length node.keys ≡ max_keys + 1
      → length node.values ≡ length node.keys
      → Pairwise AtMost node.keys
      → n.new_page s ≡ (ok right_no, s1)
      → n.store (left_half node right_no) s1 ≡ (ok tt, s2)
      → n.store (right_half node right_no) s2 ≡ (ok tt, s3)
      → (sep : ℤ) × (split_leaf n node s ≡ (ok (sep, right_no), s3))
        × SplitLeaf max_keys node (left_half node right_no) (right_half node right_no) sep
  split_leaf-SplitLeaf max_keys right_no node s s1 s2 s3 pos size vsize sorted new left right =
      let (sep, rest, e) =
        head_of (drop (length node.keys / 2) node.keys)
          (omega (arith, size, pos, length-drop (length node.keys / 2) node.keys)) in
      let (call, split) =
        split_around max_keys right_no node s s1 s2 s3 sep rest e pos size vsize sorted new left
          right in
      (sep, call, split)
