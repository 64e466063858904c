-- ===== src/Index/BTree/Insert/Leaf.antt =====
-- `_insert_into` of queryx/index/btree.py on a leaf, and the walk of `search` from that leaf
-- afterwards.
use mathlib.Core.Path.{subst}
use query_x_engine.Common.{
  ℕ, zero, suc, ◌≤◌, ◌<◌, ◌≡◌, refl, sym, ap, ◌∙◌, true, false, ◌==◌, none, some, List, [], ◌∷◌,
  ◌++◌, length, leb, All, arith, ok,
}
use query_x_engine.Common.Sorting.{Pairwise}
use query_x_engine.Common.Exec.{pure, continue-ok}
use query_x_engine.Common.Int.{ℤ}
use query_x_engine.Storage.HeapFile.{RowId}
use query_x_engine.Index.BTree.{
  Node, NodeStore, with_entry, store_or_split, insert_into, split_leaf, split_internal, search_from,
}
use query_x_engine.Index.BTree.Search.{Entry, InOrder, keys_of, values_of, rows_of, Pairwise-append}
use query_x_engine.Index.BTree.Split.{
  AtMost, SplitLeaf, left_half, right_half, split_leaf-SplitLeaf,
}
use query_x_engine.Index.BTree.Insert.{
  put_entry, keys-put_entry, values-put_entry, length-put_entry, Pairwise-put_entry,
  Pairwise-keys_of, length-map, then_branch,
}
use query_x_engine.Index.BTree.Insert.Walk.{Following, front, found_after, halves}

module _ {S : Type 0} (n : NodeStore S) where
  keys-with_entry :
      (key : ℤ) (id : RowId) (node : Node) (es : List Entry)
      → node.keys ≡ keys_of es
      → (with_entry n key id node).keys ≡ keys_of (put_entry key id es)
  unfolding with_entry
  keys-with_entry key id node es ks = rw ks (keys-put_entry key id es)

  values-with_entry :
      (key : ℤ) (id : RowId) (node : Node) (es : List Entry)
      → node.keys ≡ keys_of es
      → node.values ≡ values_of es
      → (with_entry n key id node).values ≡ values_of (put_entry key id es)
  unfolding with_entry
  values-with_entry key id node es ks vs = rw (ks, vs) (values-put_entry key id es)

  length-with_entry :
      (key : ℤ) (id : RowId) (node : Node) (es : List Entry)
      → node.keys ≡ keys_of es
      → length (with_entry n key id node).keys ≡ suc (length es)
  length-with_entry key id node es ks =
      ap (λ (x : List ℤ). length x) (keys-with_entry key id node es ks)
      ∙ length-map (λ (e : Entry). e.0) (put_entry key id es)
      ∙ length-put_entry key id es

  insert_into-leaf :
      (fuel max_keys : ℕ) (key : ℤ) (id : RowId) (node : Node) (s : S)
      → node.is_leaf ≡ true
      → insert_into n (suc fuel) max_keys key id node s
        ≡ store_or_split n max_keys (with_entry n key id node) s
  unfolding insert_into
  insert_into-leaf fuel max_keys key id node s is_leaf = rw is_leaf refl

  store_or_split-room :
      (max_keys : ℕ) (node : Node) (s s' : S)
      → length node.keys ≤ max_keys
      → n.store node s ≡ (ok tt, s')
      → store_or_split n max_keys node s ≡ (ok none, s')
  unfolding store_or_split
  store_or_split-room max_keys node s s' h e =
      let room : leb (length node.keys) max_keys ≡ true = ground arith in rw room (rw e refl)

  store_or_split-split :
      (max_keys : ℕ) (node : Node) (s s' : S) (right : ℤ × ℕ)
      → max_keys < length node.keys
      → node.is_leaf ≡ true
      → split_leaf n node s ≡ (ok right, s')
      → store_or_split n max_keys node s ≡ (ok (some right), s')
  unfolding store_or_split
  store_or_split-split max_keys node s s' right h is_leaf e =
      let full : leb (length node.keys) max_keys ≡ false = ground arith in
      rw full (
        continue-ok (λ right. pure (some right))
          (then_branch node.is_leaf (split_leaf n node) (split_internal n node) s is_leaf ∙ e) refl)

  -- A sorted leaf with room, each of whose later leaves holds an entry and none a key below the new
  -- one, takes an entry into one node that is stored, and reports no split. The walk of `search` from there then
  -- finds under each key the rows that the leaf held, the new one if it is under that key, and
  -- those of the later leaves; fuel for the number of the leaves is enough.
  pub insert_into-room :
      (fuel max_keys m : ℕ) (key j : ℤ) (id : RowId) (node : Node) (es rest : List Entry)
      (s s' s'' : S)
      → node.is_leaf ≡ true
      → node.keys ≡ keys_of es
      → node.values ≡ values_of es
      → suc (length es) ≤ max_keys
      → Pairwise InOrder (es ++ rest)
      → All (InOrder (key, id)) rest
      → n.store (with_entry n key id node) s ≡ (ok tt, s')
      → Following n m s' node.next_leaf rest s''
      → suc m ≤ fuel
      → (insert_into n fuel max_keys key id node s ≡ (ok none, s'))
        × (t : S) × (search_from n fuel j (with_entry n key id node) s'
            ≡ (ok (rows_of j es ++ rows_of j ((key, id) ∷ []) ++ rows_of j rest), t))
  unfolding with_entry
  insert_into-room zero max_keys m key j id node es rest s s' s'' is_leaf ks vs room p h stored f
        enough =
      absurd (omega arith)
  insert_into-room (suc fuel) max_keys m key j id node es rest s s' s'' is_leaf ks vs room p h
        stored f enough =
      let (t, e) =
        found_after n (suc fuel) (suc m) j key id es rest s' s'' (with_entry n key id node) enough p
          h
          (front n m s' s'' (with_entry n key id node) (put_entry key id es) rest
            (omega (arith, length-put_entry key id es)) (keys-with_entry key id node es ks)
            (values-with_entry key id node es ks vs) f) in
      (
        insert_into-leaf fuel max_keys key id node s is_leaf
            ∙ store_or_split-room max_keys (with_entry n key id node) s s'
                (omega (arith, room, length-with_entry key id node es ks)) stored,
        t,
        e,
      )

  -- A sorted leaf of `max_keys` entries, of at least one, each of whose later leaves holds an entry
  -- and none a key below the new one, takes an entry by a split: the two halves that are stored are as `SplitLeaf`
  -- says, and the separator and the page of the right one are reported. The walk of `search` from
  -- the left one then finds under each key the rows that the leaf held, the new one if it is under
  -- that key, and those of the later leaves; fuel for the number of the leaves is enough.
  pub insert_into-split :
      (fuel max_keys right_no m : ℕ) (key j : ℤ) (id : RowId) (node : Node) (es rest : List Entry)
      (s s1 s2 s3 s4 s5 : S)
      → node.is_leaf ≡ true
      → node.keys ≡ keys_of es
      → node.values ≡ values_of es
      → 1 ≤ max_keys
      → length es ≡ max_keys
      → Pairwise InOrder (es ++ rest)
      → All (InOrder (key, id)) rest
      → (right_no == 0) ≡ false
      → n.new_page s ≡ (ok right_no, s1)
      → n.store (left_half (with_entry n key id node) right_no) s1 ≡ (ok tt, s2)
      → n.store (right_half (with_entry n key id node) right_no) s2 ≡ (ok tt, s3)
      → n.load right_no s3 ≡ (ok (right_half (with_entry n key id node) right_no), s4)
      → Following n m s4 node.next_leaf rest s5
      → suc (suc m) ≤ fuel
      → (sep : ℤ) × (t : S) × (insert_into n fuel max_keys key id node s
          ≡ (ok (some (sep, right_no)), s3))
        × SplitLeaf max_keys
            (with_entry n key id node)
            (left_half (with_entry n key id node) right_no)
            (right_half (with_entry n key id node) right_no)
            sep
        × (search_from n fuel j (left_half (with_entry n key id node) right_no) s3
            ≡ (ok (rows_of j es ++ rows_of j ((key, id) ∷ []) ++ rows_of j rest), t))
  unfolding with_entry
  insert_into-split zero max_keys right_no m key j id node es rest s s1 s2 s3 s4 s5 is_leaf ks vs
        pos full p h nz new left right loaded f enough =
      absurd (omega arith)
  insert_into-split (suc fuel) max_keys right_no m key j id node es rest s s1 s2 s3 s4 s5 is_leaf ks
        vs pos full p h nz new left right loaded f enough =
      let grown = with_entry n key id node in
      let ds = put_entry key id es in
      let gks = keys-with_entry key id node es ks in
      let gvs = values-with_entry key id node es ks vs in
      let size = length-with_entry key id node es ks in
      let sorted = (Pairwise-append ds rest (Pairwise-put_entry key id es rest p h)).0 in
      let (sep, call, split) =
        split_leaf-SplitLeaf n max_keys right_no grown s s1 s2 s3 pos (omega (arith, size, full))
          (ap (λ (x : List RowId). length x) gvs
            ∙ length-map (λ (e : Entry). e.1) ds
            ∙ length-put_entry key id es
            ∙ sym size)
          (subst (Pairwise AtMost) (sym gks) (Pairwise-keys_of ds sorted)) new left right in
      let (t, found) =
        found_after n (suc fuel) (suc (suc m)) j key id es rest s3 s5 (left_half grown right_no)
          enough p h
          (halves n m right_no grown ds rest s3 s4 s5
            (omega (arith, pos, full, length-put_entry key id es)) gks gvs nz loaded f) in
      (
        sep,
        t,
        insert_into-leaf fuel max_keys key id node s is_leaf
            ∙ store_or_split-split max_keys grown s s3 (sep, right_no) (omega (arith, size, full))
                is_leaf call,
        split,
        found,
      )
