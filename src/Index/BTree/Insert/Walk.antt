-- ===== src/Index/BTree/Insert/Walk.antt =====
-- The walk of `search` from a leaf that was changed, along the leaves after it.
use mathlib.Core.Path.{subst}
use query_x_engine.Common.{
  ℕ, suc, ◌/◌, ◌≤◌, ◌≡◌, sym, ap, ◌∙◌, false, ◌==◌, List, [], ◌∷◌, ◌++◌, append-nil, append_assoc,
  length, length-take, length-drop, take-append-drop, take, drop, All, arith, ok,
}
use query_x_engine.Common.Sorting.{Pairwise}
use query_x_engine.Common.Int.{ℤ}
use query_x_engine.Storage.HeapFile.{RowId}
use query_x_engine.Index.BTree.{Node, NodeStore, search_from}
use query_x_engine.Index.BTree.Search.{
  Entry, InOrder, keys_of, values_of, rows_of, Leaves, end, next, search_from-rows_of,
}
use query_x_engine.Index.BTree.Split.{left_half, right_half}
use query_x_engine.Index.BTree.Insert.{
  put_entry, Pairwise-put_entry, rows_after, length-map, map-take, map-drop,
}

module _ {S : Type 0} (n : NodeStore S) where
  -- A number of leaves after one, as its link and loads find them; each holds an entry.
  pub data Following : ℕ → S → ℕ → List Entry → S → Type 0 where
    no_leaf : {s : S} {page_no : ℕ} → page_no ≡ 0 → Following 0 s page_no [] s
    leaf :
        {m : ℕ} {s s' s'' : S} {page_no : ℕ} {after : Node} {rest : List Entry}
        → (page_no == 0) ≡ false
        → n.load page_no s ≡ (ok after, s')
        → Leaves n m s' after rest s''
        → Following m s page_no rest s''

  pub front :
      (m : ℕ) (s s' : S) (node : Node) (es rest : List Entry)
      → 1 ≤ length es
      → node.keys ≡ keys_of es
      → node.values ≡ values_of es
      → Following m s node.next_leaf rest s'
      → Leaves n (suc m) s node (es ++ rest) s'
  front m s s' node [] rest h ks vs f = absurd (omega arith)
  front _ s _ node (e ∷ es) _ h ks vs (no_leaf z) =
      subst (λ (r : List Entry). Leaves n 1 s node r s) (sym (append-nil (e ∷ es)))
        (end e es ks vs z)
  front _ s _ node (e ∷ es) rest h ks vs (leaf nz call ls) = next e es rest ks vs nz call ls

  -- the walk from a leaf that holds some entries, the new one among them
  pub found_after :
      (fuel m : ℕ) (j key : ℤ) (id : RowId) (es rest : List Entry) (s s' : S) (node : Node)
      → m ≤ fuel
      → Pairwise InOrder (es ++ rest)
      → All (InOrder (key, id)) rest
      → Leaves n m s node (put_entry key id es ++ rest) s'
      → (t : S) × (search_from n fuel j node s
          ≡ (ok (rows_of j es ++ rows_of j ((key, id) ∷ []) ++ rows_of j rest), t))
  found_after fuel m j key id es rest s s' node enough p h ls =
      let (t, e) =
        search_from-rows_of n fuel m j node s s' (put_entry key id es ++ rest) enough
          (Pairwise-put_entry key id es rest p h) ls in
      (t, e ∙ ap (λ (x : List RowId). (ok x, t)) (rows_after j key id es rest p))

  -- the two halves of a leaf, as the walk finds them
  pub halves :
      (m right_no : ℕ) (node : Node) (es rest : List Entry) (s s' s'' : S)
      → 2 ≤ length es
      → node.keys ≡ keys_of es
      → node.values ≡ values_of es
      → (right_no == 0) ≡ false
      → n.load right_no s ≡ (ok (right_half node right_no), s')
      → Following m s' node.next_leaf rest s''
      → Leaves n (suc (suc m)) s (left_half node right_no) (es ++ rest) s''
  unfolding left_half right_half
  halves c right_no node es rest s s' s'' h ks vs nz loaded f =
      let half = length node.keys / 2 in
      let size : length node.keys ≡ length es =
        ap (λ (x : List ℤ). length x) ks ∙ length-map (λ (e : Entry). e.0) es in
      let right =
        front c s' s'' (right_half node right_no) (drop half es) rest
          (omega (arith, h, size, length-drop half es))
          (ap (λ (x : List ℤ). drop half x) ks ∙ sym (map-drop (λ (e : Entry). e.0) half es))
          (ap (λ (x : List RowId). drop half x) vs ∙ sym (map-drop (λ (e : Entry). e.1) half es))
          f in
      subst (λ (x : List Entry). Leaves n (suc (suc c)) s (left_half node right_no) x s'')
        (sym (append_assoc (take half es) (drop half es) rest)
          ∙ ap (λ (x : List Entry). x ++ rest) (take-append-drop half es))
        (front (suc c) s s'' (left_half node right_no) (take half es) (drop half es ++ rest)
          (omega (arith, h, size, length-take half es))
          (ap (λ (x : List ℤ). take half x) ks ∙ sym (map-take (λ (e : Entry). e.0) half es))
          (ap (λ (x : List RowId). take half x) vs ∙ sym (map-take (λ (e : Entry). e.1) half es))
          (leaf nz loaded right))
