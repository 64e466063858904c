-- ===== src/Index/BTree/OneLeaf.antt =====
-- `insert` and then `search` of queryx/index/btree.py on a tree whose root is a leaf with room.
use mathlib.Core.Path.{subst}
use query_x_engine.Common.{
  ℕ, zero, suc, ◌+◌, ◌≤◌, ◌≡◌, refl, sym, ap, ◌∙◌, arith, append-nil, true, none, List, [], ◌∷◌,
  ◌++◌, length, ok, All,
}
use query_x_engine.Common.Sorting.{Pairwise}
use query_x_engine.Common.Int.{ℤ}
use query_x_engine.Common.Bytes.{Bytes}
use query_x_engine.Common.Exec.{Exec, ◌>>=◌, continue-ok}
use query_x_engine.Storage.Pager.Valid.{IsData}
use query_x_engine.Storage.BufferPool.{BufferPool}
use query_x_engine.Storage.BufferPool.Valid.{view, IsValid}
use query_x_engine.Storage.BufferPool.Pages.{get_page-view}
use query_x_engine.Storage.HeapFile.{RowId}
use query_x_engine.Index.BTree.{
  Node, NodeStore, BPlusTree, with_entry, insert_into, find_leaf, descend, search, search_from,
}
use query_x_engine.Index.BTree.Search.{Entry, InOrder, keys_of, values_of, rows_of}
use query_x_engine.Index.BTree.Insert.{
  put_entry, keys-put_entry, values-put_entry, length-put_entry, All-put_entry,
}
use query_x_engine.Index.BTree.Insert.Walk.{no_leaf, front, found_after}
use query_x_engine.Index.BTree.Insert.Leaf.{insert_into-room}
use query_x_engine.Index.BTree.Codes.{Fits}
use query_x_engine.Index.BTree.RoundTrip.{leaf_node}
use query_x_engine.Index.BTree.Stored.{store-Stored}
use query_x_engine.Index.BTree.Pages.{
  page_nodes, read_node, insert, search_pages, grow_root, on_nodes,
}
use query_x_engine.Storage.Pager.{num_pages}

-- a leaf without a next one
abbrev pub lone : ℕ → List Entry → Node
lone page_no es = record {
  page_no = page_no;
  is_leaf = true;
  keys = keys_of es;
  values = values_of es;
  children = [];
  next_leaf = 0;
}

search-lone :
    {S : Type 0} (n : NodeStore S) (fuel root : ℕ) (j : ℤ) (s s' : S) (es : List Entry)
    → 1 ≤ fuel
    → n.load root s ≡ (ok (lone root es), s')
    → search n fuel root j s ≡ search_from n fuel j (lone root es) s'
unfolding search find_leaf descend
search-lone n zero root j s s' es h loaded = absurd (omega arith)
search-lone n (suc fuel) root j s s' es h loaded =
    continue-ok (λ node. search_from n (suc fuel) j node) {a = lone root es} {s = s'}
      (rw loaded refl) refl

module _ (crc32 : Bytes → ℕ) where
  with_entry-lone :
      (page_no : ℕ) (key : ℤ) (id : RowId) (es : List Entry)
      → with_entry (page_nodes crc32) key id (lone page_no es) ≡ lone page_no (put_entry key id es)
  unfolding with_entry
  with_entry-lone page_no key id es =
      rw (keys-put_entry key id es) (rw (values-put_entry key id es) refl)

  load-view :
      (k : ℕ) (s : BufferPool) (n : ℕ) (node : Node)
      → IsValid crc32 k s
      → IsData k n
      → read_node n (view s n) ≡ ok node
      → (s' : BufferPool) × ((page_nodes crc32).load n s ≡ (ok node, s')) × IsValid crc32 k s'
  unfolding page_nodes
  load-view k s n node v inside h =
      let (s', f) = get_page-view crc32 k s n v inside in (s', rw f.call (rw h refl), f.valid)

  on_nodes-ok :
      {A : Type 0} (m : Exec BufferPool A) (t : BPlusTree BufferPool) (a : A) (p : BufferPool)
      → m t.nodes ≡ (ok a, p)
      → on_nodes crc32 m t ≡ (ok a, record t { nodes = p })
  unfolding on_nodes
  on_nodes-ok m t a p e = rw e refl

  insert-loaded :
      (t : BPlusTree BufferPool) (key : ℤ) (id : RowId) (node : Node) (p1 p2 : BufferPool)
      → (page_nodes crc32).load t.root t.nodes ≡ (ok node, p1)
      → insert_into (page_nodes crc32) (num_pages t.nodes.pager + 2) t.max_keys key id node p1
        ≡ (ok none, p2)
      → insert crc32 key id t ≡ (ok tt, record t { nodes = p2 })
  unfolding insert grow_root page_nodes
  insert-loaded t key id node p1 p2 loaded called =
      continue-ok
        (λ root.
          on_nodes crc32
            (insert_into (page_nodes crc32) (num_pages t.nodes.pager + 2) t.max_keys key id root)
          >>= λ split. grow_root crc32 split)
        (on_nodes-ok ((page_nodes crc32).load t.root) t node p1 loaded)
        (continue-ok (λ split. grow_root crc32 split)
          (on_nodes-ok
            (insert_into (page_nodes crc32) (num_pages t.nodes.pager + 2) t.max_keys key id node)
            (record t { nodes = p1 }) none p2 called)
          refl)

  search-nodes :
      (t : BPlusTree BufferPool) (j : ℤ) (rows : List RowId) (p : BufferPool)
      → search (page_nodes crc32) (num_pages t.nodes.pager + 2) t.root j t.nodes ≡ (ok rows, p)
      → search_pages crc32 j t ≡ (ok rows, record t { nodes = p })
  unfolding search_pages page_nodes
  search-nodes t j rows p called =
      on_nodes-ok (search (page_nodes crc32) (num_pages t.nodes.pager + 2) t.root j) t rows p called

  All-put :
      (key : ℤ) (id : RowId) (es : List Entry)
      → Fits (key, id)
      → All Fits es
      → All Fits (put_entry key id es)
  All-put key id es h hs =
      subst (All Fits) (append-nil (put_entry key id es))
        (All-put_entry Fits key id es [] h (subst (All Fits) (sym (append-nil es)) hs))

  -- In a tree whose root is a sorted leaf with room, on a valid pool, `insert` of an entry whose
  -- numbers fit their fields raises nothing and keeps the pool valid. `search` then returns the
  -- rows under any key as before, followed by the new one if it was inserted under that key.
  pub insert-search_pages :
      (k : ℕ) (t : BPlusTree BufferPool) (key j : ℤ) (id : RowId) (es : List Entry)
      → IsValid crc32 k t.nodes
      → IsData k t.root
      → read_node t.root (view t.nodes t.root) ≡ ok (lone t.root es)
      → Pairwise InOrder es
      → All Fits es
      → Fits (key, id)
      → suc (length es) ≤ t.max_keys
      → t.max_keys ≤ 254
      → (p : BufferPool) × (p' : BufferPool) × (insert crc32 key id t
          ≡ (ok tt, record t { nodes = p }))
        × IsValid crc32 k p
        × (search_pages crc32 j (record t { nodes = p })
            ≡ (ok (rows_of j es ++ rows_of j ((key, id) ∷ [])), record t { nodes = p' }))
  insert-search_pages k t key j id es v inside held p hs h room limit =
      let n = page_nodes crc32 in
      let ds = put_entry key id es in
      let (p1, loaded, v1) = load-view k t.nodes t.root (lone t.root es) v inside held in
      let (p2, st) = store-Stored crc32 k p1 (lone t.root ds) v1 inside (
        leaf_node ds (All-put key id es h hs)
          (omega (arith, room, limit, length-put_entry key id es)) (omega arith)) in
      let (p3, back) = st.loads in
      let stored : n.store (with_entry n key id (lone t.root es)) p1 ≡ (ok tt, p2) =
        ap (λ (x : Node). n.store x p1) (with_entry-lone t.root key id es) ∙ st.call in
      let sorted : Pairwise InOrder (es ++ []) = subst (Pairwise InOrder) (sym (append-nil es)) p in
      let (called, _, _) =
        insert_into-room n (num_pages t.nodes.pager + 2) t.max_keys 0 key j id (lone t.root es) es
          [] p1 p2 p2 refl refl refl room sorted tt stored (no_leaf refl) (omega arith) in
      let fuel = num_pages p2.pager + 2 in
      let (p4, found) =
        found_after n fuel 1 j key id es [] p3 p3 (lone t.root ds) (omega arith) sorted tt (
          front n 0 p3 p3 (lone t.root ds) ds [] (omega (arith, length-put_entry key id es)) refl
            refl (no_leaf refl)) in
      let rows = rows_of j es ++ rows_of j ((key, id) ∷ []) in
      let whole : rows ++ rows_of j [] ≡ rows = unfold rows_of in append-nil rows in
      (
        p2,
        p4,
        insert-loaded t key id (lone t.root es) p1 p2 loaded called,
        st.valid,
        search-nodes (record t { nodes = p2 }) j rows p4
            (search-lone n fuel t.root j p2 p3 ds (omega arith) back
              ∙ found
              ∙ ap (λ (x : List RowId). (ok x, p4)) whole),
      )
