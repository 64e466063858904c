-- ===== src/Index/BTree/Stored.antt =====
-- `_store` and `_load` of queryx/index/btree.py on the pages of the buffer pool.
use query_x_engine.Common.{ℕ, ◌≡◌, ◌≢◌, refl, ◌∙◌, arith, length, ◌==◌, true, ok}
use query_x_engine.Common.Bytes.{Bytes}
use query_x_engine.Storage.Page.{page_size, overwrite}
use query_x_engine.Storage.Pager.Valid.{IsData}
use query_x_engine.Storage.BufferPool.{BufferPool}
use query_x_engine.Storage.BufferPool.Valid.{view, IsValid}
use query_x_engine.Storage.BufferPool.Pages.{get_page-view}
use query_x_engine.Storage.BufferPool.Change.{mutate-Changed}
use query_x_engine.Index.BTree.{Node}
use query_x_engine.Index.BTree.Pages.{read_node, overwrite_page, page_nodes}
use query_x_engine.Index.BTree.RoundTrip.{Storable, read_node-node_bytes}

module _ (crc32 : Bytes → ℕ) where
  overwrite_page-Changed :
      (k : ℕ) (s : BufferPool) (n : ℕ) (raw : Bytes)
      → IsValid crc32 k s
      → IsData k n
      → length raw ≡ page_size
      → (s' : BufferPool) × (overwrite_page crc32 n raw s ≡ (ok tt, s'))
        × IsValid crc32 k s'
        × (view s' n ≡ raw)
        × ((m : ℕ) → m ≢ n → view s' m ≡ view s m)
  unfolding overwrite_page overwrite
  overwrite_page-Changed k s n raw v inside size =
      let (p, f) = get_page-view crc32 k s n v inside in
      let (s', c) = mutate-Changed crc32 f.valid n (view s n) raw f.held size in
      let whole : (length raw == page_size) ≡ true = ground arith in
      (s', rw f.call (rw whole c.call), c.valid, c.self, λ m ne. c.others m ne ∙ f.same m)

  -- What a store of a node leaves.
  pub record Stored (k : ℕ) (s : BufferPool) (node : Node) (s' : BufferPool) : Type 0 where
    pub call : (page_nodes crc32).store node s ≡ (ok tt, s')
    pub valid : IsValid crc32 k s'
    pub held : read_node node.page_no (view s' node.page_no) ≡ ok node
    pub loads : (s'' : BufferPool) × ((page_nodes crc32).load node.page_no s' ≡ (ok node, s''))
    pub others : (m : ℕ) → m ≢ node.page_no → view s' m ≡ view s m

  -- On a valid pool, a node with up to 255 keys whose numbers fit their fields is stored to a data
  -- page, whose load then gives the node back; the pool stays valid, and no other page changes.
  pub store-Stored :
      (k : ℕ) (s : BufferPool) (node : Node)
      → IsValid crc32 k s
      → IsData k node.page_no
      → Storable node
      → (s' : BufferPool) × Stored k s node s'
  unfolding page_nodes
  store-Stored k s node v inside h =
      let (raw, written, size, back) = read_node-node_bytes node h in
      let (s', call, valid, self, others) =
        overwrite_page-Changed k s node.page_no raw v inside size in
      let (s'', f) = get_page-view crc32 k s' node.page_no valid inside in
      (
        s',
        record {
          call = rw written call;
          valid = valid;
          held = rw self back;
          loads = (s'', rw f.call (rw (self, back) refl));
          others = others;
        },
      )
