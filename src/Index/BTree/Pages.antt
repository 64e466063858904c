-- ===== src/Index/BTree/Pages.antt =====
-- The nodes of queryx/index/btree.py in pages of the buffer pool: `_load`, `_store`, the meta page,
-- and the operations that start at the root. The fuel is above the pages of the file: a descent or
-- a walk along the leaves of a tree passes each page once.
use query_x_engine.Common.{
  ℕ, zero, suc, ◌+◌, ◌*◌, Bool, true, false, ltb, leb, ◌==◌, if◌then◌else◌, Option, none, some,
  List, [], ◌∷◌, ◌++◌, length, Result, ok, raise, value_error, assertion_error, out_of_fuel,
}
use query_x_engine.Common
use query_x_engine.Common.Exec.{Exec, pure, throw, lift, gets, modify, ◌>>=◌, ◌>>◌}
use query_x_engine.Common.Int.{ℤ}
use query_x_engine.Common.Bytes.{Bytes, write_into, read_from, zeros, bytes_eq}
use query_x_engine.Common.Bytes.Words.{of_le, pack, pack_int, of_pattern}
use query_x_engine.Storage.Page.{page_size, overwrite}
use query_x_engine.Storage.Pager
use query_x_engine.Storage.BufferPool.{
  BufferPool, mutate, mark_dirty, get_page, new_page, flush_all,
}
use query_x_engine.Storage.HeapFile.{RowId}
use query_x_engine.Index.BTree.{
  Node, NodeStore, BPlusTree, insert_into, search, range_scan, delete, height, levels_from,
}

abbrev pub max_keys_limit : ℕ
max_keys_limit = 254

abbrev pub meta_page : ℕ
meta_page = 1

-- `BPT1`
abbrev pub meta_magic : Bytes
meta_magic = 66 ∷ 80 ∷ 84 ∷ 49 ∷ []

unfoldable pub leaf_entries : List ℤ → List RowId → Result Bytes
leaf_entries [] values = ok []
leaf_entries (k ∷ keys) [] = ok []
leaf_entries (k ∷ keys) (v ∷ values) = Common.◌>>=◌ (pack_int k) (λ key.
    Common.◌>>=◌ (pack 4 v.page_no) (λ page_no. Common.◌>>=◌ (pack 4 v.slot) (λ slot.
      Common.◌>>=◌ (leaf_entries keys values) (λ rest. ok (key ++ page_no ++ slot ++ rest)))))

unfoldable pub key_bytes : List ℤ → Result Bytes
key_bytes [] = ok []
key_bytes (k ∷ keys) =
    Common.◌>>=◌ (pack_int k) (λ key. Common.◌>>=◌ (key_bytes keys) (λ rest. ok (key ++ rest)))

unfoldable pub child_bytes : List ℕ → Result Bytes
child_bytes [] = ok []
child_bytes (c ∷ children) =
    Common.◌>>=◌ (pack 4 c)
      (λ child. Common.◌>>=◌ (child_bytes children) (λ rest. ok (child ++ rest)))

-- the buffer that `_store` fills
unfoldable pub node_bytes : Node → Result Bytes
unfolding leaf_entries key_bytes child_bytes
node_bytes node = Common.◌>>=◌ (pack 2 (length node.keys)) (λ count.
    if node.is_leaf
    then (Common.◌>>=◌ (pack 4 node.next_leaf) (λ next_leaf.
        Common.◌>>=◌ (leaf_entries node.keys node.values)
          (λ entries. write_into (zeros page_size) 0 ((1 ∷ []) ++ count ++ next_leaf ++ entries))))
    else (Common.◌>>=◌ (key_bytes node.keys) (λ keys.
        Common.◌>>=◌ (child_bytes node.children)
          (λ children. write_into (zeros page_size) 0 ((0 ∷ []) ++ count ++ keys ++ children)))))

unfoldable pub read_entries : Bytes → ℕ → ℕ → Result (List ℤ × List RowId)
read_entries raw pos zero = ok ([], [])
read_entries raw pos (suc left) =
    let rest = read_entries raw (pos + 16) left in
    Common.◌>>=◌ (read_from raw pos 8) (λ key. Common.◌>>=◌ (read_from raw (pos + 8) 4) (λ page_no.
      Common.◌>>=◌ (read_from raw (pos + 12) 4) (λ slot. Common.◌>>=◌ rest (λ r. ok (
        of_pattern (of_le key) ∷ r.0,
        (record { page_no = of_le page_no; slot = of_le slot }) ∷ r.1,
      )))))

unfoldable pub read_keys : Bytes → ℕ → ℕ → Result (List ℤ)
read_keys raw pos zero = ok []
read_keys raw pos (suc left) =
    let rest = read_keys raw (pos + 8) left in
    Common.◌>>=◌ (read_from raw pos 8)
      (λ key. Common.◌>>=◌ rest (λ keys. ok (of_pattern (of_le key) ∷ keys)))

unfoldable pub read_children : Bytes → ℕ → ℕ → Result (List ℕ)
read_children raw pos zero = ok []
read_children raw pos (suc left) =
    let rest = read_children raw (pos + 4) left in
    Common.◌>>=◌ (read_from raw pos 4)
      (λ child. Common.◌>>=◌ rest (λ children. ok (of_le child ∷ children)))

-- `_load`, on the bytes of the page
unfoldable pub read_node : ℕ → Bytes → Result Node
unfolding read_entries read_keys read_children
read_node page_no raw = Common.◌>>=◌ (read_from raw 0 1) (λ kind.
    Common.◌>>=◌ (read_from raw 1 2) (λ field.
      let num = of_le field in
      if of_le kind == 1
      then (Common.◌>>=◌ (read_from raw 3 4) (λ next_leaf.
          Common.◌>>=◌ (read_entries raw 7 num) (λ entries. ok (record {
            page_no = page_no;
            is_leaf = true;
            keys = entries.0;
            values = entries.1;
            children = [];
            next_leaf = of_le next_leaf;
          }))))
      else (Common.◌>>=◌ (read_keys raw 3 num) (λ keys.
          Common.◌>>=◌ (read_children raw (3 + num * 8) (num + 1)) (λ children. ok (record {
            page_no = page_no;
            is_leaf = false;
            keys = keys;
            values = [];
            children = children;
            next_leaf = 0;
          }))))))

module _ (crc32 : Bytes → ℕ) where
  -- `page.overwrite(raw)` on a page of the pool, and `mark_dirty`
  unfoldable pub overwrite_page : ℕ → Bytes → Exec BufferPool (Unit {0})
  overwrite_page page_no raw = do
    page ← get_page crc32 page_no
    page' ← lift (overwrite page raw)
    modify (mutate page_no page')
    mark_dirty page_no

  unfoldable pub page_nodes : NodeStore BufferPool
  unfolding overwrite_page
  page_nodes = record {
    load = λ page_no. (do raw ← get_page crc32 page_no; lift (read_node page_no raw));
    store = λ node. (do buf ← lift (node_bytes node); overwrite_page node.page_no buf);
    new_page = (do (page_no, _) ← new_page crc32; pure page_no);
  }

  -- a call on the nodes
  unfoldable pub on_nodes : {A : Type 0} → Exec BufferPool A → Exec (BPlusTree BufferPool) A
  on_nodes m s = ((m s.nodes).0, record s { nodes = (m s.nodes).1 })

  abbrev fuel : Exec (BPlusTree BufferPool) ℕ
  fuel = gets (λ s. Pager.num_pages s.nodes.pager + 2)

  unfoldable pub write_meta : Exec (BPlusTree BufferPool) (Unit {0})
  unfolding on_nodes overwrite_page
  write_meta = do
    max_keys ← gets (λ s. s.max_keys)
    root ← gets (λ s. s.root)
    a ← lift (pack 2 max_keys)
    b ← lift (pack 4 root)
    buf ← lift (write_into (zeros page_size) 0 (meta_magic ++ a ++ b))
    on_nodes (overwrite_page meta_page buf)

  unfoldable pub read_meta : Exec (BPlusTree BufferPool) (Unit {0})
  unfolding on_nodes
  read_meta = do
    raw ← on_nodes (get_page crc32 meta_page)
    magic ← lift (read_from raw 0 4)
    a ← lift (read_from raw 4 2)
    b ← lift (read_from raw 6 4)
    if bytes_eq magic meta_magic
        then modify (λ s. record s { max_keys = of_le a; root = of_le b })
        else throw value_error

  unfoldable pub or_default : Option ℕ → ℕ
  or_default none = max_keys_limit
  or_default (some max_keys) = max_keys

  -- the first half of `BPlusTree(pool, max_keys)`, for a fresh file
  unfoldable pub create : ℕ → Exec (BPlusTree BufferPool) (Unit {0})
  unfolding on_nodes page_nodes write_meta
  create max_keys =
      if ltb max_keys 2
      then throw value_error
      else if ltb max_keys_limit max_keys
      then throw value_error
      else (do
        modify (λ s. record s { max_keys = max_keys })
        (meta_no, _) ← on_nodes (new_page crc32)
        if meta_no == meta_page then pure tt else throw assertion_error
        (root_no, _) ← on_nodes (new_page crc32)
        modify (λ s. record s { root = root_no })
        on_nodes (
            page_nodes.store (record {
              page_no = root_no;
              is_leaf = true;
              keys = [];
              values = [];
              children = [];
              next_leaf = 0;
            }))
        write_meta)

  -- `BPlusTree(pool, max_keys)`, with the other fields of the state not yet set
  unfoldable pub init : Option ℕ → Exec (BPlusTree BufferPool) (Unit {0})
  unfolding create read_meta or_default
  init max_keys = do
    num_pages ← gets (λ s. Pager.num_pages s.nodes.pager)
    if leb num_pages 1 then create (or_default max_keys) else read_meta

  -- the new root above a split
  unfoldable pub grow_root : Option (ℤ × ℕ) → Exec (BPlusTree BufferPool) (Unit {0})
  unfolding on_nodes page_nodes write_meta
  grow_root none = pure tt
  grow_root (some (sep_key, right_no)) = do
    (new_root_no, _) ← on_nodes (new_page crc32)
    root ← gets (λ s. s.root)
    on_nodes (
        page_nodes.store (record {
          page_no = new_root_no;
          is_leaf = false;
          keys = sep_key ∷ [];
          values = [];
          children = root ∷ right_no ∷ [];
          next_leaf = 0;
        }))
    modify (λ s. record s { root = new_root_no })
    write_meta

  unfoldable pub insert : ℤ → RowId → Exec (BPlusTree BufferPool) (Unit {0})
  unfolding on_nodes page_nodes grow_root
  insert key id = do
    n ← fuel
    root_no ← gets (λ s. s.root)
    max_keys ← gets (λ s. s.max_keys)
    root ← on_nodes (page_nodes.load root_no)
    split ← on_nodes (insert_into page_nodes n max_keys key id root)
    grow_root split

  unfoldable pub search_pages : ℤ → Exec (BPlusTree BufferPool) (List RowId)
  unfolding on_nodes page_nodes
  search_pages key = do n ← fuel; root ← gets (λ s. s.root); on_nodes (search page_nodes n root key)

  unfoldable pub range_pages : Option ℤ → Option ℤ → Exec (BPlusTree BufferPool) (List (ℤ × RowId))
  unfolding on_nodes page_nodes
  range_pages low high = do
    n ← fuel
    root ← gets (λ s. s.root)
    on_nodes (range_scan page_nodes n root low high)

  unfoldable pub delete_pages : ℤ → RowId → Exec (BPlusTree BufferPool) Bool
  unfolding on_nodes page_nodes
  delete_pages key id = do
    n ← fuel
    root ← gets (λ s. s.root)
    on_nodes (delete page_nodes n root key id)

  unfoldable pub flush : Exec (BPlusTree BufferPool) (Unit {0})
  unfolding on_nodes
  flush = on_nodes (flush_all crc32)

  unfoldable pub height_pages : Exec (BPlusTree BufferPool) ℕ
  unfolding on_nodes page_nodes
  height_pages = do n ← fuel; root ← gets (λ s. s.root); on_nodes (height page_nodes n root)

  unfoldable pub node_levels : Exec (BPlusTree BufferPool) (List (List Node))
  unfolding on_nodes page_nodes
  node_levels = do
    n ← fuel
    root ← gets (λ s. s.root)
    on_nodes (levels_from page_nodes n (root ∷ []))
