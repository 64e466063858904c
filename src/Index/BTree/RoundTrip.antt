-- ===== src/Index/BTree/RoundTrip.antt =====
-- Reading back the page of a node: `_store` and `_load` of queryx/index/btree.py.
use mathlib.Core.Path.{subst}
use query_x_engine.Common.{
  ℕ, ◌+◌, ◌*◌, ◌^◌, ◌≤◌, ◌<◌, ◌≡◌, refl, sym, ◌∙◌, arith, true, false, List, [], ◌∷◌, ◌++◌, map,
  length, length-append, ok, All,
}
use query_x_engine.Common.Int.{ℤ}
use query_x_engine.Common.Bytes.{Bytes, zeros, read_from, write_into}
use query_x_engine.Common.Bytes.Words.{
  le_bytes, of_le, Int64, pack_fits, of_le-le_bytes, length-le_bytes,
}
use query_x_engine.Storage.Page.{page_size}
use query_x_engine.Storage.HeapFile.{RowId}
use query_x_engine.Index.BTree.{Node}
use query_x_engine.Index.BTree.Insert.{length-map}
use query_x_engine.Index.BTree.Pages.{node_bytes, read_node}
use query_x_engine.Index.BTree.Codes.{
  At, Fits, append-At, read_from-At, entries_code, keys_code, children_code, leaf_entries-code,
  key_bytes-code, child_bytes-code, length-entries_code, length-keys_code, length-children_code,
  read_keys-code, read_children-code, read_entries-code, page_of,
}

-- The nodes that a tree stores: a leaf has a row for each key and no child, an inner node one child
-- more than keys and no row, each with up to 255 keys, and its numbers fit their fields.
pub data Storable : Node → Type 0 where
  leaf_node :
      {page_no next_leaf : ℕ} (es : List (ℤ × RowId))
      → All Fits es
      → length es ≤ 255
      → next_leaf < 256 ^ 4
      → Storable (record {
        page_no = page_no;
        is_leaf = true;
        keys = map (λ (e : ℤ × RowId). e.0) es;
        values = map (λ (e : ℤ × RowId). e.1) es;
        children = [];
        next_leaf = next_leaf;
      })
  inner_node :
      {page_no : ℕ} {keys : List ℤ} {children : List ℕ}
      → All Int64 keys
      → All (λ (c : ℕ). c < 256 ^ 4) children
      → length keys ≤ 255
      → length children ≡ length keys + 1
      → Storable (record {
        page_no = page_no;
        is_leaf = false;
        keys = keys;
        values = [];
        children = children;
        next_leaf = 0;
      })

-- the kind and the number of keys of a node
abbrev start_code : ℕ → ℕ → Bytes
start_code kind count = (kind ∷ []) ++ le_bytes 2 count

length-start_code : (kind count : ℕ) → length (start_code kind count) ≡ 3
length-start_code kind count =
    omega (arith, length-append (kind ∷ []) (le_bytes 2 count), length-le_bytes 2 count)

-- the reads of the first two fields
read_start :
    (raw : Bytes) (kind count : ℕ)
    → count < 256 ^ 2
    → At raw 0 (start_code kind count)
    → (read_from raw 0 1 ≡ ok (kind ∷ [])) × (read_from raw 1 2 ≡ ok (le_bytes 2 count))
read_start raw kind count h t =
    let (t1, t2) = append-At raw 0 (kind ∷ []) (le_bytes 2 count) 1 refl t in
    (
      read_from-At raw 0 (kind ∷ []) 1 refl t1,
      read_from-At raw 1 (le_bytes 2 count) 2 (length-le_bytes 2 count) t2,
    )

abbrev leaf_code : List (ℤ × RowId) → ℕ → Bytes
leaf_code es next_leaf = start_code 1 (length es) ++ le_bytes 4 next_leaf ++ entries_code es

abbrev inner_code : List ℤ → List ℕ → Bytes
inner_code keys children = start_code 0 (length keys) ++ keys_code keys ++ children_code children

abbrev leaf_of : ℕ → List (ℤ × RowId) → ℕ → Node
leaf_of page_no es next_leaf = record {
  page_no = page_no;
  is_leaf = true;
  keys = map (λ (e : ℤ × RowId). e.0) es;
  values = map (λ (e : ℤ × RowId). e.1) es;
  children = [];
  next_leaf = next_leaf;
}

abbrev inner_of : ℕ → List ℤ → List ℕ → Node
inner_of page_no keys children = record {
  page_no = page_no;
  is_leaf = false;
  keys = keys;
  values = [];
  children = children;
  next_leaf = 0;
}

node_bytes-leaf :
    (page_no : ℕ) (es : List (ℤ × RowId)) (next_leaf : ℕ)
    → All Fits es
    → length es ≤ 255
    → next_leaf < 256 ^ 4
    → node_bytes (leaf_of page_no es next_leaf)
      ≡ write_into (zeros page_size) 0 (leaf_code es next_leaf)
unfolding node_bytes
node_bytes-leaf page_no es next_leaf h count next = rw (length-map (λ (e : ℤ × RowId). e.0) es) (
    rw
      (
        pack_fits 2 (length es) (omega (arith, count)),
        pack_fits 4 next_leaf next,
        leaf_entries-code es h,
      )
      refl)

node_bytes-inner :
    (page_no : ℕ) (keys : List ℤ) (children : List ℕ)
    → All Int64 keys
    → All (λ (c : ℕ). c < 256 ^ 4) children
    → length keys ≤ 255
    → node_bytes (inner_of page_no keys children)
      ≡ write_into (zeros page_size) 0 (inner_code keys children)
unfolding node_bytes
node_bytes-inner page_no keys children h cs count =
    rw
      (
        pack_fits 2 (length keys) (omega (arith, count)),
        key_bytes-code keys h,
        child_bytes-code children cs,
      )
      refl

read_node-leaf :
    (page_no : ℕ) (raw : Bytes) (es : List (ℤ × RowId)) (next_leaf : ℕ)
    → All Fits es
    → length es ≤ 255
    → next_leaf < 256 ^ 4
    → At raw 0 (leaf_code es next_leaf)
    → read_node page_no raw ≡ ok (leaf_of page_no es next_leaf)
unfolding read_node of_le
read_node-leaf page_no raw es next_leaf h count next t =
    let start = start_code 1 (length es) in
    let link = le_bytes 4 next_leaf in
    let head : length (start ++ link) ≡ 7 = omega (
      arith,
      length-append start link,
      length-start_code 1 (length es),
      length-le_bytes 4 next_leaf,
    ) in
    let (header, entries) = append-At raw 0 (start ++ link) (entries_code es) 7 head t in
    let (first, last) = append-At raw 0 start link 3 (length-start_code 1 (length es)) header in
    let (kind, field) = read_start raw 1 (length es) (omega (arith, count)) first in
    rw (kind, field, read_from-At raw 3 link 4 (length-le_bytes 4 next_leaf) last)
      (rw (of_le-le_bytes 2 (length es) (omega (arith, count)), of_le-le_bytes 4 next_leaf next)
        (rw (read_entries-code es raw 7 h entries) refl))

read_node-inner :
    (page_no : ℕ) (raw : Bytes) (keys : List ℤ) (children : List ℕ)
    → All Int64 keys
    → All (λ (c : ℕ). c < 256 ^ 4) children
    → length keys ≤ 255
    → length children ≡ length keys + 1
    → At raw 0 (inner_code keys children)
    → read_node page_no raw ≡ ok (inner_of page_no keys children)
unfolding read_node of_le
read_node-inner page_no raw keys children h cs count more t =
    let start = start_code 0 (length keys) in
    let size = length-start_code 0 (length keys) in
    let head : length (start ++ keys_code keys) ≡ 3 + length keys * 8 =
      omega (arith, length-append start (keys_code keys), size, length-keys_code keys) in
    let (front, links) =
      append-At raw 0 (start ++ keys_code keys) (children_code children) (3 + length keys * 8) head
        t in
    let there : At raw (3 + length keys * 8) (children_code children) =
      subst (λ (p : ℕ). At raw p (children_code children)) (omega arith) links in
    let (first, last) = append-At raw 0 start (keys_code keys) 3 size front in
    let (kind, field) = read_start raw 0 (length keys) (omega (arith, count)) first in
    rw (kind, field)
      (rw (of_le-le_bytes 2 (length keys) (omega (arith, count)), read_keys-code keys raw 3 h last)
        (rw (sym more) (rw (read_children-code children raw (3 + length keys * 8) cs there) refl)))

leaf_code-fits :
    (es : List (ℤ × RowId)) (next_leaf : ℕ)
    → length es ≤ 255
    → length (leaf_code es next_leaf) ≤ page_size
leaf_code-fits es next_leaf h =
    let start = start_code 1 (length es) in
    omega (
      arith,
      h,
      length-append (start ++ le_bytes 4 next_leaf) (entries_code es),
      length-append start (le_bytes 4 next_leaf),
      length-start_code 1 (length es),
      length-le_bytes 4 next_leaf,
      length-entries_code es,
    )

inner_code-fits :
    (keys : List ℤ) (children : List ℕ)
    → length keys ≤ 255
    → length children ≡ length keys + 1
    → length (inner_code keys children) ≤ page_size
inner_code-fits keys children h more =
    let start = start_code 0 (length keys) in
    omega (
      arith,
      h,
      more,
      length-append (start ++ keys_code keys) (children_code children),
      length-append start (keys_code keys),
      length-start_code 0 (length keys),
      length-keys_code keys,
      length-children_code children,
    )

-- What a tree stores of a node with up to 255 keys whose numbers fit their fields fills a page, and
-- is loaded from it as it was.
pub read_node-node_bytes :
    (node : Node)
    → Storable node
    → (raw : Bytes) × (node_bytes node ≡ ok raw)
      × (length raw ≡ page_size)
      × (read_node node.page_no raw ≡ ok node)
read_node-node_bytes _ (leaf_node {page_no} {next_leaf} es h count next) =
    let (raw, call, size, there) =
      page_of (leaf_code es next_leaf) (leaf_code-fits es next_leaf count) in
    (
      raw,
      node_bytes-leaf page_no es next_leaf h count next ∙ call,
      size,
      read_node-leaf page_no raw es next_leaf h count next there,
    )
read_node-node_bytes _ (inner_node {page_no} {keys} {children} h cs count more) =
    let (raw, call, size, there) =
      page_of (inner_code keys children) (inner_code-fits keys children count more) in
    (
      raw,
      node_bytes-inner page_no keys children h cs count ∙ call,
      size,
      read_node-inner page_no raw keys children h cs count more there,
    )
