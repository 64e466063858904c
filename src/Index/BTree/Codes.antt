-- ===== src/Index/BTree/Codes.antt =====
-- The bytes of the parts of a node, and what the loops of `_load` read back from them.
use query_x_engine.Common.{
  ℕ, ◌+◌, ◌*◌, ◌^◌, ◌≤◌, ◌<◌, ◌≡◌, refl, sym, ap, ◌∙◌, arith, List, [], ◌∷◌, ◌++◌, map, length,
  length-append, ok, All,
}
use query_x_engine.Common.Int.{ℤ}
use query_x_engine.Common.Bytes.{
  Bytes, slice, splice, zeros, read_from, write_into, write_into_fits, read_from_fits,
  length-splice, slice-splice_self, slice-append, slice-slice, length-zeros,
}
use query_x_engine.Common.Bytes.Words.{
  le_bytes, to_pattern, Int64, pack_fits, pack_int_fits, of_le-le_bytes, of_pattern-le_bytes,
  length-le_bytes,
}
use query_x_engine.Storage.Page.{page_size}
use query_x_engine.Storage.HeapFile.{RowId}
use query_x_engine.Index.BTree.Pages.{
  leaf_entries, key_bytes, child_bytes, read_entries, read_keys, read_children,
}

-- some bytes stand at a position of a page
pub record At (raw : Bytes) (at_pos : ℕ) (b : Bytes) : Type 0 where
  pub same : slice raw at_pos (length b) ≡ b
  pub inside : at_pos + length b ≤ length raw

pub append-At :
    (raw : Bytes) (at_pos : ℕ) (a c : Bytes) (n : ℕ)
    → length a ≡ n
    → At raw at_pos (a ++ c)
    → At raw at_pos a × At raw (at_pos + n) c
append-At raw at_pos a c n h t =
    let size = length-append a c in
    let parts = slice-append a c (length a) (length c) refl refl in
    let first : slice raw at_pos (length a) ≡ a =
      sym (
        slice-slice raw at_pos (length (a ++ c)) 0 (length a) at_pos (omega arith)
          (omega (arith, size)))
      ∙ ap (λ (x : Bytes). slice x 0 (length a)) t.same
      ∙ parts.0 in
    let second : slice raw (at_pos + n) (length c) ≡ c =
      sym (
        slice-slice raw at_pos (length (a ++ c)) (length a) (length c) (at_pos + n)
          (omega (arith, h)) (omega (arith, size)))
      ∙ ap (λ (x : Bytes). slice x (length a) (length c)) t.same
      ∙ parts.1 in
    (
      record { same = first; inside = omega (arith, size, t.inside) },
      record { same = second; inside = omega (arith, size, h, t.inside) },
    )

pub read_from-At :
    (raw : Bytes) (at_pos : ℕ) (a : Bytes) (n : ℕ)
    → length a ≡ n
    → At raw at_pos a
    → read_from raw at_pos n ≡ ok a
read_from-At raw at_pos a n h t =
    read_from_fits raw at_pos n (omega (arith, h, t.inside))
    ∙ ap ok (ap (λ (m : ℕ). slice raw at_pos m) (sym h) ∙ t.same)

-- an entry and a key that the fields of a page can hold
abbrev pub Fits : ℤ × RowId → Type 0
Fits e = Int64 e.0 × (e.1.page_no < 256 ^ 4) × (e.1.slot < 256 ^ 4)

-- the key and the page number of an entry
abbrev head_code : ℤ × RowId → Bytes
head_code e = le_bytes 8 (to_pattern e.0) ++ le_bytes 4 e.1.page_no

length-head_code : (e : ℤ × RowId) → length (head_code e) ≡ 12
length-head_code e = omega (
  arith,
  length-append (le_bytes 8 (to_pattern e.0)) (le_bytes 4 e.1.page_no),
  length-le_bytes 8 (to_pattern e.0),
  length-le_bytes 4 e.1.page_no,
)

length-entry_code : (e : ℤ × RowId) → length (head_code e ++ le_bytes 4 e.1.slot) ≡ 16
length-entry_code e = omega (
  arith,
  length-append (head_code e) (le_bytes 4 e.1.slot),
  length-head_code e,
  length-le_bytes 4 e.1.slot,
)

abbrev pub entries_code : List (ℤ × RowId) → Bytes
entries_code [] = []
entries_code (e ∷ es) = head_code e ++ le_bytes 4 e.1.slot ++ entries_code es

abbrev pub keys_code : List ℤ → Bytes
keys_code [] = []
keys_code (k ∷ keys) = le_bytes 8 (to_pattern k) ++ keys_code keys

abbrev pub children_code : List ℕ → Bytes
children_code [] = []
children_code (c ∷ children) = le_bytes 4 c ++ children_code children

pub leaf_entries-code :
    (es : List (ℤ × RowId))
    → All Fits es
    → leaf_entries (map (λ (e : ℤ × RowId). e.0) es) (map (λ (e : ℤ × RowId). e.1) es)
      ≡ ok (entries_code es)
unfolding leaf_entries
leaf_entries-code [] h = refl
leaf_entries-code (e ∷ es) ((k, p, s), hs) =
    rw
      (
        pack_int_fits e.0 k,
        pack_fits 4 e.1.page_no p,
        pack_fits 4 e.1.slot s,
        leaf_entries-code es hs,
      )
      refl

pub key_bytes-code : (keys : List ℤ) → All Int64 keys → key_bytes keys ≡ ok (keys_code keys)
unfolding key_bytes
key_bytes-code [] h = refl
key_bytes-code (k ∷ keys) (h, hs) = rw (pack_int_fits k h, key_bytes-code keys hs) refl

pub child_bytes-code :
    (children : List ℕ)
    → All (λ (c : ℕ). c < 256 ^ 4) children
    → child_bytes children ≡ ok (children_code children)
unfolding child_bytes
child_bytes-code [] h = refl
child_bytes-code (c ∷ children) (h, hs) = rw (pack_fits 4 c h, child_bytes-code children hs) refl

pub length-entries_code : (es : List (ℤ × RowId)) → length (entries_code es) ≡ length es * 16
length-entries_code [] = refl
length-entries_code (e ∷ es) = omega (
  arith,
  length-append (head_code e ++ le_bytes 4 e.1.slot) (entries_code es),
  length-entry_code e,
  length-entries_code es,
)

pub length-keys_code : (keys : List ℤ) → length (keys_code keys) ≡ length keys * 8
length-keys_code [] = refl
length-keys_code (k ∷ keys) = omega (
  arith,
  length-append (le_bytes 8 (to_pattern k)) (keys_code keys),
  length-le_bytes 8 (to_pattern k),
  length-keys_code keys,
)

pub length-children_code : (cs : List ℕ) → length (children_code cs) ≡ length cs * 4
length-children_code [] = refl
length-children_code (c ∷ cs) = omega (
  arith,
  length-append (le_bytes 4 c) (children_code cs),
  length-le_bytes 4 c,
  length-children_code cs,
)

pub read_keys-code :
    (keys : List ℤ) (raw : Bytes) (at_pos : ℕ)
    → All Int64 keys
    → At raw at_pos (keys_code keys)
    → read_keys raw at_pos (length keys) ≡ ok keys
unfolding read_keys
read_keys-code [] raw at_pos h t = refl
read_keys-code (k ∷ keys) raw at_pos (h, hs) t =
    let (t1, t2) =
      append-At raw at_pos (le_bytes 8 (to_pattern k)) (keys_code keys) 8
        (length-le_bytes 8 (to_pattern k)) t in
    rw
      (
        read_from-At raw at_pos (le_bytes 8 (to_pattern k)) 8 (length-le_bytes 8 (to_pattern k)) t1,
        read_keys-code keys raw (at_pos + 8) hs t2,
        of_pattern-le_bytes k h,
      )
      refl

pub read_children-code :
    (cs : List ℕ) (raw : Bytes) (at_pos : ℕ)
    → All (λ (c : ℕ). c < 256 ^ 4) cs
    → At raw at_pos (children_code cs)
    → read_children raw at_pos (length cs) ≡ ok cs
unfolding read_children
read_children-code [] raw at_pos h t = refl
read_children-code (c ∷ cs) raw at_pos (h, hs) t =
    let (t1, t2) =
      append-At raw at_pos (le_bytes 4 c) (children_code cs) 4 (length-le_bytes 4 c) t in
    rw
      (
        read_from-At raw at_pos (le_bytes 4 c) 4 (length-le_bytes 4 c) t1,
        read_children-code cs raw (at_pos + 4) hs t2,
        of_le-le_bytes 4 c h,
      )
      refl

pub read_entries-code :
    (es : List (ℤ × RowId)) (raw : Bytes) (at_pos : ℕ)
    → All Fits es
    → At raw at_pos (entries_code es)
    → read_entries raw at_pos (length es)
      ≡ ok (map (λ (e : ℤ × RowId). e.0) es, map (λ (e : ℤ × RowId). e.1) es)
unfolding read_entries
read_entries-code [] raw at_pos h t = refl
read_entries-code (e ∷ es) raw at_pos ((k, p, s), hs) t =
    let a = le_bytes 8 (to_pattern e.0) in
    let b = le_bytes 4 e.1.page_no in
    let c = le_bytes 4 e.1.slot in
    let (entry, rest) =
      append-At raw at_pos (head_code e ++ c) (entries_code es) 16 (length-entry_code e) t in
    let (first, slot) = append-At raw at_pos (head_code e) c 12 (length-head_code e) entry in
    let (key, page) = append-At raw at_pos a b 8 (length-le_bytes 8 (to_pattern e.0)) first in
    rw
      (
        read_from-At raw at_pos a 8 (length-le_bytes 8 (to_pattern e.0)) key,
        read_from-At raw (at_pos + 8) b 4 (length-le_bytes 4 e.1.page_no) page,
        read_from-At raw (at_pos + 12) c 4 (length-le_bytes 4 e.1.slot) slot,
        read_entries-code es raw (at_pos + 16) hs rest,
        of_pattern-le_bytes e.0 k,
        of_le-le_bytes 4 e.1.page_no p,
        of_le-le_bytes 4 e.1.slot s,
      )
      refl

-- a page that begins with some bytes
pub page_of :
    (b : Bytes)
    → length b ≤ page_size
    → (raw : Bytes) × (write_into (zeros page_size) 0 b ≡ ok raw)
      × (length raw ≡ page_size)
      × At raw 0 b
page_of b h =
    let z = zeros page_size in
    let room : 0 + length b ≤ length z = omega (arith, h, length-zeros page_size) in
    let size = length-splice z 0 b room ∙ length-zeros page_size in
    (
      splice z 0 b,
      write_into_fits z 0 b room,
      size,
      record {
        same = slice-splice_self z 0 b room (length b) refl;
        inside = omega (arith, size, h);
      },
    )
