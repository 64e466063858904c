-- ===== src/Storage/Pager/Header.antt =====
-- The header page of queryx/storage/pager.py, page 0: its image, and the reading of it.
pub mod RoundTrip
use query_x_engine.Common.{
  ℕ, zero, suc, ◌+◌, Bool, true, false, not, List, [], ◌∷◌, ◌++◌, ltb, ◌==◌, if◌then◌else◌, length,
  Result, ok, raise, value_error, ◌>>=◌,
}
use query_x_engine.Common.Bytes.{Bytes, slice, bytes_eq, write_into, read_from, zeros}
use query_x_engine.Common.Bytes.Words.{le_bytes, of_le, pack}
use query_x_engine.Storage.Page.{page_size}

-- b"QRYX"
abbrev pub magic : Bytes
magic = 0x51 ∷ 0x52 ∷ 0x59 ∷ 0x58 ∷ []

abbrev pub version : ℕ
version = 1

abbrev pub header_size : ℕ
header_size = 10

abbrev pub max_free : ℕ
max_free = 1021

-- the loop of `_write_header` over the free list
pub pack_free_list : Bytes → ℕ → List ℕ → Result Bytes
pack_free_list d pos [] = ok d
pack_free_list d pos (page_no ∷ rest) = do
  entry ← pack 4 page_no
  d' ← write_into d pos entry
  pack_free_list d' (pos + 4) rest

-- what `_write_header` writes to page 0
unfoldable pub header_image : List ℕ → Result Bytes
unfolding pack_free_list
header_image free_list = do
  count ← pack 4 (length free_list)
  d ← write_into (zeros page_size) 0 (magic ++ (le_bytes 2 version ++ count))
  pack_free_list d header_size free_list

-- the loop of `_load_header`: `left` entries of the free list from `pos`
pub read_free_list : Bytes → ℕ → ℕ → Result (List ℕ)
read_free_list d pos zero = ok []
read_free_list d pos (suc left) = do
  b ← read_from d pos 4
  rest ← read_free_list d (pos + 4) left
  ok (of_le b ∷ rest)

unfoldable pub load_header : Bytes → Result (List ℕ)
unfolding read_free_list
load_header file =
    let d = slice file 0 page_size in
    if ltb (length d) header_size
    then raise value_error
    else if not (bytes_eq (slice d 0 4) magic)
    then raise value_error
    else if not (of_le (slice d 4 2) == version)
    then raise value_error
    else read_free_list d header_size (of_le (slice d 6 4))
