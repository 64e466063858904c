-- ===== src/Index/HashIndex/Buckets.antt =====
-- The bytes of a bucket page of queryx/index/hash_index.py, and the entries read back from them.
use query_x_engine.Common.{
  ℕ, zero, suc, ◌+◌, ◌/◌, ◌-◌, List, [], ◌∷◌, ◌++◌, length, Result, ok, ◌>>=◌,
}
use query_x_engine.Common.Int.{ℤ}
use query_x_engine.Common.Bytes.{Bytes, slice, write_into, read_from, zeros}
use query_x_engine.Common.Bytes.Words.{of_le, pack, pack_int, of_pattern}
use query_x_engine.Storage.Page.{page_size}
use query_x_engine.Storage.HeapFile.{RowId}

abbrev pub entry_size : ℕ
entry_size = 16

abbrev pub bucket_header_size : ℕ
bucket_header_size = 6

abbrev pub capacity : ℕ
capacity = (page_size - bucket_header_size) / entry_size

unfoldable pub entry_bytes : ℤ × RowId → Result Bytes
entry_bytes (key, id) = do
  k ← pack_int key
  p ← pack 4 id.page_no
  s ← pack 4 id.slot
  ok (k ++ (p ++ s))

-- the loop of `_write_bucket_page`
unfoldable pub write_entries : List (ℤ × RowId) → Bytes → ℕ → Result Bytes
unfolding entry_bytes
write_entries [] buf pos = ok buf
write_entries (e ∷ entries) buf pos = do
  b ← entry_bytes e
  buf' ← write_into buf pos b
  write_entries entries buf' (pos + entry_size)

-- the buffer that `_write_bucket_page` fills
unfoldable pub bucket_bytes : List (ℤ × RowId) → ℕ → Result Bytes
unfolding write_entries
bucket_bytes entries next_overflow = do
  n ← pack 2 (length entries)
  o ← pack 4 next_overflow
  buf ← write_into (zeros page_size) 0 (n ++ o)
  write_entries entries buf bucket_header_size

unfoldable pub read_entry : Bytes → ℤ × RowId
read_entry b = (
  of_pattern (of_le (slice b 0 8)),
  record { page_no = of_le (slice b 8 4); slot = of_le (slice b 12 4) },
)

-- the loop of `_read_bucket_page`
unfoldable pub read_entries : ℕ → Bytes → ℕ → Result (List (ℤ × RowId))
unfolding read_entry
read_entries zero raw pos = ok []
read_entries (suc left) raw pos = do
  b ← read_from raw pos entry_size
  rest ← read_entries left raw (pos + entry_size)
  ok (read_entry b ∷ rest)

unfoldable pub read_bucket : Bytes → Result (List (ℤ × RowId) × ℕ)
unfolding read_entries
read_bucket raw = do
  b ← read_from raw 0 bucket_header_size
  entries ← read_entries (of_le (slice b 0 2)) raw bucket_header_size
  ok (entries, of_le (slice b 2 4))
