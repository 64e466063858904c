-- ===== src/Index/HashIndex.antt =====
-- The class `HashIndex` of queryx/index/hash_index.py. A loop along a chain of bucket pages runs on
-- fuel, one more than the pages of the file; a chain without a cycle has no more pages than that.
use query_x_engine.Common.{
  ℕ, zero, suc, ◌+◌, ◌*◌, ◌/◌, ◌%◌, ◌-◌, ◌^◌, Bool, true, false, ◌&&◌, not, ltb, leb, ◌==◌,
  if◌then◌else◌, Option, none, some, List, [], ◌∷◌, ◌++◌, length, Result, ok, raise, value_error,
  out_of_fuel, assertion_error,
}
use query_x_engine.Common
use query_x_engine.Common.Exec.{Exec, pure, throw, lift, gets, modify, ◌>>=◌, ◌>>◌}
use query_x_engine.Common.Int.{ℤ, pos, negsuc, eqb_ℤ}
use query_x_engine.Common.Bytes.{Bytes, slice, write_into, read_from, zeros, bytes_eq}
use query_x_engine.Common.Bytes.Words.{of_le, pack, pack_int, of_pattern}
use query_x_engine.Storage.Page.{Page, page_size, overwrite}
use query_x_engine.Storage.Pager
use query_x_engine.Storage.BufferPool.{
  BufferPool, mutate, mark_dirty, get_page, new_page, flush_all,
}
use query_x_engine.Storage.HeapFile.{RowId}
pub mod Buckets
pub mod RoundTrip

pub record HashIndex : Type 0 where
  pub pool : BufferPool
  pub num_buckets : ℕ

abbrev pub first_bucket : ℕ
first_bucket = 2

abbrev pub meta_page : ℕ
meta_page = 1

abbrev pub meta_magic : Bytes
meta_magic = 72 ∷ 83 ∷ 72 ∷ 49 ∷ []

abbrev pub hash_mult : ℕ
hash_mult = 2654435761

-- a call of a method of the pool
unfoldable pub on_pool : {A : Type 0} → Exec BufferPool A → Exec HashIndex A
on_pool m s = ((m s.pool).0, record s { pool = (m s.pool).1 })

-- (key * _HASH_MULT) & 0xFFFFFFFF, of a key that may be negative
unfoldable pub hashed : ℤ → ℕ
hashed (pos n) = (n * hash_mult) % 2 ^ 32
hashed (negsuc n) = (2 ^ 32 - (suc n * hash_mult) % 2 ^ 32) % 2 ^ 32

unfoldable pub bucket : HashIndex → ℤ → ℕ
unfolding hashed
bucket s key = hashed key % s.num_buckets

unfoldable pub bucket_head : HashIndex → ℤ → ℕ
unfolding bucket
bucket_head s key = first_bucket + bucket s key

unfoldable pub same_row : RowId → RowId → Bool
same_row a b = a.page_no == b.page_no && a.slot == b.slot

-- `list.append` on the entries with the key
unfoldable pub matches : ℤ → List (ℤ × RowId) → List RowId
matches key [] = []
matches key ((k, id) ∷ rest) =
    let found = matches key rest in if eqb_ℤ k key then id ∷ found else found

-- the entries without the first that has the key and the row, if one has them
unfoldable pub removed : ℤ → RowId → List (ℤ × RowId) → Option (List (ℤ × RowId))
removed key id [] = none
removed key id ((k, i) ∷ rest) = elim (eqb_ℤ k key && same_row i id) [
  | true ↦ some rest
  | false ↦ elim (removed key id rest) [ some left ↦ some ((k, i) ∷ left) | none ↦ none ]
]

module _ (crc32 : Bytes → ℕ) where
  -- `page.overwrite(raw)` on a page of the pool, and `mark_dirty`
  unfoldable pub overwrite_page : ℕ → Bytes → Exec HashIndex (Unit {0})
  unfolding on_pool
  overwrite_page page_no raw = do
    page ← on_pool (get_page crc32 page_no)
    page' ← lift (overwrite page raw)
    on_pool (λ p. (ok tt, mutate page_no page' p))
    on_pool (mark_dirty page_no)

  unfoldable pub write_bucket_page : ℕ → List (ℤ × RowId) → ℕ → Exec HashIndex (Unit {0})
  unfolding overwrite_page
  write_bucket_page page_no entries next_overflow = do
    buf ← lift (Buckets.bucket_bytes entries next_overflow)
    overwrite_page page_no buf

  unfoldable pub read_bucket_page : ℕ → Exec HashIndex (List (ℤ × RowId) × ℕ)
  unfolding on_pool
  read_bucket_page page_no = do
    raw ← on_pool (get_page crc32 page_no)
    lift (Buckets.read_bucket raw)

  unfoldable pub write_meta : Exec HashIndex (Unit {0})
  unfolding overwrite_page
  write_meta = do
    n ← gets (λ s. s.num_buckets)
    field ← lift (pack 4 n)
    buf ← lift (write_into (zeros page_size) 0 (meta_magic ++ field))
    overwrite_page meta_page buf

  unfoldable pub read_meta : Exec HashIndex (Unit {0})
  unfolding on_pool
  read_meta = do
    raw ← on_pool (get_page crc32 meta_page)
    magic ← lift (read_from raw 0 4)
    field ← lift (read_from raw 4 4)
    if bytes_eq magic meta_magic
        then modify (λ s. record s { num_buckets = of_le field })
        else throw value_error

  -- the loop that makes the bucket pages from the `i`th on
  unfoldable pub make_buckets : ℕ → ℕ → Exec HashIndex (Unit {0})
  unfolding on_pool write_bucket_page
  make_buckets i zero = pure tt
  make_buckets i (suc left) = do
    (bucket_no, _) ← on_pool (new_page crc32)
    if bucket_no == first_bucket + i then pure tt else throw assertion_error
    write_bucket_page bucket_no [] 0
    make_buckets (i + 1) left

  -- `HashIndex(pool, num_buckets)`, with `_num_buckets` of the state not yet set
  unfoldable pub init : ℕ → Exec HashIndex (Unit {0})
  unfolding make_buckets write_meta read_meta on_pool
  init num_buckets = do
    num_pages ← gets (λ s. Pager.num_pages s.pool.pager)
    if leb num_pages 1
        then (if ltb num_buckets 1 then throw value_error else (do
          modify (λ s. record s { num_buckets = num_buckets })
          (meta_no, _) ← on_pool (new_page crc32)
          if meta_no == meta_page then pure tt else throw assertion_error
          make_buckets 0 num_buckets
          write_meta))
        else read_meta

  -- what `insert` does on a page without room that has no overflow page
  unfoldable pub chain_overflow : ℤ → RowId → ℕ → List (ℤ × RowId) → Exec HashIndex (Unit {0})
  unfolding on_pool write_bucket_page
  chain_overflow key id page_no entries = do
    (overflow_no, _) ← on_pool (new_page crc32)
    write_bucket_page page_no entries overflow_no
    write_bucket_page overflow_no ((key, id) ∷ []) 0

  unfoldable pub insert_from : ℕ → ℤ → RowId → ℕ → Exec HashIndex (Unit {0})
  unfolding read_bucket_page write_bucket_page chain_overflow
  insert_from zero key id page_no = throw out_of_fuel
  insert_from (suc fuel) key id page_no = do
    (entries, next_overflow) ← read_bucket_page page_no
    elim (ltb (length entries) Buckets.capacity) [
      | true ↦ write_bucket_page page_no (entries ++ ((key, id) ∷ [])) next_overflow
      | false ↦ elim (next_overflow == 0) [
        | true ↦ chain_overflow key id page_no entries
        | false ↦ insert_from fuel key id next_overflow
      ]
    ]

  abbrev chain_fuel : Exec HashIndex ℕ
  chain_fuel = gets (λ s. Pager.num_pages s.pool.pager + 1)

  unfoldable pub insert : ℤ → RowId → Exec HashIndex (Unit {0})
  unfolding insert_from bucket_head
  insert key id = do
    head ← gets (λ s. bucket_head s key)
    fuel ← chain_fuel
    insert_from fuel key id head

  unfoldable pub search_from : ℕ → ℤ → ℕ → Exec HashIndex (List RowId)
  unfolding read_bucket_page
  search_from zero key page_no = throw out_of_fuel
  search_from (suc fuel) key page_no = elim (page_no == 0) [
    | true ↦ pure []
    | false ↦ do
      (entries, next_overflow) ← read_bucket_page page_no
      rest ← search_from fuel key next_overflow
      pure (matches key entries ++ rest)
  ]

  unfoldable pub search : ℤ → Exec HashIndex (List RowId)
  unfolding search_from bucket_head
  search key = do head ← gets (λ s. bucket_head s key); fuel ← chain_fuel; search_from fuel key head

  unfoldable pub delete_from : ℕ → ℤ → RowId → ℕ → Exec HashIndex Bool
  unfolding read_bucket_page write_bucket_page
  delete_from zero key id page_no = throw out_of_fuel
  delete_from (suc fuel) key id page_no = elim (page_no == 0) [
    | true ↦ pure false
    | false ↦ do
      (entries, next_overflow) ← read_bucket_page page_no
      elim (removed key id entries) [
        | some left ↦ do write_bucket_page page_no left next_overflow; pure true
        | none ↦ delete_from fuel key id next_overflow
      ]
  ]

  unfoldable pub delete : ℤ → RowId → Exec HashIndex Bool
  unfolding delete_from bucket_head
  delete key id = do
    head ← gets (λ s. bucket_head s key)
    fuel ← chain_fuel
    delete_from fuel key id head

  unfoldable pub flush : Exec HashIndex (Unit {0})
  unfolding on_pool
  flush = on_pool (flush_all crc32)
