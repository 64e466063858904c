-- ===== src/Storage/HeapFile.antt =====
-- The class `HeapFile` of queryx/storage/heap_file.py, over a buffer pool. A page that the pool has
-- handed out is the cached object, so a change of it is a change of the cache.
pub mod Valid
pub mod Insert
pub mod Delete
pub mod Scan
use query_x_engine.Common.{
  ℕ, zero, suc, ◌+◌, ◌-◌, Bool, Option, none, some, List, [], ◌++◌, map, ltb, ◌==◌, if◌then◌else◌,
  length, Result, ok, raise, value_error, page_full_error,
}
use query_x_engine.Common.Exec.{Exec, pure, throw, lift, gets, modify, ◌>>=◌, ◌>>◌}
use query_x_engine.Common.Bytes.{Bytes}
use query_x_engine.Storage.Page
use query_x_engine.Storage.Page.{Page, page_size, slot_size}
use query_x_engine.Storage.Pager
use query_x_engine.Storage.BufferPool.{
  BufferPool, mutate, mark_dirty, get_page, new_page, flush_all,
}

abbrev pub max_record_size : ℕ
max_record_size = page_size - Page.header_size - slot_size

pub record RowId : Type 0 where
  pub page_no : ℕ
  pub slot : ℕ

pub record HeapFile : Type 0 where
  pub pool : BufferPool
  pub last_page : Option ℕ

-- HeapFile(pool)
unfoldable pub open_heap : BufferPool → HeapFile
open_heap pool =
    let num_pages = Pager.num_pages pool.pager in
    record { pool = pool; last_page = if ltb 1 num_pages then some (num_pages - 1) else none }

-- a call of a method of the pool
unfoldable pub on_pool : {A : Type 0} → Exec BufferPool A → Exec HeapFile A
on_pool m s = ((m s.pool).0, record s { pool = (m s.pool).1 })

-- the page with the record in it, written and marked dirty
unfoldable pub stored : ℕ → ℕ × Page → Exec HeapFile RowId
unfolding on_pool mutate mark_dirty
stored page_no (slot, page) = do
  on_pool (λ p. (ok tt, mutate page_no page p))
  on_pool (mark_dirty page_no)
  pure (record { page_no = page_no; slot = slot })

module _ (crc32 : Bytes → ℕ) where
  unfoldable pub insert_on_new_page : Bytes → Exec HeapFile RowId
  unfolding on_pool
  insert_on_new_page rec = do
    (page_no, page) ← on_pool (new_page crc32)
    found ← lift (Page.insert_record page rec)
    id ← stored page_no found
    modify (λ s. record s { last_page = some page_no })
    pure id

  -- what follows the attempt on the last page: only a full page is caught
  unfoldable pub after_attempt : Bytes → ℕ → Result (ℕ × Page) → Exec HeapFile RowId
  unfolding insert_on_new_page
  after_attempt rec page_no (ok found) = stored page_no found
  after_attempt rec page_no (raise page_full_error) = insert_on_new_page rec
  after_attempt rec page_no (raise e) = throw e

  unfoldable pub insert_by : Bytes → Option ℕ → Exec HeapFile RowId
  unfolding after_attempt on_pool
  insert_by rec none = insert_on_new_page rec
  insert_by rec (some last_page) = do
    page ← on_pool (get_page crc32 last_page)
    after_attempt rec last_page (Page.insert_record page rec)

  unfoldable pub insert : Bytes → Exec HeapFile RowId
  unfolding insert_by
  insert rec =
      if length rec == 0
      then throw value_error
      else if ltb max_record_size (length rec)
      then throw value_error
      else (do last_page ← gets (λ s. s.last_page); insert_by rec last_page)

  unfoldable pub delete : RowId → Exec HeapFile Bool
  unfolding on_pool
  delete row_id = do
    page ← on_pool (get_page crc32 row_id.page_no)
    (deleted, page') ← lift (Page.delete_record page row_id.slot)
    on_pool (λ p. (ok tt, mutate row_id.page_no page' p))
    if deleted then on_pool (mark_dirty row_id.page_no) else pure tt
    pure deleted

  unfoldable pub get : RowId → Exec HeapFile (Option Bytes)
  unfolding on_pool
  get row_id = do
    page ← on_pool (get_page crc32 row_id.page_no)
    lift (Page.get_record page row_id.slot)

  unfoldable pub row_of : ℕ → ℕ × Bytes → RowId × Bytes
  row_of page_no (slot, rec) = (record { page_no = page_no; slot = slot }, rec)

  -- the loop of `scan` over `left` pages, as the list of what the generator yields
  unfoldable pub scan_from : ℕ → ℕ → Exec HeapFile (List (RowId × Bytes))
  unfolding on_pool row_of
  scan_from page_no zero = pure []
  scan_from page_no (suc left) = do
    page ← on_pool (get_page crc32 page_no)
    rows ← lift (Page.records page)
    rest ← scan_from (page_no + 1) left
    pure (map (row_of page_no) rows ++ rest)

  unfoldable pub scan : Exec HeapFile (List (RowId × Bytes))
  unfolding scan_from
  scan = do num_pages ← gets (λ s. Pager.num_pages s.pool.pager); scan_from 1 (num_pages - 1)

  unfoldable pub flush : Exec HeapFile (Unit {0})
  unfolding on_pool
  flush = on_pool (flush_all crc32)
