-- ===== src/Tests/Heaps.antt =====
-- A heap file that starts empty, with one row inserted, read and deleted.
use query_x_engine.Common.{ok, ◌≡◌, refl, none, [], ◌∷◌, arith, get_elem?}
use query_x_engine.Common.Bytes.{Bytes}
use query_x_engine.Storage.OrderedDict.{lookup}
use query_x_engine.Storage.Pager.{contains}
use query_x_engine.Storage.BufferPool.{BufferPool}
use query_x_engine.Storage.BufferPool.Valid as PoolValid
use query_x_engine.Storage.BufferPool.Flush.{Flushed, flush_all-Flushed}
use query_x_engine.Storage.HeapFile.{scan, HeapFile, get, insert}
use query_x_engine.Storage.HeapFile.Valid.{IsValid, Unchanged, row_at, cells, get-row_at}
use query_x_engine.Storage.HeapFile.Insert.{Outcome, insert-Inserted}
use query_x_engine.Storage.HeapFile.Scan.{rows, scan-rows}
use query_x_engine.Storage.HeapFile.Delete.{Removed, delete-Removed}
use query_x_engine.Tests.Pagers.{crc, fresh}

abbrev pub empty_pool : BufferPool
empty_pool = record { pager = fresh.0; capacity = 1; cache = []; dirty = []; hits = 0; misses = 0 }

empty_pool-IsValid : PoolValid.IsValid crc 1 empty_pool
unfolding contains lookup
empty_pool-IsValid = record {
  pager = fresh.2;
  positive = omega arith;
  sized = omega arith;
  keys = tt;
  cached = λ n page h. cc;
  dirty_cached = λ n h. cc;
  clean = λ n page h c. cc;
}

abbrev pub empty_heap : HeapFile
empty_heap = record { pool = empty_pool; last_page = none }

pub empty_heap-IsValid : IsValid crc 1 empty_heap
empty_heap-IsValid = record {
  pool = empty_pool-IsValid;
  free_list = fresh.3;
  pages = λ n h. absurd (omega (arith, h.0, h.1));
  last = refl;
}

abbrev pub rec : Bytes
rec = 7 ∷ 8 ∷ []

abbrev pub filled : Outcome crc 1 empty_heap rec (insert crc rec empty_heap)
filled =
    insert-Inserted crc 1 empty_heap rec empty_heap-IsValid (omega arith) (omega arith)
      (omega arith)

insert-Inserted_example : Outcome crc 1 empty_heap rec (insert crc rec empty_heap)
insert-Inserted_example =
    insert-Inserted crc 1 empty_heap rec empty_heap-IsValid (omega arith) (omega arith)
      (omega arith)

get-row_at_example :
    (s' : HeapFile) × (get crc filled.0 filled.2 ≡ (row_at filled.2 filled.0, s'))
    × Unchanged crc filled.1 filled.2 s'
get-row_at_example = get-row_at crc filled.1 filled.2 filled.0 filled.4.valid filled.4.page

abbrev pub emptied :
    (s' : HeapFile) × Removed crc filled.1 filled.2 filled.0
      (get_elem? (cells filled.2 filled.0.page_no) filled.0.slot)
      s'
emptied = delete-Removed crc filled.1 filled.2 filled.0 filled.4.valid filled.4.page

delete-Removed_example :
    (s' : HeapFile) × Removed crc filled.1 filled.2 filled.0
      (get_elem? (cells filled.2 filled.0.page_no) filled.0.slot)
      s'
delete-Removed_example = delete-Removed crc filled.1 filled.2 filled.0 filled.4.valid filled.4.page

flush_all-Flushed_example : (s' : BufferPool) × Flushed crc filled.1 filled.2.pool s'
flush_all-Flushed_example = flush_all-Flushed crc filled.1 filled.2.pool filled.4.valid.pool

scan-rows_example :
    (s' : HeapFile) × (scan crc filled.2 ≡ (ok (rows crc filled.1 filled.2), s'))
    × Unchanged crc filled.1 filled.2 s'
scan-rows_example = scan-rows crc filled.1 filled.2 filled.4.valid
