-- ===== src/Database/Lifetime.antt =====
-- The end of a `Database` of queryx/database.py: `close`, and a crash.
use query_x_engine.Common.{ℕ, ◌+◌, none, some, List, [], ◌∷◌, raise, key_error}
use query_x_engine.Common.Exec.{Exec, gets, modify, ◌>>=◌, ◌>>◌}
use query_x_engine.Common.Bytes.{Bytes}
use query_x_engine.Common.Dict.{get, put}
use query_x_engine.Storage.Row.{Text}
use query_x_engine.Storage.Pager
use query_x_engine.Storage.Pager.{Pager}
use query_x_engine.Storage.BufferPool
use query_x_engine.Storage.BufferPool.{BufferPool, flush_all}
use query_x_engine.Storage.HeapFile.{HeapFile}
use query_x_engine.Database.{Database, Index, log_bytes, pool_of, with_pool, on_heap, for_each}

-- what the files of a pager hold
unfoldable pub files_of : Pager → Bytes × Bytes
files_of p = (p.file, log_bytes p.wal)

-- the files that the open tables, and the open indexes, leave behind
unfoldable pub table_files_of :
    List (Text × HeapFile) → List (Text × (Bytes × Bytes)) → List (Text × (Bytes × Bytes))
unfolding files_of
table_files_of [] files = files
table_files_of ((name, h) ∷ tables) files =
    table_files_of tables (put name (files_of h.pool.pager) files)

unfoldable pub index_files_of :
    List (Text × Index) → List (Text × (Bytes × Bytes)) → List (Text × (Bytes × Bytes))
unfolding files_of
index_files_of [] files = files
index_files_of ((name, i) ∷ indexes) files =
    index_files_of indexes (put name (files_of (pool_of i).pager) files)

-- `simulate_crash`: the files stay as they are, and nothing is written
unfoldable pub simulate_crash : Exec Database (Unit {0})
unfolding table_files_of index_files_of
simulate_crash = modify (λ s. record s {
  tables = [];
  indexes = [];
  table_files = table_files_of s.tables s.table_files;
  index_files = index_files_of s.indexes s.index_files;
})

-- the counts that `runtime_stats` adds up over the pools
pub record RuntimeStats : Type 0 where
  pub cached_pages : ℕ
  pub dirty_pages : ℕ
  pub hits : ℕ
  pub misses : ℕ
  pub wal_bytes : ℕ

unfoldable pub stats_of : List BufferPool → RuntimeStats
stats_of [] = record { cached_pages = 0; dirty_pages = 0; hits = 0; misses = 0; wal_bytes = 0 }
stats_of (p ∷ pools) = record {
  cached_pages = BufferPool.cached_count p + (stats_of pools).cached_pages;
  dirty_pages = BufferPool.dirty_count p + (stats_of pools).dirty_pages;
  hits = p.hits + (stats_of pools).hits;
  misses = p.misses + (stats_of pools).misses;
  wal_bytes = Pager.wal_bytes p.pager.wal + (stats_of pools).wal_bytes;
}

module _ (crc32 : Bytes → ℕ) where
  -- the flush of one open file, and the close of its pager
  unfoldable pub close_file : Exec BufferPool (Unit {0})
  close_file = do
    flush_all crc32
    λ p. ((Pager.close crc32 p.pager).0, record p { pager = (Pager.close crc32 p.pager).1 })

  unfoldable pub close_table : Text → Exec Database (Unit {0})
  unfolding close_file on_heap
  close_table name =
      on_heap name (λ h. ((close_file h.pool).0, record h { pool = (close_file h.pool).1 }))

  unfoldable pub close_index : Text → Exec Database (Unit {0})
  unfolding close_file pool_of with_pool
  close_index name s = elim (get name s.indexes) [
    | none ↦ (raise key_error, s)
    | some i ↦ (
      (close_file (pool_of i)).0,
      record s { indexes = put name (with_pool (close_file (pool_of i)).1 i) s.indexes },
    )
  ]

  unfoldable pub names_of : {V : Type 0} → List (Text × V) → List Text
  names_of [] = []
  names_of ((name, v) ∷ rest) = name ∷ names_of rest

  -- `close`: what stays of an object whose dictionary is cleared is its files
  unfoldable pub close : Exec Database (Unit {0})
  unfolding for_each names_of close_table close_index
  close = do
    tables ← gets (λ s. names_of s.tables)
    for_each close_table tables
    indexes ← gets (λ s. names_of s.indexes)
    for_each close_index indexes
    simulate_crash
