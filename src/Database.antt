-- ===== src/Database.antt =====
-- The class `Database` of queryx/database.py: the files it has open, the DDL and the writes of rows.
-- The directory is the bytes of each file and of its log; an open file lives in its object. An
-- object that a dictionary holds is changed in it. `os.path` names are kept as the logical names:
-- the files of tables and those of indexes are two dictionaries.
pub mod Rows
pub mod Values
pub mod Keeps
pub mod Given
pub mod Dml
pub mod Writes
pub mod Refused
pub mod Stored
pub mod Reads
pub mod Plan
pub mod Select
pub mod Execute
pub mod Lifetime
use query_x_engine.Common.{
  ℕ, zero, suc, ◌+◌, Bool, true, false, not, ◌&&◌, ◌||◌, Option, none, some, List, [], ◌∷◌, ◌++◌,
  map, length, set, get_elem?, ◌==◌, if◌then◌else◌, Result, ok, raise, query_error, type_error,
  key_error, index_error, catalog_error,
}
use query_x_engine.Common
use query_x_engine.Common.Exec.{Exec, pure, throw, lift, gets, modify, ◌>>=◌, ◌>>◌}
use query_x_engine.Common.Int.{ℤ, pos, ◌-ℤ◌, eqb_ℤ}
use query_x_engine.Common.Bytes.{Bytes, bytes_eq}
use query_x_engine.Common.Dict.{get, has, put, del}
use query_x_engine.Storage.Row.{
  Builtins, Text, ColumnType, int, text, Value, num, str, serialize_row, deserialize_row,
}
use query_x_engine.Storage.Pager
use query_x_engine.Storage.Pager.{Pager, open_pager}
use query_x_engine.Storage.BufferPool.{BufferPool, new_pool, flush_all}
use query_x_engine.Storage.HeapFile
use query_x_engine.Storage.HeapFile.{HeapFile, RowId, open_heap}
use query_x_engine.Index.HashIndex
use query_x_engine.Index.HashIndex.{HashIndex}
use query_x_engine.Index.BTree.{BPlusTree}
use query_x_engine.Index.BTree.Pages as TreePages
use query_x_engine.Catalog
use query_x_engine.Catalog.{
  Catalog, TableInfo, ColumnInfo, IndexInfo, column_types, column_names, position, has_column,
  indexes_for_table,
}
use query_x_engine.Sql.Ast.{Expr, ColumnDef, Assignment}
use query_x_engine.Execution.Evaluate.{Datum, value, evaluate, truth, full_names}
use query_x_engine.Planner.Advisor.{WorkloadAdvisor}
use Rows.{resolve_rows, validate_where, check_assignments, same_type}

pub data Index : Type 0 where
  hash_index : HashIndex → Index
  tree_index : BPlusTree BufferPool → Index

pub record Database : Type 0 where
  pub use_wal : Bool
  pub catalog : Catalog
  pub tables : List (Text × HeapFile)
  pub indexes : List (Text × Index)
  pub table_files : List (Text × (Bytes × Bytes))
  pub index_files : List (Text × (Bytes × Bytes))
  pub advisor : WorkloadAdvisor

abbrev pub pool_capacity : ℕ
pool_capacity = 64

-- a call of a method of the catalog
unfoldable pub on_catalog : {A : Type 0} → Exec Catalog A → Exec Database A
on_catalog m s = ((m s.catalog).0, record s { catalog = (m s.catalog).1 })

-- a call of a method of an open heap file
unfoldable pub on_heap : {A : Type 0} → Text → Exec HeapFile A → Exec Database A
on_heap table m s = elim (get table s.tables) [
  | none ↦ (raise key_error, s)
  | some h ↦ ((m h).0, record s { tables = put table (m h).1 s.tables })
]

-- what a file and its log hold; a file that does not exist holds nothing
unfoldable pub contents_of : Option (Bytes × Bytes) → Bytes × Bytes
contents_of none = ([], [])
contents_of (some file) = file

unfoldable pub log_bytes : Option Bytes → Bytes
log_bytes none = []
log_bytes (some log) = log

-- an integer key of a row; only INT columns have an index
unfoldable pub key_at : List Value → ℕ → Result ℤ
key_at values i = elim (get_elem? values i) [
  | none ↦ raise index_error
  | some v ↦ elim v [ num n ↦ ok n | str s ↦ raise type_error ]
]

-- the pool of an index, and the index with its pool changed
unfoldable pub pool_of : Index → BufferPool
pool_of (hash_index h) = h.pool
pool_of (tree_index t) = t.nodes

unfoldable pub with_pool : BufferPool → Index → Index
with_pool pool (hash_index h) = hash_index (record h { pool = pool })
with_pool pool (tree_index t) = tree_index (record t { nodes = pool })

-- a loop that calls a method for each element
unfoldable pub for_each : {S A : Type 0} → (A → Exec S (Unit {0})) → List A → Exec S (Unit {0})
for_each body [] = pure tt
for_each body (a ∷ rest) = let more = for_each body rest in (do body a; more)

module _ (crc32 : Bytes → ℕ) where
  -- `Pager(path)` and `BufferPool(pager, capacity=_POOL_CAPACITY)`
  unfoldable pub open_pool : Bool → Bytes × Bytes → Result BufferPool
  open_pool use_wal (file, log) =
      Common.◌>>=◌ (open_pager crc32 use_wal file log) (λ pager. new_pool pager pool_capacity)

  -- `_heap`: the table's file is open afterwards
  unfoldable pub open_table : Text → Exec Database (Unit {0})
  unfolding open_pool contents_of
  open_table table = do
    there ← gets (λ s. has table s.tables)
    if there then pure tt else (do
      use_wal ← gets (λ s. s.use_wal)
      file ← gets (λ s. contents_of (get table s.table_files))
      pool ← lift (open_pool use_wal file)
      modify (λ s. record s { tables = put table (open_heap pool) s.tables }))

  -- the object of an index of the given kind on a pool
  unfoldable pub index_on_pool : Text → BufferPool → Result Index
  index_on_pool kind pool =
      if bytes_eq kind Catalog.btree
      then tree_result (TreePages.init crc32 none (record { nodes = pool; max_keys = 0; root = 0 }))
      else hash_result (HashIndex.init crc32 64 (record { pool = pool; num_buckets = 64 }))
    where
      tree_result : Result (Unit {0}) × BPlusTree BufferPool → Result Index
      tree_result (ok _, t) = ok (tree_index t)
      tree_result (raise e, t) = raise e

      hash_result : Result (Unit {0}) × HashIndex → Result Index
      hash_result (ok _, h) = ok (hash_index h)
      hash_result (raise e, h) = raise e

  -- `_index`
  unfoldable pub open_index : Text → Exec Database (Unit {0})
  unfolding on_catalog open_pool contents_of index_on_pool
  open_index name = do
    there ← gets (λ s. has name s.indexes)
    if there then pure tt else (do
      info ← on_catalog (Catalog.get_index name)
      use_wal ← gets (λ s. s.use_wal)
      file ← gets (λ s. contents_of (get name s.index_files))
      pool ← lift (open_pool use_wal file)
      index ← lift (index_on_pool info.kind pool)
      modify (λ s. record s { indexes = put name index s.indexes }))

  -- a call of a method that both kinds of index have
  unfoldable pub on_index :
      {A : Type 0} → Text → Exec HashIndex A → Exec (BPlusTree BufferPool) A → Exec Database A
  unfolding open_index
  on_index name on_hash on_tree = do
    open_index name
    found ← gets (λ s. get name s.indexes)
    elim found [
      | none ↦ throw key_error
      | some i ↦ elim i [
        | hash_index h ↦ λ s.
            ((on_hash h).0, record s { indexes = put name (hash_index (on_hash h).1) s.indexes })
        | tree_index t ↦ λ s.
            ((on_tree t).0, record s { indexes = put name (tree_index (on_tree t).1) s.indexes })
      ]
    ]

  unfoldable pub index_insert : Text → ℤ → RowId → Exec Database (Unit {0})
  unfolding on_index
  index_insert name key id =
      on_index name (HashIndex.insert crc32 key id) (TreePages.insert crc32 key id)

  unfoldable pub index_delete : Text → ℤ → RowId → Exec Database Bool
  unfolding on_index
  index_delete name key id =
      on_index name (HashIndex.delete crc32 key id) (TreePages.delete_pages crc32 key id)

  unfoldable pub flush_index : IndexInfo → Exec Database (Unit {0})
  unfolding on_index
  flush_index info =
      on_index info.name (HashIndex.on_pool (flush_all crc32)) (TreePages.flush crc32)

  -- `_flush_table`
  unfoldable pub flush_table : Text → Exec Database (Unit {0})
  unfolding open_table on_heap flush_index for_each
  flush_table table = do
    open_table table
    on_heap table (HeapFile.flush crc32)
    infos ← gets (λ s. indexes_for_table table s.catalog)
    for_each flush_index infos

  unfoldable pub create_table : Text → List ColumnDef → Exec Database (Unit {0})
  unfolding on_catalog open_table
  create_table table columns = do
    on_catalog (
        Catalog.create_table table
          (map (λ (c : ColumnDef). record { name = c.name; type = c.type }) columns))
    open_table table

  -- `_discard_table_file` and `_discard_index_file`; the closed file is removed, so what `close`
  -- writes is lost, but an error of it is raised
  unfoldable pub close_pool : BufferPool → Result (Unit {0})
  close_pool pool = (Pager.close crc32 pool.pager).0

  unfoldable pub discard_table : Text → Exec Database (Unit {0})
  unfolding close_pool
  discard_table table = do
    found ← gets (λ s. get table s.tables)
    modify (λ s. record s { tables = del table s.tables })
    elim found [ none ↦ pure tt | some h ↦ lift (close_pool h.pool) ]
    modify (λ s. record s { table_files = del table s.table_files })

  unfoldable pub discard_index : Text → Exec Database (Unit {0})
  unfolding close_pool pool_of
  discard_index name = do
    found ← gets (λ s. get name s.indexes)
    modify (λ s. record s { indexes = del name s.indexes })
    elim found [ none ↦ pure tt | some i ↦ lift (close_pool (pool_of i)) ]
    modify (λ s. record s { index_files = del name s.index_files })

  unfoldable pub drop_table : Text → Exec Database (Unit {0})
  unfolding on_catalog discard_table discard_index for_each
  drop_table table = do
    infos ← gets (λ s. indexes_for_table table s.catalog)
    on_catalog (Catalog.drop_table table)
    discard_table table
    for_each (λ (i : IndexInfo). discard_index i.name) infos

  unfoldable pub drop_index : Text → Exec Database (Unit {0})
  unfolding on_catalog discard_index
  drop_index name = do on_catalog (Catalog.drop_index name); discard_index name
