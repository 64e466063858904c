-- ===== src/Database/Stored.antt =====
-- A row of an INSERT, from the checks to the cell of the heap file.
use query_x_engine.Common.{ℕ, ◌^◌, ◌<◌, ◌≤◌, ◌≡◌, refl, Option, some, List, [], length, ok, All}
use query_x_engine.Common.Bytes.{Bytes}
use query_x_engine.Common.Dict.{get, put}
use query_x_engine.Storage.Row.{Builtins, Text, Value, serialize_row, deserialize_row}
use query_x_engine.Storage.Row.RoundTrip.{Decodes}
use query_x_engine.Storage.HeapFile.{HeapFile, RowId}
use query_x_engine.Storage.HeapFile.Valid.{IsValid}
use query_x_engine.Storage.HeapFile.Insert.{Inserted, insert-Inserted}
use query_x_engine.Storage.HeapFile.{max_record_size}
use query_x_engine.Sql.Ast.{Expr}
use query_x_engine.Catalog.{TableInfo, column_types}
use query_x_engine.Database.{Database, on_heap, for_each}
use query_x_engine.Database.Rows.{resolve_row}
use query_x_engine.Database.Values.{Typed, InRange, resolve_row-deserialize_row}
use query_x_engine.Database.Dml.{insert_row}

module _ (py : Builtins) (crc32 : Bytes → ℕ) where
  -- What the storing of a row leaves in the heap file of its table.
  pub record StoredRow (k : ℕ) (table : Text) (info : TableInfo) (values : List Value)
      (s : Database) (h : HeapFile) (id : RowId) (k' : ℕ) (h' : HeapFile) : Type 0 where
    pub rec : Bytes
    pub call :
        insert_row py crc32 table info [] values s
        ≡ (ok tt, record s { tables = put table h' s.tables })
    pub inserted : Inserted crc32 k h rec id k' h'
    pub decoded : deserialize_row py (column_types info) rec ≡ ok values

  -- Let a row of literals, each of the type that it says, pass the checks of INSERT, its numbers be
  -- of 64 bits and its texts encode to at most 65535 bytes, and let the record of the row have 1 to
  -- `MAX_RECORD_SIZE` bytes. Then in a table without an index, whose heap file is open, valid and
  -- below 2^32 pages, the step of INSERT on the row raises nothing and changes nothing but the heap
  -- file: a cell that held no row now holds a record that decodes to the values, and the other
  -- cells are as they were.
  pub insert_row-StoredRow :
      (k : ℕ) (table : Text) (info : TableInfo) (columns : Option (List Text)) (exprs : List Expr)
      (values : List Value) (s : Database) (h : HeapFile)
      → Decodes py
      → All Typed exprs
      → resolve_row info columns exprs ≡ ok values
      → All (InRange py) values
      → ((rec : Bytes)
          → serialize_row py (column_types info) values ≡ ok rec
          → (0 < length rec) × (length rec ≤ max_record_size))
      → get table s.tables ≡ some h
      → IsValid crc32 k h
      → k < 2 ^ 32
      → (id : RowId) × (k' : ℕ) × (h' : HeapFile) × StoredRow k table info values s h id k' h'
  unfolding insert_row on_heap for_each get put
  insert_row-StoredRow k table info columns exprs values s h d t passes r sizes at v room =
      let (rec, encoded, decoded) =
        resolve_row-deserialize_row py info columns exprs values d t passes r in
      let (positive, small) = sizes rec encoded in
      let (id, k', h', call, inserted) = insert-Inserted crc32 k h rec v positive small room in
      (
        id,
        k',
        h',
        record {
          rec = rec;
          call = rw encoded (rw at (rw call refl));
          inserted = inserted;
          decoded = decoded;
        },
      )
