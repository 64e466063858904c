-- ===== src/Database/Dml.antt =====
-- INSERT, DELETE and UPDATE of the class `Database` of queryx/database.py.
use query_x_engine.Common.{
  ℕ, zero, suc, ◌+◌, Bool, true, false, not, ◌&&◌, ◌||◌, Option, none, some, List, [], ◌∷◌, ◌++◌,
  map, length, set, get_elem?, ◌==◌, if◌then◌else◌, Result, ok, raise, query_error, type_error,
  key_error, index_error, catalog_error,
}
use query_x_engine.Common
use query_x_engine.Common.Exec.{Exec, pure, lift, gets, ◌>>=◌, ◌>>◌}
use query_x_engine.Common.Int.{pos, ◌-ℤ◌}
use query_x_engine.Common.Bytes.{Bytes}
use query_x_engine.Common.Dict.{get}
use query_x_engine.Storage.Row.{Builtins, Text, ColumnType, Value, serialize_row, deserialize_row}
use query_x_engine.Storage.HeapFile
use query_x_engine.Storage.HeapFile.{HeapFile, RowId, open_heap}
use query_x_engine.Catalog
use query_x_engine.Catalog.{
  Catalog, TableInfo, ColumnInfo, IndexInfo, column_types, column_names, position, has_column,
  indexes_for_table,
}
use query_x_engine.Sql.Ast.{Expr, Assignment}
use query_x_engine.Execution.Evaluate.{Row, value, evaluate, truth, full_names}
use query_x_engine.Database.Rows.{resolve_rows, validate_where, check_assignments}
use query_x_engine.Database.{
  Database, on_catalog, on_heap, key_at, for_each, open_table, index_insert, index_delete,
  flush_table,
}

module _ (py : Builtins) (crc32 : Bytes → ℕ) where
  -- the loop of `_insert` over the indexes of the table
  unfoldable pub index_row : TableInfo → List Value → RowId → IndexInfo → Exec Database (Unit {0})
  unfolding index_insert
  index_row table values id info = do
    at ← lift (position table info.column)
    key ← lift (key_at values at)
    index_insert crc32 info.name key id

  -- the body of the loop of `_insert` over the rows
  unfoldable pub insert_row :
      Text → TableInfo → List IndexInfo → List Value → Exec Database (Unit {0})
  unfolding on_heap index_row for_each
  insert_row table info indexes values = do
    rec ← lift (serialize_row py (column_types info) values)
    id ← on_heap table (HeapFile.insert crc32 rec)
    for_each (index_row info values id) indexes

  -- `_insert`
  unfoldable pub insert : Text → Option (List Text) → List (List Expr) → Exec Database ℕ
  unfolding on_catalog open_table insert_row for_each flush_table
  insert table columns rows = do
    info ← on_catalog (Catalog.get_table table)
    open_table crc32 table
    indexes ← gets (λ s. indexes_for_table table s.catalog)
    resolved ← lift (resolve_rows info columns rows)
    for_each (insert_row table info indexes) resolved
    on_catalog (Catalog.add_row_count table (pos (length resolved)))
    flush_table crc32 table
    pure (length resolved)

  -- `stmt.where is None or self._eval(...)`
  unfoldable pub holds : List (Text × ℕ) → Option Expr → Row → Result Bool
  holds index_of none row = ok true
  holds index_of (some e) row = Common.◌>>=◌ (evaluate e row index_of) (λ d. ok (truth d))

  -- the rows of a scan for which the predicate is true
  unfoldable pub matching :
      List ColumnType
      → List (Text × ℕ)
      → Option Expr
      → List (RowId × Bytes)
      → Result (List (RowId × List Value))
  unfolding holds
  matching types index_of where_expr [] = ok []
  matching types index_of where_expr ((id, rec) ∷ items) =
      let rest = matching types index_of where_expr items in
      Common.◌>>=◌ (deserialize_row py types rec) (λ row.
        Common.◌>>=◌ (holds index_of where_expr (map value row))
          (λ keep. Common.◌>>=◌ rest (λ more. ok (if keep then (id, row) ∷ more else more))))

  -- the rows that `_update` and `_delete` collect before they change anything
  unfoldable pub collect :
      Text → TableInfo → Option Expr → Exec Database (List (RowId × List Value))
  unfolding matching on_heap
  collect table info where_expr = do
    items ← on_heap table (HeapFile.scan crc32)
    lift (matching (column_types info) (full_names 0 (column_names info) []) where_expr items)

  -- the body of the loop of `_delete` over the indexes
  unfoldable pub unindex_row : TableInfo → List Value → RowId → IndexInfo → Exec Database (Unit {0})
  unfolding index_delete
  unindex_row table values id info = do
    at ← lift (position table info.column)
    key ← lift (key_at values at)
    _ ← index_delete crc32 info.name key id
    pure tt

  unfoldable pub delete_row :
      Text → TableInfo → List IndexInfo → RowId × List Value → Exec Database (Unit {0})
  unfolding on_heap unindex_row for_each
  delete_row table info indexes (id, row) = do
    _ ← on_heap table (HeapFile.delete crc32 id)
    for_each (unindex_row info row id) indexes

  -- `_delete`
  unfoldable pub delete : Text → Option Expr → Exec Database ℕ
  unfolding on_catalog open_table collect delete_row for_each flush_table
  delete table where_expr = do
    info ← on_catalog (Catalog.get_table table)
    lift (validate_where info where_expr)
    open_table crc32 table
    matches ← collect table info where_expr
    indexes ← gets (λ s. indexes_for_table table s.catalog)
    for_each (delete_row table info indexes) matches
    on_catalog (Catalog.add_row_count table (pos 0 -ℤ pos (length matches)))
    flush_table crc32 table
    pure (length matches)

  -- `new_row[index_of[a.column]] = a.value.value` for each assignment
  unfoldable pub assigned : List (Text × ℕ) → List (Text × Value) → List Value → Result (List Value)
  assigned index_of [] row = ok row
  assigned index_of ((name, v) ∷ rest) row = elim (get name index_of) [
    | none ↦ raise key_error
    | some i ↦ assigned index_of rest (set row i v)
  ]

  -- the loop of `_update` that re-points an index
  unfoldable pub repoint :
      TableInfo → List Value → RowId → List Value → RowId → IndexInfo → Exec Database (Unit {0})
  unfolding unindex_row index_row
  repoint table old id new new_id info = do
    unindex_row table old id info
    index_row table new new_id info

  -- the body of the loop of `_update` over the matches
  unfoldable pub update_row :
      Text
      → TableInfo
      → List IndexInfo
      → List (Text × Value)
      → RowId × List Value
      → Exec Database (Unit {0})
  unfolding assigned on_heap repoint for_each
  update_row table info indexes assignments (id, old) = do
    new ← lift (assigned (full_names 0 (column_names info) []) assignments old)
    _ ← on_heap table (HeapFile.delete crc32 id)
    rec ← lift (serialize_row py (column_types info) new)
    new_id ← on_heap table (HeapFile.insert crc32 rec)
    for_each (repoint info old id new new_id) indexes

  -- `_update`
  unfoldable pub update : Text → List Assignment → Option Expr → Exec Database ℕ
  unfolding on_catalog open_table collect update_row for_each flush_table
  update table assignments where_expr = do
    info ← on_catalog (Catalog.get_table table)
    values ← lift (check_assignments info assignments)
    lift (validate_where info where_expr)
    open_table crc32 table
    matches ← collect table info where_expr
    indexes ← gets (λ s. indexes_for_table table s.catalog)
    for_each (update_row table info indexes values) matches
    flush_table crc32 table
    pure (length matches)
