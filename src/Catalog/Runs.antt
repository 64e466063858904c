-- ===== src/Catalog/Runs.antt =====
-- The catalogs that sequences of calls reach from a file that does not exist.
use query_x_engine.Common.{ℕ, ◌≡◌, refl, none, List}
use query_x_engine.Common.Int.{ℤ}
use query_x_engine.Common.Dict.{get}
use query_x_engine.Storage.Row.{Text}
use query_x_engine.Catalog.{
  Catalog, ColumnInfo, open_catalog, create_table, drop_table, add_row_count, create_index,
  drop_index, set_index_stats,
}
use query_x_engine.Catalog.Valid.{IsValid}
use query_x_engine.Catalog.Tables.{create_table-IsValid, drop_table-IsValid, add_row_count-IsValid}
use query_x_engine.Catalog.Indexes.{
  create_index-IsValid, drop_index-IsValid, set_index_stats-IsValid,
}

-- A call that raises is a step too.
pub data Reachable : Catalog → Type 0 where
  new : Reachable (open_catalog none)
  reopened : {s : Catalog} → Reachable s → Reachable (open_catalog s.file)
  created_table :
      {s : Catalog} (name : Text) (columns : List ColumnInfo)
      → Reachable s
      → Reachable (create_table name columns s).1
  dropped_table : {s : Catalog} (name : Text) → Reachable s → Reachable (drop_table name s).1
  counted :
      {s : Catalog} (table : Text) (delta : ℤ)
      → Reachable s
      → Reachable (add_row_count table delta s).1
  created_index :
      {s : Catalog} (name table column kind : Text)
      → Reachable s
      → Reachable (create_index name table column kind s).1
  dropped_index : {s : Catalog} (name : Text) → Reachable s → Reachable (drop_index name s).1
  measured :
      {s : Catalog} (name : Text) (n : ℕ) → Reachable s → Reachable (set_index_stats name n s).1

open_catalog-IsValid : IsValid (open_catalog none)
unfolding open_catalog get
open_catalog-IsValid = record {
  distinct = tt;
  tables_named = tt;
  indexes_named = tt;
  on_table = λ n i h. cc;
  saved = refl;
}

-- In a catalog that any sequence of calls reached, every index stands on a column of a table of
-- the catalog and has a known kind, the names of the indexes are distinct, each entry stands
-- under its own name, and the catalog's file reads back as the catalog.
pub Reachable-IsValid : (s : Catalog) → Reachable s → IsValid s
Reachable-IsValid _ new = open_catalog-IsValid
Reachable-IsValid _ (reopened {s} r) = let v = Reachable-IsValid s r in rw v.saved v
Reachable-IsValid _ (created_table {s} name columns r) =
    create_table-IsValid name columns s (Reachable-IsValid s r)
Reachable-IsValid _ (dropped_table {s} name r) = drop_table-IsValid name s (Reachable-IsValid s r)
Reachable-IsValid _ (counted {s} table delta r) =
    add_row_count-IsValid table delta s (Reachable-IsValid s r)
Reachable-IsValid _ (created_index {s} name table column kind r) =
    create_index-IsValid name table column kind s (Reachable-IsValid s r)
Reachable-IsValid _ (dropped_index {s} name r) = drop_index-IsValid name s (Reachable-IsValid s r)
Reachable-IsValid _ (measured {s} name n r) =
    set_index_stats-IsValid name n s (Reachable-IsValid s r)

-- A catalog that any sequence of calls reached is the one that its file is opened to.
pub open_catalog-file : (s : Catalog) → Reachable s → open_catalog s.file ≡ s
open_catalog-file s r = (Reachable-IsValid s r).saved
