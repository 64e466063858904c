-- ===== src/Catalog.antt =====
-- The class `Catalog` of queryx/catalog.py. `file` is the JSON document of the catalog's file, as
-- `json.dump` is given it and `json.load` returns it; `none` is a file that does not exist. The
-- dictionaries' values are objects that a caller may change: what a method changes in one is
-- written back to its dictionary.
pub mod Valid
pub mod Tables
pub mod Indexes
pub mod Runs
use query_x_engine.Common.{
  ℕ, zero, suc, ◌+◌, Bool, true, false, Option, none, some, List, [], ◌∷◌, map, not, ◌&&◌, ◌||◌,
  if◌then◌else◌, length, Result, ok, raise, catalog_error,
}
use query_x_engine.Common.Exec.{Exec, pure, throw, lift, gets, modify, ◌>>=◌, ◌>>◌}
use query_x_engine.Common.Int.{ℤ, pos, pos_part, ◌+ℤ◌}
use query_x_engine.Common.Bytes.{bytes_eq}
use query_x_engine.Common.Dict.{get, has, put, del, keep}
use query_x_engine.Storage.Row.{ColumnType, Text}

pub record ColumnInfo : Type 0 where
  pub name : Text
  pub type : ColumnType

pub record TableInfo : Type 0 where
  pub name : Text
  pub columns : List ColumnInfo
  pub row_count : ℕ

pub record IndexInfo : Type 0 where
  pub name : Text
  pub table : Text
  pub column : Text
  pub kind : Text
  pub n_distinct : Option ℕ

-- the entries of the JSON document
pub record TableEntry : Type 0 where
  pub columns : List (Text × ColumnType)
  pub row_count : ℕ

pub record IndexEntry : Type 0 where
  pub table : Text
  pub column : Text
  pub kind : Text
  pub n_distinct : Option ℕ

pub record Document : Type 0 where
  pub tables : List (Text × TableEntry)
  pub indexes : List (Text × IndexEntry)

pub record Catalog : Type 0 where
  pub tables : List (Text × TableInfo)
  pub indexes : List (Text × IndexInfo)
  pub file : Option Document

unfoldable pub column_names : TableInfo → List Text
column_names t = map (λ (c : ColumnInfo). c.name) t.columns

unfoldable pub column_types : TableInfo → List ColumnType
column_types t = map (λ (c : ColumnInfo). c.type) t.columns

unfoldable pub any_named : Text → List ColumnInfo → Bool
any_named name [] = false
any_named name (c ∷ cs) = bytes_eq c.name name || any_named name cs

unfoldable pub has_column : TableInfo → Text → Bool
has_column t name = any_named name t.columns

unfoldable pub position_from : Text → ℕ → List ColumnInfo → Result ℕ
position_from name i [] = raise catalog_error
position_from name i (c ∷ cs) =
    let rest = position_from name (i + 1) cs in if bytes_eq c.name name then ok i else rest

unfoldable pub position : TableInfo → Text → Result ℕ
position t name = position_from name 0 t.columns

-- the check with `seen`
unfoldable pub duplicate_from : List Text → List ColumnInfo → Bool
duplicate_from seen [] = false
duplicate_from seen (c ∷ cs) = is_in c.name seen || duplicate_from (c.name ∷ seen) cs
  where
    is_in : Text → List Text → Bool
    is_in name [] = false
    is_in name (n ∷ ns) = bytes_eq n name || is_in name ns

-- `_save`
unfoldable pub table_entry : TableInfo → TableEntry
table_entry t = record {
  columns = map (λ (c : ColumnInfo). (c.name, c.type)) t.columns;
  row_count = t.row_count;
}

unfoldable pub index_entry : IndexInfo → IndexEntry
index_entry i = record {
  table = i.table;
  column = i.column;
  kind = i.kind;
  n_distinct = i.n_distinct;
}

unfoldable pub document : Catalog → Document
unfolding table_entry index_entry
document s = record {
  tables = map (λ (t : Text × TableInfo). (t.0, table_entry t.1)) s.tables;
  indexes = map (λ (i : Text × IndexInfo). (i.0, index_entry i.1)) s.indexes;
}

unfoldable pub save : Exec Catalog (Unit {0})
unfolding document
save = modify (λ s. record s { file = some (document s) })

-- `_load`
unfoldable pub table_info : Text × TableEntry → Text × TableInfo
table_info (name, t) = (
  name,
  record {
    name = name;
    columns = map (λ (c : Text × ColumnType). record { name = c.0; type = c.1 }) t.columns;
    row_count = t.row_count;
  },
)

unfoldable pub index_info : Text × IndexEntry → Text × IndexInfo
index_info (name, i) = (
  name,
  record {
    name = name;
    table = i.table;
    column = i.column;
    kind = i.kind;
    n_distinct = i.n_distinct;
  },
)

-- `Catalog(path)`
unfoldable pub open_catalog : Option Document → Catalog
unfolding table_info index_info
open_catalog none = record { tables = []; indexes = []; file = none }
open_catalog (some d) = record {
  tables = map table_info d.tables;
  indexes = map index_info d.indexes;
  file = some d;
}

-- a lookup that turns a KeyError into a CatalogError
unfoldable pub or_catalog_error : {A : Type 0} → Option A → Result A
or_catalog_error none = raise catalog_error
or_catalog_error (some a) = ok a

abbrev is_empty : {A : Type 0} → List A → Bool
is_empty [] = true
is_empty (a ∷ l) = false

unfoldable pub create_table : Text → List ColumnInfo → Exec Catalog TableInfo
unfolding save
create_table name columns = do
  there ← gets (λ s. has name s.tables)
  if there || is_empty columns || duplicate_from [] columns then throw catalog_error else (do
    modify (λ s. record s {
      tables = put name (record { name = name; columns = columns; row_count = 0 }) s.tables;
    })
    save
    pure (record { name = name; columns = columns; row_count = 0 }))

unfoldable pub get_table : Text → Exec Catalog TableInfo
unfolding or_catalog_error
get_table name s = (or_catalog_error (get name s.tables), s)

unfoldable pub has_table : Text → Catalog → Bool
has_table name s = has name s.tables

-- `index_name` runs over the names of the indexes of the table, which are their keys
unfoldable pub drop_table : Text → Exec Catalog (Unit {0})
unfolding save
drop_table name = do
  there ← gets (λ s. has name s.tables)
  if there
      then (do
        modify (λ s. record s {
          tables = del name s.tables;
          indexes = keep (λ (i : IndexInfo). not (bytes_eq i.table name)) s.indexes;
        })
        save)
      else throw catalog_error

-- max(0, row_count + delta)
unfoldable pub add_row_count : Text → ℤ → Exec Catalog (Unit {0})
unfolding get_table save ◌+ℤ◌
add_row_count table delta = do
  info ← get_table table
  modify (λ s. record s {
    tables =
        put table (record info { row_count = pos_part (pos info.row_count +ℤ delta) }) s.tables;
  })
  save

abbrev pub btree : Text
btree = 98 ∷ 116 ∷ 114 ∷ 101 ∷ 101 ∷ []

abbrev pub hash : Text
hash = 104 ∷ 97 ∷ 115 ∷ 104 ∷ []

unfoldable pub is_kind : Text → Bool
is_kind kind = bytes_eq kind btree || bytes_eq kind hash

unfoldable pub create_index : Text → Text → Text → Text → Exec Catalog IndexInfo
unfolding get_table save is_kind
create_index name table column kind = do
  there ← gets (λ s. has name s.indexes)
  if there || not (is_kind kind) then throw catalog_error else (do
    info ← get_table table
    if has_column info column
        then (do
          modify (λ s. record s {
            indexes =
                put name
                  (record {
                    name = name;
                    table = table;
                    column = column;
                    kind = kind;
                    n_distinct = none;
                  })
                  s.indexes;
          })
          save
          pure (record {
            name = name;
            table = table;
            column = column;
            kind = kind;
            n_distinct = none;
          }))
        else throw catalog_error)

unfoldable pub get_index : Text → Exec Catalog IndexInfo
unfolding or_catalog_error
get_index name s = (or_catalog_error (get name s.indexes), s)

unfoldable pub has_index : Text → Catalog → Bool
has_index name s = has name s.indexes

unfoldable pub drop_index : Text → Exec Catalog (Unit {0})
unfolding save
drop_index name = do
  there ← gets (λ s. has name s.indexes)
  if there
      then (do modify (λ s. record s { indexes = del name s.indexes }); save)
      else throw catalog_error

unfoldable pub set_index_stats : Text → ℕ → Exec Catalog (Unit {0})
unfolding get_index save
set_index_stats name n_distinct = do
  info ← get_index name
  modify (λ s. record s {
    indexes = put name (record info { n_distinct = some n_distinct }) s.indexes;
  })
  save

unfoldable pub indexes_for_table : Text → Catalog → List IndexInfo
indexes_for_table table s =
    map (λ (i : Text × IndexInfo). i.1) (keep (λ (i : IndexInfo). bytes_eq i.table table) s.indexes)

unfoldable pub first_on : Text → Text → List (Text × IndexInfo) → Option IndexInfo
first_on table column [] = none
first_on table column ((name, i) ∷ rest) =
    let found = first_on table column rest in
    if bytes_eq i.table table && bytes_eq i.column column then some i else found

unfoldable pub index_on : Text → Text → Catalog → Option IndexInfo
unfolding first_on
index_on table column s = first_on table column s.indexes
