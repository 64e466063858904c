-- ===== src/Tests/Selects.antt =====
-- A SELECT on the table with one row.
use query_x_engine.Common.{
  ℕ, ◌-◌, ◌≡◌, refl, sym, true, none, some, List, [], ◌∷◌, arith, inl, inr, ok,
}
use mathlib.Core.Path.{subst}
use query_x_engine.Common.Int.{pos}
use query_x_engine.Common.Bytes.{Bytes, bytes_eq, read_from, slice}
use query_x_engine.Common.Bytes.Words.{of_pattern, of_le}
use query_x_engine.Common.Dict.{get, has, put}
use query_x_engine.Storage.Row.{Value, int, num, deserialize_row}
use query_x_engine.Storage.HeapFile.{HeapFile, RowId, row_of}
use query_x_engine.Storage.Page.Contents.{live}
use query_x_engine.Storage.HeapFile.Valid.{cells}
use query_x_engine.Storage.HeapFile.Scan as Scan
use query_x_engine.Sql.Ast.{Select, star}
use query_x_engine.Execution.Evaluate.{value, column_index}
use query_x_engine.Execution.Scans.{Decode}
use query_x_engine.Common.Sorting.{stable_sort, put_in}
use query_x_engine.Execution.Sort.{sort_rows}
use query_x_engine.Execution.Filter.{first_seen, is_seen}
use query_x_engine.Database.Rows.{validate_where}
use query_x_engine.Catalog.{get_table, has_column, any_named, column_names, column_types}
use query_x_engine.Planner.Optimizer.{sargable, choose_access_path}
use query_x_engine.Database.{Database, on_heap, on_catalog}
use query_x_engine.Database.Plan.{Source, names_of, seq_scan}
use query_x_engine.Database.Plan.Rows.{Produces}
use query_x_engine.Database.Select.{build_scan, select, order_items}
use query_x_engine.Database.Select.Rows.{table-Produces, select-star, limit_rows, distinct_rows}
use query_x_engine.Tests.Pagers.{crc}
use query_x_engine.Tests.Plans.{numbers}
use query_x_engine.Tests.Databases.{as_is, users, info, with_heap, five_bytes, one_row}

abbrev source : Source
source = record { table = users; names = (97 ∷ []) ∷ []; types = int ∷ [] }

abbrev values : List (List Value)
values = (num (pos 5) ∷ []) ∷ []

only_row :
    (k : ℕ) (h : HeapFile) (r : Bytes)
    → k ≡ 2
    → cells h 1 ≡ some r ∷ []
    → Scan.rows crc k h ≡ (record { page_no = 1; slot = 0 }, r) ∷ []
unfolding Scan.rows_from live row_of
only_row k h r e c = let one_page : k - 1 ≡ 1 = omega (arith, e) in rw one_page (rw c refl)

scanned : Scan.rows crc one_row.1 one_row.2 ≡ (record { page_no = 1; slot = 0 }, five_bytes) ∷ []
scanned = elim one_row.4.grows [
  | inl e ↦ absurd (omega (arith, e, one_row.4.page.0, one_row.4.page.1))
  | inr (e, c) ↦ only_row one_row.1 one_row.2 five_bytes e c
]

read : deserialize_row as_is (int ∷ []) five_bytes ≡ ok (num (pos 5) ∷ [])
unfolding deserialize_row read_from of_pattern of_le slice
read = refl

decoded : Decode as_is (int ∷ []) (Scan.rows crc one_row.1 one_row.2) values
decoded =
    subst (λ (items : List (RowId × Bytes)). Decode as_is (int ∷ []) items values) (sym scanned)
      (read, tt)

produced :
    Produces as_is crc 9 (seq_scan source) (with_heap one_row.2) ((value (num (pos 5)) ∷ []) ∷ [])
produced =
    table-Produces as_is crc 9 one_row.1 source (with_heap one_row.2) one_row.2 values
      (unfold get bytes_eq in refl) one_row.4.valid decoded

table-Produces_example :
    Produces as_is crc 9 (seq_scan source) (with_heap one_row.2) ((value (num (pos 5)) ∷ []) ∷ [])
table-Produces_example =
    table-Produces as_is crc 9 one_row.1 source (with_heap one_row.2) one_row.2 values
      (unfold get bytes_eq in refl) one_row.4.valid decoded

abbrev query : Select
query = record {
  table = users;
  projections = star ∷ [];
  distinct = true;
  where_expr = none;
  group_by = none;
  having = none;
  order_by = some (record { column = 97 ∷ []; descending = true } ∷ []);
  limit = some (pos 3);
  table_alias = none;
  join = none;
}

built :
    build_scan as_is crc numbers info users none (with_heap one_row.2)
    ≡ (ok (seq_scan source), with_heap one_row.2)
unfolding build_scan has bytes_eq sargable get_table get on_heap choose_access_path column_names
    column_types put
built = refl

ordered :
    sort_rows
      (column_index source.names)
      (record { column = 97 ∷ []; descending = true } ∷ [])
      ((value (num (pos 5)) ∷ []) ∷ [])
    ≡ ok ((value (num (pos 5)) ∷ []) ∷ [])
unfolding sort_rows column_index get bytes_eq has put stable_sort put_in
ordered = refl

select-star_example :
    (d2 : Database) × (select as_is crc 9 numbers query (with_heap one_row.2)
      ≡ (ok (record { columns = source.names; rows = (value (num (pos 5)) ∷ []) ∷ [] }), d2))
unfolding on_catalog get_table validate_where order_items has_column any_named bytes_eq names_of
    limit_rows distinct_rows first_seen is_seen
select-star_example =
    select-star as_is crc 9 numbers query info (with_heap one_row.2) (with_heap one_row.2)
      (seq_scan source) source.names ((value (num (pos 5)) ∷ []) ∷ [])
      ((value (num (pos 5)) ∷ []) ∷ []) refl refl refl (unfold get bytes_eq in refl)
      (unfold get in refl) (unfold get in refl) built refl produced ordered (omega arith)
