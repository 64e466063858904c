-- ===== src/Tests/Databases.antt =====
-- Statements on a table of one INT column.
use mathlib.Core.Path.{subst}
use query_x_engine.Common.{
  ap, set, ◌==◌, if◌then◌else◌, some, length, ◌<◌, ◌≤◌, ℕ, ◌≡◌, ◌^◌, refl, sym, ◌∙◌, true, none,
  List, [], ◌∷◌, arith, ok, raise, struct_error, query_error,
}
use query_x_engine.Common.Int.{pos}
use query_x_engine.Common.Bytes.{Bytes, bytes_eq}
use query_x_engine.Common.Bytes.Words.{pack_int, le_bytes, to_pattern}
use query_x_engine.Common.Dict.{get, has, put, keep}
use query_x_engine.Storage.Row.{
  ColumnType, Builtins, Text, Value, int, text, num, str, serialize_row,
}
use query_x_engine.Storage.HeapFile as Heap
use query_x_engine.Storage.HeapFile.{HeapFile, RowId, max_record_size}
use query_x_engine.Sql.Ast.{Expr, literal}
use query_x_engine.Catalog.{
  TableInfo, has_column, any_named, column_names, column_types, indexes_for_table,
}
use query_x_engine.Execution.Evaluate.{full_names}
use query_x_engine.Database.{Database, for_each, on_heap}
use query_x_engine.Database.Rows.{resolve_row, resolve_rows}
use query_x_engine.Database.Given.{Gives, resolve_row-Gives}
use query_x_engine.Database.Stored.{StoredRow, insert_row-StoredRow}
use query_x_engine.Storage.Row.RoundTrip.{Decodes}
use query_x_engine.Database.Dml.{insert, insert_row, update_row, assigned}
use query_x_engine.Database.Refused.{insert-unchanged}
use query_x_engine.Database.Writes.{IsOpen, insert-partial, update_row-lost}
use query_x_engine.Tests.Pagers.{crc}
use query_x_engine.Storage.HeapFile.Valid.{IsValid, cells}
use query_x_engine.Storage.HeapFile.Insert.{Outcome, insert-Inserted}
use query_x_engine.Tests.Heaps.{empty_heap, empty_heap-IsValid}

abbrev pub as_is : Builtins
as_is = record {
  encode = λ t. ok t;
  decode = λ b. ok b;
  parse_int = λ t. ok (pos 0);
  show_int = λ n. [];
}

abbrev pub users : Text
users = 117 ∷ []

abbrev pub info : TableInfo
info = record { name = users; columns = record { name = 97 ∷ []; type = int } ∷ []; row_count = 0 }

abbrev pub with_heap : HeapFile → Database
with_heap h = record {
  use_wal = true;
  catalog = record { tables = (users, info) ∷ []; indexes = []; file = none };
  tables = (users, h) ∷ [];
  indexes = [];
  table_files = [];
  index_files = [];
  advisor = record { min_uses = 5; equality = []; range = [] };
}

is_open : (h : HeapFile) → IsOpen users info (with_heap h)
unfolding get has bytes_eq
is_open h = record { info_of = refl; file_open = refl }

-- a number that fits, one that does not, and a string
abbrev five : Expr
five = literal (num (pos 5)) int

abbrev too_large : Value
too_large = num (pos (2 ^ 63))

resolved : resolve_row info none (five ∷ []) ≡ ok (num (pos 5) ∷ [])
unfolding resolve_row
resolved = refl

text_for_int : (values : List Value) → ¬ Gives info none (literal (str []) text ∷ []) values
text_for_int [] h = h
text_for_int (v ∷ []) h =
    let same : str [] ≡ v = ap value_of h.0 in let kinds : text ≡ int = ap type_of h.0 in cc
  where
    value_of : Expr → Value
    value_of (literal v t) = v
    value_of _ = str []

    type_of : Expr → ColumnType
    type_of (literal v t) = t
    type_of _ = text
text_for_int (v ∷ w ∷ values) h = h.1

insert-unchanged_example :
    insert as_is crc users none
      ((five ∷ []) ∷ (literal (str []) text ∷ []) ∷ [])
      (with_heap empty_heap)
    ≡ (raise query_error, with_heap empty_heap)
insert-unchanged_example =
    insert-unchanged as_is crc users none ((five ∷ []) ∷ []) (literal (str []) text ∷ []) [] info
      (with_heap empty_heap) (is_open empty_heap) text_for_int

-- a row that fits, one that does not, and another
abbrev exprs : List (List Expr)
exprs = (five ∷ []) ∷ (literal too_large int ∷ []) ∷ (five ∷ []) ∷ []

passes :
    resolve_rows info none exprs
    ≡ ok ((num (pos 5) ∷ []) ∷ (too_large ∷ []) ∷ (num (pos 5) ∷ []) ∷ [])
unfolding resolve_rows
passes = refl

not_encoded : serialize_row as_is (column_types info) (too_large ∷ []) ≡ raise struct_error
unfolding serialize_row column_types pack_int
not_encoded = refl

abbrev pub five_bytes : Bytes
five_bytes = 5 ∷ 0 ∷ 0 ∷ 0 ∷ 0 ∷ 0 ∷ 0 ∷ 0 ∷ []

encoded : serialize_row as_is (column_types info) (num (pos 5) ∷ []) ≡ ok five_bytes
unfolding serialize_row column_types pack_int le_bytes to_pattern
encoded = refl

-- two columns, and a column list that has them the other way round
abbrev pair : TableInfo
pair = record {
  name = users;
  columns = (record { name = 97 ∷ []; type = int }) ∷ (record { name = 98 ∷ []; type = text }) ∷ [];
  row_count = 0;
}

abbrev swapped : List Text
swapped = (98 ∷ []) ∷ (97 ∷ []) ∷ []

abbrev two : List Expr
two = literal (str (120 ∷ [])) text ∷ five ∷ []

pair_resolved : resolve_row pair (some swapped) two ≡ ok (num (pos 5) ∷ str (120 ∷ []) ∷ [])
unfolding resolve_row has_column any_named get bytes_eq
pair_resolved = refl

resolve_row-Gives_example : Gives pair (some swapped) two (num (pos 5) ∷ str (120 ∷ []) ∷ [])
resolve_row-Gives_example =
    resolve_row-Gives pair (some swapped) two (num (pos 5) ∷ str (120 ∷ []) ∷ []) pair_resolved

as_is-Decodes : Decodes as_is
as_is-Decodes s b e = sym e

ok-injective : {x y : Bytes} → ok x ≡ ok y → x ≡ y
ok-injective h = ground (arith, h)

insert_row-StoredRow_example :
    (id : RowId) × (k' : ℕ) × (h' : HeapFile) × StoredRow as_is crc 1 users info
      (num (pos 5) ∷ [])
      (with_heap empty_heap)
      empty_heap
      id
      k'
      h'
insert_row-StoredRow_example =
    insert_row-StoredRow as_is crc 1 users info none (five ∷ []) (num (pos 5) ∷ [])
      (with_heap empty_heap) empty_heap as_is-Decodes (tt, tt) resolved (omega arith, tt) sizes
      (unfold get bytes_eq in refl) empty_heap-IsValid (omega arith)
  where
    sizes :
        (rec : Bytes)
        → serialize_row as_is (column_types info) (num (pos 5) ∷ []) ≡ ok rec
        → (0 < length rec) × (length rec ≤ max_record_size)
    sizes rec e =
        let same : five_bytes ≡ rec = ok-injective (sym encoded ∙ e) in
        subst (λ (r : Bytes). (0 < length r) × (length r ≤ max_record_size)) same
          (omega arith, omega arith)

-- the heap file with the first row
abbrev pub one_row : Outcome crc 1 empty_heap five_bytes (Heap.insert crc five_bytes empty_heap)
one_row =
    insert-Inserted crc 1 empty_heap five_bytes empty_heap-IsValid (omega arith) (omega arith)
      (omega arith)

abbrev after_one : Database
after_one = record (with_heap empty_heap) {
  tables = put users one_row.2 (with_heap empty_heap).tables;
}

first_stored :
    for_each
      (insert_row as_is crc users info (indexes_for_table users (with_heap empty_heap).catalog))
      ((num (pos 5) ∷ []) ∷ [])
      (with_heap empty_heap)
    ≡ (ok tt, after_one)
unfolding for_each insert_row on_heap get bytes_eq indexes_for_table keep
first_stored = rw encoded (rw one_row.3 refl)

insert-partial_example :
    (insert as_is crc users none exprs (with_heap empty_heap) ≡ (raise struct_error, after_one))
    × (after_one.catalog ≡ (with_heap empty_heap).catalog)
insert-partial_example =
    insert-partial as_is crc users none exprs info (with_heap empty_heap) after_one struct_error
      ((num (pos 5) ∷ []) ∷ []) ((num (pos 5) ∷ []) ∷ []) (too_large ∷ []) (is_open empty_heap)
      passes first_stored not_encoded

new_row :
    assigned as_is crc
      (full_names 0 (column_names info) [])
      ((97 ∷ [], too_large) ∷ [])
      (num (pos 5) ∷ [])
    ≡ ok (too_large ∷ [])
unfolding assigned full_names column_names put get bytes_eq
new_row = refl

update_row-lost_example :
    (h' : HeapFile) × (update_row as_is crc users info []
        ((97 ∷ [], too_large) ∷ [])
        (one_row.0, num (pos 5) ∷ [])
        (with_heap one_row.2)
      ≡ (
        raise struct_error,
        record (with_heap one_row.2) { tables = put users h' (with_heap one_row.2).tables },
      ))
    × IsValid crc one_row.1 h'
    × ((n : ℕ)
        → cells h' n ≡ (
            if n == one_row.0.page_no
            then set (cells one_row.2 n) one_row.0.slot none
            else cells one_row.2 n))
update_row-lost_example =
    update_row-lost as_is crc one_row.1 users info [] ((97 ∷ [], too_large) ∷ []) one_row.0
      (num (pos 5) ∷ []) (too_large ∷ []) (with_heap one_row.2) one_row.2 five_bytes struct_error
      (unfold get bytes_eq in refl) one_row.4.valid one_row.4.page one_row.4.self new_row
      not_encoded
