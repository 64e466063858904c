-- ===== src/Database/Writes.antt =====
-- What INSERT and UPDATE leave where they raise.
use query_x_engine.Common.{
  ℕ, ◌≡◌, refl, sym, ap, ◌∙◌, true, Option, none, some, set, get_elem?, Result, if◌then◌else◌, ◌==◌,
  List, [], ◌∷◌, ◌++◌, ok, raise, Error, Result-cases, inl, inr,
}
use query_x_engine.Common.Exec.{Exec}
use query_x_engine.Common.Bytes.{Bytes}
use query_x_engine.Common.Dict.{get, has, put}
use query_x_engine.Storage.Row.{Builtins, Text, Value, serialize_row}
use query_x_engine.Storage.HeapFile as Heap
use query_x_engine.Storage.HeapFile.{HeapFile, RowId}
use query_x_engine.Storage.HeapFile.Valid
use query_x_engine.Storage.HeapFile.Valid.{cells}
use query_x_engine.Storage.HeapFile.Delete.{cells_without, reported, delete-Removed}
use query_x_engine.Storage.Pager.Valid.{IsData}
use query_x_engine.Catalog as Names
use query_x_engine.Catalog.{TableInfo, IndexInfo, column_types, column_names, indexes_for_table}
use query_x_engine.Sql.Ast.{Expr}
use query_x_engine.Execution.Evaluate.{full_names}
use query_x_engine.Database.{Database, on_catalog, on_heap, for_each, open_table}
use query_x_engine.Database.Rows.{resolve_rows}
use query_x_engine.Database.Keeps.{for_each-Keeps, insert_row-Keeps}
use query_x_engine.Database.Dml.{insert_row, insert, assigned, update_row}

raise-ok : {A : Type 0} {e : Error} {a : A} → raise e ≡ ok a → ⊥
raise-ok h = cc

-- a loop that raises at an element has done the elements before it
for_each_raise :
    {S A : Type 0} (body : A → Exec S (Unit {0})) (before : List A) (a : A) (after : List A)
    (s s1 s2 : S) (e : Error)
    → for_each body before s ≡ (ok tt, s1)
    → body a s1 ≡ (raise e, s2)
    → for_each body (before ++ (a ∷ after)) s ≡ (raise e, s2)
unfolding for_each
for_each_raise body [] a after s s1 s2 e h k =
    let same : s ≡ s1 = ap (λ x. x.1) h in rw same (rw k refl)
for_each_raise body (b ∷ before) a after s s1 s2 e h k = elim (Result-cases (body b s).0) [
  | inl (_, good) ↦
      rw good (for_each_raise body before a after (body b s).1 s1 s2 e (rw good at h) k)
  | inr (x, bad) ↦
      let clash : raise x ≡ ok tt = ap (λ r. r.0) (rw bad at h) in absurd (raise-ok clash)
]

-- The table is in the catalog and its file is open.
pub record IsOpen (table : Text) (info : TableInfo) (s : Database) : Type 0 where
  pub info_of : get table s.catalog.tables ≡ some info
  pub file_open : has table s.tables ≡ true

module _ (py : Builtins) (crc32 : Bytes → ℕ) where
  -- If every row of an INSERT into an open table of the catalog passes the checks, and the loop
  -- stores some of them, but the encoding of the next one raises, the statement raises that error
  -- and keeps what the loop has stored, while the catalog, and with it the row count of the table,
  -- is as it was before the statement.
  pub insert-partial :
      (table : Text) (columns : Option (List Text)) (rows : List (List Expr)) (info : TableInfo)
      (s s1 : Database) (e : Error) (before after : List (List Value)) (values : List Value)
      → IsOpen table info s
      → resolve_rows info columns rows ≡ ok (before ++ (values ∷ after))
      → for_each (insert_row py crc32 table info (indexes_for_table table s.catalog)) before s
        ≡ (ok tt, s1)
      → serialize_row py (column_types info) values ≡ raise e
      → (insert py crc32 table columns rows s ≡ (raise e, s1)) × (s1.catalog ≡ s.catalog)
  unfolding insert on_catalog Names.get_table Names.or_catalog_error open_table
  insert-partial table columns rows info s s1 e before after values o good stored bad =
      let stop : insert_row py crc32 table info (indexes_for_table table s.catalog) values s1
          ≡ (raise e, s1) =
        unfold insert_row in rw bad refl in
      let body = insert_row py crc32 table info (indexes_for_table table s.catalog) in
      let loop = for_each_raise body before values after s s1 s1 e stored stop in
      let kept =
        for_each-Keeps body
          (insert_row-Keeps py crc32 table info (indexes_for_table table s.catalog)) before s in
      (
        rw o.info_of (rw o.file_open (rw good (rw loop refl))),
        sym (ap (λ (r : Result (Unit {0}) × Database). r.1.catalog) stored) ∙ kept,
      )

  -- The step of UPDATE on a row of a valid heap file loses the row if the encoding of the new values
  -- raises: it raises that error, the cell of the old row is dead, and all other cells are as they
  -- were, so that the new values stand nowhere. The file stays valid, and the indexes and the
  -- catalog are as they were.
  pub update_row-lost :
      (k : ℕ) (table : Text) (info : TableInfo) (indexes : List IndexInfo)
      (assignments : List (Text × Value)) (id : RowId) (old new : List Value) (s : Database)
      (h : HeapFile) (rec : Bytes) (e : Error)
      → get table s.tables ≡ some h
      → Valid.IsValid crc32 k h
      → IsData k id.page_no
      → get_elem? (cells h id.page_no) id.slot ≡ some (some rec)
      → assigned py crc32 (full_names 0 (column_names info) []) assignments old ≡ ok new
      → serialize_row py (column_types info) new ≡ raise e
      → (h' : HeapFile) × (update_row py crc32 table info indexes assignments (id, old) s
          ≡ (raise e, record s { tables = put table h' s.tables }))
        × Valid.IsValid crc32 k h'
        × ((n : ℕ)
            → cells h' n ≡ (if n == id.page_no then set (cells h n) id.slot none else cells h n))
  unfolding update_row on_heap get put
  update_row-lost k table info indexes assignments id old new s h rec e at v inside live new_row
        bad =
      let (h', r) = delete-Removed crc32 k h id v inside in
      let gone : Heap.delete crc32 id h ≡ (ok true, h') =
        r.call ∙ ap (λ c. (reported c, h')) live in
      (
        h',
        rw new_row (rw at (rw gone (rw bad refl))),
        r.valid,
        λ n. r.rows n ∙ ap (λ c. cells_without h id c n) live,
      )
