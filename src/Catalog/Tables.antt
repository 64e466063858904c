-- ===== src/Catalog/Tables.antt =====
-- What the catalog's methods on tables keep.
use query_x_engine.Common.{
  none, ◌≡◌, refl, sym, ap, ◌∙◌, not, ◌||◌, some, List, [], arith, Bool-cases, Option-cases, inl,
  inr,
}
use query_x_engine.Common.Int.{ℤ, pos, pos_part, ◌+ℤ◌}
use query_x_engine.Common.Bytes.{bytes_eq, bytes_eq→eq}
use query_x_engine.Common.Dict.{
  get, has, put, del, keep, Each-put, Each-keep, Each-del, Each-get, DistinctKeys-keep,
  bytes_eq_sym, get-put_same, get-put_other, get-keep, get-del_other, has-get,
}
use query_x_engine.Storage.Row.{Text}
use query_x_engine.Catalog.{
  Catalog, TableInfo, IndexInfo, ColumnInfo, has_column, any_named, create_table, drop_table, save,
  add_row_count, get_table, or_catalog_error, is_empty, duplicate_from,
}
use query_x_engine.Catalog.Valid.{
  IsOn, IsValid, TableNamed, IndexNamed, IsOn-same, after_save, get-put_absent, some-injective,
  not-true,
}

pub create_table-IsValid :
    (name : Text) (columns : List ColumnInfo) (s : Catalog)
    → IsValid s
    → IsValid (create_table name columns s).1
unfolding create_table save
create_table-IsValid name columns s v =
    elim (Bool-cases (has name s.tables || is_empty columns || duplicate_from [] columns)) [
      | inl e ↦ rw e v
      | inr e ↦
          let new = put name (record { name = name; columns = columns; row_count = 0 }) s.tables in
          let named = Each-put TableNamed name _ s.tables refl v.tables_named in
          let absent : get name s.tables ≡ none = has-get name s.tables (ground (arith, e)) in
          rw e (record {
            distinct = v.distinct;
            tables_named = named;
            indexes_named = v.indexes_named;
            on_table = λ n i h.
                let on = v.on_table n i h in
                IsOn-same on (get-put_absent name i.table _ s.tables absent on.table on.there);
            saved = after_save new s.indexes s.file named v.indexes_named;
          })
    ]

pub drop_table-IsValid : (name : Text) (s : Catalog) → IsValid s → IsValid (drop_table name s).1
unfolding drop_table save
drop_table-IsValid name s v = elim (Bool-cases (has name s.tables)) [
  | inl e ↦
      let kept = λ (i : IndexInfo). not (bytes_eq i.table name) in
      let tables = Each-del TableNamed name s.tables v.tables_named in
      let indexes = Each-keep IndexNamed kept s.indexes v.indexes_named in
      rw e (record {
        distinct = DistinctKeys-keep kept s.indexes v.distinct;
        tables_named = tables;
        indexes_named = indexes;
        on_table = λ n i h.
            let (there, passed) = get-keep kept n i s.indexes v.distinct h in
            IsOn-same (v.on_table n i there) (
              get-del_other name i.table s.tables
                (bytes_eq_sym name i.table ∙ not-true (bytes_eq i.table name) passed));
        saved = after_save (del name s.tables) (keep kept s.indexes) s.file tables indexes;
      })
  | inr e ↦ rw e v
]

-- A table that keeps its columns keeps its indexes.
IsOn-counted :
    (name : Text) (t info : TableInfo) (s : Catalog) {s' : Catalog} {i : IndexInfo}
    → get name s.tables ≡ some info
    → t.columns ≡ info.columns
    → s'.tables ≡ put name t s.tables
    → IsOn s i
    → IsOn s' i
unfolding has_column
IsOn-counted name t info s {s'} {i} f e put_t on = elim (Bool-cases (bytes_eq name i.table)) [
  | inl g ↦
      let key = bytes_eq→eq name i.table g in
      let same : info ≡ on.table =
        some-injective (sym f ∙ ap (λ x. get x s.tables) key ∙ on.there) in
      record {
        table = t;
        there =
            ap (get i.table) put_t
            ∙ ap (λ x. get x (put name t s.tables)) (sym key)
            ∙ get-put_same name t s.tables;
        column = ap (any_named i.column) (e ∙ ap (λ (x : TableInfo). x.columns) same) ∙ on.column;
        kind = on.kind;
      }
  | inr g ↦ IsOn-same on (ap (get i.table) put_t ∙ get-put_other name i.table t s.tables g)
]

pub add_row_count-IsValid :
    (table : Text) (delta : ℤ) (s : Catalog) → IsValid s → IsValid (add_row_count table delta s).1
unfolding add_row_count get_table or_catalog_error save
add_row_count-IsValid table delta s v = elim (Option-cases (get table s.tables)) [
  | inl f ↦ rw f v
  | inr (info, f) ↦
      let t = record info { row_count = pos_part (pos info.row_count +ℤ delta) } in
      let name = Each-get TableNamed table info s.tables v.tables_named f in
      let named = Each-put TableNamed table t s.tables name v.tables_named in
      rw f (record {
        distinct = v.distinct;
        tables_named = named;
        indexes_named = v.indexes_named;
        on_table = λ n i h. IsOn-counted table t info s f refl refl (v.on_table n i h);
        saved = after_save (put table t s.tables) s.indexes s.file named v.indexes_named;
      })
]
