-- ===== src/Catalog/Indexes.antt =====
-- What the catalog's methods on indexes keep.
use query_x_engine.Common.{
  ℕ, ◌≡◌, refl, sym, ap, ◌∙◌, not, ◌||◌, some, arith, Bool-cases, Option-cases, inl, inr,
}
use query_x_engine.Common.Bytes.{bytes_eq, bytes_eq→eq}
use query_x_engine.Common.Dict.{
  get, has, put, del, Each-put, Each-del, Each-get, DistinctKeys-put, DistinctKeys-del,
  get-put_same, get-put_other, get-del,
}
use query_x_engine.Storage.Row.{Text}
use query_x_engine.Catalog.{
  Catalog, IndexInfo, has_column, create_index, drop_index, is_kind, save, set_index_stats,
  get_table, get_index, or_catalog_error,
}
use query_x_engine.Catalog.Valid.{IsOn, IsValid, IndexNamed, IsOn-same, after_save, some-injective}

pub drop_index-IsValid : (name : Text) (s : Catalog) → IsValid s → IsValid (drop_index name s).1
unfolding drop_index save
drop_index-IsValid name s v = elim (Bool-cases (has name s.indexes)) [
  | inl e ↦
      let indexes = Each-del IndexNamed name s.indexes v.indexes_named in
      rw e (record {
        distinct = DistinctKeys-del name s.indexes v.distinct;
        tables_named = v.tables_named;
        indexes_named = indexes;
        on_table = λ n i h. IsOn-same (v.on_table n i (get-del name n i s.indexes h)) refl;
        saved = after_save s.tables (del name s.indexes) s.file v.tables_named indexes;
      })
  | inr e ↦ rw e v
]

-- an index that is put on a table and column that are there
put_index-IsValid :
    (name : Text) (i : IndexInfo) (s : Catalog)
    → IsValid s
    → i.name ≡ name
    → IsOn s i
    → IsValid (save (record s { indexes = put name i s.indexes })).1
unfolding save
put_index-IsValid name i s v e on =
    let indexes = Each-put IndexNamed name i s.indexes e v.indexes_named in
    record {
      distinct = DistinctKeys-put name i s.indexes v.distinct;
      tables_named = v.tables_named;
      indexes_named = indexes;
      on_table = λ n j h. elim (Bool-cases (bytes_eq name n)) [
        | inl f ↦
            let found : get n (put name i s.indexes) ≡ some i =
              ap (λ x. get x (put name i s.indexes)) (sym (bytes_eq→eq name n f))
              ∙ get-put_same name i s.indexes in
            rw (some-injective (sym h ∙ found)) (IsOn-same on refl)
        | inr f ↦ IsOn-same (v.on_table n j (sym (get-put_other name n i s.indexes f) ∙ h)) refl
      ];
      saved = after_save s.tables (put name i s.indexes) s.file v.tables_named indexes;
    }

pub create_index-IsValid :
    (name table column kind : Text) (s : Catalog)
    → IsValid s
    → IsValid (create_index name table column kind s).1
unfolding create_index get_table or_catalog_error
create_index-IsValid name table column kind s v =
    elim (Bool-cases (has name s.indexes || not (is_kind kind))) [
      | inl e ↦ rw e v
      | inr e ↦ elim (Option-cases (get table s.tables)) [
        | inl f ↦ rw (e, f) v
        | inr (info, f) ↦ elim (Bool-cases (has_column info column)) [
          | inl h ↦
              rw (e, f, h)
                (put_index-IsValid name _ s v refl
                  (record { table = info; there = f; column = h; kind = ground (arith, e) }))
          | inr h ↦ rw (e, f, h) v
        ]
      ]
    ]

pub set_index_stats-IsValid :
    (name : Text) (n_distinct : ℕ) (s : Catalog)
    → IsValid s
    → IsValid (set_index_stats name n_distinct s).1
unfolding set_index_stats get_index or_catalog_error
set_index_stats-IsValid name n_distinct s v = elim (Option-cases (get name s.indexes)) [
  | inl f ↦ rw f v
  | inr (info, f) ↦
      let on = v.on_table name info f in
      rw f (
        put_index-IsValid name (record info { n_distinct = some n_distinct }) s v
          (Each-get IndexNamed name info s.indexes v.indexes_named f)
          (record { table = on.table; there = on.there; column = on.column; kind = on.kind }))
]
