-- ===== src/Catalog/Valid.antt =====
-- The invariant of a catalog, and what its methods keep of it.
use query_x_engine.Common.{
  ◌≡◌, refl, sym, ap, ◌∙◌, Bool, true, false, not, Option, none, some, List, [], ◌∷◌, map, arith,
  Bool-cases, inl, inr,
}
use query_x_engine.Common.Bytes.{bytes_eq, bytes_eq→eq}
use query_x_engine.Common.Dict.{get, put, DistinctKeys, Each, get-put_other}
use query_x_engine.Storage.Row.{ColumnType, Text}
use query_x_engine.Catalog.{
  Catalog, TableInfo, IndexInfo, ColumnInfo, has_column, document, open_catalog, is_kind,
  table_info, table_entry, index_info, index_entry, Document,
}

-- an index stands on a column of a table of the catalog, and has one of the two kinds
pub record IsOn (s : Catalog) (i : IndexInfo) : Type 0 where
  pub table : TableInfo
  pub there : get i.table s.tables ≡ some table
  pub column : has_column table i.column ≡ true
  pub kind : is_kind i.kind ≡ true

abbrev pub TableNamed : Text → TableInfo → Type 0
TableNamed name t = t.name ≡ name

abbrev pub IndexNamed : Text → IndexInfo → Type 0
IndexNamed name i = i.name ≡ name

pub record IsValid (s : Catalog) : Type 0 where
  pub distinct : DistinctKeys s.indexes
  pub tables_named : Each TableNamed s.tables
  pub indexes_named : Each IndexNamed s.indexes
  pub on_table : (name : Text) (i : IndexInfo) → get name s.indexes ≡ some i → IsOn s i
  pub saved : open_catalog s.file ≡ s

columns-document :
    (cs : List ColumnInfo)
    → map
        (λ (c : Text × ColumnType). record { name = c.0; type = c.1 })
        (map (λ (c : ColumnInfo). (c.name, c.type)) cs)
      ≡ cs
columns-document [] = refl
columns-document (c ∷ cs) = rw (columns-document cs) refl

-- reading back what was written
tables-document :
    (d : List (Text × TableInfo))
    → Each TableNamed d
    → map table_info (map (λ (t : Text × TableInfo). (t.0, table_entry t.1)) d) ≡ d
unfolding table_info table_entry
tables-document [] h = refl
tables-document ((name, t) ∷ d) (h, hs) =
    rw (tables-document d hs) (
      rw (columns-document t.columns)
        (ap (λ (n : Text). (name, record t { name = n }) ∷ d) (sym h)))

indexes-document :
    (d : List (Text × IndexInfo))
    → Each IndexNamed d
    → map index_info (map (λ (i : Text × IndexInfo). (i.0, index_entry i.1)) d) ≡ d
unfolding index_info index_entry
indexes-document [] h = refl
indexes-document ((name, i) ∷ d) (h, hs) =
    rw (indexes-document d hs) (ap (λ (n : Text). (name, record i { name = n }) ∷ d) (sym h))

-- what `_save` leaves
pub after_save :
    (t : List (Text × TableInfo)) (i : List (Text × IndexInfo)) (f : Option Document)
    → Each TableNamed t
    → Each IndexNamed i
    → let s : Catalog = record { tables = t; indexes = i; file = f } in
      open_catalog (some (document s)) ≡ record s { file = some (document s) }
unfolding open_catalog document
after_save t i f ht hi = rw (tables-document t ht) (rw (indexes-document i hi) refl)

pub some-injective : {A : Type 0} {a b : A} → some a ≡ some b → a ≡ b
some-injective h = cc

pub IsOn-same :
    {s s' : Catalog} {i : IndexInfo}
    → IsOn s i
    → get i.table s'.tables ≡ get i.table s.tables
    → IsOn s' i
IsOn-same on e = record {
  table = on.table;
  there = e ∙ on.there;
  column = on.column;
  kind = on.kind;
}

pub not-true : (b : Bool) → not b ≡ true → b ≡ false
not-true b h = ground arith

-- A new key hides no other.
pub get-put_absent :
    (k j : Text) (v : TableInfo) (d : List (Text × TableInfo))
    → get k d ≡ none
    → (w : TableInfo) → get j d ≡ some w
    → get j (put k v d) ≡ get j d
get-put_absent k j v d h w e = elim (Bool-cases (bytes_eq k j)) [
  | inl f ↦ let gone : get j d ≡ none = ap (λ x. get x d) (sym (bytes_eq→eq k j f)) ∙ h in cc
  | inr f ↦ get-put_other k j v d f
]
