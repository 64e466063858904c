-- ===== src/Database/Keeps.antt =====
-- The loop of INSERT over the rows does not change the catalog.
use query_x_engine.Common.{
  ℕ, ◌≡◌, refl, ◌∙◌, List, [], ◌∷◌, ok, raise, Result, Bool-cases, Option-cases, inl, inr,
}
use query_x_engine.Common.Exec.{Exec, continue, lift, ◌>>=◌}
use query_x_engine.Common.Bytes.{Bytes}
use query_x_engine.Common.Dict.{get, has}
use query_x_engine.Storage.Row.{Builtins, Text, Value, serialize_row}
use query_x_engine.Storage.HeapFile as Heap
use query_x_engine.Storage.HeapFile.{HeapFile, RowId}
use query_x_engine.Storage.BufferPool.{BufferPool}
use query_x_engine.Index.HashIndex as Hashes
use query_x_engine.Index.HashIndex.{HashIndex}
use query_x_engine.Index.BTree.{BPlusTree}
use query_x_engine.Index.BTree.Pages as TreePages
use query_x_engine.Catalog as Names
use query_x_engine.Catalog.{TableInfo, IndexInfo, column_types, position}
use query_x_engine.Database.{
  Database, on_catalog, on_heap, on_index, open_index, index_insert, for_each, key_at, open_pool,
  contents_of, index_on_pool, hash_index, tree_index,
}
use query_x_engine.Database.Dml.{index_row, insert_row}

-- a call leaves the catalog as it was, whether it raises or not
abbrev pub Keeps : {A : Type 0} → Exec Database A → Type 0
Keeps m = (s : Database) → (m s).1.catalog ≡ s.catalog

bind-Keeps :
    {A B : Type 0} (m : Exec Database A) (f : A → Exec Database B)
    → Keeps m
    → ((a : A) → Keeps (f a))
    → Keeps (m >>= f)
bind-Keeps {A} {B} m f h g s = go (m s).0 (m s).1 ∙ h s
  where
    go : (r : Result A) (t : Database) → (continue r f t).1.catalog ≡ t.catalog
    go (raise e) t = refl
    go (ok a) t = g a t

lift-Keeps :
    {A B : Type 0} (r : Result A) (f : A → Exec Database B)
    → ((a : A) → Keeps (f a))
    → Keeps (lift r >>= f)
lift-Keeps r f g = bind-Keeps (lift r) f (λ s. refl) g

pub for_each-Keeps :
    {A : Type 0} (body : A → Exec Database (Unit {0}))
    → ((a : A) → Keeps (body a))
    → (xs : List A) → Keeps (for_each body xs)
unfolding for_each
for_each-Keeps body h [] s = refl
for_each-Keeps body h (a ∷ xs) s =
    bind-Keeps (body a) (λ _. for_each body xs) (h a) (λ _. for_each-Keeps body h xs) s

on_heap-Keeps : {A : Type 0} (table : Text) (m : Exec HeapFile A) → Keeps (on_heap table m)
unfolding on_heap
on_heap-Keeps table m s = elim (Option-cases (get table s.tables)) [
  | inl h ↦ rw (h, on_heap) refl
  | inr (x, h) ↦ rw (h, on_heap) refl
]

module _ (crc32 : Bytes → ℕ) where
  open_index-Keeps : (name : Text) → Keeps (open_index crc32 name)
  unfolding open_index on_catalog Names.get_index
  open_index-Keeps name s = elim (Bool-cases (has name s.indexes)) [
    | inl h ↦ rw h refl
    | inr h ↦ rw h (
        bind-Keeps (on_catalog (Names.get_index name)) _
          (λ t. unfold on_catalog Names.get_index in refl)
          (λ info t.
            lift-Keeps (open_pool crc32 t.use_wal (contents_of (get name t.index_files))) _
              (λ pool. lift-Keeps (index_on_pool crc32 info.kind pool) _ (λ index u. refl)) t)
          s)
  ]

  on_index-Keeps :
      {A : Type 0} (name : Text) (on_hash : Exec HashIndex A)
      (on_tree : Exec (BPlusTree BufferPool) A)
      → Keeps (on_index crc32 name on_hash on_tree)
  unfolding on_index
  on_index-Keeps name on_hash on_tree s =
      bind-Keeps (open_index crc32 name) _ (open_index-Keeps name)
        (λ _ t. elim (Option-cases (get name t.indexes)) [
          | inl h ↦ rw h refl
          | inr (hash_index i, h) ↦ rw h refl
          | inr (tree_index i, h) ↦ rw h refl
        ])
        s

module _ (py : Builtins) (crc32 : Bytes → ℕ) where
  index_row-Keeps :
      (info : TableInfo) (values : List Value) (id : RowId) (i : IndexInfo)
      → Keeps (index_row py crc32 info values id i)
  unfolding index_row index_insert
  index_row-Keeps info values id i = lift-Keeps (position info i.column) _ (λ at.
      lift-Keeps (key_at values at) _ (λ key.
        on_index-Keeps crc32 i.name (Hashes.insert crc32 key id) (TreePages.insert crc32 key id)))

  pub insert_row-Keeps :
      (table : Text) (info : TableInfo) (indexes : List IndexInfo) (values : List Value)
      → Keeps (insert_row py crc32 table info indexes values)
  unfolding insert_row
  insert_row-Keeps table info indexes values =
      lift-Keeps (serialize_row py (column_types info) values) _ (λ rec.
        bind-Keeps (on_heap table (Heap.insert crc32 rec)) _ (on_heap-Keeps table _) (λ id.
          for_each-Keeps (index_row py crc32 info values id) (index_row-Keeps info values id)
            indexes))
