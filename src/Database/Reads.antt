-- ===== src/Database/Reads.antt =====
-- The reads of the class `Database` of queryx/database.py: the access path of a query, the rows that
-- an index gives for it, the adaptive indexing, and the storage layout.
use query_x_engine.Common.{
  ℕ, zero, suc, ◌+◌, ◌-◌, Bool, true, false, Option, none, some, List, [], ◌∷◌, ◌++◌, map, length,
  if◌then◌else◌, query_error, type_error, attribute_error,
}
use query_x_engine.Common.Exec.{Exec, pure, throw, lift, gets, modify, ◌>>=◌, ◌>>◌}
use query_x_engine.Common.Int.{ℤ, pos, eqb_ℤ, ◌+ℤ◌, ◌-ℤ◌}
use query_x_engine.Common.Bytes.{Bytes, bytes_eq}
use query_x_engine.Common.Dict.{put}
use query_x_engine.Storage.Row.{Builtins, Text, Value, num, str, deserialize_row}
use query_x_engine.Storage.Page
use query_x_engine.Storage.Pager
use query_x_engine.Storage.BufferPool.{flush_all}
use query_x_engine.Storage.HeapFile
use query_x_engine.Storage.HeapFile.{HeapFile, RowId}
use query_x_engine.Index.HashIndex
use query_x_engine.Index.HashIndex.{HashIndex}
use query_x_engine.Index.BTree.{Node}
use query_x_engine.Index.BTree.Pages as TreePages
use query_x_engine.Sql.Tokens.{TokenType, eq_token, lt_token, gt_token, lte_token, gte_token}
use query_x_engine.Sql.Ast.{Expr}
use query_x_engine.Catalog
use query_x_engine.Catalog.{
  TableInfo, IndexInfo, has_column, indexes_for_table, column_types, position, btree,
}
use query_x_engine.Planner.Sargable.{Condition}
use query_x_engine.Planner.Statistics.{Floats, TableStats}
use query_x_engine.Planner.Optimizer.{AccessPath, sargable, choose_access_path}
use query_x_engine.Planner.Advisor.{Recommendation, record_predicate, recommend, type_at, is_int}
use query_x_engine.Database.{
  Database, on_catalog, on_heap, key_at, open_table, open_index, on_index, index_insert,
}

-- `op in self._RANGE_OPS`
unfoldable pub is_range : TokenType → Bool
is_range lt_token = true
is_range gt_token = true
is_range lte_token = true
is_range gte_token = true
is_range _ = false

-- the loop of `_build_scan` that tells the advisor what the query filters on
unfoldable pub note_predicates : Text → TableInfo → List Condition → Exec Database (Unit {0})
unfolding is_range
note_predicates table info [] = pure tt
note_predicates table info (c ∷ conditions) =
    let more = note_predicates table info conditions in
    do
      if has_column info c.column
          then modify (λ s. record s {
            advisor = record_predicate table c.column (is_range c.op) s.advisor;
          })
          else pure tt
      more

-- `{i.column: i.n_distinct for i in indexes if i.n_distinct is not None}`
unfoldable pub known_distinct : List IndexInfo → List (Text × ℕ) → List (Text × ℕ)
known_distinct [] known = known
known_distinct (i ∷ indexes) known = elim i.n_distinct [
  | none ↦ known_distinct indexes known
  | some n ↦ known_distinct indexes (put i.column n known)
]

-- the layout of one page
pub record PageLayout : Type 0 where
  pub page : ℕ
  pub slots : ℕ
  pub live : ℕ
  pub free : ℤ

-- what `index_structure` returns beside the name and the kind
pub record TreeStructure : Type 0 where
  pub height : ℕ
  pub max_keys : ℕ
  pub levels : List (List Node)

module _ (crc32 : Bytes → ℕ) where
  unfoldable pub table_stats : Text → Exec Database TableStats
  unfolding on_catalog open_table
  table_stats table = do
    info ← on_catalog (Catalog.get_table table)
    open_table crc32 table
    pages ← on_heap table (gets (λ h. Pager.num_pages h.pool.pager))
    pure (record { row_count = info.row_count; num_data_pages = pages - 1 })

  unfoldable pub access_path : (f : Floats) → TableInfo → Option Expr → Exec Database (AccessPath f)
  unfolding table_stats known_distinct
  access_path f info where_expr = do
    indexes ← gets (λ s. indexes_for_table info.name s.catalog)
    stats ← table_stats info.name
    lift (choose_access_path f where_expr stats indexes (known_distinct indexes []))

  -- the start of `_build_scan`, up to the choice of the operator
  unfoldable pub plan_scan :
      (f : Floats) → TableInfo → Text → Option Expr → Exec Database (AccessPath f)
  unfolding access_path note_predicates open_table
  plan_scan f info table where_expr = do
    open_table crc32 table
    conditions ← lift (sargable where_expr)
    note_predicates table info conditions
    access_path f info where_expr

  unfoldable pub index_search : Text → ℤ → Exec Database (List RowId)
  unfolding on_index
  index_search name key =
      on_index crc32 name (HashIndex.search crc32 key) (TreePages.search_pages crc32 key)

  -- `[rid for _k, rid in index.range_scan(...)]`; a hash index has no such method
  unfoldable pub index_range : Text → Option ℤ → Option ℤ → Exec Database (List RowId)
  unfolding on_index
  index_range name low high = do
    entries ← on_index crc32 name (throw attribute_error) (TreePages.range_pages crc32 low high)
    pure (map (λ (e : ℤ × RowId). e.1) entries)

  -- `_rowids_for`, for an integer
  unfoldable pub rowids_by : Text → TokenType → ℤ → Exec Database (List RowId)
  unfolding index_search index_range
  rowids_by name eq_token n = index_search name n
  rowids_by name gt_token n = index_range name (some (n +ℤ pos 1)) none
  rowids_by name gte_token n = index_range name (some n) none
  rowids_by name lt_token n = index_range name none (some (n -ℤ pos 1))
  rowids_by name lte_token n = index_range name none (some n)
  rowids_by name _ n = throw query_error

  -- `_rowids_for`; a string raises, as it does not compare with an integer key. In a tree without a
  -- key nothing is compared, and some operators find nothing there; that is left out.
  unfoldable pub rowids_for : Text → TokenType → Value → Exec Database (List RowId)
  unfolding rowids_by
  rowids_for name op (num n) = rowids_by name op n
  rowids_for name op (str s) = throw type_error

  -- the loop of `page_layout`
  unfoldable pub layout_from : ℕ → ℕ → Exec HeapFile (List PageLayout)
  layout_from page_no zero = pure []
  layout_from page_no (suc left) = do
    page ← λ h. ((Pager.read_page page_no h.pool.pager).0, h)
    records ← lift (Page.records page)
    rest ← layout_from (page_no + 1) left
    pure (
        (record {
          page = page_no;
          slots = Page.num_slots page;
          live = length records;
          free = Page.free_space page;
        })
        ∷ rest)

  unfoldable pub page_layout : Text → Exec Database (List PageLayout)
  unfolding layout_from open_table
  page_layout table = do
    open_table crc32 table
    on_heap table (do pages ← gets (λ h. Pager.num_pages h.pool.pager); layout_from 1 (pages - 1))

  -- `index_structure`, for the name
  unfoldable pub index_structure : Text → Exec Database TreeStructure
  unfolding on_catalog on_index
  index_structure name = do
    info ← on_catalog (Catalog.get_index name)
    if bytes_eq info.kind btree then pure tt else throw query_error
    height ← on_index crc32 name (throw attribute_error) (TreePages.height_pages crc32)
    max_keys ← on_index crc32 name (throw attribute_error) (gets (λ t. t.max_keys))
    levels ← on_index crc32 name (throw attribute_error) (TreePages.node_levels crc32)
    pure (record { height = height; max_keys = max_keys; levels = levels })

module _ (py : Builtins) (crc32 : Bytes → ℕ) where
  -- the loop of `_create_index_impl` over the rows, which returns the distinct keys
  unfoldable pub add_key : ℤ → List ℤ → List ℤ
  add_key key [] = key ∷ []
  add_key key (k ∷ ks) = let rest = add_key key ks in if eqb_ℤ k key then k ∷ ks else k ∷ rest

  unfoldable pub index_rows :
      Text → TableInfo → ℕ → List (RowId × Bytes) → List ℤ → Exec Database (List ℤ)
  unfolding index_insert add_key
  index_rows name info at [] distinct = pure distinct
  index_rows name info at ((id, rec) ∷ items) distinct = do
    row ← lift (deserialize_row py (column_types info) rec)
    key ← lift (key_at row at)
    index_insert crc32 name key id
    index_rows name info at items (add_key key distinct)

  unfoldable pub create_index_impl : Text → Text → Text → Text → Exec Database (Unit {0})
  unfolding on_catalog type_at is_int open_index open_table on_heap index_rows
  create_index_impl name table column kind = do
    info ← on_catalog (Catalog.get_table table)
    type ← lift (type_at info column)
    if is_int type then pure tt else throw query_error
    _ ← on_catalog (Catalog.create_index name table column kind)
    open_index crc32 name
    open_table crc32 table
    at ← lift (position info column)
    items ← on_heap table (HeapFile.scan crc32)
    distinct ← index_rows name info at items []
    on_index crc32 name (HashIndex.on_pool (flush_all crc32)) (TreePages.flush crc32)
    on_catalog (Catalog.set_index_stats name (length distinct))

  -- CREATE INDEX makes a B+ tree
  unfoldable pub create_index : Text → Text → Text → Exec Database (Unit {0})
  unfolding create_index_impl
  create_index name table column = create_index_impl name table column btree

  -- `auto_{table}_{column}`
  unfoldable pub auto_name : Recommendation → Text
  auto_name r = (97 ∷ 117 ∷ 116 ∷ 111 ∷ 95 ∷ []) ++ r.table ++ (95 ∷ r.column)

  unfoldable pub create_recommended : List Recommendation → Exec Database (List Text)
  unfolding create_index_impl auto_name
  create_recommended [] = pure []
  create_recommended (r ∷ rest) = do
    there ← gets (λ s. Catalog.has_index (auto_name r) s.catalog)
    if there then create_recommended rest else (do
      create_index_impl (auto_name r) r.table r.column r.kind
      names ← create_recommended rest
      pure (auto_name r ∷ names))

  unfoldable pub apply_recommendations : Exec Database (List Text)
  unfolding create_recommended
  apply_recommendations = do
    found ← λ s. (recommend s.advisor s.catalog, s)
    create_recommended found
