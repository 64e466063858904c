-- ===== src/Tests/Pools.antt =====
-- A pool that holds one clean page, and a tree whose root is stored there.
use query_x_engine.Common.{
  All, List, ok, ℕ, ◌≡◌, refl, sym, true, false, none, some, [], ◌∷◌, arith, ◌==◌, ==_iff,
  Bool-cases, inl, inr,
}
use query_x_engine.Storage.OrderedDict.{lookup}
use query_x_engine.Storage.Page
use query_x_engine.Storage.Page.{Page, page_size}
use query_x_engine.Storage.Page.Empty.{length-empty}
use query_x_engine.Storage.Pager.{contains}
use query_x_engine.Storage.BufferPool.{BufferPool}
use query_x_engine.Storage.BufferPool.Valid.{IsValid, Evicted, evict_one-Evicted}
use query_x_engine.Common.Int.{ℤ, pos, negsuc}
use query_x_engine.Storage.HeapFile.{RowId}
use query_x_engine.Index.BTree.{BPlusTree}
use query_x_engine.Index.BTree.RoundTrip.{leaf_node}
use query_x_engine.Index.BTree.Codes.{Fits}
use query_x_engine.Index.BTree.Search.{rows_of}
use query_x_engine.Index.BTree.Pages.{insert, search_pages}
use query_x_engine.Index.BTree.OneLeaf.{lone, insert-search_pages}
use query_x_engine.Index.BTree.Stored.{Stored, store-Stored}
use query_x_engine.Tests.Pagers.{crc, one_page}

abbrev pool : BufferPool
pool = record {
  pager = one_page.1.1.0;
  capacity = 1;
  cache = (one_page.0, Page.empty) ∷ [];
  dirty = [];
  hits = 0;
  misses = 0;
}

-- the only page in the cache
only :
    (n : ℕ) (page : Page) → lookup n pool.cache ≡ some page → (n ≡ one_page.0) × (page ≡ Page.empty)
unfolding lookup
only n page h = elim (Bool-cases (one_page.0 == n)) [
  | inl e ↦
      let found : some Page.empty ≡ some page = rw (e, lookup) at h in
      (sym ((==_iff one_page.0 n).0 e), cc)
  | inr e ↦ let found : none ≡ some page = rw (e, lookup) at h in cc
]

pool-IsValid : IsValid crc one_page.1.0 pool
unfolding contains lookup
pool-IsValid = record {
  pager = one_page.1.1.1.valid;
  positive = omega arith;
  sized = omega arith;
  keys = (refl, tt);
  cached =
      λ n page h. let (a, b) = only n page h in rw (a, b) (one_page.1.1.1.number, length-empty);
  dirty_cached = λ n h. absurd (false≢true h);
  clean = λ n page h c. let (a, b) = only n page h in rw (a, b) one_page.1.1.1.empty;
}
  where
    false≢true : false ≡ true → ⊥
    false≢true h = cc

evict_one-Evicted_example : (s' : BufferPool) × Evicted crc one_page.1.0 pool [] s'
evict_one-Evicted_example =
    evict_one-Evicted crc one_page.1.0 pool one_page.0 Page.empty [] pool-IsValid refl

-- a tree whose root is the leaf with these entries
abbrev entries : List (ℤ × RowId)
entries =
    (negsuc 3, record { page_no = 1; slot = 0 }) ∷ (pos 8, record { page_no = 2; slot = 5 }) ∷ []

entries-Fits : All Fits entries
entries-Fits =
    ((omega arith, omega arith, omega arith), ((omega arith, omega arith, omega arith), tt))

store-Stored_example : (s' : BufferPool) × Stored crc one_page.1.0 pool (lone one_page.0 entries) s'
store-Stored_example =
    store-Stored crc one_page.1.0 pool (lone one_page.0 entries) pool-IsValid one_page.1.1.1.number
      (leaf_node entries entries-Fits (omega arith) (omega arith))

abbrev planted : (s' : BufferPool) × Stored crc one_page.1.0 pool (lone one_page.0 entries) s'
planted =
    store-Stored crc one_page.1.0 pool (lone one_page.0 entries) pool-IsValid one_page.1.1.1.number
      (leaf_node entries entries-Fits (omega arith) (omega arith))

abbrev tree : BPlusTree BufferPool
tree = record { nodes = planted.0; max_keys = 4; root = one_page.0 }

abbrev new_row : RowId
new_row = record { page_no = 3; slot = 1 }

insert-search_pages_example :
    (p : BufferPool) × (p' : BufferPool) × (insert crc (pos 8) new_row tree
      ≡ (ok tt, record tree { nodes = p }))
    × IsValid crc one_page.1.0 p
    × (search_pages crc (pos 8) (record tree { nodes = p })
        ≡ (ok ((record { page_no = 2; slot = 5 }) ∷ new_row ∷ []), record tree { nodes = p' }))
unfolding rows_of
insert-search_pages_example =
    insert-search_pages crc one_page.1.0 tree (pos 8) (pos 8) new_row entries planted.1.valid
      one_page.1.1.1.number planted.1.held ((refl, tt), (tt, tt)) entries-Fits
      (omega arith, omega arith, omega arith) (omega arith) (omega arith)
