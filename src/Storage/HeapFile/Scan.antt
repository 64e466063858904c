-- ===== src/Storage/HeapFile/Scan.antt =====
-- The scan of a heap file: what its generator yields.
use query_x_engine.Common.{
  ℕ, zero, suc, ◌+◌, ◌-◌, ◌≤◌, ◌≡◌, refl, ◌∙◌, List, [], ◌++◌, map, arith, ok,
}
use query_x_engine.Common.Bytes.{Bytes}
use query_x_engine.Storage.Page.Contents.{live, records-live}
use query_x_engine.Storage.Pager.Valid.{IsData, num_pages-valid}
use query_x_engine.Storage.BufferPool.Valid.{view}
use query_x_engine.Storage.HeapFile.{HeapFile, RowId, row_of, scan_from, scan}
use query_x_engine.Storage.HeapFile.Valid.{
  cells, IsValid, Unchanged, Unchanged-refl, read_page-Unchanged,
}

module _ (crc32 : Bytes → ℕ) where
  -- the rows on `left` pages from page `n` on: the cells that hold a record, in the order of the
  -- pages and then of the slots
  unfoldable pub rows_from : HeapFile → ℕ → ℕ → List (RowId × Bytes)
  rows_from s n zero = []
  rows_from s n (suc left) = map (row_of crc32 n) (live 0 (cells s n)) ++ rows_from s (n + 1) left

  -- the rows of a file of `k` pages
  abbrev pub rows : ℕ → HeapFile → List (RowId × Bytes)
  rows k s = rows_from s 1 (k - 1)

  rows_from_same :
      (s s' : HeapFile) (n left : ℕ)
      → ((m : ℕ) → cells s' m ≡ cells s m)
      → rows_from s' n left ≡ rows_from s n left
  unfolding rows_from
  rows_from_same s s' n zero h = refl
  rows_from_same s s' n (suc left) h = rw (h n) (rw (rows_from_same s s' (n + 1) left h) refl)

  scan_from-rows :
      (k n left : ℕ) (s : HeapFile)
      → IsValid crc32 k s
      → 1 ≤ n
      → n + left ≤ k
      → (s' : HeapFile) × (scan_from crc32 n left s ≡ (ok (rows_from s n left), s'))
        × Unchanged crc32 k s s'
  unfolding scan_from rows_from cells
  scan_from-rows k n zero s v low high = (s, refl, Unchanged-refl crc32 k s v)
  scan_from-rows k n (suc left) s v low high =
      let inside : IsData k n = (low, omega arith) in
      let (p1, call, u) = read_page-Unchanged crc32 k s n v inside in
      let s1 : HeapFile = record s { pool = p1 } in
      let (s2, rest, w) = scan_from-rows k (n + 1) left s1 u.valid (omega arith) (omega arith) in
      (
        s2,
        rw call (
            rw (records-live (view s.pool n) (v.pages n inside))
              (rw rest (rw (rows_from_same s s1 (n + 1) left u.same) refl))),
        record { valid = w.valid; same = λ m. w.same m ∙ u.same m },
      )

  -- On a valid heap file `scan` raises nothing and yields exactly the rows that are not deleted,
  -- each with its row identifier, in the order of the pages and of their slots. No row changes, and
  -- the file stays valid.
  pub scan-rows :
      (k : ℕ) (s : HeapFile)
      → IsValid crc32 k s
      → (s' : HeapFile) × (scan crc32 s ≡ (ok (rows k s), s')) × Unchanged crc32 k s s'
  unfolding scan
  scan-rows k s v =
      let (s', call, u) =
        scan_from-rows k 1 (k - 1) s v (omega arith) (omega (arith, v.pool.pager.some_page)) in
      (s', rw (num_pages-valid crc32 v.pool.pager) call, u)
