-- ===== src/Storage/HeapFile/Valid.antt =====
-- The invariant of a heap file and its rows, and the reads of them.
use query_x_engine.Common.{
  ℕ, ◌-◌, ◌≡◌, refl, ap, ◌∙◌, Option, none, some, List, [], ltb, if◌then◌else◌, Result, ok,
}
use query_x_engine.Common.Bytes.{Bytes}
use query_x_engine.Storage.Page.Valid as PageValid
use query_x_engine.Storage.Page.Layout.{contents}
use query_x_engine.Storage.Page.Contents.{cell_at, get_record-contents}
use query_x_engine.Storage.Pager.Valid.{IsData}
use query_x_engine.Storage.BufferPool.Valid.{view}
use query_x_engine.Storage.BufferPool.Valid as PoolValid
use query_x_engine.Storage.BufferPool.Pages.{get_page-view}
use query_x_engine.Storage.BufferPool.{BufferPool, get_page}
use query_x_engine.Storage.HeapFile.{HeapFile, RowId, get}

-- the cells of a page of the file: a record, or a deleted row
unfoldable pub cells : HeapFile → ℕ → List (Option Bytes)
cells s n = contents (view s.pool n)

-- what a row identifier leads to
unfoldable pub row_at : HeapFile → RowId → Result (Option Bytes)
row_at s id = cell_at (cells s id.page_no) id.slot

-- the last page of a file of `k` pages
abbrev pub last_of : ℕ → Option ℕ
last_of k = if ltb 1 k then some (k - 1) else none

module _ (crc32 : Bytes → ℕ) where
  -- A valid pool over a file without free pages, whose data pages are all valid slotted pages.
  pub record IsValid (k : ℕ) (s : HeapFile) : Type 0 where
    pub pool : PoolValid.IsValid crc32 k s.pool
    pub free_list : s.pool.pager.free_list ≡ []
    pub pages : (n : ℕ) → IsData k n → PageValid.IsValid (view s.pool n)
    pub last : s.last_page ≡ last_of k

  -- What a call that only reads leaves.
  pub record Unchanged (k : ℕ) (s s' : HeapFile) : Type 0 where
    pub valid : IsValid k s'
    pub same : (n : ℕ) → cells s' n ≡ cells s n

  pub Unchanged-refl : (k : ℕ) (s : HeapFile) → IsValid k s → Unchanged k s s
  Unchanged-refl k s v = record { valid = v; same = λ n. refl }

  -- the pool of the file after it has read a page
  pub read_page-Unchanged :
      (k : ℕ) (s : HeapFile) (n : ℕ)
      → IsValid k s
      → IsData k n
      → (p' : BufferPool) × (get_page crc32 n s.pool ≡ (ok (view s.pool n), p'))
        × Unchanged k s (record s { pool = p' })
  unfolding cells
  read_page-Unchanged k s n v inside =
      let (p', f) = get_page-view crc32 k s.pool n v.pool inside in
      (
        p',
        f.call,
        record {
          valid = record {
            pool = f.valid;
            free_list = f.free_list ∙ v.free_list;
            pages = λ m h. rw (f.same m) (v.pages m h);
            last = v.last;
          };
          same = λ m. ap contents (f.same m);
        },
      )

  -- On a valid heap file `get` of a row identifier with a page of the file returns the record, or
  -- None if the row was deleted, and raises `IndexError` exactly if there is no such slot. No row
  -- changes, and the file stays valid.
  pub get-row_at :
      (k : ℕ) (s : HeapFile) (id : RowId)
      → IsValid k s
      → IsData k id.page_no
      → (s' : HeapFile) × (get crc32 id s ≡ (row_at s id, s')) × Unchanged k s s'
  unfolding get row_at cells
  get-row_at k s id v inside =
      let (p', call, u) = read_page-Unchanged k s id.page_no v inside in
      (
        record s { pool = p' },
        rw call (
            ap (λ (r : Result (Option Bytes)). (r, record s { pool = p' }))
              (get_record-contents (view s.pool id.page_no) id.slot (v.pages id.page_no inside))),
        u,
      )
