-- ===== src/Storage/HeapFile/Delete.antt =====
-- `delete` of a heap file.
use query_x_engine.Common.{
  ℕ, ◌≡◌, ◌≢◌, refl, ap, ◌∙◌, true, false, Bool, Option, none, some, List, get_elem?, set, Result,
  ok, raise, index_error, if◌then◌else◌, ◌==◌, ==_iff, Bool-cases, inl, inr, arith,
}
use query_x_engine.Common.Bytes.{Bytes}
use query_x_engine.Storage.OrderedDict.{assign-lookup}
use query_x_engine.Storage.Page.{Page}
use query_x_engine.Storage.Page.Layout.{contents}
use query_x_engine.Storage.Page.Delete.{Deleted, delete_record-contents}
use query_x_engine.Storage.Pager.{Pager}
use query_x_engine.Storage.Pager.Valid.{IsData}
use query_x_engine.Storage.BufferPool.{BufferPool, mutate}
use query_x_engine.Storage.BufferPool.Valid.{view}
use query_x_engine.Storage.BufferPool.Pages.{Fetched, get_page-view}
use query_x_engine.Storage.BufferPool.Change.{mutate-Changed}
use query_x_engine.Storage.HeapFile.{HeapFile, RowId, delete}
use query_x_engine.Storage.HeapFile.Valid.{cells, IsValid}
use native.Mathlib.Decide.{ℕ_discrete}

-- the cells of page `n` after a delete that found `found` at the slot
abbrev pub cells_without : HeapFile → RowId → Option (Option Bytes) → ℕ → List (Option Bytes)
cells_without s id (some (some r)) n =
    if n == id.page_no then set (cells s n) id.slot none else cells s n
cells_without s id _ n = cells s n

-- what a delete reports, by what it finds at the slot
abbrev pub reported : Option (Option Bytes) → Result Bool
reported none = raise index_error
reported (some none) = ok false
reported (some (some r)) = ok true

module _ (crc32 : Bytes → ℕ) where
  -- What a delete does, that finds `found` at the slot.
  pub record Removed (k : ℕ) (s : HeapFile) (id : RowId) (found : Option (Option Bytes))
      (s' : HeapFile) : Type 0 where
    pub call : delete crc32 id s ≡ (reported found, s')
    pub valid : IsValid crc32 k s'
    pub rows : (n : ℕ) → cells s' n ≡ cells_without s id found n

  module _ {k : ℕ} {s : HeapFile} (v : IsValid crc32 k s) (id : RowId)
      (inside : IsData k id.page_no) (p1 : BufferPool)
      (f : Fetched crc32 k s.pool id.page_no p1) where
    abbrev read : HeapFile
    read = record { pool = p1; last_page = s.last_page }

    read-IsValid : IsValid crc32 k read
    read-IsValid = record {
      pool = f.valid;
      free_list = f.free_list ∙ v.free_list;
      pages = λ n h. rw (f.same n) (v.pages n h);
      last = v.last;
    }

    -- a write of the cached page over itself
    rewritten : mutate id.page_no (view s.pool id.page_no) p1 ≡ p1
    unfolding mutate
    rewritten =
        rw (mutate, f.held)
          (ap (λ (c : List (ℕ × Page)). record p1 { cache = c })
            (assign-lookup id.page_no (view s.pool id.page_no) p1.cache f.held))

    removed_by :
        (found : Option (Option Bytes))
        → Deleted (view s.pool id.page_no) id.slot found
        → (s' : HeapFile) × Removed k s id found s'
    unfolding delete cells
    removed_by none d = (
      read,
      record {
        call = rw f.call (rw d refl);
        valid = read-IsValid;
        rows = λ n. ap contents (f.same n);
      },
    )
    removed_by (some none) d = (
      read,
      record {
        call =
            rw f.call
              (rw d (ap (λ (p : BufferPool). (ok false, record read { pool = p })) rewritten));
        valid = read-IsValid;
        rows = λ n. ap contents (f.same n);
      },
    )
    removed_by (some (some r)) (page, call, valid, view', end) =
        let (p2, c) =
          mutate-Changed crc32 f.valid id.page_no (view s.pool id.page_no) page f.held valid.size in
        (
          record { pool = p2; last_page = s.last_page },
          record {
            call = rw f.call (rw call (rw c.call refl));
            valid = record {
              pool = c.valid;
              free_list = ap (λ (p : Pager). p.free_list) c.pager ∙ f.free_list ∙ v.free_list;
              pages = λ n h. elim (ℕ_discrete n id.page_no) [
                | yes e ↦ rw e (rw c.self valid)
                | no ne ↦ rw (c.others n ne, f.same n) (v.pages n h)
              ];
              last = v.last;
            };
            rows = λ n. elim (Bool-cases (n == id.page_no)) [
              | inl e ↦
                  let e' : n ≡ id.page_no = (==_iff n id.page_no).0 e in
                  rw e (rw e' (ap contents c.self ∙ view'))
              | inr e ↦
                  let ne : n ≢ id.page_no = λ same. ground (arith, same) in
                  rw e (ap contents (c.others n ne ∙ f.same n))
            ];
          },
        )

  -- On a valid heap file `delete` of a row identifier with a page of the file raises `IndexError`
  -- exactly if there is no such slot, reports False if the row was deleted before, and otherwise
  -- reports True and leaves that cell dead. No other cell changes, and the file stays valid.
  pub delete-Removed :
      (k : ℕ) (s : HeapFile) (id : RowId)
      → IsValid crc32 k s
      → IsData k id.page_no
      → (s' : HeapFile) × Removed k s id (get_elem? (cells s id.page_no) id.slot) s'
  unfolding cells
  delete-Removed k s id v inside =
      let (p1, f) = get_page-view crc32 k s.pool id.page_no v.pool inside in
      removed_by v id inside p1 f (get_elem? (contents (view s.pool id.page_no)) id.slot)
        (delete_record-contents (view s.pool id.page_no) id.slot (v.pages id.page_no inside))
