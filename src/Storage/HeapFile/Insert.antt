-- ===== src/Storage/HeapFile/Insert.antt =====
-- `insert` of a heap file.
use mathlib.Core.Path.{subst}
use query_x_engine.Common.{
  ℕ, suc, ◌+◌, ◌-◌, ◌^◌, ◌≤◌, ◌<◌, ◌≡◌, ◌≢◌, ◌⊎◌, inl, inr, refl, sym, ap, ◌∙◌, false, Option, none,
  some, List, [], ◌∷◌, arith, get_elem?, length, ltb, leb, leb→le, ◌*◌, le→ltb, ltb→lt, ◌==◌,
  Bool-cases, Result, ok,
}
use query_x_engine.Common.Bytes.{Bytes}
use query_x_engine.Storage.OrderedDict.{lookup}
use query_x_engine.Storage.Page
use query_x_engine.Storage.Page.{Page, free_end, num_slots, insert_record, page_size, slot_cost}
use query_x_engine.Storage.Page.Valid as PageValid
use query_x_engine.Storage.Page.Empty.{
  empty-IsValid, contents-empty, num_slots-empty, free_end-empty,
}
use query_x_engine.Storage.Page.Layout.{contents}
use query_x_engine.Storage.Page.Contents.{first_dead}
use query_x_engine.Storage.Page.Insert.{Fits, cost, place, insert_record_full, insert_record-place}
use query_x_engine.Storage.Page.Places.{place-Placed}
use query_x_engine.Storage.Pager.{Pager}
use query_x_engine.Storage.Pager.Valid.{IsData}
use query_x_engine.Storage.BufferPool.{BufferPool}
use query_x_engine.Storage.BufferPool.Valid.{view}
use query_x_engine.Storage.BufferPool.Valid as PoolValid
use query_x_engine.Storage.BufferPool.Pages.{get_page-view}
use query_x_engine.Storage.BufferPool.Change.{Changed, mutate-Changed}
use query_x_engine.Storage.BufferPool.Grow.{new_page-Grown}
use query_x_engine.Storage.HeapFile.{
  HeapFile, RowId, max_record_size, stored, insert_on_new_page, after_attempt, insert_by, insert,
}
use query_x_engine.Storage.HeapFile.Valid.{cells, last_of, IsValid}
use native.Mathlib.Decide.{ℕ_discrete}

-- What an insert of a record leaves, in a file of `k` pages that has `k'` afterwards.
pub record Inserted (crc32 : Bytes → ℕ) (k : ℕ) (s : HeapFile) (rec : Bytes) (id : RowId) (k' : ℕ)
    (s' : HeapFile) : Type 0 where
  pub valid : IsValid crc32 k' s'
  pub page : IsData k' id.page_no
  pub grows : (k' ≡ k) ⊎ ((k' ≡ suc k) × (cells s' k ≡ some rec ∷ []))
  pub self : get_elem? (cells s' id.page_no) id.slot ≡ some (some rec)
  pub free :
      (r : Bytes) → IsData k id.page_no → get_elem? (cells s id.page_no) id.slot ≢ some (some r)
  pub others :
      (n j : ℕ)
      → IsData k n
      → ¬ ((n ≡ id.page_no) × (j ≡ id.slot))
      → get_elem? (cells s' n) j ≡ get_elem? (cells s n) j

module _ (crc32 : Bytes → ℕ) where
  -- a call that inserts the record and returns its row identifier
  abbrev pub Outcome : ℕ → HeapFile → Bytes → Result RowId × HeapFile → Type 0
  Outcome k s rec call =
      (id : RowId) × (k' : ℕ) × (s' : HeapFile) × (call ≡ (ok id, s'))
      × Inserted crc32 k s rec id k' s'

  -- the write of a page that the cache holds
  pub stored-Changed :
      (k : ℕ) (s : HeapFile) (n slot : ℕ) (old page : Page)
      → PoolValid.IsValid crc32 k s.pool
      → lookup n s.pool.cache ≡ some old
      → length page ≡ page_size
      → (p' : BufferPool) × (stored n (slot, page) s
          ≡ (ok (record { page_no = n; slot = slot }), record s { pool = p' }))
        × Changed crc32 k s.pool n page p'
  unfolding stored
  stored-Changed k s n slot old page v held size =
      let (p', c) = mutate-Changed crc32 v n old page held size in (p', rw c.call refl, c)

  empty-Fits : (rec : Bytes) → length rec ≤ max_record_size → Fits Page.empty rec
  unfolding cost first_dead slot_cost
  empty-Fits rec h = rw contents-empty (omega (arith, num_slots-empty, free_end-empty))

  place_empty : (rec : Bytes) → place (contents Page.empty) rec ≡ (0, some rec ∷ [])
  unfolding first_dead
  place_empty rec = rw contents-empty refl

  module _ {k : ℕ} {s : HeapFile} (rec : Bytes) (positive : 0 < length rec)
      (v : PoolValid.IsValid crc32 k s.pool) (free : s.pool.pager.free_list ≡ [])
      (pages : (n : ℕ) → IsData k n → PageValid.IsValid (view s.pool n)) where
    extend :
        length rec ≤ max_record_size → k < 2 ^ 32 → Outcome k s rec (insert_on_new_page crc32 rec s)
    unfolding insert_on_new_page cells
    extend small room =
        let (p1, g) = new_page-Grown crc32 k s.pool v free room in
        let (page, i) =
          insert_record-place Page.empty rec empty-IsValid positive (empty-Fits rec small) in
        let (p2, call, c) =
          stored-Changed (suc k) (record s { pool = p1 }) k 0 Page.empty page g.valid g.held
            i.valid.size in
        let some_page : 0 < k = v.pager.some_page in
        let old : (m : ℕ) → IsData k m → view p2 m ≡ view s.pool m =
          λ m h. c.others m (λ e. omega (arith, e, h.1)) ∙ g.same m h in
        let only : contents (view p2 k) ≡ some rec ∷ [] =
          ap contents c.self
          ∙ i.view
          ∙ ap (λ (x : ℕ × List (Option Bytes)). x.1) (place_empty rec) in
        let placed : insert_record Page.empty rec ≡ ok (0, page) =
          i.call ∙ ap (λ (x : ℕ × List (Option Bytes)). ok (x.0, page)) (place_empty rec) in
        (
          record { page_no = k; slot = 0 },
          suc k,
          record { pool = p2; last_page = some k },
          rw g.call (rw placed (rw call refl)),
          record {
            valid = record {
              pool = c.valid;
              free_list = ap (λ (p : Pager). p.free_list) c.pager ∙ g.free_list;
              pages = λ n h. elim (ℕ_discrete n k) [
                | yes e ↦ rw e (rw c.self i.valid)
                | no ne ↦
                    rw (old n (h.0, omega (arith, h.1, ne))) (pages n (h.0, omega (arith, h.1, ne)))
              ];
              last = ground arith;
            };
            page = (omega (arith, some_page), omega arith);
            grows = inr (refl, only);
            self = ap (λ (l : List (Option Bytes)). get_elem? l 0) only;
            free = λ r h. absurd (omega (arith, h.1));
            others = λ n j h ne. ap (λ (q : Page). get_elem? (contents q) j) (old n h);
          },
        )

    -- a record that fits the page `n`, which the cache holds
    fill :
        (n : ℕ)
        → IsData k n
        → s.last_page ≡ last_of k
        → lookup n s.pool.cache ≡ some (view s.pool n)
        → Fits (view s.pool n) rec
        → Outcome k s rec (after_attempt crc32 rec n (insert_record (view s.pool n) rec) s)
    unfolding after_attempt cells
    fill n inside last held fits =
        let (page, i) = insert_record-place (view s.pool n) rec (pages n inside) positive fits in
        let slot = (place (contents (view s.pool n)) rec).0 in
        let (p2, call, c) = stored-Changed k s n slot (view s.pool n) page v held i.valid.size in
        let p = place-Placed (contents (view s.pool n)) rec in
        let filled : contents (view p2 n) ≡ (place (contents (view s.pool n)) rec).1 =
          ap contents c.self ∙ i.view in
        (
          record { page_no = n; slot = slot },
          k,
          record { pool = p2; last_page = s.last_page },
          rw i.call call,
          record {
            valid = record {
              pool = c.valid;
              free_list = ap (λ (q : Pager). q.free_list) c.pager ∙ free;
              pages = λ m h. elim (ℕ_discrete m n) [
                | yes e ↦ rw e (rw c.self i.valid)
                | no ne ↦ rw (c.others m ne) (pages m h)
              ];
              last = last;
            };
            page = inside;
            grows = inl refl;
            self = ap (λ (l : List (Option Bytes)). get_elem? l slot) filled ∙ p.self;
            free = λ r h. p.free r;
            others = λ m j h ne. elim (ℕ_discrete m n) [
              | yes e ↦ rw e (
                  ap (λ (l : List (Option Bytes)). get_elem? l j) filled
                  ∙ p.others j (λ f. ne (e, f)))
              | no d ↦ ap (λ (q : Page). get_elem? (contents q) j) (c.others m d)
            ];
          },
        )

  Fits-or_full : (p : Page) (rec : Bytes) → Fits p rec ⊎ (¬ Fits p rec)
  Fits-or_full p rec = elim (Bool-cases (leb (4 + num_slots p * 4 + cost p rec) (free_end p))) [
    | inl fits ↦ inl (leb→le _ _ fits)
    | inr full ↦ inr (λ fits. ground arith)
  ]

  -- an insert after a read of a page is an insert
  after_read :
      (k : ℕ) (s s1 : HeapFile) (rec : Bytes) (call : Result RowId × HeapFile)
      → ((n : ℕ) → cells s1 n ≡ cells s n)
      → Outcome k s1 rec call
      → Outcome k s rec call
  after_read k s s1 rec call same (id, k', s', e, i) = (
    id,
    k',
    s',
    e,
    record {
      valid = i.valid;
      page = i.page;
      grows = i.grows;
      self = i.self;
      free = λ r h old.
          i.free r h
            (ap (λ (l : List (Option Bytes)). get_elem? l id.slot) (same id.page_no) ∙ old);
      others =
          λ n j h ne. i.others n j h ne ∙ ap (λ (l : List (Option Bytes)). get_elem? l j) (same n);
    },
  )

  module _ {k : ℕ} {s : HeapFile} (v : IsValid crc32 k s) (rec : Bytes) (positive : 0 < length rec)
      (small : length rec ≤ max_record_size) (room : k < 2 ^ 32) where
    -- the attempt on the last page, and a new page if it is full
    on_last :
        (n : ℕ)
        → IsData k n
        → s.last_page ≡ some n
        → Outcome k s rec (insert_by crc32 rec (some n) s)
    unfolding insert_by cells
    on_last n inside last =
        let (p1, f) = get_page-view crc32 k s.pool n v.pool inside in
        let s1 : HeapFile = record { pool = p1; last_page = s.last_page } in
        let same : (m : ℕ) → cells s1 m ≡ cells s m = λ m. ap contents (f.same m) in
        let free : p1.pager.free_list ≡ [] = f.free_list ∙ v.free_list in
        let pages : (m : ℕ) → IsData k m → PageValid.IsValid (view p1 m) =
          λ m h. rw (f.same m) (v.pages m h) in
        let held : lookup n p1.cache ≡ some (view p1 n) = f.held ∙ ap some (sym (f.same n)) in
        let valid_page : PageValid.IsValid (view p1 n) = pages n inside in
        rw (f.call, sym (f.same n))
          (elim (Fits-or_full (view p1 n) rec) [
            | inl fits ↦
                after_read k s s1 rec _ same
                  (fill {s = s1} rec positive f.valid free pages n inside v.last held fits)
            | inr full ↦ rw (insert_record_full (view p1 n) rec valid_page positive full) (
                after_read k s s1 rec _ same
                  (extend {s = s1} rec positive f.valid free pages small room))
          ])

  -- On a valid heap file below 2^32 pages, `insert` of a record of 1 to `MAX_RECORD_SIZE` bytes
  -- raises nothing. The row identifier that it returns is that of a cell which held no row; the
  -- record is stored there, every other cell of the file is as it was, the file has grown by a page
  -- at most, and the heap file is valid.
  pub insert-Inserted :
      (k : ℕ) (s : HeapFile) (rec : Bytes)
      → IsValid crc32 k s
      → 0 < length rec
      → length rec ≤ max_record_size
      → k < 2 ^ 32
      → Outcome k s rec (insert crc32 rec s)
  unfolding insert insert_by
  insert-Inserted k s rec v positive small room =
      let some_page : 0 < k = v.pool.pager.some_page in
      let guard : (length rec == 0) ≡ false = ground arith in
      let guard' : ltb max_record_size (length rec) ≡ false = le→ltb _ _ small in
      rw (guard, guard')
        (elim (Bool-cases (ltb 1 k)) [
          | inl more ↦
              let last : s.last_page ≡ some (k - 1) = v.last ∙ (rw more refl) in
              subst (λ o. Outcome k s rec (insert_by crc32 rec o s)) (sym last)
                (on_last v rec positive small room (k - 1)
                  (omega (arith, ltb→lt _ _ more), omega (arith, some_page)) last)
          | inr first ↦
              let last : s.last_page ≡ none = v.last ∙ (rw first refl) in
              subst (λ o. Outcome k s rec (insert_by crc32 rec o s)) (sym last)
                (extend rec positive v.pool v.free_list v.pages small room)
        ])
