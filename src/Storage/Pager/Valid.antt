-- ===== src/Storage/Pager/Valid.antt =====
-- The invariant of an open pager, and the methods on pages that exist.
use Prim.Native.Nat.{max}
use query_x_engine.Common.{
  ℕ, ◌+◌, ◌*◌, ◌^◌, ◌≤◌, ◌<◌, ◌≡◌, ◌≢◌, sym, ap, ◌∙◌, false, List, [], ◌∷◌, arith, length, All, ltb,
  ok, raise, value_error, index_error, if◌then◌else◌,
}
use query_x_engine.Common.Bytes.{Bytes, slice, length-slice}
use query_x_engine.Storage.Page
use query_x_engine.Storage.Page.{Page, page_size}
use query_x_engine.Storage.File.{block, HasPages, block-write_at, block-write_at_ne}
use query_x_engine.Storage.Pager.{
  Pager, num_pages, contains, validate_data_page, read_page, write_page,
}
use query_x_engine.Storage.Pager.Header.{header_image}
use query_x_engine.Storage.Pager.Header.RoundTrip.{IsFreeList}
use query_x_engine.Storage.Pager.Persist.{Logged, persist_page-Persisted}

abbrev pub Distinct : List ℕ → Type 0
Distinct [] = Unit
Distinct (n ∷ ns) = (contains ns n ≡ false) × Distinct ns

-- the page numbers of data pages, in a file of `k` pages
abbrev pub IsData : ℕ → ℕ → Type 0
IsData k n = (1 ≤ n) × (n < k)

module _ (crc32 : Bytes → ℕ) where
  -- A file of `k` pages whose page 0 holds the free list, and that the log covers.
  pub record IsValid (k : ℕ) (s : Pager) : Type 0 where
    pub logged : Logged crc32 k s
    pub some_page : 0 < k
    pub bound : k ≤ 2 ^ 32
    pub free : IsFreeList s.free_list
    pub free_data : All (IsData k) s.free_list
    pub distinct : Distinct s.free_list
    pub header : header_image s.free_list ≡ ok (block s.file 0)

  module _ {k : ℕ} {s : Pager} (v : IsValid k s) where
    pub pages : HasPages s.file k
    pages = v.logged.1.1.pages

    pub num_pages-valid : num_pages s ≡ k
    unfolding num_pages
    num_pages-valid = omega (arith, pages)

    pub length-block : (n : ℕ) → n < k → length (block s.file n) ≡ 4096
    unfolding block
    length-block n h = length-slice s.file (n * 4096) 4096 (omega (arith, pages))

    pub validate_data : (n : ℕ) → IsData k n → validate_data_page n s ≡ (ok tt, s)
    unfolding validate_data_page
    validate_data n (a, b) = rw num_pages-valid (ground arith)

    -- what `validate` refuses
    pub validate_other :
        (n : ℕ)
        → ¬ IsData k n
        → validate_data_page n s ≡ (raise (if ltb n 1 then value_error else index_error), s)
    unfolding validate_data_page
    validate_other n h = rw num_pages-valid (ground arith)

    -- `read_page` of a data page returns its block and changes nothing.
    pub read_page-block : (n : ℕ) → IsData k n → read_page n s ≡ (ok (block s.file n), s)
    unfolding read_page block Page.from_bytes
    read_page-block n h =
        rw (validate_data n h)
          (let e : length (slice s.file (n * 4096) 4096) ≡ 4096 = length-block n (h.1) in rw e)

  -- What a write of the data page `n` leaves.
  pub record Wrote (n : ℕ) (page : Page) (k : ℕ) (s s' : Pager) : Type 0 where
    pub call : write_page crc32 n page s ≡ (ok tt, s')
    pub valid : IsValid k s'
    pub free_list : s'.free_list ≡ s.free_list
    pub read : read_page n s' ≡ (ok page, s')
    pub self : block s'.file n ≡ page
    pub others : (m : ℕ) → m ≢ n → block s'.file m ≡ block s.file m

  -- On a valid pager, a write of a 4096-byte page to a data page raises nothing; the page then
  -- reads back as written, no other page and not the free list has changed, and the pager is valid.
  pub write_page-read_page :
      (k : ℕ) (s : Pager) (n : ℕ) (page : Page)
      → IsValid k s
      → IsData k n
      → length page ≡ page_size
      → (s' : Pager) × Wrote n page k s s'
  unfolding write_page
  write_page-read_page k s n page v h size =
      let (s', p) =
        persist_page-Persisted crc32 k s n page v.logged (omega (arith, h.1))
          (omega (arith, h.1, v.bound)) size in
      let near : n * 4096 ≤ length s.file = omega (arith, pages v, h.1) in
      let others : (m : ℕ) → m ≢ n → block s'.file m ≡ block s.file m =
        λ m ne. ap (λ f. block f m) p.file ∙ block-write_at_ne s.file n page near size m ne in
      let e : max k (n + 1) ≡ k = omega (arith, h.1) in
      let valid : IsValid k s' = record {
        logged = rw e at p.logged;
        some_page = v.some_page;
        bound = v.bound;
        free = rw p.free_list v.free;
        free_data = rw p.free_list v.free_data;
        distinct = rw p.free_list v.distinct;
        header = rw p.free_list (v.header ∙ ap ok (sym (others 0 (omega (arith, h.0)))));
      } in
      (
        s',
        record {
          call = rw (validate_data v n h) (p.call);
          valid = valid;
          free_list = p.free_list;
          read =
              read_page-block valid n h
              ∙ ap (λ (b : Bytes). (ok b, s'))
                  (ap (λ f. block f n) p.file ∙ block-write_at s.file n page near size);
          self = ap (λ f. block f n) p.file ∙ block-write_at s.file n page near size;
          others = others;
        },
      )
