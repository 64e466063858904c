-- ===== src/Storage/Pager/Crash.antt =====
-- Opening a pager after a crash: the redo of the log against a damaged file.
use query_x_engine.Common.{
  ℕ, ◌*◌, ◌≤◌, ◌<◌, ◌≡◌, refl, sym, ◌∙◌, none, some, List, [], ◌++◌, arith, length, le→leb,
  Option-cases, ◌⊎◌, inl, inr, true, false, ok,
}
use query_x_engine.Common.Bytes.{Bytes, slice}
use query_x_engine.Storage.File.{block, HasPages}
use query_x_engine.Storage.Pager.{Pager, recover, load_or_create, open_pager}
use query_x_engine.Storage.Pager.Header.{load_header}
use query_x_engine.Storage.Pager.Redo.{
  Entry, apply_recovered_page, last_image, or_block, last_image_new, block-apply_all,
  length-apply_all, le-extent,
}
use query_x_engine.Storage.Pager.Persist.{IsLogged}
use query_x_engine.Wal.Log.Records.{frames, IsTorn, records-frames_torn}
use query_x_engine.Wal.Recovery.{apply_all, replay-apply_all}
use native.Mathlib.Decide.{dec_lt}

-- What a crash leaves of a file of `k` pages, if the run `es` was logged since it had `base`
-- pages: no page of that time is lost, and those that the run never wrote are intact. The pages
-- that it wrote hold anything, and the last may be cut short.
pub record IsDamaged (base : ℕ) (es : List Entry) (k : ℕ) (file f : Bytes) : Type 0 where
  pub kept : base * 4096 ≤ length f
  pub bound : length f ≤ k * 4096
  pub intact : (m : ℕ) → m < base → last_image m es ≡ none → block f m ≡ block file m

load_header-block : (f g : Bytes) → block f 0 ≡ block g 0 → load_header f ≡ load_header g
unfolding load_header block
load_header-block f g e = let e' : slice f 0 4096 ≡ slice g 0 4096 = e in rw e'

module _ (crc32 : Bytes → ℕ) where
  load_or_create_loads :
      (s : Pager) (free_list : List ℕ)
      → 1 ≤ length s.file
      → load_header s.file ≡ ok free_list
      → load_or_create crc32 s ≡ ok (record s { free_list = free_list })
  unfolding load_or_create
  load_or_create_loads s free_list some_page loads = rw (le→leb 1 (length s.file) some_page, loads)

  module _ {base : ℕ} {es : List Entry} {k : ℕ} {s : Pager} (v : IsLogged crc32 base es k s)
      (f tail : Bytes) (damaged : IsDamaged base es k s.file f) (torn : IsTorn crc32 tail) where
    redone : Bytes
    redone = apply_all apply_recovered_page es f

    recover-redone : (recover crc32 f (frames crc32 es ++ tail)).0 ≡ redone
    unfolding recover redone
    recover-redone =
        rw (replay-apply_all crc32 (frames crc32 es ++ tail) apply_recovered_page f)
          (rw (records-frames_torn crc32 es tail v.loggable torn))

    HasPages-redone : HasPages redone k
    unfolding redone
    HasPages-redone = omega (
      arith,
      length-apply_all base es f v.run damaged.kept,
      v.reach,
      damaged.bound,
      le-extent base es,
    )

    block-redone : (m : ℕ) → m < k → block redone m ≡ block s.file m
    unfolding redone
    block-redone m inside =
        block-apply_all base es f m v.run damaged.kept ∙ go (Option-cases (last_image m es))
      where
        go :
            (last_image m es ≡ none) ⊎ ((d : Bytes) × (last_image m es ≡ some d))
            → or_block (last_image m es) (block f m) ≡ block s.file m
        go (inl e) = elim (dec_lt m base) [
          | yes old ↦ rw e (damaged.intact m old e)
          | no new ↦
              absurd (last_image_new base es m v.run (omega arith) (omega (arith, v.reach)) e)
        ]
        go (inr (d, e)) = rw e (sym (v.current m d e))

    -- For a state that the log covers, redo after a crash gives back every page of the file as it stood after the last logged
    -- write, whatever the crash left in the pages written since the last checkpoint and however the
    -- record being appended was torn.
    recover-block :
        HasPages (recover crc32 f (frames crc32 es ++ tail)).0 k
        × ((m : ℕ) → m < k → block (recover crc32 f (frames crc32 es ++ tail)).0 m ≡ block s.file m)
    recover-block = rw recover-redone (HasPages-redone, block-redone)

    -- For a state that the log covers, a file that a crash damaged and a torn last record: if the
    -- header page was loadable before the crash, a pager opens on the damaged file and the log, and
    -- it has the pages that the file had, and their free list.
    pub open_pager-crash :
        (free_list : List ℕ)
        → 0 < k
        → load_header s.file ≡ ok free_list
        → (s' : Pager) × (open_pager crc32 true f (frames crc32 es ++ tail) ≡ ok s')
          × HasPages s'.file k
          × ((m : ℕ) → m < k → block s'.file m ≡ block s.file m)
          × (s'.free_list ≡ free_list)
    unfolding open_pager
    open_pager-crash free_list some_page loads =
        let g = (recover crc32 f (frames crc32 es ++ tail)).0 in
        (
          record {
            file = g;
            wal = some (recover crc32 f (frames crc32 es ++ tail)).1;
            free_list = free_list;
            closed = false;
          },
          load_or_create_loads
              (record {
                file = g;
                wal = some (recover crc32 f (frames crc32 es ++ tail)).1;
                free_list = [];
                closed = false;
              })
              free_list (omega (arith, recover-block.0))
              (load_header-block g s.file (recover-block.1 0 some_page) ∙ loads),
          recover-block.0,
          recover-block.1,
          refl,
        )
