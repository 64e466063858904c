-- ===== src/Storage/Pager/Fresh.antt =====
-- `Pager(path)` on a file that does not exist.
use query_x_engine.Common.{ℕ, ◌≡◌, refl, sym, ap, ◌∙◌, true, false, [], arith, ok, some}
use query_x_engine.Common.Bytes.{Bytes}
use query_x_engine.Storage.File.{block, block-write_at}
use query_x_engine.Storage.Pager.{Pager, open_pager, opened, load_or_create, write_header, recover}
use query_x_engine.Wal.Recovery.{replay}
use query_x_engine.Wal.Log.{records}
use query_x_engine.Wal.Log.Records.{frames}
use query_x_engine.Storage.Pager.Redo.{last_image}
use query_x_engine.Storage.Pager.Persist.{persist_page-Persisted, IsLogged}
use query_x_engine.Storage.Pager.Header.RoundTrip.{
  image, IsFreeList, length-image, header_image-image,
}
use query_x_engine.Storage.Pager.Valid.{IsValid}

module _ (crc32 : Bytes → ℕ) where
  abbrev nothing : Pager
  nothing = record { file = []; wal = some []; free_list = []; closed = false }

  opening : open_pager crc32 true [] [] ≡ opened (write_header crc32 nothing)
  unfolding open_pager load_or_create recover replay records
  opening = refl

  IsLogged-nothing : IsLogged crc32 0 [] 0 nothing
  unfolding frames last_image
  IsLogged-nothing = record {
    pages = refl;
    log = refl;
    loggable = tt;
    run = tt;
    reach = refl;
    current = λ m d h. cc;
  }

  -- Opening a database that does not exist succeeds, and leaves a valid pager of one page, the
  -- header, with an empty free list.
  pub open_pager-fresh :
      (s : Pager) × (open_pager crc32 true [] [] ≡ ok s) × IsValid crc32 1 s × (s.free_list ≡ [])
  unfolding opened write_header
  open_pager-fresh =
      let free : IsFreeList [] = (omega arith, tt) in
      let (s, p) =
        persist_page-Persisted crc32 0 nothing 0 (image [] free) (0, ([], IsLogged-nothing))
          (omega arith) (omega arith) (length-image [] free) in
      (
        s,
        opening ∙ rw (header_image-image [] free) (rw p.call refl),
        record {
          logged = p.logged;
          some_page = omega arith;
          bound = omega arith;
          free = rw p.free_list free;
          free_data = rw p.free_list tt;
          distinct = rw p.free_list tt;
          header = rw p.free_list (
              header_image-image [] free
              ∙ ap ok (
                  sym (
                    ap (λ f. block f 0) p.file
                    ∙ block-write_at [] 0 (image [] free) (omega arith) (length-image [] free))));
        },
        p.free_list,
      )
