-- ===== src/Tests/Pagers.antt =====
-- A pager on a file that does not exist, and what is done with it.
use query_x_engine.Common.{
  ℕ, zero, suc, ap, ◌<◌, ◌≡◌, refl, ◌∙◌, sym, inl, inr, true, false, some, List, [], ◌∷◌, ◌++◌,
  arith, length, length-append, ok, take,
}
use query_x_engine.Common.Bytes.{Bytes, slice_all}
use query_x_engine.Storage.Page
use query_x_engine.Storage.Page.Empty.{length-empty}
use query_x_engine.Storage.File.{block, HasPages}
use query_x_engine.Storage.Pager.{Pager, open_pager, recover}
use query_x_engine.Storage.Pager.Header.RoundTrip.{
  image, IsFreeList, length-image, load_header-image,
}
use query_x_engine.Storage.Pager.Redo.{Entry, last_image}
use query_x_engine.Storage.Pager.Persist.{IsLogged}
use query_x_engine.Storage.Pager.Valid.{IsValid, Wrote, write_page-read_page}
use query_x_engine.Storage.Pager.Allocate.{Allocated, allocate_page-Allocated}
use query_x_engine.Storage.Pager.Free.{Freed, free_page-Freed}
use query_x_engine.Storage.Pager.Crash.{IsDamaged, open_pager-crash}
use query_x_engine.Storage.Pager.TornLog.{recover_torn_first}
use query_x_engine.Storage.Pager.Fresh.{open_pager-fresh}
use query_x_engine.Wal.Log.Records.{IsTorn, head, frame, frames}

abbrev pub crc : Bytes → ℕ
crc d = 0

abbrev pub fresh :
    (s : Pager) × (open_pager crc true [] [] ≡ ok s) × IsValid crc 1 s × (s.free_list ≡ [])
fresh = open_pager-fresh crc

abbrev pub one_page : (n : ℕ) × ((k' : ℕ) × ((s' : Pager) × Allocated crc 1 fresh.0 n k' s'))
one_page = allocate_page-Allocated crc 1 fresh.0 fresh.2 (omega arith)

allocate_page-Allocated_example :
    (n : ℕ) × ((k' : ℕ) × ((s' : Pager) × Allocated crc 1 fresh.0 n k' s'))
allocate_page-Allocated_example = allocate_page-Allocated crc 1 fresh.0 fresh.2 (omega arith)

write_page-read_page_example :
    (s' : Pager) × Wrote crc one_page.0 Page.empty one_page.1.0 one_page.1.1.0 s'
write_page-read_page_example =
    write_page-read_page crc one_page.1.0 one_page.1.1.0 one_page.0 Page.empty one_page.1.1.1.valid
      one_page.1.1.1.number length-empty

none_free : length one_page.1.1.0.free_list < 1021
none_free = elim one_page.1.1.1.reused [
  | inl (e, l) ↦
      omega (
        arith,
        ap length (sym fresh.3 ∙ l),
        length-append one_page.1.1.0.free_list (one_page.0 ∷ []),
      )
  | inr (e, f, g, l) ↦ rw l (omega arith)
]

free_page-Freed_example : (s' : Pager) × Freed crc one_page.1.0 one_page.1.1.0 one_page.0 s'
free_page-Freed_example =
    free_page-Freed crc one_page.1.0 one_page.1.1.0 one_page.0 one_page.1.1.1.valid
      one_page.1.1.1.number one_page.1.1.1.taken none_free

-- a header page that was logged and written
abbrev free_pages : List ℕ
free_pages = 3 ∷ 5 ∷ []

free_pages-IsFreeList : IsFreeList free_pages
free_pages-IsFreeList = (omega arith, (omega arith, (omega arith, tt)))

abbrev header : Bytes
header = image free_pages free_pages-IsFreeList

size : length header ≡ 4096
size = length-image free_pages free_pages-IsFreeList

abbrev logged : List Entry
logged = (0, header) ∷ []

abbrev state : Pager
state = record { file = header; wal = some (frames crc logged); free_list = []; closed = false }

current : (m : ℕ) (d : Bytes) → last_image m logged ≡ some d → block header m ≡ d
unfolding last_image
current zero d h =
    let first : block header 0 ≡ header = unfold block in slice_all header 4096 size in
    let same : some header ≡ some d = h in cc
current (suc m) d h = ground (arith, h)

state-IsLogged : IsLogged crc 0 logged 1 state
unfolding last_image block
state-IsLogged = record {
  pages = size;
  log = refl;
  loggable = ((omega arith, omega (arith, size), omega (arith, size)), tt);
  run = (omega arith, size, tt);
  reach = omega arith;
  current = λ m d h. current m d h;
}

-- The crash lost the whole file, and cut the record of a second page short.
lost-IsDamaged : IsDamaged 0 logged 1 state.file []
lost-IsDamaged = record {
  kept = omega arith;
  bound = omega arith;
  intact = λ m h e. absurd (omega arith);
}

torn : IsTorn crc (take 5 (frame crc (1, header)))
unfolding frame
torn = (
  (1, header),
  (omega arith, omega (arith, size), omega (arith, size)),
  (5, omega (arith, length-append (head crc (1, header)) header, size), refl),
)

open_pager-crash_example :
    (s' : Pager) × (open_pager crc true [] (frames crc logged ++ take 5 (frame crc (1, header)))
      ≡ ok s')
    × HasPages s'.file 1
    × ((m : ℕ) → m < 1 → block s'.file m ≡ block state.file m)
    × (s'.free_list ≡ free_pages)
open_pager-crash_example =
    open_pager-crash crc state-IsLogged [] (take 5 (frame crc (1, header))) lost-IsDamaged torn
      free_pages (omega arith)
      (load_header-image free_pages free_pages-IsFreeList header (slice_all header 4096 size))

recover_torn_first_example :
    recover crc [] (take 2 (frame crc (1, header)) ++ frames crc logged)
    ≡ ([], take 2 (frame crc (1, header)) ++ frames crc logged)
recover_torn_first_example =
    recover_torn_first crc [] (1, header) 2 logged (omega arith) (omega arith)
