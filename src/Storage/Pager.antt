-- ===== src/Storage/Pager.antt =====
-- The class `Pager` of queryx/storage/pager.py. Its state is the bytes of the database file, those
-- of the write-ahead log where there is one, the free list and whether it is closed. A write is
-- in the file at once, as `flush` makes it for a crash of the process; `fsync` has no part here.
pub mod Header
pub mod Redo
pub mod Persist
pub mod Crash
pub mod Valid
pub mod TornLog
pub mod Fresh
pub mod Allocate
pub mod Free
use query_x_engine.Common.{
  ℕ, zero, suc, ◌+◌, ◌*◌, ◌/◌, ◌^◌, Bool, true, false, not, Option, none, some, List, [], ◌∷◌, ◌++◌,
  ltb, leb, ◌==◌, if◌then◌else◌, length, Result, ok, raise, value_error, index_error, io_error,
  runtime_error,
}
use query_x_engine.Common
use query_x_engine.Common.Exec.{Exec, pure, throw, lift, gets, modify, ◌>>=◌, ◌>>◌}
use query_x_engine.Common.Bytes.{Bytes, slice, bytes_eq, write_into, read_from, zeros}
use query_x_engine.Common.Bytes.Words.{le_bytes, of_le, pack}
use query_x_engine.Storage.Page
use query_x_engine.Storage.Page.{Page, page_size}
use query_x_engine.Storage.Pager.Header.{max_free, header_image, load_header}
use query_x_engine.Storage.File.{write_at}
use query_x_engine.Wal.Log.{log_append, checkpoint, size}
use query_x_engine.Wal.Recovery.{replay}

abbrev pub checkpoint_bytes : ℕ
checkpoint_bytes = 2 ^ 20

pub record Pager : Type 0 where
  pub file : Bytes
  pub wal : Option Bytes
  pub free_list : List ℕ
  pub closed : Bool

unfoldable pub num_pages : Pager → ℕ
num_pages s = length s.file / page_size

-- `page_no in self._free_list`
unfoldable pub contains : List ℕ → ℕ → Bool
contains [] n = false
contains (m ∷ ms) n = if m == n then true else contains ms n

-- `self._free_list.pop()`: the last entry, and the list without it
unfoldable pub pop : List ℕ → Option (ℕ × List ℕ)
pop [] = none
pop (n ∷ []) = some (n, [])
pop (n ∷ m ∷ ms) = elim (pop (m ∷ ms)) [ none ↦ none | some (l, rest) ↦ some (l, n ∷ rest) ]

truncate_log : Option Bytes → Option Bytes
truncate_log none = none
truncate_log (some log) = some (checkpoint log)

pub wal_bytes : Option Bytes → ℕ
wal_bytes none = 0
wal_bytes (some log) = size log

-- fsync, and `checkpoint` of the log
unfoldable pub checkpoint_log : Exec Pager (Unit {0})
unfolding truncate_log checkpoint
checkpoint_log = modify (λ s. record s { wal = truncate_log s.wal })

-- the object that a constructor returns, if it does not raise
opened : Result (Unit {0}) × Pager → Result Pager
opened (ok _, s) = ok s
opened (raise e, s) = raise e

pub validate_data_page : ℕ → Exec Pager (Unit {0})
validate_data_page page_no = do
  pages ← gets num_pages
  if ltb page_no 1
      then throw value_error
      else if leb pages page_no
      then throw index_error
      else pure tt

unfoldable pub read_page : ℕ → Exec Pager Page
unfolding validate_data_page
read_page page_no = do
  validate_data_page page_no
  d ← gets (λ s. slice s.file (page_no * page_size) page_size)
  if length d == page_size then lift (Page.from_bytes d) else throw io_error

module _ (crc32 : Bytes → ℕ) where
  -- the append of `_persist_page`, which goes first
  log_page : Option Bytes → ℕ → Bytes → Result (Option Bytes)
  log_page none page_no d = ok none
  log_page (some log) page_no d =
      Common.◌>>=◌ (log_append crc32 log page_no d) (λ log'. ok (some log'))

  unfoldable pub persist_page : ℕ → Bytes → Exec Pager (Unit {0})
  unfolding log_page wal_bytes size
  persist_page page_no d = do
    old ← gets (λ s. s.wal)
    wal ← lift (log_page old page_no d)
    modify (λ s. record s { wal = wal; file = write_at s.file (page_no * page_size) d })
    if leb checkpoint_bytes (wal_bytes wal) then checkpoint_log else pure tt

  unfoldable pub write_header : Exec Pager (Unit {0})
  write_header = do
    free_list ← gets (λ s. s.free_list)
    image ← lift (header_image free_list)
    persist_page 0 image

  unfoldable pub write_page : ℕ → Page → Exec Pager (Unit {0})
  unfolding validate_data_page
  write_page page_no page = do validate_data_page page_no; persist_page page_no page

  pub write_empty_page : ℕ → Exec Pager (Unit {0})
  write_empty_page page_no = persist_page page_no Page.empty

  -- `allocate_page`, by what `pop` gives: an entry of the free list, or none
  pub allocate : Option (ℕ × List ℕ) → Exec Pager ℕ
  allocate (some (page_no, rest)) = do
    modify (λ s. record s { free_list = rest })
    write_empty_page page_no
    write_header
    pure page_no
  allocate none = do page_no ← gets num_pages; write_empty_page page_no; pure page_no

  unfoldable pub allocate_page : Exec Pager ℕ
  unfolding allocate write_empty_page
  allocate_page = do last ← gets (λ s. pop s.free_list); allocate last

  unfoldable pub free_page : ℕ → Exec Pager (Unit {0})
  unfolding validate_data_page
  free_page page_no = do
    validate_data_page page_no
    free_list ← gets (λ s. s.free_list)
    if contains free_list page_no
        then pure tt
        else if leb max_free (length free_list)
        then throw runtime_error
        else (do modify (λ s. record s { free_list = s.free_list ++ (page_no ∷ []) }); write_header)

  -- The log is checkpointed; without one there is only an `fsync` to do.
  unfoldable pub sync : Exec Pager (Unit {0})
  sync = checkpoint_log

  unfoldable pub close : Exec Pager (Unit {0})
  close = do
    closed ← gets (λ s. s.closed)
    if closed then pure tt else (do write_header; sync; modify (λ s. record s { closed = true }))

  -- the redo of `__init__`: the file and the log after it, the log truncated if it was replayed
  unfoldable pub recover : Bytes → Bytes → Bytes × Bytes
  recover file log =
      let (replayed, file') =
        replay crc32 log (λ page_no d f. write_at f (page_no * page_size) d) file in
      (file', if leb 1 replayed then checkpoint log else log)

  -- the rest of `__init__`, on a new object
  pub load_or_create : Pager → Result Pager
  load_or_create s =
      if leb 1 (length s.file)
      then Common.◌>>=◌ (load_header s.file) (λ free_list. ok (record s { free_list = free_list }))
      else opened (write_header s)

  -- `Pager(path)` on what the file and the log hold; a file that does not exist holds nothing.
  unfoldable pub open_pager : Bool → Bytes → Bytes → Result Pager
  unfolding opened load_or_create recover
  open_pager false file log =
      load_or_create (record { file = file; wal = none; free_list = []; closed = false })
  open_pager true file log = load_or_create (record {
    file = (recover file log).0;
    wal = some (recover file log).1;
    free_list = [];
    closed = false;
  })

unfoldable pub free_page_count : Pager → ℕ
free_page_count s = length s.free_list

-- The handles are dropped: the file and the log stay as they are.
unfoldable pub simulate_crash : Exec Pager (Unit {0})
simulate_crash = modify (λ s. record s { closed = true })
