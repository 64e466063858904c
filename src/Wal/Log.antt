-- ===== src/Wal/Log.antt =====
-- The class `WriteAheadLog` of queryx/wal/log.py. The log is the bytes of its file; what is
-- written is in the file at once, as `flush` makes it for a crash of the process.
pub mod Records
use query_x_engine.Common.{
  ℕ, zero, suc, ◌+◌, ◌%◌, ◌^◌, Bool, true, false, not, ◌||◌, Option, none, some, List, [], ◌∷◌,
  ◌++◌, ltb, leb, ◌==◌, if◌then◌else◌, length, take, drop, Result, ok, ◌>>=◌,
}
use query_x_engine.Common.Bytes.{Bytes, slice, bytes_eq}
use query_x_engine.Common.Bytes.Words.{pack, of_le}

-- b"WLOG"
abbrev pub magic : Bytes
magic = 0x57 ∷ 0x4c ∷ 0x4f ∷ 0x47 ∷ []

abbrev pub header_size : ℕ
header_size = 16

abbrev pub max_length : ℕ
max_length = 2 ^ 24

-- `crc32` is `zlib.crc32`.
module _ (crc32 : Bytes → ℕ) where
  -- _HEADER.pack(_MAGIC, page_no, len(data), crc)
  pack_header : ℕ → Bytes → Result Bytes
  pack_header page_no d = do
    a ← pack 4 page_no
    b ← pack 4 (length d)
    c ← pack 4 (crc32 d % 2 ^ 32)
    ok (magic ++ (a ++ (b ++ c)))

  unfoldable pub log_append : Bytes → ℕ → Bytes → Result Bytes
  unfolding pack_header
  log_append log page_no d = do header ← pack_header page_no d; ok (log ++ (header ++ d))

  -- The checks on one record, at the front of what is left of the log: its page, its data and what
  -- follows, or the end of the generator.
  unfoldable pub next_record : Bytes → Option (ℕ × Bytes × Bytes)
  next_record rest =
      let header = take header_size rest in
      let len = of_le (slice header 8 4) in
      let body = drop header_size rest in
      let d = take len body in
      if ltb (length header) header_size
      then none
      else if not (bytes_eq (slice header 0 4) magic) || leb len 0 || ltb max_length len
      then none
      else if ltb (length d) len
      then none
      else if crc32 d % 2 ^ 32 == of_le (slice header 12 4)
      then some (of_le (slice header 4 4), d, drop len body)
      else none

  -- the `while True` loop of `records`, on fuel
  unfoldable pub records_loop : ℕ → Bytes → List (ℕ × Bytes)
  records_loop zero rest = []
  records_loop (suc fuel) rest = elim (next_record rest) [
    | none ↦ []
    | some (page_no, d, rest') ↦ (page_no, d) ∷ records_loop fuel rest'
  ]

  -- A round reads at least 16 bytes, so the length of the log is fuel enough.
  unfoldable pub records : Bytes → List (ℕ × Bytes)
  unfolding next_record records_loop
  records log = records_loop (suc (length log)) log

-- `checkpoint` truncates the file.
unfoldable pub checkpoint : Bytes → Bytes
checkpoint log = []

unfoldable pub size : Bytes → ℕ
size log = length log
