-- ===== src/Storage/Page.antt =====
-- The class `Page` of queryx/storage/page.py: a slotted page over the bytes of a 4KB block.
-- A page is its bytes, `_data`; a method returns the new bytes beside its result, or raises
-- before it changes anything.
pub mod Layout
pub mod Writes
pub mod Valid
pub mod Stored
pub mod Contents
pub mod Places
pub mod Empty
pub mod Insert
pub mod Delete
use query_x_engine.Common.{
  ℕ, zero, suc, ◌+◌, ◌-◌, ◌*◌, Bool, true, false, ◌&&◌, Option, none, some, List, [], ◌∷◌, ◌++◌,
  ltb, ◌==◌, if◌then◌else◌, length, Result, ok, raise, value_error, index_error, page_full_error,
  ◌>>=◌,
}
use query_x_engine.Common.Int.{ℤ, pos, ltb_ℤ, sub_ℕ}
use query_x_engine.Common.Bytes.{Bytes, slice, splice, write_into, read_from, zeros}
use query_x_engine.Common.Bytes.Words.{le_bytes, of_le, pack}

abbrev pub page_size : ℕ
page_size = 4096

abbrev pub header_size : ℕ
header_size = 4

abbrev pub slot_size : ℕ
slot_size = 4

abbrev pub Page : Type 0
Page = Bytes

-- Page(bytearray(raw))
unfoldable pub from_bytes : Bytes → Result Page
from_bytes raw = if length raw == page_size then ok raw else raise value_error

-- `pack_into("<HH", data, 0, 0, PAGE_SIZE)` on a zeroed block
unfoldable pub empty : Page
empty = splice (zeros page_size) 0 (le_bytes 2 0 ++ le_bytes 2 page_size)

unfoldable pub overwrite : Page → Bytes → Result Page
overwrite p raw = if length raw == page_size then ok raw else raise value_error

-- The header lies in every block, so these reads and writes stay in the buffer.
unfoldable pub num_slots : Page → ℕ
num_slots p = of_le (slice p 0 2)

unfoldable pub free_end : Page → ℕ
free_end p = of_le (slice p 2 2)

pub set_num_slots : Page → ℕ → Result Page
set_num_slots p n = do b ← pack 2 n; write_into p 0 b

pub set_free_end : Page → ℕ → Result Page
set_free_end p offset = do b ← pack 2 offset; write_into p 2 b

-- It is negative on a page whose header is corrupt.
unfoldable pub free_space : Page → ℤ
free_space p = sub_ℕ (free_end p) (header_size + num_slots p * slot_size)

pub slot : Page → ℕ → Result (ℕ × ℕ)
slot p index = do
  b ← read_from p (header_size + index * slot_size) 4
  ok (of_le (slice b 0 2), of_le (slice b 2 2))

pub set_slot : Page → ℕ → ℕ → ℕ → Result Page
set_slot p index offset len = do
  a ← pack 2 offset
  b ← pack 2 len
  write_into p (header_size + index * slot_size) (a ++ b)

abbrev dead : ℕ × ℕ → Bool
dead (offset, len) = offset == 0 && len == 0

-- the loop of `_find_dead_slot`, with the number of slots not yet looked at
pub find_dead_from : Page → ℕ → ℕ → Result (Option ℕ)
find_dead_from p i zero = ok none
find_dead_from p i (suc left) = do
  s ← slot p i
  if dead s then ok (some i) else find_dead_from p (i + 1) left

pub find_dead_slot : Page → Result (Option ℕ)
find_dead_slot p = find_dead_from p 0 (num_slots p)

unfoldable pub slot_cost : Option ℕ → ℕ
slot_cost none = slot_size
slot_cost (some _) = 0

-- the two ways in which `insert_record` ends
pub record_slot : Page → Option ℕ → ℕ → ℕ → Result (ℕ × Page)
record_slot p (some i) offset need = do p' ← set_slot p i offset need; ok (i, p')
record_slot p none offset need =
    let index = num_slots p in
    do p' ← set_slot p index offset need; p'' ← set_num_slots p' (index + 1); ok (index, p'')

-- `new_offset` is not negative: the guard on the free space has passed.
unfoldable pub insert_record : Page → Bytes → Result (ℕ × Page)
unfolding set_num_slots set_free_end free_space slot set_slot find_dead_from find_dead_slot
    slot_cost record_slot
insert_record p rec =
    let need = length rec in
    if need == 0 then raise value_error else do
      reuse ← find_dead_slot p
      if ltb_ℤ (free_space p) (pos (need + slot_cost reuse)) then raise page_full_error else do
        p' ← set_free_end (splice p (free_end p - need) rec) (free_end p - need)
        record_slot p' reuse (free_end p - need) need

unfoldable pub get_record : Page → ℕ → Result (Option Bytes)
unfolding slot
get_record p index =
    if ltb index (num_slots p)
    then (do
      (offset, len) ← slot p index
      if dead (offset, len) then ok none else ok (some (slice p offset len)))
    else raise index_error

unfoldable pub delete_record : Page → ℕ → Result (Bool × Page)
unfolding slot set_slot
delete_record p index =
    if ltb index (num_slots p)
    then (do
      s ← slot p index
      if dead s then ok (false, p) else (do p' ← set_slot p index 0 0; ok (true, p')))
    else raise index_error

-- the generator `records`, as the list of what it yields
pub records_from : Page → ℕ → ℕ → Result (List (ℕ × Bytes))
records_from p i zero = ok []
records_from p i (suc left) = do
  (offset, len) ← slot p i
  rest ← records_from p (i + 1) left
  ok (if dead (offset, len) then rest else (i, slice p offset len) ∷ rest)

unfoldable pub records : Page → Result (List (ℕ × Bytes))
unfolding slot records_from
records p = records_from p 0 (num_slots p)
