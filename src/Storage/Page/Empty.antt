-- ===== src/Storage/Page/Empty.antt =====
-- `Page.empty`.
use query_x_engine.Common.{◌+◌, ◌≤◌, ◌≡◌, refl, ap, ◌∙◌, [], ◌++◌, arith, length, tabulate}
use query_x_engine.Common.Bytes.{
  slice, zeros, length-zeros, length-splice, slice-splice_within, slice-append,
}
use query_x_engine.Common.Bytes.Words.{le_bytes, of_le, length-le_bytes, of_le-le_bytes}
use query_x_engine.Storage.Page.{page_size, num_slots, free_end, empty}
use query_x_engine.Storage.Page.Layout.{contents}
use query_x_engine.Storage.Page.Valid.{IsValid}
use query_x_engine.Storage.Page.Writes.{length-slot_bytes}

fits : 0 + length (le_bytes 2 0 ++ le_bytes 2 page_size) ≤ length (zeros page_size)
fits = omega (arith, length-slot_bytes 0 page_size, length-zeros page_size)

pub length-empty : length empty ≡ page_size
unfolding empty
length-empty = length-splice (zeros page_size) 0 _ fits ∙ length-zeros page_size

header :
    (slice (le_bytes 2 0 ++ le_bytes 2 page_size) 0 2 ≡ le_bytes 2 0)
    × (slice (le_bytes 2 0 ++ le_bytes 2 page_size) 2 2 ≡ le_bytes 2 page_size)
header =
    slice-append (le_bytes 2 0) (le_bytes 2 page_size) 2 2 (length-le_bytes 2 0)
      (length-le_bytes 2 page_size)

pub num_slots-empty : num_slots empty ≡ 0
unfolding num_slots empty
num_slots-empty =
    ap of_le (
      slice-splice_within (zeros page_size) 0 _ fits 0 0 2 (omega arith)
        (omega (arith, length-slot_bytes 0 page_size))
      ∙ header.0)
    ∙ of_le-le_bytes 2 0 (omega arith)

pub free_end-empty : free_end empty ≡ page_size
unfolding free_end empty
free_end-empty =
    ap of_le (
      slice-splice_within (zeros page_size) 0 _ fits 2 2 2 (omega arith)
        (omega (arith, length-slot_bytes 0 page_size))
      ∙ header.1)
    ∙ of_le-le_bytes 2 page_size (omega arith)

-- A fresh page is valid.
pub empty-IsValid : IsValid empty
empty-IsValid = record {
  size = length-empty;
  room = omega (arith, num_slots-empty, free_end-empty);
  bound = omega (arith, free_end-empty);
  slots = λ i h. absurd (omega (arith, num_slots-empty, h));
}

-- A fresh page holds no record.
pub contents-empty : contents empty ≡ []
unfolding contents
contents-empty = rw num_slots-empty (unfold tabulate in refl)
