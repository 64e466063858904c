-- ===== src/Storage/Page/Layout.antt =====
-- The slots of a page, read without the checks, and a page as the list of its cells.
use query_x_engine.Common.{
  ℕ, ◌+◌, ◌*◌, ◌≤◌, ◌≡◌, Option, none, some, List, arith, if◌then◌else◌, length, tabulate, ok,
}
use query_x_engine.Common.Bytes.{Bytes, slice, read_from_fits, slice-slice}
use query_x_engine.Common.Bytes.Words.{of_le}
use query_x_engine.Storage.Page.{Page, num_slots, slot, dead}

unfoldable pub slot_offset : Page → ℕ → ℕ
slot_offset p i = of_le (slice p (4 + i * 4) 2)

unfoldable pub slot_length : Page → ℕ → ℕ
slot_length p i = of_le (slice p (6 + i * 4) 2)

-- What slot `i` holds, `none` in a dead slot.
unfoldable pub cell : Page → ℕ → Option Bytes
cell p i =
    if dead (slot_offset p i, slot_length p i)
    then none
    else some (slice p (slot_offset p i) (slot_length p i))

-- The abstract view of a page: where its records lie is forgotten.
unfoldable pub contents : Page → List (Option Bytes)
contents p = tabulate 0 (num_slots p) (cell p)

pub slot_lem :
    (p : Page) (i : ℕ) → 8 + i * 4 ≤ length p → slot p i ≡ ok (slot_offset p i, slot_length p i)
unfolding slot slot_offset slot_length
slot_lem p i h = rw (read_from_fits p (4 + i * 4) 4 (omega arith)) (
    rw (slice-slice p (4 + i * 4) 4 0 2 (4 + i * 4) (omega arith) (omega arith))
      (rw (slice-slice p (4 + i * 4) 4 2 2 (6 + i * 4) (omega arith) (omega arith))))
