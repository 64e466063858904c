-- ===== src/Storage/Page/Valid.antt =====
-- The invariant of a slotted page.
use query_x_engine.Common.{ℕ, ◌+◌, ◌*◌, ◌≤◌, ◌<◌, ◌≡◌, ◌⊎◌, arith, length, ok}
use query_x_engine.Storage.Page.{Page, page_size, num_slots, free_end, slot}
use query_x_engine.Storage.Page.Layout.{slot_offset, slot_length, slot_lem}

-- A slot is dead, or its record lies in the record region.
abbrev pub IsSlot : Page → ℕ → Type 0
IsSlot p i =
    ((slot_offset p i ≡ 0) × (slot_length p i ≡ 0))
    ⊎ ((free_end p ≤ slot_offset p i)
        × (0 < slot_length p i)
        × (slot_offset p i + slot_length p i ≤ page_size))

pub record IsValid (p : Page) : Type 0 where
  pub size : length p ≡ page_size
  pub room : 4 + num_slots p * 4 ≤ free_end p
  pub bound : free_end p ≤ page_size
  pub slots : (i : ℕ) → i < num_slots p → IsSlot p i

pub slot-IsValid :
    (p : Page) (i : ℕ)
    → IsValid p
    → i < num_slots p
    → slot p i ≡ ok (slot_offset p i, slot_length p i)
slot-IsValid p i v h = slot_lem p i (omega arith)
