-- ===== src/Storage/Page/Delete.antt =====
-- `delete_record` and `Page.empty` against the contents of the page.
use query_x_engine.Common.{
  ℕ, ◌+◌, ◌*◌, ◌≤◌, ◌<◌, ◌≡◌, ◌≢◌, ap, ◌∙◌, Option, none, some, inl, inr, arith, set, get_elem?,
  ltb, lt→ltb, tabulate, tabulate-set, length-tabulate, get_elem?-tabulate, ltb→lt, ltb→le, true,
  false, Bool-cases, if◌then◌else◌, ◌==◌, ◌&&◌, ok, raise, index_error,
}
use query_x_engine.Common.Bytes.{Bytes, slice}
use query_x_engine.Storage.Page.{Page, page_size, num_slots, free_end, delete_record, dead}
use query_x_engine.Storage.Page.Layout.{slot_offset, slot_length, cell, contents}
use query_x_engine.Storage.Page.Valid.{IsValid, IsSlot, slot-IsValid}
use query_x_engine.Storage.Page.Writes.{
  write_slot, length-write_slot, slot_offset-write_slot, slot_length-write_slot,
  slice-write_slot_after, num_slots-write_slot, free_end-write_slot, slot_offset-write_slot_ne,
  slot_length-write_slot_ne,
}
use query_x_engine.Storage.Page.Contents.{get_elem?_past}
use query_x_engine.Storage.Page.Insert.Calls.{set_slot_fits}
use native.Mathlib.Decide.{ℕ_discrete}

abbrev pub cleared : Page → ℕ → Page
cleared p i = write_slot p i 0 0

module _ (p : Page) (i : ℕ) (v : IsValid p) (old : i < num_slots p) where
  inside : 8 + i * 4 ≤ page_size
  inside = omega (arith, v.room, v.bound)

  count : num_slots (cleared p i) ≡ num_slots p
  count = num_slots-write_slot p v.size i 0 0 inside

  boundary : free_end (cleared p i) ≡ free_end p
  boundary = free_end-write_slot p v.size i 0 0 inside

  cell-cleared : cell (cleared p i) i ≡ none
  unfolding cell
  cell-cleared = rw (
    slot_offset-write_slot p v.size i 0 0 inside (omega arith),
    slot_length-write_slot p v.size i 0 0 inside (omega arith),
  )

  module _ (j : ℕ) (at : j < num_slots p) (ne : j ≢ i) where
    offset_kept : slot_offset (cleared p i) j ≡ slot_offset p j
    offset_kept = slot_offset-write_slot_ne p v.size i 0 0 inside j ne

    length_kept : slot_length (cleared p i) j ≡ slot_length p j
    length_kept = slot_length-write_slot_ne p v.size i 0 0 inside j ne

    cell_kept : cell (cleared p i) j ≡ cell p j
    unfolding cell
    cell_kept = rw (offset_kept, length_kept) (same (v.slots j at))
      where
        same :
            IsSlot p j
            → (if slot_offset p j == 0 && slot_length p j == 0
                then none
                else some (slice (cleared p i) (slot_offset p j) (slot_length p j)))
              ≡ (if slot_offset p j == 0 && slot_length p j == 0
                  then none
                  else some (slice p (slot_offset p j) (slot_length p j)))
        same (inl (a, b)) = rw (a, b)
        same (inr (a, b, c)) = rw (
            slice-write_slot_after p v.size i 0 0 inside (slot_offset p j) (slot_length p j)
              (omega (arith, a, v.room)))

    IsSlot-kept : IsSlot (cleared p i) j
    IsSlot-kept = go (v.slots j at)
      where
        go : IsSlot p j → IsSlot (cleared p i) j
        go (inl (a, b)) = inl (offset_kept ∙ a, length_kept ∙ b)
        go (inr (a, b, c)) = inr (
          omega (arith, boundary, offset_kept, a),
          omega (arith, length_kept, b),
          omega (arith, offset_kept, length_kept, c),
        )

  cleared-IsValid : IsValid (cleared p i)
  cleared-IsValid = record {
    size = length-write_slot p v.size i 0 0 inside;
    room = omega (arith, boundary, count, v.room);
    bound = omega (arith, boundary, v.bound);
    slots = λ j h. elim (ℕ_discrete j i) [
      | yes e ↦ rw e (
          inl (
            slot_offset-write_slot p v.size i 0 0 inside (omega arith),
            slot_length-write_slot p v.size i 0 0 inside (omega arith),
          ))
      | no ne ↦ IsSlot-kept j (omega (arith, count)) ne
    ];
  }

  contents-cleared : contents (cleared p i) ≡ set (contents p) i none
  unfolding contents
  contents-cleared = rw count (
      tabulate-set 0 (num_slots p) (cell p) (cell (cleared p i)) i i (omega arith)
        (λ j q ne. cell_kept j (omega arith) ne)
      ∙ ap (set (tabulate 0 (num_slots p) (cell p)) i) cell-cleared)

  delete_call : delete_record p i ≡ (
      if dead (slot_offset p i, slot_length p i) then ok (false, p) else ok (true, (cleared p i)))
  unfolding delete_record
  delete_call = rw (lt→ltb _ _ old) (
      rw (slot-IsValid p i v old)
        (rw (set_slot_fits p i 0 0 (omega arith) (omega arith) (omega (arith, v.size, inside)))))

-- What `delete_record` does, by what the contents hold at the slot.
abbrev pub Deleted : Page → ℕ → Option (Option Bytes) → Type 0
Deleted p i none = delete_record p i ≡ raise index_error
Deleted p i (some none) = delete_record p i ≡ ok (false, p)
Deleted p i (some (some r)) =
    (p' : Page) × (delete_record p i ≡ ok (true, p'))
    × IsValid p'
    × (contents p' ≡ set (contents p) i none)
    × (free_end p' ≡ free_end p)

delete_inside : (p : Page) (i : ℕ) → IsValid p → i < num_slots p → Deleted p i (some (cell p i))
unfolding cell
delete_inside p i v old = elim (Bool-cases (dead (slot_offset p i, slot_length p i))) [
  | inl gone ↦ rw gone (rw (delete_call p i v old) (rw gone))
  | inr alive ↦ rw alive (
    cleared p i,
    rw (delete_call p i v old) (rw alive),
    cleared-IsValid p i v old,
    contents-cleared p i v old,
    boundary p i v old,
  )
]

-- On a valid page `delete_record` raises `IndexError` exactly for a slot number past the end,
-- reports False and changes nothing for a dead slot, and otherwise leaves a valid page that differs
-- in that one cell, now dead, and has no more free space than before.
pub delete_record-contents : (p : Page) (i : ℕ) → IsValid p → Deleted p i (get_elem? (contents p) i)
unfolding contents
delete_record-contents p i v = elim (Bool-cases (ltb i (num_slots p))) [
  | inl old ↦
      rw (get_elem?-tabulate 0 (num_slots p) (cell p) i i (ltb→lt _ _ old) (omega arith))
        (delete_inside p i v (ltb→lt _ _ old))
  | inr past ↦
      rw
        (get_elem?_past (tabulate 0 (num_slots p) (cell p)) i
          (omega (arith, length-tabulate 0 (num_slots p) (cell p), ltb→le _ _ past)))
        (unfold delete_record in rw past)
]
