-- ===== src/Storage/Page/Insert/Cells.antt =====
-- The contents and the invariant after a record was stored.
use query_x_engine.Common.{
  ℕ, suc, ◌+◌, ◌*◌, ◌≤◌, ◌<◌, ◌≡◌, ◌≢◌, ap, ◌∙◌, ◌++◌, [], ◌∷◌, List, Option, none, some, inl, inr,
  arith, length, set, tabulate, tabulate-set, tabulate-suc, tabulate_ext, if◌then◌else◌, ◌==◌, ◌&&◌,
}
use query_x_engine.Common.Bytes.{Bytes, slice}
use query_x_engine.Storage.Page.{Page, page_size, num_slots, free_end}
use query_x_engine.Storage.Page.Layout.{slot_offset, slot_length, cell, contents}
use query_x_engine.Storage.Page.Valid.{IsValid, IsSlot}
use query_x_engine.Storage.Page.Stored.{Stored}
use native.Mathlib.Decide.{ℕ_discrete}

module _ {p p' : Page} {rec : Bytes} {o i n : ℕ} (v : IsValid p) (s : Stored p p' rec o i n)
    (gap : o + length rec ≡ free_end p) (room : 4 + n * 4 ≤ o) (positive : 0 < length rec) where
  pub cell_at_stored : cell p' i ≡ some rec
  unfolding cell
  cell_at_stored = rw (s.offset_at, s.length_at, s.bytes) (ground arith)

  IsSlot-stored : IsSlot p' i
  IsSlot-stored = inr (omega (arith, s.boundary, s.offset_at), omega (arith, s.length_at), bound)
    where
      bound : slot_offset p' i + slot_length p' i ≤ page_size
      bound = omega (arith, s.offset_at, s.length_at, v.bound)

  module _ (j : ℕ) (old : j < num_slots p) (ne : j ≢ i) (low : 8 + j * 4 ≤ o) where
    pub cell_kept : cell p' j ≡ cell p j
    unfolding cell
    cell_kept = rw (s.kept_offset j ne low, s.kept_length j ne low) (same (v.slots j old))
      where
        same :
            IsSlot p j
            → (if slot_offset p j == 0 && slot_length p j == 0
                then none
                else some (slice p' (slot_offset p j) (slot_length p j)))
              ≡ (if slot_offset p j == 0 && slot_length p j == 0
                  then none
                  else some (slice p (slot_offset p j) (slot_length p j)))
        same (inl (a, b)) = rw (a, b)
        same (inr (a, b, c)) =
            rw (s.kept_bytes (slot_offset p j) (slot_length p j) (omega (arith, a)))

    IsSlot-kept : IsSlot p' j
    IsSlot-kept = go (v.slots j old)
      where
        go : IsSlot p j → IsSlot p' j
        go (inl (a, b)) = inl (s.kept_offset j ne low ∙ a, s.kept_length j ne low ∙ b)
        go (inr (a, b, c)) = inr (
          omega (arith, s.boundary, s.kept_offset j ne low, a),
          omega (arith, s.kept_length j ne low, b),
          omega (arith, s.kept_offset j ne low, s.kept_length j ne low, c),
        )

  pub IsValid-Stored : ((j : ℕ) → j < n → j ≢ i → j < num_slots p) → IsValid p'
  IsValid-Stored old = record {
    size = s.size;
    room = omega (arith, s.boundary, s.count);
    bound = omega (arith, s.boundary, v.bound);
    slots = λ j h. elim (ℕ_discrete j i) [
      | yes e ↦ rw e IsSlot-stored
      | no ne ↦ IsSlot-kept j (old j (omega (arith, s.count)) ne) ne (omega (arith, s.count))
    ];
  }

  pub contents_reused : i < n → n ≡ num_slots p → contents p' ≡ set (contents p) i (some rec)
  unfolding contents
  contents_reused h e =
      rw (s.count, e)
        (tabulate-set 0 (num_slots p) (cell p) (cell p') i i (omega arith)
            (λ j q ne. cell_kept j (omega arith) ne (omega arith))
          ∙ ap (set (tabulate 0 (num_slots p) (cell p)) i) cell_at_stored)

  pub contents_added :
      n ≡ suc (num_slots p) → i ≡ num_slots p → contents p' ≡ contents p ++ (some rec ∷ [])
  unfolding contents
  contents_added e at =
      rw (s.count, e)
        (tabulate-suc 0 (num_slots p) (cell p') i (omega arith)
          ∙ ap (λ (c : Option Bytes). tabulate 0 (num_slots p) (cell p') ++ (c ∷ [])) cell_at_stored
          ∙ ap (λ (cs : List (Option Bytes)). cs ++ (some rec ∷ []))
              (tabulate_ext 0 (num_slots p) (cell p') (cell p)
                (λ j a b. cell_kept j (omega arith) (omega arith) (omega arith))))
