-- ===== src/Storage/Page/Stored.antt =====
-- A page after a record was put at offset `o` and slot `i` pointed at it: what `insert_record`
-- leaves, whether it reused a slot or added one.
use query_x_engine.Common.{ℕ, ◌+◌, ◌*◌, ◌≤◌, ◌<◌, ◌≡◌, ◌≢◌, refl, ap, ◌∙◌, arith, length}
use query_x_engine.Common.Bytes.{
  Bytes, slice, splice, length-splice, slice-splice_self, slice-splice_before, slice-splice_after,
}
use query_x_engine.Common.Bytes.Words.{of_le}
use query_x_engine.Storage.Page.{Page, page_size, num_slots, free_end}
use query_x_engine.Storage.Page.Layout.{slot_offset, slot_length}
use query_x_engine.Storage.Page.Writes.{
  write_count, write_end, write_slot, length-write_count, num_slots-write_count, slice-write_count,
  length-write_end, free_end-write_end, num_slots-write_end, slice-write_end, length-write_slot,
  slot_offset-write_slot, slot_length-write_slot, slice-write_slot_after, num_slots-write_slot,
  free_end-write_slot, slot_offset-write_slot_ne, slot_length-write_slot_ne,
}

pub record Stored (p p' : Page) (rec : Bytes) (o i n : ℕ) : Type 0 where
  pub size : length p' ≡ page_size
  pub count : num_slots p' ≡ n
  pub boundary : free_end p' ≡ o
  pub offset_at : slot_offset p' i ≡ o
  pub length_at : slot_length p' i ≡ length rec
  pub kept_offset : (j : ℕ) → j ≢ i → 8 + j * 4 ≤ o → slot_offset p' j ≡ slot_offset p j
  pub kept_length : (j : ℕ) → j ≢ i → 8 + j * 4 ≤ o → slot_length p' j ≡ slot_length p j
  pub bytes : slice p' o (length rec) ≡ rec
  pub kept_bytes : (a k : ℕ) → o + length rec ≤ a → slice p' a k ≡ slice p a k

-- the block after each of the writes
abbrev pub placed : Page → Bytes → ℕ → Page
placed p rec o = splice p o rec

abbrev pub ended : Page → Bytes → ℕ → Page
ended p rec o = write_end (placed p rec o) o

abbrev pub reused : Page → Bytes → ℕ → ℕ → Page
reused p rec o i = write_slot (ended p rec o) i o (length rec)

module _ (p : Page) (rec : Bytes) (o i : ℕ) (size : length p ≡ page_size)
    (fits : o + length rec ≤ page_size) (slot_room : 8 + i * 4 ≤ o) where
  pub placed_size : length (placed p rec o) ≡ page_size
  placed_size = length-splice p o rec (omega arith) ∙ size

  pub ended_size : length (ended p rec o) ≡ page_size
  ended_size = length-write_end (placed p rec o) placed_size o

  ended_low : (a k : ℕ) → 4 ≤ a → a + k ≤ o → slice (ended p rec o) a k ≡ slice p a k
  ended_low a k h q =
      slice-write_end (placed p rec o) placed_size o a k h
      ∙ slice-splice_before p o rec (omega arith) a k q

  pub ended_count : num_slots (ended p rec o) ≡ num_slots p
  unfolding num_slots
  ended_count =
      num_slots-write_end (placed p rec o) placed_size o
      ∙ ap of_le (slice-splice_before p o rec (omega arith) 0 2 (omega arith))

  pub reused_count : num_slots (reused p rec o i) ≡ num_slots p
  reused_count =
      num_slots-write_slot (ended p rec o) ended_size i o (length rec) (omega arith) ∙ ended_count

  -- the reuse of slot `i`
  pub Stored-reused : Stored p (reused p rec o i) rec o i (num_slots p)
  unfolding slot_offset slot_length
  Stored-reused = record {
    size = length-write_slot (ended p rec o) ended_size i o (length rec) (omega arith);
    count = reused_count;
    boundary =
        free_end-write_slot (ended p rec o) ended_size i o (length rec) (omega arith)
        ∙ free_end-write_end (placed p rec o) placed_size o (omega arith);
    offset_at =
        slot_offset-write_slot (ended p rec o) ended_size i o (length rec) (omega arith)
          (omega arith);
    length_at =
        slot_length-write_slot (ended p rec o) ended_size i o (length rec) (omega arith)
          (omega arith);
    kept_offset = λ j ne h.
        slot_offset-write_slot_ne (ended p rec o) ended_size i o (length rec) (omega arith) j ne
        ∙ ap of_le (ended_low (4 + j * 4) 2 (omega arith) (omega arith));
    kept_length = λ j ne h.
        slot_length-write_slot_ne (ended p rec o) ended_size i o (length rec) (omega arith) j ne
        ∙ ap of_le (ended_low (6 + j * 4) 2 (omega arith) (omega arith));
    bytes =
        slice-write_slot_after (ended p rec o) ended_size i o (length rec) (omega arith) o
          (length rec) (omega arith)
        ∙ slice-write_end (placed p rec o) placed_size o o (length rec) (omega arith)
        ∙ slice-splice_self p o rec (omega arith) (length rec) refl;
    kept_bytes = λ a k h.
        slice-write_slot_after (ended p rec o) ended_size i o (length rec) (omega arith) a k
          (omega arith)
        ∙ slice-write_end (placed p rec o) placed_size o a k (omega arith)
        ∙ slice-splice_after p o rec (omega arith) a k h;
  }

-- the same with the slot count written last
pub Stored-write_count :
    {p p' : Page} {rec : Bytes} {o i n : ℕ} (m : ℕ)
    → Stored p p' rec o i n
    → 4 ≤ o
    → m < 65536
    → Stored p (write_count p' m) rec o i m
unfolding slot_offset slot_length free_end
Stored-write_count {p} {p'} {rec} {o} {i} {n} m s low h = record {
  size = length-write_count p' s.size m;
  count = num_slots-write_count p' s.size m h;
  boundary = ap of_le (kept 2 2 (omega arith)) ∙ s.boundary;
  offset_at = ap of_le (kept (4 + i * 4) 2 (omega arith)) ∙ s.offset_at;
  length_at = ap of_le (kept (6 + i * 4) 2 (omega arith)) ∙ s.length_at;
  kept_offset = λ j ne q. ap of_le (kept (4 + j * 4) 2 (omega arith)) ∙ s.kept_offset j ne q;
  kept_length = λ j ne q. ap of_le (kept (6 + j * 4) 2 (omega arith)) ∙ s.kept_length j ne q;
  bytes = kept o (length rec) (omega arith) ∙ s.bytes;
  kept_bytes = λ a k q. kept a k (omega arith) ∙ s.kept_bytes a k q;
}
  where
    kept : (a k : ℕ) → 2 ≤ a → slice (write_count p' m) a k ≡ slice p' a k
    kept = slice-write_count p' s.size m
