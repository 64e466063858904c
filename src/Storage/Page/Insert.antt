-- ===== src/Storage/Page/Insert.antt =====
-- `insert_record` against the contents of the page: it fills the first dead cell, or adds one.
pub mod Cells
pub mod Calls
use query_x_engine.Common.{
  ℕ, zero, suc, ◌+◌, ◌*◌, ◌-◌, ◌≤◌, ◌<◌, ◌≡◌, refl, sym, ◌∙◌, ◌++◌, [], ◌∷◌, List, Option, none,
  some, ◌⊎◌, inl, inr, arith, length, set, ltb, lt→ltb, le→ltb, ◌==◌, if◌then◌else◌, Option-cases,
  length-tabulate, Result, ok, raise, value_error, page_full_error, ◌>>=◌,
}
use query_x_engine.Common.Int.{pos, ltb_ℤ, sub_ℕ}
use query_x_engine.Common.Bytes.{Bytes, splice}
use query_x_engine.Storage.Page.{
  Page, page_size, num_slots, free_end, free_space, insert_record, find_dead_slot, slot_cost,
  set_free_end, set_slot, record_slot,
}
use query_x_engine.Storage.Page.Layout.{cell, contents}
use query_x_engine.Storage.Page.Stored.{
  Stored, Stored-reused, Stored-write_count, reused, ended, placed_size, ended_size, ended_count,
}
use query_x_engine.Storage.Page.Writes.{write_count}
use Calls.{set_num_slots_fits, set_free_end_fits, set_slot_fits}
use Cells.{IsValid-Stored, contents_reused, contents_added}
use query_x_engine.Storage.Page.Valid.{IsValid}
use query_x_engine.Storage.Page.Contents.{first_dead, find_dead_slot_lem}

-- the bytes that a record of the given length takes from the free gap
unfoldable pub cost : Page → Bytes → ℕ
cost p rec = length rec + slot_cost (first_dead 0 (contents p))

abbrev pub Fits : Page → Bytes → Type 0
Fits p rec = 4 + num_slots p * 4 + cost p rec ≤ free_end p

-- what `insert_record` does to the contents: the slot number, and the new cells
abbrev pub place_at : List (Option Bytes) → Bytes → Option ℕ → ℕ × List (Option Bytes)
place_at cells rec none = (length cells, cells ++ (some rec ∷ []))
place_at cells rec (some i) = (i, set cells i (some rec))

abbrev pub place : List (Option Bytes) → Bytes → ℕ × List (Option Bytes)
place cells rec = place_at cells rec (first_dead 0 cells)

first_dead-lt :
    (i : ℕ) (cells : List (Option Bytes)) (k : ℕ)
    → first_dead i cells ≡ some k
    → k < i + length cells
unfolding first_dead
first_dead-lt i [] k h = cc
first_dead-lt i (none ∷ cells) k h = ground arith
first_dead-lt i (some r ∷ cells) k h = omega (arith, first_dead-lt (i + 1) cells k h)

module _ (p : Page) (rec : Bytes) (v : IsValid p) (positive : 0 < length rec) where
  abbrev offset : ℕ
  offset = free_end p - length rec

  -- the guards of `insert_record` pass, up to the writes
  insert_guards :
      Fits p rec
      → insert_record p rec ≡ (
          set_free_end (splice p offset rec) offset >>= λ p'.
          record_slot p' (first_dead 0 (contents p)) offset (length rec))
  unfolding insert_record cost
  insert_guards fits = rw (find_dead_slot_lem p v) (ground arith)

  -- On a valid page, a record that is not empty is refused with `PageFullError` when it, with a new
  -- slot where no dead one is left, exceeds the gap between the slots and the records.
  pub insert_record_full : ¬ Fits p rec → insert_record p rec ≡ raise page_full_error
  unfolding insert_record cost
  insert_record_full full = rw (find_dead_slot_lem p v) (ground arith)

-- What a successful `insert_record` returns and leaves, the first dead slot given as `found`.
pub record Inserted (p : Page) (rec : Bytes) (found : Option ℕ) (p' : Page) : Type 0 where
  pub call : insert_record p rec ≡ ok ((place_at (contents p) rec found).0, p')
  pub valid : IsValid p'
  pub view : contents p' ≡ (place_at (contents p) rec found).1
  pub boundary : free_end p' + length rec ≡ free_end p

module _ (p : Page) (rec : Bytes) (v : IsValid p) (positive : 0 < length rec)
    (fits : Fits p rec) where
  abbrev start : ℕ
  start = free_end p - length rec

  fits_added : first_dead 0 (contents p) ≡ none → 4 + num_slots p * 4 + length rec + 4 ≤ free_end p
  unfolding cost slot_cost
  fits_added e = omega (arith, rw (e, cost) at fits)

  fits_reused : 4 + num_slots p * 4 + length rec ≤ free_end p
  unfolding cost
  fits_reused = omega arith

  gap : start + length rec ≡ free_end p
  gap = omega (arith, fits_reused)

  inside : start + length rec ≤ page_size
  inside = omega (arith, gap, v.bound)

  module _ (i : ℕ) (low : 8 + i * 4 ≤ start) where
    stored : Stored p (reused p rec start i) rec start i (num_slots p)
    stored = Stored-reused p rec start i v.size inside low

    end_call : set_free_end (splice p start rec) start ≡ ok (ended p rec start)
    end_call =
        set_free_end_fits (splice p start rec) start (omega (arith, inside))
          (omega (arith, placed_size p rec start i v.size inside low))

    slot_call : set_slot (ended p rec start) i start (length rec) ≡ ok (reused p rec start i)
    slot_call =
        set_slot_fits (ended p rec start) i start (length rec) (omega (arith, inside))
          (omega (arith, inside)) (omega (arith, ended_size p rec start i v.size inside low))

  pub Inserted-reused :
      (i : ℕ) → first_dead 0 (contents p) ≡ some i → Inserted p rec (some i) (reused p rec start i)
  unfolding record_slot contents
  Inserted-reused i e =
      let old : i < num_slots p =
        omega (arith, first_dead-lt 0 (contents p) i e, length-tabulate 0 (num_slots p) (cell p)) in
      let low : 8 + i * 4 ≤ start = omega (arith, fits_reused) in
      let room : 4 + num_slots p * 4 ≤ start = omega (arith, fits_reused) in
      record {
        call =
            insert_guards p rec v positive fits
            ∙ rw (e, end_call i low, slot_call i low, record_slot);
        valid = IsValid-Stored v (stored i low) gap room positive (λ j h ne. h);
        view = contents_reused v (stored i low) gap room positive old refl;
        boundary = omega (arith, (stored i low).boundary, gap);
      }

  pub Inserted-added :
      first_dead 0 (contents p) ≡ none
      → Inserted p rec none (write_count (reused p rec start (num_slots p)) (num_slots p + 1))
  unfolding record_slot contents
  Inserted-added e =
      let low : 8 + num_slots p * 4 ≤ start = omega (arith, fits_added e) in
      let s =
        Stored-write_count (num_slots p + 1) (stored (num_slots p) low)
          (omega (arith, fits_added e)) (omega (arith, inside)) in
      let room : 4 + (num_slots p + 1) * 4 ≤ start = omega arith in
      record {
        call =
            insert_guards p rec v positive fits
            ∙ rw (
              e,
              end_call (num_slots p) low,
              record_slot,
              ended_count p rec start (num_slots p) v.size inside low,
              slot_call (num_slots p) low,
              set_num_slots_fits (reused p rec start (num_slots p)) (num_slots p + 1)
                  (omega (arith, inside)) (omega (arith, (stored (num_slots p) low).size)),
              length-tabulate 0 (num_slots p) (cell p),
            );
        valid = IsValid-Stored v s gap room positive (λ j h ne. omega arith);
        view = contents_added v s gap room positive (omega arith) refl;
        boundary = omega (arith, s.boundary, gap);
      }

-- On a valid page, a record that is not empty and fits the gap is stored: the call returns the number of the first
-- dead slot, or of a new one, and the page it leaves is valid, holds the record in that slot and
-- every other record where it was, and its record region grew by the record's length.
pub insert_record-place :
    (p : Page) (rec : Bytes)
    → IsValid p
    → 0 < length rec
    → Fits p rec
    → (p' : Page) × Inserted p rec (first_dead 0 (contents p)) p'
insert_record-place p rec v positive fits = go (first_dead 0 (contents p)) refl
  where
    go :
        (found : Option ℕ)
        → first_dead 0 (contents p) ≡ found
        → (p' : Page) × Inserted p rec found p'
    go none e = (_, Inserted-added p rec v positive fits e)
    go (some i) e = (_, Inserted-reused p rec v positive fits i e)
