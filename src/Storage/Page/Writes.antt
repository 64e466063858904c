-- ===== src/Storage/Page/Writes.antt =====
-- What each of the four writes to a page changes, and that it changes nothing else.
use query_x_engine.Common.{
  ℕ, ◌+◌, ◌*◌, ◌≤◌, ◌<◌, ◌≡◌, ap, ◌∙◌, ◌⊎◌, inl, inr, ◌++◌, ◌≢◌, arith, length, length-append,
}
use query_x_engine.Common.Bytes.{
  Bytes, slice, splice, length-splice, slice-splice_self, slice-splice_within, slice-splice_before,
  slice-splice_after, slice-append,
}
use query_x_engine.Common.Bytes.Words.{le_bytes, of_le, length-le_bytes, of_le-le_bytes}
use query_x_engine.Storage.Page.{Page, page_size, num_slots, free_end}
use query_x_engine.Storage.Page.Layout.{slot_offset, slot_length}
use native.Mathlib.Decide.{dec_lt}

abbrev pub write_count : Page → ℕ → Page
write_count p n = splice p 0 (le_bytes 2 n)

abbrev pub write_end : Page → ℕ → Page
write_end p o = splice p 2 (le_bytes 2 o)

abbrev pub write_slot : Page → ℕ → ℕ → ℕ → Page
write_slot p i a b = splice p (4 + i * 4) (le_bytes 2 a ++ le_bytes 2 b)

pub length-slot_bytes : (a b : ℕ) → length (le_bytes 2 a ++ le_bytes 2 b) ≡ 4
length-slot_bytes a b =
    omega
      (arith, length-append (le_bytes 2 a) (le_bytes 2 b), length-le_bytes 2 a, length-le_bytes 2 b)

-- The two places of a byte range that meets no other.
slice-splice_apart :
    (d : Bytes) (off : ℕ) (piece : Bytes) (o n k : ℕ)
    → length piece ≡ k
    → off + k ≤ length d
    → (o + n ≤ off) ⊎ (off + k ≤ o)
    → slice (splice d off piece) o n ≡ slice d o n
slice-splice_apart d off piece o n k e h (inl q) =
    slice-splice_before d off piece (omega arith) o n q
slice-splice_apart d off piece o n k e h (inr q) =
    slice-splice_after d off piece (omega arith) o n (omega arith)

slot_order :
    (i j k n : ℕ)
    → k ≤ 2
    → n ≡ 2
    → j ≢ i
    → (4 + k + j * 4 + n ≤ 4 + i * 4) ⊎ (4 + i * 4 + 4 ≤ 4 + k + j * 4)
slot_order i j k n h e ne = elim (dec_lt j i) [
  | yes p ↦ inl (omega arith)
  | no p ↦ inr (omega arith)
]

module _ (p : Page) (size : length p ≡ page_size) where
  -- the slot count, in the bytes 0 and 1
  module _ (n : ℕ) where
    count_fits : 0 + length (le_bytes 2 n) ≤ length p
    count_fits = omega (arith, length-le_bytes 2 n)

    pub length-write_count : length (write_count p n) ≡ page_size
    length-write_count = length-splice p 0 (le_bytes 2 n) count_fits ∙ size

    pub num_slots-write_count : n < 65536 → num_slots (write_count p n) ≡ n
    unfolding num_slots
    num_slots-write_count h =
        ap of_le
          (slice-splice_self p 0 (le_bytes 2 n) count_fits 2 (omega (arith, length-le_bytes 2 n)))
        ∙ of_le-le_bytes 2 n h

    pub slice-write_count : (o k : ℕ) → 2 ≤ o → slice (write_count p n) o k ≡ slice p o k
    slice-write_count o k h =
        slice-splice_apart p 0 (le_bytes 2 n) o k 2 (length-le_bytes 2 n) (omega arith)
          (inr (omega arith))

  -- the end of the free gap, in the bytes 2 and 3
  module _ (o : ℕ) where
    end_fits : 2 + length (le_bytes 2 o) ≤ length p
    end_fits = omega (arith, length-le_bytes 2 o)

    pub length-write_end : length (write_end p o) ≡ page_size
    length-write_end = length-splice p 2 (le_bytes 2 o) end_fits ∙ size

    pub free_end-write_end : o < 65536 → free_end (write_end p o) ≡ o
    unfolding free_end
    free_end-write_end h =
        ap of_le
          (slice-splice_self p 2 (le_bytes 2 o) end_fits 2 (omega (arith, length-le_bytes 2 o)))
        ∙ of_le-le_bytes 2 o h

    pub num_slots-write_end : num_slots (write_end p o) ≡ num_slots p
    unfolding num_slots
    num_slots-write_end = ap of_le (
        slice-splice_apart p 2 (le_bytes 2 o) 0 2 2 (length-le_bytes 2 o) (omega arith)
          (inl (omega arith)))

    pub slice-write_end : (a k : ℕ) → 4 ≤ a → slice (write_end p o) a k ≡ slice p a k
    slice-write_end a k h =
        slice-splice_apart p 2 (le_bytes 2 o) a k 2 (length-le_bytes 2 o) (omega arith)
          (inr (omega arith))

  -- the entry of slot `i`, in the four bytes from 4 + 4 * i
  module _ (i a b : ℕ) (inside : 8 + i * 4 ≤ page_size) where
    slot_fits : 4 + i * 4 + length (le_bytes 2 a ++ le_bytes 2 b) ≤ length p
    slot_fits = omega (arith, length-slot_bytes a b)

    pub length-write_slot : length (write_slot p i a b) ≡ page_size
    length-write_slot = length-splice p (4 + i * 4) (le_bytes 2 a ++ le_bytes 2 b) slot_fits ∙ size

    pub slot_offset-write_slot : a < 65536 → slot_offset (write_slot p i a b) i ≡ a
    unfolding slot_offset
    slot_offset-write_slot h =
        ap of_le (
          slice-splice_within p (4 + i * 4) (le_bytes 2 a ++ le_bytes 2 b) slot_fits (4 + i * 4) 0 2
            (omega arith) (omega (arith, length-slot_bytes a b))
          ∙ (slice-append (le_bytes 2 a) (le_bytes 2 b) 2 2 (length-le_bytes 2 a)
              (length-le_bytes 2 b)).0)
        ∙ of_le-le_bytes 2 a h

    pub slot_length-write_slot : b < 65536 → slot_length (write_slot p i a b) i ≡ b
    unfolding slot_length
    slot_length-write_slot h =
        ap of_le (
          slice-splice_within p (4 + i * 4) (le_bytes 2 a ++ le_bytes 2 b) slot_fits (6 + i * 4) 2 2
            (omega arith) (omega (arith, length-slot_bytes a b))
          ∙ (slice-append (le_bytes 2 a) (le_bytes 2 b) 2 2 (length-le_bytes 2 a)
              (length-le_bytes 2 b)).1)
        ∙ of_le-le_bytes 2 b h

    slice-write_slot :
        (o k : ℕ)
        → (o + k ≤ 4 + i * 4) ⊎ (4 + i * 4 + 4 ≤ o)
        → slice (write_slot p i a b) o k ≡ slice p o k
    slice-write_slot o k =
        slice-splice_apart p (4 + i * 4) (le_bytes 2 a ++ le_bytes 2 b) o k 4
          (length-slot_bytes a b) (omega arith)

    pub slice-write_slot_after :
        (o k : ℕ) → 8 + i * 4 ≤ o → slice (write_slot p i a b) o k ≡ slice p o k
    slice-write_slot_after o k h = slice-write_slot o k (inr (omega arith))

    pub num_slots-write_slot : num_slots (write_slot p i a b) ≡ num_slots p
    unfolding num_slots
    num_slots-write_slot = ap of_le (slice-write_slot 0 2 (inl (omega arith)))

    pub free_end-write_slot : free_end (write_slot p i a b) ≡ free_end p
    unfolding free_end
    free_end-write_slot = ap of_le (slice-write_slot 2 2 (inl (omega arith)))

    pub slot_offset-write_slot_ne :
        (j : ℕ) → j ≢ i → slot_offset (write_slot p i a b) j ≡ slot_offset p j
    unfolding slot_offset
    slot_offset-write_slot_ne j ne =
        ap of_le
          (slice-write_slot (4 + j * 4) 2 (slot_order i j 0 2 (omega arith) (omega arith) ne))

    pub slot_length-write_slot_ne :
        (j : ℕ) → j ≢ i → slot_length (write_slot p i a b) j ≡ slot_length p j
    unfolding slot_length
    slot_length-write_slot_ne j ne =
        ap of_le
          (slice-write_slot (6 + j * 4) 2 (slot_order i j 2 2 (omega arith) (omega arith) ne))
