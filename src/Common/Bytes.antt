-- ===== src/Common/Bytes.antt =====
-- Byte strings, and the calls of Python's `struct` that the program makes on them.
pub mod Words
use query_x_engine.Common.Tests.{leb, ◌==◌, if◌then◌else◌, le→leb}
use query_x_engine.Common.Lists.{
  length, take, drop, length-append, length-take, length-drop, take-append_exact, drop-append_exact,
  take-append_le, drop-append_le, drop-append_ge, drop-drop, take-drop-take, take_of_length-le,
}
use query_x_engine.Common.Exceptions.{Result, ok, raise, struct_error}
use Prim.Native.Nat.{ℕ, zero, suc, ◌+◌, ◌-◌, ◌≤◌, max}
use mathlib.Core.Path.{◌≡◌, refl, sym, ap, ◌∙◌}
use mathlib.Core.Logic.{◌⊎◌, inl, inr}
use mathlib.Core.Bool.{Bool, true, false, ◌&&◌}
use mathlib.Core.List.{List, [], ◌∷◌, ◌++◌, append_assoc}
use native.Mathlib.Omega.{arith}

abbrev pub Bytes : Type 0
Bytes = List ℕ

-- a == b
unfoldable pub bytes_eq : Bytes → Bytes → Bool
bytes_eq [] [] = true
bytes_eq (x ∷ a) (y ∷ b) = (x == y) && bytes_eq a b
bytes_eq _ _ = false

pub bytes_eq_refl : (a : Bytes) → bytes_eq a a ≡ true
unfolding bytes_eq
bytes_eq_refl [] = refl
bytes_eq_refl (x ∷ a) = ground (arith, bytes_eq_refl a)

pub bytes_eq→eq : (a b : Bytes) → bytes_eq a b ≡ true → a ≡ b
unfolding bytes_eq
bytes_eq→eq [] [] h = refl
bytes_eq→eq [] (y ∷ b) h = cc
bytes_eq→eq (x ∷ a) [] h = cc
bytes_eq→eq (x ∷ a) (y ∷ b) h = ground (arith, bytes_eq→eq a b)

-- data[off : off + n]
unfoldable pub slice : Bytes → ℕ → ℕ → Bytes
slice d off n = take n (drop off d)

-- data[off : off + len(piece)] = piece
unfoldable pub splice : Bytes → ℕ → Bytes → Bytes
splice d off piece = take off d ++ (piece ++ drop (off + length piece) d)

-- `struct.pack_into` and `struct.unpack_from` raise where the buffer is too short.
unfoldable pub write_into : Bytes → ℕ → Bytes → Result Bytes
write_into d off piece =
    if leb (off + length piece) (length d) then ok (splice d off piece) else raise struct_error

unfoldable pub read_from : Bytes → ℕ → ℕ → Result Bytes
read_from d off n = if leb (off + n) (length d) then ok (slice d off n) else raise struct_error

pub write_into_fits :
    (d : Bytes) (off : ℕ) (piece : Bytes)
    → off + length piece ≤ length d
    → write_into d off piece ≡ ok (splice d off piece)
unfolding write_into
write_into_fits d off piece h = rw (le→leb _ _ h)

pub read_from_fits :
    (d : Bytes) (off n : ℕ) → off + n ≤ length d → read_from d off n ≡ ok (slice d off n)
unfolding read_from
read_from_fits d off n h = rw (le→leb _ _ h)

pub length-slice : (d : Bytes) (off n : ℕ) → off + n ≤ length d → length (slice d off n) ≡ n
unfolding slice
length-slice d off n h = omega (arith, length-take n (drop off d), length-drop off d)

pub slice_all : (d : Bytes) (n : ℕ) → length d ≡ n → slice d 0 n ≡ d
unfolding slice
slice_all [] zero h = refl
slice_all [] (suc n) h = refl
slice_all (x ∷ d) zero h = absurd (omega arith)
slice_all (x ∷ d) (suc n) h = ap (◌∷◌ x) (slice_all d n (omega arith))

module _ (d : Bytes) (off : ℕ) (piece : Bytes) (fits : off + length piece ≤ length d) where
  front : length (take off d) ≡ off
  front = omega (arith, length-take off d)

  pub length-splice : length (splice d off piece) ≡ length d
  unfolding splice
  length-splice = omega (
    arith,
    front,
    length-append (take off d) (piece ++ drop (off + length piece) d),
    length-append piece (drop (off + length piece) d),
    length-drop (off + length piece) d,
  )

  -- A part of what was written.
  pub slice-splice_within :
      (o k n : ℕ)
      → o ≡ off + k
      → k + n ≤ length piece
      → slice (splice d off piece) o n ≡ slice piece k n
  unfolding slice splice
  slice-splice_within o k n e h = rw (drop-append_ge o k (take off d) _ (omega (arith, front))) (
      rw (drop-append_le k piece (drop (off + length piece) d) (omega arith))
        (take-append_le n (drop k piece) _ (omega (arith, length-drop k piece))))

  pub slice-splice_self : (n : ℕ) → n ≡ length piece → slice (splice d off piece) off n ≡ piece
  slice-splice_self n e =
      slice-splice_within off 0 n (omega arith) (omega arith) ∙ slice_all piece n (sym e)

  -- What lies before or after what was written.
  pub slice-splice_before : (o n : ℕ) → o + n ≤ off → slice (splice d off piece) o n ≡ slice d o n
  unfolding slice splice
  slice-splice_before o n h =
      rw
        (drop-append_le o (take off d) (piece ++ drop (off + length piece) d)
          (omega (arith, front)))
        (rw
          (take-append_le n (drop o (take off d)) (piece ++ drop (off + length piece) d)
            (omega (arith, length-drop o (take off d), front)))
          (take-drop-take o off n d h))

  pub slice-splice_after :
      (o n : ℕ) → off + length piece ≤ o → slice (splice d off piece) o n ≡ slice d o n
  unfolding slice splice
  slice-splice_after o n h =
      let m = o - (off + length piece) in
      rw (drop-append_ge o (length piece + m) (take off d) _ (omega (arith, front))) (
        rw (drop-append_ge (length piece + m) m piece _ (omega arith))
          (rw (drop-drop (off + length piece) m o d (omega arith))))

pub slice-slice :
    (d : Bytes) (o m k n o' : ℕ) → o + k ≡ o' → k + n ≤ m → slice (slice d o m) k n ≡ slice d o' n
unfolding slice
slice-slice d o m k n o' e h = rw (take-drop-take k m n (drop o d) h) (rw (drop-drop o k o' d e))

pub slice-append :
    (a b : Bytes) (n m : ℕ)
    → length a ≡ n
    → length b ≡ m
    → (slice (a ++ b) 0 n ≡ a) × (slice (a ++ b) n m ≡ b)
unfolding slice
slice-append a b n m h k = (
  take-append_exact n a b h,
  rw (drop-append_exact n a b h) (take_of_length-le m b (omega arith)),
)

-- bytearray(n)
unfoldable pub zeros : ℕ → Bytes
zeros zero = []
zeros (suc n) = 0 ∷ zeros n

pub length-zeros : (n : ℕ) → length (zeros n) ≡ n
unfolding zeros
length-zeros zero = refl
length-zeros (suc n) = ap suc (length-zeros n)

-- A write that begins in the file, or at its end, and may run past the end.
module _ (d : Bytes) (off : ℕ) (piece : Bytes) (near : off ≤ length d) where
  start : length (take off d) ≡ off
  start = omega (arith, length-take off d)

  pub length-splice_near : length (splice d off piece) ≡ max (length d) (off + length piece)
  unfolding splice
  length-splice_near = omega (
    arith,
    start,
    length-append (take off d) (piece ++ drop (off + length piece) d),
    length-append piece (drop (off + length piece) d),
    length-drop (off + length piece) d,
  )

  pub slice-splice_near :
      (o n : ℕ)
      → (o + n ≤ off) ⊎ (off + length piece ≤ o)
      → slice (splice d off piece) o n ≡ slice d o n
  unfolding slice splice
  slice-splice_near o n (inl h) =
      rw
        (drop-append_le o (take off d) (piece ++ drop (off + length piece) d)
          (omega (arith, start)))
        (rw
          (take-append_le n (drop o (take off d)) (piece ++ drop (off + length piece) d)
            (omega (arith, length-drop o (take off d), start)))
          (take-drop-take o off n d h))
  slice-splice_near o n (inr h) =
      let m = o - (off + length piece) in
      rw (drop-append_ge o (length piece + m) (take off d) _ (omega (arith, start))) (
        rw (drop-append_ge (length piece + m) m piece _ (omega arith))
          (rw (drop-drop (off + length piece) m o d (omega arith))))

  pub slice-splice_near_self : (n : ℕ) → length piece ≡ n → slice (splice d off piece) off n ≡ piece
  unfolding slice splice
  slice-splice_near_self n e =
      rw (drop-append_exact off (take off d) (piece ++ drop (off + length piece) d) start)
        (take-append_exact n piece (drop (off + length piece) d) e)
