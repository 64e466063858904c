-- ===== src/Common/Bytes/Words.antt =====
-- The little-endian codes of `struct`: `<H` and `<I` have width 2 and 4, `<q` is width 8 and signed.
use Prim.Native.Nat.{ℕ, zero, suc, ◌+◌, ◌-◌, ◌*◌, ◌/◌, ◌%◌, ◌^◌, ◌<◌}
use mathlib.Core.Path.{◌≡◌, refl, ap}
use mathlib.Core.List.{List, [], ◌∷◌}
use native.Mathlib.Nat.{pow-suc}
use native.Mathlib.Omega.{arith}
use query_x_engine.Common.Tests.{ltb, if◌then◌else◌, lt→ltb}
use query_x_engine.Common.Lists.{length}
use query_x_engine.Common.Exceptions.{Result, ok, raise, struct_error}
use query_x_engine.Common.Int.{ℤ, pos, negsuc}

unfoldable pub le_bytes : ℕ → ℕ → List ℕ
le_bytes zero v = []
le_bytes (suc w) v = (v % 256) ∷ le_bytes w (v / 256)

unfoldable pub of_le : List ℕ → ℕ
of_le [] = 0
of_le (b ∷ bs) = b + 256 * of_le bs

-- struct.pack of one unsigned number, which raises where the number does not fit
unfoldable pub pack : ℕ → ℕ → Result (List ℕ)
pack w v = if ltb v (256 ^ w) then ok (le_bytes w v) else raise struct_error

pub length-le_bytes : (w v : ℕ) → length (le_bytes w v) ≡ w
unfolding le_bytes
length-le_bytes zero v = refl
length-le_bytes (suc w) v = ap suc (length-le_bytes w (v / 256))

pub pack_fits : (w v : ℕ) → v < 256 ^ w → pack w v ≡ ok (le_bytes w v)
unfolding pack
pack_fits w v h = rw (lt→ltb _ _ h)

-- Unpacking gives back what was packed.
pub of_le-le_bytes : (w v : ℕ) → v < 256 ^ w → of_le (le_bytes w v) ≡ v
unfolding of_le le_bytes
of_le-le_bytes zero v h = omega arith
of_le-le_bytes (suc w) v h =
    omega (arith, of_le-le_bytes w (v / 256) (omega (arith, pow-suc 256 w)))

-- `<q`: the bit pattern of a signed 64-bit number
abbrev pub Int64 : ℤ → Type 0
Int64 (pos n) = n < 2 ^ 63
Int64 (negsuc n) = n < 2 ^ 63

unfoldable pub to_pattern : ℤ → ℕ
to_pattern (pos n) = n
to_pattern (negsuc n) = 2 ^ 64 - 1 - n

unfoldable pub of_pattern : ℕ → ℤ
of_pattern p = if ltb p (2 ^ 63) then pos p else negsuc (2 ^ 64 - 1 - p)

-- struct.pack("<q", z)
unfoldable pub pack_int : ℤ → Result (List ℕ)
pack_int (pos n) =
    if ltb n (2 ^ 63) then ok (le_bytes 8 (to_pattern (pos n))) else raise struct_error
pack_int (negsuc n) =
    if ltb n (2 ^ 63) then ok (le_bytes 8 (to_pattern (negsuc n))) else raise struct_error

pub pack_int_fits : (z : ℤ) → Int64 z → pack_int z ≡ ok (le_bytes 8 (to_pattern z))
unfolding pack_int
pack_int_fits (pos n) h = rw (lt→ltb _ _ h)
pack_int_fits (negsuc n) h = rw (lt→ltb _ _ h)

pub to_pattern-lt : (z : ℤ) → Int64 z → to_pattern z < 256 ^ 8
unfolding to_pattern
to_pattern-lt (pos n) h = omega arith
to_pattern-lt (negsuc n) h = omega arith

pub of_pattern-to_pattern : (z : ℤ) → Int64 z → of_pattern (to_pattern z) ≡ z
unfolding of_pattern to_pattern
of_pattern-to_pattern (pos n) h = ground arith
of_pattern-to_pattern (negsuc n) h = ground arith

pub of_pattern-le_bytes : (z : ℤ) → Int64 z → of_pattern (of_le (le_bytes 8 (to_pattern z))) ≡ z
of_pattern-le_bytes z h =
    rw (of_le-le_bytes 8 (to_pattern z) (to_pattern-lt z h)) (of_pattern-to_pattern z h)
