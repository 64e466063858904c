-- ===== src/Storage/File.antt =====
-- A database file as its bytes, and what `seek` with `write` or `read` does to it.
use Prim.Native.Nat.{max}
use query_x_engine.Common.{
  ℕ, ◌+◌, ◌-◌, ◌*◌, ◌≤◌, ◌≡◌, ◌≢◌, inl, inr, ◌++◌, append-nil, arith, length,
}
use query_x_engine.Common.Bytes.{
  Bytes, slice, splice, zeros, length-splice_near, slice-splice_near, slice-splice_near_self,
}
use native.Mathlib.Decide.{dec_lt}

-- A write past the end of a file fills the hole with zeros.
unfoldable pub write_at : Bytes → ℕ → Bytes → Bytes
write_at f off d = splice (f ++ zeros (off - length f)) off d

-- the page-sized block `n`, shorter or empty at the end of the file
unfoldable pub block : Bytes → ℕ → Bytes
block f n = slice f (n * 4096) 4096

-- A file of `k` whole pages.
abbrev pub HasPages : Bytes → ℕ → Type 0
HasPages f k = length f ≡ k * 4096

-- A write of a page that leaves no hole.
module _ (f : Bytes) (n : ℕ) (d : Bytes) (near : n * 4096 ≤ length f)
    (image : length d ≡ 4096) where
  no_hole : write_at f (n * 4096) d ≡ splice f (n * 4096) d
  unfolding write_at zeros
  no_hole = let e : n * 4096 - length f ≡ 0 = omega arith in rw e (rw (append-nil f))

  pub length-write_at : length (write_at f (n * 4096) d) ≡ max (length f) (n * 4096 + 4096)
  length-write_at = rw no_hole (omega (arith, length-splice_near f (n * 4096) d near))

  pub HasPages-write_at :
      (k : ℕ) → HasPages f k → HasPages (write_at f (n * 4096) d) (max k (n + 1))
  HasPages-write_at k h = omega (arith, length-write_at)

  pub block-write_at : block (write_at f (n * 4096) d) n ≡ d
  unfolding block
  block-write_at = rw no_hole (slice-splice_near_self f (n * 4096) d near 4096 image)

  pub block-write_at_ne : (m : ℕ) → m ≢ n → block (write_at f (n * 4096) d) m ≡ block f m
  unfolding block
  block-write_at_ne m ne = rw no_hole (elim (dec_lt m n) [
    | yes p ↦ slice-splice_near f (n * 4096) d near (m * 4096) 4096 (inl (omega arith))
    | no p ↦ slice-splice_near f (n * 4096) d near (m * 4096) 4096 (inr (omega arith))
  ])
