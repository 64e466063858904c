-- ===== src/Storage/Pager/Redo.antt =====
-- Writing a sequence of page images, and redoing it on a file that a crash left behind.
use Prim.Native.Nat.{max}
use query_x_engine.Common.{
  ℕ, ◌+◌, ◌*◌, ◌≤◌, ◌<◌, ◌≡◌, ◌≢◌, refl, sym, ◌∙◌, Option, none, some, List, [], ◌∷◌, ◌++◌, arith,
  length, ◌==◌, if◌then◌else◌,
}
use query_x_engine.Common.Bytes.{Bytes}
use query_x_engine.Storage.File.{
  write_at, block, length-write_at, block-write_at, block-write_at_ne,
}
use query_x_engine.Wal.Recovery.{apply_all}
use native.Mathlib.Decide.{ℕ_discrete}

-- a logged write of a page
abbrev pub Entry : Type 0
Entry = ℕ × Bytes

-- `_apply_recovered_page`
abbrev pub apply_recovered_page : ℕ → Bytes → Bytes → Bytes
apply_recovered_page page_no d f = write_at f (page_no * 4096) d

-- Images of a page each, of which none leaves a hole in a file of `k` pages, or a longer one.
abbrev pub IsRun : ℕ → List Entry → Type 0
IsRun k [] = Unit
IsRun k (e ∷ es) = (e.0 ≤ k) × (length e.1 ≡ 4096) × IsRun (max k (e.0 + 1)) es

-- the number of pages after the run
abbrev pub extent : ℕ → List Entry → ℕ
extent k [] = k
extent k (e ∷ es) = extent (max k (e.0 + 1)) es

-- the last image of a page in the run
unfoldable pub last_image : ℕ → List Entry → Option Bytes
last_image m [] = none
last_image m (e ∷ es) = elim (last_image m es) [
  | some d ↦ some d
  | none ↦ if e.0 == m then some e.1 else none
]

abbrev pub or_block : Option Bytes → Bytes → Bytes
or_block none b = b
or_block (some d) b = d

pub IsRun-append :
    (k : ℕ) (es : List Entry) (n : ℕ) (d : Bytes)
    → IsRun k es
    → n ≤ extent k es
    → length d ≡ 4096
    → IsRun k (es ++ ((n, d) ∷ []))
IsRun-append k [] n d h p q = (p, q, tt)
IsRun-append k (e ∷ es) n d (a, b, h) p q = (a, b, IsRun-append (max k (e.0 + 1)) es n d h p q)

pub extent-append :
    (k : ℕ) (es : List Entry) (n : ℕ) (d : Bytes)
    → extent k (es ++ ((n, d) ∷ [])) ≡ max (extent k es) (n + 1)
extent-append k [] n d = refl
extent-append k (e ∷ es) n d = extent-append (max k (e.0 + 1)) es n d

pub last_image-append :
    (m : ℕ) (es : List Entry) (n : ℕ) (d : Bytes)
    → last_image m (es ++ ((n, d) ∷ [])) ≡ (if n == m then some d else last_image m es)
unfolding last_image
last_image-append m [] n d = refl
last_image-append m (e ∷ es) n d = ground (arith, last_image-append m es n d)

pub le-extent : (k : ℕ) (es : List Entry) → k ≤ extent k es
le-extent k [] = omega arith
le-extent k (e ∷ es) = omega (arith, le-extent (max k (e.0 + 1)) es)

-- A page that the run added to the file has an image in the run.
pub last_image_new :
    (k : ℕ) (es : List Entry) (m : ℕ)
    → IsRun k es
    → k ≤ m
    → m < extent k es
    → last_image m es ≢ none
unfolding last_image
last_image_new k [] m h a b = absurd (omega arith)
last_image_new k (e ∷ es) m (p, q, h) a b = elim (ℕ_discrete e.0 m) [
  | yes eq ↦ ground arith
  | no ne ↦ ground (arith, last_image_new (max k (e.0 + 1)) es m h (omega arith) b)
]

pub block_written :
    (f : Bytes) (e : Entry) (m : ℕ)
    → e.0 * 4096 ≤ length f
    → length e.1 ≡ 4096
    → block (write_at f (e.0 * 4096) e.1) m ≡ (if e.0 == m then e.1 else block f m)
block_written f e m near image = elim (ℕ_discrete e.0 m) [
  | yes eq ↦ rw (← eq) (rw (block-write_at f e.0 e.1 near image) (ground arith))
  | no ne ↦ rw (block-write_at_ne f e.0 e.1 near image m (λ q. ne (sym q))) (ground arith)
]

-- The last image of each page is what the file holds after the run; no other page changes.
pub block-apply_all :
    (k : ℕ) (es : List Entry) (f : Bytes) (m : ℕ)
    → IsRun k es
    → k * 4096 ≤ length f
    → block (apply_all apply_recovered_page es f) m ≡ or_block (last_image m es) (block f m)
unfolding last_image apply_all
block-apply_all k [] f m h near = refl
block-apply_all k (e ∷ es) f m (p, q, h) near =
    block-apply_all (max k (e.0 + 1)) es (write_at f (e.0 * 4096) e.1) m h
      (omega (arith, length-write_at f e.0 e.1 (omega arith) q))
    ∙ rw (block_written f e m (omega arith) q) (ground arith)

pub length-apply_all :
    (k : ℕ) (es : List Entry) (f : Bytes)
    → IsRun k es
    → k * 4096 ≤ length f
    → length (apply_all apply_recovered_page es f) ≡ max (length f) (extent k es * 4096)
unfolding apply_all
length-apply_all k [] f h near = omega arith
length-apply_all k (e ∷ es) f (p, q, h) near = omega (
  arith,
  length-apply_all (max k (e.0 + 1)) es (write_at f (e.0 * 4096) e.1) h
      (omega (arith, length-write_at f e.0 e.1 (omega arith) q)),
  length-write_at f e.0 e.1 (omega arith) q,
  le-extent (max k (e.0 + 1)) es,
)
