-- ===== src/Storage/Page/Contents.antt =====
-- The reads of a page, `get_record`, `records` and `_find_dead_slot`, by the page's contents.
use query_x_engine.Common.{
  ℕ, zero, suc, ◌+◌, ◌≤◌, ◌≡◌, refl, Option, none, some, List, [], ◌∷◌, arith, ltb, ltb→lt, ltb→le,
  Bool-cases, inl, inr, get_elem?, tabulate, get_elem?-tabulate, length, length-tabulate, Result,
  ok, raise, index_error,
}
use query_x_engine.Common.Bytes.{Bytes}
use query_x_engine.Storage.Page.{
  Page, num_slots, find_dead_from, find_dead_slot, records_from, records, get_record,
}
use query_x_engine.Storage.Page.Layout.{cell, contents}
use query_x_engine.Storage.Page.Valid.{IsValid, slot-IsValid}

-- the first dead cell, counted from `i`
unfoldable pub first_dead : ℕ → List (Option Bytes) → Option ℕ
first_dead i [] = none
first_dead i (none ∷ cells) = some i
first_dead i (some r ∷ cells) = first_dead (i + 1) cells

-- the live cells with their numbers, counted from `i`
unfoldable pub live : ℕ → List (Option Bytes) → List (ℕ × Bytes)
live i [] = []
live i (none ∷ cells) = live (i + 1) cells
live i (some r ∷ cells) = (i, r) ∷ live (i + 1) cells

find_dead_from-first_dead :
    (p : Page) (i left : ℕ)
    → IsValid p
    → i + left ≤ num_slots p
    → find_dead_from p i left ≡ ok (first_dead i (tabulate i left (cell p)))
unfolding find_dead_from first_dead tabulate cell
find_dead_from-first_dead p i zero v h = refl
find_dead_from-first_dead p i (suc left) v h =
    rw (slot-IsValid p i v (omega arith))
      (ground (arith, find_dead_from-first_dead p (i + 1) left v (omega arith)))

pub find_dead_slot_lem : (p : Page) → IsValid p → find_dead_slot p ≡ ok (first_dead 0 (contents p))
unfolding find_dead_slot contents
find_dead_slot_lem p v = find_dead_from-first_dead p 0 (num_slots p) v (omega arith)

records_from-live :
    (p : Page) (i left : ℕ)
    → IsValid p
    → i + left ≤ num_slots p
    → records_from p i left ≡ ok (live i (tabulate i left (cell p)))
unfolding records_from live tabulate cell
records_from-live p i zero v h = refl
records_from-live p i (suc left) v h =
    rw (slot-IsValid p i v (omega arith))
      (rw (records_from-live p (i + 1) left v (omega arith)) (ground arith))

-- On a valid page `records` raises nothing and yields the live cells with their slot numbers, in
-- slot order.
pub records-live : (p : Page) → IsValid p → records p ≡ ok (live 0 (contents p))
unfolding records contents
records-live p v = records_from-live p 0 (num_slots p) v (omega arith)

-- a read of the contents, as `get_record` reports it
unfoldable pub cell_at : List (Option Bytes) → ℕ → Result (Option Bytes)
cell_at cells i = elim (get_elem? cells i) [ none ↦ raise index_error | some c ↦ ok c ]

pub get_elem?_past {ℓ} : {A : Type ℓ} (xs : List A) (i : ℕ) → length xs ≤ i → get_elem? xs i ≡ none
get_elem?_past [] i h = refl
get_elem?_past (x ∷ xs) zero h = absurd (omega arith)
get_elem?_past (x ∷ xs) (suc i) h = get_elem?_past xs i (omega arith)

-- On a valid page `get_record` returns the cell of the slot, `None` for a dead one, and raises
-- `IndexError` exactly for a slot number past the end.
pub get_record-contents : (p : Page) (i : ℕ) → IsValid p → get_record p i ≡ cell_at (contents p) i
unfolding get_record contents cell_at
get_record-contents p i v = elim (Bool-cases (ltb i (num_slots p))) [
  | inl inside ↦ rw inside (
      rw (slot-IsValid p i v (ltb→lt _ _ inside)) (
        rw
          (
            get_elem?-tabulate 0 (num_slots p) (cell p) i i (ltb→lt _ _ inside) (omega arith),
            cell_at,
          )
          (unfold cell in ground arith)))
  | inr past ↦ rw past (
      rw (
        get_elem?_past (tabulate 0 (num_slots p) (cell p)) i
            (omega (arith, length-tabulate 0 (num_slots p) (cell p), ltb→le _ _ past)),
        cell_at,
      ))
]
