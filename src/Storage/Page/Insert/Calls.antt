-- ===== src/Storage/Page/Insert/Calls.antt =====
-- The calls of `insert_record` that write the header and the slots raise nothing where they fit.
use query_x_engine.Common.{ℕ, ◌+◌, ◌*◌, ◌≤◌, ◌<◌, ◌≡◌, ◌++◌, arith, length, ok}
use query_x_engine.Common.Bytes.{write_into_fits}
use query_x_engine.Common.Bytes.Words.{le_bytes, length-le_bytes, pack_fits}
use query_x_engine.Storage.Page.{Page, set_num_slots, set_free_end, set_slot}
use query_x_engine.Storage.Page.Writes.{write_count, write_end, write_slot, length-slot_bytes}

module _ (p : Page) where
  pub set_num_slots_fits :
      (n : ℕ) → n < 65536 → 4 ≤ length p → set_num_slots p n ≡ ok (write_count p n)
  unfolding set_num_slots
  set_num_slots_fits n h k =
      rw (pack_fits 2 n h) (write_into_fits p 0 (le_bytes 2 n) (omega (arith, length-le_bytes 2 n)))

  pub set_free_end_fits : (o : ℕ) → o < 65536 → 4 ≤ length p → set_free_end p o ≡ ok (write_end p o)
  unfolding set_free_end
  set_free_end_fits o h k =
      rw (pack_fits 2 o h) (write_into_fits p 2 (le_bytes 2 o) (omega (arith, length-le_bytes 2 o)))

  pub set_slot_fits :
      (i a b : ℕ)
      → a < 65536
      → b < 65536
      → 8 + i * 4 ≤ length p
      → set_slot p i a b ≡ ok (write_slot p i a b)
  unfolding set_slot
  set_slot_fits i a b h k r = rw (pack_fits 2 a h) (
      rw (pack_fits 2 b k) (
        write_into_fits p (4 + i * 4) (le_bytes 2 a ++ le_bytes 2 b)
          (omega (arith, length-slot_bytes a b))))
