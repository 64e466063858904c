-- ===== src/Wal/Recovery.antt =====
-- `replay` of queryx/wal/recovery.py: every intact record is applied, in the order of the log.
use query_x_engine.Common.{ℕ, ◌+◌, ◌≡◌, List, [], ◌∷◌, arith, length}
use query_x_engine.Common.Bytes.{Bytes}
use query_x_engine.Wal.Log.{records}

-- the loop over the records, with the count of those applied
replay_from {ℓ} : {F : Type ℓ} → (ℕ → Bytes → F → F) → ℕ → List (ℕ × Bytes) → F → ℕ × F
replay_from apply_page count [] file = (count, file)
replay_from apply_page count ((page_no, d) ∷ es) file =
    replay_from apply_page (count + 1) es (apply_page page_no d file)

unfoldable pub replay {ℓ} : {F : Type ℓ} → (Bytes → ℕ) → Bytes → (ℕ → Bytes → F → F) → F → ℕ × F
unfolding replay_from
replay crc32 log apply_page file = replay_from apply_page 0 (records crc32 log) file

-- the effect of the writes alone
unfoldable pub apply_all {ℓ} : {F : Type ℓ} → (ℕ → Bytes → F → F) → List (ℕ × Bytes) → F → F
apply_all apply_page [] file = file
apply_all apply_page (e ∷ es) file = apply_all apply_page es (apply_page e.0 e.1 file)

replay_from-apply_all {ℓ} :
    {F : Type ℓ} (apply_page : ℕ → Bytes → F → F) (count : ℕ) (es : List (ℕ × Bytes)) (file : F)
    → replay_from apply_page count es file ≡ (count + length es, apply_all apply_page es file)
unfolding replay_from apply_all
replay_from-apply_all apply_page count [] file = ground arith
replay_from-apply_all apply_page count (e ∷ es) file =
    ground (arith, replay_from-apply_all apply_page (count + 1) es (apply_page e.0 e.1 file))

pub replay-apply_all {ℓ} :
    {F : Type ℓ} (crc32 : Bytes → ℕ) (log : Bytes) (apply_page : ℕ → Bytes → F → F) (file : F)
    → replay crc32 log apply_page file
      ≡ (length (records crc32 log), apply_all apply_page (records crc32 log) file)
unfolding replay
replay-apply_all crc32 log apply_page file =
    ground (arith, replay_from-apply_all apply_page 0 (records crc32 log) file)
