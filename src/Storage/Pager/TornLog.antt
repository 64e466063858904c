-- ===== src/Storage/Pager/TornLog.antt =====
-- A log that holds one torn record and nothing else is not truncated when a pager opens.
use query_x_engine.Common.{ℕ, zero, suc, ◌<◌, ◌≡◌, refl, none, List, [], ◌∷◌, ◌++◌, arith, take}
use query_x_engine.Common.Bytes.{Bytes, slice, bytes_eq}
use query_x_engine.Storage.Pager.{recover}
use query_x_engine.Wal.Log.{next_record, records_loop, records}
use query_x_engine.Wal.Log.Records.{head, frame, frames}
use query_x_engine.Wal.Recovery.{replay-apply_all, apply_all}

module _ (crc32 : Bytes → ℕ) where
  -- one to three bytes of a record, then whole records
  no_record :
      (e : ℕ × Bytes) (k : ℕ) (es : List (ℕ × Bytes))
      → 0 < k
      → k < 4
      → next_record crc32 (take k (frame crc32 e) ++ frames crc32 es) ≡ none
  unfolding next_record frame frames head slice bytes_eq
  no_record e zero es a b = absurd (omega arith)
  no_record e (suc zero) [] a b = refl
  no_record e (suc zero) (d ∷ es) a b = ground arith
  no_record e (suc (suc zero)) [] a b = refl
  no_record e (suc (suc zero)) (d ∷ es) a b = ground arith
  no_record e (suc (suc (suc zero))) [] a b = refl
  no_record e (suc (suc (suc zero))) (d ∷ es) a b = ground arith
  no_record e (suc (suc (suc (suc k)))) es a b = absurd (omega arith)

  no_records :
      (e : ℕ × Bytes) (k : ℕ) (es : List (ℕ × Bytes))
      → 0 < k
      → k < 4
      → records crc32 (take k (frame crc32 e) ++ frames crc32 es) ≡ []
  unfolding records
  no_records e k es a b = rw (no_record e k es a b, records_loop)

  -- If a crash left one to three bytes of the first record of a log, then whatever records are
  -- appended behind them, reopening replays none of them: file and log come back as they were.
  pub recover_torn_first :
      (file : Bytes) (e : ℕ × Bytes) (k : ℕ) (es : List (ℕ × Bytes))
      → 0 < k
      → k < 4
      → recover crc32 file (take k (frame crc32 e) ++ frames crc32 es)
        ≡ (file, take k (frame crc32 e) ++ frames crc32 es)
  unfolding recover apply_all
  recover_torn_first file e k es a b =
      rw (replay-apply_all crc32 (take k (frame crc32 e) ++ frames crc32 es) _ file)
        (rw (no_records e k es a b))
