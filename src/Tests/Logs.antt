-- ===== src/Tests/Logs.antt =====
-- A log with a torn end.
use query_x_engine.Common.{ℕ, ◌≡◌, refl, List, [], ◌∷◌, ◌++◌, arith, take}
use query_x_engine.Common.Bytes.{Bytes}
use query_x_engine.Wal.Log.{records}
use query_x_engine.Wal.Log.Records.{frame, frames, head, records-frames_torn}

abbrev crc : Bytes → ℕ
crc d = 0

abbrev two_records : List (ℕ × Bytes)
two_records = (1, 10 ∷ 20 ∷ []) ∷ (2, 30 ∷ []) ∷ []

records-frames_torn_example :
    records crc (frames crc two_records ++ take 3 (frame crc (7, 9 ∷ []))) ≡ two_records
unfolding frame head
records-frames_torn_example =
    records-frames_torn crc two_records (take 3 (frame crc (7, 9 ∷ [])))
      ((omega arith, omega arith, omega arith), ((omega arith, omega arith, omega arith), tt))
      ((7, 9 ∷ []), (omega arith, omega arith, omega arith), (3, omega arith, refl))
