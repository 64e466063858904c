-- ===== src/Tests/Indexes.antt =====
-- A bucket page of two entries.
use query_x_engine.Common.{◌≡◌, List, [], ◌∷◌, arith, length, ok}
use query_x_engine.Common.Int.{ℤ, pos, negsuc}
use query_x_engine.Common.Bytes.{Bytes}
use query_x_engine.Storage.Page.{page_size}
use query_x_engine.Storage.HeapFile.{RowId}
use query_x_engine.Index.HashIndex.Buckets.{bucket_bytes, read_bucket}
use query_x_engine.Index.HashIndex.RoundTrip.{read_bucket-bucket_bytes}

abbrev two_entries : List (ℤ × RowId)
two_entries =
    (pos 42, record { page_no = 3; slot = 1 }) ∷ (negsuc 0, record { page_no = 4; slot = 0 }) ∷ []

read_bucket-bucket_bytes_example :
    (raw : Bytes) × (bucket_bytes two_entries 9 ≡ ok raw)
    × (length raw ≡ page_size)
    × (read_bucket raw ≡ ok (two_entries, 9))
read_bucket-bucket_bytes_example =
    read_bucket-bucket_bytes two_entries 9
      ((omega arith, omega arith, omega arith), ((omega arith, omega arith, omega arith), tt))
      (omega arith) (omega arith)
