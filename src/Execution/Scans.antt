-- ===== src/Execution/Scans.antt =====
-- `SeqScan`, `IndexScan` and `IndexNestedLoopJoin` of queryx/execution/operators.py, the operators
-- that read a heap file. The generator of a sequential scan is the list of what it has still to
-- yield.
use query_x_engine.Common.{
  ℕ, zero, suc, ◌≡◌, refl, Option, none, some, List, [], ◌∷◌, ◌++◌, map, Result, ok, raise,
  out_of_fuel, assertion_error,
}
use query_x_engine.Common.Exec.{Exec, pure, throw, lift, gets, modify, ◌>>=◌, ◌>>◌}
use query_x_engine.Common.Bytes.{Bytes}
use query_x_engine.Common.Dict.{get}
use query_x_engine.Storage.Row.{Text, Builtins, ColumnType, Value, deserialize_row}
use query_x_engine.Storage.HeapFile
use query_x_engine.Storage.HeapFile.{HeapFile, RowId}
use query_x_engine.Execution.Evaluate.{Row, Datum, value, at_position}
use query_x_engine.Execution.Operators.{Yields, ended, row}

-- a tuple of values as a row
unfoldable pub row_of : Result (List Value) → Result (Option Row)
row_of (ok values) = ok (some (map value values))
row_of (raise e) = raise e

module _ (py : Builtins) where
  -- `SeqScan.next`
  unfoldable pub seq_scan_next : List ColumnType → Exec (List (RowId × Bytes)) (Option Row)
  unfolding row_of
  seq_scan_next types [] = (ok none, [])
  seq_scan_next types ((id, rec) ∷ rest) = (row_of (deserialize_row py types rec), rest)

  -- the records of a scan decode to the rows
  abbrev pub Decode : List ColumnType → List (RowId × Bytes) → List (List Value) → Type 0
  Decode types [] [] = Unit
  Decode types ((id, rec) ∷ items) (v ∷ rows) =
      (deserialize_row py types rec ≡ ok v) × Decode types items rows
  Decode types _ _ = ⊥

  -- Where the records of a heap file decode to some rows, `SeqScan` yields these rows in the order
  -- of the scan and ends.
  pub seq_scan_next-Yields :
      (types : List ColumnType) (items : List (RowId × Bytes)) (rows : List (List Value))
      → Decode types items rows
      → Yields (seq_scan_next types) items (map (λ v. map value v) rows)
  unfolding seq_scan_next
  seq_scan_next-Yields types [] [] h = ended {s' = []} refl
  seq_scan_next-Yields types [] (v ∷ rows) h = absurd h
  seq_scan_next-Yields types (i ∷ items) [] h = absurd h
  seq_scan_next-Yields types ((id, rec) ∷ items) (v ∷ rows) (e, h) =
      row {s' = items} (rw e refl) (seq_scan_next-Yields types items rows h)

module _ (py : Builtins) (crc32 : Bytes → ℕ) where
  -- `IndexScan.next`: the heap file and the row identifiers that are left
  unfoldable pub index_scan_from :
      List ColumnType → List RowId → Exec (HeapFile × List RowId) (Option Row)
  unfolding row_of
  index_scan_from types [] = do modify (λ s. (s.0, [])); pure none
  index_scan_from types (id ∷ ids) =
      let again = index_scan_from types ids in
      do
        modify (λ s. (s.0, ids))
        found ← λ s. ((HeapFile.get crc32 id s.0).0, ((HeapFile.get crc32 id s.0).1, s.1))
        elim found [ none ↦ again | some rec ↦ lift (row_of (deserialize_row py types rec)) ]

  unfoldable pub index_scan_next : List ColumnType → Exec (HeapFile × List RowId) (Option Row)
  unfolding index_scan_from
  index_scan_next types = do ids ← gets (λ s. s.1); index_scan_from types ids

  -- the fields of an `IndexNestedLoopJoin` that change, with the index that it probes
  pub record IndexLoop (S I : Type 0) : Type 0 where
    pub left : S
    pub right_heap : HeapFile
    pub right_index : I
    pub left_row : Option Row
    pub pending : List RowId

  module _ {S I : Type 0} (left : Exec S (Option Row)) (search : Datum → Exec I (List RowId))
      (left_idx : List (Text × ℕ)) (left_key : Text) (types : List ColumnType) where
    unfoldable pub joined : Option Row → Option Row → Exec (IndexLoop S I) (Option Row)
    joined (some l) (some r) = pure (some (l ++ r))
    joined (some l) none = pure none
    joined none r = throw assertion_error

    -- the loop over the matches that are left, and whether it returned a row
    unfoldable pub fetch_pending : List RowId → Exec (IndexLoop S I) (Option Row)
    unfolding row_of joined
    fetch_pending [] = do modify (λ s. record s { pending = [] }); pure none
    fetch_pending (id ∷ ids) =
        let again = fetch_pending ids in
        do
          modify (λ s. record s { pending = ids })
          found ← λ s. (
            (HeapFile.get crc32 id s.right_heap).0,
            record s { right_heap = (HeapFile.get crc32 id s.right_heap).1 },
          )
          elim found [
            | none ↦ again
            | some rec ↦ do
              r ← lift (row_of (deserialize_row py types rec))
              l ← gets (λ s. s.left_row)
              joined l r
          ]

    -- `IndexNestedLoopJoin.next`; the fuel bounds the left rows that it pulls
    unfoldable pub index_join_next : ℕ → Exec (IndexLoop S I) (Option Row)
    unfolding fetch_pending
    index_join_next zero = throw out_of_fuel
    index_join_next (suc fuel) =
        let again = index_join_next fuel in
        do
          ids ← gets (λ s. s.pending)
          match ← fetch_pending ids
          elim match [
            | some r ↦ pure (some r)
            | none ↦ do
              l ← λ s. ((left s.left).0, record s { left = (left s.left).1 })
              modify (λ s. record s { left_row = l })
              elim l [
                | none ↦ pure none
                | some r ↦ do
                  key ← lift (at_position r (get left_key left_idx))
                  found ← λ s. (
                    (search key s.right_index).0,
                    record s { right_index = (search key s.right_index).1 },
                  )
                  modify (λ s. record s { pending = found })
                  again
              ]
          ]
