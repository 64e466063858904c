-- ===== src/Database/Plan.antt =====
-- The operator trees that queryx/database.py builds, and their iteration: a plan is what the
-- constructors were given, and `State` is what the objects keep once they are open. Tables and
-- indexes stay in the database, which every call may change. `SeqScan` reads its records on `open`;
-- each loop over a child takes the same fuel.
pub mod Rows
use query_x_engine.Common.{
  ℕ, Bool, true, false, Option, none, some, List, [], ◌∷◌, ◌++◌, Result, ok, raise, key_error,
  type_error,
}
use query_x_engine.Common
use query_x_engine.Common.Exec.{Exec, pure, throw, lift, gets, modify, ◌>>=◌, ◌>>◌}
use query_x_engine.Common.Bytes.{Bytes}
use query_x_engine.Common.Dict.{get, put}
use query_x_engine.Storage.Row.{Builtins, Text, ColumnType, num}
use query_x_engine.Storage.HeapFile
use query_x_engine.Storage.HeapFile.{RowId}
use query_x_engine.Sql.Ast.{Expr, OrderItem}
use query_x_engine.Execution.Evaluate.{Row, Datum, value, column_index, full_names}
use query_x_engine.Execution.Operators.{positions, projection_next, limit_next}
use query_x_engine.Execution.Filter.{filter_next, distinct_next}
use query_x_engine.Execution.Join.{Loop, drain, join_next}
use query_x_engine.Execution.Scans.{IndexLoop, seq_scan_next, index_scan_next, index_join_next}
use query_x_engine.Execution.Sort.{sort_open, sort_next}
use query_x_engine.Execution.Aggregate.{Aggregate, labels, aggregate_open, aggregate_next}
use query_x_engine.Execution.HashAggregate.{output_names, hash_aggregate_open, hash_aggregate_next}
use query_x_engine.Database.{Database, on_heap}
use query_x_engine.Database.Reads.{index_search}

-- a scan of a table: its name, and the names and types of its columns
pub record Source : Type 0 where
  pub table : Text
  pub names : List Text
  pub types : List ColumnType

pub data Plan : Type 0 where
  seq_scan : Source → Plan
  index_scan : Source → List RowId → Plan
  filter : Expr → Plan → Plan
  projection : List Text → Plan → Plan
  sort : List OrderItem → Plan → Plan
  limit : ℕ → Plan → Plan
  distinct : Plan → Plan
  aggregates : List Aggregate → Plan → Plan
  hash_aggregate : List Text → List Expr → Option Expr → Plan → Plan
  nested_loop_join : Source → Source → Expr → Plan
  index_join : Source → Source → Text → Text → Plan

-- the fields of an `IndexNestedLoopJoin` that are its own
pub record Probes : Type 0 where
  pub left : List (RowId × Bytes)
  pub left_row : Option Row
  pub pending : List RowId

-- the fields of an open operator, with those of its child
abbrev pub State : Plan → Type 0
State (seq_scan source) = List (RowId × Bytes)
State (index_scan source ids) = List RowId
State (filter e p) = State p
State (projection names p) = State p × List ℕ
State (sort items p) = State p × (List Row × ℕ)
State (limit count p) = State p × ℕ
State (distinct p) = State p × List Row
State (aggregates aggs p) = State p × (Row × Bool)
State (hash_aggregate columns projections having p) = State p × (List Row × ℕ)
State (nested_loop_join l r on) = Loop (List (RowId × Bytes))
State (index_join l r key index) = Probes

-- `column_names`
unfoldable pub names_of : Plan → Result (List Text)
unfolding labels output_names
names_of (seq_scan source) = ok source.names
names_of (index_scan source ids) = ok source.names
names_of (filter e p) = names_of p
names_of (projection names p) = ok names
names_of (sort items p) = names_of p
names_of (limit count p) = names_of p
names_of (distinct p) = names_of p
names_of (aggregates aggs p) = labels aggs
names_of (hash_aggregate columns projections having p) = output_names projections
names_of (nested_loop_join l r on) = ok (l.names ++ r.names)
names_of (index_join l r key index) = ok (l.names ++ r.names)

module _ {D S A B : Type 0} where
  -- a call on a part of an operator's fields
  unfoldable pub beside : Exec ((D × S) × A) B → Exec (D × (S × A)) B
  beside m (d, (s, a)) =
      ((m ((d, s), a)).0, ((m ((d, s), a)).1.0.0, ((m ((d, s), a)).1.0.1, (m ((d, s), a)).1.1)))

  unfoldable pub of_child : Exec (D × S) B → Exec (D × (S × A)) B
  of_child m (d, (s, a)) = ((m (d, s)).0, ((m (d, s)).1.0, ((m (d, s)).1.1, a)))

  unfoldable pub of_own : Exec A B → Exec (D × (S × A)) B
  of_own m (d, (s, a)) = ((m a).0, (d, (s, (m a).1)))

-- a call on the second component
unfoldable pub on_state : {D S B : Type 0} → Exec S B → Exec (D × S) B
on_state m (d, s) = ((m s).0, (d, (m s).1))

unfoldable pub paired : {S B : Type 0} → S → Result B → Result (B × S)
paired s (ok b) = ok (b, s)
paired s (raise error) = raise error

-- a call on the fields of an open operator, which returns them too
unfoldable pub with_state : {D S B : Type 0} → S → Exec (D × S) B → Exec D (B × S)
unfolding paired
with_state s m d = (paired (m (d, s)).1.1 (m (d, s)).0, (m (d, s)).1.0)

-- `QueryResult`
pub record QueryResult : Type 0 where
  pub columns : List Text
  pub rows : List Row

module _ (py : Builtins) (crc32 : Bytes → ℕ) where
  -- `self._heap.get(...)` of an index scan, in the table's heap file
  unfoldable pub index_next : Source → Exec (Database × List RowId) (Option Row)
  unfolding index_scan_next
  index_next source (d, ids) = elim (get source.table d.tables) [
    | none ↦ (raise key_error, (d, ids))
    | some h ↦
        let after = index_scan_next py crc32 source.types (h, ids) in
        (after.0, (record d { tables = put source.table after.1.0 d.tables }, after.1.1))
  ]

  -- `right_index.search(key)`; a string raises, as for `_rowids_for`
  unfoldable pub search_for : Text → Datum → Exec Database (List RowId)
  unfolding index_search
  search_for index (value (num n)) = index_search crc32 index n
  search_for index _ = throw type_error

  -- `IndexNestedLoopJoin.next`, with the heap file and the index of the right table
  unfoldable pub probe_next :
      ℕ → Source → Source → Text → Text → Exec (Database × Probes) (Option Row)
  unfolding seq_scan_next index_join_next search_for
  probe_next fuel l r key index (d, s) = elim (get r.table d.tables) [
    | none ↦ (raise key_error, (d, s))
    | some h ↦
        let after =
          index_join_next py crc32 (seq_scan_next py l.types) (search_for index)
            (column_index l.names) key r.types fuel
            (record {
              left = s.left;
              right_heap = h;
              right_index = d;
              left_row = s.left_row;
              pending = s.pending;
            }) in
        let d' = after.1.right_index in
        (
          after.0,
          (
            record d' { tables = put r.table after.1.right_heap d'.tables },
            record { left = after.1.left; left_row = after.1.left_row; pending = after.1.pending },
          ),
        )
  ]

  module _ (fuel : ℕ) where
    -- `next`
    unfoldable pub next : (p : Plan) → Exec (Database × State p) (Option Row)
    next (seq_scan source) = on_state (seq_scan_next py source.types)
    next (index_scan source ids) = index_next source
    next (filter e p) = elim (names_of p) [
      | raise error ↦ throw error
      | ok names ↦ filter_next (next p) fuel e (column_index names)
    ]
    next (projection names p) = λ (d, (s, at)). of_child (projection_next (next p) at) (d, (s, at))
    next (sort items p) = of_own sort_next
    next (limit count p) = beside (limit_next (next p) count)
    next (distinct p) = beside (distinct_next (next p) fuel)
    next (aggregates aggs p) = of_own aggregate_next
    next (hash_aggregate columns projections having p) = of_own hash_aggregate_next
    next (nested_loop_join l r on) =
        on_state (join_next (seq_scan_next py l.types) fuel on (column_index (l.names ++ r.names)))
    next (index_join l r key index) = probe_next fuel l r key index

    -- `open`
    unfoldable pub open_plan : (p : Plan) → Exec Database (State p)
    unfolding on_heap names_of positions sort_open aggregate_open hash_aggregate_open with_state
    open_plan (seq_scan source) = on_heap source.table (HeapFile.scan crc32)
    open_plan (index_scan source ids) = pure ids
    open_plan (filter e p) = open_plan p
    open_plan (projection names p) = do
      s ← open_plan p
      child ← lift (names_of p)
      at ← lift (positions (column_index child) names)
      pure (s, at)
    open_plan (sort items p) = do
      s ← open_plan p
      child ← lift (names_of p)
      (rows, s') ← with_state s (sort_open (next p) fuel (column_index child) items)
      pure (s', (rows, 0))
    open_plan (limit count p) = do s ← open_plan p; pure (s, 0)
    open_plan (distinct p) = do s ← open_plan p; pure (s, [])
    open_plan (aggregates aggs p) = do
      s ← open_plan p
      child ← lift (names_of p)
      (r, s') ← with_state s (aggregate_open (next p) aggs (full_names 0 child []) fuel)
      pure (s', (r, false))
    open_plan (hash_aggregate columns projections having p) = do
      s ← open_plan p
      child ← lift (names_of p)
      (rows, s') ← with_state s (hash_aggregate_open (next p) fuel child columns projections having)
      pure (s', (rows, 0))
    open_plan (nested_loop_join l r on) = do
      left ← on_heap l.table (HeapFile.scan crc32)
      right ← on_heap r.table (HeapFile.scan crc32)
      rights ← lift (drain (seq_scan_next py r.types) fuel right).0
      pure (record { left = left; right_rows = rights; left_row = none; ri = 0 })
    open_plan (index_join l r key index) = do
      left ← on_heap l.table (HeapFile.scan crc32)
      pure (record { left = left; left_row = none; pending = [] })

    -- `QueryResult(columns=list(root.column_names), rows=list(root))`
    unfoldable pub run : Plan → Exec Database QueryResult
    unfolding names_of open_plan with_state
    run p = do
      columns ← lift (names_of p)
      s ← open_plan p
      (rows, _) ← with_state s (drain (next p) fuel)
      pure (record { columns = columns; rows = rows })
