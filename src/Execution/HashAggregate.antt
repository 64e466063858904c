-- ===== src/Execution/HashAggregate.antt =====
-- `HashAggregate` of queryx/execution/operators.py. The dictionary of the groups and the list of its
-- keys are one list of groups, in the order in which the keys were first seen; a group keeps the
-- values of an aggregate at the place of the aggregate, where the source keeps them under its label.
pub mod Partition
use query_x_engine.Common.{
  ℕ, zero, suc, Bool, true, false, Option, none, some, List, [], ◌∷◌, ◌++◌, if◌then◌else◌, length,
  leb, ◌+◌, get_elem?, Result, ok, raise, key_error, index_error, attribute_error, out_of_fuel,
  ◌>>=◌,
}
use query_x_engine.Common.Exec.{Exec, pure, throw, lift}
use query_x_engine.Common.Exec
use query_x_engine.Common.Dict.{get, has, put}
use query_x_engine.Storage.Row.{Text}
use query_x_engine.Sql.Ast.{Expr, column, aggregate}
use query_x_engine.Execution.Evaluate.{
  Row, Datum, truth, evaluate, at_position, column_index, aggregate_label, aggregates_in,
}
use query_x_engine.Execution.Filter.{same_row}
use query_x_engine.Execution.Aggregate.{Aggregate, Totals, no_totals, count_row, finalize, labels}

-- a group: its key, and what has been counted of its rows
pub record Group : Type 0 where
  pub key : Row
  pub totals : Totals

-- `[p for p in projections if isinstance(p, ast.Aggregate)]`
unfoldable pub aggregates_of : List Expr → List Aggregate
aggregates_of [] = []
aggregates_of (aggregate func arg ∷ projections) = (func, arg) ∷ aggregates_of projections
aggregates_of (_ ∷ projections) = aggregates_of projections

-- `aggregates_in(having)`
unfoldable pub in_having : Option Expr → List Aggregate
in_having none = []
in_having (some e) = aggregates_in e

-- the loop over `seen.setdefault(...)`: the first aggregate with each label
unfoldable pub first_labelled : List (Text × Aggregate) → List Aggregate → Result (List Aggregate)
first_labelled seen [] = ok []
first_labelled seen (a ∷ aggs) = do
  label ← aggregate_label a.0 a.1
  rest ← first_labelled (put label a seen) aggs
  ok (if has label seen then rest else a ∷ rest)

-- the aggregates that `HashAggregate.__init__` finds
unfoldable pub all_aggregates : List Expr → Option Expr → Result (List Aggregate)
unfolding aggregates_of in_having first_labelled
all_aggregates projections having =
    first_labelled [] (aggregates_of projections ++ in_having having)

-- the name under which a projection stands in the output
unfoldable pub output_name : Expr → Result Text
output_name (column c) = ok c.name
output_name (aggregate func arg) = aggregate_label func arg
output_name _ = raise attribute_error

unfoldable pub output_names : List Expr → Result (List Text)
unfolding output_name
output_names [] = ok []
output_names (p ∷ projections) =
    let rest = output_names projections in do name ← output_name p; names ← rest; ok (name ∷ names)

-- `tuple(row[idx[c]] for c in self._group_cols)`
unfoldable pub group_key : List Text → List (Text × ℕ) → Row → Result Row
unfolding at_position
group_key [] idx row = ok []
group_key (c ∷ columns) idx row =
    let rest = group_key columns idx row in
    do d ← at_position row (get c idx); ds ← rest; ok (d ∷ ds)

module _ (aggs : List Aggregate) (idx : List (Text × ℕ)) where
  -- a row is counted in the group of its key, or in a new one behind the others
  unfoldable pub add_row : Row → Row → List Group → Result (List Group)
  unfolding count_row no_totals same_row
  add_row key row [] = do
    t ← count_row aggs idx row (no_totals aggs)
    ok (record { key = key; totals = t } ∷ [])
  add_row key row (g ∷ groups) =
      let others = add_row key row groups in
      if same_row g.key key
      then (do
        t ← count_row aggs idx row g.totals
        ok (record { key = g.key; totals = t } ∷ groups))
      else (do gs ← others; ok (g ∷ gs))

  -- the body of the loop of `HashAggregate.open`
  unfoldable pub group_row : List Text → Row → List Group → Result (List Group)
  unfolding group_key add_row
  group_row columns row groups = do key ← group_key columns idx row; add_row key row groups

  -- the loop; the fuel bounds the rows of the child
  unfoldable pub group_rows :
      {S : Type 0} → Exec S (Option Row) → List Text → ℕ → List Group → Exec S (List Group)
  unfolding group_row
  group_rows child columns zero groups = throw out_of_fuel
  group_rows child columns (suc fuel) groups = Exec.◌>>=◌ child (elim [
    | none ↦ pure groups
    | some r ↦ Exec.◌>>=◌ (lift (group_row columns r groups)) (group_rows child columns fuel)
  ])

-- `dict(zip(self._group_cols, key))`
unfoldable pub key_map : List Text → Row → List (Text × Datum) → List (Text × Datum)
key_map [] key vmap = vmap
key_map (c ∷ columns) [] vmap = vmap
key_map (c ∷ columns) (d ∷ key) vmap = key_map columns key (put c d vmap)

-- `vmap[label] = _finalize(...)`, for each aggregate
unfoldable pub add_finals :
    List Aggregate
    → List Text
    → ℕ
    → List (List Datum)
    → List (Text × Datum)
    → Result (List (Text × Datum))
add_finals (a ∷ aggs) (label ∷ names) n (ds ∷ values) vmap = do
  d ← finalize a.0 n ds
  add_finals aggs names n values (put label d vmap)
add_finals _ _ n values vmap = ok vmap

-- `tuple(vmap[n] for n in names)`
unfoldable pub in_map : List (Text × Datum) → List Text → Result Row
in_map vmap [] = ok []
in_map vmap (n ∷ names) =
    let rest = in_map vmap names in
    elim (get n vmap) [ none ↦ raise key_error | some d ↦ do ds ← rest; ok (d ∷ ds) ]

-- whether the group passes HAVING
unfoldable pub passes : Option Expr → List Text → List (Text × Datum) → Result Bool
unfolding in_map
passes none names vmap = ok true
passes (some having) names vmap = do
  row ← in_map vmap names
  d ← evaluate having row (column_index names)
  ok (truth d)

-- the second half of `HashAggregate.open`, over the groups
unfoldable pub emit_groups :
    List Aggregate
    → List Text
    → List Text
    → List Text
    → Option Expr
    → List Group
    → Result (List Row)
unfolding key_map add_finals passes in_map
emit_groups aggs columns names outputs having [] = ok []
emit_groups aggs columns names outputs having (g ∷ groups) =
    let rest = emit_groups aggs columns names outputs having groups in
    do
      vmap ← add_finals aggs names g.totals.count g.totals.values (key_map columns g.key [])
      keep ← passes having (columns ++ names) vmap
      row ← if keep then (do r ← in_map vmap outputs; ok (some r)) else ok none
      rows ← rest
      ok (elim row [ none ↦ rows | some r ↦ r ∷ rows ])

-- `HashAggregate.open`, which returns the rows
unfoldable pub hash_aggregate_open :
    {S : Type 0}
    → Exec S (Option Row)
    → ℕ
    → List Text
    → List Text
    → List Expr
    → Option Expr
    → Exec S (List Row)
unfolding all_aggregates output_names group_rows emit_groups
hash_aggregate_open child fuel names columns projections having =
    Exec.◌>>=◌ (lift (all_aggregates projections having)) (λ aggs.
      Exec.◌>>=◌ (lift (output_names projections)) (λ outputs.
        Exec.◌>>=◌ (lift (labels aggs)) (λ ls.
          Exec.◌>>=◌ (group_rows aggs (column_index names) child columns fuel [])
            (λ groups. lift (emit_groups aggs columns ls outputs having groups)))))

-- `HashAggregate.next`: the rows and the position
unfoldable pub hash_aggregate_next : Exec (List Row × ℕ) (Option Row)
hash_aggregate_next (rows, at) =
    if leb (length rows) at then (ok none, (rows, at)) else elim (get_elem? rows at) [
      | none ↦ (raise index_error, (rows, at))
      | some r ↦ (ok (some r), (rows, at + 1))
    ]
