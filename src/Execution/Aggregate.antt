-- ===== src/Execution/Aggregate.antt =====
-- `Aggregate` of queryx/execution/operators.py. The rows under an aggregate are those of a scan, so
-- that `sum` adds integers; the quotient of AVG is the float that Python's `/` of two integers
-- rounds to, half to even.
use query_x_engine.Common.{
  ℕ, zero, suc, ◌+◌, ◌-◌, ◌*◌, ◌/◌, ◌%◌, ◌^◌, Bool, true, false, Option, none, some, List, [], ◌∷◌,
  ◌++◌, map, length, ltb, ◌==◌, if◌then◌else◌, Result, ok, raise, type_error, out_of_fuel, ◌>>=◌,
}
use query_x_engine.Common.Exec.{Exec, pure, throw, lift}
use query_x_engine.Common.Exec
use query_x_engine.Common.Int.{ℤ, pos, negsuc, ◌+ℤ◌}
use query_x_engine.Common.Dict.{get}
use query_x_engine.Storage.Row.{Text, num}
use query_x_engine.Sql.Tokens
use query_x_engine.Sql.Ast.{
  Expr, AggregateFunc, count_func, sum_func, avg_func, min_func, max_func, column,
}
use query_x_engine.Execution.Evaluate.{
  Row, Datum, value, float, null, number, order_of, compare_by, at_position, aggregate_label,
}

-- an `ast.Aggregate`: its function and its argument
abbrev pub Aggregate : Type 0
Aggregate = AggregateFunc × Expr

-- sum(values), from a start
unfoldable pub sum_from : ℤ → List Datum → Result ℤ
unfolding number
sum_from n [] = ok n
sum_from n (d ∷ ds) = elim (number d) [ none ↦ raise type_error | some m ↦ sum_from (n +ℤ m) ds ]

-- n / d, to the nearest integer, half to even
unfoldable pub rounded : ℕ → ℕ → ℕ
rounded n d =
    if ltb (2 * (n % d)) d
    then n / d
    else if ltb d (2 * (n % d))
    then n / d + 1
    else (if (n / d) % 2 == 0 then n / d else n / d + 1)

-- the bits of `n`, with fuel above their number
unfoldable pub bit_length : ℕ → ℕ → ℕ
bit_length zero n = 0
bit_length (suc fuel) n = elim n [ zero ↦ 0 | suc m ↦ suc (bit_length fuel (suc m / 2)) ]

-- the float nearest to n / d, with a significand of 53 bits, as a multiple of 2 ^ -1074
unfoldable pub nearest : ℕ → ℕ → ℕ
unfolding rounded bit_length
nearest n d =
    let unit = 2 ^ (bit_length (n * 2 ^ 1074 / d) (n * 2 ^ 1074 / d) - 53) in
    rounded (n * 2 ^ 1074) (d * unit) * unit

-- `n / d` in Python, for an integer and a count that is not 0
unfoldable pub quotient : ℤ → ℕ → ℤ
unfolding nearest
quotient (pos n) d = pos (nearest n d)
quotient (negsuc n) d = pos 0 +ℤ negsuc (nearest (suc n) d - 1)

-- min(values) and max(values), from the first one: an element replaces the best one so far only if
-- it is less, or greater
unfoldable pub best_from : Tokens.TokenType → Datum → List Datum → Result Datum
unfolding compare_by order_of
best_from op best [] = ok best
best_from op best (d ∷ ds) = do
  better ← compare_by op (order_of d best)
  best_from op (if better then d else best) ds

-- the end of `Aggregate.open` for one aggregate, and `_finalize`
unfoldable pub finalize : AggregateFunc → ℕ → List Datum → Result Datum
unfolding sum_from quotient best_from
finalize count_func n ds = ok (value (num (pos n)))
finalize _ n [] = ok null
finalize sum_func n (d ∷ ds) = do total ← sum_from (pos 0) (d ∷ ds); ok (value (num total))
finalize avg_func n (d ∷ ds) = do
  total ← sum_from (pos 0) (d ∷ ds)
  ok (float (quotient total (length (d ∷ ds))))
finalize min_func n (d ∷ ds) = best_from Tokens.lt_token d ds
finalize max_func n (d ∷ ds) = best_from Tokens.gt_token d ds

-- what a row adds to the values of an aggregate: nothing, or the datum of its column
unfoldable pub collect : Expr → List (Text × ℕ) → Row → List Datum → Result (List Datum)
unfolding at_position
collect (column c) idx row ds = do d ← at_position row (get c.name idx); ok (ds ++ (d ∷ []))
collect _ idx row ds = ok ds

unfoldable pub collect_all :
    List Aggregate → List (Text × ℕ) → Row → List (List Datum) → Result (List (List Datum))
unfolding collect
collect_all [] idx row values = ok []
collect_all (a ∷ aggs) idx row [] = ok []
collect_all (a ∷ aggs) idx row (ds ∷ values) =
    let rest = collect_all aggs idx row values in
    do more ← collect a.1 idx row ds; others ← rest; ok (more ∷ others)

-- the accumulators: the rows so far, and the values of each aggregate
pub record Totals : Type 0 where
  pub count : ℕ
  pub values : List (List Datum)

-- `count = 0` and `[[] for _ in aggregates]`
unfoldable pub no_totals : List Aggregate → Totals
no_totals aggs = record { count = 0; values = map (λ _. []) aggs }

-- the body of the loop of `Aggregate.open`
unfoldable pub count_row : List Aggregate → List (Text × ℕ) → Row → Totals → Result Totals
unfolding collect_all
count_row aggs idx row t = do
  values ← collect_all aggs idx row t.values
  ok (record { count = t.count + 1; values = values })

-- the values of the row that `Aggregate` emits
unfoldable pub finalize_all : List Aggregate → ℕ → List (List Datum) → Result Row
unfolding finalize
finalize_all [] n values = ok []
finalize_all (a ∷ aggs) n [] = ok []
finalize_all (a ∷ aggs) n (ds ∷ values) =
    let rest = finalize_all aggs n values in do d ← finalize a.0 n ds; more ← rest; ok (d ∷ more)

-- `[aggregate_label(a) for a in aggregates]`
unfoldable pub labels : List Aggregate → Result (List Text)
labels [] = ok []
labels (a ∷ aggs) =
    let rest = labels aggs in do l ← aggregate_label a.0 a.1; more ← rest; ok (l ∷ more)

module _ {S : Type 0} (child : Exec S (Option Row)) (aggs : List Aggregate)
    (idx : List (Text × ℕ)) where
  -- the loop of `Aggregate.open`; the fuel bounds the rows of the child
  unfoldable pub count_rows : ℕ → Totals → Exec S Totals
  unfolding count_row
  count_rows zero t = throw out_of_fuel
  count_rows (suc fuel) t = Exec.◌>>=◌ child (elim [
    | none ↦ pure t
    | some r ↦ Exec.◌>>=◌ (lift (count_row aggs idx r t)) (count_rows fuel)
  ])

  -- `Aggregate.open`, which returns the row
  unfoldable pub aggregate_open : ℕ → Exec S Row
  unfolding no_totals count_rows finalize_all
  aggregate_open fuel =
      Exec.◌>>=◌ (count_rows fuel (no_totals aggs)) (λ t. lift (finalize_all aggs t.count t.values))

-- `Aggregate.next`: the row, and whether it has been emitted
unfoldable pub aggregate_next : Exec (Row × Bool) (Option Row)
aggregate_next (row, true) = (ok none, (row, true))
aggregate_next (row, false) = (ok (some row), (row, true))
