-- ===== src/Tests/Operators.antt =====
-- Operators over one that yields the rows of a list.
use query_x_engine.Common.{
  ℕ, ◌+◌, ◌≡◌, refl, sym, Bool, true, false, Option, none, some, List, [], ◌∷◌, ◌++◌, arith, ok,
  leb,
}
use query_x_engine.Common.Bytes.{bytes_eq}
use query_x_engine.Common.Dict.{get}
use query_x_engine.Common.Sorting.{stable_sort, put_in}
use query_x_engine.Sql.Tokens.{eq_token}
use query_x_engine.Sql.Ast.{
  Expr, OrderItem, count_func, star, column, literal, comparison, key, key_of,
}
use query_x_engine.Common.Exec.{Exec}
use query_x_engine.Common.Int.{pos}
use query_x_engine.Storage.Row.{Text, num, int}
use query_x_engine.Execution.Evaluate.{Row, Datum, value, bool, evaluate, truth}
use query_x_engine.Execution.Operators.{Yields, ended, row}
use query_x_engine.Execution.Filter.{
  filter_next, distinct_next, filter, first_seen, filter_next-filter, distinct_next-first_seen,
}
use query_x_engine.Execution.Join.{join_next, join_of, join_next-join_of}
use query_x_engine.Execution.Aggregate.{Aggregate, Totals, count_row, collect_all}
use query_x_engine.Execution.HashAggregate.{Group, group_key, group_rows}
use query_x_engine.Execution.HashAggregate.Partition.{Partition, group_rows-Partition}
use query_x_engine.Execution.Sort.{sort_rows, same_kind}
use query_x_engine.Execution.Sort.Order.{Sorted, sort_rows-Sorted}

abbrev next_of : Exec (List Row) (Option Row)
next_of [] = (ok none, [])
next_of (r ∷ rows) = (ok (some r), rows)

abbrev one : Row
one = value (num (pos 1)) ∷ []

abbrev two : Row
two = value (num (pos 2)) ∷ []

abbrev rows : List Row
rows = one ∷ two ∷ []

yields : Yields next_of rows rows
yields = row {s' = two ∷ []} refl (row {s' = []} refl (ended {s' = []} refl))

abbrev id : Text
id = 105 ∷ []

abbrev is_one : Expr
is_one =
    comparison eq_token (column (record { name = id; table = none })) (literal (num (pos 1)) int)

abbrev index_of : List (Text × ℕ)
index_of = (id, 0) ∷ []

abbrev first_is_one : Row → Bool
first_is_one [] = false
first_is_one (value (num (pos n)) ∷ _) = leb n 1
first_is_one (d ∷ _) = false

decides :
    (r : Row) (d : Bool)
    → evaluate is_one r index_of ≡ ok (bool d)
    → first_is_one r ≡ d
    → (x : Datum) × (evaluate is_one r index_of ≡ ok x) × (truth x ≡ first_is_one r)
unfolding truth
decides r d e f = (bool d, e, sym f)

one_is : evaluate is_one one index_of ≡ ok (bool true)
unfolding evaluate get bytes_eq key key_of
one_is = refl

two_is_not : evaluate is_one two index_of ≡ ok (bool false)
unfolding evaluate get bytes_eq key key_of
two_is_not = refl

filter_next-filter_example :
    Yields (filter_next next_of 3 is_one index_of) rows (filter first_is_one rows)
filter_next-filter_example =
    filter_next-filter next_of is_one index_of first_is_one 3 rows rows (omega arith) yields
      (decides one true one_is refl, (decides two false two_is_not refl, tt))

distinct_next-first_seen_example : Yields (distinct_next next_of 3) (rows, []) (first_seen [] rows)
distinct_next-first_seen_example = distinct_next-first_seen next_of 3 rows rows (omega arith) yields

one-two : evaluate is_one (one ++ two) index_of ≡ ok (bool true)
unfolding evaluate get bytes_eq key key_of
one-two = refl

two-two : evaluate is_one (two ++ two) index_of ≡ ok (bool false)
unfolding evaluate get bytes_eq key key_of
two-two = refl

join_next-join_of_example :
    Yields
      (join_next next_of 4 is_one index_of)
      (record { left = rows; right_rows = two ∷ []; left_row = none; ri = 0 })
      (join_of first_is_one rows (two ∷ []))
join_next-join_of_example =
    join_next-join_of next_of is_one index_of first_is_one 4 rows rows (two ∷ []) (omega arith)
      yields
      (
        (decides (one ++ two) true one-two refl, tt),
        ((decides (two ++ two) false two-two refl, tt), tt),
      )

abbrev by_id : List OrderItem
by_id = record { column = id; descending = true } ∷ []

sorted : sort_rows index_of by_id rows ≡ ok (two ∷ one ∷ [])
unfolding sort_rows get bytes_eq same_kind stable_sort put_in
sorted = refl

sort_rows-Sorted_example : Sorted index_of by_id rows (two ∷ one ∷ [])
sort_rows-Sorted_example = sort_rows-Sorted index_of by_id rows (two ∷ one ∷ []) sorted

-- COUNT(*) for each id
abbrev counted : List Aggregate
counted = (count_func, star) ∷ []

nothing_to_collect :
    (r : Row) (values : List (List Datum))
    → (vs : List (List Datum)) × (collect_all counted index_of r values ≡ ok vs)
unfolding collect_all
nothing_to_collect r [] = ([], refl)
nothing_to_collect r (ds ∷ values) = (ds ∷ [], refl)

counts_any : (r : Row) (t : Totals) → (t' : Totals) × (count_row counted index_of r t ≡ ok t')
unfolding count_row
counts_any r t =
    let (vs, e) = nothing_to_collect r t.values in
    (record { count = t.count + 1; values = vs }, rw e refl)

keys_one : group_key (id ∷ []) index_of one ≡ ok one
unfolding group_key get bytes_eq
keys_one = refl

keys_two : group_key (id ∷ []) index_of two ≡ ok two
unfolding group_key get bytes_eq
keys_two = refl

group_rows-Partition_example :
    (gs : List Group) × (s' : List Row) × (group_rows counted index_of next_of
        (id ∷ [])
        4
        []
        (one ∷ two ∷ one ∷ [])
      ≡ (ok gs, s'))
    × Partition counted index_of (id ∷ []) (λ r. r) (one ∷ two ∷ one ∷ []) gs
group_rows-Partition_example =
    group_rows-Partition counted index_of (id ∷ []) (λ r. r) next_of 4 (one ∷ two ∷ one ∷ [])
      (one ∷ two ∷ one ∷ []) (omega arith)
      (row {s' = two ∷ one ∷ []} refl
        (row {s' = one ∷ []} refl (row {s' = []} refl (ended {s' = []} refl))))
      ((keys_one, counts_any one), ((keys_two, counts_any two), ((keys_one, counts_any one), tt)))
