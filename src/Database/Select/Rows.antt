-- ===== src/Database/Select/Rows.antt =====
-- What a SELECT returns, from the rows that its scan yields.
use query_x_engine.Common.{
  ℕ, ◌≤◌, ◌<◌, ◌≡◌, refl, ap, ◌∙◌, Bool, true, false, Option, none, some, List, [], ◌∷◌, map,
  length, take, length-take, arith, Result, ok,
}
use mathlib.Core.Path.{subst}
use query_x_engine.Common.Exec.{Exec, continue-ok}
use query_x_engine.Common.Int.{ℤ, pos_part}
use query_x_engine.Common.Bytes.{Bytes}
use query_x_engine.Common.Dict.{get}
use query_x_engine.Storage.Row.{Builtins, Text, Value}
use query_x_engine.Storage.HeapFile.{HeapFile}
use query_x_engine.Storage.HeapFile.Valid.{IsValid}
use query_x_engine.Storage.HeapFile.Scan as Scan
use query_x_engine.Sql.Ast.{OrderItem, Select, star}
use query_x_engine.Catalog
use query_x_engine.Catalog.{Catalog, TableInfo}
use query_x_engine.Execution.Evaluate.{Row, value, column_index}
use query_x_engine.Execution.Filter.{first_seen}
use query_x_engine.Execution.Scans.{Decode}
use query_x_engine.Execution.Sort.{sort_rows}
use query_x_engine.Execution.Sort.Order.{length-sort_rows}
use query_x_engine.Execution.HashAggregate.{aggregates_of}
use query_x_engine.Planner.Statistics.{Floats}
use query_x_engine.Database.{Database, on_catalog}
use query_x_engine.Database.Rows.{validate_columns, validate_where}
use query_x_engine.Database.Plan.{Plan, Source, QueryResult, seq_scan, names_of}
use query_x_engine.Database.Plan.Rows.{
  Produces, seq_scan-Produces, limit-Produces, distinct-Produces, sort-Produces, run-Produces,
}
use query_x_engine.Database.Select.{
  limit_by, distinct_if, limited, order_items, sorted, any_star, rows_plan, select_plan, build_scan,
  select, select_table,
}

-- DISTINCT and then LIMIT, on a list of rows
unfoldable pub distinct_rows : Bool → List Row → List Row
distinct_rows false rows = rows
distinct_rows true rows = first_seen [] rows

unfoldable pub limit_rows : Option ℤ → List Row → List Row
limit_rows none rows = rows
limit_rows (some n) rows = take (pos_part n) rows

-- the columns by which a query sorts
abbrev pub order_columns : Select → List Text
order_columns stmt = map (λ (o : OrderItem). o.column) (order_items stmt.order_by)

length-first_seen : (seen rows : List Row) → length (first_seen seen rows) ≤ length rows
unfolding first_seen
length-first_seen seen [] = omega arith
length-first_seen seen (r ∷ rows) =
    ground (arith, length-first_seen seen rows, length-first_seen (r ∷ seen) rows)

length-take_le : (n : ℕ) (rows : List Row) → length (take n rows) ≤ length rows
length-take_le n rows = ground (arith, length-take n rows)

length-distinct_rows : (b : Bool) (rows : List Row) → length (distinct_rows b rows) ≤ length rows
unfolding distinct_rows
length-distinct_rows false rows = omega arith
length-distinct_rows true rows = length-first_seen [] rows

length-limit_rows : (n : Option ℤ) (rows : List Row) → length (limit_rows n rows) ≤ length rows
unfolding limit_rows
length-limit_rows none rows = omega arith
length-limit_rows (some n) rows = length-take_le (pos_part n) rows

names_of-distinct_if : (b : Bool) (p : Plan) → names_of (distinct_if b p) ≡ names_of p
unfolding distinct_if names_of
names_of-distinct_if false p = refl
names_of-distinct_if true p = refl

names_of-limit_by : (n : Option ℤ) (p : Plan) → names_of (limit_by n p) ≡ names_of p
unfolding limit_by names_of
names_of-limit_by none p = refl
names_of-limit_by (some n) p = refl

names_of-sorted : (items : List OrderItem) (p : Plan) → names_of (sorted items p) ≡ names_of p
unfolding sorted names_of
names_of-sorted [] p = refl
names_of-sorted (o ∷ items) p = refl

module _ (py : Builtins) (crc32 : Bytes → ℕ) (fuel : ℕ) where
  distinct_if-Produces :
      (b : Bool) (p : Plan) (d : Database) (rows : List Row)
      → length rows < fuel
      → Produces py crc32 fuel p d rows
      → Produces py crc32 fuel (distinct_if b p) d (distinct_rows b rows)
  unfolding distinct_if distinct_rows
  distinct_if-Produces false p d rows enough h = h
  distinct_if-Produces true p d rows enough h = distinct-Produces py crc32 fuel p d rows enough h

  limit_by-Produces :
      (n : Option ℤ) (p : Plan) (d : Database) (rows : List Row)
      → Produces py crc32 fuel p d rows
      → Produces py crc32 fuel (limit_by n p) d (limit_rows n rows)
  unfolding limit_by limit_rows
  limit_by-Produces none p d rows h = h
  limit_by-Produces (some n) p d rows h = limit-Produces py crc32 fuel (pos_part n) p d rows h

  sorted-Produces :
      (items : List OrderItem) (p : Plan) (d : Database) (rows ordered : List Row)
      (names : List Text)
      → names_of p ≡ ok names
      → length rows < fuel
      → Produces py crc32 fuel p d rows
      → sort_rows (column_index names) items rows ≡ ok ordered
      → Produces py crc32 fuel (sorted items p) d ordered
  unfolding sorted sort_rows
  sorted-Produces [] p d rows ordered names named enough h e =
      let same : rows ≡ ordered = ground (arith, e) in subst (Produces py crc32 fuel p d) same h
  sorted-Produces (o ∷ items) p d rows ordered names named enough h e =
      sort-Produces py crc32 fuel (o ∷ items) p d rows ordered names named enough h e

  -- A sequential scan of a valid heap file whose records decode yields the values of every row of
  -- the file that is not deleted, in the order of the pages and of their slots.
  pub table-Produces :
      (k : ℕ) (source : Source) (d : Database) (h : HeapFile) (values : List (List Value))
      → get source.table d.tables ≡ some h
      → IsValid crc32 k h
      → Decode py source.types (Scan.rows crc32 k h) values
      → Produces py crc32 fuel (seq_scan source) d (map (λ v. map value v) values)
  table-Produces k source d h values at v decoded =
      let (h', call, _) = Scan.scan-rows crc32 k h v in
      seq_scan-Produces py crc32 fuel source d h h' (Scan.rows crc32 k h) values at call decoded

  limited-Produces :
      (stmt : Select) (p : Plan) (d : Database) (rows : List Row)
      → length rows < fuel
      → Produces py crc32 fuel p d rows
      → Produces py crc32 fuel
          (limited stmt p)
          d
          (limit_rows stmt.limit (distinct_rows stmt.distinct rows))
  unfolding limited
  limited-Produces stmt p d rows enough h =
      limit_by-Produces stmt.limit (distinct_if stmt.distinct p) d
        (distinct_rows stmt.distinct rows) (distinct_if-Produces stmt.distinct p d rows enough h)

  names_of-limited : (stmt : Select) (p : Plan) → names_of (limited stmt p) ≡ names_of p
  unfolding limited
  names_of-limited stmt p =
      names_of-limit_by stmt.limit (distinct_if stmt.distinct p)
      ∙ names_of-distinct_if stmt.distinct p

  -- the plan of `SELECT *`
  star_plan :
      (stmt : Select) (info : TableInfo) (root : Plan)
      → stmt.group_by ≡ none
      → stmt.projections ≡ star ∷ []
      → validate_columns info (order_columns stmt) ≡ ok tt
      → select_plan stmt info root ≡ ok (limited stmt (sorted (order_items stmt.order_by) root))
  unfolding select_plan rows_plan any_star aggregates_of
  star_plan stmt info root g s v = rw (g, s, select_plan, aggregates_of) (rw s (rw v refl))

  select_one :
      (f : Floats) (stmt : Select)
      → stmt.join ≡ none
      → select py crc32 fuel f stmt ≡ select_table py crc32 fuel f stmt
  unfolding select
  select_one f stmt j = rw (j, select) refl

  -- `SELECT *` from one table, whose checks pass and whose scan produces some rows that the ORDER BY
  -- items sort without an error, returns the sorted rows under the scan's column names: with
  -- DISTINCT without those that equal an earlier one, and then with LIMIT at most that many. Fuel
  -- above the number of rows is enough.
  pub select-star :
      (f : Floats) (stmt : Select) (info : TableInfo) (d0 d1 : Database) (root : Plan)
      (names : List Text) (rows ordered : List Row)
      → stmt.join ≡ none
      → stmt.group_by ≡ none
      → stmt.projections ≡ star ∷ []
      → on_catalog (Catalog.get_table stmt.table) d0 ≡ (ok info, d0)
      → validate_where info stmt.where_expr ≡ ok tt
      → validate_columns info (order_columns stmt) ≡ ok tt
      → build_scan py crc32 f info stmt.table stmt.where_expr d0 ≡ (ok root, d1)
      → names_of root ≡ ok names
      → Produces py crc32 fuel root d1 rows
      → sort_rows (column_index names) (order_items stmt.order_by) rows ≡ ok ordered
      → length rows < fuel
      → (d2 : Database) × (select py crc32 fuel f stmt d0 ≡ (
        ok (record {
          columns = names;
          rows = limit_rows stmt.limit (distinct_rows stmt.distinct ordered);
        }),
        d2,
      ))
  unfolding select_table
  select-star f stmt info d0 d1 root names rows ordered j g s i w v b named h o enough =
      let few : length ordered < fuel = omega (
        arith,
        length-sort_rows (column_index names) (order_items stmt.order_by) rows ordered o,
        enough,
      ) in
      let p = limited stmt (sorted (order_items stmt.order_by) root) in
      let less = length-limit_rows stmt.limit (distinct_rows stmt.distinct ordered) in
      let fewer = length-distinct_rows stmt.distinct ordered in
      let (d2, call) =
        run-Produces py crc32 fuel p d1
          (limit_rows stmt.limit (distinct_rows stmt.distinct ordered)) names
          (names_of-limited stmt (sorted (order_items stmt.order_by) root)
            ∙ names_of-sorted (order_items stmt.order_by) root
            ∙ named)
          (omega (arith, few, less, fewer))
          (limited-Produces stmt (sorted (order_items stmt.order_by) root) d1 ordered few (
            sorted-Produces (order_items stmt.order_by) root d1 rows ordered names named enough h
              o)) in
      (
        d2,
        ap (λ (m : Exec Database QueryResult). m d0) (select_one f stmt j)
            ∙ continue-ok _ i (
                continue-ok _ (ap (λ (r : Result (Unit {0})). (r, d0)) w) (
                  continue-ok _ b (
                    continue-ok _
                      (ap (λ (r : Result Plan). (r, d1)) (star_plan stmt info root g s v)) call))),
      )
