-- ===== src/Database/Refused.antt =====
-- An INSERT that the checks refuse.
use query_x_engine.Common.{
  ℕ, ◌≡◌, refl, ap, Bool, true, false, if◌then◌else◌, Option, none, some, List, [], ◌∷◌, ◌++◌,
  length, not, ◌==◌, ok, raise, query_error, Result, Result-cases, ◌>>=◌, inl, inr, arith,
}
use query_x_engine.Common.Bytes.{Bytes}
use query_x_engine.Common.Dict.{get}
use query_x_engine.Storage.Row.{Builtins, Text, ColumnType, Value}
use query_x_engine.Sql.Ast.{
  Expr, column, literal, star, aggregate, comparison, and_node, or_node, not_node,
}
use query_x_engine.Catalog as Names
use query_x_engine.Catalog.{TableInfo, ColumnInfo}
use query_x_engine.Database.{Database, on_catalog, open_table}
use query_x_engine.Database.Rows.{
  all_columns, has_twice, provided, checked_value, checked_values, found, ordered, in_table_order,
  resolve_row, resolve_rows,
}
use query_x_engine.Database.Given.{Gives, resolve_row-Gives}
use query_x_engine.Database.Dml.{insert}
use query_x_engine.Database.Writes.{IsOpen}

-- what raises nothing but `QueryError`
abbrev Refusable : {A : Type 0} → Result A → Type 0
Refusable (ok a) = Unit
Refusable (raise e) = e ≡ query_error

Refusable-bind :
    {A B : Type 0} (m : Result A) (f : A → Result B)
    → Refusable m
    → ((a : A) → Refusable (f a))
    → Refusable (m >>= f)
Refusable-bind (ok a) f h g = g a
Refusable-bind (raise e) f h g = h

Refusable-if :
    {A : Type 0} (b : Bool) (m n : Result A)
    → Refusable m
    → Refusable n
    → Refusable (if b then m else n)
Refusable-if true m n h k = h
Refusable-if false m n h k = k

checked_value-Refusable : (t : ColumnType) (e : Expr) → Refusable (checked_value t e)
unfolding checked_value
checked_value-Refusable t (literal v u) = ground arith
checked_value-Refusable t (column c) = refl
checked_value-Refusable t star = refl
checked_value-Refusable t (aggregate f a) = refl
checked_value-Refusable t (comparison op a b) = refl
checked_value-Refusable t (and_node a b) = refl
checked_value-Refusable t (or_node a b) = refl
checked_value-Refusable t (not_node a) = refl

checked_values-Refusable :
    (columns : List ColumnInfo) (exprs : List Expr) → Refusable (checked_values columns exprs)
unfolding checked_values
checked_values-Refusable [] exprs = tt
checked_values-Refusable (c ∷ columns) [] = tt
checked_values-Refusable (c ∷ columns) (e ∷ exprs) =
    Refusable-bind (checked_value c.type e) _ (checked_value-Refusable c.type e) λ v.
      Refusable-bind (checked_values columns exprs) _ (checked_values-Refusable columns exprs)
        λ vs. tt

found-Refusable : (o : Option Expr) → Refusable (found o)
unfolding found
found-Refusable none = refl
found-Refusable (some e) = tt

ordered-Refusable :
    (columns : List ColumnInfo) (given : List (Text × Expr)) → Refusable (ordered columns given)
unfolding ordered
ordered-Refusable [] given = tt
ordered-Refusable (c ∷ columns) given =
    Refusable-bind (found (get c.name given)) _ (found-Refusable (get c.name given))
      λ e. Refusable-bind (ordered columns given) _ (ordered-Refusable columns given) λ es. tt

in_table_order-Refusable :
    (info : TableInfo) (columns : Option (List Text)) (exprs : List Expr)
    → Refusable (in_table_order info columns exprs)
unfolding in_table_order
in_table_order-Refusable info none exprs = ground arith
in_table_order-Refusable info (some names) exprs =
    Refusable-if (not (all_columns info names)) _ _ refl (
      Refusable-if (has_twice names) _ _ refl (
        Refusable-if (length names == length exprs) _ _
          (ordered-Refusable info.columns (provided names exprs)) refl))

resolve_row-Refusable :
    (info : TableInfo) (columns : Option (List Text)) (exprs : List Expr)
    → Refusable (resolve_row info columns exprs)
unfolding resolve_row
resolve_row-Refusable info columns exprs =
    Refusable-bind (in_table_order info columns exprs) _
      (in_table_order-Refusable info columns exprs) λ es. checked_values-Refusable info.columns es

refused :
    {A : Type 0} (m : Result A) → Refusable m → ((a : A) → m ≡ ok a → ⊥) → m ≡ raise query_error
refused (ok a) r h = absurd (h a refl)
refused (raise e) r h = ap raise r

-- one row that does not give the columns their values is enough
resolve_rows-refused :
    (info : TableInfo) (columns : Option (List Text)) (before : List (List Expr)) (row : List Expr)
    (after : List (List Expr))
    → ((values : List Value) → Gives info columns row values → ⊥)
    → resolve_rows info columns (before ++ (row ∷ after)) ≡ raise query_error
unfolding resolve_rows
resolve_rows-refused info columns [] row after none_given =
    rw
      (refused (resolve_row info columns row) (resolve_row-Refusable info columns row)
        λ values h. none_given values (resolve_row-Gives info columns row values h))
      refl
resolve_rows-refused info columns (r ∷ before) row after none_given =
    elim (Result-cases (resolve_row info columns r)) [
      | inl (values, good) ↦
          rw good (rw (resolve_rows-refused info columns before row after none_given) refl)
      | inr (e, bad) ↦
          let same : e ≡ query_error = rw bad at (resolve_row-Refusable info columns r) in
          rw bad (ap raise same)
    ]

module _ (py : Builtins) (crc32 : Bytes → ℕ) where
  -- If a row of an INSERT into an open table of the catalog does not give each column of the table
  -- a literal of its type, in its place or under its name in a column list of different columns of
  -- the table as long as the row, the statement raises `QueryError` and stores no row, not even one
  -- of those before it: the database, its catalog, rows and indexes, is as it was.
  pub insert-unchanged :
      (table : Text) (columns : Option (List Text)) (before : List (List Expr)) (row : List Expr)
      (after : List (List Expr)) (info : TableInfo) (s : Database)
      → IsOpen table info s
      → ((values : List Value) → ¬ Gives info columns row values)
      → insert py crc32 table columns (before ++ (row ∷ after)) s ≡ (raise query_error, s)
  unfolding insert on_catalog Names.get_table Names.or_catalog_error open_table
  insert-unchanged table columns before row after info s o bad =
      rw o.info_of
        (rw o.file_open (rw (resolve_rows-refused info columns before row after bad) refl))
