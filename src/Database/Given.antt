-- ===== src/Database/Given.antt =====
-- Where the values of a row that passes the checks of INSERT stand in the statement.
use mathlib.Core.Path.{subst}
use query_x_engine.Common.{
  true, ◌≡◌, ap, ◌∙◌, false, not, Option, none, some, List, [], ◌∷◌, length, ◌==◌, ==_iff,
  Bool-cases, ◌⊎◌, inl, inr, arith, ok, >>=-eq-ok,
}
use query_x_engine.Common.Bytes.{bytes_eq, bytes_eq→eq}
use query_x_engine.Common.Dict.{get}
use query_x_engine.Storage.Row.{Text, ColumnType, Value}
use query_x_engine.Sql.Ast.{
  Expr, column, literal, star, aggregate, comparison, and_node, or_node, not_node,
}
use query_x_engine.Catalog.{TableInfo, ColumnInfo}
use query_x_engine.Database.Rows.{
  same_type, checked_value, checked_values, provided, found, ordered, all_columns, has_twice,
  in_table_order, resolve_row,
}
use query_x_engine.Database.Values.{same_type-eq, found-some}

-- an expression stands under a name of a column list
abbrev pub StandsUnder : Text → Expr → List Text → List Expr → Type 0
StandsUnder name e (n ∷ names) (x ∷ exprs) = ((n ≡ name) × (x ≡ e)) ⊎ StandsUnder name e names exprs
StandsUnder name e _ _ = ⊥

-- each column has its value under its name, as a literal of its type
abbrev pub ByName : List Text → List Expr → List ColumnInfo → List Value → Type 0
ByName names exprs [] [] = Unit
ByName names exprs (c ∷ columns) (v ∷ values) =
    StandsUnder c.name (literal v c.type) names exprs × ByName names exprs columns values
ByName names exprs _ _ = ⊥

-- each column has its value in its place, as a literal of its type
abbrev pub InOrder : List Expr → List ColumnInfo → List Value → Type 0
InOrder [] [] [] = Unit
InOrder (e ∷ exprs) (c ∷ columns) (v ∷ values) =
    (e ≡ literal v c.type) × InOrder exprs columns values
InOrder _ _ _ = ⊥

-- What a row that passes gives to the columns, without a column list and with one.
abbrev pub Gives : TableInfo → Option (List Text) → List Expr → List Value → Type 0
Gives info none exprs values = InOrder exprs info.columns values
Gives info (some names) exprs values =
    (length names ≡ length exprs)
    × (has_twice names ≡ false)
    × (all_columns info names ≡ true)
    × ByName names exprs info.columns values

checked_value-literal :
    (t : ColumnType) (e : Expr) (v : Value) → checked_value t e ≡ ok v → e ≡ literal v t
unfolding checked_value
checked_value-literal t (literal w u) v e = elim (Bool-cases (same_type u t)) [
  | inl same ↦
      let eq : w ≡ v = ground (arith, rw same at e) in
      ap (λ (x : Value). literal x u) eq ∙ ap (literal v) (same_type-eq u t same)
  | inr other ↦ absurd (ground (arith, rw other at e))
]
checked_value-literal t (column c) v e = cc
checked_value-literal t star v e = cc
checked_value-literal t (aggregate f a) v e = cc
checked_value-literal t (comparison op a b) v e = cc
checked_value-literal t (and_node a b) v e = cc
checked_value-literal t (or_node a b) v e = cc
checked_value-literal t (not_node a) v e = cc

checked_values-InOrder :
    (columns : List ColumnInfo) (exprs : List Expr) (values : List Value)
    → length exprs ≡ length columns
    → checked_values columns exprs ≡ ok values
    → InOrder exprs columns values
unfolding checked_values
checked_values-InOrder [] [] values n h =
    let same : [] ≡ values = ground (arith, h) in subst (InOrder [] []) same tt
checked_values-InOrder [] (e ∷ exprs) values n h = absurd (omega arith)
checked_values-InOrder (c ∷ columns) [] values n h = absurd (omega arith)
checked_values-InOrder (c ∷ columns) (e ∷ exprs) values n h =
    let (v, f, h1) = >>=-eq-ok (checked_value c.type e) _ h in
    let (vs, g, h2) = >>=-eq-ok (checked_values columns exprs) _ h1 in
    let same : v ∷ vs ≡ values = ground (arith, h2) in
    subst (InOrder (e ∷ exprs) (c ∷ columns)) same
      (checked_value-literal c.type e v f, checked_values-InOrder columns exprs vs (omega arith) g)

provided-StandsUnder :
    (names : List Text) (exprs : List Expr) (name : Text) (e : Expr)
    → get name (provided names exprs) ≡ some e
    → StandsUnder name e names exprs
unfolding provided get
provided-StandsUnder [] exprs name e h = cc
provided-StandsUnder (n ∷ names) [] name e h = cc
provided-StandsUnder (n ∷ names) (x ∷ exprs) name e h = elim (Bool-cases (bytes_eq n name)) [
  | inl same ↦ inl (bytes_eq→eq n name same, ground (arith, rw same at h))
  | inr other ↦ inr (provided-StandsUnder names exprs name e (rw other at h))
]

ordered-ByName :
    (names : List Text) (exprs : List Expr) (columns : List ColumnInfo) (es : List Expr)
    (values : List Value)
    → ordered columns (provided names exprs) ≡ ok es
    → checked_values columns es ≡ ok values
    → ByName names exprs columns values
unfolding ordered checked_values
ordered-ByName names exprs [] es values h g =
    let same : [] ≡ values = ground (arith, g) in subst (ByName names exprs []) same tt
ordered-ByName names exprs (c ∷ columns) es values h g =
    let (x, f, h1) = >>=-eq-ok (found (get c.name (provided names exprs))) _ h in
    let (rest, r, h2) = >>=-eq-ok (ordered columns (provided names exprs)) _ h1 in
    let same : x ∷ rest ≡ es = ground (arith, h2) in
    let checked : checked_values (c ∷ columns) (x ∷ rest) ≡ ok values =
      ap (checked_values (c ∷ columns)) same ∙ g in
    let (v, k, g1) = >>=-eq-ok (checked_value c.type x) _ checked in
    let (vs, l, g2) = >>=-eq-ok (checked_values columns rest) _ g1 in
    let whole : v ∷ vs ≡ values = ground (arith, g2) in
    subst (ByName names exprs (c ∷ columns)) whole (
      subst (λ (e : Expr). StandsUnder c.name e names exprs) (checked_value-literal c.type x v k)
          (provided-StandsUnder names exprs c.name x
            (found-some (get c.name (provided names exprs)) x f)),
      ordered-ByName names exprs columns rest vs r l,
    )

-- A row that passes the checks of INSERT gives each column of the table a value that the statement
-- has as a literal of the column's type. Without a column list it stands in the place of the column,
-- and there are as many values as columns; with a list it stands under the name of the column, the
-- list names columns of the table, none of them twice, and is as long as the row.
pub resolve_row-Gives :
    (info : TableInfo) (columns : Option (List Text)) (exprs : List Expr) (values : List Value)
    → resolve_row info columns exprs ≡ ok values
    → Gives info columns exprs values
unfolding resolve_row in_table_order
resolve_row-Gives info none exprs values h =
    let (es, f, g) = >>=-eq-ok (in_table_order info none exprs) _ h in
    elim (Bool-cases (length exprs == length info.columns)) [
      | inl same ↦
          let eq : exprs ≡ es = ground (arith, rw same at f) in
          checked_values-InOrder info.columns exprs values ((==_iff _ _).0 same)
            (ap (checked_values info.columns) eq ∙ g)
      | inr other ↦ absurd (ground (arith, rw other at f))
    ]
resolve_row-Gives info (some names) exprs values h =
    let (es, f, g) = >>=-eq-ok (in_table_order info (some names) exprs) _ h in
    elim (Bool-cases (not (all_columns info names))) [
      | inl bad ↦ absurd (ground (arith, rw bad at f))
      | inr known ↦ elim (Bool-cases (has_twice names)) [
        | inl twice ↦ absurd (ground (arith, rw (known, twice) at f))
        | inr once ↦ elim (Bool-cases (length names == length exprs)) [
          | inr other ↦ absurd (ground (arith, rw (known, once, other) at f))
          | inl same ↦ (
            (==_iff _ _).0 same,
            once,
            ground (arith, known),
            ordered-ByName names exprs info.columns es values (rw (known, once, same) at f) g,
          )
        ]
      ]
    ]
