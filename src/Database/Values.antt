-- ===== src/Database/Values.antt =====
-- The values of a row that passes the checks of INSERT.
use mathlib.Core.Path.{subst}
use query_x_engine.Common.{
  ◌≡◌, ◌≤◌, refl, true, not, Option, none, some, List, [], ◌∷◌, length, map, All, ◌==◌, ==_iff,
  Bool-cases, inl, inr, arith, ok, >>=-eq-ok,
}
use query_x_engine.Common.Bytes.{Bytes, bytes_eq}
use query_x_engine.Common.Bytes.Words.{Int64}
use query_x_engine.Common.Dict.{get}
use query_x_engine.Storage.Row.{
  Builtins, Text, ColumnType, int, text, Value, num, str, serialize_row, deserialize_row,
}
use query_x_engine.Storage.Row.RoundTrip.{Decodes, Storable, deserialize_row-serialize_row}
use query_x_engine.Sql.Ast.{
  Expr, column, literal, star, aggregate, comparison, and_node, or_node, not_node,
}
use query_x_engine.Catalog.{TableInfo, ColumnInfo, column_types}
use query_x_engine.Database.Rows.{
  same_type, checked_value, checked_values, provided, found, ordered, all_columns, has_twice,
  in_table_order, resolve_row,
}

-- a value of a column type
abbrev pub HasType : ColumnType → Value → Type 0
HasType int (num n) = Unit
HasType text (str s) = Unit
HasType _ _ = ⊥

abbrev pub HasTypes : List ColumnType → List Value → Type 0
HasTypes [] [] = Unit
HasTypes (t ∷ types) (v ∷ values) = HasType t v × HasTypes types values
HasTypes _ _ = ⊥

-- A literal of the type that it says; the parser makes no other.
abbrev pub Typed : Expr → Type 0
Typed (literal v t) = HasType t v
Typed _ = Unit

pub same_type-eq : (s t : ColumnType) → same_type s t ≡ true → s ≡ t
unfolding same_type
same_type-eq int int h = refl
same_type-eq text text h = refl
same_type-eq int text h = cc
same_type-eq text int h = cc

checked_value-HasType :
    (t : ColumnType) (e : Expr) (v : Value) → Typed e → checked_value t e ≡ ok v → HasType t v
unfolding checked_value
checked_value-HasType t (literal w u) v h e = elim (Bool-cases (same_type u t)) [
  | inl same ↦
      let eq : w ≡ v = ground (arith, rw same at e) in
      subst (HasType t) eq (subst (λ x. HasType x w) (same_type-eq u t same) h)
  | inr other ↦ absurd (ground (arith, rw other at e))
]
checked_value-HasType t (column c) v h e = cc
checked_value-HasType t star v h e = cc
checked_value-HasType t (aggregate f a) v h e = cc
checked_value-HasType t (comparison op a b) v h e = cc
checked_value-HasType t (and_node a b) v h e = cc
checked_value-HasType t (or_node a b) v h e = cc
checked_value-HasType t (not_node a) v h e = cc

types_of : List ColumnInfo → List ColumnType
types_of columns = map (λ (c : ColumnInfo). c.type) columns

checked_values-HasTypes :
    (columns : List ColumnInfo) (exprs : List Expr) (values : List Value)
    → length exprs ≡ length columns
    → All Typed exprs
    → checked_values columns exprs ≡ ok values
    → HasTypes (types_of columns) values
unfolding checked_values types_of
checked_values-HasTypes [] exprs values n t h =
    let same : [] ≡ values = ground (arith, h) in subst (HasTypes []) same tt
checked_values-HasTypes (c ∷ columns) [] values n t h = absurd (omega arith)
checked_values-HasTypes (c ∷ columns) (e ∷ exprs) values n (t, ts) h =
    let (v, f, h1) = >>=-eq-ok (checked_value c.type e) _ h in
    let (vs, g, h2) = >>=-eq-ok (checked_values columns exprs) _ h1 in
    let same : v ∷ vs ≡ values = ground (arith, h2) in
    subst (HasTypes (c.type ∷ types_of columns)) same (
      checked_value-HasType c.type e v t f,
      checked_values-HasTypes columns exprs vs (omega arith) ts g,
    )

provided-Typed :
    (names : List Text) (exprs : List Expr) (name : Text) (e : Expr)
    → All Typed exprs
    → get name (provided names exprs) ≡ some e
    → Typed e
unfolding provided get
provided-Typed [] exprs name e t h = cc
provided-Typed (n ∷ names) [] name e t h = cc
provided-Typed (n ∷ names) (x ∷ exprs) name e (t, ts) h = elim (Bool-cases (bytes_eq n name)) [
  | inl same ↦ subst Typed (ground (arith, rw same at h)) t
  | inr other ↦ provided-Typed names exprs name e ts (rw other at h)
]

pub found-some : (o : Option Expr) (e : Expr) → found o ≡ ok e → o ≡ some e
unfolding found
found-some none e h = cc
found-some (some x) e h = ground (arith, h)

ordered-Typed :
    (columns : List ColumnInfo) (given : List (Text × Expr)) (es : List Expr)
    → ((name : Text) (e : Expr) → get name given ≡ some e → Typed e)
    → ordered columns given ≡ ok es
    → (length es ≡ length columns) × All Typed es
unfolding ordered
ordered-Typed [] given es t h =
    let same : [] ≡ es = ground (arith, h) in
    subst (λ x. (length x ≡ 0) × All Typed x) same (refl, tt)
ordered-Typed (c ∷ columns) given es t h =
    let (x, e, h1) = >>=-eq-ok (found (get c.name given)) _ h in
    let (rest, f, h2) = >>=-eq-ok (ordered columns given) _ h1 in
    let (n, ts) = ordered-Typed columns given rest t f in
    let same : x ∷ rest ≡ es = ground (arith, h2) in
    subst (λ y. (length y ≡ length (c ∷ columns)) × All Typed y) same
      (omega (arith, n), (t c.name x (found-some (get c.name given) x e), ts))

in_table_order-Typed :
    (info : TableInfo) (columns : Option (List Text)) (exprs es : List Expr)
    → All Typed exprs
    → in_table_order info columns exprs ≡ ok es
    → (length es ≡ length info.columns) × All Typed es
unfolding in_table_order
in_table_order-Typed info none exprs es t h =
    elim (Bool-cases (length exprs == length info.columns)) [
      | inl same ↦
          let eq : exprs ≡ es = ground (arith, rw same at h) in
          subst (λ x. (length x ≡ length info.columns) × All Typed x) eq ((==_iff _ _).0 same, t)
      | inr other ↦ absurd (ground (arith, rw other at h))
    ]
in_table_order-Typed info (some names) exprs es t h =
    elim (Bool-cases (not (all_columns info names))) [
      | inl bad ↦ absurd (ground (arith, rw bad at h))
      | inr known ↦ elim (Bool-cases (has_twice names)) [
        | inl twice ↦ absurd (ground (arith, rw (known, twice) at h))
        | inr once ↦ elim (Bool-cases (length names == length exprs)) [
          | inr other ↦ absurd (ground (arith, rw (known, once, other) at h))
          | inl same ↦
              ordered-Typed info.columns (provided names exprs) es
                (λ name e g. provided-Typed names exprs name e t g) (rw (known, once, same) at h)
        ]
      ]
    ]

-- the values of a row that passes the checks of INSERT have the types of the columns
resolve_row-HasTypes :
    (info : TableInfo) (columns : Option (List Text)) (exprs : List Expr) (values : List Value)
    → All Typed exprs
    → resolve_row info columns exprs ≡ ok values
    → HasTypes (column_types info) values
unfolding resolve_row column_types types_of
resolve_row-HasTypes info columns exprs values t h =
    let (es, f, g) = >>=-eq-ok (in_table_order info columns exprs) _ h in
    let (n, ts) = in_table_order-Typed info columns exprs es t f in
    checked_values-HasTypes info.columns es values n ts g

-- the ranges that the checks of INSERT leave open: 64-bit numbers, texts of at most 65535 bytes
abbrev pub InRange : Builtins → Value → Type 0
InRange py (num n) = Int64 n
InRange py (str s) = (b : Bytes) × (py.encode s ≡ ok b) × (length b ≤ 65535)

HasTypes-Storable :
    (py : Builtins) (types : List ColumnType) (values : List Value)
    → HasTypes types values
    → All (InRange py) values
    → Storable py types values
HasTypes-Storable py [] [] h r = tt
HasTypes-Storable py [] (v ∷ values) h r = absurd h
HasTypes-Storable py (t ∷ types) [] h r = absurd h
HasTypes-Storable py (int ∷ types) (num n ∷ values) (h, hs) (r, rs) =
    (r, HasTypes-Storable py types values hs rs)
HasTypes-Storable py (text ∷ types) (str s ∷ values) (h, hs) (r, rs) =
    (r, HasTypes-Storable py types values hs rs)
HasTypes-Storable py (int ∷ types) (str s ∷ values) (h, hs) r = absurd h
HasTypes-Storable py (text ∷ types) (num n ∷ values) (h, hs) r = absurd h

-- a row that passes the checks of INSERT and is in range decodes from its encoding
pub resolve_row-deserialize_row :
    (py : Builtins) (info : TableInfo) (columns : Option (List Text)) (exprs : List Expr)
    (values : List Value)
    → Decodes py
    → All Typed exprs
    → resolve_row info columns exprs ≡ ok values
    → All (InRange py) values
    → (rec : Bytes) × (serialize_row py (column_types info) values ≡ ok rec)
      × (deserialize_row py (column_types info) rec ≡ ok values)
resolve_row-deserialize_row py info columns exprs values d t h r =
    deserialize_row-serialize_row py d (column_types info) values (
      HasTypes-Storable py (column_types info) values
        (resolve_row-HasTypes info columns exprs values t h) r)
