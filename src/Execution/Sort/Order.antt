-- ===== src/Execution/Sort/Order.antt =====
-- The order of the rows that `Sort` emits.
use query_x_engine.Common.{
  ℕ, ◌≡◌, refl, sym, ◌∙◌, Bool, true, false, Option, none, some, List, [], ◌∷◌, All, get_elem?,
  length, arith, Bool-cases, Option-cases, inl, inr, ok, >>=-eq-ok,
}
use mathlib.Core.Path.{subst}
use query_x_engine.Common.Dict.{get}
use query_x_engine.Common.Sorting.{
  stable_sort, Pairwise, Lex, IsOrder, stable_sort-Pairwise, count, count-stable_sort,
  length-stable_sort,
}
use query_x_engine.Storage.Row.{Text}
use query_x_engine.Sql.Ast.{OrderItem}
use query_x_engine.Execution.Evaluate.{Row, Datum, text_lt}
use query_x_engine.Execution.Sort.{
  Key, number_key, text_key, none_key, key_of, key_lt, option_lt, row_lt, one_kind, keys_at,
  sort_rows,
}

text_lt_asymmetric : (s t : Text) → text_lt s t ≡ true → text_lt t s ≡ false
unfolding text_lt
text_lt_asymmetric s [] h = cc
text_lt_asymmetric [] (d ∷ t) h = refl
text_lt_asymmetric (c ∷ s) (d ∷ t) h = ground (arith, text_lt_asymmetric s t)

text_lt_negative : (s t u : Text) → text_lt t s ≡ false → text_lt u t ≡ false → text_lt u s ≡ false
unfolding text_lt
text_lt_negative [] t u h k = refl
text_lt_negative (c ∷ s) [] u h k = cc
text_lt_negative (c ∷ s) (d ∷ t) [] h k = cc
text_lt_negative (c ∷ s) (d ∷ t) (e ∷ u) h k = ground (arith, text_lt_negative s t u)

key_lt-IsOrder : IsOrder key_lt
unfolding key_lt
key_lt-IsOrder = record { asymmetric = asymmetric; negative = negative }
  where
    asymmetric : (a b : Key) → key_lt a b ≡ true → key_lt b a ≡ false
    asymmetric (number_key m) (number_key n) h = ground arith
    asymmetric (number_key m) (text_key t) h = refl
    asymmetric (text_key s) (number_key n) h = cc
    asymmetric (text_key s) (text_key t) h = text_lt_asymmetric s t h
    asymmetric none_key (number_key n) h = refl
    asymmetric none_key (text_key t) h = refl
    asymmetric (number_key m) none_key h = cc
    asymmetric (text_key s) none_key h = cc
    asymmetric none_key none_key h = cc

    negative : (a b c : Key) → key_lt b a ≡ false → key_lt c b ≡ false → key_lt c a ≡ false
    negative (number_key l) (number_key m) (number_key n) h k = ground arith
    negative (number_key l) (number_key m) (text_key t) h k = refl
    negative (number_key l) (text_key t) (number_key n) h k = cc
    negative (number_key l) (text_key t) (text_key u) h k = refl
    negative (text_key s) (number_key m) c h k = cc
    negative (text_key s) (text_key t) (number_key n) h k = cc
    negative (text_key s) (text_key t) (text_key u) h k = text_lt_negative s t u h k
    negative none_key b (number_key n) h k = refl
    negative none_key b (text_key t) h k = refl
    negative none_key b none_key h k = refl
    negative (number_key l) none_key c h k = cc
    negative (text_key s) none_key c h k = cc
    negative (number_key l) (number_key m) none_key h k = cc
    negative (number_key l) (text_key t) none_key h k = cc
    negative (text_key s) (text_key t) none_key h k = cc

option_lt-IsOrder : IsOrder option_lt
unfolding option_lt
option_lt-IsOrder = record { asymmetric = asymmetric; negative = negative }
  where
    asymmetric : (a b : Option Datum) → option_lt a b ≡ true → option_lt b a ≡ false
    asymmetric a none h = cc
    asymmetric none (some b) h = refl
    asymmetric (some a) (some b) h = key_lt-IsOrder.asymmetric (key_of a) (key_of b) h

    negative :
        (a b c : Option Datum)
        → option_lt b a ≡ false
        → option_lt c b ≡ false
        → option_lt c a ≡ false
    negative none b c h k = refl
    negative (some a) none c h k = cc
    negative (some a) (some b) none h k = cc
    negative (some a) (some b) (some c) h k =
        key_lt-IsOrder.negative (key_of a) (key_of b) (key_of c) h k

row_lt-IsOrder : (c : ℕ) (descending : Bool) → IsOrder (row_lt c descending)
unfolding row_lt
row_lt-IsOrder c false = record {
  asymmetric = λ x y h. option_lt-IsOrder.asymmetric (get_elem? x c) (get_elem? y c) h;
  negative =
      λ x y z h k. option_lt-IsOrder.negative (get_elem? x c) (get_elem? y c) (get_elem? z c) h k;
}
row_lt-IsOrder c true = record {
  asymmetric = λ x y h. option_lt-IsOrder.asymmetric (get_elem? y c) (get_elem? x c) h;
  negative =
      λ x y z h k. option_lt-IsOrder.negative (get_elem? z c) (get_elem? y c) (get_elem? x c) k h;
}

abbrev pub ByItem : Option ℕ → Bool → (Row → Row → Type 0) → Row → Row → Type 0
ByItem none descending later = later
ByItem (some c) descending later = Lex (row_lt c descending) later

-- The first item decides, and the next one where it does not; rows that agree on all may stand in
-- any order. An item whose column is not there decides nothing.
unfoldable pub InOrder : List (Text × ℕ) → List OrderItem → Row → Row → Type 0
InOrder index_of [] a b = Unit
InOrder index_of (item ∷ items) a b =
    ByItem (get item.column index_of) item.descending (InOrder index_of items) a b

All-any : (r : Row) (rows : List Row) → All (λ (b : Row). Unit {0}) rows
All-any r [] = tt
All-any r (s ∷ rows) = (tt, All-any r rows)

-- What `Sort` makes of the rows: the same ones, each as often as before, in order.
pub record Sorted (index_of : List (Text × ℕ)) (items : List OrderItem) (rows sorted : List Row)
    : Type 0 where
  pub in_order : Pairwise (InOrder index_of items) sorted
  pub same : (p : Row → Bool) → count p sorted ≡ count p rows

Pairwise-any : (index_of : List (Text × ℕ)) (rows : List Row) → Pairwise (InOrder index_of []) rows
unfolding InOrder
Pairwise-any index_of [] = tt
Pairwise-any index_of (r ∷ rows) = (All-any r rows, Pairwise-any index_of rows)

by_item :
    (index_of : List (Text × ℕ)) (item : OrderItem) (items : List OrderItem) (c : ℕ)
    → get item.column index_of ≡ some c
    → (rows : List Row) → Pairwise (InOrder index_of items) rows
    → Pairwise (InOrder index_of (item ∷ items)) (stable_sort (row_lt c item.descending) rows)
unfolding InOrder
by_item index_of item items c e rows p =
    subst
      (λ (o : Option ℕ).
        Pairwise (ByItem o item.descending (InOrder index_of items))
          (stable_sort (row_lt c item.descending) rows))
      (sym e)
      (stable_sort-Pairwise (row_lt-IsOrder c item.descending) (InOrder index_of items) rows p)

-- the sort by the first item comes last, and raises nothing
first_item :
    (index_of : List (Text × ℕ)) (item : OrderItem) (items : List OrderItem)
    (rows sorted : List Row)
    → sort_rows index_of (item ∷ items) rows ≡ ok sorted
    → (later : List Row) × (c : ℕ) × (sort_rows index_of items rows ≡ ok later)
      × (get item.column index_of ≡ some c)
      × (stable_sort (row_lt c item.descending) later ≡ sorted)
unfolding sort_rows
first_item index_of item items rows sorted h =
    let (later, before, rest) = >>=-eq-ok (sort_rows index_of items rows) _ h in
    elim (Option-cases (get item.column index_of)) [
      | inl e ↦ absurd (ground (arith, rw e at rest))
      | inr (c, e) ↦
          let (keys, found, last) = >>=-eq-ok (keys_at c later) _ (rw e at rest) in
          elim (Bool-cases (one_kind keys)) [
            | inr mixed ↦ absurd (ground (arith, rw mixed at last))
            | inl one ↦
                let done : ok (stable_sort (row_lt c item.descending) later) ≡ ok sorted =
                  rw one at last in
                (later, c, before, e, ground (arith, done))
          ]
    ]

-- The sort emits as many rows as it got.
pub length-sort_rows :
    (index_of : List (Text × ℕ)) (items : List OrderItem) (rows sorted : List Row)
    → sort_rows index_of items rows ≡ ok sorted
    → length sorted ≡ length rows
unfolding sort_rows
length-sort_rows index_of [] rows sorted h = ground (arith, h)
length-sort_rows index_of (item ∷ items) rows sorted h =
    let (later, c, before, e, same) = first_item index_of item items rows sorted h in
    rw (sym same) (
      length-stable_sort (row_lt c item.descending) later
      ∙ length-sort_rows index_of items rows later before)

-- If the sort raises nothing, it emits the rows that it got, each as often as before, ordered by
-- the first ORDER BY item, ascending or descending, and by the later ones where the earlier agree.
pub sort_rows-Sorted :
    (index_of : List (Text × ℕ)) (items : List OrderItem) (rows sorted : List Row)
    → sort_rows index_of items rows ≡ ok sorted
    → Sorted index_of items rows sorted
unfolding sort_rows InOrder
sort_rows-Sorted index_of [] rows sorted h =
    let e : rows ≡ sorted = ground (arith, h) in
    rw (sym e) (record { in_order = Pairwise-any index_of rows; same = λ p. refl })
sort_rows-Sorted index_of (item ∷ items) rows sorted h =
    let (later, c, before, e, same) = first_item index_of item items rows sorted h in
    let ordered = sort_rows-Sorted index_of items rows later before in
    rw (sym same) (record {
      in_order = by_item index_of item items c e later ordered.in_order;
      same = λ p. count-stable_sort (row_lt c item.descending) p later ∙ ordered.same p;
    })
