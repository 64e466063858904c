-- ===== src/Planner/Advisor/Sound.antt =====
-- What the advisor recommends.
use mathlib.Core.Path.{subst}
use query_x_engine.Common.{
  ◌≤◌, ◌≡◌, refl, true, Option, none, some, List, [], ◌∷◌, ◌++◌, All, arith, ltb, ltb→le,
  Bool-cases, Option-cases, inl, inr, ok, >>=-eq-ok,
}
use query_x_engine.Common.Dict.{get}
use query_x_engine.Common.Sorting.{
  stable_sort, All-stable_sort, stable_sort-Pairwise, Pairwise, Lex, IsOrder,
}
use query_x_engine.Storage.Row.{Text, ColumnType, int, text}
use query_x_engine.Catalog.{Catalog, TableInfo, IndexInfo, has_column, index_on}
use query_x_engine.Planner.Advisor.{
  Recommendation, WorkloadAdvisor, uses_of, keys, type_at, kind_for, suggestion, if_int, for_column,
  for_key, for_keys, more_used, recommend,
}

-- A recommendation is of an INT column of a table in the catalog that has no index and was used
-- often enough; it is a B+ tree exactly if a range was seen.
pub record IsSound (a : WorkloadAdvisor) (catalog : Catalog) (r : Recommendation) : Type 0 where
  pub often : a.min_uses ≤ r.uses
  pub uses : r.uses ≡ uses_of a (r.table, r.column)
  pub info : TableInfo
  pub there : get r.table catalog.tables ≡ some info
  pub column_there : has_column info r.column ≡ true
  pub is_integer : type_at info r.column ≡ ok int
  pub no_index : index_on r.table r.column catalog ≡ none
  pub kind : r.kind ≡ kind_for a (r.table, r.column)

ok-injective : {A : Type 0} {a b : A} → ok a ≡ ok b → a ≡ b
ok-injective h = ground (arith, h)

no_recommendation :
    (a : WorkloadAdvisor) (catalog : Catalog) (rs : List Recommendation)
    → [] ≡ rs
    → All (IsSound a catalog) rs
no_recommendation a catalog rs e = subst (All (IsSound a catalog)) e tt

module _ (a : WorkloadAdvisor) (catalog : Catalog) (info : TableInfo) (key : Text × Text)
    (often : a.min_uses ≤ uses_of a key) (there : get key.0 catalog.tables ≡ some info)
    (column_there : has_column info key.1 ≡ true) where
  if_int-IsSound :
      (type : ColumnType) (found : Option IndexInfo) (rs : List Recommendation)
      → type_at info key.1 ≡ ok type
      → index_on key.0 key.1 catalog ≡ found
      → if_int type found (suggestion a key) ≡ rs
      → All (IsSound a catalog) rs
  unfolding if_int suggestion
  if_int-IsSound text found rs e f h = no_recommendation a catalog rs h
  if_int-IsSound int (some i) rs e f h = no_recommendation a catalog rs h
  if_int-IsSound int none rs e f h = subst (All (IsSound a catalog)) h (
    record {
      often = often;
      uses = refl;
      info = info;
      there = there;
      column_there = column_there;
      is_integer = e;
      no_index = f;
      kind = refl;
    },
    tt,
  )

for_key-IsSound :
    (a : WorkloadAdvisor) (catalog : Catalog) (key : Text × Text) (rs : List Recommendation)
    → for_key a catalog key ≡ ok rs
    → All (IsSound a catalog) rs
unfolding for_key for_column
for_key-IsSound a catalog key rs h = elim (Bool-cases (ltb (uses_of a key) a.min_uses)) [
  | inl rare ↦ no_recommendation a catalog rs (ok-injective (rw rare at h))
  | inr often ↦ elim (Option-cases (get key.0 catalog.tables)) [
    | inl e ↦ no_recommendation a catalog rs (ok-injective (rw (often, e) at h))
    | inr (info, e) ↦ elim (Bool-cases (has_column info key.1)) [
      | inr no_column ↦
          no_recommendation a catalog rs (ok-injective (rw no_column at (rw (often, e) at h)))
      | inl col ↦
          let (type, f, g) = >>=-eq-ok (type_at info key.1) _ (rw col at (rw (often, e) at h)) in
          if_int-IsSound a catalog info key (ltb→le _ _ often) e col type
            (index_on key.0 key.1 catalog) rs f refl (ok-injective g)
    ]
  ]
]

All-append :
    (P : Recommendation → Type 0) (rs ts : List Recommendation)
    → All P rs
    → All P ts
    → All P (rs ++ ts)
All-append P [] ts h k = k
All-append P (r ∷ rs) ts (h, hs) k = (h, All-append P rs ts hs k)

for_keys-IsSound :
    (a : WorkloadAdvisor) (catalog : Catalog) (ks : List (Text × Text)) (rs : List Recommendation)
    → for_keys a catalog ks ≡ ok rs
    → All (IsSound a catalog) rs
unfolding for_keys
for_keys-IsSound a catalog [] rs h = no_recommendation a catalog rs (ok-injective h)
for_keys-IsSound a catalog (k ∷ ks) rs h =
    let (here, e, h1) = >>=-eq-ok (for_key a catalog k) _ h in
    let (rest, f, h2) = >>=-eq-ok (for_keys a catalog ks) _ h1 in
    subst (All (IsSound a catalog)) (ok-injective h2) (
      All-append (IsSound a catalog) here rest (for_key-IsSound a catalog k here e)
        (for_keys-IsSound a catalog ks rest f))

more_used-IsOrder : IsOrder more_used
unfolding more_used
more_used-IsOrder = record {
  asymmetric = λ x y h. ground arith;
  negative = λ x y z h k. ground arith;
}

unordered : (rs : List Recommendation) → Pairwise (λ r t. Unit) rs
unordered [] = tt
unordered (r ∷ rs) = (any r rs, unordered rs)
  where
    any : (r : Recommendation) (rs : List Recommendation) → All (λ t. Unit {0}) rs
    any r [] = tt
    any r (t ∷ rs) = (tt, any r rs)

by_uses :
    (rs : List Recommendation)
    → Pairwise (Lex more_used (λ r t. Unit)) rs
    → Pairwise (λ r t. t.uses ≤ r.uses) rs
unfolding more_used
by_uses [] p = tt
by_uses (r ∷ rs) (l, p) = (each rs l, by_uses rs p)
  where
    each :
        (rs : List Recommendation)
        → All (Lex more_used (λ r t. Unit) r) rs
        → All (λ t. t.uses ≤ r.uses) rs
    each [] l = tt
    each (t ∷ rs) ((h, _), l) = (ltb→le _ _ h, each rs l)

-- Everything that the advisor recommends is sound, and the recommendations come most used first.
pub recommend-IsSound :
    (a : WorkloadAdvisor) (catalog : Catalog) (rs : List Recommendation)
    → recommend a catalog ≡ ok rs
    → All (IsSound a catalog) rs × Pairwise (λ r t. t.uses ≤ r.uses) rs
unfolding recommend
recommend-IsSound a catalog rs h =
    let (found, e, g) = >>=-eq-ok (for_keys a catalog (keys a)) _ h in
    let same : stable_sort more_used found ≡ rs = ok-injective g in
    subst (λ x. All (IsSound a catalog) x × Pairwise (λ r t. t.uses ≤ r.uses) x) same
      (
        All-stable_sort more_used-IsOrder (λ r t. Unit) (IsSound a catalog) found
            (for_keys-IsSound a catalog (keys a) found e),
        by_uses (stable_sort more_used found)
            (stable_sort-Pairwise more_used-IsOrder (λ r t. Unit) found (unordered found)),
      )
