-- ===== src/Planner/Advisor.antt =====
-- The class `WorkloadAdvisor` of queryx/planner/advisor.py. A `defaultdict` of counts is a list of
-- keys with their counts; the zero that reading a new key leaves there changes no later result and
-- is left out. The union of the two key sets is gone through in the order of the lists.
pub mod Sound
use mathlib.Core.Path.{subst}
use query_x_engine.Common.{
  ℕ, suc, ◌+◌, ◌≤◌, ◌≡◌, refl, sym, ap, ◌∙◌, Bool, true, false, not, ◌&&◌, ◌||◌, Option, none, some,
  List, [], ◌∷◌, ◌++◌, All, arith, ltb, leb, leb→le, ltb→le, ◌==◌, if◌then◌else◌, Bool-cases,
  Option-cases, Result-cases, inl, inr, Result, ok, raise, index_error, catalog_error, ◌>>=◌,
  >>=-eq-ok, get_elem?,
}
use query_x_engine.Common.Bytes.{bytes_eq}
use query_x_engine.Common.Dict.{get}
use query_x_engine.Common.Sorting.{
  stable_sort, All-stable_sort, stable_sort-Pairwise, Pairwise, Lex, IsOrder,
}
use query_x_engine.Storage.Row.{Text, ColumnType, int, text}
use query_x_engine.Catalog.{
  Catalog, TableInfo, ColumnInfo, IndexInfo, has_column, position, index_on, btree, hash,
}

pub record Recommendation : Type 0 where
  pub table : Text
  pub column : Text
  pub uses : ℕ
  pub kind : Text

abbrev pub Counts : Type 0
Counts = List ((Text × Text) × ℕ)

pub record WorkloadAdvisor : Type 0 where
  pub min_uses : ℕ
  pub equality : Counts
  pub range : Counts

unfoldable pub same_key : Text × Text → Text × Text → Bool
same_key a b = bytes_eq a.0 b.0 && bytes_eq a.1 b.1

-- counts[key]
unfoldable pub count_of : Text × Text → Counts → ℕ
unfolding same_key
count_of key [] = 0
count_of key ((k, n) ∷ counts) =
    let rest = count_of key counts in if same_key k key then n else rest

-- counts[key] += 1
unfoldable pub count_up : Text × Text → Counts → Counts
unfolding same_key
count_up key [] = (key, 1) ∷ []
count_up key ((k, n) ∷ counts) =
    let rest = count_up key counts in if same_key k key then (k, suc n) ∷ counts else (k, n) ∷ rest

unfoldable pub record_predicate : Text → Text → Bool → WorkloadAdvisor → WorkloadAdvisor
unfolding count_up
record_predicate table column true a = record a { range = count_up (table, column) a.range }
record_predicate table column false a = record a { equality = count_up (table, column) a.equality }

unfoldable pub uses_of : WorkloadAdvisor → Text × Text → ℕ
unfolding count_of
uses_of a key = count_of key a.equality + count_of key a.range

unfoldable pub is_key : Text × Text → Counts → Bool
unfolding same_key
is_key key [] = false
is_key key ((k, n) ∷ counts) = same_key k key || is_key key counts

-- the keys of `counts` that are not in `others`
unfoldable pub other_keys : Counts → Counts → List (Text × Text)
unfolding is_key
other_keys [] others = []
other_keys ((k, n) ∷ counts) others =
    let rest = other_keys counts others in if is_key k others then rest else k ∷ rest

-- `set(self._equality) | set(self._range)`
unfoldable pub keys : WorkloadAdvisor → List (Text × Text)
unfolding other_keys
keys a = other_keys a.equality [] ++ other_keys a.range a.equality

-- `info.columns[info.position(column)].type`
unfoldable pub type_at : TableInfo → Text → Result ColumnType
type_at info column = do
  i ← position info column
  elim (get_elem? info.columns i) [ none ↦ raise index_error | some c ↦ ok c.type ]

unfoldable pub is_int : ColumnType → Bool
is_int int = true
is_int text = false

unfoldable pub kind_for : WorkloadAdvisor → Text × Text → Text
unfolding count_of
kind_for a key = if ltb 0 (count_of key a.range) then btree else hash

-- what the loop appends for a column
unfoldable pub suggestion : WorkloadAdvisor → Text × Text → Recommendation
unfolding kind_for uses_of
suggestion a key = record {
  table = key.0;
  column = key.1;
  uses = uses_of a key;
  kind = kind_for a key;
}

-- the guards on the type of the column and on its index
unfoldable pub if_int : ColumnType → Option IndexInfo → Recommendation → List Recommendation
if_int text found r = []
if_int int (some i) r = []
if_int int none r = r ∷ []

-- the rest of the loop's body, for a table that exists
unfoldable pub for_column :
    WorkloadAdvisor → Catalog → TableInfo → Text × Text → Result (List Recommendation)
unfolding type_at if_int suggestion
for_column a catalog info key =
    if has_column info key.1
    then (do
      type ← type_at info key.1
      ok (if_int type (index_on key.0 key.1 catalog) (suggestion a key)))
    else ok []

-- the body of the loop of `recommend`, as the list of what it appends
unfoldable pub for_key : WorkloadAdvisor → Catalog → Text × Text → Result (List Recommendation)
unfolding uses_of for_column
for_key a catalog key =
    if ltb (uses_of a key) a.min_uses then ok [] else elim (get key.0 catalog.tables) [
      | none ↦ ok []
      | some info ↦ for_column a catalog info key
    ]

unfoldable pub for_keys :
    WorkloadAdvisor → Catalog → List (Text × Text) → Result (List Recommendation)
unfolding for_key
for_keys a catalog [] = ok []
for_keys a catalog (k ∷ ks) =
    let more = for_keys a catalog ks in
    do here ← for_key a catalog k; rest ← more; ok (here ++ rest)

-- `key=lambda r: -r.uses`
unfoldable pub more_used : Recommendation → Recommendation → Bool
more_used a b = ltb b.uses a.uses

unfoldable pub recommend : WorkloadAdvisor → Catalog → Result (List Recommendation)
unfolding for_keys keys more_used
recommend a catalog = do rs ← for_keys a catalog (keys a); ok (stable_sort more_used rs)
