-- ===== src/Tests/Plans.antt =====
-- A query on an INT column with an index, planned with a stand-in for floats.
use query_x_engine.Common.{
  ℕ, ◌+◌, ◌*◌, ◌-◌, ◌≤◌, ◌≡◌, refl, true, none, some, List, [], ◌∷◌, All, ok, ltb,
}
use query_x_engine.Common.Sorting.{Pairwise, stable_sort, put_in}
use query_x_engine.Common.Int.{pos}
use query_x_engine.Storage.Row.{Text, int, num}
use query_x_engine.Sql.Tokens.{eq_token, enum_value}
use query_x_engine.Sql.Ast.{key, key_of, Expr, column, literal, comparison}
use query_x_engine.Execution.Evaluate.{value, bool, evaluate, truth}
use query_x_engine.Catalog.{
  Catalog, IndexInfo, btree, hash, has_column, any_named, position, position_from, index_on,
}
use query_x_engine.Common.Bytes.{bytes_eq}
use query_x_engine.Common.Dict.{get, put}
use query_x_engine.Planner.Sargable.{sargable_comparisons}
use query_x_engine.Planner.Statistics.{Floats, TableStats, estimate_rows, comparison_selectivity}
use query_x_engine.Planner.Optimizer.{
  AccessPath, index_scan, choose_access_path, index_by_column, is_whole, is_whole_predicate,
}
use query_x_engine.Planner.Optimizer.Choice.{Finds, choose_access_path_complete}
use query_x_engine.Planner.Advisor.{WorkloadAdvisor, Recommendation, recommend}
use query_x_engine.Planner.Advisor.Sound.{IsSound, recommend-IsSound}

abbrev pub numbers : Floats
numbers = record {
  Float = ℕ;
  of_ℕ = λ n. n;
  tenth = 0;
  add = λ a b. a + b;
  sub = λ a b. a - b;
  mul = λ a b. a * b;
  div = λ a b. 0;
  lt = ltb;
  max = λ a b. a + b;
  log = λ a b. 1;
  round = λ a. pos a;
}

abbrev users : Text
users = 117 ∷ []

abbrev age : Text
age = 97 ∷ []

abbrev is_five : Expr
is_five =
    comparison eq_token (column (record { name = age; table = none })) (literal (num (pos 5)) int)

abbrev stats : TableStats
stats = record { row_count = 100; num_data_pages = 50 }

abbrev on_age : IndexInfo
on_age = record { name = age; table = users; column = age; kind = btree; n_distinct = some 10 }

abbrev path : AccessPath numbers
path = record {
  method = index_scan;
  est_cost = 5;
  est_rows = 1;
  index_name = some age;
  index_kind = some btree;
  column = some age;
  op = some eq_token;
  value = some (num (pos 5));
  residual = none;
  seqscan_cost = 50;
}

chosen : choose_access_path numbers (some is_five) stats (on_age ∷ []) [] ≡ ok path
unfolding choose_access_path sargable_comparisons get index_by_column put bytes_eq estimate_rows
    comparison_selectivity is_whole is_whole_predicate enum_value
chosen = refl

true_of_row : evaluate is_five (value (num (pos 5)) ∷ []) ((age, 0) ∷ []) ≡ ok (bool true)
unfolding evaluate get bytes_eq key key_of
true_of_row = refl

truth_of_true : truth (bool true) ≡ true
unfolding truth
truth_of_true = refl

choose_access_path_complete_example :
    Finds numbers is_five
      (index_by_column (on_age ∷ []) [])
      path
      (value (num (pos 5)) ∷ [])
      ((age, 0) ∷ [])
choose_access_path_complete_example =
    choose_access_path_complete numbers is_five stats (on_age ∷ []) [] path
      (value (num (pos 5)) ∷ []) ((age, 0) ∷ []) (bool true) chosen true_of_row truth_of_true

-- a table with one INT column that five queries have filtered on
abbrev catalog : Catalog
catalog = record {
  tables =
      (
        users,
        record { name = users; columns = record { name = age; type = int } ∷ []; row_count = 0 },
      )
      ∷ [];
  indexes = [];
  file = none;
}

abbrev advisor : WorkloadAdvisor
advisor = record { min_uses = 5; equality = ((users, age), 5) ∷ []; range = [] }

abbrev advice : List Recommendation
advice = record { table = users; column = age; uses = 5; kind = hash } ∷ []

advised : recommend advisor catalog ≡ ok advice
unfolding recommend bytes_eq get has_column any_named position position_from stable_sort index_on
    put_in
advised = refl

recommend-IsSound_example :
    All (IsSound advisor catalog) advice × Pairwise (λ r t. t.uses ≤ r.uses) advice
recommend-IsSound_example = recommend-IsSound advisor catalog advice advised
