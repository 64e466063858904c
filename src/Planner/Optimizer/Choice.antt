-- ===== src/Planner/Optimizer/Choice.antt =====
-- What the chosen access path reads, against the predicate.
use mathlib.Core.Path.{subst}
use query_x_engine.Common.{
  ℕ, ◌≡◌, ◌⊎◌, inl, inr, refl, sym, ap, ◌∙◌, Bool, true, false, not, ◌&&◌, Option, none, some, List,
  [], ◌∷◌, All, arith, ◌==◌, Bool-cases, ok, >>=-eq-ok,
}
use query_x_engine.Common.Bytes.{bytes_eq}
use query_x_engine.Common.Dict.{get}
use query_x_engine.Storage.Row.{Text}
use query_x_engine.Sql.Tokens.{eq_token, enum_value}
use query_x_engine.Sql.Ast.{Expr}
use query_x_engine.Catalog.{IndexInfo}
use query_x_engine.Execution.Evaluate.{Row, Datum, evaluate, truth}
use query_x_engine.Planner.Sargable.{Condition, sargable_comparisons}
use query_x_engine.Planner.Sargable.Holds.{Holds, sargable_comparisons-Holds}
use query_x_engine.Planner.Statistics.{Floats, TableStats}
use query_x_engine.Planner.Optimizer.{
  seq_scan, index_scan, hash_kind, is_whole, index_by_column, sargable, AccessPath, cheaper_of,
  with_index, consider, best_of, seq_path, choose_access_path,
}

abbrev pub Among : {A : Type 0} → A → List A → Type 0
Among x [] = ⊥
Among x (y ∷ ys) = (x ≡ y) ⊎ Among x ys

pub All-Among : {A : Type 0} (P : A → Type 0) (xs : List A) (x : A) → All P xs → Among x xs → P x
All-Among P [] x ps h = absurd h
All-Among P (y ∷ ys) x (p, ps) (inl e) = subst P (sym e) p
All-Among P (y ∷ ys) x (p, ps) (inr h) = All-Among P ys x ps h

ok-injective : {A : Type 0} {a b : A} → ok a ≡ ok b → a ≡ b
ok-injective h = ground (arith, h)

module _ (f : Floats) (where_expr : Option Expr) (by_column : List (Text × IndexInfo)) where
  -- A sequential scan keeps the whole predicate as a filter. An index scan is on an index of the
  -- column of a sargable comparison, a hash index only for an equality, and drops the filter only
  -- if the comparison is the whole predicate.
  pub data IsChoice (conditions : List Condition) (p : AccessPath f) : Type 0 where
    scan : p.method ≡ seq_scan → p.residual ≡ where_expr → IsChoice conditions p
    index :
        (c : Condition) (i : IndexInfo)
        → Among c conditions
        → get c.column by_column ≡ some i
        → p.method ≡ index_scan
        → (p.column ≡ some c.column) × (p.op ≡ some c.op) × (p.value ≡ some c.value)
        → (p.index_name ≡ some i.name) × (p.index_kind ≡ some i.kind)
        → (bytes_eq i.kind hash_kind ≡ true → (enum_value c.op == enum_value eq_token) ≡ true)
        → ((p.residual ≡ where_expr) ⊎ ((p.residual ≡ none) × (is_whole where_expr c ≡ ok true)))
        → IsChoice conditions p

  cheaper_of-IsChoice :
      (cheaper : Bool) (cost : f.Float) (rows : ℕ) (i : IndexInfo) (c : Condition)
      (conditions : List Condition) (best p : AccessPath f)
      → Among c conditions
      → get c.column by_column ≡ some i
      → (bytes_eq i.kind hash_kind ≡ true → (enum_value c.op == enum_value eq_token) ≡ true)
      → IsChoice conditions best
      → cheaper_of f cheaper where_expr cost rows i c best ≡ ok p
      → IsChoice conditions p
  unfolding cheaper_of
  cheaper_of-IsChoice false cost rows i c conditions best p among at serves b h =
      let same : best ≡ p = ground (arith, h) in subst (IsChoice conditions) same b
  cheaper_of-IsChoice true cost rows i c conditions best p among at serves b h =
      let (whole, e, h1) = >>=-eq-ok (is_whole where_expr c) _ h in
      subst (IsChoice conditions) (ok-injective h1) (
        index c i among at refl (refl, refl, refl) (refl, refl) serves
          (elim (Bool-cases whole) [
            | inl w ↦ inr ((rw w refl), e ∙ ap ok w)
            | inr n ↦ inl (rw n refl)
          ]))

  consider-IsChoice :
      (stats : TableStats) (found : Option IndexInfo) (c : Condition) (conditions : List Condition)
      (best p : AccessPath f)
      → Among c conditions
      → get c.column by_column ≡ found
      → IsChoice conditions best
      → consider f where_expr stats found c best ≡ ok p
      → IsChoice conditions p
  unfolding consider with_index
  consider-IsChoice stats none c conditions best p among at b h =
      subst (IsChoice conditions) (ok-injective h) b
  consider-IsChoice stats (some i) c conditions best p among at b h =
      elim (Bool-cases
        (bytes_eq i.kind hash_kind && not (enum_value c.op == enum_value eq_token))) [
          | inl skipped ↦ subst (IsChoice conditions) (ok-injective (rw skipped at h)) b
          | inr used ↦
              cheaper_of-IsChoice _ _ _ i c conditions best p among at
                (λ k. ground (arith, used, k)) b (rw used at h)
        ]

  best_of-IsChoice :
      (stats : TableStats) (conditions cs : List Condition) (best p : AccessPath f)
      → ((c : Condition) → Among c cs → Among c conditions)
      → IsChoice conditions best
      → best_of f where_expr stats by_column cs best ≡ ok p
      → IsChoice conditions p
  unfolding best_of
  best_of-IsChoice stats conditions [] best p among b h =
      subst (IsChoice conditions) (ok-injective h) b
  best_of-IsChoice stats conditions (c ∷ cs) best p among b h =
      let (better, e, h1) =
        >>=-eq-ok (consider f where_expr stats (get c.column by_column) c best) _ h in
      best_of-IsChoice stats conditions cs better p (λ d a. among d (inr a))
        (consider-IsChoice stats (get c.column by_column) c conditions best better
          (among c (inl refl)) refl b e)
        h1

module _ (f : Floats) where
  -- The chosen path is a sequential scan with the whole predicate as its filter, or a scan of an
  -- index on the column of a sargable comparison: a hash index only for an equality, and without
  -- the filter only if the comparison is the whole predicate.
  pub choose_access_path-IsChoice :
      (where_expr : Option Expr) (stats : TableStats) (indexes : List IndexInfo)
      (known : List (Text × ℕ)) (conditions : List Condition) (p : AccessPath f)
      → sargable where_expr ≡ ok conditions
      → choose_access_path f where_expr stats indexes known ≡ ok p
      → IsChoice f where_expr (index_by_column indexes []) conditions p
  unfolding choose_access_path
  choose_access_path-IsChoice where_expr stats indexes known conditions p s h =
      best_of-IsChoice f where_expr (index_by_column indexes []) stats conditions conditions
        (seq_path f where_expr stats known) p (λ c a. a)
        (scan (unfold seq_path in refl) (unfold seq_path in refl)) (rw s at h)

  -- A path that finds a row for which the predicate holds, if the index can serve its operator. A
  -- sequential scan filters by the whole predicate. An index scan is on an index of the column of
  -- its condition, which the row meets: a hash index for an equality only, while a B+ tree may get
  -- any operator. It drops the filter only if the condition is the whole predicate.
  pub data Finds (e : Expr) (by_column : List (Text × IndexInfo)) (p : AccessPath f) (row : Row)
      (idx : List (Text × ℕ)) : Type 0 where
    scans : p.method ≡ seq_scan → p.residual ≡ some e → Finds e by_column p row idx
    uses :
        (c : Condition) (i : IndexInfo)
        → get c.column by_column ≡ some i
        → p.method ≡ index_scan
        → (p.column ≡ some c.column) × (p.op ≡ some c.op) × (p.value ≡ some c.value)
        → (p.index_name ≡ some i.name) × (p.index_kind ≡ some i.kind)
        → (bytes_eq i.kind hash_kind ≡ true → (enum_value c.op == enum_value eq_token) ≡ true)
        → Holds row idx c
        → ((p.residual ≡ some e) ⊎ ((p.residual ≡ none) × (is_whole (some e) c ≡ ok true)))
        → Finds e by_column p row idx

  -- Of a row for which the WHERE predicate is true, the path that the optimizer chooses is a
  -- sequential scan that filters by the whole predicate, or an index scan by a condition that the
  -- row meets. That scan is on the index of the condition's column, a hash index only where the
  -- operator is `=`, and it keeps the whole predicate as a filter unless the condition is all of
  -- it. Whether a B+ tree can serve the operator is not claimed: `!=` is not kept from it.
  pub choose_access_path_complete :
      (e : Expr) (stats : TableStats) (indexes : List IndexInfo) (known : List (Text × ℕ))
      (p : AccessPath f) (row : Row) (idx : List (Text × ℕ)) (d : Datum)
      → choose_access_path f (some e) stats indexes known ≡ ok p
      → evaluate e row idx ≡ ok d
      → truth d ≡ true
      → Finds e (index_by_column indexes []) p row idx
  unfolding choose_access_path sargable
  choose_access_path_complete e stats indexes known p row idx d h ev t =
      let (conditions, s, h1) = >>=-eq-ok (sargable_comparisons e) _ h in
      let all = sargable_comparisons-Holds row idx e conditions d s ev t in
      elim (choose_access_path-IsChoice (some e) stats indexes known conditions p s h) [
        | scan m r ↦ scans m r
        | index c i among at m what names serves r ↦
            uses c i at m what names serves (All-Among (Holds row idx) conditions c all among) r
      ]
