-- ===== src/Planner/Explain.antt =====
-- queryx/planner/explain.py. How Python prints a number, a value or a float is a parameter.
use query_x_engine.Common.{
  ℕ, zero, suc, Bool, true, false, Option, none, some, List, [], ◌∷◌, ◌++◌, if◌then◌else◌, Result,
  ok, raise, key_error, type_error, attribute_error, ◌>>=◌,
}
use query_x_engine.Common.Int.{ℤ}
use query_x_engine.Storage.Row.{Text, Value}
use query_x_engine.Sql.Tokens.{
  TokenType, eq_token, neq_token, lt_token, gt_token, lte_token, gte_token,
}
use query_x_engine.Sql.Ast.{
  Expr, OrderItem, Select, column, literal, star, aggregate, comparison, and_node, or_node,
  not_node,
}
use query_x_engine.Catalog.{IndexInfo, TableInfo}
use query_x_engine.Execution.Evaluate.{aggregate_label}
use query_x_engine.Planner.Statistics.{Floats, TableStats}
use query_x_engine.Planner.Optimizer.{Method, seq_scan, index_scan, AccessPath, choose_access_path}

-- repr(value), str(n) and f"{x:.1f}"
pub record Printing (f : Floats) : Type 0 where
  pub repr : Value → Text
  pub show_ℕ : ℕ → Text
  pub show_ℤ : ℤ → Text
  pub show_float : f.Float → Text

-- `_OP_SYMBOL[op]`
unfoldable pub op_symbol : TokenType → Result Text
op_symbol eq_token = ok (61 ∷ [])
op_symbol neq_token = ok (33 ∷ 61 ∷ [])
op_symbol lt_token = ok (60 ∷ [])
op_symbol gt_token = ok (62 ∷ [])
op_symbol lte_token = ok (60 ∷ 61 ∷ [])
op_symbol gte_token = ok (62 ∷ 61 ∷ [])
op_symbol _ = raise key_error

-- sep.join(pieces)
unfoldable pub join_with : Text → List Text → Text
join_with sep [] = []
join_with sep (t ∷ []) = t
join_with sep (t ∷ u ∷ rest) = t ++ sep ++ join_with sep (u ∷ rest)

-- text * n
unfoldable pub times : ℕ → Text → Text
times zero t = []
times (suc n) t = t ++ times n t

module _ (f : Floats) (py : Printing f) where
  unfoldable pub expr_to_str : Expr → Result Text
  unfolding op_symbol
  expr_to_str (column c) = ok c.name
  expr_to_str (literal v t) = ok (py.repr v)
  expr_to_str (comparison op left right) =
      let second = expr_to_str right in
      do
        a ← expr_to_str left
        o ← op_symbol op
        b ← second
        ok (a ++ (32 ∷ []) ++ o ++ (32 ∷ []) ++ b)
  expr_to_str (and_node left right) =
      let second = expr_to_str right in
      do
        a ← expr_to_str left
        b ← second
        ok ((40 ∷ []) ++ a ++ (32 ∷ 65 ∷ 78 ∷ 68 ∷ 32 ∷ []) ++ b ++ (41 ∷ []))
  expr_to_str (or_node left right) =
      let second = expr_to_str right in
      do
        a ← expr_to_str left
        b ← second
        ok ((40 ∷ []) ++ a ++ (32 ∷ 79 ∷ 82 ∷ 32 ∷ []) ++ b ++ (41 ∷ []))
  expr_to_str (not_node operand) = do
    a ← expr_to_str operand
    ok ((40 ∷ 78 ∷ 79 ∷ 84 ∷ 32 ∷ []) ++ a ++ (41 ∷ []))
  expr_to_str _ = ok (63 ∷ [])

  -- the text of a field of the path that an index scan has set, and what its absence raises
  unfoldable pub field_text : Option Text → Result Text
  field_text none = raise type_error
  field_text (some t) = ok t

  -- the head of `_scan_line` for an index scan
  unfoldable pub index_head : AccessPath f → Text → Option TokenType → Option Value → Result Text
  unfolding field_text op_symbol
  index_head ap table (some op) (some v) = do
    col ← field_text ap.column
    o ← op_symbol op
    name ← field_text ap.index_name
    kind ← field_text ap.index_kind
    ok (
        (73 ∷ 110 ∷ 100 ∷ 101 ∷ 120 ∷ 83 ∷ 99 ∷ 97 ∷ 110 ∷ 32 ∷ 117 ∷ 115 ∷ 105 ∷ 110 ∷ 103 ∷ 32
          ∷ [])
        ++ name
        ++ (32 ∷ 40 ∷ [])
        ++ kind
        ++ (41 ∷ 32 ∷ 111 ∷ 110 ∷ 32 ∷ [])
        ++ table
        ++ (32 ∷ 91 ∷ [])
        ++ col
        ++ (32 ∷ [])
        ++ o
        ++ (32 ∷ [])
        ++ py.repr v
        ++ (93 ∷ []))
  index_head ap table _ _ = raise key_error

  unfoldable pub scan_head : AccessPath f → Text → Method → Result Text
  unfolding index_head
  scan_head ap table index_scan = index_head ap table ap.op ap.value
  scan_head ap table seq_scan =
      ok ((83 ∷ 101 ∷ 113 ∷ 83 ∷ 99 ∷ 97 ∷ 110 ∷ 32 ∷ 111 ∷ 110 ∷ 32 ∷ []) ++ table)

  unfoldable pub scan_line : AccessPath f → Text → Result Text
  unfolding scan_head
  scan_line ap table = do
    head ← scan_head ap table ap.method
    ok (
        head
        ++ (32 ∷ 32 ∷ 40 ∷ 99 ∷ 111 ∷ 115 ∷ 116 ∷ 61 ∷ [])
        ++ py.show_float ap.est_cost
        ++ (32 ∷ 114 ∷ 111 ∷ 119 ∷ 115 ∷ 61 ∷ [])
        ++ py.show_ℕ ap.est_rows
        ++ (41 ∷ []))

  -- the labels of the aggregates among the projections
  unfoldable pub aggregate_labels : List Expr → Result (List Text)
  aggregate_labels [] = ok []
  aggregate_labels (e ∷ rest) =
      let more = aggregate_labels rest in
      elim e [
        | aggregate func arg ↦ do l ← aggregate_label func arg; ls ← more; ok (l ∷ ls)
        | _ ↦ more
      ]

  unfoldable pub has_star : List Expr → Bool
  has_star [] = false
  has_star (star ∷ rest) = true
  has_star (e ∷ rest) = has_star rest

  -- `p.name for p in select.projections`
  unfoldable pub projection_names : List Expr → Result (List Text)
  projection_names [] = ok []
  projection_names (e ∷ rest) =
      let more = projection_names rest in
      elim e [ column c ↦ do ns ← more; ok (c.name ∷ ns) | _ ↦ raise attribute_error ]

  unfoldable pub order_text : OrderItem → Text
  order_text o = o.column ++ (if o.descending then (32 ∷ 68 ∷ 69 ∷ 83 ∷ 67 ∷ []) else [])

  unfoldable pub order_texts : List OrderItem → List Text
  unfolding order_text
  order_texts [] = []
  order_texts (o ∷ rest) = order_text o ∷ order_texts rest

  -- `if select.order_by`: an empty list adds nothing either
  unfoldable pub sort_node : Option (List OrderItem) → List Text
  unfolding order_texts join_with
  sort_node none = []
  sort_node (some []) = []
  sort_node (some (o ∷ rest)) =
      ((83 ∷ 111 ∷ 114 ∷ 116 ∷ 58 ∷ 32 ∷ []) ++ join_with (44 ∷ 32 ∷ []) (order_texts (o ∷ rest)))
      ∷ []

  unfoldable pub projection_node : List Expr → Result (List Text)
  unfolding has_star projection_names join_with
  projection_node projections = if has_star projections then ok [] else (do
    names ← projection_names projections
    ok (
        ((80 ∷ 114 ∷ 111 ∷ 106 ∷ 101 ∷ 99 ∷ 116 ∷ 105 ∷ 111 ∷ 110 ∷ 58 ∷ 32 ∷ [])
          ++ join_with (44 ∷ 32 ∷ []) names)
        ∷ []))

  unfoldable pub limit_node : Option ℤ → List Text
  limit_node none = []
  limit_node (some n) = ((76 ∷ 105 ∷ 109 ∷ 105 ∷ 116 ∷ 58 ∷ 32 ∷ []) ++ py.show_ℤ n) ∷ []

  -- the nodes above the scan and its filter
  unfoldable pub upper_nodes : Select → List Text → Result (List Text)
  unfolding sort_node projection_node limit_node join_with
  upper_nodes select (l ∷ labels) = ok (
      ((65 ∷ 103 ∷ 103 ∷ 114 ∷ 101 ∷ 103 ∷ 97 ∷ 116 ∷ 101 ∷ 58 ∷ 32 ∷ [])
        ++ join_with (44 ∷ 32 ∷ []) (l ∷ labels))
      ∷ [])
  upper_nodes select [] = do
    shown ← projection_node select.projections
    ok (
        sort_node select.order_by
        ++ shown
        ++ (if select.distinct then (68 ∷ 105 ∷ 115 ∷ 116 ∷ 105 ∷ 110 ∷ 99 ∷ 116 ∷ []) ∷ [] else [])
        ++ limit_node select.limit)

  unfoldable pub filter_node : Option Expr → Result (List Text)
  unfolding expr_to_str
  filter_node none = ok []
  filter_node (some e) = do
    t ← expr_to_str e
    ok (((70 ∷ 105 ∷ 108 ∷ 116 ∷ 101 ∷ 114 ∷ 58 ∷ 32 ∷ []) ++ t) ∷ [])

  -- each node below its parent, from the root, which is the last one
  unfoldable pub indented : ℕ → List Text → List Text
  unfolding times
  indented depth [] = []
  indented zero (t ∷ rest) = t ∷ indented 1 rest
  indented (suc d) (t ∷ rest) =
      (times (suc d) (32 ∷ 32 ∷ []) ++ (45 ∷ 62 ∷ 32 ∷ []) ++ t) ∷ indented (suc (suc d)) rest

  unfoldable pub reversed : List Text → List Text → List Text
  reversed [] done = done
  reversed (t ∷ rest) done = reversed rest (t ∷ done)

  unfoldable pub method_name : Method → Text
  method_name seq_scan = 83 ∷ 101 ∷ 113 ∷ 83 ∷ 99 ∷ 97 ∷ 110 ∷ []
  method_name index_scan = 73 ∷ 110 ∷ 100 ∷ 101 ∷ 120 ∷ 83 ∷ 99 ∷ 97 ∷ 110 ∷ []

  unfoldable pub footer : AccessPath f → Text
  unfolding method_name
  footer ap =
      (40 ∷ 99 ∷ 104 ∷ 111 ∷ 115 ∷ 101 ∷ 32 ∷ [])
      ++ method_name ap.method
      ++ (32 ∷ 97 ∷ 116 ∷ 32 ∷ 99 ∷ 111 ∷ 115 ∷ 116 ∷ 32 ∷ [])
      ++ py.show_float ap.est_cost
      ++ (59 ∷ 32 ∷ 83 ∷ 101 ∷ 113 ∷ 83 ∷ 99 ∷ 97 ∷ 110 ∷ 32 ∷ 97 ∷ 108 ∷ 116 ∷ 101 ∷ 114 ∷ 110 ∷ 97
          ∷ 116 ∷ 105 ∷ 118 ∷ 101 ∷ 32 ∷ 99 ∷ 111 ∷ 115 ∷ 116 ∷ 32 ∷ [])
      ++ py.show_float ap.seqscan_cost
      ++ (41 ∷ [])

  unfoldable pub format_plan :
      Select → TableInfo → TableStats → List IndexInfo → List (Text × ℕ) → Result Text
  unfolding scan_line filter_node aggregate_labels upper_nodes indented reversed footer join_with
  format_plan select info stats indexes known = do
    ap ← choose_access_path f select.where_expr stats indexes known
    scan ← scan_line ap info.name
    filters ← filter_node ap.residual
    labels ← aggregate_labels select.projections
    upper ← upper_nodes select labels
    ok (
        join_with (10 ∷ [])
          (indented 0 (reversed ((scan ∷ []) ++ filters ++ upper) []) ++ ([] ∷ footer ap ∷ [])))
