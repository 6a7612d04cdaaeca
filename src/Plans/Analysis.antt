-- ===== src/Plans/Analysis.antt =====
-- internal/promshim/logical/analyze.go, as far as the passes use it: which nodes drop the metric name. A
-- node's text is that of its expression.
use promshim_clickhouse.Base.{
  Bool, true, false, not, ◌&&◌, List, [], ◌∷◌, ◌++◌, Option, none, some, map,
}
use promshim_clickhouse.Bytes.{Bytes}
use promshim_clickhouse.Bytes.Sort.{contains}
use promshim_clickhouse.Floats.{Floats}
use promshim_clickhouse.Matching.{Op}
use promshim_clickhouse.Plans.{
  Parser, ChildPlan, Node, nil, leaf_expr_plan, scalar_literal_plan, scalar_builtin_plan,
  unary_plan, binary_plan, child_plan, params_plan, aggregation_plan, histogram_quantile_plan,
  histogram_fraction_plan, histogram_projection_plan, range_function_plan, vector_plan, round_plan,
  sort_plan, scalar_convert_plan, info_plan, rate_plan, increase_plan, delta_plan, changes_plan,
  deriv_plan, quantile_over_time_plan, absent_plan, absent_over_time_plan, subquery_plan,
  label_replace_plan, label_join_plan, histogram_quantiles_plan, pointwise_function_plan,
}

-- "_over_time"
abbrev over_time : Bytes
over_time = 95 ∷ 111 ∷ 118 ∷ 101 ∷ 114 ∷ 95 ∷ 116 ∷ 105 ∷ 109 ∷ 101 ∷ []

-- What stands before "_over_time" in the names of the switch, in its order: avg, min, max, sum, last,
-- mad, median, stddev, stdvar, count, quantile, ts_of_min, ts_of_max, ts_of_first, ts_of_last, first.
abbrev preserving_functions : List Bytes
preserving_functions =
    map (λ name. name ++ over_time)
      ((97 ∷ 118 ∷ 103 ∷ [])
        ∷ (109 ∷ 105 ∷ 110 ∷ [])
        ∷ (109 ∷ 97 ∷ 120 ∷ [])
        ∷ (115 ∷ 117 ∷ 109 ∷ [])
        ∷ (108 ∷ 97 ∷ 115 ∷ 116 ∷ [])
        ∷ (109 ∷ 97 ∷ 100 ∷ [])
        ∷ (109 ∷ 101 ∷ 100 ∷ 105 ∷ 97 ∷ 110 ∷ [])
        ∷ (115 ∷ 116 ∷ 100 ∷ 100 ∷ 101 ∷ 118 ∷ [])
        ∷ (115 ∷ 116 ∷ 100 ∷ 118 ∷ 97 ∷ 114 ∷ [])
        ∷ (99 ∷ 111 ∷ 117 ∷ 110 ∷ 116 ∷ [])
        ∷ (113 ∷ 117 ∷ 97 ∷ 110 ∷ 116 ∷ 105 ∷ 108 ∷ 101 ∷ [])
        ∷ (116 ∷ 115 ∷ 95 ∷ 111 ∷ 102 ∷ 95 ∷ 109 ∷ 105 ∷ 110 ∷ [])
        ∷ (116 ∷ 115 ∷ 95 ∷ 111 ∷ 102 ∷ 95 ∷ 109 ∷ 97 ∷ 120 ∷ [])
        ∷ (116 ∷ 115 ∷ 95 ∷ 111 ∷ 102 ∷ 95 ∷ 102 ∷ 105 ∷ 114 ∷ 115 ∷ 116 ∷ [])
        ∷ (116 ∷ 115 ∷ 95 ∷ 111 ∷ 102 ∷ 95 ∷ 108 ∷ 97 ∷ 115 ∷ 116 ∷ [])
        ∷ (102 ∷ 105 ∷ 114 ∷ 115 ∷ 116 ∷ [])
        ∷ [])

unfoldable pub range_function_preserves_metric_name : Bytes → Bool
range_function_preserves_metric_name name = contains name preserving_functions

unfoldable pub is_arithmetic_op : Op → Bool
is_arithmetic_op Op.add = true
is_arithmetic_op Op.sub = true
is_arithmetic_op Op.mul = true
is_arithmetic_op Op.div = true
is_arithmetic_op Op.modulo = true
is_arithmetic_op Op.pow = true
is_arithmetic_op _ = false

module _ {px : Parser} {fl : Floats} where
  -- The field Expr of a plan, none where it is nil.
  unfoldable pub child_plan_expr : ChildPlan px fl → Option px.Expr
  child_plan_expr (aggregation_plan e op grouping without number string) = e
  child_plan_expr (histogram_quantile_plan e q) = e
  child_plan_expr (histogram_fraction_plan e lower upper) = e
  child_plan_expr (histogram_projection_plan e f) = e
  child_plan_expr (range_function_plan e f number numbers) = e
  child_plan_expr (vector_plan e) = e
  child_plan_expr (round_plan e decimals) = e
  child_plan_expr (sort_plan e f labels) = e
  child_plan_expr (scalar_convert_plan e) = e
  child_plan_expr (info_plan e matchers) = e
  child_plan_expr (rate_plan e f) = e
  child_plan_expr (increase_plan e) = e
  child_plan_expr (delta_plan e f) = e
  child_plan_expr (changes_plan e) = e
  child_plan_expr (deriv_plan e) = e
  child_plan_expr (quantile_over_time_plan e q) = e
  child_plan_expr (absent_plan e output) = e
  child_plan_expr (absent_over_time_plan e output) = e
  child_plan_expr (subquery_plan e range step offset timestamp start_or_end delegated) = e
  child_plan_expr (label_replace_plan e config) = e
  child_plan_expr (label_join_plan e config) = e

  unfoldable pub node_expr : Node px fl → Option px.Expr
  unfolding child_plan_expr
  node_expr nil = none
  node_expr (leaf_expr_plan e) = e
  node_expr (scalar_literal_plan e v) = e
  node_expr (scalar_builtin_plan e f) = e
  node_expr (unary_plan e op child) = e
  node_expr (binary_plan e op m return_bool lhs rhs) = e
  node_expr (child_plan p child) = child_plan_expr p
  node_expr (params_plan (histogram_quantiles_plan e label numbers) ps child) = e
  node_expr (params_plan (pointwise_function_plan e f numbers) ps child) = e

  unfoldable pub expr_string : Node px fl → Bytes
  unfolding node_expr
  expr_string node = elim (node_expr node) [ none ↦ [] | some e ↦ px.string_of e ]

  -- valueType; `none` is the panic of a leaf without expression.
  unfoldable pub value_type : Node px fl → Option px.ValueType
  unfolding node_expr
  value_type nil = none
  value_type (leaf_expr_plan none) = none
  value_type (leaf_expr_plan (some e)) = some (px.type_of e)
  value_type (scalar_literal_plan e v) = some px.value_type_scalar
  value_type node = elim (node_expr node) [
    | none ↦ some px.value_type_none
    | some e ↦ some (px.type_of e)
  ]

  -- DropsMetric of a plan, given that of its child.
  unfoldable pub child_plan_drops_metric : ChildPlan px fl → Bool → Bool
  unfolding range_function_preserves_metric_name
  child_plan_drops_metric (range_function_plan e f number numbers) child =
      not (range_function_preserves_metric_name f)
  child_plan_drops_metric (sort_plan e f labels) child = child
  child_plan_drops_metric (info_plan e matchers) child = child
  child_plan_drops_metric (subquery_plan e range step offset timestamp start_or_end delegated)
        child =
      child
  child_plan_drops_metric (label_replace_plan e config) child = child
  child_plan_drops_metric (label_join_plan e config) child = child
  child_plan_drops_metric _ child = true

  -- The DropsMetric that the walk of Analyze gives a node; false for the nil node, which has no info.
  unfoldable pub drops_metric : Node px fl → Bool
  unfolding child_plan_drops_metric is_arithmetic_op
  drops_metric nil = false
  drops_metric (leaf_expr_plan none) = false
  drops_metric (leaf_expr_plan (some e)) = px.is_literal e
  drops_metric (scalar_literal_plan e v) = true
  drops_metric (scalar_builtin_plan e f) = true
  drops_metric (unary_plan e op child) = drops_metric child
  drops_metric (binary_plan e op m return_bool lhs rhs) = not return_bool && is_arithmetic_op op
  drops_metric (child_plan p child) = child_plan_drops_metric p (drops_metric child)
  drops_metric (params_plan p ps child) = true
