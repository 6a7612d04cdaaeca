-- ===== src/Plans.antt =====
-- internal/promshim/logical/logicaltypes.go: the nodes of the logical plan of a query.
pub mod Analysis
use promshim_clickhouse.Base.{Bool, List, Option}
use promshim_clickhouse.Base.Int.{ℤ}
use promshim_clickhouse.Bytes.{Bytes}
use promshim_clickhouse.Labels.{Metric}
use promshim_clickhouse.Floats.{Floats}
use promshim_clickhouse.Matching.{Op, VectorMatching}

-- What a plan takes from the PromQL parser and its packages: the expressions, with their types and
-- their text, the label matchers, and compiled regular expressions.
pub record Parser : Type 1 where
  pub Expr : Type 0
  pub Matcher : Type 0
  pub Regexp : Type 0
  pub ValueType : Type 0
  pub value_type_none : ValueType
  pub value_type_scalar : ValueType
  pub type_of : Expr → ValueType
  pub string_of : Expr → Bytes
  -- a number literal or a string literal
  pub is_literal : Expr → Bool

pub data AggregateOp : Type 0 where
  sum avg count min max group stddev stdvar topk bottomk count_values quantile limitk limit_ratio :
      AggregateOp

-- StartOrEnd of a subquery: neither, `@ start()` or `@ end()`.
pub data AtModifier : Type 0 where
  at_none at_start at_end : AtModifier

pub record LabelReplaceConfig (R : Type 0) : Type 0 where
  pub dst : Bytes
  pub repl : Bytes
  pub src : Bytes
  pub regex : R

pub record LabelJoinConfig : Type 0 where
  pub dst : Bytes
  pub separator : Bytes
  pub src_labels : List Bytes

module _ (px : Parser) (fl : Floats) where
  -- The plans whose one node is their child, without it. Expr is the first field of each.
  pub data ChildPlan : Type 0 where
    aggregation_plan :
        Option px.Expr
        → AggregateOp
        → (grouping : List Bytes) → (without : Bool) → (param_number : Option fl.F)
        → (param_string : Bytes) → ChildPlan
    histogram_quantile_plan : Option px.Expr → (quantile : fl.F) → ChildPlan
    histogram_fraction_plan : Option px.Expr → (lower upper : fl.F) → ChildPlan
    histogram_projection_plan : Option px.Expr → (func : Bytes) → ChildPlan
    range_function_plan :
        Option px.Expr
        → (func : Bytes) → (param_number : Option fl.F) → (param_numbers : List (Option fl.F))
        → ChildPlan
    vector_plan : Option px.Expr → ChildPlan
    round_plan : Option px.Expr → (decimals : Option fl.F) → ChildPlan
    sort_plan : Option px.Expr → (func : Bytes) → (labels : List Bytes) → ChildPlan
    scalar_convert_plan : Option px.Expr → ChildPlan
    info_plan : Option px.Expr → (selector_matchers : List px.Matcher) → ChildPlan
    rate_plan : Option px.Expr → (func : Bytes) → ChildPlan
    increase_plan : Option px.Expr → ChildPlan
    delta_plan : Option px.Expr → (func : Bytes) → ChildPlan
    changes_plan : Option px.Expr → ChildPlan
    deriv_plan : Option px.Expr → ChildPlan
    quantile_over_time_plan : Option px.Expr → (quantile : fl.F) → ChildPlan
    absent_plan : Option px.Expr → (output_metric : Metric) → ChildPlan
    absent_over_time_plan : Option px.Expr → (output_metric : Metric) → ChildPlan
    subquery_plan :
        Option px.Expr
        → (range step offset : ℤ) → (timestamp : Option ℤ) → (start_or_end : AtModifier)
        → (delegated_leaf_compatible : Bool) → ChildPlan
    label_replace_plan : Option px.Expr → LabelReplaceConfig px.Regexp → ChildPlan
    label_join_plan : Option px.Expr → LabelJoinConfig → ChildPlan

  -- The plans that also have a list of parameter nodes, without their nodes.
  pub data ParamsPlan : Type 0 where
    histogram_quantiles_plan :
        Option px.Expr → (label : Bytes) → (param_numbers : List (Option fl.F)) → ParamsPlan
    pointwise_function_plan :
        Option px.Expr → (func : Bytes) → (param_numbers : List (Option fl.F)) → ParamsPlan

  mutual
    -- `nil` is the nil interface.
    pub data Node : Type 0 where
      nil : Node
      leaf_expr_plan : Option px.Expr → Node
      scalar_literal_plan : Option px.Expr → fl.F → Node
      scalar_builtin_plan : Option px.Expr → (func : Bytes) → Node
      unary_plan : Option px.Expr → Op → (child : Node) → Node
      binary_plan :
          Option px.Expr
          → Op
          → Option (VectorMatching fl.F)
          → (return_bool : Bool) → (lhs rhs : Node) → Node
      child_plan : ChildPlan → (child : Node) → Node
      params_plan : ParamsPlan → (param_children : Nodes) → (child : Node) → Node

    pub data Nodes : Type 0 where
      no_nodes : Nodes
      cons_node : Node → Nodes → Nodes
