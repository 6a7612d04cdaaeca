-- ===== src/Optimizer/Examples.antt =====
-- The passes of internal/promshim/logical/opt on concrete plans.
use promshim_clickhouse.Base.{
  ℕ, ◌≤◌, ◌≡◌, refl, Bool, true, false, List, [], ◌∷◌, none, some, ok, arith, All,
}
use promshim_clickhouse.Floats.{nat_floats}
use promshim_clickhouse.Matching.{Op}
use promshim_clickhouse.Matching.Join.{Sample}
use promshim_clickhouse.Labels.{metric_name}
use promshim_clickhouse.Plans.{
  Parser, Node, unary_plan, binary_plan, child_plan, leaf_expr_plan, scalar_literal_plan,
  vector_plan,
}
use promshim_clickhouse.Plans.Analysis.{drops_metric}
use promshim_clickhouse.Optimizer.{fold_double_negations, rebuild_unary, rebuild_child}
use promshim_clickhouse.Optimizer.Rewrites.{size}
use promshim_clickhouse.Optimizer.Converges.{IsFolded, fold_double_negations-IsFolded}
use promshim_clickhouse.Optimizer.Average.{
  cancel_repeated_average_in_tree, repeated_average_replacement, repeated_average_candidate,
}
use promshim_clickhouse.Optimizer.Average.Sums.{copy, plus, sum_of}
use promshim_clickhouse.Optimizer.Loop.{
  Analysis, Pass, iterate, run_passes, optimize, default_passes,
}
use promshim_clickhouse.Optimizer.Loop.Fixpoint.{
  LeavesAlone, optimize-LeavesAlone, default_passes-optimize,
}

-- Expressions that are their own text.
abbrev texts : Parser
texts = record {
  Expr = List ℕ;
  Matcher = Unit;
  Regexp = Unit;
  ValueType = Unit;
  value_type_none = tt;
  value_type_scalar = tt;
  type_of = λ e. tt;
  string_of = λ e. e;
  is_literal = λ e. false;
}

abbrev Plan : Type 0
Plan = Node texts nat_floats

-- vector(x), its negation, and the negation of that
abbrev x : Plan
x = child_plan (vector_plan (some (1 ∷ []))) (leaf_expr_plan (some (2 ∷ [])))

abbrev minus_x : Plan
minus_x = unary_plan (some (3 ∷ [])) Op.sub x

abbrev minus_minus_x : Plan
minus_minus_x = unary_plan (some (4 ∷ [])) Op.sub minus_x

fold_double_negations-IsFolded_example :
    IsFolded (fold_double_negations minus_minus_x).0
    × (fold_double_negations (fold_double_negations minus_minus_x).0
        ≡ ((fold_double_negations minus_minus_x).0, false))
fold_double_negations-IsFolded_example = fold_double_negations-IsFolded minus_minus_x

-- The sign of a plan: a negation turns it, and all else is positive.
abbrev turned : Op → Bool → Bool
turned Op.sub true = false
turned Op.sub false = true
turned _ b = b

-- One sample with a metric name, a label, a time and a value.
abbrev named : Plan → List (Sample nat_floats)
named n =
    record { metric = (metric_name, 2 ∷ []) ∷ (5 ∷ [], 6 ∷ []) ∷ []; timestamp = 7; value = 8 } ∷ []

-- ((x + x) + (x + x)) / 4
abbrev average : Plan
average =
    binary_plan (some (5 ∷ [])) Op.div none false
      (sum_of drops_metric (some (6 ∷ [])) x (plus (plus copy copy) (plus copy copy)))
      (scalar_literal_plan none 4)

abbrev passes : List (Pass texts nat_floats Unit)
passes = default_passes

optimized : optimize false minus_minus_x passes ≡ ok (x, drops_metric)
unfolding optimize iterate run_passes fold_double_negations cancel_repeated_average_in_tree
    repeated_average_replacement repeated_average_candidate rebuild_unary rebuild_child
optimized = refl

optimize-LeavesAlone_example : All (LeavesAlone x drops_metric) passes
optimize-LeavesAlone_example = optimize-LeavesAlone passes minus_minus_x (x, drops_metric) optimized

default_passes-optimize_example :
    (out : Plan × Analysis texts nat_floats) × (optimize false minus_minus_x passes ≡ ok out)
    × (size out.0 ≤ size minus_minus_x)
    × ((fold_double_negations out.0).1 ≡ false)
    × ((cancel_repeated_average_in_tree out.1 out.0).1 ≡ false)
unfolding size
default_passes-optimize_example =
    default_passes-optimize {E = Unit} minus_minus_x refl (omega arith)
