-- ===== src/Optimizer/Loop.antt =====
-- internal/promshim/logical/opt/pass.go: the loop that runs the passes in order until a round of all of
-- them changes nothing.
pub mod Fixpoint
use promshim_clickhouse.Base.{
  ℕ, zero, suc, Bool, true, false, List, [], ◌∷◌, Option, if◌then◌else◌, Result, ok, err, ◌>>=◌,
  is_empty,
}
use promshim_clickhouse.Bytes.{Bytes}
use promshim_clickhouse.Floats.{Floats}
use promshim_clickhouse.Plans.{Parser, Node, nil}
use promshim_clickhouse.Plans.Analysis.{drops_metric}
use promshim_clickhouse.Optimizer.{fold_double_negations}
use promshim_clickhouse.Optimizer.Average.{cancel_repeated_average_in_tree}

pub data Error (E : Type 0) : Type 0 where
  nil_root : Error E
  pass_failed : Bytes → E → Error E
  no_fixpoint : Error E

abbrev pub max_optimize_iterations : ℕ
max_optimize_iterations = 8

-- "constant_fold_unary_negation"
abbrev constant_fold_unary_negation : Bytes
constant_fold_unary_negation =
    99 ∷ 111 ∷ 110 ∷ 115 ∷ 116 ∷ 97 ∷ 110 ∷ 116 ∷ 95 ∷ 102 ∷ 111 ∷ 108 ∷ 100 ∷ 95 ∷ 117 ∷ 110 ∷ 97
    ∷ 114 ∷ 121 ∷ 95 ∷ 110 ∷ 101 ∷ 103 ∷ 97 ∷ 116 ∷ 105 ∷ 111 ∷ 110 ∷ []

-- "cancel_repeated_average"
abbrev cancel_repeated_average : Bytes
cancel_repeated_average =
    99 ∷ 97 ∷ 110 ∷ 99 ∷ 101 ∷ 108 ∷ 95 ∷ 114 ∷ 101 ∷ 112 ∷ 101 ∷ 97 ∷ 116 ∷ 101 ∷ 100 ∷ 95 ∷ 97
    ∷ 118 ∷ 101 ∷ 114 ∷ 97 ∷ 103 ∷ 101 ∷ []

module _ (px : Parser) (fl : Floats) where
  -- What Analyze finds of a plan, as far as a pass asks: DropsMetric of its nodes.
  abbrev pub Analysis : Type 0
  Analysis = Node px fl → Bool

  pub record Pass (E : Type 0) : Type 0 where
    pub name : Bytes
    pub apply : Node px fl → Analysis → Result E (Node px fl × Bool)

  -- The variables root, analysis and changed of the loop.
  pub record State : Type 0 where
    pub root : Node px fl
    pub analysis : Analysis
    pub changed : Bool

module _ {px : Parser} {fl : Floats} where
  abbrev pub analyze : Node px fl → Analysis px fl
  analyze root = drops_metric

  abbrev pub is_nil : Node px fl → Bool
  is_nil nil = true
  is_nil _ = false

module _ {px : Parser} {fl : Floats} {E : Type 0} where
  unfoldable pub run_passes : List (Pass px fl E) → State px fl → Result (Error E) (State px fl)
  run_passes [] s = ok s
  run_passes (p ∷ passes) s = elim (p.apply s.root s.analysis) [
    | err e ↦ err (pass_failed p.name e)
    | ok next ↦
        run_passes passes (
          if next.1 then record { root = next.0; analysis = analyze next.0; changed = true } else s)
  ]

  unfoldable pub iterate :
      ℕ
      → List (Pass px fl E)
      → Node px fl
      → Analysis px fl
      → Result (Error E) (Node px fl × Analysis px fl)
  unfolding run_passes
  iterate zero passes root analysis = err no_fixpoint
  iterate (suc iterations) passes root analysis =
      run_passes passes (record { root = root; analysis = analysis; changed = false }) >>= λ s.
      if s.changed then iterate iterations passes s.root s.analysis else ok (s.root, s.analysis)

  -- `disabled` is OptimizedIRDisabled, which reads the environment.
  unfoldable pub optimize :
      Bool → Node px fl → List (Pass px fl E) → Result (Error E) (Node px fl × Analysis px fl)
  unfolding iterate
  optimize disabled root passes =
      if is_nil root
      then err nil_root
      else if disabled
      then ok (root, analyze root)
      else if is_empty passes
      then ok (root, analyze root)
      else iterate max_optimize_iterations passes root (analyze root)

  -- DefaultPasses
  abbrev pub default_passes : List (Pass px fl E)
  default_passes =
      record {
        name = constant_fold_unary_negation;
        apply = λ root analysis. ok (fold_double_negations root);
      }
      ∷ record {
        name = cancel_repeated_average;
        apply = λ root analysis. ok (cancel_repeated_average_in_tree analysis root);
      }
      ∷ []
