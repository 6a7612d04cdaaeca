-- ===== src/Optimizer/Negations.antt =====
-- What removing double negations does to the vector of an expression: its values stay, its metric names may not.
use promshim_clickhouse.Base.{Bool, false, List, [], ◌∷◌, Option, map, ◌≡◌}
use promshim_clickhouse.Floats.{Floats}
use promshim_clickhouse.Matching.Join.{Sample}
use promshim_clickhouse.Operators.{apply_unary_to_samples}
use promshim_clickhouse.Operators.Unary.{sign, unnamed}
use promshim_clickhouse.Plans.{Parser, Node, unary_plan}
use promshim_clickhouse.Optimizer.{fold_double_negations}

module _ {px : Parser} {fl : Floats} where
  -- Unary operators over an operand, the outermost first, each with its expression.
  abbrev pub signed : List (Option px.Expr × Bool) → Node px fl → Node px fl
  signed [] x = x
  signed ((e, minus) ∷ signs) x = unary_plan e (sign minus) (signed signs x)

  -- The vector of a plan: applyUnaryToSamples for a unary operator, and for any other node the vector given.
  abbrev pub vector_of : (Node px fl → List (Sample fl)) → Node px fl → List (Sample fl)
  vector_of vectors (unary_plan e op child) = apply_unary_to_samples fl op (vector_of vectors child)
  vector_of vectors x = vectors x

  -- The operand has no unary operator at its head.
  abbrev pub IsOperand : Node px fl → Type 0
  IsOperand (unary_plan e op child) = ⊥
  IsOperand x = Unit

  module _ (vectors : Node px fl → List (Sample fl))
      (involutive : (v : fl.F) → fl.neg (fl.neg v) ≡ v) (x : Node px fl) (operand : IsOperand x)
      (alone : fold_double_negations x ≡ (x, false)) where
    abbrev unnamed_of : Node px fl → List (Sample fl)
    unnamed_of n = map (unnamed fl) (vector_of vectors n)
