-- ===== src/Optimizer/Average/Sums.antt =====
-- The average of a sum of copies of a plan, which cancel_repeated_add_divide_by_two.go replaces by the plan.
use promshim_clickhouse.Base.{◌+◌, ℕ, Bool, false, Option, none}
use promshim_clickhouse.Floats.{Floats}
use promshim_clickhouse.Matching.{Op}
use promshim_clickhouse.Plans.{Parser, Node, binary_plan}

-- How the additions of a sum of copies are nested.
pub data Nesting : Type 0 where
  copy : Nesting
  plus : Nesting → Nesting → Nesting

abbrev pub copies_of : Nesting → ℕ
copies_of copy = 1
copies_of (plus l r) = copies_of l + copies_of r

module _ {px : Parser} {fl : Floats} where
  module _ (drops : Node px fl → Bool) where
    -- A sum of copies of a plan with implicit matching, nested as the tree says.
    abbrev pub sum_of : Option px.Expr → Node px fl → Nesting → Node px fl
    sum_of e x copy = x
    sum_of e x (plus l r) = binary_plan e Op.add none false (sum_of e x l) (sum_of e x r)
