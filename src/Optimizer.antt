-- ===== src/Optimizer.antt =====
-- internal/promshim/logical/opt: the passes over the logical plan, and the loop that runs them.
pub mod Rewrites
pub mod Fold
mod Negations
pub mod Converges
pub mod Average
pub mod Loop
mod Examples
use promshim_clickhouse.Base.{Bool, true, false, not, ◌&&◌, ◌||◌, Option, if◌then◌else◌}
use promshim_clickhouse.Floats.{Floats}
use promshim_clickhouse.Matching.{Op, VectorMatching}
use promshim_clickhouse.Plans.{
  Parser, ChildPlan, ParamsPlan, Node, Nodes, nil, leaf_expr_plan, scalar_literal_plan,
  scalar_builtin_plan, unary_plan, binary_plan, child_plan, params_plan, no_nodes, cons_node,
}

module _ {px : Parser} {fl : Floats} where
  -- The ends of the cases of both passes: the node itself where no child changed, else a copy of it
  -- with the new children.
  unfoldable pub rebuild_unary :
      Option px.Expr → Op → Node px fl → Node px fl × Bool → Node px fl × Bool
  rebuild_unary e op child r =
      if r.1 then (unary_plan e op r.0, true) else (unary_plan e op child, false)

  unfoldable pub rebuild_binary :
      Option px.Expr
      → Op
      → Option (VectorMatching fl.F)
      → Bool
      → Node px fl
      → Node px fl
      → Node px fl × Bool
      → Node px fl × Bool
      → Node px fl × Bool
  rebuild_binary e op m return_bool lhs rhs l r =
      if not l.1 && not r.1
      then (binary_plan e op m return_bool lhs rhs, false)
      else (binary_plan e op m return_bool l.0 r.0, true)

  unfoldable pub rebuild_child :
      ChildPlan px fl → Node px fl → Node px fl × Bool → Node px fl × Bool
  rebuild_child p child r =
      if not r.1 then (child_plan p child, false) else (child_plan p r.0, true)

  unfoldable pub rebuild_params :
      ParamsPlan px fl
      → Nodes px fl
      → Node px fl
      → Nodes px fl × Bool
      → Node px fl × Bool
      → Node px fl × Bool
  rebuild_params p params child ps r =
      if not r.1 && not ps.1
      then (params_plan p params child, false)
      else (params_plan p ps.0 r.0, true)

  -- One round of the loop over the parameter nodes, in front of the others' result.
  unfoldable pub rebuild_param :
      Node px fl → Node px fl × Bool → Nodes px fl × Bool → Nodes px fl × Bool
  rebuild_param param r rest = (cons_node (if r.1 then r.0 else param) rest.0, r.1 || rest.1)

  unfoldable mutual
    unfolding rebuild_unary rebuild_binary rebuild_child rebuild_params rebuild_param

    pub fold_double_negations : Node px fl → Node px fl × Bool
    fold_double_negations nil = (nil, false)
    fold_double_negations (unary_plan e Op.sub (unary_plan e' Op.sub child)) =
        ((fold_double_negations child).0, true)
    fold_double_negations (unary_plan e op child) =
        rebuild_unary e op child (fold_double_negations child)
    fold_double_negations (binary_plan e op m return_bool lhs rhs) =
        rebuild_binary e op m return_bool lhs rhs (fold_double_negations lhs)
          (fold_double_negations rhs)
    fold_double_negations (child_plan p child) = rebuild_child p child (fold_double_negations child)
    fold_double_negations (params_plan p params child) =
        rebuild_params p params child (fold_params params) (fold_double_negations child)
    fold_double_negations node = (node, false)

    pub fold_params : Nodes px fl → Nodes px fl × Bool
    fold_params no_nodes = (no_nodes, false)
    fold_params (cons_node param rest) =
        rebuild_param param (fold_double_negations param) (fold_params rest)
