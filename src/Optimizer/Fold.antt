-- ===== src/Optimizer/Fold.antt =====
-- The walk that removes double negations.
use promshim_clickhouse.Base.{◌<◌, ◌≡◌, refl, arith}
use promshim_clickhouse.Floats.{Floats}
use promshim_clickhouse.Matching.{Op}
use promshim_clickhouse.Plans.{
  Parser, Node, Nodes, nil, unary_plan, binary_plan, child_plan, params_plan, no_nodes, cons_node,
}
use promshim_clickhouse.Optimizer.{fold_double_negations, fold_params}
use promshim_clickhouse.Optimizer.Rewrites.{
  Rewrites, RewritesAll, skip, stay, unary, binary, child_of, params, done, param, Shrinks,
  Rewrites-Shrinks, size,
}

module _ {px : Parser} {fl : Floats} where
  -- The first node is `-(-x)`, the second is x.
  abbrev pub IsDoubleNegation : Node px fl → Node px fl → Type 0
  IsDoubleNegation (unary_plan e Op.sub (unary_plan e' Op.sub child)) m = child ≡ m
  IsDoubleNegation _ m = ⊥

  abbrev pub NoReplacement : Node px fl → Node px fl → Type 0
  NoReplacement n m = ⊥

  abbrev pub NotDouble : Node px fl → Type 0
  NotDouble n = (m : Node px fl) → ¬ IsDoubleNegation n m

  mutual
    unfolding fold_double_negations fold_params

    pub fold-Rewrites :
        (n : Node px fl)
        → Rewrites IsDoubleNegation NoReplacement NotDouble n (fold_double_negations n)
    fold-Rewrites nil = stay (λ m d. d) tt
    fold-Rewrites (unary_plan e Op.sub (unary_plan e' Op.sub child)) =
        skip {m = child} refl (fold-Rewrites child)
    fold-Rewrites (unary_plan e op child) = unary (λ m d. d) (fold-Rewrites child)
    fold-Rewrites (binary_plan e op m return_bool lhs rhs) =
        binary (λ n d. d) (fold-Rewrites lhs) (fold-Rewrites rhs)
    fold-Rewrites (child_plan p child) = child_of (λ m d. d) (fold-Rewrites child)
    fold-Rewrites (params_plan p ps child) =
        params (λ m d. d) (fold_params-Rewrites ps) (fold-Rewrites child)
    fold-Rewrites _ = stay (λ m d. d) tt

    pub fold_params-Rewrites :
        (ns : Nodes px fl)
        → RewritesAll IsDoubleNegation NoReplacement NotDouble ns (fold_params ns)
    fold_params-Rewrites no_nodes = done
    fold_params-Rewrites (cons_node n ns) = param (fold-Rewrites n) (fold_params-Rewrites ns)

  pub double-less : (n m : Node px fl) → IsDoubleNegation n m → size m < size n
  unfolding size
  double-less (unary_plan e Op.sub (unary_plan e' Op.sub child)) m h = rw h (omega arith)
  double-less _ m h = absurd h

  -- The flag tells the truth: the pass returns the plan itself where it reports no change, and a plan
  -- with fewer nodes where it reports one.
  pub fold_double_negations-Shrinks : (n : Node px fl) → Shrinks n (fold_double_negations n)
  fold_double_negations-Shrinks n =
      Rewrites-Shrinks double-less (λ a b h. absurd h) n (fold_double_negations n) (fold-Rewrites n)
