-- ===== src/Optimizer/Rewrites.antt =====
-- What the passes of internal/promshim/logical/opt have in common: a walk that replaces some nodes and
-- rebuilds the plans above them.
use promshim_clickhouse.Base.{
  ℕ, suc, ◌+◌, ◌<◌, ◌≡◌, refl, Bool, true, false, Option, arith, inl, inr, ◌⊎◌,
}
use promshim_clickhouse.Floats.{Floats}
use promshim_clickhouse.Matching.{Op, VectorMatching}
use promshim_clickhouse.Plans.{
  Parser, ChildPlan, ParamsPlan, Node, Nodes, nil, leaf_expr_plan, scalar_literal_plan,
  scalar_builtin_plan, unary_plan, binary_plan, child_plan, params_plan, no_nodes, cons_node,
}
use promshim_clickhouse.Optimizer.{
  rebuild_unary, rebuild_binary, rebuild_child, rebuild_params, rebuild_param,
}

module _ {px : Parser} {fl : Floats} where
  abbrev pub IsLeaf : Node px fl → Type 0
  IsLeaf nil = Unit
  IsLeaf (leaf_expr_plan e) = Unit
  IsLeaf (scalar_literal_plan e v) = Unit
  IsLeaf (scalar_builtin_plan e f) = Unit
  IsLeaf _ = ⊥

  -- The walk that replaces n by m where `Replace n m`, goes on with m in place of n where `Skip n m`,
  -- and goes into the children of n where `Keep n`.
  mutual
    pub data Rewrites (Skip Replace : Node px fl → Node px fl → Type 0) (Keep : Node px fl → Type 0)
        : Node px fl → Node px fl × Bool → Type 0 where
      skip :
          {n m : Node px fl} {r : Node px fl × Bool}
          → Skip n m
          → Rewrites Skip Replace Keep m r
          → Rewrites Skip Replace Keep n (r.0, true)
      replace : {n m : Node px fl} → Replace n m → Rewrites Skip Replace Keep n (m, true)
      stay : {n : Node px fl} → Keep n → IsLeaf n → Rewrites Skip Replace Keep n (n, false)
      unary :
          {e : Option px.Expr} {op : Op} {child : Node px fl} {r : Node px fl × Bool}
          → Keep (unary_plan e op child)
          → Rewrites Skip Replace Keep child r
          → Rewrites Skip Replace Keep (unary_plan e op child) (rebuild_unary e op child r)
      binary :
          {e : Option px.Expr} {op : Op} {m : Option (VectorMatching fl.F)} {return_bool : Bool}
          {lhs rhs : Node px fl} {l r : Node px fl × Bool}
          → Keep (binary_plan e op m return_bool lhs rhs)
          → Rewrites Skip Replace Keep lhs l
          → Rewrites Skip Replace Keep rhs r
          → Rewrites Skip Replace Keep
              (binary_plan e op m return_bool lhs rhs)
              (rebuild_binary e op m return_bool lhs rhs l r)
      child_of :
          {p : ChildPlan px fl} {child : Node px fl} {r : Node px fl × Bool}
          → Keep (child_plan p child)
          → Rewrites Skip Replace Keep child r
          → Rewrites Skip Replace Keep (child_plan p child) (rebuild_child p child r)
      params :
          {p : ParamsPlan px fl} {ps : Nodes px fl} {child : Node px fl} {rs : Nodes px fl × Bool}
          {r : Node px fl × Bool}
          → Keep (params_plan p ps child)
          → RewritesAll Skip Replace Keep ps rs
          → Rewrites Skip Replace Keep child r
          → Rewrites Skip Replace Keep (params_plan p ps child) (rebuild_params p ps child rs r)

    pub data RewritesAll (Skip Replace : Node px fl → Node px fl → Type 0)
        (Keep : Node px fl → Type 0) : Nodes px fl → Nodes px fl × Bool → Type 0 where
      done : RewritesAll Skip Replace Keep no_nodes (no_nodes, false)
      param :
          {n : Node px fl} {ns : Nodes px fl} {r : Node px fl × Bool} {rs : Nodes px fl × Bool}
          → Rewrites Skip Replace Keep n r
          → RewritesAll Skip Replace Keep ns rs
          → RewritesAll Skip Replace Keep (cons_node n ns) (rebuild_param n r rs)

  -- The number of nodes.
  unfoldable mutual
    pub size : Node px fl → ℕ
    size nil = 0
    size (leaf_expr_plan e) = 1
    size (scalar_literal_plan e v) = 1
    size (scalar_builtin_plan e f) = 1
    size (unary_plan e op child) = suc (size child)
    size (binary_plan e op m return_bool lhs rhs) = suc (size lhs + size rhs)
    size (child_plan p child) = suc (size child)
    size (params_plan p ps child) = suc (size_all ps + size child)

    pub size_all : Nodes px fl → ℕ
    size_all no_nodes = 0
    size_all (cons_node n ns) = size n + size_all ns

  -- Either nothing is changed, or the result has fewer nodes.
  abbrev pub Shrinks : Node px fl → Node px fl × Bool → Type 0
  Shrinks n r = ((r.1 ≡ false) × (r.0 ≡ n)) ⊎ ((r.1 ≡ true) × (size r.0 < size n))

  abbrev pub ShrinksAll : Nodes px fl → Nodes px fl × Bool → Type 0
  ShrinksAll n r = ((r.1 ≡ false) × (r.0 ≡ n)) ⊎ ((r.1 ≡ true) × (size_all r.0 < size_all n))

  rebuild_unary-Shrinks :
      (e : Option px.Expr) (op : Op) (child : Node px fl) (r : Node px fl × Bool)
      → Shrinks child r
      → Shrinks (unary_plan e op child) (rebuild_unary e op child r)
  unfolding rebuild_unary size
  rebuild_unary-Shrinks e op child (c, changed) (inl (same, _)) = rw same (inl (refl, refl))
  rebuild_unary-Shrinks e op child (c, changed) (inr (new, less)) = rw new (inr (refl, omega arith))

  rebuild_child-Shrinks :
      (p : ChildPlan px fl) (child : Node px fl) (r : Node px fl × Bool)
      → Shrinks child r
      → Shrinks (child_plan p child) (rebuild_child p child r)
  unfolding rebuild_child size
  rebuild_child-Shrinks p child (c, changed) (inl (same, _)) = rw same (inl (refl, refl))
  rebuild_child-Shrinks p child (c, changed) (inr (new, less)) = rw new (inr (refl, omega arith))

  rebuild_binary-Shrinks :
      (e : Option px.Expr) (op : Op) (m : Option (VectorMatching fl.F)) (return_bool : Bool)
      (lhs rhs : Node px fl) (l r : Node px fl × Bool)
      → Shrinks lhs l
      → Shrinks rhs r
      → Shrinks
          (binary_plan e op m return_bool lhs rhs)
          (rebuild_binary e op m return_bool lhs rhs l r)
  unfolding rebuild_binary size
  rebuild_binary-Shrinks e op m b lhs rhs (l, lc) (r, rc) (inl (s, _)) (inl (t, _)) =
      rw (s, t) (inl (refl, refl))
  rebuild_binary-Shrinks e op m b lhs rhs (l, lc) (r, rc) (inl (s, same)) (inr (t, less)) =
      rw (s, t, same) (inr (refl, omega arith))
  rebuild_binary-Shrinks e op m b lhs rhs (l, lc) (r, rc) (inr (s, less)) (inl (t, same)) =
      rw (s, same) (inr (refl, omega arith))
  rebuild_binary-Shrinks e op m b lhs rhs (l, lc) (r, rc) (inr (s, less)) (inr (t, less')) =
      rw s (inr (refl, omega arith))

  rebuild_params-Shrinks :
      (p : ParamsPlan px fl) (ps : Nodes px fl) (child : Node px fl) (rs : Nodes px fl × Bool)
      (r : Node px fl × Bool)
      → ShrinksAll ps rs
      → Shrinks child r
      → Shrinks (params_plan p ps child) (rebuild_params p ps child rs r)
  unfolding rebuild_params size
  rebuild_params-Shrinks p ps child (qs, qc) (c, cc') (inl (s, _)) (inl (t, _)) =
      rw (s, t) (inl (refl, refl))
  rebuild_params-Shrinks p ps child (qs, qc) (c, cc') (inl (s, same)) (inr (t, less)) =
      rw (s, t, same) (inr (refl, omega arith))
  rebuild_params-Shrinks p ps child (qs, qc) (c, cc') (inr (s, less)) (inl (t, same)) =
      rw (s, t, same) (inr (refl, omega arith))
  rebuild_params-Shrinks p ps child (qs, qc) (c, cc') (inr (s, less)) (inr (t, less')) =
      rw (s, t) (inr (refl, omega arith))

  rebuild_param-Shrinks :
      (n : Node px fl) (ns : Nodes px fl) (r : Node px fl × Bool) (rs : Nodes px fl × Bool)
      → Shrinks n r
      → ShrinksAll ns rs
      → ShrinksAll (cons_node n ns) (rebuild_param n r rs)
  unfolding rebuild_param size_all
  rebuild_param-Shrinks n ns (m, mc) (ms, msc) (inl (s, _)) (inl (t, same)) =
      rw (s, t, same) (inl (refl, refl))
  rebuild_param-Shrinks n ns (m, mc) (ms, msc) (inl (s, _)) (inr (t, less)) =
      rw (s, t) (inr (refl, omega arith))
  rebuild_param-Shrinks n ns (m, mc) (ms, msc) (inr (s, less)) (inl (t, same)) =
      rw (s, same) (inr (refl, omega arith))
  rebuild_param-Shrinks n ns (m, mc) (ms, msc) (inr (s, less)) (inr (t, less')) =
      rw s (inr (refl, omega arith))

  module _ {Skip Replace : Node px fl → Node px fl → Type 0} {Keep : Node px fl → Type 0}
      (skip_less : (n m : Node px fl) → Skip n m → size m < size n)
      (replace_less : (n m : Node px fl) → Replace n m → size m < size n) where
    mutual
      pub Rewrites-Shrinks :
          (n : Node px fl) (r : Node px fl × Bool) → Rewrites Skip Replace Keep n r → Shrinks n r
      Rewrites-Shrinks _ _ (skip {n} {m} {r} s w) =
          after_skip n m r (skip_less n m s) (Rewrites-Shrinks m r w)
        where
          after_skip :
              (n m : Node px fl) (r : Node px fl × Bool)
              → size m < size n
              → Shrinks m r
              → Shrinks n (r.0, true)
          after_skip n m r h (inl (_, same)) = inr (refl, rw same h)
          after_skip n m r h (inr (_, less)) = inr (refl, omega arith)
      Rewrites-Shrinks _ _ (replace {n} {m} h) = inr (refl, replace_less n m h)
      Rewrites-Shrinks _ _ (stay k l) = inl (refl, refl)
      Rewrites-Shrinks _ _ (unary {e} {op} {child} {r} k w) =
          rebuild_unary-Shrinks e op child r (Rewrites-Shrinks child r w)
      Rewrites-Shrinks _ _ (binary {e} {op} {m} {return_bool} {lhs} {rhs} {l} {r} k v w) =
          rebuild_binary-Shrinks e op m return_bool lhs rhs l r (Rewrites-Shrinks lhs l v)
            (Rewrites-Shrinks rhs r w)
      Rewrites-Shrinks _ _ (child_of {p} {child} {r} k w) =
          rebuild_child-Shrinks p child r (Rewrites-Shrinks child r w)
      Rewrites-Shrinks _ _ (params {p} {ps} {child} {rs} {r} k v w) =
          rebuild_params-Shrinks p ps child rs r (RewritesAll-Shrinks ps rs v)
            (Rewrites-Shrinks child r w)

      pub RewritesAll-Shrinks :
          (ns : Nodes px fl) (rs : Nodes px fl × Bool)
          → RewritesAll Skip Replace Keep ns rs
          → ShrinksAll ns rs
      RewritesAll-Shrinks _ _ done = inl (refl, refl)
      RewritesAll-Shrinks _ _ (param {n} {ns} {r} {rs} v w) =
          rebuild_param-Shrinks n ns r rs (Rewrites-Shrinks n r v) (RewritesAll-Shrinks ns rs w)
