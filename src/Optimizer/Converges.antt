-- ===== src/Optimizer/Converges.antt =====
-- The double negations of a plan are gone after one run of the pass, and a second run changes nothing.
use promshim_clickhouse.Base.{◌≡◌, refl, Bool, true, false, Option, arith, inl, inr, subst}
use promshim_clickhouse.Floats.{Floats}
use promshim_clickhouse.Matching.{Op, VectorMatching}
use promshim_clickhouse.Plans.{
  Parser, ChildPlan, ParamsPlan, Node, Nodes, nil, leaf_expr_plan, scalar_literal_plan,
  scalar_builtin_plan, unary_plan, binary_plan, child_plan, params_plan, no_nodes, cons_node,
}
use promshim_clickhouse.Optimizer.{
  rebuild_unary, rebuild_binary, rebuild_child, rebuild_params, rebuild_param,
  fold_double_negations, fold_params,
}
use promshim_clickhouse.Optimizer.Rewrites.{
  Rewrites, RewritesAll, skip, replace, stay, unary, binary, child_of, params, done, param, Shrinks,
  ShrinksAll, Rewrites-Shrinks, RewritesAll-Shrinks, IsLeaf,
}
use promshim_clickhouse.Optimizer.Fold.{
  IsDoubleNegation, NoReplacement, NotDouble, fold-Rewrites, double-less,
}

module _ {px : Parser} {fl : Floats} where
  -- No node of the plan is the negation of a negation.
  abbrev mutual
    pub IsFolded : Node px fl → Type 0
    IsFolded (unary_plan e op child) = NotDouble (unary_plan e op child) × IsFolded child
    IsFolded (binary_plan e op m return_bool lhs rhs) = IsFolded lhs × IsFolded rhs
    IsFolded (child_plan p child) = IsFolded child
    IsFolded (params_plan p ps child) = AreFolded ps × IsFolded child
    IsFolded _ = Unit

    pub AreFolded : Nodes px fl → Type 0
    AreFolded no_nodes = Unit
    AreFolded (cons_node n ns) = IsFolded n × AreFolded ns

  abbrev IsNegation : Node px fl → Type 0
  IsNegation (unary_plan e Op.sub child) = Unit
  IsNegation _ = ⊥

  abbrev Walk : Node px fl → Node px fl × Bool → Type 0
  Walk = Rewrites IsDoubleNegation NoReplacement NotDouble

  abbrev WalkAll : Nodes px fl → Nodes px fl × Bool → Type 0
  WalkAll = RewritesAll IsDoubleNegation NoReplacement NotDouble

  double-IsNegation : (n m : Node px fl) → IsDoubleNegation n m → IsNegation n
  double-IsNegation (unary_plan e Op.sub (unary_plan e' Op.sub child)) m h = tt
  double-IsNegation _ m h = absurd h

  unary-IsNegation :
      (e : Option px.Expr) (op : Op) (child : Node px fl) (r : Node px fl × Bool)
      → IsNegation (rebuild_unary e op child r).0
      → IsNegation (unary_plan e op child)
  unfolding rebuild_unary
  unary-IsNegation e Op.sub child r h = tt
  unary-IsNegation e _ child (c, true) h = h
  unary-IsNegation e _ child (c, false) h = h

  -- The walk makes no negation of what was none.
  Walk-IsNegation :
      (n : Node px fl) (r : Node px fl × Bool) → Walk n r → IsNegation r.0 → IsNegation n
  unfolding rebuild_binary rebuild_child rebuild_params
  Walk-IsNegation _ _ (skip {n} {m} s w) h = double-IsNegation n m s
  Walk-IsNegation _ _ (replace a) h = absurd a
  Walk-IsNegation _ _ (stay k l) h = h
  Walk-IsNegation _ _ (unary {e} {op} {child} {r} k w) h = unary-IsNegation e op child r h
  Walk-IsNegation _ _ (binary {l} {r} k v w) h = ground (arith, h)
  Walk-IsNegation _ _ (child_of {r} k w) h = ground (arith, h)
  Walk-IsNegation _ _ (params {rs} {r} k v w) h = ground (arith, h)

  negation-not_NotDouble :
      (e : Option px.Expr) (c : Node px fl) → IsNegation c → ¬ NotDouble (unary_plan e Op.sub c)
  negation-not_NotDouble e (unary_plan e' Op.sub x) h k = k x refl
  negation-not_NotDouble e _ h k = absurd h

  NotDouble-unary :
      (e : Option px.Expr) (op : Op) (c c' : Node px fl)
      → NotDouble (unary_plan e op c)
      → (IsNegation c' → IsNegation c)
      → NotDouble (unary_plan e op c')
  NotDouble-unary e Op.sub c (unary_plan e' Op.sub x) k h m d = negation-not_NotDouble e c (h tt) k
  NotDouble-unary e op c _ k h m d = d

  Walk-Shrinks : (n : Node px fl) (r : Node px fl × Bool) → Walk n r → Shrinks n r
  Walk-Shrinks n r w = Rewrites-Shrinks double-less (λ a b h. absurd h) n r w

  WalkAll-ShrinksAll :
      (ns : Nodes px fl) (rs : Nodes px fl × Bool) → WalkAll ns rs → ShrinksAll ns rs
  WalkAll-ShrinksAll ns rs w = RewritesAll-Shrinks double-less (λ a b h. absurd h) ns rs w

  unary-IsFolded :
      (e : Option px.Expr) (op : Op) (child : Node px fl) (r : Node px fl × Bool)
      → Shrinks child r
      → IsFolded r.0
      → NotDouble (unary_plan e op child)
      → (IsNegation r.0 → IsNegation child)
      → IsFolded (rebuild_unary e op child r).0
  unfolding rebuild_unary
  unary-IsFolded e op child (c, flag) (inl (f, same)) h k neg = rw f (k, subst IsFolded same h)
  unary-IsFolded e op child (c, flag) (inr (t, less)) h k neg =
      rw t (NotDouble-unary e op child c k neg, h)

  binary-IsFolded :
      (e : Option px.Expr) (op : Op) (m : Option (VectorMatching fl.F)) (b : Bool)
      (lhs rhs : Node px fl) (l r : Node px fl × Bool)
      → Shrinks lhs l
      → Shrinks rhs r
      → IsFolded l.0
      → IsFolded r.0
      → IsFolded (rebuild_binary e op m b lhs rhs l r).0
  unfolding rebuild_binary
  binary-IsFolded e op m b lhs rhs (l, lc) (r, rc) (inl (s, same)) (inl (t, same')) h k =
      rw (s, t) (subst IsFolded same h, subst IsFolded same' k)
  binary-IsFolded e op m b lhs rhs (l, lc) (r, rc) (inl (s, _)) (inr (t, _)) h k = rw (s, t) (h, k)
  binary-IsFolded e op m b lhs rhs (l, lc) (r, rc) (inr (s, _)) _ h k = rw s (h, k)

  child-IsFolded :
      (p : ChildPlan px fl) (child : Node px fl) (r : Node px fl × Bool)
      → Shrinks child r
      → IsFolded r.0
      → IsFolded (rebuild_child p child r).0
  unfolding rebuild_child
  child-IsFolded p child (c, flag) (inl (f, same)) h = rw f (subst IsFolded same h)
  child-IsFolded p child (c, flag) (inr (t, _)) h = rw t h

  params-IsFolded :
      (p : ParamsPlan px fl) (ps : Nodes px fl) (child : Node px fl) (rs : Nodes px fl × Bool)
      (r : Node px fl × Bool)
      → ShrinksAll ps rs
      → Shrinks child r
      → AreFolded rs.0
      → IsFolded r.0
      → IsFolded (rebuild_params p ps child rs r).0
  unfolding rebuild_params
  params-IsFolded p ps child (qs, qc) (c, flag) (inl (s, same)) (inl (t, same')) h k =
      rw (s, t) (subst AreFolded same h, subst IsFolded same' k)
  params-IsFolded p ps child (qs, qc) (c, flag) (inr (s, _)) (inl (t, _)) h k = rw (s, t) (h, k)
  params-IsFolded p ps child (qs, qc) (c, flag) _ (inr (t, _)) h k = rw t (h, k)

  param-AreFolded :
      (n : Node px fl) (ns : Nodes px fl) (r : Node px fl × Bool) (rs : Nodes px fl × Bool)
      → Shrinks n r
      → IsFolded r.0
      → AreFolded rs.0
      → AreFolded (rebuild_param n r rs).0
  unfolding rebuild_param
  param-AreFolded n ns (m, flag) rs (inl (f, same)) h k = rw f (subst IsFolded same h, k)
  param-AreFolded n ns (m, flag) rs (inr (t, _)) h k = rw t (h, k)

  mutual
    Walk-IsFolded : (n : Node px fl) (r : Node px fl × Bool) → Walk n r → IsFolded r.0
    Walk-IsFolded _ _ (skip {m} {r} s w) = Walk-IsFolded m r w
    Walk-IsFolded _ _ (replace a) = absurd a
    Walk-IsFolded _ _ (stay {n} k l) = leaf n l
      where
        leaf : (n : Node px fl) → IsLeaf n → IsFolded n
        leaf nil l = tt
        leaf (leaf_expr_plan e) l = tt
        leaf (scalar_literal_plan e v) l = tt
        leaf (scalar_builtin_plan e f) l = tt
        leaf _ l = absurd l
    Walk-IsFolded _ _ (unary {e} {op} {child} {r} k w) =
        unary-IsFolded e op child r (Walk-Shrinks child r w) (Walk-IsFolded child r w) k
          (Walk-IsNegation child r w)
    Walk-IsFolded _ _ (binary {e} {op} {m} {return_bool} {lhs} {rhs} {l} {r} k v w) =
        binary-IsFolded e op m return_bool lhs rhs l r (Walk-Shrinks lhs l v) (Walk-Shrinks rhs r w)
          (Walk-IsFolded lhs l v) (Walk-IsFolded rhs r w)
    Walk-IsFolded _ _ (child_of {p} {child} {r} k w) =
        child-IsFolded p child r (Walk-Shrinks child r w) (Walk-IsFolded child r w)
    Walk-IsFolded _ _ (params {p} {ps} {child} {rs} {r} k v w) =
        params-IsFolded p ps child rs r (WalkAll-ShrinksAll ps rs v) (Walk-Shrinks child r w)
          (WalkAll-AreFolded ps rs v) (Walk-IsFolded child r w)

    WalkAll-AreFolded :
        (ns : Nodes px fl) (rs : Nodes px fl × Bool) → WalkAll ns rs → AreFolded rs.0
    WalkAll-AreFolded _ _ done = tt
    WalkAll-AreFolded _ _ (param {n} {ns} {r} {rs} v w) =
        param-AreFolded n ns r rs (Walk-Shrinks n r v) (Walk-IsFolded n r v)
          (WalkAll-AreFolded ns rs w)

  rebuild_unary-same :
      (e : Option px.Expr) (op : Op) (child : Node px fl) (r : Node px fl × Bool)
      → r ≡ (child, false)
      → rebuild_unary e op child r ≡ (unary_plan e op child, false)
  unfolding rebuild_unary
  rebuild_unary-same e op child r h = rw h refl

  mutual
    unfolding fold_double_negations fold_params rebuild_unary rebuild_binary rebuild_child
        rebuild_params rebuild_param

    IsFolded-fold : (n : Node px fl) → IsFolded n → fold_double_negations n ≡ (n, false)
    IsFolded-fold nil h = refl
    IsFolded-fold (unary_plan e Op.sub (unary_plan e' Op.sub child)) h = absurd (h.0 child refl)
    IsFolded-fold (unary_plan e op child) h =
        rebuild_unary-same e op child (fold_double_negations child) (IsFolded-fold child h.1)
    IsFolded-fold (binary_plan e op m return_bool lhs rhs) h =
        rw (IsFolded-fold lhs h.0, IsFolded-fold rhs h.1) refl
    IsFolded-fold (child_plan p child) h = rw (IsFolded-fold child h) refl
    IsFolded-fold (params_plan p ps child) h =
        rw (IsFolded-fold child h.1, AreFolded-fold ps h.0) refl
    IsFolded-fold _ h = refl

    AreFolded-fold : (ns : Nodes px fl) → AreFolded ns → fold_params ns ≡ (ns, false)
    AreFolded-fold no_nodes h = refl
    AreFolded-fold (cons_node n ns) h = rw (IsFolded-fold n h.0, AreFolded-fold ns h.1) refl

  -- One run of the pass removes every negation of a negation, and a run on its result reports no change
  -- and returns it as it is.
  pub fold_double_negations-IsFolded :
      (n : Node px fl)
      → IsFolded (fold_double_negations n).0
        × (fold_double_negations (fold_double_negations n).0 ≡ ((fold_double_negations n).0, false))
  fold_double_negations-IsFolded n =
      let folded = Walk-IsFolded n (fold_double_negations n) (fold-Rewrites n) in
      (folded, IsFolded-fold (fold_double_negations n).0 folded)
