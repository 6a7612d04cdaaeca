-- ===== src/Optimizer/Loop/Fixpoint.antt =====
-- The loop over the passes ends, and what it returns no pass changes.
use promshim_clickhouse.Base.{
  ℕ, zero, suc, ◌≤◌, ◌<◌, ◌≡◌, refl, ◌∙◌, sym, ap, Bool, true, false, List, [], ◌∷◌, Result, ok,
  err, ok_parts, All, subst, arith, Bool-cases, Result-cases, inl, inr, ◌⊎◌,
}
use promshim_clickhouse.Floats.{Floats}
use promshim_clickhouse.Plans.{Parser, Node}
use promshim_clickhouse.Optimizer.{fold_double_negations}
use promshim_clickhouse.Optimizer.Average.{cancel_repeated_average_in_tree}
use promshim_clickhouse.Optimizer.Average.Cancels.{cancel_repeated_average_in_tree-Shrinks}
use promshim_clickhouse.Optimizer.Fold.{fold_double_negations-Shrinks}
use promshim_clickhouse.Optimizer.Rewrites.{Shrinks, size}
use promshim_clickhouse.Optimizer.Loop.{
  Error, Pass, State, Analysis, analyze, run_passes, iterate, optimize, is_nil, default_passes,
  max_optimize_iterations,
}

module _ {px : Parser} {fl : Floats} where
  -- A round either leaves the state as it was, or reports a change and shrinks the plan.
  abbrev Progress : State px fl → State px fl → Type 0
  Progress s s' = (s' ≡ s) ⊎ ((s'.changed ≡ true) × (size s'.root < size s.root))

module _ {px : Parser} {fl : Floats} {E : Type 0} where
  -- The pass succeeds on every plan, and its flag tells whether it made the plan smaller.
  abbrev pub IsShrinking : Pass px fl E → Type 0
  IsShrinking p =
      (root : Node px fl) (analysis : Analysis px fl)
      → (r : Node px fl × Bool) × (p.apply root analysis ≡ ok r) × Shrinks root r

  -- The pass reports no change on the plan.
  abbrev pub LeavesAlone : Node px fl → Analysis px fl → Pass px fl E → Type 0
  LeavesAlone root analysis p = (next : Node px fl) × (p.apply root analysis ≡ ok (next, false))

  -- A pass and the rest of the round make progress where both do.
  pass-Progress :
      (p : Pass px fl E) (passes : List (Pass px fl E)) (s : State px fl) (r : Node px fl × Bool)
      → p.apply s.root s.analysis ≡ ok r
      → Shrinks s.root r
      → ((t : State px fl) → (s' : State px fl) × (run_passes passes t ≡ ok s') × Progress t s')
      → (s' : State px fl) × (run_passes (p ∷ passes) s ≡ ok s') × Progress s s'
  unfolding run_passes
  pass-Progress p passes s (next, flag) applied (inl (f, same)) rest =
      let (s', runs, progress) = rest s in (s', rw (applied, f) runs, progress)
  pass-Progress p passes s (next, flag) applied (inr (t, less)) rest =
      let (s', runs, progress) =
        rest (record { root = next; analysis = analyze next; changed = true }) in
      (
        s',
        rw (applied, t) runs,
        elim progress [
          | inl same ↦ inr (ap (λ z. z.changed) same, rw same less)
          | inr (changed, less') ↦ inr (changed, omega (arith, less, less'))
        ],
      )

  run_passes-Progress :
      (passes : List (Pass px fl E)) (s : State px fl)
      → All IsShrinking passes
      → (s' : State px fl) × (run_passes passes s ≡ ok s') × Progress s s'
  run_passes-Progress [] s h = (s, unfold run_passes in refl, inl refl)
  run_passes-Progress (p ∷ passes) s h =
      let (r, applied, shrinks) = h.0 s.root s.analysis in
      pass-Progress p passes s r applied shrinks (λ t. run_passes-Progress passes t h.1)

  iterate-total :
      (iterations : ℕ) (passes : List (Pass px fl E)) (root : Node px fl)
      (analysis : Analysis px fl)
      → All IsShrinking passes
      → size root < iterations
      → (out : Node px fl × Analysis px fl) × (iterate iterations passes root analysis ≡ ok out)
        × (size out.0 ≤ size root)
  unfolding iterate
  iterate-total zero passes root analysis h lt = elim lt [ ]
  iterate-total (suc iterations) passes root analysis h lt =
      let s : State px fl = record { root = root; analysis = analysis; changed = false } in
      let (s', runs, progress) = run_passes-Progress passes s h in
      elim progress [
        | inl same ↦ ((root, analysis), rw (runs, same) refl, omega arith)
        | inr (changed, less) ↦
            let (out, ends, le) =
              iterate-total iterations passes s'.root s'.analysis h (omega (arith, less, lt)) in
            (out, rw (runs, changed) ends, omega (arith, less, le))
      ]

  -- Once a change is reported, the round reports it.
  run_passes-changed :
      (passes : List (Pass px fl E)) (s s' : State px fl)
      → run_passes passes s ≡ ok s'
      → s.changed ≡ true
      → s'.changed ≡ true
  unfolding run_passes
  run_passes-changed [] s s' h c =
      let same : s ≡ s' = ground (arith, h) in ap (λ z. z.changed) (sym same) ∙ c
  run_passes-changed (p ∷ passes) s s' h c = elim (Result-cases (p.apply s.root s.analysis)) [
    | inl ((next, flag), e) ↦ elim (Bool-cases flag) [
      | inl t ↦ run_passes-changed passes _ s' (rw (e, t) at h) refl
      | inr f ↦ run_passes-changed passes s s' (rw (e, f) at h) c
    ]
    | inr (x, e) ↦ absurd (err-ok (rw e at h))
  ]
    where
      err-ok : {e : Error E} → err e ≡ ok s' → ⊥
      err-ok e = cc

  run_passes-alone :
      (passes : List (Pass px fl E)) (s s' : State px fl)
      → run_passes passes s ≡ ok s'
      → s'.changed ≡ false
      → (s' ≡ s) × All (LeavesAlone s.root s.analysis) passes
  unfolding run_passes
  run_passes-alone [] s s' h c = let same : s ≡ s' = ground (arith, h) in (sym same, tt)
  run_passes-alone (p ∷ passes) s s' h c = elim (Result-cases (p.apply s.root s.analysis)) [
    | inl ((next, flag), e) ↦ elim (Bool-cases flag) [
      | inl t ↦ absurd (true-false (sym (run_passes-changed passes _ s' (rw (e, t) at h) refl) ∙ c))
      | inr f ↦
          let (same, alone) = run_passes-alone passes s s' (rw (e, f) at h) c in
          (same, ((next, e ∙ ap (λ z. ok (next, z)) f), alone))
    ]
    | inr (x, e) ↦ absurd (err-ok (rw e at h))
  ]
    where
      err-ok : {e : Error E} → err e ≡ ok s' → ⊥
      err-ok e = cc

      true-false : true ≡ false → ⊥
      true-false e = cc

  stopped :
      (passes : List (Pass px fl E)) (s s' : State px fl) (out : Node px fl × Analysis px fl)
      → run_passes passes s ≡ ok s'
      → s'.changed ≡ false
      → ◌≡◌ {A = Result (Error E) (Node px fl × Analysis px fl)}
          (ok (s'.root, s'.analysis))
          (ok out)
      → All (LeavesAlone out.0 out.1) passes
  stopped passes s s' out runs f e =
      let (same, alone) = run_passes-alone passes s s' runs f in
      let here : (s'.root, s'.analysis) ≡ out = ground (arith, e) in
      subst (λ z. All (LeavesAlone z.0 z.1) passes)
        (ap (λ z. (z.root, z.analysis)) (sym same) ∙ here) alone

  iterate-alone :
      (iterations : ℕ) (passes : List (Pass px fl E)) (root : Node px fl)
      (analysis : Analysis px fl) (out : Node px fl × Analysis px fl)
      → iterate iterations passes root analysis ≡ ok out
      → All (LeavesAlone out.0 out.1) passes
  unfolding iterate
  iterate-alone zero passes root analysis out h = cc
  iterate-alone (suc iterations) passes root analysis out h =
      let s : State px fl = record { root = root; analysis = analysis; changed = false } in
      let (s', runs, more) = ok_parts (run_passes passes s) _ h in
      elim (Bool-cases s'.changed) [
        | inl t ↦ iterate-alone iterations passes s'.root s'.analysis out (rw t at more)
        | inr f ↦ stopped passes s s' out runs f (rw f at more)
      ]

  -- Whatever the loop returns is a fixed point: every one of the passes reports no change on the plan,
  -- with the analysis that is returned with it.
  pub optimize-LeavesAlone :
      (passes : List (Pass px fl E)) (root : Node px fl) (out : Node px fl × Analysis px fl)
      → optimize false root passes ≡ ok out
      → All (LeavesAlone out.0 out.1) passes
  unfolding optimize
  optimize-LeavesAlone [] root out h = tt
  optimize-LeavesAlone (p ∷ passes) root out h = elim (Bool-cases (is_nil root)) [
    | inl t ↦ absurd (err-ok (rw t at h))
    | inr f ↦ iterate-alone max_optimize_iterations (p ∷ passes) root (analyze root) out (rw f at h)
  ]
    where
      err-ok : {e : Error E} → err e ≡ ok out → ⊥
      err-ok e = cc

  -- With passes that always succeed and report a change only where they make the plan smaller, the loop
  -- succeeds on every plan of fewer than eight nodes, with no more nodes.
  optimize-total :
      (passes : List (Pass px fl E)) (root : Node px fl)
      → All IsShrinking passes
      → is_nil root ≡ false
      → size root < max_optimize_iterations
      → (out : Node px fl × Analysis px fl) × (optimize false root passes ≡ ok out)
        × (size out.0 ≤ size root)
  unfolding optimize
  optimize-total [] root h not_nil lt = ((root, analyze root), rw not_nil refl, omega arith)
  optimize-total (p ∷ passes) root h not_nil lt =
      let (out, e, le) =
        iterate-total max_optimize_iterations (p ∷ passes) root (analyze root) h lt in
      (out, rw not_nil e, le)

  pub default_passes-IsShrinking : All IsShrinking (default_passes {E = E})
  default_passes-IsShrinking = (
    λ root analysis. (fold_double_negations root, refl, fold_double_negations-Shrinks root),
    (
      (λ root analysis. (
        cancel_repeated_average_in_tree analysis root,
        refl,
        cancel_repeated_average_in_tree-Shrinks analysis root,
      )),
      tt,
    ),
  )

  -- The default passes optimise every plan of fewer than eight nodes, and neither of them changes
  -- the result.
  pub default_passes-optimize :
      (root : Node px fl)
      → is_nil root ≡ false
      → size root < max_optimize_iterations
      → (out : Node px fl × Analysis px fl) × (optimize false root (default_passes {E = E})
          ≡ ok out)
        × (size out.0 ≤ size root)
        × ((fold_double_negations out.0).1 ≡ false)
        × ((cancel_repeated_average_in_tree out.1 out.0).1 ≡ false)
  default_passes-optimize root not_nil lt =
      let (out, e, le) = optimize-total default_passes root default_passes-IsShrinking not_nil lt in
      let (a, (b, _)) = optimize-LeavesAlone default_passes root out e in
      (out, e, le, flag a, flag b)
    where
      flag :
          {r : Node px fl × Bool}
          → ((next : Node px fl) × (◌≡◌ {A = Result E (Node px fl × Bool)}
                (ok r)
                (ok (next, false))))
          → r.1 ≡ false
      flag (next, e) = ground (arith, e)
