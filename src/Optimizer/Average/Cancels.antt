-- ===== src/Optimizer/Average/Cancels.antt =====
-- What the replacement of repeated averages does to a plan.
use promshim_clickhouse.Base.{
  ℕ, ◌≤◌, ◌<◌, ◌≡◌, refl, Bool, false, not, ◌||◌, List, [], ◌∷◌, ◌++◌, Option, none, some, arith,
  Bool-cases, Option-cases, inl, inr, All, subst,
}
use promshim_clickhouse.Floats.{Floats}
use promshim_clickhouse.Matching.{Op}
use promshim_clickhouse.Plans.{
  Parser, Node, Nodes, nil, unary_plan, binary_plan, child_plan, params_plan, no_nodes, cons_node,
}
use promshim_clickhouse.Optimizer.Average.{
  literal_divisor, repeated_average_candidate, collect_implicit_repeated_add_terms, first_of_same,
  repeated_average_replacement, or_replace, cancel_repeated_average_in_tree,
  cancel_repeated_average_children, with_count, both_terms, repeated_average_multiplier_term_count,
  implicit_one_to_one_matching,
}
use promshim_clickhouse.Optimizer.Rewrites.{
  Rewrites, RewritesAll, replace, stay, unary, binary, child_of, params, done, param, Shrinks,
  Rewrites-Shrinks, size,
}

All-append : {A : Type 0} (P : A → Type 0) (xs ys : List A) → All P xs → All P ys → All P (xs ++ ys)
All-append P [] ys h k = k
All-append P (x ∷ xs) ys h k = (h.0, All-append P xs ys h.1 k)

All-weaken :
    {A : Type 0} (P Q : A → Type 0) (xs : List A) → ((x : A) → P x → Q x) → All P xs → All Q xs
All-weaken P Q [] f h = tt
All-weaken P Q (x ∷ xs) f h = (f x h.0, All-weaken P Q xs f h.1)

module _ {px : Parser} {fl : Floats} where
  with_count-fst :
      (n : Node px fl) (o : Option ℕ) (c : Node px fl × ℕ) → with_count n o ≡ some c → c.0 ≡ n
  with_count-fst n none c h = cc
  with_count-fst n (some k) c h = ground (arith, h)

  candidate-less :
      (n : Node px fl) (c : Node px fl × ℕ)
      → repeated_average_candidate n ≡ some c
      → size c.0 < size n
  unfolding repeated_average_candidate size
  candidate-less (binary_plan e Op.div none false lhs rhs) c h =
      rw (with_count-fst lhs (literal_divisor rhs) c h) (omega arith)
  candidate-less (binary_plan e Op.mul none false lhs rhs) c h =
      elim (Option-cases (repeated_average_multiplier_term_count rhs)) [
        | inr (k, q) ↦ rw (with_count-fst lhs (some k) c (rw q at h)) (omega arith)
        | inl q ↦
            rw (with_count-fst rhs (repeated_average_multiplier_term_count lhs) c (rw q at h))
              (omega arith)
      ]
  candidate-less _ c h = cc

  single-le :
      (n : Node px fl) (ts : List (Node px fl))
      → some (n ∷ []) ≡ some ts
      → All (λ t. size t ≤ size n) ts
  single-le n ts h =
      let e : n ∷ [] ≡ ts = ground (arith, h) in
      subst (All (λ t. size t ≤ size n)) e (omega arith, tt)

  both-parts :
      (a b : Option (List (Node px fl))) (ts : List (Node px fl))
      → both_terms a b ≡ some ts
      → (xs ys : List (Node px fl)) × (a ≡ some xs) × (b ≡ some ys) × (xs ++ ys ≡ ts)
  both-parts none b ts h = cc
  both-parts (some xs) none ts h = cc
  both-parts (some xs) (some ys) ts h = (xs, ys, refl, refl, ground (arith, h))

  collect-le :
      (n : Node px fl) (ts : List (Node px fl))
      → collect_implicit_repeated_add_terms n ≡ some ts
      → All (λ t. size t ≤ size n) ts
  unfolding collect_implicit_repeated_add_terms size
  collect-le nil ts h = cc
  collect-le (binary_plan e Op.add m b lhs rhs) ts h =
      elim (Bool-cases (b || not (implicit_one_to_one_matching m))) [
        | inl q ↦ absurd (some-none (rw q at h))
        | inr q ↦
            let (xs, ys, hx, hy, same) = both-parts _ _ ts (rw q at h) in
            subst (All _) same (
              All-append _ xs ys
                (All-weaken _ _ xs (λ t k. omega (arith, k)) (collect-le lhs xs hx))
                (All-weaken _ _ ys (λ t k. omega (arith, k)) (collect-le rhs ys hy)))
      ]
    where
      some-none : none ≡ some ts → ⊥
      some-none e = cc
  collect-le n ts h = single-le n ts h

  first_of_same-All :
      (drops : Node px fl → Bool) (P : Node px fl → Type 0) (ts : List (Node px fl))
      (found : Node px fl)
      → first_of_same drops ts ≡ some found
      → All P ts
      → P found
  unfolding first_of_same
  first_of_same-All drops P [] found h k = cc
  first_of_same-All drops P (t ∷ ts) found h k =
      let e : t ≡ found = ground (arith, h) in subst P e k.0

  module _ (drops : Node px fl → Bool) where
    abbrev Replaced : Node px fl → Node px fl → Type 0
    Replaced n m = repeated_average_replacement drops n ≡ some m

    abbrev NotReplaced : Node px fl → Type 0
    NotReplaced n = repeated_average_replacement drops n ≡ none

    abbrev NoSkip : Node px fl → Node px fl → Type 0
    NoSkip n m = ⊥

    Replaced-less : (n m : Node px fl) → Replaced n m → size m < size n
    unfolding repeated_average_replacement
    Replaced-less n m h = elim (Option-cases (repeated_average_candidate n)) [
      | inl e ↦ ground (arith, e, h)
      | inr (c, e) ↦ elim (Option-cases (collect_implicit_repeated_add_terms c.0)) [
        | inl f ↦ ground (arith, e, f, h)
        | inr (ts, f) ↦
            let found : first_of_same drops ts ≡ some m = ground (arith, e, f, h) in
            let le =
              first_of_same-All drops (λ t. size t ≤ size c.0) ts m found (collect-le c.0 ts f) in
            omega (arith, le, candidate-less n c e)
      ]
    ]

    by_replacement :
        (n : Node px fl) (r : Node px fl × Bool)
        → (NotReplaced n → Rewrites NoSkip Replaced NotReplaced n r)
        → Rewrites NoSkip Replaced NotReplaced n
            (or_replace (repeated_average_replacement drops n) r)
    by_replacement n r w = elim (Option-cases (repeated_average_replacement drops n)) [
      | inl e ↦ rw e (w e)
      | inr (m, e) ↦ rw e (replace e)
    ]

    nil-NotReplaced : NotReplaced nil
    unfolding repeated_average_replacement repeated_average_candidate
    nil-NotReplaced = refl

    mutual
      unfolding cancel_repeated_average_in_tree cancel_repeated_average_children

      cancel-Rewrites :
          (n : Node px fl)
          → Rewrites NoSkip Replaced NotReplaced n (cancel_repeated_average_in_tree drops n)
      cancel-Rewrites nil = stay nil-NotReplaced tt
      cancel-Rewrites (unary_plan e op child) =
          by_replacement (unary_plan e op child) _ (λ k. unary k (cancel-Rewrites child))
      cancel-Rewrites (binary_plan e op m b lhs rhs) =
          by_replacement (binary_plan e op m b lhs rhs) _
            (λ k. binary k (cancel-Rewrites lhs) (cancel-Rewrites rhs))
      cancel-Rewrites (child_plan p child) =
          by_replacement (child_plan p child) _ (λ k. child_of k (cancel-Rewrites child))
      cancel-Rewrites (params_plan p ps child) =
          by_replacement (params_plan p ps child) _
            (λ k. params k (cancel_children-Rewrites ps) (cancel-Rewrites child))
      cancel-Rewrites n = by_replacement n (n, false) (λ k. stay k tt)

      cancel_children-Rewrites :
          (ns : Nodes px fl)
          → RewritesAll NoSkip Replaced NotReplaced ns (cancel_repeated_average_children drops ns)
      cancel_children-Rewrites no_nodes = done
      cancel_children-Rewrites (cons_node n ns) =
          param (cancel-Rewrites n) (cancel_children-Rewrites ns)

    -- The flag tells the truth: the pass returns the plan itself where it reports no change, and a plan
    -- with fewer nodes where it reports one.
    pub cancel_repeated_average_in_tree-Shrinks :
        (n : Node px fl) → Shrinks n (cancel_repeated_average_in_tree drops n)
    cancel_repeated_average_in_tree-Shrinks n =
        Rewrites-Shrinks (λ a b h. absurd h) Replaced-less n
          (cancel_repeated_average_in_tree drops n) (cancel-Rewrites n)
