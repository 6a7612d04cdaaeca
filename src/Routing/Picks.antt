-- ===== src/Routing/Picks.antt =====
-- What a shadow run executes is never the candidate that is served already.
use promshim_clickhouse.Base.{
  Bool, true, false, not, ◌&&◌, List, [], ◌∷◌, none, some, All, Result, ok, err, select, any, ◌≡◌,
  refl, arith, ◌⊎◌, inl, inr, Bool-cases, Option-cases, Result-cases, ◌∙◌, sym,
}
use promshim_clickhouse.Bytes.Sort.{All-sort_by, any-sort_by}
use mathlib.Core.List.{Memᴰ}
use promshim_clickhouse.Floats.{Floats}
use promshim_clickhouse.Routing.Candidates.{
  ExecutionCandidate, CandidateDecision, CandidateId, same_id,
}
use promshim_clickhouse.Routing.Shadow.{
  SkipReason, candidate_less, is_ranked, rank_shadow_candidates, selected_candidate_of,
  first_alternate, check_selected, pick_ranked, pick_shadow_alternate_candidate,
  can_execute_shadow_candidate,
}

module _ (fl : Floats) where
  -- A candidate of the list that is ranked.
  abbrev pub Ranks : List (ExecutionCandidate fl) → ExecutionCandidate fl → Type 0
  Ranks candidates c = Memᴰ c candidates × (is_ranked fl c ≡ true)

  abbrev pub is_alternate : ExecutionCandidate fl → Bool
  is_alternate c = not c.served && can_execute_shadow_candidate c.id

  abbrev pub has_id : CandidateId → ExecutionCandidate fl → Bool
  has_id id c = same_id c.id id

  -- What the outcome of the pick says of the candidates, where the decision selects `id`.
  abbrev pub Picked :
      CandidateId
      → List (ExecutionCandidate fl)
      → Result SkipReason (ExecutionCandidate fl)
      → Type 0
  Picked id candidates (ok c) =
      Ranks candidates c
      × (is_alternate c ≡ true)
      × ((has_id id c ≡ true) ⊎ (any (λ o. is_ranked fl o && has_id id o) candidates ≡ false))
  Picked id candidates (err SkipReason.missing_candidate_decision) = ⊥
  Picked id candidates (err SkipReason.no_ranked_candidates) = any (is_ranked fl) candidates ≡ false
  Picked id candidates (err SkipReason.selected_is_served) =
      (c : ExecutionCandidate fl) × Ranks candidates c × (has_id id c ≡ true) × (c.served ≡ true)
  Picked id candidates (err SkipReason.selected_not_executable) =
      (c : ExecutionCandidate fl) × Ranks candidates c
      × (has_id id c ≡ true)
      × (can_execute_shadow_candidate c.id ≡ false)
  Picked id candidates (err SkipReason.no_executable_candidate) =
      (any (λ o. is_ranked fl o && has_id id o) candidates ≡ false)
      × (any (λ o. is_ranked fl o && is_alternate o) candidates ≡ false)

  any-select :
      (p q : ExecutionCandidate fl → Bool) (xs : List (ExecutionCandidate fl))
      → any q (select p xs) ≡ any (λ x. p x && q x) xs
  any-select p q [] = refl
  any-select p q (x ∷ xs) = ground (arith, any-select p q xs)

  any-rank_shadow_candidates :
      (q : ExecutionCandidate fl → Bool) (xs : List (ExecutionCandidate fl))
      → any q (rank_shadow_candidates fl xs) ≡ any (λ x. is_ranked fl x && q x) xs
  unfolding rank_shadow_candidates
  any-rank_shadow_candidates q xs =
      any-sort_by (candidate_less fl) q (select (is_ranked fl) xs) ∙ any-select (is_ranked fl) q xs

  All-tail :
      (x : ExecutionCandidate fl) (xs ys : List (ExecutionCandidate fl))
      → All (Ranks xs) ys
      → All (Ranks (x ∷ xs)) ys
  All-tail x xs [] h = tt
  All-tail x xs (y ∷ ys) h = ((Memᴰ.tail h.0.0, h.0.1), All-tail x xs ys h.1)

  All-select : (xs : List (ExecutionCandidate fl)) → All (Ranks xs) (select (is_ranked fl) xs)
  All-select [] = tt
  All-select (x ∷ xs) = elim (Bool-cases (is_ranked fl x)) [
    | inl e ↦ rw e ((Memᴰ.head refl, e), All-tail x xs (select (is_ranked fl) xs) (All-select xs))
    | inr e ↦ rw e (All-tail x xs (select (is_ranked fl) xs) (All-select xs))
  ]

  All-rank_shadow_candidates :
      (xs : List (ExecutionCandidate fl)) → All (Ranks xs) (rank_shadow_candidates fl xs)
  unfolding rank_shadow_candidates
  All-rank_shadow_candidates xs =
      All-sort_by (candidate_less fl) (Ranks xs) (select (is_ranked fl) xs) (All-select xs)

  module _ (P : ExecutionCandidate fl → Type 0) where
    selected_candidate_of-some :
        (id : CandidateId) (xs : List (ExecutionCandidate fl)) (c : ExecutionCandidate fl)
        → selected_candidate_of fl id xs ≡ some c
        → All P xs
        → P c × (has_id id c ≡ true)
    unfolding selected_candidate_of
    selected_candidate_of-some id [] c h a = cc
    selected_candidate_of-some id (x ∷ xs) c h a = elim (Bool-cases (has_id id x)) [
      | inl e ↦ let same : x ≡ c = ground (arith, e, h) in rw (← same) (a.0, e)
      | inr e ↦ selected_candidate_of-some id xs c (ground (arith, e, h)) a.1
    ]

    first_alternate-ok :
        (xs : List (ExecutionCandidate fl)) (c : ExecutionCandidate fl)
        → first_alternate fl xs ≡ ok c
        → All P xs
        → P c × (is_alternate c ≡ true)
    unfolding first_alternate
    first_alternate-ok [] c h a = cc
    first_alternate-ok (x ∷ xs) c h a = elim (Bool-cases (is_alternate x)) [
      | inl e ↦ let same : x ≡ c = ground (arith, e, h) in rw (← same) (a.0, e)
      | inr e ↦ first_alternate-ok xs c (ground (arith, e, h)) a.1
    ]

  selected_candidate_of-none :
      (id : CandidateId) (xs : List (ExecutionCandidate fl))
      → selected_candidate_of fl id xs ≡ none
      → any (has_id id) xs ≡ false
  unfolding selected_candidate_of
  selected_candidate_of-none id [] h = refl
  selected_candidate_of-none id (x ∷ xs) h = ground (arith, h, selected_candidate_of-none id xs)

  first_alternate-err :
      (xs : List (ExecutionCandidate fl)) (e : SkipReason)
      → first_alternate fl xs ≡ err e
      → (e ≡ SkipReason.no_executable_candidate) × (any is_alternate xs ≡ false)
  unfolding first_alternate
  first_alternate-err [] e h = (cc, refl)
  first_alternate-err (x ∷ xs) e h = ground (arith, h, first_alternate-err xs e)

  any-and-true :
      (p : ExecutionCandidate fl → Bool) (xs : List (ExecutionCandidate fl))
      → any p xs ≡ any (λ x. p x && true) xs
  any-and-true p [] = refl
  any-and-true p (x ∷ xs) = ground (arith, any-and-true p xs)

  check_selected-Picked :
      (id : CandidateId) (candidates : List (ExecutionCandidate fl)) (c : ExecutionCandidate fl)
      → Ranks candidates c
      → has_id id c ≡ true
      → Picked id candidates (check_selected fl c)
  unfolding check_selected
  check_selected-Picked id candidates c ranked selected = elim (Bool-cases c.served) [
    | inl served ↦ simp served (c, ranked, selected, served)
    | inr idle ↦ elim (Bool-cases (can_execute_shadow_candidate c.id)) [
      | inl runs ↦ simp (idle, runs) (ranked, refl, inl selected)
      | inr fails ↦ simp (idle, fails) (c, ranked, selected, fails)
    ]
  ]

  pick_ranked-Picked :
      (d : CandidateDecision fl) (candidates ranked : List (ExecutionCandidate fl))
      → All (Ranks candidates) ranked
      → ((q : ExecutionCandidate fl → Bool)
          → any q ranked ≡ any (λ x. is_ranked fl x && q x) candidates)
      → Picked d.selected_candidate candidates (pick_ranked fl d ranked)
  unfolding pick_ranked
  pick_ranked-Picked d candidates [] ranks counts =
      any-and-true (is_ranked fl) candidates ∙ sym (counts (λ x. true))
  pick_ranked-Picked d candidates (first ∷ rest) ranks counts =
      let id = d.selected_candidate in
      elim (Option-cases (selected_candidate_of fl id (first ∷ rest))) [
        | inl e ↦
            let unselected =
              sym (counts (has_id id)) ∙ selected_candidate_of-none id (first ∷ rest) e in
            elim (Result-cases (first_alternate fl (first ∷ rest))) [
              | inl (c, f) ↦
                  let (ranked, alternate) =
                    first_alternate-ok (Ranks candidates) (first ∷ rest) c f ranks in
                  rw (e, pick_ranked, f) (ranked, alternate, inr unselected)
              | inr (reason, f) ↦
                  let (same, nothing) = first_alternate-err (first ∷ rest) reason f in
                  rw (e, pick_ranked, f, same) (unselected, sym (counts is_alternate) ∙ nothing)
            ]
        | inr (c, e) ↦
            let (ranked, selected) =
              selected_candidate_of-some (Ranks candidates) id (first ∷ rest) c e ranks in
            rw (e, pick_ranked) (check_selected-Picked id candidates c ranked selected)
      ]

  -- Where a decision is there, the pick of a shadow run never fails for want of one. A candidate that it
  -- returns is one of the list, ranked, not the one that is served, and executable; it is the selected one
  -- unless that is not ranked. It skips the run only where no candidate is ranked, where a ranked
  -- candidate that is selected is served or cannot be executed, or where none is selected and no ranked
  -- one is both unserved and executable.
  pub pick_shadow_alternate_candidate-Picked :
      (d : CandidateDecision fl) (candidates : List (ExecutionCandidate fl))
      → Picked d.selected_candidate candidates
          (pick_shadow_alternate_candidate fl (some d) candidates)
  unfolding pick_shadow_alternate_candidate
  pick_shadow_alternate_candidate-Picked d candidates =
      pick_ranked-Picked d candidates (rank_shadow_candidates fl candidates)
        (All-rank_shadow_candidates candidates) (λ q. any-rank_shadow_candidates q candidates)
