-- ===== src/Routing/Shadow.antt =====
-- internal/promshim/cost_shadow.go: which candidate a shadow run executes beside the one that is served,
-- and in which mode. The runs themselves and the metrics are effects, and not modelled.
use promshim_clickhouse.Base.{
  ℕ, Bool, true, false, not, ◌&&◌, List, [], ◌∷◌, Option, none, some, if◌then◌else◌, ltb, select,
  Result, ok, err, ◌||◌,
}
use promshim_clickhouse.Bytes.Sort.{sort_by}
use promshim_clickhouse.Floats.{Floats}
use promshim_clickhouse.Routing.{Mode, prefer, off, force_supported, local_pushdown}
use promshim_clickhouse.Routing.Candidates.{
  CandidateId, native_sql_candidate, local_pushdown_candidate, full_local, same_id,
  ExecutionCandidate, CandidateDecision,
}

pub data SkipReason : Type 0 where
  missing_candidate_decision no_ranked_candidates selected_is_served : SkipReason
  selected_not_executable no_executable_candidate : SkipReason

-- candidateNativeMode
unfoldable pub candidate_native_mode : CandidateId → Mode
candidate_native_mode native_sql_candidate = force_supported
candidate_native_mode local_pushdown_candidate = local_pushdown
candidate_native_mode full_local = off
candidate_native_mode _ = prefer

unfoldable pub can_execute_shadow_candidate : CandidateId → Bool
can_execute_shadow_candidate native_sql_candidate = true
can_execute_shadow_candidate local_pushdown_candidate = true
can_execute_shadow_candidate full_local = true
can_execute_shadow_candidate _ = false

module _ (fl : Floats) where
  open fl use {F}

  -- The cost, none where it is missing or not positive.
  unfoldable pub candidate_cost : ExecutionCandidate fl → Option F
  candidate_cost c = elim c.estimated_cost [
    | none ↦ none
    | some value ↦ if fl.le value fl.zero then none else some value
  ]

  -- The order of two candidates of which both or neither is selected.
  unfoldable pub cost_less : Option F → Option F → ℕ → ℕ → Bool
  cost_less (some l) none left right = true
  cost_less none (some r) left right = false
  cost_less none none left right = ltb left right
  cost_less (some l) (some r) left right = if fl.eq l r then ltb left right else fl.lt l r

  unfoldable pub candidate_less : ExecutionCandidate fl → ExecutionCandidate fl → Bool
  unfolding candidate_cost cost_less
  candidate_less left right =
      if left.selected && not right.selected
      then true
      else if not left.selected && right.selected
      then false
      else cost_less (candidate_cost left) (candidate_cost right) left.tier right.tier

  abbrev pub is_ranked : ExecutionCandidate fl → Bool
  is_ranked c = c.supported && c.known_correct && c.eligible

  unfoldable pub rank_shadow_candidates :
      List (ExecutionCandidate fl) → List (ExecutionCandidate fl)
  rank_shadow_candidates candidates = sort_by candidate_less (select is_ranked candidates)

  -- The first loop: the ranked candidate that the decision has selected.
  unfoldable pub selected_candidate_of :
      CandidateId → List (ExecutionCandidate fl) → Option (ExecutionCandidate fl)
  selected_candidate_of id [] = none
  selected_candidate_of id (c ∷ rest) =
      if same_id c.id id then some c else selected_candidate_of id rest

  -- The second loop: the first ranked candidate that is not served and can be executed.
  unfoldable pub first_alternate :
      List (ExecutionCandidate fl) → Result SkipReason (ExecutionCandidate fl)
  unfolding can_execute_shadow_candidate
  first_alternate [] = err no_executable_candidate
  first_alternate (c ∷ rest) =
      if c.served || not (can_execute_shadow_candidate c.id) then first_alternate rest else ok c

  -- What the first loop does with the candidate that it finds.
  unfoldable pub check_selected : ExecutionCandidate fl → Result SkipReason (ExecutionCandidate fl)
  unfolding can_execute_shadow_candidate
  check_selected c =
      if c.served
      then err selected_is_served
      else if not (can_execute_shadow_candidate c.id)
      then err selected_not_executable
      else ok c

  -- The decision names a candidate, so that its text is not empty.
  unfoldable pub pick_ranked :
      CandidateDecision fl
      → List (ExecutionCandidate fl)
      → Result SkipReason (ExecutionCandidate fl)
  unfolding selected_candidate_of first_alternate check_selected
  pick_ranked d [] = err no_ranked_candidates
  pick_ranked d (first ∷ rest) = elim (selected_candidate_of d.selected_candidate (first ∷ rest)) [
    | none ↦ first_alternate (first ∷ rest)
    | some c ↦ check_selected c
  ]

  unfoldable pub pick_shadow_alternate_candidate :
      Option (CandidateDecision fl)
      → List (ExecutionCandidate fl)
      → Result SkipReason (ExecutionCandidate fl)
  unfolding pick_ranked rank_shadow_candidates
  pick_shadow_alternate_candidate none candidates = err missing_candidate_decision
  pick_shadow_alternate_candidate (some d) candidates =
      pick_ranked d (rank_shadow_candidates candidates)
