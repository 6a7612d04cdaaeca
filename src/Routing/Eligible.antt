-- ===== src/Routing/Eligible.antt =====
-- Which of the four candidates of a query may be ranked.
use promshim_clickhouse.Base.{
  Bool, not, ◌&&◌, ◌||◌, [], is_empty, All, ◌≡◌, refl, arith, ◌∙◌, Bool-cases, inl, inr, sym,
}
use promshim_clickhouse.Floats.{Floats}
use promshim_clickhouse.Routing.{Mode, Strategy, delegated_promql, native_sql, local}
use promshim_clickhouse.Routing.Decide.{RoutingInfo}
use promshim_clickhouse.Routing.Candidates.{
  CandidateId, whole_query_delegation, native_sql_candidate, local_pushdown_candidate, full_local,
  same_id, is_force_supported, is_local_pushdown, histogram_local_pushdown_candidate,
  ExecutionCandidate, CandidateDecision, candidate_from_strict,
  annotate_histogram_local_pushdown_candidate, apply_candidate_gates, candidate_reject_reasons,
  candidate_decision, candidate_in, build_cbe_candidates, attach_cbe_candidates, rank_of,
}

module _ (fl : Floats) where
  -- What the mode of the request leaves open to a candidate.
  abbrev pub mode_allows : Mode → CandidateId → Bool
  mode_allows mode id =
      (not (is_force_supported mode) || same_id id native_sql_candidate)
      && (not (is_local_pushdown mode) || same_id id local_pushdown_candidate)

  -- The candidates that the decision names, and the pushdown of a histogram.
  abbrev pub is_supported : RoutingInfo fl → CandidateDecision fl → CandidateId → Bool
  is_supported info d id =
      (same_id id local_pushdown_candidate && histogram_local_pushdown_candidate info.class)
      || same_id id d.strict_candidate
      || same_id id d.selected_candidate
      || same_id id d.served_candidate

  -- A candidate may be ranked exactly where it is supported, the mode allows it, its estimates are there
  -- or not needed, and no cap is exceeded; and exactly the others have a reason to be rejected.
  abbrev pub IsGated : RoutingInfo fl → Mode → ExecutionCandidate fl → Type 0
  IsGated info mode c =
      (c.eligible ≡ (
        is_supported info (candidate_decision fl info mode) c.id
        && mode_allows mode c.id
        && (info.estimates_available || same_id c.id whole_query_delegation)
        && is_empty info.hits))
      × (is_empty c.reject_reasons ≡ c.eligible)
      × (c.served ≡ same_id c.id (candidate_decision fl info mode).served_candidate)

  candidate_from_strict_lem :
      (info : RoutingInfo fl) (id : CandidateId) (strategy : Strategy) (d : CandidateDecision fl)
      → let c = candidate_from_strict fl info id (rank_of id) strategy d in
        (c.supported ≡ is_supported info d id)
        × (c.known_correct ≡ is_supported info d id)
        × (c.id ≡ id)
        × (c.served ≡ same_id id d.served_candidate)
        × (c.reject_reasons ≡ [])
  unfolding candidate_from_strict annotate_histogram_local_pushdown_candidate
  candidate_from_strict_lem info id strategy d =
      elim (Bool-cases
        (same_id id local_pushdown_candidate && histogram_local_pushdown_candidate info.class)) [
          | inl e ↦ rw e (refl, refl, refl, refl, refl)
          | inr e ↦ rw e (refl, refl, refl, refl, refl)
        ]

  is_empty_reasons :
      (c : ExecutionCandidate fl) (info : RoutingInfo fl) (mode : Mode)
      → is_empty (candidate_reject_reasons fl c info mode) ≡ (
          mode_allows mode c.id
          && (info.estimates_available || same_id c.id whole_query_delegation)
          && is_empty info.hits)
  unfolding candidate_reject_reasons
  is_empty_reasons c info mode = ground arith

  apply_candidate_gates-IsGated :
      (c : ExecutionCandidate fl) (info : RoutingInfo fl) (mode : Mode)
      → let d = candidate_decision fl info mode in
        c.supported ≡ is_supported info d c.id
        → c.known_correct ≡ c.supported
        → c.served ≡ same_id c.id d.served_candidate
        → c.reject_reasons ≡ []
        → IsGated info mode (apply_candidate_gates fl c info mode)
  unfolding apply_candidate_gates
  apply_candidate_gates-IsGated c info mode supported correct served reasons =
      elim (Bool-cases c.supported) [
        | inl e ↦
            rw (correct, e) (is_empty_reasons c info mode ∙ rw (← supported, e) refl, refl, served)
        | inr e ↦ rw (correct, e) (rw (← supported, e) refl, rw reasons refl, served)
      ]

  candidate_in-IsGated :
      (info : RoutingInfo fl) (mode : Mode) (id : CandidateId) (strategy : Strategy)
      → IsGated info mode (candidate_in fl info mode (candidate_decision fl info mode) id strategy)
  candidate_in-IsGated info mode id strategy =
      let d = candidate_decision fl info mode in
      let (supported, correct, same, served, reasons) =
        candidate_from_strict_lem info id strategy d in
      apply_candidate_gates-IsGated (candidate_from_strict fl info id (rank_of id) strategy d) info
        mode (rw same supported) (correct ∙ sym supported) (rw same served) reasons

  -- Of every routing and mode, each of the four candidates may be ranked exactly where the decision names it
  -- or it is the pushdown of a histogram, the mode allows it, its estimates are there or not needed, and no
  -- cap is exceeded; exactly the others have a reason to be rejected; and the served one is marked.
  pub attach_cbe_candidates-IsGated :
      (info : RoutingInfo fl) (mode : Mode)
      → All (IsGated info mode) (attach_cbe_candidates fl info mode).1
  unfolding attach_cbe_candidates build_cbe_candidates
  attach_cbe_candidates-IsGated info mode =
      let gated = candidate_in-IsGated info mode in
      (
        gated whole_query_delegation delegated_promql,
        (
          gated native_sql_candidate native_sql,
          (gated local_pushdown_candidate local, (gated full_local local, tt)),
        ),
      )
