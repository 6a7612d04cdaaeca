-- ===== src/Routing/Candidates.antt =====
-- internal/promshim/cbe_candidates.go: the four ways to execute a query, and which of them the cost model
-- may rank. The advisories are data types for their texts; the tier is the number that its text spells.
use promshim_clickhouse.Base.{
  ℕ, Bool, true, false, not, ◌&&◌, ◌||◌, List, [], ◌∷◌, ◌++◌, Option, none, some, if◌then◌else◌,
  ◌==◌, is_empty, length,
}
use promshim_clickhouse.Base.Int.{ℤ, pos}
use promshim_clickhouse.Floats.{Floats}
use promshim_clickhouse.Routing.{
  Mode, force_supported, local_pushdown, Strategy, local, delegated_promql, native_sql, Family,
  histogram_quantile, QueryCostClass, CapName, max_native_child_input_samples,
  max_native_child_output_points_conservative, max_local_engine_round_trips, is_query,
}
use promshim_clickhouse.Routing.Costs.{
  CapEvaluation, cap_evaluation, Cost, default_cost_model, max_local_input_samples_limit,
}
use promshim_clickhouse.Routing.Decide.{RoutingInfo}

pub data CandidateId : Type 0 where
  whole_query_delegation native_sql_candidate local_pushdown_candidate full_local unknown :
      CandidateId

pub data RejectReason : Type 0 where
  unsupported_shape policy_ignored missing_estimate over_cap : RejectReason

pub data Scope : Type 0 where
  native_child local_engine : Scope

pub data EstimateName : Type 0 where
  native_child_input_samples native_child_output_points_conservative : EstimateName
  local_engine_round_trips local_engine_grouping_labels : EstimateName

pub data CandidateAdvisory : Type 0 where
  shadow_candidate_histogram_local_pushdown estimate_scope_conservative_full_local_caps :
      CandidateAdvisory
  candidate_cap_scope local_engine_estimate_unknown routing_deferred local_engine_output_shape :
      CandidateAdvisory

pub record CandidateEstimate : Type 0 where
  pub name : EstimateName
  pub value : ℤ
  pub scope : Scope

-- The position of a candidate, by which two of them are compared.
abbrev pub rank_of : CandidateId → ℕ
rank_of whole_query_delegation = 1
rank_of native_sql_candidate = 2
rank_of local_pushdown_candidate = 3
rank_of full_local = 4
rank_of unknown = 5

abbrev pub same_id : CandidateId → CandidateId → Bool
same_id a b = rank_of a == rank_of b

abbrev pub is_local_pushdown : Mode → Bool
is_local_pushdown local_pushdown = true
is_local_pushdown _ = false

abbrev pub is_force_supported : Mode → Bool
is_force_supported force_supported = true
is_force_supported _ = false

abbrev pub is_histogram_quantile : Family → Bool
is_histogram_quantile histogram_quantile = true
is_histogram_quantile _ = false

unfoldable pub cbe_candidate_for_strategy_in_mode : Strategy → Mode → CandidateId
cbe_candidate_for_strategy_in_mode delegated_promql mode = whole_query_delegation
cbe_candidate_for_strategy_in_mode native_sql mode = native_sql_candidate
cbe_candidate_for_strategy_in_mode local mode =
    if is_local_pushdown mode then local_pushdown_candidate else full_local
cbe_candidate_for_strategy_in_mode (Strategy.other text) mode = unknown

unfoldable pub histogram_local_pushdown_candidate : QueryCostClass → Bool
histogram_local_pushdown_candidate c =
    is_query c.endpoint
    && is_histogram_quantile c.family
    && c.has_histogram
    && c.has_aggregation
    && c.has_range_function
    && not c.has_vector_join
    && not c.has_subquery
    && c.selector_count == 1

module _ (fl : Floats) where
  open fl use {F}

  pub record ExecutionCandidate : Type 0 where
    pub id : CandidateId
    pub tier : ℕ
    pub strategy : Strategy
    pub family : Family
    pub strict : Bool
    pub selected : Bool
    pub served : Bool
    pub supported : Bool
    pub known_correct : Bool
    pub eligible : Bool
    pub reject_reasons : List RejectReason
    pub estimates_available : Bool
    pub estimated_cost : Option F
    pub estimates : List CandidateEstimate
    pub cap_evaluations : List (Scope × CapEvaluation fl)
    pub advisory : List CandidateAdvisory

  pub record CandidateDecision : Type 0 where
    pub strict_candidate : CandidateId
    pub selected_candidate : CandidateId
    pub served_candidate : CandidateId

  abbrev pub local_estimates : QueryCostClass → List CandidateEstimate
  local_estimates c =
      record {
        name = native_child_input_samples;
        value = c.estimated_input_samples;
        scope = native_child;
      }
      ∷ record {
        name = native_child_output_points_conservative;
        value = c.estimated_output_points;
        scope = native_child;
      }
      ∷ record {
        name = local_engine_round_trips;
        value = c.local_round_trips;
        scope = local_engine;
      }
      ∷ (if is_empty c.histogram_child_grouping_labels
          then []
          else record {
            name = local_engine_grouping_labels;
            value = pos (length c.histogram_child_grouping_labels);
            scope = local_engine;
          }
            ∷ [])

  abbrev pub candidate_cap_evaluation : CapName → ℤ → ℤ → Scope → Scope × CapEvaluation fl
  candidate_cap_evaluation name estimate limit scope =
      (scope, cap_evaluation fl name estimate limit)

  unfoldable pub annotate_histogram_local_pushdown_candidate :
      ExecutionCandidate → QueryCostClass → ExecutionCandidate
  annotate_histogram_local_pushdown_candidate candidate c =
      let m = default_cost_model fl in
      record candidate {
        estimates = candidate.estimates ++ local_estimates c;
        cap_evaluations =
            candidate.cap_evaluations
            ++ (candidate_cap_evaluation max_native_child_input_samples c.estimated_input_samples
                  (max_local_input_samples_limit fl m c) native_child
                ∷ candidate_cap_evaluation max_native_child_output_points_conservative
                    c.estimated_output_points m.max_local_output_points native_child
                ∷ candidate_cap_evaluation max_local_engine_round_trips c.local_round_trips
                    m.max_local_round_trips local_engine
                ∷ []);
        advisory =
            candidate.advisory
            ++ (candidate_cap_scope
                ∷ local_engine_estimate_unknown
                ∷ routing_deferred
                ∷ (if c.histogram_child_groups_by_le_only
                    then local_engine_output_shape ∷ []
                    else []));
      }

  -- The cost of the side that a candidate executes on.
  unfoldable pub candidate_estimated_cost : CandidateId → Option (Cost fl) → Option F
  candidate_estimated_cost id none = none
  candidate_estimated_cost native_sql_candidate (some cost) = some cost.native
  candidate_estimated_cost local_pushdown_candidate (some cost) = some cost.local_cost
  candidate_estimated_cost full_local (some cost) = some cost.local_cost
  candidate_estimated_cost _ (some cost) = none

  unfoldable pub candidate_from_strict :
      RoutingInfo fl → CandidateId → ℕ → Strategy → CandidateDecision → ExecutionCandidate
  unfolding candidate_estimated_cost annotate_histogram_local_pushdown_candidate
  candidate_from_strict info id tier strategy d =
      let pushdown =
        same_id id local_pushdown_candidate && histogram_local_pushdown_candidate info.class in
      let named =
        same_id id d.strict_candidate
        || same_id id d.selected_candidate
        || same_id id d.served_candidate in
      let candidate : ExecutionCandidate = record {
        id = id;
        tier = tier;
        strategy = strategy;
        family = info.class.family;
        strict = same_id id d.strict_candidate;
        selected = same_id id d.selected_candidate;
        served = same_id id d.served_candidate;
        supported = pushdown || named;
        known_correct = pushdown || named;
        eligible = (pushdown || named) && (pushdown || named);
        reject_reasons = [];
        estimates_available = info.estimates_available;
        estimated_cost = candidate_estimated_cost id info.cost;
        estimates = [];
        cap_evaluations = [];
        advisory =
            if pushdown
            then shadow_candidate_histogram_local_pushdown
              ∷ estimate_scope_conservative_full_local_caps ∷ []
            else [];
      } in
      if pushdown
      then annotate_histogram_local_pushdown_candidate candidate info.class
      else candidate

  unfoldable pub candidate_reject_reasons :
      ExecutionCandidate → RoutingInfo fl → Mode → List RejectReason
  candidate_reject_reasons candidate info mode =
      (if is_force_supported mode && not (same_id candidate.id native_sql_candidate)
        then policy_ignored ∷ []
        else [])
      ++ ((if is_local_pushdown mode && not (same_id candidate.id local_pushdown_candidate)
            then policy_ignored ∷ []
            else [])
          ++ ((if not info.estimates_available && not (same_id candidate.id whole_query_delegation)
                then missing_estimate ∷ []
                else [])
              ++ (if is_empty info.hits then [] else over_cap ∷ [])))

  unfoldable pub apply_candidate_gates :
      ExecutionCandidate → RoutingInfo fl → Mode → ExecutionCandidate
  unfolding candidate_reject_reasons
  apply_candidate_gates candidate info mode =
      if candidate.supported && candidate.known_correct
      then record candidate {
        reject_reasons = candidate_reject_reasons candidate info mode;
        eligible = is_empty (candidate_reject_reasons candidate info mode);
      }
      else record candidate {
        reject_reasons = candidate.reject_reasons ++ (unsupported_shape ∷ []);
        eligible = false;
      }

  abbrev pub candidate_in :
      RoutingInfo fl → Mode → CandidateDecision → CandidateId → Strategy → ExecutionCandidate
  candidate_in info mode d id strategy =
      apply_candidate_gates (candidate_from_strict info id (rank_of id) strategy d) info mode

  unfoldable pub build_cbe_candidates :
      RoutingInfo fl → Mode → CandidateDecision → List ExecutionCandidate
  unfolding apply_candidate_gates candidate_from_strict
  build_cbe_candidates info mode d =
      candidate_in info mode d whole_query_delegation delegated_promql
      ∷ candidate_in info mode d native_sql_candidate native_sql
      ∷ candidate_in info mode d local_pushdown_candidate local
      ∷ candidate_in info mode d full_local local
      ∷ []

  unfoldable pub candidate_decision : RoutingInfo fl → Mode → CandidateDecision
  unfolding cbe_candidate_for_strategy_in_mode
  candidate_decision info mode =
      let would = cbe_candidate_for_strategy_in_mode info.would_select mode in
      let served = cbe_candidate_for_strategy_in_mode info.selected_strategy mode in
      record {
        strict_candidate = cbe_candidate_for_strategy_in_mode info.strict_strategy mode;
        selected_candidate = if same_id would unknown then served else would;
        served_candidate = served;
      }

  -- What attachCBECandidates adds to the routing of a query.
  unfoldable pub attach_cbe_candidates :
      RoutingInfo fl → Mode → CandidateDecision × List ExecutionCandidate
  unfolding candidate_decision build_cbe_candidates
  attach_cbe_candidates info mode =
      (candidate_decision info mode, build_cbe_candidates info mode (candidate_decision info mode))
