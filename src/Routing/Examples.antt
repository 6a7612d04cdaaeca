-- ===== src/Routing/Examples.antt =====
-- The decision of internal/promshim/routing_policy.go on a concrete query.
use promshim_clickhouse.Base.{All, List, some, true, false, [], ◌∷◌, ◌≡◌}
use promshim_clickhouse.Base.Int.{pos}
use promshim_clickhouse.Floats.{nat_floats}
use promshim_clickhouse.Routing.{
  cost_prefer, cost_shadow, native_sql, Mode, Strategy, local, query, rate, unset, QueryCostClass,
  missing_estimate_fields, local_candidate_family, cost_prefer_serving_candidate_allowed,
}
use promshim_clickhouse.Routing.Gates.{family_gate, family_enabled}
use promshim_clickhouse.Routing.Costs.{CostModel, cap_hits, cap_evaluations, estimate_routing_cost}
use promshim_clickhouse.Bytes.{bytes_eq}
use promshim_clickhouse.Routing.Decide.{RoutingInfo, below_margin, decide}
use promshim_clickhouse.Routing.Candidates.{
  CandidateDecision, ExecutionCandidate, attach_cbe_candidates,
}
use promshim_clickhouse.Routing.Eligible.{IsGated, attach_cbe_candidates-IsGated}
use promshim_clickhouse.Routing.Shadow.{pick_shadow_alternate_candidate}
use promshim_clickhouse.Routing.Picks.{Picked, pick_shadow_alternate_candidate-Picked}
use promshim_clickhouse.Routing.Serves.{is_override, decide-serves}

-- rate over one selector with few samples
abbrev cheap_rate : QueryCostClass
cheap_rate = record {
  endpoint = query;
  family = rate;
  estimate_state = record { fresh = true; missing = pos 0; stale = pos 0 };
  has_aggregation = false;
  has_range_function = true;
  has_repeated_range_func = false;
  has_vector_join = false;
  has_histogram = false;
  has_subquery = false;
  has_label_mutation = false;
  has_selection_agg = false;
  selector_count = 1;
  estimated_series = pos 10;
  estimated_input_samples = pos 20000;
  estimated_output_points = pos 10;
  range_points_per_series = pos 0;
  subquery_complexity_band = unset;
  histogram_child_grouping_labels = [];
  histogram_child_groups_by_le_only = false;
  native_round_trips = pos 1;
  local_round_trips = pos 1;
}

-- A model that asks for no ratio, which a natural number would round to 0.
abbrev model : CostModel nat_floats
model = record {
  max_local_input_samples = pos 50000;
  max_local_input_samples_range_aggregation = pos 1500000;
  max_local_output_points = pos 10000;
  max_local_output_series = pos 5000;
  max_local_round_trips = pos 2;
  min_relative_local_ratio = 1;
  min_absolute_win_ms = 3;
}

decide-serves_example :
    (is_override
        (decide nat_floats model cheap_rate
          (Strategy.other [])
          cost_prefer
          (family_gate cheap_rate ∷ [])).decision
      ≡ true)
    × ((decide nat_floats model cheap_rate
          (Strategy.other [])
          cost_prefer
          (family_gate cheap_rate ∷ [])).selected_strategy
        ≡ local)
unfolding family_gate missing_estimate_fields cap_hits cap_evaluations local_candidate_family
    estimate_routing_cost below_margin family_enabled bytes_eq cost_prefer_serving_candidate_allowed
decide-serves_example =
    decide-serves nat_floats model cheap_rate (Strategy.other []) cost_prefer
      (family_gate cheap_rate ∷ [])

-- The policy cost_shadow on cheap_rate: the strict strategy is served, and local execution is selected.
abbrev routed : RoutingInfo nat_floats
routed = decide nat_floats model cheap_rate native_sql cost_shadow []

attach_cbe_candidates-IsGated_example :
    All
      (IsGated nat_floats routed Mode.prefer)
      (attach_cbe_candidates nat_floats routed Mode.prefer).1
attach_cbe_candidates-IsGated_example = attach_cbe_candidates-IsGated nat_floats routed Mode.prefer

abbrev decision : CandidateDecision nat_floats
decision = (attach_cbe_candidates nat_floats routed Mode.prefer).0

abbrev candidates : List (ExecutionCandidate nat_floats)
candidates = (attach_cbe_candidates nat_floats routed Mode.prefer).1

pick_shadow_alternate_candidate-Picked_example :
    Picked nat_floats decision.selected_candidate candidates
      (pick_shadow_alternate_candidate nat_floats (some decision) candidates)
pick_shadow_alternate_candidate-Picked_example =
    pick_shadow_alternate_candidate-Picked nat_floats decision candidates
