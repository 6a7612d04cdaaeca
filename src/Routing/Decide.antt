-- ===== src/Routing/Decide.antt =====
-- internal/promshim/routing_policy.go: the decision between the strict strategy and local execution.
-- The policy is as NormalizeRoutingPolicy leaves it. The candidates that attachCBECandidates adds to the
-- result, which leave the decision as it is, and the metrics are not modelled.
use promshim_clickhouse.Base.{
  Bool, true, false, not, ◌&&◌, ◌||◌, List, [], ◌∷◌, ◌++◌, Option, none, some, if◌then◌else◌,
  is_empty,
}
use promshim_clickhouse.Base.Int.{ℤ, pos, ltb_ℤ}
use promshim_clickhouse.Bytes.{Bytes}
use promshim_clickhouse.Floats.{Floats}
use promshim_clickhouse.Labels.Maps.{is_some}
use promshim_clickhouse.Routing.{
  Policy, strict, cost_shadow, cost_prefer, Mode, off, shadow, force_supported, local_pushdown,
  Strategy, local, delegated_promql, Family, Band, QueryCostClass, CapName, MissingField,
  BypassBlocked, missing_estimate_fields, local_candidate_family,
  cost_prefer_serving_candidate_allowed, has_known_cost_prefer_divergence,
  subquery_shadow_cap_bypass_blocked_reason, unset, max_local_input_samples,
  max_local_output_points, max_local_output_series, max_local_round_trips,
}
use promshim_clickhouse.Routing.Gates.{family_enabled}
use promshim_clickhouse.Routing.Costs.{
  CapEvaluation, CostModel, Cost, default_cost_model, max_local_input_samples_limit,
  cap_evaluations, cap_hits, estimate_routing_cost,
}

pub data Decision : Type 0 where
  strict_decision shadow_only strict_low_confidence strict_missing_estimate strict_over_cap
        local_override :
      Decision

pub data Reason : Type 0 where
  native_lowering_mode_ignores_cost_routing strict_policy cost_shadow_strict_default : Reason
  delegated_promql_has_no_cost_model missing_estimate hard_cap family_not_local_candidate : Reason
  missing_cost predicted_win_below_margin family_gate_disabled candidate_serving_disabled : Reason
  strict_reference_already_local known_divergence : Reason
  local_candidate_under_caps : Family → Reason

-- The advisories, whose texts name what their fields hold.
pub data Advisory (F : Type 0) : Type 0 where
  subquery_complexity : Band → Advisory F
  missing_estimates : List MissingField → Advisory F
  hard_cap_usage : List (CapName × Option F) → Advisory F
  shadow_subquery_cap_bypass : Advisory F
  shadow_subquery_cap_bypass_blocked : BypassBlocked → Advisory F
  low_confidence_reason : Reason → Advisory F

module _ (fl : Floats) where
  open fl use {F}

  pub record RoutingInfo : Type 0 where
    pub policy : Policy
    pub strict_strategy : Strategy
    pub selected_strategy : Strategy
    pub would_select : Strategy
    pub decision : Decision
    pub reason : Reason
    pub estimates_available : Bool
    pub missing_estimates : List MissingField
    pub cost : Option (Cost fl)
    pub caps : List (CapName × ℤ)
    pub hits : List CapName
    pub evaluations : List (CapEvaluation fl)
    pub enabled_families : List Bytes
    pub class : QueryCostClass
    pub advisory : List (Advisory F)

  unfoldable pub base_routing_info :
      Policy → Decision → Reason → QueryCostClass → Strategy → RoutingInfo
  base_routing_info policy decision reason c strategy = record {
    policy = policy;
    strict_strategy = strategy;
    selected_strategy = strategy;
    would_select = strategy;
    decision = decision;
    reason = reason;
    estimates_available = is_empty (missing_estimate_fields c);
    missing_estimates = missing_estimate_fields c;
    cost = none;
    caps = [];
    hits = [];
    evaluations = [];
    enabled_families = [];
    class = c;
    advisory = [];
  }

  abbrev is_unset : Band → Bool
  is_unset unset = true
  is_unset _ = false

  unfoldable pub subquery_complexity_advisory : QueryCostClass → List (Advisory F)
  subquery_complexity_advisory c =
      if not c.has_subquery || is_unset c.subquery_complexity_band
      then []
      else subquery_complexity c.subquery_complexity_band ∷ []

  -- One part of the advisory for each cap that is exceeded, with its usage where it has one.
  unfoldable pub exceeded_usages : List (CapEvaluation fl) → List (CapName × Option F)
  exceeded_usages [] = []
  exceeded_usages (e ∷ rest) =
      let parts = exceeded_usages rest in
      if not e.exceeded
      then parts
      else if ltb_ℤ (pos 0) e.limit && fl.lt fl.zero e.usage
      then (e.name, some e.usage) ∷ parts
      else (e.name, none) ∷ parts

  unfoldable pub hard_cap_advisory : List (CapEvaluation fl) → List (Advisory F)
  unfolding exceeded_usages
  hard_cap_advisory evaluations =
      let parts = exceeded_usages evaluations in
      if is_empty parts then [] else hard_cap_usage parts ∷ []

  abbrev pub is_shadow : Policy → Bool
  is_shadow cost_shadow = true
  is_shadow _ = false

  abbrev pub is_prefer : Policy → Bool
  is_prefer cost_prefer = true
  is_prefer _ = false

  abbrev pub is_strict : Policy → Bool
  is_strict strict = true
  is_strict _ = false

  abbrev pub is_local : Strategy → Bool
  is_local local = true
  is_local _ = false

  abbrev pub is_delegated : Strategy → Bool
  is_delegated delegated_promql = true
  is_delegated _ = false

  abbrev low_confidence : RoutingInfo → Reason → RoutingInfo
  low_confidence info reason = record info {
    would_select = info.strict_strategy;
    decision = strict_low_confidence;
    reason = reason;
    advisory = info.advisory ++ (low_confidence_reason reason ∷ []);
  }

  -- The last stage: the gates of served local overrides, under cost_prefer only.
  unfoldable pub serve_candidate : RoutingInfo → RoutingInfo
  serve_candidate info =
      if is_prefer info.policy
      then (if not (family_enabled info.class info.enabled_families)
          then low_confidence info family_gate_disabled
          else if not (cost_prefer_serving_candidate_allowed info.class)
          then low_confidence info candidate_serving_disabled
          else if is_local info.strict_strategy
          then low_confidence info strict_reference_already_local
          else if has_known_cost_prefer_divergence info.class
          then low_confidence info known_divergence
          else record info {
            would_select = local;
            decision = local_override;
            reason = local_candidate_under_caps info.class.family;
            selected_strategy = local;
          })
      else record info {
        would_select = local;
        decision = shadow_only;
        reason = local_candidate_under_caps info.class.family;
      }

  -- Local execution is predicted to win by too little.
  unfoldable pub below_margin : CostModel fl → Cost fl → Bool
  below_margin m cost =
      fl.lt (fl.mul m.min_relative_local_ratio cost.native) cost.local_cost
      || fl.lt (fl.sub cost.native cost.local_cost) m.min_absolute_win_ms

  unfoldable pub weigh_candidate : CostModel fl → RoutingInfo → RoutingInfo
  unfolding serve_candidate below_margin
  weigh_candidate m info =
      if not (local_candidate_family info.class)
      then record info { decision = strict_low_confidence; reason = family_not_local_candidate }
      else elim info.cost [
        | none ↦ record info { decision = strict_missing_estimate; reason = missing_cost }
        | some cost ↦
            if fl.le cost.native fl.zero || fl.le cost.local_cost fl.zero
            then record info { decision = strict_missing_estimate; reason = missing_cost }
            else if below_margin m cost
            then record info {
              decision = strict_low_confidence;
              reason = predicted_win_below_margin;
              advisory = info.advisory ++ (low_confidence_reason predicted_win_below_margin ∷ []);
            }
            else serve_candidate info
      ]

  abbrev blocked_advisory : Option BypassBlocked → List (Advisory F)
  blocked_advisory none = []
  blocked_advisory (some reason) = shadow_subquery_cap_bypass_blocked reason ∷ []

  unfoldable pub check_caps : CostModel fl → RoutingInfo → RoutingInfo
  unfolding weigh_candidate hard_cap_advisory
  check_caps m info =
      let blocked = subquery_shadow_cap_bypass_blocked_reason info.class info.hits in
      if is_empty info.hits
      then weigh_candidate m info
      else if is_shadow info.policy && not (is_some blocked)
      then weigh_candidate m
          (record info { advisory = info.advisory ++ (shadow_subquery_cap_bypass ∷ []) })
      else record info {
        decision = strict_over_cap;
        reason = hard_cap;
        advisory =
            info.advisory
            ++ (hard_cap_advisory info.evaluations
                ++ (if is_shadow info.policy then blocked_advisory blocked else []));
      }

  unfoldable pub check_estimates : CostModel fl → RoutingInfo → RoutingInfo
  unfolding check_caps
  check_estimates m info =
      if is_delegated info.strict_strategy
      then record info {
        decision = strict_low_confidence;
        reason = delegated_promql_has_no_cost_model;
      }
      else if not (is_empty info.missing_estimates)
      then record info {
        decision = strict_missing_estimate;
        reason = missing_estimate;
        advisory = info.advisory ++ (missing_estimates info.missing_estimates ∷ []);
      }
      else check_caps m (record info {
        evaluations = cap_evaluations fl m info.class;
        hits = cap_hits fl (cap_evaluations fl m info.class);
      })

  abbrev pub caps_of : CostModel fl → QueryCostClass → List (CapName × ℤ)
  caps_of m c =
      (max_local_input_samples, max_local_input_samples_limit fl m c)
      ∷ (max_local_output_points, m.max_local_output_points)
      ∷ (max_local_output_series, m.max_local_output_series)
      ∷ (max_local_round_trips, m.max_local_round_trips)
      ∷ []

  unfoldable pub decide :
      CostModel fl → QueryCostClass → Strategy → Policy → List Bytes → RoutingInfo
  unfolding base_routing_info check_estimates subquery_complexity_advisory
  decide m c strategy policy enabled =
      check_estimates m
        (record (base_routing_info policy shadow_only cost_shadow_strict_default c strategy) {
          advisory = subquery_complexity_advisory c;
          enabled_families = enabled;
          caps = caps_of m c;
          cost = estimate_routing_cost fl c;
        })

  -- The modes that have execution semantics of their own.
  abbrev pub ignores_cost_routing : Mode → Bool
  ignores_cost_routing force_supported = true
  ignores_cost_routing off = true
  ignores_cost_routing shadow = true
  ignores_cost_routing local_pushdown = true
  ignores_cost_routing _ = false

  unfoldable pub routing_decision_for_strict :
      Policy → Mode → QueryCostClass → Strategy → List Bytes → RoutingInfo
  unfolding decide base_routing_info
  routing_decision_for_strict policy mode c strategy enabled =
      if ignores_cost_routing mode
      then base_routing_info strict strict_decision native_lowering_mode_ignores_cost_routing c
          strategy
      else if is_strict policy
      then base_routing_info policy strict_decision strict_policy c strategy
      else decide (default_cost_model fl) c strategy policy enabled
