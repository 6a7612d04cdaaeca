-- ===== src/Routing/Serves.antt =====
-- When a query is served by local execution in place of the strict strategy.
use promshim_clickhouse.Base.{
  Bool, true, false, not, ◌&&◌, ◌||◌, List, [], ◌∷◌, ◌++◌, Option, none, some, if◌then◌else◌,
  is_empty, ◌==◌, ◌≡◌, refl, arith, Bool-cases, Option-cases, inl, inr,
}
use promshim_clickhouse.Bytes.{Bytes}
use promshim_clickhouse.Floats.{Floats}
use promshim_clickhouse.Routing.{
  Policy, Mode, Strategy, local, QueryCostClass, missing_estimate_fields, local_candidate_family,
  cost_prefer_serving_candidate_allowed, has_known_cost_prefer_divergence,
}
use promshim_clickhouse.Routing.Gates.{family_enabled}
use promshim_clickhouse.Routing.Costs.{
  CostModel, Cost, default_cost_model, cap_evaluations, cap_hits, estimate_routing_cost,
}
use promshim_clickhouse.Routing.Decide.{
  Decision, local_override, shadow_only, cost_shadow_strict_default, shadow_subquery_cap_bypass,
  subquery_complexity_advisory, RoutingInfo, base_routing_info, is_shadow, is_prefer, is_strict,
  is_local, is_delegated, serve_candidate, below_margin, weigh_candidate, check_caps,
  check_estimates, caps_of, decide, ignores_cost_routing, routing_decision_for_strict,
}

abbrev pub is_override : Decision → Bool
is_override local_override = true
is_override _ = false

module _ (fl : Floats) where
  -- The cost is known, positive on both sides, and local execution wins by the margin.
  abbrev pub wins : CostModel fl → Option (Cost fl) → Bool
  wins m none = false
  wins m (some cost) =
      not (fl.le cost.native fl.zero || fl.le cost.local_cost fl.zero)
      && not (below_margin fl m cost)

  -- The gates of the last stage.
  abbrev pub served_family : Policy → QueryCostClass → Strategy → List Bytes → Bool
  served_family policy c strategy enabled =
      is_prefer fl policy
      && family_enabled c enabled
      && cost_prefer_serving_candidate_allowed c
      && not (is_local fl strategy)

  -- What a stage may do to the strategy that is served: nothing, unless it decides for an override by
  -- these gates.
  abbrev Overrides : RoutingInfo fl → RoutingInfo fl → Bool → Type 0
  Overrides before after gates =
      (is_override after.decision ≡ gates)
      × (after.selected_strategy ≡ (if gates then local else before.selected_strategy))

  serve_candidate-Overrides :
      (info : RoutingInfo fl)
      → is_override info.decision ≡ false
      → Overrides info
          (serve_candidate fl info)
          (served_family info.policy info.class info.strict_strategy info.enabled_families)
  unfolding serve_candidate has_known_cost_prefer_divergence
  serve_candidate-Overrides info h = (ground (arith, h), ground (arith, h))

  weigh_candidate-Overrides :
      (m : CostModel fl) (info : RoutingInfo fl)
      → is_override info.decision ≡ false
      → Overrides info (weigh_candidate fl m info) (
          local_candidate_family info.class
          && wins m info.cost
          && served_family info.policy info.class info.strict_strategy info.enabled_families)
  unfolding weigh_candidate
  weigh_candidate-Overrides m info h =
      let (decides, serves) = serve_candidate-Overrides info h in
      elim (Option-cases info.cost) [
        | inl e ↦ rw e (ground (arith, h), ground (arith, h))
        | inr (cost, e) ↦ rw e (ground (arith, h, decides), ground (arith, h, serves))
      ]

  shadow-not_prefer : (p : Policy) → is_shadow fl p ≡ true → is_prefer fl p ≡ false
  shadow-not_prefer Policy.cost_shadow h = refl
  shadow-not_prefer Policy.strict h = refl
  shadow-not_prefer Policy.cost_prefer h = cc

  strict-not_prefer : (p : Policy) → is_strict fl p ≡ true → is_prefer fl p ≡ false
  strict-not_prefer Policy.strict h = refl
  strict-not_prefer Policy.cost_shadow h = cc
  strict-not_prefer Policy.cost_prefer h = cc

  check_caps-Overrides :
      (m : CostModel fl) (info : RoutingInfo fl)
      → is_override info.decision ≡ false
      → Overrides info (check_caps fl m info) (
          is_empty info.hits
          && local_candidate_family info.class
          && wins m info.cost
          && served_family info.policy info.class info.strict_strategy info.enabled_families)
  unfolding check_caps
  check_caps-Overrides m info h = elim (Bool-cases (is_empty info.hits)) [
    | inl e ↦ rw e (weigh_candidate-Overrides m info h)
    | inr e ↦ elim (Bool-cases (is_shadow fl info.policy)) [
      | inl t ↦
          let bypassed : RoutingInfo fl = record info {
            advisory = info.advisory ++ (shadow_subquery_cap_bypass ∷ []);
          } in
          let (decides, serves) = weigh_candidate-Overrides m bypassed h in
          let no_gate = shadow-not_prefer info.policy t in
          (ground (arith, e, t, h, decides, no_gate), ground (arith, e, t, serves, no_gate))
      | inr f ↦ (ground (arith, e, f), ground (arith, e, f))
    ]
  ]

  check_estimates-Overrides :
      (m : CostModel fl) (info : RoutingInfo fl)
      → is_override info.decision ≡ false
      → Overrides info (check_estimates fl m info) (
          not (is_delegated fl info.strict_strategy)
          && is_empty info.missing_estimates
          && is_empty (cap_hits fl (cap_evaluations fl m info.class))
          && local_candidate_family info.class
          && wins m info.cost
          && served_family info.policy info.class info.strict_strategy info.enabled_families)
  unfolding check_estimates
  check_estimates-Overrides m info h =
      let evaluated : RoutingInfo fl = record info {
        evaluations = cap_evaluations fl m info.class;
        hits = cap_hits fl (cap_evaluations fl m info.class);
      } in
      let checked = check_caps-Overrides m evaluated h in
      elim (Bool-cases (is_delegated fl info.strict_strategy)) [
        | inl e ↦ rw e (refl, refl)
        | inr e ↦ elim (Bool-cases (is_empty info.missing_estimates)) [
          | inl f ↦ rw (e, f) checked
          | inr f ↦ rw (e, f) (refl, refl)
        ]
      ]

  -- The gates of the whole decision.
  abbrev pub all_gates : CostModel fl → QueryCostClass → Strategy → Policy → List Bytes → Bool
  all_gates m c strategy policy enabled =
      not (is_delegated fl strategy)
      && is_empty (missing_estimate_fields c)
      && is_empty (cap_hits fl (cap_evaluations fl m c))
      && local_candidate_family c
      && wins m (estimate_routing_cost fl c)
      && served_family policy c strategy enabled

  -- The cost model decides for a local override, and serves it, exactly where the policy is cost_prefer,
  -- strict execution is neither delegated nor local already, no estimate is missing, no cap is
  -- exceeded, the family is a candidate, enabled and served, and the predicted win is large enough; in
  -- every other case the strict strategy is served.
  pub decide-serves :
      (m : CostModel fl) (c : QueryCostClass) (strategy : Strategy) (policy : Policy)
      (enabled : List Bytes)
      → (is_override (decide fl m c strategy policy enabled).decision
          ≡ all_gates m c strategy policy enabled)
        × ((decide fl m c strategy policy enabled).selected_strategy
            ≡ (if all_gates m c strategy policy enabled then local else strategy))
  unfolding decide base_routing_info
  decide-serves m c strategy policy enabled =
      check_estimates-Overrides m
        (record (base_routing_info fl policy shadow_only cost_shadow_strict_default c strategy) {
          advisory = subquery_complexity_advisory fl c;
          enabled_families = enabled;
          caps = caps_of fl m c;
          cost = estimate_routing_cost fl c;
        })
        refl

  -- A query is served by local execution in place of the strict strategy only in the modes explain and
  -- prefer, under the policy cost_prefer, and exactly where all gates of the default cost model are
  -- open; in every other case the strict strategy is served.
  routing_decision_for_strict-serves :
      (policy : Policy) (mode : Mode) (c : QueryCostClass) (strategy : Strategy)
      (enabled : List Bytes)
      → (routing_decision_for_strict fl policy mode c strategy enabled).selected_strategy ≡ (
          if not (ignores_cost_routing fl mode)
            && all_gates (default_cost_model fl) c strategy policy enabled
          then local
          else strategy)
  unfolding routing_decision_for_strict base_routing_info
  routing_decision_for_strict-serves policy mode c strategy enabled =
      let (_, serves) = decide-serves (default_cost_model fl) c strategy policy enabled in
      elim (Bool-cases (ignores_cost_routing fl mode)) [
        | inl e ↦ rw e refl
        | inr e ↦ elim (Bool-cases (is_strict fl policy)) [
          | inl s ↦ ground (arith, e, s, strict-not_prefer policy s)
          | inr s ↦ rw (e, s) serves
        ]
      ]

  -- A query with an operator between two vectors, with a subquery, or without a selector is served by the
  -- strict strategy, whatever the policy, the mode and the estimates are.
  routing_decision_for_strict-keeps :
      (policy : Policy) (mode : Mode) (c : QueryCostClass) (strategy : Strategy)
      (enabled : List Bytes)
      → (c.selector_count == 0 || c.has_vector_join || c.has_subquery) ≡ true
      → (routing_decision_for_strict fl policy mode c strategy enabled).selected_strategy ≡ strategy
  unfolding cost_prefer_serving_candidate_allowed
  routing_decision_for_strict-keeps policy mode c strategy enabled h =
      let serves = routing_decision_for_strict-serves policy mode c strategy enabled in
      ground (arith, h, serves)
