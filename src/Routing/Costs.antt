-- ===== src/Routing/Costs.antt =====
-- internal/promshim/routing_policy.go and httpapi/router.go: the caps of the cost model and the costs of
-- a query.
use promshim_clickhouse.Base.{
  ℕ, suc, Bool, not, ◌&&◌, List, [], ◌∷◌, ◌++◌, Option, none, some, if◌then◌else◌, ◌==◌, select,
  map,
}
use promshim_clickhouse.Base.Int.{ℤ, pos, negsuc, ltb_ℤ, leb_ℤ, ◌-ℤ◌, wrap64}
use promshim_clickhouse.Floats.{Floats}
use promshim_clickhouse.Routing.{
  is_query_range, is_aggregation, is_range_selector, Family, selector, range_selector, rate,
  range_rate, increase, binary, histogram_quantile, aggregation, subquery, other, QueryCostClass,
  CapName, max_local_input_samples, max_local_output_points, max_local_output_series,
  max_local_round_trips, subquery_cap, high_cardinality_vector_join, range_points_per_series_cap,
}

module _ (fl : Floats) where
  open fl use {F}

  -- float64 of an int64
  abbrev of_int64 : ℤ → F
  of_int64 (pos n) = fl.of_int n
  of_int64 (negsuc n) = fl.neg (fl.of_int (suc n))

  pub record CapEvaluation : Type 0 where
    pub name : CapName
    pub estimate : ℤ
    pub limit : ℤ
    pub exceeded : Bool
    pub over_by : ℤ
    pub usage : F

  unfoldable pub cap_evaluation : CapName → ℤ → ℤ → CapEvaluation
  cap_evaluation name estimate limit = record {
    name = name;
    estimate = estimate;
    limit = limit;
    exceeded = ltb_ℤ limit estimate;
    over_by = if ltb_ℤ limit estimate then wrap64 (estimate -ℤ limit) else pos 0;
    usage = if leb_ℤ limit (pos 0) then fl.zero else fl.div (of_int64 estimate) (of_int64 limit);
  }

  pub record CostModel : Type 0 where
    pub max_local_input_samples : ℤ
    pub max_local_input_samples_range_aggregation : ℤ
    pub max_local_output_points : ℤ
    pub max_local_output_series : ℤ
    pub max_local_round_trips : ℤ
    pub min_relative_local_ratio : F
    pub min_absolute_win_ms : F

  abbrev pub default_cost_model : CostModel
  default_cost_model = record {
    max_local_input_samples = pos 50000;
    max_local_input_samples_range_aggregation = pos 1500000;
    max_local_output_points = pos 10000;
    max_local_output_series = pos 5000;
    max_local_round_trips = pos 2;
    min_relative_local_ratio = fl.div (fl.of_int 7) (fl.of_int 10);
    min_absolute_win_ms = fl.of_int 3;
  }

  unfoldable pub max_local_input_samples_limit : CostModel → QueryCostClass → ℤ
  max_local_input_samples_limit m c =
      if is_query_range c.endpoint
        && is_aggregation c.family
        && c.has_aggregation
        && not c.has_range_function
        && not c.has_histogram
        && not c.has_selection_agg
        && not c.has_vector_join
        && not c.has_subquery
        && c.selector_count == 1
      then m.max_local_input_samples_range_aggregation
      else m.max_local_input_samples

  unfoldable pub cap_evaluations : CostModel → QueryCostClass → List CapEvaluation
  unfolding cap_evaluation max_local_input_samples_limit
  cap_evaluations m c =
      cap_evaluation max_local_input_samples c.estimated_input_samples
        (max_local_input_samples_limit m c)
      ∷ cap_evaluation max_local_output_points c.estimated_output_points m.max_local_output_points
      ∷ cap_evaluation max_local_output_series c.estimated_series m.max_local_output_series
      ∷ cap_evaluation max_local_round_trips c.local_round_trips m.max_local_round_trips
      ∷ ((if c.has_subquery then cap_evaluation subquery_cap (pos 1) (pos 0) ∷ [] else [])
          ++ ((if c.has_vector_join
                then cap_evaluation high_cardinality_vector_join c.estimated_series (pos 1000) ∷ []
                else [])
              ++ (if not (is_range_selector c.family) && ltb_ℤ (pos 0) c.range_points_per_series
                  then cap_evaluation range_points_per_series_cap c.range_points_per_series
                      (pos 240)
                    ∷ []
                  else [])))

  unfoldable pub cap_hits : List CapEvaluation → List CapName
  cap_hits evaluations = map (λ e. e.name) (select (λ e. e.exceeded) evaluations)

  pub record Cost : Type 0 where
    pub native : F
    pub local_cost : F

  -- none where the switch returns 0, 0
  unfoldable pub family_bases : Family → Option (ℕ × ℕ)
  family_bases selector = some (24, 7)
  family_bases range_selector = some (24, 7)
  family_bases rate = some (30, 20)
  family_bases range_rate = some (30, 20)
  family_bases increase = some (30, 20)
  family_bases binary = some (45, 25)
  family_bases histogram_quantile = some (150, 35)
  family_bases aggregation = some (40, 25)
  family_bases subquery = some (55, 24)
  family_bases (other text) = none

  abbrev cost_of : ℕ → ℕ → ℕ → QueryCostClass → ℤ → F
  cost_of base samples points c trips =
      fl.add
        (fl.add
          (fl.add (fl.of_int base)
            (fl.div (of_int64 c.estimated_input_samples) (fl.of_int samples)))
          (fl.div (of_int64 c.estimated_output_points) (fl.of_int points)))
        (fl.mul (of_int64 trips) (fl.of_int 2))

  unfoldable pub estimate_routing_cost : QueryCostClass → Option Cost
  unfolding family_bases
  estimate_routing_cost c = elim (family_bases c.family) [
    | none ↦ none
    | some bases ↦ some (record {
      native = cost_of bases.0 10000 20000 c c.native_round_trips;
      local_cost = cost_of bases.1 50000 50000 c c.local_round_trips;
    })
  ]
