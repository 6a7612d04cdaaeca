-- ===== src/Routing.antt =====
-- internal/promshim/routing_policy.go: what the cost model knows of a query, its estimates and
-- which families are candidates. Strings that the program only compares are data types, with a
-- constructor for every string that is none of those it names.
pub mod Candidates
pub mod Costs
pub mod Decide
pub mod Gates
mod Serves
pub mod Shadow
mod Eligible
mod Picks
mod Examples
use promshim_clickhouse.Base.{
  ℕ, suc, ◌+◌, Bool, true, false, not, ◌&&◌, ◌||◌, List, [], ◌∷◌, ◌++◌, Option, none, some,
  if◌then◌else◌, ◌==◌, is_empty, select, map, any,
}
use promshim_clickhouse.Base.Int.{ℤ, pos, negsuc, ltb_ℤ, leb_ℤ, ◌-ℤ◌, wrap64}
use promshim_clickhouse.Bytes.{Bytes, bytes_eq}
use promshim_clickhouse.Floats.{Floats}

pub data Policy : Type 0 where
  strict cost_shadow cost_prefer : Policy

-- NativeLoweringMode
pub data Mode : Type 0 where
  off explain shadow prefer force_supported local_pushdown : Mode

pub data Strategy : Type 0 where
  local delegated_promql native_sql : Strategy
  other : Bytes → Strategy

pub data Endpoint : Type 0 where
  query query_range : Endpoint
  other : Bytes → Endpoint

pub data Family : Type 0 where
  selector range_selector rate range_rate increase binary histogram_quantile aggregation subquery :
      Family
  other : Bytes → Family

pub data Band : Type 0 where
  unset light moderate elevated heavy : Band
  other : Bytes → Band

pub record EstimateState : Type 0 where
  pub fresh : Bool
  pub missing : ℤ
  pub stale : ℤ

-- QueryCostClass, as far as the policy and the candidates read it.
pub record QueryCostClass : Type 0 where
  pub endpoint : Endpoint
  pub family : Family
  pub estimate_state : EstimateState
  pub has_aggregation : Bool
  pub has_range_function : Bool
  pub has_repeated_range_func : Bool
  pub has_vector_join : Bool
  pub has_histogram : Bool
  pub has_subquery : Bool
  pub has_label_mutation : Bool
  pub has_selection_agg : Bool
  pub selector_count : ℕ
  pub estimated_series : ℤ
  pub estimated_input_samples : ℤ
  pub estimated_output_points : ℤ
  pub range_points_per_series : ℤ
  pub subquery_complexity_band : Band
  pub histogram_child_grouping_labels : List Bytes
  pub histogram_child_groups_by_le_only : Bool
  pub native_round_trips : ℤ
  pub local_round_trips : ℤ

pub data CapName : Type 0 where
  max_local_input_samples max_local_output_points max_local_output_series max_local_round_trips :
      CapName
  subquery_cap high_cardinality_vector_join range_points_per_series_cap : CapName
  max_native_child_input_samples max_native_child_output_points_conservative
        max_local_engine_round_trips :
      CapName

pub data MissingField : Type 0 where
  selector_stats_stale selector_stats : MissingField

abbrev pub is_query : Endpoint → Bool
is_query query = true
is_query _ = false

abbrev pub is_query_range : Endpoint → Bool
is_query_range query_range = true
is_query_range _ = false

abbrev pub is_aggregation : Family → Bool
is_aggregation aggregation = true
is_aggregation _ = false

abbrev pub is_range_selector : Family → Bool
is_range_selector range_selector = true
is_range_selector _ = false

abbrev pub is_subquery : Family → Bool
is_subquery subquery = true
is_subquery _ = false

abbrev pub is_light : Band → Bool
is_light light = true
is_light _ = false

abbrev pub is_subquery_cap : CapName → Bool
is_subquery_cap subquery_cap = true
is_subquery_cap _ = false

unfoldable pub missing_estimate_fields : QueryCostClass → List MissingField
missing_estimate_fields c =
    if c.selector_count == 0
      || not (leb_ℤ c.estimated_series (pos 0) && leb_ℤ (pos 0) c.estimated_series)
    then []
    else if c.estimate_state.fresh
        && leb_ℤ c.estimate_state.missing (pos 0)
        && leb_ℤ (pos 0) c.estimate_state.missing
        && leb_ℤ c.estimate_state.stale (pos 0)
        && leb_ℤ (pos 0) c.estimate_state.stale
    then []
    else if ltb_ℤ (pos 0) c.estimate_state.stale
    then selector_stats_stale ∷ []
    else selector_stats ∷ []

unfoldable pub local_candidate_family : QueryCostClass → Bool
local_candidate_family c = elim c.family [
  | selector ↦ is_query c.endpoint
  | rate ↦ is_query c.endpoint && c.selector_count == 1
  | increase ↦ is_query c.endpoint && c.selector_count == 1
  | binary ↦
      is_query c.endpoint
      && c.selector_count == 2
      && c.has_repeated_range_func
      && not c.has_vector_join
  | histogram_quantile ↦ is_query c.endpoint && not c.has_vector_join
  | aggregation ↦
      if is_query c.endpoint
      then not c.has_histogram && not c.has_selection_agg && not c.has_vector_join
      else is_query_range c.endpoint
        && c.has_aggregation
        && not c.has_range_function
        && not c.has_histogram
        && not c.has_selection_agg
        && not c.has_vector_join
        && not c.has_subquery
        && c.selector_count == 1
  | range_selector ↦
      ltb_ℤ (pos 0) c.range_points_per_series && leb_ℤ c.range_points_per_series (pos 60)
  | subquery ↦
      is_query c.endpoint && c.has_subquery && c.selector_count == 1 && not c.has_vector_join
  | _ ↦ false
]

unfoldable pub cost_prefer_serving_candidate_allowed : QueryCostClass → Bool
cost_prefer_serving_candidate_allowed c =
    let served : Bool = elim c.family [
      | rate ↦ is_query c.endpoint && not c.has_histogram
      | increase ↦ is_query c.endpoint && not c.has_histogram
      | binary ↦
          is_query c.endpoint
          && c.has_repeated_range_func
          && c.has_range_function
          && not c.has_histogram
          && not c.has_aggregation
          && not c.has_selection_agg
          && not c.has_label_mutation
      | histogram_quantile ↦
          is_query c.endpoint && c.has_histogram && c.has_aggregation && c.has_range_function
      | aggregation ↦
          if is_query c.endpoint
          then c.has_aggregation && not c.has_histogram && not c.has_selection_agg
          else is_query_range c.endpoint
            && c.has_aggregation
            && not c.has_range_function
            && not c.has_histogram
            && not c.has_selection_agg
            && not c.has_label_mutation
            && c.selector_count == 1
      | _ ↦ false
    ] in
    if c.selector_count == 0 || c.has_vector_join || c.has_subquery then false else served

unfoldable pub has_known_cost_prefer_divergence : QueryCostClass → Bool
has_known_cost_prefer_divergence c = false

pub data BypassBlocked : Type 0 where
  not_subquery_family estimates_not_fresh complexity_not_light cap_hits_not_subquery_only :
      BypassBlocked

abbrev pub subquery_only : List CapName → Bool
subquery_only (hit ∷ []) = is_subquery_cap hit
subquery_only _ = false

-- none where the bypass is allowed
unfoldable pub subquery_shadow_cap_bypass_blocked_reason :
    QueryCostClass → List CapName → Option BypassBlocked
subquery_shadow_cap_bypass_blocked_reason c hits =
    if not (is_subquery c.family) || not c.has_subquery
    then some not_subquery_family
    else if not c.estimate_state.fresh
        || ltb_ℤ (pos 0) c.estimate_state.missing
        || ltb_ℤ (pos 0) c.estimate_state.stale
    then some estimates_not_fresh
    else if not (is_light c.subquery_complexity_band)
    then some complexity_not_light
    else if not (subquery_only hits)
    then some cap_hits_not_subquery_only
    else none
