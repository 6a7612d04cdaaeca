-- ===== src/Routing/Gates.antt =====
-- internal/promshim/routing_policy.go, familyGate and familyEnabled: the names by which an operator enables
-- the families of queries that local execution may serve.
use promshim_clickhouse.Base.{Bool, List, if◌then◌else◌, any}
use promshim_clickhouse.Bytes.{Bytes, bytes_eq}
use promshim_clickhouse.Bytes.Text.{text}
use promshim_clickhouse.Routing.{
  is_query_range, selector, range_selector, rate, range_rate, increase, binary, histogram_quantile,
  aggregation, subquery, other, QueryCostClass,
}

abbrev selector_instant : Bytes
selector_instant = text "selector_instant"

abbrev rate_instant : Bytes
rate_instant = text "rate_instant"

abbrev binary_repeated_rate_instant : Bytes
binary_repeated_rate_instant = text "binary_repeated_rate_instant"

abbrev binary_instant : Bytes
binary_instant = text "binary_instant"

abbrev histogram_instant : Bytes
histogram_instant = text "histogram_instant"

abbrev aggregation_range : Bytes
aggregation_range = text "aggregation_range"

abbrev range_aggregation_instant : Bytes
range_aggregation_instant = text "range_aggregation_instant"

abbrev aggregation_instant : Bytes
aggregation_instant = text "aggregation_instant"

abbrev range_selector_tiny : Bytes
range_selector_tiny = text "range_selector_tiny"

-- Two families are gates of their own.
abbrev range_rate_gate : Bytes
range_rate_gate = text "range_rate"

abbrev subquery_gate : Bytes
subquery_gate = text "subquery"

unfoldable pub family_gate : QueryCostClass → Bytes
family_gate c = elim c.family [
  | selector ↦ selector_instant
  | rate ↦ rate_instant
  | increase ↦ rate_instant
  | binary ↦ if c.has_repeated_range_func then binary_repeated_rate_instant else binary_instant
  | histogram_quantile ↦ histogram_instant
  | aggregation ↦
      if is_query_range c.endpoint
      then aggregation_range
      else if c.has_range_function
      then range_aggregation_instant
      else aggregation_instant
  | range_selector ↦ range_selector_tiny
  | range_rate ↦ range_rate_gate
  | subquery ↦ subquery_gate
  | other text ↦ text
]

-- `enabled` holds the items of the list as strings.TrimSpace leaves them.
unfoldable pub family_enabled : QueryCostClass → List Bytes → Bool
unfolding family_gate
family_enabled c enabled = any (λ item. bytes_eq item (family_gate c)) enabled
