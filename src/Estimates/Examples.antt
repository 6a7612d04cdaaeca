-- ===== src/Estimates/Examples.antt =====
-- The cache of internal/promshim/selector_estimates.go on a few operations.
use mathlib.Core.List.{Perm}
use promshim_clickhouse.Base.{
  any, ◌==◌, is_empty, ◌≤◌, true, false, List, [], ◌∷◌, none, some, ◌≡◌, refl, length, arith,
}
use promshim_clickhouse.Base.Int.{pos, wrap64, ◌-ℤ◌, ◌+ℤ◌, ◌/ℤ◌}
use promshim_clickhouse.Bytes.{Bytes, Lacks, bytes_eq, bytes_lt}
use promshim_clickhouse.Bytes.Dict.{lookup, store}
use promshim_clickhouse.Bytes.Sort.{sort_by, insert_sorted}
use promshim_clickhouse.Bytes.Text.{text}
use promshim_clickhouse.Estimates.{
  Signature, Stats, Cache, hit, Operation, get_stats, put_stats, perform_all, put, key, observed,
  get_with_state, new_cache_with_max,
}
use promshim_clickhouse.Estimates.Key.{IsValid, key-injective}
use promshim_clickhouse.Estimates.Latest.{
  IsLatest, latest, get_with_state-IsLatest, get_with_state-put,
}
use promshim_clickhouse.Estimates.Bounds.{length-perform_all-le}
use promshim_clickhouse.Estimates.Apply.{samples_or_estimate, apply_cached_selector_estimates}
use promshim_clickhouse.Estimates.Fresh.{IsEstimated, apply_cached_selector_estimates-IsEstimated}
use promshim_clickhouse.Routing.{QueryCostClass, query_range, rate, unset}

abbrev up : Signature
up = record {
  matchers = text "__name__=\"up\"" ∷ [];
  start_ms = pos 0;
  end_ms = pos 30000;
  lookback_ms = pos 300;
  offset_ms = pos 0;
}

abbrev down : Signature
down = record up { end_ms = pos 60000 }

abbrev four : Stats
four = record { matched_series = pos 4; samples_per_series = pos 0; observed_at = 1000 }

abbrev operations : List Operation
operations = put_stats up four 0 ∷ put_stats down four 0 ∷ get_stats up 1500 ∷ []

length-perform_all-le_example :
    length (perform_all (new_cache_with_max (pos 100) (pos 1)) operations).entries ≤ 1
length-perform_all-le_example = length-perform_all-le (pos 100) 0 operations

get_with_state-IsLatest_example :
    IsLatest
      (new_cache_with_max (pos 100) (pos 1)).ttl
      1050
      (latest (λ _. none) operations (key down))
      (get_with_state (perform_all (new_cache_with_max (pos 100) (pos 1)) operations) down 1050).1
get_with_state-IsLatest_example = get_with_state-IsLatest (pos 100) (pos 1) operations down 1050

abbrev full : Cache
full = perform_all (new_cache_with_max (pos 100) (pos 1)) (put_stats down four 0 ∷ [])

get_with_state-put_example :
    (get_with_state (put full up four 0) up 1050).1 ≡ (observed four 0, hit)
unfolding perform_all new_cache_with_max
get_with_state-put_example = get_with_state-put full up four 0 1050 refl refl

abbrev fresh_rate : QueryCostClass
fresh_rate = record {
  endpoint = query_range;
  family = rate;
  estimate_state = record { fresh = false; missing = pos 1; stale = pos 0 };
  has_aggregation = false;
  has_range_function = true;
  has_repeated_range_func = false;
  has_vector_join = false;
  has_histogram = false;
  has_subquery = false;
  has_label_mutation = false;
  has_selection_agg = false;
  selector_count = 1;
  estimated_series = pos 0;
  estimated_input_samples = pos 0;
  estimated_output_points = pos 0;
  range_points_per_series = pos 10;
  subquery_complexity_band = unset;
  histogram_child_grouping_labels = [];
  histogram_child_groups_by_le_only = false;
  native_round_trips = pos 1;
  local_round_trips = pos 1;
}

apply_cached_selector_estimates-IsEstimated_example :
    IsEstimated full 1050 fresh_rate
      (down ∷ [])
      (apply_cached_selector_estimates fresh_rate (down ∷ []) (some full) 1050).1
unfolding perform_all new_cache_with_max get_with_state samples_or_estimate lookup store bytes_eq
    sort_by insert_sorted wrap64 ◌-ℤ◌ ◌+ℤ◌ ◌/ℤ◌
apply_cached_selector_estimates-IsEstimated_example =
    apply_cached_selector_estimates-IsEstimated full 1050 fresh_rate down [] (refl, tt)
      (omega arith) (omega arith)

-- The same matchers in another order have the same key.
abbrev pair : Bytes → Bytes → Signature
pair a b = record up { matchers = a ∷ b ∷ [] }

Lacks-test : (s : Bytes) → any (λ c. c == 255) s ≡ false → Lacks 255 s
Lacks-test [] h = tt
Lacks-test (c ∷ s) h = (ground (arith, h), Lacks-test s (ground (arith, h)))

pair-IsValid :
    (a b : Bytes)
    → is_empty a ≡ false
    → is_empty b ≡ false
    → any (λ c. c == 255) a ≡ false
    → any (λ c. c == 255) b ≡ false
    → IsValid (pair a b)
pair-IsValid a b ha hb ta tb = (
  ((ha, Lacks-test a ta), ((hb, Lacks-test b tb), tt)),
  ((omega arith, omega arith), (omega arith, omega arith)),
)

key-injective_example :
    Perm (text "b=\"2\"" ∷ text "a=\"1\"" ∷ []) (text "a=\"1\"" ∷ text "b=\"2\"" ∷ [])
    × (((pos 0 ≡ pos 0) × (pos 30000 ≡ pos 30000)) × ((pos 300 ≡ pos 300) × (pos 0 ≡ pos 0)))
unfolding key sort_by insert_sorted bytes_lt
key-injective_example =
    key-injective (pair (text "b=\"2\"") (text "a=\"1\"")) (pair (text "a=\"1\"") (text "b=\"2\""))
      (pair-IsValid (text "b=\"2\"") (text "a=\"1\"") refl refl refl refl)
      (pair-IsValid (text "a=\"1\"") (text "b=\"2\"") refl refl refl refl) refl
