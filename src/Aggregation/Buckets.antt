-- ===== src/Aggregation/Buckets.antt =====
-- internal/promshim/local/exec/aggregate.go, AggregateInstantSamples: one reducer for each group of samples.
-- The parameter `timestamp` is float64(evaluationTime.UnixNano()) / float64(time.Second).
use promshim_clickhouse.Base.{Bool, List, [], ◌∷◌, map, Option, none, some, Result, ok, ◌>>=◌}
use promshim_clickhouse.Bytes.{Bytes}
use promshim_clickhouse.Bytes.Dict.{lookup, store, sorted_map_keys, values_at}
use promshim_clickhouse.Labels.{Metric, aggregation_metric, labels_key}
use promshim_clickhouse.Floats.{Floats}
use promshim_clickhouse.Plans.{AggregateOp}
use promshim_clickhouse.Matching.Join.{Sample}
use promshim_clickhouse.Aggregation.{Error, Reducer, add_value, result, new_aggregate_reducer}

module _ (fl : Floats) where
  open fl use {F}

  pub record Bucket : Type 0 where
    pub metric : Metric
    pub reducer : Reducer fl

  abbrev pub add_to : Bucket → F → Bucket
  add_to b value = record b { reducer = add_value fl b.reducer value }

  module _ (op : AggregateOp) (grouping : List Bytes) (without : Bool) (param : Option F) where
    abbrev pub group_metric : Sample fl → Metric
    group_metric s = aggregation_metric s.metric grouping without

    abbrev pub group_key : Sample fl → Bytes
    group_key s = labels_key (group_metric s)

    -- One round of the loop over the samples.
    unfoldable pub add_sample :
        List (Bytes × Bucket) → Sample fl → Result Error (List (Bytes × Bucket))
    add_sample buckets s = elim (lookup buckets (group_key s)) [
      | some b ↦ ok (store buckets (group_key s) (add_to b s.value))
      | none ↦ new_aggregate_reducer fl op param >>= λ r. ok (
          store buckets (group_key s)
            (add_to (record { metric = group_metric s; reducer = r }) s.value))
    ]

    unfoldable pub add_samples :
        List (Bytes × Bucket) → List (Sample fl) → Result Error (List (Bytes × Bucket))
    unfolding add_sample
    add_samples buckets [] = ok buckets
    add_samples buckets (s ∷ samples) = add_sample buckets s >>= λ next. add_samples next samples

    abbrev pub bucket_sample : F → Bucket → Sample fl
    bucket_sample timestamp b = record {
      metric = b.metric;
      timestamp = timestamp;
      value = result fl b.reducer;
    }

    unfoldable pub aggregate_instant_samples :
        F → List (Sample fl) → Result Error (List (Sample fl))
    unfolding add_samples
    aggregate_instant_samples timestamp samples = add_samples [] samples >>= λ buckets.
        ok (map (bucket_sample timestamp) (values_at buckets (sorted_map_keys buckets)))
