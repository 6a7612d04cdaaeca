-- ===== src/Aggregation/Selections.antt =====
-- internal/promshim/local/exec/aggregate.go, AggregateTopBottomInstantSamples and
-- AggregateLimitKInstantSamples: the aggregations that keep some of the samples of each group.
use promshim_clickhouse.Base.{
  ℕ, Bool, true, false, not, ◌&&◌, List, [], ◌∷◌, ◌++◌, Option, none, some, if◌then◌else◌, take,
  suc, zero,
}
use promshim_clickhouse.Base.Int.{ℤ, pos, negsuc}
use promshim_clickhouse.Bytes.{Bytes, bytes_lt}
use promshim_clickhouse.Bytes.Sort.{sort_by}
use promshim_clickhouse.Bytes.Dict.{lookup, store, sorted_map_keys}
use promshim_clickhouse.Labels.{aggregation_metric, labels_key}
use promshim_clickhouse.Floats.{Floats}
use promshim_clickhouse.Matching.Join.{Sample}

-- The two operators for which the code calls aggregateSampleLess.
pub data Selector : Type 0 where
  topk bottomk : Selector

module _ (fl : Floats) where
  abbrev pub key_less : Sample fl → Sample fl → Bool
  key_less left right = bytes_lt (labels_key left.metric) (labels_key right.metric)

  unfoldable pub aggregate_sample_less : Selector → Sample fl → Sample fl → Bool
  aggregate_sample_less op left right =
      if fl.is_nan left.value && fl.is_nan right.value
      then key_less left right
      else if fl.is_nan left.value
      then false
      else if fl.is_nan right.value
      then true
      else if not (fl.eq left.value right.value)
      then elim op [ topk ↦ fl.lt right.value left.value | bottomk ↦ fl.lt left.value right.value ]
      else key_less left right

  abbrev pub or_empty : Option (List (Sample fl)) → List (Sample fl)
  or_empty none = []
  or_empty (some bucket) = bucket

  module _ (grouping : List Bytes) (without : Bool) where
    abbrev pub selection_key : Sample fl → Bytes
    selection_key s = labels_key (aggregation_metric s.metric grouping without)

    -- buckets[key], the empty slice where the key is missing
    abbrev pub bucket_at : List (Bytes × List (Sample fl)) → Bytes → List (Sample fl)
    bucket_at buckets key = or_empty (lookup buckets key)

    unfoldable pub group_samples :
        List (Bytes × List (Sample fl)) → List (Sample fl) → List (Bytes × List (Sample fl))
    group_samples buckets [] = buckets
    group_samples buckets (s ∷ samples) =
        group_samples
          (store buckets (selection_key s) (bucket_at buckets (selection_key s) ++ (s ∷ [])))
          samples

    -- The loop over the keys, which keeps the first `limit` samples of each sorted bucket.
    unfoldable pub first_of_buckets :
        (Sample fl → Sample fl → Bool)
        → ℕ
        → List (Bytes × List (Sample fl))
        → List Bytes
        → List (Sample fl)
    first_of_buckets less limit buckets [] = []
    first_of_buckets less limit buckets (key ∷ rest) =
        take limit (sort_by less (bucket_at buckets key))
        ++ first_of_buckets less limit buckets rest

    -- What the two functions share; `k < 1` selects nothing.
    unfoldable pub select_instant_samples :
        (Sample fl → Sample fl → Bool) → List (Sample fl) → ℤ → List (Sample fl)
    unfolding group_samples first_of_buckets
    select_instant_samples less samples (negsuc k) = []
    select_instant_samples less samples (pos zero) = []
    select_instant_samples less [] (pos (suc k)) = []
    select_instant_samples less (s ∷ samples) (pos (suc k)) =
        let buckets = group_samples [] (s ∷ samples) in
        first_of_buckets less (suc k) buckets (sorted_map_keys buckets)

    unfoldable pub aggregate_top_bottom_instant_samples :
        Selector → List (Sample fl) → ℤ → List (Sample fl)
    unfolding select_instant_samples aggregate_sample_less
    aggregate_top_bottom_instant_samples op = select_instant_samples (aggregate_sample_less op)

    unfoldable pub aggregate_limit_k_instant_samples : List (Sample fl) → ℤ → List (Sample fl)
    unfolding select_instant_samples
    aggregate_limit_k_instant_samples = select_instant_samples key_less
