-- ===== src/Aggregation/Examples.antt =====
-- Aggregations of internal/promshim/local/exec/aggregate.go on concrete vectors.
use promshim_clickhouse.Base.{ℕ, ◌≡◌, refl, List, [], ◌∷◌, false, none, ok, map}
use promshim_clickhouse.Bytes.{Bytes}
use promshim_clickhouse.Bytes.Sort.{StrictSorted, contains}
use promshim_clickhouse.Floats.{nat_floats}
use promshim_clickhouse.Plans.{AggregateOp}
use promshim_clickhouse.Matching.Join.{Sample}
use promshim_clickhouse.Aggregation.{sum_reducer, new_aggregate_reducer}
use promshim_clickhouse.Aggregation.Buckets.{aggregate_instant_samples}
use promshim_clickhouse.Aggregation.Groups.{
  group, has_group, group_sample, aggregate_instant_samples_lem,
}
use promshim_clickhouse.Base.Int.{pos}
use promshim_clickhouse.Aggregation.Selections.{
  topk, key_less, aggregate_sample_less, aggregate_top_bottom_instant_samples,
  aggregate_limit_k_instant_samples,
}
use promshim_clickhouse.Aggregation.Limits.{Selects, aggregate_instant_samples-Selects}

-- the label `a`
abbrev a : Bytes
a = 97 ∷ []

abbrev sample : Bytes → ℕ → Sample nat_floats
sample label v = record { metric = (a, label) ∷ []; timestamp = 5; value = v }

-- {a="b"} 3, {a="c"} 4, {a="b"} 5
abbrev vector : List (Sample nat_floats)
vector = sample (98 ∷ []) 3 ∷ sample (99 ∷ []) 4 ∷ sample (98 ∷ []) 5 ∷ []

aggregate_instant_samples_lem_example :
    (ks : List Bytes) × StrictSorted ks
    × ((k : Bytes)
        → contains k ks ≡ has_group nat_floats AggregateOp.sum (a ∷ []) false none k vector)
    × (aggregate_instant_samples nat_floats AggregateOp.sum (a ∷ []) false none 7 vector
        ≡ ok (
            map
              (λ k.
                group_sample nat_floats AggregateOp.sum
                  (a ∷ [])
                  false
                  none
                  (sum_reducer 0)
                  7
                  (group nat_floats AggregateOp.sum (a ∷ []) false none k vector))
              ks))
unfolding new_aggregate_reducer
aggregate_instant_samples_lem_example =
    aggregate_instant_samples_lem nat_floats AggregateOp.sum (a ∷ []) false none (sum_reducer 0) 7
      vector refl

aggregate_instant_samples-Selects_example :
    Selects nat_floats
      (a ∷ [])
      false
      (aggregate_sample_less nat_floats topk)
      1
      vector
      (aggregate_top_bottom_instant_samples nat_floats (a ∷ []) false topk vector (pos 1))
    × Selects nat_floats
        (a ∷ [])
        false
        (key_less nat_floats)
        1
        vector
        (aggregate_limit_k_instant_samples nat_floats (a ∷ []) false vector (pos 1))
aggregate_instant_samples-Selects_example =
    aggregate_instant_samples-Selects nat_floats (a ∷ []) false topk vector 0
