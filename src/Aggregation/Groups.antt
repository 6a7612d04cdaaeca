-- ===== src/Aggregation/Groups.antt =====
-- What AggregateInstantSamples computes, written without buckets: for each group of samples, in the order
-- of the keys, the reducer of the operator over the values of the group.
use promshim_clickhouse.Base.{
  ◌≡◌, refl, sym, ◌∙◌, ap, Bool, true, List, [], ◌∷◌, map, select, any, Option, none, some, ok, err,
  if◌then◌else◌, is_empty, arith, Bool-cases, Option-cases, inl, inr, All, ap₂,
}
use promshim_clickhouse.Bytes.{Bytes, bytes_eq, bytes_eq_sound, bytes_eq_refl, bytes_lt}
use promshim_clickhouse.Bytes.Sort.{
  contains, Distinct, StrictSorted, sort_strings, sort_strings-StrictSorted, any-sort_by, sort_by,
}
use promshim_clickhouse.Bytes.Dict.{
  keys, lookup, store, sorted_map_keys, values_at, lookup-store, store-Distinct, contains-keys,
  is_present,
}
use promshim_clickhouse.Floats.{Floats}
use promshim_clickhouse.Plans.{AggregateOp}
use promshim_clickhouse.Matching.Join.{Sample}
use promshim_clickhouse.Aggregation.{Reducer, Error, add_value, result, new_aggregate_reducer}
use promshim_clickhouse.Aggregation.Buckets.{
  Bucket, add_to, group_metric, group_key, add_sample, add_samples, bucket_sample,
  aggregate_instant_samples,
}

module _ (fl : Floats) where
  open fl use {F}

  -- The reducer after the values of the samples, in their order.
  abbrev pub add_values : Reducer fl → List (Sample fl) → Reducer fl
  add_values r [] = r
  add_values r (s ∷ samples) = add_values (add_value fl r s.value) samples

  module _ (op : AggregateOp) (grouping : List Bytes) (without : Bool) (param : Option F) where
    abbrev key_of : Sample fl → Bytes
    key_of = group_key fl op grouping without param

    -- The samples of one group.
    abbrev pub group : Bytes → List (Sample fl) → List (Sample fl)
    group k = select (λ s. bytes_eq (key_of s) k)

    abbrev pub has_group : Bytes → List (Sample fl) → Bool
    has_group k = any (λ s. bytes_eq (key_of s) k)

    module _ (start : Reducer fl) where
      -- The bucket that the samples of one group leave.
      abbrev fold_group : Option (Bucket fl) → List (Sample fl) → Option (Bucket fl)
      fold_group none [] = none
      fold_group none (s ∷ samples) = some (record {
        metric = group_metric fl op grouping without param s;
        reducer = add_values start (s ∷ samples);
      })
      fold_group (some b) samples = some (record b { reducer = add_values b.reducer samples })

      -- The sample that stands for a group: the label set that `by` or `without` leaves of its first
      -- sample, and the result of the reducer over all of its values.
      abbrev pub group_sample : F → List (Sample fl) → Sample fl
      group_sample timestamp [] = record {
        metric = [];
        timestamp = timestamp;
        value = result fl start;
      }
      group_sample timestamp (s ∷ samples) = record {
        metric = group_metric fl op grouping without param s;
        timestamp = timestamp;
        value = result fl (add_values start (s ∷ samples));
      }

      -- The bucket that one sample leaves at its key.
      abbrev next_bucket : Option (Bucket fl) → Sample fl → Bucket fl
      next_bucket none s =
          add_to fl
            (record { metric = group_metric fl op grouping without param s; reducer = start })
            s.value
      next_bucket (some b) s = add_to fl b s.value

      fold_group_step :
          (old : Option (Bucket fl)) (s : Sample fl) (samples : List (Sample fl))
          → fold_group (some (next_bucket old s)) samples ≡ fold_group old (s ∷ samples)
      fold_group_step none s samples = refl
      fold_group_step (some b) s samples = refl

      add_sample_lem :
          (buckets : List (Bytes × Bucket fl)) (s : Sample fl)
          → new_aggregate_reducer fl op param ≡ ok start
          → add_sample fl op grouping without param buckets s
            ≡ ok (store buckets (key_of s) (next_bucket (lookup buckets (key_of s)) s))
      unfolding add_sample
      add_sample_lem buckets s h = elim (Option-cases (lookup buckets (key_of s))) [
        | inl e ↦ rw (e, add_sample, h) refl
        | inr (b, e) ↦ rw (e, add_sample) refl
      ]

      add_samples_lem :
          (samples : List (Sample fl)) (buckets : List (Bytes × Bucket fl))
          → new_aggregate_reducer fl op param ≡ ok start
          → Distinct (keys buckets)
          → (last : List (Bytes × Bucket fl)) × (add_samples fl op grouping without param buckets
                samples
              ≡ ok last)
            × Distinct (keys last)
            × ((k : Bytes) → lookup last k ≡ fold_group (lookup buckets k) (group k samples))
      unfolding add_samples
      add_samples_lem [] buckets h distinct = (
        buckets,
        refl,
        distinct,
        λ k. elim (Option-cases (lookup buckets k)) [ inl e ↦ rw e refl | inr (b, e) ↦ rw e refl ],
      )
      add_samples_lem (s ∷ samples) buckets h distinct =
          let added = next_bucket (lookup buckets (key_of s)) s in
          let (last, runs, apart, looks) =
            add_samples_lem samples (store buckets (key_of s) added) h
              (store-Distinct buckets (key_of s) added distinct) in
          (
            last,
            rw (add_sample_lem buckets s h) runs,
            apart,
            λ k. looks k ∙ elim (Bool-cases (bytes_eq (key_of s) k)) [
              | inl e ↦
                  rw (lookup-store buckets (key_of s) added k, e)
                    (fold_group_step (lookup buckets (key_of s)) s (group k samples)
                      ∙ ap (λ j. fold_group (lookup buckets j) (s ∷ group k samples))
                          (bytes_eq_sound (key_of s) k e))
              | inr e ↦ rw (lookup-store buckets (key_of s) added k, e) refl
            ],
          )

      is_present-fold_group :
          (k : Bytes) (samples : List (Sample fl))
          → is_present (fold_group none (group k samples)) ≡ has_group k samples
      is_present-fold_group k [] = refl
      is_present-fold_group k (s ∷ samples) = elim (Bool-cases (bytes_eq (key_of s) k)) [
        | inl e ↦ rw e refl
        | inr e ↦ rw e (is_present-fold_group k samples)
      ]

      fold_group-present :
          (timestamp : F) (g : List (Sample fl))
          → is_present (fold_group none g) ≡ true
          → (b : Bucket fl) × (fold_group none g ≡ some b)
            × (bucket_sample fl op grouping without param timestamp b ≡ group_sample timestamp g)
      fold_group-present timestamp [] h = cc
      fold_group-present timestamp (s ∷ g) h = (_, refl, refl)

      map-values_at :
          (timestamp : F) (samples : List (Sample fl)) (last : List (Bytes × Bucket fl))
          (ks : List Bytes)
          → ((k : Bytes) → lookup last k ≡ fold_group none (group k samples))
          → All (λ k. is_present (lookup last k) ≡ true) ks
          → map (bucket_sample fl op grouping without param timestamp) (values_at last ks)
            ≡ map (λ k. group_sample timestamp (group k samples)) ks
      unfolding values_at
      map-values_at timestamp samples last [] looks present = refl
      map-values_at timestamp samples last (k ∷ ks) looks present =
          let (b, found, same) =
            fold_group-present timestamp (group k samples)
              (sym (ap is_present (looks k)) ∙ present.0) in
          rw (values_at, looks k, found)
            (ap₂ (λ x xs. x ∷ xs) same (map-values_at timestamp samples last ks looks present.1))

  contains-All {κ} :
      (P : Bytes → Type κ) (ks : List Bytes) → ((k : Bytes) → contains k ks ≡ true → P k) → All P ks
  contains-All P [] h = tt
  contains-All P (k ∷ ks) h =
      (h k (rw (bytes_eq_refl k) refl), contains-All P ks (λ j c. h j (ground (arith, c))))

  -- For an operator that has a reducer, the aggregation of a vector always succeeds, and gives one sample
  -- for each group, in the increasing order of the group keys: with the label set that `by` or `without`
  -- leaves of the group's first sample, and the result of the reducer over the values of exactly the
  -- samples of the group, in their order.
  pub aggregate_instant_samples_lem :
      (op : AggregateOp) (grouping : List Bytes) (without : Bool) (param : Option F)
      (start : Reducer fl) (timestamp : F) (samples : List (Sample fl))
      → new_aggregate_reducer fl op param ≡ ok start
      → (ks : List Bytes) × StrictSorted ks
        × ((k : Bytes) → contains k ks ≡ has_group op grouping without param k samples)
        × (aggregate_instant_samples fl op grouping without param timestamp samples
            ≡ ok (
                map
                  (λ k.
                    group_sample op grouping without param start timestamp
                      (group op grouping without param k samples))
                  ks))
  unfolding aggregate_instant_samples lookup sorted_map_keys
  aggregate_instant_samples_lem op grouping without param start timestamp samples h =
      let (last, runs, distinct, looks) =
        add_samples_lem op grouping without param start samples [] h tt in
      let found : (k : Bytes) → contains k (sort_strings (keys last)) ≡ is_present (lookup last k) =
        λ k. any-sort_by bytes_lt (bytes_eq k) (keys last) ∙ contains-keys last k in
      (
        sort_strings (keys last),
        sort_strings-StrictSorted (keys last) distinct,
        λ k.
            found k
            ∙ ap is_present (looks k)
            ∙ is_present-fold_group op grouping without param start k samples,
        rw runs (
            ap ok (
              map-values_at op grouping without param start timestamp samples last
                (sort_strings (keys last)) looks
                (contains-All (λ k. is_present (lookup last k) ≡ true) (sort_strings (keys last))
                  (λ k c. sym (found k) ∙ c)))),
      )

  -- For an operator without a reducer, or quantile without its parameter, the aggregation of a vector that
  -- has a sample fails with the error of newAggregateReducer, and that of the empty vector is empty.
  aggregate_instant_samples-err :
      (op : AggregateOp) (grouping : List Bytes) (without : Bool) (param : Option F) (e : Error)
      (timestamp : F) (samples : List (Sample fl))
      → new_aggregate_reducer fl op param ≡ err e
      → aggregate_instant_samples fl op grouping without param timestamp samples
        ≡ (if is_empty samples then ok [] else err e)
  unfolding aggregate_instant_samples add_samples add_sample lookup values_at sorted_map_keys
      sort_by
  aggregate_instant_samples-err op grouping without param e timestamp [] h = refl
  aggregate_instant_samples-err op grouping without param e timestamp (s ∷ samples) h = rw h refl
