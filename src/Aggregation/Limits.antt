-- ===== src/Aggregation/Limits.antt =====
-- What topk, bottomk and limitk keep, written without buckets.
use promshim_clickhouse.Base.{
  ℕ, suc, ◌≡◌, refl, sym, ◌∙◌, ap, ap₂, Bool, List, [], ◌∷◌, ◌++◌, select, any, take, Bool-cases,
  inl, inr, append_nil, arith, ◌||◌,
}
use promshim_clickhouse.Base.Int.{pos}
use promshim_clickhouse.Bytes.{Bytes, bytes_eq, bytes_eq_sound, bytes_lt}
use promshim_clickhouse.Bytes.Sort.{
  contains, Distinct, StrictSorted, sort_by, sort_strings, sort_strings-StrictSorted, any-sort_by,
}
use promshim_clickhouse.Bytes.Dict.{
  keys, lookup, store, sorted_map_keys, lookup-store, store-Distinct, contains-keys, is_present,
}
use promshim_clickhouse.Floats.{Floats}
use promshim_clickhouse.Matching.Join.{Sample}
use promshim_clickhouse.Aggregation.Selections.{
  Selector, key_less, aggregate_sample_less, selection_key, bucket_at, group_samples,
  first_of_buckets, select_instant_samples, aggregate_top_bottom_instant_samples,
  aggregate_limit_k_instant_samples,
}

module _ (fl : Floats) (grouping : List Bytes) (without : Bool) where
  -- The samples of one group, in their order.
  abbrev pub members : Bytes → List (Sample fl) → List (Sample fl)
  members k = select (λ s. bytes_eq (selection_key fl grouping without s) k)

  abbrev pub has_members : Bytes → List (Sample fl) → Bool
  has_members k = any (λ s. bytes_eq (selection_key fl grouping without s) k)

  -- For each key, the first `limit` samples of its group in the order `less`.
  abbrev pub first_of_groups :
      (Sample fl → Sample fl → Bool) → ℕ → List (Sample fl) → List Bytes → List (Sample fl)
  first_of_groups less limit samples [] = []
  first_of_groups less limit samples (k ∷ ks) =
      take limit (sort_by less (members k samples)) ++ first_of_groups less limit samples ks

  append_assoc : (xs ys zs : List (Sample fl)) → (xs ++ ys) ++ zs ≡ xs ++ (ys ++ zs)
  append_assoc [] ys zs = refl
  append_assoc (x ∷ xs) ys zs = ap (λ l. x ∷ l) (append_assoc xs ys zs)

  group_samples_lem :
      (samples : List (Sample fl)) (buckets : List (Bytes × List (Sample fl)))
      → Distinct (keys buckets)
      → Distinct (keys (group_samples fl grouping without buckets samples))
        × ((k : Bytes)
            → (bucket_at fl grouping without (group_samples fl grouping without buckets samples) k
                ≡ bucket_at fl grouping without buckets k ++ members k samples)
              × (is_present (lookup (group_samples fl grouping without buckets samples) k)
                  ≡ (is_present (lookup buckets k) || has_members k samples)))
  unfolding group_samples
  group_samples_lem [] buckets distinct = (distinct, λ k. (sym (append_nil _), ground arith))
  group_samples_lem (s ∷ samples) buckets distinct =
      let key = selection_key fl grouping without s in
      let extended = bucket_at fl grouping without buckets key ++ (s ∷ []) in
      let (apart, looks) =
        group_samples_lem samples (store buckets key extended)
          (store-Distinct buckets key extended distinct) in
      (
        apart,
        λ k. elim (Bool-cases (bytes_eq key k)) [
          | inl e ↦ (
            (looks k).0
                ∙ rw (lookup-store buckets key extended k, e)
                    (append_assoc (bucket_at fl grouping without buckets key) (s ∷ [])
                        (members k samples)
                      ∙ ap (λ j. bucket_at fl grouping without buckets j ++ (s ∷ members k samples))
                          (bytes_eq_sound key k e)),
            (looks k).1 ∙ rw (lookup-store buckets key extended k, e) (ground arith),
          )
          | inr e ↦ (
            (looks k).0 ∙ rw (lookup-store buckets key extended k, e) refl,
            (looks k).1 ∙ rw (lookup-store buckets key extended k, e) refl,
          )
        ],
      )

  first_of_buckets_lem :
      (less : Sample fl → Sample fl → Bool) (limit : ℕ) (samples : List (Sample fl))
      (ks : List Bytes)
      → first_of_buckets fl grouping without less limit
          (group_samples fl grouping without [] samples)
          ks
        ≡ first_of_groups less limit samples ks
  unfolding first_of_buckets lookup
  first_of_buckets_lem less limit samples [] = refl
  first_of_buckets_lem less limit samples (k ∷ ks) =
      let (_, looks) = group_samples_lem samples [] tt in
      ap₂ (λ xs ys. take limit (sort_by less xs) ++ ys) (looks k).0
        (first_of_buckets_lem less limit samples ks)

  -- The keys of the groups, and what is kept of them.
  abbrev pub Selects :
      (Sample fl → Sample fl → Bool) → ℕ → List (Sample fl) → List (Sample fl) → Type 0
  Selects less limit samples kept =
      (ks : List Bytes) × StrictSorted ks
      × ((k : Bytes) → contains k ks ≡ has_members k samples)
      × (kept ≡ first_of_groups less limit samples ks)

  select_instant_samples-Selects :
      (less : Sample fl → Sample fl → Bool) (samples : List (Sample fl)) (k : ℕ)
      → Selects less
          (suc k)
          samples
          (select_instant_samples fl grouping without less samples (pos (suc k)))
  unfolding select_instant_samples sorted_map_keys lookup
  select_instant_samples-Selects less [] k = ([], tt, λ j. refl, refl)
  select_instant_samples-Selects less (s ∷ samples) k =
      let buckets = group_samples fl grouping without [] (s ∷ samples) in
      let (distinct, looks) = group_samples_lem (s ∷ samples) [] tt in
      (
        sort_strings (keys buckets),
        sort_strings-StrictSorted (keys buckets) distinct,
        λ j.
            any-sort_by bytes_lt (bytes_eq j) (keys buckets)
            ∙ contains-keys buckets j
            ∙ (looks j).1,
        first_of_buckets_lem less (suc k) (s ∷ samples) (sort_strings (keys buckets)),
      )

  -- topk and bottomk with k at least 1 keep, of each group in the order of the keys, the first k samples
  -- in the order of aggregateSampleLess; limitk keeps the first k in the order of LabelsKey.
  pub aggregate_instant_samples-Selects :
      (op : Selector) (samples : List (Sample fl)) (k : ℕ)
      → Selects
          (aggregate_sample_less fl op)
          (suc k)
          samples
          (aggregate_top_bottom_instant_samples fl grouping without op samples (pos (suc k)))
        × Selects
            (key_less fl)
            (suc k)
            samples
            (aggregate_limit_k_instant_samples fl grouping without samples (pos (suc k)))
  unfolding aggregate_top_bottom_instant_samples aggregate_limit_k_instant_samples
  aggregate_instant_samples-Selects op samples k = (
    select_instant_samples-Selects (aggregate_sample_less fl op) samples k,
    select_instant_samples-Selects (key_less fl) samples k,
  )
