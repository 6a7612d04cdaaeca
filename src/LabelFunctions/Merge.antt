-- ===== src/LabelFunctions/Merge.antt =====
-- A vector after label_replace or label_join: sorted by LabelsKey, or an error where two samples meet.
use promshim_clickhouse.Base.{
  false, List, [], ◌∷◌, map, Option, some, ◌≡◌, refl, sym, ◌∙◌, ap, arith, Bool-cases, Result-cases,
  inl, inr, All, Result, ok, err,
}
use promshim_clickhouse.Bytes.{Bytes, bytes_eq_iff, bytes_eq_refl, bytes_lt}
use promshim_clickhouse.Bytes.Sort.{
  contains, Distinct, insert_sorted, sort_by, sort_strings, All-sort_by,
}
use promshim_clickhouse.Bytes.Dict.{keys, lookup, sorted_map_keys, values_at}
use promshim_clickhouse.Labels.{Metric}
use promshim_clickhouse.Floats.{Floats}
use promshim_clickhouse.Matching.Join.{Sample}
use promshim_clickhouse.Aggregation.Selections.{key_less}
use promshim_clickhouse.Plans.{LabelReplaceConfig, LabelJoinConfig}
use promshim_clickhouse.LabelFunctions.{
  Error, RuntimeValue, vector_value, index_samples, merge_samples_with_same_labelset,
  apply_metric_change, change_sample, label_join_metric, label_replace_metric,
  apply_label_join_runtime_value, apply_label_replace_runtime_value,
}
use promshim_clickhouse.LabelFunctions.Index.{key_of, entries, vector_keys, index_samples-Indexed}

module _ (fl : Floats) where
  map-insert_sorted :
      (s : Sample fl) (samples : List (Sample fl))
      → vector_keys fl (insert_sorted (key_less fl) s samples)
        ≡ insert_sorted bytes_lt (key_of fl s) (vector_keys fl samples)
  unfolding insert_sorted
  map-insert_sorted s [] = refl
  map-insert_sorted s (t ∷ samples) = elim (Bool-cases (bytes_lt (key_of fl t) (key_of fl s))) [
    | inl e ↦ rw (e, insert_sorted) (ap (λ l. key_of fl t ∷ l) (map-insert_sorted s samples))
    | inr e ↦ rw (e, insert_sorted) refl
  ]

  map-sort_by :
      (samples : List (Sample fl))
      → vector_keys fl (sort_by (key_less fl) samples) ≡ sort_strings (vector_keys fl samples)
  unfolding sort_by
  map-sort_by [] = refl
  map-sort_by (s ∷ samples) =
      map-insert_sorted s (sort_by (key_less fl) samples)
      ∙ ap (insert_sorted bytes_lt (key_of fl s)) (map-sort_by samples)

  keys-entries : (samples : List (Sample fl)) → keys (entries fl samples) ≡ vector_keys fl samples
  keys-entries [] = refl
  keys-entries (s ∷ samples) = ap (λ l. key_of fl s ∷ l) (keys-entries samples)

  values_at-map :
      (d : List (Bytes × Sample fl)) (samples : List (Sample fl))
      → All (λ s. lookup d (key_of fl s) ≡ some s) samples
      → values_at d (vector_keys fl samples) ≡ samples
  unfolding values_at
  values_at-map d [] h = refl
  values_at-map d (s ∷ samples) h =
      rw (h.0, values_at) (ap (λ l. s ∷ l) (values_at-map d samples h.1))

  All-lookup-cons :
      (s : Sample fl) (d samples : List (Sample fl))
      → contains (key_of fl s) (vector_keys fl samples) ≡ false
      → All (λ t. lookup (entries fl d) (key_of fl t) ≡ some t) samples
      → All (λ t. lookup (entries fl (s ∷ d)) (key_of fl t) ≡ some t) samples
  unfolding lookup
  All-lookup-cons s d [] apart h = tt
  All-lookup-cons s d (t ∷ samples) apart h = (
    ground (
      arith,
      apart,
      h.0,
      bytes_eq_iff (key_of fl s) (key_of fl t),
      bytes_eq_iff (key_of fl t) (key_of fl s),
    ),
    All-lookup-cons s d samples (ground (arith, apart)) h.1,
  )

  All-lookup :
      (samples : List (Sample fl))
      → Distinct (vector_keys fl samples)
      → All (λ s. lookup (entries fl samples) (key_of fl s) ≡ some s) samples
  unfolding lookup
  All-lookup [] distinct = tt
  All-lookup (s ∷ samples) (apart, distinct) = (
    rw (bytes_eq_refl (key_of fl s)) refl,
    All-lookup-cons s samples samples apart (All-lookup samples distinct),
  )

  values_at-sorted :
      (samples : List (Sample fl))
      → Distinct (vector_keys fl samples)
      → values_at (entries fl samples) (sorted_map_keys (entries fl samples))
        ≡ sort_by (key_less fl) samples
  unfolding sorted_map_keys
  values_at-sorted samples distinct =
      let sorted = sort_by (key_less fl) samples in
      ap (λ ks. values_at (entries fl samples) (sort_strings ks)) (keys-entries samples)
      ∙ ap (values_at (entries fl samples)) (sym (map-sort_by samples))
      ∙ values_at-map (entries fl samples) sorted (
          All-sort_by (key_less fl) (λ s. lookup (entries fl samples) (key_of fl s) ≡ some s)
            samples (All-lookup samples distinct))

  -- What the merge of a vector comes to: its samples in the order of LabelsKey where no two of them have the
  -- same one, and an error where two have.
  abbrev pub Merged : List (Sample fl) → Result Error (List (Sample fl)) → Type 0
  Merged samples (ok out) =
      Distinct (vector_keys fl samples) × (out ≡ sort_by (key_less fl) samples)
  Merged samples (err e) = Distinct (vector_keys fl samples) → ⊥

  merge_samples_with_same_labelset-Merged :
      (samples : List (Sample fl)) → Merged samples (merge_samples_with_same_labelset fl samples)
  unfolding merge_samples_with_same_labelset sort_by insert_sorted
  merge_samples_with_same_labelset-Merged [] = (tt, refl)
  merge_samples_with_same_labelset-Merged (s ∷ []) = ((refl, tt), refl)
  merge_samples_with_same_labelset-Merged (s ∷ t ∷ rest) =
      let indexed = index_samples-Indexed fl [] (s ∷ t ∷ rest) in
      elim (Result-cases (index_samples fl [] (s ∷ t ∷ rest))) [
        | inl (last, e) ↦
            let (same, distinct, apart) = rw e at indexed in
            rw (e, same) (distinct, values_at-sorted (s ∷ t ∷ rest) distinct)
        | inr (failure, e) ↦
            let refuse = rw e at indexed in
            rw e (λ distinct. refuse (distinct, λ k c. ground (arith, c)))
      ]

  -- The vector that a change of label sets comes to.
  abbrev pub Changed :
      (Metric → Metric) → List (Sample fl) → Result Error (RuntimeValue fl) → Type 0
  Changed change samples (ok (vector_value out)) =
      Merged (map (change_sample fl change) samples) (ok out)
  Changed change samples (ok _) = ⊥
  Changed change samples (err e) = Merged (map (change_sample fl change) samples) (err e)

  apply_metric_change-Changed :
      (change : Metric → Metric) (samples : List (Sample fl))
      → Changed change samples (apply_metric_change fl change (vector_value samples))
  unfolding apply_metric_change
  apply_metric_change-Changed change samples =
      let changed = map (change_sample fl change) samples in
      let merged = merge_samples_with_same_labelset-Merged changed in
      elim (Result-cases (merge_samples_with_same_labelset fl changed)) [
        | inl (out, e) ↦ rw e (rw e at merged)
        | inr (failure, e) ↦ rw e (rw e at merged)
      ]

  -- label_join and label_replace of a vector change the label set of each sample and nothing else, and give
  -- the samples in the order of LabelsKey where no two of them have come to the same one; they fail exactly
  -- where two have.
  pub apply_label_functions-Changed :
      {R : Type 0} (expand : R → Bytes → Bytes → Option Bytes) (replace_cfg : LabelReplaceConfig R)
      (join_cfg : LabelJoinConfig) (samples : List (Sample fl))
      → Changed
          (label_join_metric join_cfg)
          samples
          (apply_label_join_runtime_value fl (vector_value samples) join_cfg)
        × Changed
            (label_replace_metric expand replace_cfg)
            samples
            (apply_label_replace_runtime_value fl expand (vector_value samples) replace_cfg)
  unfolding apply_label_join_runtime_value apply_label_replace_runtime_value
  apply_label_functions-Changed expand replace_cfg join_cfg samples = (
    apply_metric_change-Changed (label_join_metric join_cfg) samples,
    apply_metric_change-Changed (label_replace_metric expand replace_cfg) samples,
  )
