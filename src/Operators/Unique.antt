-- ===== src/Operators/Unique.antt =====
-- ensureUniqueInstantLabelsets accepts exactly the vectors that have no label set twice.
use promshim_clickhouse.Base.{
  ◌≡◌, refl, List, [], ◌∷◌, map, true, false, Bool-cases, inl, inr, ok, ◌↔◌, arith,
}
use promshim_clickhouse.Bytes.{Bytes, bytes_eq_iff, bytes_eq_refl}
use promshim_clickhouse.Bytes.Sort.{contains, Distinct}
use promshim_clickhouse.Labels.{labels_key}
use promshim_clickhouse.Floats.{Floats}
use promshim_clickhouse.Matching.Join.{Sample}
use promshim_clickhouse.Operators.{ensure_unique_from, ensure_unique_instant_labelsets}

module _ (fl : Floats) where
  abbrev pub sample_keys : List (Sample fl) → List Bytes
  sample_keys = map (λ s. labels_key s.metric)

  ensure_unique_from_sound :
      (seen : List Bytes) (samples : List (Sample fl))
      → ensure_unique_from fl seen samples ≡ ok tt
      → Distinct (sample_keys samples)
        × ((k : Bytes) → contains k seen ≡ true → contains k (sample_keys samples) ≡ false)
  unfolding ensure_unique_from
  ensure_unique_from_sound seen [] h = (tt, λ k c. refl)
  ensure_unique_from_sound seen (s ∷ rest) h =
      elim (Bool-cases (contains (labels_key s.metric) seen)) [
        | inl e ↦ ground (arith, e, h)
        | inr e ↦
            let (distinct, apart) =
              ensure_unique_from_sound (labels_key s.metric ∷ seen) rest (rw e at h) in
            (
              (
                apart (labels_key s.metric) (rw (bytes_eq_refl (labels_key s.metric)) refl),
                distinct,
              ),
              λ k c. ground (arith, c, e, apart k, bytes_eq_iff k (labels_key s.metric)),
            )
      ]

  ensure_unique_from_complete :
      (seen : List Bytes) (samples : List (Sample fl))
      → Distinct (sample_keys samples)
      → ((k : Bytes) → contains k seen ≡ true → contains k (sample_keys samples) ≡ false)
      → ensure_unique_from fl seen samples ≡ ok tt
  unfolding ensure_unique_from
  ensure_unique_from_complete seen [] distinct apart = refl
  ensure_unique_from_complete seen (s ∷ rest) distinct apart =
      let key = labels_key s.metric in
      elim (Bool-cases (contains key seen)) [
        | inl e ↦ ground (arith, apart key e, bytes_eq_refl key)
        | inr e ↦ rw e (
            ensure_unique_from_complete (key ∷ seen) rest distinct.1
              (λ k c. ground (arith, c, apart k, distinct.0, bytes_eq_iff k key)))
      ]

  -- The check passes exactly where no two samples of the vector have the same LabelsKey.
  ensure_unique_instant_labelsets_iff :
      (samples : List (Sample fl))
      → (ensure_unique_instant_labelsets fl samples ≡ ok tt) ↔ Distinct (sample_keys samples)
  unfolding ensure_unique_instant_labelsets
  ensure_unique_instant_labelsets_iff [] = (λ h. tt, λ d. refl)
  ensure_unique_instant_labelsets_iff (s ∷ []) = (λ h. (refl, tt), λ d. refl)
  ensure_unique_instant_labelsets_iff (s ∷ t ∷ rest) = (
    λ h. (ensure_unique_from_sound [] (s ∷ t ∷ rest) h).0,
    λ d. ensure_unique_from_complete [] (s ∷ t ∷ rest) d (λ k c. ground (arith, c)),
  )
