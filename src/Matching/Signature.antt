-- ===== src/Matching/Signature.antt =====
-- What a signature stands for: two samples have one signature exactly when they agree on the labels
-- that the matching compares.
use promshim_clickhouse.Base.{
  Bool, true, not, ◌||◌, List, [], ◌∷◌, none, if◌then◌else◌, ◌≡◌, ◌↔◌, ◌⊎◌, inl, inr, ◌∙◌, arith,
  All, Bool-cases,
}
use promshim_clickhouse.Bytes.{Bytes, bytes_eq, bytes_eq_iff}
use promshim_clickhouse.Bytes.Sort.{contains}
use promshim_clickhouse.Labels.{Metric, InstantSample, IsMap, get, metric_name}
use promshim_clickhouse.Labels.Maps.{
  get-copy_labels, get-without_keys, copy_labels-IsMap, without_keys-IsMap,
}
use promshim_clickhouse.Labels.Key.{IsPlain, labels_key_iff}
use promshim_clickhouse.Labels.Grouping.{copy_labels-IsPlain, without_keys-IsPlain}
use promshim_clickhouse.Matching.{
  VectorMatching, vector_match_group_labels, vector_match_signature, signatures,
}

-- A label set as the storage hands it out: one value for a name, and no separator bytes.
abbrev pub IsLabelSet : Metric → Type 0
IsLabelSet m = IsMap m × IsPlain m

module _ {F : Type 0} (m : VectorMatching F) where
  -- The names that the matching compares.
  abbrev pub compared : Bytes → Bool
  compared k =
      if m.on
      then contains k m.matching_labels
      else not (bytes_eq k metric_name || contains k m.matching_labels)

  -- The two label sets agree on each compared name: the same value, or none in both.
  abbrev pub Agree : Metric → Metric → Type 0
  Agree a b = (k : Bytes) → compared k ≡ true → get a k ≡ get b k

  get-group_labels :
      (a : Metric) (k : Bytes)
      → get (vector_match_group_labels a m) k ≡ (if compared k then get a k else none)
  unfolding vector_match_group_labels get
  get-group_labels a k = elim (Bool-cases m.on) [
    | inl e ↦
        rw (e, vector_match_group_labels) (get-copy_labels a m.matching_labels [] k ∙ ground arith)
    | inr e ↦
        rw (e, vector_match_group_labels)
          (get-without_keys (metric_name ∷ m.matching_labels) a k ∙ ground arith)
  ]

  group_labels-IsLabelSet : (a : Metric) → IsLabelSet a → IsLabelSet (vector_match_group_labels a m)
  unfolding vector_match_group_labels
  group_labels-IsLabelSet a h = elim (Bool-cases m.on) [
    | inl e ↦
        rw (e, vector_match_group_labels)
          (
            copy_labels-IsMap a m.matching_labels [] tt,
            copy_labels-IsPlain a m.matching_labels [] h.1 tt,
          )
    | inr e ↦
        rw (e, vector_match_group_labels)
          (
            without_keys-IsMap (metric_name ∷ m.matching_labels) a h.0,
            without_keys-IsPlain (metric_name ∷ m.matching_labels) a h.1,
          )
  ]

  -- The signatures of two label sets are equal exactly when the sets agree on the compared names: with
  -- `on` the listed ones, otherwise all but the metric name and the listed ones.
  pub signature_iff :
      (a b : Metric)
      → IsLabelSet a
      → IsLabelSet b
      → (vector_match_signature a m ≡ vector_match_signature b m) ↔ Agree a b
  unfolding vector_match_signature
  signature_iff a b ha hb =
      let ga = group_labels-IsLabelSet a ha in
      let gb = group_labels-IsLabelSet b hb in
      let keys = labels_key_iff _ _ ga.0 gb.0 ga.1 gb.1 in
      (
        λ e k c. ground (arith, get-group_labels a k, get-group_labels b k, keys.0 e k, c),
        λ agree. keys.1 λ k. elim (Bool-cases (compared k)) [
          | inl c ↦ ground (arith, get-group_labels a k, get-group_labels b k, agree k c)
          | inr c ↦ ground (arith, get-group_labels a k, get-group_labels b k, c)
        ],
      )

  -- Some sample of the list agrees with the label set.
  abbrev pub HasPartner : Metric → List (InstantSample F) → Type 0
  HasPartner a [] = ⊥
  HasPartner a (s ∷ rest) = Agree a s.metric ⊎ HasPartner a rest

  abbrev pub AreLabelSets : List (InstantSample F) → Type 0
  AreLabelSets = All (λ s. IsLabelSet s.metric)

  pub contains-signatures :
      (a : Metric) (samples : List (InstantSample F))
      → IsLabelSet a
      → AreLabelSets samples
      → (contains (vector_match_signature a m) (signatures m samples) ≡ true) ↔ HasPartner a samples
  contains-signatures a [] ha hs = (λ e. ground (arith, e), λ h. absurd h)
  contains-signatures a (s ∷ rest) ha hs =
      let head = signature_iff a s.metric ha hs.0 in
      let tail = contains-signatures a rest ha hs.1 in
      let same = bytes_eq_iff (vector_match_signature a m) (vector_match_signature s.metric m) in
      (
        λ e.
            elim (Bool-cases
              (bytes_eq (vector_match_signature a m) (vector_match_signature s.metric m))) [
                | inl q ↦ inl (head.0 (same.0 q))
                | inr q ↦ inr (tail.0 (ground (arith, e, q)))
              ],
        elim [
          | inl agree ↦ ground (arith, same.1 (head.1 agree))
          | inr h ↦ ground (arith, tail.1 h)
        ],
      )
