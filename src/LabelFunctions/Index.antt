-- ===== src/LabelFunctions/Index.antt =====
-- The index by LabelsKey that mergeSamplesWithSameLabelset builds, or its error.
use promshim_clickhouse.Base.{
  true, false, List, [], ◌∷◌, ◌++◌, map, none, ◌≡◌, refl, sym, ◌∙◌, ap, arith, Bool-cases,
  Option-cases, inl, inr, Result, ok, err, append_nil,
}
use mathlib.Core.List.{append_assoc}
use promshim_clickhouse.Bytes.{Bytes, bytes_eq, bytes_eq_iff, bytes_eq_refl}
use promshim_clickhouse.Bytes.Sort.{contains, Distinct}
use promshim_clickhouse.Bytes.Dict.{keys, lookup, store, contains-keys, contains-keys-store}
use promshim_clickhouse.Labels.{labels_key}
use promshim_clickhouse.Floats.{Floats}
use promshim_clickhouse.Matching.Join.{Sample}
use promshim_clickhouse.LabelFunctions.{Error, index_samples}

module _ (fl : Floats) where
  abbrev pub key_of : Sample fl → Bytes
  key_of s = labels_key s.metric

  abbrev pub entries : List (Sample fl) → List (Bytes × Sample fl)
  entries = map (λ s. (key_of s, s))

  -- The keys of a vector.
  abbrev pub vector_keys : List (Sample fl) → List Bytes
  vector_keys = map key_of

  store_absent :
      (d : List (Bytes × Sample fl)) (k : Bytes) (s : Sample fl)
      → lookup d k ≡ none
      → store d k s ≡ d ++ ((k, s) ∷ [])
  unfolding store lookup
  store_absent [] k s h = refl
  store_absent ((j, t) ∷ d) k s h = elim (Bool-cases (bytes_eq k j)) [
    | inl e ↦ ground (arith, e, h)
    | inr e ↦ rw (e, store) (ap (λ l. (j, t) ∷ l) (store_absent d k s (ground (arith, e, h))))
  ]

  -- What indexing the samples comes to, where the entries before them are `merged`.
  abbrev pub Indexed :
      List (Bytes × Sample fl) → List (Sample fl) → Result Error (List (Bytes × Sample fl)) → Type 0
  Indexed merged samples (ok last) =
      (last ≡ merged ++ entries samples)
      × Distinct (vector_keys samples)
      × ((k : Bytes) → contains k (keys merged) ≡ true → contains k (vector_keys samples) ≡ false)
  Indexed merged samples (err e) =
      (Distinct (vector_keys samples)
        × ((k : Bytes)
            → contains k (keys merged) ≡ true
            → contains k (vector_keys samples) ≡ false))
      → ⊥

  Indexed-cons :
      (merged : List (Bytes × Sample fl)) (s : Sample fl) (samples : List (Sample fl))
      (r : Result Error (List (Bytes × Sample fl)))
      → lookup merged (key_of s) ≡ none
      → Indexed (store merged (key_of s) s) samples r
      → Indexed merged (s ∷ samples) r
  Indexed-cons merged s samples (ok last) h (e, distinct, apart) =
      let grown = contains-keys-store merged (key_of s) s in
      (
        e
            ∙ ap (λ l. l ++ entries samples) (store_absent merged (key_of s) s h)
            ∙ append_assoc merged ((key_of s, s) ∷ []) (entries samples),
        (apart (key_of s) (grown (key_of s) ∙ rw (bytes_eq_refl (key_of s)) refl), distinct),
        λ k c. ground (
          arith,
          c,
          apart k,
          grown k,
          h,
          contains-keys merged (key_of s),
          bytes_eq_iff k (key_of s),
        ),
      )
  Indexed-cons merged s samples (err e) h refuse = λ both. refuse (
    both.0.1,
    λ k c. ground (
      arith,
      c,
      both.0.0,
      both.1 k,
      contains-keys-store merged (key_of s) s k,
      bytes_eq_iff k (key_of s),
    ),
  )

  pub index_samples-Indexed :
      (merged : List (Bytes × Sample fl)) (samples : List (Sample fl))
      → Indexed merged samples (index_samples fl merged samples)
  unfolding index_samples
  index_samples-Indexed merged [] = (sym (append_nil merged), tt, λ k c. refl)
  index_samples-Indexed merged (s ∷ samples) = elim (Option-cases (lookup merged (key_of s))) [
    | inl e ↦
        rw (e, index_samples)
          (Indexed-cons merged s samples _ e
            (index_samples-Indexed (store merged (key_of s) s) samples))
    | inr (old, e) ↦
        rw (e, index_samples)
          (λ both. ground (
            arith,
            both.1 (key_of s),
            contains-keys merged (key_of s),
            e,
            bytes_eq_refl (key_of s),
          ))
  ]
