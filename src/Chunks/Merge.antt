-- ===== src/Chunks/Merge.antt =====
-- Merging two matrices appends, series by series, the points of the right one to those of the left.
use mathlib.Core.List.{append_assoc}
use promshim_clickhouse.Base.{
  true, false, List, [], ◌∷◌, ◌++◌, map, Option, none, some, ok, ok_parts, ◌≡◌, refl, ◌∙◌, sym, ap,
  arith, Bool-cases, Option-cases, inl, inr, if◌then◌else◌, append_nil, Result-cases, subst, ap₂,
}
use promshim_clickhouse.Bytes.{
  Bytes, bytes_eq, bytes_lt, bytes_eq_iff, bytes_eq_sound, bytes_eq_refl,
}
use promshim_clickhouse.Bytes.Sort.{contains, any-sort_by, Distinct, sort_strings-Distinct}
use promshim_clickhouse.Bytes.Dict
use promshim_clickhouse.Bytes.Dict.{lookup-store, contains-keys-store}
use promshim_clickhouse.Labels.{labels_key}
use promshim_clickhouse.Floats.{Floats}
use promshim_clickhouse.Points.{RangePoint, append_range_points_strict}
use promshim_clickhouse.Chunks.{Series, index_left, merge_series, merge_right, merge_matrix_values}

module _ (fl : Floats) where
  abbrev pub series_keys : List (Series fl) → List Bytes
  series_keys = map (λ s. labels_key s.metric)

  -- The points of the label set with the given key; none where the matrix has no such series.
  unfoldable pub points_at : List (Series fl) → Bytes → List (RangePoint fl.F)
  points_at [] k = []
  points_at (s ∷ rest) k = if bytes_eq k (labels_key s.metric) then s.values else points_at rest k

  abbrev pub values_of : Option (Series fl) → List (RangePoint fl.F)
  values_of none = []
  values_of (some s) = s.values

  -- Each series is stored under the key of its own label set.
  IsKeyed : List (Bytes × Series fl) → Type 0
  IsKeyed d = (k : Bytes) (s : Series fl) → Dict.lookup d k ≡ some s → labels_key s.metric ≡ k

  pub points_at-absent :
      (m : List (Series fl)) (k : Bytes) → contains k (series_keys m) ≡ false → points_at m k ≡ []
  unfolding points_at
  points_at-absent [] k h = refl
  points_at-absent (s ∷ rest) k h = ground (arith, points_at-absent rest k)

  pub lookup-index_left :
      (merged : List (Bytes × Series fl)) (left : List (Series fl)) (k : Bytes)
      → Distinct (series_keys left)
      → values_of (Dict.lookup (index_left fl merged left) k) ≡ (
          if contains k (series_keys left)
          then points_at left k
          else values_of (Dict.lookup merged k))
  unfolding index_left points_at
  lookup-index_left merged [] k d = refl
  lookup-index_left merged (s ∷ rest) k d =
      lookup-index_left (Dict.store merged (labels_key s.metric) s) rest k d.1
      ∙ ground (
        arith,
        lookup-store merged (labels_key s.metric) s k,
        bytes_eq_iff (labels_key s.metric) k,
        bytes_eq_iff k (labels_key s.metric),
        d.0,
      )

  store-IsKeyed :
      (d : List (Bytes × Series fl)) (s : Series fl) (k : Bytes)
      → labels_key s.metric ≡ k
      → IsKeyed d
      → IsKeyed (Dict.store d k s)
  unfolding IsKeyed
  store-IsKeyed d s k h keyed j t e = elim (Bool-cases (bytes_eq k j)) [
    | inl q ↦
        let same : s ≡ t = ground (arith, lookup-store d k s j, e, q) in
        ap (λ z. labels_key z.metric) (sym same) ∙ h ∙ bytes_eq_sound k j q
    | inr q ↦ keyed j t (ground (arith, lookup-store d k s j, e, q))
  ]

  index_left-IsKeyed :
      (merged : List (Bytes × Series fl)) (left : List (Series fl))
      → IsKeyed merged
      → IsKeyed (index_left fl merged left)
  unfolding index_left
  index_left-IsKeyed merged [] h = h
  index_left-IsKeyed merged (s ∷ rest) h =
      index_left-IsKeyed (Dict.store merged (labels_key s.metric) s) rest
        (store-IsKeyed merged s (labels_key s.metric) refl h)

  strict-append :
      (a b out : List (RangePoint fl.F)) → append_range_points_strict fl a b ≡ ok out → out ≡ a ++ b
  unfolding append_range_points_strict
  strict-append [] b out h = ground arith
  strict-append (p ∷ ps) [] out h = ground (arith, append_nil (p ∷ ps))
  strict-append (p ∷ ps) (q ∷ qs) out h = ground arith

  abbrev own : Series fl → Bytes → List (RangePoint fl.F)
  own s k = if bytes_eq k (labels_key s.metric) then s.values else []

  -- What one series of the right matrix does: its key gets its points at the end, every other key
  -- keeps its own.
  Appends :
      List (Bytes × Series fl)
      → List (Bytes × Series fl)
      → (Bytes → List (RangePoint fl.F))
      → Type 0
  Appends d d' added =
      IsKeyed d'
      × Distinct (Dict.keys d')
      × ((k : Bytes) → values_of (Dict.lookup d' k) ≡ values_of (Dict.lookup d k) ++ added k)

  store-Appends :
      (d : List (Bytes × Series fl)) (s t : Series fl)
      → IsKeyed d
      → Distinct (Dict.keys d)
      → labels_key t.metric ≡ labels_key s.metric
      → t.values ≡ values_of (Dict.lookup d (labels_key s.metric)) ++ s.values
      → Appends d (Dict.store d (labels_key s.metric) t) (own s)
  unfolding Appends
  store-Appends d s t keyed distinct same values = (
    store-IsKeyed d t (labels_key s.metric) same keyed,
    Dict.store-Distinct d (labels_key s.metric) t distinct,
    λ k. elim (Bool-cases (bytes_eq k (labels_key s.metric))) [
      | inl e ↦
          let q = bytes_eq_sound k (labels_key s.metric) e in
          ap values_of (lookup-store d (labels_key s.metric) t k)
          ∙ rw q (ground (arith, values, bytes_eq_refl (labels_key s.metric)))
      | inr e ↦
          ap values_of (lookup-store d (labels_key s.metric) t k)
          ∙ ground (
            arith,
            e,
            bytes_eq_iff (labels_key s.metric) k,
            bytes_eq_iff k (labels_key s.metric),
            append_nil (values_of (Dict.lookup d k)),
          )
    ],
  )

  merge_series_lem :
      (d d' : List (Bytes × Series fl)) (s : Series fl)
      → IsKeyed d
      → Distinct (Dict.keys d)
      → merge_series fl d s ≡ ok d'
      → Appends d d' (own s)
  unfolding merge_series IsKeyed
  merge_series_lem d d' s keyed distinct h =
      elim (Option-cases (Dict.lookup d (labels_key s.metric))) [
        | inl e ↦
            let same : Dict.store d (labels_key s.metric) s ≡ d' = ground (arith, e, h) in
            subst (λ z. Appends d z (own s)) same
              (store-Appends d s s keyed distinct refl (ground (arith, e)))
        | inr (t, e) ↦ elim (Result-cases (append_range_points_strict fl t.values s.values)) [
          | inl (vs, a) ↦
              let same : Dict.store d (labels_key s.metric) (record t { values = vs }) ≡ d' =
                ground (arith, e, h, a) in
              subst (λ z. Appends d z (own s)) same
                (store-Appends d s (record t { values = vs }) keyed distinct
                  (keyed (labels_key s.metric) t e)
                  (ground (arith, e, strict-append t.values s.values vs a)))
          | inr (_, a) ↦ ground (arith, e, h, a)
        ]
      ]

  -- The points of every series of the list with the key.
  abbrev all_points : List (Series fl) → Bytes → List (RangePoint fl.F)
  all_points [] k = []
  all_points (s ∷ rest) k = own s k ++ all_points rest k

  all_points_lem :
      (m : List (Series fl)) (k : Bytes) → Distinct (series_keys m) → all_points m k ≡ points_at m k
  unfolding points_at
  all_points_lem [] k d = refl
  all_points_lem (s ∷ rest) k d = elim (Bool-cases (bytes_eq k (labels_key s.metric))) [
    | inl e ↦
        let absent : contains k (series_keys rest) ≡ false =
          rw (bytes_eq_sound k (labels_key s.metric) e) d.0 in
        rw (e, points_at)
          (rw (all_points_lem rest k d.1, points_at-absent rest k absent) (append_nil s.values))
    | inr e ↦ rw (e, points_at) (all_points_lem rest k d.1)
  ]

  merge_right_lem :
      (d d' : List (Bytes × Series fl)) (right : List (Series fl))
      → IsKeyed d
      → Distinct (Dict.keys d)
      → merge_right fl d right ≡ ok d'
      → Appends d d' (all_points right)
  unfolding merge_right Appends
  merge_right_lem d d' [] keyed distinct h =
      let same : d ≡ d' = ground arith in
      subst (λ z. Appends d z (λ k. [])) same (keyed, distinct, λ k. sym (append_nil _))
  merge_right_lem d d' (s ∷ rest) keyed distinct h =
      let (e, one, more) = ok_parts (merge_series fl d s) _ h in
      let (keyed', distinct', first) = merge_series_lem d e s keyed distinct one in
      let (keyed'', distinct'', others) = merge_right_lem e d' rest keyed' distinct' more in
      (
        keyed'',
        distinct'',
        λ k.
            others k
            ∙ ap (λ z. z ++ all_points rest k) (first k)
            ∙ append_assoc (values_of (Dict.lookup d k)) (own s k) (all_points rest k),
      )

  points_at-values_at :
      (d : List (Bytes × Series fl)) (ks : List Bytes) (k : Bytes)
      → IsKeyed d
      → points_at (Dict.values_at d ks) k
        ≡ (if contains k ks then values_of (Dict.lookup d k) else [])
  unfolding points_at Dict.values_at IsKeyed
  points_at-values_at d [] k keyed = refl
  points_at-values_at d (j ∷ ks) k keyed = elim (Option-cases (Dict.lookup d j)) [
    | inl e ↦
        rw (e, Dict.values_at)
          (points_at-values_at d ks k keyed ∙ ground (arith, e, bytes_eq_iff k j))
    | inr (s, e) ↦
        rw (e, Dict.values_at)
          (ground (arith, e, keyed j s, bytes_eq_iff k j, points_at-values_at d ks k keyed))
  ]

  contains-values_at :
      (d : List (Bytes × Series fl)) (ks : List Bytes) (k : Bytes)
      → IsKeyed d
      → contains k (series_keys (Dict.values_at d ks)) ≡ true
      → contains k ks ≡ true
  unfolding Dict.values_at IsKeyed
  contains-values_at d [] k keyed h = h
  contains-values_at d (j ∷ ks) k keyed h = elim (Option-cases (Dict.lookup d j)) [
    | inl e ↦ ground (arith, contains-values_at d ks k keyed (rw (e, Dict.values_at) at h))
    | inr (s, e) ↦ ground (arith, h, e, keyed j s e, contains-values_at d ks k keyed)
  ]

  values_at-Distinct :
      (d : List (Bytes × Series fl)) (ks : List Bytes)
      → IsKeyed d
      → Distinct ks
      → Distinct (series_keys (Dict.values_at d ks))
  unfolding Dict.values_at IsKeyed
  values_at-Distinct d [] keyed h = tt
  values_at-Distinct d (j ∷ ks) keyed h = elim (Option-cases (Dict.lookup d j)) [
    | inl e ↦ rw (e, Dict.values_at) (values_at-Distinct d ks keyed h.1)
    | inr (s, e) ↦
        rw (e, Dict.values_at)
          (
            ground (arith, keyed j s e, h.0, contains-values_at d ks (labels_key s.metric) keyed),
            values_at-Distinct d ks keyed h.1,
          )
  ]

  abbrev merged_values : List (Bytes × Series fl) → List (Series fl)
  merged_values d = Dict.values_at d (Dict.sorted_map_keys d)

  points_at-merged_values :
      (d : List (Bytes × Series fl)) (k : Bytes)
      → IsKeyed d
      → points_at (merged_values d) k ≡ values_of (Dict.lookup d k)
  unfolding Dict.sorted_map_keys
  points_at-merged_values d k keyed =
      points_at-values_at d (Dict.sorted_map_keys d) k keyed
      ∙ ground (arith, any-sort_by bytes_lt (bytes_eq k) (Dict.keys d), Dict.contains-keys d k)

  index_left-Distinct :
      (d : List (Bytes × Series fl)) (left : List (Series fl))
      → Distinct (Dict.keys d)
      → Distinct (Dict.keys (index_left fl d left))
  unfolding index_left
  index_left-Distinct d [] h = h
  index_left-Distinct d (s ∷ rest) h =
      index_left-Distinct (Dict.store d (labels_key s.metric) s) rest
        (Dict.store-Distinct d (labels_key s.metric) s h)

  -- A merge of two matrices that have no label set twice: in the result, which has none twice either,
  -- the points of each label set are those of the left matrix followed by those of the right one.
  pub merge_matrix_values_lem :
      (left right out : List (Series fl))
      → Distinct (series_keys left)
      → Distinct (series_keys right)
      → merge_matrix_values fl left right ≡ ok out
      → Distinct (series_keys out)
        × ((k : Bytes) → points_at out k ≡ points_at left k ++ points_at right k)
  unfolding merge_matrix_values Appends IsKeyed
  merge_matrix_values_lem [] right out dl dr h =
      let same : right ≡ out = ground arith in
      subst
        (λ z.
          Distinct (series_keys z)
          × ((k : Bytes) → points_at z k ≡ points_at [] k ++ points_at right k))
        same (dr, λ k. unfold points_at in refl)
  merge_matrix_values_lem (l ∷ left) right out dl dr h =
      let start = index_left fl [] (l ∷ left) in
      let (d, merged, sorted) = ok_parts (merge_right fl start right) _ h in
      let (keyed, distinct, points) =
        merge_right_lem start d right (index_left-IsKeyed [] (l ∷ left) nothing_stored)
          (index_left-Distinct [] (l ∷ left) tt) merged in
      let same : merged_values d ≡ out = ground (arith, sorted) in
      subst
        (λ z.
          Distinct (series_keys z)
          × ((k : Bytes) → points_at z k ≡ points_at (l ∷ left) k ++ points_at right k))
        same
        (
          values_at-Distinct d (Dict.sorted_map_keys d) keyed
              (unfold Dict.sorted_map_keys in sort_strings-Distinct (Dict.keys d) distinct),
          λ k.
              points_at-merged_values d k keyed
              ∙ points k
              ∙ ap₂ (λ a b. a ++ b) (left_points k) (all_points_lem right k dr),
        )
    where
      nothing_stored : IsKeyed []
      nothing_stored k s e = let e' : none ≡ some s = unfold Dict.lookup in e in cc

      left_points :
          (k : Bytes)
          → values_of (Dict.lookup (index_left fl [] (l ∷ left)) k) ≡ points_at (l ∷ left) k
      left_points k =
          lookup-index_left [] (l ∷ left) k dl
          ∙ ground (arith, points_at-absent (l ∷ left) k, empty_at k)
        where
          empty_at : (k : Bytes) → Dict.lookup {V = Series fl} [] k ≡ none
          empty_at k = unfold Dict.lookup in refl
