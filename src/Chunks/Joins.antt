-- ===== src/Chunks/Joins.antt =====
-- Merges of matrices whose points follow one another in time succeed.
use promshim_clickhouse.Base.{
  ℕ, List, [], ◌∷◌, ◌++◌, ok, ◌≡◌, refl, ◌∙◌, sym, ap, arith, All, Bool-cases, Option-cases, inl,
  inr, false, subst,
}
use promshim_clickhouse.Bytes.{Bytes, bytes_eq, bytes_eq_iff, bytes_eq_sound, bytes_eq_refl}
use promshim_clickhouse.Bytes.Sort.{Distinct}
use promshim_clickhouse.Bytes.Dict
use promshim_clickhouse.Bytes.Dict.{lookup-store}
use promshim_clickhouse.Labels.{labels_key}
use promshim_clickhouse.Floats.{Floats}
use promshim_clickhouse.Points.{RangePoint, append_range_points_strict, last_point}
use promshim_clickhouse.Chunks.{Series, index_left, merge_series, merge_right, merge_matrix_values}
use promshim_clickhouse.Chunks.Merge.{
  series_keys, points_at, points_at-absent, values_of, lookup-index_left,
}
use promshim_clickhouse.Chunks.Execute.{points_over}

pub All-parts :
    {A : Type 0} (P : A → Type 0) (xs ys : List A) → All P (xs ++ ys) → All P xs × All P ys
All-parts P [] ys h = (tt, h)
All-parts P (x ∷ xs) ys h = let (a, b) = All-parts P xs ys h.1 in ((h.0, a), b)

module _ (fl : Floats) where
  -- The strict merge of the two lists of points succeeds.
  abbrev pub Joins : List (RangePoint fl.F) → List (RangePoint fl.F) → Type 0
  Joins a b = (out : List (RangePoint fl.F)) × (append_range_points_strict fl a b ≡ ok out)

  Joins-nil : (a : List (RangePoint fl.F)) → Joins a []
  unfolding append_range_points_strict
  Joins-nil [] = ([], refl)
  Joins-nil (p ∷ a) = (p ∷ a, refl)

  merge_series-total :
      (d : List (Bytes × Series fl)) (s : Series fl)
      → Joins (values_of fl (Dict.lookup d (labels_key s.metric))) s.values
      → (v : Series fl) × (merge_series fl d s ≡ ok (Dict.store d (labels_key s.metric) v))
  unfolding merge_series
  merge_series-total d s (out, h) = elim (Option-cases (Dict.lookup d (labels_key s.metric))) [
    | inl e ↦ (s, rw (e, merge_series) refl)
    | inr (existing, e) ↦
        let joined : append_range_points_strict fl existing.values s.values ≡ ok out = rw e at h in
        (record existing { values = out }, rw (e, merge_series) (rw joined refl))
  ]

  merge_right-total :
      (d : List (Bytes × Series fl)) (right : List (Series fl))
      → Distinct (series_keys fl right)
      → ((k : Bytes) → Joins (values_of fl (Dict.lookup d k)) (points_at fl right k))
      → (d' : List (Bytes × Series fl)) × (merge_right fl d right ≡ ok d')
  unfolding merge_right points_at
  merge_right-total d [] distinct joins = (d, refl)
  merge_right-total d (s ∷ rest) distinct joins =
      let key = labels_key s.metric in
      let own : Joins (values_of fl (Dict.lookup d key)) s.values =
        rw (bytes_eq_refl key) at (joins key) in
      let (v, one) = merge_series-total d s own in
      rw one (
        merge_right-total (Dict.store d key v) rest distinct.1 λ k.
          elim (Bool-cases (bytes_eq key k)) [
            | inl e ↦
                let absent : points_at fl rest k ≡ [] =
                  points_at-absent fl rest k (rw (← bytes_eq_sound key k e) distinct.0) in
                rw absent (Joins-nil _)
            | inr e ↦
                subst (λ z. Joins z (points_at fl rest k)) (sym (elsewhere d v key k e)) (later k e)
          ])
    where
      elsewhere :
          (d : List (Bytes × Series fl)) (v : Series fl) (key k : Bytes)
          → bytes_eq key k ≡ false
          → values_of fl (Dict.lookup (Dict.store d key v) k) ≡ values_of fl (Dict.lookup d k)
      elsewhere d v key k e =
          let found : Dict.lookup (Dict.store d key v) k ≡ Dict.lookup d k =
            ground (arith, lookup-store d key v k, e) in
          ap (values_of fl) found

      later :
          (k : Bytes)
          → bytes_eq (labels_key s.metric) k ≡ false
          → Joins (values_of fl (Dict.lookup d k)) (points_at fl rest k)
      later k e =
          let other : bytes_eq k (labels_key s.metric) ≡ false =
            ground (arith, e, bytes_eq_iff k (labels_key s.metric), bytes_eq_refl k) in
          rw other at (joins k)

  indexed :
      (left : List (Series fl)) (k : Bytes)
      → Distinct (series_keys fl left)
      → values_of fl (Dict.lookup (index_left fl [] left) k) ≡ points_at fl left k
  unfolding Dict.lookup
  indexed left k distinct =
      lookup-index_left fl [] left k distinct ∙ ground (arith, points_at-absent fl left k)

  pub merge_matrix_values-total :
      (left right : List (Series fl))
      → Distinct (series_keys fl left)
      → Distinct (series_keys fl right)
      → ((k : Bytes) → Joins (points_at fl left k) (points_at fl right k))
      → (out : List (Series fl)) × (merge_matrix_values fl left right ≡ ok out)
  unfolding merge_matrix_values
  merge_matrix_values-total [] right dl dr joins = (right, refl)
  merge_matrix_values-total (l ∷ left) right dl dr joins =
      let (d', e) = merge_right-total (index_left fl [] (l ∷ left)) right dr (λ k.
        subst (λ z. Joins z (points_at fl right k)) (sym (indexed (l ∷ left) k dl)) (joins k)) in
      (Dict.values_at d' (Dict.sorted_map_keys d'), rw e refl)

  -- Each point over a time carries that time's timestamp.
  abbrev pub IsStamped : (ℕ → fl.F) → (ℕ → List (RangePoint fl.F)) → Type 0
  IsStamped stamp f = (t : ℕ) → All (λ p. p.timestamp ≡ stamp t) (f t)

  module _ (stamp : ℕ → fl.F) where
    -- The timestamp of the second time is after that of the first.
    abbrev pub Before : ℕ → ℕ → Type 0
    Before t u = fl.le (stamp u) (stamp t) ≡ false

    -- Each time is before the later ones of the list.
    abbrev pub Ascending : List ℕ → Type 0
    Ascending [] = Unit
    Ascending (t ∷ ts) = All (Before t) ts × Ascending ts

    -- The point stands at some time with the property.
    abbrev At : (ℕ → Type 0) → RangePoint fl.F → Type 0
    At P p = (t : ℕ) × P t × (p.timestamp ≡ stamp t)

    All-concat :
        {A : Type 0} (P : A → Type 0) (xs ys : List A) → All P xs → All P ys → All P (xs ++ ys)
    All-concat P [] ys h k = k
    All-concat P (x ∷ xs) ys h k = (h.0, All-concat P xs ys h.1 k)

    All-At :
        (P : ℕ → Type 0) (t : ℕ) (ps : List (RangePoint fl.F))
        → P t
        → All (λ p. p.timestamp ≡ stamp t) ps
        → All (At P) ps
    All-At P t [] h k = tt
    All-At P t (p ∷ ps) h k = ((t, h, k.0), All-At P t ps h k.1)

    points_over-At :
        (f : ℕ → List (RangePoint fl.F)) (P : ℕ → Type 0) (ts : List ℕ)
        → IsStamped stamp f
        → All P ts
        → All (At P) (points_over f ts)
    points_over-At f P [] stamped h = tt
    points_over-At f P (t ∷ ts) stamped h =
        All-concat (At P) (f t) (points_over f ts) (All-At P t (f t) h.0 (stamped t))
          (points_over-At f P ts stamped h.1)

    last_point-At :
        (P : ℕ → Type 0) (p : RangePoint fl.F) (ps : List (RangePoint fl.F))
        → All (At P) (p ∷ ps)
        → At P (last_point fl p ps)
    unfolding last_point
    last_point-At P p [] h = h.0
    last_point-At P p (q ∷ ps) h = last_point-At P q ps h.1

    pub points_over-Joins :
        (f : ℕ → List (RangePoint fl.F)) (xs ys : List ℕ)
        → IsStamped stamp f
        → All (λ x. All (Before x) ys) xs
        → Joins (points_over f xs) (points_over f ys)
    points_over-Joins f xs ys stamped before =
        joins (points_over f xs) (points_over f ys) (points_over-At f _ xs stamped before)
          (λ t h. points_over-At f (Before t) ys stamped h)
      where
        joins :
            (a b : List (RangePoint fl.F))
            → All (At (λ x. All (Before x) ys)) a
            → ((t : ℕ) → All (Before t) ys → All (At (Before t)) b)
            → Joins a b
        joins [] b ha hb = (b, unfold append_range_points_strict in refl)
        joins (p ∷ a) [] ha hb = Joins-nil (p ∷ a)
        joins (p ∷ a) (q ∷ b) ha hb =
            let (t, below, at_t) = last_point-At _ p a ha in
            let (u, lt, at_u) = (hb t below).0 in
            let apart : fl.le q.timestamp (last_point fl p a).timestamp ≡ false =
              rw (at_t, at_u) lt in
            ((p ∷ a) ++ (q ∷ b), unfold append_range_points_strict in rw apart refl)
