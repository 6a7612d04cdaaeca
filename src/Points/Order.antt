-- ===== src/Points/Order.antt =====
-- Lists of points in the order of their timestamps.
use mathlib.Core.List.{Perm}
use promshim_clickhouse.Base.{
  true, false, List, [], ◌∷◌, ◌++◌, ok, ◌≡◌, refl, ◌∙◌, sym, arith, Bool-cases, inl, inr,
  append_nil, All,
}
use promshim_clickhouse.Bytes.Sort.{sort_by, insert_sorted, sort_by-perm, All-sort_by}
use promshim_clickhouse.Floats.{Floats}
use promshim_clickhouse.Points.{
  RangePoint, has_equal_neighbours, point_less, sort_and_validate_range_points, last_point,
  append_range_points_strict,
}

-- The comparisons of float64 on numbers, which NaN is none of.
pub record IsOrdered (fl : Floats) : Type 0 where
  pub lt_asym : (a b : fl.F) → fl.lt a b ≡ true → fl.lt b a ≡ false
  pub lt_of_not_le :
      (a b : fl.F)
      → fl.is_nan a ≡ false
      → fl.is_nan b ≡ false
      → fl.le a b ≡ false
      → fl.lt b a ≡ true
  pub eq_of_not_lt :
      (a b : fl.F)
      → fl.is_nan a ≡ false
      → fl.is_nan b ≡ false
      → fl.lt a b ≡ false
      → fl.lt b a ≡ false
      → fl.eq a b ≡ true
  pub lt_irrefl_eq : (a b : fl.F) → fl.eq a b ≡ true → fl.lt b a ≡ false

module _ (fl : Floats) where
  -- Each point is later than the one before it.
  abbrev pub Increasing : List (RangePoint fl.F) → Type 0
  Increasing [] = Unit
  Increasing (p ∷ []) = Unit
  Increasing (p ∷ q ∷ rest) = (fl.lt p.timestamp q.timestamp ≡ true) × Increasing (q ∷ rest)

  -- The timestamp is not NaN.
  abbrev pub HasTime : RangePoint fl.F → Type 0
  HasTime p = fl.is_nan p.timestamp ≡ false

  last_point-HasTime :
      (p : RangePoint fl.F) (ps : List (RangePoint fl.F))
      → All HasTime (p ∷ ps)
      → HasTime (last_point fl p ps)
  unfolding last_point
  last_point-HasTime p [] h = h.0
  last_point-HasTime p (q ∷ ps) h = last_point-HasTime q ps h.1

  Increasing-join :
      (p : RangePoint fl.F) (ps : List (RangePoint fl.F)) (q : RangePoint fl.F)
      (qs : List (RangePoint fl.F))
      → Increasing (p ∷ ps)
      → fl.lt (last_point fl p ps).timestamp q.timestamp ≡ true
      → Increasing (q ∷ qs)
      → Increasing (p ∷ (ps ++ (q ∷ qs)))
  unfolding last_point
  Increasing-join p [] q qs hp h hq = (h, hq)
  Increasing-join p (p' ∷ ps) q qs hp h hq = (hp.0, Increasing-join p' ps q qs hp.1 h hq)

  module _ (laws : IsOrdered fl) where
    -- A strict merge of increasing lists of points, none of which has NaN as its timestamp, is their
    -- concatenation and increases too, where it succeeds. The comparisons order the floats that are not NaN.
    pub append_range_points_strict-Increasing :
        (existing incoming out : List (RangePoint fl.F))
        → Increasing existing
        → Increasing incoming
        → All HasTime existing
        → All HasTime incoming
        → append_range_points_strict fl existing incoming ≡ ok out
        → (out ≡ existing ++ incoming) × Increasing out
    unfolding append_range_points_strict
    append_range_points_strict-Increasing [] incoming out he hi te ti h =
        let e : out ≡ incoming = ground arith in (e, rw e hi)
    append_range_points_strict-Increasing (p ∷ ps) [] out he hi te ti h =
        let e : out ≡ p ∷ ps = ground arith in (e ∙ sym (append_nil (p ∷ ps)), rw e he)
    append_range_points_strict-Increasing (p ∷ ps) (q ∷ qs) out he hi te ti h =
        let e : out ≡ (p ∷ ps) ++ (q ∷ qs) = ground arith in
        (
          e,
          rw e (
              Increasing-join p ps q qs he
                (laws.lt_of_not_le q.timestamp (last_point fl p ps).timestamp ti.0
                  (last_point-HasTime p ps te) (ground arith))
                hi),
        )

    -- Sorted: no point is earlier than the one before it.
    abbrev InOrder : List (RangePoint fl.F) → Type 0
    InOrder [] = Unit
    InOrder (p ∷ []) = Unit
    InOrder (p ∷ q ∷ rest) = (fl.lt q.timestamp p.timestamp ≡ false) × InOrder (q ∷ rest)

    insert_sorted-InOrder :
        (p : RangePoint fl.F) (ps : List (RangePoint fl.F))
        → InOrder ps
        → InOrder (insert_sorted (point_less fl) p ps)
    unfolding insert_sorted
    insert_sorted-InOrder p [] h = tt
    insert_sorted-InOrder p (q ∷ []) h = elim (Bool-cases (point_less fl q p)) [
      | inl e ↦ rw (e, insert_sorted) (laws.lt_asym q.timestamp p.timestamp e, tt)
      | inr e ↦ rw (e, insert_sorted) (e, tt)
    ]
    insert_sorted-InOrder p (q ∷ r ∷ rest) h = elim (Bool-cases (point_less fl q p)) [
      | inl e ↦
          rw (e, insert_sorted)
            (after_head p q r rest (laws.lt_asym q.timestamp p.timestamp e) h
              (insert_sorted-InOrder p (r ∷ rest) h.1))
      | inr e ↦ rw (e, insert_sorted) (e, h)
    ]
      where
        after_head :
            (p q r : RangePoint fl.F) (rest : List (RangePoint fl.F))
            → fl.lt p.timestamp q.timestamp ≡ false
            → InOrder (q ∷ r ∷ rest)
            → InOrder (insert_sorted (point_less fl) p (r ∷ rest))
            → InOrder (q ∷ insert_sorted (point_less fl) p (r ∷ rest))
        after_head p q r rest pq h ih = elim (Bool-cases (point_less fl r p)) [
          | inl e ↦ rw (e, insert_sorted) (h.0, rw (e, insert_sorted) at ih)
          | inr e ↦ rw (e, insert_sorted) (pq, rw (e, insert_sorted) at ih)
        ]

    sort_by-InOrder : (ps : List (RangePoint fl.F)) → InOrder (sort_by (point_less fl) ps)
    unfolding sort_by
    sort_by-InOrder [] = tt
    sort_by-InOrder (p ∷ ps) =
        insert_sorted-InOrder p (sort_by (point_less fl) ps) (sort_by-InOrder ps)

    InOrder-Increasing :
        (ps : List (RangePoint fl.F))
        → InOrder ps
        → All HasTime ps
        → has_equal_neighbours fl ps ≡ false
        → Increasing ps
    unfolding has_equal_neighbours
    InOrder-Increasing [] h t e = tt
    InOrder-Increasing (p ∷ []) h t e = tt
    InOrder-Increasing (p ∷ q ∷ rest) h t e = (
      ground (arith, h.0, e, laws.eq_of_not_lt q.timestamp p.timestamp t.1.0 t.0),
      InOrder-Increasing (q ∷ rest) h.1 t.1 (ground (arith, e)),
    )

    sort_by-Increasing :
        (ps : List (RangePoint fl.F)) → Increasing ps → sort_by (point_less fl) ps ≡ ps
    unfolding sort_by insert_sorted
    sort_by-Increasing [] h = refl
    sort_by-Increasing (p ∷ []) h = refl
    sort_by-Increasing (p ∷ q ∷ rest) h =
        rw (sort_by-Increasing (q ∷ rest) h.1)
          (rw (laws.lt_asym p.timestamp q.timestamp h.0, insert_sorted) refl)

    Increasing-apart :
        (ps : List (RangePoint fl.F)) → Increasing ps → has_equal_neighbours fl ps ≡ false
    unfolding has_equal_neighbours
    Increasing-apart [] h = refl
    Increasing-apart (p ∷ []) h = refl
    Increasing-apart (p ∷ q ∷ rest) h =
        ground
          (arith, h.0, laws.lt_irrefl_eq q.timestamp p.timestamp, Increasing-apart (q ∷ rest) h.1)

    -- Of points none of which has NaN as its timestamp, what sorting and validating returns holds the same
    -- points, each later than the one before it; points that already are in this order are returned as
    -- they are. The comparisons order the floats that are not NaN.
    pub sort_and_validate_range_points_lem :
        (points : List (RangePoint fl.F))
        → All HasTime points
        → ((out : List (RangePoint fl.F))
            → sort_and_validate_range_points fl points ≡ ok out
            → Perm out points × Increasing out)
          × (Increasing points → sort_and_validate_range_points fl points ≡ ok points)
    unfolding sort_and_validate_range_points
    sort_and_validate_range_points_lem points times = (
      λ out h.
          let e : out ≡ sort_by (point_less fl) points = ground arith in
          rw e (
            sort_by-perm (point_less fl) points,
            InOrder-Increasing (sort_by (point_less fl) points) (sort_by-InOrder points)
                (All-sort_by (point_less fl) HasTime points times) (ground (arith, h)),
          ),
      λ h. rw (sort_by-Increasing points h) (rw (Increasing-apart points h) refl),
    )
