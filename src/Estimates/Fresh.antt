-- ===== src/Estimates/Fresh.antt =====
-- What applyCachedSelectorEstimates of internal/promshim/selector_estimates.go makes of the cache.
use promshim_clickhouse.Base.{
  ℕ, suc, ◌+◌, ◌*◌, ◌^◌, ◌%◌, ◌/◌, ◌-◌, ◌⊎◌, ltb, leb, ◌<◌, Bool, true, ◌&&◌, List, [], ◌∷◌, some,
  ◌≡◌, refl, ◌∙◌, ap, ap₂, arith, All, if◌then◌else◌, Bool-cases, inl, inr,
}
use promshim_clickhouse.Base.Int.{
  ℤ, pos, negsuc, pos_part, ◌+ℤ◌, ◌*ℤ◌, ◌-ℤ◌, ◌/ℤ◌, wrap64, wrap64_pos, is_zero_ℤ, pos-add, pos-mul,
  ltb_ℤ,
}
use promshim_clickhouse.Estimates.{Signature, Stats, Cache, State, missing, stale, hit}
use promshim_clickhouse.Estimates.Apply.{
  Totals, no_totals, count_state, count_signatures, samples_or_estimate,
  estimate_samples_per_series, apply_cached_selector_estimates,
}
use promshim_clickhouse.Routing.{QueryCostClass}
use promshim_clickhouse.Estimates.Hits.{
  is_hit, found, all_hit, series_of, samples_of, sum_of, hit-same, all_fresh-count_signatures,
}

wrap64-cases :
    (z : ℤ) → ((n : ℕ) × ((wrap64 z ≡ pos n) × (n < 2 ^ 63))) ⊎ ((n : ℕ) × (wrap64 z ≡ negsuc n))
unfolding wrap64
wrap64-cases (pos n) = elim (Bool-cases (ltb (n % 2 ^ 64) (2 ^ 63))) [
  | inl e ↦ inl (n % 2 ^ 64, (rw e refl, ground (arith, e)))
  | inr e ↦ inr (2 ^ 64 - n % 2 ^ 64 - 1, rw e refl)
]
wrap64-cases (negsuc n) = elim (Bool-cases (ltb (n % 2 ^ 64) (2 ^ 63))) [
  | inl e ↦ inr (n % 2 ^ 64, rw e refl)
  | inr e ↦ inl (2 ^ 64 - n % 2 ^ 64 - 1, (rw e refl, ground (arith, e)))
]

estimate_samples_per_series-pos :
    (sig : Signature) → (n : ℕ) × (estimate_samples_per_series sig ≡ pos (suc n))
unfolding estimate_samples_per_series ◌/ℤ◌
estimate_samples_per_series-pos sig = elim (Bool-cases (ltb_ℤ sig.end_ms sig.start_ms)) [
  | inl e ↦ (0, rw e refl)
  | inr e ↦ elim (wrap64-cases (sig.end_ms -ℤ sig.start_ms)) [
    | inr (n, f) ↦ (0, rw (e, f, estimate_samples_per_series) (ground arith))
    | inl (n, (f, below)) ↦ elim (Bool-cases (leb n 0)) [
      | inl g ↦ (0, rw (e, f, estimate_samples_per_series) (ground (arith, g)))
      | inr g ↦ (
        n / 15000,
        rw (e, f, estimate_samples_per_series)
            (ground
              (arith, g, pos-add (n / 15000) 1, wrap64_pos (n / 15000 + 1) (omega (arith, below)))),
      )
    ]
  ]
]

samples_or_estimate-pos :
    (sig : Signature) (s : Stats)
    → samples_or_estimate sig s ≡ pos (pos_part (samples_or_estimate sig s))
unfolding samples_or_estimate
samples_or_estimate-pos sig s = ground (arith, (estimate_samples_per_series-pos sig).1)

wrap_add : (a b : ℕ) → a + b < 2 ^ 63 → wrap64 (pos a +ℤ pos b) ≡ pos (a + b)
wrap_add a b h = ap wrap64 (pos-add a b) ∙ wrap64_pos (a + b) h

wrap_mul : (a b : ℕ) → a * b < 2 ^ 63 → wrap64 (pos a *ℤ pos b) ≡ pos (a * b)
wrap_mul a b h = ap wrap64 (pos-mul a b) ∙ wrap64_pos (a * b) h

-- What a hit adds to the totals, where they do not overflow.
count_hit :
    (t : Totals) (sig : Signature) (r : Stats × State) (a b x : ℕ)
    → is_hit r ≡ true
    → t.matched_series ≡ pos a
    → t.input_samples ≡ pos b
    → r.0.matched_series ≡ pos x
    → a + x < 2 ^ 63
    → b + x * pos_part (samples_or_estimate sig r.0) < 2 ^ 63
    → ((count_state t sig r).matched_series ≡ pos (a + x))
      × ((count_state t sig r).input_samples ≡ pos (b + x * pos_part (samples_or_estimate sig r.0)))
count_hit t sig (s, hit) a b x h ta tb sx ha hb = (
  ap₂ (λ u v. wrap64 (u +ℤ v)) ta sx ∙ wrap_add a x ha,
  ap₂ (λ u v. wrap64 (u +ℤ wrap64 v)) tb (ap₂ (λ u v. u *ℤ v) sx (samples_or_estimate-pos sig s))
      ∙ ap (λ v. wrap64 (pos b +ℤ v)) (wrap_mul x _ (omega (arith, hb)))
      ∙ wrap_add b _ hb,
)
count_hit t sig (s, stale) a b x h ta tb sx ha hb = ground (arith, h)
count_hit t sig (s, missing) a b x h ta tb sx ha hb = ground (arith, h)

module _ (c : Cache) (now : ℕ) where
  -- The number of series that the cache has for the signature is not negative.
  abbrev pub IsCounted : Signature → Type 0
  IsCounted sig = (found c now sig).0.matched_series ≡ pos (series_of c now sig)

  count_signatures-sums :
      (t : Totals) (sigs : List Signature) (a b : ℕ)
      → all_hit c now sigs ≡ true
      → All IsCounted sigs
      → t.matched_series ≡ pos a
      → t.input_samples ≡ pos b
      → a + sum_of c now (series_of c now) sigs < 2 ^ 63
      → b + sum_of c now (samples_of c now) sigs < 2 ^ 63
      → ((count_signatures c now t sigs).1.matched_series
          ≡ pos (a + sum_of c now (series_of c now) sigs))
        × ((count_signatures c now t sigs).1.input_samples
            ≡ pos (b + sum_of c now (samples_of c now) sigs))
  unfolding count_signatures
  count_signatures-sums t [] a b h k ta tb ha hb =
      (ta ∙ ap pos (omega arith), tb ∙ ap pos (omega arith))
  count_signatures-sums t (sig ∷ sigs) a b h k ta tb ha hb =
      let hits = and_left (is_hit (found c now sig)) (all_hit c now sigs) h in
      let first =
        count_hit t sig (found c now sig) a b (series_of c now sig) hits.0 ta tb k.0
          (omega (arith, ha)) (omega (arith, hb)) in
      let rest =
        count_signatures-sums (count_state t sig (found c now sig)) sigs (a + series_of c now sig)
          (b + samples_of c now sig) hits.1 k.1 first.0 first.1 (omega (arith, ha))
          (omega (arith, hb)) in
      rw (count_signatures, hit-same c now sig hits.0)
        (rest.0 ∙ ap pos (omega arith), rest.1 ∙ ap pos (omega arith))
    where
      and_left : (p q : Bool) → (p && q) ≡ true → (p ≡ true) × (q ≡ true)
      and_left p q e = ground (arith, e)

  no_totals-sums :
      (sigs : List Signature)
      → all_hit c now sigs ≡ true
      → All IsCounted sigs
      → sum_of c now (series_of c now) sigs < 2 ^ 63
      → sum_of c now (samples_of c now) sigs < 2 ^ 63
      → ((count_signatures c now no_totals sigs).1.matched_series
          ≡ pos (sum_of c now (series_of c now) sigs))
        × ((count_signatures c now no_totals sigs).1.input_samples
            ≡ pos (sum_of c now (samples_of c now) sigs))
  no_totals-sums sigs h k ha hb =
      let s =
        count_signatures-sums no_totals sigs 0 0 h k refl refl (omega (arith, ha))
          (omega (arith, hb)) in
      (s.0 ∙ ap pos (omega arith), s.1 ∙ ap pos (omega arith))

  -- Fresh estimates where every signature has a fresh entry, and none otherwise.
  abbrev pub IsEstimated : QueryCostClass → List Signature → QueryCostClass → Type 0
  IsEstimated class sigs out =
      (out.estimate_state.fresh ≡ all_hit c now sigs)
      × (if all_hit c now sigs
          then ((out.estimated_series ≡ pos (sum_of c now (series_of c now) sigs))
              × ((out.estimated_input_samples ≡ pos (sum_of c now (samples_of c now) sigs))
                  × (out.estimated_output_points ≡ (
                      if is_zero_ℤ class.estimated_output_points
                      then (if ltb_ℤ (pos 0) class.range_points_per_series
                          then wrap64 (
                              pos (sum_of c now (series_of c now) sigs)
                              *ℤ class.range_points_per_series)
                          else pos (sum_of c now (series_of c now) sigs))
                      else class.estimated_output_points))))
          else ((out.estimated_series ≡ class.estimated_series)
              × ((out.estimated_input_samples ≡ class.estimated_input_samples)
                  × (out.estimated_output_points ≡ class.estimated_output_points))))

  -- Where the cache holds no negative number of series for the signatures of a query, of which there is at least
  -- one, and the sums do not overflow, the query has fresh estimates exactly where all of them have a fresh entry:
  -- the sums of the series and of the samples, and the points of the output where it had none; otherwise its
  -- estimates stay as they were.
  pub apply_cached_selector_estimates-IsEstimated :
      (class : QueryCostClass) (sig : Signature) (sigs : List Signature)
      → All IsCounted (sig ∷ sigs)
      → sum_of c now (series_of c now) (sig ∷ sigs) < 2 ^ 63
      → sum_of c now (samples_of c now) (sig ∷ sigs) < 2 ^ 63
      → IsEstimated class
          (sig ∷ sigs)
          (apply_cached_selector_estimates class (sig ∷ sigs) (some c) now).1
  unfolding apply_cached_selector_estimates
  apply_cached_selector_estimates-IsEstimated class sig sigs k ha hb =
      elim (Bool-cases (all_hit c now (sig ∷ sigs))) [
        | inl e ↦
            let sums = no_totals-sums (sig ∷ sigs) e k ha hb in
            rw (fresh ∙ e, e)
              (
                refl,
                (
                  sums.0,
                  (
                    sums.1,
                    ap
                        (λ m.
                          (if is_zero_ℤ class.estimated_output_points
                            then (if ltb_ℤ (pos 0) class.range_points_per_series
                                then wrap64 (m *ℤ class.range_points_per_series)
                                else m)
                            else class.estimated_output_points))
                        sums.0,
                  ),
                ),
              )
        | inr e ↦ rw (fresh ∙ e, e) (refl, (refl, (refl, refl)))
      ]
    where
      fresh :
          (count_signatures c now no_totals (sig ∷ sigs)).1.all_fresh ≡ all_hit c now (sig ∷ sigs)
      fresh = all_fresh-count_signatures c now no_totals (sig ∷ sigs) refl
