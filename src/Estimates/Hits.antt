-- ===== src/Estimates/Hits.antt =====
-- When all signatures of a query have a fresh entry in the cache of internal/promshim/selector_estimates.go.
use promshim_clickhouse.Base.{
  ℕ, ◌+◌, ◌*◌, Bool, true, false, ◌&&◌, List, [], ◌∷◌, ◌≡◌, refl, sym, ◌∙◌, ap, arith, Bool-cases,
  inl, inr,
}
use promshim_clickhouse.Base.Int.{pos_part}
use promshim_clickhouse.Estimates.{
  Signature, Stats, Cache, State, missing, stale, hit, get_with_state,
}
use promshim_clickhouse.Estimates.Apply.{Totals, count_state, count_signatures, samples_or_estimate}
use promshim_clickhouse.Estimates.Steps.{get_with_state-cases}

abbrev pub is_hit : Stats × State → Bool
is_hit (s, hit) = true
is_hit (s, stale) = false
is_hit (s, missing) = false

module _ (c : Cache) (now : ℕ) where
  abbrev pub found : Signature → Stats × State
  found sig = (get_with_state c sig now).1

  -- The cache has a fresh entry for each signature.
  abbrev pub all_hit : List Signature → Bool
  all_hit [] = true
  all_hit (sig ∷ sigs) = is_hit (found sig) && all_hit sigs

  abbrev pub series_of : Signature → ℕ
  series_of sig = pos_part (found sig).0.matched_series

  abbrev pub samples_of : Signature → ℕ
  samples_of sig = series_of sig * pos_part (samples_or_estimate sig (found sig).0)

  abbrev pub sum_of : (Signature → ℕ) → List Signature → ℕ
  sum_of f [] = 0
  sum_of f (sig ∷ sigs) = f sig + sum_of f sigs

  pub hit-same : (sig : Signature) → is_hit (found sig) ≡ true → (get_with_state c sig now).0 ≡ c
  hit-same sig h = elim (get_with_state-cases c sig now) [
    | inl g ↦ ap (λ r. r.0) g
    | inr (s, (f, inl (x, g))) ↦ ground (arith, sym (ap (λ r. is_hit r.1) g) ∙ h)
    | inr (s, (f, inr (x, g))) ↦ ap (λ r. r.0) g
  ]

all_fresh-count_state :
    (t : Totals) (sig : Signature) (r : Stats × State)
    → (count_state t sig r).all_fresh ≡ (t.all_fresh && is_hit r)
all_fresh-count_state t sig (s, hit) = ground arith
all_fresh-count_state t sig (s, stale) = ground arith
all_fresh-count_state t sig (s, missing) = ground arith

-- One that does not hit is enough.
not_fresh :
    (c : Cache) (now : ℕ) (t : Totals) (sigs : List Signature)
    → t.all_fresh ≡ false
    → (count_signatures c now t sigs).1.all_fresh ≡ false
unfolding count_signatures
not_fresh c now t [] h = h
not_fresh c now t (sig ∷ sigs) h =
    not_fresh (get_with_state c sig now).0 now (count_state t sig (get_with_state c sig now).1) sigs
      (all_fresh-count_state t sig (get_with_state c sig now).1 ∙ rw h refl)

pub all_fresh-count_signatures :
    (c : Cache) (now : ℕ) (t : Totals) (sigs : List Signature)
    → t.all_fresh ≡ true
    → (count_signatures c now t sigs).1.all_fresh ≡ all_hit c now sigs
unfolding count_signatures
all_fresh-count_signatures c now t [] h = h
all_fresh-count_signatures c now t (sig ∷ sigs) h = elim (Bool-cases (is_hit (found c now sig))) [
  | inl e ↦
      rw (count_signatures, hit-same c now sig e, e)
        (all_fresh-count_signatures c now (count_state t sig (found c now sig)) sigs
          (all_fresh-count_state t sig (found c now sig) ∙ rw (h, e) refl))
  | inr e ↦
      rw (count_signatures, e)
        (not_fresh (get_with_state c sig now).0 now (count_state t sig (found c now sig)) sigs
          (all_fresh-count_state t sig (found c now sig) ∙ rw (h, e) refl))
]
