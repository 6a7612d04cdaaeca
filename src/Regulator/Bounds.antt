-- ===== src/Regulator/Bounds.antt =====
-- The target stays within its bounds, and errors drive it to the floor.
use promshim_clickhouse.Base.{
  zero, suc, ◌-◌, ◌/◌, ◌≤◌, ◌<◌, ◌≡◌, refl, List, [], ◌∷◌, All, length, true, arith, if◌then◌else◌,
}
use promshim_clickhouse.Base.Int.{ℤ, pos, negsuc, ltb_ℤ, pos_part}
use promshim_clickhouse.Floats.{Floats}
use promshim_clickhouse.Regulator.{
  Config, Limits, State, Tick, with_defaults, decide, step, run, has_errors, at_least,
}

module _ (fl : Floats) where
  -- The target is at least the floor and at most the ceiling.
  abbrev pub InBounds : Limits fl → State fl → Type 0
  InBounds cfg s = (cfg.min_n ≤ s.target) × (s.target ≤ cfg.max_n)

  decide-InBounds :
      (cfg : Limits fl) (s : State fl) (t : Tick fl)
      → InBounds cfg s
      → (cfg.min_n ≤ (decide fl cfg s t).0) × ((decide fl cfg s t).0 ≤ cfg.max_n)
  unfolding decide
  decide-InBounds cfg s t h = ground (arith, h)

  step-InBounds :
      (cfg : Limits fl) (s : State fl) (t : Tick fl)
      → InBounds cfg s
      → InBounds cfg (step fl cfg s t)
  unfolding step
  step-InBounds cfg s t h = decide-InBounds cfg s t h

  -- Whatever the ticks see, a target within the floor and the ceiling stays within them.
  pub run-InBounds :
      (cfg : Limits fl) (s : State fl) (ticks : List (Tick fl))
      → InBounds cfg s
      → InBounds cfg (run fl cfg s ticks)
  unfolding run
  run-InBounds cfg s [] h = h
  run-InBounds cfg s (t ∷ ticks) h =
      run-InBounds cfg (step fl cfg s t) ticks (step-InBounds cfg s t h)

  step-errors :
      (cfg : Limits fl) (s : State fl) (t : Tick fl)
      → has_errors fl t ≡ true
      → (step fl cfg s t).target ≡ at_least fl cfg.min_n (s.target / 2)
  unfolding step decide
  step-errors cfg s t h = rw h refl

  errors_down :
      (cfg : Limits fl) (s : State fl) (ticks : List (Tick fl))
      → All (λ t. has_errors fl t ≡ true) ticks
      → cfg.min_n ≤ s.target
      → 0 < cfg.min_n
      → s.target - cfg.min_n ≤ length ticks
      → (run fl cfg s ticks).target ≡ cfg.min_n
  unfolding run
  errors_down cfg s [] h above floor enough = omega arith
  errors_down cfg s (t ∷ ticks) h above floor enough =
      let halved = step-errors cfg s t h.0 in
      errors_down cfg (step fl cfg s t) ticks h.1 (rw halved (ground arith)) floor
        (rw halved (ground arith))

  with_defaults-floor : (cfg : Config fl) → 0 < (with_defaults fl cfg).min_n
  unfolding with_defaults
  with_defaults-floor cfg = by_floor cfg.min_n
    where
      by_floor : (n : ℤ) → 0 < (if ltb_ℤ n (pos 1) then 1 else pos_part n)
      by_floor (pos zero) = omega arith
      by_floor (pos (suc n)) = ground arith
      by_floor (negsuc n) = ground arith

  -- With any configuration the caller may give, as many ticks with errors as the target is above the
  -- floor bring it down to the floor.
  pub run-errors :
      (cfg : Config fl) (s : State fl) (ticks : List (Tick fl))
      → All (λ t. has_errors fl t ≡ true) ticks
      → (with_defaults fl cfg).min_n ≤ s.target
      → s.target - (with_defaults fl cfg).min_n ≤ length ticks
      → (run fl (with_defaults fl cfg) s ticks).target ≡ (with_defaults fl cfg).min_n
  run-errors cfg s ticks h above enough =
      errors_down (with_defaults fl cfg) s ticks h above (with_defaults-floor cfg) enough
