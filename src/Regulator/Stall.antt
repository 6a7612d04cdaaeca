-- ===== src/Regulator/Stall.antt =====
-- A stall halves the target, and holds it down for five ticks.
use promshim_clickhouse.Base.{
  ℕ, suc, ◌+◌, ◌*◌, ◌/◌, ◌≤◌, ◌<◌, ◌≡◌, refl, List, [], ◌∷◌, All, some, false, Bool-cases, inl, inr,
  arith, leb, subst, ◌^◌, ap, ◌∙◌,
}
use promshim_clickhouse.Base.Int.{pos, pos_part, wrap64, wrap64_pos, pos-add, ◌+ℤ◌}
use promshim_clickhouse.Floats.{Floats}
use promshim_clickhouse.Regulator.{
  stall, Limits, State, Tick, decide, step, run, has_errors, at_least, stall_active, next_streak,
  suppress_ramp_until, ramp_up_allowed, is_stall, freeze_deadline,
}

module _ (fl : Floats) where
  -- The freeze lasts at least up to the deadline.
  abbrev FrozenUntil : ℕ → State fl → Type 0
  FrozenUntil deadline s = (until : ℕ) × (s.ramp_up_freeze ≡ some until) × (deadline ≤ until)

  suppress-FrozenUntil :
      (until deadline wanted : ℕ)
      → deadline ≤ until
      → (u : ℕ) × (suppress_ramp_until fl (some until) wanted ≡ some u) × (deadline ≤ u)
  unfolding suppress_ramp_until
  suppress-FrozenUntil until deadline wanted h = elim (Bool-cases (leb wanted until)) [
    | inl e ↦ (until, rw e refl, h)
    | inr e ↦ (wanted, rw e refl, ground (arith, e, h))
  ]

  step-FrozenUntil :
      (cfg : Limits fl) (s : State fl) (t : Tick fl) (deadline : ℕ)
      → FrozenUntil deadline s
      → FrozenUntil deadline (step fl cfg s t)
  unfolding step
  step-FrozenUntil cfg s t deadline (until, frozen, h) =
      elim (Bool-cases (is_stall fl (decide fl cfg s t).1)) [
        | inl e ↦ rw (e, frozen) (suppress-FrozenUntil until deadline _ h)
        | inr e ↦ rw e (until, frozen, h)
      ]

  step-le :
      (cfg : Limits fl) (s : State fl) (t : Tick fl) (deadline : ℕ)
      → FrozenUntil deadline s
      → t.now < deadline
      → cfg.min_n ≤ s.target
      → (cfg.min_n ≤ (step fl cfg s t).target) × ((step fl cfg s t).target ≤ s.target)
  unfolding step decide
  step-le cfg s t deadline (until, frozen, h) early above =
      let closed : ramp_up_allowed fl s.ramp_up_freeze t.now ≡ false =
        rw frozen (unfold ramp_up_allowed in ground (arith, early, h)) in
      ground (arith, closed, above)

  run-le :
      (cfg : Limits fl) (s : State fl) (ticks : List (Tick fl)) (deadline : ℕ)
      → FrozenUntil deadline s
      → All (λ t. t.now < deadline) ticks
      → cfg.min_n ≤ s.target
      → (run fl cfg s ticks).target ≤ s.target
  unfolding run
  run-le cfg s [] deadline frozen early above = omega arith
  run-le cfg s (t ∷ ticks) deadline frozen early above =
      let (above', le) = step-le cfg s t deadline frozen early.0 above in
      let rest =
        run-le cfg (step fl cfg s t) ticks deadline (step-FrozenUntil cfg s t deadline frozen)
          early.1 above' in
      omega (arith, le, rest)

  -- The tick sees no error and no batch completed, for the last of the ticks that make a stall.
  abbrev pub Stalls : Limits fl → State fl → Tick fl → Type 0
  Stalls cfg s t =
      (t.completed ≡ some s.last_completed)
      × (has_errors fl t ≡ false)
      × (0 < cfg.stall_ticks)
      × (cfg.stall_ticks ≤ suc s.stall_streak)

  decide-Stalls :
      (cfg : Limits fl) (s : State fl) (t : Tick fl)
      → Stalls cfg s t
      → cfg.min_n < s.target
      → decide fl cfg s t ≡ (at_least fl cfg.min_n (s.target / 2), stall)
  unfolding decide stall_active next_streak
  decide-Stalls cfg s t (same, no_errors, enabled, streak) above =
      ground (arith, same, no_errors, enabled, streak, above)

  suppress-wanted :
      (until wanted : ℕ)
      → (u : ℕ) × (suppress_ramp_until fl (some until) wanted ≡ some u) × (wanted ≤ u)
  unfolding suppress_ramp_until
  suppress-wanted until wanted = elim (Bool-cases (leb wanted until)) [
    | inl e ↦ (until, rw e refl, ground (arith, e))
    | inr e ↦ (wanted, rw e refl, omega arith)
  ]

  stalled-state :
      (cfg : Limits fl) (s : State fl) (t : Tick fl) (until : ℕ)
      → Stalls cfg s t
      → cfg.min_n < s.target
      → s.ramp_up_freeze ≡ some until
      → ((step fl cfg s t).target ≡ at_least fl cfg.min_n (s.target / 2))
        × ((step fl cfg s t).stall_streak ≡ 0)
        × FrozenUntil (freeze_deadline fl cfg t) (step fl cfg s t)
  unfolding step
  stalled-state cfg s t until stalls above frozen =
      rw (decide-Stalls cfg s t stalls above, frozen)
        (refl, refl, suppress-wanted until (freeze_deadline fl cfg t))

  -- Before 2262 neither the product nor the sum wraps.
  freeze_deadline_lem :
      (cfg : Limits fl) (t : Tick fl)
      → t.now + 5 * cfg.tick < 2 ^ 63
      → freeze_deadline fl cfg t ≡ t.now + 5 * cfg.tick
  unfolding freeze_deadline
  freeze_deadline_lem cfg t h = ap pos_part (
      ap (λ d. wrap64 (pos t.now +ℤ d)) (wrap64_pos (5 * cfg.tick) (omega (arith, h)))
      ∙ ap wrap64 (pos-add t.now (5 * cfg.tick))
      ∙ wrap64_pos (t.now + 5 * cfg.tick) h)

  -- A stall above the floor halves the target, not below the floor, and starts the streak again; and
  -- until five ticks have passed the target does not rise above that, whatever the next ticks see. The
  -- deadline shared with the probe is there, and five ticks from now are still an int64 of nanoseconds. (The
  -- comment on runRegulator says that a stall takes one off; its code and this theorem halve.)
  pub step-Stalls :
      (cfg : Limits fl) (s : State fl) (t : Tick fl) (until : ℕ) (ticks : List (Tick fl))
      → Stalls cfg s t
      → cfg.min_n < s.target
      → s.ramp_up_freeze ≡ some until
      → t.now + 5 * cfg.tick < 2 ^ 63
      → All (λ u. u.now < t.now + 5 * cfg.tick) ticks
      → ((step fl cfg s t).target ≡ at_least fl cfg.min_n (s.target / 2))
        × ((step fl cfg s t).stall_streak ≡ 0)
        × ((run fl cfg (step fl cfg s t) ticks).target ≤ at_least fl cfg.min_n (s.target / 2))
  step-Stalls cfg s t until ticks stalls above frozen small early =
      let (halved, restarted, held) = stalled-state cfg s t until stalls above frozen in
      let floor : cfg.min_n ≤ (step fl cfg s t).target = rw halved (ground arith) in
      (
        halved,
        restarted,
        subst (λ z. (run fl cfg (step fl cfg s t) ticks).target ≤ z) halved
            (run-le cfg (step fl cfg s t) ticks (t.now + 5 * cfg.tick)
              (rw (freeze_deadline_lem cfg t small) at held) early floor),
      )
