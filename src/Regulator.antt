-- ===== src/Regulator.antt =====
-- cmd/ch-seed-long/regulator.go: the control loop that sets how many workers of the seeder may run. One
-- tick of the loop is a function of the state and of what the tick observes. The target is not
-- negative, so the int32 arithmetic on it is that of the naturals.
mod Bounds
mod Stall
mod Examples
use promshim_clickhouse.Base.{
  ℕ, suc, ◌+◌, ◌-◌, ◌*◌, ◌/◌, Bool, true, false, ◌&&◌, ◌||◌, Option, none, some, if◌then◌else◌, ltb,
  leb, ◌==◌, List, [], ◌∷◌,
}
use promshim_clickhouse.Base.Int.{wrap64, ◌+ℤ◌, ℤ, pos, ltb_ℤ, leb_ℤ, pos_part}
use promshim_clickhouse.Floats.{Floats}

pub data Reason : Type 0 where
  hold errors stall tail_latency ramp_up hold_elevated : Reason

module _ (fl : Floats) where
  open fl use {F}

  -- regulatorConfig as the caller gives it. MinSamples, HoldLogEvery and OnChange do not affect the
  -- target.
  pub record Config : Type 0 where
    pub tick : ℤ
    pub max_n : ℤ
    pub min_n : ℤ
    pub hold_band_pct : F
    pub increase_at_pct : F
    pub tail_decrease_pct : F
    pub stall_ticks : ℤ

  -- The configuration that the loop runs with.
  pub record Limits : Type 0 where
    pub tick : ℕ
    pub max_n : ℕ
    pub min_n : ℕ
    pub hold_band_pct : F
    pub increase_at_pct : F
    pub tail_decrease_pct : F
    pub stall_ticks : ℕ

  -- 2 * time.Second
  abbrev default_tick : ℕ
  default_tick = 2000000000

  unfoldable pub with_defaults : Config → Limits
  with_defaults cfg = record {
    tick = if leb_ℤ cfg.tick (pos 0) then default_tick else pos_part cfg.tick;
    max_n = if ltb_ℤ cfg.max_n (pos 1) then 1 else pos_part cfg.max_n;
    min_n = if ltb_ℤ cfg.min_n (pos 1) then 1 else pos_part cfg.min_n;
    hold_band_pct =
        if fl.lt cfg.hold_band_pct fl.one
        then fl.div (fl.of_int 3) (fl.of_int 2)
        else cfg.hold_band_pct;
    increase_at_pct =
        if fl.lt cfg.increase_at_pct fl.one
        then fl.div (fl.of_int 6) (fl.of_int 5)
        else cfg.increase_at_pct;
    tail_decrease_pct =
        if fl.lt cfg.tail_decrease_pct fl.one then fl.of_int 3 else cfg.tail_decrease_pct;
    stall_ticks = if ltb_ℤ cfg.stall_ticks (pos 0) then 0 else pos_part cfg.stall_ticks;
  }

  -- What the loop and the atomics it shares hold. `ramp_up_freeze` is none where it is nil.
  pub record State : Type 0 where
    pub target : ℕ
    pub min_p50 : ℕ
    pub last_completed : ℕ
    pub stall_streak : ℕ
    pub ramp_up_freeze : Option ℕ

  -- What one tick sees: the summary of the ring, the completed batches (none where the counter is nil)
  -- and the clock.
  pub record Tick : Type 0 where
    pub p50 : ℕ
    pub p99 : ℕ
    pub err_pct : F
    pub completed : Option ℕ
    pub now : ℕ

  -- regulatorBaseline.observe
  unfoldable pub observe : ℕ → ℕ → ℕ
  observe cur d = if d == 0 then cur else if cur == 0 || ltb d cur then d else cur

  -- The stall streak and the completed batches after the stall detection.
  unfoldable pub next_streak : Limits → State → Tick → ℕ
  next_streak cfg s t = elim t.completed [
    | none ↦ s.stall_streak
    | some cur ↦
        if ltb 0 cfg.stall_ticks
        then (if cur == s.last_completed then suc s.stall_streak else 0)
        else s.stall_streak
  ]

  unfoldable pub next_completed : Limits → State → Tick → ℕ
  next_completed cfg s t = elim t.completed [
    | none ↦ s.last_completed
    | some cur ↦ if ltb 0 cfg.stall_ticks then cur else s.last_completed
  ]

  unfoldable pub stall_active : Limits → State → Tick → Bool
  unfolding next_streak
  stall_active cfg s t = elim t.completed [
    | none ↦ false
    | some cur ↦ ltb 0 cfg.stall_ticks && leb cfg.stall_ticks (next_streak cfg s t)
  ]

  abbrev pub has_errors : Tick → Bool
  has_errors t = fl.lt fl.zero t.err_pct

  unfoldable pub next_baseline : State → Tick → ℕ
  unfolding observe
  next_baseline s t =
      if ltb 0 t.p50 && fl.eq t.err_pct fl.zero then observe s.min_p50 t.p50 else s.min_p50

  unfoldable pub suppress_ramp_until : Option ℕ → ℕ → Option ℕ
  suppress_ramp_until none deadline = none
  suppress_ramp_until (some cur) deadline = if leb deadline cur then some cur else some deadline

  unfoldable pub ramp_up_allowed : Option ℕ → ℕ → Bool
  ramp_up_allowed none now = true
  ramp_up_allowed (some deadline) now = leb deadline now

  -- `if newN < cfg.MinN { newN = cfg.MinN }`
  abbrev pub at_least : ℕ → ℕ → ℕ
  at_least low n = if ltb n low then low else n

  -- The switch: the new target and the reason.
  unfoldable pub decide : Limits → State → Tick → ℕ × Reason
  unfolding stall_active next_baseline ramp_up_allowed
  decide cfg s t =
      let old = s.target in
      let base = next_baseline s t in
      if has_errors t
      then (at_least cfg.min_n (old / 2), errors)
      else if stall_active cfg s t && ltb cfg.min_n old
      then (at_least cfg.min_n (old / 2), stall)
      else if ltb 0 t.p50
          && ltb 0 t.p99
          && fl.lt cfg.tail_decrease_pct (fl.div (fl.of_int t.p99) (fl.of_int t.p50))
      then (at_least cfg.min_n (old - 1), tail_latency)
      else if ltb 0 base
          && fl.le (fl.of_int t.p50) (fl.mul (fl.of_int base) cfg.increase_at_pct)
          && ltb old cfg.max_n
          && ramp_up_allowed s.ramp_up_freeze t.now
      then (suc old, ramp_up)
      else if ltb 0 base && fl.lt (fl.mul (fl.of_int base) cfg.hold_band_pct) (fl.of_int t.p50)
      then (old, hold_elevated)
      else (old, hold)

  abbrev pub is_stall : Reason → Bool
  is_stall stall = true
  is_stall _ = false

  -- time.Now().Add(5*cfg.Tick).UnixNano(), whose product and sum are int64 and wrap. A deadline before 1970
  -- is as good as 1970: none is set for it.
  unfoldable pub freeze_deadline : Limits → Tick → ℕ
  freeze_deadline cfg t = pos_part (wrap64 (pos t.now +ℤ wrap64 (pos (5 * cfg.tick))))

  -- One tick of runRegulator.
  unfoldable pub step : Limits → State → Tick → State
  unfolding decide next_completed suppress_ramp_until next_streak freeze_deadline
  step cfg s t =
      let decision = decide cfg s t in
      record {
        target = decision.0;
        min_p50 = next_baseline s t;
        last_completed = next_completed cfg s t;
        stall_streak = if is_stall decision.1 then 0 else next_streak cfg s t;
        ramp_up_freeze =
            if is_stall decision.1
            then suppress_ramp_until s.ramp_up_freeze (freeze_deadline cfg t)
            else s.ramp_up_freeze;
      }

  unfoldable pub run : Limits → State → List Tick → State
  unfolding step
  run cfg s [] = s
  run cfg s (t ∷ ticks) = run cfg (step cfg s t) ticks
