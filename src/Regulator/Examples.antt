-- ===== src/Regulator/Examples.antt =====
-- The control loop of cmd/ch-seed-long/regulator.go on concrete ticks.
use promshim_clickhouse.Base.{ℕ, ◌/◌, ◌≤◌, ◌≡◌, refl, [], ◌∷◌, some, arith}
use promshim_clickhouse.Base.Int.{pos}
use promshim_clickhouse.Floats.{nat_floats}
use promshim_clickhouse.Regulator.{Config, Limits, State, Tick, with_defaults, step, run, at_least}
use promshim_clickhouse.Regulator.Bounds.{InBounds, run-InBounds, run-errors}
use promshim_clickhouse.Regulator.Stall.{step-Stalls}

abbrev limits : Limits nat_floats
limits = record {
  tick = 2;
  max_n = 8;
  min_n = 1;
  hold_band_pct = 2;
  increase_at_pct = 1;
  tail_decrease_pct = 3;
  stall_ticks = 3;
}

abbrev state : State nat_floats
state = record {
  target = 6;
  min_p50 = 0;
  last_completed = 40;
  stall_streak = 2;
  ramp_up_freeze = some 0;
}

-- A tick with the given error rate on which no batch has completed.
abbrev idle : ℕ → ℕ → Tick nat_floats
idle errors now = record { p50 = 0; p99 = 0; err_pct = errors; completed = some 40; now = now }

run-InBounds_example :
    InBounds nat_floats limits (run nat_floats limits state (idle 0 1 ∷ idle 5 3 ∷ []))
run-InBounds_example =
    run-InBounds nat_floats limits state (idle 0 1 ∷ idle 5 3 ∷ []) (omega arith, omega arith)

-- No field set: the floor and the ceiling are one.
abbrev unset : Config nat_floats
unset = record {
  tick = pos 0;
  max_n = pos 0;
  min_n = pos 0;
  hold_band_pct = 0;
  increase_at_pct = 0;
  tail_decrease_pct = 0;
  stall_ticks = pos 0;
}

run-errors_example :
    (run nat_floats
      (with_defaults nat_floats unset)
      state
      (idle 5 1 ∷ idle 5 2 ∷ idle 5 3 ∷ idle 5 4 ∷ idle 5 5 ∷ [])).target
    ≡ 1
unfolding with_defaults
run-errors_example =
    run-errors nat_floats unset state (idle 5 1 ∷ idle 5 2 ∷ idle 5 3 ∷ idle 5 4 ∷ idle 5 5 ∷ [])
      (refl, (refl, (refl, (refl, (refl, tt))))) (omega arith) (omega arith)

step-Stalls_example :
    ((step nat_floats limits state (idle 0 100)).target ≡ at_least nat_floats 1 (6 / 2))
    × ((step nat_floats limits state (idle 0 100)).stall_streak ≡ 0)
    × ((run nat_floats limits (step nat_floats limits state (idle 0 100)) (idle 0 102 ∷ [])).target
        ≤ at_least nat_floats 1 (6 / 2))
step-Stalls_example =
    step-Stalls nat_floats limits state (idle 0 100) 0 (idle 0 102 ∷ [])
      (refl, refl, omega arith, omega arith) (omega arith) refl (omega arith) (omega arith, tt)
