-- ===== src/Points/Grid.antt =====
-- The loop of a range evaluation visits an evenly spaced grid, and ends.
use promshim_clickhouse.Base.{
  ℕ, zero, suc, ◌+◌, ◌-◌, ◌*◌, ◌/◌, ◌≤◌, ◌<◌, ◌≡◌, refl, ◌⊎◌, inl, inr, ap, List, [], ◌∷◌, ◌++◌,
  map, some, ok, err, arith, Bool-cases, ltb, if◌then◌else◌, false,
}
use promshim_clickhouse.Base.Int.{ℤ, pos, negsuc, pos_part, ltb_ℤ}
use native.Mathlib.Nat.{suc-mul, add-mul, one-mul, div-mul-le_self, lt-div-mul-add, div-le_self}
use promshim_clickhouse.Floats.{Floats}
use promshim_clickhouse.Time.{add_time}
use promshim_clickhouse.Points.{
  step_not_positive, range_times, range_fuel, build_constant_range_points,
}

-- `n` times from `s` on, `d` apart.
unfoldable pub grid : ℕ → ℕ → ℕ → List ℕ
grid s d zero = []
grid s d (suc n) = s ∷ grid (s + d) d n

-- Exactly the first `n` times from `s` on, `d` apart, are not after `e`.
abbrev pub Spans : ℕ → ℕ → ℕ → ℕ → Type 0
Spans s e d n = (e < s + n * d) × ((n ≡ 0) ⊎ (s + n * d ≤ e + d))

pub grid-append : (s d m n : ℕ) → grid s d (m + n) ≡ grid s d m ++ grid (s + m * d) d n
unfolding grid
grid-append s d zero n =
    let e : zero + n ≡ n = omega arith in let e' : s + zero * d ≡ s = omega arith in rw (e, e')
grid-append s d (suc m) n =
    let e : suc m + n ≡ suc (m + n) = omega arith in
    let e' : s + suc m * d ≡ s + d + m * d = omega (arith, suc-mul m d) in
    rw (e, e') (ap (λ ts. s ∷ ts) (grid-append (s + d) d m n))

pub last_round : (s e d n : ℕ) → Spans s e d (suc n) → s + d + n * d ≤ e + d
last_round s e d n (below, inl none_left) = absurd (omega arith)
last_round s e d n (below, inr reached) = omega (arith, suc-mul n d)

Spans-suc : (s e d n : ℕ) → 0 < d → Spans s e d (suc n) → Spans (s + d) e d n
Spans-suc s e d n h sp = (omega (arith, suc-mul n d, sp.0), inr (last_round s e d n sp))

pub range_times-grid :
    (fuel s e d n : ℕ)
    → 0 < d
    → Spans s e d n
    → n < fuel
    → range_times fuel s e (pos d) ≡ some (grid s d n)
unfolding range_times grid add_time
range_times-grid zero s e d n h sp lt = elim lt [ ]
range_times-grid (suc fuel) s e d zero h sp lt = ground (arith, sp.0)
range_times-grid (suc fuel) s e d (suc n) h sp lt =
    let not_after : ltb e s ≡ false = ground (arith, last_round s e d n sp) in
    rw (not_after, range_times)
      (rw (range_times-grid fuel (s + d) e d n h (Spans-suc s e d n h sp) (omega arith)))

-- The number of times of a range with the given step.
abbrev pub range_count : ℕ → ℕ → ℕ → ℕ
range_count s e d = if ltb e s then 0 else (e - s) / d + 1

pub range_count-Spans : (s e d : ℕ) → 0 < d → Spans s e d (range_count s e d)
range_count-Spans s e d h = elim (Bool-cases (ltb e s)) [
  | inl after ↦ rw after (ground (arith, after), inl refl)
  | inr not_after ↦
      let below = div-mul-le_self (e - s) d in
      let above = lt-div-mul-add {a = e - s} h in
      let product : ((e - s) / d + 1) * d ≡ (e - s) / d * d + d = simp (add-mul, one-mul) in
      rw not_after
        (ground (arith, not_after, above, product), inr (ground (arith, not_after, below, product)))
]

pub range_count-le : (s e d : ℕ) → 0 < d → range_count s e d < range_fuel s e
range_count-le s e d h = ground (arith, div-le_self (e - s) d)

module _ (fl : Floats) where
  positive_step :
      (unix_seconds : ℕ → fl.F) (start last d : ℕ) (value : fl.F)
      → 0 < d
      → build_constant_range_points fl unix_seconds start last (pos d) value
        ≡ ok (
            map
              (λ t. record { timestamp = unix_seconds t; value = value })
              (grid start d (range_count start last d)))
  unfolding build_constant_range_points
  positive_step unix_seconds start last d value h = ground (
    arith,
    range_times-grid (range_fuel start last) start last d (range_count start last d) h
        (range_count-Spans start last d h) (range_count-le start last d h),
  )

  -- With a positive step the loop ends, with one point for each time start, start + step, ... that is
  -- not after the end, in that order, and with the value given; with any other step it is an error.
  pub build_constant_range_points_lem :
      (unix_seconds : ℕ → fl.F) (start last : ℕ) (step : ℤ) (value : fl.F)
      → build_constant_range_points fl unix_seconds start last step value ≡ (
          if ltb_ℤ (pos 0) step
          then ok (
              map
                (λ t. record { timestamp = unix_seconds t; value = value })
                (grid start (pos_part step) (range_count start last (pos_part step))))
          else err step_not_positive)
  unfolding build_constant_range_points
  build_constant_range_points_lem unix_seconds start last (pos zero) value = refl
  build_constant_range_points_lem unix_seconds start last (pos (suc d)) value =
      ground (arith, positive_step unix_seconds start last (suc d) value (omega arith))
  build_constant_range_points_lem unix_seconds start last (negsuc d) value = ground arith
