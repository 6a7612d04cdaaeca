-- ===== src/Chunks/Split.antt =====
-- The chunks of a range cover its times: each once, and in order.
use native.Mathlib.Nat.{
  suc-mul, add-mul, div-mul-le_self, div-le_self, div-lt_iff_lt-mul, mul-le-mul_left, mul_comm,
}
use promshim_clickhouse.Base.{
  ℕ, zero, suc, ◌+◌, ◌-◌, ◌*◌, ◌/◌, ◌≤◌, ◌<◌, ◌≡◌, refl, inl, inr, ◌∙◌, ap, sym, List, [], ◌∷◌,
  ◌++◌, none, some, ok, arith, ltb, if◌then◌else◌, false, All, length, ap₂, subst,
}
use promshim_clickhouse.Base.Int.{pos, wrap64_pos, pos-add, pos-sub, pos-mul, ◌/ℤ◌}
use promshim_clickhouse.Time.{add_time, sub_time_lem, max_duration}
use promshim_clickhouse.Points.{range_times, range_fuel}
use promshim_clickhouse.Points.Grid.{
  grid, Spans, grid-append, last_round, range_times-grid, range_count, range_count-Spans,
  range_count-le,
}
use promshim_clickhouse.Chunks.{
  range, EvalParams, remaining_points, points_this_chunk, chunk_last, split_from,
  split_range_into_chunks,
}

abbrev min : ℕ → ℕ → ℕ
min a b = if ltb a b then a else b

min-le : (a b m : ℕ) → b < suc m → min a b ≤ m
min-le a b m h = ground (arith, h)

module _ (p : EvalParams) (d : ℕ) (step : p.step ≡ pos (suc d)) where
  -- Here and below the range is shorter than the largest duration, 292 years.
  remaining_points_lem :
      (current : ℕ)
      → current ≤ p.last
      → p.last - current < max_duration
      → remaining_points p current ≡ pos ((p.last - current) / suc d + 1)
  unfolding remaining_points ◌/ℤ◌
  remaining_points_lem current h short =
      let below = div-le_self (p.last - current) (suc d) in
      rw (step, sub_time_lem p.last current h short)
        (rw (wrap64_pos ((p.last - current) / suc d) (omega (arith, below))) (
          rw (pos-add ((p.last - current) / suc d) 1)
            (wrap64_pos ((p.last - current) / suc d + 1) (omega (arith, below)))))

  -- The number of points of the chunk but one.
  abbrev more : ℕ → ℕ → ℕ
  more c current = min c ((p.last - current) / suc d)

  points_this_chunk_lem :
      (c current : ℕ)
      → current ≤ p.last
      → p.last - current < max_duration
      → points_this_chunk p (pos (suc c)) current ≡ pos (more c current + 1)
  unfolding points_this_chunk
  points_this_chunk_lem c current h short = ground (arith, remaining_points_lem current h short)

  steps_fit : (c current : ℕ) → suc d * more c current ≤ p.last - current
  steps_fit c current =
      let below = div-mul-le_self (p.last - current) (suc d) in
      let swap = mul_comm (suc d) ((p.last - current) / suc d) in
      let smaller : more c current ≤ (p.last - current) / suc d = ground arith in
      omega (arith, below, swap, mul-le-mul_left (suc d) smaller)

  chunk_last_lem :
      (c current : ℕ)
      → current ≤ p.last
      → p.last - current < max_duration
      → chunk_last p (pos (suc c)) current ≡ current + suc d * more c current
  unfolding chunk_last add_time
  chunk_last_lem c current h short =
      let fit = steps_fit c current in
      let count : more c current ≤ p.last - current =
        omega (arith, div-le_self (p.last - current) (suc d), smaller) in
      let one_less : more c current + 1 - 1 ≡ more c current = omega arith in
      rw
        (
          points_this_chunk_lem c current h short,
          step,
          pos-sub (more c current + 1) 1 (omega arith),
          one_less,
        )
        (rw (wrap64_pos (more c current) (omega (arith, count)), pos-mul (suc d) (more c current))
          (rw (wrap64_pos (suc d * more c current) (omega (arith, fit))) (ground (arith, fit))))
    where
      smaller : more c current ≤ (p.last - current) / suc d
      smaller = ground arith

-- The times at which a range evaluation with these parameters has points: those that the loop of
-- BuildConstantRangePoints visits.
abbrev pub params_times : EvalParams → List ℕ
params_times q = elim (range_times (range_fuel q.start q.last) q.start q.last q.step) [
  | none ↦ []
  | some ts ↦ ts
]

abbrev pub chunk_times : List EvalParams → List ℕ
chunk_times [] = []
chunk_times (q ∷ qs) = params_times q ++ chunk_times qs

length-grid : (s d n : ℕ) → length (grid s d n) ≡ n
unfolding grid
length-grid s d zero = refl
length-grid s d (suc n) = ap suc (length-grid (s + d) d n)

Spans-add : (s e d a b : ℕ) → Spans s e d (a + b) → Spans (s + a * d) e d b
Spans-add s e d a b (below, inl none_left) = (omega (arith, add-mul a b d), inl (omega arith))
Spans-add s e d a b (below, inr reached) =
    (omega (arith, add-mul a b d), inr (omega (arith, add-mul a b d)))

exact-Spans : (s d k : ℕ) → Spans s (s + suc d * k) (suc d) (suc k)
exact-Spans s d k = (
  omega (arith, suc-mul k (suc d), mul_comm k (suc d)),
  inr (omega (arith, suc-mul k (suc d), mul_comm k (suc d))),
)

-- What a chunk keeps of the parameters, and how many points it has.
abbrev pub IsChunk : EvalParams → ℕ → EvalParams → Type 0
IsChunk p size q =
    (q.mode ≡ p.mode)
    × (q.evaluation_time ≡ p.evaluation_time)
    × (q.step ≡ p.step)
    × (0 < length (params_times q))
    × (length (params_times q) ≤ size)

module _ (p : EvalParams) (d : ℕ) (step : p.step ≡ pos (suc d)) (c : ℕ) where
  abbrev chunk_at : ℕ → ℕ → EvalParams
  chunk_at current k = record p { start = current; last = current + suc d * k }

  times-chunk_at :
      (current k : ℕ) → params_times (chunk_at current k) ≡ grid current (suc d) (suc k)
  times-chunk_at current k =
      ap
        (λ z.
          elim (range_times (range_fuel current (current + suc d * k)) current (current + suc d * k)
            z) [ none ↦ [] | some ts ↦ ts ])
        step
      ∙ rw
          (range_times-grid (range_fuel current (current + suc d * k)) current (current + suc d * k)
            (suc d) (suc k) (omega arith) (exact-Spans current d k) (enough_fuel current k))
          refl
    where
      enough_fuel : (current k : ℕ) → suc k < range_fuel current (current + suc d * k)
      enough_fuel current k = omega (arith, suc-mul d k)

  module _ (current m : ℕ) (short : p.last - current < max_duration)
      (sp : Spans current p.last (suc d) (suc m)) where
    begun : current ≤ p.last
    begun = omega (arith, last_round current p.last (suc d) m sp)

    abbrev k : ℕ
    k = more p d step c current

    k-le : k ≤ m
    k-le =
        let quotient : (p.last - current) / suc d < suc m =
          (div-lt_iff_lt-mul (omega arith)).1 (omega (arith, sp.0, begun)) in
        min-le c ((p.last - current) / suc d) m quotient

    next_start : add_time (chunk_last p (pos (suc c)) current) p.step ≡ current + suc k * suc d
    next_start =
        ap₂ add_time (chunk_last_lem p d step c current begun short) step
        ∙ unfold add_time in omega (arith, suc-mul k (suc d), mul_comm k (suc d))

    rest_of_grid :
        (ts : List ℕ)
        → ts ≡ grid (current + suc k * suc d) (suc d) (m - k)
        → params_times (chunk_at current k) ++ ts ≡ grid current (suc d) (suc m)
    rest_of_grid ts e =
        let all : suc k + (m - k) ≡ suc m = omega (arith, k-le) in
        rw (times-chunk_at current k, e)
          (sym (grid-append current (suc d) (suc k) (m - k)) ∙ ap (grid current (suc d)) all)

    chunk_at-IsChunk : IsChunk p (suc c) (chunk_at current k)
    chunk_at-IsChunk =
        let size : length (params_times (chunk_at current k)) ≡ suc k =
          ap length (times-chunk_at current k) ∙ length-grid current (suc d) (suc k) in
        let bound : k ≤ c = ground arith in
        (refl, refl, refl, omega (arith, size), omega (arith, size, bound))

  split_from_lem :
      (fuel current n : ℕ)
      → p.last - current < max_duration
      → Spans current p.last (suc d) n
      → n < fuel
      → (cs : List EvalParams) × (split_from fuel p (pos (suc c)) current ≡ some cs)
        × (chunk_times cs ≡ grid current (suc d) n)
        × All (IsChunk p (suc c)) cs
  unfolding split_from
  split_from_lem zero current n short sp lt = elim lt [ ]
  split_from_lem (suc fuel) current zero short sp lt =
      ([], ground (arith, sp.0), unfold grid in refl, tt)
  split_from_lem (suc fuel) current (suc m) short sp lt =
      let q = more p d step c current in
      let le = k-le current m short sp in
      let all : suc q + (m - q) ≡ suc m = omega (arith, le) in
      let (cs, e, times, ok_cs) =
        split_from_lem fuel (current + suc q * suc d) (m - q) (omega arith)
          (Spans-add current p.last (suc d) (suc q) (m - q)
            (subst (Spans current p.last (suc d)) (sym all) sp))
          (omega arith) in
      let not_after : ltb p.last current ≡ false = ground (arith, begun current m short sp) in
      (
        chunk_at current q ∷ cs,
        rw (not_after, split_from)
            (rw (next_start current m short sp)
              (rw e (rw (chunk_last_lem p d step c current (begun current m short sp) short)))),
        rest_of_grid current m short sp (chunk_times cs) times,
        (chunk_at-IsChunk current m short sp, ok_cs),
      )

-- A range with a positive step has the times of an evenly spaced grid.
pub params_times-grid :
    (p : EvalParams) (d : ℕ)
    → p.step ≡ pos (suc d)
    → params_times p ≡ grid p.start (suc d) (range_count p.start p.last (suc d))
params_times-grid p d step =
    let n = range_count p.start p.last (suc d) in
    let spans = range_count-Spans p.start p.last (suc d) (omega arith) in
    let fuel = range_count-le p.start p.last (suc d) (omega arith) in
    ap
      (λ z. elim (range_times (range_fuel p.start p.last) p.start p.last z) [
        | none ↦ []
        | some ts ↦ ts
      ])
      step
    ∙ rw (
        range_times-grid (range_fuel p.start p.last) p.start p.last (suc d) n (omega arith) spans
          fuel)

-- A range with a positive step and a positive chunk size, shorter than the largest duration, splits
-- into chunks that have, one after the other, exactly the times of the whole range. Each keeps its
-- mode, evaluation time and step, and has at least one point and at most the chunk size.
pub split_range_into_chunks_lem :
    (p : EvalParams) (d c : ℕ)
    → p.mode ≡ range
    → p.step ≡ pos (suc d)
    → p.last - p.start < max_duration
    → (cs : List EvalParams) × (split_range_into_chunks p (pos (suc c)) ≡ ok cs)
      × (chunk_times cs ≡ params_times p)
      × All (IsChunk p (suc c)) cs
unfolding split_range_into_chunks
split_range_into_chunks_lem p d c mode step short =
    let n = range_count p.start p.last (suc d) in
    let spans = range_count-Spans p.start p.last (suc d) (omega arith) in
    let fuel = range_count-le p.start p.last (suc d) (omega arith) in
    let (cs, e, times, ok_cs) =
      split_from_lem p d step c (range_fuel p.start p.last) p.start n short spans fuel in
    (cs, ground (arith, e, mode, step), times ∙ sym (params_times-grid p d step), ok_cs)
