-- ===== src/Points.antt =====
-- internal/promshim/model/timealign.go: the points of a range evaluation, and lists of points in order.
pub mod Grid
pub mod Order
mod Examples
use promshim_clickhouse.Base.{
  ℕ, zero, suc, ◌+◌, ◌-◌, Bool, true, false, ◌||◌, List, [], ◌∷◌, ◌++◌, map, Option, none, some,
  Result, ok, err, ltb, if◌then◌else◌, is_empty,
}
use promshim_clickhouse.Base.Int.{ℤ, pos, leb_ℤ}
use promshim_clickhouse.Bytes.Sort.{sort_by}
use promshim_clickhouse.Floats.{Floats}
use promshim_clickhouse.Time.{add_time}

pub record RangePoint (F : Type 0) : Type 0 where
  pub timestamp : F
  pub value : F

pub data Error : Type 0 where
  step_not_positive : Error
  duplicate_timestamps : Error
  non_increasing_merge : Error
  -- the model's own: the fuel of a loop ran out, which no theorem leaves open
  out_of_fuel : Error

-- The times that `for current := start; !current.After(end); current = current.Add(step)` visits.
unfoldable pub range_times : ℕ → ℕ → ℕ → ℤ → Option (List ℕ)
range_times zero current last step = none
range_times (suc fuel) current last step =
    let rest = range_times fuel (add_time current step) last step in
    if ltb last current then some [] else elim rest [ none ↦ none | some ts ↦ some (current ∷ ts) ]

-- One round for each nanosecond of the range is more than the loop takes.
abbrev pub range_fuel : ℕ → ℕ → ℕ
range_fuel start last = suc (suc (last - start))

module _ (fl : Floats) where
  open fl use {F}

  -- `unix_seconds t` is float64(t.UnixNano()) / float64(time.Second).
  unfoldable pub build_constant_range_points :
      (ℕ → F) → ℕ → ℕ → ℤ → F → Result Error (List (RangePoint F))
  unfolding range_times
  build_constant_range_points unix_seconds start last step value =
      if leb_ℤ step (pos 0)
      then err step_not_positive
      else elim (range_times (range_fuel start last) start last step) [
        | none ↦ err out_of_fuel
        | some ts ↦ ok (map (λ t. record { timestamp = unix_seconds t; value = value }) ts)
      ]

  -- Two neighbours of the list with one timestamp.
  unfoldable pub has_equal_neighbours : List (RangePoint F) → Bool
  has_equal_neighbours [] = false
  has_equal_neighbours (p ∷ []) = false
  has_equal_neighbours (p ∷ q ∷ rest) =
      fl.eq q.timestamp p.timestamp || has_equal_neighbours (q ∷ rest)

  abbrev pub point_less : RangePoint F → RangePoint F → Bool
  point_less p q = fl.lt p.timestamp q.timestamp

  unfoldable pub sort_and_validate_range_points :
      List (RangePoint F) → Result Error (List (RangePoint F))
  unfolding has_equal_neighbours
  sort_and_validate_range_points points =
      let result = sort_by point_less points in
      if has_equal_neighbours result then err duplicate_timestamps else ok result

  -- existing[len(existing)-1], for a list that is not empty
  unfoldable pub last_point : RangePoint F → List (RangePoint F) → RangePoint F
  last_point p [] = p
  last_point p (q ∷ rest) = last_point q rest

  unfoldable pub append_range_points_strict :
      List (RangePoint F) → List (RangePoint F) → Result Error (List (RangePoint F))
  unfolding last_point
  append_range_points_strict [] incoming = ok incoming
  append_range_points_strict (p ∷ existing) [] = ok (p ∷ existing)
  append_range_points_strict (p ∷ existing) (q ∷ incoming) =
      if fl.le q.timestamp (last_point p existing).timestamp
      then err non_increasing_merge
      else ok ((p ∷ existing) ++ (q ∷ incoming))
