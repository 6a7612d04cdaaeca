-- ===== src/Aggregation.antt =====
-- internal/promshim/local/exec/aggregate.go: the reducers and AggregateInstantSamples, and
-- calculateQuantileFromValues of rangefunc.go. A reducer is a value, its Add a function to the next one.
pub mod Buckets
mod Groups
mod Extremes
pub mod Selections
mod Limits
mod Examples
use promshim_clickhouse.Base.{
  ℕ, suc, ◌-◌, Bool, true, false, not, ◌&&◌, ◌||◌, List, [], ◌∷◌, ◌++◌, Option, none, some,
  if◌then◌else◌, Result, ok, err, length, get_or, leb, is_empty,
}
use promshim_clickhouse.Bytes.Sort.{sort_by}
use promshim_clickhouse.Floats.{Floats}
use promshim_clickhouse.Plans.{AggregateOp}

pub data Error : Type 0 where
  requires_scalar_parameter : AggregateOp → Error
  not_implemented : AggregateOp → Error

module _ (fl : Floats) where
  open fl use {F}

  pub record Variance : Type 0 where
    pub count : F
    pub mean : F
    pub m2 : F

  -- The reducers of the code; a minimum or maximum is `none` while hasValue is false.
  pub data Reducer : Type 0 where
    sum_reducer : F → Reducer
    count_reducer : F → Reducer
    min_reducer : Option F → Reducer
    max_reducer : Option F → Reducer
    avg_reducer : F → F → Reducer
    stdvar_reducer : Variance → Reducer
    stddev_reducer : Variance → Reducer
    quantile_reducer : F → List F → Reducer
    group_reducer : Bool → Reducer

  unfoldable pub add_variance : Variance → F → Variance
  add_variance r value =
      let count = fl.add r.count fl.one in
      let delta = fl.sub value r.mean in
      let mean = fl.add r.mean (fl.div delta count) in
      record { count = count; mean = mean; m2 = fl.add r.m2 (fl.mul delta (fl.sub value mean)) }

  unfoldable pub variance_result : Variance → F
  variance_result r = if fl.eq r.count fl.zero then fl.nan else fl.div r.m2 r.count

  unfoldable pub add_min : Option F → F → F
  add_min none value = value
  add_min (some old) value =
      if fl.is_nan old || (not (fl.is_nan value) && fl.lt value old) then value else old

  unfoldable pub add_max : Option F → F → F
  add_max none value = value
  add_max (some old) value =
      if fl.is_nan old || (not (fl.is_nan value) && fl.lt old value) then value else old

  -- Add
  unfoldable pub add_value : Reducer → F → Reducer
  unfolding add_variance add_min add_max
  add_value (sum_reducer total) value = sum_reducer (fl.add total value)
  add_value (count_reducer n) value = count_reducer (fl.add n fl.one)
  add_value (min_reducer old) value = min_reducer (some (add_min old value))
  add_value (max_reducer old) value = max_reducer (some (add_max old value))
  add_value (avg_reducer total n) value = avg_reducer (fl.add total value) (fl.add n fl.one)
  add_value (stdvar_reducer r) value = stdvar_reducer (add_variance r value)
  add_value (stddev_reducer r) value = stddev_reducer (add_variance r value)
  add_value (quantile_reducer q values) value = quantile_reducer q (values ++ (value ∷ []))
  add_value (group_reducer seen) value = group_reducer true

  -- The order of sort.Float64s, which puts NaN first.
  abbrev pub float_less : F → F → Bool
  float_less a b = fl.lt a b || (fl.is_nan a && not (fl.is_nan b))

  -- An index of a list that is not empty, moved to the last one where it is past the end.
  abbrev pub clamp_index : ℕ → List F → ℕ
  clamp_index i sorted = if leb (length sorted) i then length sorted - 1 else i

  -- The rank is not negative here, so that `int` gives a natural number.
  unfoldable pub interpolate : F → List F → F
  interpolate quantile sorted =
      let last = fl.sub (fl.of_int (length sorted)) fl.one in
      let rank = fl.mul quantile last in
      let lower = fl.floor rank in
      let upper = fl.min last (fl.add lower fl.one) in
      let weight = fl.sub rank lower in
      fl.add
        (fl.mul (get_or sorted (clamp_index (fl.to_int lower) sorted) fl.nan)
          (fl.sub fl.one weight))
        (fl.mul (get_or sorted (clamp_index (fl.to_int (fl.floor upper)) sorted) fl.nan) weight)

  unfoldable pub calculate_quantile_from_values : F → List F → F
  unfolding interpolate
  calculate_quantile_from_values quantile values =
      if is_empty values
      then fl.nan
      else if fl.is_nan quantile
      then fl.nan
      else if fl.lt quantile fl.zero
      then fl.neg_inf
      else if fl.lt fl.one quantile
      then fl.inf
      else interpolate quantile (sort_by float_less values)

  -- Result; the value of a minimum or maximum without values is 0.
  unfoldable pub result : Reducer → F
  unfolding variance_result calculate_quantile_from_values
  result (sum_reducer total) = total
  result (count_reducer n) = n
  result (min_reducer none) = fl.zero
  result (min_reducer (some value)) = value
  result (max_reducer none) = fl.zero
  result (max_reducer (some value)) = value
  result (avg_reducer total n) = if fl.eq n fl.zero then fl.nan else fl.div total n
  result (stdvar_reducer r) = variance_result r
  result (stddev_reducer r) = fl.sqrt (variance_result r)
  result (quantile_reducer q values) = calculate_quantile_from_values q values
  result (group_reducer seen) = if seen then fl.one else fl.nan

  abbrev no_variance : Variance
  no_variance = record { count = fl.zero; mean = fl.zero; m2 = fl.zero }

  unfoldable pub new_aggregate_reducer : AggregateOp → Option F → Result Error Reducer
  new_aggregate_reducer AggregateOp.sum p = ok (sum_reducer fl.zero)
  new_aggregate_reducer AggregateOp.count p = ok (count_reducer fl.zero)
  new_aggregate_reducer AggregateOp.min p = ok (min_reducer none)
  new_aggregate_reducer AggregateOp.max p = ok (max_reducer none)
  new_aggregate_reducer AggregateOp.avg p = ok (avg_reducer fl.zero fl.zero)
  new_aggregate_reducer AggregateOp.stdvar p = ok (stdvar_reducer no_variance)
  new_aggregate_reducer AggregateOp.stddev p = ok (stddev_reducer no_variance)
  new_aggregate_reducer AggregateOp.quantile none =
      err (requires_scalar_parameter AggregateOp.quantile)
  new_aggregate_reducer AggregateOp.quantile (some q) = ok (quantile_reducer q [])
  new_aggregate_reducer AggregateOp.group p = ok (group_reducer false)
  new_aggregate_reducer op p = err (not_implemented op)
