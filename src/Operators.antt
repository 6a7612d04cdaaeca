-- ===== src/Operators.antt =====
-- internal/promshim/local/exec/localexpr.go: the unary operators, the binary operators between a vector
-- and a scalar, and the check that no label set occurs twice in a result.
pub mod Unary
mod Filter
mod Unique
mod Examples
use promshim_clickhouse.Base.{
  Bool, true, false, not, List, [], ◌∷◌, ◌++◌, map, Option, none, some, if◌then◌else◌, Result, ok,
  err, ◌>>=◌,
}
use promshim_clickhouse.Bytes.{Bytes}
use promshim_clickhouse.Bytes.Sort.{contains}
use promshim_clickhouse.Bytes.Dict
use promshim_clickhouse.Labels.{Metric, InstantSample, labels_key, drop_metric_name}
use promshim_clickhouse.Floats.{Floats}
use promshim_clickhouse.Matching.{Op, is_comparison}
use promshim_clickhouse.Matching.Join.{Sample, apply_scalar_binary, bool_to_float}
use promshim_clickhouse.Points.{RangePoint, sort_and_validate_range_points}
use promshim_clickhouse.Chunks.{RangeSeries, Series}

-- model.ErrDuplicateLabelsetTimestamps
pub data Error : Type 0 where
  duplicate_labelset : Error

module _ (fl : Floats) where
  open fl use {F}

  unfoldable pub apply_unary_scalar : Op → F → F
  apply_unary_scalar Op.sub value = fl.neg value
  apply_unary_scalar _ value = value

  abbrev pub negate_sample : Sample fl → Sample fl
  negate_sample s = record {
    metric = drop_metric_name s.metric;
    timestamp = s.timestamp;
    value = fl.neg s.value;
  }

  unfoldable pub apply_unary_to_samples : Op → List (Sample fl) → List (Sample fl)
  apply_unary_to_samples Op.add samples = samples
  apply_unary_to_samples _ samples = map negate_sample samples

  abbrev pub negate_series : Series fl → Series fl
  negate_series s = record {
    metric = drop_metric_name s.metric;
    values = map (λ p. record { timestamp = p.timestamp; value = fl.neg p.value }) s.values;
  }

  unfoldable pub apply_unary_to_series : Op → List (Series fl) → List (Series fl)
  apply_unary_to_series Op.add series = series
  apply_unary_to_series _ series = map negate_series series

  -- What one value of the vector and the scalar give: a value, or nothing where a comparison fails;
  -- `none` is the panic of applyScalarBinary.
  unfoldable pub scalar_output : Op → F → F → Bool → Bool → Option (Option F)
  unfolding apply_scalar_binary is_comparison bool_to_float
  scalar_output op vector scalar swap return_bool =
      let lhs = if swap then scalar else vector in
      let rhs = if swap then vector else scalar in
      elim (apply_scalar_binary fl op lhs rhs) [
        | none ↦ none
        | some value ↦
            let kept = not (fl.eq value fl.zero) in
            if is_comparison op
            then (if return_bool
                then some (some (bool_to_float fl kept))
                else if kept
                then some (some vector)
                else some none)
            else some (some value)
      ]

  unfoldable pub scalar_output_metric : Op → Bool → Metric → Metric
  unfolding is_comparison
  scalar_output_metric op return_bool metric =
      if is_comparison op
      then (if return_bool then drop_metric_name metric else metric)
      else drop_metric_name metric

  abbrev cons_output : {A : Type 0} → Option (Option A) → Option (List A) → Option (List A)
  cons_output none rest = none
  cons_output (some out) none = none
  cons_output (some none) (some rest) = some rest
  cons_output (some (some a)) (some rest) = some (a ∷ rest)

  abbrev with_value : {A : Type 0} → (F → A) → Option (Option F) → Option (Option A)
  with_value f none = none
  with_value f (some none) = some none
  with_value f (some (some v)) = some (some (f v))

  unfoldable pub apply_vector_scalar_binary_instant :
      Op → List (Sample fl) → F → Bool → Bool → Option (List (Sample fl))
  unfolding scalar_output scalar_output_metric
  apply_vector_scalar_binary_instant op [] scalar swap return_bool = some []
  apply_vector_scalar_binary_instant op (s ∷ rest) scalar swap return_bool =
      cons_output
        (with_value
          (λ v. record {
            metric = scalar_output_metric op return_bool s.metric;
            timestamp = s.timestamp;
            value = v;
          })
          (scalar_output op s.value scalar swap return_bool))
        (apply_vector_scalar_binary_instant op rest scalar swap return_bool)

  -- The points of one series.
  unfoldable pub scalar_points :
      Op → List (RangePoint F) → F → Bool → Bool → Option (List (RangePoint F))
  unfolding scalar_output
  scalar_points op [] scalar swap return_bool = some []
  scalar_points op (p ∷ rest) scalar swap return_bool =
      cons_output
        (with_value (λ v. record { timestamp = p.timestamp; value = v })
          (scalar_output op p.value scalar swap return_bool))
        (scalar_points op rest scalar swap return_bool)

  -- A series without points is left out.
  abbrev series_output : Metric → Option (List (RangePoint F)) → Option (Option (Series fl))
  series_output metric none = none
  series_output metric (some []) = some none
  series_output metric (some (p ∷ ps)) = some (some (record { metric = metric; values = p ∷ ps }))

  unfoldable pub apply_vector_scalar_binary_range :
      Op → List (Series fl) → F → Bool → Bool → Option (List (Series fl))
  unfolding scalar_points scalar_output_metric
  apply_vector_scalar_binary_range op [] scalar swap return_bool = some []
  apply_vector_scalar_binary_range op (s ∷ rest) scalar swap return_bool =
      cons_output
        (series_output (scalar_output_metric op return_bool s.metric)
          (scalar_points op s.values scalar swap return_bool))
        (apply_vector_scalar_binary_range op rest scalar swap return_bool)

  -- The loop of ensureUniqueInstantLabelsets; with at most one sample it never fails.
  unfoldable pub ensure_unique_from : List Bytes → List (Sample fl) → Result Error (Unit {0})
  ensure_unique_from seen [] = ok tt
  ensure_unique_from seen (s ∷ rest) =
      let next = ensure_unique_from (labels_key s.metric ∷ seen) rest in
      if contains (labels_key s.metric) seen then err duplicate_labelset else next

  unfoldable pub ensure_unique_instant_labelsets : List (Sample fl) → Result Error (Unit {0})
  unfolding ensure_unique_from
  ensure_unique_instant_labelsets [] = ok tt
  ensure_unique_instant_labelsets (s ∷ []) = ok tt
  ensure_unique_instant_labelsets (s ∷ t ∷ rest) = ensure_unique_from [] (s ∷ t ∷ rest)
