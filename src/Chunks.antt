-- ===== src/Chunks.antt =====
-- internal/promshim/local/chunking.go: a range evaluation split into chunks, and the matrices of the
-- chunks merged.
pub mod Split
pub mod Merge
pub mod Execute
pub mod Joins
pub mod Total
mod Examples
use promshim_clickhouse.Base.{
  ℕ, zero, suc, ◌+◌, ◌-◌, Bool, true, false, List, [], ◌∷◌, ◌++◌, map, Option, none, some, Result,
  ok, err, ltb, if◌then◌else◌, ◌>>=◌,
}
use promshim_clickhouse.Base.Int.{ℤ, pos, leb_ℤ, ltb_ℤ, wrap64, ◌+ℤ◌, ◌-ℤ◌, ◌*ℤ◌, ◌/ℤ◌}
use promshim_clickhouse.Bytes.{Bytes}
use promshim_clickhouse.Bytes.Dict
use promshim_clickhouse.Labels.{Metric, labels_key}
use promshim_clickhouse.Floats.{Floats}
use promshim_clickhouse.Time.{add_time, sub_time}
use promshim_clickhouse.Points.{RangePoint, append_range_points_strict, range_fuel}

pub data Mode : Type 0 where
  instant range : Mode

pub record EvalParams : Type 0 where
  pub mode : Mode
  pub evaluation_time : ℕ
  pub start : ℕ
  pub last : ℕ
  pub step : ℤ

pub data Error : Type 0 where
  step_not_positive : Error
  chunk_not_positive : Error
  non_increasing_merge : Bytes → Error
  not_a_matrix : Error
  child_failed : Error
  -- the model's own: the fuel of the loop ran out, which no theorem leaves open
  out_of_fuel : Error

-- int64(params.End.Sub(currentStart)/params.Step) + 1
unfoldable pub remaining_points : EvalParams → ℕ → ℤ
remaining_points p current = wrap64 (wrap64 (sub_time p.last current /ℤ p.step) +ℤ pos 1)

unfoldable pub points_this_chunk : EvalParams → ℤ → ℕ → ℤ
points_this_chunk p chunk current =
    let remaining = remaining_points p current in if ltb_ℤ remaining chunk then remaining else chunk

-- currentEnd
unfoldable pub chunk_last : EvalParams → ℤ → ℕ → ℕ
chunk_last p chunk current =
    let e =
      add_time current (wrap64 (p.step *ℤ wrap64 (points_this_chunk p chunk current -ℤ pos 1))) in
    if ltb p.last e then p.last else e

unfoldable pub split_from : ℕ → EvalParams → ℤ → ℕ → Option (List EvalParams)
split_from zero p chunk current = none
split_from (suc fuel) p chunk current =
    let e = chunk_last p chunk current in
    let rest = split_from fuel p chunk (add_time e p.step) in
    if ltb p.last current
    then some []
    else elim rest [ none ↦ none | some cs ↦ some (record p { start = current; last = e } ∷ cs) ]

abbrev pub is_range : Mode → Bool
is_range instant = false
is_range range = true

unfoldable pub split_range_into_chunks : EvalParams → ℤ → Result Error (List EvalParams)
split_range_into_chunks p chunk =
    if is_range p.mode
    then (if leb_ℤ p.step (pos 0)
        then err step_not_positive
        else if leb_ℤ chunk (pos 0)
        then err chunk_not_positive
        else elim (split_from (range_fuel p.start p.last) p chunk p.start) [
          | none ↦ err out_of_fuel
          | some cs ↦ ok cs
        ])
    else ok (p ∷ [])

pub record RangeSeries (F : Type 0) : Type 0 where
  pub metric : Metric
  pub values : List (RangePoint F)

module _ (fl : Floats) where
  open fl use {F}

  abbrev pub Series : Type 0
  Series = RangeSeries F

  unfoldable pub index_left : List (Bytes × Series) → List Series → List (Bytes × Series)
  index_left merged [] = merged
  index_left merged (s ∷ rest) = index_left (Dict.store merged (labels_key s.metric) s) rest

  -- One round of the loop over the right matrix.
  unfoldable pub merge_series :
      List (Bytes × Series) → Series → Result Error (List (Bytes × Series))
  unfolding append_range_points_strict
  merge_series merged s =
      let key = labels_key s.metric in
      elim (Dict.lookup merged key) [
        | some existing ↦ elim (append_range_points_strict fl existing.values s.values) [
          | ok values ↦ ok (Dict.store merged key (record existing { values = values }))
          | err _ ↦ err (non_increasing_merge key)
        ]
        | none ↦ ok (Dict.store merged key s)
      ]

  unfoldable pub merge_right :
      List (Bytes × Series) → List Series → Result Error (List (Bytes × Series))
  unfolding merge_series
  merge_right merged [] = ok merged
  merge_right merged (s ∷ rest) = merge_series merged s >>= λ merged'. merge_right merged' rest

  unfoldable pub merge_matrix_values : List Series → List Series → Result Error (List Series)
  unfolding index_left merge_right
  merge_matrix_values [] right = ok right
  merge_matrix_values (l ∷ left) right = do
    merged ← merge_right (index_left [] (l ∷ left)) right
    ok (Dict.values_at merged (Dict.sorted_map_keys merged))

  -- The loop of chunkedRangePlan.execute; `child` evaluates the child plan, to a matrix or not.
  unfoldable pub execute_chunks :
      (EvalParams → Result Error (Option (List Series)))
      → List Series
      → List EvalParams
      → Result Error (List Series)
  unfolding merge_matrix_values
  execute_chunks child merged [] = ok merged
  execute_chunks child merged (c ∷ chunks) = do
    value ← child c
    matrix ← elim value [ none ↦ err not_a_matrix | some matrix ↦ ok matrix ]
    merged' ← merge_matrix_values merged matrix
    execute_chunks child merged' chunks

  -- chunkedRangePlan.execute in range mode; in instant mode the child's value is returned as it is.
  unfoldable pub execute_range :
      (EvalParams → Result Error (Option (List Series)))
      → EvalParams
      → ℤ
      → Result Error (List Series)
  execute_range child p chunk = do
    chunks ← split_range_into_chunks p chunk
    execute_chunks child [] chunks
