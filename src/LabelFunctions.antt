-- ===== src/LabelFunctions.antt =====
-- internal/promshim/local/exec/labelmut.go and model/label_transform.go: label_replace and label_join. The
-- regular expressions are a parameter: their type, their compilation, and what a match of a text makes of a
-- replacement, none where the text does not match; so is the parser's test of label names.
mod Index
mod Merge
mod Labels
mod Examples
use promshim_clickhouse.Base.{
  Bool, not, List, [], ◌∷◌, ◌++◌, map, any, Option, none, some, if◌then◌else◌, is_empty, Result, ok,
  err, ◌>>=◌,
}
use promshim_clickhouse.Bytes.{Bytes, join_strings}
use promshim_clickhouse.Bytes.Text.{text}
use promshim_clickhouse.Bytes.Dict.{lookup, store, sorted_map_keys, values_at}
use promshim_clickhouse.Labels.{Metric, InstantSample, get_value, put, delete, labels_key}
use promshim_clickhouse.Floats.{Floats}
use promshim_clickhouse.Points.{RangePoint, sort_and_validate_range_points}
use promshim_clickhouse.Plans.{LabelReplaceConfig, LabelJoinConfig}
use promshim_clickhouse.Matching.Join.{Sample}
use promshim_clickhouse.Chunks.{RangeSeries, Series}

pub data Error : Type 0 where
  same_labelset duplicate_timestamps not_vector_or_matrix : Error
  invalid_regex invalid_destination invalid_source : Bytes → Error

-- The label with the new value, which is removed where that is empty.
unfoldable pub set_label : Metric → Bytes → Bytes → Metric
set_label m dst value = if is_empty value then delete m dst else put m dst value

unfoldable pub label_join_metric : LabelJoinConfig → Metric → Metric
unfolding join_strings set_label
label_join_metric cfg m =
    set_label m cfg.dst (join_strings cfg.separator (map (get_value m) cfg.src_labels))

unfoldable pub build_label_join_config :
    (Bytes → Bool) → Bytes → Bytes → List Bytes → Result Error LabelJoinConfig
build_label_join_config is_valid dst separator [] =
    if not (is_valid dst)
    then err (invalid_destination dst)
    else ok (record { dst = dst; separator = separator; src_labels = [] })
build_label_join_config is_valid dst separator (src ∷ rest) =
    let later = build_label_join_config is_valid dst separator rest in
    if not (is_valid src)
    then err (invalid_source src)
    else later >>= λ cfg. ok (record cfg { src_labels = src ∷ cfg.src_labels })

module _ {R : Type 0} (expand : R → Bytes → Bytes → Option Bytes) where
  unfoldable pub label_replace_metric : LabelReplaceConfig R → Metric → Metric
  unfolding set_label
  label_replace_metric cfg m = elim (expand cfg.regex cfg.repl (get_value m cfg.src)) [
    | none ↦ m
    | some replaced ↦ set_label m cfg.dst replaced
  ]

unfoldable pub build_label_replace_config :
    {R : Type 0}
    → (Bytes → Option R)
    → (Bytes → Bool)
    → Bytes
    → Bytes
    → Bytes
    → Bytes
    → Result Error (LabelReplaceConfig R)
build_label_replace_config compile is_valid dst repl src regex =
    elim (compile (text "^(?s:" ++ (regex ++ text ")$"))) [
      | none ↦ err (invalid_regex regex)
      | some compiled ↦
          if not (is_valid dst)
          then err (invalid_destination dst)
          else ok (record { dst = dst; repl = repl; src = src; regex = compiled })
    ]

module _ (fl : Floats) where
  open fl use {F}

  pub data RuntimeValue : Type 0 where
    scalar_value : (timestamp value : F) → RuntimeValue
    vector_value : List (Sample fl) → RuntimeValue
    matrix_value : List (Series fl) → RuntimeValue

  unfoldable pub index_samples :
      List (Bytes × Sample fl) → List (Sample fl) → Result Error (List (Bytes × Sample fl))
  index_samples merged [] = ok merged
  index_samples merged (s ∷ samples) =
      let key = labels_key s.metric in
      let rest = index_samples (store merged key s) samples in
      elim (lookup merged key) [ some existing ↦ err same_labelset | none ↦ rest ]

  unfoldable pub merge_samples_with_same_labelset :
      List (Sample fl) → Result Error (List (Sample fl))
  unfolding index_samples
  merge_samples_with_same_labelset [] = ok []
  merge_samples_with_same_labelset (s ∷ []) = ok (s ∷ [])
  merge_samples_with_same_labelset (s ∷ t ∷ rest) =
      index_samples [] (s ∷ t ∷ rest) >>= λ merged. ok (values_at merged (sorted_map_keys merged))

  unfoldable pub group_series :
      List (Bytes × Series fl) → List (Series fl) → List (Bytes × Series fl)
  group_series grouped [] = grouped
  group_series grouped (s ∷ series) =
      let key = labels_key s.metric in
      group_series
        (elim (lookup grouped key) [
          | some existing ↦
              store grouped key (record existing { values = existing.values ++ s.values })
          | none ↦ store grouped key s
        ])
        series

  unfoldable pub sort_each : List (Series fl) → Result Error (List (Series fl))
  sort_each [] = ok []
  sort_each (s ∷ series) = elim (sort_and_validate_range_points fl s.values) [
    | err e ↦ err duplicate_timestamps
    | ok values ↦ sort_each series >>= λ rest. ok (record s { values = values } ∷ rest)
  ]

  unfoldable pub merge_series_with_same_labelset :
      List (Series fl) → Result Error (List (Series fl))
  unfolding group_series sort_each
  merge_series_with_same_labelset [] = ok []
  merge_series_with_same_labelset (s ∷ []) = ok (s ∷ [])
  merge_series_with_same_labelset (s ∷ t ∷ rest) =
      let grouped = group_series [] (s ∷ t ∷ rest) in
      sort_each (values_at grouped (sorted_map_keys grouped))

  abbrev pub change_sample : (Metric → Metric) → Sample fl → Sample fl
  change_sample change s = record s { metric = change s.metric }

  abbrev pub change_series : (Metric → Metric) → Series fl → Series fl
  change_series change s = record s { metric = change s.metric }

  -- What label_replace and label_join share: a change of each metric, and the merge.
  unfoldable pub apply_metric_change : (Metric → Metric) → RuntimeValue → Result Error RuntimeValue
  unfolding merge_samples_with_same_labelset merge_series_with_same_labelset
  apply_metric_change change (vector_value samples) =
      merge_samples_with_same_labelset (map (change_sample change) samples) >>= λ merged.
      ok (vector_value merged)
  apply_metric_change change (matrix_value series) =
      merge_series_with_same_labelset (map (change_series change) series) >>= λ merged.
      ok (matrix_value merged)
  apply_metric_change change (scalar_value timestamp value) = err not_vector_or_matrix

  unfoldable pub apply_label_join_runtime_value :
      RuntimeValue → LabelJoinConfig → Result Error RuntimeValue
  unfolding apply_metric_change label_join_metric
  apply_label_join_runtime_value value cfg = apply_metric_change (label_join_metric cfg) value

  unfoldable pub apply_label_replace_runtime_value :
      {R : Type 0}
      → (R → Bytes → Bytes → Option Bytes)
      → RuntimeValue
      → LabelReplaceConfig R
      → Result Error RuntimeValue
  unfolding apply_metric_change label_replace_metric
  apply_label_replace_runtime_value expand value cfg =
      apply_metric_change (label_replace_metric expand cfg) value
