-- ===== src/Sorting.antt =====
-- internal/promshim/local/exec/sort.go: sort, sort_desc, sort_by_label and sort_by_label_desc.
mod Numbers
mod Natural
mod Total
mod Order
mod Sorted
mod Examples
use promshim_clickhouse.Base.{
  ℕ, zero, suc, Bool, true, false, ◌&&◌, List, [], ◌∷◌, if◌then◌else◌, Option, none, some, ltb, leb,
  length,
}
use promshim_clickhouse.Base.Comparison.{
  Comparison, less, equal, greater, flip, or_else, is_less, compare_nat, by_less,
}
use promshim_clickhouse.Bytes.{Bytes, is_digit, bytes_eq, bytes_lt}
use promshim_clickhouse.Bytes.Sort.{sort_by}
use promshim_clickhouse.Labels.{get_value, labels_key}
use promshim_clickhouse.Floats.{Floats}
use promshim_clickhouse.Matching.Join.{Sample}

-- `<` and `>` of strings, and strings.Compare
abbrev pub compare_bytes : Bytes → Bytes → Comparison
compare_bytes = by_less bytes_lt

abbrev pub drop_zeros : Bytes → Bytes
drop_zeros [] = []
drop_zeros (c ∷ s) = elim (compare_nat c b'0') [ equal ↦ drop_zeros s | _ ↦ c ∷ s ]

abbrev pub take_digits : Bytes → Bytes
take_digits [] = []
take_digits (c ∷ s) = if is_digit c then c ∷ take_digits s else []

abbrev pub drop_digits : Bytes → Bytes
drop_digits [] = []
drop_digits (c ∷ s) = if is_digit c then drop_digits s else c ∷ s

-- Two runs of digits, by their numbers.
abbrev pub compare_runs : Bytes → Bytes → Comparison
compare_runs left right =
    or_else (compare_nat (length left) (length right)) (compare_bytes left right)

-- The loop of naturalCompareStrings; each round takes at least one byte of both texts.
unfoldable pub natural_compare : ℕ → Bytes → Bytes → Comparison
natural_compare fuel [] [] = equal
natural_compare fuel [] (d ∷ right) = less
natural_compare fuel (c ∷ left) [] = greater
natural_compare zero (c ∷ left) (d ∷ right) = equal
natural_compare (suc fuel) (c ∷ left) (d ∷ right) = elim (is_digit c && is_digit d) [
  | true ↦
      or_else
        (compare_runs (take_digits (drop_zeros (c ∷ left))) (take_digits (drop_zeros (d ∷ right))))
        (natural_compare fuel (drop_digits (drop_zeros (c ∷ left)))
          (drop_digits (drop_zeros (d ∷ right))))
  | false ↦ or_else (compare_nat c d) (natural_compare fuel left right)
]

unfoldable pub natural_compare_strings : Bytes → Bytes → Comparison
unfolding natural_compare
natural_compare_strings left right = natural_compare (length left) left right

pub data SortFunction : Type 0 where
  sort sort_desc sort_by_label sort_by_label_desc : SortFunction

module _ (fl : Floats) where
  open fl use {F}

  abbrev pub compare_float : F → F → Comparison
  compare_float = by_less fl.lt

  unfoldable pub compare_sample_identity : Sample fl → Sample fl → Bool → Comparison
  compare_sample_identity left right descending =
      let cmp =
        or_else (compare_bytes (labels_key left.metric) (labels_key right.metric))
          (compare_float left.timestamp right.timestamp) in
      if descending then flip cmp else cmp

  unfoldable pub compare_by_value : Sample fl → Sample fl → Bool → Comparison
  unfolding compare_sample_identity
  compare_by_value left right descending =
      if fl.is_nan left.value && fl.is_nan right.value
      then compare_sample_identity left right false
      else if fl.is_nan left.value
      then greater
      else if fl.is_nan right.value
      then less
      else if fl.lt left.value right.value
      then (if descending then greater else less)
      else if fl.lt right.value left.value
      then (if descending then less else greater)
      else compare_sample_identity left right false

  -- The loop over the labels: the first one whose values differ decides.
  unfoldable pub compare_by_labels : Sample fl → Sample fl → List Bytes → Bool → Comparison
  unfolding compare_sample_identity natural_compare_strings
  compare_by_labels left right [] descending = compare_sample_identity left right descending
  compare_by_labels left right (label ∷ labels) descending =
      let lv = get_value left.metric label in
      let rv = get_value right.metric label in
      let rest = compare_by_labels left right labels descending in
      if bytes_eq lv rv
      then rest
      else (if descending
          then flip (natural_compare_strings lv rv)
          else natural_compare_strings lv rv)

  abbrev pub sort_comparison : SortFunction → List Bytes → Sample fl → Sample fl → Comparison
  sort_comparison sort labels left right = compare_by_value left right false
  sort_comparison sort_desc labels left right = compare_by_value left right true
  sort_comparison sort_by_label labels left right = compare_by_labels left right labels false
  sort_comparison sort_by_label_desc labels left right = compare_by_labels left right labels true

  -- ApplySortFunction of a vector, with a function that it knows.
  unfoldable pub apply_sort_function :
      SortFunction → List (Sample fl) → List Bytes → List (Sample fl)
  unfolding compare_by_value compare_by_labels
  apply_sort_function function samples labels =
      sort_by (λ left right. is_less (sort_comparison function labels left right)) samples
