-- ===== src/Labels.antt =====
-- internal/promshim/model/labels.go and types.go: label sets, the samples that carry them, and the
-- operations on label sets. A Go map is a list of entries in the order in which one iteration meets
-- them; `IsMap` says that no key occurs twice. A Go string is a list of bytes.
pub mod Maps
pub mod Key
pub mod Grouping
mod Examples
use promshim_clickhouse.Base.{
  ℕ, Bool, List, [], ◌∷◌, ◌++◌, map, Option, none, some, select, not, if◌then◌else◌, ◌≡◌, false,
  Result,
}
use promshim_clickhouse.Bytes.{Bytes, bytes_eq}
use promshim_clickhouse.Bytes.Sort.{sort_strings, contains, Distinct}

abbrev pub Metric : Type 0
Metric = List (Bytes × Bytes)

abbrev pub keys : Metric → List Bytes
keys [] = []
keys ((k, v) ∷ m) = k ∷ keys m

abbrev pub IsMap : Metric → Type 0
IsMap m = Distinct (keys m)

-- value, ok := metric[key]
unfoldable pub get : Metric → Bytes → Option Bytes
get [] k = none
get ((j, v) ∷ m) k = if bytes_eq k j then some v else get m k

-- metric[key], the empty string where the key is missing
unfoldable pub get_value : Metric → Bytes → Bytes
unfolding get
get_value m k = elim (get m k) [ none ↦ [] | some v ↦ v ]

-- delete(metric, key)
unfoldable pub delete : Metric → Bytes → Metric
delete [] k = []
delete ((j, v) ∷ m) k = if bytes_eq k j then delete m k else (j, v) ∷ delete m k

-- metric[key] = value
unfoldable pub put : Metric → Bytes → Bytes → Metric
put [] k v = (k, v) ∷ []
put ((j, w) ∷ m) k v = if bytes_eq k j then (k, v) ∷ m else (j, w) ∷ put m k v

-- A loop over the map that skips the entries whose key is in `excluded`.
unfoldable pub without_keys : List Bytes → Metric → Metric
without_keys excluded [] = []
without_keys excluded ((k, v) ∷ m) =
    if contains k excluded then without_keys excluded m else (k, v) ∷ without_keys excluded m

-- The loop `for _, label := range labels { if value, ok := metric[label]; ok { result[label] = value } }`.
unfoldable pub copy_labels : Metric → List Bytes → Metric → Metric
unfolding get put
copy_labels metric [] result = result
copy_labels metric (label ∷ labels) result =
    copy_labels metric labels
      (elim (get metric label) [ none ↦ result | some value ↦ put result label value ])

-- "__name__"
abbrev pub metric_name : Bytes
metric_name = 95 ∷ 95 ∷ 110 ∷ 97 ∷ 109 ∷ 101 ∷ 95 ∷ 95 ∷ []

pub record NormalizedLabel : Type 0 where
  pub name : Bytes
  pub value : Bytes

label_at : Metric → Bytes → NormalizedLabel
unfolding get_value
label_at m k = record { name = k; value = get_value m k }

unfoldable pub normalize_label_set : Metric → List NormalizedLabel
unfolding label_at
normalize_label_set m = map (label_at m) (sort_strings (keys m))

-- name, 0xff, value, 0xfe for each label
unfoldable pub write_labels : List NormalizedLabel → Bytes
write_labels [] = []
write_labels (l ∷ ls) = l.name ++ (0xff ∷ (l.value ++ (0xfe ∷ write_labels ls)))

unfoldable pub labels_key : Metric → Bytes
unfolding normalize_label_set write_labels
labels_key m = write_labels (normalize_label_set m)

unfoldable pub aggregation_metric : Metric → List Bytes → Bool → Metric
unfolding without_keys copy_labels
aggregation_metric m grouping without =
    if without then without_keys (metric_name ∷ grouping) m else copy_labels m grouping []

unfoldable pub drop_metric_name : Metric → Metric
unfolding without_keys
drop_metric_name m = without_keys (metric_name ∷ []) m

-- The samples of types.go over a type of floats.
pub record InstantSample {ℓ} (F : Type ℓ) : Type ℓ where
  pub metric : Metric
  pub timestamp : F
  pub value : F
