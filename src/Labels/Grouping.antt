-- ===== src/Labels/Grouping.antt =====
-- The label set of a group: what `by` and `without`, and the removal of the metric name, leave.
use promshim_clickhouse.Base.{
  Bool, true, false, List, [], ◌∷◌, none, some, if◌then◌else◌, ◌≡◌, ◌∙◌, arith, Bool-cases, inl,
  inr, Option-cases, ◌||◌,
}
use promshim_clickhouse.Bytes.{Bytes, bytes_eq, bytes_eq_sound, Lacks}
use promshim_clickhouse.Bytes.Sort.{contains}
use promshim_clickhouse.Labels.{
  Metric, IsMap, get, put, without_keys, copy_labels, metric_name, aggregation_metric,
}
use promshim_clickhouse.Labels.Maps.{
  get-without_keys, get-copy_labels, without_keys-IsMap, copy_labels-IsMap,
}
use promshim_clickhouse.Labels.Key.{IsPlain}

-- `by` keeps exactly the listed names that the series has; `without` keeps exactly the names that are
-- neither listed nor the metric name. What is kept has its old value.
pub get-aggregation_metric :
    (m : Metric) (grouping : List Bytes) (without : Bool) (k : Bytes)
    → get (aggregation_metric m grouping without) k ≡ (
        if without
        then (if bytes_eq k metric_name || contains k grouping then none else get m k)
        else (if contains k grouping then get m k else none))
unfolding aggregation_metric get
get-aggregation_metric m grouping true k = get-without_keys (metric_name ∷ grouping) m k
get-aggregation_metric m grouping false k =
    get-copy_labels m grouping [] k ∙ ground (arith, get m k)

pub aggregation_metric-IsMap :
    (m : Metric) (grouping : List Bytes) (without : Bool)
    → IsMap m
    → IsMap (aggregation_metric m grouping without)
unfolding aggregation_metric
aggregation_metric-IsMap m grouping true h = without_keys-IsMap (metric_name ∷ grouping) m h
aggregation_metric-IsMap m grouping false h = copy_labels-IsMap m grouping [] tt

get-plain : (m : Metric) (k v : Bytes) → IsPlain m → get m k ≡ some v → Lacks 0xff k × Lacks 0xfe v
unfolding get
get-plain [] k v h e = ground (arith, e)
get-plain ((j, w) ∷ m) k v h e = elim (Bool-cases (bytes_eq k j)) [
  | inl q ↦
      let same : w ≡ v = ground (arith, e, q) in (rw (bytes_eq_sound k j q) h.0, rw (← same) h.1)
  | inr q ↦ get-plain m k v h.2 (ground (arith, e, q))
]

put-IsPlain :
    (m : Metric) (k v : Bytes) → Lacks 0xff k → Lacks 0xfe v → IsPlain m → IsPlain (put m k v)
unfolding put
put-IsPlain [] k v hk hv h = (hk, hv, tt)
put-IsPlain ((j, w) ∷ m) k v hk hv h = elim (Bool-cases (bytes_eq k j)) [
  | inl e ↦ rw (e, put) (hk, hv, h.2)
  | inr e ↦ rw (e, put) (h.0, h.1, put-IsPlain m k v hk hv h.2)
]

pub copy_labels-IsPlain :
    (m : Metric) (labels : List Bytes) (result : Metric)
    → IsPlain m
    → IsPlain result
    → IsPlain (copy_labels m labels result)
unfolding copy_labels
copy_labels-IsPlain m [] result h hr = hr
copy_labels-IsPlain m (l ∷ labels) result h hr = elim (Option-cases (get m l)) [
  | inl e ↦ rw (e, copy_labels) (copy_labels-IsPlain m labels result h hr)
  | inr (v, e) ↦
      let (hl, hv) = get-plain m l v h e in
      rw (e, copy_labels)
        (copy_labels-IsPlain m labels (put result l v) h (put-IsPlain result l v hl hv hr))
]

pub without_keys-IsPlain :
    (excluded : List Bytes) (m : Metric) → IsPlain m → IsPlain (without_keys excluded m)
unfolding without_keys
without_keys-IsPlain excluded [] h = tt
without_keys-IsPlain excluded ((k, v) ∷ m) h = elim (Bool-cases (contains k excluded)) [
  | inl e ↦ rw (e, without_keys) (without_keys-IsPlain excluded m h.2)
  | inr e ↦ rw (e, without_keys) (h.0, h.1, without_keys-IsPlain excluded m h.2)
]
