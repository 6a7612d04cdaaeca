-- ===== src/LabelFunctions/Labels.antt =====
-- What label_join and label_replace do to a label set: one label has a new value, or is gone.
use promshim_clickhouse.Base.{
  ◌≡◌, refl, if◌then◌else◌, none, some, Bool-cases, inl, inr, is_empty, map,
}
use promshim_clickhouse.Bytes.{join_strings, Bytes, bytes_eq}
use promshim_clickhouse.Labels.{Metric, get, get_value}
use promshim_clickhouse.Labels.Maps.{get-put, get-delete}
use promshim_clickhouse.Plans.{LabelJoinConfig}
use promshim_clickhouse.LabelFunctions.{set_label, label_join_metric}

get-set_label :
    (m : Metric) (dst value k : Bytes)
    → get (set_label m dst value) k
      ≡ (if bytes_eq dst k then (if is_empty value then none else some value) else get m k)
unfolding set_label
get-set_label m dst value k = elim (Bool-cases (is_empty value)) [
  | inl e ↦ rw (e, get-delete m dst k) refl
  | inr e ↦ rw (e, get-put m dst value k) refl
]

get-label_join_metric :
    (cfg : LabelJoinConfig) (m : Metric) (k : Bytes)
    → let joined = join_strings cfg.separator (map (get_value m) cfg.src_labels) in
      get (label_join_metric cfg m) k
      ≡ (if bytes_eq cfg.dst k then (if is_empty joined then none else some joined) else get m k)
unfolding label_join_metric
get-label_join_metric cfg m k = get-set_label m cfg.dst _ k
