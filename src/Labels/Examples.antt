-- ===== src/Labels/Examples.antt =====
-- Label sets of internal/promshim/model/labels.go on concrete inputs.
use promshim_clickhouse.Base.{[], ◌∷◌, arith, ◌≡◌, refl, ◌↔◌}
use promshim_clickhouse.Bytes.{bytes_eq}
use promshim_clickhouse.Labels.{Metric, metric_name, labels_key}
use promshim_clickhouse.Labels.Maps.{SameMap}
use promshim_clickhouse.Labels.Key.{IsPlain, labels_key_iff}

-- {__name__="up", job="a"}, and its entries in the other order
abbrev up_job : Metric
up_job = (metric_name, 117 ∷ 112 ∷ []) ∷ (106 ∷ 111 ∷ 98 ∷ [], 97 ∷ []) ∷ []

abbrev job_up : Metric
job_up = (106 ∷ 111 ∷ 98 ∷ [], 97 ∷ []) ∷ (metric_name, 117 ∷ 112 ∷ []) ∷ []

up_job-IsPlain : IsPlain up_job
up_job-IsPlain = ground arith

job_up-IsPlain : IsPlain job_up
job_up-IsPlain = ground arith

labels_key_iff_example : (labels_key up_job ≡ labels_key job_up) ↔ SameMap up_job job_up
unfolding bytes_eq
labels_key_iff_example =
    labels_key_iff up_job job_up (refl, (refl, tt)) (refl, (refl, tt)) up_job-IsPlain job_up-IsPlain
