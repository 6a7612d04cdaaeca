-- ===== src/LabelFunctions/Examples.antt =====
-- label_join and label_replace of internal/promshim/local/exec/labelmut.go on a concrete vector.
use promshim_clickhouse.Base.{ℕ, List, [], ◌∷◌, Option, some}
use promshim_clickhouse.Bytes.{Bytes}
use promshim_clickhouse.Bytes.Text.{text}
use promshim_clickhouse.Floats.{nat_floats}
use promshim_clickhouse.Matching.Join.{Sample}
use promshim_clickhouse.Plans.{LabelReplaceConfig, LabelJoinConfig}
use promshim_clickhouse.LabelFunctions.{
  vector_value, label_join_metric, label_replace_metric, apply_label_join_runtime_value,
  apply_label_replace_runtime_value,
}
use promshim_clickhouse.LabelFunctions.Merge.{Changed, apply_label_functions-Changed}

abbrev sample : Bytes → ℕ → Sample nat_floats
sample host v = record {
  metric = (text "host", host) ∷ (text "job", text "api") ∷ [];
  timestamp = 5;
  value = v;
}

abbrev samples : List (Sample nat_floats)
samples = sample (text "b") 1 ∷ sample (text "a") 2 ∷ []

-- A regular expression that matches every text, and replaces it by the replacement as it is.
abbrev expand : ℕ → Bytes → Bytes → Option Bytes
expand regex repl value = some repl

abbrev to_same_host : LabelReplaceConfig ℕ
to_same_host = record { dst = text "host"; repl = text "x"; src = text "job"; regex = 0 }

abbrev both : LabelJoinConfig
both = record { dst = text "id"; separator = text "/"; src_labels = text "job" ∷ text "host" ∷ [] }

apply_label_functions-Changed_example :
    Changed nat_floats
      (label_join_metric both)
      samples
      (apply_label_join_runtime_value nat_floats (vector_value samples) both)
    × Changed nat_floats
        (label_replace_metric expand to_same_host)
        samples
        (apply_label_replace_runtime_value nat_floats expand (vector_value samples) to_same_host)
apply_label_functions-Changed_example =
    apply_label_functions-Changed nat_floats expand to_same_host both samples
