-- ===== src/Lineage/Examples.antt =====
-- The lineage of internal/promshim/logical/lineage.go on an aggregation of an aggregation.
use promshim_clickhouse.Base.{[], ◌∷◌, true, false}
use promshim_clickhouse.Bytes.Text.{text}
use promshim_clickhouse.Labels.{Metric, metric_name, aggregation_metric}
use promshim_clickhouse.Lineage.{leaf_lineage, aggregation_lineage}
use promshim_clickhouse.Lineage.Aggregated.{
  Describes, leaf_lineage-Describes, aggregation_lineage-Describes,
}

abbrev up : Metric
up = (metric_name, text "up") ∷ (text "job", text "api") ∷ (text "host", text "a") ∷ []

aggregation_lineage-Describes_example :
    Describes
      (aggregation_lineage
        (aggregation_lineage leaf_lineage (text "host" ∷ []) true)
        (text "job" ∷ [])
        false)
      up
      (aggregation_metric (aggregation_metric up (text "host" ∷ []) true) (text "job" ∷ []) false)
aggregation_lineage-Describes_example =
    aggregation_lineage-Describes (aggregation_lineage leaf_lineage (text "host" ∷ []) true) up
      (aggregation_metric up (text "host" ∷ []) true) (text "job" ∷ []) false
      (aggregation_lineage-Describes leaf_lineage up up (text "host" ∷ []) true
        (leaf_lineage-Describes up))
