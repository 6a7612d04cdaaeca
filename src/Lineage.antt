-- ===== src/Lineage.antt =====
-- internal/promshim/logical/lineage.go: what a plan does to the labels of its input, name by name. The empty
-- wildcard is none; the clones copy a value and are the identity here.
mod Aggregated
mod Examples
use promshim_clickhouse.Base.{Bool, List, [], ◌∷◌, Option, none, some, if◌then◌else◌}
use promshim_clickhouse.Bytes.{Bytes, bytes_eq}
use promshim_clickhouse.Bytes.Dict.{lookup, store}
use promshim_clickhouse.Labels.{metric_name}

-- LabelLineageState of nodeinfo.go
pub data NameLineage : Type 0 where
  passthrough preserved name_dropped replaced : NameLineage

pub data State : Type 0 where
  original mutated dropped unknown synthetic : State

abbrev pub lineage_state_string : NameLineage → State
lineage_state_string passthrough = original
lineage_state_string preserved = original
lineage_state_string name_dropped = dropped
lineage_state_string replaced = mutated

pub record LabelLineage : Type 0 where
  pub known : List (Bytes × State)
  pub wildcard : Option State
  pub name : NameLineage

abbrev pub leaf_lineage : LabelLineage
leaf_lineage = record {
  known = (metric_name, original) ∷ [];
  wildcard = some original;
  name = passthrough;
}

abbrev pub unknown_lineage : LabelLineage
unknown_lineage = record {
  known = (metric_name, unknown) ∷ [];
  wildcard = some unknown;
  name = passthrough;
}

abbrev pub synthetic_lineage : LabelLineage
synthetic_lineage = record {
  known = (metric_name, dropped) ∷ [];
  wildcard = some dropped;
  name = name_dropped;
}

unfoldable pub add_synthetic : List Bytes → List (Bytes × State) → List (Bytes × State)
add_synthetic [] known = known
add_synthetic (label ∷ labels) known = add_synthetic labels (store known label synthetic)

abbrev pub synthetic_output_lineage : List Bytes → LabelLineage
synthetic_output_lineage labels = record synthetic_lineage {
  known = add_synthetic labels ((metric_name, dropped) ∷ []);
}

-- The loop over the child's known labels, in the order of one iteration from its end.
unfoldable pub copy_known : List (Bytes × State) → List (Bytes × State) → List (Bytes × State)
copy_known [] result = result
copy_known ((label, state) ∷ known) result =
    let rest = copy_known known result in
    if bytes_eq label metric_name then rest else store rest label state

unfoldable pub drop_each : List Bytes → List (Bytes × State) → List (Bytes × State)
drop_each [] result = result
drop_each (label ∷ grouping) result = drop_each grouping (store result label dropped)

abbrev pub kept_state : LabelLineage → Bytes → State
kept_state child label = elim (lookup child.known label) [
  | some state ↦ state
  | none ↦ elim child.wildcard [ some state ↦ state | none ↦ unknown ]
]

unfoldable pub keep_each : LabelLineage → List Bytes → List (Bytes × State) → List (Bytes × State)
keep_each child [] result = result
keep_each child (label ∷ grouping) result =
    keep_each child grouping (store result label (kept_state child label))

unfoldable pub aggregation_lineage : LabelLineage → List Bytes → Bool → LabelLineage
unfolding copy_known drop_each keep_each
aggregation_lineage child grouping without =
    if without
    then record {
      known = drop_each grouping (copy_known child.known ((metric_name, dropped) ∷ []));
      wildcard = child.wildcard;
      name = name_dropped;
    }
    else record {
      known = keep_each child grouping ((metric_name, dropped) ∷ []);
      wildcard = some dropped;
      name = name_dropped;
    }
