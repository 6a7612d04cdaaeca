-- ===== src/Rules/Examples.antt =====
-- Recording rules of internal/promshim/rules/registry.go, registered in turn.
use promshim_clickhouse.Base.{ℕ, ◌≡◌, refl, List, [], ◌∷◌, some, none, true, ◌↔◌}
use promshim_clickhouse.Base.Int.{pos}
use promshim_clickhouse.Bytes.{Bytes, bytes_eq}
use promshim_clickhouse.Bytes.Text.{text}
use promshim_clickhouse.Labels.{Metric, get_value, get}
use promshim_clickhouse.Labels.Maps.{SameMap}
use promshim_clickhouse.Rules.{
  RecordingRule, empty_registry, add_all, maps_equal, same_rule, has_values,
}
use promshim_clickhouse.Rules.Resolve.{answers, answers-add_all_lem}
use promshim_clickhouse.Rules.Maps.{maps_equal_iff}

abbrev rule : Bytes → Bytes → Metric → RecordingRule ℕ ℕ
rule name expr labels = record {
  name = name;
  expr = 0;
  expr_string = expr;
  labels = labels;
  group_name = [];
  group_labels = [];
  interval = pos 0;
  query_offset = pos 0;
  source = [];
}

-- Two rules of one name with different expressions, and one of another name.
abbrev rules : List (RecordingRule ℕ ℕ)
rules =
    rule (text "r") (text "a") []
    ∷ rule (text "s") (text "a") []
    ∷ rule (text "r") (text "b") []
    ∷ []

answers-add_all_lem_example :
    answers ℕ ℕ (add_all ℕ ℕ (empty_registry ℕ ℕ) rules) (text "r")
    ≡ (none, some (rule (text "r") (text "a") [] ∷ rule (text "r") (text "b") [] ∷ []))
unfolding same_rule bytes_eq
answers-add_all_lem_example = answers-add_all_lem ℕ ℕ rules (text "r")

maps_equal_iff_example :
    (maps_equal ((text "a", text "1") ∷ []) ((text "b", text "1") ∷ []) ≡ true)
    ↔ SameMap ((text "a", text "1") ∷ []) ((text "b", text "1") ∷ [])
maps_equal_iff_example =
    maps_equal_iff ((text "a", text "1") ∷ []) ((text "b", text "1") ∷ []) (refl, tt) (refl, tt)
      (refl, tt)

-- With an empty value, maps with different keys are equal to mapsEqual.
maps_equal_empty_value : maps_equal ((text "a", []) ∷ []) ((text "b", text "1") ∷ []) ≡ true
unfolding maps_equal has_values get_value get bytes_eq
maps_equal_empty_value = refl
