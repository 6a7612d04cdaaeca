-- ===== src/Rules.antt =====
-- internal/promshim/rules/registry.go: the registry of recording rules. The rule files, their parser and
-- the file system are parameters; the parser's expressions are a type. A nil map is the empty one.
pub mod Load
pub mod Maps
mod Resolve
mod Examples
use promshim_clickhouse.Base.{
  Bool, true, false, not, ◌&&◌, List, [], ◌∷◌, ◌++◌, Option, none, some, if◌then◌else◌, ◌==◌,
  length, is_empty,
}
use promshim_clickhouse.Base.Int.{ℤ}
use promshim_clickhouse.Bytes.{Bytes, bytes_eq}
use promshim_clickhouse.Bytes.Dict.{lookup, store, remove}
use promshim_clickhouse.Labels.{Metric, get_value}

-- The loop of mapsEqual: an entry of `a` whose value `b` does not have.
unfoldable pub has_values : Metric → Metric → Bool
has_values [] b = true
has_values ((k, v) ∷ a) b = bytes_eq (get_value b k) v && has_values a b

unfoldable pub maps_equal : Metric → Metric → Bool
unfolding has_values
maps_equal a b = length a == length b && has_values a b

module _ (Expr Error : Type 0) where
  pub record RecordingRule : Type 0 where
    pub name : Bytes
    pub expr : Expr
    pub expr_string : Bytes
    pub labels : Metric
    pub group_name : Bytes
    pub group_labels : Metric
    pub interval : ℤ
    pub query_offset : ℤ
    pub source : Bytes

  pub record Registry : Type 0 where
    pub by_name : List (Bytes × RecordingRule)
    pub conflicts : List (Bytes × List RecordingRule)
    pub errors : List Error

  abbrev pub empty_registry : Registry
  empty_registry = record { by_name = []; conflicts = []; errors = [] }

  -- Lookup and Conflict
  abbrev pub lookup_rule : Registry → Bytes → Option RecordingRule
  lookup_rule r name = lookup r.by_name name

  abbrev pub conflict : Registry → Bytes → Option (List RecordingRule)
  conflict r name = lookup r.conflicts name

  unfoldable pub is_empty_registry : Registry → Bool
  is_empty_registry r = is_empty r.by_name && is_empty r.conflicts

  unfoldable pub same_rule : RecordingRule → RecordingRule → Bool
  same_rule a b =
      bytes_eq a.expr_string b.expr_string
      && maps_equal a.labels b.labels
      && maps_equal a.group_labels b.group_labels

  unfoldable pub add : Registry → RecordingRule → Registry
  unfolding same_rule
  add r rule = elim (lookup r.by_name rule.name) [
    | some existing ↦ if same_rule existing rule then r else record r {
      by_name = remove r.by_name rule.name;
      conflicts = store r.conflicts rule.name (existing ∷ rule ∷ []);
    }
    | none ↦ elim (lookup r.conflicts rule.name) [
      | some rules ↦ record r { conflicts = store r.conflicts rule.name (rules ++ (rule ∷ [])) }
      | none ↦ record r { by_name = store r.by_name rule.name rule }
    ]
  ]

  unfoldable pub add_all : Registry → List RecordingRule → Registry
  unfolding add
  add_all r [] = r
  add_all r (rule ∷ rules) = add_all (add r rule) rules
