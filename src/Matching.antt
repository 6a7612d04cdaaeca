-- ===== src/Matching.antt =====
-- internal/promshim/local/exec/vector_matching.go: set operators and binary operators between two
-- instant vectors. `parser.VectorMatching` and the operator tokens are those of the PromQL parser.
pub mod Sets
pub mod Signature
pub mod Join
mod Examples
use promshim_clickhouse.Base.{
  Bool, true, false, not, ◌&&◌, ◌||◌, List, [], ◌∷◌, ◌++◌, map, Option, none, some, if◌then◌else◌,
  Result, ok, err, select, is_empty, ◌>>=◌,
}
use promshim_clickhouse.Bytes.{Bytes, bytes_eq, bytes_lt}
use promshim_clickhouse.Bytes.Sort.{contains, sort_by}
use promshim_clickhouse.Bytes.Dict.{lookup, store}
use promshim_clickhouse.Bytes.Dict
use promshim_clickhouse.Labels.{
  Metric, InstantSample, get, put, delete, without_keys, copy_labels, metric_name, labels_key,
  drop_metric_name,
}
use promshim_clickhouse.Labels.Maps.{is_some}
use promshim_clickhouse.Floats.{Floats}

pub data Op : Type 0 where
  add sub mul div pow modulo atan2 eqlc neq gtr lss gte lte land lor lunless : Op

pub data Card : Type 0 where
  one_to_one many_to_one one_to_many many_to_many : Card

pub record VectorMatching (F : Type 0) : Type 0 where
  pub card : Card
  pub matching_labels : List Bytes
  pub on : Bool
  pub include : List Bytes
  pub fill_lhs : Option F
  pub fill_rhs : Option F

pub data Side : Type 0 where
  left right : Side

-- The errors of the two functions, and the panic of applyScalarBinary.
pub data Error : Type 0 where
  many_to_many_not_set : Error
  duplicate_series : Metric → Side → Error
  implicit_many_to_one : Error
  grouping_not_unique : Error
  set_needs_many_to_many : Error
  set_with_fill : Error
  set_not_implemented : Op → Error
  unsupported_operator_panic : Error

unfoldable pub is_set_operator : Op → Bool
is_set_operator land = true
is_set_operator lor = true
is_set_operator lunless = true
is_set_operator _ = false

unfoldable pub is_comparison : Op → Bool
is_comparison eqlc = true
is_comparison neq = true
is_comparison gtr = true
is_comparison lss = true
is_comparison gte = true
is_comparison lte = true
is_comparison _ = false

abbrev pub is_one_to_one : Card → Bool
is_one_to_one one_to_one = true
is_one_to_one _ = false

abbrev pub is_one_to_many : Card → Bool
is_one_to_many one_to_many = true
is_one_to_many _ = false

abbrev pub is_many_to_many : Card → Bool
is_many_to_many many_to_many = true
is_many_to_many _ = false

-- The two loops that drop labels from a result, and that copy those of group_left and group_right.
unfoldable pub delete_labels : Metric → List Bytes → Metric
delete_labels m [] = m
delete_labels m (l ∷ ls) = delete_labels (delete m l) ls

unfoldable pub include_labels : Metric → List Bytes → Metric → Metric
include_labels rhs [] result = result
include_labels rhs (l ∷ ls) result =
    include_labels rhs ls (elim (get rhs l) [ none ↦ delete result l | some v ↦ put result l v ])

module _ {F : Type 0} where
  unfoldable pub normalized_vector_matching : Option (VectorMatching F) → VectorMatching F
  normalized_vector_matching none = record {
    card = one_to_one;
    matching_labels = [];
    on = false;
    include = [];
    fill_lhs = none;
    fill_rhs = none;
  }
  normalized_vector_matching (some m) = m

  unfoldable pub vector_match_group_labels : Metric → VectorMatching F → Metric
  unfolding copy_labels without_keys
  vector_match_group_labels metric m =
      if m.on
      then copy_labels metric m.matching_labels []
      else without_keys (metric_name ∷ m.matching_labels) metric

  unfoldable pub vector_match_signature : Metric → VectorMatching F → Bytes
  unfolding vector_match_group_labels
  vector_match_signature metric m = labels_key (vector_match_group_labels metric m)

  -- The signatures of one side, as the set `rightPresent` or `leftPresent`.
  abbrev pub signatures : VectorMatching F → List (InstantSample F) → List Bytes
  signatures m = map (λ s. vector_match_signature s.metric m)

  -- The three set operators, after the guards.
  unfoldable pub set_samples :
      Op
      → VectorMatching F
      → List (InstantSample F)
      → List (InstantSample F)
      → Result Error (List (InstantSample F))
  set_samples land m lhs rhs =
      if is_empty lhs || is_empty rhs
      then ok []
      else ok (select (λ s. contains (vector_match_signature s.metric m) (signatures m rhs)) lhs)
  set_samples lor m lhs rhs =
      if is_empty lhs
      then ok rhs
      else if is_empty rhs
      then ok lhs
      else ok (
          lhs
          ++ select (λ s. not (contains (vector_match_signature s.metric m) (signatures m lhs)))
              rhs)
  set_samples lunless m lhs rhs =
      if is_empty lhs || is_empty rhs
      then ok lhs
      else ok
          (select (λ s. not (contains (vector_match_signature s.metric m) (signatures m rhs))) lhs)
  set_samples op m lhs rhs = err (set_not_implemented op)

  unfoldable pub apply_vector_vector_set_instant :
      Op
      → List (InstantSample F)
      → List (InstantSample F)
      → VectorMatching F
      → Result Error (List (InstantSample F))
  unfolding set_samples
  apply_vector_vector_set_instant op lhs rhs m =
      if not (is_many_to_many m.card)
      then err set_needs_many_to_many
      else if is_some m.fill_lhs || is_some m.fill_rhs
      then err set_with_fill
      else set_samples op m lhs rhs

  unfoldable pub build_vector_vector_result_metric :
      Metric → Metric → Op → VectorMatching F → Bool → Metric
  unfolding is_comparison copy_labels delete_labels include_labels
  build_vector_vector_result_metric lhs rhs op m return_bool = include_labels rhs m.include (
      let named = if not (is_comparison op) || return_bool then drop_metric_name lhs else lhs in
      if is_one_to_one m.card
      then (if m.on
          then copy_labels named m.matching_labels []
          else delete_labels named m.matching_labels)
      else named)
