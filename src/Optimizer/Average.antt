-- ===== src/Optimizer/Average.antt =====
-- internal/promshim/logical/opt/cancel_repeated_add_divide_by_two.go: an average of identical operands
-- is replaced by the operand.
pub mod Cancels
pub mod Sums
use promshim_clickhouse.Base.{
  ℕ, zero, suc, ◌+◌, ◌-◌, ◌*◌, ◌/◌, ◌%◌, Bool, true, false, not, ◌&&◌, ◌||◌, List, [], ◌∷◌, ◌++◌,
  Option, none, some, if◌then◌else◌, ltb, ◌==◌, length, is_empty,
}
use promshim_clickhouse.Bytes.{Bytes, bytes_eq}
use promshim_clickhouse.Labels.Maps.{is_some}
use promshim_clickhouse.Floats.{Floats}
use promshim_clickhouse.Matching.{Op, VectorMatching, is_one_to_one}
use promshim_clickhouse.Plans.{
  Parser, ChildPlan, ParamsPlan, Node, Nodes, nil, leaf_expr_plan, scalar_literal_plan,
  scalar_builtin_plan, unary_plan, binary_plan, child_plan, params_plan, no_nodes, cons_node,
}
use promshim_clickhouse.Plans.Analysis.{expr_string}
use promshim_clickhouse.Optimizer.{
  rebuild_unary, rebuild_binary, rebuild_child, rebuild_params, rebuild_param,
}

abbrev max_repeated_average_terms : ℕ
max_repeated_average_terms = 16

-- a & b on numbers of the given number of bits
unfoldable bit_and : ℕ → ℕ → ℕ → ℕ
bit_and zero a b = 0
bit_and (suc bits) a b = (a % 2) * (b % 2) + 2 * bit_and bits (a / 2) (b / 2)

unfoldable pub is_power_of_two : ℕ → Bool
unfolding bit_and
is_power_of_two value = ltb 0 value && bit_and 64 value (value - 1) == 0

module _ (fl : Floats) where
  unfoldable pub repeated_average_divisor : fl.F → Option ℕ
  repeated_average_divisor value =
      if fl.is_nan value || fl.is_inf value || not (fl.eq value (fl.trunc value))
      then none
      else if fl.lt value (fl.of_int 2) || fl.lt (fl.of_int max_repeated_average_terms) value
      then none
      else some (fl.to_int value)

  unfoldable pub repeated_average_reciprocal_multiplier : fl.F → Option ℕ
  unfolding repeated_average_divisor is_power_of_two
  repeated_average_reciprocal_multiplier value =
      if fl.is_nan value || fl.is_inf value || fl.le value fl.zero
      then none
      else elim (repeated_average_divisor (fl.div fl.one value)) [
        | none ↦ none
        | some term_count ↦
            if not (is_power_of_two term_count)
            then none
            else if not (fl.eq value (fl.div fl.one (fl.of_int term_count)))
            then none
            else some term_count
      ]

unfoldable pub implicit_one_to_one_matching : {F : Type 0} → Option (VectorMatching F) → Bool
implicit_one_to_one_matching none = true
implicit_one_to_one_matching (some m) =
    is_one_to_one m.card
    && not m.on
    && is_empty m.matching_labels
    && is_empty m.include
    && not (is_some m.fill_lhs)
    && not (is_some m.fill_rhs)

module _ {px : Parser} {fl : Floats} where
  unfoldable pub repeated_average_multiplier_term_count : Node px fl → Option ℕ
  unfolding repeated_average_divisor repeated_average_reciprocal_multiplier
  repeated_average_multiplier_term_count (scalar_literal_plan e value) =
      repeated_average_reciprocal_multiplier fl value
  repeated_average_multiplier_term_count
        (binary_plan e Op.div none false
          (scalar_literal_plan e₁ numerator)
          (scalar_literal_plan e₂ denominator)) =
      if not (fl.eq numerator fl.one) then none else repeated_average_divisor fl denominator
  repeated_average_multiplier_term_count _ = none

  -- The divisor of a quotient: a literal with an admissible value.
  unfoldable pub literal_divisor : Node px fl → Option ℕ
  unfolding repeated_average_divisor
  literal_divisor (scalar_literal_plan e value) = repeated_average_divisor fl value
  literal_divisor _ = none

  abbrev with_count : Node px fl → Option ℕ → Option (Node px fl × ℕ)
  with_count node none = none
  with_count node (some n) = some (node, n)

  abbrev or_else : Option (Node px fl × ℕ) → Option (Node px fl × ℕ) → Option (Node px fl × ℕ)
  or_else (some x) other = some x
  or_else none other = other

  unfoldable pub repeated_average_candidate : Node px fl → Option (Node px fl × ℕ)
  unfolding literal_divisor repeated_average_multiplier_term_count
  repeated_average_candidate (binary_plan e Op.div none false lhs rhs) =
      with_count lhs (literal_divisor rhs)
  repeated_average_candidate (binary_plan e Op.mul none false lhs rhs) =
      or_else (with_count lhs (repeated_average_multiplier_term_count rhs))
        (with_count rhs (repeated_average_multiplier_term_count lhs))
  repeated_average_candidate _ = none

  abbrev both_terms :
      Option (List (Node px fl)) → Option (List (Node px fl)) → Option (List (Node px fl))
  both_terms none rhs = none
  both_terms (some lhs) none = none
  both_terms (some lhs) (some rhs) = some (lhs ++ rhs)

  unfoldable pub collect_implicit_repeated_add_terms : Node px fl → Option (List (Node px fl))
  unfolding implicit_one_to_one_matching
  collect_implicit_repeated_add_terms nil = none
  collect_implicit_repeated_add_terms (binary_plan e Op.add m return_bool lhs rhs) =
      let terms =
        both_terms (collect_implicit_repeated_add_terms lhs)
          (collect_implicit_repeated_add_terms rhs) in
      if return_bool || not (implicit_one_to_one_matching m) then none else terms
  collect_implicit_repeated_add_terms node = some (node ∷ [])

  -- The loop that compares every term with the first one; `drops` is DropsMetric of the analysis.
  unfoldable pub same_terms : (Node px fl → Bool) → Bytes → List (Node px fl) → Bool
  same_terms drops first_expr [] = true
  same_terms drops first_expr (term ∷ rest) =
      bytes_eq (expr_string term) first_expr && drops term && same_terms drops first_expr rest

  unfoldable pub first_of_same : (Node px fl → Bool) → List (Node px fl) → Option (Node px fl)
  unfolding same_terms
  first_of_same drops [] = none
  first_of_same drops (first ∷ rest) =
      if is_empty (expr_string first)
      then none
      else if same_terms drops (expr_string first) (first ∷ rest)
      then some first
      else none

  unfoldable pub repeated_average_replacement :
      (Node px fl → Bool) → Node px fl → Option (Node px fl)
  unfolding repeated_average_candidate collect_implicit_repeated_add_terms first_of_same
  repeated_average_replacement drops node = elim (repeated_average_candidate node) [
    | none ↦ none
    | some candidate ↦ elim (collect_implicit_repeated_add_terms candidate.0) [
      | none ↦ none
      | some terms ↦ if not (length terms == candidate.1) then none else first_of_same drops terms
    ]
  ]

  abbrev pub or_replace : Option (Node px fl) → Node px fl × Bool → Node px fl × Bool
  or_replace (some replacement) rebuilt = (replacement, true)
  or_replace none rebuilt = rebuilt

  module _ (drops : Node px fl → Bool) where
    unfoldable mutual
      unfolding repeated_average_replacement rebuild_unary rebuild_binary rebuild_child
          rebuild_params rebuild_param

      pub cancel_repeated_average_in_tree : Node px fl → Node px fl × Bool
      cancel_repeated_average_in_tree nil = (nil, false)
      cancel_repeated_average_in_tree (unary_plan e op child) =
          or_replace (repeated_average_replacement drops (unary_plan e op child))
            (rebuild_unary e op child (cancel_repeated_average_in_tree child))
      cancel_repeated_average_in_tree (binary_plan e op m return_bool lhs rhs) =
          or_replace (repeated_average_replacement drops (binary_plan e op m return_bool lhs rhs)) (
            rebuild_binary e op m return_bool lhs rhs (cancel_repeated_average_in_tree lhs)
              (cancel_repeated_average_in_tree rhs))
      cancel_repeated_average_in_tree (child_plan p child) =
          or_replace (repeated_average_replacement drops (child_plan p child))
            (rebuild_child p child (cancel_repeated_average_in_tree child))
      cancel_repeated_average_in_tree (params_plan p params child) =
          or_replace (repeated_average_replacement drops (params_plan p params child)) (
            rebuild_params p params child (cancel_repeated_average_children params)
              (cancel_repeated_average_in_tree child))
      cancel_repeated_average_in_tree node =
          or_replace (repeated_average_replacement drops node) (node, false)

      pub cancel_repeated_average_children : Nodes px fl → Nodes px fl × Bool
      cancel_repeated_average_children no_nodes = (no_nodes, false)
      cancel_repeated_average_children (cons_node param rest) =
          rebuild_param param (cancel_repeated_average_in_tree param)
            (cancel_repeated_average_children rest)
