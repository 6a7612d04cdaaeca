-- ===== src/Matching/Examples.antt =====
-- Binary operators of internal/promshim/local/exec/vector_matching.go on concrete inputs.
use mathlib.Core.List.{Perm}
use promshim_clickhouse.Base.{
  ℕ, true, false, List, [], ◌∷◌, none, some, ok, err, ◌≡◌, refl, ◌↔◌, arith, if◌then◌else◌,
}
use promshim_clickhouse.Bytes.{Bytes, bytes_eq, bytes_lt}
use promshim_clickhouse.Bytes.Sort.{insert_sorted, sort_by, Distinct}
use promshim_clickhouse.Bytes.Dict.{lookup, store}
use promshim_clickhouse.Labels.{
  Metric, InstantSample, get, get_value, copy_labels, put, labels_key, normalize_label_set,
  write_labels, drop_metric_name,
}
use promshim_clickhouse.Floats.{nat_floats}
use promshim_clickhouse.Matching.{
  Op, land, Side, many_to_many, one_to_one, VectorMatching, duplicate_series,
  vector_match_signature, is_set_operator, vector_match_group_labels, set_samples,
  apply_vector_vector_set_instant, signatures, normalized_vector_matching, is_comparison,
  include_labels, build_vector_vector_result_metric, is_one_to_many,
}
use promshim_clickhouse.Matching.Join.{
  Sample, apply_vector_vector_binary_instant, join, index_right, join_left, match_left,
  append_result, record_match, output_value, apply_scalar_binary,
}
use promshim_clickhouse.Matching.Join.Nested.{nested_loop, binary_instant-perm}
use promshim_clickhouse.Matching.Join.Total.{one_to_one_lem, right_duplicate_lem}
use promshim_clickhouse.Matching.Signature.{Agree, IsLabelSet, signature_iff}
use promshim_clickhouse.Matching.Sets.{SetResult, set_operator_lem}

abbrev job : Bytes
job = 106 ∷ 111 ∷ 98 ∷ []

-- {job="a", zone="x"}, {job="a"} and {job="b"}
abbrev a_x : Metric
a_x = (job, 97 ∷ []) ∷ (122 ∷ 111 ∷ 110 ∷ 101 ∷ [], 120 ∷ []) ∷ []

abbrev a_only : Metric
a_only = (job, 97 ∷ []) ∷ []

abbrev b_only : Metric
b_only = (job, 98 ∷ []) ∷ []

a_x-IsLabelSet : IsLabelSet a_x
unfolding bytes_eq
a_x-IsLabelSet = ground arith

a_only-IsLabelSet : IsLabelSet a_only
unfolding bytes_eq
a_only-IsLabelSet = ground arith

b_only-IsLabelSet : IsLabelSet b_only
unfolding bytes_eq
b_only-IsLabelSet = ground arith

abbrev sample : Metric → ℕ → InstantSample ℕ
sample m v = record { metric = m; timestamp = 5; value = v }

abbrev on_job : VectorMatching ℕ
on_job = record {
  card = one_to_one;
  matching_labels = job ∷ [];
  on = true;
  include = [];
  fill_lhs = none;
  fill_rhs = none;
}

abbrev set_on_job : VectorMatching ℕ
set_on_job = record on_job { card = many_to_many }

signature_iff_example :
    (vector_match_signature a_x on_job ≡ vector_match_signature a_only on_job)
    ↔ Agree on_job a_x a_only
signature_iff_example = signature_iff on_job a_x a_only a_x-IsLabelSet a_only-IsLabelSet

set_operator_lem_example :
    (out : List (InstantSample ℕ)) × (apply_vector_vector_binary_instant nat_floats land
        (sample a_x 1 ∷ sample b_only 2 ∷ [])
        (sample a_only 3 ∷ [])
        (some set_on_job)
        false
      ≡ ok out)
    × SetResult set_on_job land (sample a_x 1 ∷ sample b_only 2 ∷ []) (sample a_only 3 ∷ []) out
unfolding is_set_operator
set_operator_lem_example =
    set_operator_lem nat_floats land set_on_job (sample a_x 1 ∷ sample b_only 2 ∷ [])
      (sample a_only 3 ∷ []) false refl refl refl refl (a_x-IsLabelSet, (b_only-IsLabelSet, tt))
      (a_only-IsLabelSet, tt)

-- The two samples of each side have signatures of their own.
signatures_left-Distinct : Distinct (signatures on_job (sample a_x 1 ∷ sample b_only 2 ∷ []))
unfolding apply_vector_vector_set_instant set_samples vector_match_signature
    vector_match_group_labels copy_labels get put labels_key normalize_label_set write_labels
    get_value sort_by insert_sorted bytes_eq bytes_lt
signatures_left-Distinct = (refl, (refl, tt))

signatures_right-Distinct : Distinct (signatures on_job (sample a_only 3 ∷ []))
signatures_right-Distinct = (refl, tt)

one_to_one_lem_example :
    (out : List (Sample nat_floats)) × (apply_vector_vector_binary_instant nat_floats Op.add
        (sample a_x 1 ∷ sample b_only 2 ∷ [])
        (sample a_only 3 ∷ [])
        (some on_job)
        false
      ≡ ok out)
    × Perm out (
        nested_loop nat_floats Op.add on_job false false
          (sample a_x 1 ∷ sample b_only 2 ∷ [])
          (sample a_only 3 ∷ []))
unfolding is_set_operator
one_to_one_lem_example =
    one_to_one_lem nat_floats Op.add on_job false (sample a_x 1 ∷ sample b_only 2 ∷ [])
      (sample a_only 3 ∷ []) refl (λ e. cc) refl refl refl signatures_left-Distinct
      signatures_right-Distinct

signatures_twice-not_Distinct : ¬ Distinct (signatures on_job (sample a_only 3 ∷ sample a_x 4 ∷ []))
unfolding apply_vector_vector_set_instant set_samples vector_match_signature
    vector_match_group_labels copy_labels get put labels_key normalize_label_set write_labels
    get_value sort_by insert_sorted bytes_eq bytes_lt
signatures_twice-not_Distinct d = cc d.0

right_duplicate_lem_example :
    (group : Metric) × (apply_vector_vector_binary_instant nat_floats Op.add
        (sample a_x 1 ∷ [])
        (sample a_only 3 ∷ sample a_x 4 ∷ [])
        (some on_job)
        false
      ≡ err (duplicate_series group Side.right))
unfolding is_set_operator
right_duplicate_lem_example =
    right_duplicate_lem nat_floats Op.add on_job false (sample a_x 1) [] (sample a_only 3)
      (sample a_x 4 ∷ []) refl refl refl signatures_twice-not_Distinct

added :
    apply_vector_vector_binary_instant nat_floats Op.add
      (sample a_x 1 ∷ sample b_only 2 ∷ [])
      (sample a_only 3 ∷ [])
      (some on_job)
      false
    ≡ ok (sample a_only 4 ∷ [])
unfolding apply_vector_vector_set_instant set_samples vector_match_signature
    vector_match_group_labels copy_labels get put labels_key normalize_label_set write_labels
    get_value sort_by insert_sorted bytes_eq bytes_lt apply_vector_vector_binary_instant
    is_set_operator join index_right join_left match_left append_result record_match output_value
    apply_scalar_binary is_comparison build_vector_vector_result_metric include_labels lookup store
    normalized_vector_matching drop_metric_name
added = refl

binary_instant-perm_example : Perm (sample a_only 4 ∷ []) (
    if is_one_to_many on_job.card
    then nested_loop nat_floats Op.add on_job false true
        (sample a_only 3 ∷ [])
        (sample a_x 1 ∷ sample b_only 2 ∷ [])
    else nested_loop nat_floats Op.add on_job false false
        (sample a_x 1 ∷ sample b_only 2 ∷ [])
        (sample a_only 3 ∷ []))
unfolding is_set_operator
binary_instant-perm_example =
    binary_instant-perm nat_floats Op.add on_job false (sample a_x 1 ∷ sample b_only 2 ∷ [])
      (sample a_only 3 ∷ []) (sample a_only 4 ∷ []) refl refl refl added
