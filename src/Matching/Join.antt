-- ===== src/Matching/Join.antt =====
-- applyVectorVectorBinaryInstant: the hash join of two vectors by their signatures.
pub mod Nested
pub mod Total
use promshim_clickhouse.Base.{
  Bool, true, false, not, ◌&&◌, ◌||◌, List, [], ◌∷◌, ◌++◌, map, Option, none, some, if◌then◌else◌,
  Result, ok, err, select, is_empty, ◌>>=◌,
}
use promshim_clickhouse.Bytes.{Bytes, bytes_eq, bytes_lt}
use promshim_clickhouse.Bytes.Sort.{contains, sort_by}
use promshim_clickhouse.Bytes.Dict
use promshim_clickhouse.Labels.{Metric, InstantSample, labels_key}
use promshim_clickhouse.Labels.Maps.{is_some}
use promshim_clickhouse.Floats.{Floats}
use promshim_clickhouse.Matching.{
  Op, Side, VectorMatching, Error, many_to_many_not_set, duplicate_series, implicit_many_to_one,
  grouping_not_unique, unsupported_operator_panic, is_set_operator, is_comparison, is_one_to_one,
  is_one_to_many, is_many_to_many, normalized_vector_matching, vector_match_group_labels,
  vector_match_signature, apply_vector_vector_set_instant, build_vector_vector_result_metric,
}

module _ (fl : Floats) where
  open fl use {F}

  abbrev pub Sample : Type 0
  Sample = InstantSample F

  unfoldable pub bool_to_float : Bool → F
  bool_to_float true = fl.one
  bool_to_float false = fl.zero

  -- `none` is the panic of its default case.
  unfoldable pub apply_scalar_binary : Op → F → F → Option F
  unfolding bool_to_float
  apply_scalar_binary Op.add a b = some (fl.add a b)
  apply_scalar_binary Op.sub a b = some (fl.sub a b)
  apply_scalar_binary Op.mul a b = some (fl.mul a b)
  apply_scalar_binary Op.div a b = some (fl.div a b)
  apply_scalar_binary Op.pow a b = some (fl.power a b)
  apply_scalar_binary Op.modulo a b = some (fl.modulo a b)
  apply_scalar_binary Op.eqlc a b = some (bool_to_float (fl.eq a b))
  apply_scalar_binary Op.neq a b = some (bool_to_float (not (fl.eq a b)))
  apply_scalar_binary Op.gtr a b = some (bool_to_float (fl.lt b a))
  apply_scalar_binary Op.lss a b = some (bool_to_float (fl.lt a b))
  apply_scalar_binary Op.gte a b = some (bool_to_float (fl.le b a))
  apply_scalar_binary Op.lte a b = some (bool_to_float (fl.le a b))
  apply_scalar_binary _ a b = none

  -- matchedOneToOne, matchedManyToOne and result.
  pub record JoinState : Type 0 where
    pub matched_one : List Bytes
    pub matched_many : List (Bytes × List Bytes)
    pub result : List Sample

  abbrev start : JoinState
  start = record { matched_one = []; matched_many = []; result = [] }

  -- What one pair of samples gives: its value, or nothing where a comparison fails.
  unfoldable pub output_value : Op → Bool → F → F → Option (Option F)
  unfolding apply_scalar_binary is_comparison bool_to_float
  output_value op return_bool a b = elim (apply_scalar_binary op a b) [
    | none ↦ none
    | some value ↦
        if is_comparison op
        then (let kept = not (fl.eq value fl.zero) in
            if return_bool
            then some (some (bool_to_float kept))
            else if kept
            then some (some a)
            else some none)
        else some (some value)
  ]

  module _ (op : Op) (m : VectorMatching F) (return_bool : Bool) where
    -- Records the match, and refuses a second one of the same signature or of the same result.
    unfoldable pub record_match : JoinState → Bytes → Sample → Result Error JoinState
    record_match s signature out =
        if is_one_to_one m.card
        then (if contains signature s.matched_one
            then err implicit_many_to_one
            else ok (record s {
              matched_one = signature ∷ s.matched_one;
              result = s.result ++ (out ∷ []);
            }))
        else (let key = labels_key out.metric in
            let seen : List Bytes = elim (Dict.lookup s.matched_many signature) [
              | none ↦ []
              | some ks ↦ ks
            ] in
            if contains key seen
            then err grouping_not_unique
            else ok (record s {
              matched_many = Dict.store s.matched_many signature (key ∷ seen);
              result = s.result ++ (out ∷ []);
            }))

    unfoldable pub append_result :
        Bool → JoinState → Sample → Sample → Bytes → Result Error JoinState
    unfolding output_value record_match
    append_result swapped s l r signature =
        let expr_lhs = if swapped then r else l in
        let expr_rhs = if swapped then l else r in
        elim (output_value op return_bool expr_lhs.value expr_rhs.value) [
          | none ↦ err unsupported_operator_panic
          | some none ↦ ok s
          | some (some value) ↦ record_match s signature (record {
            metric = build_vector_vector_result_metric l.metric r.metric op m return_bool;
            timestamp = expr_lhs.timestamp;
            value = value;
          })
        ]

    -- The loop that fills rightBySignature.
    unfoldable pub index_right :
        Bool → List (Bytes × Sample) → List Sample → Result Error (List (Bytes × Sample))
    index_right swapped table [] = ok table
    index_right swapped table (s ∷ rest) =
        let signature = vector_match_signature s.metric m in
        let next = index_right swapped (Dict.store table signature s) rest in
        if contains signature (Dict.keys table)
        then err (
            duplicate_series (vector_match_group_labels s.metric m)
              (if swapped then Side.left else Side.right))
        else next

    -- One round of the loop over the left samples.
    unfoldable pub match_left :
        Bool → List (Bytes × Sample) → JoinState → Sample → Result Error JoinState
    unfolding append_result
    match_left swapped table s l =
        let signature = vector_match_signature l.metric m in
        elim (Dict.lookup table signature) [
          | some r ↦ append_result swapped s l r signature
          | none ↦ elim m.fill_rhs [
            | none ↦ ok s
            | some fill ↦
                append_result swapped s l
                  (record {
                    metric = vector_match_group_labels l.metric m;
                    timestamp = l.timestamp;
                    value = fill;
                  })
                  signature
          ]
        ]

    unfoldable pub join_left :
        Bool → List (Bytes × Sample) → JoinState → List Sample → Result Error JoinState
    unfolding match_left
    join_left swapped table s [] = ok s
    join_left swapped table s (l ∷ rest) =
        match_left swapped table s l >>= λ s'. join_left swapped table s' rest

    -- One round of the loop over the right samples that no left sample matched.
    unfoldable pub fill_one : Bool → F → JoinState → Sample → Result Error JoinState
    unfolding append_result
    fill_one swapped fill s r =
        let signature = vector_match_signature r.metric m in
        (if (if is_one_to_one m.card
            then contains signature s.matched_one
            else contains signature (Dict.keys s.matched_many))
          then ok s
          else append_result swapped s
              (record {
                metric = vector_match_group_labels r.metric m;
                timestamp = r.timestamp;
                value = fill;
              })
              r signature)

    unfoldable pub fill_right : Bool → F → JoinState → List Sample → Result Error JoinState
    unfolding fill_one
    fill_right swapped fill s [] = ok s
    fill_right swapped fill s (r ∷ rest) =
        fill_one swapped fill s r >>= λ s'. fill_right swapped fill s' rest

    unfoldable pub sample_less : Sample → Sample → Bool
    sample_less a b =
        if bytes_eq (labels_key a.metric) (labels_key b.metric)
        then fl.lt a.timestamp b.timestamp
        else bytes_lt (labels_key a.metric) (labels_key b.metric)

    unfoldable pub join : Bool → List Sample → List Sample → Result Error (List Sample)
    unfolding index_right join_left fill_right
    join swapped lhs rhs = do
      table ← index_right swapped [] rhs
      s ← join_left swapped table start lhs
      s' ← elim m.fill_lhs [ none ↦ ok s | some fill ↦ fill_right swapped fill s rhs ]
      ok (sort_by sample_less s'.result)

  unfoldable pub apply_vector_vector_binary_instant :
      Op → List Sample → List Sample → Option (VectorMatching F) → Bool → Result Error (List Sample)
  unfolding join normalized_vector_matching
  apply_vector_vector_binary_instant op lhs rhs vector_matching return_bool =
      let m = normalized_vector_matching vector_matching in
      if is_set_operator op
      then apply_vector_vector_set_instant op lhs rhs m
      else if is_many_to_many m.card
      then err many_to_many_not_set
      else if is_empty lhs && is_empty rhs
          || (is_empty lhs || is_empty rhs) && not (is_some m.fill_lhs) && not (is_some m.fill_rhs)
      then ok []
      else if is_one_to_many m.card
      then join op m return_bool true rhs lhs
      else join op m return_bool false lhs rhs
