-- ===== src/Matching/Join/Total.antt =====
-- When the join succeeds, and which error a side that is not unique gives.
use mathlib.Core.List.{Perm}
use promshim_clickhouse.Base.{
  Bool, true, false, ◌||◌, List, [], ◌∷◌, none, some, if◌then◌else◌, ok, err, ◌≡◌, refl, ◌∙◌, arith,
  Bool-cases, Option-cases, inl, inr, Result-cases, ◌≢◌, is_empty,
}
use promshim_clickhouse.Bytes.{Bytes, bytes_eq, bytes_eq_iff, bytes_eq_refl}
use promshim_clickhouse.Bytes.Sort.{contains, sort_by, Distinct}
use promshim_clickhouse.Bytes.Dict
use promshim_clickhouse.Bytes.Dict.{contains-keys-store}
use promshim_clickhouse.Labels.{Metric}
use promshim_clickhouse.Floats.{Floats}
use promshim_clickhouse.Matching.{
  Op, Side, VectorMatching, Error, duplicate_series, vector_match_signature,
  vector_match_group_labels, signatures, is_one_to_one, is_one_to_many, is_many_to_many,
  is_set_operator,
}
use promshim_clickhouse.Matching.Join.{
  Sample, JoinState, apply_scalar_binary, output_value, record_match, append_result, index_right,
  match_left, join_left, join, apply_vector_vector_binary_instant, start, sample_less,
}
use promshim_clickhouse.Matching.Join.Nested.{
  nested_loop, binary_instant-perm, index_right-Distinct,
}

module _ (fl : Floats) (op : Op) (m : VectorMatching fl.F) (return_bool : Bool) where
  index_right-total :
      (swapped : Bool) (table : List (Bytes × Sample fl)) (rhs : List (Sample fl))
      → Distinct (signatures m rhs)
      → ((k : Bytes) → contains k (Dict.keys table) ≡ true → contains k (signatures m rhs) ≡ false)
      → (t : List (Bytes × Sample fl)) × (index_right fl op m return_bool swapped table rhs ≡ ok t)
  unfolding index_right
  index_right-total swapped table [] d apart = (table, refl)
  index_right-total swapped table (s ∷ rest) d apart =
      let signature = vector_match_signature s.metric m in
      let new : contains signature (Dict.keys table) ≡ false =
        elim (Bool-cases (contains signature (Dict.keys table))) [
          | inl e ↦ ground (arith, apart signature e, bytes_eq_refl signature)
          | inr e ↦ e
        ] in
      rw new (
        index_right-total swapped (Dict.store table signature s) rest d.1 λ k e. ground (
          arith,
          e,
          contains-keys-store table signature s k,
          bytes_eq_iff k signature,
          apart k,
          d.0,
        ))

  index_right-err :
      (swapped : Bool) (table : List (Bytes × Sample fl)) (rhs : List (Sample fl)) (e : Error)
      → index_right fl op m return_bool swapped table rhs ≡ err e
      → (group : Metric) × (e ≡ duplicate_series group (if swapped then Side.left else Side.right))
  unfolding index_right
  index_right-err swapped table [] e h = cc
  index_right-err swapped table (s ∷ rest) e h =
      let signature = vector_match_signature s.metric m in
      elim (Bool-cases (contains signature (Dict.keys table))) [
        | inl c ↦ (vector_match_group_labels s.metric m, ground (arith, c, h))
        | inr c ↦ index_right-err swapped (Dict.store table signature s) rest e (ground (arith, c))
      ]

  -- Every operator but atan2 and the set operators has a case in applyScalarBinary.
  apply_scalar_binary-total :
      (a b : fl.F)
      → is_set_operator op ≡ false
      → op ≢ Op.atan2
      → apply_scalar_binary fl op a b ≢ none
  unfolding apply_scalar_binary is_set_operator
  apply_scalar_binary-total a b not_set not_atan = by_op op not_set not_atan
    where
      by_op :
          (o : Op) → is_set_operator o ≡ false → o ≢ Op.atan2 → apply_scalar_binary fl o a b ≢ none
      by_op Op.add n t e = cc
      by_op Op.land n t e = cc
      by_op Op.lor n t e = cc
      by_op Op.lunless n t e = cc
      by_op Op.atan2 n t e = t refl
      by_op _ n t e = cc

  output_value-total :
      (a b : fl.F)
      → is_set_operator op ≡ false
      → op ≢ Op.atan2
      → output_value fl op return_bool a b ≢ none
  unfolding output_value
  output_value-total a b not_set not_atan e =
      ground (arith, e, apply_scalar_binary-total a b not_set not_atan)

  -- One-to-one, a pair is refused only where its signature has been matched before.
  append_result-total :
      (swapped : Bool) (s : JoinState fl) (l r : Sample fl) (k : Bytes)
      → is_set_operator op ≡ false
      → op ≢ Op.atan2
      → is_one_to_one m.card ≡ true
      → contains k s.matched_one ≡ false
      → (s' : JoinState fl) × (append_result fl op m return_bool swapped s l r k ≡ ok s')
        × ((j : Bytes)
            → contains j s'.matched_one ≡ true
            → (bytes_eq j k || contains j s.matched_one) ≡ true)
  unfolding append_result record_match
  append_result-total swapped s l r k not_set not_atan card new =
      elim (Result-cases (append_result fl op m return_bool swapped s l r k)) [
        | inl (s', e) ↦ (s', e, λ j c. ground (arith, e, c))
        | inr (e, h) ↦ absurd (
            ground (
              arith,
              h,
              output_value-total l.value r.value not_set not_atan,
              output_value-total r.value l.value not_set not_atan,
            ))
      ]

  match_left-total :
      (swapped : Bool) (table : List (Bytes × Sample fl)) (s : JoinState fl) (l : Sample fl)
      → is_set_operator op ≡ false
      → op ≢ Op.atan2
      → is_one_to_one m.card ≡ true
      → m.fill_rhs ≡ none
      → contains (vector_match_signature l.metric m) s.matched_one ≡ false
      → (s' : JoinState fl) × (match_left fl op m return_bool swapped table s l ≡ ok s')
        × ((j : Bytes)
            → contains j s'.matched_one ≡ true
            → (bytes_eq j (vector_match_signature l.metric m) || contains j s.matched_one) ≡ true)
  unfolding match_left
  match_left-total swapped table s l not_set not_atan card no_fill new =
      elim (Option-cases (Dict.lookup table (vector_match_signature l.metric m))) [
        | inl e ↦ (s, ground (arith, e, no_fill), λ j c. ground (arith, c))
        | inr (r, e) ↦
            rw (e, match_left)
              (append_result-total swapped s l r (vector_match_signature l.metric m) not_set
                not_atan card new)
      ]

  join_left-total :
      (swapped : Bool) (table : List (Bytes × Sample fl)) (lhs : List (Sample fl))
      (s : JoinState fl)
      → is_set_operator op ≡ false
      → op ≢ Op.atan2
      → is_one_to_one m.card ≡ true
      → m.fill_rhs ≡ none
      → Distinct (signatures m lhs)
      → ((k : Bytes) → contains k s.matched_one ≡ true → contains k (signatures m lhs) ≡ false)
      → (s' : JoinState fl) × (join_left fl op m return_bool swapped table s lhs ≡ ok s')
  unfolding join_left
  join_left-total swapped table [] s not_set not_atan card no_fill d apart = (s, refl)
  join_left-total swapped table (l ∷ rest) s not_set not_atan card no_fill d apart =
      let signature = vector_match_signature l.metric m in
      let new : contains signature s.matched_one ≡ false =
        elim (Bool-cases (contains signature s.matched_one)) [
          | inl e ↦ ground (arith, apart signature e, bytes_eq_refl signature)
          | inr e ↦ e
        ] in
      let (s₁, one, seen) = match_left-total swapped table s l not_set not_atan card no_fill new in
      rw one (
        join_left-total swapped table rest s₁ not_set not_atan card no_fill d.1
          λ k c. ground (arith, c, seen k, bytes_eq_iff k signature, apart k, d.0))

  join-total :
      (lhs rhs : List (Sample fl))
      → is_set_operator op ≡ false
      → op ≢ Op.atan2
      → is_one_to_one m.card ≡ true
      → m.fill_lhs ≡ none
      → m.fill_rhs ≡ none
      → Distinct (signatures m lhs)
      → Distinct (signatures m rhs)
      → (out : List (Sample fl)) × (join fl op m return_bool false lhs rhs ≡ ok out)
  unfolding join
  join-total lhs rhs not_set not_atan card no_lhs no_rhs dl dr =
      let (table, indexed) = index_right-total false [] rhs dr (λ k e. ground (arith, e)) in
      let (s, joined) =
        join_left-total false table lhs (start fl) not_set not_atan card no_rhs dl
          (λ k e. ground (arith, e)) in
      (sort_by (sample_less fl op m return_bool) s.result, ground (arith, indexed, joined, no_lhs))

  by_join :
      (l : Sample fl) (ls : List (Sample fl)) (r : Sample fl) (rs : List (Sample fl))
      → is_set_operator op ≡ false
      → is_one_to_many m.card ≡ false
      → is_many_to_many m.card ≡ false
      → apply_vector_vector_binary_instant fl op (l ∷ ls) (r ∷ rs) (some m) return_bool
        ≡ join fl op m return_bool false (l ∷ ls) (r ∷ rs)
  unfolding apply_vector_vector_binary_instant
  by_join l ls r rs not_set c d = ground arith

  by_empty :
      (lhs rhs : List (Sample fl))
      → is_set_operator op ≡ false
      → is_many_to_many m.card ≡ false
      → m.fill_lhs ≡ none
      → m.fill_rhs ≡ none
      → (is_empty lhs || is_empty rhs) ≡ true
      → apply_vector_vector_binary_instant fl op lhs rhs (some m) return_bool ≡ ok []
  unfolding apply_vector_vector_binary_instant
  by_empty lhs rhs not_set c no_lhs no_rhs e = ground arith

  runs :
      (lhs rhs : List (Sample fl))
      → is_set_operator op ≡ false
      → op ≢ Op.atan2
      → is_one_to_one m.card ≡ true
      → m.fill_lhs ≡ none
      → m.fill_rhs ≡ none
      → Distinct (signatures m lhs)
      → Distinct (signatures m rhs)
      → (out : List (Sample fl)) × (apply_vector_vector_binary_instant fl op lhs rhs
            (some m)
            return_bool
          ≡ ok out)
  runs [] rhs not_set not_atan card no_lhs no_rhs dl dr =
      ([], by_empty [] rhs not_set (ground (arith, card)) no_lhs no_rhs refl)
  runs (l ∷ ls) [] not_set not_atan card no_lhs no_rhs dl dr =
      ([], by_empty (l ∷ ls) [] not_set (ground (arith, card)) no_lhs no_rhs refl)
  runs (l ∷ ls) (r ∷ rs) not_set not_atan card no_lhs no_rhs dl dr =
      let (out, e) = join-total (l ∷ ls) (r ∷ rs) not_set not_atan card no_lhs no_rhs dl dr in
      (out, by_join l ls r rs not_set (ground (arith, card)) (ground (arith, card)) ∙ e)

  -- One-to-one without fill values, where no two samples of one side share a signature, every operator
  -- but atan2 and the set operators succeeds, with the rows of the nested loop up to order.
  pub one_to_one_lem :
      (lhs rhs : List (Sample fl))
      → is_set_operator op ≡ false
      → op ≢ Op.atan2
      → is_one_to_one m.card ≡ true
      → m.fill_lhs ≡ none
      → m.fill_rhs ≡ none
      → Distinct (signatures m lhs)
      → Distinct (signatures m rhs)
      → (out : List (Sample fl)) × (apply_vector_vector_binary_instant fl op lhs rhs
            (some m)
            return_bool
          ≡ ok out)
        × Perm out (nested_loop fl op m return_bool false lhs rhs)
  one_to_one_lem lhs rhs not_set not_atan card no_lhs no_rhs dl dr =
      let (out, e) = runs lhs rhs not_set not_atan card no_lhs no_rhs dl dr in
      let turned : is_one_to_many m.card ≡ false = ground (arith, card) in
      (
        out,
        e,
        rw turned at (binary_instant-perm fl op m return_bool lhs rhs out not_set no_lhs no_rhs e),
      )

  -- Outside the set operators, many-to-many matching and group_right, a right side with two samples of one
  -- signature is an error that names the right side, whatever a left side with at least one sample holds and
  -- whatever the fill values are.
  pub right_duplicate_lem :
      (l : Sample fl) (ls : List (Sample fl)) (r : Sample fl) (rs : List (Sample fl))
      → is_set_operator op ≡ false
      → is_one_to_many m.card ≡ false
      → is_many_to_many m.card ≡ false
      → ¬ Distinct (signatures m (r ∷ rs))
      → (group : Metric) × (apply_vector_vector_binary_instant fl op
            (l ∷ ls)
            (r ∷ rs)
            (some m)
            return_bool
          ≡ err (duplicate_series group Side.right))
  unfolding join
  right_duplicate_lem l ls r rs not_set c d twice =
      elim (Result-cases (index_right fl op m return_bool false [] (r ∷ rs))) [
        | inl (table, e) ↦
            absurd (twice (index_right-Distinct fl op m return_bool false [] (r ∷ rs) table e))
        | inr (e, h) ↦
            let (group, same) = index_right-err false [] (r ∷ rs) e h in
            (group, by_join l ls r rs not_set c d ∙ ground (arith, h, same))
      ]
