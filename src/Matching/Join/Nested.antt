-- ===== src/Matching/Join/Nested.antt =====
-- The hash join gives what a nested loop over the two sides gives.
use mathlib.Core.List.{Perm, append_assoc}
use mathlib.Core.List.Perm
use promshim_clickhouse.Base.{
  Bool, true, false, ◌||◌, List, [], ◌∷◌, ◌++◌, Option, none, some, if◌then◌else◌, ok, ok_parts,
  is_empty, ◌≡◌, refl, ◌∙◌, sym, ap, arith, Bool-cases, Option-cases, inl, inr, append_nil,
}
use promshim_clickhouse.Bytes.{Bytes, bytes_eq, bytes_eq_iff, bytes_eq_sound, bytes_eq_refl}
use promshim_clickhouse.Bytes.Sort.{contains, sort_by, sort_by-perm, Distinct}
use promshim_clickhouse.Bytes.Dict
use promshim_clickhouse.Bytes.Dict.{lookup-store, contains-keys-store}
use promshim_clickhouse.Floats.{Floats}
use promshim_clickhouse.Matching.{
  Op, VectorMatching, vector_match_signature, signatures, build_vector_vector_result_metric,
  is_one_to_many, is_set_operator,
}
use promshim_clickhouse.Matching.Join.{
  Sample, JoinState, output_value, record_match, append_result, index_right, match_left, join_left,
  join, sample_less, apply_vector_vector_binary_instant, start,
}

module _ (fl : Floats) (op : Op) (m : VectorMatching fl.F) (return_bool : Bool) where
  -- The result of one matching pair, none where a comparison fails.
  unfoldable pub row : Bool → Sample fl → Sample fl → List (Sample fl)
  row swapped l r =
      let expr_lhs = if swapped then r else l in
      let expr_rhs = if swapped then l else r in
      elim (output_value fl op return_bool expr_lhs.value expr_rhs.value) [
        | some (some value) ↦
            record {
              metric = build_vector_vector_result_metric l.metric r.metric op m return_bool;
              timestamp = expr_lhs.timestamp;
              value = value;
            }
            ∷ []
        | _ ↦ []
      ]

  -- The rows of one sample with every sample of the other side that has its signature.
  unfoldable pub rows_of : Bool → Sample fl → List (Sample fl) → List (Sample fl)
  rows_of swapped l [] = []
  rows_of swapped l (r ∷ rest) =
      if bytes_eq (vector_match_signature l.metric m) (vector_match_signature r.metric m)
      then row swapped l r ++ rows_of swapped l rest
      else rows_of swapped l rest

  unfoldable pub nested_loop : Bool → List (Sample fl) → List (Sample fl) → List (Sample fl)
  unfolding rows_of row
  nested_loop swapped [] rhs = []
  nested_loop swapped (l ∷ rest) rhs = rows_of swapped l rhs ++ nested_loop swapped rest rhs

  unfoldable first_match : Bytes → List (Sample fl) → Option (Sample fl)
  first_match k [] = none
  first_match k (s ∷ rest) =
      if bytes_eq k (vector_match_signature s.metric m) then some s else first_match k rest

  abbrev or_else : Option (Sample fl) → Option (Sample fl) → Option (Sample fl)
  or_else (some s) o = some s
  or_else none o = o

  lookup_missing :
      (d : List (Bytes × Sample fl)) (k : Bytes)
      → contains k (Dict.keys d) ≡ false
      → Dict.lookup d k ≡ none
  unfolding Dict.lookup
  lookup_missing [] k h = refl
  lookup_missing ((j, v) ∷ d) k h = ground (arith, lookup_missing d k)

  lookup-index_right :
      (swapped : Bool) (table : List (Bytes × Sample fl)) (rhs : List (Sample fl))
      (t : List (Bytes × Sample fl)) (k : Bytes)
      → index_right fl op m return_bool swapped table rhs ≡ ok t
      → Dict.lookup t k ≡ or_else (Dict.lookup table k) (first_match k rhs)
  unfolding index_right first_match
  lookup-index_right swapped table [] t k h = ground arith
  lookup-index_right swapped table (s ∷ rest) t k h = ground (
    arith,
    lookup-index_right swapped (Dict.store table (vector_match_signature s.metric m) s) rest t k,
    lookup-store table (vector_match_signature s.metric m) s k,
    bytes_eq_iff (vector_match_signature s.metric m) k,
    bytes_eq_iff k (vector_match_signature s.metric m),
    lookup_missing table (vector_match_signature s.metric m),
  )

  index_right-fresh :
      (swapped : Bool) (table : List (Bytes × Sample fl)) (rhs : List (Sample fl))
      (t : List (Bytes × Sample fl)) (k : Bytes)
      → index_right fl op m return_bool swapped table rhs ≡ ok t
      → contains k (Dict.keys table) ≡ true
      → contains k (signatures m rhs) ≡ false
  unfolding index_right
  index_right-fresh swapped table [] t k h c = refl
  index_right-fresh swapped table (s ∷ rest) t k h c = ground (
    arith,
    index_right-fresh swapped (Dict.store table (vector_match_signature s.metric m) s) rest t k,
    contains-keys-store table (vector_match_signature s.metric m) s k,
    bytes_eq_iff k (vector_match_signature s.metric m),
  )

  pub index_right-Distinct :
      (swapped : Bool) (table : List (Bytes × Sample fl)) (rhs : List (Sample fl))
      (t : List (Bytes × Sample fl))
      → index_right fl op m return_bool swapped table rhs ≡ ok t
      → Distinct (signatures m rhs)
  unfolding index_right
  index_right-Distinct swapped table [] t h = tt
  index_right-Distinct swapped table (s ∷ rest) t h =
      let signature = vector_match_signature s.metric m in
      let next : index_right fl op m return_bool swapped (Dict.store table signature s) rest
          ≡ ok t =
        ground arith in
      (
        index_right-fresh swapped (Dict.store table signature s) rest t signature next (
            contains-keys-store table signature s signature
            ∙ ground (arith, bytes_eq_refl signature)),
        index_right-Distinct swapped (Dict.store table signature s) rest t next,
      )

  rows_of_absent :
      (swapped : Bool) (l : Sample fl) (rhs : List (Sample fl))
      → contains (vector_match_signature l.metric m) (signatures m rhs) ≡ false
      → rows_of swapped l rhs ≡ []
  unfolding rows_of
  rows_of_absent swapped l [] h = refl
  rows_of_absent swapped l (r ∷ rest) h = ground (arith, rows_of_absent swapped l rest)

  abbrev row_of : Bool → Sample fl → Option (Sample fl) → List (Sample fl)
  row_of swapped l none = []
  row_of swapped l (some r) = row swapped l r

  rows_of-Distinct :
      (swapped : Bool) (l : Sample fl) (rhs : List (Sample fl))
      → Distinct (signatures m rhs)
      → rows_of swapped l rhs
        ≡ row_of swapped l (first_match (vector_match_signature l.metric m) rhs)
  unfolding rows_of first_match
  rows_of-Distinct swapped l [] d = refl
  rows_of-Distinct swapped l (r ∷ rest) d =
      elim (Bool-cases
        (bytes_eq (vector_match_signature l.metric m) (vector_match_signature r.metric m))) [
          | inl e ↦
              let same =
                bytes_eq_sound (vector_match_signature l.metric m)
                  (vector_match_signature r.metric m) e in
              rw (e, rows_of, first_match)
                (rw (rows_of_absent swapped l rest (rw same d.0)) (append_nil (row swapped l r)))
          | inr e ↦ rw (e, rows_of, first_match) (rows_of-Distinct swapped l rest d.1)
        ]

  append_result-result :
      (swapped : Bool) (s : JoinState fl) (l r : Sample fl) (k : Bytes) (s' : JoinState fl)
      → append_result fl op m return_bool swapped s l r k ≡ ok s'
      → s'.result ≡ s.result ++ row swapped l r
  unfolding append_result record_match row
  append_result-result swapped s l r k s' h = ground (arith, append_nil s.result)

  match_left-result :
      (swapped : Bool) (table : List (Bytes × Sample fl)) (rhs : List (Sample fl)) (l : Sample fl)
      (s s' : JoinState fl)
      → m.fill_rhs ≡ none
      → ((k : Bytes) → Dict.lookup table k ≡ first_match k rhs)
      → Distinct (signatures m rhs)
      → match_left fl op m return_bool swapped table s l ≡ ok s'
      → s'.result ≡ s.result ++ rows_of swapped l rhs
  unfolding match_left
  match_left-result swapped table rhs l s s' no_fill at d h =
      let found = at (vector_match_signature l.metric m) in
      let rows = rows_of-Distinct swapped l rhs d in
      elim (Option-cases (first_match (vector_match_signature l.metric m) rhs)) [
        | inl e ↦
            let same : s ≡ s' = ground (arith, found, e) in
            ap (λ t. t.result) (sym same)
            ∙ sym (append_nil s.result)
            ∙ ap (λ ys. s.result ++ ys) (sym (rows ∙ ap (row_of swapped l) e))
        | inr (r, e) ↦
            append_result-result swapped s l r (vector_match_signature l.metric m) s'
              (ground (arith, found, e))
            ∙ ap (λ ys. s.result ++ ys) (sym (rows ∙ ap (row_of swapped l) e))
      ]

  join_left-result :
      (swapped : Bool) (table : List (Bytes × Sample fl)) (rhs : List (Sample fl))
      (lhs : List (Sample fl)) (s s' : JoinState fl)
      → m.fill_rhs ≡ none
      → ((k : Bytes) → Dict.lookup table k ≡ first_match k rhs)
      → Distinct (signatures m rhs)
      → join_left fl op m return_bool swapped table s lhs ≡ ok s'
      → s'.result ≡ s.result ++ nested_loop swapped lhs rhs
  unfolding join_left nested_loop
  join_left-result swapped table rhs [] s s' no_fill at d h =
      let same : s ≡ s' = ground arith in ap (λ t. t.result) (sym same) ∙ sym (append_nil s.result)
  join_left-result swapped table rhs (l ∷ rest) s s' no_fill at d h =
      let (s₁, one, more) = ok_parts (match_left fl op m return_bool swapped table s l) _ h in
      join_left-result swapped table rhs rest s₁ s' no_fill at d more
      ∙ ap (λ xs. xs ++ nested_loop swapped rest rhs)
          (match_left-result swapped table rhs l s s₁ no_fill at d one)
      ∙ append_assoc s.result (rows_of swapped l rhs) (nested_loop swapped rest rhs)

  table-at :
      (swapped : Bool) (rhs : List (Sample fl)) (t : List (Bytes × Sample fl))
      → index_right fl op m return_bool swapped [] rhs ≡ ok t
      → (k : Bytes) → Dict.lookup t k ≡ first_match k rhs
  unfolding Dict.lookup
  table-at swapped rhs t h k = lookup-index_right swapped [] rhs t k h

  join-perm :
      (swapped : Bool) (lhs rhs out : List (Sample fl))
      → m.fill_lhs ≡ none
      → m.fill_rhs ≡ none
      → join fl op m return_bool swapped lhs rhs ≡ ok out
      → Perm out (nested_loop swapped lhs rhs)
  unfolding join
  join-perm swapped lhs rhs out no_lhs no_rhs h =
      let (table, indexed, rest) = ok_parts (index_right fl op m return_bool swapped [] rhs) _ h in
      let (s, joined, sorted) =
        ok_parts (join_left fl op m return_bool swapped table (start fl) lhs) _ rest in
      let out_eq : sort_by (sample_less fl op m return_bool) s.result ≡ out =
        ground (arith, sorted) in
      let rows : s.result ≡ nested_loop swapped lhs rhs =
        join_left-result swapped table rhs lhs (start fl) s no_rhs
          (table-at swapped rhs table indexed) (index_right-Distinct swapped [] rhs table indexed)
          joined in
      rw (← out_eq, ← rows) (sort_by-perm (sample_less fl op m return_bool) s.result)

  nested_loop-nil : (swapped : Bool) (lhs : List (Sample fl)) → nested_loop swapped lhs [] ≡ []
  unfolding nested_loop
  nested_loop-nil swapped [] = refl
  nested_loop-nil swapped (l ∷ rest) = nested_loop-nil swapped rest

  abbrev oriented : List (Sample fl) → List (Sample fl) → List (Sample fl)
  oriented lhs rhs =
      if is_one_to_many m.card then nested_loop true rhs lhs else nested_loop false lhs rhs

  reaches_join :
      (l : Sample fl) (ls : List (Sample fl)) (r : Sample fl) (rs out : List (Sample fl))
      → is_set_operator op ≡ false
      → apply_vector_vector_binary_instant fl op (l ∷ ls) (r ∷ rs) (some m) return_bool ≡ ok out
      → (if is_one_to_many m.card
          then join fl op m return_bool true (r ∷ rs) (l ∷ ls)
          else join fl op m return_bool false (l ∷ ls) (r ∷ rs))
        ≡ ok out
  unfolding apply_vector_vector_binary_instant
  reaches_join l ls r rs out not_set h = ground arith

  empty_side :
      (lhs rhs out : List (Sample fl))
      → is_set_operator op ≡ false
      → m.fill_lhs ≡ none
      → m.fill_rhs ≡ none
      → (is_empty lhs || is_empty rhs) ≡ true
      → apply_vector_vector_binary_instant fl op lhs rhs (some m) return_bool ≡ ok out
      → out ≡ []
  unfolding apply_vector_vector_binary_instant
  empty_side lhs rhs out not_set no_lhs no_rhs e h = ground arith

  -- Without fill values, whatever the join returns is, up to the final sort, what a nested loop over
  -- both sides returns: one row for each pair of samples with one signature whose comparison, if the
  -- operator is one, holds. With group_right the two sides change places.
  pub binary_instant-perm :
      (lhs rhs out : List (Sample fl))
      → is_set_operator op ≡ false
      → m.fill_lhs ≡ none
      → m.fill_rhs ≡ none
      → apply_vector_vector_binary_instant fl op lhs rhs (some m) return_bool ≡ ok out
      → Perm out
          (if is_one_to_many m.card then nested_loop true rhs lhs else nested_loop false lhs rhs)
  unfolding nested_loop
  binary_instant-perm [] rhs out not_set no_lhs no_rhs h =
      rw (empty_side [] rhs out not_set no_lhs no_rhs refl h)
        (elim (Bool-cases (is_one_to_many m.card)) [
          | inl e ↦ rw e (rw (nested_loop-nil true rhs) Perm.rfl)
          | inr e ↦ rw e Perm.rfl
        ])
  binary_instant-perm (l ∷ ls) [] out not_set no_lhs no_rhs h =
      rw (empty_side (l ∷ ls) [] out not_set no_lhs no_rhs refl h)
        (elim (Bool-cases (is_one_to_many m.card)) [
          | inl e ↦ rw e Perm.rfl
          | inr e ↦ rw e (rw (nested_loop-nil false ls) Perm.rfl)
        ])
  binary_instant-perm (l ∷ ls) (r ∷ rs) out not_set no_lhs no_rhs h =
      let reached = reaches_join l ls r rs out not_set h in
      elim (Bool-cases (is_one_to_many m.card)) [
        | inl e ↦ rw e (join-perm true (r ∷ rs) (l ∷ ls) out no_lhs no_rhs (rw e at reached))
        | inr e ↦ rw e (join-perm false (l ∷ ls) (r ∷ rs) out no_lhs no_rhs (rw e at reached))
      ]
