-- ===== src/Operators/Filter.antt =====
-- What a comparison between a vector and a scalar keeps.
use promshim_clickhouse.Base.{
  ◌≡◌, refl, List, [], ◌∷◌, Bool, true, false, not, none, some, Bool-cases, inl, inr, if◌then◌else◌,
  arith,
}
use promshim_clickhouse.Labels.{Metric}
use promshim_clickhouse.Floats.{Floats}
use promshim_clickhouse.Matching.{Op, is_comparison}
use promshim_clickhouse.Matching.Join.{Sample, apply_scalar_binary, bool_to_float}
use promshim_clickhouse.Matching.Sets.{Selects, keep, skip, done}
use promshim_clickhouse.Operators.{
  scalar_output, scalar_output_metric, apply_vector_scalar_binary_instant,
}

module _ (fl : Floats) where
  -- The comparisons themselves.
  abbrev pub holds : Op → fl.F → fl.F → Bool
  holds Op.eqlc a b = fl.eq a b
  holds Op.neq a b = not (fl.eq a b)
  holds Op.gtr a b = fl.lt b a
  holds Op.lss a b = fl.lt a b
  holds Op.gte a b = fl.le b a
  holds Op.lte a b = fl.le a b
  holds _ a b = false

  comparison-value :
      (op : Op) (a b : fl.F)
      → is_comparison op ≡ true
      → apply_scalar_binary fl op a b ≡ some (bool_to_float fl (holds op a b))
  unfolding apply_scalar_binary is_comparison
  comparison-value Op.eqlc a b h = refl
  comparison-value Op.neq a b h = refl
  comparison-value Op.gtr a b h = refl
  comparison-value Op.lss a b h = refl
  comparison-value Op.gte a b h = refl
  comparison-value Op.lte a b h = refl
  comparison-value _ a b h = cc

  -- One is not zero, as floats go.
  abbrev pub ApartOneZero : Type 0
  ApartOneZero = (fl.eq fl.one fl.zero ≡ false) × (fl.eq fl.zero fl.zero ≡ true)

  bool_to_float-kept : ApartOneZero → (b : Bool) → not (fl.eq (bool_to_float fl b) fl.zero) ≡ b
  unfolding bool_to_float
  bool_to_float-kept h true = rw h.0 refl
  bool_to_float-kept h false = rw h.1 refl

  -- The comparison of a value with the scalar, the operands in the order of the expression.
  abbrev pub compares : Op → fl.F → Bool → fl.F → Bool
  compares op scalar swap v = if swap then holds op scalar v else holds op v scalar

  comparison-output :
      (op : Op) (v scalar : fl.F) (swap : Bool)
      → is_comparison op ≡ true
      → ApartOneZero
      → scalar_output fl op v scalar swap false
        ≡ some (if compares op scalar swap v then some v else none)
  unfolding scalar_output
  comparison-output op v scalar true h apart =
      ground
        (arith, comparison-value op scalar v h, h, bool_to_float-kept apart (holds op scalar v))
  comparison-output op v scalar false h apart =
      ground
        (arith, comparison-value op v scalar h, h, bool_to_float-kept apart (holds op v scalar))

  comparison-metric :
      (op : Op) (m : Metric) → is_comparison op ≡ true → scalar_output_metric fl op false m ≡ m
  unfolding scalar_output_metric
  comparison-metric op m h = rw h refl

  -- A comparison without `bool` between a vector and a scalar always succeeds, and keeps, in order and
  -- as they are, exactly the samples whose comparison holds. One differs from zero, and zero does not.
  pub apply_vector_scalar_binary_instant-Selects :
      (op : Op) (samples : List (Sample fl)) (scalar : fl.F) (swap : Bool)
      → is_comparison op ≡ true
      → ApartOneZero
      → (out : List (Sample fl)) × (apply_vector_scalar_binary_instant fl op samples scalar swap
            false
          ≡ some out)
        × Selects (λ s. compares op scalar swap s.value ≡ true) samples out
  unfolding apply_vector_scalar_binary_instant
  apply_vector_scalar_binary_instant-Selects op [] scalar swap h apart = ([], refl, done)
  apply_vector_scalar_binary_instant-Selects op (s ∷ rest) scalar swap h apart =
      let (out, runs, selects) =
        apply_vector_scalar_binary_instant-Selects op rest scalar swap h apart in
      let output = comparison-output op s.value scalar swap h apart in
      elim (Bool-cases (compares op scalar swap s.value)) [
        | inl e ↦ (
          s ∷ out,
          rw (output, e, runs) (rw (comparison-metric op s.metric h) refl),
          keep e selects,
        )
        | inr e ↦ (out, rw (output, e, runs) refl, skip (λ t. cc) selects)
      ]
