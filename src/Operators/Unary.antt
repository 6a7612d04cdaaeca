-- ===== src/Operators/Unary.antt =====
-- Unary operators on vectors, up to metric names: negating a vector twice does not give those back.
use promshim_clickhouse.Base.{
  Bool, true, false, ◌∙◌, sym, ◌≡◌, refl, ap, List, [], ◌∷◌, map, Bool-cases, inl, inr,
}
use promshim_clickhouse.Bytes.{Bytes}
use promshim_clickhouse.Bytes.Sort.{contains}
use promshim_clickhouse.Labels.{Metric, drop_metric_name, without_keys, metric_name}
use promshim_clickhouse.Floats.{Floats}
use promshim_clickhouse.Matching.{Op}
use promshim_clickhouse.Matching.Join.{Sample}
use promshim_clickhouse.Operators.{negate_sample, apply_unary_to_samples}

without_keys-twice :
    (ks : List Bytes) (m : Metric) → without_keys ks (without_keys ks m) ≡ without_keys ks m
unfolding without_keys
without_keys-twice ks [] = refl
without_keys-twice ks ((k, v) ∷ m) = elim (Bool-cases (contains k ks)) [
  | inl e ↦ rw (e, without_keys) (without_keys-twice ks m)
  | inr e ↦
      rw (e, without_keys) (rw (e, without_keys) (ap (λ z. (k, v) ∷ z) (without_keys-twice ks m)))
]

-- The operator of a unary expression: true for minus, false for plus.
abbrev pub sign : Bool → Op
sign true = Op.sub
sign false = Op.add

module _ (fl : Floats) where
  abbrev pub unnamed : Sample fl → Sample fl
  unnamed s = record s { metric = drop_metric_name s.metric }

  -- Unary minus applied twice to a vector leaves every timestamp and value, and drops the metric name
  -- of every sample; negating a number twice gives it back.
  pub apply_unary_to_samples-twice :
      (samples : List (Sample fl))
      → ((v : fl.F) → fl.neg (fl.neg v) ≡ v)
      → apply_unary_to_samples fl Op.sub (apply_unary_to_samples fl Op.sub samples)
        ≡ map unnamed samples
  unfolding apply_unary_to_samples drop_metric_name
  apply_unary_to_samples-twice [] involutive = refl
  apply_unary_to_samples-twice (s ∷ samples) involutive =
      rw (involutive s.value, without_keys-twice (metric_name ∷ []) s.metric)
        (ap (λ z. unnamed s ∷ z) (apply_unary_to_samples-twice samples involutive))

  pub unnamed-twice :
      (samples : List (Sample fl)) → map unnamed (map unnamed samples) ≡ map unnamed samples
  unfolding drop_metric_name
  unnamed-twice [] = refl
  unnamed-twice (s ∷ samples) =
      rw (without_keys-twice (metric_name ∷ []) s.metric)
        (ap (λ z. unnamed s ∷ z) (unnamed-twice samples))

  negated-unnamed :
      (samples : List (Sample fl))
      → map unnamed (map (negate_sample fl) samples) ≡ map (negate_sample fl) (map unnamed samples)
  negated-unnamed [] = refl
  negated-unnamed (s ∷ samples) =
      ap (λ z. unnamed (negate_sample fl s) ∷ z) (negated-unnamed samples)

  -- Vectors that differ in metric names only still do under a unary operator.
  pub unnamed-unary :
      (minus : Bool) (v w : List (Sample fl))
      → map unnamed v ≡ map unnamed w
      → map unnamed (apply_unary_to_samples fl (sign minus) v)
        ≡ map unnamed (apply_unary_to_samples fl (sign minus) w)
  unfolding apply_unary_to_samples
  unnamed-unary false v w h = h
  unnamed-unary true v w h =
      negated-unnamed v ∙ ap (map (negate_sample fl)) h ∙ sym (negated-unnamed w)
