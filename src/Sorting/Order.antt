-- ===== src/Sorting/Order.antt =====
-- compareByValue and compareByLabels of internal/promshim/local/exec/sort.go as total orders.
use promshim_clickhouse.Base.{
  Bool, true, false, not, ◌&&◌, ◌||◌, List, [], ◌∷◌, if◌then◌else◌, All, ◌≡◌, ◌≢◌, refl, sym, ap,
  subst, fun_ext, arith, Bool-cases, inl, inr,
}
use promshim_clickhouse.Base.Comparison.{
  Comparison, less, equal, greater, flip, or_else, by_less, IsOrder, IsWeakOrder, by_less-IsOrder,
  Always, IsOrder-refl, IsOrder-agrees, on-IsOrder, or_else-IsOrder, flip-IsOrder,
}
use promshim_clickhouse.Bytes.{Bytes, bytes_eq, bytes_eq_sound, bytes_eq_refl}
use promshim_clickhouse.Labels.{get_value, labels_key}
use promshim_clickhouse.Floats.{Floats}
use promshim_clickhouse.Matching.Join.{Sample}
use promshim_clickhouse.Sorting.{
  natural_compare_strings, compare_sample_identity, compare_by_value, compare_by_labels,
}
use promshim_clickhouse.Sorting.Total.{natural_compare_strings-IsOrder, compare_bytes-IsOrder}

module _ (fl : Floats) where
  open fl use {F}

  -- Where float64 is ordered: not at NaN.
  abbrev pub IsNumber : F → Type 0
  IsNumber x = fl.is_nan x ≡ false

  module _ (order : IsWeakOrder IsNumber fl.lt) where
    abbrev HasTime : Sample fl → Type 0
    HasTime s = IsNumber s.timestamp

    ascending-IsOrder : IsOrder HasTime (λ l r. compare_sample_identity fl l r false)
    unfolding compare_sample_identity
    ascending-IsOrder =
        or_else-IsOrder
          (on-IsOrder compare_bytes-IsOrder HasTime (λ s. labels_key s.metric) (λ _ _. tt))
          (on-IsOrder (by_less-IsOrder order) HasTime (λ s. s.timestamp) (λ _ h. h))

    identity-IsOrder :
        (descending : Bool) → IsOrder HasTime (λ l r. compare_sample_identity fl l r descending)
    unfolding compare_sample_identity
    identity-IsOrder false = ascending-IsOrder
    identity-IsOrder true = flip-IsOrder ascending-IsOrder

    -- NaN after every number, and the numbers one way or the other.
    abbrev value_less : Bool → F → F → Bool
    value_less descending a b =
        not (fl.is_nan a) && (fl.is_nan b || (if descending then fl.lt b a else fl.lt a b))

    value_less-IsWeakOrder : (descending : Bool) → IsWeakOrder Always (value_less descending)
    value_less-IsWeakOrder false = record {
      asym = λ a b _ _ h. ground (arith, h, order.asym a b);
      splits = λ a b c _ _ _ h k. ground (arith, h, k, order.splits a b c);
    }
    value_less-IsWeakOrder true = record {
      asym = λ a b _ _ h. ground (arith, h, order.asym b a);
      splits = λ a b c _ _ _ h k.
          ground (arith, h, k, order.splits c b a, order.asym b a, order.asym c b);
    }

    compare_by_value-or_else :
        (descending : Bool) (l r : Sample fl)
        → compare_by_value fl l r descending
          ≡ or_else
              (by_less (value_less descending) l.value r.value)
              (compare_sample_identity fl l r false)
    unfolding compare_by_value
    compare_by_value-or_else false l r = ground arith
    compare_by_value-or_else true l r = ground (arith, order.asym l.value r.value)

    pub compare_by_value-IsOrder :
        (descending : Bool) → IsOrder HasTime (λ l r. compare_by_value fl l r descending)
    compare_by_value-IsOrder descending =
        subst (IsOrder HasTime)
          (fun_ext λ l. fun_ext λ r. sym (compare_by_value-or_else descending l r))
          (or_else-IsOrder
            (on-IsOrder (by_less-IsOrder (value_less-IsWeakOrder descending)) HasTime (λ s. s.value)
              (λ _ _. tt))
            ascending-IsOrder)

    -- Texts of which the natural order finds no two different ones equal, as it finds 1 and 01.
    module _ (C : Bytes → Type 0)
        (canonical : (a b : Bytes) → C a → C b → natural_compare_strings a b ≡ equal → a ≡ b) where
      -- The sample has a time, and such a text for each label.
      abbrev pub Comparable : List Bytes → Sample fl → Type 0
      Comparable labels s = HasTime s × All (λ label. C (get_value s.metric label)) labels

      abbrev label_comparison : Bool → Bytes → Bytes → Comparison
      label_comparison descending a b =
          if descending then flip (natural_compare_strings a b) else natural_compare_strings a b

      label_comparison-IsOrder : (descending : Bool) → IsOrder Always (label_comparison descending)
      label_comparison-IsOrder false = natural_compare_strings-IsOrder
      label_comparison-IsOrder true = flip-IsOrder natural_compare_strings-IsOrder

      either_way :
          (descending : Bool) (c : Comparison)
          → (if descending then flip c else c) ≡ equal
          → c ≡ equal
      either_way false c h = h
      either_way true c h = ground (arith, h)

      found : (c rest : Comparison) → c ≢ equal → c ≡ or_else c rest
      found less rest h = refl
      found equal rest h = ground (arith, h)
      found greater rest h = refl

      -- Going on where the texts are one is going on where the order finds no difference.
      next_label :
          (descending : Bool) (a b : Bytes) (rest : Comparison)
          → C a
          → C b
          → (if bytes_eq a b then rest else label_comparison descending a b)
            ≡ or_else (label_comparison descending a b) rest
      next_label descending a b rest ca cb = elim (Bool-cases (bytes_eq a b)) [
        | inl e ↦ rw e (
            rw (sym (bytes_eq_sound a b e))
              (rw (IsOrder-refl (label_comparison-IsOrder descending) a tt) refl))
        | inr e ↦ rw e (
            found (label_comparison descending a b) rest λ h. ground (
              arith,
              e,
              bytes_eq_refl a,
              ap (bytes_eq a)
                  (canonical a b ca cb (either_way descending (natural_compare_strings a b) h)),
            ))
      ]

      pub compare_by_labels-IsOrder :
          (labels : List Bytes) (descending : Bool)
          → IsOrder (Comparable labels) (λ l r. compare_by_labels fl l r labels descending)
      unfolding compare_by_labels
      compare_by_labels-IsOrder [] descending =
          on-IsOrder (identity-IsOrder descending) (Comparable []) (λ s. s) (λ _ h. h.0)
      compare_by_labels-IsOrder (label ∷ labels) descending =
          IsOrder-agrees
            (or_else-IsOrder
              (on-IsOrder (label_comparison-IsOrder descending) (Comparable (label ∷ labels))
                (λ s. get_value s.metric label) (λ _ _. tt))
              (on-IsOrder (compare_by_labels-IsOrder labels descending)
                (Comparable (label ∷ labels)) (λ s. s) (λ _ h. (h.0, h.1.1))))
            λ l r hl hr.
              next_label descending (get_value l.metric label) (get_value r.metric label)
                (compare_by_labels fl l r labels descending) hl.1.0 hr.1.0
