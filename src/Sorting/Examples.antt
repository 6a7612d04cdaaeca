-- ===== src/Sorting/Examples.antt =====
-- The sort functions of internal/promshim/local/exec/sort.go on concrete vectors.
use promshim_clickhouse.Base.{false, List, [], ◌∷◌, ◌≡◌, refl, sym, ◌∙◌, ◌⊎◌, inl, inr, ap₂, arith}
use promshim_clickhouse.Base.Comparison.{compare_list, less, equal, IsWeakOrder}
use promshim_clickhouse.Bytes.{Bytes, bytes_eq, bytes_lt}
use promshim_clickhouse.Labels.{get_value}
use promshim_clickhouse.Bytes.Text.{text}
use promshim_clickhouse.Floats.{nat_floats}
use promshim_clickhouse.Matching.Join.{Sample}
use promshim_clickhouse.Sorting.{
  sort_by_label, sort_comparison, natural_compare_strings, apply_sort_function, compare_by_labels,
  natural_compare,
}
use promshim_clickhouse.Sorting.Natural.{compare_token, tokens, natural_compare_strings-tokens}
use promshim_clickhouse.Sorting.Order.{IsNumber}
use promshim_clickhouse.Sorting.Sorted.{StablySorted, apply_sort_function-StablySorted}

nat_order : IsWeakOrder (IsNumber nat_floats) nat_floats.lt
nat_order = record {
  asym = λ a b _ _ h. ground (arith, h);
  splits = λ a b c _ _ _ h k. ground (arith, h, k);
}

abbrev sample : Bytes → Bytes → Sample nat_floats
sample port zone = record {
  metric = (text "port", port) ∷ (text "zone", zone) ∷ [];
  timestamp = 5;
  value = 1;
}

abbrev samples : List (Sample nat_floats)
samples =
    sample (text "10") (text "a")
    ∷ sample (text "2") (text "b")
    ∷ sample (text "10") (text "c")
    ∷ []

abbrev Known : Bytes → Type 0
Known t = (t ≡ text "2") ⊎ (t ≡ text "10")

Known-canonical : (a b : Bytes) → Known a → Known b → natural_compare_strings a b ≡ equal → a ≡ b
unfolding natural_compare_strings natural_compare
Known-canonical a b (inl e) (inl f) h = e ∙ sym f
Known-canonical a b (inl e) (inr f) h = ground (arith, sym (ap₂ natural_compare_strings e f) ∙ h)
Known-canonical a b (inr e) (inl f) h = ground (arith, sym (ap₂ natural_compare_strings e f) ∙ h)
Known-canonical a b (inr e) (inr f) h = e ∙ sym f

apply_sort_function-StablySorted_example :
    StablySorted
      (sort_comparison nat_floats sort_by_label (text "port" ∷ []))
      samples
      (apply_sort_function nat_floats sort_by_label samples (text "port" ∷ []))
unfolding get_value bytes_eq
apply_sort_function-StablySorted_example =
    apply_sort_function-StablySorted nat_floats nat_order Known Known-canonical sort_by_label
      samples (text "port" ∷ [])
      ((refl, (inr refl, tt)), ((refl, (inl refl, tt)), ((refl, (inr refl, tt)), tt)))

-- 1 and 01 are equal in the natural order, and end the comparison before the label that differs, so that the
-- comparison of samples is no order: it finds the first equal to the second and the second to the third, but
-- not the first to the third.
compare_by_labels_not_transitive :
    (compare_by_labels nat_floats
        (sample (text "1") (text "a"))
        (sample (text "01") (text "b"))
        (text "port" ∷ text "zone" ∷ [])
        false
      ≡ equal)
    × ((compare_by_labels nat_floats
            (sample (text "01") (text "b"))
            (sample (text "1") (text "c"))
            (text "port" ∷ text "zone" ∷ [])
            false
          ≡ equal)
        × (compare_by_labels nat_floats
              (sample (text "1") (text "a"))
              (sample (text "1") (text "c"))
              (text "port" ∷ text "zone" ∷ [])
              false
            ≡ less))
unfolding compare_by_labels natural_compare_strings natural_compare bytes_eq get_value bytes_lt
compare_by_labels_not_transitive = (refl, (refl, refl))

natural_compare_strings-tokens_example :
    natural_compare_strings (text "a07b") (text "a12")
    ≡ compare_list compare_token (tokens (text "a07b")) (tokens (text "a12"))
natural_compare_strings-tokens_example = natural_compare_strings-tokens (text "a07b") (text "a12")
