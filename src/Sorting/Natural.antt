-- ===== src/Sorting/Natural.antt =====
-- naturalCompareStrings of internal/promshim/local/exec/sort.go, and what a text is for it: numbers and
-- other bytes.
use promshim_clickhouse.Base.{
  ℕ, zero, suc, ◌≤◌, true, false, List, [], ◌∷◌, if◌then◌else◌, ltb, length, ◌≡◌, refl, sym, ◌∙◌,
  ap, ap₂, arith, Bool-cases, inl, inr,
}
use promshim_clickhouse.Base.Comparison.{
  Comparison, less, greater, or_else, compare_nat, compare_list,
}
use promshim_clickhouse.Bytes.{Bytes, is_digit}
use promshim_clickhouse.Bytes.Decimal.ReadBack.{number}
use promshim_clickhouse.Sorting.Numbers.{compare_runs-number}
use promshim_clickhouse.Sorting.{
  drop_zeros, take_digits, drop_digits, compare_runs, natural_compare, natural_compare_strings,
}

-- A maximal run of digits, or another byte.
pub data Token : Type 0 where
  run : Bytes → Token
  byte : ℕ → Token

abbrev cons_token : ℕ → List Token → List Token
cons_token c (run ds ∷ rest) = if is_digit c then run (c ∷ ds) ∷ rest else byte c ∷ run ds ∷ rest
cons_token c (byte b ∷ rest) =
    if is_digit c then run (c ∷ []) ∷ byte b ∷ rest else byte c ∷ byte b ∷ rest
cons_token c [] = if is_digit c then run (c ∷ []) ∷ [] else byte c ∷ []

unfoldable pub tokens : Bytes → List Token
tokens [] = []
tokens (c ∷ s) = cons_token c (tokens s)

-- Runs by their numbers, bytes by their codes, and a run as its digits among the bytes.
abbrev pub compare_token : Token → Token → Comparison
compare_token (run a) (run b) = compare_nat (number 0 a) (number 0 b)
compare_token (run a) (byte d) = if ltb b'9' d then less else greater
compare_token (byte c) (run b) = if ltb b'9' c then greater else less
compare_token (byte c) (byte d) = compare_nat c d

tokens-digit :
    (c : ℕ) (s : Bytes)
    → is_digit c ≡ true
    → tokens (c ∷ s) ≡ run (take_digits (c ∷ s)) ∷ tokens (drop_digits (c ∷ s))
unfolding tokens
tokens-digit c [] h = rw h refl
tokens-digit c (d ∷ s) h = elim (Bool-cases (is_digit d)) [
  | inl e ↦ ap (cons_token c) (tokens-digit d s e) ∙ ground (arith, h, e)
  | inr e ↦ rw h (rw e (cons_other d (tokens s) e))
]
  where
    cons_other :
        (b : ℕ) (rest : List Token)
        → is_digit b ≡ false
        → cons_token c (cons_token b rest) ≡ run (c ∷ []) ∷ cons_token b rest
    cons_other b (run ds ∷ rest) k = ground (arith, h, k)
    cons_other b (byte x ∷ rest) k = ground (arith, h, k)
    cons_other b [] k = ground (arith, h, k)

cons_token-byte :
    (c : ℕ) (rest : List Token) → is_digit c ≡ false → cons_token c rest ≡ byte c ∷ rest
cons_token-byte c (run ds ∷ rest) h = rw h refl
cons_token-byte c (byte b ∷ rest) h = rw h refl
cons_token-byte c [] h = rw h refl

take_digits-drop_zeros : (s : Bytes) → take_digits (drop_zeros s) ≡ drop_zeros (take_digits s)
take_digits-drop_zeros [] = refl
take_digits-drop_zeros (c ∷ s) = ground (arith, take_digits-drop_zeros s)

drop_digits-drop_zeros : (s : Bytes) → drop_digits (drop_zeros s) ≡ drop_digits s
drop_digits-drop_zeros [] = refl
drop_digits-drop_zeros (c ∷ s) = ground (arith, drop_digits-drop_zeros s)

length-drop_digits-le : (s : Bytes) → length (drop_digits s) ≤ length s
length-drop_digits-le [] = omega arith
length-drop_digits-le (c ∷ s) = ground (arith, length-drop_digits-le s)

dropped : (c : ℕ) (s : Bytes) → is_digit c ≡ true → drop_digits (drop_zeros (c ∷ s)) ≡ drop_digits s
dropped c s h = drop_digits-drop_zeros (c ∷ s) ∙ rw h refl

run_first :
    (c : ℕ) (s : Bytes)
    → is_digit c ≡ true
    → tokens (c ∷ s) ≡ run (take_digits (c ∷ s)) ∷ tokens (drop_digits s)
run_first c s h = tokens-digit c s h ∙ rw h refl

both_digits :
    (fuel c d : ℕ) (left right : Bytes)
    → is_digit c ≡ true
    → is_digit d ≡ true
    → natural_compare fuel (drop_digits left) (drop_digits right)
      ≡ compare_list compare_token (tokens (drop_digits left)) (tokens (drop_digits right))
    → natural_compare (suc fuel) (c ∷ left) (d ∷ right)
      ≡ compare_list compare_token (tokens (c ∷ left)) (tokens (d ∷ right))
unfolding natural_compare
both_digits fuel c d left right h k ih =
    rw (h, k, natural_compare)
      (ap₂ or_else
          (ap₂ compare_runs (take_digits-drop_zeros (c ∷ left)) (take_digits-drop_zeros (d ∷ right))
            ∙ compare_runs-number (c ∷ left) (d ∷ right))
          (ap₂ (natural_compare fuel) (dropped c left h) (dropped d right k) ∙ ih)
        ∙ sym (ap₂ (compare_list compare_token) (run_first c left h) (run_first d right k)))

one_digit :
    (fuel c d : ℕ) (left right : Bytes)
    → is_digit c ≡ true
    → is_digit d ≡ false
    → natural_compare (suc fuel) (c ∷ left) (d ∷ right)
      ≡ compare_list compare_token (tokens (c ∷ left)) (tokens (d ∷ right))
unfolding natural_compare tokens
one_digit fuel c d left right h k =
    rw (run_first c left h) (rw (cons_token-byte d (tokens right) k) (ground (arith, h, k)))

other_digit :
    (fuel c d : ℕ) (left right : Bytes)
    → is_digit c ≡ false
    → is_digit d ≡ true
    → natural_compare (suc fuel) (c ∷ left) (d ∷ right)
      ≡ compare_list compare_token (tokens (c ∷ left)) (tokens (d ∷ right))
unfolding natural_compare tokens
other_digit fuel c d left right h k =
    rw (run_first d right k) (rw (cons_token-byte c (tokens left) h) (ground (arith, h, k)))

no_digit :
    (fuel c d : ℕ) (left right : Bytes)
    → is_digit c ≡ false
    → is_digit d ≡ false
    → natural_compare fuel left right ≡ compare_list compare_token (tokens left) (tokens right)
    → natural_compare (suc fuel) (c ∷ left) (d ∷ right)
      ≡ compare_list compare_token (tokens (c ∷ left)) (tokens (d ∷ right))
unfolding natural_compare tokens
no_digit fuel c d left right h k ih = rw (cons_token-byte c (tokens left) h) (
    rw (cons_token-byte d (tokens right) k)
      (rw (h, natural_compare) (ap (or_else (compare_nat c d)) ih)))

empty_before :
    (c : ℕ) (rest : List Token) → compare_list compare_token [] (cons_token c rest) ≡ less
empty_before c (run ds ∷ rest) = ground arith
empty_before c (byte b ∷ rest) = ground arith
empty_before c [] = ground arith

empty_after :
    (c : ℕ) (rest : List Token) → compare_list compare_token (cons_token c rest) [] ≡ greater
empty_after c (run ds ∷ rest) = ground arith
empty_after c (byte b ∷ rest) = ground arith
empty_after c [] = ground arith

natural_compare-tokens :
    (fuel : ℕ) (left right : Bytes)
    → length left ≤ fuel
    → natural_compare fuel left right ≡ compare_list compare_token (tokens left) (tokens right)
unfolding natural_compare tokens
natural_compare-tokens fuel [] [] bound = refl
natural_compare-tokens fuel [] (d ∷ right) bound = sym (empty_before d (tokens right))
natural_compare-tokens fuel (c ∷ left) [] bound = sym (empty_after c (tokens left))
natural_compare-tokens zero (c ∷ left) (d ∷ right) bound = grind (arith, bound)
natural_compare-tokens (suc fuel) (c ∷ left) (d ∷ right) bound = elim (Bool-cases (is_digit c)) [
  | inl h ↦ elim (Bool-cases (is_digit d)) [
    | inl k ↦ both_digits fuel c d left right h k (
        natural_compare-tokens fuel (drop_digits left) (drop_digits right)
          (omega (arith, bound, length-drop_digits-le left)))
    | inr k ↦ one_digit fuel c d left right h k
  ]
  | inr h ↦ elim (Bool-cases (is_digit d)) [
    | inl k ↦ other_digit fuel c d left right h k
    | inr k ↦
        no_digit fuel c d left right h k
          (natural_compare-tokens fuel left right (omega (arith, bound)))
  ]
]

-- naturalCompareStrings compares two texts as their sequences of runs of digits, by the numbers that they
-- write in decimal, and other bytes, by their codes.
pub natural_compare_strings-tokens :
    (left right : Bytes)
    → natural_compare_strings left right ≡ compare_list compare_token (tokens left) (tokens right)
unfolding natural_compare_strings
natural_compare_strings-tokens left right =
    natural_compare-tokens (length left) left right (omega arith)
