-- ===== src/Sorting/Numbers.antt =====
-- The order of two runs of digits in internal/promshim/local/exec/sort.go is that of the numbers they write.
use promshim_clickhouse.Base.{
  ℕ, suc, ◌+◌, ◌*◌, ◌-◌, ◌≤◌, ◌<◌, true, [], ◌∷◌, length, ◌≡◌, refl, sym, ◌∙◌, ap, ap₂, arith,
  Bool-cases, inl, inr, ltb, ◌==◌, ◌≢◌, ◌⊎◌, subst,
}
use promshim_clickhouse.Base.Comparison.{less, equal, greater, compare_nat}
use promshim_clickhouse.Bytes.{Bytes, is_digit, bytes_lt}
use promshim_clickhouse.Bytes.Decimal.ReadBack.{number, IsDigits}
use promshim_clickhouse.Sorting.{drop_zeros, take_digits, compare_bytes, compare_runs}

take_digits-IsDigits : (s : Bytes) → IsDigits (take_digits s)
take_digits-IsDigits [] = tt
take_digits-IsDigits (c ∷ s) = elim (Bool-cases (is_digit c)) [
  | inl e ↦ rw e (e, take_digits-IsDigits s)
  | inr e ↦ rw e tt
]

-- Of two runs of one length, what the digits before them write decides.
number-less :
    (a b : ℕ) (s t : Bytes)
    → IsDigits s
    → IsDigits t
    → length s ≡ length t
    → a < b
    → number a s < number b t
number-less a b [] [] hs ht e lt = lt
number-less a b [] (d ∷ t) hs ht e lt = absurd (zero-suc e)
  where
    zero-suc : 0 ≡ suc (length t) → ⊥
    zero-suc f = omega (arith, f)
number-less a b (c ∷ s) [] hs ht e lt = absurd (suc-zero e)
  where
    suc-zero : suc (length s) ≡ 0 → ⊥
    suc-zero f = omega (arith, f)
number-less a b (c ∷ s) (d ∷ t) hs ht e lt =
    number-less (a * 10 + (c - b'0')) (b * 10 + (d - b'0')) s t hs.1 ht.1 (omega (arith, e))
      (below c hs.0)
  where
    below : (c : ℕ) → is_digit c ≡ true → a * 10 + (c - b'0') < b * 10 + (d - b'0')
    below c h = ground (arith, h, lt)

-- A shorter run after nothing is below a run after a digit that is not zero.
number-shorter :
    (a : ℕ) (s t : Bytes)
    → IsDigits s
    → IsDigits t
    → length s ≤ length t
    → 0 < a
    → number 0 s < number a t
number-shorter a [] [] hs ht le some = some
number-shorter a (c ∷ s) [] hs ht le some = absurd (none_below le)
  where
    none_below : suc (length s) ≤ 0 → ⊥
    none_below f = omega (arith, f)
number-shorter a [] (d ∷ t) hs ht le some =
    number-shorter (a * 10 + (d - b'0')) [] t hs ht.1 (omega arith) (omega (arith, some))
number-shorter a (c ∷ s) (d ∷ t) hs ht le some = elim (Bool-cases (ltb (length s) (length t))) [
  | inl e ↦
      number-shorter (a * 10 + (d - b'0')) (c ∷ s) t hs ht.1 (ground (arith, e))
        (omega (arith, some))
  | inr e ↦
      number-less (0 * 10 + (c - b'0')) (a * 10 + (d - b'0')) s t hs.1 ht.1 (ground (arith, e, le))
        (below hs.0)
]
  where
    below : is_digit c ≡ true → 0 * 10 + (c - b'0') < a * 10 + (d - b'0')
    below h = ground (arith, h, some)

compare_nat-less : (a b : ℕ) → a < b → compare_nat a b ≡ less
compare_nat-less a b h = ground (arith, h)

compare_nat-greater : (a b : ℕ) → b < a → compare_nat a b ≡ greater
compare_nat-greater a b h = ground (arith, h)

first_less :
    (c : ℕ) (s : Bytes) (d : ℕ) (t : Bytes) → ltb c d ≡ true → compare_bytes (c ∷ s) (d ∷ t) ≡ less
unfolding bytes_lt
first_less c s d t h = ground (arith, h)

first_greater :
    (c : ℕ) (s : Bytes) (d : ℕ) (t : Bytes)
    → ltb d c ≡ true
    → compare_bytes (c ∷ s) (d ∷ t) ≡ greater
unfolding bytes_lt
first_greater c s d t h = ground (arith, h)

same_first :
    (c : ℕ) (s : Bytes) (d : ℕ) (t : Bytes)
    → c ≡ d
    → compare_bytes (c ∷ s) (d ∷ t) ≡ compare_bytes s t
unfolding bytes_lt
same_first c s d t h = ground (arith, h)

-- Two runs of one length, after the same digits.
compare_bytes-number :
    (a : ℕ) (s t : Bytes)
    → IsDigits s
    → IsDigits t
    → length s ≡ length t
    → compare_bytes s t ≡ compare_nat (number a s) (number a t)
unfolding bytes_lt
compare_bytes-number a [] [] hs ht e = sym (compare_nat-same a)
  where
    compare_nat-same : (a : ℕ) → compare_nat a a ≡ equal
    compare_nat-same a = ground arith
compare_bytes-number a [] (d ∷ t) hs ht e = absurd (zero-suc e)
  where
    zero-suc : 0 ≡ suc (length t) → ⊥
    zero-suc f = omega (arith, f)
compare_bytes-number a (c ∷ s) [] hs ht e = absurd (suc-zero e)
  where
    suc-zero : suc (length s) ≡ 0 → ⊥
    suc-zero f = omega (arith, f)
compare_bytes-number a (c ∷ s) (d ∷ t) hs ht e = elim (Bool-cases (ltb c d)) [
  | inl f ↦
      first_less c s d t f
      ∙ sym (
          compare_nat-less _ _
            (number-less _ _ s t hs.1 ht.1 (omega (arith, e)) (below c d f hs.0)))
  | inr f ↦ elim (Bool-cases (ltb d c)) [
    | inl g ↦
        first_greater c s d t g
        ∙ sym (
            compare_nat-greater _ _
              (number-less _ _ t s ht.1 hs.1 (omega (arith, e)) (below d c g ht.0)))
    | inr g ↦
        let same : c ≡ d = ground (arith, f, g) in
        same_first c s d t same
        ∙ compare_bytes-number (a * 10 + (c - b'0')) s t hs.1 ht.1 (omega (arith, e))
        ∙ ap (λ x. compare_nat (number (a * 10 + (c - b'0')) s) (number (a * 10 + (x - b'0')) t))
            same
  ]
]
  where
    below :
        (c d : ℕ) → ltb c d ≡ true → is_digit c ≡ true → a * 10 + (c - b'0') < a * 10 + (d - b'0')
    below c d f h = ground (arith, f, h)

drop_zeros-cases :
    (c : ℕ) (s : Bytes)
    → ((c ≡ b'0') × (drop_zeros (c ∷ s) ≡ drop_zeros s))
      ⊎ ((c ≢ b'0') × (drop_zeros (c ∷ s) ≡ c ∷ s))
drop_zeros-cases c s = elim (Bool-cases (c == b'0')) [
  | inl e ↦ inl (ground (arith, e), ground (arith, e))
  | inr e ↦ inr (λ f. ground (arith, e, f), ground (arith, e))
]

drop_zeros-IsDigits : (s : Bytes) → IsDigits s → IsDigits (drop_zeros s)
drop_zeros-IsDigits [] h = tt
drop_zeros-IsDigits (c ∷ s) h = elim (drop_zeros-cases c s) [
  | inl (_, e) ↦ subst IsDigits (sym e) (drop_zeros-IsDigits s h.1)
  | inr (_, e) ↦ subst IsDigits (sym e) h
]

number-drop_zeros : (s : Bytes) → number 0 (drop_zeros s) ≡ number 0 s
number-drop_zeros [] = refl
number-drop_zeros (c ∷ s) = elim (drop_zeros-cases c s) [
  | inl (is_zero, e) ↦
      ap (number 0) e ∙ number-drop_zeros s ∙ ap (λ d. number (0 * 10 + (d - b'0')) s) (sym is_zero)
  | inr (_, e) ↦ ap (number 0) e
]

-- The run is empty or starts with a digit that is not zero.
abbrev Leads : Bytes → Type 0
Leads [] = Unit
Leads (c ∷ s) = b'0' < c

drop_zeros-Leads : (s : Bytes) → IsDigits s → Leads (drop_zeros s)
drop_zeros-Leads [] h = tt
drop_zeros-Leads (c ∷ s) h = elim (drop_zeros-cases c s) [
  | inl (_, e) ↦ subst Leads (sym e) (drop_zeros-Leads s h.1)
  | inr (other, e) ↦ subst Leads (sym e) (above h.0 other)
]
  where
    above : is_digit c ≡ true → c ≢ b'0' → b'0' < c
    above h k = ground (arith, h, k)

longer-number :
    (s t : Bytes)
    → IsDigits s
    → IsDigits t
    → Leads t
    → length s < length t
    → number 0 s < number 0 t
longer-number s [] hs ht lead lt = absurd (none_below lt)
  where
    none_below : length s < 0 → ⊥
    none_below f = omega (arith, f)
longer-number s (d ∷ t) hs ht lead lt =
    number-shorter (0 * 10 + (d - b'0')) s t hs ht.1 (omega (arith, lt)) (omega (arith, lead))

Leads-compare_runs :
    (s t : Bytes)
    → IsDigits s
    → IsDigits t
    → Leads s
    → Leads t
    → compare_runs s t ≡ compare_nat (number 0 s) (number 0 t)
Leads-compare_runs s t hs ht ls lt = elim (Bool-cases (ltb (length s) (length t))) [
  | inl e ↦ rw (compare_nat-less (length s) (length t) (ground (arith, e))) (
      sym (
        compare_nat-less (number 0 s) (number 0 t)
          (longer-number s t hs ht lt (ground (arith, e)))))
  | inr e ↦ elim (Bool-cases (ltb (length t) (length s))) [
    | inl f ↦ rw (compare_nat-greater (length s) (length t) (ground (arith, f))) (
        sym (
          compare_nat-greater (number 0 s) (number 0 t)
            (longer-number t s ht hs ls (ground (arith, f)))))
    | inr f ↦ rw (e, f) (compare_bytes-number 0 s t hs ht (ground (arith, e, f)))
  ]
]

-- Without the zeros before them, two runs compare as the numbers that they write.
pub compare_runs-number :
    (s t : Bytes)
    → compare_runs (drop_zeros (take_digits s)) (drop_zeros (take_digits t))
      ≡ compare_nat (number 0 (take_digits s)) (number 0 (take_digits t))
compare_runs-number s t =
    let hs = take_digits-IsDigits s in
    let ht = take_digits-IsDigits t in
    Leads-compare_runs (drop_zeros (take_digits s)) (drop_zeros (take_digits t))
      (drop_zeros-IsDigits _ hs) (drop_zeros-IsDigits _ ht) (drop_zeros-Leads _ hs)
      (drop_zeros-Leads _ ht)
    ∙ ap₂ compare_nat (number-drop_zeros (take_digits s)) (number-drop_zeros (take_digits t))
