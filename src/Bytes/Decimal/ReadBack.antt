-- ===== src/Bytes/Decimal/ReadBack.antt =====
-- A number is read back from its decimal text.
use promshim_clickhouse.Base.{
  sym, ℕ, zero, suc, ◌+◌, ◌-◌, ◌*◌, ◌/◌, ◌%◌, ◌^◌, ◌<◌, true, false, [], ◌∷◌, ◌++◌, ◌≡◌, refl, ◌∙◌,
  ap, arith, ltb, ◌==◌, if◌then◌else◌, Bool-cases, inl, inr, All,
}
use promshim_clickhouse.Base.Int.{ℤ, pos, negsuc}
use promshim_clickhouse.Bytes.{Bytes, is_digit, Lacks}
use promshim_clickhouse.Bytes.Decimal.{digits_of, format_int}

-- The number that the digits write, after the digits of `acc`.
abbrev pub number : ℕ → Bytes → ℕ
number acc [] = acc
number acc (c ∷ s) = number (acc * 10 + (c - b'0')) s

abbrev read_int : Bytes → ℤ
read_int [] = pos 0
read_int (c ∷ s) = if c == b'-' then negsuc (number 0 s - 1) else pos (number 0 (c ∷ s))

number-last :
    (acc : ℕ) (s : Bytes) (c : ℕ) → number acc (s ++ (c ∷ [])) ≡ number acc s * 10 + (c - b'0')
number-last acc [] c = refl
number-last acc (d ∷ s) c = number-last (acc * 10 + (d - b'0')) s c

number-digits_of : (fuel n : ℕ) → n < 10 ^ fuel → number 0 (digits_of fuel n) ≡ n
unfolding digits_of
number-digits_of zero n h = omega (arith, h)
number-digits_of (suc fuel) n h = elim (Bool-cases (ltb n 10)) [
  | inl e ↦ rw (e, digits_of) (omega arith)
  | inr e ↦
      rw (e, digits_of)
        (number-last 0 (digits_of fuel (n / 10)) (b'0' + n % 10)
          ∙ rw (number-digits_of fuel (n / 10) (omega (arith, h))) (omega arith))
]

abbrev pub IsDigits : Bytes → Type 0
IsDigits s = All (λ c. is_digit c ≡ true) s

IsDigits-append : (s t : Bytes) → IsDigits s → IsDigits t → IsDigits (s ++ t)
IsDigits-append [] t h k = k
IsDigits-append (c ∷ s) t h k = (h.0, IsDigits-append s t h.1 k)

digits_of-IsDigits : (fuel n : ℕ) → IsDigits (digits_of fuel n)
unfolding digits_of
digits_of-IsDigits zero n = tt
digits_of-IsDigits (suc fuel) n = elim (Bool-cases (ltb n 10)) [
  | inl e ↦ rw (e, digits_of) (ground (arith, e), tt)
  | inr e ↦
      rw (e, digits_of)
        (IsDigits-append (digits_of fuel (n / 10)) _ (digits_of-IsDigits fuel (n / 10))
          (ground arith, tt))
]

-- An int64.
abbrev pub IsInt64 : ℤ → Type 0
IsInt64 (pos n) = n < 2 ^ 63
IsInt64 (negsuc n) = n < 2 ^ 63

read_int-IsDigits : (s : Bytes) → IsDigits s → read_int s ≡ pos (number 0 s)
read_int-IsDigits [] h = refl
read_int-IsDigits (c ∷ s) h = rw (not_minus c h.0) refl
  where
    not_minus : (c : ℕ) → is_digit c ≡ true → (c == b'-') ≡ false
    not_minus c e = ground (arith, e)

-- The text of an int64 is read back as the number.
read_int-format_int : (z : ℤ) → IsInt64 z → read_int (format_int z) ≡ z
unfolding format_int
read_int-format_int (pos n) h =
    read_int-IsDigits (digits_of 20 n) (digits_of-IsDigits 20 n)
    ∙ ap pos (number-digits_of 20 n (omega (arith, h)))
read_int-format_int (negsuc n) h =
    ap (λ m. negsuc (m - 1)) (number-digits_of 20 (suc n) (omega (arith, h)))
    ∙ ap negsuc (omega arith)

pub format_int-injective : (a b : ℤ) → IsInt64 a → IsInt64 b → format_int a ≡ format_int b → a ≡ b
format_int-injective a b ha hb e =
    sym (read_int-format_int a ha) ∙ ap read_int e ∙ read_int-format_int b hb

IsDigits-Lacks : (s : Bytes) → IsDigits s → Lacks b'|' s
IsDigits-Lacks [] h = tt
IsDigits-Lacks (c ∷ s) h = (ground (arith, h.0), IsDigits-Lacks s h.1)

-- There is no bar in it.
pub format_int-Lacks : (z : ℤ) → Lacks b'|' (format_int z)
unfolding format_int
format_int-Lacks (pos n) = IsDigits-Lacks (digits_of 20 n) (digits_of-IsDigits 20 n)
format_int-Lacks (negsuc n) =
    (ground arith, IsDigits-Lacks (digits_of 20 (suc n)) (digits_of-IsDigits 20 (suc n)))
