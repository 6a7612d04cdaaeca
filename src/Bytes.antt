-- ===== src/Bytes.antt =====
-- Go's strings as lists of bytes: `==` and `<` on them, as internal/promshim/model compares names.
pub mod Sort
pub mod Dict
pub mod Text
pub mod Decimal
pub mod Bars
use promshim_clickhouse.Base.{
  ℕ, suc, ◌+◌, ◌<◌, ◌≡◌, refl, ◌↔◌, ◌⊎◌, Bool, true, false, ◌&&◌, List, [], ◌∷◌, ◌++◌, arith, ltb,
  leb, ◌==◌, if◌then◌else◌, All, ap, ap₂, sym, ◌≢◌,
}

abbrev pub Bytes : Type 0
Bytes = List ℕ

unfoldable pub bytes_eq : Bytes → Bytes → Bool
bytes_eq [] [] = true
bytes_eq [] (y ∷ ys) = false
bytes_eq (x ∷ xs) [] = false
bytes_eq (x ∷ xs) (y ∷ ys) = x == y && bytes_eq xs ys

-- Byte by byte, and a proper prefix first.
unfoldable pub bytes_lt : Bytes → Bytes → Bool
bytes_lt [] [] = false
bytes_lt [] (y ∷ ys) = true
bytes_lt (x ∷ xs) [] = false
bytes_lt (x ∷ xs) (y ∷ ys) =
    let rest = bytes_lt xs ys in if ltb x y then true else if ltb y x then false else rest

pub bytes_eq_sound : (a b : Bytes) → bytes_eq a b ≡ true → a ≡ b
unfolding bytes_eq
bytes_eq_sound [] [] h = refl
bytes_eq_sound [] (y ∷ ys) h = ground arith
bytes_eq_sound (x ∷ xs) [] h = ground arith
bytes_eq_sound (x ∷ xs) (y ∷ ys) h = ground (arith, bytes_eq_sound xs ys)

pub bytes_eq_refl : (a : Bytes) → bytes_eq a a ≡ true
unfolding bytes_eq
bytes_eq_refl [] = refl
bytes_eq_refl (x ∷ xs) = ground (arith, bytes_eq_refl xs)

pub bytes_eq_iff : (a b : Bytes) → (bytes_eq a b ≡ true) ↔ (a ≡ b)
bytes_eq_iff a b = (bytes_eq_sound a b, λ e. ground (arith, e, bytes_eq_refl a))

pub bytes_lt_irrefl : (a : Bytes) → bytes_lt a a ≡ false
unfolding bytes_lt
bytes_lt_irrefl [] = refl
bytes_lt_irrefl (x ∷ xs) = ground (arith, bytes_lt_irrefl xs)

pub bytes_lt_trans :
    (a b c : Bytes) → bytes_lt a b ≡ true → bytes_lt b c ≡ true → bytes_lt a c ≡ true
unfolding bytes_lt
bytes_lt_trans [] [] c h k = ground arith
bytes_lt_trans [] (y ∷ ys) [] h k = ground arith
bytes_lt_trans [] (y ∷ ys) (z ∷ zs) h k = refl
bytes_lt_trans (x ∷ xs) [] c h k = ground arith
bytes_lt_trans (x ∷ xs) (y ∷ ys) [] h k = ground arith
bytes_lt_trans (x ∷ xs) (y ∷ ys) (z ∷ zs) h k = ground (arith, bytes_lt_trans xs ys zs)

pub bytes_lt_asym : (a b : Bytes) → bytes_lt a b ≡ true → bytes_lt b a ≡ false
unfolding bytes_lt
bytes_lt_asym [] [] h = refl
bytes_lt_asym [] (y ∷ ys) h = refl
bytes_lt_asym (x ∷ xs) [] h = ground arith
bytes_lt_asym (x ∷ xs) (y ∷ ys) h = ground (arith, bytes_lt_asym xs ys)

-- Two strings of which neither is smaller are one.
pub bytes_lt_connected : (a b : Bytes) → bytes_lt a b ≡ false → bytes_lt b a ≡ false → a ≡ b
unfolding bytes_lt
bytes_lt_connected [] [] h k = refl
bytes_lt_connected [] (y ∷ ys) h k = ground arith
bytes_lt_connected (x ∷ xs) [] h k = ground arith
bytes_lt_connected (x ∷ xs) (y ∷ ys) h k = ground (arith, bytes_lt_connected xs ys)

-- strings.Join
unfoldable pub join_strings : Bytes → List Bytes → Bytes
join_strings separator [] = []
join_strings separator (s ∷ []) = s
join_strings separator (s ∷ t ∷ rest) = s ++ (separator ++ join_strings separator (t ∷ rest))

-- An ASCII digit.
abbrev pub is_digit : ℕ → Bool
is_digit c = leb b'0' c && leb c b'9'

-- No byte of the string is `c`.
abbrev pub Lacks : ℕ → Bytes → Type 0
Lacks c = All (λ x. x ≢ c)

-- Two strings that lack a separator are read back from what stands up to it.
pub separator_unique :
    (c : ℕ) (a b x y : Bytes)
    → Lacks c a
    → Lacks c b
    → a ++ (c ∷ x) ≡ b ++ (c ∷ y)
    → (a ≡ b) × (x ≡ y)
separator_unique c [] [] x y ha hb e = (refl, ground (arith, e))
separator_unique c [] (q ∷ b) x y ha hb e = absurd (hb.0 (ground (arith, e)))
separator_unique c (p ∷ a) [] x y ha hb e = absurd (ha.0 (ground (arith, e)))
separator_unique c (p ∷ a) (q ∷ b) x y ha hb e =
    let (ab, xy) = separator_unique c a b x y ha.1 hb.1 (ground (arith, e)) in
    (ground (arith, e, ab), xy)
