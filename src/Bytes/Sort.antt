-- ===== src/Bytes/Sort.antt =====
-- sort.Strings and sort.SliceStable, as a stable insertion sort, and lists of distinct strings.
use mathlib.Core.List.{Perm}
use mathlib.Core.List.Perm
use promshim_clickhouse.Base.{
  suc, ◌≡◌, refl, inl, inr, Bool, true, false, ◌||◌, List, [], ◌∷◌, arith, if◌then◌else◌, All, any,
  ap, sym, ◌∙◌, Bool-cases, length, subst,
}
use promshim_clickhouse.Bytes.{
  Bytes, bytes_eq, bytes_lt, bytes_eq_iff, bytes_eq_refl, bytes_eq_sound, bytes_lt_irrefl,
  bytes_lt_trans, bytes_lt_asym, bytes_lt_connected,
}

module _ {ℓ} {A : Type ℓ} (less : A → A → Bool) where
  unfoldable pub insert_sorted : A → List A → List A
  insert_sorted x [] = x ∷ []
  insert_sorted x (y ∷ ys) = if less y x then y ∷ insert_sorted x ys else x ∷ y ∷ ys

  unfoldable pub sort_by : List A → List A
  sort_by [] = []
  sort_by (x ∷ xs) = insert_sorted x (sort_by xs)

  pub any-insert_sorted :
      (p : A → Bool) (x : A) (ys : List A) → any p (insert_sorted x ys) ≡ (p x || any p ys)
  unfolding insert_sorted
  any-insert_sorted p x [] = refl
  any-insert_sorted p x (y ∷ ys) = ground (arith, any-insert_sorted p x ys)

  pub any-sort_by : (p : A → Bool) (xs : List A) → any p (sort_by xs) ≡ any p xs
  unfolding sort_by
  any-sort_by p [] = refl
  any-sort_by p (x ∷ xs) =
      any-insert_sorted p x (sort_by xs) ∙ ap (λ b. p x || b) (any-sort_by p xs)

  pub length-insert_sorted : (x : A) (ys : List A) → length (insert_sorted x ys) ≡ suc (length ys)
  unfolding insert_sorted
  length-insert_sorted x [] = refl
  length-insert_sorted x (y ∷ ys) = ground (arith, length-insert_sorted x ys)

  pub length-sort_by : (xs : List A) → length (sort_by xs) ≡ length xs
  unfolding sort_by
  length-sort_by [] = refl
  length-sort_by (x ∷ xs) = length-insert_sorted x (sort_by xs) ∙ ap suc (length-sort_by xs)

  insert_sorted-perm : (x : A) (ys : List A) → Perm (insert_sorted x ys) (x ∷ ys)
  unfolding insert_sorted
  insert_sorted-perm x [] = Perm.rfl
  insert_sorted-perm x (y ∷ ys) = elim (Bool-cases (less y x)) [
    | inl e ↦
        rw (e, insert_sorted)
          (Perm.trans (Perm.cons y (insert_sorted-perm x ys)) (Perm.swap x y ys))
    | inr e ↦ rw (e, insert_sorted) Perm.rfl
  ]

  -- Sorting neither loses nor adds an element.
  pub sort_by-perm : (xs : List A) → Perm (sort_by xs) xs
  unfolding sort_by
  sort_by-perm [] = Perm.rfl
  sort_by-perm (x ∷ xs) =
      Perm.trans (insert_sorted-perm x (sort_by xs)) (Perm.cons x (sort_by-perm xs))

  pub All-insert_sorted {κ} :
      (P : A → Type κ) (x : A) (ys : List A) → P x → All P ys → All P (insert_sorted x ys)
  unfolding insert_sorted
  All-insert_sorted P x [] hx h = (hx, tt)
  All-insert_sorted P x (y ∷ ys) hx h = elim (Bool-cases (less y x)) [
    | inl e ↦ rw (e, insert_sorted) (h.0, All-insert_sorted P x ys hx h.1)
    | inr e ↦ rw (e, insert_sorted) (hx, h)
  ]

  pub All-sort_by {κ} : (P : A → Type κ) (xs : List A) → All P xs → All P (sort_by xs)
  unfolding sort_by
  All-sort_by P [] h = tt
  All-sort_by P (x ∷ xs) h = All-insert_sorted P x (sort_by xs) h.0 (All-sort_by P xs h.1)

abbrev pub sort_strings : List Bytes → List Bytes
sort_strings = sort_by bytes_lt

abbrev pub contains : Bytes → List Bytes → Bool
contains k = any (bytes_eq k)

-- No string occurs twice.
abbrev pub Distinct : List Bytes → Type 0
Distinct [] = Unit
Distinct (x ∷ xs) = (contains x xs ≡ false) × Distinct xs

abbrev pub StrictSorted : List Bytes → Type 0
StrictSorted [] = Unit
StrictSorted (x ∷ xs) = All (λ y. bytes_lt x y ≡ true) xs × StrictSorted xs

pub All-contains {κ} :
    (P : Bytes → Type κ) (k : Bytes) (xs : List Bytes) → All P xs → contains k xs ≡ true → P k
All-contains P k [] h c = ground (arith, c)
All-contains P k (x ∷ xs) h c = elim (Bool-cases (bytes_eq k x)) [
  | inl e ↦ rw (bytes_eq_sound k x e) h.0
  | inr e ↦ All-contains P k xs h.1 (ground (arith, e, c))
]

above_not_contains :
    (k : Bytes) (xs : List Bytes) → All (λ y. bytes_lt k y ≡ true) xs → contains k xs ≡ false
above_not_contains k xs h = elim (Bool-cases (contains k xs)) [
  | inl c ↦ ground (arith, All-contains (λ y. bytes_lt k y ≡ true) k xs h c, bytes_lt_irrefl k)
  | inr c ↦ c
]

All-above :
    (x y : Bytes) (ys : List Bytes)
    → bytes_lt x y ≡ true
    → All (λ z. bytes_lt y z ≡ true) ys
    → All (λ z. bytes_lt x z ≡ true) ys
All-above x y [] h a = tt
All-above x y (z ∷ zs) h a = (bytes_lt_trans x y z h a.0, All-above x y zs h a.1)

insert_sorted-StrictSorted :
    (x : Bytes) (ys : List Bytes)
    → contains x ys ≡ false
    → StrictSorted ys
    → StrictSorted (insert_sorted bytes_lt x ys)
unfolding insert_sorted
insert_sorted-StrictSorted x [] c s = (tt, tt)
insert_sorted-StrictSorted x (y ∷ ys) c s = elim (Bool-cases (bytes_lt y x)) [
  | inl e ↦
      rw (e, insert_sorted)
        (
          All-insert_sorted bytes_lt (λ z. bytes_lt y z ≡ true) x ys e s.0,
          insert_sorted-StrictSorted x ys (ground (arith, c)) s.1,
        )
  | inr e ↦
      let below : bytes_lt x y ≡ true = elim (Bool-cases (bytes_lt x y)) [
        | inl h ↦ h
        | inr h ↦ ground (arith, c, bytes_eq_iff x y, bytes_lt_connected x y h e)
      ] in
      rw (e, insert_sorted) ((below, All-above x y ys below s.0), s)
]

pub sort_strings-StrictSorted : (xs : List Bytes) → Distinct xs → StrictSorted (sort_strings xs)
unfolding sort_by
sort_strings-StrictSorted [] d = tt
sort_strings-StrictSorted (x ∷ xs) d =
    insert_sorted-StrictSorted x (sort_strings xs) (any-sort_by bytes_lt (bytes_eq x) xs ∙ d.0)
      (sort_strings-StrictSorted xs d.1)

abbrev SameStrings : List Bytes → List Bytes → Type 0
SameStrings xs ys = (k : Bytes) → contains k xs ≡ contains k ys

heads_equal :
    (x : Bytes) (xs : List Bytes) (y : Bytes) (ys : List Bytes)
    → StrictSorted (x ∷ xs)
    → StrictSorted (y ∷ ys)
    → SameStrings (x ∷ xs) (y ∷ ys)
    → x ≡ y
heads_equal x xs y ys sx sy same = elim (Bool-cases (bytes_eq x y)) [
  | inl e ↦ bytes_eq_sound x y e
  | inr e ↦
      let in_ys : contains x ys ≡ true = ground (arith, e, same x, bytes_eq_refl x) in
      let below_x : bytes_lt y x ≡ true = All-contains (λ z. bytes_lt y z ≡ true) x ys sy.0 in_ys in
      let apart : bytes_eq y x ≡ false = ground (arith, e, bytes_eq_iff x y, bytes_eq_iff y x) in
      let in_xs : contains y xs ≡ true = ground (arith, apart, same y, bytes_eq_refl y) in
      let below_y : bytes_lt x y ≡ true = All-contains (λ z. bytes_lt x z ≡ true) y xs sx.0 in_xs in
      ground (arith, below_x, below_y, bytes_lt_asym x y)
]

tails_same :
    (x : Bytes) (xs ys : List Bytes)
    → StrictSorted (x ∷ xs)
    → StrictSorted (x ∷ ys)
    → SameStrings (x ∷ xs) (x ∷ ys)
    → SameStrings xs ys
tails_same x xs ys sx sy same k = elim (Bool-cases (bytes_eq k x)) [
  | inl e ↦
      rw (bytes_eq_sound k x e) (above_not_contains x xs sx.0 ∙ sym (above_not_contains x ys sy.0))
  | inr e ↦ ground (arith, e, same k)
]

-- Strictly increasing lists of the same strings are one list.
pub StrictSorted-ext :
    (xs ys : List Bytes) → StrictSorted xs → StrictSorted ys → SameStrings xs ys → xs ≡ ys
StrictSorted-ext [] [] sx sy same = refl
StrictSorted-ext [] (y ∷ ys) sx sy same = ground (arith, same y, bytes_eq_refl y)
StrictSorted-ext (x ∷ xs) [] sx sy same = ground (arith, same x, bytes_eq_refl x)
StrictSorted-ext (x ∷ xs) (y ∷ ys) sx sy same =
    let e : x ≡ y = heads_equal x xs y ys sx sy same in
    let s' : StrictSorted (x ∷ ys) = subst (λ z. StrictSorted (z ∷ ys)) (sym e) sy in
    let same' : SameStrings (x ∷ xs) (x ∷ ys) =
      subst (λ z. SameStrings (x ∷ xs) (z ∷ ys)) (sym e) same in
    ground (arith, e, StrictSorted-ext xs ys sx.1 sy.1 (tails_same x xs ys sx s' same'))

StrictSorted-Distinct : (xs : List Bytes) → StrictSorted xs → Distinct xs
StrictSorted-Distinct [] s = tt
StrictSorted-Distinct (x ∷ xs) s = (above_not_contains x xs s.0, StrictSorted-Distinct xs s.1)

pub sort_strings-Distinct : (xs : List Bytes) → Distinct xs → Distinct (sort_strings xs)
sort_strings-Distinct xs d =
    StrictSorted-Distinct (sort_strings xs) (sort_strings-StrictSorted xs d)
