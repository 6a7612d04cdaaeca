-- ===== src/Base/Comparison.antt =====
-- Three-way comparisons, as Go's code returns them (-1, 0 or 1), and when they order a type.
use mathlib.Core.Path.{◌≡◌, refl, sym, ◌∙◌, ap}
use mathlib.Core.Bool.{Bool, true, false}
use mathlib.Core.Logic.{◌⊎◌, inl, inr}
use mathlib.Core.List.{List, [], ◌∷◌}
use Prim.Native.Nat.{ℕ}
use native.Mathlib.Omega.{arith}
use promshim_clickhouse.Base.Tests.{ltb, if◌then◌else◌}

pub data Comparison : Type 0 where
  less equal greater : Comparison

abbrev pub flip : Comparison → Comparison
flip less = greater
flip equal = equal
flip greater = less

-- The second comparison, where the first finds no difference.
abbrev pub or_else : Comparison → Comparison → Comparison
or_else less d = less
or_else equal d = d
or_else greater d = greater

abbrev pub is_less : Comparison → Bool
is_less less = true
is_less _ = false

abbrev pub compare_nat : ℕ → ℕ → Comparison
compare_nat a b = if ltb a b then less else if ltb b a then greater else equal

pub Comparison-cases : (c : Comparison) → (c ≡ less) ⊎ ((c ≡ equal) ⊎ (c ≡ greater))
Comparison-cases less = inl refl
Comparison-cases equal = inr (inl refl)
Comparison-cases greater = inr (inr refl)

-- On the elements that satisfy P, a comparison is a total order up to elements that it finds equal.
pub record IsOrder {ℓ} {A : Type ℓ} (P : A → Type 0) (cmp : A → A → Comparison) : Type ℓ where
  pub flips : (a b : A) → P a → P b → cmp b a ≡ flip (cmp a b)
  pub less_trans : (a b c : A) → P a → P b → P c → cmp a b ≡ less → cmp b c ≡ less → cmp a c ≡ less
  pub equal_left : (a b c : A) → P a → P b → P c → cmp a b ≡ equal → cmp a c ≡ cmp b c

module _ {ℓ} {A : Type ℓ} {P : A → Type 0} {cmp : A → A → Comparison} (o : IsOrder P cmp) where
  pub equal_right : (a b c : A) → P a → P b → P c → cmp b c ≡ equal → cmp a b ≡ cmp a c
  equal_right a b c pa pb pc h =
      o.flips b a pb pa ∙ ap flip (o.equal_left b c a pb pc pa h) ∙ sym (o.flips c a pc pa)

  pub IsOrder-refl : (a : A) → P a → cmp a a ≡ equal
  IsOrder-refl a pa = ground (arith, o.flips a a pa pa)

  -- The order of one comparison is that of any that agrees with it on the elements of P.
  pub IsOrder-agrees :
      {other : A → A → Comparison} → ((a b : A) → P a → P b → other a b ≡ cmp a b) → IsOrder P other
  IsOrder-agrees agrees = record {
    flips = λ a b pa pb. rw (agrees a b pa pb, agrees b a pb pa) (o.flips a b pa pb);
    less_trans = λ a b c pa pb pc h k.
        rw (agrees a c pa pc)
          (o.less_trans a b c pa pb pc (rw (agrees a b pa pb) at h) (rw (agrees b c pb pc) at k));
    equal_left = λ a b c pa pb pc h.
        rw (agrees a c pa pc, agrees b c pb pc)
          (o.equal_left a b c pa pb pc (rw (agrees a b pa pb) at h));
  }

  pub on-IsOrder {κ} :
      {B : Type κ} (Q : B → Type 0) (f : B → A)
      → ((b : B) → Q b → P (f b))
      → IsOrder Q (λ x y. cmp (f x) (f y))
  on-IsOrder Q f h = record {
    flips = λ a b pa pb. o.flips (f a) (f b) (h a pa) (h b pb);
    less_trans = λ a b c pa pb pc. o.less_trans (f a) (f b) (f c) (h a pa) (h b pb) (h c pc);
    equal_left = λ a b c pa pb pc. o.equal_left (f a) (f b) (f c) (h a pa) (h b pb) (h c pc);
  }

  -- The other way round.
  pub flip-IsOrder : IsOrder P (λ x y. flip (cmp x y))
  flip-IsOrder = record {
    flips = λ a b pa pb. ap flip (o.flips a b pa pb);
    less_trans = λ a b c pa pb pc h k. ground (
      arith,
      h,
      k,
      o.flips a b pa pb,
      o.flips b c pb pc,
      o.flips a c pa pc,
      o.less_trans c b a pc pb pa,
    );
    equal_left = λ a b c pa pb pc h. ap flip (o.equal_left a b c pa pb pc (ground (arith, h)));
  }

  module _ {second : A → A → Comparison} (s : IsOrder P second) where
    abbrev both : A → A → Comparison
    both a b = or_else (cmp a b) (second a b)

    or_else_trans :
        (a b c : A) → P a → P b → P c → both a b ≡ less → both b c ≡ less → both a c ≡ less
    or_else_trans a b c pa pb pc h k = elim (Comparison-cases (cmp a b)) [
      | inl e ↦ elim (Comparison-cases (cmp b c)) [
        | inl f ↦ rw (o.less_trans a b c pa pb pc e f) refl
        | inr (inl f) ↦ rw (sym (equal_right a b c pa pb pc f) ∙ e) refl
        | inr (inr f) ↦ ground (arith, f, k)
      ]
      | inr (inl e) ↦ rw (o.equal_left a b c pa pb pc e) (elim (Comparison-cases (cmp b c)) [
        | inl f ↦ rw f refl
        | inr (inl f) ↦ rw f (s.less_trans a b c pa pb pc (rw e at h) (rw f at k))
        | inr (inr f) ↦ ground (arith, f, k)
      ])
      | inr (inr e) ↦ ground (arith, e, h)
    ]

    or_else_equal : (a b c : A) → P a → P b → P c → both a b ≡ equal → both a c ≡ both b c
    or_else_equal a b c pa pb pc h = elim (Comparison-cases (cmp a b)) [
      | inl e ↦ ground (arith, e, h)
      | inr (inl e) ↦
          rw (o.equal_left a b c pa pb pc e, s.equal_left a b c pa pb pc (rw e at h)) refl
      | inr (inr e) ↦ ground (arith, e, h)
    ]

    -- First by one comparison, then by another.
    pub or_else-IsOrder : IsOrder P both
    or_else-IsOrder = record {
      flips = λ a b pa pb. ground (arith, o.flips a b pa pb, s.flips a b pa pb);
      less_trans = or_else_trans;
      equal_left = or_else_equal;
    }

-- The comparison that two tests make.
abbrev pub by_less {ℓ} : {A : Type ℓ} → (A → A → Bool) → A → A → Comparison
by_less lt a b = if lt a b then less else if lt b a then greater else equal

-- On the elements that satisfy P, a strict weak order.
pub record IsWeakOrder {ℓ} {A : Type ℓ} (P : A → Type 0) (lt : A → A → Bool) : Type ℓ where
  pub asym : (a b : A) → P a → P b → lt a b ≡ true → lt b a ≡ false
  pub splits : (a b c : A) → P a → P b → P c → lt a c ≡ true → lt a b ≡ false → lt b c ≡ true

pub by_less-IsOrder {ℓ} :
    {A : Type ℓ} {P : A → Type 0} {lt : A → A → Bool} → IsWeakOrder P lt → IsOrder P (by_less lt)
by_less-IsOrder w = record {
  flips = λ a b pa pb. ground (arith, w.asym a b pa pb, w.asym b a pb pa);
  less_trans = λ a b c pa pb pc h k.
      ground (arith, h, k, w.asym a b pa pb, w.asym b c pb pc, w.splits b a c pb pa pc);
  equal_left = λ a b c pa pb pc h. ground (
    arith,
    h,
    w.splits a b c pa pb pc,
    w.splits b a c pb pa pc,
    w.splits c a b pc pa pb,
    w.splits c b a pc pb pa,
  );
}

abbrev pub Always {ℓ} : {A : Type ℓ} → A → Type 0
Always a = Unit

pub compare_nat-IsOrder : IsOrder Always compare_nat
compare_nat-IsOrder = record {
  flips = λ a b _ _. ground arith;
  less_trans = λ a b c _ _ _ h k. ground arith;
  equal_left = λ a b c _ _ _ h. ground arith;
}

-- Element by element, and a proper prefix first.
abbrev pub compare_list {ℓ} : {A : Type ℓ} → (A → A → Comparison) → List A → List A → Comparison
compare_list cmp [] [] = equal
compare_list cmp [] (y ∷ ys) = less
compare_list cmp (x ∷ xs) [] = greater
compare_list cmp (x ∷ xs) (y ∷ ys) = or_else (cmp x y) (compare_list cmp xs ys)

module _ {ℓ} {A : Type ℓ} {cmp : A → A → Comparison} (o : IsOrder Always cmp) where
  compare_list_flips : (xs ys : List A) → compare_list cmp ys xs ≡ flip (compare_list cmp xs ys)
  compare_list_flips [] [] = refl
  compare_list_flips [] (y ∷ ys) = refl
  compare_list_flips (x ∷ xs) [] = refl
  compare_list_flips (x ∷ xs) (y ∷ ys) = ground (arith, o.flips x y tt tt, compare_list_flips xs ys)

  compare_list_equal :
      (xs ys zs : List A)
      → compare_list cmp xs ys ≡ equal
      → compare_list cmp xs zs ≡ compare_list cmp ys zs
  compare_list_equal [] [] zs h = refl
  compare_list_equal [] (y ∷ ys) zs h = cc
  compare_list_equal (x ∷ xs) [] zs h = cc
  compare_list_equal (x ∷ xs) (y ∷ ys) [] h = refl
  compare_list_equal (x ∷ xs) (y ∷ ys) (z ∷ zs) h = elim (Comparison-cases (cmp x y)) [
    | inl e ↦ ground (arith, e, h)
    | inr (inl e) ↦ rw (o.equal_left x y z tt tt tt e, compare_list_equal xs ys zs (rw e at h)) refl
    | inr (inr e) ↦ ground (arith, e, h)
  ]

  compare_list_trans :
      (xs ys zs : List A)
      → compare_list cmp xs ys ≡ less
      → compare_list cmp ys zs ≡ less
      → compare_list cmp xs zs ≡ less
  compare_list_trans [] [] zs h k = cc
  compare_list_trans [] (y ∷ ys) [] h k = cc
  compare_list_trans [] (y ∷ ys) (z ∷ zs) h k = refl
  compare_list_trans (x ∷ xs) [] zs h k = cc
  compare_list_trans (x ∷ xs) (y ∷ ys) [] h k = cc
  compare_list_trans (x ∷ xs) (y ∷ ys) (z ∷ zs) h k = elim (Comparison-cases (cmp x y)) [
    | inl e ↦ elim (Comparison-cases (cmp y z)) [
      | inl f ↦ rw (o.less_trans x y z tt tt tt e f) refl
      | inr (inl f) ↦ rw (sym (equal_right o x y z tt tt tt f) ∙ e) refl
      | inr (inr f) ↦ ground (arith, f, k)
    ]
    | inr (inl e) ↦ rw (o.equal_left x y z tt tt tt e) (elim (Comparison-cases (cmp y z)) [
      | inl f ↦ rw f refl
      | inr (inl f) ↦ rw f (compare_list_trans xs ys zs (rw e at h) (rw f at k))
      | inr (inr f) ↦ ground (arith, f, k)
    ])
    | inr (inr e) ↦ ground (arith, e, h)
  ]

  pub compare_list-IsOrder : IsOrder Always (compare_list cmp)
  compare_list-IsOrder = record {
    flips = λ xs ys _ _. compare_list_flips xs ys;
    less_trans = λ xs ys zs _ _ _. compare_list_trans xs ys zs;
    equal_left = λ xs ys zs _ _ _. compare_list_equal xs ys zs;
  }
