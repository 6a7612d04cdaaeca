-- ===== src/Sorting/Sorted.antt =====
-- ApplySortFunction of internal/promshim/local/exec/sort.go: sort.SliceStable with a comparison that is a
-- total order.
use mathlib.Core.List.{Perm}
use promshim_clickhouse.Base.{
  Bool, true, false, List, [], ◌∷◌, if◌then◌else◌, All, ◌≡◌, refl, ◌∙◌, ap, arith, Bool-cases, inl,
  inr,
}
use promshim_clickhouse.Base.Comparison.{
  Comparison, equal, is_less, IsOrder, IsWeakOrder, equal_right, on-IsOrder,
}
use promshim_clickhouse.Bytes.{Bytes}
use promshim_clickhouse.Floats.{Floats}
use promshim_clickhouse.Matching.Join.{Sample}
use promshim_clickhouse.Sorting.{
  SortFunction, sort, sort_desc, sort_by_label, sort_by_label_desc, sort_comparison,
  apply_sort_function, natural_compare_strings,
}
use promshim_clickhouse.Sorting.Order.{
  IsNumber, Comparable, compare_by_value-IsOrder, compare_by_labels-IsOrder,
}
use promshim_clickhouse.Bytes.Sort.{
  insert_sorted, sort_by, sort_by-perm, All-sort_by, All-insert_sorted,
}

abbrev pub is_equal : Comparison → Bool
is_equal equal = true
is_equal _ = false

module _ {ℓ} {A : Type ℓ} (cmp : A → A → Comparison) where
  -- No element is smaller than one before it.
  abbrev pub Ordered : List A → Type 0
  Ordered [] = Unit
  Ordered (x ∷ xs) = All (λ y. is_less (cmp y x) ≡ false) xs × Ordered xs

  -- The elements of a list that the comparison finds equal to one.
  abbrev pub peers : A → List A → List A
  peers a [] = []
  peers a (x ∷ xs) = if is_equal (cmp x a) then x ∷ peers a xs else peers a xs

  module _ {P : A → Type 0} (o : IsOrder P cmp) where
    abbrev before : A → A → Bool
    before l r = is_less (cmp l r)

    not_before_trans :
        (x y z : A) → P x → P y → P z → before y x ≡ false → before z y ≡ false → before z x ≡ false
    not_before_trans x y z px py pz h k = ground (
      arith,
      h,
      k,
      o.equal_left z y x pz py px,
      equal_right o z y x pz py px,
      o.flips z y pz py,
      o.flips y x py px,
      o.flips z x pz px,
      o.less_trans x y z px py pz,
    )

    none_before :
        (x y : A) (ys : List A)
        → P x
        → P y
        → All P ys
        → before y x ≡ false
        → All (λ z. before z y ≡ false) ys
        → All (λ z. before z x ≡ false) ys
    none_before x y [] px py ps h k = tt
    none_before x y (z ∷ zs) px py ps h k =
        (not_before_trans x y z px py ps.0 h k.0, none_before x y zs px py ps.1 h k.1)

    insert_sorted-Ordered :
        (x : A) (ys : List A) → P x → All P ys → Ordered ys → Ordered (insert_sorted before x ys)
    unfolding insert_sorted
    insert_sorted-Ordered x [] px ps h = (tt, tt)
    insert_sorted-Ordered x (y ∷ ys) px ps h = elim (Bool-cases (before y x)) [
      | inl e ↦
          rw (e, insert_sorted)
            (
              All-insert_sorted before (λ z. before z y ≡ false) x ys
                  (ground (arith, e, o.flips y x ps.0 px)) h.0,
              insert_sorted-Ordered x ys px ps.1 h.1,
            )
      | inr e ↦ rw (e, insert_sorted) ((e, none_before x y ys px ps.0 ps.1 e h.0), h)
    ]

    sort_by-Ordered : (xs : List A) → All P xs → Ordered (sort_by before xs)
    unfolding sort_by
    sort_by-Ordered [] ps = tt
    sort_by-Ordered (x ∷ xs) ps =
        insert_sorted-Ordered x (sort_by before xs) ps.0 (All-sort_by before P xs ps.1)
          (sort_by-Ordered xs ps.1)

    insert_sorted-peers :
        (a x : A) (ys : List A)
        → P a
        → P x
        → All P ys
        → peers a (insert_sorted before x ys) ≡ peers a (x ∷ ys)
    unfolding insert_sorted
    insert_sorted-peers a x [] pa px ps = refl
    insert_sorted-peers a x (y ∷ ys) pa px ps = elim (Bool-cases (before y x)) [
      | inl e ↦
          rw (e, insert_sorted)
            (ground
              (arith, e, insert_sorted-peers a x ys pa px ps.1, equal_right o y x a ps.0 px pa))
      | inr e ↦ rw (e, insert_sorted) refl
    ]

    sort_by-peers :
        (a : A) (xs : List A) → P a → All P xs → peers a (sort_by before xs) ≡ peers a xs
    unfolding sort_by
    sort_by-peers a [] pa ps = refl
    sort_by-peers a (x ∷ xs) pa ps =
        insert_sorted-peers a x (sort_by before xs) pa ps.0 (All-sort_by before P xs ps.1)
        ∙ ap (λ rest. if is_equal (cmp x a) then x ∷ rest else rest) (sort_by-peers a xs pa ps.1)

  -- A rearrangement of a list in the order of the comparison, in which the elements that the comparison
  -- finds equal keep their order.
  abbrev pub StablySorted : List A → List A → Type ℓ
  StablySorted xs ys = Perm ys xs × (Ordered ys × All (λ a. peers a ys ≡ peers a xs) xs)

All-of {ℓ κ} :
    {A : Type ℓ} {P : A → Type 0} {Q : A → Type κ}
    → ((a : A) → P a → Q a)
    → (xs : List A) → All P xs
    → All Q xs
All-of f [] h = tt
All-of f (x ∷ xs) h = (f x h.0, All-of f xs h.1)

module _ {ℓ} {A : Type ℓ} {cmp : A → A → Comparison} {P : A → Type 0} (o : IsOrder P cmp) where
  sort_by-StablySorted :
      (xs : List A) → All P xs → StablySorted cmp xs (sort_by (λ l r. is_less (cmp l r)) xs)
  sort_by-StablySorted xs ps = (
    sort_by-perm (λ l r. is_less (cmp l r)) xs,
    (sort_by-Ordered cmp o xs ps, All-of (λ a pa. sort_by-peers cmp o a xs pa ps) xs ps),
  )

module _ (fl : Floats) (order : IsWeakOrder (IsNumber fl) fl.lt) (C : Bytes → Type 0)
    (canonical : (a b : Bytes) → C a → C b → natural_compare_strings a b ≡ equal → a ≡ b) where
  sort_comparison-IsOrder :
      (function : SortFunction) (labels : List Bytes)
      → IsOrder (Comparable fl order C canonical labels) (sort_comparison fl function labels)
  sort_comparison-IsOrder sort labels =
      on-IsOrder (compare_by_value-IsOrder fl order false) (Comparable fl order C canonical labels)
        (λ s. s) (λ _ h. h.0)
  sort_comparison-IsOrder sort_desc labels =
      on-IsOrder (compare_by_value-IsOrder fl order true) (Comparable fl order C canonical labels)
        (λ s. s) (λ _ h. h.0)
  sort_comparison-IsOrder sort_by_label labels =
      compare_by_labels-IsOrder fl order C canonical labels false
  sort_comparison-IsOrder sort_by_label_desc labels =
      compare_by_labels-IsOrder fl order C canonical labels true

  -- Where float64 is ordered except at NaN, no timestamp is NaN, and the natural order finds no two different
  -- values of the labels equal, a sort function rearranges the samples in the order of its comparison, and keeps
  -- the order of samples that the comparison finds equal.
  pub apply_sort_function-StablySorted :
      (function : SortFunction) (samples : List (Sample fl)) (labels : List Bytes)
      → All (Comparable fl order C canonical labels) samples
      → StablySorted
          (sort_comparison fl function labels)
          samples
          (apply_sort_function fl function samples labels)
  unfolding apply_sort_function
  apply_sort_function-StablySorted function samples labels h =
      sort_by-StablySorted (sort_comparison-IsOrder function labels) samples h
