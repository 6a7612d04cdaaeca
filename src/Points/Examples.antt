-- ===== src/Points/Examples.antt =====
-- Points of internal/promshim/model/timealign.go on concrete inputs.
use mathlib.Core.List.{Perm}
use promshim_clickhouse.Base.{
  ℕ, true, false, Option, none, some, List, [], ◌∷◌, ◌++◌, ok, ◌≡◌, refl, arith,
}
use promshim_clickhouse.Base.Int.{pos}
use promshim_clickhouse.Floats.{nat_floats, nan_floats}
use promshim_clickhouse.Points.{
  RangePoint, build_constant_range_points, sort_and_validate_range_points,
  append_range_points_strict,
}
use promshim_clickhouse.Points.Grid.{grid, build_constant_range_points_lem}
use promshim_clickhouse.Points.Order.{
  IsOrdered, Increasing, append_range_points_strict-Increasing, sort_and_validate_range_points_lem,
}

abbrev point : ℕ → RangePoint ℕ
point t = record { timestamp = t; value = 7 }

-- A point whose timestamp is a number and whose value is NaN.
abbrev at : ℕ → RangePoint (Option ℕ)
at t = record { timestamp = some t; value = none }

nan_floats-IsOrdered : IsOrdered nan_floats
nan_floats-IsOrdered = record {
  lt_asym = asym;
  lt_of_not_le = not_le;
  eq_of_not_lt = not_lt;
  lt_irrefl_eq = irrefl;
}
  where
    asym : (a b : Option ℕ) → nan_floats.lt a b ≡ true → nan_floats.lt b a ≡ false
    asym (some a) (some b) h = ground (arith, h)
    asym none (some b) h = refl
    asym none none h = refl
    asym (some a) none h = refl

    not_le :
        (a b : Option ℕ)
        → nan_floats.is_nan a ≡ false
        → nan_floats.is_nan b ≡ false
        → nan_floats.le a b ≡ false
        → nan_floats.lt b a ≡ true
    not_le (some a) (some b) na nb h = ground (arith, h)
    not_le none b na nb h = ground (arith, na)
    not_le (some a) none na nb h = ground (arith, nb)

    not_lt :
        (a b : Option ℕ)
        → nan_floats.is_nan a ≡ false
        → nan_floats.is_nan b ≡ false
        → nan_floats.lt a b ≡ false
        → nan_floats.lt b a ≡ false
        → nan_floats.eq a b ≡ true
    not_lt (some a) (some b) na nb h k = ground (arith, h, k)
    not_lt none b na nb h k = ground (arith, na)
    not_lt (some a) none na nb h k = ground (arith, nb)

    irrefl : (a b : Option ℕ) → nan_floats.eq a b ≡ true → nan_floats.lt b a ≡ false
    irrefl (some a) (some b) h = ground (arith, h)
    irrefl none (some b) h = refl
    irrefl none none h = refl
    irrefl (some a) none h = refl

build_constant_range_points_lem_example :
    build_constant_range_points nat_floats (λ t. t) 10 50 (pos 20) 7
    ≡ ok (point 10 ∷ point 30 ∷ point 50 ∷ [])
unfolding grid
build_constant_range_points_lem_example =
    build_constant_range_points_lem nat_floats (λ t. t) 10 50 (pos 20) 7

append_range_points_strict-Increasing_example :
    (at 1 ∷ at 2 ∷ at 3 ∷ [] ≡ (at 1 ∷ at 2 ∷ []) ++ (at 3 ∷ []))
    × Increasing nan_floats (at 1 ∷ at 2 ∷ at 3 ∷ [])
unfolding append_range_points_strict
append_range_points_strict-Increasing_example =
    append_range_points_strict-Increasing nan_floats nan_floats-IsOrdered (at 1 ∷ at 2 ∷ [])
      (at 3 ∷ []) (at 1 ∷ at 2 ∷ at 3 ∷ []) (refl, tt) tt (refl, (refl, tt)) (refl, tt) refl

sort_and_validate_range_points_lem_example :
    ((out : List (RangePoint (Option ℕ)))
      → sort_and_validate_range_points nan_floats (at 2 ∷ at 1 ∷ []) ≡ ok out
      → Perm out (at 2 ∷ at 1 ∷ []) × Increasing nan_floats out)
    × (Increasing nan_floats (at 2 ∷ at 1 ∷ [])
        → sort_and_validate_range_points nan_floats (at 2 ∷ at 1 ∷ []) ≡ ok (at 2 ∷ at 1 ∷ []))
sort_and_validate_range_points_lem_example =
    sort_and_validate_range_points_lem nan_floats nan_floats-IsOrdered (at 2 ∷ at 1 ∷ [])
      (refl, (refl, tt))
