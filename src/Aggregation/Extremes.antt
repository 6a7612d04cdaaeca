-- ===== src/Aggregation/Extremes.antt =====
-- The reducers of min and max of internal/promshim/local/exec/aggregate.go, and NaN.
use promshim_clickhouse.Base.{◌≡◌, Bool, true, ◌&&◌, List, [], ◌∷◌, none, some, arith}
use promshim_clickhouse.Floats.{Floats}
use promshim_clickhouse.Matching.Join.{Sample}
use promshim_clickhouse.Aggregation.{min_reducer, max_reducer, add_min, add_max, add_value, result}
use promshim_clickhouse.Aggregation.Groups.{add_values}

module _ (fl : Floats) where
  open fl use {F}

  abbrev pub all_nan : List (Sample fl) → Bool
  all_nan [] = true
  all_nan (s ∷ samples) = fl.is_nan s.value && all_nan samples

  is_nan-add_min :
      (old value : F) → fl.is_nan (add_min fl (some old) value) ≡ (fl.is_nan old && fl.is_nan value)
  unfolding add_min
  is_nan-add_min old value = ground arith

  is_nan-add_max :
      (old value : F) → fl.is_nan (add_max fl (some old) value) ≡ (fl.is_nan old && fl.is_nan value)
  unfolding add_max
  is_nan-add_max old value = ground arith

  is_nan-min :
      (old : F) (samples : List (Sample fl))
      → fl.is_nan (result fl (add_values fl (min_reducer (some old)) samples))
        ≡ (fl.is_nan old && all_nan samples)
  unfolding result add_value
  is_nan-min old [] = ground arith
  is_nan-min old (s ∷ samples) =
      ground (arith, is_nan-min (add_min fl (some old) s.value) samples, is_nan-add_min old s.value)

  is_nan-max :
      (old : F) (samples : List (Sample fl))
      → fl.is_nan (result fl (add_values fl (max_reducer (some old)) samples))
        ≡ (fl.is_nan old && all_nan samples)
  unfolding result add_value
  is_nan-max old [] = ground arith
  is_nan-max old (s ∷ samples) =
      ground (arith, is_nan-max (add_max fl (some old) s.value) samples, is_nan-add_max old s.value)

  -- The minimum and the maximum of a group that has a sample are NaN only where all of its values are:
  -- NaN never displaces a number, wherever it stands.
  is_nan-result :
      (s : Sample fl) (samples : List (Sample fl))
      → (fl.is_nan (result fl (add_values fl (min_reducer none) (s ∷ samples)))
          ≡ all_nan (s ∷ samples))
        × (fl.is_nan (result fl (add_values fl (max_reducer none) (s ∷ samples)))
            ≡ all_nan (s ∷ samples))
  unfolding add_value add_min add_max
  is_nan-result s samples = (is_nan-min s.value samples, is_nan-max s.value samples)
