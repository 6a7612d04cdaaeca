-- ===== src/Operators/Examples.antt =====
-- Operators of internal/promshim/local/exec/localexpr.go on concrete inputs.
use promshim_clickhouse.Base.{ℕ, ◌≡◌, refl, List, [], ◌∷◌, true, false, some}
use promshim_clickhouse.Labels.{Metric, metric_name}
use promshim_clickhouse.Floats.{nat_floats}
use promshim_clickhouse.Matching.{Op, is_comparison}
use promshim_clickhouse.Matching.Join.{Sample}
use promshim_clickhouse.Matching.Sets.{Selects}
use promshim_clickhouse.Operators.{apply_vector_scalar_binary_instant}
use promshim_clickhouse.Operators.Filter.{compares, apply_vector_scalar_binary_instant-Selects}

-- {__name__="up"} and the empty label set
abbrev up : Metric
up = (metric_name, 117 ∷ 112 ∷ []) ∷ []

abbrev sample : Metric → ℕ → Sample nat_floats
sample m v = record { metric = m; timestamp = 5; value = v }

apply_vector_scalar_binary_instant-Selects_example :
    (out : List (Sample nat_floats)) × (apply_vector_scalar_binary_instant nat_floats Op.gtr
        (sample up 3 ∷ sample [] 1 ∷ [])
        2
        false
        false
      ≡ some out)
    × Selects
        (λ s. compares nat_floats Op.gtr 2 false s.value ≡ true)
        (sample up 3 ∷ sample [] 1 ∷ [])
        out
unfolding is_comparison
apply_vector_scalar_binary_instant-Selects_example =
    apply_vector_scalar_binary_instant-Selects nat_floats Op.gtr (sample up 3 ∷ sample [] 1 ∷ []) 2
      false refl (refl, refl)
