-- ===== src/Chunks/Examples.antt =====
-- Chunked range evaluation of internal/promshim/local/chunking.go on concrete inputs.
use promshim_clickhouse.Base.{
  ℕ, map, ap, none, err, List, [], ◌∷◌, ◌++◌, Option, some, Result, ok, ◌≡◌, refl, ◌∙◌, arith, All,
  subst,
}
use promshim_clickhouse.Base.Int.{pos}
use promshim_clickhouse.Bytes.{Bytes, bytes_eq}
use promshim_clickhouse.Bytes.Sort.{Distinct, sort_by, insert_sorted}
use promshim_clickhouse.Bytes.Dict.{lookup, store, values_at, sorted_map_keys}
use promshim_clickhouse.Labels.{labels_key, normalize_label_set, write_labels}
use promshim_clickhouse.Floats.{nat_floats}
use promshim_clickhouse.Time.{add_time}
use promshim_clickhouse.Points
use promshim_clickhouse.Points.{
  RangePoint, build_constant_range_points, range_times, append_range_points_strict, last_point,
}
use promshim_clickhouse.Chunks.{
  EvalParams, Mode, instant, range, step_not_positive, Series, Error, split_range_into_chunks,
  merge_matrix_values, execute_range, index_left, merge_right, merge_series,
}
use promshim_clickhouse.Chunks.Split.{
  chunk_times, params_times, IsChunk, params_times-grid, split_range_into_chunks_lem,
}
use promshim_clickhouse.Points.Grid.{build_constant_range_points_lem}
use promshim_clickhouse.Chunks.Merge.{series_keys, points_at, merge_matrix_values_lem}
use promshim_clickhouse.Chunks.Joins.{IsStamped}
use promshim_clickhouse.Chunks.Total.{execute_range-total}
use promshim_clickhouse.Chunks.Execute.{IsPointwise, IsPart, points_over}

-- Eleven points, one every 10 ns.
abbrev params : EvalParams
params = record { mode = range; evaluation_time = 0; start = 100; last = 200; step = pos 10 }

split_range_into_chunks_lem_example :
    (cs : List EvalParams) × (split_range_into_chunks params (pos 4) ≡ ok cs)
    × (chunk_times cs ≡ params_times params)
    × All (IsChunk params 4) cs
split_range_into_chunks_lem_example = split_range_into_chunks_lem params 9 3 refl refl (omega arith)

abbrev point : ℕ → RangePoint ℕ
point t = record { timestamp = t; value = 1 }

-- The series without labels.
abbrev series : List (RangePoint ℕ) → Series nat_floats
series points = record { metric = []; values = points }

merge_matrix_values_lem_example :
    Distinct (series_keys nat_floats (series (point 1 ∷ point 2 ∷ []) ∷ []))
    × ((k : Bytes)
        → points_at nat_floats (series (point 1 ∷ point 2 ∷ []) ∷ []) k
          ≡ points_at nat_floats (series (point 1 ∷ []) ∷ []) k
            ++ points_at nat_floats (series (point 2 ∷ []) ∷ []) k)
unfolding merge_matrix_values index_left merge_right merge_series append_range_points_strict
    last_point labels_key normalize_label_set write_labels sort_by lookup store values_at
    sorted_map_keys bytes_eq insert_sorted
merge_matrix_values_lem_example =
    merge_matrix_values_lem nat_floats (series (point 1 ∷ []) ∷ []) (series (point 2 ∷ []) ∷ [])
      (series (point 1 ∷ point 2 ∷ []) ∷ []) (refl, tt) (refl, tt) refl

abbrev constant_matrix :
    Result Points.Error (List (RangePoint ℕ)) → Result Error (Option (List (Series nat_floats)))
constant_matrix (err e) = err step_not_positive
constant_matrix (ok points) = ok (some (series points ∷ []))

-- The plan of the scalar literal 1: a scalar in instant mode, and in range mode one series without labels, with a
-- point at each time. (executeRangeScalarPlan visits the times that BuildConstantRangePoints visits; the
-- timestamps are in nanoseconds here.)
abbrev literal_in : Mode → EvalParams → Result Error (Option (List (Series nat_floats)))
literal_in instant q = ok none
literal_in range q =
    constant_matrix (build_constant_range_points nat_floats (λ t. t) q.start q.last q.step 1)

abbrev literal : EvalParams → Result Error (Option (List (Series nat_floats)))
literal q = literal_in q.mode q

-- Its points by label set: those of the series without labels, and no others.
abbrev own_points : Bytes → ℕ → List (RangePoint ℕ)
own_points [] t = point t ∷ []
own_points (b ∷ k) t = []

no_points : {A : Type 0} (ts : List ℕ) → [] ≡ points_over {A = A} (λ t. []) ts
no_points [] = refl
no_points (t ∷ ts) = no_points ts

own_points-map : (ts : List ℕ) → map (λ t. point t) ts ≡ points_over (own_points []) ts
own_points-map [] = refl
own_points-map (t ∷ ts) = ap (λ z. point t ∷ z) (own_points-map ts)

matrix_points :
    (ts : List ℕ) (k : Bytes)
    → points_at nat_floats (series (map (λ t. point t) ts) ∷ []) k ≡ points_over (own_points k) ts
unfolding points_at bytes_eq labels_key normalize_label_set write_labels sort_by
matrix_points ts [] = own_points-map ts
matrix_points ts (b ∷ k) = no_points ts

-- Three times, in chunks of two.
abbrev short : EvalParams
short = record { mode = range; evaluation_time = 0; start = 1; last = 3; step = pos 1 }

literal-matrix :
    (q : EvalParams)
    → IsPart short q
    → literal q ≡ ok (some (series (map (λ t. point t) (params_times q)) ∷ []))
literal-matrix q (mode, step) =
    ap (λ m. literal_in m q) mode
    ∙ ap constant_matrix
        (build_constant_range_points_lem nat_floats (λ t. t) q.start q.last q.step 1)
    ∙ rw (params_times-grid q 0 step) (rw step refl)

literal-IsPointwise : IsPointwise nat_floats literal short own_points
literal-IsPointwise q matrix part h =
    let same : series (map (λ t. point t) (params_times q)) ∷ [] ≡ matrix =
      ground (arith, literal-matrix q part, h) in
    subst
      (λ z.
        Distinct (series_keys nat_floats z)
        × ((k : Bytes) → points_at nat_floats z k ≡ points_over (own_points k) (params_times q)))
      same ((refl, tt), matrix_points (params_times q))

abbrev all_three : List (Series nat_floats)
all_three = series (point 1 ∷ point 2 ∷ point 3 ∷ []) ∷ []

own_points-IsStamped : (k : Bytes) → IsStamped nat_floats (λ t. t) (own_points k)
own_points-IsStamped [] t = (refl, tt)
own_points-IsStamped (b ∷ k) t = tt

execute_range-total_example :
    (out : List (Series nat_floats)) × (execute_range nat_floats literal short (pos 2) ≡ ok out)
    × ((k : Bytes) → points_at nat_floats out k ≡ points_at nat_floats all_three k)
unfolding range_times add_time build_constant_range_points
execute_range-total_example =
    execute_range-total nat_floats literal short (λ t. t) own_points own_points-IsStamped
      literal-IsPointwise (λ q part. (_, literal-matrix q part)) 0 1 all_three refl refl
      (omega arith) ((refl, (refl, tt)), ((refl, tt), (tt, tt))) refl
