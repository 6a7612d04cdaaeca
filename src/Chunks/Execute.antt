-- ===== src/Chunks/Execute.antt =====
-- Evaluating a range in chunks gives what evaluating it at once gives.
use mathlib.Core.List.{append_assoc}
use promshim_clickhouse.Base.{
  ℕ, suc, ◌-◌, ◌<◌, List, [], ◌∷◌, ◌++◌, Option, none, some, Result, ok, err, ok_parts, ◌≡◌, refl,
  ◌∙◌, sym, ap, arith, append_nil, All,
}
use promshim_clickhouse.Base.Int.{pos}
use promshim_clickhouse.Bytes.{Bytes}
use promshim_clickhouse.Bytes.Sort.{Distinct}
use promshim_clickhouse.Floats.{Floats}
use promshim_clickhouse.Time.{max_duration}
use promshim_clickhouse.Points.{RangePoint}
use promshim_clickhouse.Chunks.{
  EvalParams, range, Series, Error, not_a_matrix, merge_matrix_values, execute_chunks,
  execute_range,
}
use promshim_clickhouse.Chunks.Split.{
  params_times, chunk_times, IsChunk, split_range_into_chunks_lem,
}
use promshim_clickhouse.Chunks.Merge.{series_keys, points_at, merge_matrix_values_lem}

abbrev pub points_over : {A : Type 0} → (ℕ → List A) → List ℕ → List A
points_over f [] = []
points_over f (t ∷ ts) = f t ++ points_over f ts

pub points_over-append :
    {A : Type 0} (f : ℕ → List A) (xs ys : List ℕ)
    → points_over f (xs ++ ys) ≡ points_over f xs ++ points_over f ys
points_over-append f [] ys = refl
points_over-append f (x ∷ xs) ys =
    ap (λ z. f x ++ z) (points_over-append f xs ys) ∙ sym (append_assoc (f x) _ _)

-- Of these parameters a chunk keeps the mode and the step.
abbrev pub IsPart : EvalParams → EvalParams → Type 0
IsPart p q = (q.mode ≡ p.mode) × (q.step ≡ p.step)

module _ (fl : Floats) (child : EvalParams → Result Error (Option (List (Series fl))))
    (p : EvalParams) where
  -- The child evaluates the parts of the range time by time: the points of a label set are those that it
  -- has at each time of the part, in order, and no label set stands twice in a matrix.
  abbrev pub IsPointwise : (Bytes → ℕ → List (RangePoint fl.F)) → Type 0
  IsPointwise at =
      (q : EvalParams) (matrix : List (Series fl))
      → IsPart p q
      → child q ≡ ok (some matrix)
      → Distinct (series_keys fl matrix)
        × ((k : Bytes) → points_at fl matrix k ≡ points_over (at k) (params_times q))

  pub chunks-IsPart :
      (size : ℕ) (cs : List EvalParams) → All (IsChunk p size) cs → All (IsPart p) cs
  chunks-IsPart size [] h = tt
  chunks-IsPart size (c ∷ cs) h =
      let (mode, _, step, _, _) = h.0 in ((mode, step), chunks-IsPart size cs h.1)

  execute_chunks_lem :
      (at : Bytes → ℕ → List (RangePoint fl.F))
      → IsPointwise at
      → (cs : List EvalParams) (merged out : List (Series fl)) → All (IsPart p) cs
      → Distinct (series_keys fl merged)
      → execute_chunks fl child merged cs ≡ ok out
      → (k : Bytes)
      → points_at fl out k ≡ points_at fl merged k ++ points_over (at k) (chunk_times cs)
  unfolding execute_chunks
  execute_chunks_lem at pointwise [] merged out parts distinct h k =
      let same : merged ≡ out = ground arith in
      ap (λ z. points_at fl z k) (sym same) ∙ sym (append_nil (points_at fl merged k))
  execute_chunks_lem at pointwise (c ∷ cs) merged out parts distinct h k =
      let (value, evaluated, h₁) = ok_parts (child c) _ h in
      let (matrix, is_matrix, h₂) =
        ok_parts (elim value [ none ↦ err not_a_matrix | some m ↦ ok m ]) _ h₁ in
      let (merged', merges, h₃) = ok_parts (merge_matrix_values fl merged matrix) _ h₂ in
      let found : value ≡ some matrix = ground (arith, is_matrix) in
      let (fresh, points) = pointwise c matrix parts.0 (evaluated ∙ ap ok found) in
      let (distinct', appended) =
        merge_matrix_values_lem fl merged matrix merged' distinct fresh merges in
      execute_chunks_lem at pointwise cs merged' out parts.1 distinct' h₃ k
      ∙ ap (λ z. z ++ points_over (at k) (chunk_times cs))
          (appended k ∙ ap (λ z. points_at fl merged k ++ z) (points k))
      ∙ append_assoc (points_at fl merged k) _ _
      ∙ ap (λ z. points_at fl merged k ++ z)
          (sym (points_over-append (at k) (params_times c) (chunk_times cs)))

  -- For a child that evaluates time by time, whatever chunked execution returns has, for every label
  -- set, the points of the child's own result over the whole range. The chunk size is positive, the
  -- step too, and the range is shorter than the largest duration.
  pub execute_range_lem :
      (at : Bytes → ℕ → List (RangePoint fl.F)) (d c : ℕ) (whole out : List (Series fl))
      → IsPointwise at
      → p.mode ≡ range
      → p.step ≡ pos (suc d)
      → p.last - p.start < max_duration
      → child p ≡ ok (some whole)
      → execute_range fl child p (pos (suc c)) ≡ ok out
      → (k : Bytes) → points_at fl out k ≡ points_at fl whole k
  unfolding execute_range points_at
  execute_range_lem at d c whole out pointwise mode step short evaluated h k =
      let (cs, splits, times, chunks) = split_range_into_chunks_lem p d c mode step short in
      let runs : execute_chunks fl child [] cs ≡ ok out = ground (arith, h, splits) in
      execute_chunks_lem at pointwise cs [] out (chunks-IsPart (suc c) cs chunks) tt runs k
      ∙ ap (points_over (at k)) times
      ∙ sym ((pointwise p whole (refl, refl) evaluated).1 k)
