-- ===== src/Chunks/Total.antt =====
-- Chunked evaluation of a range succeeds, and gives what evaluating the range at once gives.
use mathlib.Core.List.{append_assoc}
use promshim_clickhouse.Base.{
  ℕ, suc, ◌-◌, ◌<◌, List, [], ◌∷◌, ◌++◌, Option, some, Result, ok, ◌≡◌, refl, ◌∙◌, sym, ap₂, All,
}
use promshim_clickhouse.Base.Int.{pos}
use promshim_clickhouse.Bytes.{Bytes}
use promshim_clickhouse.Bytes.Sort.{Distinct}
use promshim_clickhouse.Floats.{Floats}
use promshim_clickhouse.Time.{max_duration}
use promshim_clickhouse.Points.{RangePoint}
use promshim_clickhouse.Chunks.{EvalParams, range, Series, Error, execute_chunks, execute_range}
use promshim_clickhouse.Chunks.Split.{params_times, chunk_times, split_range_into_chunks_lem}
use promshim_clickhouse.Chunks.Merge.{series_keys, points_at, merge_matrix_values_lem}
use promshim_clickhouse.Chunks.Execute.{
  points_over, points_over-append, IsPointwise, execute_range_lem, IsPart, chunks-IsPart,
}
use promshim_clickhouse.Chunks.Joins.{
  Ascending, All-parts, Before, IsStamped, Joins, points_over-Joins, merge_matrix_values-total,
}

module _ (fl : Floats) (child : EvalParams → Result Error (Option (List (Series fl))))
    (p : EvalParams) where
  -- The child gives a matrix for every part of the range.
  abbrev pub AlwaysMatrix : Type 0
  AlwaysMatrix =
      (q : EvalParams) → IsPart p q → (matrix : List (Series fl)) × (child q ≡ ok (some matrix))

  module _ (stamp : ℕ → fl.F) (at : Bytes → ℕ → List (RangePoint fl.F))
      (stamped : (k : Bytes) → IsStamped fl stamp (at k)) (pointwise : IsPointwise fl child p at)
      (always : AlwaysMatrix) where
    execute_chunks-total :
        (cs : List EvalParams) (merged : List (Series fl)) (before : List ℕ)
        → All (IsPart p) cs
        → Distinct (series_keys fl merged)
        → ((k : Bytes) → points_at fl merged k ≡ points_over (at k) before)
        → Ascending fl stamp (before ++ chunk_times cs)
        → (out : List (Series fl)) × (execute_chunks fl child merged cs ≡ ok out)
    unfolding execute_chunks
    execute_chunks-total [] merged before parts distinct points ascending = (merged, refl)
    execute_chunks-total (c ∷ cs) merged before parts distinct points ascending =
        let (matrix, evaluated) = always c parts.0 in
        let (fresh, own) = pointwise c matrix parts.0 evaluated in
        let sorted : Ascending fl stamp ((before ++ params_times c) ++ chunk_times cs) =
          rw (append_assoc before (params_times c) (chunk_times cs)) ascending in
        let joins : (k : Bytes) → Joins fl (points_at fl merged k) (points_at fl matrix k) = λ k.
          rw (points k, own k)
            (points_over-Joins fl stamp (at k) before (params_times c) (stamped k)
              (next_chunk before (params_times c) (chunk_times cs) ascending)) in
        let (merged', merges) = merge_matrix_values-total fl merged matrix distinct fresh joins in
        let (distinct', appended) =
          merge_matrix_values_lem fl merged matrix merged' distinct fresh merges in
        let (out, runs) =
          execute_chunks-total cs merged' (before ++ params_times c) parts.1 distinct'
            (λ k.
              appended k
              ∙ ap₂ (λ a b. a ++ b) (points k) (own k)
              ∙ sym (points_over-append (at k) before (params_times c)))
            sorted in
        (out, rw evaluated (rw merges runs))
      where
        next_chunk :
            (xs ys zs : List ℕ)
            → Ascending fl stamp (xs ++ (ys ++ zs))
            → All (λ x. All (Before fl stamp x) ys) xs
        next_chunk [] ys zs h = tt
        next_chunk (x ∷ xs) ys zs h =
            ((All-parts _ ys zs (All-parts _ xs (ys ++ zs) h.0).1).0, next_chunk xs ys zs h.1)

    -- Chunked execution of a range succeeds, and for every label set it has the points of the child's own
    -- result over the whole range. On ranges with its step the child gives a matrix, evaluates time by time,
    -- and stamps the points of a time with its timestamp; over the times of the range the timestamps
    -- grow. The chunk size is positive, the step too, and the range is shorter than the largest duration.
    pub execute_range-total :
        (d c : ℕ) (whole : List (Series fl))
        → p.mode ≡ range
        → p.step ≡ pos (suc d)
        → p.last - p.start < max_duration
        → Ascending fl stamp (params_times p)
        → child p ≡ ok (some whole)
        → (out : List (Series fl)) × (execute_range fl child p (pos (suc c)) ≡ ok out)
          × ((k : Bytes) → points_at fl out k ≡ points_at fl whole k)
    unfolding execute_range
    execute_range-total d c whole mode step short grows evaluated =
        let (cs, splits, times, chunks) = split_range_into_chunks_lem p d c mode step short in
        let ascending : Ascending fl stamp (chunk_times cs) = rw times grows in
        let (out, runs) =
          execute_chunks-total cs [] [] (chunks-IsPart fl child p (suc c) cs chunks) tt
            (λ k. unfold points_at in refl) ascending in
        let whole_run : execute_range fl child p (pos (suc c)) ≡ ok out = rw splits runs in
        (
          out,
          whole_run,
          execute_range_lem fl child p at d c whole out pointwise mode step short evaluated
              whole_run,
        )
