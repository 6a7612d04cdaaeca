-- ===== src/Memo/Reuse.antt =====
-- The memo of internal/promshim/local/planner_memo.go changes no result.
use promshim_clickhouse.Base.{
  List, [], ◌∷◌, Option, none, some, Result, ok, err, ◌≡◌, refl, sym, ◌∙◌, ap, ap₂, All, map,
  is_empty, Bool-cases, Option-cases, inl, inr,
}
use promshim_clickhouse.Bytes.{Bytes}
use promshim_clickhouse.Bytes.Dict.{lookup, All-lookup, All-store}
use promshim_clickhouse.Floats.{Floats}
use promshim_clickhouse.Chunks.{EvalParams}
use promshim_clickhouse.LabelFunctions.{RuntimeValue}
use promshim_clickhouse.Memo.{
  local_memo_key, LocalMemo, Plan, remember, execute_memoized, memoize_local_plan,
}
use promshim_clickhouse.Memo.Key.{InRange, local_memo_key-injective}
use promshim_clickhouse.Memo.Whole.{IsWhole, SameMillis-equal}

-- The requests, one after another, each by the memoized plan of its expression.
abbrev pub run_requests :
    (fl : Floats) (E : Type 0)
    → (Bytes → Plan fl E)
    → Option (LocalMemo fl E)
    → List (Bytes × EvalParams)
    → List (Result E (RuntimeValue fl))
run_requests fl E plans evaluator [] = []
run_requests fl E plans evaluator ((e, p) ∷ requests) =
    let done = memoize_local_plan fl E e (plans e) evaluator p in
    done.1 ∷ run_requests fl E plans done.0 requests

-- The key of such a request tells it from every other.
abbrev pub Fits : EvalParams → Type 0
Fits p = InRange p × IsWhole p

module _ (fl : Floats) (E : Type 0) (whole : Bytes → EvalParams → Result E (RuntimeValue fl)) where
  -- Each value of a memo is that of a request with its key.
  abbrev pub IsSound : Option (LocalMemo fl E) → Type 0
  IsSound none = Unit
  IsSound (some memo) =
      All
        (λ x.
          (e : Bytes) × ((p : EvalParams) × (Fits p
              × ((local_memo_key e p ≡ x.0) × (whole e p ≡ ok x.1)))))
        memo

  remember-IsSound :
      (e : Bytes) (p : EvalParams) (r : Option (LocalMemo fl E) × Result E (RuntimeValue fl))
      → Fits p
      → r.1 ≡ whole e p
      → IsSound r.0
      → ((remember fl E (local_memo_key e p) r).1 ≡ whole e p)
        × IsSound (remember fl E (local_memo_key e p) r).0
  remember-IsSound e p (evaluator, err f) range h s = (h, s)
  remember-IsSound e p (none, ok value) range h s = (h, tt)
  remember-IsSound e p (some memo, ok value) range h s =
      (h, All-store _ memo (local_memo_key e p) value (e, (p, (range, (refl, sym h)))) s)

  -- A value of the memo is that of every request with its key.
  memo-whole :
      (memo : LocalMemo fl E) (e : Bytes) (p : EvalParams) (value : RuntimeValue fl)
      → Fits p
      → IsSound (some memo)
      → lookup memo (local_memo_key e p) ≡ some value
      → whole e p ≡ ok value
  memo-whole memo e p value range s found =
      let (f, (q, (q_range, (same_key, is_whole)))) =
        All-lookup
          (λ x.
            (e : Bytes) × ((p : EvalParams) × (Fits p
                × ((local_memo_key e p ≡ x.0) × (whole e p ≡ ok x.1)))))
          memo (local_memo_key e p) value s found in
      let (expr, millis) = local_memo_key-injective e f p q range.0 q_range.0 (sym same_key) in
      ap (whole e) (SameMillis-equal p q range.1 q_range.1 millis)
      ∙ ap (λ g. whole g q) expr
      ∙ is_whole

  module _ (e : Bytes) (inner : Plan fl E)
      (is_plan : (evaluator : Option (LocalMemo fl E)) (p : EvalParams)
        → Fits p
        → IsSound evaluator
        → ((inner evaluator p).1 ≡ whole e p) × IsSound (inner evaluator p).0) where
    executed-IsSound :
        (evaluator : Option (LocalMemo fl E)) (p : EvalParams)
        → Fits p
        → IsSound evaluator
        → ((execute_memoized fl E e inner evaluator p).1 ≡ whole e p)
          × IsSound (execute_memoized fl E e inner evaluator p).0
    unfolding execute_memoized
    executed-IsSound none p range s = is_plan none p range s
    executed-IsSound (some memo) p range s =
        elim (Option-cases (lookup memo (local_memo_key e p))) [
          | inl f ↦
              let inside = is_plan (some memo) p range s in
              rw (f, execute_memoized)
                (remember-IsSound e p (inner (some memo) p) range inside.0 inside.1)
          | inr (value, f) ↦ rw (f, execute_memoized) (sym (memo-whole memo e p value range s f), s)
        ]

    memoized-IsSound :
        (evaluator : Option (LocalMemo fl E)) (p : EvalParams)
        → Fits p
        → IsSound evaluator
        → ((memoize_local_plan fl E e inner evaluator p).1 ≡ whole e p)
          × IsSound (memoize_local_plan fl E e inner evaluator p).0
    unfolding memoize_local_plan
    memoized-IsSound evaluator p range s = elim (Bool-cases (is_empty e)) [
      | inl f ↦ rw (f, memoize_local_plan) (is_plan evaluator p range s)
      | inr f ↦ rw (f, memoize_local_plan) (executed-IsSound evaluator p range s)
    ]

  module _ (plans : Bytes → Plan fl E)
      (are_plans : (e : Bytes) (evaluator : Option (LocalMemo fl E)) (p : EvalParams)
        → Fits p
        → IsSound evaluator
        → ((plans e evaluator p).1 ≡ whole e p) × IsSound (plans e evaluator p).0) where
    run_requests-from :
        (evaluator : Option (LocalMemo fl E)) (requests : List (Bytes × EvalParams))
        → All (λ r. Fits r.1) requests
        → IsSound evaluator
        → run_requests fl E plans evaluator requests ≡ map (λ r. whole r.0 r.1) requests
    run_requests-from evaluator [] ranges s = refl
    run_requests-from evaluator ((e, p) ∷ requests) ranges s =
        let done = memoized-IsSound e (plans e) (are_plans e) evaluator p ranges.0 s in
        ap₂ (λ r rs. r ∷ rs) done.0
          (run_requests-from (memoize_local_plan fl E e (plans e) evaluator p).0 requests ranges.1
            done.1)

    -- Any requests in any order have the values that they would have without the memo, where their times and
    -- steps are whole milliseconds, int64 as their numbers, and no time is the start of 1970, and where
    -- the inner plans, for such parameters, compute these values and leave only such values in the memo.
    pub run_requests_lem :
        (requests : List (Bytes × EvalParams))
        → All (λ r. Fits r.1) requests
        → run_requests fl E plans (some []) requests ≡ map (λ r. whole r.0 r.1) requests
    run_requests_lem requests ranges = run_requests-from (some []) requests ranges tt
