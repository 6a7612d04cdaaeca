-- ===== src/Memo/Examples.antt =====
-- The memo of internal/promshim/local/planner_memo.go on requests a millisecond apart.
use promshim_clickhouse.Base.{
  ℕ, ◌<◌, ◌/◌, ◌%◌, leb, ◌==◌, Bool-cases, inl, inr, ◌+◌, ◌*◌, ◌^◌, List, [], ◌∷◌, some, Result, ok,
  ◌≡◌, refl, map, length, arith,
}
use promshim_clickhouse.Base.Int.{pos, ◌/ℤ◌}
use promshim_clickhouse.Bytes.{Bytes}
use promshim_clickhouse.Bytes.Decimal.ReadBack.{IsInt64}
use promshim_clickhouse.Bytes.Text.{text}
use promshim_clickhouse.Floats.{nat_floats}
use promshim_clickhouse.Chunks.{EvalParams, range}
use promshim_clickhouse.LabelFunctions.{RuntimeValue, scalar_value}
use promshim_clickhouse.Memo.{Plan, unix_milli, milliseconds}
use promshim_clickhouse.Memo.Key.{InRange}
use promshim_clickhouse.Memo.Reuse.{Fits, run_requests, run_requests_lem}

-- From a time in 1970, a minute long, with a step of a second.
abbrev minute_from : ℕ → EvalParams
minute_from t = record {
  mode = range;
  evaluation_time = 0;
  start = t;
  last = t + 60 * 10 ^ 9;
  step = pos (10 ^ 9);
}

abbrev requests : List (Bytes × EvalParams)
requests =
    (text "rate(up[5m])", minute_from (62135596801 * 10 ^ 9))
    ∷ (text "rate(up[5m])", minute_from (62135596801 * 10 ^ 9 + 10 ^ 6))
    ∷ (text "rate(up[5m])", minute_from (62135596801 * 10 ^ 9))
    ∷ []

-- Stamped with the start of the range.
abbrev size : Bytes → EvalParams → Result Bytes (RuntimeValue nat_floats)
size e p = ok (scalar_value p.start (length e))

abbrev sizes : Bytes → Plan nat_floats Bytes
sizes e evaluator p = (evaluator, size e p)

unix_milli-IsInt64 : (t : ℕ) → t < 10 ^ 20 → IsInt64 (unix_milli t)
unfolding unix_milli
unix_milli-IsInt64 t h = elim (Bool-cases (t == 0)) [
  | inl e ↦ rw (e, unix_milli) (omega arith)
  | inr e ↦ elim (Bool-cases (leb 62135596800000 (t / 10 ^ 6))) [
    | inl f ↦ rw (e, f, unix_milli) (omega (arith, h))
    | inr f ↦ rw (e, f, unix_milli) (omega (arith, h))
  ]
]

minute-InRange : (t : ℕ) → t < 9 * 10 ^ 19 → InRange (minute_from t)
unfolding milliseconds ◌/ℤ◌
minute-InRange t h = (
  (unix_milli-IsInt64 0 (omega arith), unix_milli-IsInt64 t (omega (arith, h))),
  (unix_milli-IsInt64 (t + 60 * 10 ^ 9) (omega (arith, h)), omega arith),
)

minute-Fits :
    (t : ℕ) → t < 9 * 10 ^ 19 → t % 10 ^ 6 ≡ 0 → 62135596800 * 10 ^ 9 < t → Fits (minute_from t)
minute-Fits t h whole late = (
  minute-InRange t h,
  (
    ((refl, λ e. omega (arith, e)), (whole, λ e. omega (arith, e, late))),
    ((omega (arith, whole), λ e. omega (arith, e, late)), refl),
  ),
)

run_requests_lem_example :
    run_requests nat_floats Bytes sizes (some []) requests ≡ map (λ r. size r.0 r.1) requests
run_requests_lem_example =
    run_requests_lem nat_floats Bytes size sizes (λ e evaluator p fits sound. (refl, sound))
      requests
      (
        minute-Fits _ (omega arith) refl (omega arith),
        (
          minute-Fits _ (omega arith) refl (omega arith),
          (minute-Fits _ (omega arith) refl (omega arith), tt),
        ),
      )
