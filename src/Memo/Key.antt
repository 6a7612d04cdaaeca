-- ===== src/Memo/Key.antt =====
-- localMemoKey of internal/promshim/local/planner_memo.go tells requests apart, down to milliseconds.
use mathlib.Core.List.{append-nil}
use promshim_clickhouse.Base.{ℕ, List, [], ◌∷◌, ◌++◌, ◌≡◌, refl, sym, ◌∙◌, ap, arith, All}
use promshim_clickhouse.Bytes.{Bytes, Lacks}
use promshim_clickhouse.Bytes.Text.{text}
use promshim_clickhouse.Bytes.Bars.{bars, bars-injective, nth}
use promshim_clickhouse.Bytes.Decimal.{format_int}
use promshim_clickhouse.Bytes.Decimal.ReadBack.{IsInt64, format_int-injective, format_int-Lacks}
use promshim_clickhouse.Chunks.{Mode, instant, range, EvalParams}
use promshim_clickhouse.Memo.{unix_milli, milliseconds, mode_text, local_memo_key}

-- The times and the step, as numbers of milliseconds, are int64.
abbrev pub InRange : EvalParams → Type 0
InRange p =
    (IsInt64 (unix_milli p.evaluation_time) × IsInt64 (unix_milli p.start))
    × (IsInt64 (unix_milli p.last) × IsInt64 (milliseconds p.step))

-- Two requests with the same mode, whose times and steps are the same in milliseconds.
abbrev pub SameMillis : EvalParams → EvalParams → Type 0
SameMillis p q =
    (p.mode ≡ q.mode)
    × (((unix_milli p.evaluation_time ≡ unix_milli q.evaluation_time)
          × (unix_milli p.start ≡ unix_milli q.start))
        × ((unix_milli p.last ≡ unix_milli q.last) × (milliseconds p.step ≡ milliseconds q.step)))

abbrev parts : EvalParams → List Bytes
parts p =
    (text "mode=" ++ mode_text p.mode)
    ∷ (text "eval=" ++ format_int (unix_milli p.evaluation_time))
    ∷ (text "start=" ++ format_int (unix_milli p.start))
    ∷ (text "end=" ++ format_int (unix_milli p.last))
    ∷ (text "step=" ++ format_int (milliseconds p.step))
    ∷ []

local_memo_key-bars : (e : Bytes) (p : EvalParams) → local_memo_key e p ≡ e ++ bars (parts p)
unfolding local_memo_key
local_memo_key-bars e p = rw (append-nil (format_int (milliseconds p.step))) refl

Lacks-append : (c : ℕ) (s t : Bytes) → Lacks c s → Lacks c t → Lacks c (s ++ t)
Lacks-append c [] t h k = k
Lacks-append c (d ∷ s) t h k = (h.0, Lacks-append c s t h.1 k)

mode_text-Lacks : (m : Mode) → Lacks b'|' (text "mode=" ++ mode_text m)
unfolding mode_text
mode_text-Lacks instant = omega arith
mode_text-Lacks range = omega arith

parts-Lacks : (p : EvalParams) → All (Lacks b'|') (parts p)
parts-Lacks p = (
  mode_text-Lacks p.mode,
  (
    Lacks-append b'|' (text "eval=") _ (omega arith)
        (format_int-Lacks (unix_milli p.evaluation_time)),
    (
      Lacks-append b'|' (text "start=") _ (omega arith) (format_int-Lacks (unix_milli p.start)),
      (
        Lacks-append b'|' (text "end=") _ (omega arith) (format_int-Lacks (unix_milli p.last)),
        (
          Lacks-append b'|' (text "step=") _ (omega arith) (format_int-Lacks (milliseconds p.step)),
          tt,
        ),
      ),
    ),
  ),
)

abbrev skip : Bytes → Bytes → Bytes
skip [] s = s
skip (c ∷ cs) [] = []
skip (c ∷ cs) (d ∷ s) = skip cs s

mode_text-injective : (m n : Mode) → mode_text m ≡ mode_text n → m ≡ n
unfolding mode_text
mode_text-injective instant instant e = refl
mode_text-injective instant range e = ground (arith, e)
mode_text-injective range instant e = ground (arith, e)
mode_text-injective range range e = refl

-- Two requests whose times and steps are int64 as numbers of milliseconds have the same key only for the same
-- expression, in the same mode, and with the same milliseconds.
pub local_memo_key-injective :
    (e f : Bytes) (p q : EvalParams)
    → InRange p
    → InRange q
    → local_memo_key e p ≡ local_memo_key f q
    → (e ≡ f) × SameMillis p q
local_memo_key-injective e f p q ((p₁, p₂), (p₃, p₄)) ((q₁, q₂), (q₃, q₄)) h =
    let (front, same) =
      bars-injective e f (parts p) (parts q) refl (parts-Lacks p) (parts-Lacks q)
        (sym (local_memo_key-bars e p) ∙ h ∙ local_memo_key-bars f q) in
    (
      front,
      (
        mode_text-injective p.mode q.mode (ap (λ l. skip (text "mode=") (nth 0 l)) same),
        (
          (
            format_int-injective _ _ p₁ q₁ (ap (λ l. skip (text "eval=") (nth 1 l)) same),
            format_int-injective _ _ p₂ q₂ (ap (λ l. skip (text "start=") (nth 2 l)) same),
          ),
          (
            format_int-injective _ _ p₃ q₃ (ap (λ l. skip (text "end=") (nth 3 l)) same),
            format_int-injective _ _ p₄ q₄ (ap (λ l. skip (text "step=") (nth 4 l)) same),
          ),
        ),
      ),
    )
