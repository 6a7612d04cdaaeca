-- ===== src/Memo/Whole.antt =====
-- Requests of internal/promshim/local/planner_memo.go whose times and steps are whole milliseconds.
use promshim_clickhouse.Base.{
  ℕ, ◌-◌, ◌+◌, ◌*◌, ◌/◌, ◌%◌, ◌^◌, ◌≡◌, ◌≢◌, sym, ◌∙◌, ap, arith, ◌==◌, Bool-cases, inl, inr,
}
use promshim_clickhouse.Base.Int.{ℤ, pos, negsuc, pos_part, neg_part, sub_ℕ, ◌/ℤ◌}
use promshim_clickhouse.Chunks.{EvalParams}
use promshim_clickhouse.Memo.{unix_milli, milliseconds}
use promshim_clickhouse.Memo.Key.{SameMillis}

-- A number of whole milliseconds that is not 1970, whose number in the key is that of the zero time.
abbrev pub IsWholeTime : ℕ → Type 0
IsWholeTime t = (t % 10 ^ 6 ≡ 0) × (t ≢ 62135596800000 * 10 ^ 6)

abbrev pub IsWholeStep : ℤ → Type 0
IsWholeStep (pos d) = d % 10 ^ 6 ≡ 0
IsWholeStep (negsuc d) = ⊥

abbrev pub IsWhole : EvalParams → Type 0
IsWhole p =
    (IsWholeTime p.evaluation_time × IsWholeTime p.start)
    × (IsWholeTime p.last × IsWholeStep p.step)

sub_ℕ-cancel : (a b k : ℕ) → sub_ℕ a k ≡ sub_ℕ b k → a ≡ b
sub_ℕ-cancel a b k h = sym (back a) ∙ ap (λ z. pos_part z + k - neg_part z) h ∙ back b
  where
    back : (a : ℕ) → pos_part (sub_ℕ a k) + k - neg_part (sub_ℕ a k) ≡ a
    back a = ground arith

-- The zero time alone has its number.
not_zero : (u : ℕ) → IsWholeTime u → pos 0 ≢ sub_ℕ (u / 10 ^ 6) 62135596800000
not_zero u (u₁, u₂) h =
    let e = sub_ℕ-cancel 62135596800000 (u / 10 ^ 6) 62135596800000 h in u₂ (omega (arith, e, u₁))

unix_milli-injective :
    (t u : ℕ) → IsWholeTime t → IsWholeTime u → unix_milli t ≡ unix_milli u → t ≡ u
unfolding unix_milli
unix_milli-injective t u (t₁, t₂) (u₁, u₂) h = elim (Bool-cases (t == 0)) [
  | inl e ↦ elim (Bool-cases (u == 0)) [
    | inl f ↦ ground (arith, e, f)
    | inr f ↦ absurd (not_zero u (u₁, u₂) (rw (e, f, unix_milli) at h))
  ]
  | inr e ↦ elim (Bool-cases (u == 0)) [
    | inl f ↦ absurd (not_zero t (t₁, t₂) (sym (rw (e, f, unix_milli) at h)))
    | inr f ↦
        let q =
          sub_ℕ-cancel (t / 10 ^ 6) (u / 10 ^ 6) 62135596800000 (rw (e, f, unix_milli) at h) in
        omega (arith, q, t₁, u₁)
  ]
]

milliseconds-injective :
    (d e : ℤ) → IsWholeStep d → IsWholeStep e → milliseconds d ≡ milliseconds e → d ≡ e
unfolding milliseconds ◌/ℤ◌
milliseconds-injective (pos d) (pos e) h k same =
    let q : d / 10 ^ 6 ≡ e / 10 ^ 6 = ap pos_part same in ap pos (omega (arith, q, h, k))
milliseconds-injective (negsuc d) e h k same = absurd h
milliseconds-injective (pos d) (negsuc e) h k same = absurd k

-- Whole requests that are the same in milliseconds are the same.
pub SameMillis-equal : (p q : EvalParams) → IsWhole p → IsWhole q → SameMillis p q → p ≡ q
SameMillis-equal p q ((p₁, p₂), (p₃, p₄)) ((q₁, q₂), (q₃, q₄)) (mode, ((t, s), (l, d))) =
    same mode (unix_milli-injective _ _ p₁ q₁ t) (unix_milli-injective _ _ p₂ q₂ s)
      (unix_milli-injective _ _ p₃ q₃ l) (milliseconds-injective _ _ p₄ q₄ d)
  where
    same :
        p.mode ≡ q.mode
        → p.evaluation_time ≡ q.evaluation_time
        → p.start ≡ q.start
        → p.last ≡ q.last
        → p.step ≡ q.step
        → p ≡ q
    same a b c d e =
        λ i. record { mode = a i; evaluation_time = b i; start = c i; last = d i; step = e i }
