-- ===== src/Memo.antt =====
-- internal/promshim/local/planner_memo.go: the reuse of the value of an expression within one request. A plan is a
-- function of the evaluator, none where there is none, and of the parameters, and returns the evaluator's memo
-- with its value. Values are immutable here, so that their clones are the values themselves.
mod Key
mod Whole
mod Reuse
mod Examples
use promshim_clickhouse.Base.{
  ℕ, ◌/◌, ◌*◌, ◌^◌, Bool, true, false, List, [], ◌∷◌, ◌++◌, Option, none, some, Result, ok, err,
  if◌then◌else◌, ◌==◌, is_empty,
}
use promshim_clickhouse.Base.Int.{ℤ, pos, sub_ℕ, ◌/ℤ◌}
use promshim_clickhouse.Bytes.{Bytes}
use promshim_clickhouse.Bytes.Sort.{contains}
use promshim_clickhouse.Bytes.Text.{text}
use promshim_clickhouse.Bytes.Dict.{lookup, store}
use promshim_clickhouse.Bytes.Decimal.{format_int}
use promshim_clickhouse.Floats.{Floats}
use promshim_clickhouse.Chunks.{Mode, instant, range, EvalParams}
use promshim_clickhouse.LabelFunctions.{RuntimeValue}

abbrev pub local_repeated_expression_cache_disabled : Bytes → Bool
local_repeated_expression_cache_disabled setting =
    contains setting
      (text "1" ∷ text "true" ∷ text "TRUE" ∷ text "yes" ∷ text "YES" ∷ text "on" ∷ text "ON" ∷ [])

pub data PlanKind : Type 0 where
  rate increase range_function other : PlanKind

abbrev is_range_kind : PlanKind → Bool
is_range_kind other = false
is_range_kind _ = true

unfoldable pub should_memoize_repeated_local_plan : Bytes → PlanKind → Bool
should_memoize_repeated_local_plan setting kind =
    if local_repeated_expression_cache_disabled setting then false else is_range_kind kind

-- The milliseconds from the zero time to 1970.
abbrev epoch_ms : ℕ
epoch_ms = 62135596800000

-- t.UnixMilli, and zero for the zero time
unfoldable pub unix_milli : ℕ → ℤ
unix_milli t = if t == 0 then pos 0 else sub_ℕ (t / 10 ^ 6) epoch_ms

-- d.Milliseconds
unfoldable pub milliseconds : ℤ → ℤ
milliseconds d = d /ℤ pos (10 ^ 6)

unfoldable pub mode_text : Mode → Bytes
mode_text instant = text "instant"
mode_text range = text "range"

unfoldable pub local_memo_key : Bytes → EvalParams → Bytes
unfolding format_int unix_milli milliseconds mode_text
local_memo_key expr p =
    expr
    ++ (text "|mode="
        ++ (mode_text p.mode
            ++ (text "|eval="
                ++ (format_int (unix_milli p.evaluation_time)
                    ++ (text "|start="
                        ++ (format_int (unix_milli p.start)
                            ++ (text "|end="
                                ++ (format_int (unix_milli p.last)
                                    ++ (text "|step=" ++ format_int (milliseconds p.step))))))))))

module _ (fl : Floats) (E : Type 0) where
  abbrev pub LocalMemo : Type 0
  LocalMemo = List (Bytes × RuntimeValue fl)

  abbrev pub Plan : Type 0
  Plan = Option LocalMemo → EvalParams → Option LocalMemo × Result E (RuntimeValue fl)

  -- memoizedValue
  abbrev pub memoized_value : Option LocalMemo → Bytes → Option (RuntimeValue fl)
  memoized_value none k = none
  memoized_value (some memo) k = lookup memo k

  -- storeMemoizedValue
  abbrev pub store_memoized_value : Option LocalMemo → Bytes → RuntimeValue fl → Option LocalMemo
  store_memoized_value none k value = none
  store_memoized_value (some memo) k value = some (store memo k value)

  abbrev pub remember :
      Bytes
      → Option LocalMemo × Result E (RuntimeValue fl)
      → Option LocalMemo × Result E (RuntimeValue fl)
  remember k (evaluator, err e) = (evaluator, err e)
  remember k (evaluator, ok value) = (store_memoized_value evaluator k value, ok value)

  -- localMemoizedPlan.execute
  unfoldable pub execute_memoized : Bytes → Plan → Plan
  unfolding local_memo_key
  execute_memoized expr inner none params = inner none params
  execute_memoized expr inner (some memo) params =
      elim (memoized_value (some memo) (local_memo_key expr params)) [
        | some value ↦ (some memo, ok value)
        | none ↦ remember (local_memo_key expr params) (inner (some memo) params)
      ]

  unfoldable pub memoize_local_plan : Bytes → Plan → Plan
  unfolding execute_memoized
  memoize_local_plan expr inner = if is_empty expr then inner else execute_memoized expr inner
