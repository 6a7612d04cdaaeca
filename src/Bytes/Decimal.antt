-- ===== src/Bytes/Decimal.antt =====
-- strconv.FormatInt in base 10, for an int64.
pub mod ReadBack
use promshim_clickhouse.Base.{ℕ, zero, suc, ◌+◌, ◌/◌, ◌%◌, [], ◌∷◌, ◌++◌, ltb, if◌then◌else◌}
use promshim_clickhouse.Base.Int.{ℤ, pos, negsuc}
use promshim_clickhouse.Bytes.{Bytes}

-- At most that many digits; an int64 has nineteen.
unfoldable pub digits_of : ℕ → ℕ → Bytes
digits_of zero n = []
digits_of (suc fuel) n =
    let leading = digits_of fuel (n / 10) in
    if ltb n 10 then (b'0' + n) ∷ [] else leading ++ ((b'0' + n % 10) ∷ [])

unfoldable pub format_int : ℤ → Bytes
unfolding digits_of
format_int (pos n) = digits_of 20 n
format_int (negsuc n) = b'-' ∷ digits_of 20 (suc n)
