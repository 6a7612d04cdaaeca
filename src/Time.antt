-- ===== src/Time.antt =====
-- Go's time.Time and time.Duration as the range evaluation uses them: a time is a number of nanoseconds
-- since the zero time, and a duration is an int64.
use promshim_clickhouse.Base.{ℕ, suc, ◌+◌, ◌-◌, ◌^◌, ◌≤◌, ◌<◌, ◌≡◌, arith, ltb, leb, if◌then◌else◌}
use promshim_clickhouse.Base.Int.{ℤ, pos, negsuc}

-- The largest duration.
abbrev pub max_duration : ℕ
max_duration = 2 ^ 63 - 1

-- t.Add(d), for times from the zero time on
unfoldable pub add_time : ℕ → ℤ → ℕ
add_time t (pos d) = t + d
add_time t (negsuc d) = t - suc d

-- t.Sub(u), which stops at the largest and the smallest duration
unfoldable pub sub_time : ℕ → ℕ → ℤ
sub_time t u =
    if leb u t
    then (if ltb max_duration (t - u) then pos max_duration else pos (t - u))
    else if ltb max_duration (u - t - 1)
    then negsuc max_duration
    else negsuc (u - t - 1)

pub sub_time_lem : (t u : ℕ) → u ≤ t → t - u < max_duration → sub_time t u ≡ pos (t - u)
unfolding sub_time
sub_time_lem t u h k = ground arith
