-- ===== src/Time.antt =====
-- Python's `datetime` and `timedelta`, as far as app/ uses them.
-- An aware `datetime` in UTC is the number of microseconds since `datetime.min`; a `timedelta` is a
-- signed number of microseconds. Arithmetic that leaves the range of years 1 to 9999 raises
-- OverflowError, which is `none` here.
use hound_bot.Base.{ℕ, suc, ◌+◌, ◌-◌, ◌*◌, ◌/◌, Option, none, some, leb, if◌then◌else◌}
use hound_bot.Base.Int.{ℤ, pos, negsuc}

abbrev pub DateTime : Type 0
DateTime = ℕ

abbrev pub TimeDelta : Type 0
TimeDelta = ℤ

-- The microseconds of a second, a minute, an hour and a day.
abbrev pub second : ℕ
second = 1_000_000

abbrev pub minute : ℕ
minute = 60_000_000

abbrev pub hour : ℕ
hour = 3_600_000_000

abbrev pub day : ℕ
day = 86_400_000_000

-- `datetime.max`: the last microsecond of the 3,652,059 days of the years 1 to 9999.
abbrev pub datetime_max : ℕ
datetime_max = 315_537_897_599_999_999

-- `t + delta`
abbrev pub add_delta : DateTime → TimeDelta → Option DateTime
add_delta t (pos d) = if leb (t + d) datetime_max then some (t + d) else none
add_delta t (negsuc d) = if leb (suc d) t then some (t - suc d) else none

-- `t - delta` for a delta of zero or more
abbrev pub sub_delta : DateTime → ℕ → Option DateTime
sub_delta t d = if leb d t then some (t - d) else none

-- `timedelta(minutes=m)`: at most 999,999,999 days in either direction.
abbrev pub minutes_delta : ℤ → Option TimeDelta
minutes_delta (pos m) = if leb m 1_439_999_999_999 then some (pos (m * minute)) else none
minutes_delta (negsuc m) =
    if leb (suc m) 1_439_999_998_560 then some (negsuc (suc m * minute - 1)) else none

-- `int(delta.total_seconds() // 60)`, a floor division
abbrev pub whole_minutes : TimeDelta → ℤ
whole_minutes (pos d) = pos (d / minute)
whole_minutes (negsuc d) = negsuc (d / minute)
