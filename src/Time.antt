-- ===== src/Time.antt =====
-- Instants and timeframes: src/zorqen_research/domain/timeframes.py.
-- A point in time is the number of microseconds since 0001-01-01T00:00, the first instant of
-- Python's `datetime`; that day is a Monday, so `weekday()` is the day number modulo seven.
pub mod Floor
pub mod Range
pub mod Closed
mod Tests
use zorqen_research.Base.{
  ℕ, ◌+◌, ◌-◌, ◌*◌, ◌/◌, ◌%◌, Bool, true, false, ◌==◌, Result, ok, err, ◌>>=◌, ◌>>◌, raise_if, not,
}
use zorqen_research.Base.Int.{ℤ, pos}

-- A `datetime`: naive, with its wall clock, or aware, with the UTC instant and the offset.
pub data DateTime : Type 0 where
  naive : ℕ → DateTime
  aware : ℕ → ℤ → DateTime

-- The ValueErrors of the module; the two kinds of message.
pub data TimeError : Type 0 where
  naive_datetime misaligned : TimeError

pub data Timeframe : Type 0 where
  m1 m3 m5 m15 m30 h1 h4 d1 w1 : Timeframe

abbrev pub millisecond : ℕ
millisecond = 1_000

abbrev pub minute : ℕ
minute = 60_000_000

abbrev pub hour : ℕ
hour = 3_600_000_000

abbrev pub day : ℕ
day = 86_400_000_000

-- `_DURATIONS`
unfoldable pub timeframe_duration : Timeframe → ℕ
timeframe_duration m1 = minute
timeframe_duration m3 = 3 * minute
timeframe_duration m5 = 5 * minute
timeframe_duration m15 = 15 * minute
timeframe_duration m30 = 30 * minute
timeframe_duration h1 = hour
timeframe_duration h4 = 4 * hour
timeframe_duration d1 = day
timeframe_duration w1 = 7 * day

-- The days, seconds and microseconds of a `timedelta` are those of its normal form.
unfoldable pub duration_milliseconds : ℕ → ℕ
duration_milliseconds t = t / day * 86_400_000 + t % day / 1_000_000 * 1000 + t % 1_000_000 / 1000

unfoldable pub ensure_utc : DateTime → Result TimeError ℕ
ensure_utc (naive wall) = err naive_datetime
ensure_utc (aware utc offset) = ok utc

-- `utc.replace(hour=h, minute=m, second=0, microsecond=0)`
abbrev replace_clock : ℕ → ℕ → ℕ → ℕ
replace_clock utc h m = utc / day * day + h * hour + m * minute

-- The branch of the timeframes below one day.
floor_clock : ℕ → Timeframe → ℕ
unfolding timeframe_duration duration_milliseconds
floor_clock utc timeframe =
    let minutes = duration_milliseconds (timeframe_duration timeframe) / 60_000 in
    let total_minutes = utc % day / hour * 60 + utc % hour / minute in
    let floored = total_minutes - total_minutes % minutes in
    replace_clock utc (floored / 60) (floored % 60)

floor_week : ℕ → ℕ
floor_week utc = let monday = utc - utc / day % 7 * day in replace_clock monday 0 0

-- `align_floor` of a UTC instant.
unfoldable pub align_floor : ℕ → Timeframe → ℕ
unfolding floor_clock floor_week
align_floor utc d1 = replace_clock utc 0 0
align_floor utc w1 = floor_week utc
align_floor utc timeframe = floor_clock utc timeframe

unfoldable pub is_aligned : ℕ → Timeframe → Bool
unfolding align_floor
is_aligned utc timeframe = utc == align_floor utc timeframe

unfoldable pub assert_aligned : DateTime → Timeframe → Result TimeError ℕ
unfolding ensure_utc is_aligned
assert_aligned value timeframe = do
  utc ← ensure_utc value
  raise_if (not (is_aligned utc timeframe)) misaligned
  ok utc
