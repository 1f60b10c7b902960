-- ===== src/Time/Range.antt =====
-- Import ranges: src/zorqen_research/application/market_data/ranges.py.
use zorqen_research.Base.{
  ℕ, ◌-◌, ◌/◌, ◌%◌, ltb, ◌==◌, Result, ok, ◌>>=◌, ◌>>◌, raise_if, rethrow, not,
}
use zorqen_research.Base.Int.{pos}
use zorqen_research.Time.{
  DateTime, aware, Timeframe, TimeError, timeframe_duration, ensure_utc, align_floor,
  assert_aligned,
}

pub data RangeError : Type 0 where
  time : TimeError → RangeError
  not_before_end open_candle not_multiple : RangeError

-- Half-open, [start, end).
pub record ImportRange : Type 0 where
  pub start : ℕ
  pub end : ℕ
  pub timeframe : Timeframe

-- `ImportRange.expected_candle_count`, for a range whose end is not before its start.
unfoldable pub expected_candle_count : ImportRange → Result RangeError ℕ
expected_candle_count r = do
  let delta = r.end - r.start
  let step = timeframe_duration r.timeframe
  raise_if (not (delta % step == 0)) not_multiple
  ok (delta / step)

unfoldable pub current_open_boundary : DateTime → Timeframe → Result RangeError ℕ
unfolding ensure_utc align_floor
current_open_boundary now timeframe = do
  utc ← rethrow time (ensure_utc now)
  ok (align_floor utc timeframe)

-- `now` is the clock's reading where the caller gives none.
unfoldable pub parse_import_range :
    DateTime → DateTime → Timeframe → DateTime → Result RangeError ImportRange
unfolding assert_aligned current_open_boundary ensure_utc
parse_import_range start end timeframe now = do
  start_utc ← rethrow time (assert_aligned start timeframe)
  end_utc ← rethrow time (assert_aligned end timeframe)
  raise_if (not (ltb start_utc end_utc)) not_before_end
  clock ← rethrow time (ensure_utc now)
  open_boundary ← current_open_boundary (aware clock (pos 0)) timeframe
  raise_if (ltb open_boundary end_utc) open_candle
  ok (record { start = start_utc; end = end_utc; timeframe = timeframe })

unfoldable pub estimate_candle_count : DateTime → DateTime → Timeframe → Result RangeError ℕ
unfolding assert_aligned expected_candle_count
estimate_candle_count start end timeframe = do
  start_utc ← rethrow time (assert_aligned start timeframe)
  end_utc ← rethrow time (assert_aligned end timeframe)
  raise_if (not (ltb start_utc end_utc)) not_before_end
  expected_candle_count (record { start = start_utc; end = end_utc; timeframe = timeframe })
