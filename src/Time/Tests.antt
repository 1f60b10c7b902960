-- ===== src/Time/Tests.antt =====
-- Timeframes and ranges at concrete instants: the morning of the first day.
use zorqen_research.Base.{ℕ, ◌+◌, ◌*◌, ◌≤◌, ◌<◌, ◌≡◌, refl, true, ok, arith}
use zorqen_research.Base.Int.{pos}
use zorqen_research.Time.{
  DateTime, aware, h4, w1, minute, hour, day, timeframe_duration, duration_milliseconds, ensure_utc,
  align_floor, is_aligned, assert_aligned,
}
use zorqen_research.Time.Floor.{align_floor-IsGreatest}
use zorqen_research.Time.Range.{
  ImportRange, expected_candle_count, current_open_boundary, parse_import_range,
}
use zorqen_research.Time.Closed.{
  IsClosedRange, parse_import_range-IsClosedRange, parse_import_range_closed,
  parse_import_range-count,
}

abbrev now : DateTime
now = aware (9 * hour + 17 * minute) (pos 0)

abbrev range : ImportRange
range = record { start = 0; end = 8 * hour; timeframe = h4 }

parsed : parse_import_range (aware 0 (pos 0)) (aware (8 * hour) (pos 0)) h4 now ≡ ok range
unfolding parse_import_range assert_aligned current_open_boundary ensure_utc is_aligned align_floor
    timeframe_duration duration_milliseconds
parsed = refl

clock : ensure_utc now ≡ ok (9 * hour + 17 * minute)
unfolding ensure_utc
clock = refl

align_floor-IsGreatest_example :
    (is_aligned (align_floor (9 * day) w1) w1 ≡ true)
    × (align_floor (9 * day) w1 ≤ 9 * day)
    × (is_aligned (7 * day) w1 ≡ true → 7 * day ≤ 9 * day → 7 * day ≤ align_floor (9 * day) w1)
align_floor-IsGreatest_example = align_floor-IsGreatest (9 * day) (7 * day) w1

parse_import_range-IsClosedRange_example : IsClosedRange range (9 * hour + 17 * minute)
parse_import_range-IsClosedRange_example =
    parse_import_range-IsClosedRange (aware 0 (pos 0)) (aware (8 * hour) (pos 0)) now h4 clock
      parsed

parse_import_range_closed_example : 4 * hour + timeframe_duration h4 ≤ 9 * hour + 17 * minute
unfolding is_aligned align_floor timeframe_duration duration_milliseconds
parse_import_range_closed_example =
    parse_import_range_closed (aware 0 (pos 0)) (aware (8 * hour) (pos 0)) now h4 (4 * hour) clock
      parsed refl (omega arith)

parse_import_range-count_example :
    (k : ℕ) × (expected_candle_count range ≡ ok k)
    × (range.start + k * timeframe_duration h4 ≡ range.end)
    × (0 < k)
parse_import_range-count_example =
    parse_import_range-count (aware 0 (pos 0)) (aware (8 * hour) (pos 0)) now h4 clock parsed
