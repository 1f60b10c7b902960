-- ===== src/Time/Closed.antt =====
-- The ranges that `parse_import_range` of src/zorqen_research/application/market_data/ranges.py
-- accepts.
use zorqen_research.Base.{ℕ, ◌+◌, ◌-◌, ◌*◌, ◌/◌, ◌%◌, ◌≤◌, ◌<◌, ◌≡◌, true, arith, ok}
use zorqen_research.Base.Mod.{add-le_of_multiples, sub-mod_multiples, pos_of_mul}
use zorqen_research.Time.{
  DateTime, naive, aware, Timeframe, timeframe_duration, ensure_utc, align_floor, is_aligned,
}
use zorqen_research.Time.Floor.{timeframe_duration_pos, align_floor-IsGreatest, is_aligned→mod}
use zorqen_research.Time.Range.{ImportRange, expected_candle_count, parse_import_range}
use native.Mathlib.Nat.{div-add-mod'}

-- What the tests of `parse_import_range` leave behind.
pub record IsClosedRange (r : ImportRange) (now : ℕ) : Type 0 where
  pub start_aligned : is_aligned r.start r.timeframe ≡ true
  pub end_aligned : is_aligned r.end r.timeframe ≡ true
  pub before : r.start < r.end
  pub closed : r.end ≤ align_floor now r.timeframe

-- An accepted range is aligned at both ends, not empty, and ends at or before the boundary of the
-- candle that is open at the time of the check.
pub parse_import_range-IsClosedRange :
    (start end now : DateTime) (tf : Timeframe) {n : ℕ} {r : ImportRange}
    → ensure_utc now ≡ ok n
    → parse_import_range start end tf now ≡ ok r
    → IsClosedRange r n
unfolding parse_import_range
parse_import_range-IsClosedRange (naive s) end now tf e h = cc
parse_import_range-IsClosedRange (aware s so) (naive _) now tf e h = ground arith
parse_import_range-IsClosedRange (aware s so) (aware t to) (naive _) tf e h = cc
parse_import_range-IsClosedRange (aware s so) (aware t to) (aware c co) tf e h = ground arith

-- Every candle that opens on the timeframe's grid inside an accepted range has closed by the time
-- of the check: no accepted range reaches the candle that is still forming.
pub parse_import_range_closed :
    (start end now : DateTime) (tf : Timeframe) {n : ℕ} {r : ImportRange} (t : ℕ)
    → ensure_utc now ≡ ok n
    → parse_import_range start end tf now ≡ ok r
    → is_aligned t r.timeframe ≡ true
    → t < r.end
    → t + timeframe_duration r.timeframe ≤ n
parse_import_range_closed start end now tf {n} {r} t e h a lt =
    let v = parse_import_range-IsClosedRange start end now tf e h in
    let d = timeframe_duration_pos r.timeframe in
    let step =
      add-le_of_multiples t r.end (timeframe_duration r.timeframe) d (is_aligned→mod t _ a)
        (is_aligned→mod r.end _ v.end_aligned) lt in
    omega (arith, step, v.closed, (align_floor-IsGreatest n n r.timeframe).1)

-- An accepted range has a whole, positive number of candles, and the count is computed.
pub parse_import_range-count :
    (start end now : DateTime) (tf : Timeframe) {n : ℕ} {r : ImportRange}
    → ensure_utc now ≡ ok n
    → parse_import_range start end tf now ≡ ok r
    → (k : ℕ) × (expected_candle_count r ≡ ok k)
      × (r.start + k * timeframe_duration r.timeframe ≡ r.end)
      × (0 < k)
unfolding expected_candle_count
parse_import_range-count start end now tf {n} {r} e h =
    let v = parse_import_range-IsClosedRange start end now tf e h in
    let d = timeframe_duration r.timeframe in
    let pos = timeframe_duration_pos r.timeframe in
    let whole : (r.end - r.start) % d ≡ 0 =
      sub-mod_multiples r.end r.start d pos (is_aligned→mod _ _ v.end_aligned)
        (is_aligned→mod _ _ v.start_aligned) (omega (arith, v.before)) in
    let exact : (r.end - r.start) / d * d + (r.end - r.start) % d ≡ r.end - r.start =
      div-add-mod' (r.end - r.start) d in
    (
      (r.end - r.start) / d,
      ground (arith, whole),
      omega (arith, exact, whole, v.before),
      pos_of_mul ((r.end - r.start) / d) d (r.end - r.start) (omega (arith, exact, whole))
          (omega (arith, v.before)),
    )
