-- ===== src/Indicators/Causal/Tests.antt =====
-- The average true range of three minutes and of the first two: src/zorqen_research/application/indicators/.
use zorqen_research.Base.{
  ℕ, ◌*◌, ◌≡◌, refl, true, List, [], ◌∷◌, arith, ok, Result, ok_of, is_ok, All, ◌≤◌,
}
use zorqen_research.Decimal.{of_ℕ, add, sub, mul, div, abs, le, lt, fix, is_negative, is_nought}
use zorqen_research.Time.{m1, minute, timeframe_duration}
use zorqen_research.Market.Candle.{Candle}
use zorqen_research.Market.Series.{expected_close}
use zorqen_research.Indicators.Input.{
  IndicatorInput, IndicatorError, wilder_atr, input_of, require_period,
}
use zorqen_research.Indicators.Assembly.{
  IndicatorSeries, series_of, calculated_indicator_series, canonicalize_parameters, validate_values,
  enforce_code_invariants, check_period_values, require_warmup_shape, undefined_prefix,
  check_undefined, check_defined, check_nonnegative, check_sign,
}
use zorqen_research.Indicators.Calculators.{
  true_range_of, true_ranges_from, true_range_values, sum_of, recur, seeded_values, atr_next,
  calculated_values, calculate_with, recalculate_period, recalculate_indicator_series,
}
use zorqen_research.Indicators.Causal.Recalculated.{recalculate-take, GivesFirst}
use zorqen_research.Market.Candle.Invariant.{IsCandle}
use zorqen_research.Indicators.Warmup.{IsWarm}
use zorqen_research.Indicators.Warmup.Total.{warm_bars, kept_values, recalculate_total}

abbrev candle_at : ℕ → ℕ → Candle
candle_at t high = record {
  open_time = t;
  open_price = of_ℕ 10;
  high = of_ℕ high;
  low = of_ℕ 9;
  close = of_ℕ 11;
  volume = of_ℕ 5;
  close_time = expected_close t m1;
  quote_asset_volume = of_ℕ 7;
  trade_count = 3;
  taker_buy_base_volume = of_ℕ 1;
  taker_buy_quote_volume = of_ℕ 2;
}

abbrev later_candles : List Candle
later_candles = candle_at minute 15 ∷ candle_at (2 * minute) 14 ∷ []

abbrev input : List Candle → IndicatorInput
input cs = input_of (λ cs. "") (λ d. "") "BTCUSDT" m1 (candle_at 0 13) cs

abbrev outcome : List Candle → Result IndicatorError IndicatorSeries
outcome cs = recalculate_indicator_series (λ d. "") wilder_atr (input cs) (("period", 2) ∷ [])

returns : is_ok (outcome later_candles) ≡ true
unfolding recalculate_indicator_series recalculate_period calculate_with calculated_indicator_series
    canonicalize_parameters validate_values enforce_code_invariants check_period_values
    require_warmup_shape undefined_prefix check_undefined check_defined check_nonnegative check_sign
    true_range_of true_ranges_from true_range_values sum_of recur seeded_values atr_next
    calculated_values require_period series_of add sub mul div abs le lt fix is_negative is_nought
    input_of
returns = refl

whole : (s : IndicatorSeries) × (outcome later_candles ≡ ok s)
whole = ok_of (outcome later_candles) returns

recalculate-take_example : GivesFirst 2 whole.0 (outcome (candle_at minute 15 ∷ []))
unfolding input_of
recalculate-take_example =
    recalculate-take (λ d. "") wilder_atr (("period", 2) ∷ []) (input later_candles)
      (input (candle_at minute 15 ∷ [])) 2 refl refl refl (omega arith) whole.1

candle_at-IsCandle :
    (t high : ℕ) → t ≤ expected_close t m1 → 11 ≤ high → IsCandle (candle_at t high)
unfolding le is_negative
candle_at-IsCandle t high o h = record {
  ordered = o;
  low-le-open = refl;
  low-le-close = refl;
  low-le-high = ground (arith, h);
  open-le-high = ground (arith, h);
  close-le-high = ground (arith, h);
  volume_nonneg = refl;
  quote_nonneg = refl;
  taker_base_nonneg = refl;
  taker_quote_nonneg = refl;
}

inputs-IsCandle : All IsCandle (candle_at 0 13 ∷ later_candles)
unfolding timeframe_duration
inputs-IsCandle = (
  candle_at-IsCandle 0 13 (omega arith) (omega arith),
  (
    candle_at-IsCandle minute 15 (omega arith) (omega arith),
    (candle_at-IsCandle (2 * minute) 14 (omega arith) (omega arith), tt),
  ),
)

recalculate_total_example :
    (s : IndicatorSeries) × (outcome later_candles ≡ ok s)
    × (s.values ≡ kept_values wilder_atr 2 (input later_candles).candles)
    × IsWarm (warm_bars wilder_atr 2 3) 3 s.values
unfolding input_of
recalculate_total_example =
    recalculate_total (λ d. "") wilder_atr 2 (input later_candles) (omega arith) (omega arith) refl
      inputs-IsCandle
