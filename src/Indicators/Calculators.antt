-- ===== src/Indicators/Calculators.antt =====
-- The calculators: src/zorqen_research/application/indicators/ema.py, volatility.py and extrema.py, and
-- the choice between them in src/zorqen_research/application/indicator_views/recalculation.py.
use zorqen_research.Base.{
  ℕ, ◌+◌, ◌-◌, Bool, ltb, ◌==◌, Option, none, some, List, [], ◌∷◌, ◌++◌, length, map, take, drop,
  replicate, Result, err, ◌>>=◌, ◌>>◌, raise_if, not, if◌then◌else◌,
}
use zorqen_research.Base.Int.{pos}
use Prim.Native.String.{String}
use zorqen_research.Decimal.{Decimal, Context, of_ℕ, nought, le, lt, add, sub, mul, div, abs}
use zorqen_research.Market.Candle.{Candle, Count, int}
use zorqen_research.Indicators.Extrema.{rolling_extrema}
use zorqen_research.Indicators.Prior.{prior_extrema}
use zorqen_research.Indicators.Input.{
  IndicatorCode, ema_close, true_range, wilder_atr, rolling_highest, rolling_lowest,
  prior_rolling_highest, prior_rolling_lowest, IndicatorError, require_period, indicator_context,
  IndicatorInput, recalculation_takes_no_period, recalculation_needs_period,
}
use zorqen_research.Indicators.Assembly.{
  SeriesDocument, IndicatorSeries, Parameters, is_key, calculated_indicator_series,
}

abbrev pub greater : Decimal → Decimal → Decimal
greater tr range = if lt tr range then range else tr

-- The body of the loop of `_true_range_values`.
unfoldable pub true_range_of : Context → Decimal → Candle → Decimal
true_range_of ctx previous_close c =
    greater (greater (sub ctx c.high c.low) (abs ctx (sub ctx c.high previous_close)))
      (abs ctx (sub ctx c.low previous_close))

unfoldable pub true_ranges_from : Context → Decimal → List Candle → List Decimal
true_ranges_from ctx previous_close [] = []
true_ranges_from ctx previous_close (c ∷ cs) =
    true_range_of ctx previous_close c ∷ true_ranges_from ctx c.close cs

-- `_true_range_values`; an input has a first candle.
unfoldable pub true_range_values : Context → List Candle → List Decimal
true_range_values ctx [] = []
true_range_values ctx (first ∷ candles) =
    sub ctx first.high first.low ∷ true_ranges_from ctx first.close candles

-- `seed_sum`
unfoldable pub sum_of : Context → Decimal → List Decimal → Decimal
sum_of ctx total [] = total
sum_of ctx total (v ∷ values) = sum_of ctx (add ctx total v) values

-- The loop of the recurrence: each value from the one before.
unfoldable pub recur :
    (Decimal → Decimal → Decimal) → Decimal → List Decimal → List (Option Decimal)
recur next previous [] = []
recur next previous (v ∷ values) =
    let current = next previous v in some current ∷ recur next current values

-- What `ema_close` and `wilder_atr` have in common: the mean of the first `period` values, and a
-- recurrence from there.
unfoldable pub seeded_values :
    Context → (Decimal → Decimal → Decimal) → ℕ → List Decimal → List (Option Decimal)
unfolding sum_of recur
seeded_values ctx next period values =
    if period == 1
    then map some values
    else if ltb (length values) period
    then replicate (length values) none
    else let seed = div ctx (sum_of ctx nought (take period values)) (of_ℕ period) in
      replicate (period - 1) none ++ some seed ∷ recur next seed (drop period values)

-- `previous + alpha * (close - previous)`
unfoldable pub ema_next : Context → ℕ → Decimal → Decimal → Decimal
ema_next ctx period previous close =
    let alpha = div ctx (of_ℕ 2) (of_ℕ (period + 1)) in
    add ctx previous (mul ctx alpha (sub ctx close previous))

-- `(atr * period_minus_one + tr_values[index]) / period_dec`
unfoldable pub atr_next : Context → ℕ → Decimal → Decimal → Decimal
atr_next ctx period atr tr = div ctx (add ctx (mul ctx atr (of_ℕ (period - 1))) tr) (of_ℕ period)

abbrev pub close_of : Candle → Decimal
close_of c = c.close

abbrev pub high_of : Candle → Decimal
high_of c = c.high

abbrev pub low_of : Candle → Decimal
low_of c = c.low

-- `series[window[-1]] >= value`
abbrev pub ge : Decimal → Decimal → Bool
ge a b = le b a

-- The values of a calculator, before they are assembled.
unfoldable pub calculated_values : IndicatorCode → ℕ → List Candle → List (Option Decimal)
unfolding seeded_values
calculated_values ema_close period candles =
    seeded_values indicator_context (ema_next indicator_context period) period
      (map close_of candles)
calculated_values true_range period candles = map some (true_range_values indicator_context candles)
calculated_values wilder_atr period candles =
    seeded_values indicator_context (atr_next indicator_context period) period
      (true_range_values indicator_context candles)
calculated_values rolling_highest period candles = rolling_extrema le (map high_of candles) period
calculated_values rolling_lowest period candles = rolling_extrema ge (map low_of candles) period
calculated_values prior_rolling_highest period candles =
    prior_extrema le (map high_of candles) period
calculated_values prior_rolling_lowest period candles = prior_extrema ge (map low_of candles) period

abbrev pub with_period : ℕ → Parameters
with_period period = ("period", int (pos period)) ∷ []

module _ (digest_series : SeriesDocument → String) where
  -- A calculator with a period.
  unfoldable pub calculate_with :
      IndicatorCode → IndicatorInput → Count → Result IndicatorError IndicatorSeries
  calculate_with code i period = do
    period_i ← require_period period
    calculated_indicator_series digest_series code i (with_period period_i)
        (calculated_values code period_i i.candles)

  -- The branches of `recalculate_indicator_series`, by the parameters of the series key.
  unfoldable pub recalculate_true_range :
      IndicatorInput → List (String × ℕ) → Result IndicatorError IndicatorSeries
  recalculate_true_range i [] =
      calculated_indicator_series digest_series true_range i []
        (calculated_values true_range 1 i.candles)
  recalculate_true_range i (p ∷ ps) = err recalculation_takes_no_period

  unfoldable pub recalculate_period :
      IndicatorCode → IndicatorInput → List (String × ℕ) → Result IndicatorError IndicatorSeries
  recalculate_period code i [] = err recalculation_needs_period
  recalculate_period code i ((key, period) ∷ []) =
      raise_if (not (is_key key)) recalculation_needs_period
      >> calculate_with code i (int (pos period))
  recalculate_period code i (p ∷ q ∷ ps) = err recalculation_needs_period

  unfoldable pub recalculate_indicator_series :
      IndicatorCode → IndicatorInput → List (String × ℕ) → Result IndicatorError IndicatorSeries
  recalculate_indicator_series true_range i parameters = recalculate_true_range i parameters
  recalculate_indicator_series code i parameters = recalculate_period code i parameters
