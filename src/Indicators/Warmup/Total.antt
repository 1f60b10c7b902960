-- ===== src/Indicators/Warmup/Total.antt =====
-- Every recalculation with a period in its bounds returns:
-- src/zorqen_research/application/indicator_views/recalculation.py.
use zorqen_research.Base.{
  ℕ, ◌≤◌, ◌<◌, ◌≡◌, refl, sym, subst, ◌∙◌, Option, List, [], length, map, ok, arith, All,
}
use zorqen_research.Base.Int.{pos}
use Prim.Native.String.{String}
use zorqen_research.Decimal.{Decimal, le}
use zorqen_research.Market.Candle.{Candle, int}
use zorqen_research.Market.Candle.Invariant.{IsCandle}
use zorqen_research.Indicators.Input.{
  IndicatorCode, ema_close, true_range, wilder_atr, rolling_highest, rolling_lowest,
  prior_rolling_highest, prior_rolling_lowest, IndicatorInput, max_period, require_period,
  not_all_defined, indicator_context,
}
use zorqen_research.Indicators.Assembly.{
  SeriesDocument, IndicatorSeries, Parameters, check_period_values, normalized, any_undefined,
  check_sign, undefined_prefix, period_of, canonicalize_parameters, enforce_code_invariants,
  series_of, calculated_indicator_series,
}
use zorqen_research.Indicators.Calculators.{
  ge, close_of, high_of, low_of, true_range_values, ema_next, atr_next, calculated_values,
  with_period, calculate_with, recalculate_period, recalculate_true_range,
  recalculate_indicator_series,
}
use zorqen_research.Indicators.Causal.{length-map, length-true_range_values}
use zorqen_research.Indicators.Causal.Checked.{>>-ok}
use zorqen_research.Indicators.Causal.Recalculated.{calculated_ok, validate_values_counted}
use zorqen_research.Indicators.Warmup.{
  IsWarm, IsWarm-eq, map-some-IsWarm, seeded_values-IsWarm, rolling_extrema-IsWarm,
  prior_extrema-IsWarm,
}
use zorqen_research.Indicators.Warmup.Sign.{
  true_range_values_nonneg, map-some-AreNonnegative, seeded_values-AreNonnegative,
}
use zorqen_research.Indicators.Warmup.Accepted.{
  check_nonnegative-ok, check_period_values-ok, normalized-IsWarm, normalized-AreNonnegative,
}

-- How many of the first values are undefined, for a period and a number of candles.
abbrev pub warm_bars : IndicatorCode → ℕ → ℕ → ℕ
unfolding undefined_prefix
warm_bars true_range period n = 0
warm_bars code period n = undefined_prefix code period n

-- The parameters of the series key; the true range has none.
abbrev pub key_parameters : IndicatorCode → ℕ → List (String × ℕ)
key_parameters true_range period = []
key_parameters code period = period_of period

module _ (period : ℕ) (cs : List Candle) where
  at_length :
      (code : IndicatorCode) {n : ℕ} {vs : List (Option Decimal)}
      → n ≡ length cs
      → IsWarm (undefined_prefix code period n) n vs
      → IsWarm (undefined_prefix code period (length cs)) (length cs) vs
  at_length code {n} {vs} e w = subst (λ (m : ℕ). IsWarm (undefined_prefix code period m) m vs) e w

  calculated_values-IsWarm :
      (code : IndicatorCode)
      → 0 < period
      → IsWarm (warm_bars code period (length cs)) (length cs) (calculated_values code period cs)
  unfolding calculated_values undefined_prefix warm_bars
  calculated_values-IsWarm ema_close positive = at_length ema_close (length-map close_of cs) (
      seeded_values-IsWarm indicator_context (ema_next indicator_context period) period
        (map close_of cs) positive)
  calculated_values-IsWarm true_range positive =
      IsWarm-eq refl (length-true_range_values indicator_context cs) refl
        (map-some-IsWarm (true_range_values indicator_context cs))
  calculated_values-IsWarm wilder_atr positive =
      at_length wilder_atr (length-true_range_values indicator_context cs) (
        seeded_values-IsWarm indicator_context (atr_next indicator_context period) period
          (true_range_values indicator_context cs) positive)
  calculated_values-IsWarm rolling_highest positive =
      at_length rolling_highest (length-map high_of cs)
        (rolling_extrema-IsWarm le (map high_of cs) period positive)
  calculated_values-IsWarm rolling_lowest positive =
      at_length rolling_lowest (length-map low_of cs)
        (rolling_extrema-IsWarm ge (map low_of cs) period positive)
  calculated_values-IsWarm prior_rolling_highest positive =
      at_length prior_rolling_highest (length-map high_of cs)
        (prior_extrema-IsWarm le (map high_of cs) period positive)
  calculated_values-IsWarm prior_rolling_lowest positive =
      at_length prior_rolling_lowest (length-map low_of cs)
        (prior_extrema-IsWarm ge (map low_of cs) period positive)

  -- What the checks of the signs ask for; only two indicators have any.
  check_sign-ok :
      (code : IndicatorCode)
      → All IsCandle cs
      → check_sign code (map normalized (calculated_values code period cs)) ≡ ok tt
  unfolding check_sign calculated_values
  check_sign-ok wilder_atr valid = check_nonnegative-ok 0 _ (
      normalized-AreNonnegative _ (
        seeded_values-AreNonnegative indicator_context period
          (true_range_values indicator_context cs)
          (true_range_values_nonneg indicator_context cs valid)))
  check_sign-ok ema_close valid = refl
  check_sign-ok true_range valid = refl
  check_sign-ok rolling_highest valid = refl
  check_sign-ok rolling_lowest valid = refl
  check_sign-ok prior_rolling_highest valid = refl
  check_sign-ok prior_rolling_lowest valid = refl

  calculated_values-checked :
      (code : IndicatorCode)
      → IsWarm
          (undefined_prefix code period (length cs))
          (length cs)
          (calculated_values code period cs)
      → All IsCandle cs
      → check_period_values code
          (period_of period)
          (map normalized (calculated_values code period cs))
        ≡ ok tt
  calculated_values-checked code warm valid =
      check_period_values-ok code period (length cs) _ (normalized-IsWarm _ _ _ warm)
        (check_sign-ok code valid)

  enforce_code_invariants-ok :
      (code : IndicatorCode)
      → 0 < period
      → All IsCandle cs
      → enforce_code_invariants code
          (key_parameters code period)
          (map normalized (calculated_values code period cs))
        ≡ ok tt
  unfolding enforce_code_invariants warm_bars undefined_prefix calculated_values true_range_values
  enforce_code_invariants-ok true_range positive valid =
      let warm = normalized-IsWarm 0 (length cs) _ (calculated_values-IsWarm true_range positive) in
      >>-ok (any_undefined (map normalized (calculated_values true_range period cs)))
        not_all_defined warm.defined
        (check_nonnegative-ok 0 _ (
          normalized-AreNonnegative _
            (map-some-AreNonnegative _ (true_range_values_nonneg indicator_context cs valid))))
  enforce_code_invariants-ok ema_close positive valid =
      calculated_values-checked ema_close (calculated_values-IsWarm ema_close positive) valid
  enforce_code_invariants-ok wilder_atr positive valid =
      calculated_values-checked wilder_atr (calculated_values-IsWarm wilder_atr positive) valid
  enforce_code_invariants-ok rolling_highest positive valid =
      calculated_values-checked rolling_highest (calculated_values-IsWarm rolling_highest positive)
        valid
  enforce_code_invariants-ok rolling_lowest positive valid =
      calculated_values-checked rolling_lowest (calculated_values-IsWarm rolling_lowest positive)
        valid
  enforce_code_invariants-ok prior_rolling_highest positive valid =
      calculated_values-checked prior_rolling_highest
        (calculated_values-IsWarm prior_rolling_highest positive) valid
  enforce_code_invariants-ok prior_rolling_lowest positive valid =
      calculated_values-checked prior_rolling_lowest
        (calculated_values-IsWarm prior_rolling_lowest positive) valid

-- The values of a calculator as they are kept.
abbrev pub kept_values : IndicatorCode → ℕ → List Candle → List (Option Decimal)
kept_values code period cs = map normalized (calculated_values code period cs)

module _ (digest_series : SeriesDocument → String) (i : IndicatorInput) (period : ℕ)
    (positive : 0 < period) (bounded : period ≤ max_period)
    (counted : i.candle_count ≡ length i.candles) (valid : All IsCandle i.candles) where
  require_period-ok : require_period (int (pos period)) ≡ ok period
  unfolding require_period
  require_period-ok = ground (arith, positive, bounded)

  calculated_series-ok :
      (code : IndicatorCode) (parameters : Parameters)
      → canonicalize_parameters code parameters ≡ ok (key_parameters code period)
      → calculated_indicator_series digest_series code i parameters
          (calculated_values code period i.candles)
        ≡ ok (
            series_of digest_series code i
              (key_parameters code period)
              (kept_values code period i.candles))
  calculated_series-ok code parameters canonical =
      let size = (calculated_values-IsWarm period i.candles code positive).counted in
      calculated_ok digest_series code i parameters (calculated_values code period i.candles)
        (key_parameters code period) (kept_values code period i.candles) canonical
        (validate_values_counted _ i.candle_count (size ∙ sym counted))
        (enforce_code_invariants-ok period i.candles code positive valid)

  recalculate_period-ok :
      (code : IndicatorCode)
      → canonicalize_parameters code (with_period period) ≡ ok (key_parameters code period)
      → recalculate_period digest_series code i (period_of period)
        ≡ ok (
            series_of digest_series code i
              (key_parameters code period)
              (kept_values code period i.candles))
  unfolding recalculate_period calculate_with
  recalculate_period-ok code canonical =
      rw (require_period-ok) (calculated_series-ok code (with_period period) canonical)

  canonicalize_parameters-ok :
      (canonicalize_parameters ema_close (with_period period) ≡ ok (period_of period))
  unfolding canonicalize_parameters
  canonicalize_parameters-ok = rw (require_period-ok) refl

  recalculate-ok :
      (code : IndicatorCode)
      → recalculate_indicator_series digest_series code i (key_parameters code period)
        ≡ ok (
            series_of digest_series code i
              (key_parameters code period)
              (kept_values code period i.candles))
  unfolding recalculate_indicator_series recalculate_true_range canonicalize_parameters
      calculated_values
  recalculate-ok true_range = calculated_series-ok true_range [] refl
  recalculate-ok ema_close = recalculate_period-ok ema_close canonicalize_parameters-ok
  recalculate-ok wilder_atr = recalculate_period-ok wilder_atr canonicalize_parameters-ok
  recalculate-ok rolling_highest = recalculate_period-ok rolling_highest canonicalize_parameters-ok
  recalculate-ok rolling_lowest = recalculate_period-ok rolling_lowest canonicalize_parameters-ok
  recalculate-ok prior_rolling_highest =
      recalculate_period-ok prior_rolling_highest canonicalize_parameters-ok
  recalculate-ok prior_rolling_lowest =
      recalculate_period-ok prior_rolling_lowest canonicalize_parameters-ok

-- Every indicator has a series, for valid candles and a period in its bounds. It keeps the values of
-- the calculator, one for each candle; those of the warm-up are undefined, and no other is.
pub recalculate_total :
    (digest_series : SeriesDocument → String) (code : IndicatorCode) (period : ℕ)
    (i : IndicatorInput)
    → 0 < period
    → period ≤ max_period
    → i.candle_count ≡ length i.candles
    → All IsCandle i.candles
    → (s : IndicatorSeries) × (recalculate_indicator_series digest_series code i
          (key_parameters code period)
        ≡ ok s)
      × (s.values ≡ kept_values code period i.candles)
      × IsWarm (warm_bars code period (length i.candles)) (length i.candles) s.values
unfolding series_of
recalculate_total digest_series code period i positive bounded counted valid = (
  series_of digest_series code i (key_parameters code period) (kept_values code period i.candles),
  recalculate-ok digest_series i period positive bounded counted valid code,
  refl,
  normalized-IsWarm _ _ _ (calculated_values-IsWarm period i.candles code positive),
)
