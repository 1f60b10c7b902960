-- ===== src/Indicators/Causal/Recalculated.antt =====
-- Series that are recalculated from a series and from its beginning:
-- src/zorqen_research/application/indicator_views/recalculation.py.
use zorqen_research.Base.{
  ℕ, ◌≤◌, ◌<◌, ◌≡◌, refl, ap, sym, ◌∙◌, Option, List, [], ◌∷◌, length, map, take, Result, ok,
  >>=-eq-ok, >>-eq-ok, ok_inj, arith, not, true, ◌==◌, length-take,
}
use zorqen_research.Base.Int.{pos, negsuc}
use Prim.Native.String.{String}
use zorqen_research.Decimal.{Decimal}
use zorqen_research.Market.Candle.{int, not_int, Count}
use zorqen_research.Indicators.Input.{
  IndicatorCode, ema_close, true_range, wilder_atr, rolling_highest, rolling_lowest,
  prior_rolling_highest, prior_rolling_lowest, IndicatorError, IndicatorInput, require_period,
  recalculation_needs_period, wrong_length,
}
use zorqen_research.Indicators.Assembly.{
  SeriesDocument, IndicatorSeries, Parameters, normalized, canonicalize_parameters, validate_values,
  enforce_code_invariants, series_of, calculated_indicator_series, is_key,
}
use zorqen_research.Indicators.Calculators.{
  calculated_values, with_period, calculate_with, recalculate_true_range, recalculate_period,
  recalculate_indicator_series,
}
use zorqen_research.Indicators.Causal.Checked.{enforce_code_invariants-take}
use zorqen_research.Indicators.Causal.{take-map, length-map, take-calculated_values}

require_period-eq-ok : (p : Count) {q : ℕ} → require_period p ≡ ok q → 0 < q
unfolding require_period
require_period-eq-ok (int (pos p)) h = ground arith
require_period-eq-ok (int (negsuc p)) h = cc
require_period-eq-ok not_int h = cc

-- A list of as many values as are asked for is returned, and so are the first of them.
validate_values-eq-ok :
    (values : List (Option Decimal)) (n : ℕ) {verified : List (Option Decimal)}
    → validate_values values n ≡ ok verified
    → (length values ≡ n) × (map normalized values ≡ verified)
unfolding validate_values
validate_values-eq-ok values n h =
    let (right, same) = >>-eq-ok (not (length values == n)) wrong_length h in
    (ground arith, ok_inj same)

pub validate_values_counted :
    (values : List (Option Decimal)) (n : ℕ)
    → length values ≡ n
    → validate_values values n ≡ ok (map normalized values)
unfolding validate_values
validate_values_counted values n e = rw (counted) refl
  where
    counted : (length values == n) ≡ true
    counted = ground (arith, e)

pub calculated_ok :
    (digest_series : SeriesDocument → String) (code : IndicatorCode) (i : IndicatorInput)
    (parameters : Parameters) (values : List (Option Decimal)) (ordered : List (String × ℕ))
    (verified : List (Option Decimal))
    → canonicalize_parameters code parameters ≡ ok ordered
    → validate_values values i.candle_count ≡ ok verified
    → enforce_code_invariants code ordered verified ≡ ok tt
    → calculated_indicator_series digest_series code i parameters values
      ≡ ok (series_of digest_series code i ordered verified)
unfolding calculated_indicator_series
calculated_ok digest_series code i parameters values ordered verified canonical valid enforced =
    rw (canonical, valid, enforced) refl

-- The outcome of a calculation whose values are the first `k` of a series.
abbrev pub GivesFirst : ℕ → IndicatorSeries → Result IndicatorError IndicatorSeries → Type 0
GivesFirst k s outcome =
    (s' : IndicatorSeries) × (outcome ≡ ok s')
    × (s'.values ≡ take k s.values)
    × (length s'.values ≡ k)

module _ (digest_series : SeriesDocument → String) (i first : IndicatorInput) (k : ℕ)
    (beginning : first.candles ≡ take k i.candles) (count : i.candle_count ≡ length i.candles)
    (count_first : first.candle_count ≡ k) (fits : k ≤ length i.candles) where
  assembled-take :
      (code : IndicatorCode) (parameters : Parameters) (values : List (Option Decimal))
      {s : IndicatorSeries}
      → calculated_indicator_series digest_series code i parameters values ≡ ok s
      → GivesFirst k s
          (calculated_indicator_series digest_series code first parameters (take k values))
  unfolding calculated_indicator_series validate_values series_of
  assembled-take code parameters values h =
      let (ordered, canonical, h1) = >>=-eq-ok (canonicalize_parameters code parameters) _ h in
      let (verified, valid, h2) = >>=-eq-ok (validate_values values i.candle_count) _ h1 in
      let (_, enforced, h3) = >>=-eq-ok (enforce_code_invariants code ordered verified) _ h2 in
      let (counted, same) = validate_values-eq-ok values i.candle_count valid in
      let values_k : map normalized (take k values) ≡ take k verified =
        sym (take-map normalized k values) ∙ ap (λ vs. take k vs) same in
      let valid_k : validate_values (take k values) first.candle_count ≡ ok (take k verified) =
        validate_values_counted (take k values) first.candle_count
          (omega (arith, length-take k values, counted, count, count_first, fits))
        ∙ ap ok values_k in
      let fits_k : k ≤ length verified =
        omega
          (arith, length-map normalized values, ap (λ vs. length vs) same, counted, count, fits) in
      let enforced_k = enforce_code_invariants-take k verified fits_k code ordered enforced in
      (
        series_of digest_series code first ordered (take k verified),
        calculated_ok digest_series code first parameters (take k values) ordered (take k verified)
            canonical valid_k enforced_k,
        ap (λ (x : IndicatorSeries). take k x.values) (ok_inj h3),
        omega (arith, length-take k verified, fits_k),
      )

  calculate_with-take :
      (code : IndicatorCode) (period : Count) {s : IndicatorSeries}
      → calculate_with digest_series code i period ≡ ok s
      → GivesFirst k s (calculate_with digest_series code first period)
  unfolding calculate_with
  calculate_with-take code period h =
      let (p, required, h1) = >>=-eq-ok (require_period period) _ h in
      let (s', e, values, size) =
        assembled-take code (with_period p) (calculated_values code p i.candles) h1 in
      let first_values : take k (calculated_values code p i.candles)
          ≡ calculated_values code p first.candles =
        take-calculated_values code p k i.candles (require_period-eq-ok period required) fits
        ∙ ap (λ cs. calculated_values code p cs) (sym beginning) in
      (
        s',
        rw (required) (
            ap (λ vs. calculated_indicator_series digest_series code first (with_period p) vs)
              (sym first_values)
            ∙ e),
        values,
        size,
      )

  recalculate_period-take :
      (code : IndicatorCode) (parameters : List (String × ℕ)) {s : IndicatorSeries}
      → recalculate_period digest_series code i parameters ≡ ok s
      → GivesFirst k s (recalculate_period digest_series code first parameters)
  unfolding recalculate_period
  recalculate_period-take code [] h = cc
  recalculate_period-take code ((key, period) ∷ []) h =
      let (right, whole) = >>-eq-ok (not (is_key key)) recalculation_needs_period h in
      let (s', e, values, size) = calculate_with-take code (int (pos period)) whole in
      (s', rw (right) e, values, size)
  recalculate_period-take code (p ∷ q ∷ ps) h = cc

  recalculate_true_range-take :
      (parameters : List (String × ℕ)) {s : IndicatorSeries}
      → recalculate_true_range digest_series i parameters ≡ ok s
      → GivesFirst k s (recalculate_true_range digest_series first parameters)
  unfolding recalculate_true_range
  recalculate_true_range-take [] h =
      let (s', e, values, size) =
        assembled-take true_range [] (calculated_values true_range 1 i.candles) h in
      let first_values : take k (calculated_values true_range 1 i.candles)
          ≡ calculated_values true_range 1 first.candles =
        take-calculated_values true_range 1 k i.candles (omega arith) fits
        ∙ ap (λ cs. calculated_values true_range 1 cs) (sym beginning) in
      (
        s',
        ap (λ vs. calculated_indicator_series digest_series true_range first [] vs)
              (sym first_values)
            ∙ e,
        values,
        size,
      )
  recalculate_true_range-take (p ∷ ps) h = cc

-- No indicator looks ahead. Where the recalculation of an indicator over a series returns, so does the
-- one over its first `k` candles, with the first `k` of the values.
pub recalculate-take :
    (digest_series : SeriesDocument → String) (code : IndicatorCode)
    (parameters : List (String × ℕ)) (i first : IndicatorInput) (k : ℕ) {s : IndicatorSeries}
    → first.candles ≡ take k i.candles
    → i.candle_count ≡ length i.candles
    → first.candle_count ≡ k
    → k ≤ length i.candles
    → recalculate_indicator_series digest_series code i parameters ≡ ok s
    → GivesFirst k s (recalculate_indicator_series digest_series code first parameters)
unfolding recalculate_indicator_series
recalculate-take digest_series true_range ps i first k b c c1 f h =
    recalculate_true_range-take digest_series i first k b c c1 f ps h
recalculate-take digest_series ema_close ps i first k b c c1 f h =
    recalculate_period-take digest_series i first k b c c1 f ema_close ps h
recalculate-take digest_series wilder_atr ps i first k b c c1 f h =
    recalculate_period-take digest_series i first k b c c1 f wilder_atr ps h
recalculate-take digest_series rolling_highest ps i first k b c c1 f h =
    recalculate_period-take digest_series i first k b c c1 f rolling_highest ps h
recalculate-take digest_series rolling_lowest ps i first k b c c1 f h =
    recalculate_period-take digest_series i first k b c c1 f rolling_lowest ps h
recalculate-take digest_series prior_rolling_highest ps i first k b c c1 f h =
    recalculate_period-take digest_series i first k b c c1 f prior_rolling_highest ps h
recalculate-take digest_series prior_rolling_lowest ps i first k b c c1 f h =
    recalculate_period-take digest_series i first k b c c1 f prior_rolling_lowest ps h
