-- ===== src/IndicatorViews/Bundle/Tests.antt =====
-- A bundle with the highest of two bars, over three minutes.
use zorqen_research.Base.{
  ℕ, ◌*◌, ◌≡◌, refl, true, none, some, List, [], ◌∷◌, arith, ok, Result, ok_of, is_ok, Option, map,
  All,
}
use zorqen_research.Base.Int.{pos}
use Prim.Native.String.{String}
use zorqen_research.Decimal.{Decimal, of_ℕ, le, lt, eq, is_negative, is_nought}
use zorqen_research.Time.{Timeframe, m1, minute, timeframe_duration, is_aligned}
use zorqen_research.Market.Candle.{Candle, int}
use zorqen_research.Market.Series.{
  expected_close, require_canonical_series, check_series, check_candle, check_step,
}
use zorqen_research.Indicators.Input.{
  IndicatorCode, IndicatorInput, InputDocument, input_of, input_from_verified, rolling_highest,
  require_period,
}
use zorqen_research.Indicators.Assembly.{
  IndicatorSeries, SeriesDocument, series_of, calculated_indicator_series, canonicalize_parameters,
  validate_values, enforce_code_invariants, check_period_values, require_warmup_shape,
  undefined_prefix, check_undefined, check_defined, check_nonnegative, check_sign,
  defined_value_count, first_defined_from,
}
use zorqen_research.Indicators.Extrema.{pop_back, pop_front, rolling_from, rolling_extrema}
use zorqen_research.Indicators.Calculators.{
  calculated_values, calculate_with, recalculate_period, recalculate_indicator_series,
}
use zorqen_research.IndicatorViews.{
  ViewError, IndicatorSeriesKey, ViewDocument, IndicatorDecisionView, key_from_verified,
  canonicalize_key_parameters, bind_trusted,
}
use zorqen_research.IndicatorViews.Feed.{
  IndicatorDecisionFeed, chain_from, compute_prefix_hash_chain, counts_from, defined_prefix_counts,
  source_from, sources_from, from_bundle, view_at,
}
use zorqen_research.IndicatorViews.Shown.{shown}
use zorqen_research.IndicatorViews.Bundle.{
  BundleDocument, IndicatorSeriesBundle, bundle_of, bundle_from_verified, reverify_indicator_input,
  keyed_from, require_series_matches_recalculation, sort_keyed, insert_keyed,
}
use zorqen_research.IndicatorViews.Bundle.Beginning.{as_trusted, IsUpTo}
use zorqen_research.IndicatorViews.Bundle.Causal.{key_shown, view_at-IsUpTo}

abbrev candle_at : ℕ → ℕ → Candle
candle_at t high = record {
  open_time = t;
  open_price = of_ℕ 10;
  high = of_ℕ high;
  low = of_ℕ 9;
  close = of_ℕ 11;
  volume = of_ℕ 5;
  close_time = expected_close t m1;
  quote_asset_volume = of_ℕ 7;
  trade_count = 3;
  taker_buy_base_volume = of_ℕ 1;
  taker_buy_quote_volume = of_ℕ 2;
}

abbrev later_candles : List Candle
later_candles = candle_at minute 15 ∷ candle_at (2 * minute) 14 ∷ []

abbrev hash : List Candle → String
hash cs = ""

abbrev digest_input : InputDocument → String
digest_input d = ""

abbrev digest_series : SeriesDocument → String
digest_series d = ""

abbrev digest_key : IndicatorCode → List (String × ℕ) → String
digest_key code parameters = "key"

abbrev serialize : IndicatorSeries → String
serialize s = ""

abbrev digest_bundle : BundleDocument → String
digest_bundle d = ""

abbrev input : IndicatorInput
input = input_of hash digest_input "BTCUSDT" m1 (candle_at 0 13) later_candles

abbrev series : IndicatorSeries
series =
    series_of digest_series rolling_highest input (("period", 2) ∷ [])
      (none ∷ some (of_ℕ 15) ∷ some (of_ℕ 15) ∷ [])

abbrev series_key : IndicatorSeriesKey
series_key = record {
  indicator_code = rolling_highest;
  parameters = ("period", 2) ∷ [];
  key_hash = "key";
}

abbrev bundle : IndicatorSeriesBundle
bundle =
    bundle_of hash digest_input digest_series digest_key serialize digest_bundle input
      ((series_key, series) ∷ [])

accepted :
    bundle_from_verified hash digest_input digest_series digest_key serialize digest_bundle input
      (series ∷ [])
    ≡ ok bundle
unfolding bundle_from_verified reverify_indicator_input keyed_from
    require_series_matches_recalculation sort_keyed insert_keyed bundle_of input_from_verified
    input_of require_canonical_series check_series check_candle check_step is_aligned
    timeframe_duration recalculate_indicator_series recalculate_period calculate_with
    calculated_indicator_series canonicalize_parameters validate_values enforce_code_invariants
    check_period_values require_warmup_shape undefined_prefix check_undefined check_defined
    check_nonnegative check_sign calculated_values require_period series_of rolling_extrema
    rolling_from pop_back pop_front le lt eq is_negative is_nought key_from_verified
    canonicalize_key_parameters first_defined_from defined_value_count
accepted = refl

-- The state of the digest is the list of the values that went into it.
abbrev header : String → Timeframe → IndicatorSeriesKey → List (Option Decimal)
header symbol timeframe key = []

abbrev next : List (Option Decimal) → Option Decimal → List (Option Decimal)
next vs v = v ∷ vs

abbrev hex : List (Option Decimal) → String
hex vs = ""

abbrev digest_view : ViewDocument → String
digest_view d = ""

abbrev built : Result ViewError IndicatorDecisionFeed
built =
    from_bundle (List (Option Decimal)) header next hex digest_key digest_view (as_trusted bundle)

builds : is_ok built ≡ true
unfolding from_bundle sources_from source_from key_from_verified canonicalize_key_parameters
    require_period bind_trusted compute_prefix_hash_chain chain_from defined_prefix_counts
    counts_from bundle_of series_of input_of
builds = refl

feed : (f : IndicatorDecisionFeed) × (built ≡ ok f)
feed = ok_of built builds

view_at-IsUpTo_example :
    (v : IndicatorDecisionView) × (view_at
        (List (Option Decimal))
        header
        next
        hex
        digest_key
        digest_view
        feed.0
        (int (pos 1))
      ≡ ok v)
    × (map key_shown (map shown v.items) ≡ bundle.series_keys)
    × All
        (IsUpTo hash digest_input digest_series digest_key serialize digest_bundle
          (input_of hash digest_input "BTCUSDT" m1 (candle_at 0 13) (candle_at minute 15 ∷ [])))
        (map shown v.items)
unfolding input_of
view_at-IsUpTo_example =
    view_at-IsUpTo hash digest_input digest_series digest_key serialize digest_bundle
      (List (Option Decimal)) header next hex digest_view input (candle_at 0 13) later_candles
      (series ∷ []) 1 refl (omega arith) accepted feed.1
