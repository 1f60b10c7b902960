-- ===== src/IndicatorViews/Bundle.antt =====
-- Bundles of indicator series: src/zorqen_research/domain/indicator_views/bundles.py.
pub mod Beginning
pub mod Causal
mod Tests
use zorqen_research.Base.{
  ℕ, zero, suc, ◌+◌, Bool, true, false, ltb, leb, ◌==◌, ◌&&◌, ◌||◌, not, Option, none, some, List,
  [], ◌∷◌, length, map, Result, ok, err, ◌>>=◌, ◌>>◌, raise_if, rethrow, if◌then◌else◌,
}
use Prim.Native.String.{String}
use text.Mathlib.Text.{◌==◌ as str_eq}
use zorqen_research.Decimal.{Decimal, eq}
use zorqen_research.Time.{Timeframe}
use zorqen_research.Market.Candle.{Candle}
use zorqen_research.Market.Alignment.Multi.{same_timeframe}
use zorqen_research.Indicators.Input.{
  IndicatorCode, IndicatorInput, InputDocument, input_from_verified, ema_close, true_range,
  wilder_atr, rolling_highest, rolling_lowest, prior_rolling_highest, prior_rolling_lowest,
}
use zorqen_research.Indicators.Assembly.{IndicatorSeries, SeriesDocument}
use zorqen_research.Indicators.Calculators.{recalculate_indicator_series}
use zorqen_research.IndicatorViews.{
  ViewError, not_reconstructed, input_mismatch, series_mismatch, InputField, SeriesField,
  symbol_field, timeframe_field, count_field, minimum_field, maximum_field, candles_field,
  hash_field, bytes_field, code_field, series_symbol, series_timeframe, series_candles,
  series_count, parameters_field, value_count_field, values_field, first_defined_field,
  defined_count_field, result_field, no_series, duplicate_keys, bad_indicator, IndicatorSeriesKey,
  key_from_verified,
}
use zorqen_research.IndicatorViews.Feed.{code_number, same_parameters, as_count}

abbrev pub same_value : Option Decimal → Option Decimal → Bool
same_value none none = true
same_value (some a) (some b) = eq a b
same_value a b = false

abbrev pub same_values : List (Option Decimal) → List (Option Decimal) → Bool
same_values [] [] = true
same_values (a ∷ as') (b ∷ bs) = same_value a b && same_values as' bs
same_values as' bs = false

abbrev pub same_index : Option ℕ → Option ℕ → Bool
same_index none none = true
same_index (some a) (some b) = a == b
same_index a b = false

-- `_require_series_matches_recalculation`, with the serialization of the two.
unfoldable pub require_series_matches_recalculation :
    (IndicatorSeries → String) → IndicatorSeries → IndicatorSeries → ℕ → Result ViewError (Unit {0})
require_series_matches_recalculation serialize supplied expected index = do
  raise_if (not (str_eq (serialize supplied) (serialize expected)))
      (series_mismatch index bytes_field)
  raise_if (not (code_number supplied.indicator_code == code_number expected.indicator_code))
      (series_mismatch index code_field)
  raise_if (not (str_eq supplied.symbol expected.symbol)) (series_mismatch index series_symbol)
  raise_if (not (same_timeframe supplied.timeframe expected.timeframe))
      (series_mismatch index series_timeframe)
  raise_if (not (str_eq supplied.input_candle_sha256 expected.input_candle_sha256))
      (series_mismatch index series_candles)
  raise_if (not (supplied.input_candle_count == expected.input_candle_count))
      (series_mismatch index series_count)
  raise_if (not (same_parameters supplied.parameters expected.parameters))
      (series_mismatch index parameters_field)
  raise_if (not (supplied.value_count == expected.value_count))
      (series_mismatch index value_count_field)
  raise_if (not (same_values supplied.values expected.values)) (series_mismatch index values_field)
  raise_if (not (same_index supplied.first_defined_index expected.first_defined_index))
      (series_mismatch index first_defined_field)
  raise_if (not (supplied.defined_value_count == expected.defined_value_count))
      (series_mismatch index defined_count_field)
  raise_if (not (str_eq supplied.result_hash expected.result_hash))
      (series_mismatch index result_field)

-- The order of `sort_tuple`: the codes as texts, and then the parameters.
abbrev pub code_rank : IndicatorCode → ℕ
code_rank ema_close = 0
code_rank prior_rolling_highest = 1
code_rank prior_rolling_lowest = 2
code_rank rolling_highest = 3
code_rank rolling_lowest = 4
code_rank true_range = 5
code_rank wilder_atr = 6

-- The parameters of a key are none, or a period.
abbrev pub parameters_before : List (String × ℕ) → List (String × ℕ) → Bool
parameters_before [] qs = false
parameters_before (p ∷ ps) [] = false
parameters_before (p ∷ ps) (q ∷ qs) = ltb p.1 q.1

-- `b.sort_tuple() < a.sort_tuple()`, for keys of accepted parameters.
abbrev pub sorts_before : IndicatorSeriesKey → IndicatorSeriesKey → Bool
sorts_before b a =
    ltb (code_rank b.indicator_code) (code_rank a.indicator_code)
    || code_rank b.indicator_code == code_rank a.indicator_code
      && parameters_before b.parameters a.parameters

abbrev pub Keyed : Type 0
Keyed = IndicatorSeriesKey × IndicatorSeries

-- `keyed.sort`, which is stable.
unfoldable pub insert_keyed : Keyed → List Keyed → List Keyed
insert_keyed p [] = p ∷ []
insert_keyed p (q ∷ keyed) =
    let rest = insert_keyed p keyed in if sorts_before q.0 p.0 then q ∷ rest else p ∷ q ∷ keyed

unfoldable pub sort_keyed : List Keyed → List Keyed
unfolding insert_keyed
sort_keyed [] = []
sort_keyed (p ∷ keyed) = insert_keyed p (sort_keyed keyed)

abbrev pub is_in : String → List String → Bool
is_in key [] = false
is_in key (k ∷ seen) = str_eq key k || is_in key seen

-- The document whose JSON is hashed.
pub record BundleDocument : Type 0 where
  pub input_candle_count : ℕ
  pub input_candle_hash : String
  pub input_hash : String
  pub series_count : ℕ
  pub series_keys : List IndicatorSeriesKey
  pub series_result_hashes : List String
  pub symbol : String
  pub timeframe : Timeframe

pub record IndicatorSeriesBundle : Type 0 where
  pub symbol : String
  pub timeframe : Timeframe
  pub input_candle_count : ℕ
  pub input_candle_hash : String
  pub input_hash : String
  pub series : List IndicatorSeries
  pub series_count : ℕ
  pub series_keys : List IndicatorSeriesKey
  pub bundle_hash : String
  pub indicator_input : IndicatorInput

abbrev pub key_of : Keyed → IndicatorSeriesKey
key_of p = p.0

abbrev pub series_in : Keyed → IndicatorSeries
series_in p = p.1

abbrev pub result_hash_of : IndicatorSeries → String
result_hash_of s = s.result_hash

module _ (hash : List Candle → String) (digest_input : InputDocument → String)
    (digest_series : SeriesDocument → String)
    (digest_key : IndicatorCode → List (String × ℕ) → String) (serialize : IndicatorSeries → String)
    (digest_bundle : BundleDocument → String) where
  -- `_reverify_indicator_input`; the factory keeps the list of candles that it is given.
  unfoldable pub reverify_indicator_input : IndicatorInput → Result ViewError IndicatorInput
  unfolding input_from_verified
  reverify_indicator_input i = do
    trusted ←
        rethrow not_reconstructed
          (input_from_verified hash digest_input i.symbol i.timeframe i.candles)
    raise_if (not (str_eq trusted.symbol i.symbol)) (input_mismatch symbol_field)
    raise_if (not (same_timeframe trusted.timeframe i.timeframe)) (input_mismatch timeframe_field)
    raise_if (not (trusted.candle_count == i.candle_count)) (input_mismatch count_field)
    raise_if (not (trusted.minimum_open_time == i.minimum_open_time)) (input_mismatch minimum_field)
    raise_if (not (trusted.maximum_open_time == i.maximum_open_time)) (input_mismatch maximum_field)
    raise_if (not (str_eq trusted.candle_sha256 i.candle_sha256)) (input_mismatch candles_field)
    raise_if (not (str_eq trusted.input_hash i.input_hash)) (input_mismatch hash_field)
    ok trusted

  -- The loop over the series: the index, the hashes of the keys so far, and the series that remain.
  unfoldable pub keyed_from :
      IndicatorInput → ℕ → List String → List IndicatorSeries → Result ViewError (List Keyed)
  unfolding key_from_verified recalculate_indicator_series require_series_matches_recalculation
  keyed_from trusted_input index seen [] = ok []
  keyed_from trusted_input index seen (item ∷ series) = do
    key ← key_from_verified digest_key item.indicator_code (map as_count item.parameters)
    expected ←
        rethrow bad_indicator (
          recalculate_indicator_series digest_series key.indicator_code trusted_input
            key.parameters)
    require_series_matches_recalculation serialize item expected index
    raise_if (is_in key.key_hash seen) duplicate_keys
    keyed ← keyed_from trusted_input (index + 1) (key.key_hash ∷ seen) series
    ok ((key, expected) ∷ keyed)

  -- The attributes that the factory sets.
  unfoldable pub bundle_of : IndicatorInput → List Keyed → IndicatorSeriesBundle
  bundle_of i ordered =
      let ordered_series = map series_in ordered in
      let document : BundleDocument = record {
        input_candle_count = i.candle_count;
        input_candle_hash = i.candle_sha256;
        input_hash = i.input_hash;
        series_count = length ordered_series;
        series_keys = map key_of ordered;
        series_result_hashes = map result_hash_of ordered_series;
        symbol = i.symbol;
        timeframe = i.timeframe;
      } in
      record {
        symbol = i.symbol;
        timeframe = i.timeframe;
        input_candle_count = i.candle_count;
        input_candle_hash = i.candle_sha256;
        input_hash = i.input_hash;
        series = ordered_series;
        series_count = length ordered_series;
        series_keys = map key_of ordered;
        bundle_hash = digest_bundle document;
        indicator_input = i;
      }

  -- `IndicatorSeriesBundle.from_verified`
  unfoldable pub bundle_from_verified :
      IndicatorInput → List IndicatorSeries → Result ViewError IndicatorSeriesBundle
  unfolding reverify_indicator_input keyed_from sort_keyed bundle_of
  bundle_from_verified indicator_input series = do
    trusted_input ← reverify_indicator_input indicator_input
    raise_if (length series == 0) no_series
    keyed ← keyed_from trusted_input 0 [] series
    ok (bundle_of trusted_input (sort_keyed keyed))
