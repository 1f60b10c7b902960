-- ===== src/Indicators/Assembly.antt =====
-- The result of an indicator: src/zorqen_research/application/indicators/assembly.py and
-- src/zorqen_research/domain/indicators/results.py.
use zorqen_research.Base.{
  ℕ, suc, ◌+◌, ◌-◌, Bool, true, false, ltb, leb, ◌==◌, ◌||◌, not, Option, none, some, List, [], ◌∷◌,
  length, map, take, drop, Result, ok, err, ◌>>=◌, ◌>>◌, raise_if, if◌then◌else◌,
}
use Prim.Native.String.{String}
use text.Mathlib.Text.{◌==◌ as str_eq}
use zorqen_research.Decimal.{Decimal, nought, is_nought, is_negative}
use zorqen_research.Time.{Timeframe}
use zorqen_research.Market.Candle.{Count}
use zorqen_research.Indicators.Input.{
  IndicatorCode, true_range, wilder_atr, prior_rolling_highest, prior_rolling_lowest,
  IndicatorError, takes_no_parameters, needs_exactly_period, wrong_parameter_key, wrong_length,
  not_all_undefined, not_all_defined, defined_in_warmup, undefined_after_warmup, negative_value,
  require_period, IndicatorInput,
}

-- The items of the mapping of parameters, and what they are once they have passed.
abbrev pub Parameters : Type 0
Parameters = List (String × Count)

abbrev pub period_of : ℕ → List (String × ℕ)
period_of period = ("period", period) ∷ []

-- `_canonicalize_parameters`. A key with a NUL is not "period" either.
unfoldable pub canonicalize_parameters :
    IndicatorCode → Parameters → Result IndicatorError (List (String × ℕ))
unfolding require_period
canonicalize_parameters true_range [] = ok []
canonicalize_parameters true_range (p ∷ ps) = err takes_no_parameters
canonicalize_parameters code [] = err needs_exactly_period
canonicalize_parameters code (p ∷ []) = do
  raise_if (not (str_eq p.0 "period")) wrong_parameter_key
  period ← require_period p.1
  ok (period_of period)
canonicalize_parameters code (p ∷ q ∷ ps) = err needs_exactly_period

abbrev pub normalized : Option Decimal → Option Decimal
normalized none = none
normalized (some value) = some (if is_nought value then nought else value)

-- `_validate_values`, of finite decimals.
unfoldable pub validate_values :
    List (Option Decimal) → ℕ → Result IndicatorError (List (Option Decimal))
validate_values values expected_count = do
  raise_if (not (length values == expected_count)) wrong_length
  ok (map normalized values)

unfoldable pub first_defined_from : ℕ → List (Option Decimal) → Option ℕ
first_defined_from index [] = none
first_defined_from index (none ∷ values) = first_defined_from (index + 1) values
first_defined_from index (some value ∷ values) = some index

unfoldable pub defined_value_count : List (Option Decimal) → ℕ
defined_value_count [] = 0
defined_value_count (none ∷ values) = defined_value_count values
defined_value_count (some value ∷ values) = suc (defined_value_count values)

abbrev pub is_defined : Option Decimal → Bool
is_defined none = false
is_defined (some value) = true

-- The loop over the warm-up, and the one behind it.
unfoldable pub check_undefined : ℕ → List (Option Decimal) → Result IndicatorError (Unit {0})
check_undefined index [] = ok tt
check_undefined index (v ∷ values) = do
  raise_if (is_defined v) (defined_in_warmup index)
  check_undefined (index + 1) values

unfoldable pub check_defined : ℕ → List (Option Decimal) → Result IndicatorError (Unit {0})
check_defined index [] = ok tt
check_defined index (v ∷ values) = do
  raise_if (not (is_defined v)) (undefined_after_warmup index)
  check_defined (index + 1) values

abbrev pub any_defined : List (Option Decimal) → Bool
any_defined [] = false
any_defined (v ∷ values) = is_defined v || any_defined values

unfoldable pub require_warmup_shape : List (Option Decimal) → ℕ → Result IndicatorError (Unit {0})
require_warmup_shape values undefined_prefix =
    if leb (length values) undefined_prefix
    then raise_if (any_defined values) not_all_undefined
    else (check_undefined 0 (take undefined_prefix values)
        >> check_defined undefined_prefix (drop undefined_prefix values))

abbrev pub any_undefined : List (Option Decimal) → Bool
any_undefined [] = false
any_undefined (v ∷ values) = not (is_defined v) || any_undefined values

abbrev pub below_nought : Option Decimal → Bool
below_nought none = false
below_nought (some value) = is_negative value

unfoldable pub check_nonnegative : ℕ → List (Option Decimal) → Result IndicatorError (Unit {0})
check_nonnegative index [] = ok tt
check_nonnegative index (v ∷ values) = do
  raise_if (below_nought v) (negative_value index)
  check_nonnegative (index + 1) values

-- The number of values that have to be undefined, for a period and a number of values.
unfoldable pub undefined_prefix : IndicatorCode → ℕ → ℕ → ℕ
undefined_prefix prior_rolling_highest period n = if leb n period then n else period
undefined_prefix prior_rolling_lowest period n = if leb n period then n else period
undefined_prefix code period n = if ltb n period then n else period - 1

unfoldable pub check_sign : IndicatorCode → List (Option Decimal) → Result IndicatorError (Unit {0})
unfolding check_nonnegative
check_sign wilder_atr values = check_nonnegative 0 values
check_sign code values = ok tt

abbrev pub is_key : String → Bool
is_key key = str_eq key "period"

-- The tests on the values of an indicator with a period.
unfoldable pub check_period_values :
    IndicatorCode → List (String × ℕ) → List (Option Decimal) → Result IndicatorError (Unit {0})
unfolding require_warmup_shape undefined_prefix check_sign
check_period_values code [] values = err needs_exactly_period
check_period_values code ((key, period) ∷ []) values = do
  raise_if (not (is_key key)) needs_exactly_period
  require_warmup_shape values (undefined_prefix code period (length values))
  check_sign code values
check_period_values code (p ∷ q ∷ ps) values = err needs_exactly_period

-- `_enforce_code_invariants`
unfoldable pub enforce_code_invariants :
    IndicatorCode → List (String × ℕ) → List (Option Decimal) → Result IndicatorError (Unit {0})
unfolding check_period_values check_nonnegative
enforce_code_invariants true_range (p ∷ ps) values = err takes_no_parameters
enforce_code_invariants true_range [] values = do
  raise_if (any_undefined values) not_all_defined
  check_nonnegative 0 values
enforce_code_invariants code parameters values = check_period_values code parameters values

-- The document whose JSON is hashed.
pub record SeriesDocument : Type 0 where
  pub indicator_code : IndicatorCode
  pub symbol : String
  pub timeframe : Timeframe
  pub input_candle_sha256 : String
  pub input_candle_count : ℕ
  pub parameters : List (String × ℕ)
  pub first_defined_index : Option ℕ
  pub defined_value_count : ℕ
  pub values : List (Option Decimal)

pub record IndicatorSeries : Type 0 where
  pub indicator_code : IndicatorCode
  pub symbol : String
  pub timeframe : Timeframe
  pub input_candle_sha256 : String
  pub input_candle_count : ℕ
  pub parameters : List (String × ℕ)
  pub value_count : ℕ
  pub values : List (Option Decimal)
  pub first_defined_index : Option ℕ
  pub defined_value_count : ℕ
  pub result_hash : String

module _ (digest_series : SeriesDocument → String) where
  -- The attributes that the builder sets.
  unfoldable pub series_of :
      IndicatorCode → IndicatorInput → List (String × ℕ) → List (Option Decimal) → IndicatorSeries
  series_of code i parameters values =
      let document : SeriesDocument = record {
        indicator_code = code;
        symbol = i.symbol;
        timeframe = i.timeframe;
        input_candle_sha256 = i.candle_sha256;
        input_candle_count = i.candle_count;
        parameters = parameters;
        first_defined_index = first_defined_from 0 values;
        defined_value_count = defined_value_count values;
        values = values;
      } in
      record {
        indicator_code = code;
        symbol = i.symbol;
        timeframe = i.timeframe;
        input_candle_sha256 = i.candle_sha256;
        input_candle_count = i.candle_count;
        parameters = parameters;
        value_count = length values;
        values = values;
        first_defined_index = first_defined_from 0 values;
        defined_value_count = defined_value_count values;
        result_hash = digest_series document;
      }

  -- `_calculated_indicator_series`
  unfoldable pub calculated_indicator_series :
      IndicatorCode
      → IndicatorInput
      → Parameters
      → List (Option Decimal)
      → Result IndicatorError IndicatorSeries
  unfolding canonicalize_parameters validate_values enforce_code_invariants
  calculated_indicator_series code i parameters values = do
    ordered ← canonicalize_parameters code parameters
    verified ← validate_values values i.candle_count
    enforce_code_invariants code ordered verified
    ok (series_of code i ordered verified)
