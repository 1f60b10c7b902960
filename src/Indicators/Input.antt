-- ===== src/Indicators/Input.antt =====
-- The input of an indicator: src/zorqen_research/domain/indicators/, its enums.py, math_policy.py and
-- inputs.py.
use zorqen_research.Base.{
  ℕ, ltb, List, [], ◌∷◌, length, last_of, Result, ok, err, ◌>>=◌, ◌>>◌, raise_if, rethrow,
}
use zorqen_research.Base.Int.{pos, negsuc}
use Prim.Native.String.{String}
use zorqen_research.Decimal.{Context}
use zorqen_research.Time.{Timeframe}
use zorqen_research.Market.Candle.{Candle, Count, int, not_int}
use zorqen_research.Market.Series.{SeriesError, require_canonical_series}

pub data IndicatorCode : Type 0 where
  ema_close true_range wilder_atr rolling_highest rolling_lowest : IndicatorCode
  prior_rolling_highest prior_rolling_lowest : IndicatorCode

-- The IndicatorValidationErrors, with the indexes that their messages name, and the two
-- IndicatorViewValidationErrors of a recalculation.
pub data IndicatorError : Type 0 where
  not_canonical : SeriesError → IndicatorError
  period_not_int period_too_small period_too_large : IndicatorError
  takes_no_parameters needs_exactly_period wrong_parameter_key wrong_length : IndicatorError
  not_all_undefined not_all_defined : IndicatorError
  defined_in_warmup undefined_after_warmup negative_value : ℕ → IndicatorError
  recalculation_takes_no_period recalculation_needs_period : IndicatorError

-- `default_math_policy().decimal_context()`
abbrev pub indicator_context : Context
indicator_context = record { prec = 50 }

abbrev pub max_period : ℕ
max_period = 1_000_000

unfoldable pub require_period : Count → Result IndicatorError ℕ
require_period not_int = err period_not_int
require_period (int (negsuc n)) = err period_too_small
require_period (int (pos n)) = do
  raise_if (ltb n 1) period_too_small
  raise_if (ltb max_period n) period_too_large
  ok n

-- The document whose JSON is hashed.
pub record InputDocument : Type 0 where
  pub candle_count : ℕ
  pub candle_sha256 : String
  pub maximum_open_time : ℕ
  pub minimum_open_time : ℕ
  pub symbol : String
  pub timeframe : Timeframe

pub record IndicatorInput : Type 0 where
  pub symbol : String
  pub timeframe : Timeframe
  pub candles : List Candle
  pub candle_count : ℕ
  pub minimum_open_time : ℕ
  pub maximum_open_time : ℕ
  pub candle_sha256 : String
  pub input_hash : String

module _ (hash : List Candle → String) (digest : InputDocument → String) where
  -- The attributes that the factory sets, from a series with a first candle.
  unfoldable pub input_of : String → Timeframe → Candle → List Candle → IndicatorInput
  input_of symbol timeframe c cs =
      let document : InputDocument = record {
        candle_count = length (c ∷ cs);
        candle_sha256 = hash (c ∷ cs);
        maximum_open_time = (last_of c cs).open_time;
        minimum_open_time = c.open_time;
        symbol = symbol;
        timeframe = timeframe;
      } in
      record {
        symbol = symbol;
        timeframe = timeframe;
        candles = c ∷ cs;
        candle_count = length (c ∷ cs);
        minimum_open_time = c.open_time;
        maximum_open_time = (last_of c cs).open_time;
        candle_sha256 = hash (c ∷ cs);
        input_hash = digest document;
      }

  -- `IndicatorInput.from_verified`; the validator returns the very series that it is given.
  unfoldable pub input_from_verified :
      String → Timeframe → List Candle → Result IndicatorError IndicatorInput
  input_from_verified symbol timeframe [] = do
    verified ← rethrow not_canonical (require_canonical_series timeframe [])
    err (not_canonical SeriesError.index_error)
  input_from_verified symbol timeframe (c ∷ cs) = do
    verified ← rethrow not_canonical (require_canonical_series timeframe (c ∷ cs))
    ok (input_of symbol timeframe c cs)
