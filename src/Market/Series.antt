-- ===== src/Market/Series.antt =====
-- Candle series and their aggregation: src/zorqen_research/domain/market_data/series.py and
-- src/zorqen_research/domain/market_data/resampling.py. The digest of a series, SHA-256 of its
-- canonical CSV, is the parameter `hash`.
pub mod Grid
pub mod Slices
pub mod Extremes
use zorqen_research.Base.{
  ℕ, zero, suc, ◌+◌, ◌-◌, ◌*◌, ◌/◌, ◌%◌, Bool, true, false, ◌≡◌, ltb, ◌==◌, ◌||◌, ◌&&◌, not, Option,
  none, some, List, [], ◌∷◌, length, take, drop, last_of, Result, ok, err, ◌>>=◌, ◌>>◌, raise_if,
  rethrow, if◌then◌else◌, get_elem?,
}
use zorqen_research.Base.Int.{ℤ, pos}
use zorqen_research.Decimal.{Decimal, Context, nought, lt, add, eq}
use zorqen_research.Time.{
  Timeframe, aware, timeframe_duration, millisecond, align_floor, is_aligned,
}
use zorqen_research.Market.Candle.{Candle, CandleError, make_candle, finite, int}
use zorqen_research.Market.Derivation.{
  DerivationError, TimeframeDerivationPlan, derive_timeframe_plan,
}

-- The ResamplingValidationErrors, with the indexes that their messages name.
pub data SeriesError : Type 0 where
  empty_series index_error partial_bucket target_count first_misaligned final_close hash_mismatch :
      SeriesError
  misaligned close_mismatch duplicate out_of_order gap target_mismatch : ℕ → SeriesError
  child_misplaced : ℕ → ℕ → SeriesError
  aggregate_invalid : CandleError → SeriesError
  no_plan : DerivationError → SeriesError

abbrev pub expected_close : ℕ → Timeframe → ℕ
expected_close open_time timeframe = open_time + timeframe_duration timeframe - millisecond

-- The tests on a candle that has one before it.
unfoldable pub check_step : ℕ → ℕ → Option ℕ → ℕ → Result SeriesError (Unit {0})
check_step duration index none open_time = ok tt
check_step duration index (some previous_open) open_time = do
  raise_if (open_time == previous_open) (duplicate index)
  raise_if (ltb open_time previous_open) (out_of_order index)
  raise_if (not (open_time == previous_open + duration)) (gap index)

-- The body of the loop. The UTC tests on the two times cannot fail on a `Candle`.
unfoldable pub check_candle : Timeframe → ℕ → Option ℕ → Candle → Result SeriesError (Unit {0})
unfolding check_step
check_candle timeframe index previous c = do
  raise_if (not (is_aligned c.open_time timeframe)) (misaligned index)
  raise_if (not (c.close_time == expected_close c.open_time timeframe)) (close_mismatch index)
  check_step (timeframe_duration timeframe) index previous c.open_time

unfoldable pub check_series : Timeframe → ℕ → Option ℕ → List Candle → Result SeriesError (Unit {0})
check_series timeframe index previous [] = ok tt
check_series timeframe index previous (c ∷ cs) =
    check_candle timeframe index previous c
    >> check_series timeframe (index + 1) (some c.open_time) cs

unfoldable pub require_canonical_series : Timeframe → List Candle → Result SeriesError (List Candle)
require_canonical_series timeframe [] = err empty_series
require_canonical_series timeframe (c ∷ cs) = do check_series timeframe 0 none (c ∷ cs); ok (c ∷ cs)

-- The variables of the loop of `aggregate_bucket`.
pub record Totals : Type 0 where
  pub high : Decimal
  pub low : Decimal
  pub volume : Decimal
  pub quote : Decimal
  pub trade_count : ℕ
  pub taker_base : Decimal
  pub taker_quote : Decimal

abbrev pub start_totals : Candle → Totals
start_totals c = record {
  high = c.high;
  low = c.low;
  volume = nought;
  quote = nought;
  trade_count = 0;
  taker_base = nought;
  taker_quote = nought;
}

-- What the module does under the decimal context of the calling thread.
module _ (ctx : Context) where
  unfoldable pub add_child : Totals → Candle → Totals
  add_child t child = record {
    high = if lt t.high child.high then child.high else t.high;
    low = if lt child.low t.low then child.low else t.low;
    volume = add ctx t.volume child.volume;
    quote = add ctx t.quote child.quote_asset_volume;
    trade_count = t.trade_count + child.trade_count;
    taker_base = add ctx t.taker_base child.taker_buy_base_volume;
    taker_quote = add ctx t.taker_quote child.taker_buy_quote_volume;
  }

  unfoldable pub add_children : Totals → List Candle → Totals
  add_children t [] = t
  add_children t (child ∷ children) = add_children (add_child t child) children

  -- `children[0]` of no children is an IndexError.
  unfoldable pub aggregate_bucket : List Candle → ℕ → Timeframe → Result SeriesError Candle
  aggregate_bucket [] target_open timeframe = err index_error
  aggregate_bucket (c ∷ cs) target_open timeframe =
      let t = add_children (start_totals c) (c ∷ cs) in
      rethrow aggregate_invalid (
        make_candle (record {
          open_time = aware target_open (pos 0);
          open_price = finite c.open_price;
          high = finite t.high;
          low = finite t.low;
          close = finite (last_of c cs).close;
          volume = finite t.volume;
          close_time = aware (expected_close target_open timeframe) (pos 0);
          quote_asset_volume = finite t.quote;
          trade_count = int (pos t.trade_count);
          taker_buy_base_volume = finite t.taker_base;
          taker_buy_quote_volume = finite t.taker_quote;
        }))
