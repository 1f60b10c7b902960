-- ===== src/Backtest/Summary.antt =====
-- What stands around the loop: validation of the candles, the forced close and the summary;
-- `_validate_candles`, `_build_summary` and `_max_drawdown` of
-- src/zorqen_research/application/backtesting/engine.py.
pub mod Grid
pub mod Drawdown
use zorqen_research.Base.{
  ℕ, zero, suc, ◌+◌, ◌-◌, Bool, true, false, ◌&&◌, not, ltb, ◌==◌, Option, none, some, List, [],
  ◌∷◌, ◌++◌, length, last_of, Result, ok, err, ◌>>=◌, ◌>>◌, raise_if, if◌then◌else◌,
}
use zorqen_research.Decimal.{
  Decimal, Context, nought, lt, is_positive, is_negative, is_nought, add, sub,
}
use zorqen_research.Time.{Timeframe, timeframe_duration, is_aligned}
use Prim.Native.String.{String}
use text.Mathlib.Text.{◌==◌ as str_eq}
use zorqen_research.Market.Candle.{Candle}
use zorqen_research.Market.Series.{expected_close}
use zorqen_research.Backtest.{
  FillReason, market_entry, explicit_exit, stop_loss, take_profit, end_of_data, ValidationError,
  BacktestError, is_reason, validation, execution, no_candles, input_hash_mismatch, misaligned,
  close_mismatch, duplicate, out_of_order, gap, open_at_end, FillRecord, ClosedTrade,
}
use zorqen_research.Backtest.Policy.{BacktestPolicy}
use zorqen_research.Backtest.Intent.{BacktestIntent}
use zorqen_research.Backtest.Engine.{OpenPosition}
use zorqen_research.Backtest.Run.{
  Output, DecisionContext, RunState, UnfilledIntentRecord, close_position, run_from,
}

-- The tests of `_validate_candles` on a candle that follows another.
unfoldable pub check_follows : ℕ → ℕ → Option ℕ → ℕ → Result BacktestError (Unit {0})
check_follows duration index none open_time = ok tt
check_follows duration index (some previous) open_time = do
  raise_if (open_time == previous) (validation (duplicate index))
  raise_if (ltb open_time previous) (validation (out_of_order index))
  raise_if (not (open_time == previous + duration)) (validation (gap index))

unfoldable pub check_candle : Timeframe → ℕ → Option ℕ → Candle → Result BacktestError (Unit {0})
unfolding check_follows
check_candle timeframe index previous c = do
  raise_if (not (is_aligned c.open_time timeframe)) (validation (misaligned index))
  raise_if (not (c.close_time == expected_close c.open_time timeframe))
      (validation (close_mismatch index))
  check_follows (timeframe_duration timeframe) index previous c.open_time

unfoldable pub check_candles :
    Timeframe → ℕ → Option ℕ → List Candle → Result BacktestError (Unit {0})
check_candles timeframe index previous [] = ok tt
check_candles timeframe index previous (c ∷ cs) =
    check_candle timeframe index previous c
    >> check_candles timeframe (index + 1) (some c.open_time) cs

unfoldable pub validate_candles : Timeframe → List Candle → Result BacktestError (List Candle)
validate_candles timeframe [] = err (validation no_candles)
validate_candles timeframe (c ∷ cs) = do check_candles timeframe 0 none (c ∷ cs); ok (c ∷ cs)

-- The loop of `_max_drawdown`.
abbrev pub raise_peak : Decimal → Decimal → Decimal
raise_peak peak value = if lt peak value then value else peak

unfoldable pub drawdown_from : Context → Decimal → Decimal → List Decimal → Decimal
drawdown_from ctx peak max_dd [] = max_dd
drawdown_from ctx peak max_dd (value ∷ curve) =
    let dd = sub ctx (raise_peak peak value) value in
    drawdown_from ctx (raise_peak peak value) (if lt max_dd dd then dd else max_dd) curve

-- The curve starts with the initial equity; on an empty one `curve[0]` would raise an IndexError.
unfoldable pub max_drawdown : Context → List Decimal → Decimal
max_drawdown ctx [] = nought
max_drawdown ctx (first ∷ curve) = drawdown_from ctx first nought (first ∷ curve)

-- `sum(…, Decimal("0"))`, and `sum(1 for … if …)`.
unfoldable pub sum_from : {A : Type 0} → Context → (A → Decimal) → Decimal → List A → Decimal
sum_from ctx f acc [] = acc
sum_from ctx f acc (x ∷ xs) = sum_from ctx f (add ctx acc (f x)) xs

unfoldable pub count_if : {A : Type 0} → (A → Bool) → List A → ℕ
count_if p [] = 0
count_if p (x ∷ xs) = (if p x then 1 else 0) + count_if p xs

pub record BacktestSummary : Type 0 where
  pub initial_equity : Decimal
  pub final_equity : Decimal
  pub gross_pnl : Decimal
  pub net_pnl : Decimal
  pub total_fees : Decimal
  pub closed_trade_count : ℕ
  pub winning_trade_count : ℕ
  pub losing_trade_count : ℕ
  pub breakeven_trade_count : ℕ
  pub forced_close_count : ℕ
  pub stop_loss_count : ℕ
  pub take_profit_count : ℕ
  pub explicit_exit_count : ℕ
  pub unfilled_intent_count : ℕ
  pub max_realized_equity_drawdown : Decimal
  pub input_candle_count : ℕ
  pub input_candle_hash : String
  pub policy_hash : String
  pub result_hash : String

pub record BacktestResult : Type 0 where
  pub symbol : String
  pub timeframe : Timeframe
  pub policy : BacktestPolicy
  pub fills : List FillRecord
  pub trades : List ClosedTrade
  pub unfilled_intents : List UnfilledIntentRecord
  pub equity_curve : List Decimal
  pub summary : BacktestSummary

abbrev pub unfilled_of : Option BacktestIntent → List UnfilledIntentRecord
unfilled_of none = []
unfilled_of (some intent) = record { intent = intent } ∷ []

module _ (ctx : Context) (policy : BacktestPolicy) where
  -- `_build_summary`
  unfoldable pub build_summary :
      (equity : Decimal) (curve : List Decimal) (fills : List FillRecord)
      (trades : List ClosedTrade) (unfilled_count input_candle_count : ℕ)
      (input_hash policy_hash result_hash : String)
      → BacktestSummary
  build_summary equity curve fills trades unfilled_count input_count input_hash policy_hash
        result_hash =
      record {
        initial_equity = policy.initial_equity;
        final_equity = equity;
        gross_pnl = sum_from ctx (λ (t : ClosedTrade). t.gross_pnl) nought trades;
        net_pnl = sum_from ctx (λ (t : ClosedTrade). t.net_pnl) nought trades;
        total_fees = sum_from ctx (λ (f : FillRecord). f.fee) nought fills;
        closed_trade_count = length trades;
        winning_trade_count = count_if (λ (t : ClosedTrade). is_positive t.net_pnl) trades;
        losing_trade_count = count_if (λ (t : ClosedTrade). is_negative t.net_pnl) trades;
        breakeven_trade_count = count_if (λ (t : ClosedTrade). is_nought t.net_pnl) trades;
        forced_close_count =
            count_if (λ (t : ClosedTrade). is_reason t.exit_reason end_of_data) trades;
        stop_loss_count = count_if (λ (t : ClosedTrade). is_reason t.exit_reason stop_loss) trades;
        take_profit_count =
            count_if (λ (t : ClosedTrade). is_reason t.exit_reason take_profit) trades;
        explicit_exit_count =
            count_if (λ (t : ClosedTrade). is_reason t.exit_reason explicit_exit) trades;
        unfilled_intent_count = unfilled_count;
        max_realized_equity_drawdown = max_drawdown ctx curve;
        input_candle_count = input_count;
        input_candle_hash = input_hash;
        policy_hash = policy_hash;
        result_hash = result_hash;
      }

  abbrev pub initial_state : {S : Type 0} → S → RunState S
  initial_state provider = record {
    provider = provider;
    equity = policy.initial_equity;
    equity_curve = policy.initial_equity ∷ [];
    fills = [];
    trades = [];
    position = none;
    pending = none;
    fill_seq = 0;
    trade_seq = 0;
    position_seq = 0;
  }

  -- The forced close at the end of the data, against the last candle.
  unfoldable pub close_at_end :
      {S : Type 0}
      → RunState S
      → Option OpenPosition
      → Candle
      → ℕ
      → Result BacktestError (RunState S)
  close_at_end s none final bar_index = ok s
  close_at_end s (some p) final bar_index =
      raise_if (not policy.force_close_at_end) (execution open_at_end)
      >> close_position ctx policy s p none final bar_index end_of_data final.close false
