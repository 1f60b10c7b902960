-- ===== src/Backtest/Run.antt =====
-- The loop over the candles: `BacktestEngine.run` of
-- src/zorqen_research/application/backtesting/engine.py, without the hashes and the summary.
pub mod Ledger
pub mod Booked
pub mod Dated
pub mod Replay
pub mod Protected
pub mod Conflicts
pub mod Fits
pub mod Timing
pub mod NextBar
pub mod Paired
pub mod Counts
pub mod Asked
use zorqen_research.Base.{
  ℕ, zero, suc, ◌+◌, ◌-◌, Bool, true, false, ◌&&◌, not, ltb, ◌==◌, Option, none, some, List, [],
  ◌∷◌, ◌++◌, length, last_of, Result, ok, err, ◌>>=◌, ◌>>◌, raise_if, if◌then◌else◌,
}
use zorqen_research.Decimal.{Decimal, Context}
use zorqen_research.Time.{Timeframe}
use Prim.Native.String.{String}
use zorqen_research.Market.Candle.{Candle}
use zorqen_research.Backtest.{
  FillReason, explicit_exit, end_of_data, ValidationError, BacktestError, validation, execution,
  not_a_tuple, too_many_intents, unknown_intent, wrong_decision_time, entry_while_open,
  entry_while_pending, exit_while_flat, cannot_enter, cannot_exit, provider_failed, open_at_end,
  FillRecord, PositionSnapshot, ClosedTrade,
}
use zorqen_research.Backtest.Policy.{BacktestPolicy}
use zorqen_research.Backtest.Intent.{
  RawEnter, RawExit, EnterIntent, ExitIntent, BacktestIntent, enter, exit, validate_for_policy,
  validate_exit,
}
use zorqen_research.Backtest.Engine.{OpenPosition, execute_entry, execute_exit, evaluate_protective}

-- `BacktestDecisionContext`
pub record DecisionContext : Type 0 where
  pub candle : Candle
  pub bar_index : ℕ
  pub symbol : String
  pub timeframe : Timeframe
  pub position : Option PositionSnapshot
  pub realized_equity : Decimal
  pub last_closed_trade : Option ClosedTrade
  pub candles_processed : ℕ

-- What a provider hands back: an item of the tuple is one of the two intents or anything else.
pub data Item : Type 0 where
  enter_item : RawEnter → Item
  exit_item : RawExit → Item
  other_item : Item

pub data Output : Type 0 where
  raises not_tuple : Output
  items : List Item → Output

-- The variables of the loop, and the provider's own state.
pub record RunState (S : Type 0) : Type 0 where
  pub provider : S
  pub equity : Decimal
  pub equity_curve : List Decimal
  pub fills : List FillRecord
  pub trades : List ClosedTrade
  pub position : Option OpenPosition
  pub pending : Option BacktestIntent
  pub fill_seq : ℕ
  pub trade_seq : ℕ
  pub position_seq : ℕ

-- `UnfilledIntentRecord`; its reason is always "no_next_candle".
pub record UnfilledIntentRecord : Type 0 where
  pub intent : BacktestIntent

abbrev pub is_open {ℓ} : {A : Type ℓ} → Option A → Bool
is_open none = false
is_open (some a) = true

abbrev pub last_trade : List ClosedTrade → Option ClosedTrade
last_trade [] = none
last_trade (t ∷ ts) = some (last_of t ts)

abbrev pub snapshot_of : Option OpenPosition → Option PositionSnapshot
snapshot_of none = none
snapshot_of (some p) = some p.snapshot

-- `_coerce_provider_output`
unfoldable pub coerce_provider_output : Output → Result BacktestError (List Item)
coerce_provider_output raises = err (execution provider_failed)
coerce_provider_output not_tuple = err (validation not_a_tuple)
coerce_provider_output (items xs) =
    raise_if (ltb 1 (length xs)) (validation too_many_intents) >> ok xs

module _ (ctx : Context) (policy : BacktestPolicy) where
  -- The branches of `_validate_and_select_intent`, which is always called with no intent pending.
  unfoldable pub select_item : Item → ℕ → Bool → Result BacktestError BacktestIntent
  select_item (enter_item r) decision_open_time has_position = do
    intent ← validate_for_policy ctx policy r
    raise_if (not (intent.decision_open_time == decision_open_time))
        (validation wrong_decision_time)
    raise_if has_position (validation entry_while_open)
    ok (enter intent)
  select_item (exit_item r) decision_open_time has_position = do
    intent ← validate_exit r
    raise_if (not (intent.decision_open_time == decision_open_time))
        (validation wrong_decision_time)
    raise_if (not has_position) (validation exit_while_flat)
    ok (exit intent)
  select_item other_item decision_open_time has_position = err (validation unknown_intent)

  unfoldable pub validate_and_select_intent :
      List Item → ℕ → Bool → Result BacktestError (Option BacktestIntent)
  validate_and_select_intent [] decision_open_time has_position = ok none
  validate_and_select_intent (i ∷ []) decision_open_time has_position = do
    intent ← select_item i decision_open_time has_position
    ok (some intent)
  validate_and_select_intent (i ∷ j ∷ is) decision_open_time has_position =
      err (validation too_many_intents)

  module _ {S : Type 0} where
    -- An exit: the fill, the trade and the equity are recorded, and the position is gone.
    unfoldable pub close_position :
        RunState S
        → OpenPosition
        → Option (List ℕ)
        → Candle
        → ℕ
        → FillReason
        → Decimal
        → Bool
        → Result BacktestError (RunState S)
    close_position s position intent_id candle bar_index reason reference ambiguous = do
      (fill, trade, equity) ←
          execute_exit ctx policy position intent_id candle bar_index (s.fill_seq + 1)
            (s.trade_seq + 1) reason reference s.equity ambiguous
      ok (record s {
        equity = equity;
        equity_curve = s.equity_curve ++ equity ∷ [];
        fills = s.fills ++ fill ∷ [];
        trades = s.trades ++ trade ∷ [];
        position = none;
        fill_seq = s.fill_seq + 1;
        trade_seq = s.trade_seq + 1;
      })

    unfoldable pub open_position :
        RunState S → EnterIntent → Candle → ℕ → Result BacktestError (RunState S)
    open_position s intent candle bar_index = do
      (fill, opened, equity) ←
          execute_entry ctx policy intent candle bar_index (s.fill_seq + 1) (s.position_seq + 1)
            s.equity
      ok (record s {
        equity = equity;
        equity_curve = s.equity_curve ++ equity ∷ [];
        fills = s.fills ++ fill ∷ [];
        position = some opened;
        fill_seq = s.fill_seq + 1;
        position_seq = s.position_seq + 1;
      })

    -- The market intent that is pending, against the position at the open.
    unfoldable pub execute_intent :
        RunState S
        → BacktestIntent
        → Option OpenPosition
        → Candle
        → ℕ
        → Result BacktestError (RunState S)
    execute_intent s (enter intent) none candle bar_index = open_position s intent candle bar_index
    execute_intent s (enter intent) (some p) candle bar_index = err (execution cannot_enter)
    execute_intent s (exit intent) (some p) candle bar_index =
        close_position s p (some intent.intent_id) candle bar_index explicit_exit candle.open_price
          false
    execute_intent s (exit intent) none candle bar_index = err (execution cannot_exit)

    -- Steps 1 to 4.
    unfoldable pub execute_pending :
        RunState S → Option BacktestIntent → Candle → ℕ → Result BacktestError (RunState S)
    execute_pending s none candle bar_index = ok s
    execute_pending s (some intent) candle bar_index = do
      s' ← execute_intent s intent s.position candle bar_index
      ok (record s' { pending = none })

    -- What a trigger does to the position.
    unfoldable pub close_when :
        RunState S
        → OpenPosition
        → Option (FillReason × Decimal × Bool)
        → Candle
        → ℕ
        → Result BacktestError (RunState S)
    close_when s p none candle bar_index = ok s
    close_when s p (some (reason, reference, ambiguity)) candle bar_index =
        close_position s p none candle bar_index reason reference ambiguity

    -- Steps 5 to 7.
    unfoldable pub protect :
        RunState S → Option OpenPosition → Candle → ℕ → Result BacktestError (RunState S)
    protect s none candle bar_index = ok s
    protect s (some p) candle bar_index =
        close_when s p (evaluate_protective ctx policy p.snapshot candle) candle bar_index

  module _ {S : Type 0} (on_bar_close : S → DecisionContext → Output × S) (symbol : String)
      (timeframe : Timeframe) where
    abbrev pub decision_context : RunState S → Candle → ℕ → DecisionContext
    decision_context s candle bar_index = record {
      candle = candle;
      bar_index = bar_index;
      symbol = symbol;
      timeframe = timeframe;
      position = snapshot_of s.position;
      realized_equity = s.equity;
      last_closed_trade = last_trade s.trades;
      candles_processed = bar_index + 1;
    }

    -- Steps 8 to 10.
    unfoldable pub decide : RunState S → Candle → ℕ → Result BacktestError (RunState S)
    decide s candle bar_index = do
      let (output, provider) = on_bar_close s.provider (decision_context s candle bar_index)
      chosen ← coerce_provider_output output
      pending ← validate_and_select_intent chosen candle.open_time (is_open s.position)
      ok (record s { provider = provider; pending = pending })

    -- The body of the loop.
    unfoldable pub step : RunState S → Candle → ℕ → Result BacktestError (RunState S)
    step s candle bar_index = do
      s₁ ← execute_pending s s.pending candle bar_index
      s₂ ← protect s₁ s₁.position candle bar_index
      decide s₂ candle bar_index

    unfoldable pub run_from : RunState S → ℕ → List Candle → Result BacktestError (RunState S)
    run_from s bar_index [] = ok s
    run_from s bar_index (c ∷ cs) = do s' ← step s c bar_index; run_from s' (bar_index + 1) cs
