-- ===== src/Backtest/Engine.antt =====
-- One bar of the simulator: src/zorqen_research/application/backtesting/engine.py. The decision
-- provider is any object: a state and a function from it and the context of the decision.
pub mod Fills
use zorqen_research.Base.{
  ℕ, ◌+◌, ◌-◌, Bool, true, false, ◌&&◌, not, ◌==◌, Option, none, some, List, [], ◌∷◌, ◌++◌, last_of,
  Result, ok, err, ◌>>=◌, ◌>>◌, raise_if, if◌then◌else◌,
}
use zorqen_research.Decimal.{Decimal, Context, le, lt, eq, add, sub, mul, abs}
use zorqen_research.Market.Candle.{Candle, finite}
use zorqen_research.Backtest.{
  Text, PositionDirection, long, short, FillSide, buy, sell, FillReason, market_entry,
  explicit_exit, stop_loss, take_profit, end_of_data, taker, stop_first, fill_price, stop_price,
  target_price, BacktestError, validation, execution, below_minimum_notional,
  normalized_long_brackets, normalized_short_brackets, FillRecord, PositionSnapshot, ClosedTrade,
}
use zorqen_research.Backtest.Rules.{
  require_positive_price, floor_to_tick, ceil_to_tick, normalize_buy_fill, normalize_sell_fill,
  normalize_long_stop, normalize_long_target, normalize_short_stop, normalize_short_target,
  apply_buy_slippage, apply_sell_slippage, compute_fee,
}
use zorqen_research.Backtest.Policy.{BacktestPolicy}
use zorqen_research.Backtest.Intent.{EnterIntent, brackets, validate_brackets_against_fill}

-- `_OpenPosition`; its third field is never read.
pub record OpenPosition : Type 0 where
  pub snapshot : PositionSnapshot
  pub entry_fill : FillRecord

abbrev pub is_long : PositionDirection → Bool
is_long long = true
is_long short = false

abbrev pub side_of : Bool → FillSide
side_of true = buy
side_of false = sell

abbrev pub normalized_error : PositionDirection → BacktestError
normalized_error long = validation normalized_long_brackets
normalized_error short = validation normalized_short_brackets

module _ (ctx : Context) (policy : BacktestPolicy) where
  -- The reference price after adverse slippage, and then on the tick grid.
  abbrev pub slipped_price : Bool → Decimal → Decimal
  slipped_price true price = apply_buy_slippage ctx price policy.market_slippage_bps
  slipped_price false price = apply_sell_slippage ctx price policy.market_slippage_bps

  abbrev pub on_tick : Bool → Decimal → Decimal
  on_tick true slipped = normalize_buy_fill ctx slipped policy.tick_size
  on_tick false slipped = normalize_sell_fill ctx slipped policy.tick_size

  abbrev pub stop_on_tick : PositionDirection → Decimal → Decimal
  stop_on_tick long price = normalize_long_stop ctx price policy.tick_size
  stop_on_tick short price = normalize_short_stop ctx price policy.tick_size

  abbrev pub target_on_tick : PositionDirection → Decimal → Decimal
  target_on_tick long price = normalize_long_target ctx price policy.tick_size
  target_on_tick short price = normalize_short_target ctx price policy.tick_size

  -- `_execute_entry`
  unfoldable pub execute_entry :
      EnterIntent
      → Candle
      → (bar_index fill_seq position_seq : ℕ) → Decimal
      → Result BacktestError (FillRecord × OpenPosition × Decimal)
  execute_entry intent candle bar_index fill_seq position_seq equity = do
    let is_buy = is_long intent.direction
    let slipped = slipped_price is_buy candle.open_price
    price ← require_positive_price fill_price (finite (on_tick is_buy slipped))
    validate_brackets_against_fill intent price
    let notional = abs ctx (mul ctx price intent.quantity)
    raise_if (lt notional policy.minimum_notional) (validation below_minimum_notional)
    let fee = compute_fee ctx price intent.quantity policy.taker_fee_bps
    stop ←
        require_positive_price stop_price (finite (stop_on_tick intent.direction intent.stop_loss))
    target ←
        require_positive_price target_price
          (finite (target_on_tick intent.direction intent.take_profit))
    raise_if (not (brackets intent.direction stop price target)) (normalized_error intent.direction)
    let fill : FillRecord = record {
      fill_id = fill_seq;
      intent_id = some intent.intent_id;
      position_id = position_seq;
      bar_index = bar_index;
      fill_time = candle.open_time;
      side = side_of is_buy;
      direction = intent.direction;
      reason = market_entry;
      reference_price = candle.open_price;
      fill_price = price;
      quantity = intent.quantity;
      notional = notional;
      fee = fee;
      liquidity_role = taker;
      tick_normalized = not (eq price slipped);
    }
    let snapshot : PositionSnapshot = record {
      position_id = position_seq;
      entry_intent_id = intent.intent_id;
      direction = intent.direction;
      quantity = intent.quantity;
      entry_decision_time = intent.decision_open_time;
      entry_fill_time = candle.open_time;
      entry_price = price;
      entry_fee = fee;
      stop_loss = stop;
      take_profit = target;
      entry_bar_index = bar_index;
    }
    ok (fill, record { snapshot = snapshot; entry_fill = fill }, sub ctx equity fee)

  abbrev pub exit_time : FillReason → Candle → ℕ
  exit_time end_of_data candle = candle.close_time
  exit_time _ candle = candle.open_time

  abbrev pub gross_pnl_of : PositionDirection → (entry exit size : Decimal) → Decimal
  gross_pnl_of long entry exit size = mul ctx (sub ctx exit entry) size
  gross_pnl_of short entry exit size = mul ctx (sub ctx entry exit) size

  -- `_execute_exit`
  unfoldable pub execute_exit :
      OpenPosition
      → Option Text
      → Candle
      → (bar_index fill_seq trade_seq : ℕ) → FillReason
      → (reference_price equity : Decimal) → Bool
      → Result BacktestError (FillRecord × ClosedTrade × Decimal)
  execute_exit position intent_id candle bar_index fill_seq trade_seq reason reference equity
        ambiguous =
      do
        let snap = position.snapshot
        let is_buy = not (is_long snap.direction)
        let slipped = slipped_price is_buy reference
        price ← require_positive_price fill_price (finite (on_tick is_buy slipped))
        let fee = compute_fee ctx price snap.quantity policy.taker_fee_bps
        let notional = abs ctx (mul ctx price snap.quantity)
        let gross = gross_pnl_of snap.direction snap.entry_price price snap.quantity
        let net = sub ctx (sub ctx gross snap.entry_fee) fee
        let fill : FillRecord = record {
          fill_id = fill_seq;
          intent_id = intent_id;
          position_id = snap.position_id;
          bar_index = bar_index;
          fill_time = exit_time reason candle;
          side = side_of is_buy;
          direction = snap.direction;
          reason = reason;
          reference_price = reference;
          fill_price = price;
          quantity = snap.quantity;
          notional = notional;
          fee = fee;
          liquidity_role = taker;
          tick_normalized = not (eq price slipped);
        }
        let trade : ClosedTrade = record {
          trade_id = trade_seq;
          position_id = snap.position_id;
          direction = snap.direction;
          quantity = snap.quantity;
          entry_fill_id = position.entry_fill.fill_id;
          exit_fill_id = fill.fill_id;
          entry_time = snap.entry_fill_time;
          exit_time = fill.fill_time;
          entry_price = snap.entry_price;
          exit_price = price;
          stop_loss = snap.stop_loss;
          take_profit = snap.take_profit;
          exit_reason = reason;
          entry_fee = snap.entry_fee;
          exit_fee = fee;
          total_fees = add ctx snap.entry_fee fee;
          gross_pnl = gross;
          net_pnl = net;
          bars_held = bar_index - snap.entry_bar_index;
          same_bar_ambiguity_used = ambiguous;
        }
        ok (fill, trade, sub ctx (add ctx equity gross) fee)

  abbrev pub stop_hit : PositionSnapshot → Candle → Bool
  stop_hit snapshot candle =
      if is_long snapshot.direction
      then le candle.low snapshot.stop_loss
      else le snapshot.stop_loss candle.high

  abbrev pub target_hit : PositionSnapshot → Candle → Bool
  target_hit snapshot candle =
      if is_long snapshot.direction
      then le snapshot.take_profit candle.high
      else le candle.low snapshot.take_profit

  -- `_evaluate_protective`; `STOP_FIRST` is the only same-bar policy, so it raises nothing.
  unfoldable pub evaluate_protective :
      PositionSnapshot → Candle → Option (FillReason × Decimal × Bool)
  evaluate_protective snapshot candle =
      if stop_hit snapshot candle && target_hit snapshot candle
      then some (stop_loss, snapshot.stop_loss, true)
      else if stop_hit snapshot candle
      then some (stop_loss, snapshot.stop_loss, false)
      else if target_hit snapshot candle
      then some (take_profit, snapshot.take_profit, false)
      else none
