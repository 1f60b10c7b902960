-- ===== src/Backtest.antt =====
-- The data of the backtest kernel: src/zorqen_research/domain/backtesting/ (enums.py, errors.py,
-- execution.py, trades.py, results.py). An identifier such as "fill-000001" is its sequence number.
pub mod Rules
pub mod Policy
pub mod Intent
pub mod Engine
pub mod Run
pub mod Summary
pub mod Result
mod Tests
use zorqen_research.Base.{ℕ, Bool, true, false, Option, List}
use Prim.Native.String.{String}
use zorqen_research.Decimal.{Decimal}

pub data PositionDirection : Type 0 where
  long short : PositionDirection

pub data FillReason : Type 0 where
  market_entry explicit_exit stop_loss take_profit end_of_data : FillReason

-- `reason is FillReason.X`
abbrev pub is_reason : FillReason → FillReason → Bool
is_reason market_entry market_entry = true
is_reason explicit_exit explicit_exit = true
is_reason stop_loss stop_loss = true
is_reason take_profit take_profit = true
is_reason end_of_data end_of_data = true
is_reason _ _ = false

pub data LiquidityRole : Type 0 where
  taker : LiquidityRole

pub data SameBarExitPolicy : Type 0 where
  stop_first : SameBarExitPolicy

pub data FillSide : Type 0 where
  buy sell : FillSide

-- The values that the messages of the validators name.
pub data Field : Type 0 where
  initial_equity taker_fee_bps market_slippage_bps tick_size quantity_step : Field
  minimum_quantity minimum_notional quantity fill_price stop_price target_price : Field

-- BacktestValidationError, by message.
pub data ValidationError : Type 0 where
  must_be_decimal must_be_finite must_be_positive must_be_nonnegative : Field → ValidationError
  not_a_bool not_a_policy slippage_range below_minimum_quantity off_step : ValidationError
  bad_intent_id not_a_datetime not_aware not_utc not_a_direction bad_label : ValidationError
  long_brackets short_brackets below_minimum_notional : ValidationError
  normalized_long_brackets normalized_short_brackets : ValidationError
  no_candles input_hash_mismatch : ValidationError
  misaligned close_mismatch duplicate out_of_order gap : ℕ → ValidationError
  not_a_tuple too_many_intents unknown_intent wrong_decision_time : ValidationError
  entry_while_open entry_while_pending exit_while_flat : ValidationError

-- BacktestExecutionError, by message.
pub data ExecutionError : Type 0 where
  cannot_enter cannot_exit provider_failed open_at_end : ExecutionError

-- What a run can raise; `invalid_operation` is the exception of the `decimal` module.
pub data BacktestError : Type 0 where
  validation : ValidationError → BacktestError
  execution : ExecutionError → BacktestError
  invalid_operation : BacktestError

-- A text, by its code points.
abbrev pub Text : Type 0
Text = List ℕ

pub record FillRecord : Type 0 where
  pub fill_id : ℕ
  pub intent_id : Option Text
  pub position_id : ℕ
  pub bar_index : ℕ
  pub fill_time : ℕ
  pub side : FillSide
  pub direction : PositionDirection
  pub reason : FillReason
  pub reference_price : Decimal
  pub fill_price : Decimal
  pub quantity : Decimal
  pub notional : Decimal
  pub fee : Decimal
  pub liquidity_role : LiquidityRole
  pub tick_normalized : Bool

pub record PositionSnapshot : Type 0 where
  pub position_id : ℕ
  pub entry_intent_id : Text
  pub direction : PositionDirection
  pub quantity : Decimal
  pub entry_decision_time : ℕ
  pub entry_fill_time : ℕ
  pub entry_price : Decimal
  pub entry_fee : Decimal
  pub stop_loss : Decimal
  pub take_profit : Decimal
  pub entry_bar_index : ℕ

pub record ClosedTrade : Type 0 where
  pub trade_id : ℕ
  pub position_id : ℕ
  pub direction : PositionDirection
  pub quantity : Decimal
  pub entry_fill_id : ℕ
  pub exit_fill_id : ℕ
  pub entry_time : ℕ
  pub exit_time : ℕ
  pub entry_price : Decimal
  pub exit_price : Decimal
  pub stop_loss : Decimal
  pub take_profit : Decimal
  pub exit_reason : FillReason
  pub entry_fee : Decimal
  pub exit_fee : Decimal
  pub total_fees : Decimal
  pub gross_pnl : Decimal
  pub net_pnl : Decimal
  pub bars_held : ℕ
  pub same_bar_ambiguity_used : Bool
