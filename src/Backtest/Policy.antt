-- ===== src/Backtest/Policy.antt =====
-- The execution policy: src/zorqen_research/domain/backtesting/policy.py.
pub mod Laws
use zorqen_research.Base.{Bool, not, ◌||◌, Result, ok, ◌>>=◌, ◌>>◌, raise_if}
use zorqen_research.Decimal.{Decimal, of_ℕ, lt, is_positive, is_negative}
use zorqen_research.Market.Candle.{Number}
use zorqen_research.Backtest.{
  SameBarExitPolicy, BacktestError, validation, not_a_bool, not_a_policy, must_be_positive,
  must_be_nonnegative, slippage_range, initial_equity, taker_fee_bps, market_slippage_bps,
  tick_size, quantity_step, minimum_quantity, minimum_notional,
}
use zorqen_research.Backtest.Rules.{require_finite_decimal, refuse}

pub record BacktestPolicy : Type 0 where
  pub initial_equity : Decimal
  pub taker_fee_bps : Decimal
  pub market_slippage_bps : Decimal
  pub tick_size : Decimal
  pub quantity_step : Decimal
  pub minimum_quantity : Decimal
  pub minimum_notional : Decimal
  pub force_close_at_end : Bool
  pub same_bar_exit_policy : SameBarExitPolicy

-- A value where a bool is wanted, and one where a same-bar policy is.
pub data Flag : Type 0 where
  flag : Bool → Flag
  not_bool : Flag

pub data ExitRule : Type 0 where
  rule : SameBarExitPolicy → ExitRule
  not_rule : ExitRule

-- The arguments of the constructor.
pub record RawPolicy : Type 0 where
  pub initial_equity : Number
  pub taker_fee_bps : Number
  pub market_slippage_bps : Number
  pub tick_size : Number
  pub quantity_step : Number
  pub minimum_quantity : Number
  pub minimum_notional : Number
  pub force_close_at_end : Flag
  pub same_bar_exit_policy : ExitRule

unfoldable pub require_flag : Flag → Result BacktestError Bool
require_flag (flag b) = ok b
require_flag not_bool = refuse not_a_bool

-- `STOP_FIRST` is the only member, so the test that it is no other cannot fail.
unfoldable pub require_rule : ExitRule → Result BacktestError SameBarExitPolicy
require_rule (rule r) = ok r
require_rule not_rule = refuse not_a_policy

-- The constructor with its `__post_init__`.
unfoldable pub make_policy : RawPolicy → Result BacktestError BacktestPolicy
unfolding require_flag require_rule require_finite_decimal
make_policy r = do
  force_close ← require_flag r.force_close_at_end
  same_bar ← require_rule r.same_bar_exit_policy
  equity ← require_finite_decimal initial_equity r.initial_equity
  raise_if (not (is_positive equity)) (validation (must_be_positive initial_equity))
  fee ← require_finite_decimal taker_fee_bps r.taker_fee_bps
  raise_if (is_negative fee) (validation (must_be_nonnegative taker_fee_bps))
  slip ← require_finite_decimal market_slippage_bps r.market_slippage_bps
  raise_if (is_negative slip || not (lt slip (of_ℕ 10000))) (validation slippage_range)
  tick ← require_finite_decimal tick_size r.tick_size
  raise_if (not (is_positive tick)) (validation (must_be_positive tick_size))
  step ← require_finite_decimal quantity_step r.quantity_step
  raise_if (not (is_positive step)) (validation (must_be_positive quantity_step))
  min_qty ← require_finite_decimal minimum_quantity r.minimum_quantity
  raise_if (not (is_positive min_qty)) (validation (must_be_positive minimum_quantity))
  min_notional ← require_finite_decimal minimum_notional r.minimum_notional
  raise_if (is_negative min_notional) (validation (must_be_nonnegative minimum_notional))
  ok (record {
    initial_equity = equity;
    taker_fee_bps = fee;
    market_slippage_bps = slip;
    tick_size = tick;
    quantity_step = step;
    minimum_quantity = min_qty;
    minimum_notional = min_notional;
    force_close_at_end = force_close;
    same_bar_exit_policy = same_bar;
  })
