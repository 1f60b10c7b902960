-- ===== src/Backtest/Policy/Laws.antt =====
-- What the constructor of `BacktestPolicy` accepts.
use zorqen_research.Base.{◌≡◌, true, false, ok, arith}
use zorqen_research.Decimal.{of_ℕ, lt, is_positive, is_negative}
use zorqen_research.Market.Candle.{finite}
use zorqen_research.Backtest.Policy.{BacktestPolicy, RawPolicy, flag, rule, make_policy}

pub record IsPolicy (p : BacktestPolicy) : Type 0 where
  pub equity_positive : is_positive p.initial_equity ≡ true
  pub fee_nonneg : is_negative p.taker_fee_bps ≡ false
  pub slippage_nonneg : is_negative p.market_slippage_bps ≡ false
  pub slippage_below_all : lt p.market_slippage_bps (of_ℕ 10000) ≡ true
  pub tick_positive : is_positive p.tick_size ≡ true
  pub step_positive : is_positive p.quantity_step ≡ true
  pub minimum_positive : is_positive p.minimum_quantity ≡ true
  pub notional_nonneg : is_negative p.minimum_notional ≡ false

-- The arguments with which a policy's own values are passed to the constructor.
abbrev pub arguments : BacktestPolicy → RawPolicy
arguments p = record {
  initial_equity = finite p.initial_equity;
  taker_fee_bps = finite p.taker_fee_bps;
  market_slippage_bps = finite p.market_slippage_bps;
  tick_size = finite p.tick_size;
  quantity_step = finite p.quantity_step;
  minimum_quantity = finite p.minimum_quantity;
  minimum_notional = finite p.minimum_notional;
  force_close_at_end = flag p.force_close_at_end;
  same_bar_exit_policy = rule p.same_bar_exit_policy;
}

-- Every policy that the constructor returns has a positive capital, tick, step and least quantity, a
-- fee and a least notional that are not negative, and a slippage in [0, 10000) basis points.
make_policy-IsPolicy : (r : RawPolicy) {p : BacktestPolicy} → make_policy r ≡ ok p → IsPolicy p
unfolding make_policy
make_policy-IsPolicy r {p} h = ground arith

-- A policy with a positive capital, tick, step and least quantity, a fee and a least notional that are
-- not negative, and a slippage in [0, 10000) basis points is returned from its own values.
make_policy-arguments : (p : BacktestPolicy) → IsPolicy p → make_policy (arguments p) ≡ ok p
unfolding make_policy
make_policy-arguments p v = ground arith
