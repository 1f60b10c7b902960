-- ===== src/Backtest/Rules.antt =====
-- Tick, quantity, slippage and fee rules: src/zorqen_research/domain/backtesting/math_rules.py.
use zorqen_research.Base.{Bool, not, none, some, Result, ok, err, ◌>>=◌, ◌>>◌, raise_if}
use zorqen_research.Decimal.{
  Decimal, Context, of_ℕ, lt, is_positive, is_nought, add, sub, mul, div, rem, floor, ceiling, abs,
}
use zorqen_research.Market.Candle.{Number, finite, not_finite, not_decimal}
use zorqen_research.Backtest.{
  Field, quantity, ValidationError, BacktestError, validation, invalid_operation, must_be_decimal,
  must_be_finite, must_be_positive, below_minimum_quantity, off_step,
}

abbrev pub refuse {ℓ} : {A : Type ℓ} → ValidationError → Result BacktestError A
refuse e = err (validation e)

unfoldable pub require_finite_decimal : Field → Number → Result BacktestError Decimal
require_finite_decimal field not_decimal = refuse (must_be_decimal field)
require_finite_decimal field not_finite = refuse (must_be_finite field)
require_finite_decimal field (finite d) = ok d

unfoldable pub require_positive_price : Field → Number → Result BacktestError Decimal
unfolding require_finite_decimal
require_positive_price field value = do
  price ← require_finite_decimal field value
  raise_if (not (is_positive price)) (validation (must_be_positive field))
  ok price

-- What the module computes under the decimal context of the calling thread.
module _ (ctx : Context) where
  unfoldable pub is_quantity_aligned : Decimal → Decimal → Result BacktestError Bool
  is_quantity_aligned value quantity_step = elim (rem ctx value quantity_step) [
    | none ↦ err invalid_operation
    | some r ↦ ok (is_nought r)
  ]

  unfoldable pub assert_quantity_aligned : Number → Decimal → Decimal → Result BacktestError Decimal
  unfolding require_finite_decimal
  assert_quantity_aligned value quantity_step minimum_quantity = do
    q ← require_finite_decimal quantity value
    raise_if (not (is_positive q)) (validation (must_be_positive quantity))
    raise_if (lt q minimum_quantity) (validation below_minimum_quantity)
    aligned ← is_quantity_aligned q quantity_step
    raise_if (not aligned) (validation off_step)
    ok q

  unfoldable pub floor_to_tick : Decimal → Decimal → Decimal
  floor_to_tick price tick_size = mul ctx (floor (div ctx price tick_size)) tick_size

  unfoldable pub ceil_to_tick : Decimal → Decimal → Decimal
  ceil_to_tick price tick_size = mul ctx (ceiling (div ctx price tick_size)) tick_size

  abbrev pub normalize_buy_fill : Decimal → Decimal → Decimal
  normalize_buy_fill = ceil_to_tick

  abbrev pub normalize_sell_fill : Decimal → Decimal → Decimal
  normalize_sell_fill = floor_to_tick

  abbrev pub normalize_long_stop : Decimal → Decimal → Decimal
  normalize_long_stop = floor_to_tick

  abbrev pub normalize_long_target : Decimal → Decimal → Decimal
  normalize_long_target = floor_to_tick

  abbrev pub normalize_short_stop : Decimal → Decimal → Decimal
  normalize_short_stop = ceil_to_tick

  abbrev pub normalize_short_target : Decimal → Decimal → Decimal
  normalize_short_target = ceil_to_tick

  unfoldable pub apply_buy_slippage : Decimal → Decimal → Decimal
  apply_buy_slippage reference slippage_bps =
      mul ctx reference (add ctx (of_ℕ 1) (div ctx slippage_bps (of_ℕ 10000)))

  unfoldable pub apply_sell_slippage : Decimal → Decimal → Decimal
  apply_sell_slippage reference slippage_bps =
      mul ctx reference (sub ctx (of_ℕ 1) (div ctx slippage_bps (of_ℕ 10000)))

  unfoldable pub compute_fee : Decimal → Decimal → Decimal → Decimal
  compute_fee fill_price size fee_bps =
      div ctx (mul ctx (abs ctx (mul ctx fill_price size)) fee_bps) (of_ℕ 10000)
