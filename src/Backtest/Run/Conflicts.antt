-- ===== src/Backtest/Run/Conflicts.antt =====
-- The errors of the loop's guards on a pending intent, and what raises them.
use zorqen_research.Base.{
  ℕ, ◌≡◌, refl, Bool, true, false, Option, Result, ok, err, ◌>>=◌, ◌>>◌, raise_if, arith,
}
use zorqen_research.Decimal.{Decimal, Context}
use zorqen_research.Market.Candle.{Candle, Number, finite}
use zorqen_research.Backtest.{
  Field, BacktestError, execution, cannot_enter, cannot_exit, FillReason, PositionDirection, long,
  short, Text, fill_price, stop_price, target_price,
}
use zorqen_research.Backtest.Rules.{
  require_finite_decimal, require_positive_price, assert_quantity_aligned, is_quantity_aligned,
}
use zorqen_research.Backtest.Policy.{BacktestPolicy}
use zorqen_research.Backtest.Intent.{
  RawEnter, RawExit, EnterIntent, validate_intrinsic, validate_for_policy, validate_exit,
  validate_brackets_against_fill, require_trimmed_intent_id, require_canonical_utc,
  require_direction, require_optional_label,
}
use zorqen_research.Backtest.Engine.{
  OpenPosition, normalized_error, stop_on_tick, target_on_tick, execute_entry, execute_exit,
}

-- The errors that the guards of the loop raise.
abbrev pub is_conflict : BacktestError → Bool
is_conflict (execution cannot_enter) = true
is_conflict (execution cannot_exit) = true
is_conflict _ = false

abbrev pub clashes : {A : Type 0} → Result BacktestError A → Bool
clashes (ok a) = false
clashes (err e) = is_conflict e

pub clashes_bind :
    {A B : Type 0} (m : Result BacktestError A) (f : A → Result BacktestError B)
    → clashes m ≡ false
    → ((a : A) → m ≡ ok a → clashes (f a) ≡ false)
    → clashes (m >>= f) ≡ false
clashes_bind (ok a) f h k = k a refl
clashes_bind (err e) f h k = h

pub clashes_raise :
    {B : Type 0} (test : Bool) (e : BacktestError) (k : Result BacktestError B)
    → is_conflict e ≡ false
    → (test ≡ false → clashes k ≡ false)
    → clashes (raise_if test e >> k) ≡ false
clashes_raise true e k h i = h
clashes_raise false e k h i = i refl

price_safe : (field : Field) (n : Number) → clashes (require_positive_price field n) ≡ false
unfolding require_positive_price
price_safe field n = ground arith

brackets_safe :
    (intent : EnterIntent) (d : Decimal) → clashes (validate_brackets_against_fill intent d) ≡ false
unfolding validate_brackets_against_fill
brackets_safe intent d = ground arith

intrinsic_safe : (r : RawEnter) → clashes (validate_intrinsic r) ≡ false
unfolding validate_intrinsic require_trimmed_intent_id require_canonical_utc require_direction
    require_optional_label require_finite_decimal
intrinsic_safe r =
    ground (arith, price_safe stop_price r.stop_loss, price_safe target_price r.take_profit)

aligned_safe :
    (ctx : Context) (n : Number) (a b : Decimal)
    → clashes (assert_quantity_aligned ctx n a b) ≡ false
unfolding assert_quantity_aligned is_quantity_aligned
aligned_safe ctx n a b = ground arith

pub policy_safe :
    (ctx : Context) (policy : BacktestPolicy) (r : RawEnter)
    → clashes (validate_for_policy ctx policy r) ≡ false
unfolding validate_for_policy
policy_safe ctx policy r = ground (
  arith,
  intrinsic_safe r,
  aligned_safe ctx r.quantity policy.quantity_step policy.minimum_quantity,
)

pub exit_safe : (r : RawExit) → clashes (validate_exit r) ≡ false
unfolding validate_exit require_trimmed_intent_id require_canonical_utc require_optional_label
exit_safe r = ground arith

module _ (ctx : Context) (policy : BacktestPolicy) where
  normalized_safe : (d : PositionDirection) → is_conflict (normalized_error d) ≡ false
  normalized_safe long = refl
  normalized_safe short = refl

  pub entry_safe :
      (intent : EnterIntent) (candle : Candle) (i n m : ℕ) (equity : Decimal)
      → clashes (execute_entry ctx policy intent candle i n m equity) ≡ false
  unfolding execute_entry
  entry_safe intent candle i n m equity =
      clashes_bind (require_positive_price fill_price _) _ (price_safe fill_price _) (λ price _.
        ground (
          arith,
          brackets_safe intent price,
          price_safe stop_price
              (finite (stop_on_tick ctx policy intent.direction intent.stop_loss)),
          price_safe target_price
              (finite (target_on_tick ctx policy intent.direction intent.take_profit)),
          normalized_safe intent.direction,
        ))

  pub exit_fill_safe :
      (p : OpenPosition) (id : Option Text) (candle : Candle) (i n k : ℕ) (reason : FillReason)
      (reference equity : Decimal) (ambiguous : Bool)
      → clashes (execute_exit ctx policy p id candle i n k reason reference equity ambiguous)
        ≡ false
  unfolding execute_exit
  exit_fill_safe p id candle i n k reason reference equity ambiguous =
      clashes_bind (require_positive_price fill_price _) _ (price_safe fill_price _)
        (λ price _. refl)
