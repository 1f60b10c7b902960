-- ===== src/Backtest/Intent.antt =====
-- Intents and their validation: src/zorqen_research/domain/backtesting/intents.py.
pub mod Laws
use zorqen_research.Base.{
  ℕ, Bool, false, ◌&&◌, ◌||◌, not, leb, ◌==◌, [], ◌∷◌, last_of, Result, ok, ◌>>=◌, ◌>>◌, raise_if,
}
use zorqen_research.Base.Int.{pos, eq_ℤ}
use zorqen_research.Decimal.{Decimal, Context, lt, is_positive}
use zorqen_research.Time.{DateTime, naive, aware}
use zorqen_research.Market.Candle.{Number, finite}
use zorqen_research.Backtest.{
  Text, PositionDirection, long, short, quantity, fill_price, stop_price, target_price,
  BacktestError, validation, must_be_positive, bad_intent_id, not_a_datetime, not_aware, not_utc,
  not_a_direction, bad_label, long_brackets, short_brackets,
}
use zorqen_research.Backtest.Rules.{
  refuse, require_finite_decimal, require_positive_price, assert_quantity_aligned,
}
use zorqen_research.Backtest.Policy.{BacktestPolicy}

-- The attributes of an intent, as a provider may have set them.
pub data TextValue : Type 0 where
  text : Text → TextValue
  not_text : TextValue

pub data TimeValue : Type 0 where
  datetime : DateTime → TimeValue
  not_datetime : TimeValue

-- A member of the enum, a plain text that is the value of one, or anything else.
pub data DirectionValue : Type 0 where
  direction : PositionDirection → DirectionValue
  text_direction : PositionDirection → DirectionValue
  not_direction : DirectionValue

pub data LabelValue : Type 0 where
  no_label not_label : LabelValue
  label : Text → LabelValue

pub record RawEnter : Type 0 where
  pub intent_id : TextValue
  pub decision_open_time : TimeValue
  pub direction : DirectionValue
  pub quantity : Number
  pub stop_loss : Number
  pub take_profit : Number
  pub label : LabelValue

pub record RawExit : Type 0 where
  pub intent_id : TextValue
  pub decision_open_time : TimeValue
  pub label : LabelValue

-- What has passed the validation.
pub record EnterIntent : Type 0 where
  pub intent_id : Text
  pub decision_open_time : ℕ
  pub direction : PositionDirection
  pub quantity : Decimal
  pub stop_loss : Decimal
  pub take_profit : Decimal

pub record ExitIntent : Type 0 where
  pub intent_id : Text
  pub decision_open_time : ℕ

pub data BacktestIntent : Type 0 where
  enter : EnterIntent → BacktestIntent
  exit : ExitIntent → BacktestIntent

-- The code points for which `str.isspace` holds: those that `strip` takes off.
unfoldable pub is_space : ℕ → Bool
is_space c =
    (leb 9 c && leb c 13)
    || (leb 28 c && leb c 32)
    || c == 133
    || c == 160
    || c == 5760
    || (leb 8192 c && leb c 8202)
    || c == 8232
    || c == 8233
    || c == 8239
    || c == 8287
    || c == 12288

-- Neither empty nor with a space at an end.
unfoldable pub is_trimmed : Text → Bool
unfolding is_space
is_trimmed [] = false
is_trimmed (c ∷ cs) = not (is_space c) && not (is_space (last_of c cs))

unfoldable pub require_trimmed_intent_id : TextValue → Result BacktestError Text
unfolding is_trimmed
require_trimmed_intent_id not_text = refuse bad_intent_id
require_trimmed_intent_id (text t) =
    raise_if (not (is_trimmed t)) (validation bad_intent_id) >> ok t

unfoldable pub require_canonical_utc : TimeValue → Result BacktestError ℕ
require_canonical_utc not_datetime = refuse not_a_datetime
require_canonical_utc (datetime (naive wall)) = refuse not_aware
require_canonical_utc (datetime (aware utc offset)) =
    raise_if (not (eq_ℤ offset (pos 0))) (validation not_utc) >> ok utc

unfoldable pub require_direction : DirectionValue → Result BacktestError PositionDirection
require_direction (direction d) = ok d
require_direction (text_direction d) = refuse not_a_direction
require_direction not_direction = refuse not_a_direction

unfoldable pub require_optional_label : LabelValue → Result BacktestError (Unit {0})
require_optional_label no_label = ok tt
require_optional_label (label t) = ok tt
require_optional_label not_label = refuse bad_label

-- `EnterIntent.validate_intrinsic`
unfoldable pub validate_intrinsic : RawEnter → Result BacktestError EnterIntent
validate_intrinsic r = do
  intent_id ← require_trimmed_intent_id r.intent_id
  time ← require_canonical_utc r.decision_open_time
  side ← require_direction r.direction
  size ← require_finite_decimal quantity r.quantity
  raise_if (not (is_positive size)) (validation (must_be_positive quantity))
  stop ← require_positive_price stop_price r.stop_loss
  target ← require_positive_price target_price r.take_profit
  require_optional_label r.label
  ok (record {
    intent_id = intent_id;
    decision_open_time = time;
    direction = side;
    quantity = size;
    stop_loss = stop;
    take_profit = target;
  })

-- `EnterIntent.validate_for_policy`
unfoldable pub validate_for_policy :
    Context → BacktestPolicy → RawEnter → Result BacktestError EnterIntent
validate_for_policy ctx policy r = do
  intent ← validate_intrinsic r
  aligned ← assert_quantity_aligned ctx r.quantity policy.quantity_step policy.minimum_quantity
  ok intent

-- `ExitIntent.validate`
unfoldable pub validate_exit : RawExit → Result BacktestError ExitIntent
validate_exit r = do
  intent_id ← require_trimmed_intent_id r.intent_id
  time ← require_canonical_utc r.decision_open_time
  require_optional_label r.label
  ok (record { intent_id = intent_id; decision_open_time = time })

-- `low < middle < high`
abbrev pub between : Decimal → Decimal → Decimal → Bool
between low middle high = lt low middle && lt middle high

-- A long position's stop lies below and its target above the price; a short one's the other way.
abbrev pub brackets : PositionDirection → (stop price target : Decimal) → Bool
brackets long stop price target = between stop price target
brackets short stop price target = between target price stop

abbrev pub bracket_error : PositionDirection → BacktestError
bracket_error long = validation long_brackets
bracket_error short = validation short_brackets

-- `EnterIntent.validate_brackets_against_fill`
unfoldable pub validate_brackets_against_fill :
    EnterIntent → Decimal → Result BacktestError (Unit {0})
unfolding require_positive_price
validate_brackets_against_fill intent price = do
  fill ← require_positive_price fill_price (finite price)
  stop ← require_positive_price stop_price (finite intent.stop_loss)
  target ← require_positive_price target_price (finite intent.take_profit)
  raise_if (not (brackets intent.direction stop fill target)) (bracket_error intent.direction)
