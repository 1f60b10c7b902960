-- ===== src/Market/Candle.antt =====
-- The candle: src/zorqen_research/domain/candles.py.
pub mod Invariant
use zorqen_research.Base.{
  ℕ, ◌≤◌, Bool, true, false, ◌≡◌, ltb, Result, ok, err, ◌>>=◌, ◌>>◌, raise_if, not, if◌then◌else◌,
}
use zorqen_research.Base.Int.{ℤ, pos, negsuc, eq_ℤ}
use zorqen_research.Decimal.{Decimal, lt, is_negative}
use zorqen_research.Time.{DateTime, naive, aware}

-- The fields by which the messages name a value.
pub data Field : Type 0 where
  open_time close_time : Field
  open_price high_price low_price close_price : Field
  volume quote_asset_volume taker_buy_base_volume taker_buy_quote_volume : Field

-- A value where a Decimal is wanted: a finite one, NaN or an infinity, or another type.
pub data Number : Type 0 where
  finite : Decimal → Number
  not_finite not_decimal : Number

-- A value where an int is wanted; a bool counts as another type.
pub data Count : Type 0 where
  int : ℤ → Count
  not_int : Count

pub data CandleError : Type 0 where
  not_aware not_utc must_be_decimal must_be_finite must_be_nonnegative : Field → CandleError
  close_before_open count_not_int count_negative high_below_prices low_above_prices : CandleError

-- A value of the class: UTC instants and finite decimals, since `__post_init__` lets no other pass.
pub record Candle : Type 0 where
  pub open_time : ℕ
  pub open_price : Decimal
  pub high : Decimal
  pub low : Decimal
  pub close : Decimal
  pub volume : Decimal
  pub close_time : ℕ
  pub quote_asset_volume : Decimal
  pub trade_count : ℕ
  pub taker_buy_base_volume : Decimal
  pub taker_buy_quote_volume : Decimal

-- The arguments of the constructor.
pub record RawCandle : Type 0 where
  pub open_time : DateTime
  pub open_price : Number
  pub high : Number
  pub low : Number
  pub close : Number
  pub volume : Number
  pub close_time : DateTime
  pub quote_asset_volume : Number
  pub trade_count : Count
  pub taker_buy_base_volume : Number
  pub taker_buy_quote_volume : Number

-- `_require_canonical_utc`
unfoldable pub require_canonical_utc : Field → DateTime → Result CandleError ℕ
require_canonical_utc field (naive wall) = err (not_aware field)
require_canonical_utc field (aware utc offset) =
    if eq_ℤ offset (pos 0) then ok utc else err (not_utc field)

unfoldable pub require_count : Count → Result CandleError ℕ
require_count not_int = err count_not_int
require_count (int (pos n)) = ok n
require_count (int (negsuc n)) = err count_negative

-- One round of the loop over the eight Decimal fields.
unfoldable pub require_decimal : Field → Number → Result CandleError Decimal
require_decimal field not_decimal = err (must_be_decimal field)
require_decimal field not_finite = err (must_be_finite field)
require_decimal field (finite d) = ok d

-- Python's `max` and `min` of two, which keep the first of equals.
abbrev pub max_of : Decimal → Decimal → Decimal
max_of a b = if lt a b then b else a

abbrev pub min_of : Decimal → Decimal → Decimal
min_of a b = if lt b a then b else a

-- The tests on the values themselves, in the order of the code.
unfoldable pub check_values : Candle → Result CandleError (Unit {0})
check_values c = do
  raise_if (lt c.high (max_of (max_of c.open_price c.close) c.low)) high_below_prices
  raise_if (lt (min_of (min_of c.open_price c.close) c.high) c.low) low_above_prices
  raise_if (is_negative c.volume) (must_be_nonnegative volume)
  raise_if (is_negative c.quote_asset_volume) (must_be_nonnegative quote_asset_volume)
  raise_if (is_negative c.taker_buy_base_volume) (must_be_nonnegative taker_buy_base_volume)
  raise_if (is_negative c.taker_buy_quote_volume) (must_be_nonnegative taker_buy_quote_volume)

-- The tests on the types of the arguments and on the times.
unfoldable pub read_fields : RawCandle → Result CandleError Candle
unfolding require_canonical_utc require_count require_decimal
read_fields r = do
  opened ← require_canonical_utc open_time r.open_time
  closed ← require_canonical_utc close_time r.close_time
  raise_if (ltb closed opened) close_before_open
  trades ← require_count r.trade_count
  o ← require_decimal open_price r.open_price
  h ← require_decimal high_price r.high
  l ← require_decimal low_price r.low
  c ← require_decimal close_price r.close
  v ← require_decimal volume r.volume
  q ← require_decimal quote_asset_volume r.quote_asset_volume
  tb ← require_decimal taker_buy_base_volume r.taker_buy_base_volume
  tq ← require_decimal taker_buy_quote_volume r.taker_buy_quote_volume
  ok (record {
    open_time = opened;
    open_price = o;
    high = h;
    low = l;
    close = c;
    volume = v;
    close_time = closed;
    quote_asset_volume = q;
    trade_count = trades;
    taker_buy_base_volume = tb;
    taker_buy_quote_volume = tq;
  })

-- The constructor with its `__post_init__`.
unfoldable pub make_candle : RawCandle → Result CandleError Candle
make_candle r = do candle ← read_fields r; check_values candle; ok candle

-- The arguments with which a candle's own values are passed to the constructor.
abbrev pub arguments : Candle → RawCandle
arguments c = record {
  open_time = aware c.open_time (pos 0);
  open_price = finite c.open_price;
  high = finite c.high;
  low = finite c.low;
  close = finite c.close;
  volume = finite c.volume;
  close_time = aware c.close_time (pos 0);
  quote_asset_volume = finite c.quote_asset_volume;
  trade_count = int (pos c.trade_count);
  taker_buy_base_volume = finite c.taker_buy_base_volume;
  taker_buy_quote_volume = finite c.taker_buy_quote_volume;
}
