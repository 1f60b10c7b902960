-- ===== src/Market/Candle/Invariant.antt =====
-- The values that the constructor of `Candle` (src/zorqen_research/domain/candles.py) accepts.
use zorqen_research.Base.{◌≤◌, ◌≡◌, true, false, arith, ok, >>=-eq-ok}
use zorqen_research.Decimal.{Decimal, le, lt, is_negative}
use zorqen_research.Decimal.Order.{le_trans, le_total}
use zorqen_research.Market.Candle.{
  Candle, RawCandle, check_values, make_candle, read_fields, arguments, max_of, min_of,
}

pub record IsCandle (c : Candle) : Type 0 where
  pub ordered : c.open_time ≤ c.close_time
  pub low-le-open : le c.low c.open_price ≡ true
  pub low-le-close : le c.low c.close ≡ true
  pub low-le-high : le c.low c.high ≡ true
  pub open-le-high : le c.open_price c.high ≡ true
  pub close-le-high : le c.close c.high ≡ true
  pub volume_nonneg : is_negative c.volume ≡ false
  pub quote_nonneg : is_negative c.quote_asset_volume ≡ false
  pub taker_base_nonneg : is_negative c.taker_buy_base_volume ≡ false
  pub taker_quote_nonneg : is_negative c.taker_buy_quote_volume ≡ false

pub max_of-le : (a b h : Decimal) → le (max_of a b) h ≡ true → (le a h ≡ true) × (le b h ≡ true)
unfolding lt
max_of-le a b h p = ground (arith, le_trans b a h, le_trans a b h, le_total b a)

pub le-min_of : (a b l : Decimal) → le l (min_of a b) ≡ true → (le l a ≡ true) × (le l b ≡ true)
unfolding lt
le-min_of a b l p = ground (arith, le_trans l a b, le_trans l b a, le_total a b)

not-lt→le : (a b : Decimal) → lt b a ≡ false → le a b ≡ true
unfolding lt
not-lt→le a b h = ground arith

check_values-IsCandle :
    (c : Candle) → c.open_time ≤ c.close_time → check_values c ≡ ok tt → IsCandle c
unfolding check_values
check_values-IsCandle c o h = ground (
  arith,
  max_of-le (max_of c.open_price c.close) c.low c.high,
  max_of-le c.open_price c.close c.high,
  le-min_of (min_of c.open_price c.close) c.high c.low,
  le-min_of c.open_price c.close c.low,
  not-lt→le (max_of (max_of c.open_price c.close) c.low) c.high,
  not-lt→le c.low (min_of (min_of c.open_price c.close) c.high),
)

IsCandle-check_values : (c : Candle) → IsCandle c → check_values c ≡ ok tt
unfolding check_values lt
IsCandle-check_values c v = ground arith

read_fields-ordered :
    (r : RawCandle) {c : Candle} → read_fields r ≡ ok c → c.open_time ≤ c.close_time
unfolding read_fields
read_fields-ordered r {c} h = ground arith

-- Every candle that the constructor returns is in order: its times, its prices within [low, high],
-- and its volumes.
pub make_candle-IsCandle : (r : RawCandle) {c : Candle} → make_candle r ≡ ok c → IsCandle c
unfolding make_candle
make_candle-IsCandle r {c} h =
    let (d, read, rest) = >>=-eq-ok (read_fields r) _ h in
    let (_, checked, same) = >>=-eq-ok (check_values d) _ rest in
    let e : d ≡ c = cc in rw (← e) (check_values-IsCandle d (read_fields-ordered r read) checked)

-- A candle that is in order is returned by the constructor from its own values.
pub make_candle-arguments : (c : Candle) → IsCandle c → make_candle (arguments c) ≡ ok c
unfolding make_candle read_fields
make_candle-arguments c v = ground (arith, IsCandle-check_values c v, v.ordered)
