-- ===== src/Backtest/Summary/Grid.antt =====
-- The series that `_validate_candles` accepts.
use zorqen_research.Base.{
  ℕ, ◌+◌, ◌≡◌, refl, sym, subst, true, none, some, List, [], ◌∷◌, ok, >>=-eq-ok, ok_inj, arith,
}
use zorqen_research.Time.{Timeframe, timeframe_duration, is_aligned}
use zorqen_research.Time.Floor.{timeframe_duration_pos}
use zorqen_research.Market.Candle.{Candle}
use zorqen_research.Market.Series.{expected_close}
use zorqen_research.Market.Series.Grid.{IsGrid, aligned_next}
use zorqen_research.Backtest.Summary.{check_follows, check_candle, check_candles, validate_candles}

follow-eq-ok :
    (tf : Timeframe) (i p : ℕ) (c : Candle) {u : Unit {0}}
    → check_candle tf i (some p) c ≡ ok u
    → (c.open_time ≡ p + timeframe_duration tf)
      × (c.close_time ≡ expected_close (p + timeframe_duration tf) tf)
unfolding check_candle check_follows
follow-eq-ok tf i p c h = ground arith

first-eq-ok :
    (tf : Timeframe) (i : ℕ) (c : Candle) {u : Unit {0}}
    → check_candle tf i none c ≡ ok u
    → (is_aligned c.open_time tf ≡ true) × (c.close_time ≡ expected_close c.open_time tf)
unfolding check_candle check_follows
first-eq-ok tf i c h = ground arith

check_candles-IsGrid :
    (tf : Timeframe) (i p : ℕ) (cs : List Candle) {u : Unit {0}}
    → check_candles tf i (some p) cs ≡ ok u
    → IsGrid tf (p + timeframe_duration tf) cs
unfolding check_candles
check_candles-IsGrid tf i p [] h = tt
check_candles-IsGrid tf i p (c ∷ cs) h =
    let (_, head, rest) = >>=-eq-ok (check_candle tf i (some p) c) _ h in
    let (opens, closes) = follow-eq-ok tf i p c head in
    (
      opens,
      closes,
      subst (λ t. IsGrid tf (t + timeframe_duration tf) cs) opens
          (check_candles-IsGrid tf (i + 1) c.open_time cs rest),
    )

IsGrid-check_candle :
    (tf : Timeframe) (i p : ℕ) (c : Candle)
    → is_aligned c.open_time tf ≡ true
    → c.open_time ≡ p + timeframe_duration tf
    → c.close_time ≡ expected_close c.open_time tf
    → check_candle tf i (some p) c ≡ ok tt
unfolding check_candle check_follows
IsGrid-check_candle tf i p c aligned opens closes = ground (arith, timeframe_duration_pos tf)

IsGrid-check_candles :
    (tf : Timeframe) (i p : ℕ) (cs : List Candle)
    → is_aligned p tf ≡ true
    → IsGrid tf (p + timeframe_duration tf) cs
    → check_candles tf i (some p) cs ≡ ok tt
unfolding check_candles
IsGrid-check_candles tf i p [] aligned g = refl
IsGrid-check_candles tf i p (c ∷ cs) aligned g =
    let aligned_here = aligned_next tf p c.open_time aligned g.0 in
    let closes : c.close_time ≡ expected_close c.open_time tf = rw g.0 g.1 in
    rw (IsGrid-check_candle tf i p c aligned_here g.0 closes) (
      IsGrid-check_candles tf (i + 1) c.open_time cs aligned_here
        (subst (λ t. IsGrid tf (t + timeframe_duration tf) cs) (sym g.0) g.2))

IsGrid-check_first :
    (tf : Timeframe) (c : Candle)
    → is_aligned c.open_time tf ≡ true
    → c.close_time ≡ expected_close c.open_time tf
    → check_candle tf 0 none c ≡ ok tt
unfolding check_candle check_follows
IsGrid-check_first tf c aligned closes = ground arith

-- What the engine accepts is a series on the grid of its timeframe.
pub validate_candles-IsGrid :
    (tf : Timeframe) (c : Candle) (cs : List Candle) {out : List Candle}
    → validate_candles tf (c ∷ cs) ≡ ok out
    → (out ≡ c ∷ cs) × (is_aligned c.open_time tf ≡ true) × IsGrid tf c.open_time (c ∷ cs)
unfolding validate_candles check_candles
validate_candles-IsGrid tf c cs h =
    let (_, checked, same) = >>=-eq-ok (check_candles tf 0 none (c ∷ cs)) _ h in
    let (_, head, rest) = >>=-eq-ok (check_candle tf 0 none c) _ checked in
    let (aligned, closes) = first-eq-ok tf 0 c head in
    (sym (ok_inj same), aligned, (refl, closes, check_candles-IsGrid tf 1 c.open_time cs rest))

pub IsGrid-validate_candles :
    (tf : Timeframe) (c : Candle) (cs : List Candle)
    → is_aligned c.open_time tf ≡ true
    → IsGrid tf c.open_time (c ∷ cs)
    → validate_candles tf (c ∷ cs) ≡ ok (c ∷ cs)
unfolding validate_candles check_candles
IsGrid-validate_candles tf c cs aligned g =
    rw (IsGrid-check_first tf c aligned g.1, IsGrid-check_candles tf 1 c.open_time cs aligned g.2)
      refl
