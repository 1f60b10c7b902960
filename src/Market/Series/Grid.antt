-- ===== src/Market/Series/Grid.antt =====
-- The series that `require_canonical_series` accepts, as slots of the grid of a timeframe.
use zorqen_research.Base.{ℕ, ◌+◌, ◌≡◌, refl, true, none, some, List, [], ◌∷◌, ok, >>=-eq-ok, arith}
use zorqen_research.Base.Mod.{add-mod_zero}
use mathlib.Core.Path.{subst, sym}
use zorqen_research.Time.{Timeframe, timeframe_duration, is_aligned}
use zorqen_research.Time.Floor.{timeframe_duration_pos, is_aligned→mod, mod→is_aligned}
use zorqen_research.Market.Candle.{Candle}
use zorqen_research.Market.Series.{
  expected_close, check_candle, check_series, require_canonical_series,
}

-- The candles open at `t`, `t + duration`, and so on, and each closes one millisecond before the
-- next opens.
abbrev pub IsGrid : Timeframe → ℕ → List Candle → Type 0
IsGrid tf t [] = Unit
IsGrid tf t (c ∷ cs) =
    (c.open_time ≡ t)
    × (c.close_time ≡ expected_close t tf)
    × IsGrid tf (t + timeframe_duration tf) cs

-- The tests on one candle after another, put together.
check_candle-eq-ok :
    (tf : Timeframe) (i previous : ℕ) (c : Candle) {u : Unit {0}}
    → check_candle tf i (some previous) c ≡ ok u
    → (c.open_time ≡ previous + timeframe_duration tf)
      × (c.close_time ≡ expected_close (previous + timeframe_duration tf) tf)
unfolding check_candle
check_candle-eq-ok tf i previous c h = ground arith

check_candle_first :
    (tf : Timeframe) (i : ℕ) (c : Candle) {u : Unit {0}}
    → check_candle tf i none c ≡ ok u
    → (is_aligned c.open_time tf ≡ true) × (c.close_time ≡ expected_close c.open_time tf)
unfolding check_candle
check_candle_first tf i c h = ground arith

check_series-IsGrid :
    (tf : Timeframe) (i previous : ℕ) (cs : List Candle) {u : Unit {0}}
    → check_series tf i (some previous) cs ≡ ok u
    → IsGrid tf (previous + timeframe_duration tf) cs
unfolding check_series
check_series-IsGrid tf i previous [] h = tt
check_series-IsGrid tf i previous (c ∷ cs) h =
    let (_, head, rest) = >>=-eq-ok (check_candle tf i (some previous) c) _ h in
    let (opens, closes) = check_candle-eq-ok tf i previous c head in
    (
      opens,
      closes,
      subst (λ t. IsGrid tf (t + timeframe_duration tf) cs) opens
          (check_series-IsGrid tf (i + 1) c.open_time cs rest),
    )

check_series_first :
    (tf : Timeframe) (c : Candle) (cs : List Candle) {u : Unit {0}}
    → check_series tf 0 none (c ∷ cs) ≡ ok u
    → (is_aligned c.open_time tf ≡ true)
      × (c.close_time ≡ expected_close c.open_time tf)
      × IsGrid tf (c.open_time + timeframe_duration tf) cs
unfolding check_series
check_series_first tf c cs h =
    let (_, head, rest) = >>=-eq-ok (check_candle tf 0 none c) _ h in
    let (aligned, closes) = check_candle_first tf 0 c head in
    (aligned, closes, check_series-IsGrid tf 1 c.open_time cs rest)

-- Only consecutive aligned candles pass: the series starts on a boundary of the timeframe and
-- fills its grid with no gap, no duplicate and no candle out of order.
pub require_canonical_series-IsGrid :
    (tf : Timeframe) (c : Candle) (cs : List Candle) {out : List Candle}
    → require_canonical_series tf (c ∷ cs) ≡ ok out
    → (out ≡ c ∷ cs) × (is_aligned c.open_time tf ≡ true) × IsGrid tf c.open_time (c ∷ cs)
unfolding require_canonical_series
require_canonical_series-IsGrid tf c cs h =
    let (_, checked, same) = >>=-eq-ok (check_series tf 0 none (c ∷ cs)) _ h in
    let (aligned, closes, rest) = check_series_first tf c cs checked in
    (cc, aligned, (refl, closes, rest))

check_candle_on_grid :
    (tf : Timeframe) (i previous : ℕ) (c : Candle)
    → is_aligned c.open_time tf ≡ true
    → c.open_time ≡ previous + timeframe_duration tf
    → c.close_time ≡ expected_close c.open_time tf
    → check_candle tf i (some previous) c ≡ ok tt
unfolding check_candle
check_candle_on_grid tf i previous c a o k = ground (arith, timeframe_duration_pos tf)

pub aligned_next :
    (tf : Timeframe) (t u : ℕ)
    → is_aligned t tf ≡ true
    → u ≡ t + timeframe_duration tf
    → is_aligned u tf ≡ true
aligned_next tf t u a e = mod→is_aligned u tf (
    rw e
      (add-mod_zero t (timeframe_duration tf) (timeframe_duration_pos tf) (is_aligned→mod t tf a)))

IsGrid-check_series :
    (tf : Timeframe) (i previous : ℕ) (cs : List Candle)
    → is_aligned previous tf ≡ true
    → IsGrid tf (previous + timeframe_duration tf) cs
    → check_series tf i (some previous) cs ≡ ok tt
unfolding check_series
IsGrid-check_series tf i previous [] a g = refl
IsGrid-check_series tf i previous (c ∷ cs) a g =
    let aligned = aligned_next tf previous c.open_time a g.0 in
    let closes : c.close_time ≡ expected_close c.open_time tf = rw g.0 g.1 in
    rw (check_candle_on_grid tf i previous c aligned g.0 closes) (
      IsGrid-check_series tf (i + 1) c.open_time cs aligned
        (subst (λ t. IsGrid tf (t + timeframe_duration tf) cs) (sym g.0) g.2))

check_candle_at_start :
    (tf : Timeframe) (c : Candle)
    → is_aligned c.open_time tf ≡ true
    → c.close_time ≡ expected_close c.open_time tf
    → check_candle tf 0 none c ≡ ok tt
unfolding check_candle
check_candle_at_start tf c a k = ground arith

-- Every series that starts on a boundary and fills the grid of its timeframe is accepted and returned
-- as it is.
pub IsGrid-require_canonical_series :
    (tf : Timeframe) (c : Candle) (cs : List Candle)
    → is_aligned c.open_time tf ≡ true
    → IsGrid tf c.open_time (c ∷ cs)
    → require_canonical_series tf (c ∷ cs) ≡ ok (c ∷ cs)
unfolding require_canonical_series check_series
IsGrid-require_canonical_series tf c cs a g =
    rw (check_candle_at_start tf c a g.1, IsGrid-check_series tf 1 c.open_time cs a g.2)
