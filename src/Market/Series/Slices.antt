-- ===== src/Market/Series/Slices.antt =====
-- Slices of a series that fills a grid.
use zorqen_research.Base.{
  ℕ, zero, suc, ◌+◌, ◌*◌, ◌≡◌, List, [], ◌∷◌, arith, length, take, drop, All, last_of,
}
use mathlib.Core.Path.{subst}
use zorqen_research.Time.{Timeframe, timeframe_duration}
use zorqen_research.Market.Candle.{Candle}
use zorqen_research.Market.Series.{expected_close}
use zorqen_research.Market.Series.Grid.{IsGrid}

pub All-take {ℓ κ} :
    {A : Type ℓ} (P : A → Type κ) (n : ℕ) (xs : List A) → All P xs → All P (take n xs)
All-take P zero xs h = tt
All-take P (suc n) [] h = tt
All-take P (suc n) (x ∷ xs) h = (h.0, All-take P n xs h.1)

pub All-drop {ℓ κ} :
    {A : Type ℓ} (P : A → Type κ) (n : ℕ) (xs : List A) → All P xs → All P (drop n xs)
All-drop P zero xs h = h
All-drop P (suc n) [] h = tt
All-drop P (suc n) (x ∷ xs) h = All-drop P n xs h.1

pub IsGrid-take :
    (tf : Timeframe) (t n : ℕ) (cs : List Candle) → IsGrid tf t cs → IsGrid tf t (take n cs)
IsGrid-take tf t zero cs g = tt
IsGrid-take tf t (suc n) [] g = tt
IsGrid-take tf t (suc n) (c ∷ cs) g =
    (g.0, g.1, IsGrid-take tf (t + timeframe_duration tf) n cs g.2)

pub IsGrid-drop :
    (tf : Timeframe) (t n : ℕ) (cs : List Candle)
    → IsGrid tf t cs
    → IsGrid tf (t + n * timeframe_duration tf) (drop n cs)
IsGrid-drop tf t zero cs g = subst (λ u. IsGrid tf u cs) (omega arith) g
IsGrid-drop tf t (suc n) [] g = tt
IsGrid-drop tf t (suc n) (c ∷ cs) g =
    let d = timeframe_duration tf in
    let e : t + d + n * d ≡ t + suc n * d = omega arith in
    subst (λ u. IsGrid tf u (drop n cs)) e (IsGrid-drop tf (t + d) n cs g.2)

-- The last candle of the grid.
pub last-IsGrid :
    (tf : Timeframe) (t : ℕ) (c : Candle) (cs : List Candle)
    → IsGrid tf t (c ∷ cs)
    → ((last_of c cs).open_time ≡ t + length cs * timeframe_duration tf)
      × ((last_of c cs).close_time ≡ expected_close (t + length cs * timeframe_duration tf) tf)
last-IsGrid tf t c [] g = (omega (arith, g.0), omega (arith, g.1))
last-IsGrid tf t c (b ∷ cs) g =
    let d = timeframe_duration tf in
    let (opens, closes) = last-IsGrid tf (t + d) b cs g.2 in
    (omega (arith, opens), omega (arith, closes))
