-- ===== src/Backtest/Run/NextBar.antt =====
-- The loop on a grid of candles: decisions on a bar, fills on the next.
use zorqen_research.Base.{ℕ, ◌+◌, ◌≡◌, List, [], ◌∷◌, ok}
use zorqen_research.Decimal.{Context}
use zorqen_research.Time.{Timeframe}
use Prim.Native.String.{String}
use zorqen_research.Market.Candle.{Candle}
use zorqen_research.Backtest.Policy.{BacktestPolicy}
use zorqen_research.Backtest.Run.{DecisionContext, Output, RunState, step}
use zorqen_research.Backtest.Run.Timing.{IsDecided, IsNextBar}
use zorqen_research.Backtest.Run.Dated.{MadeOn, Adds}

-- The state between two bars, the second of which opens at `u`.
abbrev pub IsReady : {S : Type 0} → ℕ → ℕ → RunState S → Type 0
IsReady d u s = IsDecided d u s.pending × IsNextBar d s.position

module _ {S : Type 0} (ctx : Context) (policy : BacktestPolicy)
    (on_bar_close : S → DecisionContext → Output × S) (symbol : String)
    (timeframe : Timeframe) where
  -- Bar by bar from `s` to the state after the last candle: the fills that each bar adds.
  abbrev pub FillsByBar : ℕ → RunState S → ℕ → List Candle → RunState S → Type 0
  FillsByBar d s i [] last = s ≡ last
  FillsByBar d s i (c ∷ cs) last =
      (s' : RunState S) × (step ctx policy on_bar_close symbol timeframe s c i ≡ ok s')
      × Adds (MadeOn d s.pending c) s.fills s'.fills
      × FillsByBar d s' (i + 1) cs last
