-- ===== src/Backtest/Result/Guards.antt =====
-- The guards of the loop, seen from a whole run.
use zorqen_research.Base.{
  ℕ, ◌+◌, ◌-◌, ◌≡◌, refl, false, Option, none, some, List, [], ◌∷◌, length, last_of, arith,
}
use zorqen_research.Decimal.{Context}
use zorqen_research.Time.{Timeframe, timeframe_duration}
use Prim.Native.String.{String}
use zorqen_research.Market.Candle.{Candle}
use zorqen_research.Backtest.{validation, input_hash_mismatch, end_of_data}
use zorqen_research.Backtest.Policy.{BacktestPolicy}
use zorqen_research.Backtest.Engine.{OpenPosition}
use zorqen_research.Backtest.Run.{DecisionContext, Output, RunState, run_from}
use zorqen_research.Backtest.Run.Conflicts.{clashes, clashes_bind, clashes_raise}
use zorqen_research.Backtest.Run.Fits.{run_from-clashes, close_position_safe}
use zorqen_research.Backtest.Summary.{
  check_follows, check_candle, check_candles, validate_candles, BacktestResult, initial_state,
  close_at_end,
}
use zorqen_research.Backtest.Result.{close_last, mismatch, run}

follows_safe : (d i : ℕ) (o : Option ℕ) (t : ℕ) → clashes (check_follows d i o t) ≡ false
unfolding check_follows
follows_safe d i none t = refl
follows_safe d i (some p) t = ground arith

candle_safe :
    (tf : Timeframe) (i : ℕ) (o : Option ℕ) (c : Candle) → clashes (check_candle tf i o c) ≡ false
unfolding check_candle
candle_safe tf i o c = ground (arith, follows_safe (timeframe_duration tf) i o c.open_time)

candles_safe :
    (tf : Timeframe) (i : ℕ) (o : Option ℕ) (cs : List Candle)
    → clashes (check_candles tf i o cs) ≡ false
unfolding check_candles
candles_safe tf i o [] = refl
candles_safe tf i o (c ∷ cs) =
    clashes_bind (check_candle tf i o c) _ (candle_safe tf i o c)
      (λ _ _. candles_safe tf (i + 1) (some c.open_time) cs)

validation_safe : (tf : Timeframe) (cs : List Candle) → clashes (validate_candles tf cs) ≡ false
unfolding validate_candles
validation_safe tf [] = refl
validation_safe tf (c ∷ cs) =
    clashes_bind (check_candles tf 0 none (c ∷ cs)) _ (candles_safe tf 0 none (c ∷ cs))
      (λ _ _. refl)

module _ (ctx : Context) (policy : BacktestPolicy) where
  end_safe :
      {S : Type 0} (s : RunState S) (o : Option OpenPosition) (c : Candle) (i : ℕ)
      → clashes (close_at_end ctx policy s o c i) ≡ false
  unfolding close_at_end
  end_safe s none c i = refl
  end_safe s (some p) c i =
      ground (arith, close_position_safe ctx policy s p none c i end_of_data c.close false)

  last_safe :
      {S : Type 0} (s : RunState S) (cs : List Candle)
      → clashes (close_last ctx policy s cs) ≡ false
  unfolding close_last
  last_safe s [] = refl
  last_safe s (c ∷ cs) = end_safe s s.position (last_of c cs) (length (c ∷ cs) - 1)

  -- No run raises "Cannot enter while a position is open" nor "Cannot exit while flat", whatever
  -- the candles are and whatever the provider returns.
  pub run-clashes :
      {S : Type 0} (on_bar_close : S → DecisionContext → Output × S) (symbol : String)
      (timeframe : Timeframe) (hash_candles : List Candle → String)
      (hash_policy : BacktestPolicy → String) (hash_result : BacktestResult → String) (provider : S)
      (candles : List Candle) (expected : Option String)
      → clashes (
          run ctx policy on_bar_close symbol timeframe hash_candles hash_policy hash_result provider
            candles expected)
        ≡ false
  unfolding run
  run-clashes on_bar_close symbol timeframe hash_candles hash_policy hash_result provider candles
        expected =
      clashes_bind (validate_candles timeframe candles) _ (validation_safe timeframe candles)
        (λ cs _.
          clashes_raise {B = BacktestResult} (mismatch expected (hash_candles cs))
            (validation input_hash_mismatch) _ refl
            (λ _.
              clashes_bind
                (run_from ctx policy on_bar_close symbol timeframe
                  (initial_state ctx policy provider) 0 cs)
                _
                (run_from-clashes ctx policy on_bar_close symbol timeframe
                  (initial_state ctx policy provider) 0 cs refl)
                (λ s _.
                  clashes_bind (close_last ctx policy s cs) _ (last_safe s cs) (λ _ _. refl))))
