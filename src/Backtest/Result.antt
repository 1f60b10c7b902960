-- ===== src/Backtest/Result.antt =====
-- A whole run: `BacktestEngine.run` of src/zorqen_research/application/backtesting/engine.py. The
-- hashes of the candles, of the policy and of the result are functions that the run is given.
pub mod Ledger
pub mod Partition
pub mod Guards
use zorqen_research.Base.{
  ℕ, ◌-◌, Bool, true, false, not, Option, none, some, List, [], ◌∷◌, length, last_of, Result, ok,
  err, ◌>>=◌, ◌>>◌, raise_if,
}
use zorqen_research.Decimal.{Context}
use zorqen_research.Time.{Timeframe}
use Prim.Native.String.{String}
use text.Mathlib.Text.{◌==◌ as str_eq}
use zorqen_research.Market.Candle.{Candle}
use zorqen_research.Backtest.{
  BacktestError, execution, validation, input_hash_mismatch, open_at_end,
}
use zorqen_research.Backtest.Policy.{BacktestPolicy}
use zorqen_research.Backtest.Run.{Output, DecisionContext, RunState, run_from}
use zorqen_research.Backtest.Summary.{
  validate_candles, BacktestResult, unfilled_of, build_summary, initial_state, close_at_end,
}

abbrev pub mismatch : Option String → String → Bool
mismatch none input_hash = false
mismatch (some expected) input_hash = not (str_eq expected input_hash)

-- `candle_tuple[-1]` is asked for behind the validation, which refuses an empty sequence.
unfoldable pub close_last :
    {S : Type 0}
    → Context
    → BacktestPolicy
    → RunState S
    → List Candle
    → Result BacktestError (RunState S)
close_last ctx policy s [] = ok s
close_last ctx policy s (c ∷ cs) =
    close_at_end ctx policy s s.position (last_of c cs) (length (c ∷ cs) - 1)

module _ {S : Type 0} (ctx : Context) (policy : BacktestPolicy)
    (on_bar_close : S → DecisionContext → Output × S) (symbol : String) (timeframe : Timeframe)
    (hash_candles : List Candle → String) (hash_policy : BacktestPolicy → String)
    (hash_result : BacktestResult → String) where
  -- The result of a loop that ended in `s` and was closed in `s'`, hashed while its own hash is "".
  abbrev pub result_of : RunState S → RunState S → List Candle → String → BacktestResult
  result_of s s' candles result_hash = record {
    symbol = symbol;
    timeframe = timeframe;
    policy = policy;
    fills = s'.fills;
    trades = s'.trades;
    unfilled_intents = unfilled_of s.pending;
    equity_curve = s'.equity_curve;
    summary =
        build_summary ctx policy s'.equity s'.equity_curve s'.fills s'.trades
          (length (unfilled_of s.pending)) (length candles) (hash_candles candles)
          (hash_policy policy) result_hash;
  }

  unfoldable pub run : S → List Candle → Option String → Result BacktestError BacktestResult
  run provider candles expected_input_hash = do
    cs ← validate_candles timeframe candles
    raise_if (mismatch expected_input_hash (hash_candles cs)) (validation input_hash_mismatch)
    s ← run_from ctx policy on_bar_close symbol timeframe (initial_state ctx policy provider) 0 cs
    s' ← close_last ctx policy s cs
    ok (result_of s s' cs (hash_result (result_of s s' cs "")))
