-- ===== src/Strategy/Runner.antt =====
-- A backtest over several timeframes:
-- src/zorqen_research/application/strategy_backtesting/runner.py and
-- src/zorqen_research/domain/strategy_backtesting/results.py.
pub mod Counted
pub mod Direct
pub mod Total
use zorqen_research.Base.{ℕ, ◌+◌, ◌==◌, not, some, List, Result, ok, ◌>>=◌, ◌>>◌, raise_if, rethrow}
use Prim.Native.String.{String}
use text.Mathlib.Text.{◌==◌ as str_eq}
use zorqen_research.Decimal.{Context}
use zorqen_research.Time.{Timeframe}
use zorqen_research.Market.Candle.{Candle}
use zorqen_research.Backtest.{BacktestError}
use zorqen_research.Backtest.Policy.{BacktestPolicy}
use zorqen_research.Backtest.Run.{DecisionContext, Output, RunState, run_from}
use zorqen_research.Backtest.Summary.{BacktestResult, validate_candles, initial_state}
use zorqen_research.Backtest.Result.{run}
use zorqen_research.Strategy.{
  StrategyError, count_mismatch, policy_mismatch, input_mismatch, engine,
}
use zorqen_research.Strategy.Input.{MultiTimeframeBacktestInput}
use zorqen_research.Strategy.View.{ViewDocument, from_input}
use zorqen_research.Strategy.Provider.{MultiTimeframeContext, AdapterState, on_bar_close}

-- The document whose JSON is hashed.
pub record EnvelopeDocument : Type 0 where
  pub backtest_result_hash : String
  pub execution_candle_sha256 : String
  pub input_bundle_hash : String
  pub multi_context_alignment_hash : String
  pub policy_hash : String
  pub provider_invocation_count : ℕ
  pub strategy_instance_hash : String
  pub warmup_skipped_decision_count : ℕ

pub record StrategyBacktestEnvelope : Type 0 where
  pub strategy_instance_hash : String
  pub input_bundle_hash : String
  pub execution_candle_sha256 : String
  pub multi_context_alignment_hash : String
  pub policy_hash : String
  pub backtest_result_hash : String
  pub result : BacktestResult
  pub provider_invocation_count : ℕ
  pub warmup_skipped_decision_count : ℕ
  pub envelope_hash : String

module _ (hash_policy : BacktestPolicy → String) (digest_envelope : EnvelopeDocument → String) where
  -- The attributes that the factory sets.
  abbrev pub envelope_of :
      MultiTimeframeBacktestInput
      → BacktestPolicy
      → BacktestResult
      → ℕ
      → ℕ
      → StrategyBacktestEnvelope
  envelope_of bundle policy result invocations skips =
      let document : EnvelopeDocument = record {
        backtest_result_hash = result.summary.result_hash;
        execution_candle_sha256 = bundle.execution_candle_sha256;
        input_bundle_hash = bundle.input_bundle_hash;
        multi_context_alignment_hash = bundle.multi_context_alignment.alignment_hash;
        policy_hash = hash_policy policy;
        provider_invocation_count = invocations;
        strategy_instance_hash = bundle.strategy_instance_hash;
        warmup_skipped_decision_count = skips;
      } in
      record {
        strategy_instance_hash = bundle.strategy_instance_hash;
        input_bundle_hash = bundle.input_bundle_hash;
        execution_candle_sha256 = bundle.execution_candle_sha256;
        multi_context_alignment_hash = bundle.multi_context_alignment.alignment_hash;
        policy_hash = hash_policy policy;
        backtest_result_hash = result.summary.result_hash;
        result = result;
        provider_invocation_count = invocations;
        warmup_skipped_decision_count = skips;
        envelope_hash = digest_envelope document;
      }

  -- `StrategyBacktestEnvelope.from_run`, for counts that are ints and not negative.
  unfoldable pub from_run :
      MultiTimeframeBacktestInput
      → BacktestPolicy
      → BacktestResult
      → ℕ
      → ℕ
      → Result StrategyError StrategyBacktestEnvelope
  from_run bundle policy result invocations skips = do
    raise_if (not (invocations + skips == bundle.execution_candle_count)) count_mismatch
    raise_if (not (str_eq result.summary.policy_hash (hash_policy policy))) policy_mismatch
    raise_if (not (str_eq result.summary.input_candle_hash bundle.execution_candle_sha256))
        input_mismatch
    ok (envelope_of bundle policy result invocations skips)

-- The state in which `BacktestEngine.run` leaves its provider. What the engine does behind the loop
-- does not call it.
unfoldable pub provider_after :
    {S : Type 0}
    → Context
    → BacktestPolicy
    → (S → DecisionContext → Output × S)
    → String
    → Timeframe
    → S
    → List Candle
    → Result BacktestError S
provider_after ctx policy on_bar_close symbol timeframe provider candles = do
  cs ← validate_candles timeframe candles
  s ← run_from ctx policy on_bar_close symbol timeframe (initial_state ctx policy provider) 0 cs
  ok s.provider

module _ {S : Type 0} (ctx : Context) (hash : List Candle → String)
    (hash_policy : BacktestPolicy → String) (hash_result : BacktestResult → String)
    (digest_view : ViewDocument → String) (digest_envelope : EnvelopeDocument → String)
    (on_bar : S → MultiTimeframeContext → Output × S) where
  abbrev pub fresh_adapter : S → AdapterState S
  fresh_adapter provider = record {
    provider = provider;
    provider_invocation_count = 0;
    warmup_skipped_decision_count = 0;
  }

  -- `MultiTimeframeBacktestRunner.run`
  unfoldable pub run_strategy :
      MultiTimeframeBacktestInput
      → BacktestPolicy
      → S
      → Result StrategyError StrategyBacktestEnvelope
  run_strategy bundle policy provider = do
    feed ← from_input bundle
    let adapter = on_bar_close digest_view feed on_bar
    let start = fresh_adapter provider
    result ← rethrow engine (
        run ctx policy adapter bundle.symbol bundle.execution_timeframe hash hash_policy hash_result
          start bundle.execution_candles (some bundle.execution_candle_sha256))
    last ← rethrow engine (
        provider_after ctx policy adapter bundle.symbol bundle.execution_timeframe start
          bundle.execution_candles)
    from_run hash_policy digest_envelope bundle policy result last.provider_invocation_count
        last.warmup_skipped_decision_count
