-- ===== src/Strategy/Input.antt =====
-- The input of a backtest over several timeframes:
-- src/zorqen_research/domain/strategy_backtesting/inputs.py.
pub mod Bound
use zorqen_research.Base.{
  ℕ, ◌+◌, ◌==◌, not, List, [], ◌∷◌, length, map, Result, ok, err, ◌>>=◌, ◌>>◌, raise_if, rethrow,
}
use Prim.Native.String.{String}
use text.Mathlib.Text.{◌==◌ as str_eq}
use zorqen_research.Time.{Timeframe}
use zorqen_research.Market.Candle.{Candle}
use zorqen_research.Market.Derivation.{derive_timeframe_plan}
use zorqen_research.Market.Series.{require_canonical_series}
use zorqen_research.Market.Alignment.{Payload, ContextAlignment, from_candles}
use zorqen_research.Market.Alignment.Multi.{
  MultiPayload, MultiContextAlignment, from_alignments, same_timeframe,
}
use zorqen_research.Strategy.{
  TimeframeRequirement, StrategyInstance, StrategyError, no_context_requirements, series_count,
  context_hash_diverged, execution_hash_diverged, timeframe_order, not_canonical, not_derivable,
  not_aligned, index_error,
}

pub record ContextSeriesInput : Type 0 where
  pub timeframe : Timeframe
  pub warmup_bars : ℕ
  pub candles : List Candle
  pub candle_count : ℕ
  pub candle_sha256 : String
  pub alignment : ContextAlignment

-- The document whose JSON is hashed.
pub record BundleDocument : Type 0 where
  pub contexts : List ContextSeriesInput
  pub execution_candle_count : ℕ
  pub execution_candle_sha256 : String
  pub execution_timeframe : Timeframe
  pub execution_warmup_bars : ℕ
  pub multi_context_alignment_hash : String
  pub strategy_instance_hash : String
  pub symbol : String

pub record MultiTimeframeBacktestInput : Type 0 where
  pub strategy_instance : StrategyInstance
  pub strategy_instance_hash : String
  pub symbol : String
  pub execution_timeframe : Timeframe
  pub execution_warmup_bars : ℕ
  pub execution_candles : List Candle
  pub execution_candle_count : ℕ
  pub execution_candle_sha256 : String
  pub contexts : List ContextSeriesInput
  pub multi_context_alignment : MultiContextAlignment
  pub input_bundle_hash : String

module _ (hash : List Candle → String) (digest : Payload → String) where
  -- The body of the loop over the requirements.
  unfoldable pub bind_context :
      String
      → Timeframe
      → List Candle
      → ℕ
      → TimeframeRequirement
      → Timeframe × List Candle
      → Result StrategyError ContextSeriesInput
  bind_context symbol execution_timeframe execution index requirement (timeframe, candles) = do
    raise_if (not (same_timeframe timeframe requirement.timeframe)) (timeframe_order index)
    plan ← rethrow not_derivable (derive_timeframe_plan execution_timeframe timeframe)
    canonical ← rethrow not_canonical (require_canonical_series timeframe candles)
    alignment ←
        rethrow not_aligned
          (from_candles hash digest symbol execution_timeframe timeframe execution canonical)
    raise_if (not (str_eq (hash canonical) alignment.context_candle_sha256)) context_hash_diverged
    ok (record {
      timeframe = timeframe;
      warmup_bars = requirement.warmup_bars;
      candles = canonical;
      candle_count = length canonical;
      candle_sha256 = hash canonical;
      alignment = alignment;
    })

  -- The loop; `context_series[index]` of a series that is too short is an IndexError.
  unfoldable pub bind_contexts :
      String
      → Timeframe
      → List Candle
      → ℕ
      → List TimeframeRequirement
      → List (Timeframe × List Candle)
      → Result StrategyError (List ContextSeriesInput)
  bind_contexts symbol execution_timeframe execution index [] series = ok []
  bind_contexts symbol execution_timeframe execution index (r ∷ rs) [] = err index_error
  bind_contexts symbol execution_timeframe execution index (r ∷ rs) (s ∷ series) = do
    context ← bind_context symbol execution_timeframe execution index r s
    contexts ← bind_contexts symbol execution_timeframe execution (index + 1) rs series
    ok (context ∷ contexts)

  abbrev pub alignment_of_input : ContextSeriesInput → ContextAlignment
  alignment_of_input context = context.alignment

  module _ (digest_multi : MultiPayload → String) (digest_bundle : BundleDocument → String) where
    -- The attributes that the factory sets.
    abbrev pub bundle_of :
        StrategyInstance
        → String
        → List Candle
        → List ContextSeriesInput
        → MultiContextAlignment
        → MultiTimeframeBacktestInput
    bundle_of strategy symbol execution contexts multi =
        let document : BundleDocument = record {
          contexts = contexts;
          execution_candle_count = length execution;
          execution_candle_sha256 = hash execution;
          execution_timeframe = strategy.definition.execution_timeframe;
          execution_warmup_bars = strategy.definition.execution_warmup_bars;
          multi_context_alignment_hash = multi.alignment_hash;
          strategy_instance_hash = strategy.instance_hash;
          symbol = symbol;
        } in
        record {
          strategy_instance = strategy;
          strategy_instance_hash = strategy.instance_hash;
          symbol = symbol;
          execution_timeframe = strategy.definition.execution_timeframe;
          execution_warmup_bars = strategy.definition.execution_warmup_bars;
          execution_candles = execution;
          execution_candle_count = length execution;
          execution_candle_sha256 = hash execution;
          contexts = contexts;
          multi_context_alignment = multi;
          input_bundle_hash = digest_bundle document;
        }

    unfoldable pub bind_requirements :
        StrategyInstance
        → String
        → List Candle
        → List TimeframeRequirement
        → List (Timeframe × List Candle)
        → Result StrategyError MultiTimeframeBacktestInput
    bind_requirements strategy symbol execution_candles [] series = err no_context_requirements
    bind_requirements strategy symbol execution_candles (r ∷ rs) series = do
      execution ←
          rethrow not_canonical
            (require_canonical_series strategy.definition.execution_timeframe execution_candles)
      raise_if (not (length series == length (r ∷ rs))) series_count
      contexts ←
          bind_contexts symbol strategy.definition.execution_timeframe execution 0 (r ∷ rs) series
      multi ←
          rethrow not_aligned
            (from_alignments digest digest_multi (map alignment_of_input contexts))
      raise_if (not (str_eq (hash execution) multi.execution_candle_sha256)) execution_hash_diverged
      ok (bundle_of strategy symbol execution contexts multi)

    -- `MultiTimeframeBacktestInput.from_verified`
    unfoldable pub from_verified :
        StrategyInstance
        → String
        → List Candle
        → List (Timeframe × List Candle)
        → Result StrategyError MultiTimeframeBacktestInput
    unfolding bind_requirements
    from_verified strategy symbol execution_candles series =
        bind_requirements strategy symbol execution_candles strategy.definition.context_requirements
          series
