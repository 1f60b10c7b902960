-- ===== src/Strategy.antt =====
-- Strategies over several timeframes: what their definitions ask for
-- (src/zorqen_research/domain/strategy_definitions/timeframes.py) and what the backtest of one reads.
pub mod Input
pub mod View
pub mod Provider
pub mod Runner
mod Tests
use zorqen_research.Base.{
  ℕ, Bool, ltb, List, [], ◌∷◌, map, Result, ok, err, ◌>>=◌, ◌>>◌, raise_if, not,
}
use zorqen_research.Base.Int.{pos, negsuc}
use Prim.Native.String.{String}
use zorqen_research.Time.{Timeframe, timeframe_duration}
use zorqen_research.Market.Candle.{Count, int, not_int}
use zorqen_research.Market.Series.{SeriesError}
use zorqen_research.Market.Derivation.{DerivationError}
use zorqen_research.Market.Alignment.{AlignmentError}
use zorqen_research.Market.Alignment.Multi.{same_timeframe, is_seen, is_sorted}
use zorqen_research.Backtest.{PositionDirection, BacktestError}

-- The StrategyDefinitionValidationErrors on timeframes and warm-ups.
pub data DefinitionError : Type 0 where
  warmup_not_int warmup_negative warmup_too_large : DefinitionError
  execution_as_context duplicate_context unordered_contexts : DefinitionError

abbrev pub max_warmup_bars : ℕ
max_warmup_bars = 1_000_000

unfoldable pub require_warmup_bars : Count → Result DefinitionError ℕ
require_warmup_bars not_int = err warmup_not_int
require_warmup_bars (int (negsuc n)) = err warmup_negative
require_warmup_bars (int (pos n)) = do raise_if (ltb max_warmup_bars n) warmup_too_large; ok n

pub record TimeframeRequirement : Type 0 where
  pub timeframe : Timeframe
  pub warmup_bars : ℕ

-- The constructor with its `__post_init__`.
unfoldable pub make_requirement : Timeframe → Count → Result DefinitionError TimeframeRequirement
unfolding require_warmup_bars
make_requirement timeframe warmup_bars = do
  bars ← require_warmup_bars warmup_bars
  ok (record { timeframe = timeframe; warmup_bars = bars })

abbrev pub requirement_duration : TimeframeRequirement → ℕ
requirement_duration r = timeframe_duration r.timeframe

-- The loop over the requirements.
unfoldable pub check_requirements :
    Timeframe → List Timeframe → List TimeframeRequirement → Result DefinitionError (Unit {0})
check_requirements execution_timeframe seen [] = ok tt
check_requirements execution_timeframe seen (r ∷ rs) = do
  raise_if (same_timeframe r.timeframe execution_timeframe) execution_as_context
  raise_if (is_seen r.timeframe seen) duplicate_context
  check_requirements execution_timeframe (r.timeframe ∷ seen) rs

-- A stable sort by duration leaves a sequence as it is just where its durations do not fall.
unfoldable pub require_canonical_context_requirements :
    List TimeframeRequirement → Timeframe → Result DefinitionError (List TimeframeRequirement)
require_canonical_context_requirements requirements execution_timeframe = do
  check_requirements execution_timeframe [] requirements
  raise_if (not (is_sorted (map requirement_duration requirements))) unordered_contexts
  ok requirements

-- What a backtest reads of a `StrategyDefinition` and of a `StrategyInstanceSpecification`.
pub record StrategyDefinition : Type 0 where
  pub execution_timeframe : Timeframe
  pub execution_warmup_bars : ℕ
  pub context_requirements : List TimeframeRequirement
  pub supported_directions : List PositionDirection

pub record StrategyInstance : Type 0 where
  pub definition : StrategyDefinition
  pub instance_hash : String

-- The StrategyBacktestValidationErrors, an IndexError, and what the engine raises.
pub data StrategyError : Type 0 where
  no_context_requirements series_count context_hash_diverged execution_hash_diverged : StrategyError
  timeframe_order : ℕ → StrategyError
  not_canonical : SeriesError → StrategyError
  not_derivable : DerivationError → StrategyError
  not_aligned : AlignmentError → StrategyError
  empty_source end_out_of_range no_latest visible_mismatch source_count bar_outside not_current :
      StrategyError
  index_error count_mismatch policy_mismatch input_mismatch : StrategyError
  engine : BacktestError → StrategyError
