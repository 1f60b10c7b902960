-- ===== src/Market/Derivation.antt =====
-- Derivation plans: src/zorqen_research/domain/market_data/derivation.py.
pub mod Laws
use zorqen_research.Base.{ℕ, ◌/◌, ◌%◌, ltb, ◌==◌, ◌||◌, not, Result, ok, err, ◌>>=◌, ◌>>◌, raise_if}
use zorqen_research.Time.{Timeframe, timeframe_duration, duration_milliseconds}

pub data DerivationError : Type 0 where
  equal_durations finer_target not_multiple ratio_out_of_range ratio_mismatch : DerivationError

-- 1m to 1w
abbrev pub max_derivation_ratio : ℕ
max_derivation_ratio = 10_080

unfoldable pub exact_ratio : Timeframe → Timeframe → Result DerivationError ℕ
unfolding timeframe_duration duration_milliseconds
exact_ratio source target = do
  let source_ms = duration_milliseconds (timeframe_duration source)
  let target_ms = duration_milliseconds (timeframe_duration target)
  raise_if (source_ms == target_ms) equal_durations
  raise_if (ltb target_ms source_ms) finer_target
  raise_if (not (target_ms % source_ms == 0)) not_multiple
  let ratio = target_ms / source_ms
  raise_if (ltb ratio 1 || ltb max_derivation_ratio ratio) ratio_out_of_range
  ok ratio

pub record TimeframeDerivationPlan : Type 0 where
  pub source_timeframe : Timeframe
  pub target_timeframe : Timeframe
  pub ratio : ℕ

-- The constructor with its `__post_init__`.
unfoldable pub make_plan :
    Timeframe → Timeframe → ℕ → Result DerivationError TimeframeDerivationPlan
unfolding exact_ratio
make_plan source target ratio = do
  expected ← exact_ratio source target
  raise_if (not (ratio == expected)) ratio_mismatch
  ok (record { source_timeframe = source; target_timeframe = target; ratio = ratio })

unfoldable pub derive_timeframe_plan :
    Timeframe → Timeframe → Result DerivationError TimeframeDerivationPlan
unfolding exact_ratio make_plan
derive_timeframe_plan source target = do
  ratio ← exact_ratio source target
  make_plan source target ratio
