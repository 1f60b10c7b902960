-- ===== src/Strategy/Provider.antt =====
-- The provider of a strategy behind the engine's protocol:
-- src/zorqen_research/application/strategy_backtesting/provider.py. The strategy is a function of its
-- own state and of what it is shown.
use zorqen_research.Base.{
  ℕ, ◌+◌, Bool, true, false, ◌==◌, ◌||◌, ◌&&◌, List, [], ◌∷◌, Result, ok, err, if◌then◌else◌,
}
use Prim.Native.String.{String}
use text.Mathlib.Text.{◌==◌ as str_eq}
use zorqen_research.Market.Alignment.Multi.{same_timeframe}
use zorqen_research.Backtest.{PositionDirection, long, short}
use zorqen_research.Backtest.Intent.{DirectionValue, direction, text_direction, not_direction}
use zorqen_research.Backtest.Run.{
  DecisionContext, Output, raises, not_tuple, items, Item, enter_item,
}
use zorqen_research.Strategy.{StrategyError}
use zorqen_research.Strategy.View.{
  DecisionFeed, MultiTimeframeDecisionView, ViewDocument, view_at, same_candle,
}

-- `MultiTimeframeBacktestDecisionContext`
pub record MultiTimeframeContext : Type 0 where
  pub base : DecisionContext
  pub strategy_instance_hash : String
  pub input_bundle_hash : String
  pub view : MultiTimeframeDecisionView

-- The adapter's variables, and the state of the provider that it wraps.
pub record AdapterState (S : Type 0) : Type 0 where
  pub provider : S
  pub provider_invocation_count : ℕ
  pub warmup_skipped_decision_count : ℕ

abbrev pub same_direction : PositionDirection → PositionDirection → Bool
same_direction long long = true
same_direction short short = true
same_direction a b = false

-- `direction in allowed`; a text is equal to the member that it is the value of.
abbrev pub is_allowed : List PositionDirection → DirectionValue → Bool
is_allowed allowed not_direction = false
is_allowed [] (direction d) = false
is_allowed [] (text_direction d) = false
is_allowed (a ∷ allowed) (direction d) = same_direction a d || is_allowed allowed (direction d)
is_allowed (a ∷ allowed) (text_direction d) =
    same_direction a d || is_allowed allowed (text_direction d)

-- The loop over the intents.
unfoldable pub directions_allowed : List PositionDirection → List Item → Bool
directions_allowed allowed [] = true
directions_allowed allowed (enter_item r ∷ is) =
    is_allowed allowed r.direction && directions_allowed allowed is
directions_allowed allowed (other ∷ is) = directions_allowed allowed is

-- The tests on what the provider returned; what they raise is an exception like any other.
unfoldable pub check_output : List PositionDirection → Output → Output
check_output allowed raises = raises
check_output allowed not_tuple = raises
check_output allowed (items is) = if directions_allowed allowed is then items is else raises

-- The tests on what the engine asks, before the view is made.
unfoldable pub asks_for_bar : DecisionFeed → DecisionContext → Bool
asks_for_bar feed context =
    str_eq context.symbol feed.bundle.symbol
    && same_timeframe context.timeframe feed.bundle.execution_timeframe
    && context.candles_processed == context.bar_index + 1

-- The tests on the view.
unfoldable pub shows_bar : MultiTimeframeDecisionView → DecisionContext → Bool
unfolding same_candle
shows_bar view context =
    context.bar_index == view.execution_bar_index
    && same_candle context.candle view.current_execution_candle

module _ {S : Type 0} (digest_view : ViewDocument → String) (feed : DecisionFeed)
    (on_bar : S → MultiTimeframeContext → Output × S) where
  abbrev pub enhanced : DecisionContext → MultiTimeframeDecisionView → MultiTimeframeContext
  enhanced context view = record {
    base = context;
    strategy_instance_hash = feed.bundle.strategy_instance_hash;
    input_bundle_hash = feed.bundle.input_bundle_hash;
    view = view;
  }

  -- A bar whose view is ready is handed on, any other is counted and answered with no intent.
  unfoldable pub answer :
      AdapterState S → DecisionContext → MultiTimeframeDecisionView → Bool → Output × AdapterState S
  answer s context view false =
      (items [], record s { warmup_skipped_decision_count = s.warmup_skipped_decision_count + 1 })
  answer s context view true =
      let (output, provider) = on_bar s.provider (enhanced context view) in
      (
        check_output feed.bundle.strategy_instance.definition.supported_directions output,
        record s {
          provider = provider;
          provider_invocation_count = s.provider_invocation_count + 1;
        },
      )

  unfoldable pub answer_view :
      AdapterState S
      → DecisionContext
      → Result StrategyError MultiTimeframeDecisionView
      → Output × AdapterState S
  answer_view s context (err e) = (raises, s)
  answer_view s context (ok view) =
      if shows_bar view context then answer s context view view.overall_ready else (raises, s)

  -- `MultiTimeframeProviderAdapter.on_bar_close`
  unfoldable pub on_bar_close : AdapterState S → DecisionContext → Output × AdapterState S
  on_bar_close s context =
      if asks_for_bar feed context
      then answer_view s context (view_at digest_view feed context.bar_index)
      else (raises, s)
