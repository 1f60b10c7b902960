-- ===== src/Strategy/View.antt =====
-- What a strategy sees at a bar: src/zorqen_research/domain/strategy_backtesting/histories.py,
-- src/zorqen_research/domain/strategy_backtesting/decision_views.py and
-- src/zorqen_research/application/strategy_backtesting/feed.py.
pub mod Visible
pub mod Lookahead
use zorqen_research.Base.{
  ℕ, zero, suc, ◌+◌, ◌-◌, Bool, true, false, ltb, leb, ◌==◌, ◌&&◌, not, Option, none, some, List,
  [], ◌∷◌, length, map, take, get_elem?, Result, ok, err, ◌>>=◌, ◌>>◌, raise_if, if◌then◌else◌,
}
use zorqen_research.Base.Int.{ℤ, pos, negsuc}
use zorqen_research.Decimal.{Decimal, eq}
use Prim.Native.String.{String}
use zorqen_research.Time.{Timeframe}
use zorqen_research.Market.Candle.{Candle}
use zorqen_research.Strategy.{
  StrategyError, empty_source, end_out_of_range, no_latest, visible_mismatch, source_count,
  bar_outside, not_current, index_error,
}
use zorqen_research.Strategy.Input.{ContextSeriesInput, MultiTimeframeBacktestInput}

-- `VisibleCandleHistory`: the candles of `source` before `end_exclusive`.
pub record VisibleCandleHistory : Type 0 where
  pub source : List Candle
  pub end_exclusive : ℕ

-- `_from_verified_source`; `from_prefix` makes the same test on a tuple of candles.
unfoldable pub from_verified_source : List Candle → ℕ → Result StrategyError VisibleCandleHistory
from_verified_source source end_exclusive = do
  raise_if (ltb (length source) end_exclusive) end_out_of_range
  ok (record { source = source; end_exclusive = end_exclusive })

-- `__iter__`
abbrev pub visible : VisibleCandleHistory → List Candle
visible h = take h.end_exclusive h.source

-- `__getitem__` at an int; none is an IndexError.
unfoldable pub get_item : VisibleCandleHistory → ℤ → Option Candle
get_item h (pos i) = if ltb i h.end_exclusive then get_elem? h.source i else none
get_item h (negsuc n) =
    if ltb n h.end_exclusive then get_elem? h.source (h.end_exclusive - suc n) else none

abbrev latest_before : List Candle → ℕ → Option Candle
latest_before source zero = none
latest_before source (suc i) = get_elem? source i

unfoldable pub latest : VisibleCandleHistory → Option Candle
latest h = latest_before h.source h.end_exclusive

-- `max(1, warmup_bars)`
unfoldable pub required_visible_count : ℕ → ℕ
required_visible_count warmup_bars = if ltb 1 warmup_bars then warmup_bars else 1

-- Equality of two candles, field by field.
unfoldable pub same_candle : Candle → Candle → Bool
same_candle a b =
    a.open_time == b.open_time
    && eq a.open_price b.open_price
    && eq a.high b.high
    && eq a.low b.low
    && eq a.close b.close
    && eq a.volume b.volume
    && a.close_time == b.close_time
    && eq a.quote_asset_volume b.quote_asset_volume
    && a.trade_count == b.trade_count
    && eq a.taker_buy_base_volume b.taker_buy_base_volume
    && eq a.taker_buy_quote_volume b.taker_buy_quote_volume

pub record ContextDecisionView : Type 0 where
  pub timeframe : Timeframe
  pub warmup_bars : ℕ
  pub history : VisibleCandleHistory
  pub latest_closed_index : Option ℕ
  pub visible_count : ℕ
  pub ready : Bool
  pub context_candle_sha256 : String
  pub alignment_hash : String

abbrev pub is_missing {ℓ} : {A : Type ℓ} → Option A → Bool
is_missing none = true
is_missing (some a) = false

-- The history up to the index that the alignment gives, with the tests on it.
unfoldable pub context_history : List Candle → Option ℕ → Result StrategyError VisibleCandleHistory
unfolding from_verified_source latest
context_history source none = from_verified_source source 0
context_history source (some index) = do
  history ← from_verified_source source (suc index)
  raise_if (is_missing (latest history)) no_latest
  raise_if (not (history.end_exclusive == suc index)) visible_mismatch
  ok history

-- The attributes that the factory sets.
unfoldable pub context_view_of :
    ContextSeriesInput → Option ℕ → VisibleCandleHistory → ContextDecisionView
unfolding required_visible_count
context_view_of context latest_closed_index history = record {
  timeframe = context.timeframe;
  warmup_bars = context.warmup_bars;
  history = history;
  latest_closed_index = latest_closed_index;
  visible_count = history.end_exclusive;
  ready = leb (required_visible_count context.warmup_bars) history.end_exclusive;
  context_candle_sha256 = context.candle_sha256;
  alignment_hash = context.alignment.alignment_hash;
}

-- `ContextDecisionView._from_feed`. The source is the context's own list of candles, which is what
-- the test on the identity of the two asks for.
unfoldable pub context_view :
    ContextSeriesInput → List Candle → Option ℕ → Result StrategyError ContextDecisionView
unfolding context_history required_visible_count
context_view context source latest_closed_index = do
  history ← context_history source latest_closed_index
  ok (context_view_of context latest_closed_index history)

-- `xs[index]`
abbrev pub item_at {ℓ} : {A : Type ℓ} → Option A → Result StrategyError A
item_at none = err index_error
item_at (some a) = ok a

-- One view for each context, at its entry for the bar.
unfoldable pub context_views :
    ℕ
    → List ContextSeriesInput
    → List (List Candle)
    → Result StrategyError (List ContextDecisionView)
context_views bar_index [] [] = ok []
context_views bar_index (c ∷ cs) (s ∷ ss) = do
  latest_closed_index ← item_at (get_elem? c.alignment.mapping bar_index)
  view ← context_view c s latest_closed_index
  views ← context_views bar_index cs ss
  ok (view ∷ views)
context_views bar_index contexts sources = err source_count

abbrev pub all_ready : List ContextDecisionView → Bool
all_ready [] = true
all_ready (v ∷ vs) = v.ready && all_ready vs

-- The document whose JSON is hashed; of the views it has the timeframe, the index, the count and
-- the readiness.
pub record ViewDocument : Type 0 where
  pub contexts : List ContextDecisionView
  pub execution_bar_index : ℕ
  pub execution_ready : Bool
  pub execution_visible_count : ℕ
  pub input_bundle_hash : String
  pub overall_ready : Bool

pub record MultiTimeframeDecisionView : Type 0 where
  pub input_bundle_hash : String
  pub execution_bar_index : ℕ
  pub current_execution_candle : Candle
  pub execution_history : VisibleCandleHistory
  pub execution_warmup_bars : ℕ
  pub execution_ready : Bool
  pub contexts : List ContextDecisionView
  pub overall_ready : Bool
  pub decision_view_hash : String

-- `execution_history.latest != current`
unfoldable pub is_candle : Option Candle → Candle → Bool
unfolding same_candle
is_candle none c = false
is_candle (some b) c = same_candle b c

-- `MultiTimeframeDecisionFeed`
pub record DecisionFeed : Type 0 where
  pub bundle : MultiTimeframeBacktestInput
  pub execution_source : List Candle
  pub context_sources : List (List Candle)

-- `_VerifiedHistorySource._bind_trusted`
unfoldable pub bind_trusted : List Candle → Result StrategyError (List Candle)
bind_trusted [] = err empty_source
bind_trusted (c ∷ cs) = ok (c ∷ cs)

unfoldable pub bind_sources : List ContextSeriesInput → Result StrategyError (List (List Candle))
bind_sources [] = ok []
bind_sources (c ∷ cs) = do
  source ← bind_trusted c.candles
  sources ← bind_sources cs
  ok (source ∷ sources)

-- `MultiTimeframeDecisionFeed.from_input`
unfoldable pub from_input : MultiTimeframeBacktestInput → Result StrategyError DecisionFeed
from_input bundle = do
  execution_source ← bind_trusted bundle.execution_candles
  context_sources ← bind_sources bundle.contexts
  ok (record {
    bundle = bundle;
    execution_source = execution_source;
    context_sources = context_sources;
  })

module _ (digest_view : ViewDocument → String) where
  -- The attributes that the factory sets.
  unfoldable pub view_of :
      MultiTimeframeBacktestInput
      → ℕ
      → Candle
      → VisibleCandleHistory
      → List ContextDecisionView
      → MultiTimeframeDecisionView
  unfolding required_visible_count
  view_of bundle bar_index current history contexts =
      let execution_ready =
        leb (required_visible_count bundle.execution_warmup_bars) history.end_exclusive in
      let overall_ready = execution_ready && all_ready contexts in
      let document : ViewDocument = record {
        contexts = contexts;
        execution_bar_index = bar_index;
        execution_ready = execution_ready;
        execution_visible_count = history.end_exclusive;
        input_bundle_hash = bundle.input_bundle_hash;
        overall_ready = overall_ready;
      } in
      record {
        input_bundle_hash = bundle.input_bundle_hash;
        execution_bar_index = bar_index;
        current_execution_candle = current;
        execution_history = history;
        execution_warmup_bars = bundle.execution_warmup_bars;
        execution_ready = execution_ready;
        contexts = contexts;
        overall_ready = overall_ready;
        decision_view_hash = digest_view document;
      }

  -- `MultiTimeframeDecisionView._from_feed`, behind the tests of types and of identities.
  unfoldable pub view_from_feed :
      MultiTimeframeBacktestInput
      → List Candle
      → List (List Candle)
      → ℕ
      → Result StrategyError MultiTimeframeDecisionView
  unfolding from_verified_source latest
  view_from_feed bundle execution_source context_sources bar_index = do
    raise_if (not (length context_sources == length bundle.contexts)) source_count
    raise_if (leb bundle.execution_candle_count bar_index) bar_outside
    history ← from_verified_source execution_source (suc bar_index)
    current ← item_at (get_elem? bundle.execution_candles bar_index)
    raise_if (not (is_candle (latest history) current)) not_current
    contexts ← context_views bar_index bundle.contexts context_sources
    ok (view_of bundle bar_index current history contexts)

  -- `MultiTimeframeDecisionFeed.view_at` at an int that is not negative.
  unfoldable pub view_at : DecisionFeed → ℕ → Result StrategyError MultiTimeframeDecisionView
  view_at feed bar_index = do
    raise_if (leb feed.bundle.execution_candle_count bar_index) bar_outside
    view_from_feed feed.bundle feed.execution_source feed.context_sources bar_index
