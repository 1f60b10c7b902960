-- ===== src/Strategy/View/Lookahead.antt =====
-- The views that the feed of
-- src/zorqen_research/application/strategy_backtesting/feed.py makes from an accepted input.
use zorqen_research.Base.{
  false, ℕ, suc, ◌<◌, ◌≡◌, refl, ap, sym, subst, leb, ◌&&◌, some, List, [], ◌∷◌, length, map,
  get_elem?, All, ok, arith, ==_self, lt→leb,
}
use Prim.Native.String.{String}
use zorqen_research.Time.{Timeframe}
use zorqen_research.Market.Candle.{Candle}
use zorqen_research.Market.Alignment.{Payload, compute_no_lookahead_mapping}
use zorqen_research.Market.Alignment.Multi.{MultiPayload}
use zorqen_research.Market.Alignment.Latest.{
  IsLatest, compute_no_lookahead_mapping-IsLatest, get_elem?-some,
}
use zorqen_research.Strategy.{StrategyInstance}
use zorqen_research.Strategy.Input.{
  ContextSeriesInput, BundleDocument, MultiTimeframeBacktestInput, from_verified,
}
use zorqen_research.Strategy.Input.Bound.{IsSeries, IsBound, IsBundle, from_verified-IsBundle}
use zorqen_research.Strategy.View.{
  VisibleCandleHistory, latest, ContextDecisionView, context_views, all_ready,
  required_visible_count, MultiTimeframeDecisionView, ViewDocument, DecisionFeed, bind_trusted,
  bind_sources, from_input, view_of, view_from_feed, view_at, is_candle,
}
use zorqen_research.Strategy.View.Visible.{
  Exactly, grid-Exactly, ForEach-get_elem?, ShowsContext, context_view_total,
  from_verified_source_total, same_candle_self,
}

-- One view for each context.
abbrev pub ShowsContexts : ℕ → List ContextSeriesInput → List ContextDecisionView → Type 0
ShowsContexts decision [] [] = Unit
ShowsContexts decision (c ∷ cs) (v ∷ vs) = ShowsContext decision c v × ShowsContexts decision cs vs
ShowsContexts decision _ _ = ⊥

-- What the view of a bar shows of its input.
pub record Shows (b : MultiTimeframeBacktestInput) (bar_index : ℕ) (v : MultiTimeframeDecisionView)
    : Type 0 where
  pub at_bar : v.execution_bar_index ≡ bar_index
  pub current : get_elem? b.execution_candles bar_index ≡ some v.current_execution_candle
  pub source : v.execution_history.source ≡ b.execution_candles
  pub exactly :
      Exactly b.execution_candles v.current_execution_candle.close_time
        v.execution_history.end_exclusive
  pub contexts : ShowsContexts v.current_execution_candle.close_time b.contexts v.contexts
  pub readiness : v.overall_ready ≡ (
      leb (required_visible_count b.execution_warmup_bars) (suc bar_index) && all_ready v.contexts)

abbrev pub candles_of : ContextSeriesInput → List Candle
candles_of c = c.candles

abbrev pub feed_of : MultiTimeframeBacktestInput → DecisionFeed
feed_of b = record {
  bundle = b;
  execution_source = b.execution_candles;
  context_sources = map candles_of b.contexts;
}

bind_trusted-IsSeries :
    (tf : Timeframe) (cs : List Candle) → IsSeries tf cs → bind_trusted cs ≡ ok cs
unfolding bind_trusted
bind_trusted-IsSeries tf cs h = subst (λ xs. bind_trusted xs ≡ ok xs) (sym h.nonempty) refl

bind_sources-IsBound :
    (execution : List Candle) (cs : List ContextSeriesInput)
    → All (IsBound execution) cs
    → bind_sources cs ≡ ok (map candles_of cs)
unfolding bind_sources
bind_sources-IsBound execution [] h = refl
bind_sources-IsBound execution (c ∷ cs) h =
    rw (bind_trusted-IsSeries c.timeframe c.candles h.0.series)
      (rw (bind_sources-IsBound execution cs h.1) refl)

pub from_input-IsBundle :
    (hash : List Candle → String) (b : MultiTimeframeBacktestInput)
    → IsBundle hash b
    → from_input b ≡ ok (feed_of b)
unfolding from_input
from_input-IsBundle hash b h =
    rw (bind_trusted-IsSeries b.execution_timeframe b.execution_candles h.series)
      (rw (bind_sources-IsBound b.execution_candles b.contexts h.bound) refl)

context_views_total :
    (etf : Timeframe) (execution : List Candle) (i : ℕ) (e : Candle) (cs : List ContextSeriesInput)
    → IsSeries etf execution
    → get_elem? execution i ≡ some e
    → All (IsBound execution) cs
    → (vs : List ContextDecisionView) × (context_views i cs (map candles_of cs) ≡ ok vs)
      × ShowsContexts e.close_time cs vs
unfolding context_views
context_views_total etf execution i e [] series at h = ([], refl, tt)
context_views_total etf execution i e (c ∷ cs) series at h =
    let bound = h.0 in
    let each =
      compute_no_lookahead_mapping-IsLatest etf c.timeframe series.head.open_time
        bound.series.head.open_time execution c.candles series.grid bound.series.grid in
    let (m, found, latest) =
      ForEach-get_elem? (λ e m. IsLatest c.candles e.close_time m) execution
        (compute_no_lookahead_mapping execution c.candles) i each at in
    let its_entry = subst (λ ms. get_elem? ms i ≡ some m) (sym bound.mapped) found in
    let (v, made, shown) = context_view_total c e.close_time m latest in
    let (vs, others, all_shown) = context_views_total etf execution i e cs series at h.1 in
    (v ∷ vs, rw its_entry (rw made (rw others refl)), (shown, all_shown))

length-map : (cs : List ContextSeriesInput) → length (map candles_of cs) ≡ length cs
length-map [] = refl
length-map (c ∷ cs) = ap suc (length-map cs)

pub view_at-IsBundle :
    (hash : List Candle → String) (digest_view : ViewDocument → String)
    (b : MultiTimeframeBacktestInput) (i : ℕ)
    → IsBundle hash b
    → i < b.execution_candle_count
    → (v : MultiTimeframeDecisionView) × (view_at digest_view (feed_of b) i ≡ ok v) × Shows b i v
unfolding view_at view_from_feed latest is_candle view_of
view_at-IsBundle hash digest_view b i h lt =
    let inside : leb b.execution_candle_count i ≡ false = lt→leb _ _ lt in
    let (e, at) = get_elem?-some b.execution_candles i (omega (arith, h.count)) in
    let (vs, made, shown) =
      context_views_total b.execution_timeframe b.execution_candles i e b.contexts h.series at
        h.bound in
    let history : VisibleCandleHistory = record {
      source = b.execution_candles;
      end_exclusive = suc i;
    } in
    let is_latest : latest history ≡ some e = at in
    let v = view_of digest_view b i e history vs in
    (
      v,
      rw inside (
          rw (length-map b.contexts, ==_self (length b.contexts))
            (rw (from_verified_source_total b.execution_candles (suc i) (omega (arith, h.count)))
              (rw at (rw (same_candle_self e) (rw made refl))))),
      record {
        at_bar = refl;
        current = at;
        source = refl;
        exactly =
            grid-Exactly b.execution_timeframe h.series.head.open_time i b.execution_candles e
              h.series.grid at;
        contexts = shown;
        readiness = refl;
      },
    )

-- Every bar of an accepted input has a view. Of the execution series and of every context it shows
-- exactly the candles that have closed by the close of the bar, none later and none left out, and it is ready where each of them has as many as its warm-up asks for, and one at least.
pub view_at-Shows :
    (hash : List Candle → String) (digest : Payload → String) (digest_multi : MultiPayload → String)
    (digest_bundle : BundleDocument → String) (digest_view : ViewDocument → String)
    (strategy : StrategyInstance) (symbol : String) (candles : List Candle)
    (series : List (Timeframe × List Candle)) (i : ℕ) {b : MultiTimeframeBacktestInput}
    → from_verified hash digest digest_multi digest_bundle strategy symbol candles series ≡ ok b
    → i < b.execution_candle_count
    → (feed : DecisionFeed) × (v : MultiTimeframeDecisionView) × (from_input b ≡ ok feed)
      × (view_at digest_view feed i ≡ ok v)
      × Shows b i v
view_at-Shows hash digest digest_multi digest_bundle digest_view strategy symbol candles series i
      {b} accepted lt =
    let h =
      from_verified-IsBundle hash digest digest_multi digest_bundle strategy symbol candles series
        accepted in
    let (v, viewed, shown) = view_at-IsBundle hash digest_view b i h lt in
    (feed_of b, v, from_input-IsBundle hash b h, viewed, shown)
