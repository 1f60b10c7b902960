-- ===== src/Strategy/View/Visible.antt =====
-- The views of src/zorqen_research/domain/strategy_backtesting/decision_views.py at one bar.
use zorqen_research.Base.{
  ℕ, zero, suc, ◌≤◌, ◌<◌, ◌≡◌, ◌↔◌, refl, subst, true, leb, Option, none, some, List, [], ◌∷◌,
  length, get_elem?, ok, arith, ==_self, le→ltb,
}
use native.Mathlib.Nat.{mul-le-mul_right}
use native.Mathlib.Decide.{dec_lt}
use zorqen_research.Time.{Timeframe, timeframe_duration}
use zorqen_research.Time.Floor.{millisecond-le-duration}
use zorqen_research.Market.Candle.{Candle}
use zorqen_research.Market.Series.Grid.{IsGrid}
use zorqen_research.Market.Alignment.Latest.{IsLatest, ForEach, grid_close, get_elem?-some}
use zorqen_research.Decimal.{eq}
use zorqen_research.Strategy.Input.{ContextSeriesInput}
use zorqen_research.Strategy.View.{
  from_verified_source, latest, required_visible_count, same_candle, ContextDecisionView,
  context_history, context_view, context_view_of,
}

-- A prefix of a series that has exactly the candles that have closed by a time.
abbrev pub Exactly : List Candle → ℕ → ℕ → Type 0
Exactly source decision end =
    (k : ℕ) (c : Candle) → get_elem? source k ≡ some c → (k < end) ↔ (c.close_time ≤ decision)

pub ForEach-get_elem? :
    (R : Candle → Option ℕ → Type 0) (es : List Candle) (ms : List (Option ℕ)) (i : ℕ) {e : Candle}
    → ForEach R es ms
    → get_elem? es i ≡ some e
    → (m : Option ℕ) × (get_elem? ms i ≡ some m) × R e m
ForEach-get_elem? R [] ms i h f = cc
ForEach-get_elem? R (x ∷ es) [] i h f = elim h [ ]
ForEach-get_elem? R (x ∷ es) (m ∷ ms) zero h f =
    let same : x ≡ _ = cc in (m, refl, subst (λ c. R c m) same h.0)
ForEach-get_elem? R (x ∷ es) (m ∷ ms) (suc i) h f = ForEach-get_elem? R es ms i h.1 f

-- On a grid the candles up to one are those that have closed by its close.
pub grid-Exactly :
    (tf : Timeframe) (t i : ℕ) (cs : List Candle) (e : Candle)
    → IsGrid tf t cs
    → get_elem? cs i ≡ some e
    → Exactly cs e.close_time (suc i)
grid-Exactly tf t i cs e g at k c found =
    let d = timeframe_duration tf in
    let long = millisecond-le-duration tf in
    let now = grid_close tf t i cs e g at in
    let its = grid_close tf t k cs c g found in
    (
      (λ lt. let le : k ≤ i = omega arith in omega (arith, now, its, mul-le-mul_right d le)),
      (λ closed. elim (dec_lt i k) [
        | yes later ↦
            let le : suc i ≤ k = omega arith in
            absurd (omega (arith, now, its, mul-le-mul_right d le))
        | no not_later ↦ omega arith
      ]),
    )

-- The end of the history that an entry of the mapping gives.
abbrev pub end_of : Option ℕ → ℕ
end_of none = 0
end_of (some index) = suc index

IsLatest-Exactly :
    (context : List Candle) (decision : ℕ) (m : Option ℕ)
    → IsLatest context decision m
    → Exactly context decision (end_of m)
IsLatest-Exactly context decision none latest k c found =
    ((λ lt. absurd (omega arith)), (λ closed. elim (latest.latest k c found closed) [ ]))
IsLatest-Exactly context decision (some j) latest k c found = (
  (λ lt. let le : k ≤ j = omega arith in latest.no_lookahead k c found le),
  (λ closed. let le : k ≤ j = latest.latest k c found closed in omega arith),
)

pub same_candle_self : (c : Candle) → same_candle c c ≡ true
unfolding same_candle eq
same_candle_self c = ground arith

-- A context's view shows exactly the candles of the context that have closed by the decision, and is
-- ready where there are as many as its warm-up asks for, and one at least.
pub record ShowsContext (decision : ℕ) (context : ContextSeriesInput) (v : ContextDecisionView)
    : Type 0 where
  pub of_context : v.timeframe ≡ context.timeframe
  pub source : v.history.source ≡ context.candles
  pub within_source : v.history.end_exclusive ≤ length context.candles
  pub exactly : Exactly context.candles decision v.history.end_exclusive
  pub readiness : v.ready ≡ leb (required_visible_count context.warmup_bars) v.history.end_exclusive

pub from_verified_source_total :
    (source : List Candle) (end : ℕ)
    → end ≤ length source
    → from_verified_source source end ≡ ok (record { source = source; end_exclusive = end })
unfolding from_verified_source
from_verified_source_total source end le = rw (le→ltb _ _ le) refl

context_history_total :
    (source : List Candle) (decision : ℕ) (m : Option ℕ)
    → IsLatest source decision m
    → context_history source m ≡ ok (record { source = source; end_exclusive = end_of m })
unfolding context_history latest
context_history_total source decision none h = from_verified_source_total source 0 (omega arith)
context_history_total source decision (some j) h =
    let lt = h.in_range j refl in
    let (c, found) = get_elem?-some source j lt in
    let shown : latest (record { source = source; end_exclusive = suc j }) ≡ some c = found in
    rw (from_verified_source_total source (suc j) (omega arith))
      (rw shown (rw (==_self (suc j)) refl))

end-within :
    (source : List Candle) (decision : ℕ) (m : Option ℕ)
    → IsLatest source decision m
    → end_of m ≤ length source
end-within source decision none h = omega arith
end-within source decision (some j) h = omega (arith, h.in_range j refl)

pub context_view_total :
    (context : ContextSeriesInput) (decision : ℕ) (m : Option ℕ)
    → IsLatest context.candles decision m
    → (v : ContextDecisionView) × (context_view context context.candles m ≡ ok v)
      × ShowsContext decision context v
unfolding context_view context_view_of
context_view_total context decision m h =
    let made = context_history_total context.candles decision m h in
    let v =
      context_view_of context m (record { source = context.candles; end_exclusive = end_of m }) in
    (
      v,
      rw made refl,
      record {
        of_context = refl;
        source = refl;
        within_source = end-within context.candles decision m h;
        exactly = IsLatest-Exactly context.candles decision m h;
        readiness = refl;
      },
    )
