-- ===== src/Strategy/Runner/Counted.antt =====
-- The counts of src/zorqen_research/application/strategy_backtesting/provider.py over a run.
use zorqen_research.Base.{
  ℕ, zero, suc, ◌+◌, ◌≤◌, ◌≡◌, refl, ap, sym, subst, Bool, true, false, List, [], ◌∷◌, length,
  Result, ok, err, >>=-eq-ok, ok_inj, if◌then◌else◌, arith,
}
use Prim.Native.String.{String}
use zorqen_research.Decimal.{Context}
use zorqen_research.Time.{Timeframe}
use zorqen_research.Market.Candle.{Candle}
use zorqen_research.Backtest.Policy.{BacktestPolicy}
use zorqen_research.Backtest.Run.{
  DecisionContext, Output, raises, Item, RunState, coerce_provider_output, step, run_from,
}
use zorqen_research.Backtest.Run.Asked.{step-provider}
use zorqen_research.Strategy.{StrategyError}
use zorqen_research.Strategy.Input.{MultiTimeframeBacktestInput}
use zorqen_research.Strategy.Input.Bound.{IsBundle}
use zorqen_research.Strategy.View.{MultiTimeframeDecisionView, ViewDocument, DecisionFeed, view_at}
use zorqen_research.Strategy.View.Lookahead.{feed_of, view_at-IsBundle}
use zorqen_research.Strategy.Provider.{
  MultiTimeframeContext, AdapterState, asks_for_bar, shows_bar, answer, answer_view, on_bar_close,
}

-- A bar that the strategy is not asked about.
abbrev pub skipped : Result StrategyError MultiTimeframeDecisionView → ℕ
skipped (err e) = 0
skipped (ok v) = if v.overall_ready then 0 else 1

-- The bars from `i` on, `n` of them, whose views are not ready.
abbrev pub count_unready : (ViewDocument → String) → DecisionFeed → ℕ → ℕ → ℕ
count_unready digest_view feed i zero = 0
count_unready digest_view feed i (suc n) =
    skipped (view_at digest_view feed i) + count_unready digest_view feed (i + 1) n

-- What an answer that is no exception adds to the counts.
record Counts {S : Type 0} (a a' : AdapterState S) (bars unready : ℕ) : Type 0 where
  asked_or_skipped :
      a'.provider_invocation_count + a'.warmup_skipped_decision_count
      ≡ a.provider_invocation_count + a.warmup_skipped_decision_count + bars
  skips : a'.warmup_skipped_decision_count ≡ a.warmup_skipped_decision_count + unready

-- Behind a guard that raises.
guarded :
    {A : Type 0} (test : Bool) (x : Output × A) (a : A) {xs : List Item}
    → coerce_provider_output (if test then x else (raises, a)).0 ≡ ok xs
    → (test ≡ true) × (coerce_provider_output x.0 ≡ ok xs)
unfolding coerce_provider_output
guarded true x a h = (refl, h)
guarded false x a h = cc

module _ {S : Type 0} (digest_view : ViewDocument → String) (feed : DecisionFeed)
    (on_bar : S → MultiTimeframeContext → Output × S) where
  answer-Counts :
      (a : AdapterState S) (context : DecisionContext) (v : MultiTimeframeDecisionView)
      (ready : Bool)
      → Counts a (answer digest_view feed on_bar a context v ready).1 1 (if ready then 0 else 1)
  unfolding answer
  answer-Counts a context v true = record { asked_or_skipped = omega arith; skips = omega arith }
  answer-Counts a context v false = record { asked_or_skipped = omega arith; skips = omega arith }

  answer_view-Counts :
      (a : AdapterState S) (context : DecisionContext) (v : MultiTimeframeDecisionView)
      {xs : List Item}
      → coerce_provider_output (answer_view digest_view feed on_bar a context (ok v)).0 ≡ ok xs
      → Counts a (answer_view digest_view feed on_bar a context (ok v)).1 1 (skipped (ok v))
  unfolding answer_view
  answer_view-Counts a context v h =
      let (shown, _) =
        guarded (shows_bar v context) (answer digest_view feed on_bar a context v v.overall_ready) a
          h in
      rw shown (answer-Counts a context v v.overall_ready)

  on_bar_close-Counts :
      (a : AdapterState S) (context : DecisionContext) {v : MultiTimeframeDecisionView}
      {xs : List Item}
      → view_at digest_view feed context.bar_index ≡ ok v
      → coerce_provider_output (on_bar_close digest_view feed on_bar a context).0 ≡ ok xs
      → Counts a
          (on_bar_close digest_view feed on_bar a context).1
          1
          (skipped (view_at digest_view feed context.bar_index))
  unfolding on_bar_close
  on_bar_close-Counts a context {v} {xs} viewed h =
      let x =
        answer_view digest_view feed on_bar a context
          (view_at digest_view feed context.bar_index) in
      let (asked, h1) = guarded (asks_for_bar feed context) x a h in
      rw asked (
        subst
          (λ r.
            coerce_provider_output (answer_view digest_view feed on_bar a context r).0 ≡ ok xs
            → Counts a (answer_view digest_view feed on_bar a context r).1 1 (skipped r))
          (sym viewed) (answer_view-Counts a context v) h1)

module _ {S : Type 0} (ctx : Context) (policy : BacktestPolicy) (hash : List Candle → String)
    (digest_view : ViewDocument → String) (b : MultiTimeframeBacktestInput)
    (on_bar : S → MultiTimeframeContext → Output × S) (symbol : String)
    (timeframe : Timeframe) where
  pub run_from-Counts :
      (s : RunState (AdapterState S)) (i : ℕ) (cs : List Candle) {s' : RunState (AdapterState S)}
      → IsBundle hash b
      → i + length cs ≤ b.execution_candle_count
      → run_from ctx policy (on_bar_close digest_view (feed_of b) on_bar) symbol timeframe s i cs
        ≡ ok s'
      → (s'.provider.provider_invocation_count + s'.provider.warmup_skipped_decision_count
          ≡ s.provider.provider_invocation_count
            + s.provider.warmup_skipped_decision_count
            + length cs)
        × (s'.provider.warmup_skipped_decision_count
            ≡ s.provider.warmup_skipped_decision_count
              + count_unready digest_view (feed_of b) i (length cs))
  unfolding run_from
  run_from-Counts s i [] h fits ran =
      let same = ap (λ (x : RunState (AdapterState S)). x.provider) (ok_inj ran) in
      (
        subst
            (λ (a : AdapterState S).
              a.provider_invocation_count + a.warmup_skipped_decision_count
              ≡ s.provider.provider_invocation_count + s.provider.warmup_skipped_decision_count + 0)
            same (omega arith),
        subst
            (λ (a : AdapterState S).
              a.warmup_skipped_decision_count ≡ s.provider.warmup_skipped_decision_count + 0)
            same (omega arith),
      )
  run_from-Counts s i (c ∷ cs) h fits ran =
      let on_close = on_bar_close digest_view (feed_of b) on_bar in
      let (s₁, stepped, others) =
        >>=-eq-ok (step ctx policy on_close symbol timeframe s c i) _ ran in
      let (context, xs, at, coerced, provider) =
        step-provider ctx policy on_close symbol timeframe s c i stepped in
      let (v, viewed, _) =
        view_at-IsBundle hash digest_view b context.bar_index h (omega (arith, at)) in
      let one =
        on_bar_close-Counts digest_view (feed_of b) on_bar s.provider context viewed coerced in
      let now =
        subst
          (λ (a : AdapterState S).
            Counts s.provider a 1 (skipped (view_at digest_view (feed_of b) context.bar_index)))
          (sym provider) one in
      let here = ap (λ (k : ℕ). skipped (view_at digest_view (feed_of b) k)) at in
      let (total, unready) = run_from-Counts s₁ (i + 1) cs h (omega arith) others in
      (omega (arith, total, now.asked_or_skipped), omega (arith, unready, now.skips, here))
