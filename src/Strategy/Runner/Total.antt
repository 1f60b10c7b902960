-- ===== src/Strategy/Runner/Total.antt =====
-- What `MultiTimeframeBacktestRunner.run` in
-- src/zorqen_research/application/strategy_backtesting/runner.py adds to the engine.
use zorqen_research.Market.Series.Grid.{IsGrid}
use zorqen_research.Base.{
  ℕ, ◌+◌, ◌≡◌, refl, ap, sym, subst, ◌∙◌, some, List, Result, ok, err, >>=-eq-ok, >>-eq-ok, ok_inj,
  arith, ==_self,
}
use Prim.Native.String.{String}
use zorqen_research.Decimal.{Context}
use zorqen_research.Time.{Timeframe}
use zorqen_research.Market.Candle.{Candle}
use zorqen_research.Market.Alignment.{Payload}
use zorqen_research.Market.Alignment.Multi.{MultiPayload}
use zorqen_research.Backtest.{BacktestError, validation, input_hash_mismatch}
use zorqen_research.Backtest.Policy.{BacktestPolicy}
use zorqen_research.Backtest.Run.{Output, run_from}
use zorqen_research.Backtest.Summary.{
  BacktestResult, validate_candles, initial_state, build_summary,
}
use zorqen_research.Backtest.Summary.Grid.{IsGrid-validate_candles}
use zorqen_research.Backtest.Result.{run, close_last, mismatch}
use zorqen_research.Strategy.{StrategyInstance, StrategyError, engine}
use zorqen_research.Strategy.Input.{BundleDocument, MultiTimeframeBacktestInput, from_verified}
use zorqen_research.Strategy.Input.Bound.{IsBundle, from_verified-IsBundle}
use zorqen_research.Strategy.View.{ViewDocument}
use zorqen_research.Strategy.View.Lookahead.{feed_of, from_input-IsBundle}
use zorqen_research.Strategy.Provider.{MultiTimeframeContext, AdapterState, on_bar_close}
use zorqen_research.Strategy.Runner.{
  EnvelopeDocument, StrategyBacktestEnvelope, from_run, envelope_of, provider_after, fresh_adapter,
  run_strategy,
}
use zorqen_research.Strategy.Runner.Direct.{str_eq_self, start_of, direct_run, run-direct}
use zorqen_research.Strategy.Runner.Counted.{count_unready, run_from-Counts}

-- The envelope of a run: its result, and its counts of the bars that the strategy was asked about and
-- of those that were skipped since the view was not ready.
pub record IsEnvelope (digest_view : ViewDocument → String) (b : MultiTimeframeBacktestInput)
    (r : BacktestResult) (e : StrategyBacktestEnvelope) : Type 0 where
  pub result : e.result ≡ r
  pub of_bundle : e.input_bundle_hash ≡ b.input_bundle_hash
  pub every_bar :
      e.provider_invocation_count + e.warmup_skipped_decision_count ≡ b.execution_candle_count
  pub skips :
      e.warmup_skipped_decision_count
      ≡ count_unready digest_view (feed_of b) 0 b.execution_candle_count

-- What the runner ends with against what the engine ended with.
abbrev pub Follows :
    (ViewDocument → String)
    → MultiTimeframeBacktestInput
    → Result BacktestError BacktestResult
    → Result StrategyError StrategyBacktestEnvelope
    → Type 0
Follows digest_view b (ok r) (ok e) = IsEnvelope digest_view b r e
Follows digest_view b (err x) (err (engine y)) = x ≡ y
Follows digest_view b _ _ = ⊥

module _ {S : Type 0} (ctx : Context) (hash : List Candle → String)
    (hash_policy : BacktestPolicy → String) (hash_result : BacktestResult → String)
    (digest_view : ViewDocument → String) (digest_envelope : EnvelopeDocument → String)
    (on_bar : S → MultiTimeframeContext → Output × S) where
  -- The engine under the adapter.
  abbrev engine_run :
      MultiTimeframeBacktestInput → BacktestPolicy → S → Result BacktestError BacktestResult
  engine_run b policy provider =
      run ctx policy (on_bar_close digest_view (feed_of b) on_bar) b.symbol b.execution_timeframe
        hash hash_policy hash_result
        (fresh_adapter ctx hash hash_policy hash_result digest_view digest_envelope on_bar provider)
        b.execution_candles (some b.execution_candle_sha256)

  -- A run of the engine that returns, with the counts of its adapter.
  engine_run-inversion :
      (b : MultiTimeframeBacktestInput) (policy : BacktestPolicy) (provider : S)
      {r : BacktestResult}
      → IsBundle hash b
      → engine_run b policy provider ≡ ok r
      → (a : AdapterState S) × (provider_after ctx policy
            (on_bar_close digest_view (feed_of b) on_bar)
            b.symbol
            b.execution_timeframe
            (fresh_adapter ctx hash hash_policy hash_result digest_view digest_envelope on_bar
              provider)
            b.execution_candles
          ≡ ok a)
        × (a.provider_invocation_count + a.warmup_skipped_decision_count ≡ b.execution_candle_count)
        × (a.warmup_skipped_decision_count
            ≡ count_unready digest_view (feed_of b) 0 b.execution_candle_count)
        × (r.summary.policy_hash ≡ hash_policy policy)
        × (r.summary.input_candle_hash ≡ b.execution_candle_sha256)
  unfolding run provider_after build_summary
  engine_run-inversion b policy provider {r} h ran =
      let start =
        fresh_adapter ctx hash hash_policy hash_result digest_view digest_envelope on_bar
          provider in
      let on_close = on_bar_close digest_view (feed_of b) on_bar in
      let candles = b.execution_candles in
      let e = h.series in
      let accepted : validate_candles b.execution_timeframe candles ≡ ok candles =
        subst (λ xs. validate_candles b.execution_timeframe xs ≡ ok xs) (sym e.nonempty)
          (IsGrid-validate_candles b.execution_timeframe e.head e.tail e.aligned
            (subst (λ xs. IsGrid b.execution_timeframe e.head.open_time xs) e.nonempty e.grid)) in
      let (cs, valid, h1) = >>=-eq-ok (validate_candles b.execution_timeframe candles) _ ran in
      let (_, h2) =
        >>-eq-ok (mismatch (some b.execution_candle_sha256) (hash cs))
          (validation input_hash_mismatch) h1 in
      let (s, looped, h3) =
        >>=-eq-ok
          (run_from ctx policy on_close b.symbol b.execution_timeframe
            (initial_state ctx policy start) 0 cs)
          _ h2 in
      let (s', closed, h4) = >>=-eq-ok (close_last ctx policy s cs) _ h3 in
      let same : cs ≡ candles = sym (ok_inj (sym accepted ∙ valid)) in
      let ran_on : run_from ctx policy on_close b.symbol b.execution_timeframe
            (initial_state ctx policy start) 0 candles
          ≡ ok s =
        subst
          (λ xs.
            run_from ctx policy on_close b.symbol b.execution_timeframe
              (initial_state ctx policy start) 0 xs
            ≡ ok s)
          same looped in
      let (total, skips) =
        run_from-Counts ctx policy hash digest_view b on_bar b.symbol b.execution_timeframe
          (initial_state ctx policy start) 0 candles h (omega (arith, h.count)) ran_on in
      let long = ap (λ (n : ℕ). count_unready digest_view (feed_of b) 0 n) h.count in
      (
        s.provider,
        rw accepted (rw ran_on refl),
        omega (arith, total, h.count),
        omega (arith, skips, long),
        sym (ap (λ (x : BacktestResult). x.summary.policy_hash) (ok_inj h4)),
        sym (ap (λ (x : BacktestResult). x.summary.input_candle_hash) (ok_inj h4))
            ∙ ap hash same
            ∙ sym h.hashed,
      )

  run_strategy-IsBundle :
      (b : MultiTimeframeBacktestInput) (policy : BacktestPolicy) (provider : S)
      (m : Result BacktestError BacktestResult)
      → IsBundle hash b
      → engine_run b policy provider ≡ m
      → Follows digest_view b m (
          run_strategy ctx hash hash_policy hash_result digest_view digest_envelope on_bar b policy
            provider)
  unfolding run_strategy from_run
  run_strategy-IsBundle b policy provider (ok r) h ran =
      let (a, after, total, skips, policy_hash, input_hash) =
        engine_run-inversion b policy provider h ran in
      let e =
        envelope_of hash_policy digest_envelope b policy r a.provider_invocation_count
          a.warmup_skipped_decision_count in
      let made : run_strategy ctx hash hash_policy hash_result digest_view digest_envelope on_bar b
            policy provider
          ≡ ok e =
        rw (from_input-IsBundle hash b h) (
          rw ran (
            rw after (
              rw (total, ==_self b.execution_candle_count)
                (rw (policy_hash, str_eq_self (hash_policy policy))
                  (rw (input_hash, str_eq_self b.execution_candle_sha256) refl))))) in
      rw made (record { result = refl; of_bundle = refl; every_bar = total; skips = skips })
  run_strategy-IsBundle b policy provider (err x) h failed =
      let raised : run_strategy ctx hash hash_policy hash_result digest_view digest_envelope on_bar
            b policy provider
          ≡ err (engine x) =
        rw (from_input-IsBundle hash b h) (rw failed refl) in
      rw raised refl

  -- For an accepted input the runner follows the engine with a strategy that is shown the view of every
  -- bar directly: no check of what the engine asks for, of the feed or of the envelope refuses. It
  -- returns an envelope where that engine returns a result, raises what it raises, and raises nothing
  -- else. A bar whose view is ready has the intents that the strategy returns, where they are a tuple
  -- whose entries are in supported directions, and an exception else; any other bar has none. The
  -- envelope has the engine's result; its two counts add up to the bars of the execution series, and the
  -- bars that it counts as skipped are those whose view is not ready.
  pub run_strategy-Follows :
      (digest : Payload → String) (digest_multi : MultiPayload → String)
      (digest_bundle : BundleDocument → String) (strategy : StrategyInstance) (symbol : String)
      (candles : List Candle) (series : List (Timeframe × List Candle)) (policy : BacktestPolicy)
      (provider : S) {b : MultiTimeframeBacktestInput}
      → from_verified hash digest digest_multi digest_bundle strategy symbol candles series ≡ ok b
      → Follows digest_view b
          (direct_run ctx hash hash_policy hash_result digest_view on_bar b policy
            (start_of provider))
          (run_strategy ctx hash hash_policy hash_result digest_view digest_envelope on_bar b policy
            provider)
  run_strategy-Follows digest digest_multi digest_bundle strategy symbol candles series policy
        provider {b} accepted =
      let h =
        from_verified-IsBundle hash digest digest_multi digest_bundle strategy symbol candles series
          accepted in
      run_strategy-IsBundle b policy provider
        (direct_run ctx hash hash_policy hash_result digest_view on_bar b policy
          (start_of provider))
        h
        (run-direct ctx hash hash_policy hash_result digest_view on_bar b policy (start_of provider)
          h)
