-- ===== src/Backtest/Run/Asked.antt =====
-- What the loop of src/zorqen_research/application/backtesting/engine.py does to the state of its
-- provider.
use zorqen_research.Base.{
  ℕ, ◌+◌, ◌≡◌, refl, ap, sym, subst, ◌∙◌, Bool, false, Option, none, some, List, ok, >>=-eq-ok,
  ok_inj,
}
use Prim.Native.String.{String}
use zorqen_research.Decimal.{Decimal, Context}
use zorqen_research.Time.{Timeframe}
use zorqen_research.Market.Candle.{Candle}
use zorqen_research.Backtest.{FillReason, explicit_exit}
use zorqen_research.Backtest.Policy.{BacktestPolicy}
use zorqen_research.Backtest.Intent.{BacktestIntent, enter, exit}
use zorqen_research.Backtest.Engine.{OpenPosition, execute_entry, execute_exit, evaluate_protective}
use zorqen_research.Backtest.Run.{
  DecisionContext, Output, RunState, Item, is_open, decision_context, coerce_provider_output,
  validate_and_select_intent, close_position, open_position, execute_intent, execute_pending,
  close_when, protect, decide, step,
}

-- Only the decision at the close changes the provider's state.
module _ {S : Type 0} (ctx : Context) (policy : BacktestPolicy) where
  close_position-provider :
      (s : RunState S) (p : OpenPosition) (id : Option (List ℕ)) (c : Candle) (i : ℕ)
      (reason : FillReason) (price : Decimal) (amb : Bool) {s' : RunState S}
      → close_position ctx policy s p id c i reason price amb ≡ ok s'
      → s'.provider ≡ s.provider
  unfolding close_position
  close_position-provider s p id c i reason price amb h =
      let (_, _, h1) =
        >>=-eq-ok
          (execute_exit ctx policy p id c i (s.fill_seq + 1) (s.trade_seq + 1) reason price s.equity
            amb)
          _ h in
      sym (ap (λ (x : RunState S). x.provider) (ok_inj h1))

  execute_intent-provider :
      (s : RunState S) (intent : BacktestIntent) (position : Option OpenPosition) (c : Candle)
      (i : ℕ) {s' : RunState S}
      → execute_intent ctx policy s intent position c i ≡ ok s'
      → s'.provider ≡ s.provider
  unfolding execute_intent open_position
  execute_intent-provider s (enter intent) none c i h =
      let (_, _, h1) =
        >>=-eq-ok
          (execute_entry ctx policy intent c i (s.fill_seq + 1) (s.position_seq + 1) s.equity) _
          h in
      sym (ap (λ (x : RunState S). x.provider) (ok_inj h1))
  execute_intent-provider s (enter intent) (some p) c i h = cc
  execute_intent-provider s (exit intent) none c i h = cc
  execute_intent-provider s (exit intent) (some p) c i h =
      close_position-provider s p (some intent.intent_id) c i explicit_exit c.open_price false h

  execute_pending-provider :
      (s : RunState S) (pending : Option BacktestIntent) (c : Candle) (i : ℕ) {s' : RunState S}
      → execute_pending ctx policy s pending c i ≡ ok s'
      → s'.provider ≡ s.provider
  unfolding execute_pending
  execute_pending-provider s none c i h = sym (ap (λ (x : RunState S). x.provider) (ok_inj h))
  execute_pending-provider s (some intent) c i h =
      let (s₁, done, h1) = >>=-eq-ok (execute_intent ctx policy s intent s.position c i) _ h in
      sym (ap (λ (x : RunState S). x.provider) (ok_inj h1))
      ∙ execute_intent-provider s intent s.position c i done

  close_when-provider :
      (s : RunState S) (p : OpenPosition) (hit : Option (FillReason × Decimal × Bool)) (c : Candle)
      (i : ℕ) {s' : RunState S}
      → close_when ctx policy s p hit c i ≡ ok s'
      → s'.provider ≡ s.provider
  unfolding close_when
  close_when-provider s p none c i h = sym (ap (λ (x : RunState S). x.provider) (ok_inj h))
  close_when-provider s p (some (reason, price, amb)) c i h =
      close_position-provider s p none c i reason price amb h

  protect-provider :
      (s : RunState S) (position : Option OpenPosition) (c : Candle) (i : ℕ) {s' : RunState S}
      → protect ctx policy s position c i ≡ ok s'
      → s'.provider ≡ s.provider
  unfolding protect
  protect-provider s none c i h = sym (ap (λ (x : RunState S). x.provider) (ok_inj h))
  protect-provider s (some p) c i h =
      close_when-provider s p (evaluate_protective ctx policy p.snapshot c) c i h

  module _ (on_close : S → DecisionContext → Output × S) (symbol : String)
      (timeframe : Timeframe) where
    -- A step that returns asked the provider once, in the state it had before, and was given a tuple.
    pub step-provider :
        (s : RunState S) (c : Candle) (i : ℕ) {s' : RunState S}
        → step ctx policy on_close symbol timeframe s c i ≡ ok s'
        → (context : DecisionContext) × (xs : List Item) × (context.bar_index ≡ i)
          × (coerce_provider_output (on_close s.provider context).0 ≡ ok xs)
          × (s'.provider ≡ (on_close s.provider context).1)
    unfolding step decide
    step-provider s c i h =
        let (s₁, acted, h1) = >>=-eq-ok (execute_pending ctx policy s s.pending c i) _ h in
        let (s₂, protected, h2) = >>=-eq-ok (protect ctx policy s₁ s₁.position c i) _ h1 in
        let context = decision_context ctx policy on_close symbol timeframe s₂ c i in
        let o = on_close s₂.provider context in
        let (chosen, coerced, h3) = >>=-eq-ok (coerce_provider_output o.0) _ h2 in
        let (_, _, h4) =
          >>=-eq-ok (validate_and_select_intent ctx policy chosen c.open_time (is_open s₂.position))
            _ h3 in
        let same =
          protect-provider s₁ s₁.position c i protected
          ∙ execute_pending-provider s s.pending c i acted in
        (
          context,
          chosen,
          refl,
          subst (λ p. coerce_provider_output (on_close p context).0 ≡ ok chosen) same coerced,
          sym (ap (λ (x : RunState S). x.provider) (ok_inj h4))
              ∙ ap (λ p. (on_close p context).1) same,
        )
