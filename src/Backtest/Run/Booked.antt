-- ===== src/Backtest/Run/Booked.antt =====
-- The ledger through the steps of a bar, and through the loop.
use zorqen_research.Base.{
  ℕ, ◌+◌, ◌≡◌, refl, subst, Bool, false, Option, none, some, List, [], ◌∷◌, ok, >>=-eq-ok, ok_inj,
}
use zorqen_research.Decimal.{Decimal, Context}
use zorqen_research.Time.{Timeframe}
use Prim.Native.String.{String}
use zorqen_research.Market.Candle.{Candle}
use zorqen_research.Backtest.{FillReason, explicit_exit}
use zorqen_research.Backtest.Policy.{BacktestPolicy}
use zorqen_research.Backtest.Intent.{BacktestIntent, enter, exit}
use zorqen_research.Backtest.Engine.{OpenPosition, evaluate_protective}
use zorqen_research.Backtest.Engine.Fills.{evaluate_protective-not_entry}
use zorqen_research.Backtest.Run.{
  DecisionContext, Output, RunState, is_open, decision_context, coerce_provider_output,
  validate_and_select_intent, execute_intent, execute_pending, close_when, protect, decide, step,
  run_from,
}
use zorqen_research.Backtest.Run.Ledger.{IsBooked, close_position-IsBooked, open_position-IsBooked}

module _ (ctx : Context) (policy : BacktestPolicy) where
  execute_intent-IsBooked :
      {S : Type 0} (s : RunState S) (intent : BacktestIntent) (o : Option OpenPosition)
      (candle : Candle) (i : ℕ) {s' : RunState S}
      → IsBooked ctx policy s
      → s.position ≡ o
      → execute_intent ctx policy s intent o candle i ≡ ok s'
      → IsBooked ctx policy s'
  unfolding execute_intent
  execute_intent-IsBooked s (enter intent) none candle i booked at h =
      open_position-IsBooked ctx policy s intent candle i booked at h
  execute_intent-IsBooked s (enter intent) (some p) candle i booked at h = cc
  execute_intent-IsBooked s (exit intent) (some p) candle i booked at h =
      (close_position-IsBooked ctx policy s p (some intent.intent_id) candle i explicit_exit
        candle.open_price false booked at refl h).0
  execute_intent-IsBooked s (exit intent) none candle i booked at h = cc

  execute_pending-IsBooked :
      {S : Type 0} (s : RunState S) (pending : Option BacktestIntent) (candle : Candle) (i : ℕ)
      {s' : RunState S}
      → IsBooked ctx policy s
      → execute_pending ctx policy s pending candle i ≡ ok s'
      → IsBooked ctx policy s'
  unfolding execute_pending
  execute_pending-IsBooked s none candle i booked h = subst (IsBooked ctx policy) (ok_inj h) booked
  execute_pending-IsBooked s (some intent) candle i booked h =
      let (t, done, h1) = >>=-eq-ok (execute_intent ctx policy s intent s.position candle i) _ h in
      let b = execute_intent-IsBooked s intent s.position candle i booked refl done in
      subst (IsBooked ctx policy) (ok_inj h1) (record {
        ledger = b.ledger;
        fill_count = b.fill_count;
        trade_count = b.trade_count;
        position_count = b.position_count;
      })

  close_when-IsBooked :
      {S : Type 0} (s : RunState S) (p : OpenPosition)
      (trigger : Option (FillReason × Decimal × Bool)) (candle : Candle) (i : ℕ) {s' : RunState S}
      → IsBooked ctx policy s
      → s.position ≡ some p
      → evaluate_protective ctx policy p.snapshot candle ≡ trigger
      → close_when ctx policy s p trigger candle i ≡ ok s'
      → IsBooked ctx policy s'
  unfolding close_when
  close_when-IsBooked s p none candle i booked at made h =
      subst (IsBooked ctx policy) (ok_inj h) booked
  close_when-IsBooked s p (some (reason, reference, ambiguity)) candle i booked at made h =
      (close_position-IsBooked ctx policy s p none candle i reason reference ambiguity booked at
        (evaluate_protective-not_entry ctx policy p.snapshot candle made) h).0

  protect-IsBooked :
      {S : Type 0} (s : RunState S) (o : Option OpenPosition) (candle : Candle) (i : ℕ)
      {s' : RunState S}
      → IsBooked ctx policy s
      → s.position ≡ o
      → protect ctx policy s o candle i ≡ ok s'
      → IsBooked ctx policy s'
  unfolding protect
  protect-IsBooked s none candle i booked at h = subst (IsBooked ctx policy) (ok_inj h) booked
  protect-IsBooked s (some p) candle i booked at h =
      close_when-IsBooked s p (evaluate_protective ctx policy p.snapshot candle) candle i booked at
        refl h

  module _ {S : Type 0} (on_bar_close : S → DecisionContext → Output × S) (symbol : String)
      (timeframe : Timeframe) where
    decide-IsBooked :
        (s : RunState S) (candle : Candle) (i : ℕ) {s' : RunState S}
        → IsBooked ctx policy s
        → decide ctx policy on_bar_close symbol timeframe s candle i ≡ ok s'
        → IsBooked ctx policy s'
    unfolding decide
    decide-IsBooked s candle i b h =
        let o =
          on_bar_close s.provider
            (decision_context ctx policy on_bar_close symbol timeframe s candle i) in
        let (chosen, coerced, h1) = >>=-eq-ok (coerce_provider_output o.0) _ h in
        let (pending, valid, h2) =
          >>=-eq-ok
            (validate_and_select_intent ctx policy chosen candle.open_time (is_open s.position)) _
            h1 in
        subst (IsBooked ctx policy) (ok_inj h2) (record {
          ledger = b.ledger;
          fill_count = b.fill_count;
          trade_count = b.trade_count;
          position_count = b.position_count;
        })

    -- The body of the loop keeps the ledger in order.
    pub step-IsBooked :
        (s : RunState S) (candle : Candle) (i : ℕ) {s' : RunState S}
        → IsBooked ctx policy s
        → step ctx policy on_bar_close symbol timeframe s candle i ≡ ok s'
        → IsBooked ctx policy s'
    unfolding step
    step-IsBooked s candle i booked h =
        let (s₁, acted, h1) = >>=-eq-ok (execute_pending ctx policy s s.pending candle i) _ h in
        let (s₂, protected, h2) = >>=-eq-ok (protect ctx policy s₁ s₁.position candle i) _ h1 in
        decide-IsBooked s₂ candle i
          (protect-IsBooked s₁ s₁.position candle i
            (execute_pending-IsBooked s s.pending candle i booked acted) refl protected)
          h2

    pub run_from-IsBooked :
        (s : RunState S) (i : ℕ) (cs : List Candle) {s' : RunState S}
        → IsBooked ctx policy s
        → run_from ctx policy on_bar_close symbol timeframe s i cs ≡ ok s'
        → IsBooked ctx policy s'
    unfolding run_from
    run_from-IsBooked s i [] booked h = subst (IsBooked ctx policy) (ok_inj h) booked
    run_from-IsBooked s i (c ∷ cs) booked h =
        let (t, stepped, rest) =
          >>=-eq-ok (step ctx policy on_bar_close symbol timeframe s c i) _ h in
        run_from-IsBooked t (i + 1) cs (step-IsBooked s c i booked stepped) rest
