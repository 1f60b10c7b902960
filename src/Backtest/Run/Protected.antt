-- ===== src/Backtest/Run/Protected.antt =====
-- The protective levels of the position that is open when a bar ends.
use zorqen_research.Base.{
  ℕ, ◌≡◌, refl, sym, ap, subst, Bool, false, Option, none, some, ok, >>=-eq-ok, ok_inj, arith,
}
use zorqen_research.Decimal.{Decimal, Context}
use zorqen_research.Time.{Timeframe}
use Prim.Native.String.{String}
use zorqen_research.Market.Candle.{Candle}
use zorqen_research.Backtest.{FillReason, PositionSnapshot}
use zorqen_research.Backtest.Policy.{BacktestPolicy}
use zorqen_research.Backtest.Engine.{
  OpenPosition, evaluate_protective, stop_hit, target_hit, execute_exit,
}
use zorqen_research.Backtest.Run.{
  DecisionContext, Output, RunState, is_open, decision_context, coerce_provider_output,
  validate_and_select_intent, close_position, close_when, execute_pending, protect, decide, step,
}

module _ (ctx : Context) (policy : BacktestPolicy) where
  evaluate_protective-eq-none :
      (snapshot : PositionSnapshot) (candle : Candle)
      → evaluate_protective ctx policy snapshot candle ≡ none
      → (stop_hit ctx policy snapshot candle ≡ false)
        × (target_hit ctx policy snapshot candle ≡ false)
  unfolding evaluate_protective
  evaluate_protective-eq-none snapshot candle h = ground arith

  -- Neither level of the open position was touched by the bar.
  abbrev pub IsUntouched : Candle → Option OpenPosition → Type 0
  IsUntouched candle none = Unit
  IsUntouched candle (some p) =
      (stop_hit ctx policy p.snapshot candle ≡ false)
      × (target_hit ctx policy p.snapshot candle ≡ false)

  close_when-IsUntouched :
      {S : Type 0} (s : RunState S) (p : OpenPosition)
      (trigger : Option (FillReason × Decimal × Bool)) (candle : Candle) (i : ℕ) {s' : RunState S}
      → s.position ≡ some p
      → evaluate_protective ctx policy p.snapshot candle ≡ trigger
      → close_when ctx policy s p trigger candle i ≡ ok s'
      → IsUntouched candle s'.position
  unfolding close_when close_position
  close_when-IsUntouched s p none candle i at made h =
      subst (λ s''. IsUntouched candle s''.position) (ok_inj h)
        (subst (IsUntouched candle) (sym at) (evaluate_protective-eq-none p.snapshot candle made))
  close_when-IsUntouched s p (some (reason, reference, ambiguity)) candle i at made h =
      let ((f, t, e), _, h1) =
        >>=-eq-ok (execute_exit ctx policy p none candle i _ _ _ _ _ _) _ h in
      subst (λ s''. IsUntouched candle s''.position) (ok_inj h1) tt

  protect-IsUntouched :
      {S : Type 0} (s : RunState S) (o : Option OpenPosition) (candle : Candle) (i : ℕ)
      {s' : RunState S}
      → s.position ≡ o
      → protect ctx policy s o candle i ≡ ok s'
      → IsUntouched candle s'.position
  unfolding protect
  protect-IsUntouched s none candle i at h =
      subst (λ s''. IsUntouched candle s''.position) (ok_inj h)
        (subst (IsUntouched candle) (sym at) tt)
  protect-IsUntouched s (some p) candle i at h =
      close_when-IsUntouched s p (evaluate_protective ctx policy p.snapshot candle) candle i at refl
        h

  module _ {S : Type 0} (on_bar_close : S → DecisionContext → Output × S) (symbol : String)
      (timeframe : Timeframe) where
    pub decide-position :
        (s : RunState S) (candle : Candle) (i : ℕ) {s' : RunState S}
        → decide ctx policy on_bar_close symbol timeframe s candle i ≡ ok s'
        → s'.position ≡ s.position
    unfolding decide
    decide-position s candle i h =
        let o =
          on_bar_close s.provider
            (decision_context ctx policy on_bar_close symbol timeframe s candle i) in
        let (chosen, coerced, h1) = >>=-eq-ok (coerce_provider_output o.0) _ h in
        let (pending, valid, h2) =
          >>=-eq-ok
            (validate_and_select_intent ctx policy chosen candle.open_time (is_open s.position)) _
            h1 in
        sym (ap (λ (s : RunState S). s.position) (ok_inj h2))

    -- A position that is open when a bar ends, be it entered in this bar or before, was not touched
    -- by the bar at its stop nor at its target: the bar that touches one closes the position.
    pub step-IsUntouched :
        (s : RunState S) (candle : Candle) (i : ℕ) {s' : RunState S}
        → step ctx policy on_bar_close symbol timeframe s candle i ≡ ok s'
        → IsUntouched candle s'.position
    unfolding step
    step-IsUntouched s candle i h =
        let (s₁, acted, h1) = >>=-eq-ok (execute_pending ctx policy s s.pending candle i) _ h in
        let (s₂, protected, h2) = >>=-eq-ok (protect ctx policy s₁ s₁.position candle i) _ h1 in
        subst (IsUntouched candle) (sym (decide-position s₂ candle i h2))
          (protect-IsUntouched s₁ s₁.position candle i refl protected)
