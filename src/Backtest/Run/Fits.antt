-- ===== src/Backtest/Run/Fits.antt =====
-- The pending intent of the loop against its position.
use zorqen_research.Base.{
  ℕ, ◌+◌, ◌==◌, ◌≡◌, refl, ap, subst, Bool, true, false, not, Option, none, some, List, [], ◌∷◌, ok,
  ◌>>◌, >>=-eq-ok, >>-eq-ok, raise_if, ok_inj, arith,
}
use zorqen_research.Decimal.{Decimal, Context}
use zorqen_research.Time.{Timeframe}
use Prim.Native.String.{String}
use zorqen_research.Market.Candle.{Candle}
use zorqen_research.Backtest.{
  wrong_decision_time, entry_while_open, exit_while_flat, validation, FillReason, explicit_exit,
  Text,
}
use zorqen_research.Backtest.Policy.{BacktestPolicy}
use zorqen_research.Backtest.Intent.{
  EnterIntent, ExitIntent, BacktestIntent, enter, exit, validate_for_policy, validate_exit,
}
use zorqen_research.Backtest.Engine.{OpenPosition, evaluate_protective, execute_entry, execute_exit}
use zorqen_research.Backtest.Run.Conflicts.{
  clashes, clashes_bind, policy_safe, exit_safe, entry_safe, exit_fill_safe,
}
use zorqen_research.Backtest.Engine.Fills.{not-false}
use zorqen_research.Backtest.Run.{
  DecisionContext, Item, enter_item, exit_item, other_item, Output, RunState, is_open,
  decision_context, coerce_provider_output, select_item, validate_and_select_intent, close_position,
  open_position, execute_intent, execute_pending, close_when, protect, decide, step, run_from,
}

module _ (ctx : Context) (policy : BacktestPolicy) where
  pub close_position_safe :
      {S : Type 0} (s : RunState S) (p : OpenPosition) (id : Option Text) (candle : Candle) (i : ℕ)
      (reason : FillReason) (reference : Decimal) (ambiguous : Bool)
      → clashes (close_position ctx policy s p id candle i reason reference ambiguous) ≡ false
  unfolding close_position
  close_position_safe s p id candle i reason reference ambiguous =
      clashes_bind (execute_exit ctx policy p id candle i _ _ reason reference s.equity ambiguous) _
        (exit_fill_safe ctx policy p id candle i _ _ reason reference s.equity ambiguous)
        (λ o _. refl)

  open_position_safe :
      {S : Type 0} (s : RunState S) (intent : EnterIntent) (candle : Candle) (i : ℕ)
      → clashes (open_position ctx policy s intent candle i) ≡ false
  unfolding open_position
  open_position_safe s intent candle i =
      clashes_bind (execute_entry ctx policy intent candle i _ _ s.equity) _
        (entry_safe ctx policy intent candle i _ _ s.equity) (λ o _. refl)

  -- An entry is pending while flat, an exit while a position is open.
  abbrev pub fits : Option BacktestIntent → Bool → Bool
  fits none has_position = true
  fits (some (enter intent)) has_position = not has_position
  fits (some (exit intent)) has_position = has_position

  execute_intent_safe :
      {S : Type 0} (s : RunState S) (intent : BacktestIntent) (o : Option OpenPosition)
      (candle : Candle) (i : ℕ)
      → fits (some intent) (is_open o) ≡ true
      → clashes (execute_intent ctx policy s intent o candle i) ≡ false
  unfolding execute_intent
  execute_intent_safe s (enter intent) none candle i h = open_position_safe s intent candle i
  execute_intent_safe s (enter intent) (some p) candle i h = cc
  execute_intent_safe s (exit intent) (some p) candle i h =
      close_position_safe s p (some intent.intent_id) candle i explicit_exit candle.open_price false
  execute_intent_safe s (exit intent) none candle i h = cc

  execute_pending_safe :
      {S : Type 0} (s : RunState S) (pending : Option BacktestIntent) (candle : Candle) (i : ℕ)
      → fits pending (is_open s.position) ≡ true
      → clashes (execute_pending ctx policy s pending candle i) ≡ false
  unfolding execute_pending
  execute_pending_safe s none candle i h = refl
  execute_pending_safe s (some intent) candle i h =
      clashes_bind (execute_intent ctx policy s intent s.position candle i) _
        (execute_intent_safe s intent s.position candle i h) (λ o _. refl)

  close_when_safe :
      {S : Type 0} (s : RunState S) (p : OpenPosition)
      (trigger : Option (FillReason × Decimal × Bool)) (candle : Candle) (i : ℕ)
      → clashes (close_when ctx policy s p trigger candle i) ≡ false
  unfolding close_when
  close_when_safe s p none candle i = refl
  close_when_safe s p (some (reason, reference, ambiguity)) candle i =
      close_position_safe s p none candle i reason reference ambiguity

  protect_safe :
      {S : Type 0} (s : RunState S) (o : Option OpenPosition) (candle : Candle) (i : ℕ)
      → clashes (protect ctx policy s o candle i) ≡ false
  unfolding protect
  protect_safe s none candle i = refl
  protect_safe s (some p) candle i =
      close_when_safe s p (evaluate_protective ctx policy p.snapshot candle) candle i

  coerce_safe : (o : Output) → clashes (coerce_provider_output o) ≡ false
  unfolding coerce_provider_output
  coerce_safe o = ground arith

  select_safe :
      (item : Item) (t : ℕ) (has_position : Bool)
      → clashes (select_item ctx policy item t has_position) ≡ false
  unfolding select_item
  select_safe (enter_item r) t has_position = ground (arith, policy_safe ctx policy r)
  select_safe (exit_item r) t has_position = ground (arith, exit_safe r)
  select_safe other_item t has_position = refl

  entry-fits :
      (intent : EnterIntent) (t : ℕ) (has_position : Bool) {chosen : BacktestIntent}
      → (raise_if (not (intent.decision_open_time == t)) (validation wrong_decision_time)
          >> (raise_if has_position (validation entry_while_open) >> ok (enter intent)))
        ≡ ok chosen
      → fits (some chosen) has_position ≡ true
  entry-fits intent t has_position h =
      let (same, h1) = >>-eq-ok _ _ h in
      let (flat, h2) = >>-eq-ok has_position _ h1 in
      subst (λ x. fits (some x) has_position ≡ true) {x = enter intent} (ok_inj h2) (ap not flat)

  exit-fits :
      (intent : ExitIntent) (t : ℕ) (has_position : Bool) {chosen : BacktestIntent}
      → (raise_if (not (intent.decision_open_time == t)) (validation wrong_decision_time)
          >> (raise_if (not has_position) (validation exit_while_flat) >> ok (exit intent)))
        ≡ ok chosen
      → fits (some chosen) has_position ≡ true
  exit-fits intent t has_position h =
      let (same, h1) = >>-eq-ok _ _ h in
      let (opened, h2) = >>-eq-ok (not has_position) _ h1 in
      subst (λ x. fits (some x) has_position ≡ true) {x = exit intent} (ok_inj h2)
        (not-false opened)

  select-fits :
      (item : Item) (t : ℕ) (has_position : Bool) {intent : BacktestIntent}
      → select_item ctx policy item t has_position ≡ ok intent
      → fits (some intent) has_position ≡ true
  unfolding select_item
  select-fits (enter_item r) t has_position h =
      let (intent, _, h1) = >>=-eq-ok (validate_for_policy ctx policy r) _ h in
      entry-fits intent t has_position h1
  select-fits (exit_item r) t has_position h =
      let (intent, _, h1) = >>=-eq-ok (validate_exit r) _ h in exit-fits intent t has_position h1
  select-fits other_item t has_position h = cc

  validate_safe :
      (is : List Item) (t : ℕ) (has_position : Bool)
      → clashes (validate_and_select_intent ctx policy is t has_position) ≡ false
  unfolding validate_and_select_intent
  validate_safe [] t has_position = refl
  validate_safe (i ∷ []) t has_position =
      clashes_bind (select_item ctx policy i t has_position) _ (select_safe i t has_position)
        (λ _ _. refl)
  validate_safe (i ∷ j ∷ is) t has_position = refl

  validate-fits :
      (is : List Item) (t : ℕ) (has_position : Bool) {pending : Option BacktestIntent}
      → validate_and_select_intent ctx policy is t has_position ≡ ok pending
      → fits pending has_position ≡ true
  unfolding validate_and_select_intent
  validate-fits [] t has_position h = subst (λ x. fits x has_position ≡ true) (ok_inj h) refl
  validate-fits (i ∷ []) t has_position h =
      let (intent, chosen, h1) = >>=-eq-ok (select_item ctx policy i t has_position) _ h in
      subst (λ x. fits x has_position ≡ true) (ok_inj h1) (select-fits i t has_position chosen)
  validate-fits (i ∷ j ∷ is) t has_position h = cc

  module _ {S : Type 0} (on_bar_close : S → DecisionContext → Output × S) (symbol : String)
      (timeframe : Timeframe) where
    decide_safe :
        (s : RunState S) (candle : Candle) (i : ℕ)
        → clashes (decide ctx policy on_bar_close symbol timeframe s candle i) ≡ false
    unfolding decide
    decide_safe s candle i =
        let o =
          on_bar_close s.provider
            (decision_context ctx policy on_bar_close symbol timeframe s candle i) in
        clashes_bind (coerce_provider_output o.0) _ (coerce_safe o.0) (λ chosen _.
          clashes_bind
            (validate_and_select_intent ctx policy chosen candle.open_time (is_open s.position)) _
            (validate_safe chosen candle.open_time (is_open s.position)) (λ _ _. refl))

    decide-fits :
        (s : RunState S) (candle : Candle) (i : ℕ) {s' : RunState S}
        → decide ctx policy on_bar_close symbol timeframe s candle i ≡ ok s'
        → fits s'.pending (is_open s'.position) ≡ true
    unfolding decide
    decide-fits s candle i h =
        let o =
          on_bar_close s.provider
            (decision_context ctx policy on_bar_close symbol timeframe s candle i) in
        let (chosen, coerced, h1) = >>=-eq-ok (coerce_provider_output o.0) _ h in
        let (pending, valid, h2) =
          >>=-eq-ok
            (validate_and_select_intent ctx policy chosen candle.open_time (is_open s.position)) _
            h1 in
        subst (λ (s : RunState S). fits s.pending (is_open s.position) ≡ true) (ok_inj h2)
          (validate-fits chosen candle.open_time (is_open s.position) valid)

    step_safe :
        (s : RunState S) (candle : Candle) (i : ℕ)
        → fits s.pending (is_open s.position) ≡ true
        → clashes (step ctx policy on_bar_close symbol timeframe s candle i) ≡ false
    unfolding step
    step_safe s candle i h =
        clashes_bind (execute_pending ctx policy s s.pending candle i) _
          (execute_pending_safe s s.pending candle i h)
          (λ s₁ _.
            clashes_bind (protect ctx policy s₁ s₁.position candle i) _
              (protect_safe s₁ s₁.position candle i) (λ s₂ _. decide_safe s₂ candle i))

    step-fits :
        (s : RunState S) (candle : Candle) (i : ℕ) {s' : RunState S}
        → step ctx policy on_bar_close symbol timeframe s candle i ≡ ok s'
        → fits s'.pending (is_open s'.position) ≡ true
    unfolding step
    step-fits s candle i h =
        let (s₁, acted, h1) = >>=-eq-ok (execute_pending ctx policy s s.pending candle i) _ h in
        let (s₂, protected, h2) = >>=-eq-ok (protect ctx policy s₁ s₁.position candle i) _ h1 in
        decide-fits s₂ candle i h2

    -- From a state whose pending intent fits its position, the loop never raises "Cannot enter while
    -- a position is open" nor "Cannot exit while flat", whatever the provider returns: intents are
    -- checked when they are queued, and the position does not change before they are executed.
    pub run_from-clashes :
        (s : RunState S) (i : ℕ) (cs : List Candle)
        → fits s.pending (is_open s.position) ≡ true
        → clashes (run_from ctx policy on_bar_close symbol timeframe s i cs) ≡ false
    unfolding run_from
    run_from-clashes s i [] h = refl
    run_from-clashes s i (c ∷ cs) h =
        clashes_bind (step ctx policy on_bar_close symbol timeframe s c i) _ (step_safe s c i h)
          (λ s' e. run_from-clashes s' (i + 1) cs (step-fits s c i e))
