-- ===== src/Backtest/Run/Timing.antt =====
-- When the loop decides and when it fills.
use zorqen_research.Base.{
  ℕ, ◌+◌, ◌==◌, ◌≡◌, refl, ap, subst, Bool, false, not, Option, none, some, List, [], ◌∷◌, ok, ◌>>◌,
  >>=-eq-ok, >>-eq-ok, raise_if, ok_inj, arith,
}
use zorqen_research.Decimal.{Decimal, Context}
use zorqen_research.Market.Candle.{Candle}
use zorqen_research.Backtest.{
  Text, FillReason, explicit_exit, fill_price, stop_price, target_price, FillRecord, validation,
  wrong_decision_time, entry_while_open, exit_while_flat,
}
use zorqen_research.Backtest.Rules.{require_positive_price}
use zorqen_research.Backtest.Policy.{BacktestPolicy}
use zorqen_research.Backtest.Intent.{
  EnterIntent, ExitIntent, BacktestIntent, enter, exit, validate_for_policy, validate_exit,
  validate_brackets_against_fill,
}
use zorqen_research.Backtest.Engine.{OpenPosition, evaluate_protective, execute_entry, execute_exit}
use zorqen_research.Backtest.Run.{
  Item, enter_item, exit_item, other_item, RunState, select_item, validate_and_select_intent,
  close_position, open_position, execute_intent, execute_pending, close_when, protect,
}

abbrev pub decision_time : BacktestIntent → ℕ
decision_time (enter i) = i.decision_open_time
decision_time (exit i) = i.decision_open_time

-- The pending intent was decided on the bar before the one that opens at `u`.
abbrev pub IsDecided : ℕ → ℕ → Option BacktestIntent → Type 0
IsDecided d u none = Unit
IsDecided d u (some i) = decision_time i + d ≡ u

-- The open position was filled at the open of the bar after its decision.
abbrev pub IsNextBar : ℕ → Option OpenPosition → Type 0
IsNextBar d none = Unit
IsNextBar d (some p) = p.snapshot.entry_fill_time ≡ p.snapshot.entry_decision_time + d

==→≡ : (a b : ℕ) → not (a == b) ≡ false → a ≡ b
==→≡ a b h = ground arith

module _ (ctx : Context) (policy : BacktestPolicy) (d : ℕ) where
  execute_entry-times :
      (intent : EnterIntent) (candle : Candle) (i n m : ℕ) (equity : Decimal) {f : FillRecord}
      {p : OpenPosition} {e : Decimal}
      → execute_entry ctx policy intent candle i n m equity ≡ ok (f, p, e)
      → (p.snapshot.entry_fill_time ≡ candle.open_time)
        × (p.snapshot.entry_decision_time ≡ intent.decision_open_time)
  unfolding execute_entry
  execute_entry-times intent candle i n m equity {f} {p} {e} h =
      let (price, _, h1) = >>=-eq-ok (require_positive_price fill_price _) _ h in
      let (_, _, h2) = >>=-eq-ok (validate_brackets_against_fill intent price) _ h1 in
      let (_, h3) = >>-eq-ok _ _ h2 in
      let (stop, _, h4) = >>=-eq-ok (require_positive_price stop_price _) _ h3 in
      let (target, _, h5) = >>=-eq-ok (require_positive_price target_price _) _ h4 in
      let (_, h6) = >>-eq-ok _ _ h5 in
      subst
        (λ (o : FillRecord × OpenPosition × Decimal).
          (o.1.snapshot.entry_fill_time ≡ candle.open_time)
          × (o.1.snapshot.entry_decision_time ≡ intent.decision_open_time))
        (ok_inj h6) (refl, refl)

  close_position-IsNextBar :
      {S : Type 0} (s : RunState S) (p : OpenPosition) (id : Option Text) (candle : Candle) (i : ℕ)
      (reason : FillReason) (reference : Decimal) (ambiguous : Bool) {s' : RunState S}
      → close_position ctx policy s p id candle i reason reference ambiguous ≡ ok s'
      → IsNextBar d s'.position
  unfolding close_position
  close_position-IsNextBar s p id candle i reason reference ambiguous h =
      let (_, _, h1) =
        >>=-eq-ok (execute_exit ctx policy p id candle i _ _ reason reference s.equity ambiguous) _
          h in
      subst (λ s''. IsNextBar d s''.position) (ok_inj h1) tt

  open_position-IsNextBar :
      {S : Type 0} (s : RunState S) (intent : EnterIntent) (candle : Candle) (i : ℕ)
      {s' : RunState S}
      → intent.decision_open_time + d ≡ candle.open_time
      → open_position ctx policy s intent candle i ≡ ok s'
      → IsNextBar d s'.position
  unfolding open_position
  open_position-IsNextBar s intent candle i decided h =
      let ((f, p, e), made, h1) =
        >>=-eq-ok (execute_entry ctx policy intent candle i _ _ s.equity) _ h in
      let (filled, decision) = execute_entry-times intent candle i _ _ s.equity made in
      subst (λ s''. IsNextBar d s''.position) (ok_inj h1) (omega (arith, filled, decision, decided))

  execute_intent-IsNextBar :
      {S : Type 0} (s : RunState S) (intent : BacktestIntent) (o : Option OpenPosition)
      (candle : Candle) (i : ℕ) {s' : RunState S}
      → IsDecided d candle.open_time (some intent)
      → execute_intent ctx policy s intent o candle i ≡ ok s'
      → IsNextBar d s'.position
  unfolding execute_intent
  execute_intent-IsNextBar s (enter intent) none candle i decided h =
      open_position-IsNextBar s intent candle i decided h
  execute_intent-IsNextBar s (enter intent) (some p) candle i decided h = cc
  execute_intent-IsNextBar s (exit intent) (some p) candle i decided h =
      close_position-IsNextBar s p (some intent.intent_id) candle i explicit_exit candle.open_price
        false h
  execute_intent-IsNextBar s (exit intent) none candle i decided h = cc

  pub execute_pending-IsNextBar :
      {S : Type 0} (s : RunState S) (pending : Option BacktestIntent) (candle : Candle) (i : ℕ)
      {s' : RunState S}
      → IsDecided d candle.open_time pending
      → IsNextBar d s.position
      → execute_pending ctx policy s pending candle i ≡ ok s'
      → IsNextBar d s'.position
  unfolding execute_pending
  execute_pending-IsNextBar s none candle i decided next h =
      subst (λ s''. IsNextBar d s''.position) (ok_inj h) next
  execute_pending-IsNextBar s (some intent) candle i decided next h =
      let (t, done, h1) = >>=-eq-ok (execute_intent ctx policy s intent s.position candle i) _ h in
      subst (λ s''. IsNextBar d s''.position) (ok_inj h1)
        (execute_intent-IsNextBar s intent s.position candle i decided done)

  close_when-IsNextBar :
      {S : Type 0} (s : RunState S) (p : OpenPosition)
      (trigger : Option (FillReason × Decimal × Bool)) (candle : Candle) (i : ℕ) {s' : RunState S}
      → IsNextBar d s.position
      → close_when ctx policy s p trigger candle i ≡ ok s'
      → IsNextBar d s'.position
  unfolding close_when
  close_when-IsNextBar s p none candle i next h =
      subst (λ s''. IsNextBar d s''.position) (ok_inj h) next
  close_when-IsNextBar s p (some (reason, reference, ambiguity)) candle i next h =
      close_position-IsNextBar s p none candle i reason reference ambiguity h

  pub protect-IsNextBar :
      {S : Type 0} (s : RunState S) (o : Option OpenPosition) (candle : Candle) (i : ℕ)
      {s' : RunState S}
      → IsNextBar d s.position
      → protect ctx policy s o candle i ≡ ok s'
      → IsNextBar d s'.position
  unfolding protect
  protect-IsNextBar s none candle i next h = subst (λ s''. IsNextBar d s''.position) (ok_inj h) next
  protect-IsNextBar s (some p) candle i next h =
      close_when-IsNextBar s p (evaluate_protective ctx policy p.snapshot candle) candle i next h

  chosen_entry :
      (intent : EnterIntent) (t : ℕ) (has_position : Bool) {chosen : BacktestIntent}
      → (raise_if (not (intent.decision_open_time == t)) (validation wrong_decision_time)
          >> (raise_if has_position (validation entry_while_open) >> ok (enter intent)))
        ≡ ok chosen
      → decision_time chosen ≡ t
  chosen_entry intent t has_position h =
      let (same, h1) = >>-eq-ok (not (intent.decision_open_time == t)) _ h in
      let (_, h2) = >>-eq-ok has_position _ h1 in
      subst (λ x. decision_time x ≡ t) {x = enter intent} (ok_inj h2)
        (==→≡ intent.decision_open_time t same)

  chosen_exit :
      (intent : ExitIntent) (t : ℕ) (has_position : Bool) {chosen : BacktestIntent}
      → (raise_if (not (intent.decision_open_time == t)) (validation wrong_decision_time)
          >> (raise_if (not has_position) (validation exit_while_flat) >> ok (exit intent)))
        ≡ ok chosen
      → decision_time chosen ≡ t
  chosen_exit intent t has_position h =
      let (same, h1) = >>-eq-ok (not (intent.decision_open_time == t)) _ h in
      let (_, h2) = >>-eq-ok (not has_position) _ h1 in
      subst (λ x. decision_time x ≡ t) {x = exit intent} (ok_inj h2)
        (==→≡ intent.decision_open_time t same)

  select-time :
      (item : Item) (t : ℕ) (has_position : Bool) {chosen : BacktestIntent}
      → select_item ctx policy item t has_position ≡ ok chosen
      → decision_time chosen ≡ t
  unfolding select_item
  select-time (enter_item r) t has_position h =
      let (intent, _, h1) = >>=-eq-ok (validate_for_policy ctx policy r) _ h in
      chosen_entry intent t has_position h1
  select-time (exit_item r) t has_position h =
      let (intent, _, h1) = >>=-eq-ok (validate_exit r) _ h in chosen_exit intent t has_position h1
  select-time other_item t has_position h = cc

  pub validate-IsDecided :
      (is : List Item) (t : ℕ) (has_position : Bool) {pending : Option BacktestIntent}
      → validate_and_select_intent ctx policy is t has_position ≡ ok pending
      → IsDecided d (t + d) pending
  unfolding validate_and_select_intent
  validate-IsDecided [] t has_position h = subst (IsDecided d (t + d)) (ok_inj h) tt
  validate-IsDecided (i ∷ []) t has_position h =
      let (intent, chosen, h1) = >>=-eq-ok (select_item ctx policy i t has_position) _ h in
      subst (IsDecided d (t + d)) (ok_inj h1)
        (ap (λ (n : ℕ). n + d) (select-time i t has_position chosen))
  validate-IsDecided (i ∷ j ∷ is) t has_position h = cc
