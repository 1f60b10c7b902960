-- ===== src/Backtest/Run/Dated.antt =====
-- Which intent a fill of the loop comes from, and when it was decided.
use zorqen_research.Base.{
  ℕ, ◌+◌, ◌≡◌, refl, ap, sym, subst, ◌∙◌, ◌⊎◌, inl, inr, Bool, false, Option, none, some, List, [],
  ◌∷◌, ◌++◌, ok, >>=-eq-ok, >>-eq-ok, ok_inj, All, arith,
}
use zorqen_research.Decimal.{Decimal, Context}
use zorqen_research.Time.{Timeframe}
use Prim.Native.String.{String}
use zorqen_research.Market.Candle.{Candle}
use zorqen_research.Backtest.{
  Text, FillReason, market_entry, explicit_exit, stop_loss, take_profit, fill_price, stop_price,
  target_price, FillRecord, PositionSnapshot, ClosedTrade,
}
use zorqen_research.Backtest.Rules.{require_positive_price}
use zorqen_research.Backtest.Policy.{BacktestPolicy}
use zorqen_research.Backtest.Intent.{
  EnterIntent, BacktestIntent, enter, exit, validate_brackets_against_fill,
}
use zorqen_research.Backtest.Engine.{
  OpenPosition, exit_time, evaluate_protective, execute_entry, execute_exit,
}
use zorqen_research.Backtest.Run.{
  DecisionContext, Output, RunState, is_open, decision_context, coerce_provider_output,
  validate_and_select_intent, close_position, open_position, execute_intent, execute_pending,
  close_when, protect, decide, step,
}
use zorqen_research.Backtest.Run.Timing.{IsDecided, decision_time}

abbrev pub intent_id_of : BacktestIntent → Text
intent_id_of (enter i) = i.intent_id
intent_id_of (exit i) = i.intent_id

abbrev pub reason_of : BacktestIntent → FillReason
reason_of (enter i) = market_entry
reason_of (exit i) = explicit_exit

-- A fill that names an intent is of the intent that was pending before the bar, which was decided one
-- bar earlier, and is made at the open; any other is at a protective level.
abbrev pub ComesFrom : ℕ → Option BacktestIntent → Candle → FillRecord → Option Text → Type 0
ComesFrom d pending c f none = (f.reason ≡ stop_loss) ⊎ (f.reason ≡ take_profit)
ComesFrom d pending c f (some id) =
    (intent : BacktestIntent) × (pending ≡ some intent)
    × (intent_id_of intent ≡ id)
    × (f.reason ≡ reason_of intent)
    × (f.reference_price ≡ c.open_price)
    × (decision_time intent + d ≡ f.fill_time)

abbrev pub MadeOn : ℕ → Option BacktestIntent → Candle → FillRecord → Type 0
MadeOn d pending c f = (f.fill_time ≡ c.open_time) × ComesFrom d pending c f f.intent_id

-- The fills that come to those before.
abbrev pub Adds : (FillRecord → Type 0) → List FillRecord → List FillRecord → Type 0
Adds P before after = (made : List FillRecord) × (after ≡ before ++ made) × All P made

append_nil : {A : Type 0} (xs : List A) → xs ≡ xs ++ []
append_nil [] = refl
append_nil (x ∷ xs) = ap (λ ys. x ∷ ys) (append_nil xs)

append_assoc : {A : Type 0} (xs ys zs : List A) → xs ++ ys ++ zs ≡ xs ++ (ys ++ zs)
append_assoc [] ys zs = refl
append_assoc (x ∷ xs) ys zs = ap (λ ws. x ∷ ws) (append_assoc xs ys zs)

All-append : {A : Type 0} (P : A → Type 0) (xs ys : List A) → All P xs → All P ys → All P (xs ++ ys)
All-append P [] ys hs ks = ks
All-append P (x ∷ xs) ys (h, hs) ks = (h, All-append P xs ys hs ks)

Adds-nothing : (P : FillRecord → Type 0) (fs : List FillRecord) → Adds P fs fs
Adds-nothing P fs = ([], append_nil fs, tt)

Adds-both :
    (P : FillRecord → Type 0) (fs gs hs : List FillRecord)
    → Adds P fs gs
    → Adds P gs hs
    → Adds P fs hs
Adds-both P fs gs hs (xs, e, p) (ys, e', q) =
    (xs ++ ys, e' ∙ ap (λ zs. zs ++ ys) e ∙ append_assoc fs xs ys, All-append P xs ys p q)

-- Fills that meet a description meet one that follows.
Adds-map :
    (P Q : FillRecord → Type 0) (before after : List FillRecord)
    → ((f : FillRecord) → P f → Q f)
    → Adds P before after
    → Adds Q before after
Adds-map P Q before after use' (made, e, all) = (made, e, every made all)
  where
    every : (fs : List FillRecord) → All P fs → All Q fs
    every [] h = tt
    every (f ∷ fs) (h, hs) = (use' f h, every fs hs)

-- What a fill records of its cause.
record IsRecorded (cause : Option Text) (why : FillReason) (level : Decimal) (at : ℕ)
    (f : FillRecord) : Type 0 where
  intent_id : f.intent_id ≡ cause
  reason : f.reason ≡ why
  reference : f.reference_price ≡ level
  time : f.fill_time ≡ at

abbrev IsHit : Option (FillReason × Decimal × Bool) → Type 0
IsHit none = Unit
IsHit (some (reason, _, _)) = (reason ≡ stop_loss) ⊎ (reason ≡ take_profit)

intent-MadeOn :
    (d : ℕ) (c : Candle) (j : BacktestIntent) (f : FillRecord)
    → decision_time j + d ≡ c.open_time
    → IsRecorded (some (intent_id_of j)) (reason_of j) c.open_price c.open_time f
    → MadeOn d (some j) c f
intent-MadeOn d c j f decided r = (
  r.time,
  subst (λ x. ComesFrom d (some j) c f x) (sym r.intent_id)
      (j, refl, refl, r.reason, r.reference, decided ∙ sym r.time),
)

module _ (ctx : Context) (policy : BacktestPolicy) where
  evaluate_protective-IsHit :
      (s : PositionSnapshot) (c : Candle) → IsHit (evaluate_protective ctx policy s c)
  unfolding evaluate_protective
  evaluate_protective-IsHit s c = ground arith

  execute_exit-IsRecorded :
      (p : OpenPosition) (id : Option Text) (c : Candle) (i n k : ℕ) (reason : FillReason)
      (reference equity : Decimal) (ambiguous : Bool) {o : FillRecord × ClosedTrade × Decimal}
      → execute_exit ctx policy p id c i n k reason reference equity ambiguous ≡ ok o
      → IsRecorded id reason reference (exit_time ctx policy reason c) o.0
  unfolding execute_exit
  execute_exit-IsRecorded p id c i n k reason reference equity ambiguous h =
      let (price, _, h1) = >>=-eq-ok (require_positive_price fill_price _) _ h in
      subst
        (λ (o : FillRecord × ClosedTrade × Decimal).
          IsRecorded id reason reference (exit_time ctx policy reason c) o.0)
        (ok_inj h1) (record { intent_id = refl; reason = refl; reference = refl; time = refl })

  execute_entry-IsRecorded :
      (intent : EnterIntent) (c : Candle) (i n m : ℕ) (equity : Decimal)
      {o : FillRecord × OpenPosition × Decimal}
      → execute_entry ctx policy intent c i n m equity ≡ ok o
      → IsRecorded (some intent.intent_id) market_entry c.open_price c.open_time o.0
  unfolding execute_entry
  execute_entry-IsRecorded intent c i n m equity h =
      let (price, _, h1) = >>=-eq-ok (require_positive_price fill_price _) _ h in
      let (_, _, h2) = >>=-eq-ok (validate_brackets_against_fill intent price) _ h1 in
      let (_, h3) = >>-eq-ok _ _ h2 in
      let (stop, _, h4) = >>=-eq-ok (require_positive_price stop_price _) _ h3 in
      let (target, _, h5) = >>=-eq-ok (require_positive_price target_price _) _ h4 in
      let (_, h6) = >>-eq-ok _ _ h5 in
      subst
        (λ (o : FillRecord × OpenPosition × Decimal).
          IsRecorded (some intent.intent_id) market_entry c.open_price c.open_time o.0)
        (ok_inj h6) (record { intent_id = refl; reason = refl; reference = refl; time = refl })

  hit-MadeOn :
      (d : ℕ) (c : Candle) (pending : Option BacktestIntent) (reason : FillReason) (level : Decimal)
      (f : FillRecord)
      → (reason ≡ stop_loss) ⊎ (reason ≡ take_profit)
      → IsRecorded none reason level (exit_time ctx policy reason c) f
      → MadeOn d pending c f
  hit-MadeOn d c pending reason level f hit r =
      (r.time ∙ at hit, subst (λ x. ComesFrom d pending c f x) (sym r.intent_id) (which hit))
    where
      at :
          (reason ≡ stop_loss) ⊎ (reason ≡ take_profit)
          → exit_time ctx policy reason c ≡ c.open_time
      at (inl e) = ap (λ x. exit_time ctx policy x c) e
      at (inr e) = ap (λ x. exit_time ctx policy x c) e

      which :
          (reason ≡ stop_loss) ⊎ (reason ≡ take_profit)
          → (f.reason ≡ stop_loss) ⊎ (f.reason ≡ take_profit)
      which (inl e) = inl (r.reason ∙ e)
      which (inr e) = inr (r.reason ∙ e)

  module _ {S : Type 0} where
    close_position-Adds :
        (s : RunState S) (p : OpenPosition) (id : Option Text) (c : Candle) (i : ℕ)
        (reason : FillReason) (reference : Decimal) (ambiguous : Bool) {s' : RunState S}
        → close_position ctx policy s p id c i reason reference ambiguous ≡ ok s'
        → Adds (IsRecorded id reason reference (exit_time ctx policy reason c)) s.fills s'.fills
    unfolding close_position
    close_position-Adds s p id c i reason reference ambiguous h =
        let (o, made, h1) =
          >>=-eq-ok
            (execute_exit ctx policy p id c i (s.fill_seq + 1) (s.trade_seq + 1) reason reference
              s.equity ambiguous)
            _ h in
        (
          o.0 ∷ [],
          sym (ap (λ (x : RunState S). x.fills) (ok_inj h1)),
          (
            execute_exit-IsRecorded p id c i (s.fill_seq + 1) (s.trade_seq + 1) reason reference
                s.equity ambiguous made,
            tt,
          ),
        )

    open_position-Adds :
        (s : RunState S) (intent : EnterIntent) (c : Candle) (i : ℕ) {s' : RunState S}
        → open_position ctx policy s intent c i ≡ ok s'
        → Adds
            (IsRecorded (some intent.intent_id) market_entry c.open_price c.open_time)
            s.fills
            s'.fills
    unfolding open_position
    open_position-Adds s intent c i h =
        let (o, made, h1) =
          >>=-eq-ok
            (execute_entry ctx policy intent c i (s.fill_seq + 1) (s.position_seq + 1) s.equity) _
            h in
        (
          o.0 ∷ [],
          sym (ap (λ (x : RunState S). x.fills) (ok_inj h1)),
          (
            execute_entry-IsRecorded intent c i (s.fill_seq + 1) (s.position_seq + 1) s.equity made,
            tt,
          ),
        )

    module _ (d : ℕ) (c : Candle) where
      execute_intent-MadeOn :
          (s : RunState S) (j : BacktestIntent) (o : Option OpenPosition) (i : ℕ) {s' : RunState S}
          → decision_time j + d ≡ c.open_time
          → execute_intent ctx policy s j o c i ≡ ok s'
          → Adds (MadeOn d (some j) c) s.fills s'.fills
      unfolding execute_intent
      execute_intent-MadeOn s (enter j) none i decided h =
          Adds-map _ _ _ _ (λ f. intent-MadeOn d c (enter j) f decided)
            (open_position-Adds s j c i h)
      execute_intent-MadeOn s (enter j) (some p) i decided h = cc
      execute_intent-MadeOn s (exit j) none i decided h = cc
      execute_intent-MadeOn s (exit j) (some p) i decided h =
          Adds-map _ _ _ _ (λ f. intent-MadeOn d c (exit j) f decided)
            (close_position-Adds s p (some j.intent_id) c i explicit_exit c.open_price false h)

      execute_pending-MadeOn :
          (s : RunState S) (pending : Option BacktestIntent) (i : ℕ) {s' : RunState S}
          → IsDecided d c.open_time pending
          → execute_pending ctx policy s pending c i ≡ ok s'
          → Adds (MadeOn d pending c) s.fills s'.fills
      unfolding execute_pending
      execute_pending-MadeOn s none i decided h =
          subst (λ (x : RunState S). Adds (MadeOn d none c) s.fills x.fills) (ok_inj h)
            (Adds-nothing _ s.fills)
      execute_pending-MadeOn s (some j) i decided h =
          let (s₁, done, h1) = >>=-eq-ok (execute_intent ctx policy s j s.position c i) _ h in
          subst (λ (x : RunState S). Adds (MadeOn d (some j) c) s.fills x.fills) (ok_inj h1)
            (execute_intent-MadeOn s j s.position i decided done)

      close_when-MadeOn :
          (pending : Option BacktestIntent) (s : RunState S) (p : OpenPosition)
          (hit : Option (FillReason × Decimal × Bool)) (i : ℕ) {s' : RunState S}
          → IsHit hit
          → close_when ctx policy s p hit c i ≡ ok s'
          → Adds (MadeOn d pending c) s.fills s'.fills
      unfolding close_when
      close_when-MadeOn pending s p none i hits h =
          subst (λ (x : RunState S). Adds (MadeOn d pending c) s.fills x.fills) (ok_inj h)
            (Adds-nothing _ s.fills)
      close_when-MadeOn pending s p (some (reason, level, ambiguous)) i hits h =
          Adds-map _ _ _ _ (λ f. hit-MadeOn d c pending reason level f hits)
            (close_position-Adds s p none c i reason level ambiguous h)

      protect-MadeOn :
          (pending : Option BacktestIntent) (s : RunState S) (o : Option OpenPosition) (i : ℕ)
          {s' : RunState S}
          → protect ctx policy s o c i ≡ ok s'
          → Adds (MadeOn d pending c) s.fills s'.fills
      unfolding protect
      protect-MadeOn pending s none i h =
          subst (λ (x : RunState S). Adds (MadeOn d pending c) s.fills x.fills) (ok_inj h)
            (Adds-nothing _ s.fills)
      protect-MadeOn pending s (some p) i h =
          close_when-MadeOn pending s p (evaluate_protective ctx policy p.snapshot c) i
            (evaluate_protective-IsHit p.snapshot c) h

    -- The fills of a bar, from the state before it.
    pub step-MadeOn :
        (on_close : S → DecisionContext → Output × S) (symbol : String) (timeframe : Timeframe)
        (d : ℕ) (s : RunState S) (c : Candle) (i : ℕ) {s' : RunState S}
        → IsDecided d c.open_time s.pending
        → step ctx policy on_close symbol timeframe s c i ≡ ok s'
        → Adds (MadeOn d s.pending c) s.fills s'.fills
    unfolding step decide
    step-MadeOn on_close symbol timeframe d s c i decided h =
        let (s₁, acted, h1) = >>=-eq-ok (execute_pending ctx policy s s.pending c i) _ h in
        let (s₂, protected, h2) = >>=-eq-ok (protect ctx policy s₁ s₁.position c i) _ h1 in
        let (chosen, _, h3) =
          >>=-eq-ok
            (coerce_provider_output
              (on_close s₂.provider
                (decision_context ctx policy on_close symbol timeframe s₂ c i)).0)
            _ h2 in
        let (_, _, h4) =
          >>=-eq-ok (validate_and_select_intent ctx policy chosen c.open_time (is_open s₂.position))
            _ h3 in
        subst (λ (x : RunState S). Adds (MadeOn d s.pending c) s.fills x.fills) (ok_inj h4)
          (Adds-both _ s.fills s₁.fills s₂.fills
            (execute_pending-MadeOn d c s s.pending i decided acted)
            (protect-MadeOn d c s.pending s₁ s₁.position i protected))
