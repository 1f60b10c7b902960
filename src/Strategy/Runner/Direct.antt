-- ===== src/Strategy/Runner/Direct.antt =====
-- The engine of src/zorqen_research/application/backtesting/engine.py with a strategy that is shown the
-- view of every bar at once, without the checks of
-- src/zorqen_research/application/strategy_backtesting/provider.py.
use zorqen_research.Base.{
  ℕ, zero, suc, ◌+◌, ◌<◌, ◌≡◌, refl, ap, sym, subst, ◌∙◌, Bool, true, false, ◌&&◌, Option, some,
  List, [], ◌∷◌, length, drop, get_elem?, Result, ok, err, ◌>>=◌, if◌then◌else◌, arith, ==_self,
}
use Prim.Native.String.{String}
use text.Mathlib.TextEquality.{eq_iff}
use text.Mathlib.Text.{◌==◌ as str_eq}
use zorqen_research.Decimal.{Context}
use zorqen_research.Time.{Timeframe}
use zorqen_research.Market.Candle.{Candle}
use zorqen_research.Backtest.{PositionDirection, BacktestError}
use zorqen_research.Backtest.Policy.{BacktestPolicy}
use zorqen_research.Backtest.Run.{
  DecisionContext, coerce_provider_output, validate_and_select_intent, is_open, Output, raises,
  not_tuple, items, Item, enter_item, exit_item, other_item, RunState, decision_context,
  execute_pending, protect, decide, step, run_from,
}
use zorqen_research.Market.Series.Grid.{IsGrid}
use zorqen_research.Backtest.Summary.{BacktestResult, validate_candles, initial_state}
use zorqen_research.Backtest.Summary.Grid.{IsGrid-validate_candles}
use zorqen_research.Backtest.Result.{run}
use zorqen_research.Strategy.{StrategyError}
use zorqen_research.Strategy.Input.{MultiTimeframeBacktestInput}
use zorqen_research.Strategy.Input.Bound.{IsBundle}
use zorqen_research.Strategy.View.{MultiTimeframeDecisionView, ViewDocument, view_at}
use zorqen_research.Strategy.View.Visible.{same_candle_self}
use zorqen_research.Strategy.View.Lookahead.{feed_of, view_at-IsBundle}
use zorqen_research.Strategy.Provider.{
  MultiTimeframeContext, AdapterState, is_allowed, directions_allowed, check_output, asks_for_bar,
  shows_bar, answer, answer_view, on_bar_close,
}

-- The state that a run starts in: the provider's own, with nothing counted.
abbrev pub start_of : {S : Type 0} → S → AdapterState S
start_of provider = record {
  provider = provider;
  provider_invocation_count = 0;
  warmup_skipped_decision_count = 0;
}

-- An entry is in a direction that the strategy supports.
abbrev pub supports : List PositionDirection → Item → Bool
supports allowed (enter_item r) = is_allowed allowed r.direction
supports allowed (exit_item r) = true
supports allowed other_item = true

abbrev pub all_supported : List PositionDirection → List Item → Bool
all_supported allowed [] = true
all_supported allowed (x ∷ xs) = supports allowed x && all_supported allowed xs

-- What the strategy returned, where that is a tuple whose entries are supported, and an exception else.
abbrev pub supported_output : List PositionDirection → Output → Output
supported_output allowed raises = raises
supported_output allowed not_tuple = raises
supported_output allowed (items xs) = if all_supported allowed xs then items xs else raises

module _ {S : Type 0} (digest_view : ViewDocument → String) (b : MultiTimeframeBacktestInput)
    (on_bar : S → MultiTimeframeContext → Output × S) where
  -- What the strategy says to the view of a bar when it is ready; when it is not, there is no intent.
  abbrev pub say :
      AdapterState S → DecisionContext → MultiTimeframeDecisionView → Bool → Output × AdapterState S
  say a context view false =
      (items [], record a { warmup_skipped_decision_count = a.warmup_skipped_decision_count + 1 })
  say a context view true =
      let said = on_bar a.provider (record {
        base = context;
        strategy_instance_hash = b.strategy_instance_hash;
        input_bundle_hash = b.input_bundle_hash;
        view = view;
      }) in
      (
        supported_output b.strategy_instance.definition.supported_directions said.0,
        record a { provider = said.1; provider_invocation_count = a.provider_invocation_count + 1 },
      )

  -- A bar without a view has no intent.
  abbrev pub say_view :
      AdapterState S
      → DecisionContext
      → Result StrategyError MultiTimeframeDecisionView
      → Output × AdapterState S
  say_view a context (err e) = (items [], a)
  say_view a context (ok view) = say a context view view.overall_ready

  -- The provider without any check of what the engine asks and of what the feed shows.
  abbrev pub direct : AdapterState S → DecisionContext → Output × AdapterState S
  direct a context = say_view a context (view_at digest_view (feed_of b) context.bar_index)

directions_allowed-all_supported :
    (allowed : List PositionDirection) (xs : List Item)
    → directions_allowed allowed xs ≡ all_supported allowed xs
unfolding directions_allowed
directions_allowed-all_supported allowed [] = refl
directions_allowed-all_supported allowed (enter_item r ∷ xs) =
    ap (λ t. is_allowed allowed r.direction && t) (directions_allowed-all_supported allowed xs)
directions_allowed-all_supported allowed (exit_item r ∷ xs) =
    directions_allowed-all_supported allowed xs
directions_allowed-all_supported allowed (other_item ∷ xs) =
    directions_allowed-all_supported allowed xs

check_output-supported_output :
    (allowed : List PositionDirection) (o : Output)
    → check_output allowed o ≡ supported_output allowed o
unfolding check_output
check_output-supported_output allowed raises = refl
check_output-supported_output allowed not_tuple = refl
check_output-supported_output allowed (items xs) =
    ap (λ t. if t then items xs else raises) (directions_allowed-all_supported allowed xs)

some_inj : {A : Type 0} {a b : A} → ◌≡◌ {A = Option A} (some a) (some b) → a ≡ b
some_inj {A} {a} {b} h = cc

pub str_eq_self : (s : String) → str_eq s s ≡ true
str_eq_self s = (eq_iff s s).1 refl

module _ {S : Type 0} (hash : List Candle → String) (digest_view : ViewDocument → String)
    (b : MultiTimeframeBacktestInput) (on_bar : S → MultiTimeframeContext → Output × S) where
  answer-say :
      (a : AdapterState S) (context : DecisionContext) (v : MultiTimeframeDecisionView)
      (ready : Bool)
      → answer digest_view (feed_of b) on_bar a context v ready
        ≡ say digest_view b on_bar a context v ready
  unfolding answer
  answer-say a context v false = refl
  answer-say a context v true =
      rw (check_output-supported_output b.strategy_instance.definition.supported_directions _) refl

  asks_for_bar-true :
      (context : DecisionContext)
      → context.symbol ≡ b.symbol
      → context.timeframe ≡ b.execution_timeframe
      → context.candles_processed ≡ context.bar_index + 1
      → asks_for_bar (feed_of b) context ≡ true
  unfolding asks_for_bar
  asks_for_bar-true context symbol timeframe processed =
      rw (symbol, str_eq_self b.symbol) (rw timeframe (ground (arith, processed)))

  shows_bar-true :
      (context : DecisionContext) (v : MultiTimeframeDecisionView)
      → context.bar_index ≡ v.execution_bar_index
      → context.candle ≡ v.current_execution_candle
      → shows_bar v context ≡ true
  unfolding shows_bar
  shows_bar-true context v index candle =
      rw (index, ==_self v.execution_bar_index)
        (rw (candle, same_candle_self v.current_execution_candle) refl)

  answer_view-direct :
      (a : AdapterState S) (context : DecisionContext) (v : MultiTimeframeDecisionView)
      → shows_bar v context ≡ true
      → answer_view digest_view (feed_of b) on_bar a context (ok v)
        ≡ say digest_view b on_bar a context v v.overall_ready
  unfolding answer_view
  answer_view-direct a context v shown = rw shown (answer-say a context v v.overall_ready)

  -- On a bar that the engine asks about, the adapter refuses nothing.
  on_bar_close-direct :
      (a : AdapterState S) (context : DecisionContext)
      → IsBundle hash b
      → context.symbol ≡ b.symbol
      → context.timeframe ≡ b.execution_timeframe
      → context.candles_processed ≡ context.bar_index + 1
      → get_elem? b.execution_candles context.bar_index ≡ some context.candle
      → context.bar_index < b.execution_candle_count
      → on_bar_close digest_view (feed_of b) on_bar a context
        ≡ direct digest_view b on_bar a context
  unfolding on_bar_close
  on_bar_close-direct a context h symbol timeframe processed at lt =
      let (v, viewed, shown) = view_at-IsBundle hash digest_view b context.bar_index h lt in
      let right = shows_bar-true context v (sym shown.at_bar) (some_inj (sym at ∙ shown.current)) in
      rw (asks_for_bar-true context symbol timeframe processed)
        (rw viewed (answer_view-direct a context v right))

bind_same :
    {E A B : Type 0} (m : Result E A) (f g : A → Result E B)
    → ((x : A) → f x ≡ g x)
    → (m >>= f) ≡ (m >>= g)
bind_same (ok x) f g h = h x
bind_same (err e) f g h = refl

abbrev head_or : {A : Type 0} → A → List A → A
head_or y [] = y
head_or y (x ∷ xs) = x

abbrev tail_of : {A : Type 0} → List A → List A
tail_of [] = []
tail_of (x ∷ xs) = xs

drop-get_elem? :
    {A : Type 0} (i : ℕ) (xs : List A) {y : A} {ys : List A}
    → drop i xs ≡ y ∷ ys
    → (get_elem? xs i ≡ some y) × (drop (i + 1) xs ≡ ys) × (i < length xs)
drop-get_elem? zero [] h = cc
drop-get_elem? zero (x ∷ xs) h = (ap some (ap (head_or x) h), ap tail_of h, omega arith)
drop-get_elem? (suc i) [] h = cc
drop-get_elem? (suc i) (x ∷ xs) {y} {ys} h =
    let (at, rest, lt) = drop-get_elem? i xs h in
    let next : suc (i + 1) ≡ suc i + 1 = omega arith in
    (at, subst (λ (n : ℕ). drop n (x ∷ xs) ≡ ys) next rest, omega (arith, lt))

-- Providers that answer alike where the engine asks.
module _ {S : Type 0} (ctx : Context) (policy : BacktestPolicy)
    (one two : S → DecisionContext → Output × S) (symbol : String) (timeframe : Timeframe) where
  step_same :
      (s : RunState S) (c : Candle) (i : ℕ)
      → ((p : S) (s : RunState S)
          → one p (decision_context ctx policy one symbol timeframe s c i)
            ≡ two p (decision_context ctx policy two symbol timeframe s c i))
      → step ctx policy one symbol timeframe s c i ≡ step ctx policy two symbol timeframe s c i
  unfolding step decide
  step_same s c i alike = bind_same (execute_pending ctx policy s s.pending c i) _ _ (λ s₁.
      bind_same (protect ctx policy s₁ s₁.position c i) _ _ (λ s₂.
        ap
          (λ (o : Output × S). do
            chosen ← coerce_provider_output o.0
            pending ← validate_and_select_intent ctx policy chosen c.open_time (is_open s₂.position)
            ok (record s₂ { provider = o.1; pending = pending }))
          (alike s₂.provider s₂)))

  -- Alike on all the candles of a series from `i` on.
  abbrev Alike : ℕ → List Candle → Type 0
  Alike i [] = Unit
  Alike i (c ∷ cs) =
      ((p : S) (s : RunState S)
        → one p (decision_context ctx policy one symbol timeframe s c i)
          ≡ two p (decision_context ctx policy two symbol timeframe s c i))
      × Alike (i + 1) cs

  run_from_same :
      (s : RunState S) (i : ℕ) (cs : List Candle)
      → Alike i cs
      → run_from ctx policy one symbol timeframe s i cs
        ≡ run_from ctx policy two symbol timeframe s i cs
  unfolding run_from
  run_from_same s i [] h = refl
  run_from_same s i (c ∷ cs) h = rw (step_same s c i h.0) (
      bind_same (step ctx policy two symbol timeframe s c i) _ _
        (λ s'. run_from_same s' (i + 1) cs h.1))

on_bar_close-Alike :
    {S : Type 0} (ctx : Context) (policy : BacktestPolicy) (hash : List Candle → String)
    (digest_view : ViewDocument → String) (b : MultiTimeframeBacktestInput)
    (on_bar : S → MultiTimeframeContext → Output × S) (i : ℕ) (cs : List Candle)
    → IsBundle hash b
    → drop i b.execution_candles ≡ cs
    → Alike ctx policy
        (on_bar_close digest_view (feed_of b) on_bar)
        (direct digest_view b on_bar)
        b.symbol
        b.execution_timeframe
        i
        cs
on_bar_close-Alike ctx policy hash digest_view b on_bar i [] h rest = tt
on_bar_close-Alike ctx policy hash digest_view b on_bar i (c ∷ cs) h rest =
    let (at, others, lt) = drop-get_elem? i b.execution_candles rest in
    (
      λ p s.
          on_bar_close-direct hash digest_view b on_bar p
            (decision_context ctx policy (direct digest_view b on_bar) b.symbol
              b.execution_timeframe s c i)
            h refl refl refl at (omega (arith, lt, h.count)),
      on_bar_close-Alike ctx policy hash digest_view b on_bar (i + 1) cs h others,
    )

module _ {S : Type 0} (ctx : Context) (hash : List Candle → String)
    (hash_policy : BacktestPolicy → String) (hash_result : BacktestResult → String)
    (digest_view : ViewDocument → String) (on_bar : S → MultiTimeframeContext → Output × S) where
  -- The engine, with the strategy that is shown the view of every bar.
  abbrev pub direct_run :
      MultiTimeframeBacktestInput
      → BacktestPolicy
      → AdapterState S
      → Result BacktestError BacktestResult
  direct_run b policy start =
      run ctx policy (direct digest_view b on_bar) b.symbol b.execution_timeframe hash hash_policy
        hash_result start b.execution_candles (some b.execution_candle_sha256)

  pub run-direct :
      (b : MultiTimeframeBacktestInput) (policy : BacktestPolicy) (start : AdapterState S)
      → IsBundle hash b
      → run ctx policy
          (on_bar_close digest_view (feed_of b) on_bar)
          b.symbol
          b.execution_timeframe
          hash
          hash_policy
          hash_result
          start
          b.execution_candles
          (some b.execution_candle_sha256)
        ≡ direct_run b policy start
  unfolding run
  run-direct b policy start h =
      let candles = b.execution_candles in
      let e = h.series in
      let accepted : validate_candles b.execution_timeframe candles ≡ ok candles =
        subst (λ xs. validate_candles b.execution_timeframe xs ≡ ok xs) (sym e.nonempty)
          (IsGrid-validate_candles b.execution_timeframe e.head e.tail e.aligned
            (subst (λ xs. IsGrid b.execution_timeframe e.head.open_time xs) e.nonempty e.grid)) in
      let same =
        run_from_same ctx policy (on_bar_close digest_view (feed_of b) on_bar)
          (direct digest_view b on_bar) b.symbol b.execution_timeframe
          (initial_state ctx policy start) 0 candles
          (on_bar_close-Alike ctx policy hash digest_view b on_bar 0 candles h refl) in
      rw accepted (rw same refl)
