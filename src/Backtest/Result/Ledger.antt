-- ===== src/Backtest/Result/Ledger.antt =====
-- The result of a run, read as a ledger.
use zorqen_research.Base.{
  ℕ, ◌+◌, ◌-◌, ◌*◌, ◌≡◌, refl, sym, subst, false, Option, none, some, List, [], ◌∷◌, length,
  last_of, Result, ok, >>=-eq-ok, >>-eq-ok, ok_inj, arith,
}
use zorqen_research.Decimal.{Context}
use zorqen_research.Time.{Timeframe}
use Prim.Native.String.{String}
use zorqen_research.Market.Candle.{Candle}
use zorqen_research.Backtest.{end_of_data, BacktestError, FillRecord, ClosedTrade}
use zorqen_research.Backtest.Policy.{BacktestPolicy}
use zorqen_research.Backtest.Engine.{OpenPosition}
use zorqen_research.Backtest.Run.{DecisionContext, Output, RunState, run_from}
use zorqen_research.Backtest.Run.Booked.{run_from-IsBooked}
use zorqen_research.Backtest.Run.Ledger.{Ledger, started, IsBooked, close_position-IsBooked}
use zorqen_research.Backtest.Run.Counts.{Numbered, Ledger-length, Ledger-Numbered}
use zorqen_research.Backtest.Run.Replay.{replay, Ledger-replay}
use zorqen_research.Backtest.Run.Paired.{Paired, Ledger-Paired}
use zorqen_research.Backtest.Summary.{
  validate_candles, check_candles, BacktestResult, initial_state, build_summary, close_at_end,
}
use zorqen_research.Backtest.Result.{close_last, result_of, run}

module _ (ctx : Context) (policy : BacktestPolicy) where
  close_at_end-IsBooked :
      {S : Type 0} (s : RunState S) (o : Option OpenPosition) (c : Candle) (i : ℕ) {s' : RunState S}
      → IsBooked ctx policy s
      → s.position ≡ o
      → close_at_end ctx policy s o c i ≡ ok s'
      → IsBooked ctx policy s' × (s'.position ≡ none)
  unfolding close_at_end
  close_at_end-IsBooked s none c i booked at h =
      subst (λ s''. IsBooked ctx policy s'' × (s''.position ≡ none)) (ok_inj h) (booked, at)
  close_at_end-IsBooked s (some p) c i booked at h =
      let (_, closed) = >>-eq-ok _ _ h in
      close_position-IsBooked ctx policy s p none c i end_of_data c.close false booked at refl
        closed

  close_last-IsBooked :
      {S : Type 0} (s : RunState S) (c : Candle) (cs : List Candle) {s' : RunState S}
      → IsBooked ctx policy s
      → close_last ctx policy s (c ∷ cs) ≡ ok s'
      → IsBooked ctx policy s' × (s'.position ≡ none)
  unfolding close_last
  close_last-IsBooked s c cs booked h =
      close_at_end-IsBooked s s.position (last_of c cs) (length (c ∷ cs) - 1) booked refl h

  initial_state-IsBooked :
      {S : Type 0} (provider : S) → IsBooked ctx policy (initial_state ctx policy provider)
  initial_state-IsBooked provider = record {
    ledger = started;
    fill_count = refl;
    trade_count = refl;
    position_count = refl;
  }

validate_candles-nonempty :
    (timeframe : Timeframe) (candles : List Candle) {cs : List Candle}
    → validate_candles timeframe candles ≡ ok cs
    → (c : Candle) × (rest : List Candle) × (cs ≡ c ∷ rest)
unfolding validate_candles
validate_candles-nonempty timeframe [] h = cc
validate_candles-nonempty timeframe (c ∷ rest) h =
    let (_, checked, same) = >>=-eq-ok (check_candles timeframe 0 none (c ∷ rest)) _ h in
    (c, rest, sym (ok_inj same))

module _ {S : Type 0} (ctx : Context) (policy : BacktestPolicy)
    (on_bar_close : S → DecisionContext → Output × S) (symbol : String) (timeframe : Timeframe)
    (hash_candles : List Candle → String) (hash_policy : BacktestPolicy → String)
    (hash_result : BacktestResult → String) where
  -- A run that returns comes from a loop and a close that return, and ends flat.
  pub run-inversion :
      (provider : S) (candles : List Candle) (expected : Option String) {r : BacktestResult}
      → run ctx policy on_bar_close symbol timeframe hash_candles hash_policy hash_result provider
          candles expected
        ≡ ok r
      → (s : RunState S) × (s' : RunState S) × (cs : List Candle) × (hash : String) × (result_of ctx
            policy on_bar_close symbol timeframe hash_candles hash_policy hash_result s s' cs hash
          ≡ r)
        × IsBooked ctx policy s'
        × (s'.position ≡ none)
  unfolding run
  run-inversion provider candles expected h =
      let (cs, valid, h1) = >>=-eq-ok (validate_candles timeframe candles) _ h in
      let (_, h2) = >>-eq-ok _ _ h1 in
      let (s, ran, h3) =
        >>=-eq-ok (run_from ctx policy on_bar_close symbol timeframe _ 0 cs) _ h2 in
      let (s', closed, h4) = >>=-eq-ok (close_last ctx policy s cs) _ h3 in
      let (c, rest, same) = validate_candles-nonempty timeframe candles valid in
      let (booked, flat) =
        close_last-IsBooked ctx policy s c rest
          (run_from-IsBooked ctx policy on_bar_close symbol timeframe
            (initial_state ctx policy provider) 0 cs (initial_state-IsBooked ctx policy provider)
            ran)
          (subst (λ xs. close_last ctx policy s xs ≡ ok s') same closed) in
      (s, s', cs, _, ok_inj h4, booked, flat)

  abbrev pub run_of : S → List Candle → Option String → Result BacktestError BacktestResult
  run_of = run ctx policy on_bar_close symbol timeframe hash_candles hash_policy hash_result

  -- A run that returns implements the ledger: its fills, trades, equity curve and final equity are
  -- those of an account that starts flat with the initial equity, takes entries and exits in turn,
  -- each with the fees and the result that its fill and trade record, and ends flat.
  pub run-Ledger :
      (provider : S) (candles : List Candle) (expected : Option String) {r : BacktestResult}
      → run_of provider candles expected ≡ ok r
      → Ledger ctx policy r.fills r.trades none r.equity_curve r.summary.final_equity
  unfolding build_summary
  run-Ledger provider candles expected h =
      let (s, s', cs, hash, same, booked, flat) = run-inversion provider candles expected h in
      subst
        (λ (r : BacktestResult).
          Ledger ctx policy r.fills r.trades none r.equity_curve r.summary.final_equity)
        same
        (subst (λ o. Ledger ctx policy s'.fills s'.trades o s'.equity_curve s'.equity) flat
          booked.ledger)

  -- The fills of a run that returns come two by two: an entry, and the exit of the same position in
  -- the same quantity on the other side of the market; the trades are these pairs in order, with
  -- their prices, fees, reasons and results.
  pub run-Paired :
      (provider : S) (candles : List Candle) (expected : Option String) {r : BacktestResult}
      → run_of provider candles expected ≡ ok r
      → Paired ctx policy r.fills r.trades
  run-Paired provider candles expected h =
      Ledger-Paired ctx policy (run-Ledger provider candles expected h)

  -- In a run that returns the fills and the trades are numbered from one on without a gap, there are
  -- two fills for a trade, and the equity curve has a value for each fill behind the initial one.
  pub run-Numbered :
      (provider : S) (candles : List Candle) (expected : Option String) {r : BacktestResult}
      → run_of provider candles expected ≡ ok r
      → Numbered (λ (f : FillRecord). f.fill_id) 0 r.fills
        × Numbered (λ (t : ClosedTrade). t.trade_id) 0 r.trades
        × (length r.fills ≡ 2 * length r.trades)
        × (length r.equity_curve ≡ length r.fills + 1)
  run-Numbered provider candles expected h =
      let l = run-Ledger provider candles expected h in
      let (numbered, trades) = Ledger-Numbered ctx policy l in
      let (fills, curve) = Ledger-length ctx policy l in
      (numbered, trades, omega (arith, fills), curve)

  -- The final equity of a run that returns is the initial equity after its trades, each of which
  -- pays its entry fee, earns its gross result and pays its exit fee, in order and rounded as the
  -- context says.
  pub run-replay :
      (provider : S) (candles : List Candle) (expected : Option String) {r : BacktestResult}
      → run_of provider candles expected ≡ ok r
      → r.summary.final_equity ≡ replay ctx policy.initial_equity r.trades
  run-replay provider candles expected h =
      Ledger-replay ctx policy (run-Ledger provider candles expected h)
