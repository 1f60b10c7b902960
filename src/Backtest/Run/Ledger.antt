-- ===== src/Backtest/Run/Ledger.antt =====
-- The ledger that the loop keeps: fills, trades, position and equity, entry by entry and exit by
-- exit, as an abstract account of a run of the simulator.
use zorqen_research.Base.{
  ℕ, ◌+◌, ◌≡◌, refl, sym, subst, Bool, false, Option, none, some, List, [], ◌∷◌, ◌++◌, length,
  length-append, ok, >>=-eq-ok, ok_inj, if◌then◌else◌, arith,
}
use zorqen_research.Decimal.{Decimal, Context, add, sub}
use zorqen_research.Market.Candle.{Candle}
use zorqen_research.Backtest.{Text, FillReason, market_entry, is_reason, FillRecord, ClosedTrade}
use zorqen_research.Backtest.Policy.{BacktestPolicy}
use zorqen_research.Backtest.Intent.{EnterIntent}
use zorqen_research.Backtest.Engine.{OpenPosition, execute_entry, execute_exit}
use zorqen_research.Backtest.Engine.Fills.{
  IsEntry, IsExit, execute_entry-IsEntry, execute_exit-IsExit,
}
use zorqen_research.Backtest.Run.{RunState, is_open, close_position, open_position}

module _ (ctx : Context) (policy : BacktestPolicy) where
  -- A flat account takes an entry, which costs its fee; an open one takes the exit of its position,
  -- which earns the gross result and costs its fee. Fills and trades are numbered from one on.
  pub data Ledger
      : List FillRecord
        → List ClosedTrade
        → Option OpenPosition
        → List Decimal
        → Decimal
        → Type 0 where
    started : Ledger [] [] none (policy.initial_equity ∷ []) policy.initial_equity
    entered :
        {fs : List FillRecord} {ts : List ClosedTrade} {curve : List Decimal} {e : Decimal}
        (f : FillRecord) (p : OpenPosition)
        → Ledger fs ts none curve e
        → IsEntry (length fs + 1) (length ts + 1) f p
        → Ledger (fs ++ f ∷ []) ts (some p) (curve ++ sub ctx e f.fee ∷ []) (sub ctx e f.fee)
    exited :
        {fs : List FillRecord} {ts : List ClosedTrade} {p : OpenPosition} {curve : List Decimal}
        {e : Decimal} (f : FillRecord) (t : ClosedTrade)
        → Ledger fs ts (some p) curve e
        → IsExit ctx policy (length fs + 1) (length ts + 1) p f t
        → is_reason f.reason market_entry ≡ false
        → Ledger
            (fs ++ f ∷ [])
            (ts ++ t ∷ [])
            none
            (curve ++ sub ctx (add ctx e t.gross_pnl) t.exit_fee ∷ [])
            (sub ctx (add ctx e t.gross_pnl) t.exit_fee)

  -- A state whose ledger is in order, and whose counters count it.
  pub record IsBooked {S : Type 0} (s : RunState S) : Type 0 where
    pub ledger : Ledger s.fills s.trades s.position s.equity_curve s.equity
    pub fill_count : s.fill_seq ≡ length s.fills
    pub trade_count : s.trade_seq ≡ length s.trades
    pub position_count : s.position_seq ≡ length s.trades + (if is_open s.position then 1 else 0)

  abbrev after_exit : {S : Type 0} → RunState S → FillRecord → ClosedTrade → Decimal → RunState S
  after_exit s f t e = record s {
    equity = e;
    equity_curve = s.equity_curve ++ e ∷ [];
    fills = s.fills ++ f ∷ [];
    trades = s.trades ++ t ∷ [];
    position = none;
    fill_seq = s.fill_seq + 1;
    trade_seq = s.trade_seq + 1;
  }

  abbrev after_entry : {S : Type 0} → RunState S → FillRecord → OpenPosition → Decimal → RunState S
  after_entry s f p e = record s {
    equity = e;
    equity_curve = s.equity_curve ++ e ∷ [];
    fills = s.fills ++ f ∷ [];
    position = some p;
    fill_seq = s.fill_seq + 1;
    position_seq = s.position_seq + 1;
  }

  after_exit-IsBooked :
      {S : Type 0} (s : RunState S) (p : OpenPosition) (f : FillRecord) (t : ClosedTrade)
      → IsBooked s
      → s.position ≡ some p
      → IsExit ctx policy (s.fill_seq + 1) (s.trade_seq + 1) p f t
      → is_reason f.reason market_entry ≡ false
      → IsBooked (after_exit s f t (sub ctx (add ctx s.equity t.gross_pnl) t.exit_fee))
  after_exit-IsBooked s p f t booked at is_exit not_entry = record {
    ledger =
        exited f t (subst (λ o. Ledger s.fills s.trades o s.equity_curve s.equity) at booked.ledger)
          (subst (λ k. IsExit ctx policy (length s.fills + 1) (k + 1) p f t) booked.trade_count
            (subst (λ n. IsExit ctx policy (n + 1) (s.trade_seq + 1) p f t) booked.fill_count
              is_exit))
          not_entry;
    fill_count = omega (arith, length-append s.fills (f ∷ []), booked.fill_count);
    trade_count = omega (arith, length-append s.trades (t ∷ []), booked.trade_count);
    position_count = omega (
      arith,
      length-append s.trades (t ∷ []),
      subst (λ o. s.position_seq ≡ length s.trades + (if is_open o then 1 else 0)) at
          booked.position_count,
    );
  }

  after_entry-IsBooked :
      {S : Type 0} (s : RunState S) (f : FillRecord) (p : OpenPosition)
      → IsBooked s
      → s.position ≡ none
      → IsEntry (s.fill_seq + 1) (s.position_seq + 1) f p
      → IsBooked (after_entry s f p (sub ctx s.equity f.fee))
  after_entry-IsBooked s f p booked at is_entry =
      let count : s.position_seq ≡ length s.trades = omega (
        arith,
        subst (λ o. s.position_seq ≡ length s.trades + (if is_open o then 1 else 0)) at
            booked.position_count,
      ) in
      record {
        ledger =
            entered f p
              (subst (λ o. Ledger s.fills s.trades o s.equity_curve s.equity) at booked.ledger)
              (subst (λ k. IsEntry (length s.fills + 1) (k + 1) f p) count
                (subst (λ n. IsEntry (n + 1) (s.position_seq + 1) f p) booked.fill_count is_entry));
        fill_count = omega (arith, length-append s.fills (f ∷ []), booked.fill_count);
        trade_count = booked.trade_count;
        position_count = omega (arith, count);
      }

  pub close_position-IsBooked :
      {S : Type 0} (s : RunState S) (p : OpenPosition) (intent_id : Option Text) (candle : Candle)
      (i : ℕ) (reason : FillReason) (reference : Decimal) (ambiguous : Bool) {s' : RunState S}
      → IsBooked s
      → s.position ≡ some p
      → is_reason reason market_entry ≡ false
      → close_position ctx policy s p intent_id candle i reason reference ambiguous ≡ ok s'
      → IsBooked s' × (s'.position ≡ none)
  unfolding close_position
  close_position-IsBooked s p intent_id candle i reason reference ambiguous {s'} booked at not_entry
        h =
      let ((f, t, e), made, h1) =
        >>=-eq-ok (execute_exit ctx policy p intent_id candle i _ _ _ _ _ _) _ h in
      let (is_exit, same_reason, same_equity) =
        execute_exit-IsExit ctx policy p intent_id candle i _ _ reason reference s.equity ambiguous
          made in
      subst (λ s''. IsBooked s'' × (s''.position ≡ none)) (ok_inj h1)
        (
          subst (λ e'. IsBooked (after_exit s f t e')) (sym same_equity)
              (after_exit-IsBooked s p f t booked at is_exit
                (subst (λ r. is_reason r market_entry ≡ false) (sym same_reason) not_entry)),
          refl,
        )

  pub open_position-IsBooked :
      {S : Type 0} (s : RunState S) (intent : EnterIntent) (candle : Candle) (i : ℕ)
      {s' : RunState S}
      → IsBooked s
      → s.position ≡ none
      → open_position ctx policy s intent candle i ≡ ok s'
      → IsBooked s'
  unfolding open_position
  open_position-IsBooked s intent candle i {s'} booked at h =
      let ((f, p, e), made, h1) = >>=-eq-ok (execute_entry ctx policy intent candle i _ _ _) _ h in
      let (is_entry, same_equity) =
        execute_entry-IsEntry ctx policy intent candle i _ _ s.equity made in
      subst IsBooked (ok_inj h1) (
        subst (λ e'. IsBooked (after_entry s f p e')) (sym same_equity)
          (after_entry-IsBooked s f p booked at is_entry))
