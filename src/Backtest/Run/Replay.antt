-- ===== src/Backtest/Run/Replay.antt =====
-- The equity of a ledger from its trades alone.
use zorqen_research.Base.{◌≡◌, refl, sym, ap, ◌∙◌, Option, none, some, List, [], ◌∷◌, ◌++◌}
use zorqen_research.Decimal.{Decimal, Context, add, sub}
use zorqen_research.Backtest.{FillRecord, ClosedTrade}
use zorqen_research.Backtest.Policy.{BacktestPolicy}
use zorqen_research.Backtest.Engine.{OpenPosition}
use zorqen_research.Backtest.Run.Ledger.{Ledger, started, entered, exited}

-- Each trade pays its entry fee, earns its gross result and pays its exit fee.
abbrev pub replay : Context → Decimal → List ClosedTrade → Decimal
replay ctx equity [] = equity
replay ctx equity (t ∷ ts) =
    replay ctx (sub ctx (add ctx (sub ctx equity t.entry_fee) t.gross_pnl) t.exit_fee) ts

replay-append :
    (ctx : Context) (equity : Decimal) (ts : List ClosedTrade) (t : ClosedTrade)
    → replay ctx equity (ts ++ t ∷ [])
      ≡ sub ctx (add ctx (sub ctx (replay ctx equity ts) t.entry_fee) t.gross_pnl) t.exit_fee
replay-append ctx equity [] t = refl
replay-append ctx equity (u ∷ ts) t =
    replay-append ctx (sub ctx (add ctx (sub ctx equity u.entry_fee) u.gross_pnl) u.exit_fee) ts t

module _ (ctx : Context) (policy : BacktestPolicy) where
  -- What the entry fee of an open position takes off.
  abbrev balance : Option OpenPosition → Decimal → Decimal
  balance none e = e
  balance (some p) e = sub ctx e p.snapshot.entry_fee

  Ledger-balance :
      {fs : List FillRecord} {ts : List ClosedTrade} {o : Option OpenPosition}
      {curve : List Decimal} {e : Decimal}
      → Ledger ctx policy fs ts o curve e
      → e ≡ balance o (replay ctx policy.initial_equity ts)
  Ledger-balance started = refl
  Ledger-balance (entered {fs} {ts} {curve} {e} f p l is_entry) =
      ap (λ fee. sub ctx e fee) (sym is_entry.same_fee)
      ∙ ap (λ b. sub ctx b p.snapshot.entry_fee) (Ledger-balance l)
  Ledger-balance (exited {fs} {ts} {p} {curve} {e} f t l is_exit r) =
      let same : e ≡ sub ctx (replay ctx policy.initial_equity ts) t.entry_fee =
        Ledger-balance l
        ∙ ap (λ fee. sub ctx (replay ctx policy.initial_equity ts) fee) (sym is_exit.entry_fee) in
      ap (λ b. sub ctx (add ctx b t.gross_pnl) t.exit_fee) same
      ∙ sym (replay-append ctx policy.initial_equity ts t)

  pub Ledger-replay :
      {fs : List FillRecord} {ts : List ClosedTrade} {curve : List Decimal} {e : Decimal}
      → Ledger ctx policy fs ts none curve e
      → e ≡ replay ctx policy.initial_equity ts
  Ledger-replay l = Ledger-balance l
