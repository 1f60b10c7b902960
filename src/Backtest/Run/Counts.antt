-- ===== src/Backtest/Run/Counts.antt =====
-- What a ledger's lists have to do with each other: lengths, numbers and reasons.
use zorqen_research.Base.{
  ℕ, ◌+◌, ◌*◌, ◌≡◌, sym, subst, false, Option, List, [], ◌∷◌, ◌++◌, length, length-append, All,
  if◌then◌else◌, arith,
}
use zorqen_research.Decimal.{Decimal, Context, add, sub}
use zorqen_research.Backtest.{market_entry, is_reason, FillRecord, ClosedTrade}
use zorqen_research.Backtest.Policy.{BacktestPolicy}
use zorqen_research.Backtest.Engine.{OpenPosition}
use zorqen_research.Backtest.Run.{is_open}
use zorqen_research.Backtest.Run.Ledger.{Ledger, started, entered, exited}

-- The items of a list carry the numbers that follow `n`.
abbrev pub Numbered : {A : Type 0} → (A → ℕ) → ℕ → List A → Type 0
Numbered number n [] = Unit
Numbered number n (x ∷ xs) = (number x ≡ n + 1) × Numbered number (n + 1) xs

pub Numbered-append :
    {A : Type 0} (number : A → ℕ) (n : ℕ) (xs : List A) (a : A)
    → Numbered number n xs
    → number a ≡ n + length xs + 1
    → Numbered number n (xs ++ a ∷ [])
Numbered-append number n [] a p q = (omega (arith, q), tt)
Numbered-append number n (x ∷ xs) a p q =
    (p.0, Numbered-append number (n + 1) xs a p.1 (omega (arith, q)))

pub All-append :
    {A : Type 0} (P : A → Type 0) (xs : List A) (a : A) → All P xs → P a → All P (xs ++ a ∷ [])
All-append P [] a p q = (q, tt)
All-append P (x ∷ xs) a p q = (p.0, All-append P xs a p.1 q)

module _ (ctx : Context) (policy : BacktestPolicy) where
  pub Ledger-length :
      {fs : List FillRecord} {ts : List ClosedTrade} {o : Option OpenPosition}
      {curve : List Decimal} {e : Decimal}
      → Ledger ctx policy fs ts o curve e
      → (length fs ≡ 2 * length ts + (if is_open o then 1 else 0)) × (length curve ≡ length fs + 1)
  Ledger-length started = (omega arith, omega arith)
  Ledger-length (entered {fs} {ts} {curve} {e} f p l is_entry) =
      let (a, b) = Ledger-length l in
      (
        omega (arith, a, length-append fs (f ∷ [])),
        omega (arith, b, length-append fs (f ∷ []), length-append curve (sub ctx e f.fee ∷ [])),
      )
  Ledger-length (exited {fs} {ts} {p} {curve} {e} f t l is_exit r) =
      let (a, b) = Ledger-length l in
      (
        omega (arith, a, length-append fs (f ∷ []), length-append ts (t ∷ [])),
        omega (
          arith,
          b,
          length-append fs (f ∷ []),
          length-append curve (sub ctx (add ctx e t.gross_pnl) t.exit_fee ∷ []),
        ),
      )

  pub Ledger-Numbered :
      {fs : List FillRecord} {ts : List ClosedTrade} {o : Option OpenPosition}
      {curve : List Decimal} {e : Decimal}
      → Ledger ctx policy fs ts o curve e
      → Numbered (λ (f : FillRecord). f.fill_id) 0 fs
        × Numbered (λ (t : ClosedTrade). t.trade_id) 0 ts
  Ledger-Numbered started = (tt, tt)
  Ledger-Numbered (entered {fs} {ts} {curve} {e} f p l is_entry) =
      let (a, b) = Ledger-Numbered l in
      (
        Numbered-append (λ (f : FillRecord). f.fill_id) 0 fs f a (omega (arith, is_entry.fill_id)),
        b,
      )
  Ledger-Numbered (exited {fs} {ts} {p} {curve} {e} f t l is_exit r) =
      let (a, b) = Ledger-Numbered l in
      (
        Numbered-append (λ (f : FillRecord). f.fill_id) 0 fs f a (omega (arith, is_exit.fill_id)),
        Numbered-append (λ (t : ClosedTrade). t.trade_id) 0 ts t b
            (omega (arith, is_exit.trade_id)),
      )

  pub Ledger-reasons :
      {fs : List FillRecord} {ts : List ClosedTrade} {o : Option OpenPosition}
      {curve : List Decimal} {e : Decimal}
      → Ledger ctx policy fs ts o curve e
      → All (λ (t : ClosedTrade). is_reason t.exit_reason market_entry ≡ false) ts
  Ledger-reasons started = tt
  Ledger-reasons (entered f p l is_entry) = Ledger-reasons l
  Ledger-reasons (exited {fs} {ts} f t l is_exit r) =
      All-append (λ (t : ClosedTrade). is_reason t.exit_reason market_entry ≡ false) ts t
        (Ledger-reasons l)
        (subst (λ reason. is_reason reason market_entry ≡ false) (sym is_exit.reason) r)
