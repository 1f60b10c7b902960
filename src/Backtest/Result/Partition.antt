-- ===== src/Backtest/Result/Partition.antt =====
-- The counts of `_build_summary`.
use zorqen_research.Base.{
  ℕ, ◌+◌, ◌≡◌, refl, subst, sym, ◌∙◌, ◌⊎◌, inl, inr, suc, Bool-cases, Bool, true, false, Option,
  List, [], ◌∷◌, length, ok, All, if◌then◌else◌, arith,
}
use zorqen_research.Decimal.{Decimal, Context, is_positive, is_negative, is_nought, lt, eq, nought}
use zorqen_research.Decimal.Order.{is_positive-eq-lt, is_negative-eq-lt, is_nought-eq}
use zorqen_research.Time.{Timeframe}
use Prim.Native.String.{String}
use zorqen_research.Market.Candle.{Candle}
use zorqen_research.Backtest.{
  market_entry, explicit_exit, stop_loss, take_profit, end_of_data, is_reason, FillReason,
  ClosedTrade,
}
use zorqen_research.Backtest.Policy.{BacktestPolicy}
use zorqen_research.Backtest.Run.{DecisionContext, Output}
use zorqen_research.Backtest.Run.Counts.{Ledger-reasons}
use zorqen_research.Backtest.Summary.{BacktestResult, BacktestSummary, build_summary, count_if}
use zorqen_research.Backtest.Result.Ledger.{run_of, run-inversion}

-- How many items meet one of three tests that exclude each other, or one of four.
count_if-three :
    {A : Type 0} (p q r : A → Bool) (xs : List A)
    → ((x : A) → (if p x then 1 else 0) + (if q x then 1 else 0) + (if r x then 1 else 0) ≡ 1)
    → count_if p xs + count_if q xs + count_if r xs ≡ length xs
unfolding count_if
count_if-three p q r [] h = refl
count_if-three p q r (x ∷ xs) h = omega (arith, h x, count_if-three p q r xs h)

one_sign :
    (d : Decimal)
    → (if is_positive d then 1 else 0)
        + (if is_negative d then 1 else 0)
        + (if is_nought d then 1 else 0)
      ≡ 1
unfolding is_positive is_negative is_nought
one_sign d = ground arith

abbrev reason_count : FillReason → List ClosedTrade → ℕ
reason_count reason = count_if (λ (t : ClosedTrade). is_reason t.exit_reason reason)

one_reason :
    (r : FillReason)
    → is_reason r market_entry ≡ false
    → (if is_reason r end_of_data then 1 else 0)
        + (if is_reason r stop_loss then 1 else 0)
        + (if is_reason r take_profit then 1 else 0)
        + (if is_reason r explicit_exit then 1 else 0)
      ≡ 1
one_reason market_entry h = cc
one_reason explicit_exit h = refl
one_reason stop_loss h = refl
one_reason take_profit h = refl
one_reason end_of_data h = refl

reason_count-sum :
    (ts : List ClosedTrade)
    → All (λ (t : ClosedTrade). is_reason t.exit_reason market_entry ≡ false) ts
    → reason_count end_of_data ts
        + reason_count stop_loss ts
        + reason_count take_profit ts
        + reason_count explicit_exit ts
      ≡ length ts
unfolding count_if
reason_count-sum [] h = refl
reason_count-sum (t ∷ ts) h = omega (arith, one_reason t.exit_reason h.0, reason_count-sum ts h.1)

-- The number of the trades of which `P` holds, by what they are and not by a test.
abbrev pub NumberOf : (ClosedTrade → Type 0) → List ClosedTrade → ℕ → Type 0
NumberOf P [] n = n ≡ 0
NumberOf P (t ∷ ts) n =
    (P t × (m : ℕ) × (n ≡ suc m) × NumberOf P ts m) ⊎ ((¬ P t) × NumberOf P ts n)

NumberOf-count_if :
    (P : ClosedTrade → Type 0) (p : ClosedTrade → Bool)
    → ((t : ClosedTrade) → p t ≡ true → P t)
    → ((t : ClosedTrade) → P t → p t ≡ true)
    → (ts : List ClosedTrade) → NumberOf P ts (count_if p ts)
unfolding count_if
NumberOf-count_if P p sound complete [] = refl
NumberOf-count_if P p sound complete (t ∷ ts) = elim (Bool-cases (p t)) [
  | inl e ↦
      rw (e) (inl (sound t e, count_if p ts, omega arith, NumberOf-count_if P p sound complete ts))
  | inr e ↦
      let none_more : count_if p ts ≡ 0 + count_if p ts = omega arith in
      rw (e) (
        inr (
          (λ h. cc (complete t h, e)),
          subst (λ (n : ℕ). NumberOf P ts n) none_more (NumberOf-count_if P p sound complete ts),
        ))
]

is_reason→≡ : (a b : FillReason) → is_reason a b ≡ true → a ≡ b
is_reason→≡ market_entry b h = ground arith
is_reason→≡ explicit_exit b h = ground arith
is_reason→≡ stop_loss b h = ground arith
is_reason→≡ take_profit b h = ground arith
is_reason→≡ end_of_data b h = ground arith

is_reason_self : (a : FillReason) → is_reason a a ≡ true
is_reason_self market_entry = refl
is_reason_self explicit_exit = refl
is_reason_self stop_loss = refl
is_reason_self take_profit = refl
is_reason_self end_of_data = refl

≡→is_reason : (a b : FillReason) → a ≡ b → is_reason a b ≡ true
≡→is_reason a b h = subst (λ x. is_reason a x ≡ true) h (is_reason_self a)

NumberOf-reason_count :
    (reason : FillReason) (ts : List ClosedTrade)
    → NumberOf (λ t. t.exit_reason ≡ reason) ts (reason_count reason ts)
NumberOf-reason_count reason ts =
    NumberOf-count_if (λ t. t.exit_reason ≡ reason) (λ t. is_reason t.exit_reason reason)
      (λ t. is_reason→≡ t.exit_reason reason) (λ t. ≡→is_reason t.exit_reason reason) ts

-- A test that is a comparison with zero, counted by the comparison.
NumberOf-sign :
    (test compare : Decimal → Bool)
    → ((d : Decimal) → test d ≡ compare d)
    → (ts : List ClosedTrade)
    → NumberOf (λ t. compare t.net_pnl ≡ true) ts (count_if (λ t. test t.net_pnl) ts)
NumberOf-sign test compare same ts =
    NumberOf-count_if (λ t. compare t.net_pnl ≡ true) (λ t. test t.net_pnl)
      (λ t h. sym (same t.net_pnl) ∙ h) (λ t h. same t.net_pnl ∙ h) ts

-- The counts of a summary against the trades.
pub record IsPartition (ts : List ClosedTrade) (s : BacktestSummary) : Type 0 where
  pub closed : s.closed_trade_count ≡ length ts
  pub won : NumberOf (λ t. lt nought t.net_pnl ≡ true) ts s.winning_trade_count
  pub lost : NumberOf (λ t. lt t.net_pnl nought ≡ true) ts s.losing_trade_count
  pub even : NumberOf (λ t. eq t.net_pnl nought ≡ true) ts s.breakeven_trade_count
  pub by_sign :
      s.winning_trade_count + s.losing_trade_count + s.breakeven_trade_count ≡ s.closed_trade_count
  pub forced : NumberOf (λ t. t.exit_reason ≡ end_of_data) ts s.forced_close_count
  pub stopped : NumberOf (λ t. t.exit_reason ≡ stop_loss) ts s.stop_loss_count
  pub reached : NumberOf (λ t. t.exit_reason ≡ take_profit) ts s.take_profit_count
  pub asked : NumberOf (λ t. t.exit_reason ≡ explicit_exit) ts s.explicit_exit_count
  pub by_reason :
      s.forced_close_count + s.stop_loss_count + s.take_profit_count + s.explicit_exit_count
      ≡ s.closed_trade_count

module _ {S : Type 0} (ctx : Context) (policy : BacktestPolicy)
    (on_bar_close : S → DecisionContext → Output × S) (symbol : String) (timeframe : Timeframe)
    (hash_candles : List Candle → String) (hash_policy : BacktestPolicy → String)
    (hash_result : BacktestResult → String) where
  -- The counts of the summary of a run that returns are the numbers of its trades whose net result is
  -- above, below and at zero, and of those that ended for each reason of an exit; the three partition
  -- the trades, and so do the four.
  pub run-IsPartition :
      (provider : S) (candles : List Candle) (expected : Option String) {r : BacktestResult}
      → run_of ctx policy on_bar_close symbol timeframe hash_candles hash_policy hash_result
          provider candles expected
        ≡ ok r
      → IsPartition r.trades r.summary
  unfolding build_summary
  run-IsPartition provider candles expected h =
      let (s, s', cs, hash, same, booked, flat) =
        run-inversion ctx policy on_bar_close symbol timeframe hash_candles hash_policy hash_result
          provider candles expected h in
      let ts = s'.trades in
      subst (λ (r : BacktestResult). IsPartition r.trades r.summary) same
        (record {
          closed = refl;
          won = NumberOf-sign is_positive (λ d. lt nought d) is_positive-eq-lt ts;
          lost = NumberOf-sign is_negative (λ d. lt d nought) is_negative-eq-lt ts;
          even = NumberOf-sign is_nought (λ d. eq d nought) is_nought-eq ts;
          by_sign =
              count_if-three (λ (t : ClosedTrade). is_positive t.net_pnl)
                (λ (t : ClosedTrade). is_negative t.net_pnl)
                (λ (t : ClosedTrade). is_nought t.net_pnl) ts (λ t. one_sign t.net_pnl);
          forced = NumberOf-reason_count end_of_data ts;
          stopped = NumberOf-reason_count stop_loss ts;
          reached = NumberOf-reason_count take_profit ts;
          asked = NumberOf-reason_count explicit_exit ts;
          by_reason = reason_count-sum ts (Ledger-reasons ctx policy booked.ledger);
        })
