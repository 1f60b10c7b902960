-- ===== src/Backtest/Run/Paired.antt =====
-- The fills of a flat ledger, two by two, against its trades.
use zorqen_research.Base.{
  ℕ, ◌≡◌, refl, sym, subst, false, not, Option, none, some, List, [], ◌∷◌, ◌++◌,
}
use zorqen_research.Decimal.{Decimal, Context, sub}
use zorqen_research.Backtest.{market_entry, is_reason, FillRecord, ClosedTrade}
use zorqen_research.Backtest.Policy.{BacktestPolicy}
use zorqen_research.Backtest.Engine.{OpenPosition, is_long, side_of, gross_pnl_of}
use zorqen_research.Backtest.Engine.Fills.{IsEntry, IsExit}
use zorqen_research.Backtest.Run.Ledger.{Ledger, started, entered, exited}

module _ (ctx : Context) (policy : BacktestPolicy) where
  -- An entry fill, an exit fill and the trade that they make.
  pub record IsRoundTrip (f g : FillRecord) (t : ClosedTrade) : Type 0 where
    pub entry_fill_id : t.entry_fill_id ≡ f.fill_id
    pub exit_fill_id : t.exit_fill_id ≡ g.fill_id
    pub entry_position : f.position_id ≡ t.position_id
    pub exit_position : g.position_id ≡ t.position_id
    pub entry_reason : f.reason ≡ market_entry
    pub exit_reason : t.exit_reason ≡ g.reason
    pub not_entry : is_reason g.reason market_entry ≡ false
    pub entry_side : f.side ≡ side_of (is_long t.direction)
    pub exit_side : g.side ≡ side_of (not (is_long t.direction))
    pub entry_quantity : f.quantity ≡ t.quantity
    pub exit_quantity : g.quantity ≡ t.quantity
    pub entry_price : t.entry_price ≡ f.fill_price
    pub exit_price : t.exit_price ≡ g.fill_price
    pub entry_fee : t.entry_fee ≡ f.fee
    pub exit_fee : t.exit_fee ≡ g.fee
    pub gross :
        t.gross_pnl ≡ gross_pnl_of ctx policy t.direction f.fill_price g.fill_price t.quantity
    pub net : t.net_pnl ≡ sub ctx (sub ctx t.gross_pnl f.fee) g.fee

  pub data Paired : List FillRecord → List ClosedTrade → Type 0 where
    done : Paired [] []
    pair :
        {fs : List FillRecord} {ts : List ClosedTrade} (f g : FillRecord) (t : ClosedTrade)
        → IsRoundTrip f g t
        → Paired fs ts
        → Paired (f ∷ g ∷ fs) (t ∷ ts)

  Paired-append :
      {fs : List FillRecord} {ts : List ClosedTrade} (f g : FillRecord) (t : ClosedTrade)
      → Paired fs ts
      → IsRoundTrip f g t
      → Paired ((fs ++ f ∷ []) ++ g ∷ []) (ts ++ t ∷ [])
  Paired-append f g t done r = pair f g t r done
  Paired-append f g t (pair f' g' t' r' p) r = pair f' g' t' r' (Paired-append f g t p r)

  -- All fills of a flat account are paired; an open one has one entry more.
  abbrev Books : Option OpenPosition → List FillRecord → List ClosedTrade → Type 0
  Books none fs ts = Paired fs ts
  Books (some p) fs ts =
      (gs : List FillRecord) × (f : FillRecord) × (n : ℕ) × (m : ℕ) × (fs ≡ gs ++ f ∷ [])
      × Paired gs ts
      × IsEntry n m f p

  round_trip :
      {n m n' k : ℕ} (f g : FillRecord) (p : OpenPosition) (t : ClosedTrade)
      → IsEntry n m f p
      → IsExit ctx policy n' k p g t
      → is_reason g.reason market_entry ≡ false
      → IsRoundTrip f g t
  round_trip f g p t a b r = record {
    entry_fill_id = cc;
    exit_fill_id = cc;
    entry_position = cc;
    exit_position = cc;
    entry_reason = cc;
    exit_reason = cc;
    not_entry = r;
    entry_side = cc;
    exit_side = cc;
    entry_quantity = cc;
    exit_quantity = cc;
    entry_price = cc;
    exit_price = cc;
    entry_fee = cc;
    exit_fee = cc;
    gross = cc;
    net = cc;
  }

  Ledger-Books :
      {fs : List FillRecord} {ts : List ClosedTrade} {o : Option OpenPosition}
      {curve : List Decimal} {e : Decimal}
      → Ledger ctx policy fs ts o curve e
      → Books o fs ts
  Ledger-Books started = done
  Ledger-Books (entered {fs} f p l is_entry) = (fs, f, _, _, refl, Ledger-Books l, is_entry)
  Ledger-Books (exited {fs} {ts} {p} g t l is_exit r) =
      let (gs, f, n, m, same, paired, is_entry) = Ledger-Books l in
      subst (λ xs. Paired (xs ++ g ∷ []) (ts ++ t ∷ [])) (sym same)
        (Paired-append f g t paired (round_trip f g p t is_entry is_exit r))

  pub Ledger-Paired :
      {fs : List FillRecord} {ts : List ClosedTrade} {curve : List Decimal} {e : Decimal}
      → Ledger ctx policy fs ts none curve e
      → Paired fs ts
  Ledger-Paired l = Ledger-Books l
