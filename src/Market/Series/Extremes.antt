-- ===== src/Market/Series/Extremes.antt =====
-- The candle that `aggregate_bucket` builds, against its children.
use zorqen_research.Base.{
  ℕ, ◌+◌, ◌≡◌, refl, sym, Option, none, some, ◌∙◌, ◌⊎◌, inl, inr, true, false, List, [], ◌∷◌, arith,
  All, last_of, ok,
}
use zorqen_research.Decimal.{Decimal, Context, nought, add, le, lt, is_negative}
use zorqen_research.Decimal.Order.{le_refl, le_trans, le_total}
use zorqen_research.Decimal.Sign.{add_nonneg}
use zorqen_research.Time.{Timeframe}
use zorqen_research.Time.Floor.{millisecond-le-duration}
use zorqen_research.Market.Candle.{Candle}
use zorqen_research.Market.Candle.Invariant.{IsCandle, make_candle-arguments}
use zorqen_research.Market.Series.{
  expected_close, Totals, start_totals, add_child, add_children, aggregate_bucket,
}

-- The child that `P` asks for is there.
abbrev pub Any : (Candle → Type 0) → List Candle → Type 0
Any P [] = ⊥
Any P (c ∷ cs) = P c ⊎ Any P cs

abbrev pub total_trades : List Candle → ℕ
total_trades [] = 0
total_trades (c ∷ cs) = c.trade_count + total_trades cs

-- The open of the first child, and the close of the last one.
abbrev pub open_of : List Candle → Option Decimal
open_of [] = none
open_of (c ∷ cs) = some c.open_price

abbrev pub close_of : List Candle → Option Decimal
close_of [] = none
close_of (c ∷ []) = some c.close
close_of (c ∷ b ∷ cs) = close_of (b ∷ cs)

close_of-last : (c : Candle) (cs : List Candle) → close_of (c ∷ cs) ≡ some (last_of c cs).close
close_of-last c [] = refl
close_of-last c (b ∷ cs) = close_of-last b cs

module _ (ctx : Context) where
  -- A sum over the children in their order, rounded at each of them.
  abbrev pub summed : (Candle → Decimal) → Decimal → List Candle → Decimal
  summed amount total [] = total
  summed amount total (c ∷ cs) = summed amount (add ctx total (amount c)) cs

  -- How the totals move over some children.
  pub record Covers (t : Totals) (children : List Candle) (u : Totals) : Type 0 where
    pub high_grows : le t.high u.high ≡ true
    pub low_falls : le u.low t.low ≡ true
    pub above : All (λ (c : Candle). le c.high u.high ≡ true) children
    pub below : All (λ (c : Candle). le u.low c.low ≡ true) children
    pub high_from : (u.high ≡ t.high) ⊎ Any (λ (c : Candle). u.high ≡ c.high) children
    pub low_from : (u.low ≡ t.low) ⊎ Any (λ (c : Candle). u.low ≡ c.low) children
    pub trades : u.trade_count ≡ t.trade_count + total_trades children
    pub volume : u.volume ≡ summed (λ c. c.volume) t.volume children
    pub quote : u.quote ≡ summed (λ c. c.quote_asset_volume) t.quote children
    pub taker_base : u.taker_base ≡ summed (λ c. c.taker_buy_base_volume) t.taker_base children
    pub taker_quote : u.taker_quote ≡ summed (λ c. c.taker_buy_quote_volume) t.taker_quote children

  add_child_from :
      (t : Totals) (c : Candle)
      → let u = add_child ctx t c in
        ((u.high ≡ t.high) ⊎ (u.high ≡ c.high)) × ((u.low ≡ t.low) ⊎ (u.low ≡ c.low))
  unfolding add_child
  add_child_from t c = ground arith

  -- A later extreme is an earlier one, or that of a later child.
  pass_on :
      {u t x : Decimal} {P : Type 0}
      → (u ≡ t) ⊎ (u ≡ x)
      → {v : Decimal} → (v ≡ u) ⊎ P
      → (v ≡ t) ⊎ ((v ≡ x) ⊎ P)
  pass_on (inl e) (inl f) = inl (f ∙ e)
  pass_on (inr e) (inl f) = inr (inl (f ∙ e))
  pass_on _ (inr p) = inr (inr p)

  trades_next :
      (t : Totals) (c : Candle) → (add_child ctx t c).trade_count ≡ t.trade_count + c.trade_count
  unfolding add_child
  trades_next t c = refl

  add_child_grows :
      (t : Totals) (c : Candle)
      → let u = add_child ctx t c in
        (le t.high u.high ≡ true)
        × (le c.high u.high ≡ true)
        × (le u.low t.low ≡ true)
        × (le u.low c.low ≡ true)
  unfolding add_child lt
  add_child_grows t c = ground (
    arith,
    le_refl t.high,
    le_refl t.low,
    le_refl c.high,
    le_refl c.low,
    le_total c.high t.high,
    le_total t.low c.low,
  )

  pub add_children-Covers :
      (t : Totals) (children : List Candle) → Covers t children (add_children ctx t children)
  unfolding add_children add_child
  add_children-Covers t [] = record {
    high_grows = le_refl t.high;
    low_falls = le_refl t.low;
    above = tt;
    below = tt;
    high_from = inl refl;
    low_from = inl refl;
    trades = omega arith;
    volume = refl;
    quote = refl;
    taker_base = refl;
    taker_quote = refl;
  }
  add_children-Covers t (c ∷ cs) =
      let u = add_child ctx t c in
      let v = add_children ctx u cs in
      let rest = add_children-Covers u cs in
      let (h, ch, l, cl) = add_child_grows t c in
      record {
        high_grows = le_trans t.high u.high v.high h rest.high_grows;
        low_falls = le_trans v.low u.low t.low rest.low_falls l;
        above = (le_trans c.high u.high v.high ch rest.high_grows, rest.above);
        below = (le_trans v.low u.low c.low rest.low_falls cl, rest.below);
        high_from = pass_on (add_child_from t c).0 rest.high_from;
        low_from = pass_on (add_child_from t c).1 rest.low_from;
        trades = omega (arith, rest.trades, trades_next t c);
        volume = rest.volume;
        quote = rest.quote;
        taker_base = rest.taker_base;
        taker_quote = rest.taker_quote;
      }

  -- No volume is negative.
  abbrev pub NonNegative : Totals → Type 0
  NonNegative t =
      (is_negative t.volume ≡ false)
      × (is_negative t.quote ≡ false)
      × (is_negative t.taker_base ≡ false)
      × (is_negative t.taker_quote ≡ false)

  pub add_children-NonNegative :
      (t : Totals) (children : List Candle)
      → NonNegative t
      → All IsCandle children
      → NonNegative (add_children ctx t children)
  unfolding add_children add_child
  add_children-NonNegative t [] n h = n
  add_children-NonNegative t (c ∷ cs) n h =
      add_children-NonNegative (add_child ctx t c) cs
        (
          add_nonneg ctx _ _ n.0 h.0.volume_nonneg,
          add_nonneg ctx _ _ n.1 h.0.quote_nonneg,
          add_nonneg ctx _ _ n.2 h.0.taker_base_nonneg,
          add_nonneg ctx _ _ n.3 h.0.taker_quote_nonneg,
        )
        h.1

  -- What an aggregate has to do with the children of its bucket.
  pub record IsAggregate (children : List Candle) (start : ℕ) (tf : Timeframe) (c : Candle)
      : Type 0 where
    pub opens : c.open_time ≡ start
    pub closes : c.close_time ≡ expected_close start tf
    pub in_order : IsCandle c
    pub above : All (λ (child : Candle). le child.high c.high ≡ true) children
    pub below : All (λ (child : Candle). le c.low child.low ≡ true) children
    pub high_attained : Any (λ (child : Candle). c.high ≡ child.high) children
    pub low_attained : Any (λ (child : Candle). c.low ≡ child.low) children
    pub opening : some c.open_price ≡ open_of children
    pub closing : some c.close ≡ close_of children
    pub trades : c.trade_count ≡ total_trades children
    pub volume : c.volume ≡ summed (λ child. child.volume) nought children
    pub quote : c.quote_asset_volume ≡ summed (λ child. child.quote_asset_volume) nought children
    pub taker_base :
        c.taker_buy_base_volume ≡ summed (λ child. child.taker_buy_base_volume) nought children
    pub taker_quote :
        c.taker_buy_quote_volume ≡ summed (λ child. child.taker_buy_quote_volume) nought children

  attained : {x y : Decimal} {P : Type 0} → (y ≡ x) ⊎ ((y ≡ x) ⊎ P) → (y ≡ x) ⊎ P
  attained (inl e) = inl e
  attained (inr r) = r

  nought_nonneg : (c : Candle) → NonNegative (start_totals c)
  unfolding is_negative
  nought_nonneg c = (refl, refl, refl, refl)

  built : Candle → List Candle → ℕ → Timeframe → Candle
  built c cs start tf =
      let t = add_children ctx (start_totals c) (c ∷ cs) in
      record {
        open_time = start;
        open_price = c.open_price;
        high = t.high;
        low = t.low;
        close = (last_of c cs).close;
        volume = t.volume;
        close_time = expected_close start tf;
        quote_asset_volume = t.quote;
        trade_count = t.trade_count;
        taker_buy_base_volume = t.taker_base;
        taker_buy_quote_volume = t.taker_quote;
      }

  -- The last of some children, as one of them.
  All-last :
      (P : Candle → Type 0) (c : Candle) (cs : List Candle) → All P (c ∷ cs) → P (last_of c cs)
  All-last P c [] h = h.0
  All-last P c (b ∷ cs) h = All-last P b cs h.1

  built-IsAggregate :
      (c : Candle) (cs : List Candle) (start : ℕ) (tf : Timeframe)
      → All IsCandle (c ∷ cs)
      → IsAggregate (c ∷ cs) start tf (built c cs start tf)
  unfolding built
  built-IsAggregate c cs start tf h =
      let t = add_children ctx (start_totals c) (c ∷ cs) in
      let covers = add_children-Covers (start_totals c) (c ∷ cs) in
      let positive = add_children-NonNegative (start_totals c) (c ∷ cs) (nought_nonneg c) h in
      let last = All-last IsCandle c cs h in
      record {
        opens = refl;
        closes = refl;
        in_order = record {
          ordered = omega (arith, millisecond-le-duration tf);
          low-le-open = le_trans _ _ _ covers.low_falls h.0.low-le-open;
          low-le-close =
              le_trans _ _ _ (All-last (λ b. le t.low b.low ≡ true) c cs covers.below)
                last.low-le-close;
          low-le-high =
              le_trans _ _ _ covers.low_falls (le_trans _ _ _ h.0.low-le-high covers.high_grows);
          open-le-high = le_trans _ _ _ h.0.open-le-high covers.high_grows;
          close-le-high =
              le_trans _ _ _ last.close-le-high
                (All-last (λ b. le b.high t.high ≡ true) c cs covers.above);
          volume_nonneg = positive.0;
          quote_nonneg = positive.1;
          taker_base_nonneg = positive.2;
          taker_quote_nonneg = positive.3;
        };
        above = covers.above;
        below = covers.below;
        high_attained = attained covers.high_from;
        low_attained = attained covers.low_from;
        opening = refl;
        closing = sym (close_of-last c cs);
        trades = omega (arith, covers.trades);
        volume = covers.volume;
        quote = covers.quote;
        taker_base = covers.taker_base;
        taker_quote = covers.taker_quote;
      }

  -- A bucket of at least one valid candle has an aggregate that is a valid candle: its open is the
  -- first child's and its close the last one's, its high and low bound those of every child and are
  -- attained, its volumes are the sums in order, rounded at each child, and its trades are the sum.
  pub aggregate_bucket_total :
      (c : Candle) (cs : List Candle) (start : ℕ) (tf : Timeframe)
      → All IsCandle (c ∷ cs)
      → (a : Candle) × (aggregate_bucket ctx (c ∷ cs) start tf ≡ ok a)
        × IsAggregate (c ∷ cs) start tf a
  unfolding aggregate_bucket built
  aggregate_bucket_total c cs start tf h =
      let a = built-IsAggregate c cs start tf h in
      (built c cs start tf, rw (make_candle-arguments (built c cs start tf) a.in_order), a)
