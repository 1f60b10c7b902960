-- ===== src/Backtest/Engine/Fills.antt =====
-- What `_execute_entry` and `_execute_exit` record: the fill, the position or trade, the equity.
use zorqen_research.Base.{
  ℕ, ◌≡◌, refl, subst, Bool, true, false, not, Option, some, ok, >>=-eq-ok, >>-eq-ok, ok_inj, arith,
}
use zorqen_research.Decimal.{Decimal, Context, is_positive, add, sub}
use zorqen_research.Market.Candle.{Candle, finite}
use zorqen_research.Backtest.{
  Text, FillReason, market_entry, Field, fill_price, stop_price, target_price, is_reason,
  FillRecord, PositionSnapshot, ClosedTrade,
}
use zorqen_research.Backtest.Rules.{require_positive_price}
use zorqen_research.Backtest.Policy.{BacktestPolicy}
use zorqen_research.Backtest.Intent.{EnterIntent, brackets, validate_brackets_against_fill}
use zorqen_research.Backtest.Engine.{
  OpenPosition, is_long, side_of, gross_pnl_of, execute_entry, evaluate_protective, execute_exit,
}

-- An entry fill and the position that it opens.
pub record IsEntry (n m : ℕ) (f : FillRecord) (p : OpenPosition) : Type 0 where
  pub fill_id : f.fill_id ≡ n
  pub position_id : f.position_id ≡ m
  pub reason : f.reason ≡ market_entry
  pub side : f.side ≡ side_of (is_long f.direction)
  pub positive : is_positive f.fill_price ≡ true
  pub remembered : p.entry_fill ≡ f
  pub same_position : p.snapshot.position_id ≡ m
  pub same_direction : p.snapshot.direction ≡ f.direction
  pub same_quantity : p.snapshot.quantity ≡ f.quantity
  pub same_price : p.snapshot.entry_price ≡ f.fill_price
  pub same_fee : p.snapshot.entry_fee ≡ f.fee
  pub bracketed :
      brackets p.snapshot.direction p.snapshot.stop_loss p.snapshot.entry_price
        p.snapshot.take_profit
      ≡ true

-- An exit fill, and the trade that closes the position.
pub record IsExit (ctx : Context) (policy : BacktestPolicy) (n k : ℕ) (p : OpenPosition)
    (f : FillRecord) (t : ClosedTrade) : Type 0 where
  pub fill_id : f.fill_id ≡ n
  pub trade_id : t.trade_id ≡ k
  pub entry_fill_id : t.entry_fill_id ≡ p.entry_fill.fill_id
  pub exit_fill_id : t.exit_fill_id ≡ n
  pub position_id : f.position_id ≡ p.snapshot.position_id
  pub trade_position : t.position_id ≡ p.snapshot.position_id
  pub reason : t.exit_reason ≡ f.reason
  pub side : f.side ≡ side_of (not (is_long p.snapshot.direction))
  pub quantity : f.quantity ≡ p.snapshot.quantity
  pub direction : f.direction ≡ p.snapshot.direction
  pub trade_direction : t.direction ≡ p.snapshot.direction
  pub entry_price : t.entry_price ≡ p.snapshot.entry_price
  pub exit_price : t.exit_price ≡ f.fill_price
  pub trade_quantity : t.quantity ≡ p.snapshot.quantity
  pub positive : is_positive f.fill_price ≡ true
  pub entry_fee : t.entry_fee ≡ p.snapshot.entry_fee
  pub exit_fee : t.exit_fee ≡ f.fee
  pub gross :
      t.gross_pnl
      ≡ gross_pnl_of ctx policy p.snapshot.direction p.snapshot.entry_price f.fill_price
          p.snapshot.quantity
  pub net : t.net_pnl ≡ sub ctx (sub ctx t.gross_pnl t.entry_fee) t.exit_fee

pub require_positive_price-eq-ok :
    (field : Field) (d : Decimal) {x : Decimal}
    → require_positive_price field (finite d) ≡ ok x
    → is_positive x ≡ true
unfolding require_positive_price
require_positive_price-eq-ok field d {x} h = ground arith

abbrev EntryOutcome :
    (ctx : Context) (n m : ℕ) (equity : Decimal) → FillRecord × OpenPosition × Decimal → Type 0
EntryOutcome ctx n m equity o = IsEntry n m o.0 o.1 × (o.2 ≡ sub ctx equity o.0.fee)

abbrev ExitOutcome :
    (ctx : Context) (policy : BacktestPolicy) (n k : ℕ) (p : OpenPosition) (reason : FillReason)
    (equity : Decimal)
    → FillRecord × ClosedTrade × Decimal
    → Type 0
ExitOutcome ctx policy n k p reason equity o =
    IsExit ctx policy n k p o.0 o.1
    × (o.0.reason ≡ reason)
    × (o.2 ≡ sub ctx (add ctx equity o.1.gross_pnl) o.1.exit_fee)

pub not-false : {b : Bool} → not b ≡ false → b ≡ true
not-false {b} h = ground arith

module _ (ctx : Context) (policy : BacktestPolicy) where
  pub execute_entry-IsEntry :
      (intent : EnterIntent) (candle : Candle) (i n m : ℕ) (equity : Decimal) {f : FillRecord}
      {p : OpenPosition} {e : Decimal}
      → execute_entry ctx policy intent candle i n m equity ≡ ok (f, p, e)
      → IsEntry n m f p × (e ≡ sub ctx equity f.fee)
  unfolding execute_entry
  execute_entry-IsEntry intent candle i n m equity {f} {p} {e} h =
      let (price, priced, h1) = >>=-eq-ok (require_positive_price fill_price _) _ h in
      let (_, valid, h2) = >>=-eq-ok (validate_brackets_against_fill intent price) _ h1 in
      let (large, h3) = >>-eq-ok _ _ h2 in
      let (stop, stops, h4) = >>=-eq-ok (require_positive_price stop_price _) _ h3 in
      let (target, targets, h5) = >>=-eq-ok (require_positive_price target_price _) _ h4 in
      let (ordered, h6) = >>-eq-ok _ _ h5 in
      subst (EntryOutcome ctx n m equity) (ok_inj h6) (
        record {
          fill_id = refl;
          position_id = refl;
          reason = refl;
          side = refl;
          positive = require_positive_price-eq-ok fill_price _ priced;
          remembered = refl;
          same_position = refl;
          same_direction = refl;
          same_quantity = refl;
          same_price = refl;
          same_fee = refl;
          bracketed = not-false ordered;
        },
        refl,
      )

  pub execute_exit-IsExit :
      (p : OpenPosition) (intent_id : Option Text) (candle : Candle) (i n k : ℕ)
      (reason : FillReason) (reference equity : Decimal) (ambiguous : Bool) {f : FillRecord}
      {t : ClosedTrade} {e : Decimal}
      → execute_exit ctx policy p intent_id candle i n k reason reference equity ambiguous
        ≡ ok (f, t, e)
      → IsExit ctx policy n k p f t
        × (f.reason ≡ reason)
        × (e ≡ sub ctx (add ctx equity t.gross_pnl) t.exit_fee)
  unfolding execute_exit
  execute_exit-IsExit p intent_id candle i n k reason reference equity ambiguous {f} {t} {e} h =
      let (price, priced, h1) = >>=-eq-ok (require_positive_price fill_price _) _ h in
      subst (ExitOutcome ctx policy n k p reason equity) (ok_inj h1) (
        record {
          fill_id = refl;
          trade_id = refl;
          entry_fill_id = refl;
          exit_fill_id = refl;
          position_id = refl;
          trade_position = refl;
          reason = refl;
          side = refl;
          quantity = refl;
          direction = refl;
          trade_direction = refl;
          entry_price = refl;
          exit_price = refl;
          trade_quantity = refl;
          positive = require_positive_price-eq-ok fill_price _ priced;
          entry_fee = refl;
          exit_fee = refl;
          gross = refl;
          net = refl;
        },
        refl,
        refl,
      )

  pub evaluate_protective-not_entry :
      (snapshot : PositionSnapshot) (candle : Candle) {reason : FillReason} {reference : Decimal}
      {ambiguity : Bool}
      → evaluate_protective ctx policy snapshot candle ≡ some (reason, reference, ambiguity)
      → is_reason reason market_entry ≡ false
  unfolding evaluate_protective
  evaluate_protective-not_entry snapshot candle h = ground arith
