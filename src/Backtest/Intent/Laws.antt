-- ===== src/Backtest/Intent/Laws.antt =====
-- What the validators of an intent accept.
use zorqen_research.Base.{◌≡◌, sym, subst, ◌∙◌, true, false, ok, >>=-eq-ok, ok_inj, arith}
use zorqen_research.Decimal.{Decimal, Context, lt, is_positive}
use zorqen_research.Market.Candle.{Number, finite}
use zorqen_research.Backtest.Policy.{BacktestPolicy}
use zorqen_research.Backtest.Rules.{
  require_positive_price, is_quantity_aligned, assert_quantity_aligned,
}
use zorqen_research.Backtest.Intent.{
  RawEnter, EnterIntent, is_trimmed, require_trimmed_intent_id, require_canonical_utc,
  require_direction, require_optional_label, validate_intrinsic, validate_for_policy,
}

-- An entry that can be executed under a policy.
pub record IsIntent (ctx : Context) (policy : BacktestPolicy) (i : EnterIntent) : Type 0 where
  pub trimmed : is_trimmed i.intent_id ≡ true
  pub quantity_positive : is_positive i.quantity ≡ true
  pub quantity_enough : lt i.quantity policy.minimum_quantity ≡ false
  pub on_step : is_quantity_aligned ctx i.quantity policy.quantity_step ≡ ok true
  pub stop_positive : is_positive i.stop_loss ≡ true
  pub target_positive : is_positive i.take_profit ≡ true

assert-aligned :
    (ctx : Context) (n : Number) (step least : Decimal) {q : Decimal}
    → assert_quantity_aligned ctx n step least ≡ ok q
    → (n ≡ finite q) × (lt q least ≡ false) × (is_quantity_aligned ctx q step ≡ ok true)
unfolding assert_quantity_aligned
assert-aligned ctx n step least {q} h = ground arith

intrinsic :
    (r : RawEnter) {i : EnterIntent}
    → validate_intrinsic r ≡ ok i
    → (r.quantity ≡ finite i.quantity)
      × (is_trimmed i.intent_id ≡ true)
      × (is_positive i.quantity ≡ true)
      × (is_positive i.stop_loss ≡ true)
      × (is_positive i.take_profit ≡ true)
unfolding validate_intrinsic require_positive_price require_trimmed_intent_id require_canonical_utc
    require_direction require_optional_label
intrinsic r {i} h = ground arith

finite_inj : (a b : Decimal) → finite a ≡ finite b → a ≡ b
finite_inj a b h = cc

-- An entry that is accepted for a policy has a trimmed id, a positive quantity of at least the least
-- one and on the policy's step, and positive levels.
validate_for_policy-IsIntent :
    (ctx : Context) (policy : BacktestPolicy) (r : RawEnter) {i : EnterIntent}
    → validate_for_policy ctx policy r ≡ ok i
    → IsIntent ctx policy i
unfolding validate_for_policy
validate_for_policy-IsIntent ctx policy r {i} h =
    let (j, valid, h1) = >>=-eq-ok (validate_intrinsic r) _ h in
    let (q, aligned, h2) =
      >>=-eq-ok
        (assert_quantity_aligned ctx r.quantity policy.quantity_step policy.minimum_quantity) _
        h1 in
    let (own, trimmed, positive, stop, target) = intrinsic r valid in
    let (given, enough, step) = assert-aligned ctx r.quantity _ _ aligned in
    let same : q ≡ j.quantity = finite_inj q j.quantity (sym given ∙ own) in
    subst (IsIntent ctx policy) (ok_inj h2) (record {
      trimmed = trimmed;
      quantity_positive = positive;
      quantity_enough = subst (λ x. lt x policy.minimum_quantity ≡ false) same enough;
      on_step = subst (λ x. is_quantity_aligned ctx x policy.quantity_step ≡ ok true) same step;
      stop_positive = stop;
      target_positive = target;
    })
