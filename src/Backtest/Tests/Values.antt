-- ===== src/Backtest/Tests/Values.antt =====
-- Policies, intents and drawdowns at concrete values.
use zorqen_research.Base.{◌≡◌, refl, ◌⊎◌, true, List, [], ◌∷◌, All, ok, is_ok}
use zorqen_research.Base.Int.{pos}
use zorqen_research.Decimal.{
  Decimal, of_ℕ, nought, le, lt, is_positive, is_negative, is_nought, rem, fix,
}
use zorqen_research.Time.{aware}
use zorqen_research.Market.Candle.{finite}
use zorqen_research.Backtest.{long}
use zorqen_research.Backtest.Policy.{make_policy}
use zorqen_research.Backtest.Policy.Laws.{arguments}
use zorqen_research.Backtest.Rules.{
  require_positive_price, is_quantity_aligned, assert_quantity_aligned,
}
use zorqen_research.Backtest.Intent.{
  RawEnter, text, datetime, direction, no_label, require_trimmed_intent_id, require_canonical_utc,
  require_direction, require_optional_label, validate_intrinsic, validate_for_policy,
}
use zorqen_research.Backtest.Summary.{max_drawdown}
use zorqen_research.Backtest.Summary.Drawdown.{drawdowns, IsIn, max_drawdown-IsGreatest}
use zorqen_research.Backtest.Tests.{context, policy}

accepted : make_policy (arguments policy) ≡ ok policy
unfolding make_policy is_positive is_negative lt
accepted = refl

abbrev entry : RawEnter
entry = record {
  intent_id = text (97 ∷ []);
  decision_open_time = datetime (aware 0 (pos 0));
  direction = direction long;
  quantity = finite (of_ℕ 2);
  stop_loss = finite (of_ℕ 90);
  take_profit = finite (of_ℕ 120);
  label = no_label;
}

entry_passes : is_ok (validate_for_policy context policy entry) ≡ true
unfolding validate_for_policy validate_intrinsic require_trimmed_intent_id require_canonical_utc
    require_direction require_optional_label require_positive_price assert_quantity_aligned
    is_quantity_aligned rem fix lt is_positive is_nought
entry_passes = refl

abbrev curve : List Decimal
curve = of_ℕ 12 ∷ of_ℕ 9 ∷ of_ℕ 11 ∷ []

max_drawdown-IsGreatest_example :
    (le nought (max_drawdown context (of_ℕ 10 ∷ curve)) ≡ true)
    × All
        (λ d. le d (max_drawdown context (of_ℕ 10 ∷ curve)) ≡ true)
        (drawdowns context (of_ℕ 10) (of_ℕ 10 ∷ curve))
    × ((max_drawdown context (of_ℕ 10 ∷ curve) ≡ nought)
        ⊎ IsIn
            (max_drawdown context (of_ℕ 10 ∷ curve))
            (drawdowns context (of_ℕ 10) (of_ℕ 10 ∷ curve)))
max_drawdown-IsGreatest_example = max_drawdown-IsGreatest context (of_ℕ 10) curve
