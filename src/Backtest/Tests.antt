-- ===== src/Backtest/Tests.antt =====
-- The simulator at a concrete run of four minutes: an entry, and an exit two bars later.
mod Values
use zorqen_research.Base.{
  ℕ, zero, suc, ◌+◌, ◌-◌, ◌*◌, ◌≡◌, refl, Bool, true, false, none, some, List, [], ◌∷◌, length,
  Result, ok, err, ◌>>=◌, is_ok, ok_of,
}
use zorqen_research.Base.Int.{pos}
use zorqen_research.Decimal.{
  Context, of_ℕ, add, sub, mul, div, rem, floor, ceiling, abs, fix, lt, le, eq, is_positive,
  is_negative, is_nought,
}
use zorqen_research.Time.{m1, minute, aware, timeframe_duration, is_aligned}
use zorqen_research.Market.Candle.{Candle, finite}
use zorqen_research.Market.Series.{expected_close}
use zorqen_research.Backtest.{long, stop_first, BacktestError, FillRecord, ClosedTrade}
use zorqen_research.Backtest.Policy.{BacktestPolicy}
use zorqen_research.Backtest.Intent.{
  validate_for_policy, validate_intrinsic, validate_exit, validate_brackets_against_fill,
  require_trimmed_intent_id, require_canonical_utc, require_direction, require_optional_label, text,
  datetime, direction, no_label, enter,
}
use zorqen_research.Backtest.Run.{
  is_open, execute_pending, execute_intent, open_position, close_position, protect, close_when,
  decide, coerce_provider_output, validate_and_select_intent, select_item, step, DecisionContext,
  Output, enter_item, exit_item, items, RunState, run_from,
}
use zorqen_research.Backtest.Summary.{
  validate_candles, check_candles, check_candle, check_follows, close_at_end, build_summary,
  BacktestResult, initial_state,
}
use zorqen_research.Backtest.Result.{close_last, run}
use zorqen_research.Backtest.Engine.{execute_entry, execute_exit, evaluate_protective}
use zorqen_research.Backtest.Rules.{
  require_finite_decimal, require_positive_price, assert_quantity_aligned, is_quantity_aligned,
  floor_to_tick, ceil_to_tick, apply_buy_slippage, apply_sell_slippage, compute_fee,
}
use zorqen_research.Backtest.Run.Ledger.{Ledger}
use zorqen_research.Backtest.Run.Paired.{Paired}
use zorqen_research.Backtest.Run.Counts.{Numbered}
use zorqen_research.Backtest.Run.Conflicts.{clashes}
use zorqen_research.Backtest.Run.Replay.{replay}
use zorqen_research.Backtest.Run.Protected.{IsUntouched, step-IsUntouched}
use zorqen_research.Backtest.Result.Ledger.{run-Ledger, run-replay, run-Paired, run-Numbered}
use zorqen_research.Backtest.Result.Partition.{IsPartition, run-IsPartition}
use zorqen_research.Backtest.Result.Guards.{run-clashes}

abbrev pub context : Context
context = record { prec = 28 }

abbrev pub policy : BacktestPolicy
policy = record {
  initial_equity = of_ℕ 1000;
  taker_fee_bps = of_ℕ 10;
  market_slippage_bps = of_ℕ 5;
  tick_size = record { coefficient = pos 1; scale = 2 };
  quantity_step = record { coefficient = pos 1; scale = 1 };
  minimum_quantity = record { coefficient = pos 1; scale = 1 };
  minimum_notional = of_ℕ 10;
  force_close_at_end = true;
  same_bar_exit_policy = stop_first;
}

abbrev candle : ℕ → ℕ → Candle
candle t p = record {
  open_time = t;
  open_price = of_ℕ p;
  high = of_ℕ (p + 2);
  low = of_ℕ (p - 1);
  close = of_ℕ (p + 1);
  volume = of_ℕ 5;
  close_time = expected_close t m1;
  quote_asset_volume = of_ℕ 7;
  trade_count = 3;
  taker_buy_base_volume = of_ℕ 1;
  taker_buy_quote_volume = of_ℕ 2;
}

abbrev candles : List Candle
candles = candle 0 100 ∷ candle minute 101 ∷ candle (2 * minute) 103 ∷ candle (3 * minute) 104 ∷ []

-- Enters at the first bar and leaves at the third.
abbrev decide_at : ℕ → ℕ → Output
decide_at zero t = items (
    enter_item (record {
      intent_id = text (97 ∷ []);
      decision_open_time = datetime (aware t (pos 0));
      direction = direction long;
      quantity = finite (of_ℕ 2);
      stop_loss = finite (of_ℕ 90);
      take_profit = finite (of_ℕ 120);
      label = no_label;
    })
    ∷ [])
decide_at (suc (suc zero)) t = items (
    exit_item (record {
      intent_id = text (98 ∷ []);
      decision_open_time = datetime (aware t (pos 0));
      label = no_label;
    })
    ∷ [])
decide_at n t = items []

abbrev provider : ℕ → DecisionContext → Output × ℕ
provider calls c = (decide_at calls c.candle.open_time, calls + 1)

abbrev outcome : Result BacktestError BacktestResult
outcome = run context policy provider "BTCUSDT" m1 (λ cs. "") (λ p. "") (λ r. "") 0 candles none

abbrev count : Result BacktestError BacktestResult → ℕ
count (ok r) = length r.trades
count (err e) = 99

-- The run has one trade.
one_trade : count outcome ≡ 1
unfolding run validate_candles check_candles check_candle check_follows is_aligned
    timeframe_duration run_from step execute_pending execute_intent open_position close_position
    execute_entry execute_exit protect close_when evaluate_protective decide coerce_provider_output
    validate_and_select_intent select_item validate_for_policy validate_intrinsic validate_exit
    validate_brackets_against_fill require_trimmed_intent_id require_canonical_utc require_direction
    require_optional_label require_finite_decimal require_positive_price assert_quantity_aligned
    is_quantity_aligned floor_to_tick ceil_to_tick apply_buy_slippage apply_sell_slippage
    compute_fee add sub mul div rem floor ceiling abs fix lt le eq is_positive is_negative is_nought
    close_last close_at_end build_summary
one_trade = refl

returns : is_ok outcome ≡ true
unfolding run validate_candles check_candles check_candle check_follows is_aligned
    timeframe_duration run_from step execute_pending execute_intent open_position close_position
    execute_entry execute_exit protect close_when evaluate_protective decide coerce_provider_output
    validate_and_select_intent select_item validate_for_policy validate_intrinsic validate_exit
    validate_brackets_against_fill require_trimmed_intent_id require_canonical_utc require_direction
    require_optional_label require_finite_decimal require_positive_price assert_quantity_aligned
    is_quantity_aligned floor_to_tick ceil_to_tick apply_buy_slippage apply_sell_slippage
    compute_fee add sub mul div rem floor ceiling abs fix lt le eq is_positive is_negative is_nought
    close_last close_at_end build_summary
returns = refl

ran : (r : BacktestResult) × (outcome ≡ ok r)
ran = ok_of outcome returns

run-Ledger_example :
    Ledger context policy ran.0.fills ran.0.trades none ran.0.equity_curve
      ran.0.summary.final_equity
run-Ledger_example =
    run-Ledger context policy provider "BTCUSDT" m1 (λ cs. "") (λ p. "") (λ r. "") 0 candles none
      ran.1

run-Paired_example : Paired context policy ran.0.fills ran.0.trades
run-Paired_example =
    run-Paired context policy provider "BTCUSDT" m1 (λ cs. "") (λ p. "") (λ r. "") 0 candles none
      ran.1

run-Numbered_example :
    Numbered (λ (f : FillRecord). f.fill_id) 0 ran.0.fills
    × Numbered (λ (t : ClosedTrade). t.trade_id) 0 ran.0.trades
    × (length ran.0.fills ≡ 2 * length ran.0.trades)
    × (length ran.0.equity_curve ≡ length ran.0.fills + 1)
run-Numbered_example =
    run-Numbered context policy provider "BTCUSDT" m1 (λ cs. "") (λ p. "") (λ r. "") 0 candles none
      ran.1

run-IsPartition_example : IsPartition ran.0.trades ran.0.summary
run-IsPartition_example =
    run-IsPartition context policy provider "BTCUSDT" m1 (λ cs. "") (λ p. "") (λ r. "") 0 candles
      none ran.1

run-clashes_example : clashes outcome ≡ false
run-clashes_example =
    run-clashes context policy provider "BTCUSDT" m1 (λ cs. "") (λ p. "") (λ r. "") 0 candles none

abbrev start : RunState ℕ
start = initial_state context policy 0

abbrev step_of : RunState ℕ → ℕ → List Candle → Result BacktestError (RunState ℕ)
step_of = run_from context policy provider "BTCUSDT" m1

-- A long entry, decided on the first minute.
abbrev waiting : RunState ℕ
waiting = record start {
  provider = 1;
  pending = some (
      enter (record {
        intent_id = 97 ∷ [];
        decision_open_time = 0;
        direction = long;
        quantity = of_ℕ 2;
        stop_loss = of_ℕ 90;
        take_profit = of_ℕ 120;
      }));
}

abbrev second : Result BacktestError (RunState ℕ)
second = step context policy provider "BTCUSDT" m1 waiting (candle minute 101) 1

abbrev opens : Result BacktestError (RunState ℕ) → Bool
opens (ok s) = is_open s.position
opens (err e) = false

-- The entry is filled on the second minute, and the position stays open.
second_opens : opens second ≡ true
unfolding run validate_candles check_candles check_candle check_follows is_aligned
    timeframe_duration run_from step execute_pending execute_intent open_position close_position
    execute_entry execute_exit protect close_when evaluate_protective decide coerce_provider_output
    validate_and_select_intent select_item validate_for_policy validate_intrinsic validate_exit
    validate_brackets_against_fill require_trimmed_intent_id require_canonical_utc require_direction
    require_optional_label require_finite_decimal require_positive_price assert_quantity_aligned
    is_quantity_aligned floor_to_tick ceil_to_tick apply_buy_slippage apply_sell_slippage
    compute_fee add sub mul div rem floor ceiling abs fix lt le eq is_positive is_negative is_nought
    close_last close_at_end build_summary
second_opens = refl

second_returns : is_ok second ≡ true
unfolding run validate_candles check_candles check_candle check_follows is_aligned
    timeframe_duration run_from step execute_pending execute_intent open_position close_position
    execute_entry execute_exit protect close_when evaluate_protective decide coerce_provider_output
    validate_and_select_intent select_item validate_for_policy validate_intrinsic validate_exit
    validate_brackets_against_fill require_trimmed_intent_id require_canonical_utc require_direction
    require_optional_label require_finite_decimal require_positive_price assert_quantity_aligned
    is_quantity_aligned floor_to_tick ceil_to_tick apply_buy_slippage apply_sell_slippage
    compute_fee add sub mul div rem floor ceiling abs fix lt le eq is_positive is_negative is_nought
    close_last close_at_end build_summary
second_returns = refl

stepped : (s : RunState ℕ) × (second ≡ ok s)
stepped = ok_of second second_returns

step-IsUntouched_example : IsUntouched context policy (candle minute 101) stepped.0.position
step-IsUntouched_example =
    step-IsUntouched context policy provider "BTCUSDT" m1 waiting (candle minute 101) 1 stepped.1

run-replay_example : ran.0.summary.final_equity ≡ replay context policy.initial_equity ran.0.trades
run-replay_example =
    run-replay context policy provider "BTCUSDT" m1 (λ cs. "") (λ p. "") (λ r. "") 0 candles none
      ran.1
