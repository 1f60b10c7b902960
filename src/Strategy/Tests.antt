-- ===== src/Strategy/Tests.antt =====
-- A strategy on minutes with a context of three minutes, at concrete candles.
use zorqen_research.Base.{
  ℕ, ◌+◌, ◌-◌, ◌*◌, ◌≡◌, refl, true, List, [], ◌∷◌, Result, ok, err, ap, ◌>>=◌, is_ok, ok_of, arith,
  false, Bool,
}
use zorqen_research.Decimal.{Context, of_ℕ, eq}
use zorqen_research.Time.{Timeframe, m1, m3, minute, timeframe_duration, is_aligned}
use zorqen_research.Market.Candle.{Candle}
use zorqen_research.Market.Derivation.{derive_timeframe_plan}
use zorqen_research.Market.Series.{
  expected_close, require_canonical_series, check_series, check_candle,
}
use zorqen_research.Market.Alignment.{
  from_candles, require_gap_free_series, require_derivable_pair, assert_mapping_bound_to_candles,
  check_entries, compute_no_lookahead_mapping, mapping_from, advance, more, alignment_of,
}
use zorqen_research.Market.Alignment.Multi.{from_alignments, check_alignments, check_alignment}
use zorqen_research.Base.Int.{pos}
use zorqen_research.Backtest.{long, stop_first}
use zorqen_research.Backtest.Policy.{BacktestPolicy}
use zorqen_research.Backtest.Run.{Output, items}
use zorqen_research.Strategy.{StrategyInstance, StrategyError}
use zorqen_research.Strategy.Input.{
  MultiTimeframeBacktestInput, from_verified, bind_requirements, bind_contexts, bind_context,
}
use zorqen_research.Strategy.View.{
  DecisionFeed, MultiTimeframeDecisionView, from_input, view_at, bind_trusted, bind_sources,
  view_from_feed, from_verified_source, latest, is_candle, same_candle, context_views, context_view,
  context_history, context_view_of, view_of, required_visible_count,
}
use zorqen_research.Strategy.View.Lookahead.{Shows, view_at-Shows}
use zorqen_research.Strategy.Provider.{MultiTimeframeContext}
use zorqen_research.Strategy.Runner.{run_strategy}
use zorqen_research.Strategy.Runner.Direct.{start_of, direct_run}
use zorqen_research.Strategy.Runner.Total.{Follows, run_strategy-Follows}

abbrev context : Context
context = record { prec = 28 }

abbrev policy : BacktestPolicy
policy = record {
  initial_equity = of_ℕ 1000;
  taker_fee_bps = of_ℕ 10;
  market_slippage_bps = of_ℕ 5;
  tick_size = record { coefficient = pos 1; scale = 2 };
  quantity_step = record { coefficient = pos 1; scale = 1 };
  minimum_quantity = record { coefficient = pos 1; scale = 1 };
  minimum_notional = of_ℕ 10;
  force_close_at_end = true;
  same_bar_exit_policy = stop_first;
}

abbrev candle : Timeframe → ℕ → ℕ → Candle
candle tf t p = record {
  open_time = t;
  open_price = of_ℕ p;
  high = of_ℕ (p + 2);
  low = of_ℕ (p - 1);
  close = of_ℕ (p + 1);
  volume = of_ℕ 5;
  close_time = expected_close t tf;
  quote_asset_volume = of_ℕ 7;
  trade_count = 3;
  taker_buy_base_volume = of_ℕ 1;
  taker_buy_quote_volume = of_ℕ 2;
}

abbrev minutes : List Candle
minutes =
    candle m1 0 100
    ∷ candle m1 minute 101
    ∷ candle m1 (2 * minute) 103
    ∷ candle m1 (3 * minute) 104
    ∷ []

abbrev strategy : StrategyInstance
strategy = record {
  definition = record {
    execution_timeframe = m1;
    execution_warmup_bars = 2;
    context_requirements = record { timeframe = m3; warmup_bars = 1 } ∷ [];
    supported_directions = long ∷ [];
  };
  instance_hash = "instance";
}

abbrev verified : Result StrategyError MultiTimeframeBacktestInput
verified =
    from_verified (λ cs. "") (λ p. "") (λ p. "") (λ d. "") strategy "BTCUSDT" minutes
      ((m3, candle m3 0 100 ∷ []) ∷ [])

abbrev bars : Result StrategyError MultiTimeframeBacktestInput → ℕ
bars (err e) = 0
bars (ok b) = b.execution_candle_count

verified_has_four_bars : (is_ok verified ≡ true) × (bars verified ≡ 4)
unfolding from_verified bind_requirements bind_contexts bind_context require_canonical_series
    is_aligned timeframe_duration check_series check_candle derive_timeframe_plan from_candles
    require_gap_free_series require_derivable_pair assert_mapping_bound_to_candles check_entries
    compute_no_lookahead_mapping mapping_from advance more alignment_of from_alignments
    check_alignments check_alignment zorqen_research.Market.Alignment.check_series
    zorqen_research.Market.Alignment.check_candle
verified_has_four_bars = (refl, refl)

accepted : (b : MultiTimeframeBacktestInput) × (verified ≡ ok b)
accepted = ok_of verified verified_has_four_bars.0

-- The fourth bar: the minutes are four, and the context has one candle that has closed.
view_at-Shows_example :
    (feed : DecisionFeed) × (v : MultiTimeframeDecisionView) × (from_input accepted.0 ≡ ok feed)
    × (view_at (λ d. "") feed 3 ≡ ok v)
    × Shows accepted.0 3 v
view_at-Shows_example =
    view_at-Shows (λ cs. "") (λ p. "") (λ p. "") (λ d. "") (λ d. "") strategy "BTCUSDT" minutes
      ((m3, candle m3 0 100 ∷ []) ∷ []) 3 accepted.1
      (omega (arith, verified_has_four_bars.1, ap bars accepted.1))

-- The warm-up asks for two minutes and a closed context: two bars are not ready, two are.
abbrev ready_at : ℕ → Result StrategyError Bool
ready_at i = do b ← verified; feed ← from_input b; v ← view_at (λ d. "") feed i; ok v.overall_ready

readiness : (ready_at 1 ≡ ok false) × (ready_at 2 ≡ ok true)
unfolding from_verified bind_requirements bind_contexts bind_context require_canonical_series
    is_aligned timeframe_duration check_series check_candle derive_timeframe_plan from_candles
    require_gap_free_series require_derivable_pair assert_mapping_bound_to_candles check_entries
    compute_no_lookahead_mapping mapping_from advance more alignment_of from_alignments
    check_alignments check_alignment zorqen_research.Market.Alignment.check_series
    zorqen_research.Market.Alignment.check_candle from_input bind_trusted bind_sources view_at
    view_from_feed from_verified_source latest is_candle same_candle eq context_views context_view
    context_history context_view_of view_of required_visible_count
readiness = (refl, refl)

-- It counts the calls and asks for nothing.
abbrev idle : ℕ → MultiTimeframeContext → Output × ℕ
idle calls c = (items [], calls + 1)

run_strategy-Follows_example :
    Follows
      (λ d. "")
      accepted.0
      (direct_run context
        (λ cs. "")
        (λ p. "")
        (λ r. "")
        (λ d. "")
        idle
        accepted.0
        policy
        (start_of 0))
      (run_strategy context
        (λ cs. "")
        (λ p. "")
        (λ r. "")
        (λ d. "")
        (λ d. "")
        idle
        accepted.0
        policy
        0)
run_strategy-Follows_example =
    run_strategy-Follows context (λ cs. "") (λ p. "") (λ r. "") (λ d. "") (λ d. "") idle (λ p. "")
      (λ p. "") (λ d. "") strategy "BTCUSDT" minutes ((m3, candle m3 0 100 ∷ []) ∷ []) policy 0
      accepted.1
