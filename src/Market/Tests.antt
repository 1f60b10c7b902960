-- ===== src/Market/Tests.antt =====
-- The market data at concrete candles: three minutes, and the candle of three minutes over them.
use zorqen_research.Base.{
  ℕ, ◌+◌, ◌-◌, ◌*◌, ◌/◌, ◌≤◌, ◌≡◌, refl, true, none, some, List, [], ◌∷◌, length, All, ok, arith,
}
use zorqen_research.Decimal.{Context, of_ℕ, lt, is_negative}
use zorqen_research.Time.{
  Timeframe, m1, m3, m15, minute, timeframe_duration, align_floor, is_aligned,
}
use zorqen_research.Market.Candle.{Candle, read_fields, check_values, make_candle, arguments}
use zorqen_research.Market.Candle.Invariant.{IsCandle, make_candle-IsCandle, make_candle-arguments}
use zorqen_research.Market.Derivation.{
  TimeframeDerivationPlan, max_derivation_ratio, derive_timeframe_plan,
}
use zorqen_research.Market.Derivation.Laws.{
  planned, derive_timeframe_plan-exact, derive_timeframe_plan_total,
}
use zorqen_research.Market.Series.{
  check_series, check_candle, expected_close, require_canonical_series, aggregate_bucket,
}
use zorqen_research.Market.Series.Grid.{
  IsGrid, require_canonical_series-IsGrid, IsGrid-require_canonical_series,
}
use zorqen_research.Market.Series.Extremes.{IsAggregate, aggregate_bucket_total}
use zorqen_research.Market.Resampling.{ResampledCandleSeries, resample_candles}
use zorqen_research.Market.Resampling.Placement.{AreAggregates}
use zorqen_research.Market.Resampling.Total.{IsSource, resample_candles_total}
use zorqen_research.Market.Alignment.{
  mapping_from, advance, more, compute_no_lookahead_mapping, from_candles, alignment_of,
}
use zorqen_research.Market.Alignment.Latest.{
  ForEach, IsLatest, compute_no_lookahead_mapping-IsLatest,
}
use zorqen_research.Market.Alignment.Total.{from_candles_total}
use zorqen_research.Base.{map, is_ok, ok_of}
use zorqen_research.Time.{duration_milliseconds}
use zorqen_research.Market.Alignment.{ContextAlignment}
use zorqen_research.Market.Alignment.Multi.{
  MultiContextAlignment, check_alignment, check_alignments, multi_of, from_alignments,
  align_multi_context,
}
use zorqen_research.Market.Alignment.Multi.Ordered.{IsBound, Increasing, from_alignments-Increasing}
use zorqen_research.Market.Alignment.Multi.Total.{aligned, align_multi_context_total}

abbrev context : Context
context = record { prec = 28 }

-- A candle around the price `p`.
abbrev candle : Timeframe → ℕ → ℕ → Candle
candle tf t p = record {
  open_time = t;
  open_price = of_ℕ p;
  high = of_ℕ (p + 2);
  low = of_ℕ (p - 1);
  close = of_ℕ (p + 1);
  volume = of_ℕ 5;
  close_time = expected_close t tf;
  quote_asset_volume = of_ℕ 7;
  trade_count = 3;
  taker_buy_base_volume = of_ℕ 1;
  taker_buy_quote_volume = of_ℕ 2;
}

abbrev first : Candle
first = candle m1 0 10

abbrev rest : List Candle
rest = candle m1 minute 12 ∷ candle m1 (2 * minute) 9 ∷ []

abbrev plan : TimeframeDerivationPlan
plan = record { source_timeframe = m1; target_timeframe = m3; ratio = 3 }

first_made : make_candle (arguments first) ≡ ok first
unfolding make_candle read_fields timeframe_duration check_values lt is_negative
first_made = refl

second_made : make_candle (arguments (candle m1 minute 12)) ≡ ok (candle m1 minute 12)
unfolding make_candle read_fields timeframe_duration check_values lt is_negative
second_made = refl

third_made : make_candle (arguments (candle m1 (2 * minute) 9)) ≡ ok (candle m1 (2 * minute) 9)
unfolding make_candle read_fields timeframe_duration check_values lt is_negative
third_made = refl

valid_candles : All IsCandle (first ∷ rest)
valid_candles = (
  make_candle-IsCandle (arguments first) first_made,
  (
    make_candle-IsCandle (arguments (candle m1 minute 12)) second_made,
    (make_candle-IsCandle (arguments (candle m1 (2 * minute) 9)) third_made, tt),
  ),
)

plan_m1_m3 : derive_timeframe_plan m1 m3 ≡ ok plan
unfolding derive_timeframe_plan timeframe_duration
plan_m1_m3 = refl

canonical : require_canonical_series m1 (first ∷ rest) ≡ ok (first ∷ rest)
unfolding require_canonical_series is_aligned timeframe_duration check_series check_candle
canonical = refl

plan_m3_m15 :
    derive_timeframe_plan m3 m15
    ≡ ok (record { source_timeframe = m3; target_timeframe = m15; ratio = 5 })
unfolding derive_timeframe_plan timeframe_duration
plan_m3_m15 = refl

canonical_m3 : require_canonical_series m3 (candle m3 0 10 ∷ []) ≡ ok (candle m3 0 10 ∷ [])
unfolding require_canonical_series is_aligned timeframe_duration check_series check_candle
canonical_m3 = refl

make_candle-IsCandle_example : IsCandle first
make_candle-IsCandle_example = make_candle-IsCandle (arguments first) first_made

make_candle-arguments_example : make_candle (arguments first) ≡ ok first
make_candle-arguments_example = make_candle-arguments first valid_candles.0

derive_timeframe_plan-exact_example :
    (plan.source_timeframe ≡ m1)
    × (plan.target_timeframe ≡ m3)
    × (timeframe_duration m3 ≡ plan.ratio * timeframe_duration m1)
    × (2 ≤ plan.ratio)
    × (plan.ratio ≤ max_derivation_ratio)
derive_timeframe_plan-exact_example = derive_timeframe_plan-exact m1 m3 plan_m1_m3

derive_timeframe_plan_total_example :
    derive_timeframe_plan m1 m3 ≡ planned m1 m3 (timeframe_duration m3 / timeframe_duration m1)
unfolding timeframe_duration
derive_timeframe_plan_total_example = derive_timeframe_plan_total m1 m3 (omega arith) refl

require_canonical_series-IsGrid_example :
    (first ∷ rest ≡ first ∷ rest) × (is_aligned 0 m1 ≡ true) × IsGrid m1 0 (first ∷ rest)
require_canonical_series-IsGrid_example = require_canonical_series-IsGrid m1 first rest canonical

IsGrid-require_canonical_series_example :
    require_canonical_series m1 (first ∷ rest) ≡ ok (first ∷ rest)
unfolding is_aligned timeframe_duration
IsGrid-require_canonical_series_example =
    IsGrid-require_canonical_series m1 first rest refl (refl, refl, (refl, refl, (refl, refl, tt)))

aggregate_bucket_total_example :
    (a : Candle) × (aggregate_bucket context (first ∷ rest) 0 m3 ≡ ok a)
    × IsAggregate context (first ∷ rest) 0 m3 a
aggregate_bucket_total_example = aggregate_bucket_total context first rest 0 m3 valid_candles

minutes-IsSource : IsSource plan first rest
unfolding align_floor
minutes-IsSource = record {
  planned = plan_m1_m3;
  canonical = canonical;
  valid = valid_candles;
  whole_buckets = refl;
  on_boundary = refl;
}

resample_candles_total_example :
    (r : ResampledCandleSeries) × (resample_candles
        (λ cs. "")
        context
        (first ∷ rest)
        "BTCUSDT"
        plan
        none
      ≡ ok r)
    × (length r.candles * plan.ratio ≡ length (first ∷ rest))
    × AreAggregates context plan (first ∷ rest) 0 0 r.candles
resample_candles_total_example =
    resample_candles_total context plan first rest minutes-IsSource (λ cs. "") "BTCUSDT"

compute_no_lookahead_mapping-IsLatest_example :
    ForEach
      (λ e m. IsLatest (candle m3 0 10 ∷ []) e.close_time m)
      (first ∷ rest)
      (compute_no_lookahead_mapping (first ∷ rest) (candle m3 0 10 ∷ []))
unfolding timeframe_duration
compute_no_lookahead_mapping-IsLatest_example =
    compute_no_lookahead_mapping-IsLatest m1 m3 0 0 (first ∷ rest) (candle m3 0 10 ∷ [])
      (refl, refl, (refl, refl, (refl, refl, tt))) (refl, refl, tt)

from_candles_total_example :
    from_candles (λ cs. "") (λ p. "") "BTCUSDT" m1 m3 (first ∷ rest) (candle m3 0 10 ∷ [])
    ≡ ok (
        alignment_of
          (λ cs. "")
          (λ p. "")
          "BTCUSDT"
          m1
          m3
          (first ∷ rest)
          (candle m3 0 10 ∷ [])
          (compute_no_lookahead_mapping (first ∷ rest) (candle m3 0 10 ∷ [])))
from_candles_total_example =
    from_candles_total (λ cs. "") (λ p. "") "BTCUSDT" m1 m3 first rest (candle m3 0 10 ∷ [])
      plan_m1_m3 canonical canonical_m3

-- The first two minutes have no closed candle of three minutes, the third one has.
mapping_run :
    compute_no_lookahead_mapping (first ∷ rest) (candle m3 0 10 ∷ []) ≡ none ∷ none ∷ some 0 ∷ []
unfolding compute_no_lookahead_mapping timeframe_duration mapping_from advance more
mapping_run = refl

abbrev three : Timeframe × List Candle
three = (m3, candle m3 0 10 ∷ [])

abbrev fifteen : Timeframe × List Candle
fifteen = (m15, candle m15 0 10 ∷ [])

plan_m1_m15 :
    derive_timeframe_plan m1 m15
    ≡ ok (record { source_timeframe = m1; target_timeframe = m15; ratio = 15 })
unfolding derive_timeframe_plan timeframe_duration
plan_m1_m15 = refl

canonical_m15 : require_canonical_series m15 (candle m15 0 10 ∷ []) ≡ ok (candle m15 0 10 ∷ [])
unfolding require_canonical_series is_aligned timeframe_duration check_series check_candle
canonical_m15 = refl

align_multi_context_total_example :
    align_multi_context
      (λ p. "")
      (λ p. "")
      (λ cs. "")
      "BTCUSDT"
      m1
      (first ∷ rest)
      (three ∷ fifteen ∷ [])
    ≡ ok (
        multi_of
          (λ p. "")
          (λ p. "")
          (aligned (λ cs. "") (λ p. "") (λ p. "") "BTCUSDT" m1 first rest three)
          (map
            (aligned (λ cs. "") (λ p. "") (λ p. "") "BTCUSDT" m1 first rest)
            (three ∷ fifteen ∷ [])))
unfolding timeframe_duration
align_multi_context_total_example =
    align_multi_context_total (λ cs. "") (λ p. "") (λ p. "") "BTCUSDT" m1 first rest three
      (fifteen ∷ []) canonical
      (((_, plan_m1_m3), canonical_m3), (((_, plan_m1_m15), canonical_m15), tt))
      (omega arith, (omega arith, tt))

abbrev alignment_with : Timeframe × List Candle → ContextAlignment
alignment_with c = aligned (λ cs. "") (λ p. "") (λ p. "") "BTCUSDT" m1 first rest c

alignments_pass :
    is_ok (from_alignments (λ p. "") (λ p. "") (alignment_with three ∷ alignment_with fifteen ∷ []))
    ≡ true
unfolding from_alignments check_alignments check_alignment alignment_of timeframe_duration
    duration_milliseconds
alignments_pass = refl

multi :
    (m : MultiContextAlignment) × (from_alignments
        (λ p. "")
        (λ p. "")
        (alignment_with three ∷ alignment_with fifteen ∷ [])
      ≡ ok m)
multi =
    ok_of (from_alignments (λ p. "") (λ p. "") (alignment_with three ∷ alignment_with fifteen ∷ []))
      alignments_pass

from_alignments-Increasing_example :
    (multi.0.alignments ≡ alignment_with three ∷ alignment_with fifteen ∷ [])
    × All
        (IsBound (λ p. "") (alignment_with three))
        (alignment_with three ∷ alignment_with fifteen ∷ [])
    × Increasing (alignment_with three ∷ alignment_with fifteen ∷ [])
from_alignments-Increasing_example =
    from_alignments-Increasing (λ p. "") (λ p. "") (alignment_with three)
      (alignment_with fifteen ∷ []) multi.1
