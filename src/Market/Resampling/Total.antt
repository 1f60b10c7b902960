-- ===== src/Market/Resampling/Total.antt =====
-- `resample_candles` of src/zorqen_research/domain/market_data/resampling.py on valid sources.
use zorqen_research.Base.{
  ℕ, suc, ◌*◌, ◌/◌, ◌%◌, ◌<◌, ◌≡◌, refl, sym, ap, ◌∙◌, true, List, [], ◌∷◌, arith, length, All,
  last_of, ok, none, ==_self,
}
use Prim.Native.String.{String}
use mathlib.Core.Path.{subst}
use zorqen_research.Base.Mod.{pos_of_mul}
use native.Mathlib.Nat.{div-add-mod', mul_assoc}
use zorqen_research.Decimal.{Context}
use zorqen_research.Time.{timeframe_duration, align_floor, is_aligned}
use zorqen_research.Market.Candle.{Candle}
use zorqen_research.Market.Candle.Invariant.{IsCandle}
use zorqen_research.Market.Derivation.{TimeframeDerivationPlan, derive_timeframe_plan}
use zorqen_research.Market.Derivation.Laws.{derive_timeframe_plan-exact}
use zorqen_research.Market.Series.{require_canonical_series}
use zorqen_research.Market.Series.Grid.{
  IsGrid, require_canonical_series-IsGrid, IsGrid-require_canonical_series,
}
use zorqen_research.Market.Series.Slices.{last-IsGrid}
use zorqen_research.Market.Resampling.{
  ResampledCandleSeries, aggregate_from, aggregate_complete_buckets,
  verify_complete_bucket_relationship, result_of, from_verified_series, resample_candles,
}
use zorqen_research.Market.Resampling.Placement.{
  check_placement-IsGrid, verify_from-aggregate_from, aggregate_from_total, AreAggregates,
  AreAggregates-IsGrid,
}

-- A source that can be resampled under a plan: canonical, of valid candles, in whole buckets, and
-- starting on a boundary of the target timeframe.
pub record IsSource (plan : TimeframeDerivationPlan) (c : Candle) (cs : List Candle) : Type 0 where
  pub planned : derive_timeframe_plan plan.source_timeframe plan.target_timeframe ≡ ok plan
  pub canonical : require_canonical_series plan.source_timeframe (c ∷ cs) ≡ ok (c ∷ cs)
  pub valid : All IsCandle (c ∷ cs)
  pub whole_buckets : length (c ∷ cs) % plan.ratio ≡ 0
  pub on_boundary : align_floor c.open_time plan.target_timeframe ≡ c.open_time

module _ (ctx : Context) (plan : TimeframeDerivationPlan) (c : Candle) (cs : List Candle)
    (source : IsSource plan c cs) where
  exact :
      timeframe_duration plan.target_timeframe
      ≡ plan.ratio * timeframe_duration plan.source_timeframe
  exact = (derive_timeframe_plan-exact plan.source_timeframe plan.target_timeframe source.planned).2

  ratio_pos : 0 < plan.ratio
  ratio_pos = omega (
    arith,
    (derive_timeframe_plan-exact plan.source_timeframe plan.target_timeframe source.planned).3,
  )

  grid : IsGrid plan.source_timeframe c.open_time (c ∷ cs)
  grid = (require_canonical_series-IsGrid plan.source_timeframe c cs source.canonical).2

  abbrev buckets : ℕ
  buckets = length (c ∷ cs) / plan.ratio

  buckets-mul : buckets * plan.ratio ≡ length (c ∷ cs)
  buckets-mul = omega (arith, div-add-mod' (length (c ∷ cs)) plan.ratio, source.whole_buckets)

  boundary : is_aligned c.open_time plan.target_timeframe ≡ true
  unfolding is_aligned
  boundary = rw source.on_boundary (==_self c.open_time)

  -- The last source candle and the last target candle close together.
  last_close :
      (t : Candle) (ts : List Candle)
      → IsGrid plan.target_timeframe c.open_time (t ∷ ts)
      → length (t ∷ ts) ≡ buckets
      → (last_of c cs).close_time ≡ (last_of t ts).close_time
  last_close t ts g len =
      let dt = timeframe_duration plan.target_timeframe in
      let ds = timeframe_duration plan.source_timeframe in
      let e : suc (length ts) * dt ≡ suc (length cs) * ds =
        ap (λ (n : ℕ). n * dt) len
        ∙ ap (λ (d : ℕ). buckets * d) exact
        ∙ sym (mul_assoc buckets plan.ratio ds)
        ∙ ap (λ (n : ℕ). n * ds) buckets-mul in
      omega (
        arith,
        (last-IsGrid plan.source_timeframe c.open_time c cs grid).1,
        (last-IsGrid plan.target_timeframe c.open_time t ts g).1,
        e,
      )

  verified :
      (t : Candle) (ts : List Candle)
      → aggregate_from ctx plan (c ∷ cs) c.open_time buckets 0 ≡ ok (t ∷ ts)
      → IsGrid plan.target_timeframe c.open_time (t ∷ ts)
      → length (t ∷ ts) ≡ buckets
      → verify_complete_bucket_relationship ctx plan (c ∷ cs) (t ∷ ts) ≡ ok tt
  unfolding verify_complete_bucket_relationship
  verified t ts made g len =
      rw (source.whole_buckets, len, ==_self buckets, source.on_boundary, ==_self c.open_time)
        (rw
          (verify_from-aggregate_from ctx plan exact (c ∷ cs) c.open_time grid buckets 0 [] (t ∷ ts)
            refl made)
          (rw (last_close t ts g len, ==_self (last_of t ts).close_time)))

  -- Some target, since there is some source.
  nonempty : (ts : List Candle) → length ts ≡ buckets → 0 < length ts
  nonempty ts len =
      pos_of_mul (length ts) plan.ratio (length (c ∷ cs)) (rw len buckets-mul) (omega arith)

  -- The targets as the second half of `resample_candles` sees them.
  accepted :
      (hash : List Candle → String) (symbol : String) (ts : List Candle)
      → aggregate_from ctx plan (c ∷ cs) c.open_time buckets 0 ≡ ok ts
      → IsGrid plan.target_timeframe c.open_time ts
      → length ts ≡ buckets
      → (r : ResampledCandleSeries) × (from_verified_series hash ctx symbol plan (c ∷ cs) ts ≡ ok r)
        × (r.candles ≡ ts)
        × (r.ratio ≡ plan.ratio)
  unfolding from_verified_series
  accepted hash symbol [] made g len = absurd (omega (arith, nonempty [] len))
  accepted hash symbol (t ∷ ts) made g len =
      let aligned : is_aligned t.open_time plan.target_timeframe ≡ true = rw g.0 boundary in
      let own : IsGrid plan.target_timeframe t.open_time (t ∷ ts) =
        subst (λ u. IsGrid plan.target_timeframe u (t ∷ ts)) (sym g.0) g in
      (
        result_of hash ctx symbol plan (c ∷ cs) (t ∷ ts) c (last_of c cs) t (last_of t ts),
        rw (source.planned, source.canonical)
            (rw (IsGrid-require_canonical_series plan.target_timeframe t ts aligned own)
              (rw (verified t ts made g len))),
        refl,
        refl,
      )

  -- Resampling under a plan returns a series, for valid candles that the validator accepts, that start
  -- on a boundary of the target and that are whole buckets: it has one candle for each bucket, each the
  -- aggregate of its own bucket, and neither the constructor of `Candle` nor the verification of the
  -- result refuses.
  pub resample_candles_total :
      (hash : List Candle → String) (symbol : String)
      → (r : ResampledCandleSeries) × (resample_candles hash ctx (c ∷ cs) symbol plan none ≡ ok r)
        × (length r.candles * plan.ratio ≡ length (c ∷ cs))
        × AreAggregates ctx plan (c ∷ cs) c.open_time 0 r.candles
  unfolding resample_candles aggregate_complete_buckets
  resample_candles_total hash symbol =
      let (ts, made, len, good) =
        aggregate_from_total ctx plan (c ∷ cs) c.open_time ratio_pos source.valid buckets 0
          (omega (arith, buckets-mul)) in
      let g : IsGrid plan.target_timeframe c.open_time ts =
        subst (λ u. IsGrid plan.target_timeframe u ts) (omega arith)
          (AreAggregates-IsGrid ctx plan (c ∷ cs) c.open_time 0 ts good) in
      let (r, done, same, _) = accepted hash symbol ts made g len in
      (
        r,
        rw (source.planned, source.canonical)
            (rw (source.whole_buckets, source.on_boundary, ==_self c.open_time)
              (rw (check_placement-IsGrid ctx plan exact (c ∷ cs) c.open_time grid buckets 0)
                (rw made done))),
        ap (λ (xs : List Candle). length xs * plan.ratio) same
            ∙ ap (λ (n : ℕ). n * plan.ratio) len
            ∙ buckets-mul,
        subst (AreAggregates ctx plan (c ∷ cs) c.open_time 0) (sym same) good,
      )
