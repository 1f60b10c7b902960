-- ===== src/Market/Resampling/Placement.antt =====
-- The loops of src/zorqen_research/domain/market_data/series.py over the buckets of a grid.
use zorqen_research.Base.{
  ℕ, zero, suc, ◌+◌, ◌*◌, ◌≤◌, ◌<◌, ◌≡◌, refl, ap, true, List, [], ◌∷◌, ◌++◌, arith, length, drop,
  All, ok, some, get_elem?, ==_self, length-drop, length-take, >>=-eq-ok,
}
use mathlib.Core.Path.{subst}
use zorqen_research.Decimal.{Context}
use zorqen_research.Decimal.Sign.{eq_refl}
use zorqen_research.Time.{Timeframe, timeframe_duration}
use zorqen_research.Market.Candle.{Candle}
use zorqen_research.Market.Candle.Invariant.{IsCandle}
use zorqen_research.Market.Derivation.{TimeframeDerivationPlan}
use zorqen_research.Market.Series.{aggregate_bucket}
use zorqen_research.Market.Series.Grid.{IsGrid}
use zorqen_research.Market.Series.Slices.{IsGrid-take, IsGrid-drop, All-take, All-drop}
use zorqen_research.Market.Series.Extremes.{IsAggregate, aggregate_bucket_total}
use zorqen_research.Market.Resampling.{
  same_candle, check_children, check_placement, aggregate_from, verify_from, bucket, item,
}

pub same_candle_refl : (c : Candle) → same_candle c c ≡ true
unfolding same_candle
same_candle_refl c = ground (
  arith,
  eq_refl c.open_price,
  eq_refl c.high,
  eq_refl c.low,
  eq_refl c.close,
  eq_refl c.volume,
  eq_refl c.quote_asset_volume,
  eq_refl c.taker_buy_base_volume,
  eq_refl c.taker_buy_quote_volume,
)

-- Children that lie on the grid from the open of the bucket on are where they should be.
check_children-IsGrid :
    (tf : Timeframe) (open_at b j : ℕ) (cs : List Candle)
    → IsGrid tf (open_at + j * timeframe_duration tf) cs
    → check_children (timeframe_duration tf) open_at b j cs ≡ ok tt
unfolding check_children
check_children-IsGrid tf open_at b j [] g = refl
check_children-IsGrid tf open_at b j (c ∷ cs) g =
    let d = timeframe_duration tf in
    let e : open_at + j * d + d ≡ open_at + (j + 1) * d = omega arith in
    rw (g.0, ==_self (open_at + j * d))
      (check_children-IsGrid tf open_at b (j + 1) cs (subst (λ u. IsGrid tf u cs) e g.2))

pub get_elem?-append {ℓ} :
    {A : Type ℓ} (pre rest : List A) (x : A) → get_elem? (pre ++ x ∷ rest) (length pre) ≡ some x
get_elem?-append [] rest x = refl
get_elem?-append (y ∷ pre) rest x = get_elem?-append pre rest x

append_snoc {ℓ} :
    {A : Type ℓ} (pre rest : List A) (x : A) → (pre ++ x ∷ []) ++ rest ≡ pre ++ x ∷ rest
append_snoc [] rest x = refl
append_snoc (y ∷ pre) rest x = rw (append_snoc pre rest x)

length-snoc {ℓ} : {A : Type ℓ} (pre : List A) (x : A) → length (pre ++ x ∷ []) ≡ length pre + 1
length-snoc [] x = omega arith
length-snoc (y ∷ pre) x = omega (arith, length-snoc pre x)

item-append :
    (pre rest : List Candle) (x : Candle) {i : ℕ} → length pre ≡ i → item (pre ++ x ∷ rest) i ≡ ok x
item-append pre rest x e =
    subst (λ i. item (pre ++ x ∷ rest) i ≡ ok x) e (rw (get_elem?-append pre rest x, item))

module _ (ctx : Context) (plan : TimeframeDerivationPlan)
    (exact : timeframe_duration plan.target_timeframe
      ≡ plan.ratio * timeframe_duration plan.source_timeframe)
    (source : List Candle) (start : ℕ) (grid : IsGrid plan.source_timeframe start source) where
  abbrev dt : ℕ
  dt = timeframe_duration plan.target_timeframe

  -- The candles of each bucket lie on the source's grid from the bucket's open on.
  bucket-IsGrid :
      (i : ℕ) → IsGrid plan.source_timeframe (start + i * dt) (bucket plan.ratio source i)
  bucket-IsGrid i =
      let ds = timeframe_duration plan.source_timeframe in
      let e : start + i * plan.ratio * ds ≡ start + i * dt = grind (arith, exact) in
      IsGrid-take plan.source_timeframe (start + i * dt) plan.ratio _ (
        subst (λ u. IsGrid plan.source_timeframe u (drop (i * plan.ratio) source)) e
          (IsGrid-drop plan.source_timeframe start (i * plan.ratio) source grid))

  bucket_placed :
      (i : ℕ)
      → check_children
          (timeframe_duration plan.source_timeframe)
          (start + i * dt)
          i
          0
          (bucket plan.ratio source i)
        ≡ ok tt
  bucket_placed i = check_children-IsGrid plan.source_timeframe (start + i * dt) i 0 _ (
      subst (λ u. IsGrid plan.source_timeframe u (bucket plan.ratio source i)) (omega arith)
        (bucket-IsGrid i))

  pub check_placement-IsGrid : (k i : ℕ) → check_placement ctx plan source start k i ≡ ok tt
  unfolding check_placement
  check_placement-IsGrid zero i = refl
  check_placement-IsGrid (suc k) i = rw (bucket_placed i) (check_placement-IsGrid k (i + 1))

  verify_step :
      (k i : ℕ) (pre ts : List Candle) (a : Candle)
      → length pre ≡ i
      → aggregate_bucket ctx (bucket plan.ratio source i) (start + i * dt) plan.target_timeframe
        ≡ ok a
      → verify_from ctx plan source (pre ++ a ∷ ts) start k (i + 1) ≡ ok tt
      → verify_from ctx plan source (pre ++ a ∷ ts) start (suc k) i ≡ ok tt
  unfolding verify_from
  verify_step k i pre ts a len made rest =
      rw (bucket_placed i, made) (rw (item-append pre ts a len) (rw (same_candle_refl a) rest))

  -- The verifier accepts what the aggregation returns.
  pub verify_from-aggregate_from :
      (k i : ℕ) (pre rest : List Candle)
      → length pre ≡ i
      → aggregate_from ctx plan source start k i ≡ ok rest
      → verify_from ctx plan source (pre ++ rest) start k i ≡ ok tt
  unfolding verify_from aggregate_from
  verify_from-aggregate_from zero i pre rest len h = refl
  verify_from-aggregate_from (suc k) i pre rest len h =
      let (a, made, h₁) = >>=-eq-ok (aggregate_bucket ctx (bucket plan.ratio source i) _ _) _ h in
      let (ts, later, h₂) = >>=-eq-ok (aggregate_from ctx plan source start k (i + 1)) _ h₁ in
      let whole : a ∷ ts ≡ rest = cc in
      let next : length (pre ++ a ∷ []) ≡ i + 1 = omega (arith, length-snoc {0} pre a) in
      subst (λ r. verify_from ctx plan source (pre ++ r) start (suc k) i ≡ ok tt) whole
        (verify_step k i pre ts a len made (
          subst (λ xs. verify_from ctx plan source xs start k (i + 1) ≡ ok tt)
            (append_snoc pre ts a)
            (verify_from-aggregate_from k (i + 1) (pre ++ a ∷ []) ts next later)))

-- A bucket that is not empty has its aggregate.
IsAggregate-nonempty :
    (ctx : Context) (cs : List Candle) (start : ℕ) (tf : Timeframe)
    → 0 < length cs
    → All IsCandle cs
    → (a : Candle) × (aggregate_bucket ctx cs start tf ≡ ok a) × IsAggregate ctx cs start tf a
IsAggregate-nonempty ctx [] start tf h all = elim h [ ]
IsAggregate-nonempty ctx (c ∷ cs) start tf h all = aggregate_bucket_total ctx c cs start tf all

-- Each target is the aggregate of its own bucket.
abbrev pub AreAggregates :
    (ctx : Context) (plan : TimeframeDerivationPlan) (source : List Candle) (start : ℕ) (i : ℕ)
    → List Candle
    → Type 0
AreAggregates ctx plan source start i [] = Unit
AreAggregates ctx plan source start i (t ∷ ts) =
    IsAggregate ctx (bucket plan.ratio source i)
      (start + i * timeframe_duration plan.target_timeframe) plan.target_timeframe t
    × AreAggregates ctx plan source start (i + 1) ts

module _ (ctx : Context) (plan : TimeframeDerivationPlan) (source : List Candle) (start : ℕ)
    (ratio_pos : 0 < plan.ratio) (all : All IsCandle source) where
  bucket_nonempty :
      (k i : ℕ) → (i + suc k) * plan.ratio ≤ length source → 0 < length (bucket plan.ratio source i)
  bucket_nonempty k i h =
      let room : i * plan.ratio + plan.ratio ≤ length source = grind arith in
      omega (
        arith,
        length-take {0} plan.ratio (drop (i * plan.ratio) source),
        length-drop {0} (i * plan.ratio) source,
      )

  pub aggregate_from_total :
      (k i : ℕ)
      → (i + k) * plan.ratio ≤ length source
      → (ts : List Candle) × (aggregate_from ctx plan source start k i ≡ ok ts)
        × (length ts ≡ k)
        × AreAggregates ctx plan source start i ts
  unfolding aggregate_from
  aggregate_from_total zero i h = ([], refl, refl, tt)
  aggregate_from_total (suc k) i h =
      let dt = timeframe_duration plan.target_timeframe in
      let children = bucket plan.ratio source i in
      let (a, made, good) =
        IsAggregate-nonempty ctx children (start + i * dt) plan.target_timeframe
          (bucket_nonempty k i h)
          (All-take IsCandle plan.ratio _ (All-drop IsCandle (i * plan.ratio) source all)) in
      let e : i + 1 + k ≡ i + suc k = omega arith in
      let (ts, later, len, rest) = aggregate_from_total k (i + 1) (rw e h) in
      (a ∷ ts, rw (made, later), ap suc len, (good, rest))

-- Aggregates of consecutive buckets fill the grid of the target timeframe.
pub AreAggregates-IsGrid :
    (ctx : Context) (plan : TimeframeDerivationPlan) (source : List Candle) (start i : ℕ)
    (ts : List Candle)
    → AreAggregates ctx plan source start i ts
    → IsGrid plan.target_timeframe (start + i * timeframe_duration plan.target_timeframe) ts
AreAggregates-IsGrid ctx plan source start i [] h = tt
AreAggregates-IsGrid ctx plan source start i (t ∷ ts) h =
    let dt = timeframe_duration plan.target_timeframe in
    let e : start + (i + 1) * dt ≡ start + i * dt + dt = omega arith in
    (
      h.0.opens,
      h.0.closes,
      subst (λ u. IsGrid plan.target_timeframe u ts) e
          (AreAggregates-IsGrid ctx plan source start (i + 1) ts h.1),
    )
