-- ===== src/Market/Resampling.antt =====
-- Complete buckets and their verification: the second half of
-- src/zorqen_research/domain/market_data/series.py, and `resample_candles` of
-- src/zorqen_research/domain/market_data/resampling.py.
pub mod Placement
pub mod Total
use zorqen_research.Base.{
  ℕ, zero, suc, ◌+◌, ◌-◌, ◌*◌, ◌/◌, ◌%◌, Bool, true, false, ◌≡◌, ltb, ◌==◌, ◌||◌, ◌&&◌, not, Option,
  none, some, List, [], ◌∷◌, length, take, drop, last_of, Result, ok, err, ◌>>=◌, ◌>>◌, raise_if,
  rethrow, if◌then◌else◌, get_elem?,
}
use Prim.Native.String.{String}
use text.Mathlib.Text.{◌==◌ as str_eq}
use zorqen_research.Decimal.{Decimal, Context, eq}
use zorqen_research.Time.{Timeframe, timeframe_duration, align_floor}
use zorqen_research.Market.Candle.{Candle}
use zorqen_research.Market.Derivation.{TimeframeDerivationPlan, derive_timeframe_plan}
use zorqen_research.Market.Series.{
  SeriesError, empty_series, index_error, partial_bucket, target_count, first_misaligned,
  final_close, hash_mismatch, target_mismatch, child_misplaced, no_plan, require_canonical_series,
  aggregate_bucket,
}

-- `==` of two candles, field by field; decimals are compared as numbers.
unfoldable pub same_candle : Candle → Candle → Bool
same_candle a b =
    a.open_time == b.open_time
    && eq a.open_price b.open_price
    && eq a.high b.high
    && eq a.low b.low
    && eq a.close b.close
    && eq a.volume b.volume
    && a.close_time == b.close_time
    && eq a.quote_asset_volume b.quote_asset_volume
    && a.trade_count == b.trade_count
    && eq a.taker_buy_base_volume b.taker_buy_base_volume
    && eq a.taker_buy_quote_volume b.taker_buy_quote_volume

-- `seq[index]`
abbrev pub item {ℓ} : {A : Type ℓ} → List A → ℕ → Result SeriesError A
item xs index = elim (get_elem? xs index) [ none ↦ err index_error | some x ↦ ok x ]

-- `seq[-1]`
abbrev pub last_item {ℓ} : {A : Type ℓ} → List A → Result SeriesError A
last_item [] = err index_error
last_item (x ∷ xs) = ok (last_of x xs)

-- `source[start : start + ratio]` for the bucket of an index.
abbrev pub bucket : ℕ → List Candle → ℕ → List Candle
bucket ratio source index = take ratio (drop (index * ratio) source)

-- The loop over the children of one bucket.
unfoldable pub check_children : ℕ → ℕ → ℕ → ℕ → List Candle → Result SeriesError (Unit {0})
check_children duration target_open bucket_index child_index [] = ok tt
check_children duration target_open bucket_index child_index (c ∷ cs) =
    raise_if (not (c.open_time == target_open + child_index * duration))
      (child_misplaced bucket_index child_index)
    >> check_children duration target_open bucket_index (child_index + 1) cs

module _ (ctx : Context) (plan : TimeframeDerivationPlan) where
  -- The loop of `aggregate_complete_buckets`, over the buckets that remain.
  unfoldable pub aggregate_from : List Candle → ℕ → ℕ → ℕ → Result SeriesError (List Candle)
  aggregate_from source first_open zero index = ok []
  aggregate_from source first_open (suc remaining) index = do
    target ←
        aggregate_bucket ctx (bucket plan.ratio source index)
          (first_open + index * timeframe_duration plan.target_timeframe) plan.target_timeframe
    targets ← aggregate_from source first_open remaining (index + 1)
    ok (target ∷ targets)

  unfoldable pub aggregate_complete_buckets : List Candle → Result SeriesError (List Candle)
  unfolding aggregate_from
  aggregate_complete_buckets source = do
    first ← item source 0
    aggregate_from source first.open_time (length source / plan.ratio) 0

  -- The loop of `verify_complete_bucket_relationship`.
  unfoldable pub verify_from : List Candle → List Candle → ℕ → ℕ → ℕ → Result SeriesError (Unit {0})
  verify_from source target first_open zero index = ok tt
  verify_from source target first_open (suc remaining) index = do
    let children = bucket plan.ratio source index
    let target_open = first_open + index * timeframe_duration plan.target_timeframe
    check_children (timeframe_duration plan.source_timeframe) target_open index 0 children
    expected ← aggregate_bucket ctx children target_open plan.target_timeframe
    given ← item target index
    raise_if (not (same_candle given expected)) (target_mismatch index)
    verify_from source target first_open remaining (index + 1)

  unfoldable pub verify_complete_bucket_relationship :
      List Candle → List Candle → Result SeriesError (Unit {0})
  verify_complete_bucket_relationship source target = do
    raise_if (not (length source % plan.ratio == 0)) partial_bucket
    let expected_target_count = length source / plan.ratio
    raise_if (not (length target == expected_target_count)) target_count
    first ← item source 0
    raise_if (not (align_floor first.open_time plan.target_timeframe == first.open_time))
        first_misaligned
    verify_from source target first.open_time expected_target_count 0
    last_source ← last_item source
    last_target ← last_item target
    raise_if (not (last_source.close_time == last_target.close_time)) final_close

  -- The pre-check of `resample_candles`, over the buckets that remain.
  unfoldable pub check_placement : List Candle → ℕ → ℕ → ℕ → Result SeriesError (Unit {0})
  check_placement source first_open zero index = ok tt
  check_placement source first_open (suc remaining) index = do
    check_children (timeframe_duration plan.source_timeframe)
        (first_open + index * timeframe_duration plan.target_timeframe) index 0
        (bucket plan.ratio source index)
    check_placement source first_open remaining (index + 1)

-- The result, with digests as hex strings.
pub record ResampledCandleSeries : Type 0 where
  pub symbol : String
  pub source_timeframe : Timeframe
  pub target_timeframe : Timeframe
  pub candles : List Candle
  pub ratio : ℕ
  pub source_candle_count : ℕ
  pub source_minimum_open_time : ℕ
  pub source_maximum_open_time : ℕ
  pub source_candle_sha256 : String
  pub target_candle_count : ℕ
  pub target_minimum_open_time : ℕ
  pub target_maximum_open_time : ℕ
  pub target_candle_sha256 : String

-- `hash` is SHA-256 of a series' canonical CSV. The tests on the types of the arguments are those
-- of the model's own types.
module _ (hash : List Candle → String) (ctx : Context) where
  -- The attributes that the factory sets.
  abbrev pub result_of :
      String
      → TimeframeDerivationPlan
      → (source target : List Candle) (source_first source_last target_first target_last : Candle)
      → ResampledCandleSeries
  result_of symbol plan source target source_first source_last target_first target_last = record {
    symbol = symbol;
    source_timeframe = plan.source_timeframe;
    target_timeframe = plan.target_timeframe;
    candles = target;
    ratio = plan.ratio;
    source_candle_count = length source;
    source_minimum_open_time = source_first.open_time;
    source_maximum_open_time = source_last.open_time;
    source_candle_sha256 = hash source;
    target_candle_count = length target;
    target_minimum_open_time = target_first.open_time;
    target_maximum_open_time = target_last.open_time;
    target_candle_sha256 = hash target;
  }

  unfoldable pub from_verified_series :
      String
      → TimeframeDerivationPlan
      → List Candle
      → List Candle
      → Result SeriesError ResampledCandleSeries
  from_verified_series symbol given source_candles target_candles = do
    plan ← rethrow no_plan (derive_timeframe_plan given.source_timeframe given.target_timeframe)
    source ← require_canonical_series plan.source_timeframe source_candles
    target ← require_canonical_series plan.target_timeframe target_candles
    verify_complete_bucket_relationship ctx plan source target
    source_first ← item source 0
    source_last ← last_item source
    target_first ← item target 0
    target_last ← last_item target
    ok (result_of symbol plan source target source_first source_last target_first target_last)

  -- `expected_source_sha256 is not None and expected_source_sha256 != source_digest`
  abbrev differs : Option String → String → Bool
  differs none digest = false
  differs (some expected) digest = not (str_eq expected digest)

  unfoldable pub resample_candles :
      List Candle
      → String
      → TimeframeDerivationPlan
      → Option String
      → Result SeriesError ResampledCandleSeries
  resample_candles candles symbol given expected_source_sha256 = do
    plan ← rethrow no_plan (derive_timeframe_plan given.source_timeframe given.target_timeframe)
    source ← require_canonical_series plan.source_timeframe candles
    raise_if (differs expected_source_sha256 (hash source)) hash_mismatch
    raise_if (not (length source % plan.ratio == 0)) partial_bucket
    first ← item source 0
    raise_if (not (align_floor first.open_time plan.target_timeframe == first.open_time))
        first_misaligned
    check_placement ctx plan source first.open_time (length source / plan.ratio) 0
    target ← aggregate_complete_buckets ctx plan source
    from_verified_series symbol plan source target
