-- ===== src/IndicatorViews/Feed.antt =====
-- The feed of indicators: src/zorqen_research/application/indicator_views/feed.py and prefix_hashes.py.
use zorqen_research.Base.{
  ℕ, ◌+◌, Bool, true, false, leb, ◌==◌, ◌&&◌, not, Option, none, some, List, [], ◌∷◌, map, Result,
  ok, err, ◌>>=◌, ◌>>◌, raise_if,
}
use zorqen_research.Base.Int.{pos, negsuc}
use Prim.Native.String.{String}
use text.Mathlib.Text.{◌==◌ as str_eq}
use zorqen_research.Decimal.{Decimal}
use zorqen_research.Time.{Timeframe}
use zorqen_research.Market.Candle.{Count, int, not_int}
use zorqen_research.Indicators.Input.{
  IndicatorCode, ema_close, true_range, wilder_atr, rolling_highest, rolling_lowest,
  prior_rolling_highest, prior_rolling_lowest,
}
use zorqen_research.Indicators.Assembly.{IndicatorSeries}
use zorqen_research.IndicatorViews.{
  ViewError, key_hash_mismatch, key_code_mismatch, key_parameters_mismatch, zip_mismatch,
  bar_not_int, bar_outside, IndicatorSeriesKey, key_from_verified, VerifiedIndicatorSource,
  bind_trusted, ViewDocument, IndicatorDecisionView, view_from_feed,
}

-- What stands in `counts` behind `running`.
unfoldable pub counts_from : ℕ → List (Option Decimal) → List ℕ
counts_from running [] = running ∷ []
counts_from running (none ∷ values) = running ∷ counts_from running values
counts_from running (some value ∷ values) = running ∷ counts_from (running + 1) values

-- `_defined_prefix_counts`
unfoldable pub defined_prefix_counts : List (Option Decimal) → List ℕ
unfolding counts_from
defined_prefix_counts values = counts_from 0 values

-- The identity of two members of IndicatorCode.
abbrev pub code_number : IndicatorCode → ℕ
code_number ema_close = 0
code_number true_range = 1
code_number wilder_atr = 2
code_number rolling_highest = 3
code_number rolling_lowest = 4
code_number prior_rolling_highest = 5
code_number prior_rolling_lowest = 6

abbrev pub same_parameters : List (String × ℕ) → List (String × ℕ) → Bool
same_parameters [] [] = true
same_parameters ((k, p) ∷ ps) ((l, q) ∷ qs) = str_eq k l && p == q && same_parameters ps qs
same_parameters ps qs = false

-- The bundle as the feed rebuilds it.
pub record TrustedBundle : Type 0 where
  pub symbol : String
  pub timeframe : Timeframe
  pub input_candle_count : ℕ
  pub series : List IndicatorSeries
  pub series_keys : List IndicatorSeriesKey

pub record IndicatorDecisionFeed : Type 0 where
  pub bundle : TrustedBundle
  pub sources : List VerifiedIndicatorSource

abbrev pub as_count : String × ℕ → String × Count
as_count p = (p.0, int (pos p.1))

-- SHA-256: its state after the header of a series, its state after one more value, and what the
-- state is written as.
module _ (Digest : Type 0) (header_digest : String → Timeframe → IndicatorSeriesKey → Digest)
    (next_digest : Digest → Option Decimal → Digest) (hex : Digest → String)
    (digest_key : IndicatorCode → List (String × ℕ) → String)
    (digest_view : ViewDocument → String) where
  unfoldable pub chain_from : Digest → List (Option Decimal) → List String
  chain_from current [] = hex current ∷ []
  chain_from current (value ∷ values) = hex current ∷ chain_from (next_digest current value) values

  -- `compute_prefix_hash_chain`
  unfoldable pub compute_prefix_hash_chain :
      String → Timeframe → IndicatorSeriesKey → List (Option Decimal) → List String
  unfolding chain_from
  compute_prefix_hash_chain symbol timeframe series_key values =
      chain_from (header_digest symbol timeframe series_key) values

  -- The body of the loop of `from_bundle`.
  unfoldable pub source_from :
      String
      → Timeframe
      → IndicatorSeries
      → IndicatorSeriesKey
      → Result ViewError VerifiedIndicatorSource
  unfolding key_from_verified bind_trusted compute_prefix_hash_chain defined_prefix_counts
  source_from symbol timeframe series series_key = do
    rebuilt ← key_from_verified digest_key series.indicator_code (map as_count series.parameters)
    raise_if (not (str_eq rebuilt.key_hash series_key.key_hash)) key_hash_mismatch
    raise_if (not (code_number series_key.indicator_code == code_number series.indicator_code))
        key_code_mismatch
    raise_if (not (same_parameters series_key.parameters series.parameters)) key_parameters_mismatch
    bind_trusted series series_key
        (compute_prefix_hash_chain symbol timeframe series_key series.values)
        (defined_prefix_counts series.values)

  unfoldable pub sources_from :
      String
      → Timeframe
      → List IndicatorSeries
      → List IndicatorSeriesKey
      → Result ViewError (List VerifiedIndicatorSource)
  unfolding source_from
  sources_from symbol timeframe [] [] = ok []
  sources_from symbol timeframe (s ∷ series) (k ∷ keys) = do
    source ← source_from symbol timeframe s k
    sources ← sources_from symbol timeframe series keys
    ok (source ∷ sources)
  sources_from symbol timeframe [] (k ∷ keys) = err zip_mismatch
  sources_from symbol timeframe (s ∷ series) [] = err zip_mismatch

  -- `from_bundle`, behind the rebuilding of the bundle.
  unfoldable pub from_bundle : TrustedBundle → Result ViewError IndicatorDecisionFeed
  unfolding sources_from
  from_bundle bundle = do
    sources ← sources_from bundle.symbol bundle.timeframe bundle.series bundle.series_keys
    ok (record { bundle = bundle; sources = sources })

  unfoldable pub view_at : IndicatorDecisionFeed → Count → Result ViewError IndicatorDecisionView
  unfolding view_from_feed
  view_at feed not_int = err bar_not_int
  view_at feed (int (negsuc n)) = err bar_outside
  view_at feed (int (pos bar_index)) = do
    raise_if (leb feed.bundle.input_candle_count bar_index) bar_outside
    view_from_feed digest_view feed.bundle.symbol feed.bundle.timeframe bar_index feed.sources
