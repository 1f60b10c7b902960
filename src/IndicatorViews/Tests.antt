-- ===== src/IndicatorViews/Tests.antt =====
-- A feed of one series over three bars.
use zorqen_research.Base.{
  ℕ, ◌≡◌, refl, true, none, some, List, [], ◌∷◌, arith, ok, Result, ok_of, is_ok, Option,
}
use zorqen_research.Base.Int.{pos}
use Prim.Native.String.{String}
use zorqen_research.Decimal.{Decimal, of_ℕ}
use zorqen_research.Time.{Timeframe, m1}
use zorqen_research.Market.Candle.{int}
use zorqen_research.Indicators.Input.{IndicatorCode, rolling_highest, require_period}
use zorqen_research.Indicators.Assembly.{IndicatorSeries}
use zorqen_research.IndicatorViews.{
  ViewError, IndicatorSeriesKey, ViewDocument, IndicatorDecisionView, key_from_verified,
  canonicalize_key_parameters, bind_trusted,
}
use zorqen_research.IndicatorViews.Feed.{
  TrustedBundle, IndicatorDecisionFeed, chain_from, compute_prefix_hash_chain, counts_from,
  defined_prefix_counts, source_from, sources_from, from_bundle, view_at,
}
use zorqen_research.IndicatorViews.Shown.{contents}
use zorqen_research.IndicatorViews.Lookahead.{IsViewOf, view_at-IsViewOf}

abbrev values : List (Option Decimal)
values = none ∷ some (of_ℕ 5) ∷ some (of_ℕ 6) ∷ []

abbrev series : IndicatorSeries
series = record {
  indicator_code = rolling_highest;
  symbol = "BTCUSDT";
  timeframe = m1;
  input_candle_sha256 = "";
  input_candle_count = 3;
  parameters = ("period", 2) ∷ [];
  value_count = 3;
  values = values;
  first_defined_index = some 1;
  defined_value_count = 2;
  result_hash = "";
}

abbrev series_key : IndicatorSeriesKey
series_key = record {
  indicator_code = rolling_highest;
  parameters = ("period", 2) ∷ [];
  key_hash = "key";
}

abbrev bundle : TrustedBundle
bundle = record {
  symbol = "BTCUSDT";
  timeframe = m1;
  input_candle_count = 3;
  series = series ∷ [];
  series_keys = series_key ∷ [];
}

-- The state of the digest is the list of the values that went into it.
abbrev header : String → Timeframe → IndicatorSeriesKey → List (Option Decimal)
header symbol timeframe key = []

abbrev next : List (Option Decimal) → Option Decimal → List (Option Decimal)
next vs v = v ∷ vs

abbrev hex : List (Option Decimal) → String
hex vs = ""

abbrev digest_key : IndicatorCode → List (String × ℕ) → String
digest_key code parameters = "key"

abbrev digest_view : ViewDocument → String
digest_view d = ""

abbrev built : Result ViewError IndicatorDecisionFeed
built = from_bundle (List (Option Decimal)) header next hex digest_key digest_view bundle

builds : is_ok built ≡ true
unfolding from_bundle sources_from source_from key_from_verified canonicalize_key_parameters
    require_period bind_trusted compute_prefix_hash_chain chain_from defined_prefix_counts
    counts_from
builds = refl

feed : (f : IndicatorDecisionFeed) × (built ≡ ok f)
feed = ok_of built builds

view_at-IsViewOf_example :
    (v : IndicatorDecisionView) × (view_at
        (List (Option Decimal))
        header
        next
        hex
        digest_key
        digest_view
        feed.0
        (int (pos 1))
      ≡ ok v)
    × IsViewOf digest_view "BTCUSDT" m1 1
        (contents
          (List (Option Decimal))
          header
          next
          hex
          digest_key
          digest_view
          "BTCUSDT"
          m1
          1
          (series ∷ [])
          (series_key ∷ []))
        v
view_at-IsViewOf_example =
    view_at-IsViewOf (List (Option Decimal)) header next hex digest_key digest_view bundle 1
      (refl, tt) (omega arith) feed.1
