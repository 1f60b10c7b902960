-- ===== src/IndicatorViews/Bundle/Causal.antt =====
-- From the candles to the view: src/zorqen_research/domain/indicator_views/bundles.py, the calculators
-- and src/zorqen_research/application/indicator_views/feed.py together.
use zorqen_research.Base.{
  ℕ, ◌<◌, ◌≡◌, refl, ap, sym, subst, ◌∙◌, ◌==◌, Option, List, [], ◌∷◌, length, map, take, ok,
  >>=-eq-ok, >>-eq-ok, ok_inj, All,
}
use zorqen_research.Base.Int.{pos}
use Prim.Native.String.{String}
use zorqen_research.Decimal.{Decimal}
use zorqen_research.Time.{Timeframe}
use zorqen_research.Market.Candle.{Candle, int}
use zorqen_research.Indicators.Input.{IndicatorCode, IndicatorInput, InputDocument, input_of}
use zorqen_research.Indicators.Assembly.{IndicatorSeries, SeriesDocument}
use zorqen_research.IndicatorViews.{
  no_series, IndicatorSeriesKey, ViewDocument, IndicatorDecisionView,
}
use zorqen_research.IndicatorViews.Feed.{IndicatorDecisionFeed, from_bundle, view_at}
use zorqen_research.IndicatorViews.Shown.{Shown, shown, contents}
use zorqen_research.IndicatorViews.Lookahead.{view_at-IsViewOf}
use zorqen_research.IndicatorViews.Bundle.{
  Keyed, key_of, series_in, BundleDocument, IndicatorSeriesBundle, sort_keyed, bundle_of,
  reverify_indicator_input, keyed_from, bundle_from_verified,
}
use zorqen_research.IndicatorViews.Bundle.Beginning.{
  IsRecalculated, IsUpTo, All-sort_keyed, keyed_from-IsRecalculated, reverify_indicator_input-eq-ok,
  All-counted, contents-IsUpTo, as_trusted,
}

abbrev pub key_shown : Shown → IndicatorSeriesKey
key_shown x = x.series_key

module _ (hash : List Candle → String) (digest_input : InputDocument → String)
    (digest_series : SeriesDocument → String)
    (digest_key : IndicatorCode → List (String × ℕ) → String) (serialize : IndicatorSeries → String)
    (digest_bundle : BundleDocument → String) (Digest : Type 0)
    (header_digest : String → Timeframe → IndicatorSeriesKey → Digest)
    (next_digest : Digest → Option Decimal → Digest) (hex : Digest → String)
    (digest_view : ViewDocument → String) where
  contents-key_shown :
      (symbol : String) (timeframe : Timeframe) (bar : ℕ) (keyed : List Keyed)
      → map key_shown (
          contents Digest header_digest next_digest hex digest_key digest_view symbol timeframe bar
            (map series_in keyed)
            (map key_of keyed))
        ≡ map key_of keyed
  contents-key_shown symbol timeframe bar [] = refl
  contents-key_shown symbol timeframe bar (p ∷ keyed) =
      ap (λ ks. p.0 ∷ ks) (contents-key_shown symbol timeframe bar keyed)

  -- The bundle of an accepted input holds recalculated series, in the order of their keys.
  bundle_from_verified-eq-ok :
      (i : IndicatorInput) (c : Candle) (cs : List Candle) (series : List IndicatorSeries)
      {b : IndicatorSeriesBundle}
      → i.candles ≡ c ∷ cs
      → bundle_from_verified hash digest_input digest_series digest_key serialize digest_bundle i
          series
        ≡ ok b
      → (keyed : List Keyed) × All
          (IsRecalculated hash digest_input digest_series digest_key serialize digest_bundle
            (input_of hash digest_input i.symbol i.timeframe c cs))
          keyed
        × (bundle_of hash digest_input digest_series digest_key serialize digest_bundle
              (input_of hash digest_input i.symbol i.timeframe c cs)
              keyed
            ≡ b)
  unfolding bundle_from_verified
  bundle_from_verified-eq-ok i c cs series candles h =
      let (trusted, verified, h1) =
        >>=-eq-ok
          (reverify_indicator_input hash digest_input digest_series digest_key serialize
            digest_bundle i)
          _ h in
      let (_, h2) = >>-eq-ok (length series == 0) no_series h1 in
      let (keyed, loop, h3) =
        >>=-eq-ok
          (keyed_from hash digest_input digest_series digest_key serialize digest_bundle trusted 0
            [] series)
          _ h2 in
      let made =
        reverify_indicator_input-eq-ok hash digest_input digest_series digest_key serialize
          digest_bundle i c cs candles verified in
      let recalculated =
        keyed_from-IsRecalculated hash digest_input digest_series digest_key serialize digest_bundle
          trusted 0 [] series loop in
      (
        sort_keyed keyed,
        subst
            (λ t.
              All
                (IsRecalculated hash digest_input digest_series digest_key serialize digest_bundle
                  t)
                (sort_keyed keyed))
            (sym made) (All-sort_keyed _ keyed recalculated),
        ap
              (λ t.
                bundle_of hash digest_input digest_series digest_key serialize digest_bundle t
                  (sort_keyed keyed))
              made
            ∙ ok_inj h3,
      )

  -- What a view of an accepted bundle shows at a bar are the series of its keys, calculated from the
  -- candles up to that bar alone; no key of the bundle is left out.
  pub view_at-IsUpTo :
      (i : IndicatorInput) (c : Candle) (cs : List Candle) (series : List IndicatorSeries) (bar : ℕ)
      {b : IndicatorSeriesBundle} {feed : IndicatorDecisionFeed}
      → i.candles ≡ c ∷ cs
      → bar < length (c ∷ cs)
      → bundle_from_verified hash digest_input digest_series digest_key serialize digest_bundle i
          series
        ≡ ok b
      → from_bundle Digest header_digest next_digest hex digest_key digest_view (as_trusted b)
        ≡ ok feed
      → (v : IndicatorDecisionView) × (view_at Digest header_digest next_digest hex digest_key
            digest_view feed
            (int (pos bar))
          ≡ ok v)
        × (map key_shown (map shown v.items) ≡ b.series_keys)
        × All
            (IsUpTo hash digest_input digest_series digest_key serialize digest_bundle
              (input_of hash digest_input i.symbol i.timeframe c (take bar cs)))
            (map shown v.items)
  unfolding bundle_of input_of
  view_at-IsUpTo i c cs series bar {b} {feed} candles inside h built =
      let (keyed, recalculated, same) = bundle_from_verified-eq-ok i c cs series candles h in
      let counted =
        All-counted hash digest_input digest_series digest_key serialize digest_bundle i.symbol
          i.timeframe c cs keyed recalculated in
      let b0 =
        bundle_of hash digest_input digest_series digest_key serialize digest_bundle
          (input_of hash digest_input i.symbol i.timeframe c cs) keyed in
      let built0 =
        ap
          (λ x.
            from_bundle Digest header_digest next_digest hex digest_key digest_view (as_trusted x))
          same
        ∙ built in
      let (v, e, (shows, _, _, _)) =
        view_at-IsViewOf Digest header_digest next_digest hex digest_key digest_view (as_trusted b0)
          bar counted inside built0 in
      (
        v,
        e,
        ap (λ xs. map key_shown xs) shows
            ∙ contents-key_shown i.symbol i.timeframe bar keyed
            ∙ ap (λ (x : IndicatorSeriesBundle). x.series_keys) same,
        subst (All _) (sym shows) (
            contents-IsUpTo hash digest_input digest_series digest_key serialize digest_bundle
              i.symbol i.timeframe c cs Digest header_digest next_digest hex digest_view bar inside
              keyed recalculated),
      )
