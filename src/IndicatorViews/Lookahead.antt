-- ===== src/IndicatorViews/Lookahead.antt =====
-- What the views of a feed show: src/zorqen_research/application/indicator_views/feed.py and
-- src/zorqen_research/domain/indicator_views/views.py.
use zorqen_research.Base.{
  ℕ, suc, ◌<◌, ◌≡◌, refl, ap, sym, subst, ◌∙◌, Bool, true, false, leb, ◌&&◌, Option, List, [], ◌∷◌,
  length, map, ok, >>=-eq-ok, ok_inj, arith, lt→leb, All,
}
use zorqen_research.Base.Int.{pos}
use Prim.Native.String.{String}
use zorqen_research.Decimal.{Decimal}
use zorqen_research.Time.{Timeframe}
use zorqen_research.Market.Candle.{int}
use zorqen_research.Indicators.Input.{IndicatorCode}
use zorqen_research.Indicators.Assembly.{IndicatorSeries}
use zorqen_research.IndicatorViews.{
  IndicatorSeriesKey, ItemDocument, item_document, IndicatorDecisionItem, items_from_feed,
  all_ready, ViewDocument, IndicatorDecisionView, view_of, view_from_feed,
}
use zorqen_research.IndicatorViews.Feed.{
  TrustedBundle, IndicatorDecisionFeed, sources_from, from_bundle, view_at,
}
use zorqen_research.IndicatorViews.Shown.{
  Shown, shown, contents, items_from_feed-shown, sources_from-eq-ok,
}

abbrev pub every_ready : List Shown → Bool
every_ready [] = true
every_ready (x ∷ xs) = x.ready && every_ready xs

all_ready-shown :
    (items : List IndicatorDecisionItem) → all_ready items ≡ every_ready (map shown items)
all_ready-shown [] = refl
all_ready-shown (item ∷ items) = ap (λ b. item.ready && b) (all_ready-shown items)

abbrev pub document_of : Shown → ItemDocument
document_of x = x.document

documents-shown :
    (items : List IndicatorDecisionItem)
    → map item_document items ≡ map document_of (map shown items)
documents-shown [] = refl
documents-shown (item ∷ items) = ap (λ ds. item_document item ∷ ds) (documents-shown items)

length-shown : (items : List IndicatorDecisionItem) → length items ≡ length (map shown items)
length-shown [] = refl
length-shown (item ∷ items) = ap suc (length-shown items)

module _ (digest_view : ViewDocument → String) (symbol : String) (timeframe : Timeframe)
    (bar : ℕ) where
  -- The document of a view that shows `xs`.
  abbrev pub view_document : List Shown → ViewDocument
  view_document xs = record {
    bar_index = bar;
    item_count = length xs;
    items = map document_of xs;
    overall_ready = every_ready xs;
    symbol = symbol;
    timeframe = timeframe;
    visible_count = suc bar;
  }

  -- Everything a strategy can read of a view is a function of what its items show.
  abbrev pub IsViewOf : List Shown → IndicatorDecisionView → Type 0
  IsViewOf xs v =
      (map shown v.items ≡ xs)
      × (v.bar_index ≡ bar)
      × (v.overall_ready ≡ every_ready xs)
      × (v.decision_view_hash ≡ digest_view (view_document xs))

  view_of-IsViewOf :
      (items : List IndicatorDecisionItem) (xs : List Shown)
      → map shown items ≡ xs
      → IsViewOf xs (view_of digest_view symbol timeframe bar items)
  unfolding view_of
  view_of-IsViewOf items xs same =
      subst (λ ys. IsViewOf ys (view_of digest_view symbol timeframe bar items)) same
        (
          refl,
          refl,
          all_ready-shown items,
          ap
                (λ (n : ℕ). digest_view (record {
                  bar_index = bar;
                  item_count = n;
                  items = map item_document items;
                  overall_ready = all_ready items;
                  symbol = symbol;
                  timeframe = timeframe;
                  visible_count = suc bar;
                }))
                (length-shown items)
              ∙ ap
                  (λ ds. digest_view (record {
                    bar_index = bar;
                    item_count = length (map shown items);
                    items = ds;
                    overall_ready = all_ready items;
                    symbol = symbol;
                    timeframe = timeframe;
                    visible_count = suc bar;
                  }))
                  (documents-shown items)
              ∙ ap
                  (λ (b : Bool). digest_view (record {
                    bar_index = bar;
                    item_count = length (map shown items);
                    items = map document_of (map shown items);
                    overall_ready = b;
                    symbol = symbol;
                    timeframe = timeframe;
                    visible_count = suc bar;
                  }))
                  (all_ready-shown items),
        )

All_inside :
    (bar n : ℕ) (series : List IndicatorSeries)
    → bar < n
    → All (λ (s : IndicatorSeries). length s.values ≡ n) series
    → All (λ (s : IndicatorSeries). bar < length s.values) series
All_inside bar n [] h p = tt
All_inside bar n (s ∷ series) h (p, ps) = (omega (arith, p, h), All_inside bar n series h ps)

module _ (Digest : Type 0) (header_digest : String → Timeframe → IndicatorSeriesKey → Digest)
    (next_digest : Digest → Option Decimal → Digest) (hex : Digest → String)
    (digest_key : IndicatorCode → List (String × ℕ) → String)
    (digest_view : ViewDocument → String) where
  -- A feed over series with a value for each candle has a view of every bar. For each series it shows
  -- the values up to the bar, how many are defined, the latest and the hash of these values, and its
  -- readiness and its hash are computed from what it shows.
  pub view_at-IsViewOf :
      (bundle : TrustedBundle) (bar : ℕ) {feed : IndicatorDecisionFeed}
      → All (λ (s : IndicatorSeries). length s.values ≡ bundle.input_candle_count) bundle.series
      → bar < bundle.input_candle_count
      → from_bundle Digest header_digest next_digest hex digest_key digest_view bundle ≡ ok feed
      → (v : IndicatorDecisionView) × (view_at Digest header_digest next_digest hex digest_key
            digest_view feed
            (int (pos bar))
          ≡ ok v)
        × IsViewOf digest_view bundle.symbol bundle.timeframe bar
            (contents Digest header_digest next_digest hex digest_key digest_view bundle.symbol
              bundle.timeframe bar bundle.series bundle.series_keys)
            v
  unfolding from_bundle view_at view_from_feed
  view_at-IsViewOf bundle bar {feed} counted inside h =
      let (sources, built, same) =
        >>=-eq-ok
          (sources_from Digest header_digest next_digest hex digest_key digest_view bundle.symbol
            bundle.timeframe bundle.series bundle.series_keys)
          _ h in
      let bound_sources =
        sources_from-eq-ok Digest header_digest next_digest hex digest_key digest_view bundle.symbol
          bundle.timeframe bar bundle.series bundle.series_keys built in
      let (items, e, shows) =
        items_from_feed-shown Digest header_digest next_digest hex digest_key digest_view
          bundle.symbol bundle.timeframe bar bundle.series bundle.series_keys
          (All_inside bar bundle.input_candle_count bundle.series inside counted) in
      let collected : items_from_feed bundle.symbol bundle.timeframe (suc bar) sources ≡ ok items =
        ap (λ xs. items_from_feed bundle.symbol bundle.timeframe (suc bar) xs) (sym bound_sources)
        ∙ e in
      let within : leb bundle.input_candle_count bar ≡ false = lt→leb _ _ inside in
      let viewed : view_at Digest header_digest next_digest hex digest_key digest_view
            (record { bundle = bundle; sources = sources }) (int (pos bar))
          ≡ ok (view_of digest_view bundle.symbol bundle.timeframe bar items) =
        rw (within, collected) refl in
      (
        view_of digest_view bundle.symbol bundle.timeframe bar items,
        ap
              (λ f.
                view_at Digest header_digest next_digest hex digest_key digest_view f
                  (int (pos bar)))
              (sym (ok_inj same))
            ∙ viewed,
        view_of-IsViewOf digest_view bundle.symbol bundle.timeframe bar items _ shows,
      )
