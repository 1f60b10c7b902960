-- ===== src/IndicatorViews/Shown.antt =====
-- What the items of a feed show: src/zorqen_research/application/indicator_views/feed.py and
-- src/zorqen_research/domain/indicator_views/views.py.
use zorqen_research.Base.{
  ℕ, zero, suc, ◌+◌, ◌≤◌, ◌<◌, ◌≡◌, refl, ap, sym, ◌∙◌, Bool, false, ltb, ◌==◌, not, Option, none,
  some, List, [], ◌∷◌, length, map, take, get_elem?, ok, >>=-eq-ok, >>-eq-ok, ok_inj, arith,
  length-take, le→ltb, All,
}
use Prim.Native.String.{String}
use text.Mathlib.Text.{◌==◌ as str_eq}
use zorqen_research.Decimal.{Decimal}
use zorqen_research.Time.{Timeframe}
use zorqen_research.Indicators.Input.{IndicatorCode}
use zorqen_research.Indicators.Assembly.{IndicatorSeries, is_defined, defined_value_count}
use zorqen_research.IndicatorViews.{
  key_hash_mismatch, key_code_mismatch, key_parameters_mismatch, prefix_hashes_length,
  prefix_counts_length, IndicatorSeriesKey, key_from_verified, VerifiedIndicatorSource, source_of,
  bind_trusted, visible, latest, history_from_source, IndicatorDecisionItem, ItemDocument,
  item_document, item_of, item_from_feed, items_from_feed, ViewDocument,
}
use zorqen_research.IndicatorViews.Feed.{
  counts_from, defined_prefix_counts, code_number, same_parameters, as_count, chain_from,
  compute_prefix_hash_chain, source_from, sources_from,
}

-- What a strategy can read of an item.
pub record Shown : Type 0 where
  pub series_key : IndicatorSeriesKey
  pub values : List (Option Decimal)
  pub visible_count : ℕ
  pub defined_visible_count : ℕ
  pub latest : Option Decimal
  pub ready : Bool
  pub visible_prefix_hash : String
  pub document : ItemDocument

abbrev pub shown : IndicatorDecisionItem → Shown
shown item = record {
  series_key = item.series_key;
  values = visible item.history;
  visible_count = item.visible_count;
  defined_visible_count = item.defined_visible_count;
  latest = item.latest;
  ready = item.ready;
  visible_prefix_hash = item.visible_prefix_hash;
  document = item_document item;
}

abbrev pub last_value : List (Option Decimal) → Option Decimal
last_value [] = none
last_value (v ∷ []) = v
last_value (v ∷ w ∷ values) = last_value (w ∷ values)

get_elem?-counts_from :
    (running e : ℕ) (vs : List (Option Decimal))
    → e ≤ length vs
    → get_elem? (counts_from running vs) e ≡ some (running + defined_value_count (take e vs))
unfolding counts_from defined_value_count
get_elem?-counts_from running zero [] h = ap some (omega arith)
get_elem?-counts_from running zero (none ∷ vs) h = ap some (omega arith)
get_elem?-counts_from running zero (some v ∷ vs) h = ap some (omega arith)
get_elem?-counts_from running (suc e) [] h = absurd (omega arith)
get_elem?-counts_from running (suc e) (none ∷ vs) h =
    get_elem?-counts_from running e vs (omega arith)
get_elem?-counts_from running (suc e) (some v ∷ vs) h =
    get_elem?-counts_from (running + 1) e vs (omega arith) ∙ ap some (omega arith)

get_elem?-last_value :
    (i : ℕ) (vs : List (Option Decimal))
    → i < length vs
    → get_elem? vs i ≡ some (last_value (take (suc i) vs))
get_elem?-last_value i [] h = absurd (omega arith)
get_elem?-last_value zero (v ∷ vs) h = refl
get_elem?-last_value (suc i) (v ∷ []) h = absurd (omega arith)
get_elem?-last_value (suc i) (v ∷ w ∷ vs) h = get_elem?-last_value i (w ∷ vs) (omega arith)

length-counts_from :
    (running : ℕ) (vs : List (Option Decimal)) → length (counts_from running vs) ≡ suc (length vs)
unfolding counts_from
length-counts_from running [] = refl
length-counts_from running (none ∷ vs) = ap suc (length-counts_from running vs)
length-counts_from running (some v ∷ vs) = ap suc (length-counts_from (running + 1) vs)

module _ (Digest : Type 0) (header_digest : String → Timeframe → IndicatorSeriesKey → Digest)
    (next_digest : Digest → Option Decimal → Digest) (hex : Digest → String)
    (digest_key : IndicatorCode → List (String × ℕ) → String)
    (digest_view : ViewDocument → String) where
  -- The state of SHA-256 after the values.
  abbrev pub digest_after : Digest → List (Option Decimal) → Digest
  digest_after current [] = current
  digest_after current (value ∷ values) = digest_after (next_digest current value) values

  abbrev pub content_document :
      String → Timeframe → IndicatorSeriesKey → List (Option Decimal) → ItemDocument
  content_document symbol timeframe series_key values = record {
    indicator_code = series_key.indicator_code;
    key_hash = series_key.key_hash;
    parameters = series_key.parameters;
    ready = is_defined (last_value values);
    visible_prefix_hash = hex (digest_after (header_digest symbol timeframe series_key) values);
  }

  -- What is to be shown of a series whose values so far are `values`.
  abbrev pub content : String → Timeframe → IndicatorSeriesKey → List (Option Decimal) → Shown
  content symbol timeframe series_key values = record {
    series_key = series_key;
    values = values;
    visible_count = length values;
    defined_visible_count = defined_value_count values;
    latest = last_value values;
    ready = is_defined (last_value values);
    visible_prefix_hash = hex (digest_after (header_digest symbol timeframe series_key) values);
    document = content_document symbol timeframe series_key values;
  }

  get_elem?-chain_from :
      (current : Digest) (e : ℕ) (vs : List (Option Decimal))
      → e ≤ length vs
      → get_elem?
          (chain_from Digest header_digest next_digest hex digest_key digest_view current vs)
          e
        ≡ some (hex (digest_after current (take e vs)))
  unfolding chain_from
  get_elem?-chain_from current zero [] h = refl
  get_elem?-chain_from current zero (v ∷ vs) h = refl
  get_elem?-chain_from current (suc e) [] h = absurd (omega arith)
  get_elem?-chain_from current (suc e) (v ∷ vs) h =
      get_elem?-chain_from (next_digest current v) e vs (omega arith)

  -- The source of a series.
  abbrev bound : String → Timeframe → IndicatorSeries → IndicatorSeriesKey → VerifiedIndicatorSource
  unfolding compute_prefix_hash_chain defined_prefix_counts
  bound symbol timeframe s k =
      source_of s k
        (compute_prefix_hash_chain Digest header_digest next_digest hex digest_key digest_view
          symbol timeframe k s.values)
        (defined_prefix_counts s.values)

  module _ (symbol : String) (timeframe : Timeframe) (bar : ℕ) where
    item_from_feed-shown :
        (s : IndicatorSeries) (k : IndicatorSeriesKey)
        → bar < length s.values
        → (item : IndicatorDecisionItem) × (item_from_feed symbol timeframe
              (suc bar)
              (bound symbol timeframe s k)
            ≡ ok item)
          × (shown item ≡ content symbol timeframe k (take (suc bar) s.values))
    unfolding item_from_feed history_from_source latest bound compute_prefix_hash_chain
        defined_prefix_counts
    item_from_feed-shown s k inside =
        let seen = take (suc bar) s.values in
        let size : length seen ≡ suc bar = omega (arith, length-take (suc bar) s.values, inside) in
        let within : ltb (length s.values) (suc bar) ≡ false = le→ltb _ _ (omega (arith, inside)) in
        let value = get_elem?-last_value bar s.values inside in
        let counted : get_elem? (counts_from 0 s.values) (suc bar)
            ≡ some (defined_value_count seen) =
          get_elem?-counts_from 0 (suc bar) s.values (omega (arith, inside))
          ∙ ap some (omega arith) in
        let hashed =
          get_elem?-chain_from (header_digest symbol timeframe k) (suc bar) s.values
            (omega (arith, inside)) in
        (
          item_of symbol timeframe
              (record { source = bound symbol timeframe s k; end_exclusive = suc bar })
              (last_value seen) (defined_value_count seen)
              (content symbol timeframe k seen).visible_prefix_hash,
          rw (within, value, counted, hashed) refl,
          ap
              (λ (n : ℕ). record {
                series_key = k;
                values = seen;
                visible_count = n;
                defined_visible_count = defined_value_count seen;
                latest = last_value seen;
                ready = is_defined (last_value seen);
                visible_prefix_hash = (content symbol timeframe k seen).visible_prefix_hash;
                document = content_document symbol timeframe k seen;
              })
              (sym size),
        )

    -- The sources of the series, and what is to be shown of them.
    unfoldable pub sources_of :
        List IndicatorSeries → List IndicatorSeriesKey → List VerifiedIndicatorSource
    unfolding bound
    sources_of (s ∷ series) (k ∷ keys) = bound symbol timeframe s k ∷ sources_of series keys
    sources_of series keys = []

    abbrev pub contents : List IndicatorSeries → List IndicatorSeriesKey → List Shown
    contents (s ∷ series) (k ∷ keys) =
        content symbol timeframe k (take (suc bar) s.values) ∷ contents series keys
    contents series keys = []

    pub items_from_feed-shown :
        (series : List IndicatorSeries) (keys : List IndicatorSeriesKey)
        → All (λ (s : IndicatorSeries). bar < length s.values) series
        → (items : List IndicatorDecisionItem) × (items_from_feed symbol timeframe
              (suc bar)
              (sources_of series keys)
            ≡ ok items)
          × (map shown items ≡ contents series keys)
    unfolding items_from_feed sources_of
    items_from_feed-shown [] keys inside = ([], refl, refl)
    items_from_feed-shown (s ∷ series) [] inside = ([], refl, refl)
    items_from_feed-shown (s ∷ series) (k ∷ keys) (here, there) =
        let (item, e, same) = item_from_feed-shown s k here in
        let (items, es, sames) = items_from_feed-shown series keys there in
        (
          item ∷ items,
          rw (e, es) refl,
          ap (λ x. x ∷ map shown items) same
              ∙ ap (λ xs. content symbol timeframe k (take (suc bar) s.values) ∷ xs) sames,
        )

    source_from-eq-ok :
        (s : IndicatorSeries) (k : IndicatorSeriesKey) {source : VerifiedIndicatorSource}
        → source_from Digest header_digest next_digest hex digest_key digest_view symbol timeframe s
            k
          ≡ ok source
        → bound symbol timeframe s k ≡ source
    unfolding source_from bind_trusted bound
    source_from-eq-ok s k h =
        let (rebuilt, _, h1) =
          >>=-eq-ok (key_from_verified digest_key s.indicator_code (map as_count s.parameters)) _
            h in
        let (_, h2) = >>-eq-ok (not (str_eq rebuilt.key_hash k.key_hash)) key_hash_mismatch h1 in
        let (_, h3) =
          >>-eq-ok (not (code_number k.indicator_code == code_number s.indicator_code))
            key_code_mismatch h2 in
        let (_, h4) =
          >>-eq-ok (not (same_parameters k.parameters s.parameters)) key_parameters_mismatch h3 in
        let (_, h5) = >>-eq-ok _ prefix_hashes_length h4 in
        let (_, h6) = >>-eq-ok _ prefix_counts_length h5 in ok_inj h6

    pub sources_from-eq-ok :
        (series : List IndicatorSeries) (keys : List IndicatorSeriesKey)
        {sources : List VerifiedIndicatorSource}
        → sources_from Digest header_digest next_digest hex digest_key digest_view symbol timeframe
            series keys
          ≡ ok sources
        → sources_of series keys ≡ sources
    unfolding sources_from sources_of
    sources_from-eq-ok [] [] h = ok_inj h
    sources_from-eq-ok [] (k ∷ keys) h = cc
    sources_from-eq-ok (s ∷ series) [] h = cc
    sources_from-eq-ok (s ∷ series) (k ∷ keys) h =
        let (source, e, h1) =
          >>=-eq-ok
            (source_from Digest header_digest next_digest hex digest_key digest_view symbol
              timeframe s k)
            _ h in
        let (sources, es, h2) =
          >>=-eq-ok
            (sources_from Digest header_digest next_digest hex digest_key digest_view symbol
              timeframe series keys)
            _ h1 in
        ap (λ x. x ∷ sources_of series keys) (source_from-eq-ok s k e)
        ∙ ap (λ xs. source ∷ xs) (sources_from-eq-ok series keys es)
        ∙ ok_inj h2
