-- ===== src/IndicatorViews/Bundle/Beginning.antt =====
-- The views of a bundle of src/zorqen_research/domain/indicator_views/bundles.py, and the calculators
-- on the candles up to the bar.
use zorqen_research.Base.{
  ℕ, suc, ◌+◌, ◌<◌, ◌≡◌, refl, ap, sym, subst, ◌∙◌, true, false, not, ◌==◌, Bool-cases, inl, inr,
  Option, List, [], ◌∷◌, length, map, take, ok, rethrow, >>=-eq-ok, >>-eq-ok, rethrow-eq-ok, ok_inj,
  arith, All, length-take,
}
use Prim.Native.String.{String}
use text.Mathlib.Text.{◌==◌ as str_eq}
use zorqen_research.Decimal.{Decimal}
use zorqen_research.Time.{Timeframe}
use zorqen_research.Market.Candle.{Candle}
use zorqen_research.Market.Alignment.Multi.{same_timeframe}
use zorqen_research.Market.Series.{require_canonical_series}
use zorqen_research.Indicators.Input.{
  IndicatorCode, IndicatorInput, InputDocument, input_of, input_from_verified, not_canonical,
}
use zorqen_research.Indicators.Assembly.{IndicatorSeries, SeriesDocument}
use zorqen_research.Indicators.Calculators.{recalculate_indicator_series}
use zorqen_research.Indicators.Causal.Recalculated.{recalculate-take}
use zorqen_research.Indicators.Warmup.Accepted.{take_whole}
use zorqen_research.IndicatorViews.{
  not_reconstructed, input_mismatch, symbol_field, timeframe_field, count_field, minimum_field,
  maximum_field, candles_field, hash_field, duplicate_keys, bad_indicator, IndicatorSeriesKey,
  key_from_verified, ViewDocument,
}
use zorqen_research.IndicatorViews.Feed.{TrustedBundle, as_count}
use zorqen_research.IndicatorViews.Shown.{Shown, contents}
use zorqen_research.IndicatorViews.Bundle.{
  Keyed, key_of, series_in, BundleDocument, IndicatorSeriesBundle, sorts_before, insert_keyed,
  sort_keyed, is_in, require_series_matches_recalculation, reverify_indicator_input, keyed_from,
}

insert_keyed-later :
    (p q : Keyed) (keyed : List Keyed)
    → sorts_before q.0 p.0 ≡ true
    → insert_keyed p (q ∷ keyed) ≡ q ∷ insert_keyed p keyed
unfolding insert_keyed
insert_keyed-later p q keyed later = rw (later) refl

insert_keyed-here :
    (p q : Keyed) (keyed : List Keyed)
    → sorts_before q.0 p.0 ≡ false
    → insert_keyed p (q ∷ keyed) ≡ p ∷ q ∷ keyed
unfolding insert_keyed
insert_keyed-here p q keyed here = rw (here) refl

module _ (P : Keyed → Type 0) where
  All-insert_keyed :
      (p : Keyed) (keyed : List Keyed) → P p → All P keyed → All P (insert_keyed p keyed)
  unfolding insert_keyed
  All-insert_keyed p [] h hs = (h, tt)
  All-insert_keyed p (q ∷ keyed) h (g, gs) = elim (Bool-cases (sorts_before q.0 p.0)) [
    | inl later ↦
        subst (All P) (sym (insert_keyed-later p q keyed later)) (g, All-insert_keyed p keyed h gs)
    | inr here ↦ subst (All P) (sym (insert_keyed-here p q keyed here)) (h, (g, gs))
  ]

  pub All-sort_keyed : (keyed : List Keyed) → All P keyed → All P (sort_keyed keyed)
  unfolding sort_keyed
  All-sort_keyed [] hs = tt
  All-sort_keyed (p ∷ keyed) (h, hs) =
      All-insert_keyed p (sort_keyed keyed) h (All-sort_keyed keyed hs)

module _ (hash : List Candle → String) (digest_input : InputDocument → String)
    (digest_series : SeriesDocument → String)
    (digest_key : IndicatorCode → List (String × ℕ) → String) (serialize : IndicatorSeries → String)
    (digest_bundle : BundleDocument → String) where
  -- A series that is the recalculation of its key.
  abbrev pub IsRecalculated : IndicatorInput → Keyed → Type 0
  IsRecalculated i p =
      recalculate_indicator_series digest_series p.0.indicator_code i p.0.parameters ≡ ok p.1

  pub keyed_from-IsRecalculated :
      (i : IndicatorInput) (index : ℕ) (seen : List String) (series : List IndicatorSeries)
      {keyed : List Keyed}
      → keyed_from hash digest_input digest_series digest_key serialize digest_bundle i index seen
          series
        ≡ ok keyed
      → All (IsRecalculated i) keyed
  unfolding keyed_from
  keyed_from-IsRecalculated i index seen [] h = subst (All (IsRecalculated i)) (ok_inj h) tt
  keyed_from-IsRecalculated i index seen (item ∷ series) h =
      let (key, _, h1) =
        >>=-eq-ok (key_from_verified digest_key item.indicator_code (map as_count item.parameters))
          _ h in
      let (expected, recalculated, h2) =
        >>=-eq-ok
          (rethrow bad_indicator
            (recalculate_indicator_series digest_series key.indicator_code i key.parameters))
          _ h1 in
      let (_, _, h3) =
        >>=-eq-ok (require_series_matches_recalculation serialize item expected index) _ h2 in
      let (_, h4) = >>-eq-ok (is_in key.key_hash seen) duplicate_keys h3 in
      let (keyed, rest, h5) =
        >>=-eq-ok
          (keyed_from hash digest_input digest_series digest_key serialize digest_bundle i
            (index + 1) (key.key_hash ∷ seen) series)
          _ h4 in
      subst (All (IsRecalculated i)) (ok_inj h5) (
        rethrow-eq-ok bad_indicator _ recalculated,
        keyed_from-IsRecalculated i (index + 1) (key.key_hash ∷ seen) series rest,
      )

  -- The input that the candles up to a bar make.
  abbrev pub input_up_to : String → Timeframe → Candle → List Candle → IndicatorInput
  input_up_to symbol timeframe c cs = input_of hash digest_input symbol timeframe c cs

  pub reverify_indicator_input-eq-ok :
      (i : IndicatorInput) (c : Candle) (cs : List Candle) {trusted : IndicatorInput}
      → i.candles ≡ c ∷ cs
      → reverify_indicator_input hash digest_input digest_series digest_key serialize digest_bundle
          i
        ≡ ok trusted
      → input_of hash digest_input i.symbol i.timeframe c cs ≡ trusted
  unfolding reverify_indicator_input input_from_verified
  reverify_indicator_input-eq-ok i c cs candles h =
      let (t, verified, h1) =
        >>=-eq-ok
          (rethrow not_reconstructed
            (input_from_verified hash digest_input i.symbol i.timeframe i.candles))
          _ h in
      let made : input_from_verified hash digest_input i.symbol i.timeframe (c ∷ cs) ≡ ok t =
        ap (λ xs. input_from_verified hash digest_input i.symbol i.timeframe xs) (sym candles)
        ∙ rethrow-eq-ok not_reconstructed _ verified in
      let (_, _, same) =
        >>=-eq-ok (rethrow not_canonical (require_canonical_series i.timeframe (c ∷ cs))) _ made in
      let (_, h2) = >>-eq-ok (not (str_eq t.symbol i.symbol)) (input_mismatch symbol_field) h1 in
      let (_, h3) =
        >>-eq-ok (not (same_timeframe t.timeframe i.timeframe)) (input_mismatch timeframe_field)
          h2 in
      let (_, h4) =
        >>-eq-ok (not (t.candle_count == i.candle_count)) (input_mismatch count_field) h3 in
      let (_, h5) =
        >>-eq-ok (not (t.minimum_open_time == i.minimum_open_time)) (input_mismatch minimum_field)
          h4 in
      let (_, h6) =
        >>-eq-ok (not (t.maximum_open_time == i.maximum_open_time)) (input_mismatch maximum_field)
          h5 in
      let (_, h7) =
        >>-eq-ok (not (str_eq t.candle_sha256 i.candle_sha256)) (input_mismatch candles_field) h6 in
      let (_, h8) =
        >>-eq-ok (not (str_eq t.input_hash i.input_hash)) (input_mismatch hash_field) h7 in
      ok_inj same ∙ ok_inj h8

  -- What is shown of a series is the recalculation of its key on the candles of `first`.
  abbrev pub IsUpTo : IndicatorInput → Shown → Type 0
  IsUpTo first x =
      (s : IndicatorSeries) × (recalculate_indicator_series digest_series
          x.series_key.indicator_code first x.series_key.parameters
        ≡ ok s)
      × (x.values ≡ s.values)

  module _ (symbol : String) (timeframe : Timeframe) (c : Candle) (cs : List Candle) where
    -- A series has a value for each candle.
    recalculated-counted :
        (p : Keyed)
        → IsRecalculated (input_of hash digest_input symbol timeframe c cs) p
        → length p.1.values ≡ length (c ∷ cs)
    unfolding input_of
    recalculated-counted p h =
        let i = input_of hash digest_input symbol timeframe c cs in
        let (s, e, _, size) =
          recalculate-take digest_series p.0.indicator_code p.0.parameters i i (length (c ∷ cs))
            (sym (take_whole (length (c ∷ cs)) (c ∷ cs) (omega arith))) refl refl (omega arith) h in
        let same : p.1 ≡ s = ok_inj (sym h ∙ e) in
        ap (λ (x : IndicatorSeries). length x.values) same ∙ size

    pub All-counted :
        (keyed : List Keyed)
        → All (IsRecalculated (input_of hash digest_input symbol timeframe c cs)) keyed
        → All (λ (s : IndicatorSeries). length s.values ≡ length (c ∷ cs)) (map series_in keyed)
    All-counted [] h = tt
    All-counted (p ∷ keyed) (h, hs) = (recalculated-counted p h, All-counted keyed hs)

    module _ (Digest : Type 0) (header_digest : String → Timeframe → IndicatorSeriesKey → Digest)
        (next_digest : Digest → Option Decimal → Digest) (hex : Digest → String)
        (digest_view : ViewDocument → String) (bar : ℕ) (inside : bar < length (c ∷ cs)) where
      pub contents-IsUpTo :
          (keyed : List Keyed)
          → All (IsRecalculated (input_of hash digest_input symbol timeframe c cs)) keyed
          → All (IsUpTo (input_of hash digest_input symbol timeframe c (take bar cs))) (
              contents Digest header_digest next_digest hex digest_key digest_view symbol timeframe
                bar
                (map series_in keyed)
                (map key_of keyed))
      unfolding input_of
      contents-IsUpTo [] h = tt
      contents-IsUpTo (p ∷ keyed) (h, hs) =
          let (s, e, values, _) =
            recalculate-take digest_series p.0.indicator_code p.0.parameters
              (input_of hash digest_input symbol timeframe c cs)
              (input_of hash digest_input symbol timeframe c (take bar cs)) (suc bar) refl refl
              (omega (arith, length-take bar cs, inside)) (omega (arith, inside)) h in
          ((s, e, sym values), contents-IsUpTo keyed hs)

-- The bundle as the feed takes it.
abbrev pub as_trusted : IndicatorSeriesBundle → TrustedBundle
as_trusted b = record {
  symbol = b.symbol;
  timeframe = b.timeframe;
  input_candle_count = b.input_candle_count;
  series = b.series;
  series_keys = b.series_keys;
}
