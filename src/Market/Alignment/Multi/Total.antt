-- ===== src/Market/Alignment/Multi/Total.antt =====
-- The series that `align_multi_context` aligns.
use zorqen_research.Base.{
  ◌<◌, ◌≡◌, refl, true, false, leb, ==_self, List, [], ◌∷◌, length, map, All, ok, arith,
}
use Prim.Native.String.{String}
use text.Mathlib.Text.{◌==◌ as str_eq}
use text.Mathlib.TextEquality.{eq_iff}
use zorqen_research.Time.{Timeframe, timeframe_duration, duration_milliseconds}
use zorqen_research.Market.Candle.{Candle}
use zorqen_research.Market.Derivation.{TimeframeDerivationPlan, derive_timeframe_plan}
use zorqen_research.Market.Series.{require_canonical_series}
use zorqen_research.Market.Alignment.{
  Payload, ContextAlignment, payload, compute_no_lookahead_mapping, alignment_of,
}
use zorqen_research.Market.Alignment.Total.{from_candles_total}
use zorqen_research.Market.Alignment.Multi.{
  same_timeframe, is_seen, context_milliseconds, is_sorted, MultiPayload, check_alignment,
  check_alignments, multi_of, from_alignments, align_each, align_multi_context,
}
use zorqen_research.Market.Alignment.Multi.Ordered.{milliseconds_lem}

-- A context that can be aligned with execution candles of a timeframe.
abbrev pub IsContext : Timeframe → Timeframe × List Candle → Type 0
IsContext etf c =
    ((plan : TimeframeDerivationPlan) × (derive_timeframe_plan etf c.0 ≡ ok plan))
    × (require_canonical_series c.0 c.1 ≡ ok c.1)

-- The contexts are coarser than `tf`, and each is coarser than the one before it.
abbrev pub Coarsening : Timeframe → List (Timeframe × List Candle) → Type 0
Coarsening tf [] = Unit
Coarsening tf (c ∷ cs) = (timeframe_duration tf < timeframe_duration c.0) × Coarsening c.0 cs

str_eq_self : (s : String) → str_eq s s ≡ true
str_eq_self s = (eq_iff s s).1 refl

-- No timeframe of the list is as coarse as `tf`.
abbrev Finer : Timeframe → List Timeframe → Type 0
Finer tf seen = All (λ s. timeframe_duration s < timeframe_duration tf) seen

not-same :
    (a b : Timeframe) → timeframe_duration b < timeframe_duration a → same_timeframe a b ≡ false
not-same a b h = ground arith

not-seen : (tf : Timeframe) (seen : List Timeframe) → Finer tf seen → is_seen tf seen ≡ false
not-seen tf [] h = refl
not-seen tf (s ∷ seen) h = ground (arith, not-same tf s h.0, not-seen tf seen h.1)

Finer-trans :
    (a b : Timeframe) (seen : List Timeframe)
    → timeframe_duration a < timeframe_duration b
    → Finer a seen
    → Finer b seen
Finer-trans a b [] lt h = tt
Finer-trans a b (s ∷ seen) lt h = (omega (arith, lt, h.0), Finer-trans a b seen lt h.1)

module _ (hash : List Candle → String) (digest : Payload → String)
    (digest_multi : MultiPayload → String) (symbol : String) (etf : Timeframe) (e : Candle)
    (es : List Candle) where
  -- The alignment of one context.
  abbrev pub aligned : Timeframe × List Candle → ContextAlignment
  aligned c =
      alignment_of hash digest symbol etf c.0 (e ∷ es) c.1
        (compute_no_lookahead_mapping (e ∷ es) c.1)

  align_each-aligned :
      (cs : List (Timeframe × List Candle))
      → require_canonical_series etf (e ∷ es) ≡ ok (e ∷ es)
      → All (IsContext etf) cs
      → align_each digest digest_multi hash symbol etf (e ∷ es) cs ≡ ok (map aligned cs)
  unfolding align_each
  align_each-aligned [] he hs = refl
  align_each-aligned ((tf, candles) ∷ cs) he hs =
      rw (from_candles_total hash digest symbol etf tf e es candles hs.0.0.1 he hs.0.1)
        (rw (align_each-aligned cs he hs.1))

  check_aligned :
      (seen : List Timeframe) (first c : Timeframe × List Candle)
      → Finer c.0 seen
      → timeframe_duration etf < timeframe_duration c.0
      → check_alignment digest (aligned first) seen (aligned c) ≡ ok tt
  unfolding check_alignment alignment_of
  check_aligned seen first c finer coarser =
      rw (str_eq_self symbol, ==_self (timeframe_duration etf), str_eq_self (hash (e ∷ es)))
        (rw (==_self (length (e ∷ es)), not-seen c.0 seen finer, not-same c.0 etf coarser)
          (rw (str_eq_self (digest (payload (aligned c))))))

  check_rest :
      (first : Timeframe × List Candle) (previous : Timeframe) (seen : List Timeframe)
      (cs : List (Timeframe × List Candle))
      → Finer previous seen
      → timeframe_duration etf < timeframe_duration previous
      → Coarsening previous cs
      → check_alignments digest (aligned first) (previous ∷ seen) (map aligned cs) ≡ ok tt
  unfolding check_alignments alignment_of
  check_rest first previous seen [] finer lt coarser = refl
  check_rest first previous seen (c ∷ cs) finer lt coarser =
      let now : Finer c.0 (previous ∷ seen) =
        (coarser.0, Finer-trans previous c.0 seen coarser.0 finer) in
      let more : timeframe_duration etf < timeframe_duration c.0 = omega (arith, lt, coarser.0) in
      rw (check_aligned (previous ∷ seen) first c now more)
        (check_rest first c.0 (previous ∷ seen) cs now more coarser.1)

  sorted_milliseconds :
      (a b : Timeframe)
      → timeframe_duration a < timeframe_duration b
      → leb
          (duration_milliseconds (timeframe_duration a))
          (duration_milliseconds (timeframe_duration b))
        ≡ true
  sorted_milliseconds a b lt = ground (arith, milliseconds_lem a, milliseconds_lem b)

  sorted_contexts :
      (c : Timeframe × List Candle) (cs : List (Timeframe × List Candle))
      → Coarsening c.0 cs
      → is_sorted (map context_milliseconds (map aligned (c ∷ cs))) ≡ true
  unfolding alignment_of
  sorted_contexts c [] h = refl
  sorted_contexts c (b ∷ bs) h =
      ground (arith, sorted_milliseconds c.0 b.0 h.0, sorted_contexts b bs h.1)

  -- Execution candles that the validator accepts are aligned with any contexts that it accepts,
  -- where each context has a plan from the execution timeframe and is coarser than the one before.
  pub align_multi_context_total :
      (c : Timeframe × List Candle) (cs : List (Timeframe × List Candle))
      → require_canonical_series etf (e ∷ es) ≡ ok (e ∷ es)
      → All (IsContext etf) (c ∷ cs)
      → Coarsening etf (c ∷ cs)
      → align_multi_context digest digest_multi hash symbol etf (e ∷ es) (c ∷ cs)
        ≡ ok (multi_of digest digest_multi (aligned c) (map aligned (c ∷ cs)))
  unfolding align_multi_context from_alignments check_alignments alignment_of
  align_multi_context_total c cs he hs coarser = rw (align_each-aligned (c ∷ cs) he hs) (
      rw (check_aligned [] c c tt coarser.0)
        (rw (check_rest c c.0 [] cs tt coarser.0 coarser.1) (rw (sorted_contexts c cs coarser.1))))
