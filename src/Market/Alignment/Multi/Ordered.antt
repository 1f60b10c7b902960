-- ===== src/Market/Alignment/Multi/Ordered.antt =====
-- The alignments that `from_alignments` accepts.
use zorqen_research.Base.{
  ℕ, ◌*◌, ◌<◌, ◌≡◌, sym, Bool, true, false, leb, ◌==◌, not, List, [], ◌∷◌, map, All, ok, >>=-eq-ok,
  >>-eq-ok, raise_if-eq-ok, ok_inj, ap, arith,
}
use Prim.Native.String.{String}
use text.Mathlib.Text.{◌==◌ as str_eq}
use text.Mathlib.TextEquality.{eq_iff}
use zorqen_research.Time.{Timeframe, timeframe_duration, duration_milliseconds}
use zorqen_research.Market.Alignment.{
  symbol_mismatch, timeframe_mismatch, hash_mismatch, count_mismatch, duplicate_context,
  execution_as_context, binding_mismatch, unordered_contexts, Payload, ContextAlignment, payload,
}
use zorqen_research.Market.Alignment.Multi.{
  same_timeframe, is_seen, context_milliseconds, is_sorted, MultiPayload, MultiContextAlignment,
  check_alignment, check_alignments, from_alignments,
}

-- An alignment of the same execution series as `first`, with the hash of its own content.
pub record IsBound (digest : Payload → String) (first a : ContextAlignment) : Type 0 where
  pub symbol : a.symbol ≡ first.symbol
  pub execution_timeframe :
      timeframe_duration a.execution_timeframe ≡ timeframe_duration first.execution_timeframe
  pub execution_hash : a.execution_candle_sha256 ≡ first.execution_candle_sha256
  pub execution_count : a.execution_candle_count ≡ first.execution_candle_count
  pub own_hash : a.alignment_hash ≡ digest (payload a)
  pub not_execution : same_timeframe a.context_timeframe first.execution_timeframe ≡ false

-- Each context is coarser than the one before it.
abbrev pub Increasing : List ContextAlignment → Type 0
Increasing [] = Unit
Increasing (a ∷ []) = Unit
Increasing (a ∷ b ∷ bs) =
    (timeframe_duration a.context_timeframe < timeframe_duration b.context_timeframe)
    × Increasing (b ∷ bs)

pub milliseconds_lem :
    (tf : Timeframe) → duration_milliseconds (timeframe_duration tf) * 1000 ≡ timeframe_duration tf
unfolding timeframe_duration duration_milliseconds
milliseconds_lem tf = ground arith

not-false : (b : Bool) → not b ≡ false → b ≡ true
not-false b h = ground arith

str_eq→≡ : (s t : String) → not (str_eq s t) ≡ false → s ≡ t
str_eq→≡ s t h = (eq_iff s t).0 (not-false _ h)

==→≡ : (a b : ℕ) → not (a == b) ≡ false → a ≡ b
==→≡ a b h = ground arith

module _ (digest : Payload → String) (first : ContextAlignment) where
  check_alignment-IsBound :
      (seen : List Timeframe) (a : ContextAlignment) {u : Unit {0}}
      → check_alignment digest first seen a ≡ ok u
      → IsBound digest first a × (is_seen a.context_timeframe seen ≡ false)
  unfolding check_alignment
  check_alignment-IsBound seen a h =
      let (e1, r1) = >>-eq-ok (not (str_eq a.symbol first.symbol)) symbol_mismatch h in
      let (e2, r2) =
        >>-eq-ok (not (same_timeframe a.execution_timeframe first.execution_timeframe))
          timeframe_mismatch r1 in
      let (e3, r3) =
        >>-eq-ok (not (str_eq a.execution_candle_sha256 first.execution_candle_sha256))
          hash_mismatch r2 in
      let (e4, r4) =
        >>-eq-ok (not (a.execution_candle_count == first.execution_candle_count)) count_mismatch
          r3 in
      let (e5, r5) = >>-eq-ok (is_seen a.context_timeframe seen) duplicate_context r4 in
      let (e6, r6) =
        >>-eq-ok (same_timeframe a.context_timeframe first.execution_timeframe) execution_as_context
          r5 in
      let e7 =
        raise_if-eq-ok (not (str_eq a.alignment_hash (digest (payload a)))) binding_mismatch r6 in
      (
        record {
          symbol = str_eq→≡ _ _ e1;
          execution_timeframe = ==→≡ _ _ e2;
          execution_hash = str_eq→≡ _ _ e3;
          execution_count = ==→≡ _ _ e4;
          own_hash = str_eq→≡ _ _ e7;
          not_execution = e6;
        },
        e5,
      )

  check_alignments-IsBound :
      (seen : List Timeframe) (alignments : List ContextAlignment) {u : Unit {0}}
      → check_alignments digest first seen alignments ≡ ok u
      → All (IsBound digest first) alignments
  unfolding check_alignments
  check_alignments-IsBound seen [] h = tt
  check_alignments-IsBound seen (a ∷ alignments) h =
      let (_, head, rest) = >>=-eq-ok (check_alignment digest first seen a) _ h in
      (
        (check_alignment-IsBound seen a head).0,
        check_alignments-IsBound (a.context_timeframe ∷ seen) alignments rest,
      )

  -- Sorted and never seen before: coarser than the one before.
  coarser :
      (a b : ContextAlignment) (seen : List Timeframe)
      → is_seen b.context_timeframe (a.context_timeframe ∷ seen) ≡ false
      → leb (context_milliseconds a) (context_milliseconds b) ≡ true
      → timeframe_duration a.context_timeframe < timeframe_duration b.context_timeframe
  coarser a b seen new le =
      ground (arith, milliseconds_lem a.context_timeframe, milliseconds_lem b.context_timeframe)

  check_alignments-Increasing :
      (seen : List Timeframe) (alignments : List ContextAlignment) {u : Unit {0}}
      → check_alignments digest first seen alignments ≡ ok u
      → is_sorted (map context_milliseconds alignments) ≡ true
      → Increasing alignments
  unfolding check_alignments
  check_alignments-Increasing seen [] h sorted = tt
  check_alignments-Increasing seen (a ∷ []) h sorted = tt
  check_alignments-Increasing seen (a ∷ b ∷ bs) h sorted =
      let (_, head, rest) = >>=-eq-ok (check_alignment digest first seen a) _ h in
      let (_, next, _) =
        >>=-eq-ok (check_alignment digest first (a.context_timeframe ∷ seen) b) _ rest in
      let new = (check_alignment-IsBound (a.context_timeframe ∷ seen) b next).1 in
      (
        coarser a b seen new (ground (arith, sorted)),
        check_alignments-Increasing (a.context_timeframe ∷ seen) (b ∷ bs) rest
            (ground (arith, sorted)),
      )

-- Alignments that are accepted together are of one execution series, each with the hash of its own
-- content, and their contexts are strictly coarser one after the other, none being the execution
-- timeframe; they are kept as they are.
pub from_alignments-Increasing :
    (digest : Payload → String) (digest_multi : MultiPayload → String) (first : ContextAlignment)
    (rest : List ContextAlignment) {m : MultiContextAlignment}
    → from_alignments digest digest_multi (first ∷ rest) ≡ ok m
    → (m.alignments ≡ first ∷ rest)
      × All (IsBound digest first) (first ∷ rest)
      × Increasing (first ∷ rest)
unfolding from_alignments
from_alignments-Increasing digest digest_multi first rest h =
    let (_, checked, r1) = >>=-eq-ok (check_alignments digest first [] (first ∷ rest)) _ h in
    let (sorted, r2) =
      >>-eq-ok (not (is_sorted (map context_milliseconds (first ∷ rest)))) unordered_contexts r1 in
    (
      ap (λ (m : MultiContextAlignment). m.alignments) (sym (ok_inj r2)),
      check_alignments-IsBound digest first [] (first ∷ rest) checked,
      check_alignments-Increasing digest first [] (first ∷ rest) checked (not-false _ sorted),
    )
