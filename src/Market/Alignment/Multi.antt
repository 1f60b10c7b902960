-- ===== src/Market/Alignment/Multi.antt =====
-- Several contexts: `MultiContextAlignment` and `align_multi_context` of
-- src/zorqen_research/domain/market_data/alignment.py.
pub mod Ordered
pub mod Total
use zorqen_research.Base.{
  ℕ, Bool, true, false, leb, ◌==◌, ◌||◌, ◌&&◌, not, List, [], ◌∷◌, length, map, Result, ok, err,
  ◌>>=◌, ◌>>◌, raise_if,
}
use Prim.Native.String.{String}
use text.Mathlib.Text.{◌==◌ as str_eq}
use zorqen_research.Time.{Timeframe, timeframe_duration, duration_milliseconds}
use zorqen_research.Market.Candle.{Candle}
use zorqen_research.Market.Alignment.{
  AlignmentError, empty, symbol_mismatch, timeframe_mismatch, hash_mismatch, count_mismatch,
  no_contexts, duplicate_context, execution_as_context, binding_mismatch, unordered_contexts,
  Payload, ContextAlignment, payload, from_candles,
}

-- The members of the enumeration are told apart by their durations.
abbrev pub same_timeframe : Timeframe → Timeframe → Bool
same_timeframe a b = timeframe_duration a == timeframe_duration b

-- `timeframe in seen`
abbrev pub is_seen : Timeframe → List Timeframe → Bool
is_seen tf [] = false
is_seen tf (s ∷ seen) = same_timeframe tf s || is_seen tf seen

abbrev pub context_milliseconds : ContextAlignment → ℕ
context_milliseconds a = duration_milliseconds (timeframe_duration a.context_timeframe)

-- `durations == sorted(durations)`
abbrev pub is_sorted : List ℕ → Bool
is_sorted [] = true
is_sorted (x ∷ []) = true
is_sorted (x ∷ y ∷ ys) = leb x y && is_sorted (y ∷ ys)

-- The document of `_multi_alignment_hash_payload`.
pub record MultiPayload : Type 0 where
  pub symbol : String
  pub execution_timeframe : Timeframe
  pub execution_candle_sha256 : String
  pub alignments : List ContextAlignment

pub record MultiContextAlignment : Type 0 where
  pub symbol : String
  pub execution_timeframe : Timeframe
  pub execution_candle_count : ℕ
  pub execution_candle_sha256 : String
  pub alignments : List ContextAlignment
  pub alignment_hash : String

module _ (digest : Payload → String) (first : ContextAlignment) where
  -- The body of the loop of `from_alignments`.
  unfoldable pub check_alignment :
      List Timeframe → ContextAlignment → Result AlignmentError (Unit {0})
  check_alignment seen a = do
    raise_if (not (str_eq a.symbol first.symbol)) symbol_mismatch
    raise_if (not (same_timeframe a.execution_timeframe first.execution_timeframe))
        timeframe_mismatch
    raise_if (not (str_eq a.execution_candle_sha256 first.execution_candle_sha256)) hash_mismatch
    raise_if (not (a.execution_candle_count == first.execution_candle_count)) count_mismatch
    raise_if (is_seen a.context_timeframe seen) duplicate_context
    raise_if (same_timeframe a.context_timeframe first.execution_timeframe) execution_as_context
    raise_if (not (str_eq a.alignment_hash (digest (payload a)))) binding_mismatch

  unfoldable pub check_alignments :
      List Timeframe → List ContextAlignment → Result AlignmentError (Unit {0})
  check_alignments seen [] = ok tt
  check_alignments seen (a ∷ alignments) =
      check_alignment seen a >> check_alignments (a.context_timeframe ∷ seen) alignments

module _ (digest : Payload → String) (digest_multi : MultiPayload → String) where
  -- The attributes that the factory sets.
  abbrev pub multi_of : ContextAlignment → List ContextAlignment → MultiContextAlignment
  multi_of first alignments =
      let document : MultiPayload = record {
        symbol = first.symbol;
        execution_timeframe = first.execution_timeframe;
        execution_candle_sha256 = first.execution_candle_sha256;
        alignments = alignments;
      } in
      record {
        symbol = first.symbol;
        execution_timeframe = first.execution_timeframe;
        execution_candle_count = first.execution_candle_count;
        execution_candle_sha256 = first.execution_candle_sha256;
        alignments = alignments;
        alignment_hash = digest_multi document;
      }

  -- `MultiContextAlignment.from_alignments`
  unfoldable pub from_alignments :
      List ContextAlignment → Result AlignmentError MultiContextAlignment
  from_alignments [] = err empty
  from_alignments (first ∷ rest) = do
    check_alignments digest first [] (first ∷ rest)
    raise_if (not (is_sorted (map context_milliseconds (first ∷ rest)))) unordered_contexts
    ok (multi_of first (first ∷ rest))

  module _ (hash : List Candle → String) where
    -- The loop over the context series.
    unfoldable pub align_each :
        String
        → Timeframe
        → List Candle
        → List (Timeframe × List Candle)
        → Result AlignmentError (List ContextAlignment)
    align_each symbol execution_timeframe execution_candles [] = ok []
    align_each symbol execution_timeframe execution_candles
          ((context_timeframe, candles) ∷ contexts) =
        do
          alignment ←
              from_candles hash digest symbol execution_timeframe context_timeframe
                execution_candles candles
          alignments ← align_each symbol execution_timeframe execution_candles contexts
          ok (alignment ∷ alignments)

    unfoldable pub align_multi_context :
        String
        → Timeframe
        → List Candle
        → List (Timeframe × List Candle)
        → Result AlignmentError MultiContextAlignment
    align_multi_context symbol execution_timeframe execution_candles [] = err no_contexts
    align_multi_context symbol execution_timeframe execution_candles (c ∷ cs) = do
      alignments ← align_each symbol execution_timeframe execution_candles (c ∷ cs)
      from_alignments alignments
