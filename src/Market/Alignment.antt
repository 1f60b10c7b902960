-- ===== src/Market/Alignment.antt =====
-- No-lookahead alignment: src/zorqen_research/domain/market_data/alignment.py.
-- Digests are hex strings: `hash` is SHA-256 of a series' canonical CSV, `digest` that of the JSON
-- of a payload.
pub mod Pointer
pub mod Latest
pub mod Total
pub mod Multi
use zorqen_research.Base.{
  ℕ, zero, suc, ◌+◌, ◌-◌, Bool, true, false, ltb, leb, ◌==◌, ◌||◌, ◌&&◌, not, Option, none, some,
  List, [], ◌∷◌, length, map, Result, ok, err, ◌>>=◌, ◌>>◌, raise_if, rethrow, if◌then◌else◌,
  get_elem?,
}
use Prim.Native.String.{String}
use text.Mathlib.Text.{◌==◌ as str_eq}
use zorqen_research.Time.{Timeframe, timeframe_duration, duration_milliseconds, is_aligned}
use zorqen_research.Market.Candle.{Candle}
use zorqen_research.Market.Derivation.{DerivationError, derive_timeframe_plan}
use zorqen_research.Market.Series.{expected_close}

-- The AlignmentValidationErrors, with the indexes that their messages name.
pub data AlignmentError : Type 0 where
  empty length_mismatch not_monotone future_candle not_derived no_contexts : AlignmentError
  misaligned close_invalid gapped out_of_range : ℕ → AlignmentError
  symbol_mismatch timeframe_mismatch hash_mismatch count_mismatch : AlignmentError
  duplicate_context execution_as_context binding_mismatch unordered_contexts : AlignmentError
  not_derivable : DerivationError → AlignmentError

unfoldable pub require_derivable_pair : Timeframe → Timeframe → Result AlignmentError (Unit {0})
require_derivable_pair execution context = do
  plan ← rethrow not_derivable (derive_timeframe_plan execution context)
  ok tt

-- `previous is not None and candle.open_time != previous + duration`
abbrev pub breaks : ℕ → Option ℕ → ℕ → Bool
breaks duration none open_time = false
breaks duration (some previous) open_time = not (open_time == previous + duration)

-- The body of the loop. The UTC tests on the open time cannot fail on a `Candle`.
unfoldable pub check_candle : Timeframe → ℕ → Option ℕ → Candle → Result AlignmentError (Unit {0})
check_candle timeframe index previous c = do
  raise_if (not (is_aligned c.open_time timeframe)) (misaligned index)
  raise_if (not (c.close_time == expected_close c.open_time timeframe)) (close_invalid index)
  raise_if (breaks (timeframe_duration timeframe) previous c.open_time) (gapped index)

unfoldable pub check_series :
    Timeframe → ℕ → Option ℕ → List Candle → Result AlignmentError (Unit {0})
check_series timeframe index previous [] = ok tt
check_series timeframe index previous (c ∷ cs) =
    check_candle timeframe index previous c
    >> check_series timeframe (index + 1) (some c.open_time) cs

unfoldable pub require_gap_free_series :
    Timeframe → List Candle → Result AlignmentError (List Candle)
require_gap_free_series timeframe [] = err empty
require_gap_free_series timeframe (c ∷ cs) = do check_series timeframe 0 none (c ∷ cs); ok (c ∷ cs)

-- `context_index + 1 < len(context) and context[context_index + 1].close_time <= decision_close`,
-- where `next` is `context_index + 1`.
abbrev pub closed_by : ℕ → Option Candle → Bool
closed_by decision_close none = false
closed_by decision_close (some c) = leb c.close_time decision_close

unfoldable pub more : List Candle → ℕ → ℕ → Bool
more context decision_close next = closed_by decision_close (get_elem? context next)

-- The `while` loop; `fuel` is at least the number of candles that are left.
unfoldable pub advance : ℕ → List Candle → ℕ → ℕ → ℕ
advance zero context decision_close next = next
advance (suc fuel) context decision_close next = elim (more context decision_close next) [
  | true ↦ advance fuel context decision_close (next + 1)
  | false ↦ next
]

-- `None if context_index < 0 else context_index`
abbrev pub entry : ℕ → Option ℕ
entry zero = none
entry (suc context_index) = some context_index

unfoldable pub mapping_from : List Candle → ℕ → List Candle → List (Option ℕ)
mapping_from context next [] = []
mapping_from context next (e ∷ execution) =
    let reached = advance (length context) context e.close_time next in
    entry reached ∷ mapping_from context reached execution

unfoldable pub compute_no_lookahead_mapping : List Candle → List Candle → List (Option ℕ)
compute_no_lookahead_mapping execution context = mapping_from context 0 execution

-- `value < previous`, where `previous` starts below every index.
abbrev pub falls : ℕ → Option ℕ → Bool
falls value none = false
falls value (some previous) = ltb value previous

-- The loop of `_assert_mapping_bound_to_candles`, over the execution candles that remain.
unfoldable pub check_entries :
    List Candle → ℕ → Option ℕ → List Candle → List (Option ℕ) → Result AlignmentError (Unit {0})
check_entries context index previous (e ∷ execution) (none ∷ mapping) =
    check_entries context (index + 1) previous execution mapping
check_entries context index previous (e ∷ execution) (some value ∷ mapping) =
    elim (get_elem? context value) [
      | none ↦ err (out_of_range index)
      | some c ↦
          raise_if (falls value previous) not_monotone
          >> raise_if (ltb e.close_time c.close_time) future_candle
          >> check_entries context (index + 1) (some value) execution mapping
    ]
check_entries context index previous _ _ = ok tt

abbrev pub same_entry : Option ℕ → Option ℕ → Bool
same_entry none none = true
same_entry (some i) (some j) = i == j
same_entry _ _ = false

abbrev pub same_mapping : List (Option ℕ) → List (Option ℕ) → Bool
same_mapping [] [] = true
same_mapping (x ∷ xs) (y ∷ ys) = same_entry x y && same_mapping xs ys
same_mapping _ _ = false

unfoldable pub assert_mapping_bound_to_candles :
    List Candle → List Candle → List (Option ℕ) → Result AlignmentError (List (Option ℕ))
assert_mapping_bound_to_candles execution context mapping = do
  raise_if (not (length mapping == length execution)) length_mismatch
  check_entries context 0 none execution mapping
  raise_if (not (same_mapping mapping (compute_no_lookahead_mapping execution context))) not_derived
  ok mapping

-- The document of `_single_alignment_hash_payload`.
pub record Payload : Type 0 where
  pub symbol : String
  pub execution_timeframe : Timeframe
  pub context_timeframe : Timeframe
  pub execution_candle_sha256 : String
  pub context_candle_sha256 : String
  pub mapping : List (Option ℕ)

pub record ContextAlignment : Type 0 where
  pub symbol : String
  pub execution_timeframe : Timeframe
  pub context_timeframe : Timeframe
  pub execution_candle_count : ℕ
  pub context_candle_count : ℕ
  pub execution_candle_sha256 : String
  pub context_candle_sha256 : String
  pub mapping : List (Option ℕ)
  pub alignment_hash : String

abbrev pub payload : ContextAlignment → Payload
payload a = record {
  symbol = a.symbol;
  execution_timeframe = a.execution_timeframe;
  context_timeframe = a.context_timeframe;
  execution_candle_sha256 = a.execution_candle_sha256;
  context_candle_sha256 = a.context_candle_sha256;
  mapping = a.mapping;
}

module _ (hash : List Candle → String) (digest : Payload → String) where
  -- The attributes that the factory sets.
  unfoldable pub alignment_of :
      String
      → Timeframe
      → Timeframe
      → (execution context : List Candle) → List (Option ℕ)
      → ContextAlignment
  alignment_of symbol execution_timeframe context_timeframe execution context mapping =
      let document : Payload = record {
        symbol = symbol;
        execution_timeframe = execution_timeframe;
        context_timeframe = context_timeframe;
        execution_candle_sha256 = hash execution;
        context_candle_sha256 = hash context;
        mapping = mapping;
      } in
      record {
        symbol = symbol;
        execution_timeframe = execution_timeframe;
        context_timeframe = context_timeframe;
        execution_candle_count = length execution;
        context_candle_count = length context;
        execution_candle_sha256 = hash execution;
        context_candle_sha256 = hash context;
        mapping = mapping;
        alignment_hash = digest document;
      }

  -- `ContextAlignment.from_candles`, which `align_context_to_execution` calls.
  unfoldable pub from_candles :
      String
      → Timeframe
      → Timeframe
      → List Candle
      → List Candle
      → Result AlignmentError ContextAlignment
  from_candles symbol execution_timeframe context_timeframe execution_candles context_candles = do
    require_derivable_pair execution_timeframe context_timeframe
    execution ← require_gap_free_series execution_timeframe execution_candles
    context ← require_gap_free_series context_timeframe context_candles
    mapping ←
        assert_mapping_bound_to_candles execution context
          (compute_no_lookahead_mapping execution context)
    ok (alignment_of symbol execution_timeframe context_timeframe execution context mapping)
