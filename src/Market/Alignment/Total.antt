-- ===== src/Market/Alignment/Total.antt =====
-- `ContextAlignment.from_candles`, and its validator of series beside that of
-- src/zorqen_research/domain/market_data/series.py.
use zorqen_research.Base.{
  ℕ, zero, suc, ◌+◌, ◌≤◌, ◌<◌, ◌≡◌, ◌↔◌, refl, true, false, Option, none, some, List, [], ◌∷◌,
  arith, length, Result, ok, >>=-eq-ok, ==_self, le→ltb, ap,
}
use Prim.Native.String.{String}
use zorqen_research.Time.{Timeframe, timeframe_duration}
use zorqen_research.Time.Floor.{timeframe_duration_pos}
use zorqen_research.Market.Candle.{Candle}
use zorqen_research.Market.Derivation.{TimeframeDerivationPlan, derive_timeframe_plan}
use zorqen_research.Market.Series
use zorqen_research.Market.Series.{expected_close, require_canonical_series}
use zorqen_research.Market.Series.Grid.{IsGrid, require_canonical_series-IsGrid}
use zorqen_research.Market.Alignment.{
  check_candle, check_series, require_gap_free_series, check_entries, falls, same_mapping,
  compute_no_lookahead_mapping, assert_mapping_bound_to_candles, alignment_of, from_candles,
  require_derivable_pair, Payload, mapping_from, advance, entry,
}
use zorqen_research.Market.Alignment.Pointer.{Closed, advance_lem}
use zorqen_research.Market.Alignment.Latest.{Closed-later, get_elem?-some}

-- One candle passes the one validator exactly when it passes the other.
same_check :
    (tf : Timeframe) (i : ℕ) (previous : Option ℕ) (c : Candle)
    → Series.check_candle tf i previous c ≡ ok tt
    → check_candle tf i previous c ≡ ok tt
unfolding check_candle Series.check_candle
same_check tf i previous c h = ground arith

same_series :
    (tf : Timeframe) (i : ℕ) (previous : Option ℕ) (cs : List Candle)
    → Series.check_series tf i previous cs ≡ ok tt
    → check_series tf i previous cs ≡ ok tt
unfolding check_series Series.check_series
same_series tf i previous [] h = refl
same_series tf i previous (c ∷ cs) h =
    let (_, head, rest) = >>=-eq-ok (Series.check_candle tf i previous c) _ h in
    rw (same_check tf i previous c head) (same_series tf (i + 1) (some c.open_time) cs rest)

check_same :
    (tf : Timeframe) (i : ℕ) (previous : Option ℕ) (c : Candle)
    → check_candle tf i previous c ≡ ok tt
    → Series.check_candle tf i previous c ≡ ok tt
unfolding check_candle Series.check_candle
check_same tf i none c h = ground arith
check_same tf i (some previous) c h = ground (arith, timeframe_duration_pos tf)

series_same :
    (tf : Timeframe) (i : ℕ) (previous : Option ℕ) (cs : List Candle)
    → check_series tf i previous cs ≡ ok tt
    → Series.check_series tf i previous cs ≡ ok tt
unfolding check_series Series.check_series
series_same tf i previous [] h = refl
series_same tf i previous (c ∷ cs) h =
    let (_, head, rest) = >>=-eq-ok (check_candle tf i previous c) _ h in
    rw (check_same tf i previous c head) (series_same tf (i + 1) (some c.open_time) cs rest)

ok_eq {ℓ} : {E : Type 0} {A : Type ℓ} {x y : A} → ◌≡◌ {A = Result E A} (ok x) (ok y) → x ≡ y
ok_eq e = cc

pub require_gap_free_series_iff :
    (tf : Timeframe) (cs out : List Candle)
    → (require_gap_free_series tf cs ≡ ok out) ↔ (require_canonical_series tf cs ≡ ok out)
unfolding require_gap_free_series require_canonical_series
require_gap_free_series_iff tf [] out = (λ h. cc, λ h. cc)
require_gap_free_series_iff tf (c ∷ cs) out = (
  λ h.
      let (_, checked, same) = >>=-eq-ok (check_series tf 0 none (c ∷ cs)) _ h in
      rw (series_same tf 0 none (c ∷ cs) checked) (ap ok (ok_eq same)),
  λ h.
      let (_, checked, same) = >>=-eq-ok (Series.check_series tf 0 none (c ∷ cs)) _ h in
      rw (same_series tf 0 none (c ∷ cs) checked) (ap ok (ok_eq same)),
)

-- The previous index of the monotonicity test lies below the pointer.
abbrev Below : Option ℕ → ℕ → Type 0
Below none next = Unit
Below (some p) next = p < next

falls-Below :
    (n next : ℕ) (previous : Option ℕ)
    → next ≤ suc n
    → Below previous next
    → falls n previous ≡ false
falls-Below n next none le below = refl
falls-Below n next (some p) le below = le→ltb _ _ (omega arith)

check_entries_end :
    (context : List Candle) (i : ℕ) (previous : Option ℕ)
    → check_entries context i previous [] [] ≡ ok tt
unfolding check_entries
check_entries_end context i previous = refl

-- One entry of the computed mapping passes the tests on it.
check_entry :
    (context : List Candle) (i n next : ℕ) (previous : Option ℕ) (e : Candle) (es : List Candle)
    (ms : List (Option ℕ))
    → next ≤ n
    → n ≤ length context
    → Below previous next
    → Closed context e.close_time n
    → ((now : Option ℕ) → Below now n → check_entries context (i + 1) now es ms ≡ ok tt)
    → check_entries context i previous (e ∷ es) (entry n ∷ ms) ≡ ok tt
unfolding check_entries
check_entry context i zero next none e es ms le bound below closed rest = rest none tt
check_entry context i zero next (some p) e es ms le bound below closed rest = absurd (omega arith)
check_entry context i (suc n) next previous e es ms le bound below closed rest =
    let (c, found) = get_elem?-some context n (omega arith) in
    let before = closed n c (omega arith) found in
    rw (found, check_entries)
      (rw (falls-Below n next previous (omega arith) below, le→ltb _ _ before)
        (rest (some n) (omega arith)))

check_mapping :
    (etf : Timeframe) (te i next : ℕ) (previous : Option ℕ) (execution context : List Candle)
    → IsGrid etf te execution
    → next ≤ length context
    → Below previous next
    → Closed context (expected_close te etf) next
    → check_entries context i previous execution (mapping_from context next execution) ≡ ok tt
unfolding mapping_from
check_mapping etf te i next previous [] context g le below closed =
    check_entries_end context i previous
check_mapping etf te i next previous (e ∷ es) context g le below closed =
    let d = e.close_time in
    let same : expected_close te etf ≤ d = omega (arith, g.1) in
    let now : Closed context d next = Closed-later context _ d next same closed in
    let n = advance (length context) context d next in
    let (up, bound, done, _) = advance_lem (length context) context d next (omega arith) le now in
    check_entry context i n next previous e es (mapping_from context n es) up bound below done
      (λ p low.
        check_mapping etf (te + timeframe_duration etf) (i + 1) n p es context g.2 bound low
          (Closed-later context d _ n (omega (arith, g.1)) done))

length-mapping_from :
    (context : List Candle) (next : ℕ) (execution : List Candle)
    → length (mapping_from context next execution) ≡ length execution
unfolding mapping_from
length-mapping_from context next [] = refl
length-mapping_from context next (e ∷ es) =
    ap suc (length-mapping_from context (advance (length context) context e.close_time next) es)

same_mapping_refl : (m : List (Option ℕ)) → same_mapping m m ≡ true
same_mapping_refl [] = refl
same_mapping_refl (none ∷ m) = same_mapping_refl m
same_mapping_refl (some i ∷ m) = rw (==_self i) (same_mapping_refl m)

-- The assertion on the mapping never fails on the mapping that the module computes.
mapping_bound :
    (etf : Timeframe) (te : ℕ) (execution context : List Candle)
    → IsGrid etf te execution
    → let m = compute_no_lookahead_mapping execution context in
      assert_mapping_bound_to_candles execution context m ≡ ok m
unfolding assert_mapping_bound_to_candles compute_no_lookahead_mapping
mapping_bound etf te execution context g =
    let m = mapping_from context 0 execution in
    rw (length-mapping_from context 0 execution, ==_self (length execution))
      (rw
        (check_mapping etf te 0 0 none execution context g (omega arith) tt
          (λ k c lt found. absurd (omega arith)))
        (rw (same_mapping_refl m)))

-- Two series that the validator accepts, at timeframes that have a plan, are always aligned, with
-- the mapping that the two-pointer loop computes.
pub from_candles_total :
    (hash : List Candle → String) (digest : Payload → String) (symbol : String)
    (etf ctf : Timeframe) {plan : TimeframeDerivationPlan} (e : Candle) (es : List Candle)
    (context : List Candle)
    → derive_timeframe_plan etf ctf ≡ ok plan
    → require_canonical_series etf (e ∷ es) ≡ ok (e ∷ es)
    → require_canonical_series ctf context ≡ ok context
    → from_candles hash digest symbol etf ctf (e ∷ es) context
      ≡ ok (
          alignment_of hash digest symbol etf ctf
            (e ∷ es)
            context
            (compute_no_lookahead_mapping (e ∷ es) context))
unfolding from_candles require_derivable_pair
from_candles_total hash digest symbol etf ctf e es context p he hc =
    let (_, _, grid) = require_canonical_series-IsGrid etf e es he in
    rw (p, (require_gap_free_series_iff etf (e ∷ es) (e ∷ es)).1 he)
      (rw ((require_gap_free_series_iff ctf context context).1 hc)
        (rw (mapping_bound etf e.open_time (e ∷ es) context grid)))
