-- ===== src/Market/Alignment/Pointer.antt =====
-- The pointer of `_compute_no_lookahead_mapping` in
-- src/zorqen_research/domain/market_data/alignment.py.
use zorqen_research.Base.{
  ℕ, zero, suc, ◌+◌, ◌≤◌, ◌<◌, ◌≡◌, refl, true, false, Bool-cases, inl, inr, none, some, List, [],
  ◌∷◌, arith, length, get_elem?, leb→le, Option, Option-cases, sym, ◌∙◌,
}
use native.Mathlib.Decide.{ℕ_discrete}
use zorqen_research.Market.Candle.{Candle}
use zorqen_research.Market.Alignment.{closed_by, more, advance}

pub get_elem?-lt {ℓ} :
    {A : Type ℓ} (xs : List A) (i : ℕ) {x : A} → get_elem? xs i ≡ some x → i < length xs
get_elem?-lt [] i h = cc
get_elem?-lt (x ∷ xs) zero h = omega arith
get_elem?-lt (x ∷ xs) (suc i) h = omega (arith, get_elem?-lt xs i h)

-- The first `next` candles have closed by `decision`.
abbrev pub Closed : List Candle → ℕ → ℕ → Type 0
Closed context decision next =
    (k : ℕ) (c : Candle) → k < next → get_elem? context k ≡ some c → c.close_time ≤ decision

closed_by-eq-true :
    (d : ℕ) (o : Option Candle)
    → closed_by d o ≡ true
    → (c : Candle) × (o ≡ some c) × (c.close_time ≤ d)
closed_by-eq-true d none h = cc
closed_by-eq-true d (some c) h = (c, refl, leb→le _ _ h)

pub more-eq-true :
    (context : List Candle) (d next : ℕ)
    → more context d next ≡ true
    → (c : Candle) × (get_elem? context next ≡ some c) × (c.close_time ≤ d)
unfolding more
more-eq-true context d next h = closed_by-eq-true d (get_elem? context next) h

-- Past the end there is no more.
more_past_end :
    (context : List Candle) (d next : ℕ) → length context ≤ next → more context d next ≡ false
unfolding more
more_past_end context d next h = elim (Option-cases (get_elem? context next)) [
  | inl e ↦ rw e
  | inr (c, e) ↦ absurd (omega (arith, get_elem?-lt context next e))
]

advance-more :
    (fuel : ℕ) (context : List Candle) (d next : ℕ)
    → more context d next ≡ true
    → advance (suc fuel) context d next ≡ advance fuel context d (next + 1)
unfolding advance
advance-more fuel context d next h = rw (h, advance)

advance_stop :
    (fuel : ℕ) (context : List Candle) (d next : ℕ)
    → more context d next ≡ false
    → advance (suc fuel) context d next ≡ next
unfolding advance
advance_stop fuel context d next h = rw (h, advance)

some_eq {ℓ} : {A : Type ℓ} {x y : A} → some x ≡ some y → x ≡ y
some_eq e = cc

Closed-next :
    (context : List Candle) (d next : ℕ) (c : Candle)
    → get_elem? context next ≡ some c
    → c.close_time ≤ d
    → Closed context d next
    → Closed context d (next + 1)
Closed-next context d next c e le closed k b lt f = elim (ℕ_discrete k next) [
  | yes same ↦
      let g : get_elem? context next ≡ some b = rw same at f in
      let eq : c ≡ b = some_eq (sym e ∙ g) in rw (← eq) le
  | no other ↦ closed k b (omega arith) f
]

-- The loop keeps to closed candles, never moves back, and with enough fuel stops only where no
-- further candle has closed.
pub advance_lem :
    (fuel : ℕ) (context : List Candle) (d next : ℕ)
    → length context ≤ fuel + next
    → next ≤ length context
    → Closed context d next
    → let n = advance fuel context d next in
      (next ≤ n) × (n ≤ length context) × Closed context d n × (more context d n ≡ false)
unfolding advance
advance_lem zero context d next enough le closed =
    (omega arith, le, closed, more_past_end context d next (omega arith))
advance_lem (suc fuel) context d next enough le closed = elim (Bool-cases (more context d next)) [
  | inl more_left ↦
      let (c, found, before) = more-eq-true context d next more_left in
      let ih =
        advance_lem fuel context d (next + 1) (omega arith)
          (omega (arith, get_elem?-lt context next found))
          (Closed-next context d next c found before closed) in
      rw (advance-more fuel context d next more_left) (omega (arith, ih.0), ih.1, ih.2, ih.3)
  | inr stop ↦ rw (advance_stop fuel context d next stop) (omega arith, le, closed, stop)
]
