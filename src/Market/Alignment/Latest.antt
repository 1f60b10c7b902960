-- ===== src/Market/Alignment/Latest.antt =====
-- The mapping of `_compute_no_lookahead_mapping` against the close times of the context.
use zorqen_research.Base.{
  ℕ, zero, suc, ◌+◌, ◌*◌, ◌≤◌, ◌<◌, ◌≡◌, refl, ap, false, Option, none, some, List, [], ◌∷◌, arith,
  length, get_elem?, leb,
}
use native.Mathlib.Decide.{dec_lt}
use native.Mathlib.Nat.{mul-le-mul_right}
use zorqen_research.Time.{Timeframe, timeframe_duration}
use zorqen_research.Market.Candle.{Candle}
use zorqen_research.Market.Series.{expected_close}
use zorqen_research.Market.Series.Grid.{IsGrid}
use zorqen_research.Market.Alignment.{
  more, advance, entry, mapping_from, compute_no_lookahead_mapping,
}
use zorqen_research.Market.Alignment.Pointer.{Closed, advance_lem, get_elem?-lt}

-- The index that an entry of the mapping reaches.
abbrev pub Reaches : Option ℕ → ℕ → Type 0
Reaches none k = ⊥
Reaches (some j) k = k ≤ j

-- A context candle is within the entry exactly when it has closed by the decision.
pub record IsLatest (context : List Candle) (decision : ℕ) (m : Option ℕ) : Type 0 where
  pub no_lookahead :
      (k : ℕ) (c : Candle) → get_elem? context k ≡ some c → Reaches m k → c.close_time ≤ decision
  pub latest :
      (k : ℕ) (c : Candle) → get_elem? context k ≡ some c → c.close_time ≤ decision → Reaches m k
  pub in_range : (j : ℕ) → m ≡ some j → j < length context

-- An entry for each execution candle, and a relation between the two.
abbrev pub ForEach : (Candle → Option ℕ → Type 0) → List Candle → List (Option ℕ) → Type 0
ForEach R [] [] = Unit
ForEach R (e ∷ es) (m ∷ ms) = R e m × ForEach R es ms
ForEach R _ _ = ⊥

pub grid_close :
    (tf : Timeframe) (t k : ℕ) (cs : List Candle) (c : Candle)
    → IsGrid tf t cs
    → get_elem? cs k ≡ some c
    → c.close_time ≡ expected_close (t + k * timeframe_duration tf) tf
grid_close tf t k [] c g e = cc
grid_close tf t zero (x ∷ cs) c g e =
    let same : x ≡ c = cc in omega (arith, ap (λ (b : Candle). b.close_time) same, g.1)
grid_close tf t (suc k) (x ∷ cs) c g e =
    omega (arith, grid_close tf (t + timeframe_duration tf) k cs c g.2 e)

entry-Reaches : (n k : ℕ) → k < n → Reaches (entry n) k
entry-Reaches zero k h = elim h [ ]
entry-Reaches (suc n) k h = omega arith

Reaches-entry : (n k : ℕ) → Reaches (entry n) k → k < n
Reaches-entry zero k h = elim h [ ]
Reaches-entry (suc n) k h = omega arith

entry-lt : (n j len : ℕ) → n ≤ len → entry n ≡ some j → j < len
entry-lt zero j len h e = cc
entry-lt (suc n) j len h e = ground arith

pub get_elem?-some {ℓ} :
    {A : Type ℓ} (xs : List A) (i : ℕ) → i < length xs → (x : A) × (get_elem? xs i ≡ some x)
get_elem?-some [] i h = elim h [ ]
get_elem?-some (x ∷ xs) zero h = (x, refl)
get_elem?-some (x ∷ xs) (suc i) h = get_elem?-some xs i (omega arith)

not-leb : {a b : ℕ} → a ≤ b → leb a b ≡ false → ⊥
not-leb {a} {b} le h = ground arith

-- Where no further candle has closed, every candle from there on is open.
stopped :
    (tf : Timeframe) (t d n k : ℕ) (context : List Candle) (c : Candle)
    → IsGrid tf t context
    → more context d n ≡ false
    → get_elem? context k ≡ some c
    → n ≤ k
    → c.close_time ≤ d
    → ⊥
unfolding more
stopped tf t d n k context c g stop found le before =
    let (b, there) = get_elem?-some context n (omega (arith, get_elem?-lt context k found)) in
    let open_at : leb b.close_time d ≡ false = rw there at stop in
    let later = mul-le-mul_right (timeframe_duration tf) le in
    not-leb
      (omega
        (arith, grid_close tf t n context b g there, grid_close tf t k context c g found, later))
      open_at

pub advance-IsLatest :
    (tf : Timeframe) (t d next : ℕ) (context : List Candle)
    → IsGrid tf t context
    → next ≤ length context
    → Closed context d next
    → IsLatest context d (entry (advance (length context) context d next))
advance-IsLatest tf t d next context g le closed =
    let n = advance (length context) context d next in
    let (_, bound, done, stop) =
      advance_lem (length context) context d next (omega arith) le closed in
    record {
      no_lookahead = λ k c found r. done k c (Reaches-entry n k r) found;
      latest = λ k c found before. elim (dec_lt k n) [
        | yes lt ↦ entry-Reaches n k lt
        | no ge ↦ absurd (stopped tf t d n k context c g stop found (omega arith) before)
      ];
      in_range = λ j e. entry-lt n j (length context) bound e;
    }

pub Closed-later :
    (context : List Candle) (d d' next : ℕ)
    → d ≤ d'
    → Closed context d next
    → Closed context d' next
Closed-later context d d' next le closed k c lt found = omega (arith, closed k c lt found)

mapping_from-IsLatest :
    (etf ctf : Timeframe) (te tc next : ℕ) (execution context : List Candle)
    → IsGrid etf te execution
    → IsGrid ctf tc context
    → next ≤ length context
    → Closed context (expected_close te etf) next
    → ForEach
        (λ e m. IsLatest context e.close_time m)
        execution
        (mapping_from context next execution)
unfolding mapping_from
mapping_from-IsLatest etf ctf te tc next [] context ge gc le closed = tt
mapping_from-IsLatest etf ctf te tc next (e ∷ es) context ge gc le closed =
    let d = e.close_time in
    let now : Closed context d next = Closed-later context _ d next (omega (arith, ge.1)) closed in
    let n = advance (length context) context d next in
    let (_, bound, done, _) = advance_lem (length context) context d next (omega arith) le now in
    (
      advance-IsLatest ctf tc d next context gc le now,
      mapping_from-IsLatest etf ctf (te + timeframe_duration etf) tc n es context ge.2 gc bound
          (Closed-later context d _ n (omega (arith, ge.1)) done),
    )

-- For two gap-free series every execution candle is mapped to the latest context candle that has
-- closed by its own close, and to none where there is no such candle: no decision sees a context
-- candle that is still open, and none sees an older candle than it could.
pub compute_no_lookahead_mapping-IsLatest :
    (etf ctf : Timeframe) (te tc : ℕ) (execution context : List Candle)
    → IsGrid etf te execution
    → IsGrid ctf tc context
    → ForEach
        (λ e m. IsLatest context e.close_time m)
        execution
        (compute_no_lookahead_mapping execution context)
unfolding compute_no_lookahead_mapping
compute_no_lookahead_mapping-IsLatest etf ctf te tc execution context ge gc =
    mapping_from-IsLatest etf ctf te tc 0 execution context ge gc (omega arith)
      (λ k c lt found. absurd (omega arith))
