-- ===== src/Indicators/Warmup.antt =====
-- The warm-up of the calculators of src/zorqen_research/application/indicators/: how many values they
-- return, and which of them are defined.
pub mod Sign
pub mod Accepted
pub mod Total
use zorqen_research.Base.{
  ℕ, zero, suc, ◌+◌, ◌-◌, ◌≤◌, ◌<◌, ◌≡◌, refl, ap, sym, subst, ◌∙◌, Bool, true, false, ltb, leb,
  ◌==◌, Option, none, some, List, [], ◌∷◌, ◌++◌, length, map, take, drop, replicate, arith,
  length-take, length-replicate, le→ltb, lt→ltb, Bool-cases, inl, inr, if◌then◌else◌,
}
use native.Mathlib.Decide.{dec_lt, dec_le}
use zorqen_research.Decimal.{Decimal, Context}
use zorqen_research.Indicators.Extrema.{
  Item, pop_back, pop_front, keep, front, rolling_from, rolling_extrema,
}
use zorqen_research.Indicators.Prior.{prior_extrema}
use zorqen_research.Indicators.Prior.Shifted.{
  rolling_warm, rolling_full, pop_front-push, rolling_extrema_short, rolling_extrema_long,
  prior_extrema-rolling_extrema,
}
use zorqen_research.Indicators.Assembly.{any_defined, any_undefined}
use zorqen_research.Indicators.Calculators.{recur, seeded_values}
use zorqen_research.Indicators.Causal.{
  take-take, drop-take, length-map, seeded_values_one, seeded_values_short, seeded_values_long,
}
use zorqen_research.Indicators.Causal.Checked.{any_defined-take, any_undefined-take}

-- `n` values of which the first `p` are undefined, and the others defined.
pub record IsWarm (p n : ℕ) (values : List (Option Decimal)) : Type 0 where
  pub counted : length values ≡ n
  pub undefined : any_defined (take p values) ≡ false
  pub defined : any_undefined (drop p values) ≡ false

-- A period of bars, less one.
abbrev pub warm_up : ℕ → ℕ → ℕ
warm_up period n = if ltb n period then n else period - 1

none-IsWarm :
    (p n : ℕ) (vs : List (Option Decimal)) → IsWarm p n vs → IsWarm (suc p) (suc n) (none ∷ vs)
none-IsWarm p n vs w = record {
  counted = ap suc w.counted;
  undefined = w.undefined;
  defined = w.defined;
}

some-IsWarm :
    (n : ℕ) (v : Decimal) (vs : List (Option Decimal))
    → IsWarm 0 n vs
    → IsWarm 0 (suc n) (some v ∷ vs)
some-IsWarm n v vs w = record { counted = ap suc w.counted; undefined = refl; defined = w.defined }

nothing-IsWarm : (n : ℕ) → IsWarm n n (replicate n none)
nothing-IsWarm zero = record { counted = refl; undefined = refl; defined = refl }
nothing-IsWarm (suc n) = none-IsWarm n n (replicate n none) (nothing-IsWarm n)

append-IsWarm :
    (p n : ℕ) (vs : List (Option Decimal))
    → IsWarm 0 n vs
    → IsWarm p (p + n) (replicate p none ++ vs)
append-IsWarm zero n vs w =
    let e : n ≡ 0 + n = omega arith in
    record { counted = w.counted ∙ e; undefined = refl; defined = w.defined }
append-IsWarm (suc p) n vs w =
    let e : suc (p + n) ≡ suc p + n = omega arith in
    subst (λ (m : ℕ). IsWarm (suc p) m (none ∷ replicate p none ++ vs)) e
      (none-IsWarm p (p + n) (replicate p none ++ vs) (append-IsWarm p n vs w))

pub map-some-IsWarm : (vs : List Decimal) → IsWarm 0 (length vs) (map some vs)
map-some-IsWarm [] = record { counted = refl; undefined = refl; defined = refl }
map-some-IsWarm (v ∷ vs) = some-IsWarm (length vs) v (map some vs) (map-some-IsWarm vs)

recur-IsWarm :
    (next : Decimal → Decimal → Decimal) (previous : Decimal) (vs : List Decimal)
    → IsWarm 0 (length vs) (recur next previous vs)
unfolding recur
recur-IsWarm next previous [] = record { counted = refl; undefined = refl; defined = refl }
recur-IsWarm next previous (v ∷ vs) =
    some-IsWarm (length vs) (next previous v) (recur next (next previous v) vs)
      (recur-IsWarm next (next previous v) vs)

length-drop : {A : Type 0} (k : ℕ) (xs : List A) → length (drop k xs) ≡ length xs - k
length-drop zero xs = omega arith
length-drop (suc k) [] = omega arith
length-drop (suc k) (x ∷ xs) = length-drop k xs ∙ omega arith

pub IsWarm-eq :
    {p p' n n' : ℕ} {vs vs' : List (Option Decimal)}
    → p ≡ p'
    → n ≡ n'
    → vs ≡ vs'
    → IsWarm p n vs
    → IsWarm p' n' vs'
IsWarm-eq {p} {p'} {n} {n'} {vs} e f g w =
    subst (λ xs. IsWarm p' n' xs) g
      (subst (λ (m : ℕ). IsWarm p' m vs) f (subst (λ (q : ℕ). IsWarm q n vs) e w))

pub seeded_values-IsWarm :
    (ctx : Context) (next : Decimal → Decimal → Decimal) (period : ℕ) (vs : List Decimal)
    → 0 < period
    → IsWarm (warm_up period (length vs)) (length vs) (seeded_values ctx next period vs)
seeded_values-IsWarm ctx next period vs pos = elim (Bool-cases (period == 1)) [
  | inl one ↦
      IsWarm-eq (ground arith) refl (sym (seeded_values_one ctx next period vs one))
        (map-some-IsWarm vs)
  | inr other ↦ elim (dec_lt (length vs) period) [
    | yes short ↦
        IsWarm-eq (ground arith) refl (sym (seeded_values_short ctx next period vs other short))
          (nothing-IsWarm (length vs))
    | no long ↦
        IsWarm-eq (ground arith) (omega (arith, length-drop period vs))
          (sym (seeded_values_long ctx next period vs other (omega arith)))
          (append-IsWarm (period - 1) (suc (length (drop period vs))) _
            (some-IsWarm _ _ _ (recur-IsWarm next _ (drop period vs))))
  ]
]

nil-IsWarm : (p : ℕ) → IsWarm p 0 []
nil-IsWarm zero = record { counted = refl; undefined = refl; defined = refl }
nil-IsWarm (suc p) = record { counted = refl; undefined = refl; defined = refl }

-- One bar later, and cut to the same number of values.
later-IsWarm :
    (p n q : ℕ) (vs : List (Option Decimal))
    → (q ≤ p + 1) × (q ≤ n) × (q < p + 1 → q ≡ n)
    → IsWarm p n vs
    → IsWarm q n (take n (none ∷ vs))
later-IsWarm p n zero vs (_, _, whole) w =
    let e : 0 ≡ n = whole (omega arith) in
    IsWarm-eq refl e (ap (λ (m : ℕ). take m (none ∷ vs)) e) (nil-IsWarm 0)
later-IsWarm p zero (suc j) vs (_, fits, _) w = absurd (omega arith)
later-IsWarm p (suc m) (suc j) vs (near, fits, whole) w =
    let size : length (take m vs) ≡ m = omega (arith, length-take m vs, w.counted) in
    none-IsWarm j m (take m vs) (record {
      counted = size;
      undefined =
          ap any_defined (take-take j m vs (omega arith) ∙ sym (take-take j p vs (omega arith)))
          ∙ any_defined-take j (take p vs) w.undefined;
      defined = ap any_undefined (drop-take j m vs) ∙ behind (dec_lt j p);
    })
  where
    behind : Dec (j < p) → any_undefined (take (m - j) (drop j vs)) ≡ false
    behind (yes early) =
        let cut : m - j ≡ 0 = omega (arith, whole (omega arith)) in
        ap (λ (k : ℕ). any_undefined (take k (drop j vs))) cut
    behind (no late) =
        let same : j ≡ p = omega arith in
        any_undefined-take (m - j) (drop j vs)
          (ap (λ (k : ℕ). any_undefined (drop k vs)) same ∙ w.defined)

module _ (below : Decimal → Decimal → Bool) where
  front-some : (x : Item) (w : List Item) → (v : Decimal) × (front below (x ∷ w) ≡ some v)
  front-some x [] = (x.1, refl)
  front-some x (y ∷ w) = front-some y w

  rolling_from-IsWarm :
      (period index : ℕ) (w : List Item) (vs : List Decimal)
      → 0 < period
      → IsWarm (period - 1 - index) (length vs) (rolling_from below period index w vs)
  unfolding rolling_from
  rolling_from-IsWarm period index w [] pos = nil-IsWarm (period - 1 - index)
  rolling_from-IsWarm period index w (v ∷ vs) pos = elim (dec_lt (index + 1) period) [
    | yes warming ↦
        IsWarm-eq (omega (arith, warming)) refl
          (sym (rolling_warm below period index w v vs warming))
          (none-IsWarm _ _ _
            (rolling_from-IsWarm period (index + 1) ((index, v) ∷ pop_back below v w) vs pos))
    | no late ↦
        let left = index + 1 - period in
        let kept = pop_front below left ((index, v) ∷ pop_back below v w) in
        let (x, fronted) = front-some (index, v) (pop_front below left (pop_back below v w)) in
        let in_front : front below kept ≡ some x =
          ap (λ z. front below z)
            (pop_front-push below left index v (pop_back below v w) (omega arith))
          ∙ fronted in
        let rest = rolling_from-IsWarm period (index + 1) kept vs pos in
        let later : period - 1 - (index + 1) ≡ 0 = omega arith in
        let now : 0 ≡ period - 1 - index = omega arith in
        IsWarm-eq now refl
          (sym (
            rolling_full below period index w v vs (omega arith)
            ∙ ap (λ y. y ∷ rolling_from below period (index + 1) kept vs) in_front))
          (some-IsWarm _ x _ (IsWarm-eq later refl refl rest))
  ]

  pub rolling_extrema-IsWarm :
      (vs : List Decimal) (period : ℕ)
      → 0 < period
      → IsWarm (warm_up period (length vs)) (length vs) (rolling_extrema below vs period)
  rolling_extrema-IsWarm vs period pos = elim (dec_lt (length vs) period) [
    | yes short ↦
        IsWarm-eq (ground arith) refl (sym (rolling_extrema_short below vs period short))
          (nothing-IsWarm (length vs))
    | no long ↦
        let start : period - 1 - 0 ≡ warm_up period (length vs) = ground arith in
        IsWarm-eq start refl (sym (rolling_extrema_long below vs period (omega arith)))
          (rolling_from-IsWarm period 0 [] vs pos)
  ]

  pub prior_extrema-IsWarm :
      (vs : List Decimal) (period : ℕ)
      → 0 < period
      → IsWarm
          (if leb (length vs) period then length vs else period)
          (length vs)
          (prior_extrema below vs period)
  prior_extrema-IsWarm vs period pos =
      IsWarm-eq least refl (sym (prior_extrema-rolling_extrema below vs period pos)) (
        later-IsWarm (warm_up period n) n q (rolling_extrema below vs period) bound
          (rolling_extrema-IsWarm vs period pos))
    where
      n : ℕ
      n = length vs

      q : ℕ
      q = if ltb (warm_up period n + 1) n then warm_up period n + 1 else n

      least : q ≡ (if leb n period then n else period)
      least = ground arith

      bound : (q ≤ warm_up period n + 1) × (q ≤ n) × (q < warm_up period n + 1 → q ≡ n)
      bound = (ground arith, ground arith, λ h. ground (arith, h))
