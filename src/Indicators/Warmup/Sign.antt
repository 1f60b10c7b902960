-- ===== src/Indicators/Warmup/Sign.antt =====
-- The signs of the true ranges and of their averages.
use zorqen_research.Base.{
  ℕ, zero, suc, ◌-◌, ◌≡◌, refl, sym, subst, false, ◌==◌, none, some, List, [], ◌∷◌, ◌++◌, Option,
  length, map, take, drop, replicate, All, arith, Bool-cases, inl, inr,
}
use native.Mathlib.Decide.{dec_lt}
use zorqen_research.Decimal.{Decimal, Context, is_negative, of_ℕ, nought, add}
use zorqen_research.Decimal.Sign.{add_nonneg, abs_nonneg, mul_nonneg, div_nonneg, sub_nonneg}
use zorqen_research.Market.Candle.{Candle}
use zorqen_research.Market.Candle.Invariant.{IsCandle}
use zorqen_research.Indicators.Assembly.{below_nought}
use zorqen_research.Indicators.Calculators.{
  greater, true_range_of, true_ranges_from, true_range_values, sum_of, recur, seeded_values,
  atr_next,
}
use zorqen_research.Indicators.Causal.{seeded_values_one, seeded_values_short, seeded_values_long}

abbrev pub IsNonnegative : Decimal → Type 0
IsNonnegative v = is_negative v ≡ false

greater_nonneg : (a b : Decimal) → IsNonnegative a → IsNonnegative b → IsNonnegative (greater a b)
greater_nonneg a b p q = ground arith

true_range_of_nonneg :
    (ctx : Context) (previous : Decimal) (c : Candle)
    → IsCandle c
    → IsNonnegative (true_range_of ctx previous c)
unfolding true_range_of
true_range_of_nonneg ctx previous c v =
    greater_nonneg _ _
      (greater_nonneg _ _ (sub_nonneg ctx c.high c.low v.low-le-high) (abs_nonneg ctx _))
      (abs_nonneg ctx _)

true_ranges_from_nonneg :
    (ctx : Context) (previous : Decimal) (cs : List Candle)
    → All IsCandle cs
    → All IsNonnegative (true_ranges_from ctx previous cs)
unfolding true_ranges_from
true_ranges_from_nonneg ctx previous [] v = tt
true_ranges_from_nonneg ctx previous (c ∷ cs) (v, vs) =
    (true_range_of_nonneg ctx previous c v, true_ranges_from_nonneg ctx c.close cs vs)

pub true_range_values_nonneg :
    (ctx : Context) (cs : List Candle)
    → All IsCandle cs
    → All IsNonnegative (true_range_values ctx cs)
unfolding true_range_values
true_range_values_nonneg ctx [] v = tt
true_range_values_nonneg ctx (c ∷ cs) (v, vs) =
    (sub_nonneg ctx c.high c.low v.low-le-high, true_ranges_from_nonneg ctx c.close cs vs)

sum_of_nonneg :
    (ctx : Context) (total : Decimal) (vs : List Decimal)
    → IsNonnegative total
    → All IsNonnegative vs
    → IsNonnegative (sum_of ctx total vs)
unfolding sum_of
sum_of_nonneg ctx total [] p q = p
sum_of_nonneg ctx total (v ∷ vs) p (q, qs) =
    sum_of_nonneg ctx (add ctx total v) vs (add_nonneg ctx total v p q) qs

of_ℕ_nonneg : (n : ℕ) → IsNonnegative (of_ℕ n)
unfolding is_negative
of_ℕ_nonneg n = ground arith

-- No value that is defined is below zero.
abbrev pub AreNonnegative : List (Option Decimal) → Type 0
AreNonnegative vs = All (λ v. below_nought v ≡ false) vs

pub map-some-AreNonnegative :
    (vs : List Decimal) → All IsNonnegative vs → AreNonnegative (map some vs)
map-some-AreNonnegative [] p = tt
map-some-AreNonnegative (v ∷ vs) (p, ps) = (p, map-some-AreNonnegative vs ps)

append-AreNonnegative :
    (n : ℕ) (vs : List (Option Decimal))
    → AreNonnegative vs
    → AreNonnegative (replicate n none ++ vs)
append-AreNonnegative zero vs p = p
append-AreNonnegative (suc n) vs p = (refl, append-AreNonnegative n vs p)

nothing-AreNonnegative : (n : ℕ) → AreNonnegative (replicate n none)
nothing-AreNonnegative zero = tt
nothing-AreNonnegative (suc n) = (refl, nothing-AreNonnegative n)

All-take : {A : Type 0} (P : A → Type 0) (k : ℕ) (xs : List A) → All P xs → All P (take k xs)
All-take P zero xs p = tt
All-take P (suc k) [] p = tt
All-take P (suc k) (x ∷ xs) (p, ps) = (p, All-take P k xs ps)

All-drop : {A : Type 0} (P : A → Type 0) (k : ℕ) (xs : List A) → All P xs → All P (drop k xs)
All-drop P zero xs p = p
All-drop P (suc k) [] p = tt
All-drop P (suc k) (x ∷ xs) (p, ps) = All-drop P k xs ps

module _ (ctx : Context) (period : ℕ) where
  atr_next_nonneg :
      (atr tr : Decimal)
      → IsNonnegative atr
      → IsNonnegative tr
      → IsNonnegative (atr_next ctx period atr tr)
  unfolding atr_next
  atr_next_nonneg atr tr p q =
      div_nonneg ctx _ _ (add_nonneg ctx _ _ (mul_nonneg ctx _ _ p (of_ℕ_nonneg (period - 1))) q)
        (of_ℕ_nonneg period)

  recur_nonneg :
      (previous : Decimal) (vs : List Decimal)
      → IsNonnegative previous
      → All IsNonnegative vs
      → AreNonnegative (recur (atr_next ctx period) previous vs)
  unfolding recur
  recur_nonneg previous [] p q = tt
  recur_nonneg previous (v ∷ vs) p (q, qs) =
      let r = atr_next_nonneg previous v p q in
      (r, recur_nonneg (atr_next ctx period previous v) vs r qs)

  pub seeded_values-AreNonnegative :
      (vs : List Decimal)
      → All IsNonnegative vs
      → AreNonnegative (seeded_values ctx (atr_next ctx period) period vs)
  seeded_values-AreNonnegative vs p = elim (Bool-cases (period == 1)) [
    | inl one ↦
        subst AreNonnegative (sym (seeded_values_one ctx (atr_next ctx period) period vs one))
          (map-some-AreNonnegative vs p)
    | inr other ↦ elim (dec_lt (length vs) period) [
      | yes short ↦
          subst AreNonnegative
            (sym (seeded_values_short ctx (atr_next ctx period) period vs other short))
            (nothing-AreNonnegative (length vs))
      | no long ↦
          let seed_nonneg =
            div_nonneg ctx _ _
              (sum_of_nonneg ctx nought (take period vs) (of_ℕ_nonneg 0)
                (All-take IsNonnegative period vs p))
              (of_ℕ_nonneg period) in
          subst AreNonnegative
            (sym (seeded_values_long ctx (atr_next ctx period) period vs other (omega arith)))
            (append-AreNonnegative (period - 1) _ (
              seed_nonneg,
              recur_nonneg _ (drop period vs) seed_nonneg (All-drop IsNonnegative period vs p),
            ))
    ]
  ]
