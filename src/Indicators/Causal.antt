-- ===== src/Indicators/Causal.antt =====
-- The calculators of src/zorqen_research/application/indicators/ on a series and on its beginning.
pub mod Checked
pub mod Recalculated
mod Tests
use zorqen_research.Base.{
  ℕ, zero, suc, ◌+◌, ◌-◌, ◌≤◌, ◌<◌, ◌≡◌, refl, ap, sym, subst, ◌∙◌, Bool, true, false, ltb, leb,
  ◌==◌, Option, none, some, List, [], ◌∷◌, ◌++◌, length, map, take, drop, replicate, arith,
  length-take, length-replicate, le→ltb, lt→ltb, Bool-cases, inl, inr, if◌then◌else◌, ==_iff,
}
use native.Mathlib.Decide.{dec_lt}
use zorqen_research.Decimal.{Decimal, Context, nought, of_ℕ, le, sub, div}
use zorqen_research.Market.Candle.{Candle}
use zorqen_research.Indicators.Extrema.{Item, pop_back, rolling_from, rolling_extrema}
use zorqen_research.Indicators.Prior.{prior_extrema}
use zorqen_research.Indicators.Prior.Shifted.{
  rolling_warm, take-rolling_from, rolling_extrema_short, rolling_extrema_long,
  prior_extrema-rolling_extrema, take-replicate_append,
}
use zorqen_research.Indicators.Input.{
  IndicatorCode, ema_close, true_range, wilder_atr, rolling_highest, rolling_lowest,
  prior_rolling_highest, prior_rolling_lowest, indicator_context,
}
use zorqen_research.Indicators.Calculators.{
  true_ranges_from, true_range_of, true_range_values, sum_of, recur, seeded_values, ema_next,
  atr_next, calculated_values, close_of, high_of, low_of, ge,
}

module _ {A B : Type 0} where
  pub take-map : (f : A → B) (k : ℕ) (xs : List A) → take k (map f xs) ≡ map f (take k xs)
  take-map f zero xs = refl
  take-map f (suc k) [] = refl
  take-map f (suc k) (x ∷ xs) = ap (λ ys. f x ∷ ys) (take-map f k xs)

module _ {A : Type 0} where
  pub take-take : (j k : ℕ) (xs : List A) → j ≤ k → take j (take k xs) ≡ take j xs
  take-take zero k xs h = refl
  take-take (suc j) zero xs h = absurd (omega arith)
  take-take (suc j) (suc k) [] h = refl
  take-take (suc j) (suc k) (x ∷ xs) h = ap (λ ys. x ∷ ys) (take-take j k xs (omega arith))

  take-nothing : (k : ℕ) → ◌≡◌ {A = List A} (take k []) []
  take-nothing zero = refl
  take-nothing (suc k) = refl

  pub drop-take : (j k : ℕ) (xs : List A) → drop j (take k xs) ≡ take (k - j) (drop j xs)
  drop-take zero k xs = let e : k ≡ k - 0 = omega arith in ap (λ (n : ℕ). take n xs) e
  drop-take (suc j) zero xs =
      let e : 0 ≡ 0 - suc j = omega arith in ap (λ (n : ℕ). take n (drop (suc j) xs)) e
  drop-take (suc j) (suc k) [] = sym (take-nothing (suc k - suc j))
  drop-take (suc j) (suc k) (x ∷ xs) =
      let e : k - j ≡ suc k - suc j = omega arith in
      drop-take j k xs ∙ ap (λ (n : ℕ). take n (drop j xs)) e

  take-replicate : (k n : ℕ) (a : A) → k ≤ n → take k (replicate n a) ≡ replicate k a
  take-replicate zero n a h = refl
  take-replicate (suc k) zero a h = absurd (omega arith)
  take-replicate (suc k) (suc n) a h = ap (λ ys. a ∷ ys) (take-replicate k n a (omega arith))

  take_within_replicate :
      (k n : ℕ) (a : A) (ys : List A) → k ≤ n → take k (replicate n a ++ ys) ≡ replicate k a
  take_within_replicate zero n a ys h = refl
  take_within_replicate (suc k) zero a ys h = absurd (omega arith)
  take_within_replicate (suc k) (suc n) a ys h =
      ap (λ zs. a ∷ zs) (take_within_replicate k n a ys (omega arith))

take-recur :
    (next : Decimal → Decimal → Decimal) (previous : Decimal) (k : ℕ) (vs : List Decimal)
    → take k (recur next previous vs) ≡ recur next previous (take k vs)
unfolding recur
take-recur next previous zero vs = refl
take-recur next previous (suc k) [] = refl
take-recur next previous (suc k) (v ∷ vs) =
    ap (λ ys. some (next previous v) ∷ ys) (take-recur next (next previous v) k vs)

module _ (ctx : Context) (next : Decimal → Decimal → Decimal) where
  pub seeded_values_one :
      (period : ℕ) (vs : List Decimal)
      → (period == 1) ≡ true
      → seeded_values ctx next period vs ≡ map some vs
  unfolding seeded_values
  seeded_values_one period vs one = rw one refl

  pub seeded_values_short :
      (period : ℕ) (vs : List Decimal)
      → (period == 1) ≡ false
      → length vs < period
      → seeded_values ctx next period vs ≡ replicate (length vs) none
  unfolding seeded_values
  seeded_values_short period vs other lt = rw other (rw (lt→ltb _ _ lt) refl)

  pub seeded_values_long :
      (period : ℕ) (vs : List Decimal)
      → (period == 1) ≡ false
      → period ≤ length vs
      → seeded_values ctx next period vs
        ≡ replicate (period - 1) none
          ++ some (div ctx (sum_of ctx nought (take period vs)) (of_ℕ period))
            ∷ recur next
                (div ctx (sum_of ctx nought (take period vs)) (of_ℕ period))
                (drop period vs)
  unfolding seeded_values
  seeded_values_long period vs other le = rw other (rw (le→ltb _ _ le) refl)

  take-seeded_values :
      (period k : ℕ) (vs : List Decimal)
      → 0 < period
      → k ≤ length vs
      → take k (seeded_values ctx next period vs) ≡ seeded_values ctx next period (take k vs)
  take-seeded_values period k vs pos fits = elim (Bool-cases (period == 1)) [
    | inl one ↦
        ap (λ zs. take k zs) (seeded_values_one period vs one)
        ∙ take-map some k vs
        ∙ sym (seeded_values_one period (take k vs) one)
    | inr other ↦
        let shorter : length (take k vs) ≡ k = omega (arith, length-take k vs) in
        elim (dec_lt k period) [
          | yes early ↦
              early_lem k vs other early fits
              ∙ sym (
                  seeded_values_short period (take k vs) other (omega (arith, shorter))
                  ∙ ap (λ (n : ℕ). replicate n none) shorter)
          | no late ↦
              let seed = div ctx (sum_of ctx nought (take period vs)) (of_ℕ period) in
              let tail = drop period vs in
              let left : k - (period - 1) ≡ suc (k - period) = omega arith in
              ap (λ zs. take k zs) (seeded_values_long period vs other (omega arith))
              ∙ take-replicate_append k (period - 1) none (some seed ∷ recur next seed tail)
                  (omega arith)
              ∙ ap
                  (λ (n : ℕ).
                    replicate (period - 1) none ++ take n (some seed ∷ recur next seed tail))
                  left
              ∙ ap (λ zs. replicate (period - 1) none ++ some seed ∷ zs)
                  (take-recur next seed (k - period) tail
                    ∙ ap (λ zs. recur next seed zs) (sym (drop-take period k vs)))
              ∙ ap
                  (λ zs.
                    replicate (period - 1) none
                    ++ some (div ctx (sum_of ctx nought zs) (of_ℕ period))
                      ∷ recur next (div ctx (sum_of ctx nought zs) (of_ℕ period))
                          (drop period (take k vs)))
                  (sym (take-take period k vs (omega arith)))
              ∙ sym (seeded_values_long period (take k vs) other (omega (arith, shorter)))
        ]
  ]
    where
      early_lem :
          (k : ℕ) (vs : List Decimal)
          → (period == 1) ≡ false
          → k < period
          → k ≤ length vs
          → take k (seeded_values ctx next period vs) ≡ replicate k none
      early_lem k vs other early fits = elim (dec_lt (length vs) period) [
        | yes short ↦
            ap (λ zs. take k zs) (seeded_values_short period vs other short)
            ∙ take-replicate k (length vs) none fits
        | no long ↦
            ap (λ zs. take k zs) (seeded_values_long period vs other (omega arith))
            ∙ take_within_replicate k (period - 1) none _ (omega arith)
      ]

take-true_ranges_from :
    (ctx : Context) (previous : Decimal) (k : ℕ) (cs : List Candle)
    → take k (true_ranges_from ctx previous cs) ≡ true_ranges_from ctx previous (take k cs)
unfolding true_ranges_from
take-true_ranges_from ctx previous zero cs = refl
take-true_ranges_from ctx previous (suc k) [] = refl
take-true_ranges_from ctx previous (suc k) (c ∷ cs) =
    ap (λ ys. true_range_of ctx previous c ∷ ys) (take-true_ranges_from ctx c.close k cs)

take-true_range_values :
    (ctx : Context) (k : ℕ) (cs : List Candle)
    → take k (true_range_values ctx cs) ≡ true_range_values ctx (take k cs)
unfolding true_range_values
take-true_range_values ctx zero cs = refl
take-true_range_values ctx (suc k) [] = refl
take-true_range_values ctx (suc k) (c ∷ cs) =
    ap (λ ys. sub ctx c.high c.low ∷ ys) (take-true_ranges_from ctx c.close k cs)

length-true_ranges_from :
    (ctx : Context) (previous : Decimal) (cs : List Candle)
    → length (true_ranges_from ctx previous cs) ≡ length cs
unfolding true_ranges_from
length-true_ranges_from ctx previous [] = refl
length-true_ranges_from ctx previous (c ∷ cs) = ap suc (length-true_ranges_from ctx c.close cs)

pub length-true_range_values :
    (ctx : Context) (cs : List Candle) → length (true_range_values ctx cs) ≡ length cs
unfolding true_range_values
length-true_range_values ctx [] = refl
length-true_range_values ctx (c ∷ cs) = ap suc (length-true_ranges_from ctx c.close cs)

pub length-map : {A B : Type 0} (f : A → B) (xs : List A) → length (map f xs) ≡ length xs
length-map f [] = refl
length-map f (x ∷ xs) = ap suc (length-map f xs)

module _ (below : Decimal → Decimal → Bool) where
  rolling_from_warm :
      (period index : ℕ) (w : List Item) (vs : List Decimal)
      → index + length vs < period
      → rolling_from below period index w vs ≡ replicate (length vs) none
  unfolding rolling_from
  rolling_from_warm period index w [] h = refl
  rolling_from_warm period index w (v ∷ vs) h =
      rolling_warm below period index w v vs (omega arith)
      ∙ ap (λ zs. none ∷ zs)
          (rolling_from_warm period (index + 1) ((index, v) ∷ pop_back below v w) vs (omega arith))

  take-rolling_extrema :
      (k period : ℕ) (vs : List Decimal)
      → k ≤ length vs
      → take k (rolling_extrema below vs period) ≡ rolling_extrema below (take k vs) period
  take-rolling_extrema k period vs fits =
      let shorter : length (take k vs) ≡ k = omega (arith, length-take k vs) in
      elim (dec_lt (length vs) period) [
        | yes short ↦
            ap (λ zs. take k zs) (rolling_extrema_short below vs period short)
            ∙ take-replicate k (length vs) none fits
            ∙ sym (
                rolling_extrema_short below (take k vs) period (omega (arith, shorter))
                ∙ ap (λ (n : ℕ). replicate n none) shorter)
        | no long ↦
            ap (λ zs. take k zs) (rolling_extrema_long below vs period (omega arith))
            ∙ take-rolling_from below k period 0 [] vs
            ∙ elim (dec_lt k period) [
              | yes early ↦
                  rolling_from_warm period 0 [] (take k vs) (omega (arith, shorter))
                  ∙ sym (rolling_extrema_short below (take k vs) period (omega (arith, shorter)))
              | no late ↦
                  sym (rolling_extrema_long below (take k vs) period (omega (arith, shorter)))
            ]
      ]

  take-prior_extrema :
      (k period : ℕ) (vs : List Decimal)
      → 0 < period
      → k ≤ length vs
      → take k (prior_extrema below vs period) ≡ prior_extrema below (take k vs) period
  take-prior_extrema k period vs pos fits =
      let shorter : length (take k vs) ≡ k = omega (arith, length-take k vs) in
      ap (λ zs. take k zs) (prior_extrema-rolling_extrema below vs period pos)
      ∙ take-take k (length vs) (none ∷ rolling_extrema below vs period) fits
      ∙ later k
      ∙ sym (
          prior_extrema-rolling_extrema below (take k vs) period pos
          ∙ ap (λ (n : ℕ). take n (none ∷ rolling_extrema below (take k vs) period)) shorter
          ∙ ap (λ zs. take k (none ∷ zs)) (sym (take-rolling_extrema k period vs fits)))
    where
      later :
          (k : ℕ)
          → take k (none ∷ rolling_extrema below vs period)
            ≡ take k (none ∷ take k (rolling_extrema below vs period))
      later zero = refl
      later (suc j) =
          ap (λ zs. none ∷ zs)
            (sym (take-take j (suc j) (rolling_extrema below vs period) (omega arith)))

-- What a calculator gives for the first bars does not depend on later candles.
pub take-calculated_values :
    (code : IndicatorCode) (period k : ℕ) (cs : List Candle)
    → 0 < period
    → k ≤ length cs
    → take k (calculated_values code period cs) ≡ calculated_values code period (take k cs)
unfolding calculated_values
take-calculated_values ema_close period k cs pos fits =
    take-seeded_values indicator_context (ema_next indicator_context period) period k
      (map close_of cs) pos (omega (arith, length-map close_of cs))
    ∙ ap (λ zs. seeded_values indicator_context (ema_next indicator_context period) period zs)
        (take-map close_of k cs)
take-calculated_values true_range period k cs pos fits =
    take-map some k (true_range_values indicator_context cs)
    ∙ ap (λ zs. map some zs) (take-true_range_values indicator_context k cs)
take-calculated_values wilder_atr period k cs pos fits =
    take-seeded_values indicator_context (atr_next indicator_context period) period k
      (true_range_values indicator_context cs) pos
      (omega (arith, length-true_range_values indicator_context cs))
    ∙ ap (λ zs. seeded_values indicator_context (atr_next indicator_context period) period zs)
        (take-true_range_values indicator_context k cs)
take-calculated_values rolling_highest period k cs pos fits =
    take-rolling_extrema le k period (map high_of cs) (omega (arith, length-map high_of cs))
    ∙ ap (λ zs. rolling_extrema le zs period) (take-map high_of k cs)
take-calculated_values rolling_lowest period k cs pos fits =
    take-rolling_extrema ge k period (map low_of cs) (omega (arith, length-map low_of cs))
    ∙ ap (λ zs. rolling_extrema ge zs period) (take-map low_of k cs)
take-calculated_values prior_rolling_highest period k cs pos fits =
    take-prior_extrema le k period (map high_of cs) pos (omega (arith, length-map high_of cs))
    ∙ ap (λ zs. prior_extrema le zs period) (take-map high_of k cs)
take-calculated_values prior_rolling_lowest period k cs pos fits =
    take-prior_extrema ge k period (map low_of cs) pos (omega (arith, length-map low_of cs))
    ∙ ap (λ zs. prior_extrema ge zs period) (take-map low_of k cs)
