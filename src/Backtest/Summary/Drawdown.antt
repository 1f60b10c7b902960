-- ===== src/Backtest/Summary/Drawdown.antt =====
-- The loop of `_max_drawdown` against the list of the drawdowns.
use zorqen_research.Base.{
  ◌≡◌, refl, ◌∙◌, ◌⊎◌, inl, inr, true, List, [], ◌∷◌, All, arith, if◌then◌else◌,
}
use zorqen_research.Decimal.{Decimal, Context, nought, le, lt, sub}
use zorqen_research.Decimal.Order.{le_refl, le_trans, le_total}
use zorqen_research.Backtest.Summary.{raise_peak, drawdown_from, max_drawdown}

-- How far each value of a curve lies below the highest value up to it, `peak` included.
abbrev pub drawdowns : Context → Decimal → List Decimal → List Decimal
drawdowns ctx peak [] = []
drawdowns ctx peak (value ∷ curve) =
    sub ctx (raise_peak peak value) value ∷ drawdowns ctx (raise_peak peak value) curve

abbrev pub IsIn : Decimal → List Decimal → Type 0
IsIn d [] = ⊥
IsIn d (x ∷ xs) = (d ≡ x) ⊎ IsIn d xs

abbrev larger : Decimal → Decimal → Decimal
larger a b = if lt a b then b else a

larger-le : (a b : Decimal) → (le a (larger a b) ≡ true) × (le b (larger a b) ≡ true)
unfolding lt
larger-le a b = ground (arith, le_refl a, le_refl b, le_total a b)

larger_one : (a b : Decimal) → (larger a b ≡ a) ⊎ (larger a b ≡ b)
larger_one a b = grind arith

-- The loop never lowers its maximum, and ends at or above every drawdown.
drawdown_from-bounds :
    (ctx : Context) (peak m : Decimal) (curve : List Decimal)
    → (le m (drawdown_from ctx peak m curve) ≡ true)
      × All (λ d. le d (drawdown_from ctx peak m curve) ≡ true) (drawdowns ctx peak curve)
unfolding drawdown_from
drawdown_from-bounds ctx peak m [] = (le_refl m, tt)
drawdown_from-bounds ctx peak m (value ∷ curve) =
    let dd = sub ctx (raise_peak peak value) value in
    let (grows, bounds) = drawdown_from-bounds ctx (raise_peak peak value) (larger m dd) curve in
    let (old, new) = larger-le m dd in
    (le_trans _ _ _ old grows, (le_trans _ _ _ new grows, bounds))

-- And it ends at the maximum it started with or at a drawdown.
drawdown_from-attained :
    (ctx : Context) (peak m : Decimal) (curve : List Decimal)
    → (drawdown_from ctx peak m curve ≡ m)
      ⊎ IsIn (drawdown_from ctx peak m curve) (drawdowns ctx peak curve)
unfolding drawdown_from
drawdown_from-attained ctx peak m [] = inl refl
drawdown_from-attained ctx peak m (value ∷ curve) =
    let dd = sub ctx (raise_peak peak value) value in
    elim (drawdown_from-attained ctx (raise_peak peak value) (larger m dd) curve) [
      | inr later ↦ inr (inr later)
      | inl same ↦ elim (larger_one m dd) [
        | inl old ↦ inl (same ∙ old)
        | inr new ↦ inr (inl (same ∙ new))
      ]
    ]

-- The maximal drawdown of a curve is at least zero and at least every drawdown from the highest
-- value so far, and it is zero or one of them.
pub max_drawdown-IsGreatest :
    (ctx : Context) (first : Decimal) (curve : List Decimal)
    → (le nought (max_drawdown ctx (first ∷ curve)) ≡ true)
      × All
          (λ d. le d (max_drawdown ctx (first ∷ curve)) ≡ true)
          (drawdowns ctx first (first ∷ curve))
      × ((max_drawdown ctx (first ∷ curve) ≡ nought)
          ⊎ IsIn (max_drawdown ctx (first ∷ curve)) (drawdowns ctx first (first ∷ curve)))
unfolding max_drawdown
max_drawdown-IsGreatest ctx first curve =
    let (nonneg, bounds) = drawdown_from-bounds ctx first nought (first ∷ curve) in
    (nonneg, bounds, drawdown_from-attained ctx first nought (first ∷ curve))
