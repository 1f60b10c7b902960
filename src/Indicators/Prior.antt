-- ===== src/Indicators/Prior.antt =====
-- Prior-window extrema: `_prior_extrema` of
-- src/zorqen_research/application/indicators/extrema.py.
pub mod Shifted
use zorqen_research.Base.{
  ℕ, ◌+◌, ◌-◌, Bool, true, false, leb, Option, none, List, [], ◌∷◌, ◌++◌, length, take, drop,
  replicate,
}
use zorqen_research.Decimal.{Decimal}
use zorqen_research.Indicators.Extrema.{Item, pop_back, pop_front, front}

module _ (below : Decimal → Decimal → Bool) where
  -- The loop that seeds the deque, over the first `period` values.
  unfoldable pub seed_from : ℕ → List Item → List Decimal → List Item
  seed_from index window [] = window
  seed_from index window (value ∷ series) =
      seed_from (index + 1) ((index, value) ∷ pop_back below value window) series

  -- The loop that slides the window, over the values at the indexes from `period` to `n - 2`: what it
  -- writes at `index + 1` and behind.
  unfoldable pub prior_from : ℕ → ℕ → List Item → List Decimal → List (Option Decimal)
  prior_from period index window [] = []
  prior_from period index window (value ∷ series) =
      let kept = pop_front below (index - period + 1) window in
      let pushed = (index, value) ∷ pop_back below value kept in
      front below pushed ∷ prior_from period (index + 1) pushed series

  unfoldable pub prior_extrema : List Decimal → ℕ → List (Option Decimal)
  prior_extrema series period = elim (leb (length series) period) [
    | true ↦ replicate (length series) none
    | false ↦
        let window = seed_from 0 [] (take period series) in
        replicate period none
        ++ front below window
          ∷ prior_from period period window (take (length series - 1 - period) (drop period series))
  ]
