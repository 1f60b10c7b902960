-- ===== src/Indicators/Extrema.antt =====
-- Rolling extrema: `_rolling_extrema` of src/zorqen_research/application/indicators/extrema.py. The
-- deque is a list from its back to its front, of the indexes that it holds with their values.
pub mod Window
pub mod Rolling
use zorqen_research.Base.{
  ℕ, ◌+◌, ◌-◌, Bool, true, false, ltb, Option, none, some, List, [], ◌∷◌, length, replicate,
}
use zorqen_research.Decimal.{Decimal}

abbrev pub Item : Type 0
Item = ℕ × Decimal

-- The comparison is `<=` for the maximum and `>=` for the minimum.
module _ (below : Decimal → Decimal → Bool) where
  -- `while window and series[window[-1]] <= value: window.pop()`
  unfoldable pub pop_back : Decimal → List Item → List Item
  pop_back value [] = []
  pop_back value (x ∷ window) = elim (below x.1 value) [
    | true ↦ pop_back value window
    | false ↦ x ∷ window
  ]

  abbrev pub keep : ℕ → Item → List Item → List Item
  keep left x [] = elim (ltb x.0 left) [ true ↦ [] | false ↦ x ∷ [] ]
  keep left x (y ∷ kept) = x ∷ y ∷ kept

  -- `while window and window[0] < left: window.popleft()`
  unfoldable pub pop_front : ℕ → List Item → List Item
  pop_front left [] = []
  pop_front left (x ∷ window) = keep left x (pop_front left window)

  -- `series[window[0]]`; the window is never empty there.
  abbrev pub front : List Item → Option Decimal
  front [] = none
  front (x ∷ []) = some x.1
  front (x ∷ y ∷ window) = front (y ∷ window)

  -- The loop over the values that remain.
  unfoldable pub rolling_from : ℕ → ℕ → List Item → List Decimal → List (Option Decimal)
  rolling_from period index window [] = []
  rolling_from period index window (value ∷ series) =
      let pushed = (index, value) ∷ pop_back value window in
      elim (ltb (index + 1) period) [
        | true ↦ none ∷ rolling_from period (index + 1) pushed series
        | false ↦
            let kept = pop_front (index + 1 - period) pushed in
            front kept ∷ rolling_from period (index + 1) kept series
      ]

  unfoldable pub rolling_extrema : List Decimal → ℕ → List (Option Decimal)
  rolling_extrema series period = elim (ltb (length series) period) [
    | true ↦ replicate (length series) none
    | false ↦ rolling_from period 0 [] series
  ]
