-- ===== src/Indicators/Tests.antt =====
-- Rolling extrema of a short series.
use zorqen_research.Base.{◌≡◌, refl, none, some, List, [], ◌∷◌, arith, take, length}
use zorqen_research.Decimal.{Decimal, of_ℕ, le}
use zorqen_research.Decimal.Order.{le_trans, le_total}
use zorqen_research.Indicators.Extrema.{pop_back, pop_front, rolling_from, rolling_extrema}
use zorqen_research.Indicators.Prior.{seed_from, prior_from, prior_extrema}
use zorqen_research.Indicators.Prior.Shifted.{prior_extrema-rolling_extrema}
use zorqen_research.Indicators.Extrema.Rolling.{AreResults, rolling_extrema-AreResults}

abbrev series : List Decimal
series = of_ℕ 3 ∷ of_ℕ 5 ∷ of_ℕ 4 ∷ of_ℕ 1 ∷ []

maxima : rolling_extrema le series 2 ≡ none ∷ some (of_ℕ 5) ∷ some (of_ℕ 5) ∷ some (of_ℕ 4) ∷ []
unfolding rolling_extrema rolling_from pop_back pop_front le
maxima = refl

rolling_extrema-AreResults_example :
    AreResults le le_trans le_total 2 0 [] series (rolling_extrema le series 2)
rolling_extrema-AreResults_example =
    rolling_extrema-AreResults le le_trans le_total series 2 (omega arith) (omega arith)

prior_maxima : prior_extrema le series 2 ≡ none ∷ none ∷ some (of_ℕ 5) ∷ some (of_ℕ 5) ∷ []
unfolding prior_extrema prior_from seed_from pop_back pop_front le
prior_maxima = refl

prior_extrema-rolling_extrema_example :
    prior_extrema le series 2 ≡ take (length series) (none ∷ rolling_extrema le series 2)
prior_extrema-rolling_extrema_example = prior_extrema-rolling_extrema le series 2 (omega arith)
