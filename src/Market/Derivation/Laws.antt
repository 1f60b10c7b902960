-- ===== src/Market/Derivation/Laws.antt =====
-- The plans of src/zorqen_research/domain/market_data/derivation.py.
use zorqen_research.Base.{ℕ, ◌*◌, ◌/◌, ◌%◌, ◌≤◌, ◌<◌, ◌≡◌, sym, ap, ◌∙◌, arith, Result, ok}
use zorqen_research.Time.{Timeframe, timeframe_duration}
use zorqen_research.Time.Floor.{timeframe_duration_pos}
use native.Mathlib.Nat.{mul_assoc, mul-div_left, mul-mod_left}
use zorqen_research.Market.Derivation.{
  TimeframeDerivationPlan, DerivationError, max_derivation_ratio, derive_timeframe_plan,
}

abbrev pub planned : Timeframe → Timeframe → ℕ → Result DerivationError TimeframeDerivationPlan
planned s t r = ok (record { source_timeframe = s; target_timeframe = t; ratio = r })

-- Every plan is exact: the target's duration is `ratio` times the source's, and the ratio is
-- between 2 and the stated maximum.
pub derive_timeframe_plan-exact :
    (s t : Timeframe) {p : TimeframeDerivationPlan}
    → derive_timeframe_plan s t ≡ ok p
    → (p.source_timeframe ≡ s)
      × (p.target_timeframe ≡ t)
      × (timeframe_duration t ≡ p.ratio * timeframe_duration s)
      × (2 ≤ p.ratio)
      × (p.ratio ≤ max_derivation_ratio)
unfolding derive_timeframe_plan
derive_timeframe_plan-exact s t h = ground arith

-- A plan exists wherever the target is coarser and its duration a multiple of the source's: the
-- bound on the ratio refuses no pair of timeframes.
pub derive_timeframe_plan_total :
    (s t : Timeframe)
    → timeframe_duration s < timeframe_duration t
    → timeframe_duration t % timeframe_duration s ≡ 0
    → derive_timeframe_plan s t ≡ planned s t (timeframe_duration t / timeframe_duration s)
unfolding derive_timeframe_plan
derive_timeframe_plan_total s t lt whole = ground arith

lt_multiple : (d e r : ℕ) → 0 < d → 2 ≤ r → e ≡ r * d → d < e
lt_multiple d e r h two p = grind arith

-- Two plans in a row are one plan with the product of their ratios.
derive_timeframe_plan-compose :
    (a b c : Timeframe) {p q : TimeframeDerivationPlan}
    → derive_timeframe_plan a b ≡ ok p
    → derive_timeframe_plan b c ≡ ok q
    → derive_timeframe_plan a c ≡ planned a c (q.ratio * p.ratio)
derive_timeframe_plan-compose a b c {p} {q} h k =
    let (_, _, eb, lb, _) = derive_timeframe_plan-exact a b h in
    let (_, _, ec, lc, _) = derive_timeframe_plan-exact b c k in
    let da = timeframe_duration a in
    let pos = timeframe_duration_pos a in
    let whole : timeframe_duration c ≡ q.ratio * p.ratio * da =
      ec ∙ ap (λ (d : ℕ). q.ratio * d) eb ∙ sym (mul_assoc q.ratio p.ratio da) in
    let ratio : timeframe_duration c / da ≡ q.ratio * p.ratio =
      ap (λ (d : ℕ). d / da) whole ∙ mul-div_left (q.ratio * p.ratio) pos in
    let e : timeframe_duration c % da ≡ 0 =
      ap (λ (d : ℕ). d % da) whole ∙ mul-mod_left (q.ratio * p.ratio) da in
    let coarser : da < timeframe_duration c = omega (
      arith,
      lt_multiple _ _ p.ratio pos lb eb,
      lt_multiple _ _ q.ratio (timeframe_duration_pos b) lc ec,
    ) in
    derive_timeframe_plan_total a c coarser e ∙ ap (λ (r : ℕ). planned a c r) ratio
