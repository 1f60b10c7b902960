-- ===== src/Time/Floor.antt =====
-- The floors of `align_floor` in src/zorqen_research/domain/timeframes.py, by the duration.
use zorqen_research.Base.{ℕ, ◌-◌, ◌%◌, ◌≤◌, ◌<◌, ◌≡◌, true, arith}
use zorqen_research.Base.Mod.{sub-mod_mod, le_of_multiples}
use native.Mathlib.Nat.{mod-lt}
use zorqen_research.Time.{
  Timeframe, m1, m3, m5, m15, m30, h1, h4, d1, w1, millisecond, timeframe_duration, align_floor,
  is_aligned,
}

pub timeframe_duration_pos : (tf : Timeframe) → 0 < timeframe_duration tf
unfolding timeframe_duration
timeframe_duration_pos tf = ground arith

pub millisecond-le-duration : (tf : Timeframe) → millisecond ≤ timeframe_duration tf
unfolding timeframe_duration
millisecond-le-duration tf = ground arith

-- The greatest multiple of the duration that is at most the instant.
pub align_floor-eq-sub-mod :
    (t : ℕ) (tf : Timeframe) → align_floor t tf ≡ t - t % timeframe_duration tf
unfolding align_floor timeframe_duration
align_floor-eq-sub-mod t m1 = omega arith
align_floor-eq-sub-mod t m3 = omega arith
align_floor-eq-sub-mod t m5 = omega arith
align_floor-eq-sub-mod t m15 = omega arith
align_floor-eq-sub-mod t m30 = omega arith
align_floor-eq-sub-mod t h1 = omega arith
align_floor-eq-sub-mod t h4 = omega arith
align_floor-eq-sub-mod t d1 = omega arith
align_floor-eq-sub-mod t w1 = omega arith

pub is_aligned→mod :
    (t : ℕ) (tf : Timeframe) → is_aligned t tf ≡ true → t % timeframe_duration tf ≡ 0
unfolding is_aligned
is_aligned→mod t tf h =
    grind (arith, align_floor-eq-sub-mod t tf, sub-mod_mod t _ (timeframe_duration_pos tf))

pub mod→is_aligned :
    (t : ℕ) (tf : Timeframe) → t % timeframe_duration tf ≡ 0 → is_aligned t tf ≡ true
unfolding is_aligned
mod→is_aligned t tf h = ground (arith, align_floor-eq-sub-mod t tf)

-- `align_floor` returns an aligned instant at or before its argument, and no later aligned instant
-- is at or before it.
pub align_floor-IsGreatest :
    (t u : ℕ) (tf : Timeframe)
    → (is_aligned (align_floor t tf) tf ≡ true)
      × (align_floor t tf ≤ t)
      × (is_aligned u tf ≡ true → u ≤ t → u ≤ align_floor t tf)
align_floor-IsGreatest t u tf =
    let d = timeframe_duration tf in
    let pos : 0 < d = timeframe_duration_pos tf in
    let floor : align_floor t tf ≡ t - t % d = align_floor-eq-sub-mod t tf in
    let whole : (t - t % d) % d ≡ 0 = sub-mod_mod t d pos in
    (
      mod→is_aligned _ tf (rw floor whole),
      omega (arith, floor),
      λ a le. rw floor (
          le_of_multiples u (t - t % d) d pos (is_aligned→mod u tf a) whole
            (omega (arith, mod-lt t pos))),
    )
