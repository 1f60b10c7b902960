-- ===== src/Decimal/Sign.antt =====
-- Signs under rounding and arithmetic.
use zorqen_research.Base.{
  ℕ, zero, suc, ◌+◌, ◌-◌, ◌*◌, ◌^◌, ◌≤◌, ◌<◌, ◌≡◌, refl, ap, sym, subst, ◌∙◌, true, false, arith,
  leb→le,
}
use zorqen_research.Base.Int.{ℤ, pos, negsuc, pos_part, neg_part, ◌-ℤ◌}
use native.Mathlib.Nat.{le_of_mul-le-mul_right, pow-zero, pow-succ'}
use zorqen_research.Decimal.{
  Decimal, Context, add, sub, mul, div, abs, le, fix, is_negative, eq, scale_up, aligned_to,
  joint_scale, side,
}
use zorqen_research.Decimal.Order.{pow_pos}

fix_nonneg : (ctx : Context) (a : Decimal) → is_negative a ≡ false → is_negative (fix ctx a) ≡ false
unfolding is_negative fix
fix_nonneg ctx a h = ground arith

pub add_nonneg :
    (ctx : Context) (a b : Decimal)
    → is_negative a ≡ false
    → is_negative b ≡ false
    → is_negative (add ctx a b) ≡ false
unfolding add is_negative
add_nonneg ctx a b p q = fix_nonneg ctx _ (ground arith)

pub eq_refl : (a : Decimal) → eq a a ≡ true
unfolding eq
eq_refl a = ground arith

pub abs_nonneg : (ctx : Context) (a : Decimal) → is_negative (abs ctx a) ≡ false
unfolding abs is_negative
abs_nonneg ctx a = fix_nonneg ctx _ (ground arith)

pub mul_nonneg :
    (ctx : Context) (a b : Decimal)
    → is_negative a ≡ false
    → is_negative b ≡ false
    → is_negative (mul ctx a b) ≡ false
unfolding mul is_negative
mul_nonneg ctx a b p q = fix_nonneg ctx _ (ground (arith, p, q))

pub div_nonneg :
    (ctx : Context) (a b : Decimal)
    → is_negative a ≡ false
    → is_negative b ≡ false
    → is_negative (div ctx a b) ≡ false
unfolding div is_negative
div_nonneg ctx a b p q = fix_nonneg ctx _ (ground (arith, p, q))

pos_part-scale_up : (k : ℕ) (c : ℤ) → pos_part (scale_up k c) ≡ pos_part c * 10 ^ k
pos_part-scale_up k (pos n) = refl
pos_part-scale_up k (negsuc n) = ground arith

neg_part-scale_up : (k : ℕ) (c : ℤ) → neg_part (scale_up k c) ≡ neg_part c * 10 ^ k
neg_part-scale_up k (pos n) = ground arith
neg_part-scale_up k (negsuc n) = ground arith

pow_add : (m n : ℕ) → 10 ^ (m + n) ≡ 10 ^ m * 10 ^ n
pow_add zero n =
    let e : 0 + n ≡ n = omega arith in ap (λ (k : ℕ). 10 ^ k) e ∙ omega (arith, pow-zero 10)
pow_add (suc m) n =
    let e : suc m + n ≡ suc (m + n) = omega arith in
    let associated : 10 * (10 ^ m * 10 ^ n) ≡ 10 * 10 ^ m * 10 ^ n = omega arith in
    ap (λ (k : ℕ). 10 ^ k) e
    ∙ pow-succ' 10 (m + n)
    ∙ ap (λ (k : ℕ). 10 * k) (pow_add m n)
    ∙ associated
    ∙ ap (λ (k : ℕ). k * 10 ^ n) (sym (pow-succ' 10 m))

-- The powers of two scales, over the power of the smaller one.
common_power :
    (s t : ℕ) → (M : ℕ) × (0 < M) × (10 ^ s ≡ 10 ^ (s - t) * M) × (10 ^ t ≡ 10 ^ (t - s) * M)
common_power s t =
    let least : ℕ = s - (s - t) in
    let split_s : s ≡ s - t + least = omega arith in
    let split_t : t ≡ t - s + least = omega arith in
    (
      10 ^ least,
      pow_pos least,
      ap (λ (k : ℕ). 10 ^ k) split_s ∙ pow_add (s - t) least,
      ap (λ (k : ℕ). 10 ^ k) split_t ∙ pow_add (t - s) least,
    )

-- A comparison of two sides, cleared of a common power.
clear_power :
    (pa na pb nb P Q M : ℕ)
    → 0 < M
    → pb * (Q * M) + na * (P * M) ≤ pa * (P * M) + nb * (Q * M)
    → na * P + pb * Q ≤ pa * P + nb * Q
clear_power pa na pb nb P Q M some_power h =
    let wide : (na * P + pb * Q) * M ≤ (pa * P + nb * Q) * M = omega (arith, h) in
    le_of_mul-le-mul_right wide some_power

difference_nonneg :
    (x y : ℤ) (s : ℕ)
    → neg_part x + pos_part y ≤ pos_part x + neg_part y
    → is_negative (record { coefficient = x -ℤ y; scale = s }) ≡ false
unfolding is_negative ◌-ℤ◌
difference_nonneg x y s h = ground arith

-- The order of two decimals is that of their coefficients at a common scale.
le-aligned :
    (a b : Decimal)
    → le b a ≡ true
    → neg_part (aligned_to a b) + pos_part (aligned_to b a)
      ≤ pos_part (aligned_to a b) + neg_part (aligned_to b a)
unfolding le
le-aligned a b h =
    let (M, some_power, power_a, power_b) = common_power a.scale b.scale in
    let P = 10 ^ (b.scale - a.scale) in
    let Q = 10 ^ (a.scale - b.scale) in
    let sides : pos_part b.coefficient * 10 ^ a.scale + neg_part a.coefficient * 10 ^ b.scale
        ≤ pos_part a.coefficient * 10 ^ b.scale + neg_part b.coefficient * 10 ^ a.scale =
      leb→le (side b a) (side a b) h in
    let common : pos_part b.coefficient * (Q * M) + neg_part a.coefficient * (P * M)
        ≤ pos_part a.coefficient * (P * M) + neg_part b.coefficient * (Q * M) =
      subst
        (λ (x : ℕ).
          pos_part b.coefficient * x + neg_part a.coefficient * (P * M)
          ≤ pos_part a.coefficient * (P * M) + neg_part b.coefficient * x)
        power_a
        (subst
          (λ (y : ℕ).
            pos_part b.coefficient * 10 ^ a.scale + neg_part a.coefficient * y
            ≤ pos_part a.coefficient * y + neg_part b.coefficient * 10 ^ a.scale)
          power_b sides) in
    let cleared =
      clear_power (pos_part a.coefficient) (neg_part a.coefficient) (pos_part b.coefficient)
        (neg_part b.coefficient) P Q M some_power common in
    omega (
      arith,
      cleared,
      pos_part-scale_up (b.scale - a.scale) a.coefficient,
      neg_part-scale_up (b.scale - a.scale) a.coefficient,
      pos_part-scale_up (a.scale - b.scale) b.coefficient,
      neg_part-scale_up (a.scale - b.scale) b.coefficient,
    )

-- A difference is not negative where what is taken away is not more.
pub sub_nonneg : (ctx : Context) (a b : Decimal) → le b a ≡ true → is_negative (sub ctx a b) ≡ false
unfolding sub
sub_nonneg ctx a b h =
    fix_nonneg ctx _
      (difference_nonneg (aligned_to a b) (aligned_to b a) (joint_scale a b) (le-aligned a b h))
