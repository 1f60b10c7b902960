-- ===== src/Decimal/Order.antt =====
-- The order of decimals, and its signs.
use zorqen_research.Base.{ℕ, ◌+◌, ◌*◌, ◌^◌, ◌≤◌, ◌<◌, ◌≡◌, true, false, arith, leb→le, le→leb}
use zorqen_research.Base.Int.{pos_part, neg_part}
use zorqen_research.Base.Order.{TotalOrder}
use zorqen_research.Decimal.{Decimal, nought, le, lt, eq, is_negative, is_positive, is_nought}
use native.Mathlib.Nat.{le_of_mul-le-mul_right, one-le-pow}

mul_le : (x y k : ℕ) → x ≤ y → x * k ≤ y * k
mul_le x y k h = grind arith

pub pow_pos : (n : ℕ) → 0 < 10 ^ n
pow_pos n = one-le-pow n 10 (omega arith)

-- The three comparisons over the six parts and three powers, cleared by the middle power.
cross_trans :
    (pa na pb nb pc nc A B C : ℕ)
    → 0 < B
    → pa * B + nb * A ≤ pb * A + na * B
    → pb * C + nc * B ≤ pc * B + nb * C
    → pa * C + nc * A ≤ pc * A + na * C
cross_trans pa na pb nb pc nc A B C hB p q =
    le_of_mul-le-mul_right
      (omega (
        arith,
        mul_le (pa * B + nb * A) (pb * A + na * B) C p,
        mul_le (pb * C + nc * B) (pc * B + nb * C) A q,
      ))
      hB

pub le_refl : (a : Decimal) → le a a ≡ true
unfolding le
le_refl a = ground arith

pub le_total : (a b : Decimal) → le a b ≡ false → le b a ≡ true
unfolding le
le_total a b h = ground arith

pub le_trans : (a b c : Decimal) → le a b ≡ true → le b c ≡ true → le a c ≡ true
unfolding le
le_trans a b c p q = le→leb _ _ (
    cross_trans (pos_part a.coefficient) (neg_part a.coefficient) (pos_part b.coefficient)
      (neg_part b.coefficient) (pos_part c.coefficient) (neg_part c.coefficient) (10 ^ a.scale)
      (10 ^ b.scale) (10 ^ c.scale) (pow_pos b.scale) (leb→le _ _ p) (leb→le _ _ q))

unfoldable pub decimal_order : TotalOrder Decimal
decimal_order = record { le = le; le_refl = le_refl; le_trans = le_trans; le_total = le_total }

-- The order against zero is the sign of the coefficient.
pub is_negative-eq-lt : (a : Decimal) → is_negative a ≡ lt a nought
unfolding is_negative lt
is_negative-eq-lt a = ground (arith, pow_pos a.scale)

pub is_positive-eq-lt : (a : Decimal) → is_positive a ≡ lt nought a
unfolding is_positive lt
is_positive-eq-lt a = ground (arith, pow_pos a.scale)

pub is_nought-eq : (a : Decimal) → is_nought a ≡ eq a nought
unfolding is_nought eq
is_nought-eq a = ground (arith, pow_pos a.scale)
