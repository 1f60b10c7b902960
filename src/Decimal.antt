-- ===== src/Decimal.antt =====
-- The finite values of Python's `decimal.Decimal`, and its operations under a context of a given
-- precision that rounds half-even, as the default context does. The model is up to numeric
-- equality: trailing zeros are not told apart. The exponent limits of a context are left out.
pub mod Order
pub mod Sign
use zorqen_research.Base.{
  ℕ, zero, suc, ◌+◌, ◌-◌, ◌*◌, ◌/◌, ◌%◌, ◌^◌, Bool, true, false, Option, none, some, ◌&&◌, not, ltb,
  leb, ◌==◌, if◌then◌else◌,
}
use zorqen_research.Base.Int.{ℤ, pos, negsuc, pos_part, neg_part, sub_ℕ, ◌+ℤ◌, ◌-ℤ◌}

-- coefficient / 10 ^ scale
pub record Decimal : Type 0 where
  pub coefficient : ℤ
  pub scale : ℕ

-- `Context(prec=…, rounding=ROUND_HALF_EVEN)`
pub record Context : Type 0 where
  pub prec : ℕ

abbrev pub of_ℕ : ℕ → Decimal
of_ℕ n = record { coefficient = pos n; scale = 0 }

abbrev pub nought : Decimal
nought = of_ℕ 0

-- The two sides of a comparison, cleared of denominators and of signs.
abbrev pub side : Decimal → Decimal → ℕ
side a b = pos_part a.coefficient * 10 ^ b.scale + neg_part b.coefficient * 10 ^ a.scale

-- `a <= b`, `a < b`, `a == b`
unfoldable pub le : Decimal → Decimal → Bool
le a b = leb (side a b) (side b a)

unfoldable pub lt : Decimal → Decimal → Bool
unfolding le
lt a b = not (le b a)

unfoldable pub eq : Decimal → Decimal → Bool
eq a b = side a b == side b a

-- `value < 0`, `value <= 0`, `value == 0`: the sign of the coefficient.
unfoldable pub is_negative : Decimal → Bool
is_negative a = ltb 0 (neg_part a.coefficient)

unfoldable pub is_positive : Decimal → Bool
is_positive a = ltb 0 (pos_part a.coefficient)

unfoldable pub is_nought : Decimal → Bool
is_nought a = (pos_part a.coefficient + neg_part a.coefficient) == 0

-- The number of decimal digits; `n` steps are enough for `n`.
digits_from : ℕ → ℕ → ℕ
digits_from zero n = 0
digits_from (suc fuel) n = elim (n == 0) [ true ↦ 0 | false ↦ suc (digits_from fuel (n / 10)) ]

pub digits : ℕ → ℕ
unfolding digits_from
digits n = digits_from n n

-- `n / d` to the nearest integer, ties to even.
unfoldable pub half_even : ℕ → ℕ → ℕ
half_even n d =
    let q = n / d in
    let twice = 2 * (n % d) in
    if ltb twice d then q else if ltb d twice then q + 1 else if q % 2 == 0 then q else q + 1

-- `a` as the integer `10 ^ places` times coarser, rounded.
abbrev pub coarsen : ℕ → ℤ → ℤ
coarsen places (pos n) = pos (half_even n (10 ^ places))
coarsen places (negsuc n) = sub_ℕ 0 (half_even (suc n) (10 ^ places))

abbrev pub scale_up : ℕ → ℤ → ℤ
scale_up places (pos n) = pos (n * 10 ^ places)
scale_up places (negsuc n) = sub_ℕ 0 (suc n * 10 ^ places)

-- The last step of every operation: at most `prec` significant digits.
unfoldable pub fix : Context → Decimal → Decimal
unfolding digits half_even
fix ctx a =
    let size = digits (pos_part a.coefficient + neg_part a.coefficient) in
    let excess = size - ctx.prec in
    let rounded = coarsen excess a.coefficient in
    if excess == 0
    then a
    else if leb excess a.scale
    then record { coefficient = rounded; scale = a.scale - excess }
    else record { coefficient = scale_up (excess - a.scale) rounded; scale = 0 }

-- Both operands at one scale.
abbrev pub aligned_to : Decimal → Decimal → ℤ
aligned_to a b = scale_up (b.scale - a.scale) a.coefficient

abbrev pub joint_scale : Decimal → Decimal → ℕ
joint_scale a b = if leb a.scale b.scale then b.scale else a.scale

unfoldable pub add : Context → Decimal → Decimal → Decimal
unfolding ◌+ℤ◌
add ctx a b =
    fix ctx (record { coefficient = aligned_to a b +ℤ aligned_to b a; scale = joint_scale a b })

unfoldable pub sub : Context → Decimal → Decimal → Decimal
unfolding ◌-ℤ◌
sub ctx a b =
    fix ctx (record { coefficient = aligned_to a b -ℤ aligned_to b a; scale = joint_scale a b })

abbrev pub magnitude : Decimal → ℕ
magnitude a = pos_part a.coefficient + neg_part a.coefficient

-- A sign, from those of a product's or a quotient's operands, and a magnitude.
abbrev pub signed : Decimal → Decimal → ℕ → ℤ
signed a b n =
    if is_negative a
    then (if is_negative b then pos n else sub_ℕ 0 n)
    else (if is_negative b then sub_ℕ 0 n else pos n)

unfoldable pub mul : Context → Decimal → Decimal → Decimal
unfolding is_negative
mul ctx a b =
    fix ctx
      (record { coefficient = signed a b (magnitude a * magnitude b); scale = a.scale + b.scale })

-- `a / b` for `b` other than zero: more digits than the context keeps, the last one made sticky
-- so that the rounding of `fix` sees whether the quotient is exact.
unfoldable pub div : Context → Decimal → Decimal → Decimal
unfolding is_negative digits
div ctx a b =
    let top = magnitude a * 10 ^ b.scale in
    let bottom = magnitude b * 10 ^ a.scale in
    let places = ctx.prec + 1 + digits bottom in
    let q = top * 10 ^ places / bottom in
    let exact = (top * 10 ^ places % bottom) == 0 in
    let sticky = if exact then q else if q % 5 == 0 then q + 1 else q in
    fix ctx (record { coefficient = signed a b sticky; scale = places })

-- `a % b` for `b` other than zero, with the sign of `a`; `none` is InvalidOperation, raised where
-- the integer quotient has more than `prec` digits.
unfoldable pub rem : Context → Decimal → Decimal → Option Decimal
unfolding is_negative digits
rem ctx a b =
    let top = magnitude a * 10 ^ b.scale in
    let bottom = magnitude b * 10 ^ a.scale in
    let rest = top % bottom in
    if ltb ctx.prec (digits (top / bottom))
    then none
    else some (
        fix ctx (record {
          coefficient = if is_negative a then sub_ℕ 0 rest else pos rest;
          scale = a.scale + b.scale;
        }))

-- `to_integral_value(rounding=ROUND_FLOOR)` and `…ROUND_CEILING`; these do not use the precision.
unfoldable pub floor : Decimal → Decimal
floor a =
    let d = 10 ^ a.scale in
    record {
      coefficient = elim a.coefficient [
        | pos n ↦ pos (n / d)
        | negsuc n ↦ sub_ℕ 0 ((suc n + d - 1) / d)
      ];
      scale = 0;
    }

unfoldable pub ceiling : Decimal → Decimal
ceiling a =
    let d = 10 ^ a.scale in
    record {
      coefficient = elim a.coefficient [
        | pos n ↦ pos ((n + d - 1) / d)
        | negsuc n ↦ sub_ℕ 0 (suc n / d)
      ];
      scale = 0;
    }

-- `abs`, which rounds as every operation does.
unfoldable pub abs : Context → Decimal → Decimal
abs ctx a = fix ctx (record { coefficient = pos (magnitude a); scale = a.scale })
