-- ===== src/Base/Order.antt =====
-- What the code uses of a type whose values it only compares: a total preorder by a Boolean test.
use mathlib.Core.Path.{◌≡◌}
use mathlib.Core.Bool.{Bool, true, false, not}
use native.Mathlib.Omega.{arith}

pub record TotalOrder (A : Type 0) : Type 0 where
  pub le : A → A → Bool
  pub le_refl : (a : A) → le a a ≡ true
  pub le_trans : (a b c : A) → le a b ≡ true → le b c ≡ true → le a c ≡ true
  pub le_total : (a b : A) → le a b ≡ false → le b a ≡ true

-- `a < b`, and `a > b` with the arguments exchanged.
abbrev pub lt : {A : Type 0} → TotalOrder A → A → A → Bool
lt o a b = not (o.le b a)

module _ {A : Type 0} (o : TotalOrder A) where
  pub le_of_lt : (a b : A) → lt o a b ≡ true → o.le a b ≡ true
  le_of_lt a b h = ground (arith, o.le_total b a)
