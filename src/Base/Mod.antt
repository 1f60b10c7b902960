-- ===== src/Base/Mod.antt =====
-- Multiples and remainders of native numbers, for a divisor that is a variable.
use Prim.Native.Nat.{ℕ, zero, suc, ◌*◌, ◌+◌, ◌-◌, ◌%◌, ◌≤◌, ◌<◌}
use mathlib.Core.Path.{◌≡◌, sym, ap, ◌∙◌}
use native.Mathlib.Omega.{arith}
use native.Mathlib.Nat.{div-add-mod, add-mod, mod-mod, add-zero}

pub sub-mod_mod : (t d : ℕ) → 0 < d → (t - t % d) % d ≡ 0
sub-mod_mod t d h = grind (arith, div-add-mod)

pub add-mod_zero : (t d : ℕ) → 0 < d → t % d ≡ 0 → (t + d) % d ≡ 0
add-mod_zero t d h e = grind arith

-- Two multiples of `d` less than `d` apart are one.
pub le_of_multiples : (u v d : ℕ) → 0 < d → u % d ≡ 0 → v % d ≡ 0 → u < v + d → u ≤ v
le_of_multiples u v d h p q lt = grind arith

-- Two different multiples of `d` are at least `d` apart.
pub add-le_of_multiples : (u v d : ℕ) → 0 < d → u % d ≡ 0 → v % d ≡ 0 → u < v → u + d ≤ v
add-le_of_multiples u v d h p q lt = grind arith

pub add-mod_multiple : (w v d : ℕ) → v % d ≡ 0 → (w + v) % d ≡ w % d
add-mod_multiple w v d q =
    add-mod w v d
    ∙ ap (λ (k : ℕ). (w % d + k) % d) q
    ∙ ap (λ (k : ℕ). k % d) (add-zero (w % d))
    ∙ mod-mod w d

pub sub-mod_multiples : (u v d : ℕ) → 0 < d → u % d ≡ 0 → v % d ≡ 0 → v ≤ u → (u - v) % d ≡ 0
sub-mod_multiples u v d h p q le =
    let whole : u - v + v ≡ u = omega arith in
    sym (add-mod_multiple (u - v) v d q) ∙ ap (λ (k : ℕ). k % d) whole ∙ p

pub pos_of_mul : (k d m : ℕ) → k * d ≡ m → 0 < m → 0 < k
pos_of_mul zero d m e h = absurd (omega arith)
pos_of_mul (suc k) d m e h = omega arith
