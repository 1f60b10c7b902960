-- ===== src/Indicators/Warmup/Accepted.antt =====
-- The checks of src/zorqen_research/application/indicators/assembly.py on values that are undefined
-- through the warm-up and defined from there on.
use zorqen_research.Base.{
  ℕ, zero, suc, ◌+◌, ◌≤◌, ◌≡◌, refl, ap, sym, ◌∙◌, false, Option, none, some, List, [], ◌∷◌, length,
  map, take, drop, ok, arith, ◌>>◌,
}
use native.Mathlib.Decide.{dec_le}
use zorqen_research.Decimal.{Decimal, is_negative}
use zorqen_research.Indicators.Input.{IndicatorCode, negative_value}
use zorqen_research.Indicators.Assembly.{
  normalized, below_nought, any_defined, any_undefined, check_undefined, check_defined,
  check_nonnegative, check_sign, require_warmup_shape, undefined_prefix, check_period_values,
  period_of,
}
use zorqen_research.Indicators.Causal.{take-map, length-map}
use zorqen_research.Indicators.Causal.Checked.{
  >>-ok, require_warmup_shape_over, require_warmup_shape_under,
}
use zorqen_research.Indicators.Warmup.{IsWarm}
use zorqen_research.Indicators.Warmup.Sign.{AreNonnegative}

check_undefined-ok :
    (index : ℕ) (vs : List (Option Decimal))
    → any_defined vs ≡ false
    → check_undefined index vs ≡ ok tt
unfolding check_undefined
check_undefined-ok index [] h = refl
check_undefined-ok index (none ∷ vs) h = check_undefined-ok (index + 1) vs h
check_undefined-ok index (some v ∷ vs) h = cc

check_defined-ok :
    (index : ℕ) (vs : List (Option Decimal))
    → any_undefined vs ≡ false
    → check_defined index vs ≡ ok tt
unfolding check_defined
check_defined-ok index [] h = refl
check_defined-ok index (none ∷ vs) h = cc
check_defined-ok index (some v ∷ vs) h = check_defined-ok (index + 1) vs h

pub check_nonnegative-ok :
    (index : ℕ) (vs : List (Option Decimal))
    → AreNonnegative vs
    → check_nonnegative index vs ≡ ok tt
unfolding check_nonnegative
check_nonnegative-ok index [] p = refl
check_nonnegative-ok index (v ∷ vs) (p, ps) =
    >>-ok (below_nought v) (negative_value index) p (check_nonnegative-ok (index + 1) vs ps)

pub take_whole : {A : Type 0} (k : ℕ) (xs : List A) → length xs ≤ k → take k xs ≡ xs
take_whole zero [] h = refl
take_whole zero (x ∷ xs) h = absurd (omega arith)
take_whole (suc k) [] h = refl
take_whole (suc k) (x ∷ xs) h = ap (λ ys. x ∷ ys) (take_whole k xs (omega arith))

require_warmup_shape-ok :
    (p n : ℕ) (vs : List (Option Decimal)) → IsWarm p n vs → require_warmup_shape vs p ≡ ok tt
require_warmup_shape-ok p n vs w = elim (dec_le (length vs) p) [
  | yes le ↦
      require_warmup_shape_over p vs le (ap any_defined (sym (take_whole p vs le)) ∙ w.undefined)
  | no gt ↦
      require_warmup_shape_under p vs (omega arith)
      ∙ ap (λ m. m >> check_defined p (drop p vs)) (check_undefined-ok 0 (take p vs) w.undefined)
      ∙ check_defined-ok p (drop p vs) w.defined
]

pub check_period_values-ok :
    (code : IndicatorCode) (period n : ℕ) (vs : List (Option Decimal))
    → IsWarm (undefined_prefix code period n) n vs
    → check_sign code vs ≡ ok tt
    → check_period_values code (period_of period) vs ≡ ok tt
unfolding check_period_values
check_period_values-ok code period n vs w sign =
    ap (λ (m : ℕ). require_warmup_shape vs (undefined_prefix code period m) >> check_sign code vs)
      w.counted
    ∙ ap (λ m. m >> check_sign code vs)
        (require_warmup_shape-ok (undefined_prefix code period n) n vs w)
    ∙ sign

any_defined-map : (vs : List (Option Decimal)) → any_defined (map normalized vs) ≡ any_defined vs
any_defined-map [] = refl
any_defined-map (none ∷ vs) = any_defined-map vs
any_defined-map (some v ∷ vs) = refl

any_undefined-map :
    (vs : List (Option Decimal)) → any_undefined (map normalized vs) ≡ any_undefined vs
any_undefined-map [] = refl
any_undefined-map (none ∷ vs) = refl
any_undefined-map (some v ∷ vs) = any_undefined-map vs

drop-map : {A B : Type 0} (f : A → B) (k : ℕ) (xs : List A) → drop k (map f xs) ≡ map f (drop k xs)
drop-map f zero xs = refl
drop-map f (suc k) [] = refl
drop-map f (suc k) (x ∷ xs) = drop-map f k xs

pub normalized-IsWarm :
    (p n : ℕ) (vs : List (Option Decimal)) → IsWarm p n vs → IsWarm p n (map normalized vs)
normalized-IsWarm p n vs w = record {
  counted = length-map normalized vs ∙ w.counted;
  undefined = ap any_defined (take-map normalized p vs) ∙ any_defined-map (take p vs) ∙ w.undefined;
  defined = ap any_undefined (drop-map normalized p vs) ∙ any_undefined-map (drop p vs) ∙ w.defined;
}

normalized_nonneg :
    (v : Decimal) → is_negative v ≡ false → below_nought (normalized (some v)) ≡ false
unfolding is_negative
normalized_nonneg v q = ground (arith, q)

pub normalized-AreNonnegative :
    (vs : List (Option Decimal)) → AreNonnegative vs → AreNonnegative (map normalized vs)
normalized-AreNonnegative [] p = tt
normalized-AreNonnegative (none ∷ vs) (p, ps) = (refl, normalized-AreNonnegative vs ps)
normalized-AreNonnegative (some v ∷ vs) (p, ps) =
    (normalized_nonneg v p, normalized-AreNonnegative vs ps)
