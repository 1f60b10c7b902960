-- ===== src/Indicators/Causal/Checked.antt =====
-- The checks of src/zorqen_research/application/indicators/assembly.py on the beginning of a list
-- of values that has passed them.
use zorqen_research.Base.{
  ℕ, zero, suc, ◌+◌, ◌-◌, ◌≤◌, ◌<◌, ◌≡◌, refl, ap, sym, ◌∙◌, Bool, true, false, not, Option, none,
  some, List, [], ◌∷◌, length, take, drop, Result, ok, raise_if, ◌>>◌, >>=-eq-ok, >>-eq-ok,
  raise_if-eq-ok, arith, length-take, le→leb, lt→leb,
}
use native.Mathlib.Decide.{dec_le}
use Prim.Native.String.{String}
use zorqen_research.Decimal.{Decimal}
use zorqen_research.Indicators.Input.{
  IndicatorCode, ema_close, true_range, wilder_atr, rolling_highest, rolling_lowest,
  prior_rolling_highest, prior_rolling_lowest, IndicatorError, negative_value, not_all_undefined,
  not_all_defined, needs_exactly_period,
}
use zorqen_research.Indicators.Assembly.{
  any_defined, any_undefined, below_nought, check_undefined, check_defined, check_nonnegative,
  require_warmup_shape, undefined_prefix, check_sign, is_key, check_period_values,
  enforce_code_invariants,
}
use zorqen_research.Indicators.Causal.{drop-take, take-take}

-- A list of checks, that passes where each of them does.
pub >>-ok :
    (test : Bool) (e : IndicatorError) {m : Result IndicatorError (Unit {0})}
    → test ≡ false
    → m ≡ ok tt
    → (raise_if test e >> m) ≡ ok tt
>>-ok false e refl passed = passed
>>-ok true e h passed = cc

pub any_defined-take :
    (k : ℕ) (vs : List (Option Decimal)) → any_defined vs ≡ false → any_defined (take k vs) ≡ false
any_defined-take zero vs h = refl
any_defined-take (suc k) [] h = refl
any_defined-take (suc k) (none ∷ vs) h = any_defined-take k vs h
any_defined-take (suc k) (some v ∷ vs) h = cc

pub any_undefined-take :
    (k : ℕ) (vs : List (Option Decimal))
    → any_undefined vs ≡ false
    → any_undefined (take k vs) ≡ false
any_undefined-take zero vs h = refl
any_undefined-take (suc k) [] h = refl
any_undefined-take (suc k) (none ∷ vs) h = cc
any_undefined-take (suc k) (some v ∷ vs) h = any_undefined-take k vs h

check_undefined-eq-ok :
    (index : ℕ) (vs : List (Option Decimal))
    → check_undefined index vs ≡ ok tt
    → any_defined vs ≡ false
unfolding check_undefined
check_undefined-eq-ok index [] h = refl
check_undefined-eq-ok index (none ∷ vs) h = check_undefined-eq-ok (index + 1) vs h
check_undefined-eq-ok index (some v ∷ vs) h = cc

check_defined-take :
    (index k : ℕ) (vs : List (Option Decimal))
    → check_defined index vs ≡ ok tt
    → check_defined index (take k vs) ≡ ok tt
unfolding check_defined
check_defined-take index zero vs h = refl
check_defined-take index (suc k) [] h = refl
check_defined-take index (suc k) (none ∷ vs) h = cc
check_defined-take index (suc k) (some v ∷ vs) h = check_defined-take (index + 1) k vs h

pub check_nonnegative-take :
    (index k : ℕ) (vs : List (Option Decimal))
    → check_nonnegative index vs ≡ ok tt
    → check_nonnegative index (take k vs) ≡ ok tt
unfolding check_nonnegative
check_nonnegative-take index zero vs h = refl
check_nonnegative-take index (suc k) [] h = refl
check_nonnegative-take index (suc k) (v ∷ vs) h =
    let (fine, rest) = >>-eq-ok (below_nought v) (negative_value index) h in
    >>-ok (below_nought v) (negative_value index) fine
      (check_nonnegative-take (index + 1) k vs rest)

module _ (p : ℕ) where
  require_warmup_shape_all :
      (ws : List (Option Decimal))
      → length ws ≤ p
      → require_warmup_shape ws p ≡ raise_if (any_defined ws) not_all_undefined
  unfolding require_warmup_shape
  require_warmup_shape_all ws le = rw (le→leb _ _ le) refl

  pub require_warmup_shape_over :
      (ws : List (Option Decimal))
      → length ws ≤ p
      → any_defined ws ≡ false
      → require_warmup_shape ws p ≡ ok tt
  require_warmup_shape_over ws le nothing =
      require_warmup_shape_all ws le ∙ ap (λ test. raise_if test not_all_undefined) nothing

  pub require_warmup_shape_under :
      (ws : List (Option Decimal))
      → p < length ws
      → require_warmup_shape ws p ≡ (check_undefined 0 (take p ws) >> check_defined p (drop p ws))
  unfolding require_warmup_shape
  require_warmup_shape_under ws lt = rw (lt→leb _ _ lt) refl

module _ (vs : List (Option Decimal)) (k p : ℕ) where
  -- A warm-up that was checked has no value in it.
  require_warmup_shape-none :
      (m : ℕ) → m ≤ p → require_warmup_shape vs p ≡ ok tt → any_defined (take m vs) ≡ false
  unfolding require_warmup_shape
  require_warmup_shape-none m fits h = elim (dec_le (length vs) p) [
    | yes le ↦ any_defined-take m vs (
        raise_if-eq-ok (any_defined vs) not_all_undefined
          (sym (require_warmup_shape_all p vs le) ∙ h))
    | no gt ↦
        let (_, early, _) =
          >>=-eq-ok (check_undefined 0 (take p vs)) _
            (sym (require_warmup_shape_under p vs (omega arith)) ∙ h) in
        ap any_defined (sym (take-take m p vs fits))
        ∙ any_defined-take m (take p vs) (check_undefined-eq-ok 0 (take p vs) early)
  ]

  require_warmup_shape-take :
      (q : ℕ)
      → k ≤ length vs
      → (k ≤ p → k ≤ q)
      → (p < k → q ≡ p)
      → require_warmup_shape vs p ≡ ok tt
      → require_warmup_shape (take k vs) q ≡ ok tt
  require_warmup_shape-take q fits short long h =
      let size : length (take k vs) ≡ k = omega (arith, length-take k vs) in
      elim (dec_le k p) [
        | yes early ↦
            require_warmup_shape_over q (take k vs) (omega (arith, size, short early))
              (require_warmup_shape-none k early h)
        | no late ↦
            let (_, first, then') =
              >>=-eq-ok (check_undefined 0 (take p vs)) _
                (sym (require_warmup_shape_under p vs (omega arith)) ∙ h) in
            let same : q ≡ p = long (omega arith) in
            ap (λ (n : ℕ). require_warmup_shape (take k vs) n) same
            ∙ require_warmup_shape_under p (take k vs) (omega (arith, size))
            ∙ ap (λ ws. check_undefined 0 ws >> check_defined p (drop p (take k vs)))
                (take-take p k vs (omega arith))
            ∙ ap (λ m. m >> check_defined p (drop p (take k vs))) first
            ∙ ap (λ ws. check_defined p ws) (drop-take p k vs)
            ∙ check_defined-take p (k - p) (drop p vs) then'
      ]

  undefined_prefix_short :
      (code : IndicatorCode) (period : ℕ)
      → k ≤ length vs
      → undefined_prefix code period (length vs) ≡ p
      → k ≤ p
      → k ≤ undefined_prefix code period k
  unfolding undefined_prefix
  undefined_prefix_short ema_close period fits e h = ground arith
  undefined_prefix_short true_range period fits e h = ground arith
  undefined_prefix_short wilder_atr period fits e h = ground arith
  undefined_prefix_short rolling_highest period fits e h = ground arith
  undefined_prefix_short rolling_lowest period fits e h = ground arith
  undefined_prefix_short prior_rolling_highest period fits e h = ground arith
  undefined_prefix_short prior_rolling_lowest period fits e h = ground arith

  undefined_prefix_long :
      (code : IndicatorCode) (period : ℕ)
      → k ≤ length vs
      → undefined_prefix code period (length vs) ≡ p
      → p < k
      → undefined_prefix code period k ≡ p
  unfolding undefined_prefix
  undefined_prefix_long ema_close period fits e h = ground arith
  undefined_prefix_long true_range period fits e h = ground arith
  undefined_prefix_long wilder_atr period fits e h = ground arith
  undefined_prefix_long rolling_highest period fits e h = ground arith
  undefined_prefix_long rolling_lowest period fits e h = ground arith
  undefined_prefix_long prior_rolling_highest period fits e h = ground arith
  undefined_prefix_long prior_rolling_lowest period fits e h = ground arith

check_sign-take :
    (code : IndicatorCode) (k : ℕ) (vs : List (Option Decimal))
    → check_sign code vs ≡ ok tt
    → check_sign code (take k vs) ≡ ok tt
unfolding check_sign
check_sign-take wilder_atr k vs h = check_nonnegative-take 0 k vs h
check_sign-take ema_close k vs h = refl
check_sign-take true_range k vs h = refl
check_sign-take rolling_highest k vs h = refl
check_sign-take rolling_lowest k vs h = refl
check_sign-take prior_rolling_highest k vs h = refl
check_sign-take prior_rolling_lowest k vs h = refl

module _ (k : ℕ) (vs : List (Option Decimal)) (fits : k ≤ length vs) where
  check_period_values-take :
      (code : IndicatorCode) (parameters : List (String × ℕ))
      → check_period_values code parameters vs ≡ ok tt
      → check_period_values code parameters (take k vs) ≡ ok tt
  unfolding check_period_values
  check_period_values-take code [] h = cc
  check_period_values-take code (p ∷ q ∷ ps) h = cc
  check_period_values-take code ((key, period) ∷ []) h =
      let size : length (take k vs) ≡ k = omega (arith, length-take k vs) in
      let (right, checks) = >>-eq-ok (not (is_key key)) needs_exactly_period h in
      let p = undefined_prefix code period (length vs) in
      let (_, shape, sign) = >>=-eq-ok (require_warmup_shape vs p) _ checks in
      let shape_k : require_warmup_shape (take k vs)
            (undefined_prefix code period (length (take k vs)))
          ≡ ok tt =
        ap (λ (n : ℕ). require_warmup_shape (take k vs) (undefined_prefix code period n)) size
        ∙ require_warmup_shape-take vs k p (undefined_prefix code period k) fits
            (undefined_prefix_short vs k p code period fits refl)
            (undefined_prefix_long vs k p code period fits refl) shape in
      >>-ok (not (is_key key)) needs_exactly_period right
        (ap (λ m. m >> check_sign code (take k vs)) shape_k ∙ check_sign-take code k vs sign)

  -- The checks of an indicator that pass on all its values pass on the first `k`.
  pub enforce_code_invariants-take :
      (code : IndicatorCode) (parameters : List (String × ℕ))
      → enforce_code_invariants code parameters vs ≡ ok tt
      → enforce_code_invariants code parameters (take k vs) ≡ ok tt
  unfolding enforce_code_invariants
  enforce_code_invariants-take true_range (p ∷ ps) h = cc
  enforce_code_invariants-take true_range [] h =
      let (defined, sign) = >>-eq-ok (any_undefined vs) not_all_defined h in
      >>-ok (any_undefined (take k vs)) not_all_defined (any_undefined-take k vs defined)
        (check_nonnegative-take 0 k vs sign)
  enforce_code_invariants-take ema_close ps h = check_period_values-take ema_close ps h
  enforce_code_invariants-take wilder_atr ps h = check_period_values-take wilder_atr ps h
  enforce_code_invariants-take rolling_highest ps h = check_period_values-take rolling_highest ps h
  enforce_code_invariants-take rolling_lowest ps h = check_period_values-take rolling_lowest ps h
  enforce_code_invariants-take prior_rolling_highest ps h =
      check_period_values-take prior_rolling_highest ps h
  enforce_code_invariants-take prior_rolling_lowest ps h =
      check_period_values-take prior_rolling_lowest ps h
