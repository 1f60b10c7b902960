-- ===== src/Indicators/Prior/Shifted.antt =====
-- `_prior_extrema` of src/zorqen_research/application/indicators/extrema.py against
-- `_rolling_extrema`.
use zorqen_research.Base.{
  ℕ, zero, suc, ◌+◌, ◌-◌, ◌≤◌, ◌<◌, ◌≡◌, refl, ap, sym, ◌∙◌, Bool, true, false, ltb, Bool-cases,
  inl, inr, none, List, [], ◌∷◌, ◌++◌, length, take, drop, replicate, arith, le→ltb, lt→ltb, le→leb,
  lt→leb, length-take, take-append-drop,
}
use zorqen_research.Decimal.{Decimal}
use zorqen_research.Indicators.Extrema.{
  Item, pop_back, keep, pop_front, front, rolling_from, rolling_extrema,
}
use zorqen_research.Indicators.Extrema.Window.{pop_back-true, pop_back-false, keep-true, keep-false}
use native.Mathlib.Decide.{dec_lt}
use zorqen_research.Indicators.Prior.{seed_from, prior_from, prior_extrema}

module _ (below : Decimal → Decimal → Bool) where
  keep-pop_back :
      (v : Decimal) (left : ℕ) (x : Item) (kept : List Item)
      → below x.1 v ≡ true
      → pop_back below v (keep below left x kept) ≡ pop_back below v kept
  unfolding pop_back
  keep-pop_back v left x [] e = elim (Bool-cases (ltb x.0 left)) [
    | inl early ↦ ap (λ z. pop_back below v z) (keep-true below left x early)
    | inr late ↦
        ap (λ z. pop_back below v z) (keep-false below left x late) ∙ pop_back-true below v x [] e
  ]
  keep-pop_back v left x (y ∷ kept) e = pop_back-true below v x (y ∷ kept) e

  keep_stays :
      (v : Decimal) (left : ℕ) (x : Item) (kept : List Item)
      → below x.1 v ≡ false
      → pop_back below v (keep below left x kept) ≡ keep below left x kept
  unfolding pop_back
  keep_stays v left x [] e = elim (Bool-cases (ltb x.0 left)) [
    | inl early ↦
        let none_left = keep-true below left x early in
        ap (λ z. pop_back below v z) none_left ∙ sym none_left
    | inr late ↦
        ap (λ z. pop_back below v z) (keep-false below left x late)
        ∙ pop_back-false below v x [] e
        ∙ sym (keep-false below left x late)
  ]
  keep_stays v left x (y ∷ kept) e = pop_back-false below v x (y ∷ kept) e

  -- The two ends of the deque do not get into each other's way.
  pop_front-pop_back :
      (v : Decimal) (left : ℕ) (w : List Item)
      → pop_front below left (pop_back below v w) ≡ pop_back below v (pop_front below left w)
  unfolding pop_back pop_front
  pop_front-pop_back v left [] = refl
  pop_front-pop_back v left (x ∷ w) = elim (Bool-cases (below x.1 v)) [
    | inl e ↦
        ap (λ z. pop_front below left z) (pop_back-true below v x w e)
        ∙ pop_front-pop_back v left w
        ∙ sym (keep-pop_back v left x (pop_front below left w) e)
    | inr e ↦
        ap (λ z. pop_front below left z) (pop_back-false below v x w e)
        ∙ sym (keep_stays v left x (pop_front below left w) e)
  ]

  -- The item that was just pushed is never too old.
  pub pop_front-push :
      (left index : ℕ) (v : Decimal) (w : List Item)
      → left ≤ index
      → pop_front below left ((index, v) ∷ w) ≡ (index, v) ∷ pop_front below left w
  unfolding pop_front
  pop_front-push left index v w le = young (pop_front below left w)
    where
      young : (kept : List Item) → keep below left (index, v) kept ≡ (index, v) ∷ kept
      young [] = keep-false below left (index, v) (le→ltb index left le)
      young (y ∷ kept) = refl

  pop_front_nothing : (w : List Item) → pop_front below 0 w ≡ w
  unfolding pop_front
  pop_front_nothing [] = refl
  pop_front_nothing (x ∷ w) = ap (λ kept. keep below 0 x kept) (pop_front_nothing w) ∙ whole x w
    where
      whole : (x : Item) (w : List Item) → keep below 0 x w ≡ x ∷ w
      whole x [] = keep-false below 0 x (le→ltb x.0 0 (omega arith))
      whole x (y ∷ w) = refl

  pub rolling_warm :
      (period index : ℕ) (w : List Item) (v : Decimal) (vs : List Decimal)
      → index + 1 < period
      → rolling_from below period index w (v ∷ vs)
        ≡ none ∷ rolling_from below period (index + 1) ((index, v) ∷ pop_back below v w) vs
  unfolding rolling_from
  rolling_warm period index w v vs lt = rw (lt→ltb _ _ lt, rolling_from) refl

  pub rolling_full :
      (period index : ℕ) (w : List Item) (v : Decimal) (vs : List Decimal)
      → period ≤ index + 1
      → let kept = pop_front below (index + 1 - period) ((index, v) ∷ pop_back below v w) in
        rolling_from below period index w (v ∷ vs)
        ≡ front below kept ∷ rolling_from below period (index + 1) kept vs
  unfolding rolling_from
  rolling_full period index w v vs le = rw (le→ltb _ _ le, rolling_from) refl

  -- Behind the first whole window the two loops are one.
  rolling_from-prior_from :
      (period index : ℕ) (w : List Item) (vs : List Decimal)
      → 0 < period
      → period ≤ index
      → rolling_from below period index w vs ≡ prior_from below period index w vs
  unfolding prior_from rolling_from
  rolling_from-prior_from period index w [] pos le = refl
  rolling_from-prior_from period index w (v ∷ vs) pos le =
      let left = index - period + 1 in
      let kept = pop_front below left w in
      let same : index + 1 - period ≡ left = omega arith in
      let slid : pop_front below (index + 1 - period) ((index, v) ∷ pop_back below v w)
          ≡ (index, v) ∷ pop_back below v kept =
        ap (λ (l : ℕ). pop_front below l ((index, v) ∷ pop_back below v w)) same
        ∙ pop_front-push left index v (pop_back below v w) (omega arith)
        ∙ ap (λ z. (index, v) ∷ z) (pop_front-pop_back v left w) in
      rolling_full period index w v vs (omega arith)
      ∙ ap (λ z. front below z ∷ rolling_from below period (index + 1) z vs) slid
      ∙ ap (λ z. front below ((index, v) ∷ pop_back below v kept) ∷ z)
          (rolling_from-prior_from period (index + 1) ((index, v) ∷ pop_back below v kept) vs pos
            (omega arith))

  pub take-rolling_from :
      (k period index : ℕ) (w : List Item) (vs : List Decimal)
      → take k (rolling_from below period index w vs)
        ≡ rolling_from below period index w (take k vs)
  unfolding rolling_from
  take-rolling_from zero period index w vs = refl
  take-rolling_from (suc k) period index w [] = refl
  take-rolling_from (suc k) period index w (v ∷ vs) = elim (dec_lt (index + 1) period) [
    | yes lt ↦
        ap (λ z. take (suc k) z) (rolling_warm period index w v vs lt)
        ∙ ap (λ z. none ∷ z)
            (take-rolling_from k period (index + 1) ((index, v) ∷ pop_back below v w) vs)
        ∙ sym (rolling_warm period index w v (take k vs) lt)
    | no ge ↦
        let kept = pop_front below (index + 1 - period) ((index, v) ∷ pop_back below v w) in
        ap (λ z. take (suc k) z) (rolling_full period index w v vs (omega arith))
        ∙ ap (λ z. front below kept ∷ z) (take-rolling_from k period (index + 1) kept vs)
        ∙ sym (rolling_full period index w v (take k vs) (omega arith))
  ]

  -- Up to the first whole window.
  rolling_from-seed_from :
      (period index : ℕ) (w : List Item) (v : Decimal) (vs ys : List Decimal)
      → index + suc (length vs) ≡ period
      → let window = seed_from below index w (v ∷ vs) in
        rolling_from below period index w (v ∷ vs ++ ys)
        ≡ replicate (length vs) none
          ++ front below window ∷ rolling_from below period period window ys
  unfolding seed_from
  rolling_from-seed_from period index w v [] ys e =
      let pushed = (index, v) ∷ pop_back below v w in
      let now : index + 1 - period ≡ 0 = omega arith in
      let whole : pop_front below (index + 1 - period) pushed ≡ pushed =
        ap (λ (l : ℕ). pop_front below l pushed) now ∙ pop_front_nothing pushed in
      let next : index + 1 ≡ period = omega arith in
      rolling_full period index w v ys (omega arith)
      ∙ ap (λ z. front below z ∷ rolling_from below period (index + 1) z ys) whole
      ∙ ap (λ (i : ℕ). front below pushed ∷ rolling_from below period i pushed ys) next
  rolling_from-seed_from period index w v (u ∷ vs) ys e =
      rolling_warm period index w v (u ∷ vs ++ ys) (omega arith)
      ∙ ap (λ z. none ∷ z)
          (rolling_from-seed_from period (index + 1) ((index, v) ∷ pop_back below v w) u vs ys
            (omega arith))

  prior_extrema_short :
      (series : List Decimal) (period : ℕ)
      → length series ≤ period
      → prior_extrema below series period ≡ replicate (length series) none
  unfolding prior_extrema
  prior_extrema_short series period le = rw (le→leb _ _ le, prior_extrema) refl

  prior_extrema_long :
      (series : List Decimal) (period : ℕ)
      → period < length series
      → let window = seed_from below 0 [] (take period series) in
        prior_extrema below series period
        ≡ replicate period none
          ++ front below window
            ∷ prior_from below period period window
                (take (length series - 1 - period) (drop period series))
  unfolding prior_extrema
  prior_extrema_long series period lt = rw (lt→leb _ _ lt, prior_extrema) refl

  pub rolling_extrema_short :
      (series : List Decimal) (period : ℕ)
      → length series < period
      → rolling_extrema below series period ≡ replicate (length series) none
  unfolding rolling_extrema
  rolling_extrema_short series period lt = rw (lt→ltb _ _ lt, rolling_extrema) refl

  pub rolling_extrema_long :
      (series : List Decimal) (period : ℕ)
      → period ≤ length series
      → rolling_extrema below series period ≡ rolling_from below period 0 [] series
  unfolding rolling_extrema
  rolling_extrema_long series period le = rw (le→ltb _ _ le, rolling_extrema) refl

  -- The values from the first whole window on.
  rolling_extrema-seed_from :
      (series : List Decimal) (period : ℕ)
      → 0 < period
      → period ≤ length series
      → let window = seed_from below 0 [] (take period series) in
        none ∷ rolling_extrema below series period
        ≡ replicate period none
          ++ front below window ∷ rolling_from below period period window (drop period series)
  rolling_extrema-seed_from [] period pos le = absurd (omega arith)
  rolling_extrema-seed_from (v ∷ series) zero pos le = absurd (omega arith)
  rolling_extrema-seed_from (v ∷ series) (suc p) pos le =
      let first = take p series in
      let rest = drop p series in
      let full : length first ≡ p = omega (arith, length-take p series) in
      ap (λ z. none ∷ z) (rolling_extrema_long (v ∷ series) (suc p) le)
      ∙ ap (λ z. none ∷ rolling_from below (suc p) 0 [] (v ∷ z)) (sym (take-append-drop p series))
      ∙ ap (λ z. none ∷ z) (rolling_from-seed_from (suc p) 0 [] v first rest (omega (arith, full)))
      ∙ ap
          (λ (k : ℕ).
            replicate (suc k) none
            ++ front below (seed_from below 0 [] (v ∷ first))
              ∷ rolling_from below (suc p) (suc p) (seed_from below 0 [] (v ∷ first)) rest)
          full

pub take-replicate_append :
    {A : Type 0} (n p : ℕ) (a : A) (ys : List A)
    → p ≤ n
    → take n (replicate p a ++ ys) ≡ replicate p a ++ take (n - p) ys
take-replicate_append n zero a ys le = ap (λ (k : ℕ). take k ys) (omega arith)
take-replicate_append zero (suc p) a ys le = absurd (omega arith)
take-replicate_append (suc n) (suc p) a ys le =
    ap (λ z. a ∷ z) (take-replicate_append n p a ys (omega arith))
    ∙ ap (λ (k : ℕ). a ∷ (replicate p a ++ take k ys)) (omega arith)

append_nothing : {A : Type 0} (n : ℕ) (a : A) → replicate n a ++ [] ≡ replicate n a
append_nothing zero a = refl
append_nothing (suc n) a = ap (λ z. a ∷ z) (append_nothing n a)

take_one_less : {A : Type 0} (n : ℕ) (a : A) → take n (a ∷ replicate n a) ≡ replicate n a
take_one_less zero a = refl
take_one_less (suc n) a = ap (λ z. a ∷ z) (take_one_less n a)

-- For a positive period the extrema of the prior windows are those of the windows themselves, one place
-- later: what is given at a bar is the extreme of the whole window that ended at the bar before, without
-- the bar itself.
pub prior_extrema-rolling_extrema :
    (below : Decimal → Decimal → Bool) (series : List Decimal) (period : ℕ)
    → 0 < period
    → prior_extrema below series period
      ≡ take (length series) (none ∷ rolling_extrema below series period)
prior_extrema-rolling_extrema below series period pos = elim (dec_lt period (length series)) [
  | yes long ↦
      let n = length series in
      let window = seed_from below 0 [] (take period series) in
      let tail = drop period series in
      let left : n - period ≡ suc (n - 1 - period) = omega arith in
      let cut =
        ap (λ z. take n z) (rolling_extrema-seed_from below series period pos (omega arith))
        ∙ take-replicate_append n period none
            (front below window ∷ rolling_from below period period window tail) (omega arith)
        ∙ ap
            (λ (k : ℕ).
              replicate period none
              ++ take k (front below window ∷ rolling_from below period period window tail))
            left
        ∙ ap (λ z. replicate period none ++ front below window ∷ z)
            (take-rolling_from below (n - 1 - period) period period window tail
              ∙ rolling_from-prior_from below period period window (take (n - 1 - period) tail) pos
                  (omega arith)) in
      prior_extrema_long below series period long ∙ sym cut
  | no short ↦
      let n = length series in
      prior_extrema_short below series period (omega arith) ∙ elim (dec_lt n period) [
        | yes shorter ↦ sym (
            ap (λ z. take n (none ∷ z)) (rolling_extrema_short below series period shorter)
            ∙ take_one_less n none)
        | no equal ↦
            let same : period ≡ n = omega arith in
            let nothing_left : n - period ≡ 0 = omega arith in
            let window = seed_from below 0 [] (take period series) in
            let rest =
              front below window ∷ rolling_from below period period window (drop period series) in
            sym (
              ap (λ z. take n z) (rolling_extrema-seed_from below series period pos (omega arith))
              ∙ take-replicate_append n period none rest (omega arith)
              ∙ ap (λ (k : ℕ). replicate period none ++ take k rest) nothing_left
              ∙ append_nothing period none
              ∙ ap (λ (k : ℕ). replicate k none) same)
      ]
]
