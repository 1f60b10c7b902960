-- ===== src/Indicators/Extrema/Window.antt =====
-- The deque of `_rolling_extrema` against the window of the values themselves.
use zorqen_research.Base.{
  ℕ, ◌≤◌, ◌<◌, ◌≡◌, refl, sym, subst, Bool, true, false, ltb, Bool-cases, inl, inr, ◌⊎◌, some, List,
  [], ◌∷◌, All, arith,
}
use zorqen_research.Decimal.{Decimal}
use zorqen_research.Indicators.Extrema.{Item, pop_back, keep, pop_front, front}

module _ (below : Decimal → Decimal → Bool) where
  -- Some item of the list.
  abbrev pub Some : (Item → Type 0) → List Item → Type 0
  Some P [] = ⊥
  Some P (x ∷ xs) = P x ⊎ Some P xs

  -- `m` is the extreme of the values whose index is `left` or later.
  abbrev pub IsExtreme : ℕ → List Item → Decimal → Type 0
  IsExtreme left seen m =
      All (λ (x : Item). left ≤ x.0 → below x.1 m ≡ true) seen
      × Some (λ (x : Item). (left ≤ x.0) × (x.1 ≡ m)) seen

  -- Earlier, and not below.
  abbrev pub Before : Item → Item → Type 0
  Before x y = (y.0 < x.0) × (below x.1 y.1 ≡ true)

  -- From the back to the front: earlier indexes, and values that are not below.
  abbrev pub Sorted : List Item → Type 0
  Sorted [] = Unit
  Sorted (x ∷ w) = All (Before x) w × Sorted w

  -- An item of the window that stands for `x`.
  abbrev pub Covered : List Item → Item → Type 0
  Covered w x = Some (λ (y : Item). (x.0 ≤ y.0) × (below x.1 y.1 ≡ true)) w

  pub pop_back-true :
      (v : Decimal) (x : Item) (w : List Item)
      → below x.1 v ≡ true
      → pop_back below v (x ∷ w) ≡ pop_back below v w
  unfolding pop_back
  pop_back-true v x w e = rw (pop_back, e) refl

  pub pop_back-false :
      (v : Decimal) (x : Item) (w : List Item)
      → below x.1 v ≡ false
      → pop_back below v (x ∷ w) ≡ x ∷ w
  unfolding pop_back
  pop_back-false v x w e = rw (pop_back, e) refl

  pub All-pop_back :
      (P : Item → Type 0) (v : Decimal) (w : List Item) → All P w → All P (pop_back below v w)
  unfolding pop_back
  All-pop_back P v [] h = tt
  All-pop_back P v (x ∷ w) h = elim (Bool-cases (below x.1 v)) [
    | inl e ↦ subst (All P) (sym (pop_back-true v x w e)) (All-pop_back P v w h.1)
    | inr e ↦ subst (All P) (sym (pop_back-false v x w e)) h
  ]

  pub keep-true : (left : ℕ) (x : Item) → ltb x.0 left ≡ true → keep below left x [] ≡ []
  keep-true left x e = rw (keep, e) refl

  pub keep-false : (left : ℕ) (x : Item) → ltb x.0 left ≡ false → keep below left x [] ≡ x ∷ []
  keep-false left x e = rw (keep, e) refl

  All-keep :
      (P : Item → Type 0) (left : ℕ) (x : Item) (w : List Item)
      → P x
      → All P w
      → All P (keep below left x w)
  All-keep P left x [] p h = elim (Bool-cases (ltb x.0 left)) [
    | inl e ↦ subst (All P) (sym (keep-true left x e)) tt
    | inr e ↦ subst (All P) (sym (keep-false left x e)) (p, tt)
  ]
  All-keep P left x (y ∷ w) p h = (p, h)

  pub All-pop_front :
      (P : Item → Type 0) (left : ℕ) (w : List Item) → All P w → All P (pop_front below left w)
  unfolding pop_front
  All-pop_front P left [] h = tt
  All-pop_front P left (x ∷ w) h =
      All-keep P left x (pop_front below left w) h.0 (All-pop_front P left w h.1)

  -- An item is popped only for a value that it is below.
  pub Some-pop_back :
      (P : Item → Type 0) (v : Decimal) (w : List Item)
      → Some P w
      → Some P (pop_back below v w) ⊎ ((y : Item) × P y × (below y.1 v ≡ true))
  Some-pop_back P v [] h = elim h [ ]
  Some-pop_back P v (x ∷ w) h = elim (Bool-cases (below x.1 v)) [
    | inl e ↦
        subst (λ u. Some P u ⊎ ((y : Item) × P y × (below y.1 v ≡ true)))
          (sym (pop_back-true v x w e))
          (elim h [ inl p ↦ inr (x, p, e) | inr later ↦ Some-pop_back P v w later ])
    | inr e ↦ inl (subst (Some P) (sym (pop_back-false v x w e)) h)
  ]

  -- An item that is not left of the window stays in it.
  pub Some-pop_front :
      (P : Item → Type 0) (left : ℕ) (w : List Item)
      → Some (λ y. (left ≤ y.0) × P y) w
      → Some P (pop_front below left w)
  unfolding pop_front
  Some-pop_front P left [] h = elim h [ ]
  Some-pop_front P left (x ∷ w) h = elim h [
    | inl p ↦ at_head (pop_front below left w) p
    | inr later ↦ behind (pop_front below left w) (Some-pop_front P left w later)
  ]
    where
      at_head : (kept : List Item) → (left ≤ x.0) × P x → Some P (keep below left x kept)
      at_head [] p = subst (Some P) (sym (keep-false left x (ground (arith, p.0)))) (inl p.1)
      at_head (y ∷ kept) p = inl p.1

      behind : (kept : List Item) → Some P kept → Some P (keep below left x kept)
      behind [] q = elim q [ ]
      behind (y ∷ kept) q = inr q

  pub Sorted-pop_back : (v : Decimal) (w : List Item) → Sorted w → Sorted (pop_back below v w)
  unfolding pop_back
  Sorted-pop_back v [] h = tt
  Sorted-pop_back v (x ∷ w) h = elim (Bool-cases (below x.1 v)) [
    | inl e ↦ subst Sorted (sym (pop_back-true v x w e)) (Sorted-pop_back v w h.1)
    | inr e ↦ subst Sorted (sym (pop_back-false v x w e)) h
  ]

  Sorted-keep :
      (left : ℕ) (x : Item) (kept : List Item)
      → All (Before x) kept
      → Sorted kept
      → Sorted (keep below left x kept)
  Sorted-keep left x [] a h = elim (Bool-cases (ltb x.0 left)) [
    | inl e ↦ subst Sorted (sym (keep-true left x e)) tt
    | inr e ↦ subst Sorted (sym (keep-false left x e)) (tt, tt)
  ]
  Sorted-keep left x (y ∷ ys) a h = (a, h)

  pub Sorted-pop_front : (left : ℕ) (w : List Item) → Sorted w → Sorted (pop_front below left w)
  unfolding pop_front
  Sorted-pop_front left [] h = tt
  Sorted-pop_front left (x ∷ w) h =
      Sorted-keep left x (pop_front below left w) (All-pop_front (Before x) left w h.0)
        (Sorted-pop_front left w h.1)

  keep-inside :
      (left : ℕ) (x : Item) (kept : List Item)
      → All (Before x) kept
      → All (λ (y : Item). left ≤ y.0) kept
      → All (λ (y : Item). left ≤ y.0) (keep below left x kept)
  keep-inside left x [] a h = elim (Bool-cases (ltb x.0 left)) [
    | inl e ↦ subst (All (λ (y : Item). left ≤ y.0)) (sym (keep-true left x e)) tt
    | inr e ↦
        subst (All (λ (y : Item). left ≤ y.0)) (sym (keep-false left x e)) (ground (arith, e), tt)
  ]
  keep-inside left x (y ∷ ys) a h = (omega (arith, a.0.0, h.0), h)

  pub pop_front-inside :
      (left : ℕ) (w : List Item)
      → Sorted w
      → All (λ (y : Item). left ≤ y.0) (pop_front below left w)
  unfolding pop_front
  pop_front-inside left [] h = tt
  pop_front-inside left (x ∷ w) h =
      keep-inside left x (pop_front below left w) (All-pop_front (Before x) left w h.0)
        (pop_front-inside left w h.1)

  module _ (trans : (a b c : Decimal) → below a b ≡ true → below b c ≡ true → below a c ≡ true)
      (total : (a b : Decimal) → below a b ≡ false → below b a ≡ true) where
    pub reflexive : (a : Decimal) → below a a ≡ true
    reflexive a = elim (Bool-cases (below a a)) [ inl t ↦ t | inr e ↦ total a a e ]

    -- What is left of the window is not below the value that is pushed.
    pub pop_back-above :
        (index : ℕ) (v : Decimal) (w : List Item)
        → Sorted w
        → All (λ (y : Item). y.0 < index) w
        → All (Before (index, v)) (pop_back below v w)
    unfolding pop_back
    pop_back-above index v [] h b = tt
    pop_back-above index v (x ∷ w) h b = elim (Bool-cases (below x.1 v)) [
      | inl e ↦
          subst (All (Before (index, v))) (sym (pop_back-true v x w e))
            (pop_back-above index v w h.1 b.1)
      | inr e ↦
          subst (All (Before (index, v))) (sym (pop_back-false v x w e))
            ((b.0, total x.1 v e), later x w (total x.1 v e) h.0 b.1)
    ]
      where
        later :
            (x : Item) (w : List Item)
            → below v x.1 ≡ true
            → All (Before x) w
            → All (λ (y : Item). y.0 < index) w
            → All (Before (index, v)) w
        later x [] t a b = tt
        later x (y ∷ ys) t a b = ((b.0, trans v x.1 y.1 t a.0.1), later x ys t a.1 b.1)

    -- The front of a sorted window is in it, and nothing in it is above.
    pub front-IsGreatest :
        (x : Item) (w : List Item)
        → Sorted (x ∷ w)
        → (m : Decimal) × (front below (x ∷ w) ≡ some m)
          × (below x.1 m ≡ true)
          × All (λ (y : Item). below y.1 m ≡ true) w
          × Some (λ (y : Item). y.1 ≡ m) (x ∷ w)
    front-IsGreatest x [] h = (x.1, refl, reflexive x.1, tt, inl refl)
    front-IsGreatest x (y ∷ w) h =
        let (m, e, top, all, there) = front-IsGreatest y w h.1 in
        (m, e, trans x.1 y.1 m h.0.0.1 top, (top, all), inr there)
