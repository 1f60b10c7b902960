-- ===== src/Indicators/Extrema/Rolling.antt =====
-- The results of `_rolling_extrema` against the windows of the series.
use zorqen_research.Base.{
  ℕ, ◌+◌, ◌-◌, ◌≤◌, ◌<◌, ◌≡◌, refl, sym, ap, subst, ◌∙◌, Bool, true, false, ltb, Bool-cases, inl,
  inr, Option, none, some, List, [], ◌∷◌, length, All, arith,
}
use zorqen_research.Decimal.{Decimal}
use zorqen_research.Indicators.Extrema.{
  Item, pop_back, pop_front, front, rolling_from, rolling_extrema,
}
use zorqen_research.Indicators.Extrema.Window.{
  Some, IsExtreme, Sorted, Covered, All-pop_back, All-pop_front, Some-pop_back, Some-pop_front,
  Sorted-pop_back, Sorted-pop_front, pop_front-inside, pop_back-above, reflexive, front-IsGreatest,
}

module _ (below : Decimal → Decimal → Bool) where
  Some-map :
      (P Q : Item → Type 0) (w : List Item)
      → ((y : Item) → P y → Q y)
      → Some below P w
      → Some below Q w
  Some-map P Q [] f h = elim h [ ]
  Some-map P Q (x ∷ w) f h = elim h [
    | inl p ↦ inl (f x p)
    | inr later ↦ inr (Some-map P Q w f later)
  ]

  All-map : (P Q : Item → Type 0) (w : List Item) → ((y : Item) → P y → Q y) → All P w → All Q w
  All-map P Q [] f h = tt
  All-map P Q (x ∷ w) f h = (f x h.0, All-map P Q w f h.1)

  Some-with :
      (P Q : Item → Type 0) (w : List Item)
      → Some below P w
      → All Q w
      → Some below (λ y. P y × Q y) w
  Some-with P Q [] h a = elim h [ ]
  Some-with P Q (x ∷ w) h a = elim h [
    | inl p ↦ inl (p, a.0)
    | inr later ↦ inr (Some-with P Q w later a.1)
  ]

  Some-one : (P : Item → Type 0) (w : List Item) → Some below P w → (y : Item) × P y
  Some-one P [] h = elim h [ ]
  Some-one P (x ∷ w) h = elim h [ inl p ↦ (x, p) | inr later ↦ Some-one P w later ]

  -- A deque that stands for the values seen so far whose index is `left` or later.
  record Holds (left index : ℕ) (seen w : List Item) : Type 0 where
    sorted : Sorted below w
    bound : All (λ (y : Item). y.0 < index) w
    inside : All (λ (y : Item). left ≤ y.0) w
    from : All (λ (y : Item). Some below (λ (x : Item). x ≡ y) seen) w
    covers : All (λ (x : Item). left ≤ x.0 → Covered below w x) seen

  module _ (trans : (a b c : Decimal) → below a b ≡ true → below b c ≡ true → below a c ≡ true)
      (total : (a b : Decimal) → below a b ≡ false → below b a ≡ true) where
    push-covers :
        (left index : ℕ) (v : Decimal) (w : List Item) (x : Item)
        → All (λ (y : Item). y.0 < index) w
        → Covered below w x
        → Covered below ((index, v) ∷ pop_back below v w) x
    push-covers left index v w x bound c =
        elim (Some-pop_back below (λ y. ((x.0 ≤ y.0) × (below x.1 y.1 ≡ true)) × (y.0 < index)) v w
          (Some-with (λ y. (x.0 ≤ y.0) × (below x.1 y.1 ≡ true)) (λ y. y.0 < index) w c bound)) [
            | inl kept ↦ inr (
                Some-map (λ y. ((x.0 ≤ y.0) × (below x.1 y.1 ≡ true)) × (y.0 < index))
                  (λ y. (x.0 ≤ y.0) × (below x.1 y.1 ≡ true)) (pop_back below v w) (λ y p. p.0)
                  kept)
            | inr (y, ((le, up), lt), popped) ↦
                inl (omega (arith, le, lt), trans x.1 y.1 v up popped)
          ]

    push-Holds :
        (left index : ℕ) (v : Decimal) (seen w : List Item)
        → left ≤ index
        → Holds left index seen w
        → Holds left (index + 1) ((index, v) ∷ seen) ((index, v) ∷ pop_back below v w)
    push-Holds left index v seen w le h =
        let p = pop_back below v w in
        record {
          sorted = (
            pop_back-above below trans total index v w h.sorted h.bound,
            Sorted-pop_back below v w h.sorted,
          );
          bound = (
            omega arith,
            All-map (λ y. y.0 < index) (λ y. y.0 < index + 1) p (λ y lt. omega (arith, lt))
                (All-pop_back below (λ y. y.0 < index) v w h.bound),
          );
          inside = (le, All-pop_back below (λ y. left ≤ y.0) v w h.inside);
          from = (
            inl refl,
            All-map (λ y. Some below (λ x. x ≡ y) seen)
                (λ y. Some below (λ x. x ≡ y) ((index, v) ∷ seen)) p (λ y s. inr s)
                (All-pop_back below (λ y. Some below (λ x. x ≡ y) seen) v w h.from),
          );
          covers = (
            (λ _. inl (omega arith, reflexive below trans total v)),
            All-map (λ x. left ≤ x.0 → Covered below w x)
                (λ x. left ≤ x.0 → Covered below ((index, v) ∷ p) x) seen
                (λ x c ge. push-covers left index v w x h.bound (c ge)) h.covers,
          );
        }

    slide-Holds :
        (left left' index : ℕ) (seen w : List Item)
        → left ≤ left'
        → Holds left index seen w
        → Holds left' index seen (pop_front below left' w)
    slide-Holds left left' index seen w le h = record {
      sorted = Sorted-pop_front below left' w h.sorted;
      bound = All-pop_front below (λ y. y.0 < index) left' w h.bound;
      inside = pop_front-inside below left' w h.sorted;
      from = All-pop_front below (λ y. Some below (λ x. x ≡ y) seen) left' w h.from;
      covers =
          All-map (λ x. left ≤ x.0 → Covered below w x)
            (λ x. left' ≤ x.0 → Covered below (pop_front below left' w) x) seen
            (λ x c ge.
              Some-pop_front below (λ y. (x.0 ≤ y.0) × (below x.1 y.1 ≡ true)) left' w
                (Some-map (λ y. (x.0 ≤ y.0) × (below x.1 y.1 ≡ true))
                  (λ y. (left' ≤ y.0) × ((x.0 ≤ y.0) × (below x.1 y.1 ≡ true))) w
                  (λ y p. (omega (arith, ge, p.0), p)) (c (omega (arith, le, ge)))))
            h.covers;
    }

    -- The front of such a deque is the extreme.
    Holds-IsExtreme :
        (left index : ℕ) (seen w : List Item) (x : Item)
        → left ≤ x.0
        → Holds left index (x ∷ seen) w
        → (m : Decimal) × (front below w ≡ some m) × IsExtreme below left (x ∷ seen) m
    Holds-IsExtreme left index seen [] x ge h = absurd (h.covers.0 ge)
    Holds-IsExtreme left index seen (y ∷ w) x ge h =
        let (m, e, top, all, there) = front-IsGreatest below trans total y w h.sorted in
        let greatest : All (λ (z : Item). below z.1 m ≡ true) (y ∷ w) = (top, all) in
        let (z, ((same, inner), origin)) =
          Some-one (λ z. ((z.1 ≡ m) × (left ≤ z.0)) × Some below (λ u. u ≡ z) (x ∷ seen)) (y ∷ w)
            (Some-with (λ z. (z.1 ≡ m) × (left ≤ z.0)) (λ z. Some below (λ u. u ≡ z) (x ∷ seen))
              (y ∷ w) (Some-with (λ z. z.1 ≡ m) (λ z. left ≤ z.0) (y ∷ w) there h.inside) h.from) in
        (
          m,
          e,
          (
            All-map (λ u. left ≤ u.0 → Covered below (y ∷ w) u)
                (λ u. left ≤ u.0 → below u.1 m ≡ true) (x ∷ seen)
                (λ u c le.
                  let (z, ((_, up), high)) =
                    Some-one (λ z. ((u.0 ≤ z.0) × (below u.1 z.1 ≡ true)) × (below z.1 m ≡ true))
                      (y ∷ w)
                      (Some-with (λ z. (u.0 ≤ z.0) × (below u.1 z.1 ≡ true))
                        (λ z. below z.1 m ≡ true) (y ∷ w) (c le) greatest) in
                  trans u.1 z.1 m up high)
                h.covers,
            Some-map (λ u. u ≡ z) (λ u. (left ≤ u.0) × (u.1 ≡ m)) (x ∷ seen)
                (λ u s.
                  (subst (λ (t : Item). left ≤ t.0) (sym s) inner, ap (λ (t : Item). t.1) s ∙ same))
                origin,
          ),
        )

    -- What is returned at an index: nothing as long as the window is not full, and then the extreme
    -- of the last `period` values.
    abbrev pub IsResult : ℕ → ℕ → List Item → Option Decimal → Type 0
    IsResult period index seen result =
        (index + 1 < period → result ≡ none)
        × (period ≤ index + 1
            → (m : Decimal) × (result ≡ some m) × IsExtreme below (index + 1 - period) seen m)

    -- One result for each value, `seen` being the values so far, the last one first.
    abbrev pub AreResults : ℕ → ℕ → List Item → List Decimal → List (Option Decimal) → Type 0
    AreResults period index seen [] [] = Unit
    AreResults period index seen (v ∷ vs) (r ∷ rs) =
        IsResult period index ((index, v) ∷ seen) r
        × AreResults period (index + 1) ((index, v) ∷ seen) vs rs
    AreResults period index seen _ _ = ⊥

    abbrev pushed : ℕ → Decimal → List Item → List Item
    pushed index v w = (index, v) ∷ pop_back below v w

    rolling_early :
        (period index : ℕ) (w : List Item) (v : Decimal) (vs : List Decimal)
        → ltb (index + 1) period ≡ true
        → rolling_from below period index w (v ∷ vs)
          ≡ none ∷ rolling_from below period (index + 1) (pushed index v w) vs
    unfolding rolling_from
    rolling_early period index w v vs e = rw (rolling_from, e) refl

    rolling_full :
        (period index : ℕ) (w : List Item) (v : Decimal) (vs : List Decimal)
        → ltb (index + 1) period ≡ false
        → rolling_from below period index w (v ∷ vs)
          ≡ front below (pop_front below (index + 1 - period) (pushed index v w))
            ∷ rolling_from below period
                (index + 1)
                (pop_front below (index + 1 - period) (pushed index v w))
                vs
    unfolding rolling_from
    rolling_full period index w v vs e = rw (rolling_from, e) refl

    rolling_from-AreResults :
        (period index : ℕ) (seen w : List Item) (series : List Decimal)
        → 0 < period
        → Holds (index - period) index seen w
        → AreResults period index seen series (rolling_from below period index w series)
    unfolding rolling_from
    rolling_from-AreResults period index seen w [] pos h = tt
    rolling_from-AreResults period index seen w (v ∷ vs) pos h =
        let now = push-Holds (index - period) index v seen w (omega arith) h in
        let left = index + 1 - period in
        let kept = pop_front below left (pushed index v w) in
        let after =
          slide-Holds (index - period) left (index + 1) ((index, v) ∷ seen) (pushed index v w)
            (omega arith) now in
        elim (Bool-cases (ltb (index + 1) period)) [
          | inl e ↦
              let lt : index + 1 < period = ground (arith, e) in
              let same : index - period ≡ index + 1 - period = omega (arith, lt) in
              subst (AreResults period index seen (v ∷ vs))
                (sym (rolling_early period index w v vs e))
                (
                  ((λ _. refl), (λ ge. absurd (omega (arith, lt, ge)))),
                  rolling_from-AreResults period (index + 1) ((index, v) ∷ seen) (pushed index v w)
                      vs pos
                      (subst (λ l. Holds l (index + 1) ((index, v) ∷ seen) (pushed index v w)) same
                        now),
                )
          | inr e ↦
              let ge : period ≤ index + 1 = ground (arith, e) in
              subst (AreResults period index seen (v ∷ vs))
                (sym (rolling_full period index w v vs e))
                (
                  (
                    (λ lt. absurd (omega (arith, lt, ge))),
                    (λ _.
                        Holds-IsExtreme left (index + 1) seen kept (index, v) (omega (arith, pos))
                          after),
                  ),
                  rolling_from-AreResults period (index + 1) ((index, v) ∷ seen) kept vs pos after,
                )
        ]

    -- For a positive period and a comparison that is transitive and total, the deque returns, for
    -- each value of a series at least one period long, nothing before a whole period has been seen
    -- and from then on the extreme of the last `period` values.
    pub rolling_extrema-AreResults :
        (series : List Decimal) (period : ℕ)
        → 0 < period
        → period ≤ length series
        → AreResults period 0 [] series (rolling_extrema below series period)
    unfolding rolling_extrema
    rolling_extrema-AreResults series period pos le =
        let e : ltb (length series) period ≡ false = ground (arith, le) in
        rw (rolling_extrema, e)
          (rolling_from-AreResults period 0 [] [] series pos
            (record { sorted = tt; bound = tt; inside = tt; from = tt; covers = tt }))
