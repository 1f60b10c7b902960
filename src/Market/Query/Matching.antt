-- ===== src/Market/Query/Matching.antt =====
-- The page of `paginate_candles` in src/zorqen_research/application/market_data/query.py, and all that
-- matches a query.
use zorqen_research.Base.{
  ℕ, zero, suc, ◌≤◌, ◌<◌, ◌≡◌, refl, ap, subst, ◌∙◌, Bool, true, false, ltb, leb, ◌&&◌, not, Option,
  none, some, List, [], ◌∷◌, ◌++◌, length, take, last_of, All, Bool-cases, inl, inr, arith,
  if◌then◌else◌, length-take,
}
use zorqen_research.Market.Candle.{Candle}
use zorqen_research.Market.Query.{
  CandleQuery, matches, given, collect, collect_matching_page, paginate_candles, cursor_of,
}

-- Strictly increasing openings from `lo` on.
abbrev pub Rising : ℕ → List Candle → Type 0
Rising lo [] = Unit
Rising lo (c ∷ cs) = (lo ≤ c.open_time) × Rising (suc c.open_time) cs

-- All the candles that a query asks for.
abbrev pub matching : CandleQuery → List Candle → List Candle
matching q [] = []
matching q (c ∷ cs) = if matches q c.open_time then c ∷ matching q cs else matching q cs

collect-matches :
    (q : CandleQuery) (room : ℕ) (c : Candle) (cs : List Candle)
    → matches q c.open_time ≡ true
    → collect q (suc room) (c ∷ cs) ≡ c ∷ collect q room cs
unfolding collect
collect-matches q room c cs h = rw (h, collect) refl

collect_skip :
    (q : CandleQuery) (room : ℕ) (c : Candle) (cs : List Candle)
    → matches q c.open_time ≡ false
    → collect q (suc room) (c ∷ cs) ≡ collect q (suc room) cs
unfolding collect
collect_skip q room c cs h = rw (h, collect) refl

collect-take :
    (q : CandleQuery) (room : ℕ) (cs : List Candle) → collect q room cs ≡ take room (matching q cs)
unfolding collect
collect-take q zero cs = refl
collect-take q (suc room) [] = refl
collect-take q (suc room) (c ∷ cs) = elim (Bool-cases (matches q c.open_time)) [
  | inl e ↦ collect-matches q room c cs e ∙ rw e (ap (λ xs. c ∷ xs) (collect-take q room cs))
  | inr e ↦ collect_skip q room c cs e ∙ rw e (collect-take q (suc room) cs)
]

-- The candles that open behind `t`.
abbrev past : ℕ → List Candle → List Candle
past t [] = []
past t (c ∷ cs) = if leb c.open_time t then past t cs else c ∷ past t cs

abbrev IsBehind : Option ℕ → ℕ → Type 0
IsBehind none t = Unit
IsBehind (some a) t = a < t

-- Asking behind a later time is asking and then cutting off.
matches_after :
    (q : CandleQuery) (t u : ℕ)
    → IsBehind q.after t
    → matches (record q { after = some t }) u ≡ (matches q u && not (leb u t))
unfolding matches
matches_after q t u behind = after-cases q.after behind
  where
    after-cases :
        (a : Option ℕ)
        → IsBehind a t
        → (not (given (λ s. ltb u s) q.start) && not (given (λ e. leb e u) q.end) && not (leb u t))
          ≡ ((not (given (λ s. ltb u s) q.start)
                && not (given (λ e. leb e u) q.end)
                && not (given (λ x. leb u x) a))
              && not (leb u t))
    after-cases none h = ground arith
    after-cases (some a) h = ground arith

matching_after :
    (q : CandleQuery) (t : ℕ) (cs : List Candle)
    → IsBehind q.after t
    → matching (record q { after = some t }) cs ≡ past t (matching q cs)
matching_after q t [] behind = refl
matching_after q t (c ∷ cs) behind =
    let e = matches_after q t c.open_time behind in
    let ih = matching_after q t cs behind in
    rw e (
      rw ih (elim (Bool-cases (matches q c.open_time)) [
        | inl yes' ↦
            rw yes'
              (elim (Bool-cases (leb c.open_time t)) [ inl x ↦ rw x refl | inr x ↦ rw x refl ])
        | inr no' ↦ rw no' refl
      ]))

matches-IsBehind : (q : CandleQuery) (u : ℕ) → matches q u ≡ true → IsBehind q.after u
unfolding matches
matches-IsBehind q u h =
    behind q.after (not (given (λ s. ltb u s) q.start) && not (given (λ e. leb e u) q.end)) h
  where
    behind :
        (a : Option ℕ) (others : Bool)
        → (others && not (given (λ x. leb u x) a)) ≡ true
        → IsBehind a u
    behind none others h = tt
    behind (some a) others h = ground arith

Rising-later : (lo lo' : ℕ) (cs : List Candle) → lo ≤ lo' → Rising lo' cs → Rising lo cs
Rising-later lo lo' [] le h = tt
Rising-later lo lo' (c ∷ cs) le h = (omega (arith, h.0), h.1)

matching-Rising :
    (q : CandleQuery) (lo : ℕ) (cs : List Candle) → Rising lo cs → Rising lo (matching q cs)
matching-Rising q lo [] h = tt
matching-Rising q lo (c ∷ cs) h =
    let ih = matching-Rising q (suc c.open_time) cs h.1 in
    elim (Bool-cases (matches q c.open_time)) [
      | inl e ↦ rw e (h.0, ih)
      | inr e ↦ rw e (Rising-later lo (suc c.open_time) (matching q cs) (omega (arith, h.0)) ih)
    ]

past_of_later : (lo t : ℕ) (cs : List Candle) → Rising lo cs → t < lo → past t cs ≡ cs
past_of_later lo t [] h lt = refl
past_of_later lo t (c ∷ cs) h lt =
    let ih = past_of_later (suc c.open_time) t cs h.1 (omega (arith, h.0)) in
    ground (arith, h.0, ih)

Rising-last :
    (lo : ℕ) (c : Candle) (cs ds : List Candle)
    → Rising lo (c ∷ cs ++ ds)
    → lo ≤ (last_of c cs).open_time
Rising-last lo c [] ds h = h.0
Rising-last lo c (b ∷ cs) ds h = omega (arith, h.0, Rising-last (suc c.open_time) b cs ds h.1)

past_last :
    (lo : ℕ) (c : Candle) (cs ds : List Candle)
    → Rising lo (c ∷ cs ++ ds)
    → past (last_of c cs).open_time (c ∷ cs ++ ds) ≡ ds
past_last lo c [] ds h =
    let ih = past_of_later (suc c.open_time) c.open_time ds h.1 (omega arith) in ground (arith, ih)
past_last lo c (b ∷ cs) ds h =
    let ih = past_last (suc c.open_time) b cs ds h.1 in
    let le = Rising-last (suc c.open_time) b cs ds h.1 in ground (arith, ih, le)

matching-IsBehind :
    (q : CandleQuery) (cs : List Candle) → All (λ c. IsBehind q.after c.open_time) (matching q cs)
matching-IsBehind q [] = tt
matching-IsBehind q (c ∷ cs) = elim (Bool-cases (matches q c.open_time)) [
  | inl e ↦ rw e (matches-IsBehind q c.open_time e, matching-IsBehind q cs)
  | inr e ↦ rw e (matching-IsBehind q cs)
]

pub All-last :
    (P : Candle → Type 0) (c : Candle) (cs ds : List Candle)
    → All P (c ∷ cs ++ ds)
    → P (last_of c cs)
All-last P c [] ds h = h.0
All-last P c (b ∷ cs) ds h = All-last P b cs ds h.1

pub length-matching : (q : CandleQuery) (cs : List Candle) → length (matching q cs) ≤ length cs
length-matching q [] = omega arith
length-matching q (c ∷ cs) =
    let ih = length-matching q cs in
    elim (Bool-cases (matches q c.open_time)) [
      | inl e ↦ rw e (omega arith)
      | inr e ↦ rw e (omega arith)
    ]

take_of_longer_take : {A : Type 0} (n : ℕ) (xs : List A) → take n (take (suc n) xs) ≡ take n xs
take_of_longer_take zero xs = refl
take_of_longer_take (suc n) [] = refl
take_of_longer_take (suc n) (x ∷ xs) = ap (λ ys. x ∷ ys) (take_of_longer_take n xs)

pub take_all : {A : Type 0} (n : ℕ) (xs : List A) → length xs ≤ n → take n xs ≡ xs
take_all zero [] h = refl
take_all zero (x ∷ xs) h = absurd (omega arith)
take_all (suc n) [] h = refl
take_all (suc n) (x ∷ xs) h = ap (λ ys. x ∷ ys) (take_all n xs (omega arith))

-- The page and its cursor, in terms of all that matches.
pub page_lem :
    (q : CandleQuery) (cs : List Candle)
    → let m = matching q cs in
      let page = paginate_candles cs q in
      (page.items ≡ take q.limit m)
      × (page.next_cursor ≡ cursor_of (ltb q.limit (length m)) (take q.limit m))
unfolding paginate_candles collect_matching_page
page_lem q cs =
    let m = matching q cs in
    let e = collect-take q (suc q.limit) cs in
    let shorter = length-take (suc q.limit) m in
    let more : ltb q.limit (length (take (suc q.limit) m)) ≡ ltb q.limit (length m) =
      ground (arith, shorter) in
    (rw e (take_of_longer_take q.limit m), rw e (rw (take_of_longer_take q.limit m) (rw more refl)))

-- Behind the last candle of a page stands the rest of what matches.
pub matching_next :
    (q : CandleQuery) (cs : List Candle) (c : Candle) (front back : List Candle)
    → matching q cs ≡ c ∷ front ++ back
    → Rising 0 cs
    → matching (record q { after = some (last_of c front).open_time }) cs ≡ back
matching_next q cs c front back whole rising =
    let t = (last_of c front).open_time in
    let rises = subst (λ xs. Rising 0 xs) whole (matching-Rising q 0 cs rising) in
    let behind =
      All-last (λ c. IsBehind q.after c.open_time) c front back
        (subst (λ xs. All (λ c. IsBehind q.after c.open_time) xs) whole (matching-IsBehind q cs)) in
    matching_after q t cs behind ∙ ap (λ xs. past t xs) whole ∙ past_last 0 c front back rises

pub first_of :
    (n : ℕ) (xs : List Candle)
    → 0 < n
    → n < length xs
    → (c : Candle) × (front : List Candle) × (take n xs ≡ c ∷ front)
first_of zero xs h k = absurd (omega arith)
first_of (suc n) [] h k = absurd (omega arith)
first_of (suc n) (x ∷ xs) h k = (x, take n xs, refl)
