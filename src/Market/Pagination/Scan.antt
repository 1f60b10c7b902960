-- ===== src/Market/Pagination/Scan.antt =====
-- The loop over a page of `fetch_klines_range` in
-- src/zorqen_research/application/market_data/pagination.py.
use zorqen_research.Base.{
  Bool, ◌∙◌, ℕ, suc, ◌+◌, ◌≤◌, ◌<◌, ◌≡◌, refl, true, false, Option, none, some, List, [], ◌∷◌, ◌++◌,
  length, last_of, Result, ok, err, ◌>>=◌, >>=-eq-ok, >>-eq-ok, ok_inj, inl, inr, leb, raise_if,
  ◌⊎◌, ap, arith, subst, sym, lt→leb,
}
use zorqen_research.Time.{timeframe_duration}
use zorqen_research.Time.Floor.{timeframe_duration_pos}
use zorqen_research.Time.Range.{ImportRange}
use zorqen_research.Market.Candle.{Candle}
use zorqen_research.Market.Pagination.{
  FetchError, empty_page, stale, duplicate, out_of_order, no_advance, out_of_fuel, PageRequest,
  Verdict, refuse, skip, keep, verdict, not_after, scan, last_open, read_page, is_empty,
}

-- Strictly increasing openings, from `lo` on and before `end`.
abbrev pub Ascending : ℕ → ℕ → List Candle → Type 0
Ascending lo end [] = Unit
Ascending lo end (c ∷ cs) =
    (lo ≤ c.open_time) × (c.open_time < end) × Ascending (suc c.open_time) end cs

pub Ascending-later :
    (lo lo' end : ℕ) (cs : List Candle) → lo ≤ lo' → Ascending lo' end cs → Ascending lo end cs
Ascending-later lo lo' end [] le h = tt
Ascending-later lo lo' end (c ∷ cs) le h = (omega (arith, h.0), h.1, h.2)

pub Ascending-append :
    (lo end : ℕ) (c : Candle) (cs ds : List Candle)
    → Ascending lo end (c ∷ cs)
    → Ascending (suc (last_of c cs).open_time) end ds
    → Ascending lo end (c ∷ cs ++ ds)
Ascending-append lo end c [] ds h k = (h.0, h.1, k)
Ascending-append lo end c (b ∷ cs) ds h k =
    (h.0, h.1, Ascending-append (suc c.open_time) end b cs ds h.2 k)

pub Ascending-last :
    (lo end : ℕ) (c : Candle) (cs : List Candle)
    → Ascending lo end (c ∷ cs)
    → (lo ≤ (last_of c cs).open_time) × ((last_of c cs).open_time < end)
Ascending-last lo end c [] h = (h.0, h.1)
Ascending-last lo end c (b ∷ cs) h =
    let ih = Ascending-last (suc c.open_time) end b cs h.2 in (omega (arith, h.0, ih.0), ih.1)

-- The errors that the model adds or that the code guards against and never meets.
abbrev pub Expected : {E : Type 0} → FetchError E → Type 0
Expected out_of_fuel = ⊥
Expected no_advance = ⊥
Expected other = Unit

abbrev pub Settles {ℓ} : {E : Type 0} {A : Type ℓ} → Result (FetchError E) A → Type 0
Settles (ok a) = Unit
Settles (err e) = Expected e

pub Settles->>= {ℓ κ} :
    {E : Type 0} {A : Type ℓ} {B : Type κ} (m : Result (FetchError E) A)
    (next : A → Result (FetchError E) B)
    → Settles m
    → ((a : A) → m ≡ ok a → Settles (next a))
    → Settles (m >>= next)
Settles->>= (err e) next h k = h
Settles->>= (ok a) next h k = k a refl

verdict-keep :
    {E : Type 0} (cursor end : ℕ) (seen : List ℕ) (last : Option ℕ) (t : ℕ)
    → verdict {E = E} cursor end seen last t ≡ keep
    → (cursor ≤ t) × (t < end) × (not_after last t ≡ false)
unfolding verdict
verdict-keep cursor end seen last t h = ground arith

verdict-Expected :
    {E : Type 0} (cursor end : ℕ) (seen : List ℕ) (last : Option ℕ) (t : ℕ) (e : FetchError E)
    → verdict {E = E} cursor end seen last t ≡ refuse e
    → (e ≡ stale) ⊎ (e ≡ duplicate) ⊎ (e ≡ out_of_order)
unfolding verdict
verdict-Expected cursor end seen last t e h = ground arith

Verdict-cases :
    {E : Type 0} (v : Verdict E) → ((e : FetchError E) × (v ≡ refuse e)) ⊎ (v ≡ skip) ⊎ (v ≡ keep)
Verdict-cases (refuse e) = inl (e, refl)
Verdict-cases skip = inr (inl refl)
Verdict-cases keep = inr (inr refl)

-- Where the next candle of a page may open.
abbrev pub floor_of : ℕ → Option ℕ → ℕ
floor_of cursor none = cursor
floor_of cursor (some t) = suc t

above :
    (cursor : ℕ) (last : Option ℕ) (t : ℕ)
    → cursor ≤ t
    → not_after last t ≡ false
    → floor_of cursor last ≤ t
above cursor none t le h = le
above cursor (some p) t le h = ground arith

module _ (E : Type 0) (cursor end : ℕ) where
  scan-refuse :
      (seen : List ℕ) (last : Option ℕ) (c : Candle) (cs : List Candle) (e : FetchError E)
      → verdict {E = E} cursor end seen last c.open_time ≡ refuse e
      → scan {E = E} cursor end seen last (c ∷ cs) ≡ err e
  unfolding scan
  scan-refuse seen last c cs e h = rw (h, scan) refl

  scan-skip :
      (seen : List ℕ) (last : Option ℕ) (c : Candle) (cs : List Candle)
      → verdict {E = E} cursor end seen last c.open_time ≡ skip
      → scan {E = E} cursor end seen last (c ∷ cs) ≡ scan {E = E} cursor end seen last cs
  unfolding scan
  scan-skip seen last c cs h = rw (h, scan) refl

  pub scan-keep :
      (seen : List ℕ) (last : Option ℕ) (c : Candle) (cs : List Candle)
      → verdict {E = E} cursor end seen last c.open_time ≡ keep
      → scan {E = E} cursor end seen last (c ∷ cs) ≡ (
          scan {E = E} cursor end (c.open_time ∷ seen) (some c.open_time) cs >>= λ rest.
          ok (c ∷ rest.0, rest.1))
  unfolding scan
  scan-keep seen last c cs h = rw (h, scan) refl

  scan-Ascending :
      (seen : List ℕ) (last : Option ℕ) (cs : List Candle) {r : List Candle × List ℕ}
      → scan {E = E} cursor end seen last cs ≡ ok r
      → Ascending (floor_of cursor last) end r.0
  unfolding scan
  scan-Ascending seen last [] h =
      subst (λ r. Ascending (floor_of cursor last) end r.0) (ok_inj h) tt
  scan-Ascending seen last (c ∷ cs) {r} h =
      elim (Verdict-cases (verdict {E = E} cursor end seen last c.open_time)) [
        | inl (e, v) ↦ absurd (cc (scan-refuse seen last c cs e v, h))
        | inr (inl v) ↦ scan-Ascending seen last cs (sym (scan-skip seen last c cs v) ∙ h)
        | inr (inr v) ↦
            let (low, high, after) = verdict-keep {E = E} cursor end seen last c.open_time v in
            let (rest, kept, h') =
              >>=-eq-ok (scan {E = E} cursor end (c.open_time ∷ seen) (some c.open_time) cs) _
                (sym (scan-keep seen last c cs v) ∙ h) in
            subst (λ r. Ascending (floor_of cursor last) end r.0) (ok_inj h')
              (
                above cursor last c.open_time low after,
                high,
                scan-Ascending (c.open_time ∷ seen) (some c.open_time) cs kept,
              )
      ]

  -- No more candles are kept than the page has.
  scan-length :
      (seen : List ℕ) (last : Option ℕ) (cs : List Candle) {r : List Candle × List ℕ}
      → scan {E = E} cursor end seen last cs ≡ ok r
      → length r.0 ≤ length cs
  unfolding scan
  scan-length seen last [] h = subst (λ r. length r.0 ≤ 0) (ok_inj h) (omega arith)
  scan-length seen last (c ∷ cs) {r} h =
      elim (Verdict-cases (verdict {E = E} cursor end seen last c.open_time)) [
        | inl (e, v) ↦ absurd (cc (scan-refuse seen last c cs e v, h))
        | inr (inl v) ↦
            let fewer = scan-length seen last cs (sym (scan-skip seen last c cs v) ∙ h) in
            omega (arith, fewer)
        | inr (inr v) ↦
            let (rest, kept, h') =
              >>=-eq-ok (scan {E = E} cursor end (c.open_time ∷ seen) (some c.open_time) cs) _
                (sym (scan-keep seen last c cs v) ∙ h) in
            let fewer = scan-length (c.open_time ∷ seen) (some c.open_time) cs kept in
            subst (λ r. length r.0 ≤ length (c ∷ cs)) (ok_inj h') (omega (arith, fewer))
      ]

  scan-Settles :
      (seen : List ℕ) (last : Option ℕ) (cs : List Candle)
      → Settles (scan {E = E} cursor end seen last cs)
  unfolding scan
  scan-Settles seen last [] = tt
  scan-Settles seen last (c ∷ cs) =
      elim (Verdict-cases (verdict {E = E} cursor end seen last c.open_time)) [
        | inl (e, v) ↦
            subst (λ r. Settles r) (sym (scan-refuse seen last c cs e v))
              (refused e (verdict-Expected cursor end seen last c.open_time e v))
        | inr (inl v) ↦
            subst (λ r. Settles r) (sym (scan-skip seen last c cs v)) (scan-Settles seen last cs)
        | inr (inr v) ↦
            subst (λ r. Settles r) (sym (scan-keep seen last c cs v))
              (Settles->>= (scan {E = E} cursor end (c.open_time ∷ seen) (some c.open_time) cs) _
                (scan-Settles (c.open_time ∷ seen) (some c.open_time) cs) (λ rest kept. tt))
      ]
    where
      refused : (e : FetchError E) → (e ≡ stale) ⊎ (e ≡ duplicate) ⊎ (e ≡ out_of_order) → Expected e
      refused e (inl h) = subst (λ x. Expected x) (sym h) tt
      refused e (inr (inl h)) = subst (λ x. Expected x) (sym h) tt
      refused e (inr (inr h)) = subst (λ x. Expected x) (sym h) tt

last_open-Settles : (E : Type 0) (cs : List Candle) → Settles (last_open {E = E} cs)
unfolding last_open
last_open-Settles E [] = tt
last_open-Settles E (c ∷ cs) = tt

raise_if-Settles : {E : Type 0} (b : Bool) (e : FetchError E) → Expected e → Settles (raise_if b e)
raise_if-Settles true e h = h
raise_if-Settles false e h = tt

-- The next cursor is past the cursor, so that the guard behind it never fires.
pub advances :
    (r : ImportRange) (cursor : ℕ) (c : Candle) (cs : List Candle)
    → Ascending cursor r.end (c ∷ cs)
    → cursor < (last_of c cs).open_time + timeframe_duration r.timeframe
advances r cursor c cs h =
    omega (arith, (Ascending-last cursor r.end c cs h).0, timeframe_duration_pos r.timeframe)

-- A page that is read: some candles in range, and the cursor behind the last of them.
pub record IsRead (r : ImportRange) (cursor : ℕ) (page : List Candle)
    (read : List Candle × List ℕ × ℕ) : Type 0 where
  pub head : Candle
  pub tail : List Candle
  pub some_in_range : read.0 ≡ head ∷ tail
  pub ascending : Ascending cursor r.end (head ∷ tail)
  pub among_rows : length read.0 ≤ length page
  pub next_cursor : read.2 ≡ (last_of head tail).open_time + timeframe_duration r.timeframe

last_open-eq-ok :
    {E : Type 0} (cs : List Candle) {t : ℕ}
    → last_open {E = E} cs ≡ ok t
    → (b : Candle) × (bs : List Candle) × (cs ≡ b ∷ bs) × ((last_of b bs).open_time ≡ t)
unfolding last_open
last_open-eq-ok [] h = cc
last_open-eq-ok (c ∷ cs) h = (c, cs, refl, ok_inj h)

module _ {S E Bytes Symbol : Type 0}
    (client_fetch : S → PageRequest Symbol → Result E (List Candle × Bytes) × S) (symbol : Symbol)
    (r : ImportRange) (page_limit : ℕ) where
  pub read_page-IsRead :
      (cursor : ℕ) (seen : List ℕ) (page : List Candle) {read : List Candle × List ℕ × ℕ}
      → read_page client_fetch symbol r page_limit cursor seen page ≡ ok read
      → IsRead r cursor page read
  unfolding read_page
  read_page-IsRead cursor seen page h =
      let (not_empty, h1) = >>-eq-ok (is_empty page) empty_page h in
      let (scanned, e, h2) = >>=-eq-ok (scan cursor r.end seen none page) _ h1 in
      let (last, f, h3) = >>=-eq-ok (last_open scanned.0) _ h2 in
      let (b, bs, split, opened) = last_open-eq-ok scanned.0 f in
      let (advanced, h4) =
        >>-eq-ok (leb (last + timeframe_duration r.timeframe) cursor) no_advance h3 in
      subst (λ x. IsRead r cursor page x) (ok_inj h4)
        (record {
          head = b;
          tail = bs;
          some_in_range = split;
          ascending =
              subst (λ x. Ascending cursor r.end x) split
                (scan-Ascending E cursor r.end seen none page e);
          among_rows = scan-length E cursor r.end seen none page e;
          next_cursor = ap (λ (t : ℕ). t + timeframe_duration r.timeframe) (sym opened);
        })

  pub read_page-Settles :
      (cursor : ℕ) (seen : List ℕ) (page : List Candle)
      → Settles (read_page client_fetch symbol r page_limit cursor seen page)
  unfolding read_page
  read_page-Settles cursor seen page =
      Settles->>= (raise_if (is_empty page) empty_page) _
        (raise_if-Settles (is_empty page) empty_page tt)
        (λ u g.
          Settles->>= (scan cursor r.end seen none page) _
            (scan-Settles E cursor r.end seen none page)
            (λ scanned e.
              Settles->>= (last_open scanned.0) _ (last_open-Settles E scanned.0) (λ last f.
                let (b, bs, split, opened) = last_open-eq-ok scanned.0 f in
                let up = advances r cursor b bs (
                  subst (λ x. Ascending cursor r.end x) split
                    (scan-Ascending E cursor r.end seen none page e)) in
                let shut : leb (last + timeframe_duration r.timeframe) cursor ≡ false =
                  lt→leb _ _ (omega (arith, up, opened)) in
                rw shut tt)))
