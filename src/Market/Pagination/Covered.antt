-- ===== src/Market/Pagination/Covered.antt =====
-- What `fetch_klines_range` in src/zorqen_research/application/market_data/pagination.py returns.
use zorqen_research.Base.{
  ◌≢◌, ◌∙◌, ap, ℕ, zero, suc, ◌+◌, ◌-◌, ◌≤◌, ◌<◌, ◌≡◌, refl, true, false, List, [], ◌∷◌, ◌++◌,
  length, last_of, Result, ok, err, ◌>>=◌, >>=-eq-ok, ok_inj, Bool-cases, inl, inr, ltb, rethrow,
  arith, subst, sym, ltb→lt,
}
use zorqen_research.Time.{timeframe_duration}
use zorqen_research.Time.Floor.{timeframe_duration_pos}
use zorqen_research.Time.Range.{ImportRange}
use zorqen_research.Market.Candle.{Candle}
use zorqen_research.Market.Pagination.{
  FetchError, client, out_of_fuel, no_advance, SourcePage, FetchResult, PageRequest, request,
  source_page, read_page, fetch_from, fetch_klines_range,
}
use zorqen_research.Market.Pagination.Scan.{
  Ascending, Ascending-append, Ascending-later, IsRead, read_page-IsRead, read_page-Settles,
  advances, Settles, Settles->>=, Expected,
}

-- The last candle, or `cursor` where there is none, reaches up to `end`.
abbrev pub Reaches : ℕ → ℕ → ℕ → List Candle → Type 0
Reaches step cursor end [] = end ≤ cursor
Reaches step cursor end (c ∷ cs) = Reaches step (c.open_time + step) end cs

Reaches-append :
    (step cursor end : ℕ) (c : Candle) (cs ds : List Candle)
    → Reaches step ((last_of c cs).open_time + step) end ds
    → Reaches step cursor end (c ∷ cs ++ ds)
Reaches-append step cursor end c [] ds h = h
Reaches-append step cursor end c (b ∷ cs) ds h =
    Reaches-append step (c.open_time + step) end b cs ds h

-- The pages deal out the candles: each asked from the cursor on, and brought the next candles of the
-- result, one at least and as many as it has rows at most; the next cursor is behind their last slot.
abbrev pub DealtOut : {Bytes : Type 0} → ℕ → ℕ → List (SourcePage Bytes) → List Candle → Type 0
DealtOut step cursor [] cs = cs ≡ []
DealtOut step cursor (p ∷ ps) cs =
    (c : Candle) × (others : List Candle) × (later : List Candle) × (cs ≡ c ∷ others ++ later)
    × (p.requested_start ≡ cursor)
    × (length (c ∷ others) ≤ p.returned_row_count)
    × DealtOut step ((last_of c others).open_time + step) ps later

-- What is retrieved from a cursor on.
pub record IsFetched {Bytes : Type 0} (r : ImportRange) (cursor : ℕ) (result : FetchResult Bytes)
    : Type 0 where
  pub ascending : Ascending cursor r.end result.candles
  pub reaches : Reaches (timeframe_duration r.timeframe) cursor r.end result.candles
  pub no_idle_page : DealtOut (timeframe_duration r.timeframe) cursor result.pages result.candles

rethrow-Settles : {E : Type 0} {A : Type 0} (m : Result E A) → Settles (rethrow client m)
rethrow-Settles (ok a) = tt
rethrow-Settles (err e) = tt

module _ {S E Bytes Symbol : Type 0}
    (client_fetch : S → PageRequest Symbol → Result E (List Candle × Bytes) × S) (symbol : Symbol)
    (r : ImportRange) (page_limit : ℕ) where
  abbrev fetching : ℕ → S → ℕ → List ℕ → Result (FetchError E) (FetchResult Bytes)
  fetching = fetch_from client_fetch symbol r page_limit

  -- One round, at a cursor before the end.
  abbrev round :
      ℕ
      → ℕ
      → List ℕ
      → Result E (List Candle × Bytes) × S
      → Result (FetchError E) (FetchResult Bytes)
  round fuel cursor seen reply = rethrow client reply.0 >>= λ answer.
      read_page client_fetch symbol r page_limit cursor seen answer.0 >>= λ read.
      fetching fuel reply.1 read.2 read.1 >>= λ rest. ok (record {
        candles = read.0 ++ rest.candles;
        pages = source_page client_fetch symbol r page_limit cursor answer.0 answer.1 ∷ rest.pages;
      })

  pub fetch_from-round :
      (fuel : ℕ) (s : S) (cursor : ℕ) (seen : List ℕ)
      → ltb cursor r.end ≡ true
      → fetching (suc fuel) s cursor seen
        ≡ round fuel cursor seen (client_fetch s (request client_fetch symbol r page_limit cursor))
  unfolding fetch_from
  fetch_from-round fuel s cursor seen h = rw (h, fetch_from) refl

  pub fetch_from_done :
      (fuel : ℕ) (s : S) (cursor : ℕ) (seen : List ℕ)
      → ltb cursor r.end ≡ false
      → fetching (suc fuel) s cursor seen ≡ ok (record { candles = []; pages = [] })
  unfolding fetch_from
  fetch_from_done fuel s cursor seen h = rw (h, fetch_from) refl

  IsRead-append :
      (cursor : ℕ) (read : List Candle × List ℕ × ℕ) (rest : FetchResult Bytes) (page : List Candle)
      (raw : Bytes)
      → IsRead r cursor page read
      → IsFetched r read.2 rest
      → IsFetched r cursor (record {
        candles = read.0 ++ rest.candles;
        pages = source_page client_fetch symbol r page_limit cursor page raw ∷ rest.pages;
      })
  IsRead-append cursor read rest page raw is_read fetched =
      let d = timeframe_duration r.timeframe in
      let step = timeframe_duration_pos r.timeframe in
      let e = sym is_read.some_in_range in
      let n = is_read.next_cursor in
      record {
        ascending =
            subst (λ xs. Ascending cursor r.end (xs ++ rest.candles)) e
              (Ascending-append cursor r.end is_read.head is_read.tail rest.candles
                is_read.ascending
                (Ascending-later _ _ r.end rest.candles (omega (arith, step, n))
                  fetched.ascending));
        reaches =
            subst (λ xs. Reaches d cursor r.end (xs ++ rest.candles)) e
              (Reaches-append d cursor r.end is_read.head is_read.tail rest.candles
                (subst (λ t. Reaches d t r.end rest.candles) n fetched.reaches));
        no_idle_page = (
          is_read.head,
          is_read.tail,
          rest.candles,
          ap (λ xs. xs ++ rest.candles) is_read.some_in_range,
          refl,
          omega
              (arith, is_read.among_rows, ap (λ xs. length {A = Candle} xs) is_read.some_in_range),
          subst (λ t. DealtOut d t rest.pages rest.candles) n fetched.no_idle_page,
        );
      }

  fetch_from-IsFetched :
      (fuel : ℕ) (s : S) (cursor : ℕ) (seen : List ℕ) {result : FetchResult Bytes}
      → fetching fuel s cursor seen ≡ ok result
      → IsFetched r cursor result
  unfolding fetch_from
  fetch_from-IsFetched zero s cursor seen h = cc
  fetch_from-IsFetched (suc fuel) s cursor seen h = elim (Bool-cases (ltb cursor r.end)) [
    | inr done ↦
        subst (λ x. IsFetched r cursor x)
          (ok_inj (sym (fetch_from_done fuel s cursor seen done) ∙ h))
          (record { ascending = tt; reaches = ground arith; no_idle_page = refl })
    | inl more ↦
        let reply = client_fetch s (request client_fetch symbol r page_limit cursor) in
        let (answer, answered, h1) =
          >>=-eq-ok (rethrow client reply.0) _
            (sym (fetch_from-round fuel s cursor seen more) ∙ h) in
        let (read, was_read, h2) =
          >>=-eq-ok (read_page client_fetch symbol r page_limit cursor seen answer.0) _ h1 in
        let (rest, fetched, h3) = >>=-eq-ok (fetching fuel reply.1 read.2 read.1) _ h2 in
        subst (λ x. IsFetched r cursor x) (ok_inj h3)
          (IsRead-append cursor read rest answer.0 answer.1
            (read_page-IsRead client_fetch symbol r page_limit cursor seen answer.0 was_read)
            (fetch_from-IsFetched fuel reply.1 read.2 read.1 fetched))
  ]

  -- What a retrieval returns has strictly increasing openings in [start, end), up to the end: the
  -- last candle's slot ends at or after it. The recorded pages deal the candles out in order: each
  -- page asked from the cursor on and brought the next candles, one at least and no more than it has
  -- rows.
  pub fetch_klines_range-IsFetched :
      (s : S) {result : FetchResult Bytes}
      → fetch_klines_range client_fetch symbol r page_limit s ≡ ok result
      → IsFetched r r.start result
  unfolding fetch_klines_range
  fetch_klines_range-IsFetched s h = fetch_from-IsFetched (suc (r.end - r.start)) s r.start [] h

  fetch_from-Settles :
      (fuel : ℕ) (s : S) (cursor : ℕ) (seen : List ℕ)
      → r.end < fuel + cursor
      → 0 < fuel
      → Settles (fetching fuel s cursor seen)
  fetch_from-Settles zero s cursor seen enough some_fuel = absurd (omega arith)
  fetch_from-Settles (suc fuel) s cursor seen enough some_fuel =
      elim (Bool-cases (ltb cursor r.end)) [
        | inr done ↦ subst (λ x. Settles x) (sym (fetch_from_done fuel s cursor seen done)) tt
        | inl more ↦
            let reply = client_fetch s (request client_fetch symbol r page_limit cursor) in
            subst (λ x. Settles x) (sym (fetch_from-round fuel s cursor seen more))
              (Settles->>= (rethrow client reply.0) _ (rethrow-Settles reply.0) (λ answer answered.
                Settles->>= (read_page client_fetch symbol r page_limit cursor seen answer.0) _
                  (read_page-Settles client_fetch symbol r page_limit cursor seen answer.0)
                  (λ read was_read.
                    let is_read =
                      read_page-IsRead client_fetch symbol r page_limit cursor seen answer.0
                        was_read in
                    let up = advances r cursor is_read.head is_read.tail is_read.ascending in
                    Settles->>= (fetching fuel reply.1 read.2 read.1) _
                      (fetch_from-Settles fuel reply.1 read.2 read.1
                        (omega (arith, up, is_read.next_cursor)) (omega (arith, ltb→lt _ _ more)))
                      (λ rest fetched. tt))))
      ]

  never :
      {result : Result (FetchError E) (FetchResult Bytes)} (e : FetchError E)
      → Settles result
      → (Expected e → ⊥)
      → result ≢ err e
  never e settles no_error h = no_error (subst (λ x. Settles x) h settles)

  -- The retrieval ends whatever the client answers: the rounds allowed are never used up. The guard
  -- against a cursor that does not advance never fires either.
  pub fetch_klines_range-Settles :
      (s : S)
      → (fetch_klines_range client_fetch symbol r page_limit s ≢ err out_of_fuel)
        × (fetch_klines_range client_fetch symbol r page_limit s ≢ err no_advance)
  unfolding fetch_klines_range
  fetch_klines_range-Settles s =
      let settles =
        fetch_from-Settles (suc (r.end - r.start)) s r.start [] (omega arith) (omega arith) in
      (never out_of_fuel settles (λ x. x), never no_advance settles (λ x. x))
