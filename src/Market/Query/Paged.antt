-- ===== src/Market/Query/Paged.antt =====
-- The pages of `CandleQueryService.query` in
-- src/zorqen_research/application/market_data/query.py, one after the other.
use zorqen_research.Base.{
  ℕ, zero, suc, ◌≤◌, ◌<◌, ◌≡◌, refl, ap, sym, subst, ◌∙◌, true, Option, none, some, List, [], ◌∷◌,
  ◌++◌, length, drop, last_of, All, Bool-cases, inl, inr, Result, ok, err, arith, length-take,
  take-append-drop, length-drop, lt→ltb, le→ltb,
}
use Prim.Native.String.{String}
use native.Mathlib.Decide.{dec_lt}
use zorqen_research.Time.{is_aligned, Timeframe}
use zorqen_research.Market.Candle.{Candle}
use zorqen_research.Market.Query.{
  RawQuery, CandleQuery, CandleQueryPage, QueryError, matches, paginate_candles,
  validate_candle_query_fields, query,
}
use zorqen_research.Market.Query.Again.{after_cursor, validate_candle_query_fields-again}
use zorqen_research.Market.Query.Matching.{
  Rising, matching, length-matching, take_all, page_lem, matching_next, first_of, All-last,
}

-- What a caller has collected: its page and, where there is a cursor, the pages behind it.
abbrev then_pages : List Candle → Option (List (List Candle)) → Option (List (List Candle))
then_pages page none = none
then_pages page (some pages) = some (page ∷ pages)

abbrev pages_from :
    (ℕ → Option (List (List Candle))) → List Candle → Option ℕ → Option (List (List Candle))
pages_from ask page none = some (page ∷ [])
pages_from ask page (some t) = then_pages page (ask t)

abbrev answered :
    (ℕ → Option (List (List Candle)))
    → Result QueryError CandleQueryPage
    → Option (List (List Candle))
answered ask (err e) = none
answered ask (ok page) = pages_from ask page.items page.next_cursor

-- Candles dealt out on pages of `n`: each page but the last is full and leaves something to the next,
-- and the last has the rest.
abbrev pub Paged : ℕ → List (List Candle) → List Candle → Type 0
Paged n [] cs = ⊥
Paged n (page ∷ []) cs = (page ≡ cs) × (length page ≤ n)
Paged n (page ∷ next ∷ pages) cs =
    (rest : List Candle) × (cs ≡ page ++ rest)
    × (length page ≡ n)
    × (0 < length rest)
    × Paged n (next ∷ pages) rest

-- Every candle opens on the grid of the timeframe.
abbrev pub OnGrid : Timeframe → List Candle → Type 0
OnGrid timeframe [] = Unit
OnGrid timeframe (c ∷ cs) = (is_aligned c.open_time timeframe ≡ true) × OnGrid timeframe cs

Paged-more :
    (n : ℕ) (page : List Candle) (pages : List (List Candle)) (cs rest : List Candle)
    → cs ≡ page ++ rest
    → length page ≡ n
    → 0 < length rest
    → Paged n pages rest
    → Paged n (page ∷ pages) cs
Paged-more n page [] cs rest split full more h = absurd h
Paged-more n page (next ∷ pages) cs rest split full more h = (rest, split, full, more, h)

-- What a cursor needs: that it is on the grid and matches.
abbrev Passes : CandleQuery → Candle → Type 0
Passes q c = (is_aligned c.open_time q.timeframe ≡ true) × (matches q c.open_time ≡ true)

matching-Passes :
    (q : CandleQuery) (cs : List Candle) → OnGrid q.timeframe cs → All (Passes q) (matching q cs)
matching-Passes q [] h = tt
matching-Passes q (c ∷ cs) h = elim (Bool-cases (matches q c.open_time)) [
  | inl e ↦ rw e ((h.0, e), matching-Passes q cs h.1)
  | inr e ↦ rw e (matching-Passes q cs h.1)
]

module _ (partition_sha256 : String) where
  -- A caller that asks again with the cursor of the page as long as there is one, `fuel` times at most:
  -- the pages that it is given, or none when a request is refused or the last page still has a cursor.
  unfoldable pub follow : ℕ → RawQuery → List Candle → Option (List (List Candle))
  follow zero r cs = none
  follow (suc fuel) r cs =
      answered (λ t. follow fuel (after_cursor r t) cs) (query cs partition_sha256 r)

  abbrev page_of : CandleQuery → List Candle → CandleQueryPage
  page_of q cs = record (paginate_candles cs q) { partition_sha256 = partition_sha256 }

  query-paginate :
      (cs : List Candle) (r : RawQuery) {q : CandleQuery}
      → validate_candle_query_fields r ≡ ok q
      → query cs partition_sha256 r ≡ ok (page_of q cs)
  unfolding query
  query-paginate cs r h = rw h refl

  follow_last :
      (fuel : ℕ) (r : RawQuery) (cs : List Candle) {page : CandleQueryPage}
      → query cs partition_sha256 r ≡ ok page
      → page.next_cursor ≡ none
      → follow (suc fuel) r cs ≡ some (page.items ∷ [])
  unfolding follow
  follow_last fuel r cs {page} asked last = rw asked (rw last refl)

  follow_next :
      (fuel : ℕ) (r : RawQuery) (cs : List Candle) {page : CandleQueryPage} {t : ℕ}
      {pages : List (List Candle)}
      → query cs partition_sha256 r ≡ ok page
      → page.next_cursor ≡ some t
      → follow fuel (after_cursor r t) cs ≡ some pages
      → follow (suc fuel) r cs ≡ some (page.items ∷ pages)
  unfolding follow
  follow_next fuel r cs {page} {t} {pages} asked next others = rw asked (rw next (rw others refl))

  follow-Paged :
      (fuel : ℕ) (r : RawQuery) (cs : List Candle) {q : CandleQuery}
      → validate_candle_query_fields r ≡ ok q
      → OnGrid q.timeframe cs
      → Rising 0 cs
      → length (matching q cs) < fuel
      → (pages : List (List Candle)) × (follow fuel r cs ≡ some pages)
        × Paged q.limit pages (matching q cs)
        × (length pages ≤ suc (length (matching q cs)))
  follow-Paged zero r cs valid on_grid rising enough = absurd (omega arith)
  follow-Paged (suc fuel) r cs {q} valid on_grid rising enough =
      let m = matching q cs in
      let (some_limit, again) = validate_candle_query_fields-again r valid in
      let (items, cursor) = page_lem q cs in
      let asked = query-paginate cs r valid in
      elim (dec_lt q.limit (length m)) [
        | no last ↦
            let done : (paginate_candles cs q).next_cursor ≡ none =
              cursor ∙ rw (le→ltb q.limit (length m) (omega arith)) refl in
            let all = items ∙ take_all q.limit m (omega arith) in
            (
              (paginate_candles cs q).items ∷ [],
              follow_last fuel r cs asked done,
              (all, omega (arith, ap (λ xs. length {A = Candle} xs) all)),
              omega arith,
            )
        | yes more ↦
            let (c, front, page) = first_of q.limit m some_limit more in
            let t = (last_of c front).open_time in
            let back = drop q.limit m in
            let whole : m ≡ c ∷ front ++ back =
              sym (take-append-drop q.limit m) ∙ ap (λ xs. xs ++ back) page in
            let rest = matching_next q cs c front back whole rising in
            let next : (paginate_candles cs q).next_cursor ≡ some t =
              cursor ∙ rw (lt→ltb _ _ more) (rw page refl) in
            let shorter = ap (λ xs. length {A = Candle} xs) rest in
            let passes =
              All-last (Passes q) c front back
                (subst (λ xs. All (Passes q) xs) whole (matching-Passes q cs on_grid)) in
            let (pages, followed, dealt, few) =
              follow-Paged fuel (after_cursor r t) cs (again t passes.0 passes.1) on_grid rising
                (omega (arith, shorter, length-drop q.limit m)) in
            (
              (paginate_candles cs q).items ∷ pages,
              follow_next fuel r cs asked next followed,
              Paged-more q.limit (paginate_candles cs q).items pages m back
                  (sym (take-append-drop q.limit m) ∙ ap (λ xs. xs ++ back) (sym items))
                  (omega
                    (arith, ap (λ xs. length {A = Candle} xs) items, length-take q.limit m, more))
                  (omega (arith, length-drop q.limit m))
                  (subst (λ xs. Paged q.limit pages xs) rest dealt),
              omega (arith, few, shorter, length-drop q.limit m),
            )
      ]

  -- For candles on the grid of the timeframe with strictly increasing openings, and a request that passes
  -- the validation, asking again with the cursor of each page is never refused and comes, after at most
  -- as many pages as candles and one more, to a page without a cursor. The pages deal out the candles
  -- that match the query, each once and in order: every page but the last has as many as the limit says,
  -- with something left for the next, and the last has the rest.
  pub follow-matching :
      (r : RawQuery) (cs : List Candle) {q : CandleQuery}
      → validate_candle_query_fields r ≡ ok q
      → OnGrid q.timeframe cs
      → Rising 0 cs
      → (pages : List (List Candle)) × (follow (suc (length cs)) r cs ≡ some pages)
        × Paged q.limit pages (matching q cs)
  follow-matching r cs {q} valid on_grid rising =
      let (pages, followed, dealt, _) =
        follow-Paged (suc (length cs)) r cs valid on_grid rising
          (omega (arith, length-matching q cs)) in
      (pages, followed, dealt)
