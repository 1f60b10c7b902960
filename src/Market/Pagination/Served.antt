-- ===== src/Market/Pagination/Served.antt =====
-- The retrieval of src/zorqen_research/application/market_data/pagination.py from a client that
-- answers from a complete history.
use zorqen_research.Base.{
  ◌∙◌, ap, ℕ, zero, suc, ◌+◌, ◌-◌, ◌*◌, ◌/◌, ◌%◌, ◌≤◌, ◌<◌, ◌≡◌, refl, false, Option, none, some,
  List, [], ◌∷◌, ◌++◌, length, take, drop, All, last_of, Result, ok, ltb, leb, if◌then◌else◌, arith,
  subst, sym, take-append-drop, length-drop, lt→leb, le→ltb, lt→ltb, ==_self,
}
use zorqen_research.Time.{Timeframe, timeframe_duration}
use zorqen_research.Time.Floor.{timeframe_duration_pos}
use zorqen_research.Time.Range.{ImportRange, expected_candle_count}
use zorqen_research.Market.Candle.{Candle}
use zorqen_research.Market.Series.Grid.{IsGrid}
use zorqen_research.Market.Series.Slices.{last-IsGrid}
use zorqen_research.Market.Pagination.{
  keep, verdict, seen_in, not_after, scan, FetchResult, PageRequest, request, read_page, fetch_from,
  fetch_klines_range, assert_complete_coverage, check_coverage, source_page, last_open,
}
use zorqen_research.Market.Pagination.Scan.{scan-keep, floor_of}
use zorqen_research.Market.Pagination.Covered.{fetch_from-round, fetch_from_done}

-- The candles of a history that open in [lo, end).
abbrev pub within : ℕ → ℕ → List Candle → List Candle
within lo end [] = []
within lo end (c ∷ cs) =
    let rest = within lo end cs in
    if ltb c.open_time lo then rest else if leb end c.open_time then rest else c ∷ rest

-- What the exchange documents: the first `limit` candles of its history in the range requested.
abbrev pub served : {Symbol : Type 0} → PageRequest Symbol → List Candle → List Candle
served q history = take q.limit (within q.start_time q.end_time history)

within_twice :
    (lo lo' end : ℕ) (cs : List Candle)
    → lo ≤ lo'
    → within lo' end (within lo end cs) ≡ within lo' end cs
within_twice lo lo' end [] le = refl
within_twice lo lo' end (c ∷ cs) le = ground (arith, within_twice lo lo' end cs le)

-- Before a grid nothing is cut off.
within_all :
    (tf : Timeframe) (lo t end : ℕ) (cs : List Candle)
    → IsGrid tf t cs
    → lo ≤ t
    → t + length cs * timeframe_duration tf ≤ end
    → within lo end cs ≡ cs
within_all tf lo t end [] g le fits = refl
within_all tf lo t end (c ∷ cs) g le fits =
    let step = timeframe_duration_pos tf in
    let ih = within_all tf lo (t + timeframe_duration tf) end cs g.2 (omega arith) (omega arith) in
    ground (arith, g.0, ih)

span-append :
    {A : Type 0} (d : ℕ) (xs ys : List A) → length (xs ++ ys) * d ≡ length xs * d + length ys * d
span-append d [] ys = omega arith
span-append d (x ∷ xs) ys = omega (arith, span-append d xs ys)

span-length : {A : Type 0} (d : ℕ) (xs : List A) → 0 < d → length xs ≤ length xs * d
span-length d [] h = omega arith
span-length d (x ∷ xs) h = omega (arith, span-length d xs h)

-- A grid that is cut in two.
IsGrid-append :
    (tf : Timeframe) (t : ℕ) (xs ys : List Candle)
    → IsGrid tf t (xs ++ ys)
    → IsGrid tf t xs × IsGrid tf (t + length xs * timeframe_duration tf) ys
IsGrid-append tf t [] ys g = (tt, subst (λ u. IsGrid tf u ys) (omega arith) g)
IsGrid-append tf t (x ∷ xs) ys g =
    let d = timeframe_duration tf in
    let (front, back) = IsGrid-append tf (t + d) xs ys g.2 in
    let e : t + d + length xs * d ≡ t + suc (length xs) * d = omega arith in
    ((g.0, g.1, front), subst (λ u. IsGrid tf u ys) e back)

within-append :
    (tf : Timeframe) (t end : ℕ) (xs ys : List Candle)
    → IsGrid tf t (xs ++ ys)
    → t + length (xs ++ ys) * timeframe_duration tf ≤ end
    → within (t + length xs * timeframe_duration tf) end (xs ++ ys) ≡ ys
within-append tf t end [] ys g fits =
    within_all tf (t + 0 * timeframe_duration tf) t end ys g (omega arith) fits
within-append tf t end (x ∷ xs) ys g fits =
    let d = timeframe_duration tf in
    let step = timeframe_duration_pos tf in
    let ih = within-append tf (t + d) end xs ys g.2 (omega arith) in
    let e : t + d + length xs * d ≡ t + suc (length xs) * d = omega arith in
    let whole : within (t + d + length xs * d) end (x ∷ xs ++ ys) ≡ ys = ground (arith, g.0, ih) in
    subst (λ u. within u end (x ∷ xs ++ ys) ≡ ys) e whole

fresh : (t : ℕ) (seen : List ℕ) → All (λ x. x < t) seen → seen_in t seen ≡ false
fresh t [] h = refl
fresh t (x ∷ seen) h = ground (arith, fresh t seen h.1, h.0)

seen_stay_older : (t u : ℕ) (seen : List ℕ) → t ≤ u → All (λ x. x < t) seen → All (λ x. x < u) seen
seen_stay_older t u [] le h = tt
seen_stay_older t u (x ∷ seen) le h = (omega (arith, h.0), seen_stay_older t u seen le h.1)

verdict_fresh :
    (E : Type 0) (cursor end t : ℕ) (seen : List ℕ) (last : Option ℕ)
    → cursor ≤ t
    → t < end
    → seen_in t seen ≡ false
    → not_after last t ≡ false
    → verdict {E = E} cursor end seen last t ≡ keep
unfolding verdict
verdict_fresh E cursor end t seen last le lt new after = ground arith

not_after_later :
    (cursor t : ℕ) (last : Option ℕ) → floor_of cursor last ≤ t → not_after last t ≡ false
not_after_later cursor t none le = refl
not_after_later cursor t (some p) le = ground arith

-- A page on the grid is kept whole.
scan-IsGrid :
    (E : Type 0) (tf : Timeframe) (cursor end t : ℕ) (seen : List ℕ) (last : Option ℕ)
    (cs : List Candle)
    → IsGrid tf t cs
    → t + length cs * timeframe_duration tf ≤ end
    → cursor ≤ t
    → floor_of cursor last ≤ t
    → All (λ x. x < t) seen
    → (seen' : List ℕ) × (scan {E = E} cursor end seen last cs ≡ ok (cs, seen'))
      × All (λ x. x < t + length cs * timeframe_duration tf) seen'
unfolding scan
scan-IsGrid E tf cursor end t seen last [] g fits le low older =
    (seen, refl, seen_stay_older t _ seen (omega arith) older)
scan-IsGrid E tf cursor end t seen last (c ∷ cs) g fits le low older =
    let d = timeframe_duration tf in
    let step = timeframe_duration_pos tf in
    let v =
      verdict_fresh E cursor end c.open_time seen last (omega (arith, g.0)) (omega (arith, g.0))
        (rw g.0 (fresh t seen older)) (rw g.0 (not_after_later cursor t last low)) in
    let (seen', e, all) =
      scan-IsGrid E tf cursor end (t + d) (c.open_time ∷ seen) (some c.open_time) cs g.2
        (omega arith) (omega arith) (omega (arith, g.0))
        (omega (arith, g.0), seen_stay_older t (t + d) seen (omega arith) older) in
    (
      seen',
      (scan-keep E cursor end seen last c cs v ∙ rw e refl),
      seen_stay_older _ _ seen' (omega arith) all,
    )

check_coverage_grid :
    (r : ImportRange) (t : ℕ) (cs : List Candle)
    → IsGrid r.timeframe t cs
    → r.start ≤ t
    → t + length cs * timeframe_duration r.timeframe ≤ r.end
    → check_coverage r t cs ≡ ok tt
unfolding check_coverage
check_coverage_grid r t [] g le fits = refl
check_coverage_grid r t (c ∷ cs) g le fits =
    let step = timeframe_duration_pos r.timeframe in
    let ih =
      check_coverage_grid r (t + timeframe_duration r.timeframe) cs g.2 (omega arith)
        (omega arith) in
    ground (arith, g.0, ih)

assert_complete_coverage_grid :
    (r : ImportRange) (cs : List Candle)
    → IsGrid r.timeframe r.start cs
    → r.start + length cs * timeframe_duration r.timeframe ≡ r.end
    → assert_complete_coverage cs r ≡ ok tt
unfolding assert_complete_coverage expected_candle_count
assert_complete_coverage_grid r cs g fits =
    let d = timeframe_duration r.timeframe in
    let step = timeframe_duration_pos r.timeframe in
    let span : r.end - r.start ≡ length cs * d = omega arith in
    let whole : (r.end - r.start) % d ≡ 0 = rw span (grind arith) in
    let count : (r.end - r.start) / d ≡ length cs = rw span (grind arith) in
    rw whole (
      rw count
        (rw (==_self (length cs)) (check_coverage_grid r r.start cs g (omega arith) (omega arith))))

module _ {S E Bytes Symbol : Type 0}
    (client_fetch : S → PageRequest Symbol → Result E (List Candle × Bytes) × S) (symbol : Symbol)
    (r : ImportRange) (page_limit : ℕ) where
  read_page-IsGrid :
      (t : ℕ) (seen : List ℕ) (c : Candle) (cs : List Candle)
      → IsGrid r.timeframe t (c ∷ cs)
      → t + length (c ∷ cs) * timeframe_duration r.timeframe ≤ r.end
      → All (λ x. x < t) seen
      → (seen' : List ℕ) × (read_page client_fetch symbol r page_limit t seen (c ∷ cs)
          ≡ ok (c ∷ cs, seen', t + length (c ∷ cs) * timeframe_duration r.timeframe))
        × All (λ x. x < t + length (c ∷ cs) * timeframe_duration r.timeframe) seen'
  unfolding read_page last_open
  read_page-IsGrid t seen c cs g fits older =
      let d = timeframe_duration r.timeframe in
      let step = timeframe_duration_pos r.timeframe in
      let (seen', e, all) =
        scan-IsGrid E r.timeframe t r.end t seen none (c ∷ cs) g fits (omega arith) (omega arith)
          older in
      let last = last-IsGrid r.timeframe t c cs g in
      let n : (last_of c cs).open_time + d ≡ t + suc (length cs) * d = omega (arith, last.0) in
      let up : leb (t + suc (length cs) * d) t ≡ false = lt→leb _ _ (omega (arith, step)) in
      (seen', rw e (rw n (rw up refl)), all)

  module _ (history : List Candle)
      (serves : (s : S) (q : PageRequest Symbol)
        → (raw : Bytes) × (s' : S) × (client_fetch s q ≡ (ok (served q history, raw), s')))
      (some_limit : 0 < page_limit) where
    fetch_page-served :
        (fuel : ℕ) (s : S) (t : ℕ) (seen : List ℕ) (c : Candle) (cs ds : List Candle)
        → IsGrid r.timeframe t (c ∷ cs ++ ds)
        → t + length (c ∷ cs ++ ds) * timeframe_duration r.timeframe ≡ r.end
        → take page_limit (within t r.end history) ≡ c ∷ cs
        → All (λ x. x < t) seen
        → t < r.end
        → ((s' : S) (seen' : List ℕ)
            → All (λ x. x < t + length (c ∷ cs) * timeframe_duration r.timeframe) seen'
            → (rest : FetchResult Bytes) × (fetch_from client_fetch symbol r page_limit fuel s'
                  (t + length (c ∷ cs) * timeframe_duration r.timeframe)
                  seen'
                ≡ ok rest)
              × (rest.candles ≡ ds))
        → (result : FetchResult Bytes) × (fetch_from client_fetch symbol r page_limit
              (suc fuel)
              s
              t
              seen
            ≡ ok result)
          × (result.candles ≡ c ∷ cs ++ ds)
    fetch_page-served fuel s t seen c cs ds g fits page older before next =
        let d = timeframe_duration r.timeframe in
        let (raw, s', answered) = serves s (request client_fetch symbol r page_limit t) in
        let g' = IsGrid-append r.timeframe t (c ∷ cs) ds g in
        let (seen', was_read, newer) =
          read_page-IsGrid t seen c cs g'.0 (omega (arith, span-append d (c ∷ cs) ds)) older in
        let (rest, fetched, same) = next s' seen' newer in
        let round =
          fetch_from-round client_fetch symbol r page_limit fuel s t seen (lt→ltb _ _ before) in
        let result : FetchResult Bytes = record {
          candles = c ∷ cs ++ rest.candles;
          pages = source_page client_fetch symbol r page_limit t (c ∷ cs) raw ∷ rest.pages;
        } in
        (result, (round ∙ rw answered (rw page (rw was_read (rw fetched refl)))), rw same refl)

    fetch_from-served :
        (fuel : ℕ) (s : S) (t : ℕ) (seen : List ℕ) (ds : List Candle)
        → IsGrid r.timeframe t ds
        → t + length ds * timeframe_duration r.timeframe ≡ r.end
        → within t r.end history ≡ ds
        → All (λ x. x < t) seen
        → length ds < fuel
        → (result : FetchResult Bytes) × (fetch_from client_fetch symbol r page_limit fuel s t seen
            ≡ ok result)
          × (result.candles ≡ ds)
    fetch_from-served zero s t seen ds g fits rest_of older enough = absurd (omega arith)
    fetch_from-served (suc fuel) s t seen [] g fits rest_of older enough = (
      record { candles = []; pages = [] },
      fetch_from_done client_fetch symbol r page_limit fuel s t seen (le→ltb _ _ (omega arith)),
      refl,
    )
    fetch_from-served (suc fuel) s t seen (c ∷ cs) g fits rest_of older enough =
        let d = timeframe_duration r.timeframe in
        let step = timeframe_duration_pos r.timeframe in
        let l = page_limit - 1 in
        let front = take l cs in
        let back = drop l cs in
        let cut : c ∷ cs ≡ c ∷ front ++ back = ap (λ xs. c ∷ xs) (sym (take-append-drop l cs)) in
        let g' = subst (λ xs. IsGrid r.timeframe t xs) cut g in
        let fits' = subst (λ xs. t + length xs * d ≡ r.end) cut fits in
        let some_room : page_limit ≡ suc l = omega (arith, some_limit) in
        let page : take page_limit (within t r.end history) ≡ c ∷ front =
          rw rest_of (ap (λ (n : ℕ). take n (c ∷ cs)) some_room) in
        let later : within (t + length (c ∷ front) * d) r.end history ≡ back =
          sym (within_twice t (t + length (c ∷ front) * d) r.end history (omega arith))
          ∙ ap (λ xs. within (t + length (c ∷ front) * d) r.end xs) (rest_of ∙ cut)
          ∙ within-append r.timeframe t r.end (c ∷ front) back g' (omega arith) in
        let (result, fetched, same) =
          fetch_page-served fuel s t seen c front back g' fits' page older (omega arith)
            (λ s' seen' newer.
              fetch_from-served fuel s' (t + length (c ∷ front) * d) seen' back
                (IsGrid-append r.timeframe t (c ∷ front) back g').1
                (omega (arith, span-append d (c ∷ front) back)) later newer
                (omega (arith, length-drop l cs))) in
        (result, fetched, same ∙ sym cut)

    -- A client that answers every request with the first `limit` candles of one history in the
    -- range requested, where that history is complete on the range and the limit positive: the
    -- retrieval returns exactly the history's candles in the range, and they pass the check of the
    -- coverage.
    pub fetch_klines_range-served :
        (s : S) (cs : List Candle)
        → within r.start r.end history ≡ cs
        → IsGrid r.timeframe r.start cs
        → r.start + length cs * timeframe_duration r.timeframe ≡ r.end
        → (result : FetchResult Bytes) × (fetch_klines_range client_fetch symbol r page_limit s
            ≡ ok result)
          × (result.candles ≡ cs)
          × (assert_complete_coverage result.candles r ≡ ok tt)
    unfolding fetch_klines_range
    fetch_klines_range-served s cs rest_of g fits =
        let long =
          span-length (timeframe_duration r.timeframe) cs (timeframe_duration_pos r.timeframe) in
        let (result, fetched, same) =
          fetch_from-served (suc (r.end - r.start)) s r.start [] cs g fits rest_of tt
            (omega arith) in
        (result, fetched, same, rw same (assert_complete_coverage_grid r cs g fits))
