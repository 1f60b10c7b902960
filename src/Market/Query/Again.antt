-- ===== src/Market/Query/Again.antt =====
-- Asking again, behind a candle of the page: what `validate_candle_query_fields` of
-- src/zorqen_research/application/market_data/query.py says to the cursor.
use zorqen_research.Base.{
  ℕ, ◌<◌, ◌≡◌, refl, subst, Bool, true, false, ltb, leb, ◌&&◌, ◌||◌, not, Option, none, some, ok,
  arith, >>=-eq-ok, >>-eq-ok, ok_inj,
}
use Prim.Native.String.{String}
use zorqen_research.Base.Int.{pos, negsuc}
use zorqen_research.Time.{aware, Timeframe, is_aligned}
use zorqen_research.Market.Candle.{Count, int, not_int}
use zorqen_research.Market.Query.{
  RawQuery, CandleQuery, typed, limit_out_of_range, not_a_uuid, not_a_symbol, not_a_timeframe,
  start_field, end_field, after_field, start_not_before_end, after_before_start,
  after_not_before_end, require_type, require_limit, require_bound, require_canonical_utc, both,
  given, matches, validate_candle_query_fields, min_candle_limit, max_candle_limit,
}

-- The request with the cursor of a page.
abbrev pub after_cursor : RawQuery → ℕ → RawQuery
after_cursor r t = record r { after = some (typed (aware t (pos 0))) }

-- A time that matches a query is neither before its start nor at its end or later.
matches-bounds :
    (q : CandleQuery) (u : ℕ)
    → matches q u ≡ true
    → (both (λ a s. ltb a s) (some u) q.start ≡ false)
      × (both (λ a e. leb e a) (some u) q.end ≡ false)
unfolding matches
matches-bounds q u h = bounds q.start q.end (not (given (λ a. leb u a) q.after)) h
  where
    bounds :
        (s e : Option ℕ) (other : Bool)
        → (not (given (λ s. ltb u s) s) && not (given (λ e. leb e u) e) && other) ≡ true
        → (both (λ a s. ltb a s) (some u) s ≡ false) × (both (λ a e. leb e a) (some u) e ≡ false)
    bounds none none other h = (refl, refl)
    bounds none (some e) other h = (refl, ground arith)
    bounds (some s) none other h = (ground arith, refl)
    bounds (some s) (some e) other h = (ground arith, ground arith)

require_bound_aligned :
    (t : ℕ) (timeframe : Timeframe)
    → is_aligned t timeframe ≡ true
    → require_bound (some (typed (aware t (pos 0)))) timeframe after_field ≡ ok (some t)
unfolding require_bound require_canonical_utc
require_bound_aligned t timeframe h = rw h refl

-- The limit of a query that passed is positive.
require_limit-positive : (c : Count) {n : ℕ} → require_limit c ≡ ok n → 0 < n
unfolding require_limit
require_limit-positive not_int {n} h = cc
require_limit-positive (int (negsuc k)) {n} h = cc
require_limit-positive (int (pos k)) {n} h =
    let (in_range, same) =
      >>-eq-ok (ltb k min_candle_limit || ltb max_candle_limit k) limit_out_of_range h in
    let e = ok_inj same in ground (arith, in_range, e)

validate_in_order :
    (r : RawQuery) {id symbol : String} {timeframe : Timeframe} {limit : ℕ}
    {start end after : Option ℕ}
    → require_type r.snapshot_id not_a_uuid ≡ ok id
    → require_type r.symbol not_a_symbol ≡ ok symbol
    → require_type r.timeframe not_a_timeframe ≡ ok timeframe
    → require_limit r.limit ≡ ok limit
    → require_bound r.start timeframe start_field ≡ ok start
    → require_bound r.end timeframe end_field ≡ ok end
    → require_bound r.after timeframe after_field ≡ ok after
    → both (λ s e. not (ltb s e)) start end ≡ false
    → both (λ a s. ltb a s) after start ≡ false
    → both (λ a e. leb e a) after end ≡ false
    → validate_candle_query_fields r
      ≡ ok (record {
        snapshot_id = id;
        symbol = symbol;
        timeframe = timeframe;
        start = start;
        end = end;
        after = after;
        limit = limit;
      })
unfolding validate_candle_query_fields
validate_in_order r h1 h2 h3 h4 h5 h6 h7 ordered from before =
    rw h1 (rw h2 (rw h3 (rw h4 (rw h5 (rw h6 (rw h7 (rw ordered (rw from (rw before refl)))))))))

-- A query that passed passes again with a cursor that is on the grid and matches it, and its limit is
-- positive.
pub validate_candle_query_fields-again :
    (r : RawQuery) {q : CandleQuery}
    → validate_candle_query_fields r ≡ ok q
    → (0 < q.limit)
      × ((t : ℕ)
          → is_aligned t q.timeframe ≡ true
          → matches q t ≡ true
          → validate_candle_query_fields (after_cursor r t) ≡ ok (record q { after = some t }))
unfolding validate_candle_query_fields
validate_candle_query_fields-again r {q} h =
    let (id, h_id, h1) = >>=-eq-ok (require_type r.snapshot_id not_a_uuid) _ h in
    let (symbol, h_symbol, h2) = >>=-eq-ok (require_type r.symbol not_a_symbol) _ h1 in
    let (timeframe, h_timeframe, h3) = >>=-eq-ok (require_type r.timeframe not_a_timeframe) _ h2 in
    let (limit, h_limit, h4) = >>=-eq-ok (require_limit r.limit) _ h3 in
    let (start, h_start, h5) = >>=-eq-ok (require_bound r.start timeframe start_field) _ h4 in
    let (end, h_end, h6) = >>=-eq-ok (require_bound r.end timeframe end_field) _ h5 in
    let (after, h_after, h7) = >>=-eq-ok (require_bound r.after timeframe after_field) _ h6 in
    let (ordered, h8) = >>-eq-ok (both (λ s e. not (ltb s e)) start end) start_not_before_end h7 in
    let (_, h9) = >>-eq-ok (both (λ a s. ltb a s) after start) after_before_start h8 in
    let (_, h10) = >>-eq-ok (both (λ a e. leb e a) after end) after_not_before_end h9 in
    subst
      (λ (q : CandleQuery).
        (0 < q.limit)
        × ((t : ℕ)
            → is_aligned t q.timeframe ≡ true
            → matches q t ≡ true
            → validate_candle_query_fields (after_cursor r t) ≡ ok (record q { after = some t })))
      (ok_inj h10)
      (
        require_limit-positive r.limit h_limit,
        λ t aligned matched.
            let (from, before) = matches-bounds _ t matched in
            validate_in_order (after_cursor r t) h_id h_symbol h_timeframe h_limit h_start h_end
              (require_bound_aligned t timeframe aligned) ordered from before,
      )
