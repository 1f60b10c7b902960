-- ===== src/Market/Query.antt =====
-- The read-only candle query: src/zorqen_research/application/market_data/query.py, from the
-- validation of a query to its page. A UUID and a symbol are their texts.
mod Again
mod Matching
pub mod Paged
mod Tests
use zorqen_research.Base.{
  ℕ, zero, suc, ◌+◌, Bool, true, false, ltb, leb, ◌&&◌, ◌||◌, not, Option, none, some, List, [],
  ◌∷◌, length, take, last_of, Result, ok, err, ◌>>=◌, ◌>>◌, raise_if,
}
use zorqen_research.Base.Int.{ℤ, pos, negsuc, eq_ℤ}
use Prim.Native.String.{String}
use zorqen_research.Time.{DateTime, naive, aware, Timeframe, is_aligned}
use zorqen_research.Market.Candle.{Candle, Count, int, not_int}

-- A value of the type that is wanted, or of another.
pub data Value (A : Type 0) : Type 0 where
  typed : A → Value A
  untyped : Value A

-- The field that a message names.
pub data Field : Type 0 where
  start_field end_field after_field : Field

-- The CandleQueryValidationErrors.
pub data QueryError : Type 0 where
  not_a_uuid not_a_symbol not_a_timeframe limit_not_int limit_out_of_range : QueryError
  not_a_datetime not_aware not_utc misaligned : Field → QueryError
  start_not_before_end after_before_start after_not_before_end : QueryError

abbrev pub min_candle_limit : ℕ
min_candle_limit = 1

abbrev pub max_candle_limit : ℕ
max_candle_limit = 5_000

-- The arguments of the constructor.
pub record RawQuery : Type 0 where
  pub snapshot_id : Value String
  pub symbol : Value String
  pub timeframe : Value Timeframe
  pub start : Option (Value DateTime)
  pub end : Option (Value DateTime)
  pub after : Option (Value DateTime)
  pub limit : Count

pub record CandleQuery : Type 0 where
  pub snapshot_id : String
  pub symbol : String
  pub timeframe : Timeframe
  pub start : Option ℕ
  pub end : Option ℕ
  pub after : Option ℕ
  pub limit : ℕ

abbrev pub require_type : {A : Type 0} → Value A → QueryError → Result QueryError A
require_type (typed a) e = ok a
require_type untyped e = err e

-- `_require_canonical_utc`
unfoldable pub require_canonical_utc : Value DateTime → Field → Result QueryError ℕ
require_canonical_utc untyped field = err (not_a_datetime field)
require_canonical_utc (typed (naive wall)) field = err (not_aware field)
require_canonical_utc (typed (aware utc offset)) field = do
  raise_if (not (eq_ℤ offset (pos 0))) (not_utc field)
  ok utc

unfoldable pub require_limit : Count → Result QueryError ℕ
require_limit not_int = err limit_not_int
require_limit (int (negsuc n)) = err limit_out_of_range
require_limit (int (pos n)) = do
  raise_if (ltb n min_candle_limit || ltb max_candle_limit n) limit_out_of_range
  ok n

-- One of the three times, where it is given.
unfoldable pub require_bound :
    Option (Value DateTime) → Timeframe → Field → Result QueryError (Option ℕ)
unfolding require_canonical_utc
require_bound none timeframe field = ok none
require_bound (some value) timeframe field = do
  utc ← require_canonical_utc value field
  raise_if (not (is_aligned utc timeframe)) (misaligned field)
  ok (some utc)

-- A test on two times that holds only where both are given.
abbrev pub both : (ℕ → ℕ → Bool) → Option ℕ → Option ℕ → Bool
both test (some a) (some b) = test a b
both test _ _ = false

-- `validate_candle_query_fields`, with the query that it lets pass.
unfoldable pub validate_candle_query_fields : RawQuery → Result QueryError CandleQuery
unfolding require_bound require_limit
validate_candle_query_fields r = do
  snapshot_id ← require_type r.snapshot_id not_a_uuid
  symbol ← require_type r.symbol not_a_symbol
  timeframe ← require_type r.timeframe not_a_timeframe
  limit ← require_limit r.limit
  start ← require_bound r.start timeframe start_field
  end ← require_bound r.end timeframe end_field
  after ← require_bound r.after timeframe after_field
  raise_if (both (λ s e. not (ltb s e)) start end) start_not_before_end
  raise_if (both (λ a s. ltb a s) after start) after_before_start
  raise_if (both (λ a e. leb e a) after end) after_not_before_end
  ok (record {
    snapshot_id = snapshot_id;
    symbol = symbol;
    timeframe = timeframe;
    start = start;
    end = end;
    after = after;
    limit = limit;
  })

-- The three tests that skip a candle.
abbrev pub given : (ℕ → Bool) → Option ℕ → Bool
given test none = false
given test (some t) = test t

unfoldable pub matches : CandleQuery → ℕ → Bool
matches q open_time =
    not (given (λ s. ltb open_time s) q.start)
    && not (given (λ e. leb e open_time) q.end)
    && not (given (λ a. leb open_time a) q.after)

-- The loop, which ends when `room` further candles have been collected.
unfoldable pub collect : CandleQuery → ℕ → List Candle → List Candle
collect q zero cs = []
collect q (suc room) [] = []
collect q (suc room) (c ∷ cs) = elim (matches q c.open_time) [
  | true ↦ c ∷ collect q room cs
  | false ↦ collect q (suc room) cs
]

unfoldable pub collect_matching_page : List Candle → CandleQuery → List Candle
collect_matching_page candles q = collect q (suc q.limit) candles

pub record CandleQueryPage : Type 0 where
  pub snapshot_id : String
  pub symbol : String
  pub timeframe : Timeframe
  pub partition_sha256 : String
  pub count : ℕ
  pub has_more : Bool
  pub next_cursor : Option ℕ
  pub items : List Candle

-- `page[-1].open_time if has_more and page else None`
abbrev pub cursor_of : Bool → List Candle → Option ℕ
cursor_of true (c ∷ cs) = some (last_of c cs).open_time
cursor_of _ _ = none

unfoldable pub paginate_candles : List Candle → CandleQuery → CandleQueryPage
unfolding collect_matching_page
paginate_candles candles q =
    let matching = collect_matching_page candles q in
    let has_more = ltb q.limit (length matching) in
    let page = take q.limit matching in
    record {
      snapshot_id = q.snapshot_id;
      symbol = q.symbol;
      timeframe = q.timeframe;
      partition_sha256 = "";
      count = length page;
      has_more = has_more;
      next_cursor = cursor_of has_more page;
      items = page;
    }

-- `CandleQueryService.query` on the candles and the hash of the partition that was verified.
unfoldable pub query : List Candle → String → RawQuery → Result QueryError CandleQueryPage
unfolding validate_candle_query_fields paginate_candles
query candles partition_sha256 r = do
  q ← validate_candle_query_fields r
  ok (record (paginate_candles candles q) { partition_sha256 = partition_sha256 })
