-- ===== src/Market/Pagination.antt =====
-- Paged retrieval: src/zorqen_research/application/market_data/pagination.py. The client is a
-- parameter: a function of its own state, which it may change, and of the request.
pub mod Scan
pub mod Covered
pub mod Served
mod Tests
use zorqen_research.Base.{
  ℕ, zero, suc, ◌+◌, ◌-◌, Bool, true, false, ltb, leb, ◌==◌, ◌||◌, not, Option, none, some, List,
  [], ◌∷◌, ◌++◌, length, last_of, Result, ok, err, ◌>>=◌, ◌>>◌, raise_if, rethrow, if◌then◌else◌,
}
use zorqen_research.Time.{Timeframe, timeframe_duration}
use zorqen_research.Time.Range.{ImportRange, RangeError, expected_candle_count}
use zorqen_research.Market.Candle.{Candle}

pub record SourcePage (Bytes : Type 0) : Type 0 where
  pub raw_bytes : Bytes
  pub requested_start : ℕ
  pub requested_end : ℕ
  pub requested_limit : ℕ
  pub returned_row_count : ℕ

pub record FetchResult (Bytes : Type 0) : Type 0 where
  pub candles : List Candle
  pub pages : List (SourcePage Bytes)

-- The arguments of `client_fetch`.
pub record PageRequest (Symbol : Type 0) : Type 0 where
  pub symbol : Symbol
  pub interval : Timeframe
  pub start_time : ℕ
  pub end_time : ℕ
  pub limit : ℕ

-- What the client raises, and the BinanceResponseErrors; the last two are the model's, for the fuel,
-- and the error of `expected_candle_count`.
pub data FetchError (E : Type 0) : Type 0 where
  client : E → FetchError E
  empty_page stale duplicate out_of_order nothing_in_range no_advance out_of_fuel : FetchError E

pub data CoverageError : Type 0 where
  range : RangeError → CoverageError
  count_mismatch gapped outside : CoverageError

-- What the loop over a page does with a candle.
pub data Verdict (E : Type 0) : Type 0 where
  refuse : FetchError E → Verdict E
  skip keep : Verdict E

abbrev pub seen_in : ℕ → List ℕ → Bool
seen_in t [] = false
seen_in t (s ∷ seen) = (t == s) || seen_in t seen

-- `in_range and candle.open_time <= in_range[-1].open_time`
abbrev pub not_after : Option ℕ → ℕ → Bool
not_after none t = false
not_after (some previous) t = leb t previous

unfoldable pub verdict : {E : Type 0} → ℕ → ℕ → List ℕ → Option ℕ → ℕ → Verdict E
verdict cursor end seen last t =
    if ltb t cursor
    then refuse stale
    else if leb end t
    then skip
    else if seen_in t seen
    then refuse duplicate
    else if not_after last t
    then refuse out_of_order
    else keep

-- The loop over a page: what it appends to `in_range`, and `seen_times` behind it. `last` is the
-- opening of `in_range[-1]`.
unfoldable pub scan :
    {E : Type 0}
    → ℕ
    → ℕ
    → List ℕ
    → Option ℕ
    → List Candle
    → Result (FetchError E) (List Candle × List ℕ)
scan cursor end seen last [] = ok ([], seen)
scan cursor end seen last (c ∷ cs) = elim (verdict cursor end seen last c.open_time) [
  | refuse e ↦ err e
  | skip ↦ scan cursor end seen last cs
  | keep ↦
      scan cursor end (c.open_time ∷ seen) (some c.open_time) cs >>= λ rest. ok (c ∷ rest.0, rest.1)
]

abbrev pub is_empty {ℓ} : {A : Type ℓ} → List A → Bool
is_empty [] = true
is_empty (x ∷ xs) = false

-- `in_range[-1].open_time`, behind the test that there is one.
unfoldable pub last_open : {E : Type 0} → List Candle → Result (FetchError E) ℕ
last_open [] = err nothing_in_range
last_open (c ∷ cs) = ok (last_of c cs).open_time

module _ {S E Bytes Symbol : Type 0}
    (client_fetch : S → PageRequest Symbol → Result E (List Candle × Bytes) × S) (symbol : Symbol)
    (import_range : ImportRange) (page_limit : ℕ) where
  abbrev pub request : ℕ → PageRequest Symbol
  request cursor = record {
    symbol = symbol;
    interval = import_range.timeframe;
    start_time = cursor;
    end_time = import_range.end;
    limit = page_limit;
  }

  abbrev pub source_page : ℕ → List Candle → Bytes → SourcePage Bytes
  source_page cursor page_candles raw = record {
    raw_bytes = raw;
    requested_start = cursor;
    requested_end = import_range.end;
    requested_limit = page_limit;
    returned_row_count = length page_candles;
  }

  -- What a round does with the reply: the candles in range, `seen_times` and the next cursor.
  unfoldable pub read_page :
      ℕ → List ℕ → List Candle → Result (FetchError E) (List Candle × List ℕ × ℕ)
  read_page cursor seen page_candles = do
    raise_if (is_empty page_candles) empty_page
    scanned ← scan cursor import_range.end seen none page_candles
    last ← last_open scanned.0
    let next_cursor = last + timeframe_duration import_range.timeframe
    raise_if (leb next_cursor cursor) no_advance
    ok (scanned.0, scanned.1, next_cursor)

  -- The `while` loop from a cursor on.
  unfoldable pub fetch_from : ℕ → S → ℕ → List ℕ → Result (FetchError E) (FetchResult Bytes)
  fetch_from zero s cursor seen = err out_of_fuel
  fetch_from (suc fuel) s cursor seen = elim (ltb cursor import_range.end) [
    | false ↦ ok (record { candles = []; pages = [] })
    | true ↦
        let (reply, s') = client_fetch s (request cursor) in
        rethrow client reply >>= λ answer. read_page cursor seen answer.0 >>= λ read.
        fetch_from fuel s' read.2 read.1 >>= λ rest. ok (record {
          candles = read.0 ++ rest.candles;
          pages = source_page cursor answer.0 answer.1 ∷ rest.pages;
        })
  ]

  -- The fuel is a round for each millisecond or what else the unit of time is, and one more.
  unfoldable pub fetch_klines_range : S → Result (FetchError E) (FetchResult Bytes)
  fetch_klines_range s =
      fetch_from (suc (import_range.end - import_range.start)) s import_range.start []

-- The loop over the candles, from `expected_open` on.
unfoldable pub check_coverage : ImportRange → ℕ → List Candle → Result CoverageError (Unit {0})
check_coverage r expected_open [] = ok tt
check_coverage r expected_open (c ∷ cs) = do
  raise_if (not (c.open_time == expected_open)) gapped
  raise_if (ltb c.open_time r.start || leb r.end c.open_time) outside
  check_coverage r (expected_open + timeframe_duration r.timeframe) cs

unfoldable pub assert_complete_coverage :
    List Candle → ImportRange → Result CoverageError (Unit {0})
assert_complete_coverage candles r = do
  expected ← rethrow range (expected_candle_count r)
  raise_if (not (length candles == expected)) count_mismatch
  check_coverage r r.start candles
