-- ===== src/Market/Pagination/Tests.antt =====
-- The paged retrieval from a client that counts its calls, over three minutes.
use zorqen_research.Base.{ℕ, ◌+◌, ◌*◌, ◌≢◌, ◌≡◌, refl, List, [], ◌∷◌, Result, ok, err, arith}
use zorqen_research.Decimal.{of_ℕ}
use zorqen_research.Time.{m1, minute, timeframe_duration}
use zorqen_research.Time.Range.{ImportRange}
use zorqen_research.Market.Candle.{Candle}
use zorqen_research.Market.Series.{expected_close}
use zorqen_research.Market.Series.Grid.{IsGrid}
use zorqen_research.Market.Pagination.{
  FetchResult, PageRequest, fetch_klines_range, out_of_fuel, no_advance, assert_complete_coverage,
  stale, verdict, scan, fetch_from, read_page, last_open,
}
use zorqen_research.Market.Pagination.Covered.{
  IsFetched, fetch_klines_range-IsFetched, fetch_klines_range-Settles,
}
use zorqen_research.Market.Pagination.Served.{served, fetch_klines_range-served}

abbrev minute_candle : ℕ → Candle
minute_candle t = record {
  open_time = t;
  open_price = of_ℕ 10;
  high = of_ℕ 12;
  low = of_ℕ 9;
  close = of_ℕ 11;
  volume = of_ℕ 5;
  close_time = expected_close t m1;
  quote_asset_volume = of_ℕ 7;
  trade_count = 3;
  taker_buy_base_volume = of_ℕ 1;
  taker_buy_quote_volume = of_ℕ 2;
}

abbrev minutes : List Candle
minutes = minute_candle 0 ∷ minute_candle minute ∷ minute_candle (2 * minute) ∷ []

abbrev three_minutes : ImportRange
three_minutes = record { start = 0; end = 3 * minute; timeframe = m1 }

-- Its state is the number of calls so far, which is also the raw answer.
abbrev counting : ℕ → PageRequest ℕ → Result ℕ (List Candle × ℕ) × ℕ
counting calls q = (ok (served q minutes, calls), calls + 1)

minutes-IsGrid : IsGrid m1 0 minutes
unfolding timeframe_duration
minutes-IsGrid = (refl, refl, (refl, refl, (refl, refl, tt)))

fetch_klines_range-served_example :
    (result : FetchResult ℕ) × (fetch_klines_range counting 7 three_minutes 2 0 ≡ ok result)
    × (result.candles ≡ minutes)
    × (assert_complete_coverage result.candles three_minutes ≡ ok tt)
unfolding timeframe_duration
fetch_klines_range-served_example =
    fetch_klines_range-served counting 7 three_minutes 2 minutes (λ s q. (s, s + 1, refl))
      (omega arith) 0 minutes refl minutes-IsGrid refl

-- A page of two candles and one of one.
abbrev two_pages : FetchResult ℕ
two_pages = record {
  candles = minutes;
  pages =
      record {
        raw_bytes = 0;
        requested_start = 0;
        requested_end = 3 * minute;
        requested_limit = 2;
        returned_row_count = 2;
      }
      ∷ record {
        raw_bytes = 1;
        requested_start = 2 * minute;
        requested_end = 3 * minute;
        requested_limit = 2;
        returned_row_count = 1;
      }
      ∷ [];
}

in_two_pages : fetch_klines_range counting 7 three_minutes 2 0 ≡ ok two_pages
unfolding fetch_klines_range fetch_from read_page scan verdict timeframe_duration last_open
in_two_pages = refl

fetch_klines_range-IsFetched_example : IsFetched three_minutes 0 two_pages
fetch_klines_range-IsFetched_example =
    fetch_klines_range-IsFetched counting 7 three_minutes 2 0 in_two_pages

-- A client that always returns the first candle.
abbrev stuck : ℕ → PageRequest ℕ → Result ℕ (List Candle × ℕ) × ℕ
stuck calls q = (ok (minute_candle 0 ∷ [], calls), calls)

stuck-stale : fetch_klines_range stuck 7 three_minutes 2 0 ≡ err stale
unfolding fetch_klines_range fetch_from read_page scan verdict timeframe_duration last_open
stuck-stale = refl

fetch_klines_range-Settles_example :
    (fetch_klines_range stuck 7 three_minutes 2 0 ≢ err out_of_fuel)
    × (fetch_klines_range stuck 7 three_minutes 2 0 ≢ err no_advance)
fetch_klines_range-Settles_example = fetch_klines_range-Settles stuck 7 three_minutes 2 0
