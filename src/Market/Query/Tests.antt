-- ===== src/Market/Query/Tests.antt =====
-- Queries over three minutes, at concrete candles.
use zorqen_research.Base.{ℕ, suc, ◌*◌, ◌≡◌, refl, none, some, List, [], ◌∷◌, arith, length, ok, err}
use zorqen_research.Base.Int.{pos}
use zorqen_research.Decimal.{of_ℕ}
use zorqen_research.Time.{aware, m1, minute, is_aligned}
use zorqen_research.Market.Candle.{Candle, int}
use zorqen_research.Market.Series.{expected_close}
use zorqen_research.Market.Query.{
  RawQuery, CandleQuery, typed, validate_candle_query_fields, start_not_before_end, require_bound,
  require_limit, paginate_candles, matches, collect,
}
use zorqen_research.Market.Query.Matching.{matching}
use zorqen_research.Market.Query.Paged.{Paged, OnGrid, follow, follow-matching}

abbrev minute_candle : ℕ → Candle
minute_candle t = record {
  open_time = t;
  open_price = of_ℕ 10;
  high = of_ℕ 12;
  low = of_ℕ 9;
  close = of_ℕ 11;
  volume = of_ℕ 5;
  close_time = expected_close t m1;
  quote_asset_volume = of_ℕ 7;
  trade_count = 3;
  taker_buy_base_volume = of_ℕ 1;
  taker_buy_quote_volume = of_ℕ 2;
}

abbrev minutes : List Candle
minutes = minute_candle 0 ∷ minute_candle minute ∷ minute_candle (2 * minute) ∷ []

abbrev raw : ℕ → ℕ → RawQuery
raw start end = record {
  snapshot_id = typed "id";
  symbol = typed "BTCUSDT";
  timeframe = typed m1;
  start = some (typed (aware start (pos 0)));
  end = some (typed (aware end (pos 0)));
  after = none;
  limit = int (pos 1);
}

abbrev from_second : CandleQuery
from_second = record {
  snapshot_id = "id";
  symbol = "BTCUSDT";
  timeframe = m1;
  start = some minute;
  end = some (3 * minute);
  after = none;
  limit = 1;
}

validated :
    (validate_candle_query_fields (raw minute (3 * minute)) ≡ ok from_second)
    × (validate_candle_query_fields (raw minute minute) ≡ err start_not_before_end)
unfolding validate_candle_query_fields require_bound require_limit is_aligned
validated = (refl, refl)

minutes-OnGrid : OnGrid m1 minutes
unfolding is_aligned
minutes-OnGrid = (refl, (refl, (refl, tt)))

follow-matching_example :
    (pages : List (List Candle)) × (follow "sha256"
        (suc (length minutes))
        (raw minute (3 * minute))
        minutes
      ≡ some pages)
    × Paged 1 pages (matching from_second minutes)
follow-matching_example =
    follow-matching "sha256" (raw minute (3 * minute)) minutes validated.0 minutes-OnGrid
      (omega arith)

-- The first page of one candle has a cursor, the second has none.
two_pages :
    ((paginate_candles minutes from_second).next_cursor ≡ some minute)
    × ((paginate_candles minutes (record from_second { after = some minute })).next_cursor ≡ none)
unfolding paginate_candles collect matches
two_pages = (refl, refl)
