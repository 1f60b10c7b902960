-- ===== src/Lib.antt =====
-- Zorqen Research, the core of the research platform: canonical market data and the deterministic
-- backtest kernel (Python, under src/zorqen_research/).
--
-- The parts and how they interact. Candles are imported for a closed range of a timeframe, kept as
-- gap-free series, resampled to coarser timeframes, aligned with each other without lookahead, and
-- run through a simulator that asks a decision provider once per closed candle.
--
--   Base       shared names: Boolean tests on numbers, lists, results (a value or an exception),
--              integers, total orders, remainders.
--   Decimal    Python's decimal.Decimal: finite values, half-even rounding to a precision.
--   Time       domain/timeframes.py; Time/Range is application/market_data/ranges.py. An instant is
--              the number of microseconds since 0001-01-01T00:00 UTC.
--   Market     Candle is domain/candles.py; Derivation is domain/market_data/derivation.py; Series
--              and Resampling are domain/market_data/series.py and resampling.py; Alignment is
--              domain/market_data/alignment.py; Pagination and Query are
--              application/market_data/pagination.py and query.py.
--   Backtest   domain/backtesting/ (Backtest, Rules, Policy, Intent) and
--              application/backtesting/engine.py (Engine: one entry and one exit; Run: the loop
--              over the candles, `step` being its body; Summary: validation, forced close and
--              summary; Result: BacktestEngine.run).
--   Indicators Input is domain/indicators/ (enums.py, math_policy.py, inputs.py); Extrema and Prior are
--              the monotonic deques of application/indicators/extrema.py; Calculators has the values of
--              the calculators in ema.py, volatility.py and extrema.py there, and the choice between
--              them in application/indicator_views/recalculation.py; Assembly is assembly.py, which
--              checks the values and builds a series of them.
--   IndicatorViews is domain/indicator_views/ (keys.py, histories.py, views.py); Feed is
--              application/indicator_views/feed.py and prefix_hashes.py, a view of the recalculated
--              series at each bar, which takes the bundle as it is after its rebuilding; Bundle is
--              bundles.py, the recalculated series of an input.
--   Strategy   what a strategy asks for (domain/strategy_definitions/timeframes.py), and its backtest:
--              Input and View are domain/strategy_backtesting/inputs.py, histories.py and
--              decision_views.py, with application/strategy_backtesting/feed.py; Provider is the
--              adapter of application/strategy_backtesting/provider.py, which stands where the
--              engine expects a provider; Runner is runner.py there and
--              domain/strategy_backtesting/results.py.
--
-- State and operations. The variables of BacktestEngine.run are the record RunState, together with
-- the provider's own state, which no code of the repository fixes; each step of a bar takes the
-- state and returns a new one or an exception. An exception is a value `err e`, where e names the
-- message. Loops over a sequence are structural recursion. The while loop of the alignment pointer
-- takes the length of the context as fuel, one more than which it never needs, since each round
-- moves the pointer on within the context. The while loop of the retrieval takes one round for each
-- unit of time from the start to the end of the range and one more, since the cursor moves on in
-- each.
--
-- Specifications. Run/Ledger is an account that takes entries and exits in turn; Run/Paired pairs
-- the fills with the trades; Series/Grid says what a gap-free series is; Alignment/Latest says what
-- the latest closed candle is; Series/Extremes says what the aggregate of a bucket is;
-- Extrema/Rolling says what the extreme of a window is; Pagination/Served says what a client with a
-- complete history answers; Query/Matching says what matches a query, and Query/Paged what its pages
-- are; View/Lookahead says what a decision may see; Run/Dated says when a fill may be made;
-- Runner/Direct is the engine with a strategy that no adapter checks; Indicators/Warmup says which
-- values of an indicator are undefined;
-- IndicatorViews/Shown says what is to be shown of the values up to a bar.
--
-- Parameters. SHA-256 of the canonical serializations is a function, from the candles, the policy,
-- the result, the series or the payload to a text; nothing is assumed of it. The client of the retrieval is a
-- function of its own state and of the request; that it serves a history is a hypothesis where it is
-- used. A strategy is a function of its own state and of what it is shown. Decimal arithmetic is under a
-- context of any precision, without the limits on the exponent. NaN, infinities and values of
-- another type are the cases not_finite and not_decimal of an argument.
--
-- Not modelled: text parsing, serialization, files, the database, HTTP, the worker, the parameters of
-- strategy documents, the comparison of a bundle with its rebuilding, and the composition of
-- indicators with the engine.
pub mod Base
pub mod Decimal
pub mod Time
pub mod Market
pub mod Backtest
pub mod Indicators
pub mod IndicatorViews
pub mod Strategy
