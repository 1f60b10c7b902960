-- ===== src/Market.antt =====
-- Market data: candles, derived timeframes, resampling and alignment.
pub mod Candle
pub mod Derivation
pub mod Series
pub mod Resampling
pub mod Alignment
pub mod Pagination
pub mod Query
mod Tests
