-- ===== src/Indicators.antt =====
-- Technical indicators: src/zorqen_research/application/indicators/.
pub mod Input
pub mod Assembly
pub mod Calculators
pub mod Causal
pub mod Warmup
pub mod Extrema
pub mod Prior
mod Tests
