-- ===== src/Backtest.antt =====
-- packages/core/src/backtest/backtest-engine.ts: the parts of the engine around the life of a trade.
pub mod Aggregation
pub mod Sizing
pub mod Shadow
mod Tests
