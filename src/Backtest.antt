-- ===== src/Backtest.antt =====
-- The backtest package, ez/backtest.
pub mod WalkForward
