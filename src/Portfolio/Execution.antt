-- ===== src/Portfolio/Execution.antt =====
-- `execute_portfolio_trades` of ez/portfolio/execution.py, the fills that the backtest and the paper
-- broker share. The model is the Python path, which runs where the C++ extension is not built or
-- `limit_pct` is positive.
pub mod Legs
pub mod Trades
pub mod Desk
pub mod Run
mod Tests
