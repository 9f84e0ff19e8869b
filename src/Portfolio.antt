-- ===== src/Portfolio.antt =====
-- The portfolio package, ez/portfolio.
pub mod Execution
pub mod RiskManager
