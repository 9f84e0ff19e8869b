-- ===== src/Portfolio/RiskManager.antt =====
-- `RiskManager` of ez/portfolio/risk_manager.py.
pub mod Manager
pub mod Drawdown
mod Tests
