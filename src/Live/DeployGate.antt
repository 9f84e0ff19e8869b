-- ===== src/Live/DeployGate.antt =====
-- The deployment gate of ez/live/deploy_gate.py: its checks on a stored backtest run.
pub mod Concentration
pub mod Gate
pub mod Laws
mod Tests
