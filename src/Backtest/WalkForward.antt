-- ===== src/Backtest/WalkForward.antt =====
-- `WalkForwardValidator.validate` of ez/backtest/walk_forward.py: its windows and its splits.
pub mod Windows
pub mod Tiling
pub mod Splits
mod Tests
