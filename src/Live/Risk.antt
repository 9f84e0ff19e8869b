-- ===== src/Live/Risk.antt =====
-- The pre-trade risk checks of ez/live/risk.py.
pub mod Rules
pub mod Evaluate
pub mod Partition
pub mod Caps
mod Tests
