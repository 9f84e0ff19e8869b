-- ===== src/Agent/Fdr.antt =====
-- The corrections for many tests of ez/agent/fdr.py.
pub mod Correct
pub mod Ranked
pub mod Reported
mod Tests
