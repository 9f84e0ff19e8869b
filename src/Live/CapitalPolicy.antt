-- ===== src/Live/CapitalPolicy.antt =====
-- The staged capital policy of ez/live/capital_policy.py with its kill switch.
pub mod Stage
pub mod Check
pub mod Laws
mod Tests
