-- ===== src/Core/Matching.antt =====
-- Order matching: ez/core/matcher.py, ez/core/_jit_fill.py and ez/core/market_rules.py.
pub mod Matcher
pub mod MarketRules
pub mod Session
mod Tests
