-- ===== src/Core.antt =====
-- The core package, ez/core.
pub mod Matching
