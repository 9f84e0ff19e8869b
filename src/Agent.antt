-- ===== src/Agent.antt =====
-- The research agent's package, ez/agent.
pub mod Fdr
