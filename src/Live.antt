-- ===== src/Live.antt =====
-- The live-trading package, ez/live.
pub mod Events
pub mod Ledger
pub mod OrderLinks
pub mod CapitalPolicy
pub mod Risk
pub mod DeployGate
pub mod PaperBroker
pub mod Oms
pub mod Reconcile
