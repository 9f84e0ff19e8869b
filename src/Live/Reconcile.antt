-- ===== src/Live/Reconcile.antt =====
-- Reconciliation with the broker, ez/live/qmt/reconcile.py: account snapshots, positions and
-- orders.
pub mod Snapshot
pub mod Agreement
mod Tests
pub mod Orders
pub mod Latest
pub mod OpenRows
pub mod Alike
pub mod OpenOrders
