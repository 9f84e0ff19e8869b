-- ===== src/Live/Oms.antt =====
-- `PaperOMS` of ez/live/oms.py: from target weights to orders, and from the broker's answer to events.
pub mod Desired
pub mod Targets
pub mod Emit
pub mod Rebalance
pub mod EventIds
pub mod Replayed
pub mod NewFills
pub mod Symbols
pub mod Settled
pub mod Apart
pub mod Account
mod Tests
