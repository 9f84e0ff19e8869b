-- ===== src/Live/OrderLinks.antt =====
-- The broker order links of ez/live/_broker_order_links.py: one row for each order of a deployment at a
-- broker, kept up to date by execution reports and by the stages of a cancellation.
pub mod Table
pub mod Upsert
pub mod Cancel
pub mod Forward
pub mod Idempotent
pub mod Find
pub mod Cancellation
pub mod RoundTrip
pub mod Log
pub mod WellFormed
pub mod Append
pub mod Stored
mod Tests
