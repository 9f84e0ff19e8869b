-- ===== src/Live/PaperBroker.antt =====
-- The paper broker of ez/live/paper_broker.py: how a trade is split into slices of shares.
pub mod Shares
pub mod Fills
pub mod Reports
pub mod Booking
pub mod Booked
pub mod Reported
mod Tests
