-- ===== src/Live/Events.antt =====
-- Order life cycles of ez/live/events.py: broker statuses, the coarse order statuses, event types.
pub mod Status
pub mod Normalize
pub mod Lifecycle
pub mod Event
mod Tests
