-- ===== src/Live/Ledger.antt =====
-- The ledger of ez/live/ledger.py: `LiveLedger.replay` folds the event log into an account state.
-- `State` has the state and its guards, `Apply` the branches of `_apply_event`, `Replay` the sort and the
-- skip of repeated events; the other modules hold proofs.
pub mod State
pub mod Apply
pub mod Replay
pub mod Fresh
pub mod Determinism
pub mod Account
pub mod Forward
pub mod BrokerStates
mod Tests
