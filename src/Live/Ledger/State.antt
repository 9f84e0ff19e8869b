-- ===== src/Live/Ledger/State.antt =====
-- `LiveLedgerState` of ez/live/ledger.py, with the guards and updates of order statuses and of the broker
-- order projection that `_apply_event` calls.
use backtesting_framework.Common.{
  ℕ, ℤ, pos, abs, Bool, true, false, ◌&&◌, Option, none, some, List, [], leb, ltb, nat_beq,
  if◌then◌else◌,
}
use backtesting_framework.Common.Text.{Text, text_eq, is_empty, text_or, strip}
use backtesting_framework.Common.Dict.{Dict, get, put}
use backtesting_framework.Live.Events.Status.{
  Status, status_rank, is_terminal, can_transition, OrderStatus, terminal_rank,
}
use backtesting_framework.Live.Events.Lifecycle.{local_order_status_rank}
use backtesting_framework.Live.Events.Event.{DeploymentEvent, Fill, Report}

-- The entry of `broker_order_states` for one broker order. `cancel_state` is none for "".
pub record BrokerOrderState (F : Type 0) : Type 0 where
  pub broker_order_id : Text
  pub client_order_id : Text
  pub status : Status
  pub rank : ℕ
  pub event_id : Text
  pub event_ts : ℕ
  pub report_id : Text
  pub filled_shares : ℤ
  pub remaining_shares : ℤ
  pub avg_price : F
  pub message : Text
  pub cancel_request_event_id : Text
  pub cancel_requested_at : Option ℕ
  pub cancel_state : Option Status

pub record LiveLedgerState (F : Type 0) : Type 0 where
  pub cash : F
  pub holdings : Dict Text ℤ
  pub order_statuses : Dict Text OrderStatus
  pub broker_order_states : Dict Text (BrokerOrderState F)
  pub trades : List (Fill F)
  pub risk_events : List Text
  pub last_prices : Dict Text F
  pub equity_curve : List F
  pub dates : List ℕ
  pub latest_snapshot_date : Option ℕ
  pub latest_snapshot_equity : Option F
  pub latest_weights : Dict Text F
  pub latest_prev_returns : Dict Text F
  pub seen_event_count : ℕ

-- `_local_order_status_can_transition`; none is a missing (empty) previous status.
unfoldable pub local_order_status_can_transition : Option OrderStatus → OrderStatus → Bool
unfolding local_order_status_rank
local_order_status_can_transition none inc = true
local_order_status_can_transition (some prev) inc =
    if leb terminal_rank (local_order_status_rank prev)
    then false
    else ltb (local_order_status_rank prev) (local_order_status_rank inc)

-- `_advance_local_order_status`
unfoldable pub advance_local_order_status :
    Dict Text OrderStatus → Text → OrderStatus → Dict Text OrderStatus
unfolding local_order_status_can_transition
advance_local_order_status status_map order_key new_status =
    if is_empty order_key
    then status_map
    else if local_order_status_can_transition (get order_key status_map) new_status
    then put order_key new_status status_map
    else status_map

-- `_broker_order_key`
unfoldable pub broker_order_key : Text → Text → Text
broker_order_key broker_order_id client_order_id = text_or (strip broker_order_id) client_order_id

-- Membership in `_SUBMISSION_ONLY_BROKER_STATUSES`.
unfoldable pub is_submission_only : Status → Bool
is_submission_only Status.unreported = true
is_submission_only Status.reported = true
is_submission_only Status.reported_cancel_pending = true
is_submission_only _ = false

-- The pending status that a cancel request asks for.
unfoldable pub pending_status : Status → Status
pending_status Status.partially_filled = Status.partially_filled_cancel_pending
pending_status Status.partially_filled_cancel_pending = Status.partially_filled_cancel_pending
pending_status _ = Status.reported_cancel_pending

-- `projected_filled` in `_advance_broker_order_state`.
unfoldable pub projected_filled : Status → ℤ → ℤ
unfolding is_submission_only
projected_filled status filled = if is_submission_only status then pos 0 else filled

abbrev pub is_zero : ℤ → Bool
is_zero n = nat_beq (abs n) 0

module _ {F : Type 0} where
  -- `should_advance` in `_advance_broker_order_state`.
  unfoldable pub should_advance : Option (BrokerOrderState F) → Status → ℕ → Bool
  unfolding can_transition
  should_advance none incoming ts = true
  should_advance (some current) incoming ts =
      if can_transition current.status incoming
      then true
      else if nat_beq (status_rank incoming) (status_rank current.status)
          && ltb (status_rank incoming) terminal_rank
      then leb current.event_ts ts
      else false

  abbrev pub previous_remaining : Option (BrokerOrderState F) → ℤ → ℤ
  previous_remaining none remaining = remaining
  previous_remaining (some current) remaining = current.remaining_shares

  -- `projected_remaining` in `_advance_broker_order_state`.
  unfoldable pub projected_remaining : Option (BrokerOrderState F) → Status → ℤ → ℤ → ℤ
  unfolding is_submission_only
  projected_remaining current status filled remaining =
      if is_submission_only status
      then (if is_zero filled then remaining else previous_remaining current remaining)
      else remaining

  abbrev pub kept_event_id : Option (BrokerOrderState F) → Text
  kept_event_id none = []
  kept_event_id (some current) = current.cancel_request_event_id

  abbrev pub kept_requested_at : Option (BrokerOrderState F) → Option ℕ
  kept_requested_at none = none
  kept_requested_at (some current) = current.cancel_requested_at

  abbrev pub kept_cancel_state : Option (BrokerOrderState F) → Option Status
  kept_cancel_state none = none
  kept_cancel_state (some current) = current.cancel_state

  -- The entry that `_advance_broker_order_state` writes.
  unfoldable pub advanced_state :
      Option (BrokerOrderState F)
      → Text
      → DeploymentEvent F
      → Status
      → Report F
      → BrokerOrderState F
  unfolding projected_filled projected_remaining
  advanced_state current key event status payload = record {
    broker_order_id = key;
    client_order_id = event.client_order_id;
    status = status;
    rank = status_rank status;
    event_id = event.event_id;
    event_ts = event.event_ts;
    report_id = payload.report_id;
    filled_shares = projected_filled status payload.filled_shares;
    remaining_shares =
        projected_remaining current status payload.filled_shares payload.remaining_shares;
    avg_price = payload.avg_price;
    message = payload.message;
    cancel_request_event_id = kept_event_id current;
    cancel_requested_at = kept_requested_at current;
    cancel_state = kept_cancel_state current;
  }

  -- `_advance_broker_order_state`, on the map of broker order states.
  unfoldable pub advance_broker_order_state :
      Dict Text (BrokerOrderState F)
      → Text
      → DeploymentEvent F
      → Status
      → Report F
      → Dict Text (BrokerOrderState F)
  unfolding should_advance advanced_state
  advance_broker_order_state states broker_order_id event status payload =
      let key = text_or broker_order_id event.client_order_id in
      let current = get key states in
      if is_empty key
      then states
      else if should_advance current status event.event_ts
      then put key (advanced_state current key event status payload) states
      else states

  -- The marks that a cancel request leaves on the entry of its order.
  abbrev pub marked : DeploymentEvent F → Status → BrokerOrderState F → BrokerOrderState F
  marked event pending current = record current {
    cancel_request_event_id = event.event_id;
    cancel_requested_at = some event.event_ts;
    cancel_state = some pending;
  }

  unfoldable pub mark_cancel_requested :
      Option (BrokerOrderState F)
      → Text
      → DeploymentEvent F
      → Status
      → Dict Text (BrokerOrderState F)
      → Dict Text (BrokerOrderState F)
  mark_cancel_requested none key event pending states = states
  mark_cancel_requested (some current) key event pending states =
      put key (marked event pending current) states

  abbrev pub is_terminal_state : Option (BrokerOrderState F) → Bool
  is_terminal_state none = false
  is_terminal_state (some current) = is_terminal current.status

  abbrev pub pending_status_of : Option (BrokerOrderState F) → Status
  pending_status_of none = Status.reported_cancel_pending
  pending_status_of (some current) = pending_status current.status
