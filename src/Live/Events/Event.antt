-- ===== src/Live/Events/Event.antt =====
-- The append-only events of ez/live/events.py. A payload holds the fields that ez/live/ledger.py reads,
-- at the types that the `make_…_event` functions and `Fill.to_dict` write; a key that may be missing is
-- an `Option`, or has the default that its reader takes. Timestamps and dates are numbers in their
-- order. What is only carried along, the broker's raw payload, is left out.
use backtesting_framework.Common.{ℕ, ℤ, Option}
use backtesting_framework.Common.Text.{Text}
use backtesting_framework.Common.Dict.{Dict}

pub data EventType : Type 0 where
  market_snapshot market_bar_recorded broker_account_recorded broker_runtime_recorded : EventType
  broker_execution_recorded broker_cancel_requested order_submitted order_filled : EventType
  order_partially_filled order_rejected risk_recorded snapshot_saved tick_completed : EventType

-- The payload of `Fill.to_dict`.
pub record Fill (F : Type 0) : Type 0 where
  pub symbol : Text
  pub side : Text
  pub shares : ℤ
  pub price : F
  pub amount : F
  pub cost : F

-- The payload of `make_broker_execution_event`; `status` is the broker's own text.
pub record Report (F : Type 0) : Type 0 where
  pub report_id : Text
  pub broker_order_id : Text
  pub status : Text
  pub filled_shares : ℤ
  pub remaining_shares : ℤ
  pub avg_price : F
  pub message : Text

-- The payload of `make_market_bar_event`.
pub record Bar (F : Type 0) : Type 0 where
  pub symbol : Text
  pub close : F
  pub adj_close : F

-- The payload of `make_snapshot_event`.
pub record Snapshot (F : Type 0) : Type 0 where
  pub snapshot_date : Option ℕ
  pub equity : Option F
  pub cash : Option F
  pub holdings : Option (Dict Text ℤ)
  pub weights : Option (Dict Text F)
  pub prev_returns : Option (Dict Text F)

-- An event's type with the payload that goes with it.
pub data Payload (F : Type 0) : Type 0 where
  market_snapshot : Dict Text F → Payload F
  market_bar_recorded : Bar F → Payload F
  broker_account_recorded broker_runtime_recorded : Payload F
  broker_execution_recorded : Report F → Payload F
  broker_cancel_requested : Text → Payload F
  order_submitted order_rejected : Payload F
  order_filled order_partially_filled : Fill F → Payload F
  risk_recorded : Option Text → Payload F
  snapshot_saved : Snapshot F → Payload F
  tick_completed : Payload F

pub record DeploymentEvent (F : Type 0) : Type 0 where
  pub event_id : Text
  pub event_ts : ℕ
  pub client_order_id : Text
  pub payload : Payload F

unfoldable pub event_type : {F : Type 0} → Payload F → EventType
event_type (Payload.market_snapshot _) = EventType.market_snapshot
event_type (Payload.market_bar_recorded _) = EventType.market_bar_recorded
event_type Payload.broker_account_recorded = EventType.broker_account_recorded
event_type Payload.broker_runtime_recorded = EventType.broker_runtime_recorded
event_type (Payload.broker_execution_recorded _) = EventType.broker_execution_recorded
event_type (Payload.broker_cancel_requested _) = EventType.broker_cancel_requested
event_type Payload.order_submitted = EventType.order_submitted
event_type Payload.order_rejected = EventType.order_rejected
event_type (Payload.order_filled _) = EventType.order_filled
event_type (Payload.order_partially_filled _) = EventType.order_partially_filled
event_type (Payload.risk_recorded _) = EventType.risk_recorded
event_type (Payload.snapshot_saved _) = EventType.snapshot_saved
event_type Payload.tick_completed = EventType.tick_completed
