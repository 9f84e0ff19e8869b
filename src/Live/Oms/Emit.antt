-- ===== src/Live/Oms/Emit.antt =====
-- The orders, fills and events that `PaperOMS.execute_rebalance` of ez/live/oms.py makes of a broker's answer.
-- Messages and details of a rejection are left out, and of the payloads what the ledger does not read.
use backtesting_framework.Common.{
  ℕ, ℤ, pos, ltb_ℤ, leb_ℤ, Bool, ◌&&◌, Option, none, some, List, [], ◌∷◌, ◌++◌, if◌then◌else◌, ◌==◌,
  nat_beq, map,
}
use backtesting_framework.Common.Text.{Text, text_eq, codes, text_or, strip, is_empty}
use backtesting_framework.Live.Events.Event.{DeploymentEvent, Payload, EventType, Fill}
use backtesting_framework.Live.Events.Status.{OrderStatus, normalize_broker_order_status}
use backtesting_framework.Live.Ledger.State.{is_submission_only}
use backtesting_framework.Live.Risk.Rules.{Order, RiskRule}
use backtesting_framework.Live.Risk.Evaluate.{RejectedOrder}
use backtesting_framework.Live.PaperBroker.Fills.{BrokerFillReport}
use backtesting_framework.Live.PaperBroker.Reports.{BrokerOrderReport}
use backtesting_framework.Portfolio.Execution.Trades.{is_zero_ℤ}

-- What comes from outside: the time at which an event is made, by its id, and Python's `str` of a number.
pub record Runtime : Type 0 where
  pub utcnow : Text → ℕ
  pub str : ℕ → Text
  pub deployment_id : Text

pub data Rejection : Type 0 where
  by_risk : RiskRule → Rejection
  not_executed_by_execution_rules : Rejection

-- `Order`, as the OMS returns it.
pub record OmsOrder : Type 0 where
  pub order : Order
  pub remaining_shares : ℤ
  pub status : OrderStatus
  pub rejected_reason : Option Rejection

-- `Fill`: its ids and the broker's fill, whose fields it copies.
pub record OmsFill (F : Type 0) : Type 0 where
  pub fill_id : Text
  pub client_order_id : Text
  pub child : BrokerFillReport F

-- The lists that grow during the rebalance.
pub record Emission (F : Type 0) : Type 0 where
  pub orders : List OmsOrder
  pub fills : List (OmsFill F)
  pub events : List (DeploymentEvent F)

-- The values of the event types that the OMS emits.
abbrev pub event_type_value : EventType → Text
event_type_value EventType.order_submitted = codes "order_submitted"
event_type_value EventType.order_filled = codes "order_filled"
event_type_value EventType.order_partially_filled = codes "order_partially_filled"
event_type_value EventType.order_rejected = codes "order_rejected"
event_type_value _ = []

abbrev pub make_event_id : Text → EventType → Text
make_event_id client_order_id type = client_order_id ++ codes ":" ++ event_type_value type

abbrev pub make_fill_id : Text → Text
make_fill_id client_order_id = client_order_id ++ codes ":fill"

-- A slice of several has its number after the id.
abbrev pub sliced_id : {F : Type 0} → Runtime → BrokerFillReport F → Text → Text
sliced_id runtime child id =
    if nat_beq child.total_slices 1 then id else id ++ codes ":" ++ runtime.str child.slice_index

abbrev pub remaining_or : ℤ → ℤ → ℤ
remaining_or remaining shares = if is_zero_ℤ remaining then shares else remaining

module _ {F : Type 0} where
  abbrev pub nothing : Emission F
  nothing = record { orders = []; fills = []; events = [] }

  abbrev pub joined : Emission F → Emission F → Emission F
  joined a b = record {
    orders = a.orders ++ b.orders;
    fills = a.fills ++ b.fills;
    events = a.events ++ b.events;
  }

  abbrev pub event_of : Runtime → Text → Text → Payload F → DeploymentEvent F
  event_of runtime event_id client_order_id payload = record {
    event_id = event_id;
    event_ts = runtime.utcnow event_id;
    client_order_id = client_order_id;
    payload = payload;
  }

  abbrev pub submitted_event : Runtime → Order → DeploymentEvent F
  submitted_event runtime order =
      event_of runtime (make_event_id order.client_order_id EventType.order_submitted)
        order.client_order_id Payload.order_submitted

  abbrev pub rejected_event : Runtime → Order → DeploymentEvent F
  rejected_event runtime order =
      event_of runtime (make_event_id order.client_order_id EventType.order_rejected)
        order.client_order_id Payload.order_rejected

  -- An order that the risk engine rejects.
  unfoldable pub reject_by_risk : Runtime → RejectedOrder → Emission F
  reject_by_risk runtime rejected = record {
    orders =
        record {
          order = rejected.order;
          remaining_shares = rejected.order.shares;
          status = OrderStatus.rejected;
          rejected_reason = some (by_risk rejected.failure);
        }
        ∷ [];
    fills = [];
    events = rejected_event runtime rejected.order ∷ [];
  }

  -- An order that the broker did not execute.
  unfoldable pub reject_unexecuted : Runtime → Order → Emission F
  reject_unexecuted runtime order = record {
    orders =
        record {
          order = order;
          remaining_shares = order.shares;
          status = OrderStatus.rejected;
          rejected_reason = some not_executed_by_execution_rules;
        }
        ∷ [];
    fills = [];
    events = submitted_event runtime order ∷ rejected_event runtime order ∷ [];
  }

  -- `_is_submission_only_broker_report`
  unfoldable pub is_submission_only_broker_report : BrokerOrderReport F → Bool
  unfolding is_submission_only normalize_broker_order_status
  is_submission_only_broker_report report =
      leb_ℤ report.filled_shares (pos 0)
      && is_submission_only
          (normalize_broker_order_status report.status report.filled_shares report.remaining_shares)

  -- The acknowledgement of a submission, if it has a broker's order id. An order's id is never empty, so
  -- the event carries it.
  unfoldable pub submit_ack : Runtime → Order → BrokerOrderReport F → List (DeploymentEvent F)
  submit_ack runtime order report =
      let broker_order_id = strip report.broker_order_id in
      let report_id = codes "submit_ack:" ++ broker_order_id in
      if is_empty broker_order_id
      then []
      else event_of runtime (runtime.deployment_id ++ codes ":broker_report:" ++ report_id)
          order.client_order_id
          (Payload.broker_execution_recorded (record {
            report_id = report_id;
            broker_order_id = broker_order_id;
            status = text_or report.status (codes "reported");
            filled_shares = pos 0;
            remaining_shares = remaining_or report.remaining_shares order.shares;
            avg_price = report.price;
            message = report.broker_submit_id;
          }))
        ∷ []

  unfoldable pub acknowledge : Runtime → Order → BrokerOrderReport F → Emission F
  unfolding submit_ack
  acknowledge runtime order report = record {
    orders =
        record {
          order = order;
          remaining_shares = remaining_or report.remaining_shares order.shares;
          status = OrderStatus.submitted;
          rejected_reason = none;
        }
        ∷ [];
    fills = [];
    events = submitted_event runtime order ∷ submit_ack runtime order report;
  }

  -- The payload of a fill.
  abbrev pub fill_payload : BrokerFillReport F → Fill F
  fill_payload child = record {
    symbol = child.symbol;
    side = child.side;
    shares = child.shares;
    price = child.price;
    amount = child.amount;
    cost = child.cost;
  }

  abbrev pub is_unfinished : BrokerFillReport F → Bool
  is_unfinished child = ltb_ℤ (pos 0) child.remaining_shares

  unfoldable pub fill_event : Runtime → Order → BrokerFillReport F → DeploymentEvent F
  fill_event runtime order child =
      if is_unfinished child
      then event_of runtime
          (sliced_id runtime child
            (make_event_id order.client_order_id EventType.order_partially_filled))
          order.client_order_id (Payload.order_partially_filled (fill_payload child))
      else event_of runtime
          (sliced_id runtime child (make_event_id order.client_order_id EventType.order_filled))
          order.client_order_id (Payload.order_filled (fill_payload child))

  abbrev pub oms_fill : Runtime → Order → BrokerFillReport F → OmsFill F
  oms_fill runtime order child = record {
    fill_id = sliced_id runtime child (make_fill_id order.client_order_id);
    client_order_id = order.client_order_id;
    child = child;
  }

  -- An order with fills.
  unfoldable pub report_fills :
      Runtime → Order → BrokerOrderReport F → List (BrokerFillReport F) → Emission F
  unfolding fill_event
  report_fills runtime order report children = record {
    orders =
        record {
          order = order;
          remaining_shares = report.remaining_shares;
          status =
              if report.status == codes "partially_filled"
              then OrderStatus.partially_filled
              else OrderStatus.filled;
          rejected_reason = none;
        }
        ∷ [];
    fills = map (oms_fill runtime order) children;
    events = submitted_event runtime order ∷ map (fill_event runtime order) children;
  }

  -- What the OMS makes of the report on an accepted order.
  unfoldable pub settle_order :
      Runtime → Order → Option (BrokerOrderReport F) → List (BrokerFillReport F) → Emission F
  unfolding reject_unexecuted acknowledge report_fills is_submission_only_broker_report
  settle_order runtime order none children = reject_unexecuted runtime order
  settle_order runtime order (some report) children =
      if is_submission_only_broker_report report
      then acknowledge runtime order report
      else if leb_ℤ report.filled_shares (pos 0)
      then reject_unexecuted runtime order
      else report_fills runtime order report children
