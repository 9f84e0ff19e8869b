-- ===== src/Live/OrderLinks/Log.antt =====
-- `DeploymentStore._append_events_locked` of ez/live/deployment_store.py, with the two upserts of
-- ez/live/_broker_order_links.py that turn an event into a report.
use backtesting_framework.Common.{
  ℕ, pos, ◌+◌, Bool, true, false, not, ◌&&◌, ◌||◌, List, [], ◌∷◌, ◌++◌, ltb, ◌==◌, if◌then◌else◌,
}
use backtesting_framework.Common.Text.{Text, text_eq, codes, is_empty, text_or, strip, text_le}
use backtesting_framework.Common.Sort.{sort_by}
use backtesting_framework.Live.OrderLinks.Table.{Links}
use backtesting_framework.Live.OrderLinks.Upsert.{ExecutionReport, upsert_broker_order_links}
use backtesting_framework.Live.OrderLinks.Cancel.{
  RuntimeEvent, is_cancel_failed, CancelRequest, upsert_cancel_requested, event_client_order_id,
  event_broker_order_id, upsert_cancel_ack, upsert_cancel_failed,
}

-- The event types that the links react to. The report of an execution event holds the texts of its
-- payload, with the event's own time and client order id.
pub data LoggedPayload : Type 0 where
  execution : ExecutionReport → LoggedPayload
  cancel_requested : CancelRequest → LoggedPayload
  runtime : RuntimeEvent → LoggedPayload
  unrelated : LoggedPayload

pub record LoggedEvent : Type 0 where
  pub event_id : Text
  pub deployment_id : Text
  pub payload : LoggedPayload

-- The tables deployment_events and deployment_broker_order_links.
pub record Store : Type 0 where
  pub log : List LoggedEvent
  pub links : Links

-- `_runtime_event_is_order_submit_ack`
unfoldable pub is_submit_ack : RuntimeEvent → Bool
is_submit_ack event =
    event.runtime_kind == codes "order_stock_async_response"
    && not (is_empty (strip (text_or event.order_id event.order_sysid)))

-- `_runtime_event_is_cancel_submit_ack`
unfoldable pub is_cancel_ack : RuntimeEvent → Bool
is_cancel_ack event =
    event.runtime_kind == codes "cancel_order_stock_async_response"
    && not (event.cancel_result_failed || not (is_empty (text_or event.error_msg event.status_msg)))
    && not (is_empty (event_broker_order_id event))

abbrev pub stripped_report : ExecutionReport → ExecutionReport
stripped_report report = record report {
  report_id = strip report.report_id;
  broker_type = strip report.broker_type;
  client_order_id = strip report.client_order_id;
  broker_order_id = strip report.broker_order_id;
  symbol = strip report.symbol;
  account_id = strip report.account_id;
  status = strip report.status;
}

-- `_upsert_broker_execution_event_link_locked`
unfoldable pub upsert_execution_event : Text → ℕ → ExecutionReport → Links → Links
upsert_execution_event deployment_id now payload links =
    let report = stripped_report payload in
    if is_empty report.broker_type || is_empty report.client_order_id || is_empty report.report_id
    then links
    else (upsert_broker_order_links deployment_id now (report ∷ []) (links, 0)).0

-- The report that stands for a submit acknowledgement; `isoformat` writes a timestamp.
abbrev pub submit_ack_report : (ℕ → Text) → RuntimeEvent → ExecutionReport
submit_ack_report isoformat event =
    let broker_order_id = strip (text_or event.order_sysid event.order_id) in
    record {
      report_id = codes "submit_ack:" ++ broker_order_id ++ codes ":" ++ isoformat event.event_ts;
      broker_type = strip event.broker_type;
      as_of = event.event_ts;
      client_order_id = event_client_order_id event;
      broker_order_id = broker_order_id;
      symbol = strip event.stock_code;
      account_id = strip event.account_id;
      status = codes "reported";
      filled_shares = pos 0;
      remaining_shares = pos 0;
    }

-- `_upsert_broker_submit_ack_link_locked`
unfoldable pub upsert_submit_ack : (ℕ → Text) → Text → ℕ → RuntimeEvent → Links → Links
upsert_submit_ack isoformat deployment_id now event links =
    let report = submit_ack_report isoformat event in
    if is_empty report.broker_type
      || is_empty report.client_order_id
      || is_empty report.broker_order_id
    then links
    else (upsert_broker_order_links deployment_id now (report ∷ []) (links, 0)).0

-- `ORDER BY event_ts DESC, event_id DESC`
unfoldable pub is_later : Text × RuntimeEvent → Text × RuntimeEvent → Bool
is_later (i, a) (j, b) =
    if ltb b.event_ts a.event_ts
    then true
    else if ltb a.event_ts b.event_ts
    then false
    else text_le j i

abbrev pub logged_runtime : Text → LoggedPayload → List (Text × RuntimeEvent)
logged_runtime event_id (runtime event) = (event_id, event) ∷ []
logged_runtime event_id _ = []

abbrev pub stored_runtime : Text → LoggedEvent → List (Text × RuntimeEvent)
stored_runtime deployment_id event =
    if event.deployment_id == deployment_id then logged_runtime event.event_id event.payload else []

unfoldable pub stored_runtimes : Text → List LoggedEvent → List (Text × RuntimeEvent)
stored_runtimes deployment_id [] = []
stored_runtimes deployment_id (event ∷ log) =
    stored_runtime deployment_id event ++ stored_runtimes deployment_id log

abbrev pub runtime_of : List (Text × RuntimeEvent) → List RuntimeEvent
runtime_of [] = []
runtime_of ((_, event) ∷ events) = event ∷ runtime_of events

-- The runtime events of a deployment, latest first.
unfoldable pub runtime_events : Text → List LoggedEvent → List RuntimeEvent
runtime_events deployment_id log = runtime_of (sort_by is_later (stored_runtimes deployment_id log))

unfoldable pub is_logged : Text → List LoggedEvent → Bool
is_logged event_id [] = false
is_logged event_id (event ∷ log) = event.event_id == event_id || is_logged event_id log

-- The upsert that an event selects; `log` has the event already.
unfoldable pub dispatch : (ℕ → Text) → List LoggedEvent → Text → ℕ → LoggedPayload → Links → Links
dispatch isoformat log deployment_id now (execution report) links =
    upsert_execution_event deployment_id now report links
dispatch isoformat log deployment_id now (cancel_requested request) links =
    upsert_cancel_requested now (runtime_events deployment_id log)
      (record request { deployment_id = deployment_id }) links
dispatch isoformat log deployment_id now (runtime event) links =
    if is_submit_ack event
    then upsert_submit_ack isoformat deployment_id now event links
    else if is_cancel_ack event
    then upsert_cancel_ack deployment_id now event links
    else if is_cancel_failed event
    then upsert_cancel_failed deployment_id now event links
    else links
dispatch isoformat log deployment_id now unrelated links = links

-- One round of the loop, with the time at which it runs: INSERT OR IGNORE, then the links.
unfoldable pub append_event : (ℕ → Text) → ℕ × LoggedEvent → Store × ℕ → Store × ℕ
append_event isoformat (now, event) (store, inserted) =
    let known = is_logged event.event_id store.log in
    let log = if known then store.log else store.log ++ event ∷ [] in
    (
      record {
        log = log;
        links = dispatch isoformat log event.deployment_id now event.payload store.links;
      },
      if known then inserted else inserted + 1,
    )

-- `_append_events_locked`
unfoldable pub append_events : (ℕ → Text) → List (ℕ × LoggedEvent) → Store × ℕ → Store × ℕ
append_events isoformat [] state = state
append_events isoformat (event ∷ events) state =
    append_events isoformat events (append_event isoformat event state)
