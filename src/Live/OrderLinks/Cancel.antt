-- ===== src/Live/OrderLinks/Cancel.antt =====
-- The stages of a cancellation in ez/live/_broker_order_links.py: the request, the broker's
-- acknowledgement, and the failure that takes the pending status back.
use backtesting_framework.Common.{
  ℕ, Bool, true, false, not, ◌&&◌, ◌||◌, Option, none, some, List, [], ◌∷◌, ltb, ◌==◌,
  if◌then◌else◌,
}
use backtesting_framework.Common.Text.{Text, text_eq, codes, is_empty, text_or, strip}
use backtesting_framework.Common.Dict.{get, put}
use backtesting_framework.Live.Events.Status.{Status, status_rank, is_terminal}
use backtesting_framework.Live.OrderLinks.Table.{
  LinkKey, link_key_eq, Link, Links, or_blank, created, links_by_broker_order_id, the_only,
}

-- A stored BROKER_RUNTIME_RECORDED event, with the keys of its payload that are read; a missing key is
-- the empty text. `cancel_result_failed` is `cancel_result not in {"", None, 0, "0"}`.
pub record RuntimeEvent : Type 0 where
  pub event_ts : ℕ
  pub stored_client_order_id : Text
  pub broker_type : Text
  pub runtime_kind : Text
  pub client_order_id : Text
  pub order_remark : Text
  pub order_sysid : Text
  pub broker_order_id : Text
  pub order_id : Text
  pub account_id : Text
  pub stock_code : Text
  pub cancel_result_failed : Bool
  pub error_msg : Text
  pub status_msg : Text

-- `is_cancel_failed`
unfoldable pub is_cancel_failed : RuntimeEvent → Bool
is_cancel_failed event =
    event.runtime_kind == codes "cancel_error"
    || (event.runtime_kind == codes "cancel_order_stock_async_response"
        && (event.cancel_result_failed
            || not (is_empty (text_or event.error_msg event.status_msg))))

-- Whether a runtime event speaks of this order.
unfoldable pub names_order : RuntimeEvent → Text → Text → Bool
names_order event client_order_id broker_order_id =
    (not (is_empty client_order_id)
      && strip
          (text_or event.client_order_id (text_or event.order_remark event.stored_client_order_id))
        == client_order_id)
    || (not (is_empty broker_order_id)
        && strip (text_or event.order_sysid (text_or event.broker_order_id event.order_id))
          == broker_order_id)

-- `_has_later_cancel_failed_runtime_locked`, over the deployment's runtime events, latest first.
unfoldable pub has_later_cancel_failed : Text → Text → Text → ℕ → List RuntimeEvent → Bool
unfolding is_cancel_failed names_order
has_later_cancel_failed broker_type client_order_id broker_order_id not_before [] = false
has_later_cancel_failed broker_type client_order_id broker_order_id not_before (event ∷ events) =
    let later =
      has_later_cancel_failed broker_type client_order_id broker_order_id not_before events in
    if ltb event.event_ts not_before
    then false
    else if event.broker_type == broker_type
        && is_cancel_failed event
        && names_order event client_order_id broker_order_id
    then true
    else later

-- `target_status` of a cancellation.
unfoldable pub cancel_target : Status → Status
cancel_target Status.partially_filled = Status.partially_filled_cancel_pending
cancel_target Status.partially_filled_cancel_pending = Status.partially_filled_cancel_pending
cancel_target _ = Status.reported_cancel_pending

-- A BROKER_CANCEL_REQUESTED event.
pub record CancelRequest : Type 0 where
  pub deployment_id : Text
  pub event_ts : ℕ
  pub client_order_id : Text
  pub broker_type : Text
  pub broker_order_id : Text
  pub symbol : Text
  pub account_id : Text

-- The row that a request or an acknowledgement writes.
abbrev pub pending_link : Option Link → Text → Text → Text → ℕ → Link
pending_link before broker_order_id symbol account_id now =
    let previous = or_blank before in
    record previous {
      broker_order_id = text_or broker_order_id previous.broker_order_id;
      symbol = text_or symbol previous.symbol;
      account_id = text_or account_id previous.account_id;
      latest_status = cancel_target previous.latest_status;
      created_at = created before now;
      updated_at = now;
    }

-- `before is not None and current_rank > target_rank`
abbrev pub is_ahead : Option Link → Bool
is_ahead none = false
is_ahead (some link) =
    ltb (status_rank (cancel_target link.latest_status)) (status_rank link.latest_status)

abbrev pub request_key : CancelRequest → LinkKey
request_key request = record {
  deployment_id = request.deployment_id;
  broker_type = request.broker_type;
  client_order_id = strip request.client_order_id;
}

-- `_upsert_broker_cancel_requested_link_locked`; `events` are the deployment's runtime events.
unfoldable pub upsert_cancel_requested : ℕ → List RuntimeEvent → CancelRequest → Links → Links
unfolding cancel_target
upsert_cancel_requested now events request links =
    let key = request_key request in
    let before = get key links in
    let broker_order_id = strip request.broker_order_id in
    if is_empty request.broker_type || is_empty key.client_order_id
    then links
    else if is_terminal (or_blank before).latest_status
    then links
    else if has_later_cancel_failed request.broker_type key.client_order_id
        (text_or broker_order_id (or_blank before).broker_order_id) request.event_ts events
    then links
    else if is_ahead before
    then links
    else put key (pending_link before broker_order_id request.symbol (strip request.account_id) now)
        links

-- The ids that an acknowledgement or a failure carries.
abbrev pub event_client_order_id : RuntimeEvent → Text
event_client_order_id event = strip (text_or event.client_order_id event.order_remark)

abbrev pub event_broker_order_id : RuntimeEvent → Text
event_broker_order_id event =
    strip (text_or event.order_sysid (text_or event.broker_order_id event.order_id))

abbrev pub event_key : Text → RuntimeEvent → Text → LinkKey
event_key deployment_id event client_order_id = record {
  deployment_id = deployment_id;
  broker_type = event.broker_type;
  client_order_id = client_order_id;
}

abbrev pub keyed : LinkKey → Option Link → Option (LinkKey × Link)
keyed key none = none
keyed key (some link) = some (key, link)

-- The row that an event is about: by its client order id, else the only one with its broker order id.
unfoldable pub find_link : Text → RuntimeEvent → Links → Option (LinkKey × Link)
find_link deployment_id event links =
    let client = event_client_order_id event in
    let broker = event_broker_order_id event in
    let key = event_key deployment_id event client in
    if not (is_empty client)
    then keyed key (get key links)
    else if is_empty broker
    then none
    else the_only (
        links_by_broker_order_id deployment_id event.broker_type broker (strip event.account_id)
          links)

-- The acknowledgement strips the texts of the row before.
abbrev pub stripped : Link → Link
stripped link = record link {
  broker_order_id = strip link.broker_order_id;
  symbol = strip link.symbol;
  account_id = strip link.account_id;
  latest_report_id = strip link.latest_report_id;
}

-- The acknowledged row: written for an unknown order if it has a client order id.
unfoldable pub acknowledge : Option (LinkKey × Link) → Text → ℕ → RuntimeEvent → Links → Links
unfolding cancel_target
acknowledge none deployment_id now event links =
    let client = event_client_order_id event in
    if is_empty client
    then links
    else put (event_key deployment_id event client)
        (pending_link none (event_broker_order_id event) (strip event.stock_code)
          (strip event.account_id) now)
        links
acknowledge (some (key, link)) deployment_id now event links =
    let resolved = record key { client_order_id = strip key.client_order_id } in
    if is_terminal link.latest_status
    then links
    else if is_ahead (some link)
    then links
    else put resolved
        (record (pending_link (some (stripped link)) (event_broker_order_id event)
          (strip event.stock_code) (strip event.account_id) now) {
            created_at = created (get resolved links) now;
          })
        links

-- `_upsert_broker_cancel_ack_link_locked`
unfoldable pub upsert_cancel_ack : Text → ℕ → RuntimeEvent → Links → Links
unfolding find_link acknowledge
upsert_cancel_ack deployment_id now event links =
    if is_empty event.broker_type
    then links
    else acknowledge (find_link deployment_id event links) deployment_id now event links

-- The status that a failed cancellation restores.
unfoldable pub restored_status : Status → Option Status
restored_status Status.reported_cancel_pending = some Status.reported
restored_status Status.partially_filled_cancel_pending = some Status.partially_filled
restored_status _ = none

unfoldable pub restore : LinkKey → Link → Option Status → ℕ → Links → Links
restore key link none now links = links
restore key link (some status) now links =
    put key (record link { latest_status = status; updated_at = now }) links

unfoldable pub fail_cancel : Option (LinkKey × Link) → ℕ → Links → Links
unfolding restore restored_status
fail_cancel none now links = links
fail_cancel (some (key, link)) now links =
    restore key link (restored_status link.latest_status) now links

-- `_upsert_broker_cancel_failed_link_locked`
unfoldable pub upsert_cancel_failed : Text → ℕ → RuntimeEvent → Links → Links
unfolding find_link fail_cancel
upsert_cancel_failed deployment_id now event links =
    if is_empty event.broker_type
    then links
    else fail_cancel (find_link deployment_id event links) now links
