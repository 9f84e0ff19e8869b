-- ===== src/Live/OrderLinks/RoundTrip.antt =====
-- A cancel request and then its failure, in ez/live/_broker_order_links.py.
use backtesting_framework.Common.{
  ℕ, ◌≡◌, refl, ap, ◌⊎◌, false, Option, none, some, List, arith, ltb,
}
use backtesting_framework.Common.Text.{Text, text_eq, is_empty, text_or, strip}
use backtesting_framework.Common.Dict.{get, put, get-put_self}
use backtesting_framework.Live.Events.Status.{Status, status_rank, is_terminal}
use backtesting_framework.Live.OrderLinks.Table.{LinkKey, link_key_eq, Link, Links}
use backtesting_framework.Live.OrderLinks.Cancel.{
  RuntimeEvent, has_later_cancel_failed, cancel_target, CancelRequest, pending_link, request_key,
  upsert_cancel_requested, find_link, event_client_order_id, event_key, restored_status, restore,
  fail_cancel, upsert_cancel_failed,
}

restored_target :
    (st : Status)
    → (st ≡ Status.reported) ⊎ (st ≡ Status.partially_filled)
    → (restored_status (cancel_target st) ≡ some st)
      × (is_terminal st ≡ false)
      × (ltb (status_rank (cancel_target st)) (status_rank st) ≡ false)
unfolding restored_status cancel_target is_terminal status_rank
restored_target st h = ground arith

abbrev pub status_of : Option Link → Option Status
status_of none = none
status_of (some link) = some link.latest_status

-- The request's write.
requested_lem :
    (now : ℕ) (events : List RuntimeEvent) (request : CancelRequest) (links : Links) (link : Link)
    → get (request_key request) links ≡ some link
    → (link.latest_status ≡ Status.reported) ⊎ (link.latest_status ≡ Status.partially_filled)
    → is_empty request.broker_type ≡ false
    → is_empty (strip request.client_order_id) ≡ false
    → has_later_cancel_failed request.broker_type
        (strip request.client_order_id)
        (text_or (strip request.broker_order_id) link.broker_order_id)
        request.event_ts
        events
      ≡ false
    → upsert_cancel_requested now events request links
      ≡ put
          (request_key request)
          (pending_link
            (some link)
            (strip request.broker_order_id)
            request.symbol
            (strip request.account_id)
            now)
          links
unfolding upsert_cancel_requested
requested_lem now events request links link here open_status broker client none_failed =
    let (back, live, behind) = restored_target link.latest_status open_status in
    rw (here, broker, client, live, none_failed, behind) refl

-- The failure's write, for an event that names the row by its client order id.
failed_lem :
    (deployment_id : Text) (now : ℕ) (event : RuntimeEvent) (links : Links) (key : LinkKey)
    (link : Link) (st : Status)
    → event_key deployment_id event (event_client_order_id event) ≡ key
    → is_empty event.broker_type ≡ false
    → is_empty (event_client_order_id event) ≡ false
    → get key links ≡ some link
    → restored_status link.latest_status ≡ some st
    → status_of (get key (upsert_cancel_failed deployment_id now event links)) ≡ some st
unfolding upsert_cancel_failed find_link fail_cancel restore
failed_lem deployment_id now event links key link st names broker client here back =
    rw (broker, client, names, here, back, get-put_self) refl

-- A cancel request on an order that is reported or partially filled, followed by the failure of that
-- cancellation, gives the link its status back. The request names a broker type and an order, no
-- failure is on record after it, and the failure names the same link by its client order id.
pub request_then_failure :
    (now later : ℕ) (events : List RuntimeEvent) (request : CancelRequest) (event : RuntimeEvent)
    (links : Links) (link : Link)
    → get (request_key request) links ≡ some link
    → (link.latest_status ≡ Status.reported) ⊎ (link.latest_status ≡ Status.partially_filled)
    → is_empty request.broker_type ≡ false
    → is_empty (strip request.client_order_id) ≡ false
    → has_later_cancel_failed request.broker_type
        (strip request.client_order_id)
        (text_or (strip request.broker_order_id) link.broker_order_id)
        request.event_ts
        events
      ≡ false
    → event_key request.deployment_id event (event_client_order_id event) ≡ request_key request
    → status_of (
        get (request_key request) (
          upsert_cancel_failed request.deployment_id later event
            (upsert_cancel_requested now events request links)))
      ≡ some link.latest_status
request_then_failure now later events request event links link here open_status broker client
      none_failed names =
    let key = request_key request in
    rw (requested_lem now events request links link here open_status broker client none_failed) (
      failed_lem request.deployment_id later event _ key _ link.latest_status names
        (rw (ap (λ (k : LinkKey). k.broker_type) names) broker)
        (rw (ap (λ (k : LinkKey). k.client_order_id) names) client) (get-put_self key _ links)
        (restored_target link.latest_status open_status).0)
