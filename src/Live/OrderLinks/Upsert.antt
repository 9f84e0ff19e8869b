-- ===== src/Live/OrderLinks/Upsert.antt =====
-- `_upsert_broker_order_links_locked` of ez/live/_broker_order_links.py, on the whole table.
use backtesting_framework.Common.{
  ℕ, ℤ, ◌+◌, Bool, true, false, not, ◌&&◌, ◌||◌, Option, none, some, List, [], ◌∷◌, ltb, nat_beq,
  ◌==◌, if◌then◌else◌,
}
use backtesting_framework.Common.Text.{Text, text_eq, is_empty, text_or}
use backtesting_framework.Common.Dict.{get, put}
use backtesting_framework.Live.Events.Status.{Status, status_rank, normalize_broker_order_status}
use backtesting_framework.Live.OrderLinks.Table.{
  LinkKey, link_key_eq, Link, Links, or_blank, created,
}

-- `BrokerExecutionReport`, with the fields that the links are updated from.
pub record ExecutionReport : Type 0 where
  pub report_id : Text
  pub broker_type : Text
  pub as_of : ℕ
  pub client_order_id : Text
  pub broker_order_id : Text
  pub symbol : Text
  pub account_id : Text
  pub status : Text
  pub filled_shares : ℤ
  pub remaining_shares : ℤ

-- A fill report does not end a pending cancellation.
unfoldable pub hold_pending : Status → Status → Status
hold_pending Status.reported_cancel_pending Status.partially_filled =
    Status.partially_filled_cancel_pending
hold_pending Status.partially_filled_cancel_pending Status.partially_filled =
    Status.partially_filled_cancel_pending
hold_pending _ incoming = incoming

-- `preserve_cancel_pending_metadata`
unfoldable pub preserves_pending : Status → Status → Bool
preserves_pending Status.reported_cancel_pending Status.reported = true
preserves_pending _ _ = false

abbrev pub not_older : Option ℕ → ℕ → Bool
not_older none incoming = true
not_older (some previous) incoming = ltb previous incoming || nat_beq incoming previous

-- `should_advance`
unfoldable pub should_advance : Option Link → Status → ℕ → Bool
should_advance none status incoming = true
should_advance (some before) status incoming =
    preserves_pending before.latest_status status
    || ltb (status_rank before.latest_status) (status_rank status)
    || (nat_beq (status_rank status) (status_rank before.latest_status)
        && not_older before.last_report_ts incoming)

-- The status of a report, as the links take it.
unfoldable pub report_status : Option Link → ExecutionReport → Status
report_status before report =
    hold_pending (or_blank before).latest_status
      (normalize_broker_order_status report.status report.filled_shares report.remaining_shares)

-- `latest_status`
unfoldable pub merged_status : Option Link → Status → Bool → Status
merged_status before status advance =
    let previous = (or_blank before).latest_status in
    if preserves_pending previous status && advance
    then previous
    else if advance
    then status
    else previous

-- The row that a report writes.
unfoldable pub merged_link : Option Link → ExecutionReport → ℕ → Link
merged_link before report now =
    let previous = or_blank before in
    let status = report_status before report in
    let advance = should_advance before status report.as_of in
    record {
      broker_order_id = text_or report.broker_order_id previous.broker_order_id;
      symbol = text_or report.symbol previous.symbol;
      account_id = text_or report.account_id previous.account_id;
      latest_report_id = if advance then report.report_id else previous.latest_report_id;
      latest_status = merged_status before status advance;
      last_report_ts = if advance then some report.as_of else previous.last_report_ts;
      created_at = created before now;
      updated_at = now;
    }

abbrev pub report_key : Text → ExecutionReport → LinkKey
report_key deployment_id report = record {
  deployment_id = deployment_id;
  broker_type = report.broker_type;
  client_order_id = report.client_order_id;
}

-- Whether a report counts as an update.
abbrev pub is_update : Option Link → Link → Bool
is_update none after = true
is_update (some before) after = not (before.latest_report_id == after.latest_report_id)

-- One round of the loop of `_upsert_broker_order_links_locked`.
unfoldable pub upsert_report : Text → ℕ → ExecutionReport → Links × ℕ → Links × ℕ
upsert_report deployment_id now report (links, updated) =
    let key = report_key deployment_id report in
    let before = get key links in
    let after = merged_link before report now in
    if is_empty report.client_order_id
    then (links, updated)
    else (put key after links, if is_update before after then updated + 1 else updated)

-- `_upsert_broker_order_links_locked`
unfoldable pub upsert_broker_order_links : Text → ℕ → List ExecutionReport → Links × ℕ → Links × ℕ
upsert_broker_order_links deployment_id now [] state = state
upsert_broker_order_links deployment_id now (report ∷ reports) state =
    upsert_broker_order_links deployment_id now reports
      (upsert_report deployment_id now report state)
