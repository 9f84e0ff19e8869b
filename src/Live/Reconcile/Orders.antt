-- ===== src/Live/Reconcile/Orders.antt =====
-- `reconcile_broker_orders` of ez/live/qmt/reconcile.py. Broker orders and local links are rows of the fields
-- that are compared, in which a missing text is empty; report ids and times that a row only takes over are
-- left out.
use backtesting_framework.Common.{
  ℕ, ℤ, pos, ltb, leb, nat_beq, Bool, true, false, not, ◌&&◌, ◌||◌, Option, none, some, List, [],
  ◌∷◌, ◌++◌, if◌then◌else◌, ◌==◌, contains, length, map,
}
use backtesting_framework.Common.Text.{Text, text_eq, text_le, text_or, strip, is_empty, codes}
use backtesting_framework.Common.Dict.{Dict, get, put, keys, member}
use backtesting_framework.Live.Events.Status.{
  Status, text, normalize_broker_order_status, status_rank, is_terminal,
}
use backtesting_framework.Common.Sort.{sort_by}
use backtesting_framework.Common.Sort.Filter.{filter_by}

-- `BrokerExecutionReport`, as far as it is read.
pub record OrderReport : Type 0 where
  pub as_of : ℕ
  pub client_order_id : Text
  pub broker_order_id : Text
  pub symbol : Text
  pub status : Text
  pub filled_shares : ℤ
  pub remaining_shares : ℤ

-- An open order of the broker's snapshot.
pub record RawOrder : Type 0 where
  pub client_order_id : Text
  pub broker_order_id : Text
  pub symbol : Text
  pub status : Text
  pub filled_shares : ℤ
  pub remaining_shares : ℤ

-- A local link.
pub record RawLink : Type 0 where
  pub client_order_id : Text
  pub broker_order_id : Text
  pub symbol : Text
  pub latest_status : Text

-- An order or a link that is still open, with its normalized status.
pub record OpenRow : Type 0 where
  pub client_order_id : Text
  pub broker_order_id : Text
  pub symbol : Text
  pub status : Status

-- `BrokerOrderDrift`, less its reason, which its list tells.
pub record OrderDrift : Type 0 where
  pub order_key : Text
  pub symbol : Text
  pub local_status : Text
  pub broker_status : Text

-- `BrokerOrderReconciliationResult`
pub record OrderReconciliation : Type 0 where
  pub status : Text
  pub local_open_order_count : ℕ
  pub broker_open_order_count : ℕ
  pub missing_local_orders : List OrderDrift
  pub missing_broker_orders : List OrderDrift
  pub status_drifts : List OrderDrift

-- The latest report on a key, with its normalized status.
pub record LatestReport : Type 0 where
  pub report : OrderReport
  pub status : Status

abbrev pub add_key : Text → List Text → List Text
add_key key report_keys =
    if is_empty key || contains report_keys key then report_keys else report_keys ++ key ∷ []

-- `report_keys`
abbrev pub keys_of_report : OrderReport → List Text
keys_of_report report =
    add_key (strip report.client_order_id) (add_key (strip report.broker_order_id) [])

abbrev pub is_later : LatestReport → Option LatestReport → Bool
is_later incoming none = true
is_later incoming (some current) =
    ltb (status_rank current.status) (status_rank incoming.status)
    || (nat_beq (status_rank incoming.status) (status_rank current.status)
        && leb (current.report).as_of (incoming.report).as_of)

unfoldable pub record_under :
    LatestReport → List Text → Dict Text LatestReport → Dict Text LatestReport
record_under latest [] reports = reports
record_under latest (key ∷ report_keys) reports =
    record_under latest report_keys
      (if is_later latest (get key reports) then put key latest reports else reports)

-- `latest_reports_by_key`
unfoldable pub latest_reports_from :
    Dict Text LatestReport → List OrderReport → Dict Text LatestReport
unfolding record_under
latest_reports_from reports [] = reports
latest_reports_from reports (report ∷ later) =
    let status =
      normalize_broker_order_status report.status report.filled_shares report.remaining_shares in
    latest_reports_from
      (record_under (record { report = report; status = status }) (keys_of_report report) reports)
      later

-- A row takes over what it lacks.
abbrev pub row_with : Text → Text → Text → Option LatestReport → Status → OpenRow
row_with client_order_id broker_order_id symbol none status = record {
  client_order_id = client_order_id;
  broker_order_id = broker_order_id;
  symbol = symbol;
  status = status;
}
row_with client_order_id broker_order_id symbol (some latest) status = record {
  client_order_id = text_or client_order_id (latest.report).client_order_id;
  broker_order_id = text_or broker_order_id (latest.report).broker_order_id;
  symbol = text_or symbol (latest.report).symbol;
  status = status;
}

abbrev pub status_text_of : Option LatestReport → Text → Text
status_text_of none own = own
status_text_of (some latest) own = text latest.status

unfoldable pub broker_row : Dict Text LatestReport → RawOrder → OpenRow
unfolding normalize_broker_order_status
broker_row reports order =
    let latest = get (text_or order.broker_order_id order.client_order_id) reports in
    row_with order.client_order_id order.broker_order_id order.symbol latest (
      normalize_broker_order_status (status_text_of latest order.status) order.filled_shares
        order.remaining_shares)

unfoldable pub local_row : Dict Text LatestReport → RawLink → OpenRow
unfolding normalize_broker_order_status
local_row reports link =
    let latest = get (text_or link.broker_order_id link.client_order_id) reports in
    row_with link.client_order_id link.broker_order_id link.symbol latest
      (normalize_broker_order_status (status_text_of latest link.latest_status) (pos 0) (pos 0))

-- A row that is not terminal is kept under its key; a later row replaces an earlier one.
abbrev pub keep_open : OpenRow → Dict Text OpenRow → Dict Text OpenRow
keep_open row rows =
    let key = text_or row.broker_order_id row.client_order_id in
    if is_terminal row.status || is_empty key then rows else put key row rows

-- `broker_by_key`
unfoldable pub broker_rows :
    Dict Text LatestReport → Dict Text OpenRow → List RawOrder → Dict Text OpenRow
unfolding broker_row is_terminal
broker_rows reports rows [] = rows
broker_rows reports rows (order ∷ orders) =
    broker_rows reports (keep_open (broker_row reports order) rows) orders

-- `local_by_key`
unfoldable pub local_rows :
    Dict Text LatestReport → Dict Text OpenRow → List RawLink → Dict Text OpenRow
unfolding local_row is_terminal
local_rows reports rows [] = rows
local_rows reports rows (link ∷ links) =
    local_rows reports (keep_open (local_row reports link) rows) links

abbrev pub uncancelled : Status → Status
uncancelled Status.reported_cancel_pending = Status.reported
uncancelled Status.partially_filled_cancel_pending = Status.partially_filled
uncancelled status = status

-- `_comparable_open_status`
unfoldable pub comparable_open_status : Text → Text
unfolding normalize_broker_order_status
comparable_open_status status =
    text (uncancelled (normalize_broker_order_status status (pos 0) (pos 0)))

abbrev pub row_status : Option OpenRow → Text
row_status none = []
row_status (some row) = text row.status

abbrev pub row_symbol : Option OpenRow → Text
row_symbol none = []
row_symbol (some row) = row.symbol

-- Whether the comparable statuses of a key differ.
unfoldable pub differs : Dict Text OpenRow → Dict Text OpenRow → Text → Bool
unfolding comparable_open_status
differs local broker key =
    let here = comparable_open_status (row_status (get key local)) in
    let there = comparable_open_status (row_status (get key broker)) in
    not (is_empty here) && not (is_empty there) && not (here == there)

-- The keys of one side that the other lacks.
abbrev pub missing_keys : Dict Text OpenRow → Dict Text OpenRow → List Text
missing_keys here there = filter_by (λ key. not (member key there)) (keys here)

-- The keys of both sides with different statuses.
abbrev pub drifting_keys : Dict Text OpenRow → Dict Text OpenRow → List Text
drifting_keys local broker =
    filter_by (differs local broker)
      (sort_by text_le (filter_by (λ key. member key broker) (keys local)))

abbrev pub drift_of : Text → Text → Text → Text → OrderDrift
drift_of key symbol local_status broker_status = record {
  order_key = key;
  symbol = symbol;
  local_status = local_status;
  broker_status = broker_status;
}

abbrev pub is_nil : List Text → Bool
is_nil [] = true
is_nil (x ∷ xs) = false

-- The comparison of the open rows.
unfoldable pub compare_rows : Dict Text OpenRow → Dict Text OpenRow → OrderReconciliation
unfolding differs member filter_by sort_by
compare_rows local broker =
    let missing_local = missing_keys broker local in
    let missing_broker = missing_keys local broker in
    let drifting = drifting_keys local broker in
    record {
      status =
          if is_nil missing_local && is_nil missing_broker && is_nil drifting
          then codes "ok"
          else codes "drift";
      local_open_order_count = length local;
      broker_open_order_count = length broker;
      missing_local_orders =
          map
            (λ key.
              drift_of key (row_symbol (get key broker)) (codes "missing")
                (row_status (get key broker)))
            missing_local;
      missing_broker_orders =
          map
            (λ key.
              drift_of key (row_symbol (get key local)) (row_status (get key local))
                (codes "missing"))
            missing_broker;
      status_drifts =
          map
            (λ key.
              drift_of key (text_or (row_symbol (get key broker)) (row_symbol (get key local)))
                (comparable_open_status (row_status (get key local)))
                (comparable_open_status (row_status (get key broker))))
            drifting;
    }

-- `reconcile_broker_orders`
unfoldable pub reconcile_broker_orders :
    List RawOrder → List RawLink → List OrderReport → OrderReconciliation
unfolding compare_rows latest_reports_from broker_rows local_rows
reconcile_broker_orders open_orders local_order_links broker_reports =
    let reports = latest_reports_from [] broker_reports in
    compare_rows (local_rows reports [] local_order_links) (broker_rows reports [] open_orders)
