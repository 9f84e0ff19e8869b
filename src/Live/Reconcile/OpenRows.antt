-- ===== src/Live/Reconcile/OpenRows.antt =====
-- What is open under a key in ez/live/qmt/reconcile.py, on either side.
use backtesting_framework.Common.{
  ℤ, pos, Bool, true, false, not, ◌&&◌, ◌≡◌, refl, ap, ◌∙◌, inl, inr, Option, none, some, List, [],
  ◌∷◌, if◌then◌else◌, map, Bool-cases, ◌==◌,
}
use backtesting_framework.Common.Text.{Text, text_eq, text_or, is_empty}
use backtesting_framework.Common.Dict.{Dict, get, get-put}
use backtesting_framework.Live.Events.Status.{
  Status, text, is_terminal, normalize_broker_order_status,
}
use backtesting_framework.Live.Reconcile.Orders.{
  OpenRow, OrderReport, LatestReport, RawOrder, RawLink, row_with, status_text_of, broker_row,
  local_row, keep_open, broker_rows, local_rows, latest_reports_from,
}
use backtesting_framework.Live.Reconcile.Latest.{
  reported_status, latest_on, recorded, get-latest_reports_from,
}

-- The text of the status that counts: the latest report's, or else the own one.
abbrev pub status_shown : Option OrderReport → Text → Text
status_shown none own = own
status_shown (some report) own = text (reported_status report)

-- The broker's order id, or else the client order id; what is missing is the latest report's.
abbrev pub key_of : Text → Text → Option OrderReport → Text
key_of broker_order_id client_order_id none = text_or broker_order_id client_order_id
key_of broker_order_id client_order_id (some report) =
    text_or (text_or broker_order_id report.broker_order_id)
      (text_or client_order_id report.client_order_id)

-- The key and the status of an order of the broker, given the reports.
abbrev pub order_seen : List OrderReport → RawOrder → Text × Status
order_seen reports order =
    let latest = latest_on (text_or order.broker_order_id order.client_order_id) none reports in
    (
      key_of order.broker_order_id order.client_order_id latest,
      normalize_broker_order_status (status_shown latest order.status) order.filled_shares
          order.remaining_shares,
    )

-- The key and the status of a local link.
abbrev pub link_seen : List OrderReport → RawLink → Text × Status
link_seen reports link =
    let latest = latest_on (text_or link.broker_order_id link.client_order_id) none reports in
    (
      key_of link.broker_order_id link.client_order_id latest,
      normalize_broker_order_status (status_shown latest link.latest_status) (pos 0) (pos 0),
    )

-- The status of the last entry under a key that is not terminal.
abbrev pub last_open : Text → Option Status → List (Text × Status) → Option Status
last_open key found [] = found
last_open key found ((k, status) ∷ entries) =
    last_open key
      (if not (is_terminal status) && not (is_empty k) && k == key then some status else found)
      entries

abbrev pub status_at : Option OpenRow → Option Status
status_at none = none
status_at (some row) = some (row.status)

abbrev row_key : OpenRow → Text
row_key row = text_or row.broker_order_id row.client_order_id

row_with-seen :
    (client_order_id broker_order_id symbol : Text) (found : Option OrderReport) (status : Status)
    → (row_key (row_with client_order_id broker_order_id symbol (recorded found) status)
        ≡ key_of broker_order_id client_order_id found)
      × ((row_with client_order_id broker_order_id symbol (recorded found) status).status ≡ status)
row_with-seen client_order_id broker_order_id symbol none status = (refl, refl)
row_with-seen client_order_id broker_order_id symbol (some report) status = (refl, refl)

status_shown-recorded :
    (found : Option OrderReport) (own : Text)
    → status_text_of (recorded found) own ≡ status_shown found own
status_shown-recorded none own = refl
status_shown-recorded (some report) own = refl

-- The latest reports by key are those of the list.
abbrev AreOf : Dict Text LatestReport → List OrderReport → Type 0
AreOf latest reports = (key : Text) → get key latest ≡ recorded (latest_on key none reports)

broker_row-seen :
    (latest : Dict Text LatestReport) (reports : List OrderReport) (order : RawOrder)
    → AreOf latest reports
    → (row_key (broker_row latest order) ≡ (order_seen reports order).0)
      × ((broker_row latest order).status ≡ (order_seen reports order).1)
unfolding broker_row
broker_row-seen latest reports order h =
    let found = latest_on (text_or order.broker_order_id order.client_order_id) none reports in
    let (k, s) = row_with-seen order.client_order_id order.broker_order_id order.symbol found (
      normalize_broker_order_status (status_shown found order.status) order.filled_shares
        order.remaining_shares) in
    rw
      (
        h (text_or order.broker_order_id order.client_order_id),
        status_shown-recorded found order.status,
      )
      (k, s)

local_row-seen :
    (latest : Dict Text LatestReport) (reports : List OrderReport) (link : RawLink)
    → AreOf latest reports
    → (row_key (local_row latest link) ≡ (link_seen reports link).0)
      × ((local_row latest link).status ≡ (link_seen reports link).1)
unfolding local_row
local_row-seen latest reports link h =
    let found = latest_on (text_or link.broker_order_id link.client_order_id) none reports in
    let (k, s) =
      row_with-seen link.client_order_id link.broker_order_id link.symbol found
        (normalize_broker_order_status (status_shown found link.latest_status) (pos 0) (pos 0)) in
    rw
      (
        h (text_or link.broker_order_id link.client_order_id),
        status_shown-recorded found link.latest_status,
      )
      (k, s)

-- One more row under a key.
status_at-kept :
    (row : OpenRow) (rows : Dict Text OpenRow) (key : Text)
    → status_at (get key (keep_open row rows)) ≡ (
        if not (is_terminal row.status) && not (is_empty (row_key row)) && row_key row == key
        then some (row.status)
        else status_at (get key rows))
status_at-kept row rows key = elim (Bool-cases (is_terminal row.status)) [
  | inl over ↦ rw over refl
  | inr live ↦ elim (Bool-cases (is_empty (row_key row))) [
    | inl nameless ↦ rw (live, nameless) refl
    | inr named ↦ elim (Bool-cases (row_key row == key)) [
      | inl hit ↦ rw (live, named, get-put, hit) refl
      | inr miss ↦ rw (live, named, get-put, miss) refl
    ]
  ]
]

status_at-keep_open :
    (row : OpenRow) (rows : Dict Text OpenRow) (key k : Text) (status : Status)
    → row_key row ≡ k
    → row.status ≡ status
    → status_at (get key (keep_open row rows)) ≡ (
        if not (is_terminal status) && not (is_empty k) && k == key
        then some status
        else status_at (get key rows))
status_at-keep_open row rows key k status e f =
    let rest = status_at (get key rows) in
    status_at-kept row rows key
    ∙ ap
        (λ j.
          if not (is_terminal row.status) && not (is_empty j) && j == key
          then some (row.status)
          else rest)
        e
    ∙ ap (λ s. if not (is_terminal s) && not (is_empty k) && k == key then some s else rest) f

status_at-broker_rows :
    (latest : Dict Text LatestReport) (reports : List OrderReport) (rows : Dict Text OpenRow)
    (orders : List RawOrder) (key : Text)
    → AreOf latest reports
    → status_at (get key (broker_rows latest rows orders))
      ≡ last_open key (status_at (get key rows)) (map (order_seen reports) orders)
unfolding broker_rows
status_at-broker_rows latest reports rows [] key h = refl
status_at-broker_rows latest reports rows (order ∷ orders) key h =
    let (k, s) = broker_row-seen latest reports order h in
    status_at-broker_rows latest reports (keep_open (broker_row latest order) rows) orders key h
    ∙ ap (λ found. last_open key found (map (order_seen reports) orders))
        (status_at-keep_open (broker_row latest order) rows key (order_seen reports order).0
          (order_seen reports order).1 k s)

status_at-local_rows :
    (latest : Dict Text LatestReport) (reports : List OrderReport) (rows : Dict Text OpenRow)
    (links : List RawLink) (key : Text)
    → AreOf latest reports
    → status_at (get key (local_rows latest rows links))
      ≡ last_open key (status_at (get key rows)) (map (link_seen reports) links)
unfolding local_rows
status_at-local_rows latest reports rows [] key h = refl
status_at-local_rows latest reports rows (link ∷ links) key h =
    let (k, s) = local_row-seen latest reports link h in
    status_at-local_rows latest reports (keep_open (local_row latest link) rows) links key h
    ∙ ap (λ found. last_open key found (map (link_seen reports) links))
        (status_at-keep_open (local_row latest link) rows key (link_seen reports link).0
          (link_seen reports link).1 k s)

AreOf-latest_reports : (reports : List OrderReport) → AreOf (latest_reports_from [] reports) reports
unfolding get
AreOf-latest_reports reports key = get-latest_reports_from [] reports key none refl

-- What the rows of the two sides have under a key.
pub get-broker_rows :
    (reports : List OrderReport) (orders : List RawOrder) (key : Text)
    → status_at (get key (broker_rows (latest_reports_from [] reports) [] orders))
      ≡ last_open key none (map (order_seen reports) orders)
unfolding get
get-broker_rows reports orders key =
    status_at-broker_rows (latest_reports_from [] reports) reports [] orders key
      (AreOf-latest_reports reports)

pub get-local_rows :
    (reports : List OrderReport) (links : List RawLink) (key : Text)
    → status_at (get key (local_rows (latest_reports_from [] reports) [] links))
      ≡ last_open key none (map (link_seen reports) links)
unfolding get
get-local_rows reports links key =
    status_at-local_rows (latest_reports_from [] reports) reports [] links key
      (AreOf-latest_reports reports)

-- A status, if there is one, that a normalization gives.
abbrev pub IsNormal : Option Status → Type 0
IsNormal none = Unit
IsNormal (some status) =
    (raw : Text) × (f : ℤ) × (r : ℤ) × (normalize_broker_order_status raw f r ≡ status)

IsNormal-if :
    (b : Bool) (raw : Text) (f r : ℤ) (found : Option Status)
    → IsNormal found
    → IsNormal (if b then some (normalize_broker_order_status raw f r) else found)
IsNormal-if true raw f r found h = (raw, f, r, refl)
IsNormal-if false raw f r found h = h

pub IsNormal-orders :
    (reports : List OrderReport) (orders : List RawOrder) (key : Text) (found : Option Status)
    → IsNormal found
    → IsNormal (last_open key found (map (order_seen reports) orders))
IsNormal-orders reports [] key found h = h
IsNormal-orders reports (order ∷ orders) key found h =
    IsNormal-orders reports orders key _ (IsNormal-if _ _ _ _ found h)

pub IsNormal-links :
    (reports : List OrderReport) (links : List RawLink) (key : Text) (found : Option Status)
    → IsNormal found
    → IsNormal (last_open key found (map (link_seen reports) links))
IsNormal-links reports [] key found h = h
IsNormal-links reports (link ∷ links) key found h =
    IsNormal-links reports links key _ (IsNormal-if _ _ _ _ found h)
