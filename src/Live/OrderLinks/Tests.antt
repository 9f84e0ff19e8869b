-- ===== src/Live/OrderLinks/Tests.antt =====
-- Upserts on small tables.
use backtesting_framework.Common.{ℕ, List, pos, refl, ◌≡◌, inl, inr, true, some, [], ◌∷◌}
use backtesting_framework.Common.Text.{Text, codes, strip, text_beq}
use backtesting_framework.Common.Dict.{get}
use backtesting_framework.Live.Events.Status.{Status, is_terminal}
use backtesting_framework.Live.OrderLinks.Table.{LinkKey, link_key_eq, Link, Links}
use backtesting_framework.Live.OrderLinks.Upsert.{ExecutionReport, upsert_broker_order_links}
use backtesting_framework.Live.OrderLinks.Cancel.{
  RuntimeEvent, CancelRequest, request_key, upsert_cancel_requested, upsert_cancel_failed,
  has_later_cancel_failed,
}
use backtesting_framework.Live.OrderLinks.Forward.{Follows, upsert_broker_order_links-Follows}
use backtesting_framework.Live.OrderLinks.Find.{IsWellFormed}
use backtesting_framework.Live.OrderLinks.RoundTrip.{request_then_failure, status_of}
use backtesting_framework.Live.OrderLinks.Log.{LoggedPayload, LoggedEvent, Store, append_events}
use backtesting_framework.Live.OrderLinks.Append.{
  IsDone, append_events-IsWellFormed, append_events-IsDone,
}
use backtesting_framework.Live.OrderLinks.Stored.{IsStoredOnce, append_events_once}

abbrev a_key : LinkKey
a_key = record {
  deployment_id = codes "d";
  broker_type = codes "qmt";
  client_order_id = codes "c1";
}

abbrev link_with : Status → Link
link_with status = record {
  broker_order_id = codes "b1";
  symbol = codes "AAA";
  account_id = codes "acc";
  latest_report_id = codes "r1";
  latest_status = status;
  last_report_ts = some 3;
  created_at = 1;
  updated_at = 3;
}

abbrev table_with : Status → Links
table_with status = (a_key, link_with status) ∷ []

abbrev report_with : Text → ExecutionReport
report_with status = record {
  report_id = codes "r2";
  broker_type = codes "qmt";
  as_of = 5;
  client_order_id = codes "c1";
  broker_order_id = codes "b1";
  symbol = codes "AAA";
  account_id = codes "acc";
  status = status;
  filled_shares = pos 5;
  remaining_shares = pos 0;
}

abbrev a_request : CancelRequest
a_request = record {
  deployment_id = codes "d";
  event_ts = 4;
  client_order_id = codes "c1";
  broker_type = codes "qmt";
  broker_order_id = codes "b1";
  symbol = codes "AAA";
  account_id = codes "acc";
}

abbrev a_failure : RuntimeEvent
a_failure = record {
  event_ts = 6;
  stored_client_order_id = [];
  broker_type = codes "qmt";
  runtime_kind = codes "cancel_error";
  client_order_id = codes "c1";
  order_remark = [];
  order_sysid = [];
  broker_order_id = codes "b1";
  order_id = [];
  account_id = codes "acc";
  stock_code = codes "AAA";
  cancel_result_failed = true;
  error_msg = [];
  status_msg = [];
}

table-IsWellFormed : IsWellFormed (table_with Status.filled)
unfolding strip
table-IsWellFormed = record {
  distinct = (tt, tt);
  stripped_ids = λ e m. elim m [ inl p ↦ rw (← p) refl | inr x ↦ absurd x ];
}

upsert_broker_order_links-Follows_example : Follows (get a_key (table_with Status.reported)) (
    get a_key
      (upsert_broker_order_links
        (codes "d")
        7
        (report_with (codes "filled") ∷ [])
        (table_with Status.reported, 0)).0)
upsert_broker_order_links-Follows_example =
    upsert_broker_order_links-Follows (codes "d") 7 (report_with (codes "filled") ∷ [])
      (table_with Status.reported, 0) a_key

request_then_failure_example :
    status_of (
      get (request_key a_request) (
        upsert_cancel_failed
          (codes "d")
          8
          a_failure
          (upsert_cancel_requested 7 [] a_request (table_with Status.reported))))
    ≡ some Status.reported
unfolding get text_beq strip has_later_cancel_failed
request_then_failure_example =
    request_then_failure 7 8 [] a_request a_failure (table_with Status.reported)
      (link_with Status.reported) refl (inl refl) refl refl refl refl

abbrev isoformat : ℕ → Text
isoformat ts = ts ∷ []

abbrev a_batch : List (ℕ × LoggedEvent)
a_batch =
    (
      8,
      record {
        event_id = codes "e1";
        deployment_id = codes "d";
        payload = LoggedPayload.execution (report_with (codes "filled"));
      },
    )
    ∷ (
      9,
      record {
        event_id = codes "e2";
        deployment_id = codes "d";
        payload = LoggedPayload.cancel_requested a_request;
      },
    )
    ∷ (
      10,
      record {
        event_id = codes "e3";
        deployment_id = codes "d";
        payload = LoggedPayload.runtime a_failure;
      },
    )
    ∷ []

abbrev a_store : Store × ℕ
a_store = (record { log = []; links = table_with Status.filled }, 0)

append_events-IsWellFormed_example : IsWellFormed (append_events isoformat a_batch a_store).0.links
append_events-IsWellFormed_example =
    append_events-IsWellFormed isoformat a_batch a_store table-IsWellFormed

append_events-IsDone_example : IsDone (get a_key (append_events isoformat a_batch a_store).0.links)
unfolding get text_beq is_terminal
append_events-IsDone_example =
    append_events-IsDone isoformat a_batch a_store a_key table-IsWellFormed refl

append_events_once_example :
    let once = append_events isoformat a_batch a_store in
    IsStoredOnce a_batch a_store once
    × ((append_events isoformat a_batch (once.0, 0)).0.log ≡ once.0.log)
    × ((append_events isoformat a_batch (once.0, 0)).1 ≡ 0)
append_events_once_example = append_events_once isoformat a_batch a_store 0 tt
