-- ===== src/Live/Reconcile/Tests.antt =====
-- Reconciliations of small accounts.
use backtesting_framework.Common.{
  List, map, none, ℕ, ℤ, pos, abs, leb, ◌≡◌, ◌↔◌, refl, true, false, [], ◌∷◌, contains, ◌-ℤ◌, ◌||◌,
}
use backtesting_framework.Common.NatFloat.{nat_float}
use backtesting_framework.Common.Text.{Text, text_eq, text_beq, codes, strip, lower_char}
use backtesting_framework.Common.Dict.{Dict, get_or, put, keys}
use backtesting_framework.Live.Reconcile.Snapshot.{
  BrokerPosition, BrokerAccountSnapshot, Tolerances, volumes_from, share_delta_of,
  reconcile_broker_positions, reconcile_broker_snapshot,
}
use backtesting_framework.Live.Reconcile.Agreement.{
  IsAgreed, reconcile_broker_positions_ok, reconcile_broker_snapshot_ok,
}
use backtesting_framework.Common.Sort.{sort_by}
use backtesting_framework.Portfolio.Execution.Legs.{sorted_union}
use backtesting_framework.Live.Reconcile.OpenRows.{order_seen, link_seen, last_open}
use backtesting_framework.Live.Reconcile.OpenOrders.{Agree, reconcile_broker_orders_ok}
use backtesting_framework.Live.Reconcile.Orders.{
  OrderReport, RawOrder, RawLink, reconcile_broker_orders,
}
use backtesting_framework.Live.Events.Status.{
  broker_order_status_aliases, normalize_stripped, ranked_or_guess, ranked_statuses,
}

abbrev some_holdings : Dict Text ℤ
some_holdings = (codes "AAA", pos 300) ∷ []

abbrev a_position : BrokerPosition
a_position = record {
  broker_type = codes "qmt";
  symbol = [];
  stock_code = codes " AAA";
  volume = pos 200;
}

reconcile_broker_positions_ok_example :
    ((reconcile_broker_positions {F = ℕ} 100 (codes "qmt") some_holdings (a_position ∷ [])).status
      ≡ codes "ok")
    ↔ ((symbol : Text)
        → leb (abs (share_delta_of some_holdings (volumes_from [] (a_position ∷ [])) symbol)) 100
          ≡ true)
reconcile_broker_positions_ok_example =
    reconcile_broker_positions_ok ℕ 100 (codes "qmt") some_holdings (a_position ∷ [])

abbrev some_tolerances : Tolerances ℕ
some_tolerances = record { cash_tolerance = 1; notional_tolerance = 100; share_tolerance = 0 }

abbrev a_snapshot : BrokerAccountSnapshot ℕ
a_snapshot = record {
  broker_type = codes "qmt";
  cash = 50;
  positions = (codes "AAA", pos 300) ∷ [];
}

reconcile_broker_snapshot_ok_example :
    ((reconcile_broker_snapshot some_tolerances 50 some_holdings 3_050 [] a_snapshot).status
      ≡ codes "ok")
    ↔ ((nat_float.lt 1 (nat_float.abs_float (nat_float.sub 50 50)) ≡ false)
        × ((symbol : Text)
            → contains (keys some_holdings) symbol || contains (keys a_snapshot.positions) symbol
              ≡ true
            → IsAgreed some_tolerances some_holdings a_snapshot.positions [] symbol))
reconcile_broker_snapshot_ok_example =
    reconcile_broker_snapshot_ok some_tolerances 50 some_holdings 3_050 [] a_snapshot

short_position_test :
    (reconcile_broker_positions {F = ℕ} 0 (codes "qmt") some_holdings (a_position ∷ [])).status
    ≡ codes "drift"
unfolding reconcile_broker_positions sorted_union sort_by strip put text_beq ◌-ℤ◌ get_or
short_position_test = refl

abbrev an_open_order : RawOrder
an_open_order = record {
  client_order_id = [];
  broker_order_id = codes "b1";
  symbol = codes "AAA";
  status = codes "submitted";
  filled_shares = pos 0;
  remaining_shares = pos 100;
}

abbrev a_link : RawLink
a_link = record {
  client_order_id = codes "c1";
  broker_order_id = codes "b1";
  symbol = codes "AAA";
  latest_status = codes "reported_cancel_pending";
}

-- The report says that a link is filled which the ledger still takes for open.
abbrev a_fill_report : OrderReport
a_fill_report = record {
  as_of = 2;
  client_order_id = codes "c2";
  broker_order_id = codes "b2";
  symbol = codes "AAA";
  status = codes "filled";
  filled_shares = pos 100;
  remaining_shares = pos 0;
}

abbrev some_links : List RawLink
some_links = a_link ∷ record a_link { broker_order_id = codes "b2" } ∷ []

reconcile_broker_orders_ok_example :
    ((reconcile_broker_orders (an_open_order ∷ []) some_links (a_fill_report ∷ [])).status
      ≡ codes "ok")
    ↔ ((key : Text)
        → Agree
            (last_open key none (map (link_seen (a_fill_report ∷ [])) some_links))
            (last_open key none (map (order_seen (a_fill_report ∷ [])) (an_open_order ∷ []))))
reconcile_broker_orders_ok_example =
    reconcile_broker_orders_ok (an_open_order ∷ []) some_links (a_fill_report ∷ [])

filled_link_test :
    (reconcile_broker_orders (an_open_order ∷ []) some_links (a_fill_report ∷ [])).status
    ≡ codes "ok"
unfolding reconcile_broker_orders text_beq strip put normalize_stripped ranked_or_guess
    ranked_statuses get_or broker_order_status_aliases lower_char
filled_link_test = refl

-- A pending cancellation compares as reported, and a missing link is drift.
alike_test : (reconcile_broker_orders (an_open_order ∷ []) (a_link ∷ []) []).status ≡ codes "ok"
unfolding reconcile_broker_orders normalize_stripped strip ranked_or_guess ranked_statuses text_beq
    get_or broker_order_status_aliases lower_char put
alike_test = refl

missing_test : (reconcile_broker_orders (an_open_order ∷ []) [] []).status ≡ codes "drift"
unfolding reconcile_broker_orders normalize_stripped strip ranked_or_guess ranked_statuses text_beq
    get_or broker_order_status_aliases lower_char put
missing_test = refl
