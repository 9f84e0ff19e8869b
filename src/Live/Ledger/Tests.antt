-- ===== src/Live/Ledger/Tests.antt =====
-- Replays of small logs.
use backtesting_framework.Common.{
  ℕ, pos, refl, ◌≡◌, ◌↔◌, inl, inr, none, some, List, [], ◌∷◌, foldl, arith,
}
use backtesting_framework.Common.NatFloat.{nat_float}
use backtesting_framework.Common.Text.{text_eq, codes, text_beq}
use backtesting_framework.Common.Dict.{get}
use backtesting_framework.Common.Sort.{In, sort_by}
use backtesting_framework.Common.Sort.Filter.{filter_by}
use backtesting_framework.Live.Events.Event.{DeploymentEvent, Payload, Snapshot}
use backtesting_framework.Live.Events.Status.{Status, OrderStatus}
use backtesting_framework.Live.Ledger.State.{LiveLedgerState, BrokerOrderState}
use backtesting_framework.Live.Ledger.Apply.{apply_event, apply_fill, apply_report}
use backtesting_framework.Live.Ledger.Replay.{
  replay, replay_from, initial_state, event_le, sort_key_le,
}
use backtesting_framework.Live.Ledger.Fresh.{IsIdentified}
use backtesting_framework.Live.Ledger.Determinism.{replay_same_events}
use backtesting_framework.Live.Ledger.Account.{
  account, is_accounting, replay-accounting, snapshot_checkpoint,
}
use backtesting_framework.Live.Ledger.Forward.{Advances, replay_from-Advances}
use backtesting_framework.Live.Ledger.BrokerStates.{
  Follows, IsProjected, replay_from-Follows, replay-IsProjected,
}

abbrev a_fill : DeploymentEvent ℕ
a_fill = record {
  event_id = codes "fill";
  event_ts = 2;
  client_order_id = codes "c1";
  payload = Payload.order_filled (record {
    symbol = codes "AAA";
    side = codes "buy";
    shares = pos 3;
    price = 10;
    amount = 30;
    cost = 1;
  });
}

abbrev a_report : DeploymentEvent ℕ
a_report = record {
  event_id = codes "report";
  event_ts = 1;
  client_order_id = codes "c1";
  payload = Payload.broker_execution_recorded (record {
    report_id = codes "r1";
    broker_order_id = codes "b1";
    status = codes "reported";
    filled_shares = pos 2;
    remaining_shares = pos 1;
    avg_price = 10;
    message = [];
  });
}

abbrev a_snapshot : Snapshot ℕ
a_snapshot = record {
  snapshot_date = some 4;
  equity = some 90;
  cash = some 60;
  holdings = some ((codes "AAA", pos 3) ∷ []);
  weights = none;
  prev_returns = none;
}

abbrev a_snapshot_event : DeploymentEvent ℕ
a_snapshot_event = record {
  event_id = codes "snapshot";
  event_ts = 4;
  client_order_id = [];
  payload = Payload.snapshot_saved a_snapshot;
}

abbrev a_log : List (DeploymentEvent ℕ)
a_log = a_fill ∷ a_report ∷ []

abbrev a_shuffled_log : List (DeploymentEvent ℕ)
a_shuffled_log = a_report ∷ a_fill ∷ a_report ∷ []

a_log-IsIdentified : IsIdentified a_log
a_log-IsIdentified = record {
  has_id = λ a m. elim m [
    | inl p ↦ rw (← p) refl
    | inr n ↦ elim n [ inl p ↦ rw (← p) refl | inr x ↦ absurd x ]
  ];
  unique = λ a b m n same. ground arith;
}

same_events : (a : DeploymentEvent ℕ) → In a a_log ↔ In a a_shuffled_log
same_events a = ground arith

abbrev a_state : LiveLedgerState ℕ
a_state = initial_state 100 []

fill_test : (replay a_log 100 []).cash ≡ 69
unfolding replay replay_from sort_by event_le sort_key_le text_beq apply_event apply_fill
    apply_report initial_state
fill_test = refl

replay_same_events_example : replay a_log 100 [] ≡ replay a_shuffled_log 100 []
replay_same_events_example =
    replay_same_events a_log a_shuffled_log 100 [] a_log-IsIdentified same_events

replay-accounting_example :
    account (replay (filter_by is_accounting a_log) 100 []) ≡ account (replay a_log 100 [])
replay-accounting_example = replay-accounting a_log 100 [] a_log-IsIdentified

snapshot_checkpoint_example :
    ((foldl apply_event a_state (a_snapshot_event ∷ a_log)).cash
      ≡ (foldl apply_event (initial_state 7 []) (a_snapshot_event ∷ a_log)).cash)
    × ((foldl apply_event a_state (a_snapshot_event ∷ a_log)).holdings
        ≡ (foldl apply_event (initial_state 7 []) (a_snapshot_event ∷ a_log)).holdings)
snapshot_checkpoint_example =
    snapshot_checkpoint a_state (initial_state 7 []) a_snapshot_event a_snapshot 60
      ((codes "AAA", pos 3) ∷ []) a_log refl refl refl

-- A state that knows a submitted order, whose broker reports it partially filled.
abbrev a_known_order : BrokerOrderState ℕ
a_known_order = record {
  broker_order_id = codes "b1";
  client_order_id = codes "c1";
  status = Status.partially_filled;
  rank = 30;
  event_id = codes "earlier";
  event_ts = 0;
  report_id = codes "r0";
  filled_shares = pos 1;
  remaining_shares = pos 2;
  avg_price = 10;
  message = [];
  cancel_request_event_id = [];
  cancel_requested_at = none;
  cancel_state = none;
}

abbrev a_known_state : LiveLedgerState ℕ
a_known_state = record a_state {
  order_statuses = (codes "c1", OrderStatus.submitted) ∷ [];
  broker_order_states = (codes "b1", a_known_order) ∷ [];
}

replay_from-Advances_example :
    Advances
      (get (codes "c1") a_known_state.order_statuses)
      (get (codes "c1") (replay_from a_known_state [] a_log).0.order_statuses)
replay_from-Advances_example = replay_from-Advances a_known_state [] a_log (codes "c1")

replay_from-Follows_example :
    Follows
      (get (codes "b1") a_known_state.broker_order_states)
      (get (codes "b1") (replay_from a_known_state [] a_log).0.broker_order_states)
replay_from-Follows_example = replay_from-Follows a_known_state [] a_log (codes "b1")

replay-IsProjected_example :
    IsProjected (get (codes "b1") (replay a_log 100 []).broker_order_states)
replay-IsProjected_example = replay-IsProjected a_log 100 [] (codes "b1")
