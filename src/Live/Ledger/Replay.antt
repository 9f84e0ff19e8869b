-- ===== src/Live/Ledger/Replay.antt =====
-- `LiveLedger.replay` of ez/live/ledger.py: the events in the order of `_event_sort_key`, each event_id
-- applied once.
use backtesting_framework.Common.{
  ℕ, ℤ, Bool, true, false, List, [], ◌∷◌, ltb, if◌then◌else◌, contains, length, none, Float,
}
use backtesting_framework.Common.Text.{Text, text_eq, text_le, is_empty}
use backtesting_framework.Common.Dict.{Dict}
use backtesting_framework.Common.Sort.{sort_by}
use backtesting_framework.Live.Events.Event.{EventType, event_type, DeploymentEvent}
use backtesting_framework.Live.Ledger.State.{LiveLedgerState}
use backtesting_framework.Live.Ledger.Apply.{apply_event}

-- The priorities in `_event_sort_key`.
unfoldable pub event_priority : EventType → ℕ
event_priority EventType.market_snapshot = 5
event_priority EventType.market_bar_recorded = 6
event_priority EventType.broker_account_recorded = 43
event_priority EventType.order_submitted = 10
event_priority EventType.order_partially_filled = 20
event_priority EventType.order_filled = 30
event_priority EventType.order_rejected = 40
event_priority EventType.broker_runtime_recorded = 44
event_priority EventType.broker_execution_recorded = 45
event_priority EventType.broker_cancel_requested = 46
event_priority EventType.risk_recorded = 50
event_priority EventType.snapshot_saved = 60
event_priority EventType.tick_completed = 70

-- The order of the tuples (time, priority, event_id).
unfoldable pub sort_key_le : ℕ → ℕ → ℕ → ℕ → Text → Text → Bool
sort_key_le ts ts' p p' i j =
    if ltb ts ts'
    then true
    else if ltb ts' ts
    then false
    else if ltb p p'
    then true
    else if ltb p' p
    then false
    else text_le i j

module _ {F : Type 0} where
  unfoldable pub event_le : DeploymentEvent F → DeploymentEvent F → Bool
  event_le a b =
      sort_key_le a.event_ts b.event_ts (event_priority (event_type a.payload))
        (event_priority (event_type b.payload)) a.event_id b.event_id

module _ {F : Type 0} ⦃o : Float F⦄ where
  -- An event is skipped if its event_id is not empty and has been seen.
  abbrev pub is_repeated : List Text → DeploymentEvent F → Bool
  is_repeated seen event = if is_empty event.event_id then false else contains seen event.event_id

  abbrev pub mark_seen : List Text → DeploymentEvent F → List Text
  mark_seen seen event = if is_empty event.event_id then seen else event.event_id ∷ seen

  -- The loop of `replay`, over the sorted events.
  unfoldable pub replay_from :
      LiveLedgerState F → List Text → List (DeploymentEvent F) → LiveLedgerState F × List Text
  replay_from state seen [] = (state, seen)
  replay_from state seen (event ∷ events) =
      replay_from (if is_repeated seen event then state else apply_event state event)
        (if is_repeated seen event then seen else mark_seen seen event) events

  unfoldable pub initial_state : F → Dict Text ℤ → LiveLedgerState F
  initial_state initial_cash initial_holdings = record {
    cash = initial_cash;
    holdings = initial_holdings;
    order_statuses = [];
    broker_order_states = [];
    trades = [];
    risk_events = [];
    last_prices = [];
    equity_curve = [];
    dates = [];
    latest_snapshot_date = none;
    latest_snapshot_equity = none;
    latest_weights = [];
    latest_prev_returns = [];
    seen_event_count = 0;
  }

  unfoldable pub replay : List (DeploymentEvent F) → F → Dict Text ℤ → LiveLedgerState F
  replay events initial_cash initial_holdings =
      let (state, seen) =
        replay_from (initial_state initial_cash initial_holdings) [] (sort_by event_le events) in
      record state { seen_event_count = length seen }

if_either {ℓ κ} :
    {A : Type ℓ} (P : A → Type κ) (b : Bool) {x y : A} → P x → P y → P (if b then x else y)
if_either P true h k = h
if_either P false h k = k

module _ {κ} {F : Type 0} ⦃o : Float F⦄ (P : LiveLedgerState F → Type κ) where
  -- What every event preserves, the loop preserves.
  pub replay_from_inv :
      ((state : LiveLedgerState F) (event : DeploymentEvent F)
        → P state
        → P (apply_event state event))
      → (state : LiveLedgerState F) (seen : List Text) (events : List (DeploymentEvent F)) → P state
      → P (replay_from state seen events).0
  unfolding replay_from
  replay_from_inv step state seen [] h = h
  replay_from_inv step state seen (e ∷ events) h =
      replay_from_inv step (if is_repeated seen e then state else apply_event state e)
        (if is_repeated seen e then seen else mark_seen seen e) events
        (if_either P (is_repeated seen e) h (step state e h))
