-- ===== src/Live/Ledger/Forward.antt =====
-- The coarse order statuses of ez/live/ledger.py over a replay.
use backtesting_framework.Common.{
  ◌≤◌, ◌≡◌, refl, inl, inr, true, Option, none, some, List, arith, Bool-cases, ◌==◌, ==_eq, Float,
}
use backtesting_framework.Common.Text.{Text, text_eq, is_empty}
use backtesting_framework.Common.Dict.{Dict, get, put, get-put}
use backtesting_framework.Live.Events.Status.{OrderStatus, terminal_rank}
use backtesting_framework.Live.Events.Lifecycle.{local_order_status_rank}
use backtesting_framework.Live.Events.Event.{DeploymentEvent, Payload}
use backtesting_framework.Live.Ledger.State.{
  LiveLedgerState, advance_local_order_status, local_order_status_can_transition,
}
use backtesting_framework.Live.Ledger.State.{is_terminal_state, broker_order_key}
use backtesting_framework.Live.Ledger.Apply.{
  apply_event, apply_payload, apply_fill, apply_report, apply_cancel_request,
  apply_snapshot_checkpoint,
}
use backtesting_framework.Live.Ledger.Replay.{replay_from, replay_from_inv}

-- A recorded order status is never lost, never falls in rank, and stays as it is once terminal.
abbrev pub Advances : Option OrderStatus → Option OrderStatus → Type 0
Advances none after = Unit
Advances (some before) none = ⊥
Advances (some before) (some after) =
    (local_order_status_rank before ≤ local_order_status_rank after)
    × (terminal_rank ≤ local_order_status_rank before → after ≡ before)

Advances-refl : (a : Option OrderStatus) → Advances a a
Advances-refl none = tt
Advances-refl (some a) = (omega arith, λ _. refl)

Advances-trans : (a b c : Option OrderStatus) → Advances a b → Advances b c → Advances a c
Advances-trans none b c h k = tt
Advances-trans (some a) none c h k = absurd h
Advances-trans (some a) (some b) none h k = absurd k
Advances-trans (some a) (some b) (some c) h k = ground arith

Advances-move :
    (a : Option OrderStatus) (inc : OrderStatus)
    → local_order_status_can_transition a inc ≡ true
    → Advances a (some inc)
unfolding local_order_status_can_transition
Advances-move none inc h = tt
Advances-move (some a) inc h = ground arith

Advances-put :
    (m : Dict Text OrderStatus) (key : Text) (inc : OrderStatus) (k : Text)
    → local_order_status_can_transition (get key m) inc ≡ true
    → Advances (get k m) (get k (put key inc m))
Advances-put m key inc k h = elim (Bool-cases (key == k)) [
  | inl hit ↦ rw (get-put, hit, ← ==_eq key k hit) (Advances-move (get key m) inc h)
  | inr miss ↦ rw (get-put, miss) (Advances-refl (get k m))
]

Advances-advance :
    (m : Dict Text OrderStatus) (key : Text) (inc : OrderStatus) (k : Text)
    → Advances (get k m) (get k (advance_local_order_status m key inc))
unfolding advance_local_order_status
Advances-advance m key inc k = elim (Bool-cases (is_empty key)) [
  | inl none_given ↦ rw none_given (Advances-refl (get k m))
  | inr given ↦ elim (Bool-cases (local_order_status_can_transition (get key m) inc)) [
    | inl legal ↦ rw (given, legal) (Advances-put m key inc k legal)
    | inr refused ↦ rw (given, refused) (Advances-refl (get k m))
  ]
]

module _ {F : Type 0} ⦃o : Float F⦄ where
  Advances-cancel :
      (id : Text) (event : DeploymentEvent F) (state : LiveLedgerState F) (k : Text)
      → Advances
          (get k state.order_statuses)
          (get k (apply_cancel_request id event state).order_statuses)
  unfolding apply_cancel_request
  Advances-cancel id event state k =
      elim (Bool-cases (
        is_terminal_state
          (get (broker_order_key id event.client_order_id) state.broker_order_states))) [
            | inl over ↦ rw over (Advances-advance _ _ _ k)
            | inr live ↦ rw live (Advances-advance _ _ _ k)
          ]

  Advances-apply_payload :
      (p : Payload F) (event : DeploymentEvent F) (state : LiveLedgerState F) (k : Text)
      → Advances (get k state.order_statuses) (get k (apply_payload p event state).order_statuses)
  unfolding apply_payload apply_snapshot_checkpoint
  Advances-apply_payload Payload.order_submitted event state k = Advances-advance _ _ _ k
  Advances-apply_payload Payload.order_rejected event state k = Advances-advance _ _ _ k
  Advances-apply_payload (Payload.order_filled fill) event state k =
      unfold apply_fill in Advances-advance _ _ _ k
  Advances-apply_payload (Payload.order_partially_filled fill) event state k =
      unfold apply_fill in Advances-advance _ _ _ k
  Advances-apply_payload (Payload.broker_execution_recorded report) event state k =
      unfold apply_report in Advances-advance _ _ _ k
  Advances-apply_payload (Payload.broker_cancel_requested id) event state k =
      Advances-cancel id event state k
  Advances-apply_payload _ event state k = Advances-refl (get k state.order_statuses)

  -- Over the loop of `replay`, from any state and with any events left, no order status is lost, falls
  -- in rank, or changes once it is filled, canceled or rejected.
  pub replay_from-Advances :
      (state : LiveLedgerState F) (seen : List Text) (events : List (DeploymentEvent F)) (k : Text)
      → Advances
          (get k state.order_statuses)
          (get k (replay_from state seen events).0.order_statuses)
  unfolding apply_event
  replay_from-Advances state seen events k =
      replay_from_inv (λ s. Advances (get k state.order_statuses) (get k s.order_statuses))
        (λ s e h. Advances-trans _ _ _ h (Advances-apply_payload e.payload e s k)) state seen events
        (Advances-refl (get k state.order_statuses))
