-- ===== src/Live/Ledger/BrokerStates.antt =====
-- The broker order projection of ez/live/ledger.py over a replay.
use backtesting_framework.Common.{
  ℤ, pos, ◌≤◌, ◌≡◌, refl, ◌⊎◌, inl, inr, true, Option, none, some, List, [], arith, Bool-cases,
  ◌==◌, ==_eq, Float,
}
use backtesting_framework.Common.Text.{Text, text_eq, text_or, is_empty}
use backtesting_framework.Common.Dict.{Dict, get, put, get-put}
use backtesting_framework.Common.Sort.{sort_by}
use backtesting_framework.Live.Events.Status.{Status, status_rank, is_terminal}
use backtesting_framework.Live.Events.Event.{DeploymentEvent, Payload, Report}
use backtesting_framework.Live.Ledger.State.{
  LiveLedgerState, BrokerOrderState, should_advance, advanced_state, advance_broker_order_state,
  mark_cancel_requested, marked, is_submission_only, is_terminal_state, broker_order_key,
}
use backtesting_framework.Live.Ledger.Apply.{
  apply_event, apply_payload, apply_fill, apply_report, apply_cancel_request, request_cancel,
  apply_snapshot_checkpoint, empty_report,
}
use backtesting_framework.Live.Ledger.Replay.{
  replay_from, replay_from_inv, replay, initial_state, event_le,
}

module _ {F : Type 0} where
  -- An entry is never lost and never falls in rank, and a terminal status stays, but for the upgrade
  -- of `partially_canceled` to `canceled`.
  abbrev pub Follows : Option (BrokerOrderState F) → Option (BrokerOrderState F) → Type 0
  Follows none after = Unit
  Follows (some before) none = ⊥
  Follows (some before) (some after) =
      (status_rank before.status ≤ status_rank after.status)
      × (is_terminal before.status ≡ true
          → (after.status ≡ before.status)
            ⊎ (before.status ≡ Status.partially_canceled) × (after.status ≡ Status.canceled))

  Follows-refl : (a : Option (BrokerOrderState F)) → Follows a a
  Follows-refl none = tt
  Follows-refl (some a) = (omega arith, λ _. inl refl)

  Follows-trans : (a b c : Option (BrokerOrderState F)) → Follows a b → Follows b c → Follows a c
  unfolding is_terminal
  Follows-trans none b c h k = tt
  Follows-trans (some a) none c h k = absurd h
  Follows-trans (some a) (some b) none h k = absurd k
  Follows-trans (some a) (some b) (some c) h k = ground arith

  -- A submission report never shows filled shares, and the stored rank is that of the status.
  abbrev pub IsProjected : Option (BrokerOrderState F) → Type 0
  IsProjected none = Unit
  IsProjected (some c) =
      (is_submission_only c.status ≡ true → c.filled_shares ≡ pos 0)
      × (c.rank ≡ status_rank c.status)

  -- What an update may do to an entry.
  abbrev pub IsUpdate : Option (BrokerOrderState F) → Option (BrokerOrderState F) → Type 0
  IsUpdate before after = Follows before after × (IsProjected before → IsProjected after)

  IsUpdate-refl : (a : Option (BrokerOrderState F)) → IsUpdate a a
  IsUpdate-refl a = (Follows-refl a, λ h. h)

  IsUpdate-trans :
      (a b c : Option (BrokerOrderState F)) → IsUpdate a b → IsUpdate b c → IsUpdate a c
  IsUpdate-trans a b c h k = (Follows-trans a b c h.0 k.0, λ p. k.1 (h.1 p))

  IsUpdate-advanced :
      (current : Option (BrokerOrderState F)) (key : Text) (event : DeploymentEvent F)
      (status : Status) (report : Report F)
      → should_advance current status event.event_ts ≡ true
      → IsUpdate current (some (advanced_state current key event status report))
  unfolding should_advance advanced_state is_terminal
  IsUpdate-advanced none key event status report h = (tt, λ _. (λ e. rw e, refl))
  IsUpdate-advanced (some c) key event status report h = (ground arith, λ _. (λ e. rw e, refl))

  IsUpdate-put :
      (states : Dict Text (BrokerOrderState F)) (key : Text) (new : BrokerOrderState F) (k : Text)
      → IsUpdate (get key states) (some new)
      → IsUpdate (get k states) (get k (put key new states))
  IsUpdate-put states key new k h = elim (Bool-cases (key == k)) [
    | inl hit ↦ rw (get-put, hit, ← ==_eq key k hit) h
    | inr miss ↦ rw (get-put, miss) (IsUpdate-refl (get k states))
  ]

  IsUpdate-advance :
      (states : Dict Text (BrokerOrderState F)) (id : Text) (event : DeploymentEvent F)
      (status : Status) (report : Report F) (k : Text)
      → IsUpdate (get k states) (get k (advance_broker_order_state states id event status report))
  unfolding advance_broker_order_state
  IsUpdate-advance states id event status report k =
      let key = text_or id event.client_order_id in
      elim (Bool-cases (is_empty key)) [
        | inl none_given ↦ rw none_given (IsUpdate-refl (get k states))
        | inr given ↦ elim (Bool-cases (should_advance (get key states) status event.event_ts)) [
          | inl legal ↦
              rw (given, legal)
                (IsUpdate-put states key _ k (IsUpdate-advanced _ key event status report legal))
          | inr refused ↦ rw (given, refused) (IsUpdate-refl (get k states))
        ]
      ]

  IsUpdate-mark :
      (found : Option (BrokerOrderState F)) (key : Text) (event : DeploymentEvent F)
      (pending : Status) (states : Dict Text (BrokerOrderState F)) (k : Text)
      → get key states ≡ found
      → IsUpdate (get k states) (get k (mark_cancel_requested found key event pending states))
  unfolding mark_cancel_requested
  IsUpdate-mark none key event pending states k e = IsUpdate-refl (get k states)
  IsUpdate-mark (some c) key event pending states k e =
      IsUpdate-put states key (marked event pending c) k
        (rw e ((omega arith, λ _. inl refl), λ h. h))

module _ {F : Type 0} ⦃o : Float F⦄ where
  IsUpdate-request_cancel :
      (key : Text) (event : DeploymentEvent F) (pending : Status) (state : LiveLedgerState F)
      (k : Text)
      → IsUpdate
          (get k state.broker_order_states)
          (get k (request_cancel key event pending state).broker_order_states)
  unfolding request_cancel
  IsUpdate-request_cancel key event pending state k =
      IsUpdate-trans _ _ _
        (IsUpdate-advance state.broker_order_states key event pending empty_report k)
        (IsUpdate-mark _ key event pending _ k refl)

  IsUpdate-cancel :
      (id : Text) (event : DeploymentEvent F) (state : LiveLedgerState F) (k : Text)
      → IsUpdate
          (get k state.broker_order_states)
          (get k (apply_cancel_request id event state).broker_order_states)
  unfolding apply_cancel_request
  IsUpdate-cancel id event state k =
      elim (Bool-cases (
        is_terminal_state
          (get (broker_order_key id event.client_order_id) state.broker_order_states))) [
            | inl over ↦ rw over (IsUpdate-refl (get k state.broker_order_states))
            | inr live ↦ rw live (IsUpdate-request_cancel _ event _ state k)
          ]

  IsUpdate-apply_payload :
      (p : Payload F) (event : DeploymentEvent F) (state : LiveLedgerState F) (k : Text)
      → IsUpdate
          (get k state.broker_order_states)
          (get k (apply_payload p event state).broker_order_states)
  unfolding apply_payload apply_fill apply_snapshot_checkpoint
  IsUpdate-apply_payload (Payload.broker_execution_recorded report) event state k =
      unfold apply_report in IsUpdate-advance _ _ _ _ _ k
  IsUpdate-apply_payload (Payload.broker_cancel_requested id) event state k =
      IsUpdate-cancel id event state k
  IsUpdate-apply_payload _ event state k = IsUpdate-refl (get k state.broker_order_states)

  replay_from-IsUpdate :
      (state : LiveLedgerState F) (seen : List Text) (events : List (DeploymentEvent F)) (k : Text)
      → IsUpdate
          (get k state.broker_order_states)
          (get k (replay_from state seen events).0.broker_order_states)
  unfolding apply_event
  replay_from-IsUpdate state seen events k =
      replay_from_inv
        (λ s. IsUpdate (get k state.broker_order_states) (get k s.broker_order_states))
        (λ s e h. IsUpdate-trans _ _ _ h (IsUpdate-apply_payload e.payload e s k)) state seen events
        (IsUpdate-refl (get k state.broker_order_states))

  -- Over the loop of `replay`, from any state and with any events left, no broker order is lost or
  -- falls in rank, and a terminal broker status stays, but that `partially_canceled` may become
  -- `canceled`.
  pub replay_from-Follows :
      (state : LiveLedgerState F) (seen : List Text) (events : List (DeploymentEvent F)) (k : Text)
      → Follows
          (get k state.broker_order_states)
          (get k (replay_from state seen events).0.broker_order_states)
  replay_from-Follows state seen events k = (replay_from-IsUpdate state seen events k).0

  -- After a replay of any events, every broker order with a submission-only status shows no filled
  -- shares, whatever its reports claimed, and every stored rank is that of the stored status.
  pub replay-IsProjected :
      (events : List (DeploymentEvent F)) (cash : F) (holdings : Dict Text ℤ) (k : Text)
      → IsProjected (get k (replay events cash holdings).broker_order_states)
  unfolding replay initial_state get
  replay-IsProjected events cash holdings k =
      (replay_from-IsUpdate (initial_state cash holdings) [] (sort_by event_le events) k).1 tt
