-- ===== src/Live/Ledger/Account.antt =====
-- Cash, holdings and trades of ez/live/ledger.py, and a fold over the fills and snapshots alone.
use backtesting_framework.Common.{
  ℤ, Bool, true, false, some, List, [], ◌∷◌, ◌++◌, foldl, ◌≡◌, refl, sym, ap, ◌∙◌, inl, inr,
  Bool-cases, Float,
}
use backtesting_framework.Common.Text.{Text, text_eq}
use backtesting_framework.Common.Dict.{Dict, get}
use backtesting_framework.Common.Sort.Filter.{filter_by}
use backtesting_framework.Live.Events.Event.{DeploymentEvent, Payload, Fill, Snapshot}
use backtesting_framework.Live.Ledger.State.{LiveLedgerState, is_terminal_state, broker_order_key}
use backtesting_framework.Live.Ledger.Apply.{
  apply_event, apply_payload, apply_fill, apply_report, apply_cancel_request,
  apply_snapshot_checkpoint, cash_after_fill, holdings_after_fill, given,
}
use backtesting_framework.Live.Ledger.Replay.{replay, initial_state}
use backtesting_framework.Live.Ledger.Fresh.{
  IsIdentified, fresh_sorted, replay-fresh_sorted, fresh_sorted-filter_by,
}

-- Cash, holdings and trades.
abbrev pub Account : Type 0 → Type 0
Account F = F × Dict Text ℤ × List (Fill F)

module _ {F : Type 0} where
  abbrev pub account : LiveLedgerState F → Account F
  account state = (state.cash, state.holdings, state.trades)

  -- The events that move money or shares, or restate them: fills and snapshots.
  abbrev pub is_accounting_payload : Payload F → Bool
  is_accounting_payload (Payload.order_filled _) = true
  is_accounting_payload (Payload.order_partially_filled _) = true
  is_accounting_payload (Payload.snapshot_saved _) = true
  is_accounting_payload _ = false

  abbrev pub is_accounting : DeploymentEvent F → Bool
  is_accounting event = is_accounting_payload event.payload

module _ {F : Type 0} ⦃o : Float F⦄ where
  -- What an event does to the account.
  account_step_payload : Payload F → Account F → Account F
  account_step_payload (Payload.order_filled fill) (cash, holdings, trades) =
      (cash_after_fill fill cash, holdings_after_fill fill holdings, trades ++ fill ∷ [])
  account_step_payload (Payload.order_partially_filled fill) (cash, holdings, trades) =
      (cash_after_fill fill cash, holdings_after_fill fill holdings, trades ++ fill ∷ [])
  account_step_payload (Payload.snapshot_saved snapshot) (cash, holdings, trades) =
      (given snapshot.cash cash, given snapshot.holdings holdings, trades)
  account_step_payload _ acc = acc

  account_step : Account F → DeploymentEvent F → Account F
  account_step acc event = account_step_payload event.payload acc

  account-cancel :
      (id : Text) (event : DeploymentEvent F) (state : LiveLedgerState F)
      → account (apply_cancel_request id event state) ≡ account state
  unfolding apply_cancel_request
  account-cancel id event state =
      elim (Bool-cases (
        is_terminal_state
          (get (broker_order_key id event.client_order_id) state.broker_order_states))) [
            | inl over ↦ rw over
            | inr live ↦ rw live
          ]

  account-apply_payload :
      (p : Payload F) (event : DeploymentEvent F) (state : LiveLedgerState F)
      → account (apply_payload p event state) ≡ account_step_payload p (account state)
  unfolding apply_payload apply_fill apply_report apply_snapshot_checkpoint account_step_payload
  account-apply_payload (Payload.broker_cancel_requested id) event state =
      account-cancel id event state
  account-apply_payload _ event state = refl

  -- The account after a run of events is the fold of its own steps.
  account-foldl :
      (state : LiveLedgerState F) (es : List (DeploymentEvent F))
      → account (foldl apply_event state es) ≡ foldl account_step (account state) es
  unfolding apply_event account_step
  account-foldl state [] = refl
  account-foldl state (e ∷ es) =
      account-foldl (apply_event state e) es
      ∙ ap (λ (acc : Account F). foldl account_step acc es)
          (account-apply_payload e.payload e state)

  account_step-other :
      (p : Payload F) (acc : Account F)
      → is_accounting_payload p ≡ false
      → account_step_payload p acc ≡ acc
  unfolding account_step_payload
  account_step-other (Payload.order_filled fill) acc h = cc
  account_step-other (Payload.order_partially_filled fill) acc h = cc
  account_step-other (Payload.snapshot_saved snapshot) acc h = cc
  account_step-other _ acc h = refl

  foldl-filter_by :
      (acc : Account F) (es : List (DeploymentEvent F))
      → foldl account_step acc (filter_by is_accounting es) ≡ foldl account_step acc es
  unfolding filter_by account_step
  foldl-filter_by acc [] = refl
  foldl-filter_by acc (e ∷ es) = elim (Bool-cases (is_accounting e)) [
    | inl kept ↦ rw kept (foldl-filter_by (account_step acc e) es)
    | inr dropped ↦ rw (dropped, account_step-other e.payload acc dropped) (foldl-filter_by acc es)
  ]

  account-replay :
      (es : List (DeploymentEvent F)) (cash : F) (holdings : Dict Text ℤ)
      → account (replay es cash holdings)
        ≡ foldl account_step (cash, holdings, []) (fresh_sorted es)
  unfolding replay initial_state
  account-replay es cash holdings =
      ap (λ (r : LiveLedgerState F × List Text). account r.0)
        (replay-fresh_sorted (initial_state cash holdings) es)
      ∙ account-foldl (initial_state cash holdings) (fresh_sorted es)

  -- Cash, holdings and trades come from fills and snapshots alone: a log from which every other event,
  -- broker reports and cancel requests among them, has been removed replays to the same account,
  -- provided that every event has an event_id and that an event_id names one event.
  pub replay-accounting :
      (es : List (DeploymentEvent F)) (cash : F) (holdings : Dict Text ℤ)
      → IsIdentified es
      → account (replay (filter_by is_accounting es) cash holdings)
        ≡ account (replay es cash holdings)
  replay-accounting es cash holdings known =
      account-replay (filter_by is_accounting es) cash holdings
      ∙ ap (foldl account_step (cash, holdings, [])) (fresh_sorted-filter_by is_accounting es known)
      ∙ foldl-filter_by (cash, holdings, []) (fresh_sorted es)
      ∙ sym (account-replay es cash holdings)

  step_balance :
      (p : Payload F) (acc acc' : Account F)
      → acc.0 ≡ acc'.0
      → acc.1 ≡ acc'.1
      → ((account_step_payload p acc).0 ≡ (account_step_payload p acc').0)
        × ((account_step_payload p acc).1 ≡ (account_step_payload p acc').1)
  unfolding account_step_payload
  step_balance (Payload.order_filled fill) acc acc' h k =
      (ap (cash_after_fill fill) h, ap (holdings_after_fill fill) k)
  step_balance (Payload.order_partially_filled fill) acc acc' h k =
      (ap (cash_after_fill fill) h, ap (holdings_after_fill fill) k)
  step_balance (Payload.snapshot_saved snapshot) acc acc' h k =
      (ap (given snapshot.cash) h, ap (given snapshot.holdings) k)
  step_balance _ acc acc' h k = (h, k)

  fold_balance :
      (es : List (DeploymentEvent F)) (acc acc' : Account F)
      → acc.0 ≡ acc'.0
      → acc.1 ≡ acc'.1
      → ((foldl account_step acc es).0 ≡ (foldl account_step acc' es).0)
        × ((foldl account_step acc es).1 ≡ (foldl account_step acc' es).1)
  unfolding account_step
  fold_balance [] acc acc' h k = (h, k)
  fold_balance (e ∷ es) acc acc' h k =
      let (p, q) = step_balance e.payload acc acc' h k in
      fold_balance es (account_step acc e) (account_step acc' e) p q

  -- After a snapshot that gives cash and holdings, any further events lead from any two states to the
  -- same cash and the same holdings.
  pub snapshot_checkpoint :
      (s t : LiveLedgerState F) (event : DeploymentEvent F) (snapshot : Snapshot F) (cash : F)
      (holdings : Dict Text ℤ) (es : List (DeploymentEvent F))
      → event.payload ≡ Payload.snapshot_saved snapshot
      → snapshot.cash ≡ some cash
      → snapshot.holdings ≡ some holdings
      → ((foldl apply_event s (event ∷ es)).cash ≡ (foldl apply_event t (event ∷ es)).cash)
        × ((foldl apply_event s (event ∷ es)).holdings
            ≡ (foldl apply_event t (event ∷ es)).holdings)
  unfolding account_step account_step_payload
  snapshot_checkpoint s t event snapshot cash holdings es p c h =
      let left = account-foldl s (event ∷ es) in
      let right = account-foldl t (event ∷ es) in
      let (same_cash, same_holdings) =
        fold_balance es (account_step (account s) event) (account_step (account t) event)
          (rw (p, c)) (rw (p, h)) in
      (
        ap (λ (acc : Account F). acc.0) left
            ∙ same_cash
            ∙ sym (ap (λ (acc : Account F). acc.0) right),
        ap (λ (acc : Account F). acc.1) left
            ∙ same_holdings
            ∙ sym (ap (λ (acc : Account F). acc.1) right),
      )
