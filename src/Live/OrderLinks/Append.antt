-- ===== src/Live/OrderLinks/Append.antt =====
-- The link table of ez/live/_broker_order_links.py when a batch of events is appended
-- (ez/live/deployment_store.py).
use backtesting_framework.Common.{
  ℕ, ◌≡◌, Bool, true, false, Option, none, some, List, [], ◌∷◌, arith, Option-cases, inl, inr,
  if◌then◌else◌,
}
use backtesting_framework.Common.Text.{Text, text_eq}
use backtesting_framework.Common.Dict.{get}
use backtesting_framework.Live.Events.Status.{is_terminal, is_terminal}
use backtesting_framework.Live.Events.Lifecycle.{is_terminal-rank}
use backtesting_framework.Live.OrderLinks.Table.{LinkKey, link_key_eq, Link, Links}
use backtesting_framework.Live.OrderLinks.Cancel.{is_cancel_failed}
use backtesting_framework.Live.OrderLinks.Forward.{Follows, upsert_broker_order_links-Follows}
use backtesting_framework.Live.OrderLinks.Find.{IsWellFormed}
use backtesting_framework.Live.OrderLinks.Cancellation.{
  cancel_requested_keeps_terminal, cancel_ack_keeps_terminal, cancel_failed_keeps_terminal,
}
use backtesting_framework.Live.OrderLinks.Log.{
  LoggedPayload, execution, cancel_requested, runtime, unrelated, LoggedEvent, Store,
  stripped_report, submit_ack_report, upsert_execution_event, upsert_submit_ack, is_submit_ack,
  is_cancel_ack, runtime_events, dispatch, append_event, append_events,
}
use backtesting_framework.Live.OrderLinks.WellFormed.{dispatch-IsWellFormed}

-- A row is there, with a terminal status.
abbrev pub IsDone : Option Link → Type 0
IsDone none = ⊥
IsDone (some link) = is_terminal link.latest_status ≡ true

Follows-IsDone : (a b : Option Link) → Follows a b → IsDone a → IsDone b
Follows-IsDone none b h d = absurd d
Follows-IsDone (some l) none h d = absurd h
Follows-IsDone (some l) (some m) h d =
    let before = (is_terminal-rank l.latest_status).0 d in
    (is_terminal-rank m.latest_status).1 (omega (arith, before, h.0))

kept-IsDone :
    (before after : Links) (k : LinkKey)
    → ((link : Link)
        → get k before ≡ some link
        → is_terminal link.latest_status ≡ true
        → get k after ≡ some link)
    → IsDone (get k before)
    → IsDone (get k after)
kept-IsDone before after k keep d = elim (Option-cases (get k before)) [
  | inl missing ↦ absurd (rw missing at d)
  | inr (link, here) ↦
      let over : is_terminal link.latest_status ≡ true = rw here at d in
      rw (keep link here over) over
]

if-IsDone :
    (b : Bool) (k : LinkKey) (x y : Links)
    → IsDone (get k x)
    → IsDone (get k y)
    → IsDone (get k (if b then x else y))
if-IsDone true k x y d e = d
if-IsDone false k x y d e = e

dispatch-IsDone :
    (isoformat : ℕ → Text) (log : List LoggedEvent) (deployment_id : Text) (now : ℕ)
    (payload : LoggedPayload) (links : Links) (k : LinkKey)
    → IsWellFormed links
    → IsDone (get k links)
    → IsDone (get k (dispatch isoformat log deployment_id now payload links))
unfolding dispatch upsert_execution_event upsert_submit_ack
dispatch-IsDone isoformat log deployment_id now (execution report) links k w d =
    if-IsDone _ k _ _ d (
      Follows-IsDone _ _
        (upsert_broker_order_links-Follows deployment_id now (stripped_report report ∷ [])
          (links, 0) k)
        d)
dispatch-IsDone isoformat log deployment_id now (cancel_requested request) links k w d =
    kept-IsDone links _ k
      (cancel_requested_keeps_terminal now (runtime_events deployment_id log)
        (record request { deployment_id = deployment_id }) links k)
      d
dispatch-IsDone isoformat log deployment_id now (runtime event) links k w d =
    if-IsDone (is_submit_ack event) k _ _
      (if-IsDone _ k _ _ d (
        Follows-IsDone _ _
          (upsert_broker_order_links-Follows deployment_id now
            (submit_ack_report isoformat event ∷ []) (links, 0) k)
          d))
      (if-IsDone (is_cancel_ack event) k _ _
        (kept-IsDone links _ k
          (λ link. cancel_ack_keeps_terminal deployment_id now event links k link w) d)
        (if-IsDone (is_cancel_failed event) k _ _
          (kept-IsDone links _ k
            (λ link. cancel_failed_keeps_terminal deployment_id now event links k link w) d)
          d))
dispatch-IsDone isoformat log deployment_id now unrelated links k w d = d

-- Appending any events keeps the link table well formed: its keys differ, and their client order ids are
-- stripped.
pub append_events-IsWellFormed :
    (isoformat : ℕ → Text) (events : List (ℕ × LoggedEvent)) (state : Store × ℕ)
    → IsWellFormed state.0.links
    → IsWellFormed (append_events isoformat events state).0.links
unfolding append_events append_event
append_events-IsWellFormed isoformat [] state w = w
append_events-IsWellFormed isoformat ((now, event) ∷ events) state w =
    append_events-IsWellFormed isoformat events (append_event isoformat (now, event) state)
      (dispatch-IsWellFormed isoformat _ event.deployment_id now event.payload state.0.links w)

-- Starting from a well-formed table, an order whose link has a terminal status still has a link with a
-- terminal status after any events are appended.
pub append_events-IsDone :
    (isoformat : ℕ → Text) (events : List (ℕ × LoggedEvent)) (state : Store × ℕ) (k : LinkKey)
    → IsWellFormed state.0.links
    → IsDone (get k state.0.links)
    → IsDone (get k (append_events isoformat events state).0.links)
unfolding append_events append_event
append_events-IsDone isoformat [] state k w d = d
append_events-IsDone isoformat ((now, event) ∷ events) state k w d =
    append_events-IsDone isoformat events (append_event isoformat (now, event) state) k
      (dispatch-IsWellFormed isoformat _ event.deployment_id now event.payload state.0.links w)
      (dispatch-IsDone isoformat _ event.deployment_id now event.payload state.0.links k w d)
