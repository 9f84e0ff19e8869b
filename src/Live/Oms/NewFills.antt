-- ===== src/Live/Oms/NewFills.antt =====
-- The events of the orders of ez/live/oms.py: whose ids they have, and what the ledger of ez/live/ledger.py
-- books for the fills.
use mathlib.Core.List.{append_assoc}
use backtesting_framework.Common.{
  ℕ, Bool, false, ◌||◌, leb_ℤ, pos, Option, none, some, List, [], ◌∷◌, ◌++◌, map, ◌≡◌, ◌≢◌, nat_beq,
  refl, sym, ap, ◌∙◌, inl, inr, contains, All, arith, Bool-cases, Float,
}
use backtesting_framework.Common.Text.{Text, text_eq, text_beq, codes, strip, is_empty, starts_with}
use backtesting_framework.Live.Events.Event.{DeploymentEvent, Fill}
use backtesting_framework.Live.Ledger.Apply.{apply_event, apply_payload, apply_fill}
use backtesting_framework.Live.Risk.Rules.{Order}
use backtesting_framework.Live.Risk.Evaluate.{RejectedOrder}
use backtesting_framework.Live.PaperBroker.Fills.{BrokerFillReport}
use backtesting_framework.Live.PaperBroker.Reports.{BrokerOrderReport}
use backtesting_framework.Live.Oms.Emit.{
  Runtime, OmsFill, reject_by_risk, settle_order, fill_payload, fill_event, is_unfinished, oms_fill,
  reject_unexecuted, acknowledge, submit_ack, report_fills, is_submission_only_broker_report,
}
use backtesting_framework.Live.Oms.Rebalance.{reject_all}
use backtesting_framework.Live.Oms.EventIds.{
  IsForeign, IsApart, AreSliced, fill_suffix, event_id-fill_event, different_slices,
  text_beq-append,
}
use backtesting_framework.Live.Oms.Replayed.{filled_in, filled, ids_after, Books, AreNew}

-- The ids of acknowledgements are not of the client order id.
abbrev pub IsNoAck : Runtime → Text → Type 0
IsNoAck runtime c =
    (rest : Text)
    → starts_with (c ++ codes ":") (runtime.deployment_id ++ codes ":broker_report:" ++ rest)
      ≡ false

pub neither : {b c : Bool} → b ≡ false → c ≡ false → b || c ≡ false
neither h k = ground arith

module _ {F : Type 0} where
  -- The trades of a list of fills.
  abbrev pub trades_of : List (OmsFill F) → List (Fill F)
  trades_of fills = map (λ fill. fill_payload fill.child) fills

  -- No event has an id of the client order id.
  abbrev pub AreOthers : Text → List (DeploymentEvent F) → Type 0
  AreOthers client_order_id events =
      All (λ event. starts_with (client_order_id ++ codes ":") event.event_id ≡ false) events

  pub filled-append :
      (xs ys : List (DeploymentEvent F)) → filled (xs ++ ys) ≡ filled xs ++ filled ys
  filled-append [] ys = refl
  filled-append (x ∷ xs) ys =
      ap (λ rest. filled_in x.payload ++ rest) (filled-append xs ys)
      ∙ sym (append_assoc (filled_in x.payload) (filled xs) (filled ys))

  pub trades_of-append :
      (xs ys : List (OmsFill F)) → trades_of (xs ++ ys) ≡ trades_of xs ++ trades_of ys
  trades_of-append [] ys = refl
  trades_of-append (x ∷ xs) ys = ap (λ rest. fill_payload x.child ∷ rest) (trades_of-append xs ys)

  pub IsForeign-ids_after :
      (c : Text) (ids : List Text) (events : List (DeploymentEvent F))
      → IsForeign c ids
      → AreOthers c events
      → IsForeign c (ids_after ids events)
  IsForeign-ids_after c ids [] h k = h
  IsForeign-ids_after c ids (event ∷ events) h k =
      IsForeign-ids_after c (event.event_id ∷ ids) events (k.0, h) k.1

  fill_events-AreOthers :
      (runtime : Runtime) (order : Order) (c : Text) (children : List (BrokerFillReport F))
      → IsApart order.client_order_id c
      → AreOthers c (map (fill_event runtime order) children)
  fill_events-AreOthers runtime order c [] apart = tt
  fill_events-AreOthers runtime order c (child ∷ children) apart = (
    ap (starts_with (c ++ codes ":")) (event_id-fill_event runtime order child)
        ∙ apart (fill_suffix runtime child),
    fill_events-AreOthers runtime order c children apart,
  )

  acknowledge-AreOthers :
      (runtime : Runtime) (order : Order) (report : BrokerOrderReport F) (c : Text)
      → IsApart order.client_order_id c
      → IsNoAck runtime c
      → AreOthers c (acknowledge runtime order report).events
  unfolding acknowledge submit_ack
  acknowledge-AreOthers runtime order report c apart no_ack =
      elim (Bool-cases (is_empty (strip report.broker_order_id))) [
        | inl e ↦ rw e (apart (codes "order_submitted"), tt)
        | inr e ↦ rw e (apart (codes "order_submitted"), (no_ack _, tt))
      ]

  -- The events of one order are not of another.
  pub settle_order-AreOthers :
      (runtime : Runtime) (order : Order) (found : Option (BrokerOrderReport F))
      (children : List (BrokerFillReport F)) (c : Text)
      → IsApart order.client_order_id c
      → IsNoAck runtime c
      → AreOthers c (settle_order runtime order found children).events
  unfolding settle_order reject_unexecuted report_fills
  settle_order-AreOthers runtime order none children c apart no_ack =
      (apart (codes "order_submitted"), (apart (codes "order_rejected"), tt))
  settle_order-AreOthers runtime order (some report) children c apart no_ack =
      elim (Bool-cases (is_submission_only_broker_report report)) [
        | inl e ↦ rw e (acknowledge-AreOthers runtime order report c apart no_ack)
        | inr e ↦ elim (Bool-cases (leb_ℤ report.filled_shares (pos 0))) [
          | inl f ↦
              rw (e, f) (apart (codes "order_submitted"), (apart (codes "order_rejected"), tt))
          | inr f ↦
              rw (e, f)
                (
                  apart (codes "order_submitted"),
                  fill_events-AreOthers runtime order c children apart,
                )
        ]
      ]

pub reject_all-AreOthers :
    (F : Type 0) (runtime : Runtime) (rejected : List RejectedOrder) (c : Text)
    → All (λ r. IsApart r.order.client_order_id c) rejected
    → AreOthers c (reject_all {F = F} runtime rejected).events
unfolding reject_all reject_by_risk
reject_all-AreOthers F runtime [] c apart = tt
reject_all-AreOthers F runtime (r ∷ rejected) c apart =
    (apart.0 (codes "order_rejected"), reject_all-AreOthers F runtime rejected c apart.1)

module _ {F : Type 0} ⦃o : Float F⦄ where
  fill_event-Books :
      (runtime : Runtime) (order : Order) (child : BrokerFillReport F)
      → Books (fill_event runtime order child)
        × (filled_in (fill_event runtime order child).payload ≡ fill_payload child ∷ [])
  unfolding apply_event apply_payload apply_fill fill_event
  fill_event-Books runtime order child = elim (Bool-cases (is_unfinished child)) [
    | inl e ↦ rw e (record { books = λ state. refl }, refl)
    | inr e ↦ rw e (record { books = λ state. refl }, refl)
  ]

  -- The fills of later slices stay new after a slice.
  still_new :
      (runtime : Runtime) (order : Order) (child : BrokerFillReport F)
      (children : List (BrokerFillReport F)) (ids : List Text)
      → ((i j : ℕ) → runtime.str i ≡ runtime.str j → i ≡ j)
      → All
          (λ later.
            contains ids (order.client_order_id ++ codes ":" ++ fill_suffix runtime later) ≡ false)
          children
      → All
          (λ later.
            (nat_beq child.total_slices 1 ≡ false)
            × (nat_beq later.total_slices 1 ≡ false)
            × (child.slice_index ≢ later.slice_index))
          children
      → All
          (λ later.
            contains
              ((fill_event runtime order child).event_id ∷ ids)
              (order.client_order_id ++ codes ":" ++ fill_suffix runtime later)
            ≡ false)
          children
  still_new runtime order child [] ids injective new sliced = tt
  still_new runtime order child (later ∷ children) ids injective new sliced =
      let start = order.client_order_id ++ codes ":" in
      let (h, k, differ) = sliced.0 in
      (
        neither
            (ap (λ i. text_beq i (start ++ fill_suffix runtime later))
                (event_id-fill_event runtime order child)
              ∙ text_beq-append start (fill_suffix runtime child) (fill_suffix runtime later)
              ∙ different_slices runtime child later injective h k differ)
            new.0,
        still_new runtime order child children ids injective new.1 sliced.1,
      )

  -- The fills of an order, none of which is in the ids before.
  pub fill_events-AreNew :
      (runtime : Runtime) (order : Order) (children : List (BrokerFillReport F)) (ids : List Text)
      → ((i j : ℕ) → runtime.str i ≡ runtime.str j → i ≡ j)
      → All
          (λ child.
            contains ids (order.client_order_id ++ codes ":" ++ fill_suffix runtime child) ≡ false)
          children
      → AreSliced children
      → AreNew ids (map (fill_event runtime order) children)
  fill_events-AreNew runtime order [] ids injective new sliced = tt
  fill_events-AreNew runtime order (child ∷ children) ids injective new sliced =
      let own = event_id-fill_event runtime order child in
      (
        (fill_event-Books runtime order child).0,
        inr (ap (contains ids) own ∙ new.0),
        fill_events-AreNew runtime order children ((fill_event runtime order child).event_id ∷ ids)
            injective (still_new runtime order child children ids injective new.1 sliced.0)
            sliced.1,
      )

  pub fill_events-filled :
      (runtime : Runtime) (order : Order) (children : List (BrokerFillReport F))
      → filled (map (fill_event runtime order) children)
        ≡ trades_of (map (oms_fill runtime order) children)
  fill_events-filled runtime order [] = refl
  fill_events-filled runtime order (child ∷ children) =
      ap (λ first. first ++ filled (map (fill_event runtime order) children))
        (fill_event-Books runtime order child).1
      ∙ ap (λ rest. fill_payload child ∷ rest) (fill_events-filled runtime order children)
