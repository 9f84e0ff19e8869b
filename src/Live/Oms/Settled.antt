-- ===== src/Live/Oms/Settled.antt =====
-- The events of `execute_rebalance`, ez/live/oms.py, replayed by the ledger of ez/live/ledger.py: cash, holdings
-- and trades.
use backtesting_framework.Common.{
  ℕ, leb_ℤ, pos, Option, none, some, List, [], ◌∷◌, ◌++◌, ◌≡◌, false, refl, sym, ◌∙◌, inl, inr, All,
  Bool-cases, Float, contains,
}
use mathlib.Core.Path.{ap₂}
use backtesting_framework.Common.Text.{Text, text_eq, codes, strip, is_empty}
use backtesting_framework.Common.Dict.{Dict, get, get_or}
use backtesting_framework.Live.Ledger.Apply.{apply_event, apply_payload, apply_report}
use backtesting_framework.Live.Risk.Rules.{Order}
use backtesting_framework.Live.PaperBroker.Fills.{BrokerFillReport}
use backtesting_framework.Live.PaperBroker.Reports.{BrokerOrderReport}
use backtesting_framework.Live.Oms.Emit.{
  Runtime, Emission, joined, settle_order, submitted_event, rejected_event, reject_unexecuted,
  acknowledge, submit_ack, report_fills, is_submission_only_broker_report,
}
use backtesting_framework.Live.Oms.Rebalance.{settle_all}
use backtesting_framework.Live.Oms.EventIds.{
  IsForeign, contains-IsForeign, AreSliced, fill_suffix, is_submission, text_beq-append,
}
use backtesting_framework.Live.Oms.Replayed.{filled, Books, AreNew}
use backtesting_framework.Live.Oms.NewFills.{
  trades_of, trades_of-append, filled-append, fill_events-AreNew, fill_events-filled, neither,
}

pub submitted-Books :
    (F : Type 0) ⦃o : Float F⦄ (runtime : Runtime) (order : Order)
    → Books {F = F} (submitted_event runtime order) × Books {F = F} (rejected_event runtime order)
unfolding apply_event apply_payload
submitted-Books F runtime order =
    (record { books = λ state. refl }, record { books = λ state. refl })

reject_unexecuted-AreNew :
    (F : Type 0) ⦃o : Float F⦄ (runtime : Runtime) (order : Order) (ids : List Text)
    → AreNew ids (reject_unexecuted {F = F} runtime order).events
unfolding reject_unexecuted
reject_unexecuted-AreNew F runtime order ids =
    let (sent, refused) = submitted-Books F runtime order in
    (sent, inl refl, (refused, inl refl, tt))

module _ {F : Type 0} ⦃o : Float F⦄ where
  -- The events of an emission have its fills, each once.
  abbrev pub IsTraded : Emission F → Type 0
  IsTraded emission = filled emission.events ≡ trades_of emission.fills

  pub IsTraded-joined : (a b : Emission F) → IsTraded a → IsTraded b → IsTraded (joined a b)
  IsTraded-joined a b p q =
      filled-append a.events b.events ∙ ap₂ ◌++◌ p q ∙ sym (trades_of-append a.fills b.fills)

  settle_order-IsTraded :
      (runtime : Runtime) (order : Order) (found : Option (BrokerOrderReport F))
      (children : List (BrokerFillReport F))
      → IsTraded (settle_order runtime order found children)
  unfolding settle_order reject_unexecuted acknowledge submit_ack report_fills
  settle_order-IsTraded runtime order none children = refl
  settle_order-IsTraded runtime order (some report) children =
      elim (Bool-cases (is_submission_only_broker_report report)) [
        | inl e ↦ elim (Bool-cases (is_empty (strip report.broker_order_id))) [
          | inl f ↦ rw (e, f) refl
          | inr f ↦ rw (e, f) refl
        ]
        | inr e ↦ elim (Bool-cases (leb_ℤ report.filled_shares (pos 0))) [
          | inl f ↦ rw (e, f) refl
          | inr f ↦ rw (e, f) (fill_events-filled runtime order children)
        ]
      ]

  pub settle_all-IsTraded :
      (runtime : Runtime) (reports : Dict Text (BrokerOrderReport F))
      (fills : Dict Text (List (BrokerFillReport F))) (orders : List Order)
      → IsTraded (settle_all runtime reports fills orders)
  unfolding settle_all
  settle_all-IsTraded runtime reports fills [] = refl
  settle_all-IsTraded runtime reports fills (order ∷ orders) =
      IsTraded-joined
        (settle_order runtime order (get order.client_order_id reports)
          (get_or order.client_order_id [] fills))
        (settle_all runtime reports fills orders)
        (settle_order-IsTraded runtime order (get order.client_order_id reports)
          (get_or order.client_order_id [] fills))
        (settle_all-IsTraded runtime reports fills orders)

  acknowledge-AreNew :
      (runtime : Runtime) (order : Order) (report : BrokerOrderReport F) (ids : List Text)
      → AreNew ids (acknowledge runtime order report).events
  unfolding acknowledge submit_ack apply_event apply_payload apply_report
  acknowledge-AreNew runtime order report ids =
      let sent = (submitted-Books F runtime order).0 in
      elim (Bool-cases (is_empty (strip report.broker_order_id))) [
        | inl e ↦ rw e (sent, inl refl, tt)
        | inr e ↦ rw e (sent, inl refl, (record { books = λ state. refl }, inl refl, tt))
      ]

  -- After the submission of an order no fill of it is in the ids.
  unsubmitted :
      (runtime : Runtime) (order : Order) (ids : List Text) (children : List (BrokerFillReport F))
      → IsForeign order.client_order_id ids
      → All
          (λ child.
            contains
              ((submitted_event {F = F} runtime order).event_id ∷ ids)
              (order.client_order_id ++ codes ":" ++ fill_suffix runtime child)
            ≡ false)
          children
  unsubmitted runtime order ids [] foreign = tt
  unsubmitted runtime order ids (child ∷ children) foreign =
      let start = order.client_order_id ++ codes ":" in
      (
        neither
            (text_beq-append start (codes "order_submitted") (fill_suffix runtime child)
              ∙ is_submission runtime child)
            (contains-IsForeign order.client_order_id (fill_suffix runtime child) ids foreign),
        unsubmitted runtime order ids children foreign,
      )

  pub settle_order-AreNew :
      (runtime : Runtime) (order : Order) (found : Option (BrokerOrderReport F))
      (children : List (BrokerFillReport F)) (ids : List Text)
      → ((i j : ℕ) → runtime.str i ≡ runtime.str j → i ≡ j)
      → IsForeign order.client_order_id ids
      → AreSliced children
      → AreNew ids (settle_order runtime order found children).events
  unfolding settle_order report_fills
  settle_order-AreNew runtime order none children ids injective foreign sliced =
      reject_unexecuted-AreNew F runtime order ids
  settle_order-AreNew runtime order (some report) children ids injective foreign sliced =
      elim (Bool-cases (is_submission_only_broker_report report)) [
        | inl e ↦ rw e (acknowledge-AreNew runtime order report ids)
        | inr e ↦ elim (Bool-cases (leb_ℤ report.filled_shares (pos 0))) [
          | inl f ↦ rw (e, f) (reject_unexecuted-AreNew F runtime order ids)
          | inr f ↦
              rw (e, f)
                (
                  (submitted-Books F runtime order).0,
                  inl refl,
                  fill_events-AreNew runtime order children
                      ((submitted_event {F = F} runtime order).event_id ∷ ids) injective
                      (unsubmitted runtime order ids children foreign) sliced,
                )
        ]
      ]
