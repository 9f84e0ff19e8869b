-- ===== src/Live/Risk/Partition.antt =====
-- The accepted and the rejected orders of an evaluation by ez/live/risk.py.
use backtesting_framework.Common.{
  ℤ, ◌≡◌, refl, ap, inl, inr, List, [], ◌∷◌, map, Option-cases, Float, zero_float,
}
use backtesting_framework.Common.Text.{Text, text_eq}
use backtesting_framework.Common.Dict.{Dict}
use backtesting_framework.Live.CapitalPolicy.Stage.{stage_eq}
use backtesting_framework.Live.Risk.Rules.{Order, RiskRule, apply_delta, order_delta}
use backtesting_framework.Live.Risk.Evaluate.{
  RejectedOrder, RiskEvent, Setting, PreTradeRiskDecision, notional_of, order_failure, accept,
  evaluate_from, evaluate_orders,
}

-- A list is the interleaving of two others: each keeps its order.
pub data Interleaves {A : Type 0} : List A → List A → List A → Type 0 where
  done : Interleaves [] [] []
  left : {xs ys zs : List A} (x : A) → Interleaves xs ys zs → Interleaves (x ∷ xs) (x ∷ ys) zs
  right : {xs ys zs : List A} (x : A) → Interleaves xs ys zs → Interleaves (x ∷ xs) ys (x ∷ zs)

abbrev pub rejected_order : RejectedOrder → Order
rejected_order r = r.order

abbrev pub failure_of : RejectedOrder → RiskRule
failure_of r = r.failure

abbrev pub event_rule : {F : Type 0} → RiskEvent F → RiskRule
event_rule e = e.rule

module _ {F : Type 0} ⦃o : Float F⦄ where
  -- A decision splits the orders, and reports each rejection once.
  pub record IsSplit (orders : List Order) (d : PreTradeRiskDecision F) : Type 0 where
    pub split : Interleaves orders d.accepted_orders (map rejected_order d.rejected_orders)
    pub reported : map event_rule d.risk_events ≡ map failure_of d.rejected_orders

  evaluate_from-IsSplit :
      (setting : Setting F) (projected : Dict Text ℤ) (cumulative : F) (orders : List Order)
      → IsSplit orders (evaluate_from setting projected cumulative orders)
  unfolding evaluate_from
  evaluate_from-IsSplit setting projected cumulative [] = record { split = done; reported = refl }
  evaluate_from-IsSplit setting projected cumulative (order ∷ orders) =
      elim (Option-cases (order_failure setting projected cumulative order)) [
        | inl passed ↦
            let h =
              evaluate_from-IsSplit setting (apply_delta projected order.symbol (order_delta order))
                (o.add cumulative (notional_of setting order)) orders in
            rw (passed, evaluate_from)
              (record { split = left order h.split; reported = h.reported })
        | inr (rule, failed) ↦
            let h = evaluate_from-IsSplit setting projected cumulative orders in
            rw (failed, evaluate_from)
              (record { split = right order h.split; reported = ap (λ l. rule ∷ l) h.reported })
      ]

  -- Every order is either accepted or rejected, both lists keep the order of the orders, and the risk
  -- events are one for each rejection, with its rule.
  pub evaluate_orders-IsSplit :
      (setting : Setting F) (holdings : Dict Text ℤ) (orders : List Order)
      → IsSplit orders (evaluate_orders setting holdings orders)
  unfolding evaluate_orders
  evaluate_orders-IsSplit setting holdings orders =
      evaluate_from-IsSplit setting holdings zero_float orders

  abbrev pub all_accepted : List Order → PreTradeRiskDecision F
  all_accepted orders = record { accepted_orders = orders; rejected_orders = []; risk_events = [] }

  evaluate_from_again :
      (setting : Setting F) (projected : Dict Text ℤ) (cumulative : F) (orders : List Order)
      → let accepted = (evaluate_from setting projected cumulative orders).accepted_orders in
        evaluate_from setting projected cumulative accepted ≡ all_accepted accepted
  unfolding evaluate_from
  evaluate_from_again setting projected cumulative [] = refl
  evaluate_from_again setting projected cumulative (order ∷ orders) =
      elim (Option-cases (order_failure setting projected cumulative order)) [
        | inl passed ↦
            let h =
              evaluate_from_again setting (apply_delta projected order.symbol (order_delta order))
                (o.add cumulative (notional_of setting order)) orders in
            rw (passed, evaluate_from, passed) (ap (accept order) h)
        | inr (rule, failed) ↦
            rw (failed, evaluate_from) (evaluate_from_again setting projected cumulative orders)
      ]

  -- The accepted orders stand on their own: evaluated without the rejected ones, from the same holdings,
  -- each of them is accepted again.
  pub evaluate_orders_again :
      (setting : Setting F) (holdings : Dict Text ℤ) (orders : List Order)
      → let accepted = (evaluate_orders setting holdings orders).accepted_orders in
        evaluate_orders setting holdings accepted ≡ all_accepted accepted
  unfolding evaluate_orders
  evaluate_orders_again setting holdings orders =
      evaluate_from_again setting holdings zero_float orders
