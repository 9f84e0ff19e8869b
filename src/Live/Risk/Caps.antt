-- ===== src/Live/Risk/Caps.antt =====
-- The caps and kill switches of ez/live/risk.py, over a whole evaluation.
use backtesting_framework.Common.{
  ℤ, ◌≡◌, ◌≢◌, refl, ◌⊎◌, inl, inr, true, false, none, some, List, [], ◌∷◌, arith, Option-cases,
  ◌==◌, Float, zero_float, is_positive,
}
use backtesting_framework.Common.Text.{Text, text_eq, codes}
use backtesting_framework.Common.Dict.{Dict, get}
use backtesting_framework.Live.CapitalPolicy.Stage.{
  CapitalPolicyConfig, StageLimits, stage_eq, is_kill_switch_active, effective_stage,
}
use backtesting_framework.Live.CapitalPolicy.Check.{exceeds, check_order}
use backtesting_framework.Live.CapitalPolicy.Laws.{check_order-IsPermitted}
use backtesting_framework.Live.Risk.Rules.{Order, apply_delta, order_delta, reject_failure}
use backtesting_framework.Live.Risk.Evaluate.{
  Setting, notional_of, order_check, capital_policy_failure, order_failure, evaluate_from,
  evaluate_orders,
}

module _ {F : Type 0} ⦃o : Float F⦄ where
  -- The notional of orders, added up from the left.
  abbrev pub total_notional : Setting F → F → List Order → F
  total_notional setting acc [] = acc
  total_notional setting acc (order ∷ orders) =
      total_notional setting (o.add acc (notional_of setting order)) orders

  -- What holds of the cumulative notional at the start, and after every order that passes, holds of the
  -- total of the accepted orders.
  total_inv {κ} :
      (P : F → Type κ) (setting : Setting F)
      → ((projected : Dict Text ℤ) (cumulative : F) (order : Order)
          → order_failure setting projected cumulative order ≡ none
          → P (o.add cumulative (notional_of setting order)))
      → (projected : Dict Text ℤ) (cumulative : F) (orders : List Order) → P cumulative
      → P (
          total_notional setting cumulative
            (evaluate_from setting projected cumulative orders).accepted_orders)
  unfolding evaluate_from
  total_inv P setting step projected cumulative [] h = h
  total_inv P setting step projected cumulative (order ∷ orders) h =
      elim (Option-cases (order_failure setting projected cumulative order)) [
        | inl passed ↦
            rw (passed, evaluate_from)
              (total_inv P setting step (apply_delta projected order.symbol (order_delta order))
                (o.add cumulative (notional_of setting order)) orders
                (step projected cumulative order passed))
        | inr (rule, failed) ↦
            rw (failed, evaluate_from) (total_inv P setting step projected cumulative orders h)
      ]

  passed_turnover :
      (setting : Setting F) (cap : F) (projected : Dict Text ℤ) (cumulative : F) (order : Order)
      → setting.config.max_daily_turnover ≡ some cap
      → is_positive setting.equity ≡ true
      → order_failure setting projected cumulative order ≡ none
      → exceeds (o.add cumulative (notional_of setting order)) (o.mul setting.equity cap) ≡ false
  unfolding order_failure reject_failure
  passed_turnover setting cap projected cumulative order c e p = ground arith

  -- With a daily turnover cap and positive equity, the total notional of the accepted orders exceeds
  -- equity times the cap by no more than the tolerance of 1e-9, if the zero of an empty day does not.
  pub accepted_turnover :
      (setting : Setting F) (cap : F) (holdings : Dict Text ℤ) (orders : List Order)
      → setting.config.max_daily_turnover ≡ some cap
      → is_positive setting.equity ≡ true
      → exceeds zero_float (o.mul setting.equity cap) ≡ false
      → exceeds
          (total_notional setting zero_float
            (evaluate_orders setting holdings orders).accepted_orders)
          (o.mul setting.equity cap)
        ≡ false
  unfolding evaluate_orders
  accepted_turnover setting cap holdings orders c e start =
      total_inv (λ x. exceeds x (o.mul setting.equity cap) ≡ false) setting
        (λ projected cumulative order p.
          passed_turnover setting cap projected cumulative order c e p)
        holdings zero_float orders start

  passed_policy :
      (setting : Setting F) (policy : CapitalPolicyConfig F) (projected : Dict Text ℤ)
      (cumulative : F) (order : Order)
      → setting.capital_policy ≡ some policy
      → order_failure setting projected cumulative order ≡ none
      → check_order setting.environ policy (order_check setting projected cumulative order) ≡ none
  unfolding order_failure capital_policy_failure
  passed_policy setting policy projected cumulative order c p = ground arith

  -- With a capital policy that has limits for the stage in force, the total notional of the accepted
  -- orders exceeds the daily cap of that stage by no more than the tolerance of 1e-9, if the zero of an
  -- empty day does not.
  pub accepted_day_cap :
      (setting : Setting F) (policy : CapitalPolicyConfig F) (limits : StageLimits F)
      (holdings : Dict Text ℤ) (orders : List Order)
      → setting.capital_policy ≡ some policy
      → get (effective_stage setting.environ policy) policy.stage_limits ≡ some limits
      → exceeds zero_float limits.max_capital_per_day ≡ false
      → exceeds
          (total_notional setting zero_float
            (evaluate_orders setting holdings orders).accepted_orders)
          limits.max_capital_per_day
        ≡ false
  unfolding evaluate_orders
  accepted_day_cap setting policy limits holdings orders c l start =
      total_inv (λ x. exceeds x limits.max_capital_per_day ≡ false) setting
        (λ projected cumulative order p.
          let check = order_check setting projected cumulative order in
          let permitted =
            (check_order-IsPermitted setting.environ policy check).0
              (passed_policy setting policy projected cumulative order c p) in
          (permitted.fits limits l).day)
        holdings zero_float orders start

  none_pass :
      (setting : Setting F)
      → ((projected : Dict Text ℤ) (cumulative : F) (order : Order)
          → order_failure setting projected cumulative order ≢ none)
      → (projected : Dict Text ℤ) (cumulative : F) (orders : List Order)
      → (evaluate_from setting projected cumulative orders).accepted_orders ≡ []
  unfolding evaluate_from
  none_pass setting blocked projected cumulative [] = refl
  none_pass setting blocked projected cumulative (order ∷ orders) =
      elim (Option-cases (order_failure setting projected cumulative order)) [
        | inl passed ↦ absurd (blocked projected cumulative order passed)
        | inr (rule, failed) ↦
            rw (failed, evaluate_from) (none_pass setting blocked projected cumulative orders)
      ]

  -- A kill switch is on: that of the risk configuration, or that of the capital policy in front of a
  -- broker which is not the paper broker.
  abbrev pub IsKilled : Setting F → Type 0
  IsKilled setting =
      (setting.config.kill_switch ≡ true)
      ⊎ ((policy : CapitalPolicyConfig F) × (setting.capital_policy ≡ some policy)
          × (is_kill_switch_active setting.environ policy ≡ true)
          × ((setting.broker_type == codes "paper") ≡ false))

  policy_kills :
      (setting : Setting F) (policy : CapitalPolicyConfig F) (projected : Dict Text ℤ)
      (cumulative : F) (order : Order)
      → setting.capital_policy ≡ some policy
      → is_kill_switch_active setting.environ policy ≡ true
      → (setting.broker_type == codes "paper") ≡ false
      → order_failure setting projected cumulative order ≢ none
  policy_kills setting policy projected cumulative order c active real p =
      let permitted =
        (check_order-IsPermitted setting.environ policy
            (order_check setting projected cumulative order)).0
          (passed_policy setting policy projected cumulative order c p) in
      let paper : (setting.broker_type == codes "paper") ≡ true = permitted.switch active in cc

  killed_fails :
      (setting : Setting F) (projected : Dict Text ℤ) (cumulative : F) (order : Order)
      → IsKilled setting
      → order_failure setting projected cumulative order ≢ none
  unfolding order_failure reject_failure
  killed_fails setting projected cumulative order (inl on) p = ground arith
  killed_fails setting projected cumulative order (inr (policy, c, active, real)) p =
      policy_kills setting policy projected cumulative order c active real p

  -- With the risk kill switch on, or with the capital policy's kill switch active in front of a broker
  -- that is not the paper broker, no order is accepted, whatever the orders and the holdings.
  pub killed_accepts_none :
      (setting : Setting F) (holdings : Dict Text ℤ) (orders : List Order)
      → IsKilled setting
      → (evaluate_orders setting holdings orders).accepted_orders ≡ []
  unfolding evaluate_orders
  killed_accepts_none setting holdings orders killed =
      none_pass setting
        (λ projected cumulative order. killed_fails setting projected cumulative order killed)
        holdings zero_float orders
