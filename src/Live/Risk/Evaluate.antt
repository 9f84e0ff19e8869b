-- ===== src/Live/Risk/Evaluate.antt =====
-- `PreTradeRiskEngine.evaluate_orders` of ez/live/risk.py: each order is checked against the holdings
-- and the notional of the orders accepted before it.
use backtesting_framework.Common.{
  ℤ, pos, ltb_ℤ, not, ◌||◌, Option, none, some, List, [], ◌∷◌, if◌then◌else◌, Float, zero_float,
}
use backtesting_framework.Common.Text.{Text, text_eq}
use backtesting_framework.Common.Dict.{Dict, get_or}
use backtesting_framework.Live.CapitalPolicy.Stage.{CapitalPolicyConfig}
use backtesting_framework.Live.CapitalPolicy.Check.{CapitalRejectReason, OrderCheck, check_order}
use backtesting_framework.Live.Risk.Rules.{
  Order, PreTradeRiskConfig, RiskRule, capital, apply_delta, order_delta, portfolio_metrics,
  reject_failure,
}

pub record RejectedOrder : Type 0 where
  pub order : Order
  pub failure : RiskRule

-- The `pretrade_reject` event, less its date and texts.
pub record RiskEvent (F : Type 0) : Type 0 where
  pub rule : RiskRule
  pub symbol : Text
  pub side : Text
  pub shares : ℤ
  pub notional : F

-- What stays fixed during an evaluation. The environment holds the kill switch of the policy.
pub record Setting (F : Type 0) : Type 0 where
  pub config : PreTradeRiskConfig F
  pub capital_policy : Option (CapitalPolicyConfig F)
  pub environ : Dict Text Text
  pub broker_type : Text
  pub prices : Dict Text F
  pub equity : F

pub record PreTradeRiskDecision (F : Type 0) : Type 0 where
  pub accepted_orders : List Order
  pub rejected_orders : List RejectedOrder
  pub risk_events : List (RiskEvent F)

abbrev pub capital_rule : Option CapitalRejectReason → Option RiskRule
capital_rule none = none
capital_rule (some reason) = some (capital reason)

abbrev pub first_failure : Option RiskRule → Option RiskRule → Option RiskRule
first_failure none later = later
first_failure (some rule) later = some rule

module _ {F : Type 0} ⦃o : Float F⦄ where
  -- The exposure of the priced holdings, from the left.
  unfoldable pub exposure_from : Dict Text F → F → Dict Text ℤ → F
  exposure_from prices acc [] = acc
  exposure_from prices acc ((symbol, shares) ∷ holdings) =
      let price = get_or symbol zero_float prices in
      exposure_from prices
        (if not (ltb_ℤ (pos 0) shares) || o.le price zero_float
          then acc
          else o.add acc (o.mul (o.of_int shares) price))
        holdings

  abbrev pub price_of : Setting F → Order → F
  price_of setting order = get_or order.symbol zero_float setting.prices

  abbrev pub notional_of : Setting F → Order → F
  notional_of setting order = o.mul (o.of_int order.shares) (price_of setting order)

  -- The arguments that `_capital_policy_failure` passes on.
  abbrev pub order_check : Setting F → Dict Text ℤ → F → Order → OrderCheck F
  order_check setting projected cumulative order = record {
    symbol = order.symbol;
    side = order.side;
    notional = notional_of setting order;
    current_position_value =
        o.mul (o.of_int (get_or order.symbol (pos 0) projected)) (price_of setting order);
    current_total_exposure = exposure_from setting.prices zero_float projected;
    cumulative_day_notional = cumulative;
    broker_type = setting.broker_type;
  }

  -- `_capital_policy_failure`
  unfoldable pub capital_policy_failure :
      Option (CapitalPolicyConfig F) → Setting F → Dict Text ℤ → F → Order → Option RiskRule
  capital_policy_failure none setting projected cumulative order = none
  capital_policy_failure (some policy) setting projected cumulative order =
      capital_rule
        (check_order setting.environ policy (order_check setting projected cumulative order))

  -- The failure of an order, if any: the capital policy speaks first.
  unfoldable pub order_failure : Setting F → Dict Text ℤ → F → Order → Option RiskRule
  unfolding capital_policy_failure
  order_failure setting projected cumulative order =
      first_failure
        (capital_policy_failure setting.capital_policy setting projected cumulative order)
        (reject_failure setting.config order (price_of setting order) (notional_of setting order)
          setting.equity cumulative
          (portfolio_metrics (apply_delta projected order.symbol (order_delta order)) setting.prices
            setting.equity))

  abbrev pub accept : Order → PreTradeRiskDecision F → PreTradeRiskDecision F
  accept order decision = record decision { accepted_orders = order ∷ decision.accepted_orders }

  abbrev pub reject : Setting F → Order → RiskRule → PreTradeRiskDecision F → PreTradeRiskDecision F
  reject setting order rule decision = record decision {
    rejected_orders = record { order = order; failure = rule } ∷ decision.rejected_orders;
    risk_events =
        record {
          rule = rule;
          symbol = order.symbol;
          side = order.side;
          shares = order.shares;
          notional = notional_of setting order;
        }
        ∷ decision.risk_events;
  }

  -- The loop of `evaluate_orders` from the projected holdings and the cumulative notional on.
  unfoldable pub evaluate_from : Setting F → Dict Text ℤ → F → List Order → PreTradeRiskDecision F
  evaluate_from setting projected cumulative [] = record {
    accepted_orders = [];
    rejected_orders = [];
    risk_events = [];
  }
  evaluate_from setting projected cumulative (order ∷ orders) =
      elim (order_failure setting projected cumulative order) [
        | some rule ↦ reject setting order rule (evaluate_from setting projected cumulative orders)
        | none ↦ accept order (
            evaluate_from setting (apply_delta projected order.symbol (order_delta order))
              (o.add cumulative (notional_of setting order)) orders)
      ]

  -- `evaluate_orders`
  unfoldable pub evaluate_orders : Setting F → Dict Text ℤ → List Order → PreTradeRiskDecision F
  unfolding evaluate_from
  evaluate_orders setting holdings orders = evaluate_from setting holdings zero_float orders
