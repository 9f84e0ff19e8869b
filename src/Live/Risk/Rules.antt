-- ===== src/Live/Risk/Rules.antt =====
-- Configuration, projected metrics and the rules of ez/live/risk.py. A failure keeps its rule; messages
-- and details are left out.
use backtesting_framework.Common.{
  ℤ, pos, ◌+ℤ◌, ◌-ℤ◌, ltb_ℤ, Bool, false, not, ◌&&◌, ◌||◌, Option, none, some, [], ◌∷◌, ◌==◌,
  if◌then◌else◌, Float, zero_float, is_positive,
}
use backtesting_framework.Common.Text.{Text, text_eq, codes}
use backtesting_framework.Common.Dict.{Dict, get_or, put, pop}
use backtesting_framework.Live.CapitalPolicy.Check.{CapitalRejectReason, exceeds}

-- The fields of `Order` that the checks read.
pub record Order : Type 0 where
  pub client_order_id : Text
  pub symbol : Text
  pub side : Text
  pub shares : ℤ

pub record PreTradeRiskConfig (F : Type 0) : Type 0 where
  pub kill_switch : Bool
  pub max_order_notional : Option F
  pub max_position_weight : Option F
  pub max_daily_turnover : Option F
  pub max_concentration : Option F
  pub max_gross_exposure : Option F

pub data RiskRule : Type 0 where
  kill_switch max_order_notional max_daily_turnover max_position_weight : RiskRule
  max_concentration max_gross_exposure : RiskRule
  capital : CapitalRejectReason → RiskRule

-- `_apply_delta`
unfoldable pub apply_delta : Dict Text ℤ → Text → ℤ → Dict Text ℤ
apply_delta holdings symbol delta =
    let next_shares = get_or symbol (pos 0) holdings +ℤ delta in
    if ltb_ℤ (pos 0) next_shares then put symbol next_shares holdings else pop symbol holdings

-- The signed change that an order asks for.
unfoldable pub order_delta : Order → ℤ
order_delta order = if order.side == codes "buy" then order.shares else pos 0 -ℤ order.shares

-- The result of `_portfolio_metrics`, less the name of the largest holding, which is only reported.
pub record Metrics (F : Type 0) : Type 0 where
  pub gross_exposure : F
  pub max_weight : F
  pub weights : Dict Text F

module _ {F : Type 0} ⦃o : Float F⦄ where
  -- The weights of the priced holdings, in the order of the holdings.
  unfoldable pub portfolio_weights : Dict Text F → F → Dict Text ℤ → Dict Text F
  portfolio_weights prices equity [] = []
  portfolio_weights prices equity ((symbol, shares) ∷ holdings) =
      let rest = portfolio_weights prices equity holdings in
      let price = get_or symbol zero_float prices in
      let weight = o.div (o.mul (o.of_int shares) price) equity in
      if not (ltb_ℤ (pos 0) shares) || o.le price zero_float
      then rest
      else if o.le weight zero_float
      then rest
      else (symbol, weight) ∷ rest

  -- `gross_exposure += weight`, from the left.
  unfoldable pub gross_from : F → Dict Text F → F
  gross_from acc [] = acc
  gross_from acc ((symbol, weight) ∷ weights) = gross_from (o.add acc weight) weights

  -- The largest weight; the first of equals is kept.
  unfoldable pub max_from : F → Dict Text F → F
  max_from best [] = best
  max_from best ((symbol, weight) ∷ weights) =
      max_from (if o.lt best weight then weight else best) weights

  unfoldable pub max_weight_of : Dict Text F → F
  unfolding max_from
  max_weight_of [] = zero_float
  max_weight_of ((symbol, weight) ∷ weights) = max_from weight weights

  -- `_portfolio_metrics`
  unfoldable pub portfolio_metrics : Dict Text ℤ → Dict Text F → F → Metrics F
  unfolding portfolio_weights gross_from max_weight_of
  portfolio_metrics holdings prices equity =
      let weights = portfolio_weights prices equity holdings in
      if o.le equity zero_float
      then record { gross_exposure = zero_float; max_weight = zero_float; weights = [] }
      else record {
        gross_exposure = gross_from zero_float weights;
        max_weight = max_weight_of weights;
        weights = weights;
      }

  -- `cap is not None and value > cap + 1e-9`
  abbrev pub over : Option F → F → Bool
  over none value = false
  over (some cap) value = exceeds value cap

  -- The turnover rule: `cumulative_notional + notional > equity * max_daily_turnover + 1e-9`.
  abbrev pub over_turnover : Option F → F → F → Bool
  over_turnover none equity turnover = false
  over_turnover (some cap) equity turnover =
      is_positive equity && exceeds turnover (o.mul equity cap)

  -- The rules on the projected portfolio.
  unfoldable pub weight_failure : PreTradeRiskConfig F → Order → Metrics F → Option RiskRule
  weight_failure config order metrics =
      let is_buy = order.side == codes "buy" in
      if is_buy && over config.max_position_weight (get_or order.symbol zero_float metrics.weights)
      then some RiskRule.max_position_weight
      else if over config.max_concentration metrics.max_weight
      then some RiskRule.max_concentration
      else if is_buy && over config.max_gross_exposure metrics.gross_exposure
      then some RiskRule.max_gross_exposure
      else none

  -- `_reject_failure`
  unfoldable pub reject_failure :
      PreTradeRiskConfig F → Order → F → F → F → F → Metrics F → Option RiskRule
  unfolding weight_failure
  reject_failure config order price notional equity cumulative_notional metrics =
      if config.kill_switch
      then some RiskRule.kill_switch
      else if over config.max_order_notional notional
      then some RiskRule.max_order_notional
      else if over_turnover config.max_daily_turnover equity (o.add cumulative_notional notional)
      then some RiskRule.max_daily_turnover
      else if o.le price zero_float || o.le equity zero_float
      then none
      else weight_failure config order metrics
