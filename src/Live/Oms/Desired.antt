-- ===== src/Live/Oms/Desired.antt =====
-- `PaperOMS._build_desired_orders` and `_accepted_target_weights` of ez/live/oms.py. The order id, which
-- equals the client's, the business date and the deployment's name are left out of an order.
use backtesting_framework.Common.{
  ℕ, ℤ, pos, abs, ◌+ℤ◌, ◌-ℤ◌, ltb_ℤ, ◌&&◌, Option, none, some, List, [], ◌∷◌, ◌++◌, if◌then◌else◌,
  ◌==◌, Float, zero_float, is_positive,
}
use backtesting_framework.Common.Text.{Text, text_eq, codes}
use backtesting_framework.Common.Dict.{Dict, get, put, pop, keys}
use backtesting_framework.Live.Risk.Rules.{Order}
use backtesting_framework.Portfolio.Execution.Legs.{sorted_union, lot_round}
use backtesting_framework.Portfolio.Execution.Trades.{is_zero_ℤ, shares_of}

-- What names a rebalance.
pub record Rebalance : Type 0 where
  pub deployment_id : Text
  pub business_date : Text

-- `make_client_order_id`
abbrev pub make_client_order_id : Rebalance → Text → Text → Text
make_client_order_id rebalance symbol side =
    rebalance.deployment_id
    ++ codes ":"
    ++ rebalance.business_date
    ++ codes ":"
    ++ symbol
    ++ codes ":"
    ++ side

abbrev pub side_of : ℤ → Text
side_of delta = if ltb_ℤ (pos 0) delta then codes "buy" else codes "sell"

-- The order that moves a symbol by `delta`.
abbrev pub order_for : Rebalance → Text → ℤ → Order
order_for rebalance symbol delta = record {
  client_order_id = make_client_order_id rebalance symbol (side_of delta);
  symbol = symbol;
  side = side_of delta;
  shares = pos (abs delta);
}

-- The orders for a list of symbols.
unfoldable pub orders_for : Rebalance → Dict Text ℤ → Dict Text ℤ → List Text → List Order
orders_for rebalance holdings targets [] = []
orders_for rebalance holdings targets (symbol ∷ symbols) =
    let rest = orders_for rebalance holdings targets symbols in
    let delta = shares_of symbol targets -ℤ shares_of symbol holdings in
    if is_zero_ℤ delta then rest else order_for rebalance symbol delta ∷ rest

-- The holdings after an accepted order.
unfoldable pub project : Dict Text ℤ → Order → Dict Text ℤ
project projected order =
    let delta = if order.side == codes "buy" then order.shares else pos 0 -ℤ order.shares in
    let next_shares = shares_of order.symbol projected +ℤ delta in
    if ltb_ℤ (pos 0) next_shares
    then put order.symbol next_shares projected
    else pop order.symbol projected

unfoldable pub project_all : Dict Text ℤ → List Order → Dict Text ℤ
unfolding project
project_all projected [] = projected
project_all projected (order ∷ orders) = project_all (project projected order) orders

module _ {F : Type 0} ⦃o : Float F⦄ where
  -- Target weights to whole lots, for the symbols with a positive price.
  unfoldable pub desired_target : Dict Text F → F → ℕ → Text × F → Dict Text ℤ → Dict Text ℤ
  unfolding lot_round
  desired_target prices equity lot_size (symbol, weight) targets = elim (get symbol prices) [
    | none ↦ targets
    | some price ↦
        if o.le price zero_float
        then targets
        else put symbol (lot_round (o.div (o.mul equity weight) price) lot_size) targets
  ]

  unfoldable pub desired_targets : Dict Text F → F → ℕ → Dict Text F → Dict Text ℤ → Dict Text ℤ
  unfolding desired_target
  desired_targets prices equity lot_size [] targets = targets
  desired_targets prices equity lot_size (entry ∷ weights) targets =
      desired_targets prices equity lot_size weights
        (desired_target prices equity lot_size entry targets)

  -- `_build_desired_orders`
  unfoldable pub build_desired_orders :
      Rebalance → Dict Text F → Dict Text ℤ → F → Dict Text F → ℕ → List Order
  unfolding desired_targets orders_for sorted_union
  build_desired_orders rebalance target_weights holdings equity prices lot_size =
      let targets = desired_targets prices equity lot_size target_weights [] in
      orders_for rebalance holdings targets (sorted_union (keys holdings) (keys targets))

  -- The weight of a priced holding.
  abbrev pub weight_of : Dict Text F → F → Text → ℤ → Option F
  weight_of prices equity symbol shares = elim (get symbol prices) [
    | none ↦ none
    | some price ↦
        if ltb_ℤ (pos 0) shares && is_positive price
        then some (o.div (o.mul (o.of_int shares) price) equity)
        else none
  ]

  abbrev pub with_weight : Text → Option F → Dict Text F → Dict Text F
  with_weight symbol none rest = rest
  with_weight symbol (some weight) rest = (symbol, weight) ∷ rest

  unfoldable pub weights_of_holdings : Dict Text F → F → Dict Text ℤ → Dict Text F
  weights_of_holdings prices equity [] = []
  weights_of_holdings prices equity ((symbol, shares) ∷ holdings) =
      with_weight symbol (weight_of prices equity symbol shares)
        (weights_of_holdings prices equity holdings)

  -- `_accepted_target_weights`
  unfoldable pub accepted_target_weights : Dict Text ℤ → List Order → Dict Text F → F → Dict Text F
  unfolding project_all weights_of_holdings
  accepted_target_weights holdings accepted_orders prices equity =
      if o.le equity zero_float
      then []
      else weights_of_holdings prices equity (project_all holdings accepted_orders)
