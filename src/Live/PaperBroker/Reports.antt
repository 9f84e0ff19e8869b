-- ===== src/Live/PaperBroker/Reports.antt =====
-- `_build_order_reports` and `PaperBroker.execute_target_weights` of ez/live/paper_broker.py. The business
-- date and the deployment's name, which every report carries unchanged, are left out.
use backtesting_framework.Common.{
  ℕ, ℤ, pos, ◌+ℤ◌, ltb_ℤ, Option, none, some, List, [], ◌∷◌, ◌++◌, if◌then◌else◌, Float, zero_float,
}
use backtesting_framework.Common.Text.{Text, text_eq, codes, text_or}
use backtesting_framework.Common.Dict.{Dict, get_or, put}
use backtesting_framework.Live.Risk.Rules.{Order}
use backtesting_framework.Live.PaperBroker.Fills.{
  BrokerFillReport, left_of, requested_from, split_broker_fills,
}
use backtesting_framework.Portfolio.Execution.Legs.{Market}
use backtesting_framework.Portfolio.Execution.Trades.{Book, execute_portfolio_trades}

-- `BrokerOrderReport`
pub record BrokerOrderReport (F : Type 0) : Type 0 where
  pub client_order_id : Text
  pub symbol : Text
  pub side : Text
  pub requested_shares : ℤ
  pub filled_shares : ℤ
  pub remaining_shares : ℤ
  pub status : Text
  pub price : F
  pub amount : F
  pub commission : F
  pub stamp_tax : F
  pub cost : F
  pub broker_order_id : Text
  pub broker_submit_id : Text

-- `BrokerExecutionResult`
pub record BrokerExecutionResult (F : Type 0) : Type 0 where
  pub fills : List (BrokerFillReport F)
  pub order_reports : List (BrokerOrderReport F)
  pub holdings : Dict Text ℤ
  pub cash : F
  pub trade_volume : F

module _ {F : Type 0} where
  abbrev pub group_key : BrokerFillReport F → Text
  group_key fill = text_or fill.client_order_id (fill.symbol ++ codes ":" ++ fill.side)

  -- `fill_groups`, from the groups of the fills before.
  unfoldable pub groups_from :
      Dict Text (List (BrokerFillReport F))
      → List (BrokerFillReport F)
      → Dict Text (List (BrokerFillReport F))
  groups_from groups [] = groups
  groups_from groups (fill ∷ fills) =
      groups_from (put (group_key fill) (get_or (group_key fill) [] groups ++ fill ∷ []) groups)
        fills

  -- The sums, from the left.
  unfoldable pub shares_from : ℤ → List (BrokerFillReport F) → ℤ
  shares_from acc [] = acc
  shares_from acc (fill ∷ fills) = shares_from (acc +ℤ fill.shares) fills

abbrev pub status_of : {F : Type 0} → ℤ → ℤ → List (BrokerFillReport F) → Text
status_of requested filled [] = codes "rejected"
status_of requested filled (fill ∷ fills) =
    if ltb_ℤ filled requested then codes "partially_filled" else codes "filled"

module _ {F : Type 0} ⦃o : Float F⦄ where
  unfoldable pub sum_from : (BrokerFillReport F → F) → F → List (BrokerFillReport F) → F
  sum_from part acc [] = acc
  sum_from part acc (fill ∷ fills) = sum_from part (o.add acc (part fill)) fills

  -- The report of an order on its fills.
  unfoldable pub report_on : Order → List (BrokerFillReport F) → BrokerOrderReport F
  unfolding shares_from sum_from
  report_on order fills =
      let filled = shares_from (pos 0) fills in
      let amount = sum_from (λ fill. fill.amount) zero_float fills in
      record {
        client_order_id = order.client_order_id;
        symbol = order.symbol;
        side = order.side;
        requested_shares = order.shares;
        filled_shares = filled;
        remaining_shares = left_of order.shares filled;
        status = status_of order.shares filled fills;
        price = if ltb_ℤ (pos 0) filled then o.div amount (o.of_int filled) else zero_float;
        amount = amount;
        commission = sum_from (λ fill. fill.commission) zero_float fills;
        stamp_tax = sum_from (λ fill. fill.stamp_tax) zero_float fills;
        cost = sum_from (λ fill. fill.cost) zero_float fills;
        broker_order_id = [];
        broker_submit_id = [];
      }

  unfoldable pub reports_on :
      Dict Text (List (BrokerFillReport F)) → List Order → List (BrokerOrderReport F)
  unfolding report_on
  reports_on groups [] = []
  reports_on groups (order ∷ orders) =
      report_on order (get_or order.client_order_id [] groups) ∷ reports_on groups orders

  -- `_build_order_reports`
  unfoldable pub build_order_reports :
      List Order → List (BrokerFillReport F) → List (BrokerOrderReport F)
  unfolding reports_on groups_from
  build_order_reports orders fills = reports_on (groups_from [] fills) orders

  abbrev pub with_reports :
      List Order → Book F → Option (List (BrokerFillReport F)) → Option (BrokerExecutionResult F)
  with_reports orders book none = none
  with_reports orders book (some fills) = some (record {
    fills = fills;
    order_reports = build_order_reports orders fills;
    holdings = book.holdings;
    cash = book.cash;
    trade_volume = book.trade_volume;
  })

  -- `execute_target_weights`
  unfoldable pub execute_target_weights :
      Market F
      → Dict Text F
      → Dict Text ℤ
      → F
      → F
      → List Order
      → ℕ
      → Option (BrokerExecutionResult F)
  unfolding build_order_reports split_broker_fills execute_portfolio_trades
  execute_target_weights market target_weights holdings equity cash orders slices =
      let book = execute_portfolio_trades market target_weights holdings equity cash [] in
      with_reports orders book
        (split_broker_fills (requested_from [] orders) slices market.lot_size book.trades)
