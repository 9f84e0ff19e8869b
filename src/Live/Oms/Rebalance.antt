-- ===== src/Live/Oms/Rebalance.antt =====
-- `PaperOMS.execute_rebalance` of ez/live/oms.py, from the allocated weights on. The allocator and the
-- broker's own execution are not part of it: the weights are an argument and the broker is an interface.
use backtesting_framework.Common.{
  ℕ, ℤ, Option, none, some, List, [], ◌∷◌, ◌++◌, map, Float, zero_float,
}
use backtesting_framework.Common.Text.{Text, text_eq}
use backtesting_framework.Common.Dict.{Dict, get, get_or, put}
use backtesting_framework.Live.Events.Event.{DeploymentEvent, Fill}
use backtesting_framework.Live.Events.Status.{OrderStatus}
use backtesting_framework.Live.Ledger.Replay.{replay}
use backtesting_framework.Live.Risk.Rules.{Order}
use backtesting_framework.Live.Risk.Evaluate.{
  Setting, RejectedOrder, RiskEvent, PreTradeRiskDecision, evaluate_orders,
}
use backtesting_framework.Live.PaperBroker.Fills.{BrokerFillReport}
use backtesting_framework.Live.PaperBroker.Reports.{
  BrokerOrderReport, BrokerExecutionResult, execute_target_weights,
}
use backtesting_framework.Live.Oms.Desired.{
  Rebalance, build_desired_orders, accepted_target_weights,
}
use backtesting_framework.Live.Oms.Emit.{
  Runtime, Emission, nothing, joined, reject_by_risk, settle_order, fill_payload,
}
use backtesting_framework.Portfolio.Execution.Legs.{Market}

-- The broker on the data of the day: `execute_target_weights`, if it returns.
pub record Broker (F : Type 0) : Type 0 where
  pub execute : Dict Text F → List Order → Option (BrokerExecutionResult F)

-- `OMSExecutionResult`
pub record OmsExecutionResult (F : Type 0) : Type 0 where
  pub emission : Emission F
  pub risk_events : List (RiskEvent F)
  pub holdings : Dict Text ℤ
  pub cash : F
  pub trade_volume : F
  pub trades : List (Fill F)

-- `OMSReplayState`
pub record OmsReplayState (F : Type 0) : Type 0 where
  pub cash : F
  pub holdings : Dict Text ℤ
  pub order_statuses : Dict Text OrderStatus

module _ {F : Type 0} where
  -- `executed_reports`: a later report replaces an earlier one.
  unfoldable pub reports_from :
      Dict Text (BrokerOrderReport F) → List (BrokerOrderReport F) → Dict Text (BrokerOrderReport F)
  reports_from reports [] = reports
  reports_from reports (report ∷ later) =
      reports_from (put report.client_order_id report reports) later

  -- `fills_by_order`
  unfoldable pub fills_from :
      Dict Text (List (BrokerFillReport F))
      → List (BrokerFillReport F)
      → Dict Text (List (BrokerFillReport F))
  fills_from groups [] = groups
  fills_from groups (fill ∷ fills) =
      fills_from
        (put fill.client_order_id (get_or fill.client_order_id [] groups ++ fill ∷ []) groups) fills

  unfoldable pub reject_all : Runtime → List RejectedOrder → Emission F
  unfolding reject_by_risk
  reject_all runtime [] = nothing
  reject_all runtime (rejected ∷ later) =
      joined (reject_by_risk runtime rejected) (reject_all runtime later)

  unfoldable pub settle_all :
      Runtime
      → Dict Text (BrokerOrderReport F)
      → Dict Text (List (BrokerFillReport F))
      → List Order
      → Emission F
  unfolding settle_order
  settle_all runtime reports fills [] = nothing
  settle_all runtime reports fills (order ∷ orders) =
      joined
        (settle_order runtime order (get order.client_order_id reports)
          (get_or order.client_order_id [] fills))
        (settle_all runtime reports fills orders)

  -- The result, from the decision and what the broker answered.
  unfoldable pub conclude :
      Runtime → PreTradeRiskDecision F → BrokerExecutionResult F → OmsExecutionResult F
  unfolding reject_all settle_all reports_from fills_from
  conclude runtime decision answer =
      let emission : Emission F = joined (reject_all runtime decision.rejected_orders) (
        settle_all runtime (reports_from [] answer.order_reports) (fills_from [] answer.fills)
          decision.accepted_orders) in
      record {
        emission = emission;
        risk_events = decision.risk_events;
        holdings = answer.holdings;
        cash = answer.cash;
        trade_volume = answer.trade_volume;
        trades = map (λ fill. fill_payload fill.child) emission.fills;
      }

module _ {F : Type 0} ⦃o : Float F⦄ where
  -- Without an accepted order the broker is not called.
  abbrev pub idle : Dict Text ℤ → F → BrokerExecutionResult F
  idle holdings cash = record {
    fills = [];
    order_reports = [];
    holdings = holdings;
    cash = cash;
    trade_volume = zero_float;
  }

  abbrev pub answer_of :
      Broker F → Dict Text ℤ → F → F → Dict Text F → List Order → Option (BrokerExecutionResult F)
  answer_of broker holdings equity cash prices [] = some (idle holdings cash)
  answer_of broker holdings equity cash prices (order ∷ orders) =
      broker.execute (accepted_target_weights holdings (order ∷ orders) prices equity)
        (order ∷ orders)

  abbrev pub concluded :
      Runtime
      → PreTradeRiskDecision F
      → Option (BrokerExecutionResult F)
      → Option (OmsExecutionResult F)
  concluded runtime decision none = none
  concluded runtime decision (some answer) = some (conclude runtime decision answer)

  -- `execute_rebalance`
  unfoldable pub execute_rebalance :
      Runtime
      → Broker F
      → Setting F
      → Rebalance
      → Dict Text F
      → Dict Text ℤ
      → F
      → ℕ
      → Option (OmsExecutionResult F)
  unfolding build_desired_orders evaluate_orders accepted_target_weights conclude
  execute_rebalance runtime broker setting rebalance weights holdings cash lot_size =
      let desired =
        build_desired_orders rebalance weights holdings setting.equity setting.prices lot_size in
      let decision = evaluate_orders setting holdings desired in
      concluded runtime decision
        (answer_of broker holdings setting.equity cash setting.prices decision.accepted_orders)

  -- The paper broker as a broker of the OMS.
  abbrev pub paper_broker : Market F → Dict Text ℤ → F → F → ℕ → Broker F
  paper_broker market holdings equity cash slices = record {
    execute =
        λ weights orders. execute_target_weights market weights holdings equity cash orders slices;
  }

  -- `replay_events`
  unfoldable pub replay_events : F → Dict Text ℤ → List (DeploymentEvent F) → OmsReplayState F
  unfolding replay
  replay_events initial_cash initial_holdings events =
      let replayed = replay events initial_cash initial_holdings in
      record {
        cash = replayed.cash;
        holdings = replayed.holdings;
        order_statuses = replayed.order_statuses;
      }
