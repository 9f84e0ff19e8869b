-- ===== src/Live/Oms/Account.antt =====
-- The events of `execute_rebalance`, ez/live/oms.py, replayed by the ledger of ez/live/ledger.py: cash, holdings
-- and trades.
use backtesting_framework.Common.{ℕ, ℤ, List, [], ◌≡◌, All, Float}
use backtesting_framework.Common.Text.{Text, text_eq}
use backtesting_framework.Common.Dict.{Dict, get_or}
use backtesting_framework.Live.Risk.Rules.{Order}
use backtesting_framework.Live.Risk.Evaluate.{Setting, PreTradeRiskDecision, evaluate_orders}
use backtesting_framework.Live.PaperBroker.Reports.{BrokerExecutionResult}
use backtesting_framework.Live.Oms.Desired.{Rebalance, build_desired_orders}
use backtesting_framework.Live.Oms.Emit.{Runtime}
use backtesting_framework.Live.Oms.Rebalance.{fills_from}
use backtesting_framework.Live.Oms.EventIds.{AreSliced}
use backtesting_framework.Live.Oms.Symbols.{HaveNoColon}
use backtesting_framework.Live.Oms.NewFills.{IsNoAck}

module _ {F : Type 0} ⦃o : Float F⦄ where
  -- The ids that an answer and a rebalance use do not collide: numbers have different texts, no symbol has a
  -- colon, no client order id with its colon begins the event id of an acknowledgement, and the fills of an
  -- order have different slice numbers.
  pub record IsTraceable (runtime : Runtime) (orders : List Order)
      (answer : BrokerExecutionResult F) : Type 0 where
    pub different_numbers : (i j : ℕ) → runtime.str i ≡ runtime.str j → i ≡ j
    pub no_colons : HaveNoColon orders
    pub no_acks : All (λ order. IsNoAck runtime order.client_order_id) orders
    pub sliced : (id : Text) → AreSliced (get_or id [] (fills_from [] answer.fills))

  -- The orders that a rebalance wants, and what the risk engine decides on them.
  abbrev pub wanted_orders : Setting F → Rebalance → Dict Text F → Dict Text ℤ → ℕ → List Order
  wanted_orders setting rebalance weights holdings lot_size =
      build_desired_orders rebalance weights holdings setting.equity setting.prices lot_size

  abbrev pub decision_on :
      Setting F → Rebalance → Dict Text F → Dict Text ℤ → ℕ → PreTradeRiskDecision F
  decision_on setting rebalance weights holdings lot_size =
      evaluate_orders setting holdings (wanted_orders setting rebalance weights holdings lot_size)
