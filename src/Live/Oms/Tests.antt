-- ===== src/Live/Oms/Tests.antt =====
-- A small rebalance.
use backtesting_framework.Common.{
  ℕ, ℤ, pos, ◌≡◌, refl, true, false, Option, none, some, List, [], ◌∷◌, map, ◌+ℤ◌, ◌-ℤ◌, scale_ℤ,
  ◌+◌,
}
use backtesting_framework.Common.NatFloat.{nat_float}
use backtesting_framework.Common.Text.{Text, text_eq, codes}
use backtesting_framework.Common.Dict.{Dict}
use backtesting_framework.Live.Risk.Evaluate.{Setting, PreTradeRiskDecision, evaluate_orders}
use backtesting_framework.Live.PaperBroker.Reports.{BrokerExecutionResult, BrokerOrderReport}
use backtesting_framework.Live.PaperBroker.Fills.{BrokerFillReport}
use backtesting_framework.Live.Oms.Desired.{Rebalance, build_desired_orders, desired_targets}
use backtesting_framework.Live.Oms.Targets.{asked, asked-build_desired_orders}
use backtesting_framework.Live.Oms.Emit.{
  Runtime, settle_order, reject_unexecuted, report_fills, fill_event,
  is_submission_only_broker_report, reject_by_risk,
}
use backtesting_framework.Live.Events.Status.{OrderStatus, normalize_broker_order_status}
use backtesting_framework.Portfolio.Execution.Legs.{Market}
use backtesting_framework.Live.Oms.Rebalance.{
  Broker, paper_broker, OmsExecutionResult, execute_rebalance,
}
use backtesting_framework.Live.Oms.Account.{decision_on}
use backtesting_framework.Portfolio.Execution.Trades.{shares_of}
use backtesting_framework.Common.Dict.{get, get_or, pop, put}
use backtesting_framework.Common.Sort.{insert_by, sort_by}
use backtesting_framework.Common.Sort.Filter.{filter_by}
use backtesting_framework.Common.Text.{
  is_space, lower_char, lstrip, rstrip, strip, text_beq, text_le,
}
use backtesting_framework.Live.Events.Status.{
  broker_order_status_aliases, normalize_stripped, ranked_or_guess, ranked_statuses,
}
use backtesting_framework.Live.Ledger.State.{is_submission_only}
use backtesting_framework.Live.Oms.Desired.{
  accepted_target_weights, desired_target, orders_for, project, project_all, weights_of_holdings,
}
use backtesting_framework.Live.Oms.Rebalance.{
  conclude, fills_from, reject_all, reports_from, settle_all,
}
use backtesting_framework.Live.PaperBroker.Fills.{
  requested_from, slices_from, slices_of, split_broker_fills,
}
use backtesting_framework.Live.PaperBroker.Reports.{
  build_order_reports, execute_target_weights, groups_from, report_on, reports_on, shares_from,
  sum_from,
}
use backtesting_framework.Live.PaperBroker.Shares.{chunks_from, next_chunk, split_shares}
use backtesting_framework.Live.Risk.Evaluate.{evaluate_from, order_failure}
use backtesting_framework.Live.Risk.Rules.{
  apply_delta, order_delta, portfolio_metrics, portfolio_weights, reject_failure,
}
use backtesting_framework.Portfolio.Execution.Legs.{
  add_new, add_target, affordable_shares, buy_leg, compute_commission, crosses_limit, cut_leg,
  is_blocked, is_limit_locked, lot_round, sell_leg, sorted_union, targets_from, wanted_leg,
}
use backtesting_framework.Portfolio.Execution.Trades.{
  add_to_set, buy, execute_portfolio_trades, leg_at, leg_of, sell, settle, symbols_in_turn, to_buy,
  to_sell, trade_all,
}

abbrev a_rebalance : Rebalance
a_rebalance = record { deployment_id = codes "d"; business_date = codes "2026-01-05" }

-- A clock that shows an event's time by its id.
abbrev last_code : Text → ℕ
last_code [] = 0
last_code (c ∷ []) = c
last_code (c ∷ d ∷ text) = last_code (d ∷ text)

abbrev a_runtime : Runtime
a_runtime = record { utcnow = last_code; str = λ n. (n + 200) ∷ []; deployment_id = codes "d" }

abbrev some_prices : Dict Text ℕ
some_prices = (codes "AAA", 10) ∷ []

abbrev some_weights : Dict Text ℕ
some_weights = (codes "AAA", 4_000) ∷ []

abbrev some_holdings : Dict Text ℤ
some_holdings = (codes "AAA", pos 150) ∷ []

abbrev a_setting : Setting ℕ
a_setting = record {
  config = record {
    kill_switch = false;
    max_order_notional = none;
    max_position_weight = none;
    max_daily_turnover = none;
    max_concentration = none;
    max_gross_exposure = none;
  };
  capital_policy = none;
  environ = [];
  broker_type = codes "paper";
  prices = some_prices;
  equity = 1;
}

abbrev a_child : BrokerFillReport ℕ
a_child = record {
  client_order_id = codes "d:2026-01-05:AAA:buy";
  symbol = codes "AAA";
  side = codes "buy";
  shares = pos 100;
  price = 10;
  amount = 1_000;
  commission = 0;
  stamp_tax = 0;
  cost = 0;
  requested_shares = pos 250;
  remaining_shares = pos 150;
  slice_index = 1;
  total_slices = 2;
}

abbrev later_child : BrokerFillReport ℕ
later_child = record a_child { remaining_shares = pos 50; slice_index = 2 }

abbrev a_report : BrokerOrderReport ℕ
a_report = record {
  client_order_id = codes "d:2026-01-05:AAA:buy";
  symbol = codes "AAA";
  side = codes "buy";
  requested_shares = pos 250;
  filled_shares = pos 200;
  remaining_shares = pos 50;
  status = codes "partially_filled";
  price = 10;
  amount = 2_000;
  commission = 0;
  stamp_tax = 0;
  cost = 0;
  broker_order_id = [];
  broker_submit_id = [];
}

-- A broker that fills the order in two slices.
abbrev an_answer : BrokerExecutionResult ℕ
an_answer = record {
  fills = a_child ∷ later_child ∷ [];
  order_reports = a_report ∷ [];
  holdings = (codes "AAA", pos 350) ∷ [];
  cash = 5;
  trade_volume = 0;
}

abbrev a_broker : Broker ℕ
a_broker = record { execute = λ weights orders. some an_answer }

asked-build_desired_orders_example :
    shares_of (codes "AAA") some_holdings
      +ℤ asked
          (codes "AAA")
          (build_desired_orders a_rebalance some_weights some_holdings 1 some_prices 100)
    ≡ shares_of (codes "AAA") (desired_targets some_prices 1 100 some_weights [])
asked-build_desired_orders_example =
    asked-build_desired_orders a_rebalance some_weights some_holdings 1 some_prices 100
      (codes "AAA")

abbrev a_decision : PreTradeRiskDecision ℕ
a_decision = decision_on a_setting a_rebalance some_weights some_holdings 100

-- The rebalance has the two trades of the slices.
two_trades_test :
    map (λ trade. trade.shares) (conclude a_runtime a_decision an_answer).trades
    ≡ pos 100 ∷ pos 100 ∷ []
unfolding conclude text_beq evaluate_orders build_desired_orders sort_by get put ◌-ℤ◌ get_or scale_ℤ
    order_failure reject_failure
two_trades_test = refl

abbrev a_market : Market ℕ
a_market = record {
  prices = (codes "AAA", 10) ∷ (codes "BBB", 1) ∷ [];
  raw_close_today = [];
  prev_raw_close = [];
  has_bar_today = codes "AAA" ∷ codes "BBB" ∷ [];
  cost_model = record {
    buy_commission_rate = 0;
    sell_commission_rate = 0;
    min_commission = 0;
    stamp_tax_rate = 0;
    slippage_rate = 0;
  };
  lot_size = 100;
  limit_pct = 0;
  t_plus_1 = true;
}

-- Orders above 300 are rejected.
abbrev a_strict_setting : Setting ℕ
a_strict_setting = record a_setting {
  config = record (a_setting.config) { max_order_notional = some 300 };
  prices = a_market.prices;
}

abbrev traded_symbols : Option (OmsExecutionResult ℕ) → List Text
traded_symbols none = []
traded_symbols (some result) = map (λ trade. trade.symbol) result.trades

abbrev final_holdings : Option (OmsExecutionResult ℕ) → Dict Text ℤ
final_holdings none = []
final_holdings (some result) = result.holdings

abbrev final_statuses : Option (OmsExecutionResult ℕ) → List (Text × OrderStatus)
final_statuses none = []
final_statuses (some result) =
    map (λ placed. (placed.order.symbol, placed.status)) result.emission.orders

abbrev odd_lot_run : Option (OmsExecutionResult ℕ)
odd_lot_run =
    execute_rebalance a_runtime (paper_broker a_market some_holdings 1 5_000 1) a_strict_setting
      a_rebalance ((codes "AAA", 1_000) ∷ (codes "BBB", 100) ∷ []) some_holdings 5_000 100

-- The sale of an odd lot is rejected, is executed all the same, and is in no trade.
odd_lot_statuses_test :
    final_statuses odd_lot_run
    ≡ (codes "AAA", OrderStatus.rejected) ∷ (codes "BBB", OrderStatus.filled) ∷ []
unfolding execute_rebalance conclude reject_all settle_all reports_from fills_from evaluate_orders
    evaluate_from build_desired_orders desired_targets desired_target orders_for
    accepted_target_weights project_all project weights_of_holdings sort_by insert_by get text_beq
    text_le put pop ◌-ℤ◌ ◌+ℤ◌ get_or scale_ℤ order_failure reject_failure order_delta apply_delta
    portfolio_metrics portfolio_weights execute_target_weights build_order_reports reports_on
    groups_from report_on shares_from sum_from requested_from split_broker_fills slices_of
    slices_from split_shares chunks_from next_chunk filter_by execute_portfolio_trades
    symbols_in_turn sorted_union targets_from add_target add_new settle leg_of leg_at is_blocked
    sell_leg affordable_shares buy_leg compute_commission crosses_limit cut_leg is_limit_locked
    lot_round wanted_leg add_to_set buy sell to_buy to_sell trade_all settle_order reject_unexecuted
    report_fills fill_event is_submission_only_broker_report reject_by_risk
    normalize_broker_order_status normalize_stripped strip lstrip rstrip is_space ranked_or_guess
    ranked_statuses broker_order_status_aliases lower_char is_submission_only
odd_lot_statuses_test = refl

odd_lot_holdings_test :
    final_holdings odd_lot_run ≡ (codes "AAA", pos 100) ∷ (codes "BBB", pos 100) ∷ []
unfolding execute_rebalance conclude reject_all settle_all reports_from fills_from evaluate_orders
    evaluate_from build_desired_orders desired_targets desired_target orders_for
    accepted_target_weights project_all project weights_of_holdings sort_by insert_by get text_beq
    text_le put pop ◌-ℤ◌ ◌+ℤ◌ get_or scale_ℤ order_failure reject_failure order_delta apply_delta
    portfolio_metrics portfolio_weights execute_target_weights build_order_reports reports_on
    groups_from report_on shares_from sum_from requested_from split_broker_fills slices_of
    slices_from split_shares chunks_from next_chunk filter_by execute_portfolio_trades
    symbols_in_turn sorted_union targets_from add_target add_new settle leg_of leg_at is_blocked
    sell_leg affordable_shares buy_leg compute_commission crosses_limit cut_leg is_limit_locked
    lot_round wanted_leg add_to_set buy sell to_buy to_sell trade_all settle_order reject_unexecuted
    report_fills fill_event is_submission_only_broker_report reject_by_risk
    normalize_broker_order_status normalize_stripped strip lstrip rstrip is_space ranked_or_guess
    ranked_statuses broker_order_status_aliases lower_char is_submission_only
odd_lot_holdings_test = refl

odd_lot_trades_test : traded_symbols odd_lot_run ≡ codes "BBB" ∷ []
unfolding execute_rebalance conclude reject_all settle_all reports_from fills_from evaluate_orders
    evaluate_from build_desired_orders desired_targets desired_target orders_for
    accepted_target_weights project_all project weights_of_holdings sort_by insert_by get text_beq
    text_le put pop ◌-ℤ◌ ◌+ℤ◌ get_or scale_ℤ order_failure reject_failure order_delta apply_delta
    portfolio_metrics portfolio_weights execute_target_weights build_order_reports reports_on
    groups_from report_on shares_from sum_from requested_from split_broker_fills slices_of
    slices_from split_shares chunks_from next_chunk filter_by execute_portfolio_trades
    symbols_in_turn sorted_union targets_from add_target add_new settle leg_of leg_at is_blocked
    sell_leg affordable_shares buy_leg compute_commission crosses_limit cut_leg is_limit_locked
    lot_round wanted_leg add_to_set buy sell to_buy to_sell trade_all settle_order reject_unexecuted
    report_fills fill_event is_submission_only_broker_report reject_by_risk
    normalize_broker_order_status normalize_stripped strip lstrip rstrip is_space ranked_or_guess
    ranked_statuses broker_order_status_aliases lower_char is_submission_only
odd_lot_trades_test = refl
