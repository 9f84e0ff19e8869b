-- ===== src/Lib.antt =====
-- Verification of the trading core of the backtesting framework: live trading (ez/live), the fills that
-- backtest and live trading share (ez/portfolio, ez/core), and walk-forward validation (ez/backtest).
--
-- A deployment appends events to a log and never changes them. The ledger (ez/live/ledger.py) replays the
-- log into cash, holdings and the states of orders; what a broker says of an order goes through the status
-- tables and guards of ez/live/events.py, both in the ledger and in the table of broker order links
-- (ez/live/_broker_order_links.py). Before orders are sent, the pre-trade risk engine (ez/live/risk.py)
-- checks them one after the other, and asks the capital policy (ez/live/capital_policy.py) first. Before a
-- deployment exists at all, the deployment gate (ez/live/deploy_gate.py) judges the stored backtest run.
-- On a trading day the OMS (ez/live/oms.py) turns target weights into orders, has them checked, and hands the
-- accepted ones to a broker, of which the paper broker (ez/live/paper_broker.py) executes them by
-- ez/portfolio/execution.py; from the broker's answer the OMS makes the events that the ledger replays. The
-- reconciliation (ez/live/qmt/reconcile.py) compares the ledger with what the broker says. The portfolio's risk
-- manager (ez/portfolio/risk_manager.py) scales weights down after losses; the matchers of ez/core fill the
-- orders of a backtest under the rules of the market; ez/backtest/walk_forward.py validates a strategy on
-- windows of the data.
--
-- Parts:
--   Common               Boolean tests, integers, texts, dictionaries, sorting; abstract floats
--   Live/Events          ez/live/events.py: `Status` has the tables, normalize_broker_order_status and the
--                        forward-only guard, `Event` the payloads, `Lifecycle` chains of legal moves
--   Live/Ledger          ez/live/ledger.py: `State` has _advance_broker_order_state and its kin, `Apply`
--                        one function for each branch of _apply_event, `Replay` the sort key and replay
--   Live/OrderLinks      ez/live/_broker_order_links.py: `Table` the rows, `Upsert` execution reports,
--                        `Cancel` request, acknowledgement and failure of a cancellation; `Log`
--                        _append_events_locked of ez/live/deployment_store.py, which stores events and
--                        selects the upsert of each
--   Live/CapitalPolicy   ez/live/capital_policy.py: `Stage` stages, limits and kill switch, `Check`
--                        check_order and check_stage_transition_eligible
--   Live/Risk            ez/live/risk.py: `Rules` projected metrics and rules, `Evaluate` evaluate_orders
--   Live/DeployGate      ez/live/deploy_gate.py: `Concentration` the largest weight, `Gate` evaluate
--   Live/PaperBroker     ez/live/paper_broker.py: `Shares` _split_shares, `Fills` _split_broker_fills,
--                        `Reports` _build_order_reports and execute_target_weights; `Booking`, `Booked` and
--                        `Reported` on fills and reports
--   Live/Oms             ez/live/oms.py: `Desired` _build_desired_orders and _accepted_target_weights, `Emit`
--                        what execute_rebalance makes of one order, `Rebalance` the whole; `Targets` on the
--                        orders, `Account` on cash, holdings and trades, with the ids in `EventIds`,
--                        `NewFills`, `Symbols`, `Settled` and `Apart`, and replays in `Replayed`
--   Live/Reconcile       ez/live/qmt/reconcile.py: `Snapshot` reconcile_broker_snapshot and
--                        reconcile_broker_positions, `Agreement` on them; `Orders` reconcile_broker_orders,
--                        with `Latest`, `OpenRows`, `Alike` and `OpenOrders` on what is open and agrees
--   Portfolio/Execution  ez/portfolio/execution.py: `Legs` targets, guards and costs of one order, `Trades`
--                        execute_portfolio_trades; `Desk` and `Run` the trades as steps of an account
--   Portfolio/RiskManager  ez/portfolio/risk_manager.py: `Manager` check_drawdown, replay_equity and
--                        check_turnover, `Drawdown` the circuit breaker
--   Core/Matching        `Matcher` ez/core/matcher.py and ez/core/_jit_fill.py, `MarketRules`
--                        ez/core/market_rules.py, `Session` the calls of an engine
--   Agent/Fdr            ez/agent/fdr.py: `Correct` bonferroni and benjamini_hochberg, `Ranked` the adjusted
--                        values, `Reported` their results
--   Backtest/WalkForward  ez/backtest/walk_forward.py: `Windows` validate, `Tiling` its windows, `Splits` its
--                        results
--
-- Conventions. State that the code mutates is passed on: a function takes the state before and returns the
-- state after. A Python dict is an association list in insertion order, so that loops over it run in the
-- order of the source. A broker status after normalization is a value of the data type Status, with `other`
-- for a text that no table knows. Timestamps and dates are natural numbers in their order. Integers are
-- unbounded, as in Python. Floats are a type with the operations that the code performs (the record Float of
-- Common/Floats), for finite values. int(x // n), which raises in Python for NaN, an infinity or n = 0, is a
-- total operation of that record, so these exceptions are not modelled, and sums of floats are added from the
-- left, without the compensation of newer Pythons. The record has no law: a theorem that needs laws of the
-- order takes them as a hypothesis, and the tests run on natural numbers. Every loop of the code goes over a
-- list or a count, so there is no fuel.
--
-- Not modelled: texts of messages and details of a rejection; lower-casing beyond ASCII; the
-- parsing of configurations; SQL, locks and JSON (a table is a dictionary, a decoder is a parameter); the
-- raw payload of a broker, which is only carried along; clocks (the time is an argument, or a function of an
-- event's id). The broker, the engine of a backtest, the allocated weights of a rebalance and Python's
-- int(w * train_ratio) are arguments. The C++ path of execution and the compiled simulation loop, which need
-- extensions that are not part of the repository, the chained curve of a walk-forward validation, which is
-- dataframe arithmetic, the reconciliation of intraday trades, the scheduler, the QMT client, and the
-- packages for data, factors, strategies, research, agents (but for the corrections of ez/agent/fdr.py, less
-- apply_fdr), the API and the web are not modelled.
pub mod Agent
pub mod Backtest
pub mod Common
pub mod Core
pub mod Live
pub mod Portfolio
