-- ===== src/Live/Ledger/Apply.antt =====
-- `LiveLedger._apply_event` of ez/live/ledger.py, one function for each branch of its dispatch.
use backtesting_framework.Common.{
  ℤ, pos, ◌+ℤ◌, ◌-ℤ◌, ltb_ℤ, ◌&&◌, Option, none, some, List, [], ◌∷◌, ◌++◌, if◌then◌else◌, ◌==◌,
  Float, zero_float,
}
use backtesting_framework.Common.Text.{Text, text_eq, codes, is_empty, text_or}
use backtesting_framework.Common.Dict.{Dict, get, get_or, put, pop}
use backtesting_framework.Live.Events.Status.{
  Status, to_order_status, OrderStatus, normalize_broker_order_status,
}
use backtesting_framework.Live.Events.Event.{DeploymentEvent, Payload, Fill, Report, Bar, Snapshot}
use backtesting_framework.Live.Ledger.State.{
  LiveLedgerState, advance_local_order_status, broker_order_key, advance_broker_order_state,
  mark_cancel_requested, is_terminal_state, pending_status_of,
}

-- The sale of shares: what is left, or no entry at all.
unfoldable pub holdings_after_sell : Text → ℤ → Dict Text ℤ → Dict Text ℤ
holdings_after_sell symbol shares holdings =
    let remaining = get_or symbol (pos 0) holdings -ℤ shares in
    if ltb_ℤ (pos 0) remaining then put symbol remaining holdings else pop symbol holdings

-- The value that a snapshot gives, or the one before.
abbrev pub given : {A : Type 0} → Option A → A → A
given none old = old
given (some new) old = new

abbrev pub latest : {A : Type 0} → Option A → Option A → Option A
latest none old = old
latest (some new) old = some new

abbrev pub appended : {A : Type 0} → List A → Option A → List A
appended xs none = xs
appended xs (some x) = xs ++ x ∷ []

module _ {F : Type 0} ⦃o : Float F⦄ where
  unfoldable pub holdings_after_fill : Fill F → Dict Text ℤ → Dict Text ℤ
  unfolding holdings_after_sell
  holdings_after_fill fill holdings =
      if fill.side == codes "buy"
      then put fill.symbol (get_or fill.symbol (pos 0) holdings +ℤ fill.shares) holdings
      else holdings_after_sell fill.symbol fill.shares holdings

  unfoldable pub cash_after_fill : Fill F → F → F
  cash_after_fill fill cash =
      if fill.side == codes "buy"
      then o.sub cash (o.add fill.amount fill.cost)
      else o.add cash (o.sub fill.amount fill.cost)

  -- A price is recorded if it is positive.
  unfoldable pub record_price : Text → F → Dict Text F → Dict Text F
  record_price symbol price prices =
      if o.lt zero_float price then put symbol price prices else prices

  -- ORDER_FILLED and ORDER_PARTIALLY_FILLED.
  unfoldable pub apply_fill :
      Fill F → OrderStatus → DeploymentEvent F → LiveLedgerState F → LiveLedgerState F
  unfolding holdings_after_fill cash_after_fill record_price
  apply_fill fill status event state = record state {
    cash = cash_after_fill fill state.cash;
    holdings = holdings_after_fill fill state.holdings;
    last_prices = record_price fill.symbol fill.price state.last_prices;
    order_statuses = advance_local_order_status state.order_statuses event.client_order_id status;
    trades = state.trades ++ fill ∷ [];
  }

  -- BROKER_EXECUTION_RECORDED.
  unfoldable pub apply_report : Report F → DeploymentEvent F → LiveLedgerState F → LiveLedgerState F
  unfolding broker_order_key
  apply_report report event state =
      let key = broker_order_key report.broker_order_id event.client_order_id in
      let status =
        normalize_broker_order_status report.status report.filled_shares report.remaining_shares in
      record state {
        broker_order_states =
            advance_broker_order_state state.broker_order_states key event status report;
        order_statuses =
            advance_local_order_status state.order_statuses (text_or event.client_order_id key)
              (to_order_status status);
      }

  -- A cancel request has none of the keys of a report.
  abbrev pub empty_report : Report F
  empty_report = record {
    report_id = [];
    broker_order_id = [];
    status = [];
    filled_shares = pos 0;
    remaining_shares = pos 0;
    avg_price = zero_float;
    message = [];
  }

  -- BROKER_CANCEL_REQUESTED for an order that is not terminal.
  unfoldable pub request_cancel :
      Text → DeploymentEvent F → Status → LiveLedgerState F → LiveLedgerState F
  unfolding mark_cancel_requested
  request_cancel key event pending state =
      let states =
        advance_broker_order_state state.broker_order_states key event pending empty_report in
      record state {
        broker_order_states = mark_cancel_requested (get key states) key event pending states;
      }

  -- BROKER_CANCEL_REQUESTED.
  unfoldable pub apply_cancel_request :
      Text → DeploymentEvent F → LiveLedgerState F → LiveLedgerState F
  unfolding broker_order_key request_cancel
  apply_cancel_request broker_order_id event state =
      let key = broker_order_key broker_order_id event.client_order_id in
      let current = get key state.broker_order_states in
      let requested =
        if is_terminal_state current
        then state
        else request_cancel key event (pending_status_of current) state in
      record requested {
        order_statuses =
            advance_local_order_status requested.order_statuses (text_or event.client_order_id key)
              OrderStatus.submitted;
      }

  -- MARKET_SNAPSHOT: every positive price is recorded.
  unfoldable pub record_prices : Dict Text F → Dict Text F → Dict Text F
  unfolding record_price
  record_prices [] prices = prices
  record_prices ((symbol, price) ∷ quotes) prices =
      record_prices quotes (record_price symbol price prices)

  -- MARKET_BAR_RECORDED.
  unfoldable pub record_bar : Bar F → Dict Text F → Dict Text F
  unfolding record_price
  record_bar bar prices =
      if is_empty bar.symbol
      then prices
      else record_price bar.symbol
          (if o.lt zero_float bar.adj_close then bar.adj_close else bar.close) prices

  -- The prices that a snapshot implies: equity * weight / shares for each weighted holding.
  unfoldable pub imply_prices : F → Dict Text F → Dict Text ℤ → Dict Text F → Dict Text F
  imply_prices equity weights [] prices = prices
  imply_prices equity weights ((symbol, shares) ∷ holdings) prices =
      let weight = get_or symbol zero_float weights in
      imply_prices equity weights holdings (
        if ltb_ℤ (pos 0) shares && o.lt zero_float weight
        then put symbol (o.div (o.mul equity weight) (o.of_int shares)) prices
        else prices)

  abbrev pub snapshot_prices : Option F → Dict Text F → Dict Text ℤ → Dict Text F → Dict Text F
  snapshot_prices none weights holdings prices = prices
  snapshot_prices (some equity) weights holdings prices =
      if o.lt zero_float equity then imply_prices equity weights holdings prices else prices

  -- `_apply_snapshot_checkpoint`
  unfoldable pub apply_snapshot_checkpoint : Snapshot F → LiveLedgerState F → LiveLedgerState F
  apply_snapshot_checkpoint snapshot state =
      let date = latest snapshot.snapshot_date state.latest_snapshot_date in
      let equity = latest snapshot.equity state.latest_snapshot_equity in
      let holdings = given snapshot.holdings state.holdings in
      let weights = given snapshot.weights state.latest_weights in
      record state {
        latest_snapshot_date = date;
        latest_snapshot_equity = equity;
        equity_curve = appended state.equity_curve snapshot.equity;
        cash = given snapshot.cash state.cash;
        holdings = holdings;
        latest_weights = weights;
        latest_prev_returns = given snapshot.prev_returns state.latest_prev_returns;
        dates = appended state.dates date;
        last_prices = snapshot_prices equity weights holdings state.last_prices;
      }

  -- The branch that an event's type selects.
  unfoldable pub apply_payload :
      Payload F → DeploymentEvent F → LiveLedgerState F → LiveLedgerState F
  apply_payload Payload.order_submitted event state = record state {
    order_statuses =
        advance_local_order_status state.order_statuses event.client_order_id OrderStatus.submitted;
  }
  apply_payload Payload.order_rejected event state = record state {
    order_statuses =
        advance_local_order_status state.order_statuses event.client_order_id OrderStatus.rejected;
  }
  apply_payload (Payload.order_filled fill) event state =
      apply_fill fill OrderStatus.filled event state
  apply_payload (Payload.order_partially_filled fill) event state =
      apply_fill fill OrderStatus.partially_filled event state
  apply_payload (Payload.broker_execution_recorded report) event state =
      apply_report report event state
  apply_payload (Payload.broker_cancel_requested broker_order_id) event state =
      apply_cancel_request broker_order_id event state
  apply_payload (Payload.risk_recorded risk_event) event state = record state {
    risk_events = appended state.risk_events risk_event;
  }
  apply_payload (Payload.market_snapshot quotes) event state = record state {
    last_prices = record_prices quotes state.last_prices;
  }
  apply_payload (Payload.market_bar_recorded bar) event state = record state {
    last_prices = record_bar bar state.last_prices;
  }
  apply_payload (Payload.snapshot_saved snapshot) event state =
      apply_snapshot_checkpoint snapshot state
  apply_payload Payload.broker_account_recorded event state = state
  apply_payload Payload.broker_runtime_recorded event state = state
  apply_payload Payload.tick_completed event state = state

  -- `_apply_event`
  unfoldable pub apply_event : LiveLedgerState F → DeploymentEvent F → LiveLedgerState F
  unfolding apply_payload
  apply_event state event = apply_payload event.payload event state
