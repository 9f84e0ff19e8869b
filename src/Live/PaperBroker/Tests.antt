-- ===== src/Live/PaperBroker/Tests.antt =====
-- Splits, fills and reports of a few shares.
use backtesting_framework.Common.{ℕ, ℤ, pos, scale_ℤ, true, ◌≡◌, refl, some, List, [], ◌∷◌, arith}
use backtesting_framework.Common.NatFloat.{nat_float}
use backtesting_framework.Common.Text.{Text, text_eq, text_beq, codes}
use backtesting_framework.Common.Dict.{Dict, get, get_or, put}
use backtesting_framework.Common.Sort.Filter.{filter_by}
use backtesting_framework.Live.Risk.Rules.{Order}
use backtesting_framework.Live.PaperBroker.Shares.{
  split_shares, IsSplitOf, split_shares-IsSplitOf, next_chunk,
}
use backtesting_framework.Live.PaperBroker.Fills.{
  BrokerFillReport, split_broker_fills, requested_from,
}
use backtesting_framework.Live.PaperBroker.Reports.{build_order_reports}
use backtesting_framework.Live.PaperBroker.Booked.{IsBooked, Trading-IsBooked}
use backtesting_framework.Live.PaperBroker.Reported.{AreReportsOf, build_order_reports-AreReportsOf}
use backtesting_framework.Portfolio.Execution.Legs.{
  TradeResult, Market, target_shares, targets_from, add_target, lot_round,
}
use backtesting_framework.Portfolio.Execution.Desk.{IsLong, Desk, Trading, desk_of}
use backtesting_framework.Portfolio.Execution.Run.{execute_portfolio_trades-Trading}
use backtesting_framework.Portfolio.Execution.Trades.{execute_portfolio_trades}

three_slices_test : split_shares 1_050 3 100 ≡ some (300 ∷ 300 ∷ 450 ∷ [])
unfolding split_shares filter_by next_chunk
three_slices_test = refl

split_shares-IsSplitOf_example :
    (chunks : List ℕ) × (split_shares 1_050 3 100 ≡ some chunks) × IsSplitOf 1_050 3 100 chunks
split_shares-IsSplitOf_example = split_shares-IsSplitOf 1_050 3 100 (omega arith) (omega arith)

abbrev a_market : Market ℕ
a_market = record {
  prices = (codes "AAA", 10) ∷ (codes "BBB", 10) ∷ [];
  raw_close_today = [];
  prev_raw_close = [];
  has_bar_today = codes "AAA" ∷ codes "BBB" ∷ [];
  cost_model = record {
    buy_commission_rate = 0;
    sell_commission_rate = 0;
    min_commission = 5;
    stamp_tax_rate = 0;
    slippage_rate = 0;
  };
  lot_size = 100;
  limit_pct = 0;
  t_plus_1 = true;
}

abbrev some_weights : Dict Text ℕ
some_weights = (codes "BBB", 40) ∷ []

abbrev some_holdings : Dict Text ℤ
some_holdings = (codes "AAA", pos 300) ∷ []

abbrev some_orders : List Order
some_orders =
    record {
      client_order_id = codes "1";
      symbol = codes "AAA";
      side = codes "sell";
      shares = pos 300;
    }
    ∷ record {
      client_order_id = codes "2";
      symbol = codes "BBB";
      side = codes "buy";
      shares = pos 400;
    }
    ∷ []

abbrev a_fill : BrokerFillReport ℕ
a_fill = record {
  client_order_id = codes "2";
  symbol = codes "BBB";
  side = codes "buy";
  shares = pos 200;
  price = 10;
  amount = 2_000;
  commission = 5;
  stamp_tax = 0;
  cost = 5;
  requested_shares = pos 400;
  remaining_shares = pos 200;
  slice_index = 1;
  total_slices = 1;
}

some_weights-IsLong : IsLong (target_shares a_market 100 some_weights)
unfolding targets_from add_target get put get_or text_beq scale_ℤ lot_round
some_weights-IsLong = record { not_short = λ symbol. ground arith }

abbrev a_desk : Desk ℕ
a_desk = record { cash = 1500; holdings = some_holdings; sold_today = [] }

abbrev some_trades : List (TradeResult ℕ)
some_trades = (execute_portfolio_trades a_market some_weights some_holdings 100 1500 []).trades

abbrev a_final_desk : Desk ℕ
a_final_desk = desk_of (execute_portfolio_trades a_market some_weights some_holdings 100 1500 [])

some_trades-Trading : Trading a_market a_desk some_trades a_final_desk
some_trades-Trading =
    execute_portfolio_trades-Trading a_market some_weights some_holdings 100 1500 []
      some_weights-IsLong

Trading-IsBooked_example :
    IsBooked
      (split_broker_fills (requested_from [] some_orders) 2 100 some_trades)
      some_holdings
      a_final_desk.holdings
Trading-IsBooked_example =
    Trading-IsBooked a_market (requested_from [] some_orders) 2 100 (omega arith)
      some_trades-Trading

build_order_reports-AreReportsOf_example :
    AreReportsOf (a_fill ∷ []) some_orders (build_order_reports some_orders (a_fill ∷ []))
build_order_reports-AreReportsOf_example =
    build_order_reports-AreReportsOf some_orders (a_fill ∷ [])
