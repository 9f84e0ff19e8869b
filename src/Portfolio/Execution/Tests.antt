-- ===== src/Portfolio/Execution/Tests.antt =====
-- A day of trading on small numbers.
use backtesting_framework.Common.{ℕ, ℤ, pos, ◌-ℤ◌, ◌+ℤ◌, scale_ℤ, ◌≡◌, refl, true, [], ◌∷◌, arith}
use backtesting_framework.Common.NatFloat.{nat_float}
use backtesting_framework.Common.Text.{Text, text_eq, text_beq, text_le, codes}
use backtesting_framework.Common.Dict.{Dict, get, put, pop, get_or}
use backtesting_framework.Common.Sort.{sort_by, insert_by}
use backtesting_framework.Common.Sort.Filter.{filter_by}
use backtesting_framework.Portfolio.Execution.Legs.{
  Market, target_shares, targets_from, add_target, add_new, sorted_union, is_blocked, sell_leg,
  affordable_shares, buy_leg, compute_commission, crosses_limit, cut_leg, is_limit_locked,
  lot_round, wanted_leg,
}
use backtesting_framework.Portfolio.Execution.Trades.{
  execute_portfolio_trades, symbols_in_turn, settle, leg_of, leg_at, add_to_set, buy, sell, to_buy,
  to_sell, trade_all,
}
use backtesting_framework.Portfolio.Execution.Desk.{IsLong, Trading, desk_of}
use backtesting_framework.Portfolio.Execution.Run.{execute_portfolio_trades-Trading}

abbrev a_market : Market ℕ
a_market = record {
  prices = (codes "AAA", 10) ∷ (codes "BBB", 10) ∷ [];
  raw_close_today = [];
  prev_raw_close = [];
  has_bar_today = codes "AAA" ∷ codes "BBB" ∷ [];
  cost_model = record {
    buy_commission_rate = 0;
    sell_commission_rate = 0;
    min_commission = 5;
    stamp_tax_rate = 0;
    slippage_rate = 0;
  };
  lot_size = 100;
  limit_pct = 0;
  t_plus_1 = true;
}

abbrev some_weights : Dict Text ℕ
some_weights = (codes "BBB", 40) ∷ []

abbrev some_holdings : Dict Text ℤ
some_holdings = (codes "AAA", pos 300) ∷ []

-- The sale pays for the purchase, though it comes later in the alphabet.
trades_test :
    (execute_portfolio_trades a_market some_weights some_holdings 100 1500 []).holdings
    ≡ (codes "BBB", pos 400) ∷ []
unfolding execute_portfolio_trades symbols_in_turn filter_by sorted_union sort_by insert_by
    targets_from add_target add_new get put pop get_or text_beq text_le scale_ℤ settle leg_of leg_at
    ◌-ℤ◌ ◌+ℤ◌ is_blocked sell_leg affordable_shares buy_leg compute_commission crosses_limit cut_leg
    is_limit_locked lot_round wanted_leg add_to_set buy sell to_buy to_sell trade_all
trades_test = refl

cash_test : (execute_portfolio_trades a_market some_weights some_holdings 100 1500 []).cash ≡ 490
unfolding execute_portfolio_trades symbols_in_turn filter_by sorted_union sort_by insert_by
    targets_from add_target add_new get put pop get_or text_beq text_le scale_ℤ settle leg_of leg_at
    ◌-ℤ◌ ◌+ℤ◌ is_blocked sell_leg affordable_shares buy_leg compute_commission crosses_limit cut_leg
    is_limit_locked lot_round wanted_leg add_to_set buy sell to_buy to_sell trade_all
cash_test = refl

-- Without the cash for it a purchase is cut down to whole lots.
cut_test :
    (execute_portfolio_trades a_market some_weights some_holdings 100 0 []).holdings
    ≡ (codes "BBB", pos 200) ∷ []
unfolding execute_portfolio_trades symbols_in_turn filter_by sorted_union sort_by insert_by
    targets_from add_target add_new get put pop get_or text_beq text_le scale_ℤ settle leg_of leg_at
    ◌-ℤ◌ ◌+ℤ◌ is_blocked sell_leg affordable_shares buy_leg compute_commission crosses_limit cut_leg
    is_limit_locked lot_round wanted_leg add_to_set buy sell to_buy to_sell trade_all
cut_test = refl

some_weights-IsLong : IsLong (target_shares a_market 100 some_weights)
unfolding targets_from add_target get put get_or text_beq scale_ℤ lot_round
some_weights-IsLong = record { not_short = λ symbol. ground arith }

execute_portfolio_trades-Trading_example :
    Trading a_market
      (record { cash = 1500; holdings = some_holdings; sold_today = [] })
      (execute_portfolio_trades a_market some_weights some_holdings 100 1500 []).trades
      (desk_of (execute_portfolio_trades a_market some_weights some_holdings 100 1500 []))
execute_portfolio_trades-Trading_example =
    execute_portfolio_trades-Trading a_market some_weights some_holdings 100 1500 []
      some_weights-IsLong
