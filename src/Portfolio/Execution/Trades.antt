-- ===== src/Portfolio/Execution/Trades.antt =====
-- The loop of `execute_portfolio_trades`, ez/portfolio/execution.py: sales first, then purchases.
use backtesting_framework.Common.{
  ℤ, pos, abs, ◌-ℤ◌, ltb_ℤ, leb_ℤ, Bool, ◌&&◌, Option, none, some, List, [], ◌∷◌, ◌++◌,
  if◌then◌else◌, contains, Float, zero_float,
}
use backtesting_framework.Common.Text.{Text, text_eq, codes}
use backtesting_framework.Common.Dict.{Dict, get, get_or, put, pop, keys}
use backtesting_framework.Common.Sort.Filter.{filter_by}
use backtesting_framework.Portfolio.Execution.Legs.{
  TradeResult, Market, Leg, sorted_union, target_shares, is_blocked, sell_leg, buy_leg,
}

-- What the loop changes.
pub record Book (F : Type 0) : Type 0 where
  pub cash : F
  pub holdings : Dict Text ℤ
  pub sold_today : List Text
  pub trades : List (TradeResult F)
  pub trade_volume : F

abbrev pub is_zero_ℤ : ℤ → Bool
is_zero_ℤ n = leb_ℤ n (pos 0) && leb_ℤ (pos 0) n

-- `s.add(x)`
unfoldable pub add_to_set : Text → List Text → List Text
add_to_set x xs = if contains xs x then xs else x ∷ xs

abbrev pub shares_of : Text → Dict Text ℤ → ℤ
shares_of symbol holdings = get_or symbol (pos 0) holdings

-- The symbols whose target is below, or above, the holdings.
unfoldable pub to_sell : Dict Text ℤ → Dict Text ℤ → Text → Bool
to_sell holdings targets symbol = ltb_ℤ (shares_of symbol targets) (shares_of symbol holdings)

unfoldable pub to_buy : Dict Text ℤ → Dict Text ℤ → Text → Bool
to_buy holdings targets symbol = ltb_ℤ (shares_of symbol holdings) (shares_of symbol targets)

-- `sell_syms + buy_syms`
unfoldable pub symbols_in_turn : Dict Text ℤ → Dict Text ℤ → List Text
unfolding to_sell to_buy
symbols_in_turn holdings targets =
    let symbols = sorted_union (keys holdings) (keys targets) in
    filter_by (to_sell holdings targets) symbols ++ filter_by (to_buy holdings targets) symbols

module _ {F : Type 0} ⦃o : Float F⦄ where
  -- The leg at a known price.
  unfoldable pub leg_at : Market F → F → List Text → Text → F → ℤ → ℤ → Option (Leg F)
  leg_at market cash sold_today symbol base_price current target =
      let delta = target -ℤ current in
      if is_zero_ℤ delta
      then none
      else if is_blocked market sold_today symbol delta
      then none
      else if ltb_ℤ (pos 0) delta
      then buy_leg market.cost_model market.lot_size base_price current target cash
      else some (sell_leg market.cost_model base_price target delta)

  -- The leg of a symbol, unless it is skipped.
  unfoldable pub leg_of : Market F → Dict Text ℤ → Book F → Text → Option (Leg F)
  unfolding leg_at
  leg_of market targets book symbol = elim (get symbol market.prices) [
    | none ↦ none
    | some base_price ↦
        leg_at market book.cash book.sold_today symbol base_price (shares_of symbol book.holdings)
          (shares_of symbol targets)
  ]

  abbrev pub is_purchase : Leg F → Bool
  is_purchase leg = ltb_ℤ (pos 0) leg.delta

  abbrev pub trade_of : Text → Leg F → TradeResult F
  trade_of symbol leg = record {
    symbol = symbol;
    side = if is_purchase leg then codes "buy" else codes "sell";
    shares = pos (abs leg.delta);
    price = leg.price;
    amount = leg.amount;
    commission = leg.commission;
    stamp_tax = leg.stamp_tax;
    cost = leg.total_cost;
  }

  abbrev pub recorded : Text → Leg F → Book F → Book F
  recorded symbol leg book = record book {
    trades = book.trades ++ trade_of symbol leg ∷ [];
    trade_volume = o.add book.trade_volume leg.amount;
  }

  unfoldable pub buy : Text → Leg F → Book F → Book F
  buy symbol leg book = record (recorded symbol leg book) {
    cash = o.sub book.cash (o.add leg.amount leg.total_cost);
    holdings = put symbol leg.target book.holdings;
  }

  unfoldable pub sell : Text → Leg F → Book F → Book F
  unfolding add_to_set
  sell symbol leg book = record (recorded symbol leg book) {
    cash = o.add book.cash (o.sub leg.amount leg.total_cost);
    holdings =
        if is_zero_ℤ leg.target
        then pop symbol book.holdings
        else put symbol leg.target book.holdings;
    sold_today = add_to_set symbol book.sold_today;
  }

  unfoldable pub settle : Text → Option (Leg F) → Book F → Book F
  unfolding buy sell
  settle symbol none book = book
  settle symbol (some leg) book =
      if is_purchase leg then buy symbol leg book else sell symbol leg book

  unfoldable pub trade_all : Market F → Dict Text ℤ → List Text → Book F → Book F
  trade_all market targets [] book = book
  trade_all market targets (symbol ∷ symbols) book =
      trade_all market targets symbols (settle symbol (leg_of market targets book symbol) book)

  -- `execute_portfolio_trades`
  unfoldable pub execute_portfolio_trades :
      Market F → Dict Text F → Dict Text ℤ → F → F → List Text → Book F
  unfolding trade_all
  execute_portfolio_trades market target_weights holdings equity cash sold_today =
      let targets = target_shares market equity target_weights in
      trade_all market targets (symbols_in_turn holdings targets) (record {
        cash = cash;
        holdings = holdings;
        sold_today = sold_today;
        trades = [];
        trade_volume = zero_float;
      })
