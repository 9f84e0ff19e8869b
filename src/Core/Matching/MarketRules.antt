-- ===== src/Core/Matching/MarketRules.antt =====
-- `MarketRulesMatcher` of ez/core/market_rules.py, on the matchers of ez/core/matcher.py, which all have a
-- rate and a minimal commission.
use backtesting_framework.Common.{
  ℕ, ℤ, pos, negsuc, scale_ℤ, leb_ℤ, nat_beq, Bool, ◌&&◌, ◌||◌, Option, none, some, if◌then◌else◌,
  Float, zero_float, one_float, larger, is_positive,
}
use backtesting_framework.Core.Matching.Matcher.{
  FillResult, Matcher, simple, slippage, taxed, no_fill, is_negative, fill_buy, fill_sell,
}
use backtesting_framework.Portfolio.Execution.Trades.{is_zero_ℤ}

pub record Rules (F : Type 0) : Type 0 where
  pub inner : Matcher F
  pub t_plus_1 : Bool
  pub price_limit_pct : F
  pub lot_size : ℕ

-- The bar at hand and the last bar on which a buy was filled.
pub record BarState (F : Type 0) : Type 0 where
  pub bar : ℤ
  pub prev_close : F
  pub buy_bar : ℤ

abbrev pub same_bar : ℤ → ℤ → Bool
same_bar a b = leb_ℤ a b && leb_ℤ b a

module _ {F : Type 0} ⦃o : Float F⦄ where
  abbrev pub rules_with : Matcher F → Bool → F → ℤ → Option (Rules F)
  rules_with inner t_plus_1 price_limit_pct (pos lot_size) = some (record {
    inner = inner;
    t_plus_1 = t_plus_1;
    price_limit_pct = price_limit_pct;
    lot_size = lot_size;
  })
  rules_with inner t_plus_1 price_limit_pct (negsuc n) = none

  -- `__init__`; no rules where it raises.
  unfoldable pub market_rules_matcher : Matcher F → Bool → F → ℤ → Option (Rules F)
  market_rules_matcher inner t_plus_1 price_limit_pct lot_size =
      if is_negative price_limit_pct || o.lt one_float price_limit_pct
      then none
      else rules_with inner t_plus_1 price_limit_pct lot_size

  abbrev pub initial_bar_state : BarState F
  initial_bar_state = record { bar = negsuc 0; prev_close = zero_float; buy_bar = negsuc 0 }

  -- `on_bar`
  unfoldable pub on_bar : ℤ → F → BarState F → BarState F
  on_bar bar_index prev_close state = record state { bar = bar_index; prev_close = prev_close }

  -- `_PRICE_EPSILON`
  abbrev pub price_epsilon : F
  price_epsilon = o.literal 1 6

  abbrev pub has_limit : Rules F → BarState F → Bool
  has_limit rules state = is_positive rules.price_limit_pct && is_positive state.prev_close

  abbrev pub is_at_upper : Rules F → BarState F → F → Bool
  is_at_upper rules state price =
      has_limit rules state
      && o.le (o.sub (o.mul state.prev_close (o.add one_float rules.price_limit_pct)) price_epsilon)
          price

  abbrev pub is_at_lower : Rules F → BarState F → F → Bool
  is_at_lower rules state price =
      has_limit rules state
      && o.le price
          (o.add (o.mul state.prev_close (o.sub one_float rules.price_limit_pct)) price_epsilon)

  abbrev pub base_rate : Matcher F → F
  base_rate (simple rate sell_rate min_comm) = rate
  base_rate (slippage slip rate sell_rate min_comm) = rate
  base_rate (taxed inner tax) = base_rate inner

  abbrev pub base_min : Matcher F → F
  base_min (simple rate sell_rate min_comm) = min_comm
  base_min (slippage slip rate sell_rate min_comm) = min_comm
  base_min (taxed inner tax) = base_min inner

  -- The fill of a whole number of lots, with its commission computed anew.
  unfoldable pub refill : Rules F → F → FillResult F → FillResult F
  refill rules shares fill =
      let value = o.mul shares fill.fill_price in
      let commission = larger (o.mul value (base_rate rules.inner)) (base_min rules.inner) in
      record {
        shares = shares;
        fill_price = fill.fill_price;
        commission = commission;
        net_amount = o.neg (o.add value commission);
      }

  -- The shares in whole lots.
  abbrev pub whole_lots : ℕ → F → F
  whole_lots lot_size shares = o.of_int (scale_ℤ (o.floor_div shares lot_size) lot_size)

  -- A filled buy, rounded down to lots.
  unfoldable pub in_lots : Rules F → F → FillResult F → FillResult F
  unfolding refill
  in_lots rules price fill =
      if nat_beq rules.lot_size 0
      then fill
      else if is_zero_ℤ (o.floor_div fill.shares rules.lot_size)
      then no_fill price
      else if o.lt (whole_lots rules.lot_size fill.shares) fill.shares
      then refill rules (whole_lots rules.lot_size fill.shares) fill
      else fill

  -- The fill of a buy.
  unfoldable pub buy_fill : Rules F → BarState F → F → F → FillResult F
  unfolding in_lots
  buy_fill rules state price amount =
      let fill = fill_buy rules.inner price amount in
      if o.le amount zero_float || o.le price zero_float
      then no_fill price
      else if is_at_upper rules state price
      then no_fill price
      else if o.le fill.shares zero_float
      then fill
      else in_lots rules price fill

  -- A fill of some shares marks the bar.
  unfoldable pub mark_bought : FillResult F → BarState F → BarState F
  mark_bought fill state =
      if is_positive fill.shares then record state { buy_bar = state.bar } else state

  -- `fill_buy`
  unfoldable pub rules_buy : Rules F → BarState F → F → F → FillResult F × BarState F
  unfolding buy_fill mark_bought
  rules_buy rules state price amount =
      (buy_fill rules state price amount, mark_bought (buy_fill rules state price amount) state)

  unfoldable pub sell_lots : Rules F → F → F → FillResult F
  sell_lots rules price shares =
      if nat_beq rules.lot_size 0
      then fill_sell rules.inner price shares
      else if is_zero_ℤ (o.floor_div shares rules.lot_size)
      then no_fill price
      else fill_sell rules.inner price (whole_lots rules.lot_size shares)

  -- `fill_sell`
  unfoldable pub rules_sell : Rules F → BarState F → F → F → FillResult F
  unfolding sell_lots
  rules_sell rules state price shares =
      if o.le shares zero_float || o.le price zero_float
      then no_fill price
      else if rules.t_plus_1 && same_bar state.buy_bar state.bar
      then no_fill price
      else if is_at_lower rules state price
      then no_fill price
      else sell_lots rules price shares
