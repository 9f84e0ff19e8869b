-- ===== src/Core/Matching/Matcher.antt =====
-- The matchers of ez/core/matcher.py with the fill kernels of ez/core/_jit_fill.py.
use backtesting_framework.Common.{
  Bool, false, ◌||◌, Option, none, some, if◌then◌else◌, Float, zero_float, one_float, larger,
  smaller,
}

-- `FillResult`
pub record FillResult (F : Type 0) : Type 0 where
  pub shares : F
  pub fill_price : F
  pub commission : F
  pub net_amount : F

-- `SimpleMatcher`, `SlippageMatcher` and `SellSideTaxMatcher`.
pub data Matcher (F : Type 0) : Type 0 where
  simple : (rate sell_rate min_comm : F) → Matcher F
  slippage : (slip rate sell_rate min_comm : F) → Matcher F
  taxed : Matcher F → F → Matcher F

module _ {F : Type 0} ⦃o : Float F⦄ where
  abbrev pub is_negative : F → Bool
  is_negative x = o.lt x zero_float

  abbrev pub is_negative_rate : Option F → Bool
  is_negative_rate none = false
  is_negative_rate (some rate) = is_negative rate

  abbrev pub rate_or : Option F → F → F
  rate_or none rate = rate
  rate_or (some sell_rate) rate = sell_rate

  -- `SimpleMatcher.__init__`; no matcher where it raises.
  unfoldable pub simple_matcher : F → F → Option F → Option (Matcher F)
  simple_matcher rate min_comm sell_rate =
      if is_negative rate || is_negative min_comm || is_negative_rate sell_rate
      then none
      else some (simple rate (rate_or sell_rate rate) min_comm)

  -- `SlippageMatcher.__init__`
  unfoldable pub slippage_matcher : F → F → F → Option F → Option (Matcher F)
  slippage_matcher slip rate min_comm sell_rate =
      if is_negative slip || is_negative rate || is_negative min_comm || is_negative_rate sell_rate
      then none
      else some (slippage slip rate (rate_or sell_rate rate) min_comm)

  abbrev pub no_fill : F → FillResult F
  no_fill price = record {
    shares = zero_float;
    fill_price = price;
    commission = zero_float;
    net_amount = zero_float;
  }

  -- `jit_fill_buy`
  unfoldable pub jit_fill_buy : F → F → F → F → F → FillResult F
  jit_fill_buy price amount comm_rate min_comm slip_rate =
      let fill_price = o.mul price (o.add one_float slip_rate) in
      let comm = larger (o.mul amount comm_rate) min_comm in
      if o.le amount zero_float || o.le price zero_float
      then no_fill price
      else if o.le amount comm
      then no_fill fill_price
      else record {
        shares = o.div (o.sub amount comm) fill_price;
        fill_price = fill_price;
        commission = comm;
        net_amount = o.neg amount;
      }

  abbrev pub floor_price : F → F
  floor_price fill_price = if o.le fill_price zero_float then zero_float else fill_price

  -- `jit_fill_sell`
  unfoldable pub jit_fill_sell : F → F → F → F → F → FillResult F
  jit_fill_sell price shares sell_comm_rate min_comm slip_rate =
      let fill_price = floor_price (o.mul price (o.sub one_float slip_rate)) in
      let value = o.mul shares fill_price in
      let comm = smaller (larger (o.mul value sell_comm_rate) min_comm) value in
      if o.le shares zero_float || o.le price zero_float then no_fill price else record {
        shares = shares;
        fill_price = fill_price;
        commission = comm;
        net_amount = o.sub value comm;
      }

  -- The tax of a sale is at most what the sale brings.
  unfoldable pub with_tax : FillResult F → F → FillResult F
  with_tax result rate =
      let tax =
        smaller (o.mul (o.mul result.shares result.fill_price) rate)
          (larger result.net_amount zero_float) in
      if o.le result.shares zero_float then result else record result {
        commission = o.add result.commission tax;
        net_amount = o.sub result.net_amount tax;
      }

  unfoldable pub fill_buy : Matcher F → F → F → FillResult F
  unfolding jit_fill_buy
  fill_buy (simple rate sell_rate min_comm) price amount =
      jit_fill_buy price amount rate min_comm zero_float
  fill_buy (slippage slip rate sell_rate min_comm) price amount =
      jit_fill_buy price amount rate min_comm slip
  fill_buy (taxed inner tax) price amount = fill_buy inner price amount

  unfoldable pub fill_sell : Matcher F → F → F → FillResult F
  unfolding jit_fill_sell with_tax
  fill_sell (simple rate sell_rate min_comm) price shares =
      jit_fill_sell price shares sell_rate min_comm zero_float
  fill_sell (slippage slip rate sell_rate min_comm) price shares =
      jit_fill_sell price shares sell_rate min_comm slip
  fill_sell (taxed inner tax) price shares = with_tax (fill_sell inner price shares) tax
