-- ===== src/Portfolio/Execution/Desk.antt =====
-- The trades of ez/portfolio/execution.py one after the other, as the ledger of ez/live/ledger.py books
-- them.
use backtesting_framework.Common.{
  ℕ, ℤ, pos, ◌-ℤ◌, ltb_ℤ, leb_ℤ, ◌≡◌, sym, ◌∙◌, inl, inr, Bool, true, false, not, ◌&&◌, ◌||◌,
  is_positive, Option, none, some, List, [], ◌∷◌, if◌then◌else◌, contains, is_some, Float,
  one_float, arith, Bool-cases, ◌==◌,
}
use mathlib.Core.Path.{ap₂}
use backtesting_framework.Common.Text.{Text, text_eq, codes}
use backtesting_framework.Common.Dict.{Dict, get}
use backtesting_framework.Live.Events.Event.{Fill}
use backtesting_framework.Live.Ledger.Apply.{holdings_after_fill, cash_after_fill}
use backtesting_framework.Portfolio.Execution.Legs.{
  CostModel, TradeResult, Market, Leg, crosses_limit, is_limit_locked, is_blocked, sell_leg,
  wanted_leg, cut_leg, affordable_shares, within_cash, buy_leg, total_buy, eps_fund,
}
use backtesting_framework.Portfolio.Execution.Trades.{
  Book, is_zero_ℤ, add_to_set, shares_of, leg_at, is_purchase,
}

-- The account that trades change.
pub record Desk (F : Type 0) : Type 0 where
  pub cash : F
  pub holdings : Dict Text ℤ
  pub sold_today : List Text

-- The keys of a trade that the OMS puts into a fill event.
abbrev pub fill_of : {F : Type 0} → TradeResult F → Fill F
fill_of trade = record {
  symbol = trade.symbol;
  side = trade.side;
  shares = trade.shares;
  price = trade.price;
  amount = trade.amount;
  cost = trade.cost;
}

abbrev pub is_bought : {F : Type 0} → TradeResult F → Bool
is_bought trade = trade.side == codes "buy"

abbrev pub signed_shares : {F : Type 0} → TradeResult F → ℤ
signed_shares trade = if is_bought trade then trade.shares else pos 0 -ℤ trade.shares

abbrev pub desk_of : {F : Type 0} → Book F → Desk F
desk_of book = record { cash = book.cash; holdings = book.holdings; sold_today = book.sold_today }

-- No symbol is to be held short.
pub record IsLong (targets : Dict Text ℤ) : Type 0 where
  pub not_short : (symbol : Text) → leb_ℤ (pos 0) (shares_of symbol targets) ≡ true

sign_lem :
    (d e : ℤ) → ltb_ℤ (pos 0) d ≡ true → ltb_ℤ (pos 0) e ≡ true → ltb_ℤ d (pos 0) ≡ ltb_ℤ e (pos 0)
sign_lem d e h k = ground arith

not_rising : (d : ℤ) → is_zero_ℤ d ≡ false → ltb_ℤ (pos 0) d ≡ true → ltb_ℤ d (pos 0) ≡ false
not_rising d h k = ground arith

module _ {F : Type 0} ⦃o : Float F⦄ where
  -- A trade booked by the ledger, with the symbols sold on the day.
  abbrev pub after : TradeResult F → Desk F → Desk F
  after trade desk = record {
    cash = cash_after_fill (fill_of trade) desk.cash;
    holdings = holdings_after_fill (fill_of trade) desk.holdings;
    sold_today =
        if is_bought trade then desk.sold_today else add_to_set trade.symbol desk.sold_today;
  }

  -- What the market and the account at hand allow.
  pub record IsAllowed (market : Market F) (desk : Desk F) (trade : TradeResult F) : Type 0 where
    pub priced : is_some (get trade.symbol market.prices) ≡ true
    pub has_bar : contains market.has_bar_today trade.symbol ≡ true
    pub not_resold :
        market.t_plus_1 ≡ true
        → is_bought trade ≡ true
        → contains desk.sold_today trade.symbol ≡ false
    pub not_locked : is_limit_locked market trade.symbol (signed_shares trade) ≡ false
    pub covered :
        is_bought trade ≡ false → leb_ℤ trade.shares (shares_of trade.symbol desk.holdings) ≡ true
    pub some_shares : ltb_ℤ (pos 0) trade.shares ≡ true
    pub paid :
        is_bought trade ≡ true
        → o.lt (o.add desk.cash eps_fund) (o.add trade.amount trade.cost) ≡ false

  -- Allowed trades, from one account to another.
  pub data Trading (market : Market F) : Desk F → List (TradeResult F) → Desk F → Type 0 where
    closed : {desk : Desk F} → Trading market desk [] desk
    traded :
        {desk end : Desk F} {trades : List (TradeResult F)} (trade : TradeResult F)
        → IsAllowed market desk trade
        → Trading market (after trade desk) trades end
        → Trading market desk (trade ∷ trades) end

  -- What `leg_at` promises of a leg.
  pub record IsFit (market : Market F) (cash : F) (sold_today : List Text) (symbol : Text)
      (current target : ℤ) (leg : Leg F) : Type 0 where
    pub change : leg.delta ≡ leg.target -ℤ current
    pub moved : is_zero_ℤ leg.delta ≡ false
    pub free : is_blocked market sold_today symbol leg.delta ≡ false
    pub paid : is_purchase leg ≡ true → o.lt (o.add cash eps_fund) (total_buy leg) ≡ false
    pub aimed : is_purchase leg ≡ false → leg.target ≡ target

  pub is_limit_locked-sign :
      (market : Market F) (symbol : Text) (d e : ℤ)
      → ltb_ℤ (pos 0) d ≡ ltb_ℤ (pos 0) e
      → ltb_ℤ d (pos 0) ≡ ltb_ℤ e (pos 0)
      → is_limit_locked market symbol d ≡ is_limit_locked market symbol e
  unfolding is_limit_locked
  is_limit_locked-sign market symbol d e h k =
      ap₂
        (λ rising falling.
          if is_positive market.limit_pct
          then crosses_limit market.limit_pct (get symbol market.raw_close_today)
              (get symbol market.prev_raw_close) rising falling
          else false)
        h k

  is_blocked-sign :
      (market : Market F) (sold_today : List Text) (symbol : Text) (d e : ℤ)
      → ltb_ℤ (pos 0) d ≡ ltb_ℤ (pos 0) e
      → ltb_ℤ d (pos 0) ≡ ltb_ℤ e (pos 0)
      → is_blocked market sold_today symbol d ≡ is_blocked market sold_today symbol e
  unfolding is_blocked
  is_blocked-sign market sold_today symbol d e h k =
      ap₂
        (λ rising locked.
          not (contains market.has_bar_today symbol)
          || (market.t_plus_1 && rising && contains sold_today symbol)
          || locked)
        h (is_limit_locked-sign market symbol d e h k)

  within_cash-eq :
      (cash : F) (found : Option (Leg F)) (leg : Leg F)
      → within_cash cash found ≡ some leg
      → (found ≡ some leg) × (o.lt (o.add cash eps_fund) (total_buy leg) ≡ false)
  within_cash-eq cash none leg h = cc
  within_cash-eq cash (some l) leg h = ground arith

  cut_leg-eq :
      (costs : CostModel F) (lot_size : ℕ) (price affordable : F) (current : ℤ) (leg : Leg F)
      → cut_leg costs lot_size price affordable current ≡ some leg
      → (leg.delta ≡ leg.target -ℤ current) × (ltb_ℤ (pos 0) leg.delta ≡ true)
  unfolding cut_leg
  cut_leg-eq costs lot_size price affordable current leg h = ground arith

  buy_leg-eq :
      (costs : CostModel F) (lot_size : ℕ) (base_price : F) (current target : ℤ) (cash : F)
      (leg : Leg F)
      → buy_leg costs lot_size base_price current target cash ≡ some leg
      → ltb_ℤ (pos 0) (target -ℤ current) ≡ true
      → (leg.delta ≡ leg.target -ℤ current)
        × (ltb_ℤ (pos 0) leg.delta ≡ true)
        × (o.lt (o.add cash eps_fund) (total_buy leg) ≡ false)
  unfolding buy_leg
  buy_leg-eq costs lot_size base_price current target cash leg h up =
      let price = o.mul base_price (o.add one_float costs.slippage_rate) in
      let wanted = wanted_leg costs price target (target -ℤ current) in
      let cut = cut_leg costs lot_size price (affordable_shares costs price cash) current in
      let (found, paid) =
        within_cash-eq cash (if o.lt cash (total_buy wanted) then cut else some wanted) leg h in
      elim (Bool-cases (o.lt cash (total_buy wanted))) [
        | inl short ↦
            let (change, rising) =
              cut_leg-eq costs lot_size price (affordable_shares costs price cash) current leg
                (rw short at found) in
            (change, rising, paid)
        | inr enough ↦
            let same : some wanted ≡ some leg = rw enough at found in
            unfold wanted_leg in ground arith
      ]

  pub leg_at-IsFit :
      (market : Market F) (cash : F) (sold_today : List Text) (symbol : Text) (base_price : F)
      (current target : ℤ) (leg : Leg F)
      → leg_at market cash sold_today symbol base_price current target ≡ some leg
      → IsFit market cash sold_today symbol current target leg
  unfolding leg_at
  leg_at-IsFit market cash sold_today symbol base_price current target leg h =
      let delta = target -ℤ current in
      elim (Bool-cases (is_zero_ℤ delta)) [
        | inl still ↦ absurd (let no : none ≡ some leg = rw still at h in cc)
        | inr moving ↦ elim (Bool-cases (is_blocked market sold_today symbol delta)) [
          | inl blocked ↦ absurd (let no : none ≡ some leg = rw (moving, blocked) at h in cc)
          | inr free ↦ elim (Bool-cases (ltb_ℤ (pos 0) delta)) [
            | inl up ↦
                let bought : buy_leg market.cost_model market.lot_size base_price current target
                      cash
                    ≡ some leg =
                  rw (moving, free, up) at h in
                let (change, rising, paid) =
                  buy_leg-eq market.cost_model market.lot_size base_price current target cash leg
                    bought up in
                record {
                  change = change;
                  moved = ground arith;
                  free =
                      is_blocked-sign market sold_today symbol leg.delta delta (rising ∙ sym up)
                        (sign_lem leg.delta delta rising up)
                      ∙ free;
                  paid = λ _. paid;
                  aimed = λ falling. absurd (cc);
                }
            | inr down ↦
                let sold : some (sell_leg market.cost_model base_price target delta) ≡ some leg =
                  rw (moving, free, down) at h in
                unfold sell_leg in
                record {
                  change = ground arith;
                  moved = ground arith;
                  free = ground arith;
                  paid = λ rising. absurd (ground arith);
                  aimed = λ falling. ground arith;
                }
          ]
        ]
      ]
