-- ===== src/Portfolio/Execution/Run.antt =====
-- The whole loop of `execute_portfolio_trades`, ez/portfolio/execution.py, as trades booked one by one.
use backtesting_framework.Common.{
  ℤ, pos, abs, ◌+ℤ◌, ◌-ℤ◌, ltb_ℤ, leb_ℤ, ◌≡◌, refl, sym, ap, ◌∙◌, Bool, true, false, not, ◌&&◌,
  ◌||◌, Option, none, some, List, [], ◌∷◌, ◌++◌, if◌then◌else◌, contains, is_some, Float,
  zero_float, arith, inl, inr, Bool-cases, Option-cases,
}
use mathlib.Core.List.{append-nil, append_assoc}
use backtesting_framework.Common.Text.{Text, text_eq, text_beq}
use backtesting_framework.Common.Dict.{Dict, get, put, pop}
use backtesting_framework.Live.Ledger.Apply.{
  holdings_after_fill, holdings_after_sell, cash_after_fill,
}
use backtesting_framework.Portfolio.Execution.Legs.{
  TradeResult, Market, Leg, target_shares, is_blocked, is_limit_locked,
}
use backtesting_framework.Portfolio.Execution.Trades.{
  Book, is_zero_ℤ, add_to_set, shares_of, symbols_in_turn, leg_of, is_purchase, trade_of, buy, sell,
  settle, trade_all, execute_portfolio_trades,
}
use backtesting_framework.Portfolio.Execution.Desk.{
  traded, closed, IsLong, desk_of, is_bought, after, signed_shares, IsAllowed, Trading, IsFit,
  leg_at-IsFit,
}

up_lem : (c t d : ℤ) → d ≡ t -ℤ c → ltb_ℤ (pos 0) d ≡ true → c +ℤ pos (abs d) ≡ t
unfolding ◌+ℤ◌ ◌-ℤ◌
up_lem c t d h k = ground arith

down_lem : (c t d : ℤ) → d ≡ t -ℤ c → ltb_ℤ (pos 0) d ≡ false → c -ℤ pos (abs d) ≡ t
unfolding ◌+ℤ◌ ◌-ℤ◌
down_lem c t d h k = ground arith

covered_lem :
    (c t d : ℤ)
    → d ≡ t -ℤ c
    → ltb_ℤ (pos 0) d ≡ false
    → leb_ℤ (pos 0) t ≡ true
    → leb_ℤ (pos (abs d)) c ≡ true
unfolding ◌+ℤ◌ ◌-ℤ◌
covered_lem c t d h k l = ground arith

left_over : (t : ℤ) → leb_ℤ (pos 0) t ≡ true → ltb_ℤ (pos 0) t ≡ not (is_zero_ℤ t)
left_over t h = ground arith

sign_up : (d : ℤ) → ltb_ℤ (pos 0) d ≡ true → pos (abs d) ≡ d
sign_up d h = ground arith

sign_down : (d : ℤ) → ltb_ℤ (pos 0) d ≡ false → pos 0 -ℤ pos (abs d) ≡ d
unfolding ◌+ℤ◌ ◌-ℤ◌
sign_down d h = ground arith

moved_abs : (d : ℤ) → is_zero_ℤ d ≡ false → ltb_ℤ (pos 0) (pos (abs d)) ≡ true
moved_abs d h = ground arith

pop_or_put :
    (symbol : Text) (t : ℤ) (holdings : Dict Text ℤ)
    → leb_ℤ (pos 0) t ≡ true
    → (if is_zero_ℤ t then pop symbol holdings else put symbol t holdings)
      ≡ (if ltb_ℤ (pos 0) t then put symbol t holdings else pop symbol holdings)
pop_or_put symbol t holdings h = ground arith

guards :
    (a b c d e : Bool)
    → (not a || (b && c && d) || e) ≡ false
    → (a ≡ true) × (b ≡ true → c ≡ true → d ≡ false) × (e ≡ false)
guards a b c d e h = (ground arith, (λ u v. ground arith), ground arith)

module _ {F : Type 0} ⦃o : Float F⦄ where
  settle-after :
      (symbol : Text) (leg : Leg F) (book : Book F)
      → leg.delta ≡ leg.target -ℤ shares_of symbol book.holdings
      → (is_purchase leg ≡ false → leb_ℤ (pos 0) leg.target ≡ true)
      → desk_of (settle symbol (some leg) book) ≡ after (trade_of symbol leg) (desk_of book)
  unfolding settle buy sell holdings_after_fill holdings_after_sell cash_after_fill text_beq
  settle-after symbol leg book change long = elim (Bool-cases (is_purchase leg)) [
    | inl up ↦ rw (up, up_lem (shares_of symbol book.holdings) leg.target leg.delta change up)
    | inr down ↦
        rw (down, down_lem (shares_of symbol book.holdings) leg.target leg.delta change down)
          (ap
            (λ holdings. record {
              cash = o.add book.cash (o.sub leg.amount leg.total_cost);
              holdings = holdings;
              sold_today = add_to_set symbol book.sold_today;
            })
            (pop_or_put symbol leg.target book.holdings (long down)))
  ]

  is_bought-trade_of :
      (symbol : Text) (leg : Leg F) → is_bought (trade_of symbol leg) ≡ is_purchase leg
  unfolding text_beq
  is_bought-trade_of symbol leg = ground arith

  signed_shares-trade_of :
      (symbol : Text) (leg : Leg F) → signed_shares (trade_of symbol leg) ≡ leg.delta
  signed_shares-trade_of symbol leg =
      rw (is_bought-trade_of symbol leg) (elim (Bool-cases (is_purchase leg)) [
        | inl up ↦ rw up (sign_up leg.delta up)
        | inr down ↦ rw down (sign_down leg.delta down)
      ])

  IsFit-IsAllowed :
      (market : Market F) (symbol : Text) (target : ℤ) (leg : Leg F) (book : Book F)
      → is_some (get symbol market.prices) ≡ true
      → leb_ℤ (pos 0) target ≡ true
      → IsFit market book.cash book.sold_today symbol (shares_of symbol book.holdings) target leg
      → IsAllowed market (desk_of book) (trade_of symbol leg)
  unfolding is_blocked
  IsFit-IsAllowed market symbol target leg book priced long fit =
      let (bar, resold, unlocked) =
        guards (contains market.has_bar_today symbol) market.t_plus_1 (is_purchase leg)
          (contains book.sold_today symbol) (is_limit_locked market symbol leg.delta) fit.free in
      record {
        priced = priced;
        has_bar = bar;
        not_resold = λ day bought. resold day (sym (is_bought-trade_of symbol leg) ∙ bought);
        not_locked =
            ap (is_limit_locked market symbol) (signed_shares-trade_of symbol leg) ∙ unlocked;
        covered = λ sold.
            (let down = sym (is_bought-trade_of symbol leg) ∙ sold in
              covered_lem (shares_of symbol book.holdings) leg.target leg.delta fit.change down
                (ap (leb_ℤ (pos 0)) (fit.aimed down) ∙ long));
        some_shares = moved_abs leg.delta fit.moved;
        paid = λ bought. fit.paid (sym (is_bought-trade_of symbol leg) ∙ bought);
      }

  -- The trades that lead from one state of the loop to a later one.
  record IsRun (market : Market F) (book end : Book F) : Type 0 where
    trades : List (TradeResult F)
    led : Trading market (desk_of book) trades (desk_of end)
    listed : end.trades ≡ book.trades ++ trades

  settle-trades :
      (symbol : Text) (leg : Leg F) (book : Book F)
      → (settle symbol (some leg) book).trades ≡ book.trades ++ trade_of symbol leg ∷ []
  unfolding settle buy sell
  settle-trades symbol leg book = ground arith

  IsRun-step :
      (market : Market F) (symbol : Text) (target : ℤ) (leg : Leg F) (book end : Book F)
      → is_some (get symbol market.prices) ≡ true
      → leb_ℤ (pos 0) target ≡ true
      → IsFit market book.cash book.sold_today symbol (shares_of symbol book.holdings) target leg
      → IsRun market (settle symbol (some leg) book) end
      → IsRun market book end
  IsRun-step market symbol target leg book end priced long fit rest =
      let booked =
        settle-after symbol leg book fit.change
          (λ down. ap (leb_ℤ (pos 0)) (fit.aimed down) ∙ long) in
      record {
        trades = trade_of symbol leg ∷ rest.trades;
        led =
            traded (trade_of symbol leg)
              (IsFit-IsAllowed market symbol target leg book priced long fit)
              (rw (← booked) rest.led);
        listed =
            rest.listed
            ∙ ap (λ trades. trades ++ rest.trades) (settle-trades symbol leg book)
            ∙ append_assoc book.trades (trade_of symbol leg ∷ []) rest.trades;
      }

  IsRun-settle :
      (market : Market F) (targets : Dict Text ℤ) (symbol : Text) (book end : Book F)
      (found : Option (Leg F))
      → leg_of market targets book symbol ≡ found
      → IsLong targets
      → IsRun market (settle symbol found book) end
      → IsRun market book end
  unfolding settle leg_of
  IsRun-settle market targets symbol book end none h long rest = rest
  IsRun-settle market targets symbol book end (some leg) h long rest =
      elim (Option-cases (get symbol market.prices)) [
        | inl e ↦ absurd (let no : none ≡ some leg = rw (leg_of, e) at h in cc)
        | inr (price, e) ↦
            IsRun-step market symbol (shares_of symbol targets) leg book end (ap is_some e)
              (long.not_short symbol)
              (leg_at-IsFit market book.cash book.sold_today symbol price
                (shares_of symbol book.holdings) (shares_of symbol targets) leg
                (rw (leg_of, e) at h))
              rest
      ]

  trade_all-IsRun :
      (market : Market F) (targets : Dict Text ℤ) (symbols : List Text) (book : Book F)
      → IsLong targets
      → IsRun market book (trade_all market targets symbols book)
  unfolding trade_all
  trade_all-IsRun market targets [] book long = record {
    trades = [];
    led = closed;
    listed = sym (append-nil book.trades);
  }
  trade_all-IsRun market targets (symbol ∷ symbols) book long =
      let next = settle symbol (leg_of market targets book symbol) book in
      IsRun-settle market targets symbol book (trade_all market targets symbols next)
        (leg_of market targets book symbol) refl long
        (trade_all-IsRun market targets symbols next long)

  -- If no target is short, the trades that execution returns lead, one by one, from the account given to
  -- the account returned: each has a price and a bar of the day, is within the price limit and of at least
  -- one share; a purchase is paid by the cash at its time up to one cent, and under T+1 it does not follow
  -- a sale of the symbol; a sale is covered by the shares held; and each changes cash and holdings as the
  -- ledger does for the fill of the trade.
  pub execute_portfolio_trades-Trading :
      (market : Market F) (target_weights : Dict Text F) (holdings : Dict Text ℤ) (equity cash : F)
      (sold_today : List Text)
      → IsLong (target_shares market equity target_weights)
      → Trading market
          (record { cash = cash; holdings = holdings; sold_today = sold_today })
          (execute_portfolio_trades market target_weights holdings equity cash sold_today).trades
          (desk_of (execute_portfolio_trades market target_weights holdings equity cash sold_today))
  unfolding execute_portfolio_trades
  execute_portfolio_trades-Trading market target_weights holdings equity cash sold_today long =
      let targets = target_shares market equity target_weights in
      let book : Book F = record {
        cash = cash;
        holdings = holdings;
        sold_today = sold_today;
        trades = [];
        trade_volume = zero_float;
      } in
      let run = trade_all-IsRun market targets (symbols_in_turn holdings targets) book long in
      rw run.listed run.led
