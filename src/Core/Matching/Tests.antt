-- ===== src/Core/Matching/Tests.antt =====
-- Calls of a matcher on small numbers.
use backtesting_framework.Common.{
  ℕ, pos, negsuc, scale_ℤ, ◌≡◌, refl, true, false, List, [], ◌∷◌, arith, is_positive,
}
use backtesting_framework.Common.NatFloat.{nat_float}
use backtesting_framework.Core.Matching.Matcher.{simple, FillResult, fill_buy}
use backtesting_framework.Core.Matching.MarketRules.{
  Rules, BarState, whole_lots, rules_buy, rules_sell,
}
use backtesting_framework.Core.Matching.Session.{
  Action, Session, HoldsOvernight, Session-HoldsOvernight, IsBuyable, rules_buy-IsBuyable,
}

abbrev some_rules : Rules ℕ
some_rules = record { inner = simple 0 0 5; t_plus_1 = true; price_limit_pct = 0; lot_size = 100 }

abbrev a_state : BarState ℕ
a_state = record { bar = pos 1; prev_close = 10; buy_bar = negsuc 0 }

buy_test : ((rules_buy some_rules a_state 10 2_505).0).shares ≡ 200
unfolding rules_buy fill_buy scale_ℤ
buy_test = refl

abbrev some_actions : List (Action ℕ)
some_actions = Action.buy 10 2_505 ∷ Action.sell 10 200 ∷ []

abbrev some_fills : List (FillResult ℕ)
some_fills =
    (rules_buy some_rules a_state 10 2_505).0
    ∷ rules_sell some_rules ((rules_buy some_rules a_state 10 2_505).1) 10 200
    ∷ []

Session-HoldsOvernight_example : HoldsOvernight false some_actions some_fills
Session-HoldsOvernight_example =
    Session-HoldsOvernight some_rules a_state some_actions some_fills refl
      (Session.bought 10 2_505 (Session.sold 10 200 Session.over))

whole_or_less :
    (shares : ℕ)
    → nat_float.lt (whole_lots 100 shares) shares ≡ false
    → shares ≡ whole_lots 100 shares
unfolding scale_ℤ
whole_or_less shares h = ground arith

bought_some : is_positive ((rules_buy some_rules a_state 10 2_505).0).shares ≡ true
unfolding rules_buy fill_buy scale_ℤ
bought_some = refl

rules_buy-IsBuyable_example :
    IsBuyable some_rules a_state 10 2_505 ((rules_buy some_rules a_state 10 2_505).0)
rules_buy-IsBuyable_example =
    rules_buy-IsBuyable some_rules a_state 10 2_505 refl (λ shares h. ground arith) whole_or_less
      bought_some

-- A buy at the upper price limit has no fill.
limit_test :
    ((rules_buy
      (record some_rules { price_limit_pct = 1 })
      (record a_state { prev_close = 5 })
      10
      2_505).0
    ).shares
    ≡ 0
unfolding rules_buy fill_buy scale_ℤ
limit_test = refl
