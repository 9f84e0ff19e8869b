-- ===== src/Live/Risk/Tests.antt =====
-- Evaluations of a few orders.
use backtesting_framework.Common.{
  ℕ, pos, refl, ◌≡◌, inr, false, none, some, List, [], ◌∷◌, ◌+ℤ◌, zero_float,
}
use backtesting_framework.Common.NatFloat.{nat_float}
use backtesting_framework.Common.Text.{text_eq, codes, lower_char, strip, text_beq}
use backtesting_framework.Common.Dict.{get, get_or, put}
use backtesting_framework.Live.CapitalPolicy.Stage.{
  CapitalStage, stage_eq, CapitalPolicyConfig, StageLimits, effective_stage, downgraded,
  is_kill_switch_active,
}
use backtesting_framework.Live.CapitalPolicy.Check.{exceeds, check_order}
use backtesting_framework.Live.Risk.Rules.{Order, apply_delta, order_delta, reject_failure}
use backtesting_framework.Live.Risk.Evaluate.{
  Setting, evaluate_orders, exposure_from, order_failure,
}
use backtesting_framework.Live.Risk.Partition.{
  IsSplit, all_accepted, evaluate_orders-IsSplit, evaluate_orders_again,
}
use backtesting_framework.Live.Risk.Caps.{
  total_notional, accepted_turnover, accepted_day_cap, IsKilled,
}

abbrev buy : ℕ → Order
buy shares = record {
  client_order_id = codes "c";
  symbol = codes "AAA";
  side = codes "buy";
  shares = pos shares;
}

abbrev three_orders : List Order
three_orders = buy 30 ∷ buy 60 ∷ buy 10 ∷ []

abbrev small_limits : StageLimits ℕ
small_limits = record {
  max_capital_per_day = 500;
  max_position_value_per_symbol = 20_000;
  max_total_gross_exposure = 100_000;
  allowed_symbols = none;
}

abbrev small_policy : CapitalPolicyConfig ℕ
small_policy = record {
  current_stage = CapitalStage.small_whitelist;
  stage_limits = (CapitalStage.small_whitelist, small_limits) ∷ [];
  entry_gates = [];
  kill_switch_env_var = codes "KILL";
}

-- Equity 1000, price 10, and a turnover of the whole equity a day.
abbrev a_setting : Setting ℕ
a_setting = record {
  config = record {
    kill_switch = false;
    max_order_notional = none;
    max_position_weight = none;
    max_daily_turnover = some 1;
    max_concentration = none;
    max_gross_exposure = none;
  };
  capital_policy = some small_policy;
  environ = [];
  broker_type = codes "qmt";
  prices = (codes "AAA", 10) ∷ [];
  equity = 1_000;
}

abbrev killed_setting : Setting ℕ
killed_setting = record a_setting { environ = (codes "KILL", codes "yes") ∷ [] }

split_test : (evaluate_orders a_setting [] three_orders).accepted_orders ≡ buy 30 ∷ buy 10 ∷ []
unfolding evaluate_orders order_failure check_order is_kill_switch_active text_beq strip get_or
    downgraded get lower_char exposure_from reject_failure apply_delta ◌+ℤ◌ order_delta put
split_test = refl

evaluate_orders-IsSplit_example : IsSplit three_orders (evaluate_orders a_setting [] three_orders)
evaluate_orders-IsSplit_example = evaluate_orders-IsSplit a_setting [] three_orders

evaluate_orders_again_example :
    let accepted = (evaluate_orders a_setting [] three_orders).accepted_orders in
    evaluate_orders a_setting [] accepted ≡ all_accepted accepted
evaluate_orders_again_example = evaluate_orders_again a_setting [] three_orders

accepted_turnover_example :
    exceeds
      (total_notional a_setting zero_float
        (evaluate_orders a_setting [] three_orders).accepted_orders)
      1_000
    ≡ false
accepted_turnover_example = accepted_turnover a_setting 1 [] three_orders refl refl refl

accepted_day_cap_example :
    exceeds
      (total_notional a_setting zero_float
        (evaluate_orders a_setting [] three_orders).accepted_orders)
      500
    ≡ false
unfolding get effective_stage downgraded is_kill_switch_active text_beq strip get_or
accepted_day_cap_example =
    accepted_day_cap a_setting small_policy small_limits [] three_orders refl refl refl

killed_setting-IsKilled : IsKilled killed_setting
unfolding is_kill_switch_active text_beq strip get_or lower_char
killed_setting-IsKilled = inr (small_policy, refl, refl, refl)
