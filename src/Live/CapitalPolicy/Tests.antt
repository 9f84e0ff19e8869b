-- ===== src/Live/CapitalPolicy/Tests.antt =====
-- Orders and transitions under the default staircase.
use backtesting_framework.Common.{ℕ, refl, ◌≡◌, ◌↔◌, none, [], ◌∷◌}
use backtesting_framework.Common.NatFloat.{nat_float}
use backtesting_framework.Common.Text.{Text, text_eq, codes, lower_char, strip, text_beq}
use backtesting_framework.Common.Dict.{Dict, get, get_or}
use backtesting_framework.Live.CapitalPolicy.Stage.{
  CapitalStage, stage_eq, CapitalPolicyConfig, default_staircase, is_kill_switch_active,
  effective_stage, downgraded,
}
use backtesting_framework.Live.CapitalPolicy.Check.{OrderCheck, check_order}
use backtesting_framework.Live.CapitalPolicy.Laws.{IsPermitted, check_order-IsPermitted}

abbrev staircase : CapitalPolicyConfig ℕ
staircase = default_staircase

abbrev small_stage : CapitalPolicyConfig ℕ
small_stage = record staircase { current_stage = CapitalStage.small_whitelist }

abbrev killed : Dict Text Text
killed = (codes "EZ_LIVE_QMT_KILL_SWITCH", codes " ON") ∷ []

abbrev small_buy : OrderCheck ℕ
small_buy = record {
  symbol = codes "AAA";
  side = codes "buy";
  notional = 5_000;
  current_position_value = 0;
  current_total_exposure = 40_000;
  cumulative_day_notional = 10_000;
  broker_type = codes "qmt";
}

killed_test : effective_stage killed small_stage ≡ CapitalStage.paper_sim
unfolding effective_stage downgraded is_kill_switch_active text_beq strip get_or default_staircase
    lower_char
killed_test = refl

check_order-IsPermitted_example :
    (check_order killed small_stage small_buy ≡ none) ↔ IsPermitted killed small_stage small_buy
check_order-IsPermitted_example = check_order-IsPermitted killed small_stage small_buy

accepted_test : check_order [] small_stage small_buy ≡ none
unfolding check_order is_kill_switch_active text_beq strip get_or downgraded get default_staircase
    lower_char
accepted_test = refl
