-- ===== src/Live/CapitalPolicy/Check.antt =====
-- `CapitalPolicyEngine.check_order` and `check_stage_transition_eligible` of
-- ez/live/capital_policy.py. A rejection keeps its rule and stage; messages and details are left out.
use backtesting_framework.Common.{
  ℤ, ltb_ℤ, Bool, true, false, not, ◌&&◌, Option, none, some, List, [], ◌∷◌, ◌++◌, contains, ◌==◌,
  if◌then◌else◌, Float,
}
use backtesting_framework.Common.Text.{Text, text_eq, codes, lower}
use backtesting_framework.Common.Dict.{Dict, get}
use backtesting_framework.Live.CapitalPolicy.Stage.{
  CapitalStage, stage_eq, StageLimits, EntryGate, CapitalPolicyConfig, is_kill_switch_active,
  effective_stage,
}

pub data CapitalRule : Type 0 where
  kill_switch_capital_downgrade read_only_stage_blocks_orders : CapitalRule
  paper_sim_stage_requires_paper_broker symbol_not_in_stage_whitelist : CapitalRule
  max_capital_per_day_exceeded max_position_value_per_symbol_exceeded : CapitalRule
  max_total_gross_exposure_exceeded : CapitalRule

pub record CapitalRejectReason : Type 0 where
  pub rule : CapitalRule
  pub stage : CapitalStage

-- The arguments of `check_order`.
pub record OrderCheck (F : Type 0) : Type 0 where
  pub symbol : Text
  pub side : Text
  pub notional : F
  pub current_position_value : F
  pub current_total_exposure : F
  pub cumulative_day_notional : F
  pub broker_type : Text

abbrev pub reject : CapitalRule → CapitalStage → Option CapitalRejectReason
reject rule stage = some (record { rule = rule; stage = stage })

abbrev pub in_whitelist : Option (List Text) → Text → Bool
in_whitelist none symbol = true
in_whitelist (some symbols) symbol = contains symbols symbol

abbrev pub is_buy : Text → Bool
is_buy side = lower side == codes "buy"

-- Why a target stage is not enterable; the messages are left out.
pub data Blocker : Type 0 where
  min_days_no_drift min_order_success_rate : Blocker

abbrev pub is_nil : List Blocker → Bool
is_nil [] = true
is_nil (_ ∷ _) = false

-- The blockers of a gate's day count.
abbrev pub day_blockers : Option ℤ → ℤ → List Blocker
day_blockers none recent = []
day_blockers (some min_days) recent =
    if ltb_ℤ recent min_days then Blocker.min_days_no_drift ∷ [] else []

module _ {F : Type 0} ⦃o : Float F⦄ where
  -- `a > b + 1e-9`
  abbrev pub exceeds : F → F → Bool
  exceeds a b = o.lt (o.add b (o.literal 1 9)) a

  -- Rules 4 to 7, for a stage with limits.
  unfoldable pub check_limits :
      CapitalStage → StageLimits F → OrderCheck F → Option CapitalRejectReason
  check_limits stage limits order =
      if not (in_whitelist limits.allowed_symbols order.symbol)
      then reject CapitalRule.symbol_not_in_stage_whitelist stage
      else if exceeds (o.add order.cumulative_day_notional order.notional)
          limits.max_capital_per_day
      then reject CapitalRule.max_capital_per_day_exceeded stage
      else if is_buy order.side
          && exceeds (o.add order.current_position_value order.notional)
              limits.max_position_value_per_symbol
      then reject CapitalRule.max_position_value_per_symbol_exceeded stage
      else if is_buy order.side
          && exceeds (o.add order.current_total_exposure order.notional)
              limits.max_total_gross_exposure
      then reject CapitalRule.max_total_gross_exposure_exceeded stage
      else none

  -- A stage without limits accepts.
  unfoldable pub check_stage_limits :
      CapitalStage → Option (StageLimits F) → OrderCheck F → Option CapitalRejectReason
  unfolding check_limits
  check_stage_limits stage none order = none
  check_stage_limits stage (some limits) order = check_limits stage limits order

  -- `check_order`
  unfoldable pub check_order :
      Dict Text Text → CapitalPolicyConfig F → OrderCheck F → Option CapitalRejectReason
  unfolding check_stage_limits effective_stage
  check_order environ config order =
      let effective = effective_stage environ config in
      let is_paper_broker = order.broker_type == codes "paper" in
      if is_kill_switch_active environ config && not is_paper_broker
      then reject CapitalRule.kill_switch_capital_downgrade effective
      else if effective == CapitalStage.read_only
      then reject CapitalRule.read_only_stage_blocks_orders effective
      else if effective == CapitalStage.paper_sim && not is_paper_broker
      then reject CapitalRule.paper_sim_stage_requires_paper_broker effective
      else check_stage_limits effective (get effective config.stage_limits) order

  abbrev pub rate_blockers : Option F → F → List Blocker
  rate_blockers none recent = []
  rate_blockers (some min_rate) recent =
      if o.lt (o.add recent (o.literal 1 12)) min_rate
      then Blocker.min_order_success_rate ∷ []
      else []

  abbrev pub gate_blockers : Option (EntryGate F) → ℤ → F → List Blocker
  gate_blockers none days rate = []
  gate_blockers (some gate) days rate =
      day_blockers gate.min_days_no_drift days ++ rate_blockers gate.min_order_success_rate rate

  -- `check_stage_transition_eligible`
  unfoldable pub check_stage_transition_eligible :
      CapitalPolicyConfig F → CapitalStage → ℤ → F → Bool × List Blocker
  check_stage_transition_eligible config target recent_drift_days recent_order_success_rate =
      let blockers =
        gate_blockers (get target config.entry_gates) recent_drift_days recent_order_success_rate in
      (is_nil blockers, blockers)
