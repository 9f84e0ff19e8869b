-- ===== src/Live/CapitalPolicy/Laws.antt =====
-- Orders that pass, and stages that may be entered, in ez/live/capital_policy.py.
use mathlib.Core.Path.{subst}
use backtesting_framework.Common.{
  ℤ, ◌≤◌, ◌≡◌, ◌≢◌, ◌↔◌, refl, Bool, true, false, Option, none, some, ◌++◌, arith, ◌≤ℤ◌, ◌==◌,
  Float,
}
use backtesting_framework.Common.Text.{Text, text_eq, codes}
use backtesting_framework.Common.Dict.{Dict, get}
use backtesting_framework.Live.CapitalPolicy.Stage.{
  CapitalStage, stage_index, stage_eq, StageLimits, EntryGate, CapitalPolicyConfig,
  is_kill_switch_active, effective_stage, downgraded,
}
use backtesting_framework.Live.CapitalPolicy.Check.{
  OrderCheck, in_whitelist, is_buy, exceeds, check_limits, check_stage_limits, check_order, is_nil,
  day_blockers, rate_blockers, gate_blockers, check_stage_transition_eligible,
}

downgraded_index :
    (b : Bool) (stage : CapitalStage) → stage_index (downgraded b stage) ≤ stage_index stage
unfolding downgraded
downgraded_index b stage = ground arith

-- The stage in force is never above the configured one, and with the kill switch active it is one of
-- the two stages without real capital.
pub effective_stage_bounds :
    {F : Type 0} (environ : Dict Text Text) (config : CapitalPolicyConfig F)
    → (stage_index (effective_stage environ config) ≤ stage_index config.current_stage)
      × (is_kill_switch_active environ config ≡ true
          → stage_index (effective_stage environ config) ≤ 1)
unfolding effective_stage downgraded
effective_stage_bounds environ config = ground arith

abbrev pub DaysMet : Option ℤ → ℤ → Type 0
DaysMet none days = Unit
DaysMet (some min_days) days = min_days ≤ℤ days

module _ {F : Type 0} ⦃o : Float F⦄ where
  -- An order that passes and is not for the paper broker runs with the kill switch inactive, and at
  -- one of the three stages with real capital.
  pub real_order_accepted :
      (environ : Dict Text Text) (config : CapitalPolicyConfig F) (order : OrderCheck F)
      → check_order environ config order ≡ none
      → (order.broker_type == codes "paper") ≡ false
      → (is_kill_switch_active environ config ≡ false) × (2 ≤ stage_index config.current_stage)
  unfolding check_order effective_stage downgraded
  real_order_accepted environ config order ok real = ground arith

  -- What the limits of a stage ask of an order.
  pub record Fits (limits : StageLimits F) (order : OrderCheck F) : Type 0 where
    pub listed : in_whitelist limits.allowed_symbols order.symbol ≡ true
    pub day :
        exceeds (o.add order.cumulative_day_notional order.notional) limits.max_capital_per_day
        ≡ false
    pub position :
        is_buy order.side ≡ true
        → exceeds
            (o.add order.current_position_value order.notional)
            limits.max_position_value_per_symbol
          ≡ false
    pub exposure :
        is_buy order.side ≡ true
        → exceeds
            (o.add order.current_total_exposure order.notional)
            limits.max_total_gross_exposure
          ≡ false

  check_limits-Fits :
      (stage : CapitalStage) (limits : StageLimits F) (order : OrderCheck F)
      → (check_limits stage limits order ≡ none) ↔ Fits limits order
  unfolding check_limits
  check_limits-Fits stage limits order = ground arith

  check_stage_limits-Fits :
      (stage : CapitalStage) (found : Option (StageLimits F)) (order : OrderCheck F)
      → (check_stage_limits stage found order ≡ none)
        ↔ ((limits : StageLimits F) → found ≡ some limits → Fits limits order)
  unfolding check_stage_limits
  check_stage_limits-Fits stage none order = (λ _ limits e. absurd cc, λ _. refl)
  check_stage_limits-Fits stage (some l) order = (
    λ ok limits e.
        let same : l ≡ limits = cc in
        subst (λ x. Fits x order) same ((check_limits-Fits stage l order).0 ok),
    λ fits. (check_limits-Fits stage l order).1 (fits l refl),
  )

  -- What the policy asks of an order in an environment.
  pub record IsPermitted (environ : Dict Text Text) (config : CapitalPolicyConfig F)
      (order : OrderCheck F) : Type 0 where
    pub switch :
        is_kill_switch_active environ config ≡ true → (order.broker_type == codes "paper") ≡ true
    pub not_read_only : effective_stage environ config ≢ CapitalStage.read_only
    pub paper_only :
        effective_stage environ config ≡ CapitalStage.paper_sim
        → (order.broker_type == codes "paper") ≡ true
    pub fits :
        (limits : StageLimits F)
        → get (effective_stage environ config) config.stage_limits ≡ some limits
        → Fits limits order

  -- An order passes exactly when: under an active kill switch its broker is the paper broker; the stage
  -- in force is not READ_ONLY; at PAPER_SIM its broker is the paper broker; and it fits the limits
  -- configured for that stage, if there are any: the whitelist, the daily cap, and for a buy the caps on
  -- the position and on the total exposure.
  pub check_order-IsPermitted :
      (environ : Dict Text Text) (config : CapitalPolicyConfig F) (order : OrderCheck F)
      → (check_order environ config order ≡ none) ↔ IsPermitted environ config order
  unfolding check_order
  check_order-IsPermitted environ config order =
      let stage = effective_stage environ config in
      let limits = check_stage_limits-Fits stage (get stage config.stage_limits) order in
      (
        λ ok. record {
          switch = ground arith;
          not_read_only = ground arith;
          paper_only = ground arith;
          fits = limits.0 (ground arith);
        },
        λ p. ground (arith, p.switch, p.not_read_only, p.paper_only, limits.1 p.fits),
      )

  abbrev pub RateMet : Option F → F → Type 0
  RateMet none rate = Unit
  RateMet (some min_rate) rate = o.lt (o.add rate (o.literal 1 12)) min_rate ≡ false

  -- What the gate of a stage asks for: as many days without drift, and as high a success rate, as it
  -- names.
  abbrev pub GateMet : Option (EntryGate F) → ℤ → F → Type 0
  GateMet none days rate = Unit
  GateMet (some gate) days rate =
      DaysMet gate.min_days_no_drift days × RateMet gate.min_order_success_rate rate

  bounds_iff :
      (min_days : Option ℤ) (min_rate : Option F) (days : ℤ) (rate : F)
      → (is_nil (day_blockers min_days days ++ rate_blockers min_rate rate) ≡ true)
        ↔ (DaysMet min_days days × RateMet min_rate rate)
  bounds_iff none none days rate = ground arith
  bounds_iff none (some r) days rate = ground arith
  bounds_iff (some n) none days rate = ground arith
  bounds_iff (some n) (some r) days rate = ground arith

  gate_iff :
      (gate : Option (EntryGate F)) (days : ℤ) (rate : F)
      → (is_nil (gate_blockers gate days rate) ≡ true) ↔ GateMet gate days rate
  gate_iff none days rate = ground arith
  gate_iff (some gate) days rate =
      bounds_iff gate.min_days_no_drift gate.min_order_success_rate days rate

  -- A stage may be entered exactly when each bound of its gate is met; a stage without a gate always.
  pub eligible_iff :
      (config : CapitalPolicyConfig F) (target : CapitalStage) (days : ℤ) (rate : F)
      → ((check_stage_transition_eligible config target days rate).0 ≡ true)
        ↔ GateMet (get target config.entry_gates) days rate
  unfolding check_stage_transition_eligible
  eligible_iff config target days rate = gate_iff (get target config.entry_gates) days rate
