-- ===== src/Live/CapitalPolicy/Stage.antt =====
-- Stages, limits and entry gates of ez/live/capital_policy.py, the default staircase, the kill switch
-- and the stage that it leaves in force.
use backtesting_framework.Common.{
  ℕ, ℤ, pos, ◌≡◌, ◌↔◌, Bool, true, false, Option, none, some, List, [], ◌∷◌, arith, Eq, nat_beq,
  contains, Float,
}
use backtesting_framework.Common.Text.{Text, text_eq, codes, strip, lower}
use backtesting_framework.Common.Dict.{Dict, get_or}

pub data CapitalStage : Type 0 where
  read_only paper_sim small_whitelist expanded_whitelist full_capital : CapitalStage

-- The place of a stage in the staircase.
abbrev pub stage_index : CapitalStage → ℕ
stage_index CapitalStage.read_only = 0
stage_index CapitalStage.paper_sim = 1
stage_index CapitalStage.small_whitelist = 2
stage_index CapitalStage.expanded_whitelist = 3
stage_index CapitalStage.full_capital = 4

abbrev pub stage_beq : CapitalStage → CapitalStage → Bool
stage_beq a b = nat_beq (stage_index a) (stage_index b)

pub stage_beq_iff : (a b : CapitalStage) → (stage_beq a b ≡ true) ↔ (a ≡ b)
stage_beq_iff a b = ground arith

instance abbrev pub stage_eq : Eq CapitalStage
stage_eq = record { beq = stage_beq; beq_iff = stage_beq_iff }

pub record StageLimits (F : Type 0) : Type 0 where
  pub max_capital_per_day : F
  pub max_position_value_per_symbol : F
  pub max_total_gross_exposure : F
  pub allowed_symbols : Option (List Text)

-- An entry gate; a missing key is none.
pub record EntryGate (F : Type 0) : Type 0 where
  pub min_days_no_drift : Option ℤ
  pub min_order_success_rate : Option F

pub record CapitalPolicyConfig (F : Type 0) : Type 0 where
  pub current_stage : CapitalStage
  pub stage_limits : Dict CapitalStage (StageLimits F)
  pub entry_gates : Dict CapitalStage (EntryGate F)
  pub kill_switch_env_var : Text

module _ {F : Type 0} ⦃o : Float F⦄ where
  -- Limits with no whitelist.
  caps : ℕ → ℕ → ℕ → StageLimits F
  caps day position exposure = record {
    max_capital_per_day = o.of_int (pos day);
    max_position_value_per_symbol = o.of_int (pos position);
    max_total_gross_exposure = o.of_int (pos exposure);
    allowed_symbols = none;
  }

  gate : ℕ → ℕ → EntryGate F
  gate days percent = record {
    min_days_no_drift = some (pos days);
    min_order_success_rate = some (o.literal percent 2);
  }

  -- `CapitalPolicyConfig.default_staircase`
  unfoldable pub default_staircase : CapitalPolicyConfig F
  unfolding caps gate
  default_staircase = record {
    current_stage = CapitalStage.read_only;
    stage_limits =
        (CapitalStage.read_only, record (caps 0 0 0) { allowed_symbols = some [] })
        ∷ (CapitalStage.paper_sim, caps 1_000_000_000 1_000_000_000 1_000_000_000)
        ∷ (CapitalStage.small_whitelist, caps 50_000 20_000 100_000)
        ∷ (CapitalStage.expanded_whitelist, caps 500_000 100_000 1_000_000)
        ∷ (CapitalStage.full_capital, caps 1_000_000_000_000 1_000_000_000_000 1_000_000_000_000)
        ∷ [];
    entry_gates =
        (CapitalStage.small_whitelist, gate 5 90)
        ∷ (CapitalStage.expanded_whitelist, gate 10 95)
        ∷ (CapitalStage.full_capital, gate 20 98)
        ∷ [];
    kill_switch_env_var = codes "EZ_LIVE_QMT_KILL_SWITCH";
  }

-- `is_kill_switch_active`, in a process environment.
unfoldable pub is_kill_switch_active : {F : Type 0} → Dict Text Text → CapitalPolicyConfig F → Bool
is_kill_switch_active environ config =
    contains (codes "1" ∷ codes "true" ∷ codes "yes" ∷ codes "on" ∷ [])
      (lower (strip (get_or config.kill_switch_env_var [] environ)))

-- The stage in force, by whether the kill switch is active.
unfoldable pub downgraded : Bool → CapitalStage → CapitalStage
downgraded false stage = stage
downgraded true CapitalStage.read_only = CapitalStage.read_only
downgraded true _ = CapitalStage.paper_sim

-- `effective_stage`
unfoldable pub effective_stage :
    {F : Type 0} → Dict Text Text → CapitalPolicyConfig F → CapitalStage
effective_stage environ config =
    downgraded (is_kill_switch_active environ config) config.current_stage
