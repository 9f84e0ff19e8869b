-- ===== src/Live/DeployGate/Tests.antt =====
-- Verdicts on a stored run.
use backtesting_framework.Common.{
  ℕ, refl, ◌≡◌, ◌↔◌, inl, inr, true, false, none, some, [], ◌∷◌, arith,
}
use backtesting_framework.Common.NatFloat.{nat_float}
use backtesting_framework.Common.Text.{codes, text_beq}
use backtesting_framework.Live.DeployGate.Concentration.{
  Field, Weight, Entry, compute_max_concentration, numbers, parse_json_field, weights_of,
}
use backtesting_framework.Live.DeployGate.Gate.{
  DeployGateConfig, Spec, Run, Decoder, evaluate, is_valid_freq,
}
use backtesting_framework.Live.DeployGate.Laws.{
  IsDeployable, evaluate-IsDeployable, IsOrdered, passed_concentration,
}
use backtesting_framework.Common.Dict.{get}

-- Every text is refused.
abbrev no_decoder : Decoder ℕ
no_decoder = record { metrics = λ raw. none; dates = λ raw. none; entries = λ raw. none }

-- Numbers in hundredths, so that a float below one is 0.
abbrev a_config : DeployGateConfig ℕ
a_config = record {
  min_sharpe = 1;
  max_drawdown = 25;
  min_trades = 20;
  max_p_value = 0;
  max_overfitting_score = 0;
  min_backtest_days = 2;
  require_wfo = true;
  min_symbols = 1;
  max_concentration = 40;
}

abbrev a_spec : Spec
a_spec = record { symbols = codes "AAA" ∷ []; freq = codes "weekly" }

abbrev an_entry : Entry ℕ
an_entry = Entry.nested (some (Weight.number 30 ∷ Weight.other ∷ Weight.number 35 ∷ []))

abbrev a_run : Run ℕ
a_run = record {
  metrics =
      Field.value
        ((codes "sharpe_ratio", 2) ∷ (codes "max_drawdown", 10) ∷ (codes "total_trades", 33) ∷ []);
  wf_metrics = Field.value ((codes "p_value", 0) ∷ (codes "overfitting_score", 0) ∷ []);
  dates = Field.value (codes "2024-01-02" ∷ codes "2024-01-03" ∷ []);
  rebalance_weights = Field.value (Entry.not_dict ∷ an_entry ∷ []);
  trade_count = 0;
}

passed_test : (evaluate no_decoder a_config a_spec (some a_run)).passed ≡ true
unfolding evaluate get parse_json_field text_beq compute_max_concentration is_valid_freq
passed_test = refl

no_scores_test :
    (evaluate no_decoder a_config a_spec
      (some (record a_run { wf_metrics = Field.encoded (codes "{") }))).passed
    ≡ false
unfolding evaluate get parse_json_field text_beq
no_scores_test = refl

evaluate-IsDeployable_example :
    ((evaluate no_decoder a_config a_spec none).passed ≡ false)
    × (((evaluate no_decoder a_config a_spec (some a_run)).passed ≡ true)
        ↔ IsDeployable no_decoder a_config a_spec a_run)
evaluate-IsDeployable_example = evaluate-IsDeployable no_decoder a_config a_spec a_run

nat-IsOrdered : IsOrdered nat_float
nat-IsOrdered = record {
  le_trans = λ x y z h k. ground arith;
  lt_le = λ x y h. ground arith;
  not_lt_le = λ x y h. ground arith;
  zero_le_one = refl;
}

passed_concentration_example : nat_float.le 35 40 ≡ true
unfolding parse_json_field numbers weights_of
passed_concentration_example =
    passed_concentration nat-IsOrdered no_decoder a_config a_spec a_run an_entry 35 passed_test
      (inr (inl refl)) (inr (inl refl))
