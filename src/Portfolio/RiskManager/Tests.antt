-- ===== src/Portfolio/RiskManager/Tests.antt =====
-- Drawdowns of small equity curves, in percent.
use backtesting_framework.Common.{ℕ, true, false, ◌≡◌, refl, List, [], ◌∷◌, zero_float, arith}
use backtesting_framework.Common.NatFloat.{nat_float}
use backtesting_framework.Portfolio.RiskManager.Manager.{RiskConfig, fresh, Manager, replay_equity}
use backtesting_framework.Portfolio.RiskManager.Drawdown.{
  IsOrdered, drawdowns_from, is_in_drawdown, replay_equity-is_in_drawdown,
}

-- On whole numbers a drawdown is 0 or, after a loss of everything, 1.
abbrev a_config : RiskConfig ℕ
a_config = record {
  max_drawdown_threshold = 0;
  drawdown_reduce_ratio = 5;
  drawdown_recovery_ratio = 1;
  max_turnover = 1;
}

a_config-IsOrdered : IsOrdered a_config
a_config-IsOrdered = record { apart = λ drawdown h. ground arith }

abbrev a_curve : List ℕ
a_curve = 0 ∷ 100 ∷ 50 ∷ 0 ∷ []

breached_test : (replay_equity a_config fresh a_curve).is_breached ≡ true
unfolding replay_equity
breached_test = refl

recovered_test : (replay_equity a_config fresh (100 ∷ 0 ∷ 100 ∷ [])).is_breached ≡ false
unfolding replay_equity
recovered_test = refl

replay_equity-is_in_drawdown_example :
    (replay_equity a_config fresh a_curve).is_breached
    ≡ is_in_drawdown a_config (drawdowns_from zero_float [] a_curve)
replay_equity-is_in_drawdown_example =
    replay_equity-is_in_drawdown a_config fresh a_curve a_config-IsOrdered

abbrev a_manager : Manager ℕ
a_manager = record { peak_equity = 100; is_breached = true }
