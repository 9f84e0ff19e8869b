-- ===== src/Backtest/WalkForward/Tests.antt =====
-- Windows of a few bars, with half of each for training.
use backtesting_framework.Common.{
  ℕ, ◌*◌, ◌/◌, ◌↔◌, inl, ◌≡◌, refl, Float, pos_part, [], ◌∷◌, map, arith,
}
use backtesting_framework.Common.NatFloat.{nat_float}
use backtesting_framework.Backtest.WalkForward.Windows.{Refusal, windows_from, validate, test_size}
use backtesting_framework.Backtest.WalkForward.Tiling.{Tiles, windows-Tiles}
use backtesting_framework.Backtest.WalkForward.Splits.{
  UsesAll, validate-UsesAll, IsReason, validate-IsReason,
}

abbrev half : ℕ → ℕ
half w = w / 2

-- The last windows take up the remainder.
sizes_test : map test_size (windows_from half 103 2 0 2) ≡ 26 ∷ 26 ∷ []
unfolding windows_from
sizes_test = refl

windows-Tiles_example : Tiles 0 (windows_from half 103 2 0 2) 103
windows-Tiles_example = windows-Tiles half 103 2 (omega arith) (λ w. omega arith)

-- Percentages.
abbrev percent : Float ℕ
percent = record nat_float { of_int = λ n. 100 * pos_part n }

abbrev trained_percent : ℕ → ℕ → ℕ
trained_percent ratio w = w * ratio / 100

-- The bars of a backtest stand for its result.
abbrev a_run : ℕ → ℕ → ℕ × ℕ
a_run first end = (first, end)

validate-UsesAll_example :
    UsesAll a_run 5 2
      (windows_from (trained_percent 50) 103 2 0 2)
      (validate ⦃o = percent⦄ a_run trained_percent 103 (5 ∷ 3 ∷ []) 2 50)
validate-UsesAll_example =
    validate-UsesAll ⦃o = percent⦄ a_run trained_percent 103 (5 ∷ 3 ∷ []) 2 50 (omega arith) refl
      (λ w. omega arith) (omega arith)

validate-IsReason_example :
    (validate ⦃o = percent⦄ a_run trained_percent 40 (5 ∷ 3 ∷ []) 2 70
      ≡ inl Refusal.oos_window_too_short)
    ↔ IsReason ⦃o = percent⦄ trained_percent 40 (5 ∷ 3 ∷ []) 2 70 Refusal.oos_window_too_short
validate-IsReason_example =
    validate-IsReason ⦃o = percent⦄ a_run trained_percent 40 (5 ∷ 3 ∷ []) 2 70
      Refusal.oos_window_too_short

refused_test :
    validate ⦃o = percent⦄ a_run trained_percent 40 (5 ∷ 3 ∷ []) 2 70
    ≡ inl Refusal.oos_window_too_short
unfolding validate
refused_test = refl
