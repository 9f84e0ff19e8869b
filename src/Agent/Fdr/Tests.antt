-- ===== src/Agent/Fdr/Tests.antt =====
-- Corrections of four p-values, in whole numbers.
use backtesting_framework.Common.{
  ℕ, Option, none, some, List, [], ◌∷◌, if◌then◌else◌, ◌≡◌, refl, arith,
}
use backtesting_framework.Common.Text.{Text, codes, text_beq}
use backtesting_framework.Common.NatFloat.{nat_float}
use backtesting_framework.Agent.Fdr.Correct.{
  PValue, finite, not_finite, FdrResult, benjamini_hochberg, adjusted_values, bonferroni,
}
use backtesting_framework.Agent.Fdr.Reported.{reported, given_names, benjamini_hochberg-reported}
use backtesting_framework.Agent.Fdr.Ranked.{IsWeakOrder, AreAdjusted, adjusted_values-AreAdjusted}

nat_float-IsWeakOrder : IsWeakOrder nat_float
nat_float-IsWeakOrder = record { irrefl = λ a. ground arith; between = λ a b c h. ground arith }

abbrev four_p_values : List (Text × PValue ℕ)
four_p_values =
    (codes "b", finite 1)
    ∷ (codes "a", finite 0)
    ∷ (codes "c", not_finite)
    ∷ (codes "d", finite 0)
    ∷ []

abbrev three_ranked : List (Text × ℕ)
three_ranked = (codes "a", 0) ∷ (codes "d", 0) ∷ (codes "b", 1) ∷ []

abbrev significances : Option (List (FdrResult ℕ)) → List ℕ
significances none = []
significances (some []) = []
significances (some (r ∷ results)) =
    (if r.is_significant then 1 else 0) ∷ significances (some results)

significances_test : significances (benjamini_hochberg 1 four_p_values) ≡ 0 ∷ 1 ∷ 0 ∷ 1 ∷ []
unfolding benjamini_hochberg text_beq
significances_test = refl

bonferroni_test : significances (some (bonferroni 1 four_p_values)) ≡ 0 ∷ 1 ∷ 0 ∷ 1 ∷ []
unfolding bonferroni
bonferroni_test = refl

benjamini_hochberg-reported_example :
    reported (benjamini_hochberg 1 four_p_values) ≡ some (given_names four_p_values)
benjamini_hochberg-reported_example = benjamini_hochberg-reported 1 four_p_values

adjusted_values-AreAdjusted_example : AreAdjusted 1 (adjusted_values three_ranked)
adjusted_values-AreAdjusted_example =
    adjusted_values-AreAdjusted nat_float-IsWeakOrder 1 three_ranked
