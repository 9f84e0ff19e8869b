-- ===== src/Agent/Fdr/Ranked.antt =====
-- The adjusted p-values of `benjamini_hochberg` of ez/agent/fdr.py by rank.
use backtesting_framework.Common.{
  ℕ, suc, Bool, true, false, not, List, [], ◌∷◌, if◌then◌else◌, Float, one_float, smaller, length,
  ◌≡◌, ◌⊎◌, arith, All,
}
use backtesting_framework.Common.Text.{Text}
use backtesting_framework.Common.Sort.{IsSorted}
use backtesting_framework.Common.Sort.Laws.{All-In, All-of_In}
use backtesting_framework.Agent.Fdr.Correct.{
  adjust_from, lower_head, step_up, adjusted_values, of_nat,
}

-- What holds of the comparison of finite floats.
pub record IsWeakOrder {F : Type 0} (o : Float F) : Type 0 where
  pub irrefl : (a : F) → o.lt a a ≡ false
  pub between : (a b c : F) → o.lt a c ≡ true → (o.lt a b ≡ true) ⊎ (o.lt b c ≡ true)

module _ {F : Type 0} ⦃o : Float F⦄ where
  abbrev pub at_most : F → F → Bool
  at_most a b = not (o.lt b a)

  -- Adjusted values by rank: none is over 1, none is over a later one, and what is significant comes before
  -- what is not.
  pub record AreAdjusted (alpha : F) (values : List F) : Type 0 where
    pub bounded : All (λ a. at_most a one_float ≡ true) values
    pub ordered : IsSorted at_most values
    pub significant_first : IsSorted (λ a b. if o.lt b alpha then o.lt a alpha else true) values

module _ {F : Type 0} ⦃o : Float F⦄ (order : IsWeakOrder o) where
  at_most_trans : (a b c : F) → at_most a b ≡ true → at_most b c ≡ true → at_most a c ≡ true
  at_most_trans a b c h k = ground (arith, order.between c b a)

  smaller_right : (a b : F) → at_most (smaller a b) b ≡ true
  smaller_right a b = ground (arith, order.irrefl b)

  lower_head-bounded :
      (bound x : F) (xs : List F)
      → at_most x bound ≡ true
      → All (λ a. at_most a bound ≡ true) xs
      → All (λ a. at_most a bound ≡ true) (lower_head x xs)
  lower_head-bounded bound x [] h all = (h, tt)
  lower_head-bounded bound x (y ∷ ys) h all =
      (at_most_trans (smaller x y) y bound (smaller_right x y) all.0, (all.0, all.1))

  lower_head-IsSorted :
      (x : F) (xs : List F) → IsSorted at_most xs → IsSorted at_most (lower_head x xs)
  lower_head-IsSorted x [] s = (tt, tt)
  lower_head-IsSorted x (y ∷ ys) s = (
    (
      smaller_right x y,
      All-of_In _ ys
          (λ a m. at_most_trans (smaller x y) y a (smaller_right x y) (All-In _ ys s.0 a m)),
    ),
    s,
  )

  step_up-bounded :
      (bound : F) (xs : List F)
      → All (λ a. at_most a bound ≡ true) xs
      → All (λ a. at_most a bound ≡ true) (step_up xs)
  unfolding step_up
  step_up-bounded bound [] all = tt
  step_up-bounded bound (x ∷ xs) all =
      lower_head-bounded bound x (step_up xs) all.0 (step_up-bounded bound xs all.1)

  step_up-IsSorted : (xs : List F) → IsSorted at_most (step_up xs)
  unfolding step_up
  step_up-IsSorted [] = tt
  step_up-IsSorted (x ∷ xs) = lower_head-IsSorted x (step_up xs) (step_up-IsSorted xs)

  adjust_from-bounded :
      (m rank : ℕ) (entries : List (Text × F))
      → All (λ a. at_most a one_float ≡ true) (adjust_from m rank entries)
  unfolding adjust_from
  adjust_from-bounded m rank [] = tt
  adjust_from-bounded m rank ((id, p) ∷ entries) = (
    smaller_right (o.div (o.mul p (of_nat m)) (of_nat rank)) one_float,
    adjust_from-bounded m (suc rank) entries,
  )

  significant_before :
      (alpha a b : F) → at_most a b ≡ true → (if o.lt b alpha then o.lt a alpha else true) ≡ true
  significant_before alpha a b h = ground (arith, order.between b a alpha)

  IsSorted-significant :
      (alpha : F) (values : List F)
      → IsSorted at_most values
      → IsSorted (λ a b. if o.lt b alpha then o.lt a alpha else true) values
  IsSorted-significant alpha [] s = tt
  IsSorted-significant alpha (a ∷ values) s = (
    All-of_In _ values (λ b m. significant_before alpha a b (All-In _ values s.0 b m)),
    IsSorted-significant alpha values s.1,
  )

  -- If the comparison of floats is a weak order, then the values that the Benjamini-Hochberg correction gives
  -- to ranked entries are at most 1 and do not fall from one rank to a later one, so that every entry ranked
  -- before a significant one is significant.
  pub adjusted_values-AreAdjusted :
      (alpha : F) (entries : List (Text × F)) → AreAdjusted alpha (adjusted_values entries)
  adjusted_values-AreAdjusted alpha entries =
      let raw = adjust_from (length entries) 1 entries in
      record {
        bounded = step_up-bounded one_float raw (adjust_from-bounded (length entries) 1 entries);
        ordered = step_up-IsSorted raw;
        significant_first = IsSorted-significant alpha (step_up raw) (step_up-IsSorted raw);
      }
