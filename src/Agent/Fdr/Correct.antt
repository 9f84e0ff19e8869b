-- ===== src/Agent/Fdr/Correct.antt =====
-- `bonferroni` and `benjamini_hochberg` of ez/agent/fdr.py. An adjusted value that is NaN is `none`, and
-- the `KeyError` of a look-up is `none` as the result of the whole call.
use backtesting_framework.Common.{
  ℕ, suc, Bool, false, not, Option, none, some, List, [], ◌∷◌, if◌then◌else◌, Float, one_float,
  smaller, length, contains, pos,
}
use backtesting_framework.Common.Text.{Text, text_eq}
use backtesting_framework.Common.Dict.{Dict, get, put}
use backtesting_framework.Common.Sort.{sort_by}

-- A p-value as it is given: a finite number, NaN or an infinity, or what is not a number.
pub data PValue (F : Type 0) : Type 0 where
  finite : F → PValue F
  not_finite not_number : PValue F

pub record FdrResult (F : Type 0) : Type 0 where
  pub spec_id : Text
  pub raw_p_value : PValue F
  pub adjusted_p_value : Option F
  pub is_significant : Bool

module _ {F : Type 0} ⦃o : Float F⦄ where
  abbrev pub of_nat : ℕ → F
  of_nat n = o.of_int (pos n)

  abbrev pub not_tested : Text → PValue F → FdrResult F
  not_tested id p = record {
    spec_id = id;
    raw_p_value = p;
    adjusted_p_value = none;
    is_significant = false;
  }

  abbrev pub tested : F → Text → F → F → FdrResult F
  tested alpha id p adjusted = record {
    spec_id = id;
    raw_p_value = finite p;
    adjusted_p_value = some adjusted;
    is_significant = o.lt adjusted alpha;
  }

  abbrev pub bonferroni_one : F → ℕ → Text → PValue F → FdrResult F
  bonferroni_one alpha n id (finite p) = tested alpha id p (smaller (o.mul p (of_nat n)) one_float)
  bonferroni_one alpha n id not_finite = not_tested id not_finite
  bonferroni_one alpha n id not_number = not_tested id not_number

  unfoldable pub bonferroni_all : F → ℕ → List (Text × PValue F) → List (FdrResult F)
  bonferroni_all alpha n [] = []
  bonferroni_all alpha n ((id, p) ∷ p_values) =
      bonferroni_one alpha n id p ∷ bonferroni_all alpha n p_values

  unfoldable pub bonferroni : F → List (Text × PValue F) → List (FdrResult F)
  unfolding bonferroni_all
  bonferroni alpha p_values = bonferroni_all alpha (length p_values) p_values

  -- The entries whose p-value is valid, and the names of the others.
  unfoldable pub valid : List (Text × PValue F) → List (Text × F)
  valid [] = []
  valid ((id, finite p) ∷ p_values) = (id, p) ∷ valid p_values
  valid ((id, not_finite) ∷ p_values) = valid p_values
  valid ((id, not_number) ∷ p_values) = valid p_values

  unfoldable pub nan_ids : List (Text × PValue F) → List Text
  nan_ids [] = []
  nan_ids ((id, finite p) ∷ p_values) = nan_ids p_values
  nan_ids ((id, not_finite) ∷ p_values) = id ∷ nan_ids p_values
  nan_ids ((id, not_number) ∷ p_values) = id ∷ nan_ids p_values

  -- A stable sort: an entry stays before those whose p-value is not less.
  abbrev pub goes_before : Text × F → Text × F → Bool
  goes_before a b = not (o.lt b.1 a.1)

  -- `min(p * m / rank, 1.0)` by rank.
  unfoldable pub adjust_from : ℕ → ℕ → List (Text × F) → List F
  adjust_from m rank [] = []
  adjust_from m rank ((id, p) ∷ entries) =
      smaller (o.div (o.mul p (of_nat m)) (of_nat rank)) one_float
      ∷ adjust_from m (suc rank) entries

  -- The loop from the end: an entry is at most the one after it.
  abbrev pub lower_head : F → List F → List F
  lower_head x [] = x ∷ []
  lower_head x (y ∷ ys) = smaller x y ∷ y ∷ ys

  unfoldable pub step_up : List F → List F
  step_up [] = []
  step_up (x ∷ xs) = lower_head x (step_up xs)

  unfoldable pub result_map :
      F → Dict Text (FdrResult F) → List (Text × F) → List F → Dict Text (FdrResult F)
  unfolding put
  result_map alpha d [] adjusted = d
  result_map alpha d (entry ∷ entries) [] = d
  result_map alpha d ((id, p) ∷ entries) (a ∷ adjusted) =
      result_map alpha (put id (tested alpha id p a) d) entries adjusted

  abbrev pub cons_found :
      Option (FdrResult F) → Option (List (FdrResult F)) → Option (List (FdrResult F))
  cons_found none rest = none
  cons_found (some r) none = none
  cons_found (some r) (some rest) = some (r ∷ rest)

  -- The results in the order of the p-values.
  unfoldable pub in_order :
      List Text → Dict Text (FdrResult F) → List (Text × PValue F) → Option (List (FdrResult F))
  unfolding get
  in_order bad d [] = some []
  in_order bad d ((id, p) ∷ p_values) =
      let rest = in_order bad d p_values in
      cons_found (if contains bad id then some (not_tested id p) else get id d) rest

  unfoldable pub all_not_tested : List (Text × PValue F) → List (FdrResult F)
  all_not_tested [] = []
  all_not_tested ((id, p) ∷ p_values) = not_tested id p ∷ all_not_tested p_values

  abbrev pub adjusted_values : List (Text × F) → List F
  adjusted_values entries = step_up (adjust_from (length entries) 1 entries)

  -- Given the valid entries, in order.
  unfoldable pub corrected :
      F → List (Text × PValue F) → List (Text × F) → Option (List (FdrResult F))
  unfolding nan_ids adjust_from step_up result_map in_order all_not_tested
  corrected alpha p_values [] = some (all_not_tested p_values)
  corrected alpha p_values (entry ∷ entries) =
      in_order (nan_ids p_values)
        (result_map alpha [] (entry ∷ entries) (adjusted_values (entry ∷ entries))) p_values

  unfoldable pub benjamini_hochberg : F → List (Text × PValue F) → Option (List (FdrResult F))
  unfolding valid sort_by corrected
  benjamini_hochberg alpha p_values =
      corrected alpha p_values (sort_by goes_before (valid p_values))
