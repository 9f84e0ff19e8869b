-- ===== src/Agent/Fdr/Reported.antt =====
-- The results of ez/agent/fdr.py against the p-values: one each, in their order.
use backtesting_framework.Common.{
  ℕ, suc, true, Option, none, some, List, [], ◌∷◌, if◌then◌else◌, Float, length, contains, ◌==◌,
  ◌≡◌, refl, ap, ◌∙◌, ◌⊎◌, inl, inr, arith, Bool-cases, ==_eq, All,
}
use backtesting_framework.Common.Text.{Text, text_eq, text_beq_iff}
use backtesting_framework.Common.Dict.{Dict, get, put, get-put}
use backtesting_framework.Common.Sort.{sort_by, In}
use backtesting_framework.Common.Sort.Laws.{All-of_In, In-sort_by_intro}
use backtesting_framework.Agent.Fdr.Correct.{
  PValue, finite, not_finite, not_number, FdrResult, tested, not_tested, valid, nan_ids,
  goes_before, adjust_from, lower_head, step_up, result_map, cons_found, in_order, all_not_tested,
  adjusted_values, corrected, benjamini_hochberg,
}

module _ {F : Type 0} where
  abbrev pub given_names : List (Text × PValue F) → List Text
  given_names [] = []
  given_names ((id, p) ∷ p_values) = id ∷ given_names p_values

  abbrev pub result_names : List (FdrResult F) → List Text
  result_names [] = []
  result_names (r ∷ results) = r.spec_id ∷ result_names results

  abbrev pub reported : Option (List (FdrResult F)) → Option (List Text)
  reported none = none
  reported (some results) = some (result_names results)

  -- The name that a look-up gives.
  abbrev found : Option (FdrResult F) → Option Text
  found none = none
  found (some r) = some (r.spec_id)

contains_head : (j : Text) (names : List Text) (id : Text) → j ≡ id → contains (j ∷ names) id ≡ true
contains_head j names id e = ground (arith, text_beq_iff j id, e)

module _ {F : Type 0} ⦃o : Float F⦄ where
  length-lower_head : (x : F) (xs : List F) → length (lower_head x xs) ≡ suc (length xs)
  length-lower_head x [] = refl
  length-lower_head x (y ∷ ys) = refl

  length-step_up : (xs : List F) → length (step_up xs) ≡ length xs
  unfolding step_up
  length-step_up [] = refl
  length-step_up (x ∷ xs) = length-lower_head x (step_up xs) ∙ ap suc (length-step_up xs)

  length-adjust_from :
      (m rank : ℕ) (entries : List (Text × F))
      → length (adjust_from m rank entries) ≡ length entries
  unfolding adjust_from
  length-adjust_from m rank [] = refl
  length-adjust_from m rank (entry ∷ entries) = ap suc (length-adjust_from m (suc rank) entries)

  length-adjusted_values :
      (entries : List (Text × F)) → length (adjusted_values entries) ≡ length entries
  length-adjusted_values entries =
      length-step_up (adjust_from (length entries) 1 entries)
      ∙ length-adjust_from (length entries) 1 entries

  found-put :
      (alpha : F) (id k : Text) (p a : F) (d : Dict Text (FdrResult F))
      → (id ≡ k) ⊎ (found (get k d) ≡ some k)
      → found (get k (put id (tested alpha id p a) d)) ≡ some k
  found-put alpha id k p a d h = elim (Bool-cases (id == k)) [
    | inl same ↦ rw (get-put, same) (ap some (==_eq id k same))
    | inr other ↦ elim h [
      | inl e ↦ ground (arith, text_beq_iff id k)
      | inr e ↦ rw (get-put, other) e
    ]
  ]

  -- Every entry is looked up under its name.
  result_map-found :
      (alpha : F) (d : Dict Text (FdrResult F)) (entries : List (Text × F)) (adjusted : List F)
      (k : Text) (p : F)
      → length adjusted ≡ length entries
      → (found (get k d) ≡ some k) ⊎ In (k, p) entries
      → found (get k (result_map alpha d entries adjusted)) ≡ some k
  unfolding result_map
  result_map-found alpha d [] adjusted k p e (inl h) = h
  result_map-found alpha d [] adjusted k p e (inr m) = absurd m
  result_map-found alpha d (entry ∷ entries) [] k p e h = absurd (omega (arith, e))
  result_map-found alpha d ((id, q) ∷ entries) (a ∷ adjusted) k p e (inl h) =
      result_map-found alpha (put id (tested alpha id q a) d) entries adjusted k p
        (omega (arith, e)) (inl (found-put alpha id k q a d (inr h)))
  result_map-found alpha d ((id, q) ∷ entries) (a ∷ adjusted) k p e (inr (inl f)) =
      result_map-found alpha (put id (tested alpha id q a) d) entries adjusted k p
        (omega (arith, e)) (inl (found-put alpha id k q a d (inl (ap (λ x. x.0) f))))
  result_map-found alpha d ((id, q) ∷ entries) (a ∷ adjusted) k p e (inr (inr m)) =
      result_map-found alpha (put id (tested alpha id q a) d) entries adjusted k p
        (omega (arith, e)) (inr m)

  -- A name is among the invalid ones, or it has a valid p-value.
  nan_ids-valid :
      (p_values : List (Text × PValue F)) (id : Text) (p : PValue F)
      → In (id, p) p_values
      → (contains (nan_ids p_values) id ≡ true) ⊎ ((q : F) × In (id, q) (valid p_values))
  unfolding nan_ids valid
  nan_ids-valid [] id p m = absurd m
  nan_ids-valid ((j, finite q) ∷ p_values) id p (inl e) =
      inr (q, inl (ap (λ i. (i, q)) (ap (λ x. x.0) e)))
  nan_ids-valid ((j, finite q) ∷ p_values) id p (inr m) = elim (nan_ids-valid p_values id p m) [
    | inl bad ↦ inl bad
    | inr good ↦ inr (good.0, inr good.1)
  ]
  nan_ids-valid ((j, not_finite) ∷ p_values) id p (inl e) =
      inl (contains_head j (nan_ids p_values) id (ap (λ x. x.0) e))
  nan_ids-valid ((j, not_finite) ∷ p_values) id p (inr m) =
      ground (arith, nan_ids-valid p_values id p m)
  nan_ids-valid ((j, not_number) ∷ p_values) id p (inl e) =
      inl (contains_head j (nan_ids p_values) id (ap (λ x. x.0) e))
  nan_ids-valid ((j, not_number) ∷ p_values) id p (inr m) =
      ground (arith, nan_ids-valid p_values id p m)

  -- A name has a result if it is invalid or if it is looked up.
  abbrev HasResult : List Text → Dict Text (FdrResult F) → Text × PValue F → Type 0
  HasResult bad d entry = (contains bad entry.0 ≡ true) ⊎ (found (get (entry.0) d) ≡ some (entry.0))

  reported-cons_found :
      (id : Text) (names : List Text) (r : Option (FdrResult F))
      (rest : Option (List (FdrResult F)))
      → found r ≡ some id
      → reported rest ≡ some names
      → reported (cons_found r rest) ≡ some (id ∷ names)
  reported-cons_found id names none rest h k = absurd (cc h)
  reported-cons_found id names (some r) none h k = absurd (cc k)
  reported-cons_found id names (some r) (some rest) h k = cc (h, k)

  found-if :
      (bad : List Text) (d : Dict Text (FdrResult F)) (id : Text) (p : PValue F)
      → HasResult bad d (id, p)
      → found (if contains bad id then some (not_tested id p) else get id d) ≡ some id
  found-if bad d id p h = elim (Bool-cases (contains bad id)) [
    | inl e ↦ rw e refl
    | inr e ↦ elim h [ inl t ↦ ground (arith, t, e) | inr k ↦ rw e k ]
  ]

  in_order-reported :
      (bad : List Text) (d : Dict Text (FdrResult F)) (p_values : List (Text × PValue F))
      → All (HasResult bad d) p_values
      → reported (in_order bad d p_values) ≡ some (given_names p_values)
  unfolding in_order
  in_order-reported bad d [] h = refl
  in_order-reported bad d ((id, p) ∷ p_values) h =
      reported-cons_found id (given_names p_values)
        (if contains bad id then some (not_tested id p) else get id d) (in_order bad d p_values)
        (found-if bad d id p h.0) (in_order-reported bad d p_values h.1)

  all_not_tested-names :
      (p_values : List (Text × PValue F))
      → result_names (all_not_tested p_values) ≡ given_names p_values
  unfolding all_not_tested
  all_not_tested-names [] = refl
  all_not_tested-names ((id, p) ∷ p_values) =
      ap (λ names. id ∷ names) (all_not_tested-names p_values)

  corrected-reported :
      (alpha : F) (p_values : List (Text × PValue F)) (entries : List (Text × F))
      → ((id : Text) (p : F) → In (id, p) (valid p_values) → In (id, p) entries)
      → reported (corrected alpha p_values entries) ≡ some (given_names p_values)
  unfolding corrected
  corrected-reported alpha p_values [] h = ap some (all_not_tested-names p_values)
  corrected-reported alpha p_values (entry ∷ entries) h =
      in_order-reported (nan_ids p_values)
        (result_map alpha [] (entry ∷ entries) (adjusted_values (entry ∷ entries))) p_values
        (All-of_In _ p_values (λ given m. elim (nan_ids-valid p_values (given.0) (given.1) m) [
          | inl bad ↦ inl bad
          | inr good ↦ inr (
              result_map-found alpha [] (entry ∷ entries) (adjusted_values (entry ∷ entries))
                (given.0) good.0 (length-adjusted_values (entry ∷ entries))
                (inr (h (given.0) good.0 good.1)))
        ]))

  -- The Benjamini-Hochberg correction finds a result for every p-value that it is given, valid or not: the
  -- look-up of a name never fails, and the results stand under the given names in the given order.
  pub benjamini_hochberg-reported :
      (alpha : F) (p_values : List (Text × PValue F))
      → reported (benjamini_hochberg alpha p_values) ≡ some (given_names p_values)
  unfolding benjamini_hochberg
  benjamini_hochberg-reported alpha p_values =
      corrected-reported alpha p_values (sort_by goes_before (valid p_values))
        (λ id p m. In-sort_by_intro goes_before (valid p_values) (id, p) m)
