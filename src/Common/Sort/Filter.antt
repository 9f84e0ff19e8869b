-- ===== src/Common/Sort/Filter.antt =====
-- The entries of a list that pass a test, with lemmas on their order and keys.
use mathlib.Core.Path.{◌≡◌, refl, sym, ◌∙◌, ap}
use mathlib.Core.Logic.{inl, inr}
use mathlib.Core.Bool.{Bool, true}
use mathlib.Core.List.{List, [], ◌∷◌}
use backtesting_framework.Common.Tests.{if◌then◌else◌, Bool-cases}
use backtesting_framework.Common.Lists.{All}
use backtesting_framework.Common.Sort.{In, IsSorted}
use backtesting_framework.Common.Sort.Laws.{HasDistinctKeys}

module _ {A : Type 0} (p : A → Bool) where
  -- Python's `[x for x in xs if p(x)]`.
  unfoldable pub filter_by : List A → List A
  filter_by [] = []
  filter_by (x ∷ xs) = let rest = filter_by xs in if p x then x ∷ rest else rest

  pub In-filter_by : (xs : List A) (a : A) → In a (filter_by xs) → In a xs × (p a ≡ true)
  unfolding filter_by
  In-filter_by [] a m = absurd m
  In-filter_by (x ∷ xs) a m = elim (Bool-cases (p x)) [
    | inl kept ↦
        let split : In a (x ∷ filter_by xs) = rw kept at m in
        elim split [
          | inl e ↦ (inl e, ap p (sym e) ∙ kept)
          | inr n ↦ let (k, q) = In-filter_by xs a n in (inr k, q)
        ]
    | inr dropped ↦ let (n, q) = In-filter_by xs a (rw dropped at m) in (inr n, q)
  ]

  pub In-filter_by_intro : (xs : List A) (a : A) → In a xs → p a ≡ true → In a (filter_by xs)
  unfolding filter_by
  In-filter_by_intro [] a m q = m
  In-filter_by_intro (x ∷ xs) a (inl e) q = rw (e, q) (inl refl)
  In-filter_by_intro (x ∷ xs) a (inr m) q = elim (Bool-cases (p x)) [
    | inl kept ↦ rw kept (inr (In-filter_by_intro xs a m q))
    | inr dropped ↦ rw dropped (In-filter_by_intro xs a m q)
  ]

  All-filter_by {κ} : (P : A → Type κ) (xs : List A) → All P xs → All P (filter_by xs)
  unfolding filter_by
  All-filter_by P [] all = all
  All-filter_by P (x ∷ xs) all = elim (Bool-cases (p x)) [
    | inl kept ↦ rw kept (all.0, All-filter_by P xs all.1)
    | inr dropped ↦ rw dropped (All-filter_by P xs all.1)
  ]

  pub IsSorted-filter_by :
      (le : A → A → Bool) (xs : List A) → IsSorted le xs → IsSorted le (filter_by xs)
  unfolding filter_by
  IsSorted-filter_by le [] s = s
  IsSorted-filter_by le (x ∷ xs) s = elim (Bool-cases (p x)) [
    | inl kept ↦ rw kept (All-filter_by _ xs s.0, IsSorted-filter_by le xs s.1)
    | inr dropped ↦ rw dropped (IsSorted-filter_by le xs s.1)
  ]

  pub HasDistinctKeys-filter_by {κ} :
      {K : Type κ} (key : A → K) (xs : List A)
      → HasDistinctKeys key xs
      → HasDistinctKeys key (filter_by xs)
  unfolding filter_by
  HasDistinctKeys-filter_by key [] d = d
  HasDistinctKeys-filter_by key (x ∷ xs) d = elim (Bool-cases (p x)) [
    | inl kept ↦ rw kept (All-filter_by _ xs d.0, HasDistinctKeys-filter_by key xs d.1)
    | inr dropped ↦ rw dropped (HasDistinctKeys-filter_by key xs d.1)
  ]
