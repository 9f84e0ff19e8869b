-- ===== src/Common/Sort/Laws.antt =====
-- Lemmas on `sort_by` and on sorted lists whose entries have different keys.
use mathlib.Core.Path.{◌≡◌, refl, sym, ap, ap₂, ◌∙◌, subst}
use mathlib.Core.Logic.{◌≢◌, ◌⊎◌, inl, inr}
use mathlib.Core.Bool.{Bool, true}
use mathlib.Core.List.{List, [], ◌∷◌}
use native.Mathlib.Omega.{arith}
use backtesting_framework.Common.Tests.{Bool-cases}
use backtesting_framework.Common.Lists.{All}
use backtesting_framework.Common.Sort.{insert_by, sort_by, In, IsSorted}

module _ {κ} {A : Type 0} (P : A → Type κ) where
  pub All-In : (xs : List A) → All P xs → (a : A) → In a xs → P a
  All-In [] all a m = absurd m
  All-In (x ∷ xs) all a (inl e) = subst P e all.0
  All-In (x ∷ xs) all a (inr m) = All-In xs all.1 a m

  pub All-of_In : (xs : List A) → ((a : A) → In a xs → P a) → All P xs
  All-of_In [] h = tt
  All-of_In (x ∷ xs) h = (h x (inl refl), All-of_In xs (λ a m. h a (inr m)))

module _ {A : Type 0} (le : A → A → Bool) where
  In-insert_by : (x : A) (ys : List A) (a : A) → In a (insert_by le x ys) → (x ≡ a) ⊎ In a ys
  unfolding insert_by
  In-insert_by x [] a m = m
  In-insert_by x (y ∷ ys) a m = elim (Bool-cases (le x y)) [
    | inl below ↦ rw (below, insert_by) at m
    | inr above ↦ ground (arith, In-insert_by x ys a)
  ]

  In-insert_by_intro : (x : A) (ys : List A) (a : A) → (x ≡ a) ⊎ In a ys → In a (insert_by le x ys)
  unfolding insert_by
  In-insert_by_intro x [] a m = m
  In-insert_by_intro x (y ∷ ys) a m = elim (Bool-cases (le x y)) [
    | inl below ↦ rw below m
    | inr above ↦ ground (arith, In-insert_by_intro x ys a)
  ]

  pub In-sort_by : (xs : List A) (a : A) → In a (sort_by le xs) → In a xs
  unfolding sort_by
  In-sort_by [] a m = m
  In-sort_by (x ∷ xs) a m = elim (In-insert_by x (sort_by le xs) a m) [
    | inl e ↦ inl e
    | inr k ↦ inr (In-sort_by xs a k)
  ]

  pub In-sort_by_intro : (xs : List A) (a : A) → In a xs → In a (sort_by le xs)
  unfolding sort_by
  In-sort_by_intro [] a m = m
  In-sort_by_intro (x ∷ xs) a (inl e) = In-insert_by_intro x (sort_by le xs) a (inl e)
  In-sort_by_intro (x ∷ xs) a (inr m) =
      In-insert_by_intro x (sort_by le xs) a (inr (In-sort_by_intro xs a m))

  module _ (total : (a b : A) → (le a b ≡ true) ⊎ (le b a ≡ true))
      (trans : (a b c : A) → le a b ≡ true → le b c ≡ true → le a c ≡ true) where
    insert_by-IsSorted : (x : A) (ys : List A) → IsSorted le ys → IsSorted le (insert_by le x ys)
    unfolding insert_by
    insert_by-IsSorted x [] s = (tt, tt)
    insert_by-IsSorted x (y ∷ ys) s = elim (Bool-cases (le x y)) [
      | inl below ↦
          rw below
            ((below, All-of_In _ ys (λ a m. trans x y a below (All-In _ ys s.0 a m))), (s.0, s.1))
      | inr above ↦ rw above (
        All-of_In _ (insert_by le x ys) (λ a m. elim (In-insert_by x ys a m) [
          | inl e ↦ ground (arith, total x y)
          | inr k ↦ All-In _ ys s.0 a k
        ]),
        insert_by-IsSorted x ys s.1,
      )
    ]

    pub sort_by-IsSorted : (xs : List A) → IsSorted le (sort_by le xs)
    unfolding sort_by
    sort_by-IsSorted [] = tt
    sort_by-IsSorted (x ∷ xs) = insert_by-IsSorted x (sort_by le xs) (sort_by-IsSorted xs)

-- No two entries have the same key.
abbrev pub HasDistinctKeys {κ} : {A : Type 0} {K : Type κ} → (A → K) → List A → Type κ
HasDistinctKeys key [] = Unit
HasDistinctKeys key (x ∷ xs) = All (λ y. key x ≢ key y) xs × HasDistinctKeys key xs

module _ {κ} {A : Type 0} {K : Type κ} (le : A → A → Bool) (key : A → K)
    (antisymm : (a b : A) → le a b ≡ true → le b a ≡ true → key a ≡ key b) where
  same_head :
      (x y : A) (xs ys : List A)
      → IsSorted le (x ∷ xs)
      → IsSorted le (y ∷ ys)
      → HasDistinctKeys key (x ∷ xs)
      → In x (y ∷ ys)
      → In y (x ∷ xs)
      → x ≡ y
  same_head x y xs ys s t d (inl e) n = sym e
  same_head x y xs ys s t d (inr m) (inl e) = e
  same_head x y xs ys s t d (inr m) (inr n) =
      absurd (All-In _ xs d.0 y n (antisymm x y (All-In _ xs s.0 y n) (All-In _ ys t.0 x m)))

  -- What the head of one list is not is in the tail of the other.
  In-tail :
      (x y : A) (xs ys : List A)
      → x ≡ y
      → HasDistinctKeys key (x ∷ xs)
      → ((a : A) → In a (x ∷ xs) → In a (y ∷ ys))
      → (a : A) → In a xs
      → In a ys
  In-tail x y xs ys e d sub a m = elim (sub a (inr m)) [
    | inl f ↦ absurd (All-In _ xs d.0 a m (ap key (e ∙ f)))
    | inr k ↦ k
  ]

  -- Sorted lists with distinct keys and the same members are equal.
  pub IsSorted-unique :
      (xs ys : List A)
      → IsSorted le xs
      → IsSorted le ys
      → HasDistinctKeys key xs
      → HasDistinctKeys key ys
      → ((a : A) → In a xs → In a ys)
      → ((a : A) → In a ys → In a xs)
      → xs ≡ ys
  IsSorted-unique [] [] s t d c sub sup = refl
  IsSorted-unique [] (y ∷ ys) s t d c sub sup = absurd (sup y (inl refl))
  IsSorted-unique (x ∷ xs) [] s t d c sub sup = absurd (sub x (inl refl))
  IsSorted-unique (x ∷ xs) (y ∷ ys) s t d c sub sup =
      let e = same_head x y xs ys s t d (sub x (inl refl)) (sup y (inl refl)) in
      ap₂ ◌∷◌ e (
        IsSorted-unique xs ys s.1 t.1 d.1 c.1 (In-tail x y xs ys e d sub)
          (In-tail y x ys xs (sym e) c sup))
