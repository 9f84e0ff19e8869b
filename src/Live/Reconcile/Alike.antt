-- ===== src/Live/Reconcile/Alike.antt =====
-- Open rows of ez/live/qmt/reconcile.py that are alike on both sides.
use backtesting_framework.Common.{
  Bool, true, false, not, ◌&&◌, ◌≡◌, ◌↔◌, inl, inr, refl, sym, ap, ◌∙◌, List, [], ◌∷◌,
  if◌then◌else◌, contains, arith, Bool-cases, ◌==◌, ==_eq, ==_refl,
}
use backtesting_framework.Common.Text.{Text, text_eq, text_le, codes}
use backtesting_framework.Common.Dict.{Dict, member, keys}
use backtesting_framework.Common.Sort.{sort_by}
use backtesting_framework.Common.Sort.Filter.{filter_by}
use backtesting_framework.Live.Reconcile.Agreement.{contains-sort_by, or_right}
use backtesting_framework.Live.Reconcile.Orders.{
  OpenRow, is_nil, differs, missing_keys, drifting_keys, compare_rows,
}

and_false : (b : Bool) → b && false ≡ false
and_false b = ground arith

contains-filter_by :
    (p : Text → Bool) (xs : List Text) (x : Text)
    → contains (filter_by p xs) x ≡ contains xs x && p x
unfolding filter_by
contains-filter_by p [] x = refl
contains-filter_by p (y ∷ xs) x = elim (Bool-cases (y == x)) [
  | inl same ↦
      let alike : p y ≡ p x = ap p (==_eq y x same) in
      elim (Bool-cases (p x)) [
        | inl e ↦ rw (alike ∙ e, same, e) refl
        | inr e ↦ rw (alike ∙ e, same, contains-filter_by p xs x, e) (and_false (contains xs x))
      ]
  | inr other ↦ elim (Bool-cases (p y)) [
    | inl e ↦ rw (e, other, contains-filter_by p xs x) refl
    | inr e ↦ rw (e, other, contains-filter_by p xs x) refl
  ]
]

-- A list of keys has none that passes a test.
none_passes :
    (p : Text → Bool) (xs : List Text)
    → (is_nil (filter_by p xs) ≡ true) ↔ ((x : Text) → contains xs x ≡ true → p x ≡ false)
unfolding filter_by
none_passes p [] = ((λ h x m. absurd (cc)), λ h. refl)
none_passes p (y ∷ xs) = (
  (λ h x m. elim (Bool-cases (p y)) [
    | inl e ↦ absurd (let no : false ≡ true = rw e at h in cc)
    | inr e ↦ elim (Bool-cases (y == x)) [
      | inl same ↦ ap p (sym (==_eq y x same)) ∙ e
      | inr other ↦ (none_passes p xs).0 (rw e at h) x (rw other at m)
    ]
  ]),
  (λ h.
      (let first = h y (rw (==_refl y) refl) in
        rw first ((none_passes p xs).1 (λ x m. h x (or_right (y == x) (contains xs x) m))))),
)

three_nil :
    (a b c : Bool)
    → ((if a && b && c then codes "ok" else codes "drift") ≡ codes "ok")
      ↔ ((a ≡ true) × (b ≡ true) × (c ≡ true))
three_nil a b c = ground arith

negated : (b : Bool) → (not b ≡ false) ↔ (b ≡ true)
negated b = ground arith

and_parts : (a b : Bool) → (a && b ≡ true) ↔ ((a ≡ true) × (b ≡ true))
and_parts a b = ground arith

-- Both sides have the same keys, and on none of them do the comparable statuses differ.
pub record AreAlike (local broker : Dict Text OpenRow) : Type 0 where
  pub tracked : (key : Text) → contains (keys broker) key ≡ true → member key local ≡ true
  pub opened : (key : Text) → contains (keys local) key ≡ true → member key broker ≡ true
  pub same_status :
      (key : Text)
      → contains (keys local) key ≡ true
      → member key broker ≡ true
      → differs local broker key ≡ false

pub compare_rows_ok :
    (local broker : Dict Text OpenRow)
    → ((compare_rows local broker).status ≡ codes "ok") ↔ AreAlike local broker
unfolding compare_rows
compare_rows_ok local broker =
    let missing_local = none_passes (λ key. not (member key local)) (keys broker) in
    let missing_broker = none_passes (λ key. not (member key broker)) (keys local) in
    let common = filter_by (λ key. member key broker) (keys local) in
    let drifting = none_passes (differs local broker) (sort_by text_le common) in
    let listed : (key : Text)
        → contains (sort_by text_le common) key ≡ contains (keys local) key && member key broker =
      λ key.
        contains-sort_by common key ∙ contains-filter_by (λ k. member k broker) (keys local) key in
    let parts =
      three_nil (is_nil (missing_keys broker local)) (is_nil (missing_keys local broker))
        (is_nil (drifting_keys local broker)) in
    (
      (λ ok.
          let (a, b, c) = parts.0 ok in
          record {
            tracked = λ key m. (negated (member key local)).0 (missing_local.0 a key m);
            opened = λ key m. (negated (member key broker)).0 (missing_broker.0 b key m);
            same_status = λ key m n.
                drifting.0 c key (
                  listed key
                  ∙ (and_parts (contains (keys local) key) (member key broker)).1 (m, n));
          }),
      (λ alike. parts.1 (
        missing_local.1 (λ key m. (negated (member key local)).1 (alike.tracked key m)),
        missing_broker.1 (λ key m. (negated (member key broker)).1 (alike.opened key m)),
        drifting.1 (λ key m.
            let (l, r) =
              (and_parts (contains (keys local) key) (member key broker)).0
                (sym (listed key) ∙ m) in
            alike.same_status key l r),
      )),
    )
