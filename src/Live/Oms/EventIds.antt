-- ===== src/Live/Oms/EventIds.antt =====
-- The event ids of ez/live/oms.py: which of them differ.
use mathlib.Core.List.{append_assoc}
use backtesting_framework.Common.{
  ℕ, Bool, true, false, ◌≡◌, ◌≢◌, refl, sym, ap, ◌∙◌, inl, inr, List, [], ◌∷◌, ◌++◌, if◌then◌else◌,
  ◌==◌, nat_beq, contains, arith, Bool-cases, All,
}
use backtesting_framework.Common.Text.{Text, text_eq, text_beq, text_beq_iff, codes, starts_with}
use backtesting_framework.Live.Risk.Rules.{Order}
use backtesting_framework.Live.PaperBroker.Fills.{BrokerFillReport}
use backtesting_framework.Live.Oms.Emit.{Runtime, fill_event, is_unfinished}

pub text_beq-append : (p a b : Text) → text_beq (p ++ a) (p ++ b) ≡ text_beq a b
unfolding text_beq
text_beq-append [] a b = refl
text_beq-append (c ∷ p) a b = ground (arith, text_beq-append p a b)

pub starts_with-append : (p a : Text) → starts_with p (p ++ a) ≡ true
unfolding starts_with
starts_with-append [] a = refl
starts_with-append (c ∷ p) a = ground (arith, starts_with-append p a)

contradiction : true ≡ false → ⊥
contradiction h = cc

-- No id of a list is of the client order id.
abbrev pub IsForeign : Text → List Text → Type 0
IsForeign client_order_id ids = All (λ i. starts_with (client_order_id ++ codes ":") i ≡ false) ids

-- An id of the client order id is not in a list of foreign ids.
pub contains-IsForeign :
    (client_order_id rest : Text) (ids : List Text)
    → IsForeign client_order_id ids
    → contains ids (client_order_id ++ codes ":" ++ rest) ≡ false
contains-IsForeign c rest [] h = refl
contains-IsForeign c rest (i ∷ ids) h = elim (Bool-cases (i == (c ++ codes ":" ++ rest))) [
  | inl same ↦
      let own : starts_with (c ++ codes ":") i ≡ true =
        ap (starts_with (c ++ codes ":")) ((text_beq_iff i (c ++ codes ":" ++ rest)).0 same)
        ∙ starts_with-append (c ++ codes ":") rest in
      absurd (contradiction (sym own ∙ h.0))
  | inr other ↦ rw other (contains-IsForeign c rest ids h.1)
]

-- An id that begins like those of the first order is not of the second one.
abbrev pub IsApart : Text → Text → Type 0
IsApart first second =
    (rest : Text) → starts_with (second ++ codes ":") (first ++ codes ":" ++ rest) ≡ false

-- The client order ids of any two orders are apart.
abbrev pub AreApart : List Order → Type 0
AreApart [] = Unit
AreApart (order ∷ orders) =
    All
      (λ later.
        IsApart order.client_order_id later.client_order_id
        × IsApart later.client_order_id order.client_order_id)
      orders
    × AreApart orders

abbrev pub filled_value : Bool → Text
filled_value unfinished =
    if unfinished then codes "order_partially_filled" else codes "order_filled"

different_values :
    (a b : Bool) (i j : Text)
    → text_beq i j ≡ false
    → text_beq (filled_value a ++ codes ":" ++ i) (filled_value b ++ codes ":" ++ j) ≡ false
unfolding text_beq
different_values true true i j h = text_beq-append (codes "order_partially_filled:") i j ∙ h
different_values false false i j h = text_beq-append (codes "order_filled:") i j ∙ h
different_values true false i j h = refl
different_values false true i j h = refl

sliced_apart :
    (c v i : Text) → c ++ codes ":" ++ v ++ codes ":" ++ i ≡ c ++ codes ":" ++ (v ++ codes ":" ++ i)
sliced_apart c v i =
    append_assoc (c ++ codes ":" ++ v) (codes ":") i
    ∙ append_assoc (c ++ codes ":") v (codes ":" ++ i)
    ∙ ap (λ t. c ++ codes ":" ++ t) (sym (append_assoc v (codes ":") i))

module _ {F : Type 0} where
  -- If an order has several fills, they have different slice numbers.
  abbrev pub AreSliced : List (BrokerFillReport F) → Type 0
  AreSliced [] = Unit
  AreSliced (child ∷ children) =
      All
        (λ later.
          (nat_beq child.total_slices 1 ≡ false)
          × (nat_beq later.total_slices 1 ≡ false)
          × (child.slice_index ≢ later.slice_index))
        children
      × AreSliced children

  -- What follows the client order id in the event id of a fill.
  abbrev pub fill_suffix : Runtime → BrokerFillReport F → Text
  fill_suffix runtime child =
      if nat_beq child.total_slices 1
      then filled_value (is_unfinished child)
      else filled_value (is_unfinished child) ++ codes ":" ++ runtime.str child.slice_index

  pub event_id-fill_event :
      (runtime : Runtime) (order : Order) (child : BrokerFillReport F)
      → (fill_event runtime order child).event_id
        ≡ order.client_order_id ++ codes ":" ++ fill_suffix runtime child
  unfolding fill_event
  event_id-fill_event runtime order child = elim (Bool-cases (is_unfinished child)) [
    | inl e ↦ elim (Bool-cases (nat_beq child.total_slices 1)) [
      | inl whole ↦ rw (e, whole) refl
      | inr sliced ↦
          rw (e, sliced)
            (sliced_apart order.client_order_id (codes "order_partially_filled")
              (runtime.str child.slice_index))
    ]
    | inr e ↦ elim (Bool-cases (nat_beq child.total_slices 1)) [
      | inl whole ↦ rw (e, whole) refl
      | inr sliced ↦
          rw (e, sliced)
            (sliced_apart order.client_order_id (codes "order_filled")
              (runtime.str child.slice_index))
    ]
  ]

  pub is_submission :
      (runtime : Runtime) (child : BrokerFillReport F)
      → text_beq (codes "order_submitted") (fill_suffix runtime child) ≡ false
  unfolding text_beq
  is_submission runtime child = elim (Bool-cases (is_unfinished child)) [
    | inl e ↦ elim (Bool-cases (nat_beq child.total_slices 1)) [
      | inl f ↦ rw (e, f) refl
      | inr f ↦ rw (e, f) refl
    ]
    | inr e ↦ elim (Bool-cases (nat_beq child.total_slices 1)) [
      | inl f ↦ rw (e, f) refl
      | inr f ↦ rw (e, f) refl
    ]
  ]

  pub different_slices :
      (runtime : Runtime) (a b : BrokerFillReport F)
      → ((i j : ℕ) → runtime.str i ≡ runtime.str j → i ≡ j)
      → nat_beq a.total_slices 1 ≡ false
      → nat_beq b.total_slices 1 ≡ false
      → a.slice_index ≢ b.slice_index
      → text_beq (fill_suffix runtime a) (fill_suffix runtime b) ≡ false
  different_slices runtime a b injective h k differ =
      elim (Bool-cases (text_beq (runtime.str a.slice_index) (runtime.str b.slice_index))) [
        | inl same ↦ absurd (differ (injective _ _ ((text_beq_iff _ _).0 same)))
        | inr other ↦
            rw (h, k)
              (different_values (is_unfinished a) (is_unfinished b) (runtime.str a.slice_index)
                (runtime.str b.slice_index) other)
      ]
