-- ===== src/Live/Oms/Symbols.antt =====
-- The client order ids of `_build_desired_orders`, ez/live/oms.py, one for each symbol, are apart.
use mathlib.Core.List.{append_assoc}
use mathlib.Core.Path.{ap₂}
use backtesting_framework.Common.{
  ℕ, ℤ, Bool, true, false, ◌||◌, nat_beq, ◌≡◌, refl, ap, ◌∙◌, inl, inr, List, [], ◌∷◌, ◌++◌,
  contains, All, arith, Bool-cases, ◌-ℤ◌, Float,
}
use backtesting_framework.Common.Text.{
  Text, text_eq, text_beq, text_beq_iff, text_le, codes, starts_with,
}
use backtesting_framework.Common.Dict.{Dict, keys}
use backtesting_framework.Common.Sort.{sort_by, insert_by}
use backtesting_framework.Live.Risk.Rules.{Order}
use backtesting_framework.Live.Reconcile.Agreement.{contains-insert_by, contains-sort_by}
use backtesting_framework.Live.Oms.Desired.{
  Rebalance, make_client_order_id, side_of, order_for, orders_for, desired_targets,
  build_desired_orders,
}
use backtesting_framework.Live.Oms.EventIds.{IsApart, AreApart}
use backtesting_framework.Portfolio.Execution.Legs.{sorted_union, add_new}
use backtesting_framework.Portfolio.Execution.Trades.{is_zero_ℤ, shares_of}

abbrev pub has_colon : Text → Bool
has_colon [] = false
has_colon (c ∷ text) = nat_beq c 58 || has_colon text

starts_with_both : (p a b : Text) → starts_with (p ++ a) (p ++ b) ≡ starts_with a b
unfolding starts_with
starts_with_both [] a b = refl
starts_with_both (c ∷ p) a b = ground (arith, starts_with_both p a b)

-- Texts up to a first colon.
different_starts :
    (s t a b : Text)
    → has_colon s ≡ false
    → has_colon t ≡ false
    → text_beq s t ≡ false
    → starts_with (t ++ 58 ∷ a) (s ++ 58 ∷ b) ≡ false
unfolding starts_with text_beq
different_starts [] [] a b h k differ = absurd (cc)
different_starts [] (d ∷ t) a b h k differ = ground (arith, h, k)
different_starts (c ∷ s) [] a b h k differ = ground (arith, h, k)
different_starts (c ∷ s) (d ∷ t) a b h k differ = ground (arith, different_starts s t a b)

id_start :
    (start u v : Text)
    → start ++ u ++ codes ":" ++ v ++ codes ":" ≡ start ++ (u ++ 58 ∷ (v ++ codes ":"))
id_start start u v =
    append_assoc (start ++ u ++ codes ":") v (codes ":")
    ∙ append_assoc (start ++ u) (codes ":") (v ++ codes ":")
    ∙ append_assoc start u (58 ∷ (v ++ codes ":"))

id_split :
    (start u v w : Text)
    → start ++ u ++ codes ":" ++ v ++ codes ":" ++ w ≡ start ++ (u ++ 58 ∷ (v ++ codes ":" ++ w))
id_split start u v w =
    ap (λ i. i ++ w) (id_start start u v)
    ∙ append_assoc start (u ++ 58 ∷ (v ++ codes ":")) w
    ∙ ap (λ i. start ++ i) (append_assoc u (58 ∷ (v ++ codes ":")) w)

make_client_order_id-IsApart :
    (rebalance : Rebalance) (s t side side' : Text)
    → has_colon s ≡ false
    → has_colon t ≡ false
    → text_beq s t ≡ false
    → IsApart (make_client_order_id rebalance s side) (make_client_order_id rebalance t side')
make_client_order_id-IsApart rebalance s t side side' h k differ rest =
    let start = rebalance.deployment_id ++ codes ":" ++ rebalance.business_date ++ codes ":" in
    ap₂ starts_with (id_start start t side') (id_split start s side rest)
    ∙ starts_with_both start (t ++ 58 ∷ (side' ++ codes ":"))
        (s ++ 58 ∷ (side ++ codes ":" ++ rest))
    ∙ different_starts s t (side' ++ codes ":") (side ++ codes ":" ++ rest) h k differ

-- No symbol stands twice.
abbrev AreDistinct : List Text → Type 0
AreDistinct [] = Unit
AreDistinct (s ∷ symbols) = (contains symbols s ≡ false) × AreDistinct symbols

AreDistinct-insert_by :
    (s : Text) (symbols : List Text)
    → contains symbols s ≡ false
    → AreDistinct symbols
    → AreDistinct (insert_by text_le s symbols)
unfolding insert_by
AreDistinct-insert_by s [] h d = (refl, tt)
AreDistinct-insert_by s (t ∷ symbols) h d = elim (Bool-cases (text_le s t)) [
  | inl below ↦ rw below (h, d)
  | inr above ↦ rw above (
    contains-insert_by s symbols t ∙ ground (arith, h, d.0, text_beq_iff s t, text_beq_iff t s),
    AreDistinct-insert_by s symbols (ground arith) d.1,
  )
]

AreDistinct-sort_by :
    (symbols : List Text) → AreDistinct symbols → AreDistinct (sort_by text_le symbols)
unfolding sort_by
AreDistinct-sort_by [] d = tt
AreDistinct-sort_by (s ∷ symbols) d =
    AreDistinct-insert_by s (sort_by text_le symbols) (contains-sort_by symbols s ∙ d.0)
      (AreDistinct-sort_by symbols d.1)

contains-add_new_seen :
    (seen symbols : List Text) (s : Text)
    → contains seen s ≡ true
    → contains (add_new seen symbols) s ≡ false
unfolding add_new
contains-add_new_seen seen [] s h = refl
contains-add_new_seen seen (t ∷ symbols) s h = elim (Bool-cases (contains seen t)) [
  | inl known ↦ rw known (contains-add_new_seen seen symbols s h)
  | inr unknown ↦ rw unknown (
      ground (
        arith,
        text_beq_iff t s,
        ap (contains seen),
        contains-add_new_seen (t ∷ seen) symbols s (ground arith),
      ))
]

AreDistinct-add_new : (seen symbols : List Text) → AreDistinct (add_new seen symbols)
unfolding add_new
AreDistinct-add_new seen [] = tt
AreDistinct-add_new seen (s ∷ symbols) = elim (Bool-cases (contains seen s)) [
  | inl known ↦ rw known (AreDistinct-add_new seen symbols)
  | inr unknown ↦ rw unknown (
    contains-add_new_seen (s ∷ seen) symbols s (ground (arith, text_beq_iff s s)),
    AreDistinct-add_new (s ∷ seen) symbols,
  )
]

AreDistinct-sorted_union : (xs ys : List Text) → AreDistinct (sorted_union xs ys)
unfolding sorted_union
AreDistinct-sorted_union xs ys =
    AreDistinct-sort_by (add_new [] (xs ++ ys)) (AreDistinct-add_new [] (xs ++ ys))

abbrev pub HaveNoColon : List Order → Type 0
HaveNoColon orders = All (λ order. has_colon order.symbol ≡ false) orders

-- The orders for other symbols are apart from one.
IsApart-orders_for :
    (rebalance : Rebalance) (holdings targets : Dict Text ℤ) (s : Text) (delta : ℤ)
    (symbols : List Text)
    → has_colon s ≡ false
    → HaveNoColon (orders_for rebalance holdings targets symbols)
    → contains symbols s ≡ false
    → All
        (λ later.
          IsApart (order_for rebalance s delta).client_order_id later.client_order_id
          × IsApart later.client_order_id (order_for rebalance s delta).client_order_id)
        (orders_for rebalance holdings targets symbols)
unfolding orders_for
IsApart-orders_for rebalance holdings targets s delta [] h all new = tt
IsApart-orders_for rebalance holdings targets s delta (t ∷ symbols) h all new =
    let gap = shares_of t targets -ℤ shares_of t holdings in
    elim (Bool-cases (is_zero_ℤ gap)) [
      | inl none_asked ↦ rw none_asked (
          IsApart-orders_for rebalance holdings targets s delta symbols h (rw none_asked at all)
            (ground (arith, new)))
      | inr asked ↦
          let all' : HaveNoColon
              (order_for rebalance t gap ∷ orders_for rebalance holdings targets symbols) =
            rw asked at all in
          let ts : text_beq t s ≡ false = ground (arith, new) in
          let st : text_beq s t ≡ false = ground (arith, ts, text_beq_iff s t, text_beq_iff t s) in
          rw asked (
            (
              make_client_order_id-IsApart rebalance s t (side_of delta) (side_of gap) h all'.0 st,
              make_client_order_id-IsApart rebalance t s (side_of gap) (side_of delta) all'.0 h ts,
            ),
            IsApart-orders_for rebalance holdings targets s delta symbols h all'.1
                (ground (arith, new)),
          )
    ]

orders_for-AreApart :
    (rebalance : Rebalance) (holdings targets : Dict Text ℤ) (symbols : List Text)
    → AreDistinct symbols
    → HaveNoColon (orders_for rebalance holdings targets symbols)
    → AreApart (orders_for rebalance holdings targets symbols)
unfolding orders_for
orders_for-AreApart rebalance holdings targets [] d all = tt
orders_for-AreApart rebalance holdings targets (s ∷ symbols) d all =
    let gap = shares_of s targets -ℤ shares_of s holdings in
    elim (Bool-cases (is_zero_ℤ gap)) [
      | inl none_asked ↦
          rw none_asked
            (orders_for-AreApart rebalance holdings targets symbols d.1 (rw none_asked at all))
      | inr asked ↦
          let all' : HaveNoColon
              (order_for rebalance s gap ∷ orders_for rebalance holdings targets symbols) =
            rw asked at all in
          rw asked (
            IsApart-orders_for rebalance holdings targets s gap symbols all'.0 all'.1 d.0,
            orders_for-AreApart rebalance holdings targets symbols d.1 all'.1,
          )
    ]

-- If no symbol has a colon, the client order ids of the wanted orders are apart.
pub build_desired_orders-AreApart :
    {F : Type 0} ⦃o : Float F⦄ (rebalance : Rebalance) (weights : Dict Text F)
    (holdings : Dict Text ℤ) (equity : F) (prices : Dict Text F) (lot_size : ℕ)
    → HaveNoColon (build_desired_orders rebalance weights holdings equity prices lot_size)
    → AreApart (build_desired_orders rebalance weights holdings equity prices lot_size)
unfolding build_desired_orders
build_desired_orders-AreApart rebalance weights holdings equity prices lot_size h =
    let targets = desired_targets prices equity lot_size weights [] in
    orders_for-AreApart rebalance holdings targets (sorted_union (keys holdings) (keys targets))
      (AreDistinct-sorted_union (keys holdings) (keys targets)) h
