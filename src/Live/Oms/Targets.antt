-- ===== src/Live/Oms/Targets.antt =====
-- What the orders of `_build_desired_orders`, ez/live/oms.py, add up to.
use mathlib.Core.Path.{ap₂}
use backtesting_framework.Common.{
  ℕ, ℤ, pos, ◌+ℤ◌, ◌-ℤ◌, ◌≡◌, refl, sym, ap, ◌∙◌, Bool, true, false, ◌||◌, arith, List, [], ◌∷◌,
  ◌++◌, if◌then◌else◌, ◌==◌, Float, contains, Bool-cases, inl, inr, ==_eq,
}
use backtesting_framework.Common.Text.{Text, text_eq, text_beq, text_le}
use backtesting_framework.Common.Dict.{Dict, get_or, keys}
use backtesting_framework.Common.Sort.{sort_by, insert_by}
use backtesting_framework.Live.Risk.Rules.{Order, order_delta}
use backtesting_framework.Live.Oms.Desired.{
  Rebalance, order_for, orders_for, desired_targets, build_desired_orders,
}
use backtesting_framework.Portfolio.Execution.Legs.{sorted_union, add_new}
use backtesting_framework.Portfolio.Execution.Trades.{is_zero_ℤ, shares_of}

-- The change of a symbol that a list of orders asks for.
abbrev pub asked : Text → List Order → ℤ
asked symbol [] = pos 0
asked symbol (order ∷ orders) =
    (if order.symbol == symbol then order_delta order else pos 0) +ℤ asked symbol orders

-- The same for a list of symbols, each of which asks for `gap`.
parts : ℤ → Text → List Text → ℤ
parts gap symbol [] = pos 0
parts gap symbol (s ∷ symbols) = (if s == symbol then gap else pos 0) +ℤ parts gap symbol symbols

add_swap : (a b c : ℤ) → a +ℤ (b +ℤ c) ≡ b +ℤ (a +ℤ c)
unfolding ◌+ℤ◌
add_swap a b c = ground arith

zero_add : (a : ℤ) → pos 0 +ℤ a ≡ a
unfolding ◌+ℤ◌
zero_add a = ground arith

add_zero : (a : ℤ) → a +ℤ pos 0 ≡ a
unfolding ◌+ℤ◌
add_zero a = ground arith

parts-insert_by :
    (gap : ℤ) (symbol s : Text) (symbols : List Text)
    → parts gap symbol (insert_by text_le s symbols) ≡ parts gap symbol (s ∷ symbols)
unfolding parts insert_by
parts-insert_by gap symbol s [] = refl
parts-insert_by gap symbol s (t ∷ symbols) = elim (Bool-cases (text_le s t)) [
  | inl below ↦ rw below refl
  | inr above ↦
      rw (above, parts-insert_by gap symbol s symbols)
        (add_swap (if t == symbol then gap else pos 0) (if s == symbol then gap else pos 0)
          (parts gap symbol symbols))
]

parts-sort_by :
    (gap : ℤ) (symbol : Text) (symbols : List Text)
    → parts gap symbol (sort_by text_le symbols) ≡ parts gap symbol symbols
unfolding parts sort_by
parts-sort_by gap symbol [] = refl
parts-sort_by gap symbol (s ∷ symbols) =
    parts-insert_by gap symbol s (sort_by text_le symbols)
    ∙ ap (λ rest. (if s == symbol then gap else pos 0) +ℤ rest) (parts-sort_by gap symbol symbols)

parts-add_new :
    (gap : ℤ) (symbol : Text) (seen symbols : List Text)
    → parts gap symbol (add_new seen symbols)
      ≡ (if contains seen symbol then pos 0 else if contains symbols symbol then gap else pos 0)
unfolding parts add_new
parts-add_new gap symbol seen [] = ground arith
parts-add_new gap symbol seen (s ∷ symbols) = elim (Bool-cases (contains seen s)) [
  | inl known ↦
      rw (known, parts-add_new gap symbol seen symbols)
        (elim (Bool-cases (s == symbol)) [
          | inl same ↦
              let met : contains seen symbol ≡ true = rw (← ==_eq s symbol same) known in
              rw (met) refl
          | inr other ↦ rw other refl
        ])
  | inr unknown ↦
      rw (unknown, parts-add_new gap symbol (s ∷ seen) symbols)
        (elim (Bool-cases (s == symbol)) [
          | inl same ↦
              let fresh : contains seen symbol ≡ false = rw (← ==_eq s symbol same) unknown in
              rw (same, fresh) (add_zero gap)
          | inr other ↦ rw other (
              zero_add (
                if contains seen symbol
                then pos 0
                else if contains symbols symbol
                then gap
                else pos 0))
        ])
]

pub contains-append :
    (xs ys : List Text) (x : Text) → contains (xs ++ ys) x ≡ contains xs x || contains ys x
contains-append [] ys x = refl
contains-append (y ∷ xs) ys x = ground (arith, contains-append xs ys x)

pub shares_of-absent :
    (symbol : Text) (holdings : Dict Text ℤ)
    → contains (keys holdings) symbol ≡ false
    → shares_of symbol holdings ≡ pos 0
unfolding get_or
shares_of-absent symbol [] h = refl
shares_of-absent symbol ((s, n) ∷ holdings) h = ground (arith, shares_of-absent symbol holdings)

order_delta-order_for :
    (rebalance : Rebalance) (symbol : Text) (delta : ℤ)
    → order_delta (order_for rebalance symbol delta) ≡ delta
unfolding order_delta text_beq ◌-ℤ◌
order_delta-order_for rebalance symbol delta = ground arith

no_gap : (t h : ℤ) → is_zero_ℤ (t -ℤ h) ≡ true → t -ℤ h ≡ pos 0
no_gap t h k = ground arith

-- The change that the orders ask for is the one of the symbol.
same_change :
    (holdings targets : Dict Text ℤ) (s symbol : Text)
    → (if s == symbol then shares_of s targets -ℤ shares_of s holdings else pos 0)
      ≡ (if s == symbol then shares_of symbol targets -ℤ shares_of symbol holdings else pos 0)
same_change holdings targets s symbol = elim (Bool-cases (s == symbol)) [
  | inl same ↦ rw (same, ==_eq s symbol same) refl
  | inr other ↦ rw other refl
]

if_zero : (b : Bool) (d : ℤ) → d ≡ pos 0 → (if b then d else pos 0) ≡ pos 0
if_zero true d h = h
if_zero false d h = refl

asked-orders_for :
    (rebalance : Rebalance) (holdings targets : Dict Text ℤ) (symbols : List Text) (symbol : Text)
    → asked symbol (orders_for rebalance holdings targets symbols)
      ≡ parts (shares_of symbol targets -ℤ shares_of symbol holdings) symbol symbols
unfolding orders_for parts
asked-orders_for rebalance holdings targets [] symbol = refl
asked-orders_for rebalance holdings targets (s ∷ symbols) symbol =
    let gap = shares_of symbol targets -ℤ shares_of symbol holdings in
    let delta = shares_of s targets -ℤ shares_of s holdings in
    let later = asked-orders_for rebalance holdings targets symbols symbol in
    let whole : (if s == symbol then delta else pos 0)
          +ℤ asked symbol (orders_for rebalance holdings targets symbols)
        ≡ (if s == symbol then gap else pos 0) +ℤ parts gap symbol symbols =
      ap₂ (λ a b. a +ℤ b) (same_change holdings targets s symbol) later in
    elim (Bool-cases (is_zero_ℤ delta)) [
      | inl still ↦
          let none_asked =
            if_zero (s == symbol) delta
              (no_gap (shares_of s targets) (shares_of s holdings) still) in
          rw still (
            sym (zero_add (asked symbol (orders_for rebalance holdings targets symbols)))
            ∙ ap (λ a. a +ℤ asked symbol (orders_for rebalance holdings targets symbols))
                (sym none_asked)
            ∙ whole)
      | inr moving ↦ rw moving (
          ap
            (λ a.
              (if s == symbol then a else pos 0)
              +ℤ asked symbol (orders_for rebalance holdings targets symbols))
            (order_delta-order_for rebalance s delta)
          ∙ whole)
    ]

reached :
    (h t : ℤ) (k : Bool)
    → (k ≡ false → (h ≡ pos 0) × (t ≡ pos 0))
    → h +ℤ (if k then t -ℤ h else pos 0) ≡ t
unfolding ◌+ℤ◌ ◌-ℤ◌
reached h t true k = ground arith
reached h t false k = let (a, b) = k refl in ground arith

module _ {F : Type 0} ⦃o : Float F⦄ where
  -- For every symbol, the holdings and the changes that the desired orders ask for add up to the target in
  -- whole lots, or to nothing where there is no target.
  pub asked-build_desired_orders :
      (rebalance : Rebalance) (target_weights : Dict Text F) (holdings : Dict Text ℤ) (equity : F)
      (prices : Dict Text F) (lot_size : ℕ) (symbol : Text)
      → shares_of symbol holdings
          +ℤ asked symbol
              (build_desired_orders rebalance target_weights holdings equity prices lot_size)
        ≡ shares_of symbol (desired_targets prices equity lot_size target_weights [])
  unfolding build_desired_orders sorted_union
  asked-build_desired_orders rebalance target_weights holdings equity prices lot_size symbol =
      let targets = desired_targets prices equity lot_size target_weights [] in
      let gap = shares_of symbol targets -ℤ shares_of symbol holdings in
      let symbols = keys holdings ++ keys targets in
      rw
        (
          asked-orders_for rebalance holdings targets (sort_by text_le (add_new [] symbols)) symbol,
          parts-sort_by gap symbol (add_new [] symbols),
          parts-add_new gap symbol [] symbols,
        )
        (reached (shares_of symbol holdings) (shares_of symbol targets) (contains symbols symbol)
          (λ absent.
            (let both : contains (keys holdings) symbol || contains (keys targets) symbol ≡ false =
                sym (contains-append (keys holdings) (keys targets) symbol) ∙ absent in
              (
                shares_of-absent symbol holdings (ground arith),
                shares_of-absent symbol targets (ground arith),
              ))))
