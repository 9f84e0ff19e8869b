-- ===== src/Core/Matching/Session.antt =====
-- What the engine does to a `MarketRulesMatcher` of ez/core/market_rules.py over time.
use backtesting_framework.Common.{
  ℕ, ℤ, scale_ℤ, nat_beq, Bool, true, false, ◌||◌, ◌≡◌, refl, inl, inr, List, [], ◌∷◌, Float,
  zero_float, Bool-cases, arith, is_positive,
}
use backtesting_framework.Core.Matching.Matcher.{FillResult, no_fill, fill_buy}
use backtesting_framework.Core.Matching.MarketRules.{
  Rules, BarState, same_bar, on_bar, is_at_upper, whole_lots, refill, in_lots, buy_fill,
  mark_bought, rules_buy, rules_sell,
}
use backtesting_framework.Portfolio.Execution.Trades.{is_zero_ℤ}

-- A call of the matcher.
pub data Action (F : Type 0) : Type 0 where
  bar : ℤ → F → Action F
  buy : (price amount : F) → Action F
  sell : (price shares : F) → Action F

same_bar_refl : (b : ℤ) → same_bar b b ≡ true
same_bar_refl b = ground arith

module _ {F : Type 0} ⦃o : Float F⦄ where
  -- The calls one after the other, with a fill for each buy and sell.
  pub data Session (rules : Rules F)
      : BarState F → List (Action F) → List (FillResult F) → Type 0 where
    over : {state : BarState F} → Session rules state [] []
    opened :
        {state : BarState F} {actions : List (Action F)} {fills : List (FillResult F)} (index : ℤ)
        (prev_close : F)
        → Session rules (on_bar index prev_close state) actions fills
        → Session rules state (bar index prev_close ∷ actions) fills
    bought :
        {state : BarState F} {actions : List (Action F)} {fills : List (FillResult F)}
        (price amount : F)
        → Session rules ((rules_buy rules state price amount).1) actions fills
        → Session rules state
            (buy price amount ∷ actions)
            ((rules_buy rules state price amount).0 ∷ fills)
    sold :
        {state : BarState F} {actions : List (Action F)} {fills : List (FillResult F)}
        (price shares : F)
        → Session rules state actions fills
        → Session rules state
            (sell price shares ∷ actions)
            (rules_sell rules state price shares ∷ fills)

  -- After a filled buy no sell has a fill until the next bar.
  abbrev pub HoldsOvernight : Bool → List (Action F) → List (FillResult F) → Type 0
  HoldsOvernight held [] fills = Unit
  HoldsOvernight held (bar index prev_close ∷ actions) fills = HoldsOvernight false actions fills
  HoldsOvernight held (buy price amount ∷ actions) [] = ⊥
  HoldsOvernight held (buy price amount ∷ actions) (fill ∷ fills) =
      HoldsOvernight (held || is_positive fill.shares) actions fills
  HoldsOvernight held (sell price shares ∷ actions) [] = ⊥
  HoldsOvernight held (sell price shares ∷ actions) (fill ∷ fills) =
      (held ≡ true → fill ≡ no_fill price) × HoldsOvernight held actions fills

  rules_sell-same_bar :
      (rules : Rules F) (state : BarState F) (price shares : F)
      → rules.t_plus_1 ≡ true
      → same_bar state.buy_bar state.bar ≡ true
      → rules_sell rules state price shares ≡ no_fill price
  unfolding rules_sell
  rules_sell-same_bar rules state price shares h k =
      elim (Bool-cases (o.le shares zero_float || o.le price zero_float)) [
        | inl e ↦ rw e refl
        | inr e ↦ rw (e, h, k) refl
      ]

  bought_bar :
      (rules : Rules F) (state : BarState F) (price amount : F) (held : Bool)
      → (held ≡ true → same_bar state.buy_bar state.bar ≡ true)
      → held || is_positive ((rules_buy rules state price amount).0).shares ≡ true
      → same_bar
          ((rules_buy rules state price amount).1).buy_bar
          ((rules_buy rules state price amount).1).bar
        ≡ true
  unfolding rules_buy mark_bought
  bought_bar rules state price amount held h k =
      elim (Bool-cases (is_positive (buy_fill rules state price amount).shares)) [
        | inl e ↦ rw e (same_bar_refl state.bar)
        | inr e ↦ rw e (h (ground arith))
      ]

  Session-HoldsOvernight_from :
      (rules : Rules F) {state : BarState F} {actions : List (Action F)}
      {fills : List (FillResult F)} (held : Bool)
      → rules.t_plus_1 ≡ true
      → (held ≡ true → same_bar state.buy_bar state.bar ≡ true)
      → Session rules state actions fills
      → HoldsOvernight held actions fills
  Session-HoldsOvernight_from rules held t h over = tt
  Session-HoldsOvernight_from rules held t h (opened index prev_close rest) =
      Session-HoldsOvernight_from rules false t (λ no. absurd (cc)) rest
  Session-HoldsOvernight_from rules {state = state} held t h (bought price amount rest) =
      Session-HoldsOvernight_from rules
        (held || is_positive ((rules_buy rules state price amount).0).shares) t
        (bought_bar rules state price amount held h) rest
  Session-HoldsOvernight_from rules {state = state} held t h (sold price shares rest) = (
    (λ e. rules_sell-same_bar rules state price shares t (h e)),
    Session-HoldsOvernight_from rules held t h rest,
  )

  -- Under T+1, whatever the engine calls, no sell after a filled buy has a fill before the next bar.
  pub Session-HoldsOvernight :
      (rules : Rules F) (state : BarState F) (actions : List (Action F))
      (fills : List (FillResult F))
      → rules.t_plus_1 ≡ true
      → Session rules state actions fills
      → HoldsOvernight false actions fills
  Session-HoldsOvernight rules state actions fills t session =
      Session-HoldsOvernight_from rules false t (λ no. absurd (cc)) session

  -- A whole number of lots.
  abbrev pub IsWhole : ℕ → F → Type 0
  IsWhole lot_size shares = (n : ℤ) × (shares ≡ o.of_int (scale_ℤ n lot_size))

  -- What a fill with some shares shows of a buy.
  pub record IsBuyable (rules : Rules F) (state : BarState F) (price amount : F)
      (fill : FillResult F) : Type 0 where
    pub some_amount : o.le amount zero_float ≡ false
    pub some_price : o.le price zero_float ≡ false
    pub below_limit : is_at_upper rules state price ≡ false
    pub whole : nat_beq rules.lot_size 0 ≡ false → IsWhole rules.lot_size fill.shares

  in_lots-IsWhole :
      (rules : Rules F) (price : F) (fill : FillResult F)
      → o.lt zero_float zero_float ≡ false
      → ((shares : F)
          → o.lt (whole_lots rules.lot_size shares) shares ≡ false
          → shares ≡ whole_lots rules.lot_size shares)
      → is_positive (in_lots rules price fill).shares ≡ true
      → nat_beq rules.lot_size 0 ≡ false
      → IsWhole rules.lot_size (in_lots rules price fill).shares
  unfolding in_lots refill
  in_lots-IsWhole rules price fill law floor h lots =
      let n = o.floor_div fill.shares rules.lot_size in
      elim (Bool-cases (is_zero_ℤ n)) [
        | inl e ↦ absurd (let no : o.lt zero_float zero_float ≡ true = rw (lots, e) at h in cc)
        | inr e ↦ elim (Bool-cases (o.lt (whole_lots rules.lot_size fill.shares) fill.shares)) [
          | inl f ↦ rw (lots, e, f) (n, refl)
          | inr f ↦ rw (lots, e, f) (n, floor fill.shares f)
        ]
      ]

  -- If zero is not above zero, no number is both at most zero and above it, and rounding down to lots gives the number itself or a smaller one, a buy that is
  -- filled with some shares has an amount and a price that are positive, is below the upper price limit, and
  -- is of whole lots where there is a lot size.
  pub rules_buy-IsBuyable :
      (rules : Rules F) (state : BarState F) (price amount : F)
      → o.lt zero_float zero_float ≡ false
      → ((shares : F) → o.le shares zero_float ≡ true → is_positive shares ≡ false)
      → ((shares : F)
          → o.lt (whole_lots rules.lot_size shares) shares ≡ false
          → shares ≡ whole_lots rules.lot_size shares)
      → is_positive ((rules_buy rules state price amount).0).shares ≡ true
      → IsBuyable rules state price amount ((rules_buy rules state price amount).0)
  unfolding rules_buy buy_fill
  rules_buy-IsBuyable rules state price amount law apart floor h =
      let fill = fill_buy rules.inner price amount in
      elim (Bool-cases (o.le amount zero_float || o.le price zero_float)) [
        | inl e ↦ absurd (let no : o.lt zero_float zero_float ≡ true = rw e at h in cc)
        | inr e ↦ elim (Bool-cases (is_at_upper rules state price)) [
          | inl f ↦ absurd (let no : o.lt zero_float zero_float ≡ true = rw (e, f) at h in cc)
          | inr f ↦ elim (Bool-cases (o.le fill.shares zero_float)) [
            | inl g ↦
                let some_shares : is_positive fill.shares ≡ true = rw (e, f, g) at h in
                let none_filled = apart fill.shares g in absurd (cc)
            | inr g ↦
                let some_shares : is_positive (in_lots rules price fill).shares ≡ true =
                  rw (e, f, g) at h in
                record {
                  some_amount = ground arith;
                  some_price = ground arith;
                  below_limit = f;
                  whole = λ lots.
                      rw (e, f, g) (in_lots-IsWhole rules price fill law floor some_shares lots);
                }
          ]
        ]
      ]
