-- ===== src/Portfolio/Execution/Legs.antt =====
-- One order of ez/portfolio/execution.py: its target, what blocks it, and its price and costs.
use backtesting_framework.Common.{
  ℕ, ℤ, pos, abs, scale_ℤ, ◌+ℤ◌, ◌-ℤ◌, ltb_ℤ, leb_ℤ, Bool, false, not, ◌&&◌, ◌||◌, Option, none,
  some, List, [], ◌∷◌, ◌++◌, if◌then◌else◌, contains, Float, zero_float, one_float, larger,
  is_positive,
}
use backtesting_framework.Common.Text.{Text, text_eq, text_le}
use backtesting_framework.Common.Dict.{Dict, get, put}
use backtesting_framework.Common.Sort.{sort_by}

pub record CostModel (F : Type 0) : Type 0 where
  pub buy_commission_rate : F
  pub sell_commission_rate : F
  pub min_commission : F
  pub stamp_tax_rate : F
  pub slippage_rate : F

-- `TradeResult`
pub record TradeResult (F : Type 0) : Type 0 where
  pub symbol : Text
  pub side : Text
  pub shares : ℤ
  pub price : F
  pub amount : F
  pub commission : F
  pub stamp_tax : F
  pub cost : F

-- The day's data and the rules that stay fixed.
pub record Market (F : Type 0) : Type 0 where
  pub prices : Dict Text F
  pub raw_close_today : Dict Text F
  pub prev_raw_close : Dict Text F
  pub has_bar_today : List Text
  pub cost_model : CostModel F
  pub lot_size : ℕ
  pub limit_pct : F
  pub t_plus_1 : Bool

-- The order that passes the guards: the new position, the shares and the money.
pub record Leg (F : Type 0) : Type 0 where
  pub target : ℤ
  pub delta : ℤ
  pub price : F
  pub amount : F
  pub commission : F
  pub stamp_tax : F
  pub total_cost : F

-- The keys of two dictionaries, in order and without repetitions.
unfoldable pub add_new : List Text → List Text → List Text
add_new seen [] = []
add_new seen (k ∷ ks) =
    let rest = add_new (if contains seen k then seen else k ∷ seen) ks in
    if contains seen k then rest else k ∷ rest

-- `sorted(a.keys() | b.keys())`
unfoldable pub sorted_union : List Text → List Text → List Text
unfolding add_new
sorted_union ks ls = sort_by text_le (add_new [] (ks ++ ls))

module _ {F : Type 0} ⦃o : Float F⦄ where
  -- `_lot_round`
  unfoldable pub lot_round : F → ℕ → ℤ
  lot_round shares lot_size = scale_ℤ (o.floor_div shares lot_size) lot_size

  -- `_compute_commission`
  unfoldable pub compute_commission : F → F → F → F
  compute_commission amount rate minimum =
      if is_positive (o.abs_float amount)
      then larger (o.mul (o.abs_float amount) rate) minimum
      else zero_float

  -- Weights to whole lots, for the symbols with a positive price.
  unfoldable pub add_target : Market F → F → Text × F → Dict Text ℤ → Dict Text ℤ
  unfolding lot_round
  add_target market equity (symbol, weight) targets = elim (get symbol market.prices) [
    | none ↦ targets
    | some price ↦
        if o.le price zero_float
        then targets
        else put symbol (lot_round (o.div (o.mul equity weight) price) market.lot_size) targets
  ]

  unfoldable pub targets_from : Market F → F → Dict Text F → Dict Text ℤ → Dict Text ℤ
  unfolding add_target
  targets_from market equity [] targets = targets
  targets_from market equity (entry ∷ weights) targets =
      targets_from market equity weights (add_target market equity entry targets)

  -- `target_shares`
  abbrev pub target_shares : Market F → F → Dict Text F → Dict Text ℤ
  target_shares market equity weights = targets_from market equity weights []

  -- A limit-up blocks a buy, a limit-down a sell; raw closes are compared, where both are known.
  abbrev pub change_of : F → F → F
  change_of raw prev = if is_positive prev then o.div (o.sub raw prev) prev else zero_float

  unfoldable pub crosses_limit : F → Option F → Option F → Bool → Bool → Bool
  crosses_limit limit_pct (some raw) (some prev) rising falling =
      (rising && o.le (o.sub limit_pct (o.literal 1 6)) (change_of raw prev))
      || (falling && o.le (change_of raw prev) (o.add (o.neg limit_pct) (o.literal 1 6)))
  crosses_limit limit_pct _ _ rising falling = false

  unfoldable pub is_limit_locked : Market F → Text → ℤ → Bool
  unfolding crosses_limit
  is_limit_locked market symbol delta =
      if is_positive market.limit_pct
      then crosses_limit market.limit_pct (get symbol market.raw_close_today)
          (get symbol market.prev_raw_close) (ltb_ℤ (pos 0) delta) (ltb_ℤ delta (pos 0))
      else false

  -- The guards of the loop, on a symbol with a price.
  unfoldable pub is_blocked : Market F → List Text → Text → ℤ → Bool
  unfolding is_limit_locked
  is_blocked market sold_today symbol delta =
      not (contains market.has_bar_today symbol)
      || (market.t_plus_1 && ltb_ℤ (pos 0) delta && contains sold_today symbol)
      || is_limit_locked market symbol delta

  abbrev pub absolute : ℤ → F
  absolute delta = o.of_int (pos (abs delta))

  -- A sale; its proceeds less its costs are always taken.
  unfoldable pub sell_leg : CostModel F → F → ℤ → ℤ → Leg F
  unfolding compute_commission
  sell_leg costs base_price target delta =
      let price = o.mul base_price (o.sub one_float costs.slippage_rate) in
      let amount = o.mul (absolute delta) price in
      let commission = compute_commission amount costs.sell_commission_rate costs.min_commission in
      let stamp_tax = o.mul amount costs.stamp_tax_rate in
      record {
        target = target;
        delta = delta;
        price = price;
        amount = amount;
        commission = commission;
        stamp_tax = stamp_tax;
        total_cost = o.add commission stamp_tax;
      }

  -- A purchase as it is wanted.
  unfoldable pub wanted_leg : CostModel F → F → ℤ → ℤ → Leg F
  unfolding compute_commission
  wanted_leg costs price target delta =
      let amount = o.mul (absolute delta) price in
      let commission = compute_commission amount costs.buy_commission_rate costs.min_commission in
      record {
        target = target;
        delta = delta;
        price = price;
        amount = amount;
        commission = commission;
        stamp_tax = zero_float;
        total_cost = o.add commission zero_float;
      }

  -- The number of shares that the cash pays for.
  unfoldable pub affordable_shares : CostModel F → F → F → F
  affordable_shares costs price cash =
      if is_positive price
      then o.div (o.sub cash (larger costs.min_commission zero_float))
          (o.mul price (o.add one_float costs.buy_commission_rate))
      else zero_float

  -- A purchase cut down to what the cash pays for, in whole lots.
  unfoldable pub cut_leg : CostModel F → ℕ → F → F → ℤ → Option (Leg F)
  unfolding compute_commission lot_round
  cut_leg costs lot_size price affordable current =
      let target = current +ℤ lot_round affordable lot_size in
      let delta = target -ℤ current in
      let amount = o.mul (o.of_int delta) price in
      let commission = compute_commission amount costs.buy_commission_rate costs.min_commission in
      if o.le affordable zero_float
      then none
      else if leb_ℤ delta (pos 0)
      then none
      else some (record {
        target = target;
        delta = delta;
        price = price;
        amount = amount;
        commission = commission;
        stamp_tax = zero_float;
        total_cost = commission;
      })

  abbrev pub total_buy : Leg F → F
  total_buy leg = o.add leg.amount leg.total_cost

  -- `EPS_FUND`
  abbrev pub eps_fund : F
  eps_fund = o.literal 1 2

  abbrev pub within_cash : F → Option (Leg F) → Option (Leg F)
  within_cash cash none = none
  within_cash cash (some leg) =
      if o.lt (o.add cash eps_fund) (total_buy leg) then none else some leg

  -- A purchase: cut down if the cash does not pay for it, then guarded once more.
  unfoldable pub buy_leg : CostModel F → ℕ → F → ℤ → ℤ → F → Option (Leg F)
  unfolding wanted_leg cut_leg affordable_shares
  buy_leg costs lot_size base_price current target cash =
      let price = o.mul base_price (o.add one_float costs.slippage_rate) in
      let wanted = wanted_leg costs price target (target -ℤ current) in
      within_cash cash (
        if o.lt cash (total_buy wanted)
        then cut_leg costs lot_size price (affordable_shares costs price cash) current
        else some wanted)
