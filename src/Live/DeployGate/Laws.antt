-- ===== src/Live/DeployGate/Laws.antt =====
-- Passing verdicts of the deployment gate, ez/live/deploy_gate.py.
use backtesting_framework.Common.{
  pos, negsuc, leb, ◌≡◌, inl, inr, sym, true, false, none, some, List, [], ◌∷◌, length, Float,
  arith, Bool-cases, ◌↔◌, zero_float, one_float, larger,
}
use backtesting_framework.Common.Text.{codes}
use backtesting_framework.Common.Sort.{In}
use backtesting_framework.Live.DeployGate.Concentration.{
  Entry, parse_json_field, compute_max_concentration, weights_of, numbers, largest_from, max_over,
  with_largest, is_zero_float,
}
use backtesting_framework.Live.DeployGate.Gate.{
  DeployGateConfig, Spec, Run, Decoder, evaluate, verdict_on, is_valid_freq, trades_of, metric_or,
  p_value_of, overfit_of,
}

-- The order of floats without NaN, as IEEE 754 has it.
pub record IsOrdered {F : Type 0} (o : Float F) : Type 0 where
  pub le_trans : (x y z : F) → o.le x y ≡ true → o.le y z ≡ true → o.le x z ≡ true
  pub lt_le : (x y : F) → o.lt x y ≡ true → o.le x y ≡ true
  pub not_lt_le : (x y : F) → o.lt x y ≡ false → o.le y x ≡ true
  pub zero_le_one : o.le (o.of_int (pos 0)) (o.of_int (pos 1)) ≡ true

module _ {F : Type 0} ⦃o : Float F⦄ where
  -- What the gate asks of a run and a specification.
  pub record IsDeployable (decoder : Decoder F) (config : DeployGateConfig F) (spec : Spec)
      (run : Run F) : Type 0 where
    pub sharpe :
        o.le config.min_sharpe (
          metric_or zero_float
            (codes "sharpe_ratio")
            (parse_json_field decoder.metrics run.metrics []))
        ≡ true
    pub drawdown :
        o.le
          (o.abs_float (
            metric_or
              (o.of_int (negsuc 0))
              (codes "max_drawdown")
              (parse_json_field decoder.metrics run.metrics [])))
          config.max_drawdown
        ≡ true
    pub trades :
        o.le config.min_trades
          (trades_of (parse_json_field decoder.metrics run.metrics []) run.trade_count)
        ≡ true
    pub significant :
        o.le (p_value_of (parse_json_field decoder.metrics run.wf_metrics [])) config.max_p_value
        ≡ true
    pub not_overfit :
        o.le
          (overfit_of (parse_json_field decoder.metrics run.wf_metrics []))
          config.max_overfitting_score
        ≡ true
    pub days :
        leb config.min_backtest_days (length (parse_json_field decoder.dates run.dates [])) ≡ true
    pub symbols : leb config.min_symbols (length spec.symbols) ≡ true
    pub concentration :
        o.le
          (compute_max_concentration (parse_json_field decoder.entries run.rebalance_weights []))
          config.max_concentration
        ≡ true
    pub walk_forward :
        config.require_wfo ≡ true
        → (o.lt (p_value_of (parse_json_field decoder.metrics run.wf_metrics [])) one_float ≡ true)
          × (o.lt (overfit_of (parse_json_field decoder.metrics run.wf_metrics [])) one_float
              ≡ true)
    pub freq : is_valid_freq spec.freq ≡ true

  -- A verdict passes exactly when the run is stored and it and the specification meet the ten
  -- conditions; the ninth, on the walk-forward scores, only where the configuration requires it.
  pub evaluate-IsDeployable :
      (decoder : Decoder F) (config : DeployGateConfig F) (spec : Spec) (run : Run F)
      → ((evaluate decoder config spec none).passed ≡ false)
        × (((evaluate decoder config spec (some run)).passed ≡ true)
            ↔ IsDeployable decoder config spec run)
  unfolding evaluate verdict_on
  evaluate-IsDeployable decoder config spec run = ground arith

module _ {F : Type 0} ⦃o : Float F⦄ (laws : IsOrdered o) where
  le_refl : (x : F) → o.le x x ≡ true
  le_refl x = elim (Bool-cases (o.lt x x)) [
    | inl e ↦ laws.lt_le x x e
    | inr e ↦ laws.not_lt_le x x e
  ]

  larger_bounds : (a b : F) → (o.le a (larger a b) ≡ true) × (o.le b (larger a b) ≡ true)
  larger_bounds a b = elim (Bool-cases (o.lt a b)) [
    | inl e ↦ rw e (laws.lt_le a b e, le_refl b)
    | inr e ↦ rw e (le_refl a, laws.not_lt_le a b e)
  ]

  largest_from-start : (best : F) (ws : List F) → o.le best (largest_from best ws) ≡ true
  unfolding largest_from
  largest_from-start best [] = le_refl best
  largest_from-start best (w ∷ ws) =
      laws.le_trans best (larger best w) (largest_from (larger best w) ws) (larger_bounds best w).0
        (largest_from-start (larger best w) ws)

  largest_from-In : (best x : F) (ws : List F) → In x ws → o.le x (largest_from best ws) ≡ true
  unfolding largest_from
  largest_from-In best x [] i = absurd i
  largest_from-In best x (w ∷ ws) (inl e) =
      laws.le_trans x (larger best w) (largest_from (larger best w) ws)
        (rw (sym e) (larger_bounds best w).1) (largest_from-start (larger best w) ws)
  largest_from-In best x (w ∷ ws) (inr i) = largest_from-In (larger best w) x ws i

  with_largest-start : (best : F) (ws : List F) → o.le best (with_largest best ws) ≡ true
  with_largest-start best [] = le_refl best
  with_largest-start best (w ∷ ws) = (larger_bounds best (largest_from w ws)).0

  with_largest-In : (best x : F) (ws : List F) → In x ws → o.le x (with_largest best ws) ≡ true
  with_largest-In best x [] i = absurd i
  with_largest-In best x (w ∷ ws) (inl e) =
      laws.le_trans x (largest_from w ws) (larger best (largest_from w ws))
        (rw (sym e) (largest_from-start w ws)) (larger_bounds best (largest_from w ws)).1
  with_largest-In best x (w ∷ ws) (inr i) =
      laws.le_trans x (largest_from w ws) (larger best (largest_from w ws))
        (largest_from-In w x ws i) (larger_bounds best (largest_from w ws)).1

  max_over-start : (best : F) (entries : List (Entry F)) → o.le best (max_over best entries) ≡ true
  unfolding max_over
  max_over-start best [] = le_refl best
  max_over-start best (entry ∷ entries) =
      laws.le_trans best (with_largest best (numbers (weights_of entry)))
        (max_over (with_largest best (numbers (weights_of entry))) entries)
        (with_largest-start best (numbers (weights_of entry)))
        (max_over-start (with_largest best (numbers (weights_of entry))) entries)

  max_over-In :
      (best x : F) (entry : Entry F) (entries : List (Entry F))
      → In entry entries
      → In x (numbers (weights_of entry))
      → o.le x (max_over best entries) ≡ true
  unfolding max_over
  max_over-In best x entry [] i j = absurd i
  max_over-In best x entry (e ∷ entries) (inl same) j =
      laws.le_trans x (with_largest best (numbers (weights_of e)))
        (max_over (with_largest best (numbers (weights_of e))) entries)
        (with_largest-In best x (numbers (weights_of e)) (rw same j))
        (max_over-start (with_largest best (numbers (weights_of e))) entries)
  max_over-In best x entry (e ∷ entries) (inr i) j =
      max_over-In (with_largest best (numbers (weights_of e))) x entry entries i j

  concentration-In :
      (x : F) (entry : Entry F) (entries : List (Entry F))
      → In entry entries
      → In x (numbers (weights_of entry))
      → o.le x (compute_max_concentration entries) ≡ true
  unfolding compute_max_concentration
  concentration-In x entry [] i j = absurd i
  concentration-In x entry (e ∷ entries) i j =
      let below = max_over-In zero_float x entry (e ∷ entries) i j in
      elim (Bool-cases (is_zero_float (max_over zero_float (e ∷ entries)))) [
        | inl z ↦
            let nothing : o.le (max_over zero_float (e ∷ entries)) zero_float ≡ true =
              ground arith in
            rw (z, compute_max_concentration)
              (laws.le_trans x zero_float one_float
                (laws.le_trans x (max_over zero_float (e ∷ entries)) zero_float below nothing)
                laws.zero_le_one)
        | inr z ↦ rw (z, compute_max_concentration) below
      ]

  -- With floats that are ordered, no numeric weight of any rebalance entry of a run that passes exceeds
  -- the configured concentration.
  pub passed_concentration :
      (decoder : Decoder F) (config : DeployGateConfig F) (spec : Spec) (run : Run F)
      (entry : Entry F) (x : F)
      → (evaluate decoder config spec (some run)).passed ≡ true
      → In entry (parse_json_field decoder.entries run.rebalance_weights [])
      → In x (numbers (weights_of entry))
      → o.le x config.max_concentration ≡ true
  passed_concentration decoder config spec run entry x passed i j =
      let entries = parse_json_field decoder.entries run.rebalance_weights [] in
      laws.le_trans x (compute_max_concentration entries) config.max_concentration
        (concentration-In x entry entries i j)
        ((evaluate-IsDeployable decoder config spec run).1.0 passed).concentration
