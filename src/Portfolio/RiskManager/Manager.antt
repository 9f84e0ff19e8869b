-- ===== src/Portfolio/RiskManager/Manager.antt =====
-- The state and the operations of ez/portfolio/risk_manager.py. Of an event only its kind is kept. The
-- symbols of a turnover, a Python set, are taken in the order in which they first appear.
use backtesting_framework.Common.{
  Bool, true, false, Option, none, some, List, [], ◌∷◌, ◌++◌, if◌then◌else◌, Float, zero_float,
  one_float, larger,
}
use backtesting_framework.Common.Text.{Text, text_eq}
use backtesting_framework.Common.Dict.{Dict, get_or, keys}
use backtesting_framework.Portfolio.Execution.Legs.{add_new}

pub record RiskConfig (F : Type 0) : Type 0 where
  pub max_drawdown_threshold : F
  pub drawdown_reduce_ratio : F
  pub drawdown_recovery_ratio : F
  pub max_turnover : F

-- What a manager remembers.
pub record Manager (F : Type 0) : Type 0 where
  pub peak_equity : F
  pub is_breached : Bool

pub data RiskEvent : Type 0 where
  breached recovered mixed : RiskEvent

-- The scale and the event of a daily check, with the manager after it.
pub record Check (F : Type 0) : Type 0 where
  pub manager : Manager F
  pub scale : F
  pub event : Option RiskEvent

module _ {F : Type 0} ⦃o : Float F⦄ where
  abbrev pub fresh : Manager F
  fresh = record { peak_equity = zero_float; is_breached = false }

  abbrev pub drawdown_from : F → F → F
  drawdown_from peak equity = o.div (o.sub peak equity) peak

  -- The state machine on a drawdown.
  unfoldable pub check_state : RiskConfig F → Bool → F → F → Check F
  check_state config false peak drawdown =
      if o.lt config.max_drawdown_threshold drawdown
      then record {
        manager = record { peak_equity = peak; is_breached = true };
        scale = config.drawdown_reduce_ratio;
        event = some RiskEvent.breached;
      }
      else record {
        manager = record { peak_equity = peak; is_breached = false };
        scale = one_float;
        event = none;
      }
  check_state config true peak drawdown =
      if o.lt drawdown config.drawdown_recovery_ratio
      then record {
        manager = record { peak_equity = peak; is_breached = false };
        scale = one_float;
        event = some RiskEvent.recovered;
      }
      else record {
        manager = record { peak_equity = peak; is_breached = true };
        scale = config.drawdown_reduce_ratio;
        event = none;
      }

  -- `check_drawdown`
  unfoldable pub check_drawdown : RiskConfig F → Manager F → F → Check F
  unfolding check_state
  check_drawdown config manager equity =
      let peak = larger manager.peak_equity equity in
      if o.le peak zero_float
      then record {
        manager = record manager { peak_equity = peak };
        scale = one_float;
        event = none;
      }
      else check_state config manager.is_breached peak (drawdown_from peak equity)

  unfoldable pub replay_curve : RiskConfig F → Manager F → List F → Manager F
  unfolding check_drawdown
  replay_curve config manager [] = manager
  replay_curve config manager (equity ∷ curve) =
      replay_curve config ((check_drawdown config manager equity).manager) curve

  -- `replay_equity`, which forgets what the manager knew.
  unfoldable pub replay_equity : RiskConfig F → Manager F → List F → Manager F
  unfolding replay_curve
  replay_equity config manager curve = replay_curve config fresh curve

  abbrev pub weight_in : Text → Dict Text F → F
  weight_in symbol weights = get_or symbol zero_float weights

  -- `sum(max(0, a.get(s, 0) - b.get(s, 0)) for s in symbols)`
  unfoldable pub gains_from : F → Dict Text F → Dict Text F → List Text → F
  gains_from acc a b [] = acc
  gains_from acc a b (symbol ∷ symbols) =
      gains_from (o.add acc (larger zero_float (o.sub (weight_in symbol a) (weight_in symbol b)))) a
        b symbols

  abbrev pub all_symbols : Dict Text F → Dict Text F → List Text
  all_symbols new_weights prev_weights = add_new [] (keys new_weights ++ keys prev_weights)

  unfoldable pub turnover : Dict Text F → Dict Text F → F
  unfolding gains_from
  turnover new_weights prev_weights =
      let symbols = all_symbols new_weights prev_weights in
      larger (gains_from zero_float new_weights prev_weights symbols)
        (gains_from zero_float prev_weights new_weights symbols)

  abbrev pub mixed_weight : F → Dict Text F → Dict Text F → Text → F
  mixed_weight alpha new_weights prev_weights symbol =
      o.add (o.mul alpha (weight_in symbol new_weights))
        (o.mul (o.sub one_float alpha) (weight_in symbol prev_weights))

  -- The mixed weights, less those that are next to nothing.
  unfoldable pub mixed_from : F → Dict Text F → Dict Text F → List Text → Dict Text F
  mixed_from alpha new_weights prev_weights [] = []
  mixed_from alpha new_weights prev_weights (symbol ∷ symbols) =
      let rest = mixed_from alpha new_weights prev_weights symbols in
      let weight = mixed_weight alpha new_weights prev_weights symbol in
      if o.lt (o.literal 1 10) weight then (symbol, weight) ∷ rest else rest

  unfoldable pub sum_weights : F → Dict Text F → F
  sum_weights acc [] = acc
  sum_weights acc ((symbol, weight) ∷ weights) = sum_weights (o.add acc weight) weights

  unfoldable pub scaled : F → Dict Text F → Dict Text F
  scaled total [] = []
  scaled total ((symbol, weight) ∷ weights) = (symbol, o.div weight total) ∷ scaled total weights

  unfoldable pub normalized : Dict Text F → Dict Text F
  unfolding sum_weights scaled
  normalized weights =
      let total = sum_weights zero_float weights in
      if o.lt (o.add one_float (o.literal 1 9)) total then scaled total weights else weights

  -- `check_turnover`
  unfoldable pub check_turnover :
      RiskConfig F → Dict Text F → Dict Text F → Dict Text F × Option RiskEvent
  unfolding turnover mixed_from normalized add_new
  check_turnover config new_weights prev_weights =
      let actual = turnover new_weights prev_weights in
      if o.le actual config.max_turnover then (new_weights, none) else (
        normalized (
            mixed_from (o.div config.max_turnover actual) new_weights prev_weights
              (all_symbols new_weights prev_weights)),
        some RiskEvent.mixed,
      )
