-- ===== src/Live/DeployGate/Gate.antt =====
-- `DeployGate.evaluate` of ez/live/deploy_gate.py. A reason keeps its rule and outcome; its value and
-- message are left out.
use backtesting_framework.Common.{
  ℕ, negsuc, leb, Bool, false, ◌&&◌, Option, none, some, List, [], ◌∷◌, ◌++◌, all, length, contains,
  if◌then◌else◌, Float, zero_float, one_float,
}
use backtesting_framework.Common.Text.{Text, text_eq, codes}
use backtesting_framework.Common.Dict.{Dict, get}
use backtesting_framework.Live.DeployGate.Concentration.{
  Field, or_default, parse_json_field, Entry, compute_max_concentration,
}

pub data GateRule : Type 0 where
  source_run_exists min_sharpe max_drawdown min_trades max_p_value max_overfitting_score : GateRule
  min_backtest_days min_symbols max_concentration require_wfo freq_valid : GateRule

-- `GateReason` of ez/agent/gates.py.
pub record GateReason : Type 0 where
  pub rule : GateRule
  pub passed : Bool

-- `GateVerdict` of ez/agent/gates.py.
pub record GateVerdict : Type 0 where
  pub passed : Bool
  pub reasons : List GateReason

pub record DeployGateConfig (F : Type 0) : Type 0 where
  pub min_sharpe : F
  pub max_drawdown : F
  pub min_trades : F
  pub max_p_value : F
  pub max_overfitting_score : F
  pub min_backtest_days : ℕ
  pub require_wfo : Bool
  pub min_symbols : ℕ
  pub max_concentration : F

-- The deployment specification, with the fields that are checked.
pub record Spec : Type 0 where
  pub symbols : List Text
  pub freq : Text

-- A stored run; `trade_count` is `run.get("trade_count", 0)`.
pub record Run (F : Type 0) : Type 0 where
  pub metrics : Field (Dict Text F)
  pub wf_metrics : Field (Dict Text F)
  pub dates : Field (List Text)
  pub rebalance_weights : Field (List (Entry F))
  pub trade_count : F

-- `json.loads` at the types of the four fields.
pub record Decoder (F : Type 0) : Type 0 where
  pub metrics : Text → Option (Dict Text F)
  pub dates : Text → Option (List Text)
  pub entries : Text → Option (List (Entry F))

abbrev pub reason : GateRule → Bool → GateReason
reason rule passed = record { rule = rule; passed = passed }

abbrev pub passes : GateReason → Bool
passes r = r.passed

unfoldable pub verdict_on : List GateReason → GateVerdict
verdict_on reasons = record { passed = all passes reasons; reasons = reasons }

unfoldable pub is_valid_freq : Text → Bool
is_valid_freq freq =
    contains (codes "daily" ∷ codes "weekly" ∷ codes "monthly" ∷ codes "quarterly" ∷ []) freq

module _ {F : Type 0} ⦃o : Float F⦄ where
  -- `metrics.get(key, fallback)`
  abbrev pub metric_or : F → Text → Dict Text F → F
  metric_or fallback key metrics = or_default fallback (get key metrics)

  abbrev pub trades_of : Dict Text F → F → F
  trades_of metrics stored =
      or_default (metric_or stored (codes "total_trades") metrics)
        (get (codes "trade_count") metrics)

  -- Phase 1, on the metrics of the run.
  abbrev pub research_reasons : DeployGateConfig F → Dict Text F → F → List GateReason
  research_reasons config metrics trade_count =
      reason min_sharpe
        (o.le config.min_sharpe (metric_or zero_float (codes "sharpe_ratio") metrics))
      ∷ reason max_drawdown (
          o.le (o.abs_float (metric_or (o.of_int (negsuc 0)) (codes "max_drawdown") metrics))
            config.max_drawdown)
      ∷ reason min_trades (o.le config.min_trades (trades_of metrics trade_count))
      ∷ []

  -- Phase 2, on the walk-forward metrics.
  abbrev pub p_value_of : Dict Text F → F
  p_value_of wf_metrics = metric_or one_float (codes "p_value") wf_metrics

  abbrev pub overfit_of : Dict Text F → F
  overfit_of wf_metrics = metric_or one_float (codes "overfitting_score") wf_metrics

  abbrev pub walk_forward_reasons : DeployGateConfig F → Dict Text F → List GateReason
  walk_forward_reasons config wf_metrics =
      reason max_p_value (o.le (p_value_of wf_metrics) config.max_p_value)
      ∷ reason max_overfitting_score (o.le (overfit_of wf_metrics) config.max_overfitting_score)
      ∷ []

  abbrev pub has_wfo : Dict Text F → Bool
  has_wfo wf_metrics =
      o.lt (p_value_of wf_metrics) one_float && o.lt (overfit_of wf_metrics) one_float

  -- Phase 3, on the specification, the dates and the rebalance weights.
  abbrev pub deploy_reasons :
      DeployGateConfig F → Spec → Dict Text F → List Text → List (Entry F) → List GateReason
  deploy_reasons config spec wf_metrics dates entries =
      (reason min_backtest_days (leb config.min_backtest_days (length dates))
        ∷ reason min_symbols (leb config.min_symbols (length spec.symbols))
        ∷ reason max_concentration
            (o.le (compute_max_concentration entries) config.max_concentration)
        ∷ [])
      ++ ((if config.require_wfo then reason require_wfo (has_wfo wf_metrics) ∷ [] else [])
          ++ (reason freq_valid (is_valid_freq spec.freq) ∷ []))

  abbrev pub run_reasons : Decoder F → DeployGateConfig F → Spec → Run F → List GateReason
  run_reasons decoder config spec run =
      let wf_metrics = parse_json_field decoder.metrics run.wf_metrics [] in
      research_reasons config (parse_json_field decoder.metrics run.metrics []) run.trade_count
      ++ (walk_forward_reasons config wf_metrics
          ++ deploy_reasons config spec wf_metrics (parse_json_field decoder.dates run.dates [])
              (parse_json_field decoder.entries run.rebalance_weights []))

  -- `DeployGate.evaluate`, on what `portfolio_store.get_run(source_run_id)` returns.
  unfoldable pub evaluate : Decoder F → DeployGateConfig F → Spec → Option (Run F) → GateVerdict
  unfolding verdict_on
  evaluate decoder config spec none = record {
    passed = false;
    reasons = reason source_run_exists false ∷ [];
  }
  evaluate decoder config spec (some run) = verdict_on (run_reasons decoder config spec run)
