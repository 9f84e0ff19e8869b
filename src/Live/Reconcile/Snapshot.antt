-- ===== src/Live/Reconcile/Snapshot.antt =====
-- `reconcile_broker_snapshot` and `reconcile_broker_positions` of ez/live/qmt/reconcile.py. Times and messages
-- are left out, and of a position what no comparison reads.
use backtesting_framework.Common.{
  ℕ, ℤ, abs, ◌-ℤ◌, leb, Bool, true, false, not, ◌&&◌, ◌||◌, List, [], ◌∷◌, if◌then◌else◌, Float,
  zero_float, larger,
}
use backtesting_framework.Common.Text.{Text, text_eq, text_or, strip, is_empty, codes}
use backtesting_framework.Common.Dict.{Dict, get_or, put, keys}
use backtesting_framework.Portfolio.Execution.Legs.{sorted_union}
use backtesting_framework.Portfolio.Execution.Trades.{shares_of}

-- `PositionDrift`
pub record PositionDrift (F : Type 0) : Type 0 where
  pub symbol : Text
  pub local_shares : ℤ
  pub broker_shares : ℤ
  pub share_delta : ℤ
  pub notional_delta : F

-- `BrokerReconciliationResult`
pub record BrokerReconciliationResult (F : Type 0) : Type 0 where
  pub broker_type : Text
  pub status : Text
  pub cash_delta : F
  pub total_asset_delta : F
  pub max_notional_drift : F
  pub position_drifts : List (PositionDrift F)

-- `BrokerAccountSnapshot`, as far as it is compared.
pub record BrokerAccountSnapshot (F : Type 0) : Type 0 where
  pub broker_type : Text
  pub cash : F
  pub positions : Dict Text ℤ

-- An entry of `broker_positions`.
pub record BrokerPosition : Type 0 where
  pub broker_type : Text
  pub symbol : Text
  pub stock_code : Text
  pub volume : ℤ

pub record Tolerances (F : Type 0) : Type 0 where
  pub cash_tolerance : F
  pub notional_tolerance : F
  pub share_tolerance : ℕ

-- `_broker_type_from_positions`
unfoldable pub broker_type_from_positions : List BrokerPosition → Text → Text
broker_type_from_positions [] fallback = fallback
broker_type_from_positions (position ∷ positions) fallback =
    let rest = broker_type_from_positions positions fallback in
    if is_empty (strip position.broker_type) then rest else strip position.broker_type

-- `broker_by_symbol`, with the volumes alone.
unfoldable pub volumes_from : Dict Text ℤ → List BrokerPosition → Dict Text ℤ
volumes_from volumes [] = volumes
volumes_from volumes (position ∷ positions) =
    let symbol = strip (text_or position.symbol position.stock_code) in
    volumes_from (if is_empty symbol then volumes else put symbol position.volume volumes) positions

-- `share_delta`
abbrev pub share_delta_of : Dict Text ℤ → Dict Text ℤ → Text → ℤ
share_delta_of local_holdings broker_shares symbol =
    shares_of symbol broker_shares -ℤ shares_of symbol local_holdings

abbrev pub symbols_of : Dict Text ℤ → Dict Text ℤ → List Text
symbols_of local_holdings broker_shares = sorted_union (keys local_holdings) (keys broker_shares)

abbrev pub status_with : Bool → Text
status_with drifted = if drifted then codes "drift" else codes "ok"

abbrev pub is_some_drift : {F : Type 0} → List (PositionDrift F) → Bool
is_some_drift [] = false
is_some_drift (drift ∷ drifts) = true

module _ {F : Type 0} ⦃o : Float F⦄ where
  abbrev pub drift_at : Dict Text ℤ → Dict Text ℤ → (Text → F) → Text → PositionDrift F
  drift_at local_holdings broker_shares notional symbol = record {
    symbol = symbol;
    local_shares = shares_of symbol local_holdings;
    broker_shares = shares_of symbol broker_shares;
    share_delta = share_delta_of local_holdings broker_shares symbol;
    notional_delta = notional symbol;
  }

  -- The drifts of the symbols that a test does not let pass.
  unfoldable pub drifts_for :
      (Text → Bool) → Dict Text ℤ → Dict Text ℤ → (Text → F) → List Text → List (PositionDrift F)
  drifts_for within local_holdings broker_shares notional [] = []
  drifts_for within local_holdings broker_shares notional (symbol ∷ symbols) =
      let rest = drifts_for within local_holdings broker_shares notional symbols in
      if within symbol then rest else drift_at local_holdings broker_shares notional symbol ∷ rest

  abbrev pub price_in : Dict Text F → Text → F
  price_in prices symbol = get_or symbol zero_float prices

  abbrev pub notional_delta_of : Dict Text ℤ → Dict Text ℤ → Dict Text F → Text → F
  notional_delta_of local_holdings broker_shares prices symbol =
      o.mul (o.of_int (share_delta_of local_holdings broker_shares symbol)) (price_in prices symbol)

  -- Whether shares and notional are within their tolerances.
  abbrev pub is_within : Tolerances F → Dict Text ℤ → Dict Text ℤ → Dict Text F → Text → Bool
  is_within tolerances local_holdings broker_shares prices symbol =
      leb (abs (share_delta_of local_holdings broker_shares symbol)) tolerances.share_tolerance
      && not (
          o.lt tolerances.notional_tolerance
            (o.abs_float (notional_delta_of local_holdings broker_shares prices symbol)))

  unfoldable pub max_notional_from : F → (Text → F) → List Text → F
  max_notional_from acc notional [] = acc
  max_notional_from acc notional (symbol ∷ symbols) =
      max_notional_from (larger acc (o.abs_float (notional symbol))) notional symbols

  unfoldable pub position_value_from : F → Dict Text F → Dict Text ℤ → F
  position_value_from acc prices [] = acc
  position_value_from acc prices ((symbol, shares) ∷ positions) =
      position_value_from (o.add acc (o.mul (o.of_int shares) (price_in prices symbol))) prices
        positions

  -- `reconcile_broker_snapshot`
  unfoldable pub reconcile_broker_snapshot :
      Tolerances F
      → F
      → Dict Text ℤ
      → F
      → Dict Text F
      → BrokerAccountSnapshot F
      → BrokerReconciliationResult F
  unfolding drifts_for max_notional_from position_value_from
  reconcile_broker_snapshot tolerances local_cash local_holdings local_equity prices snapshot =
      let symbols = symbols_of local_holdings snapshot.positions in
      let notional = notional_delta_of local_holdings snapshot.positions prices in
      let cash_delta = o.sub snapshot.cash local_cash in
      let drifts =
        drifts_for (is_within tolerances local_holdings snapshot.positions prices) local_holdings
          snapshot.positions notional symbols in
      record {
        broker_type = snapshot.broker_type;
        status =
            status_with
              (o.lt tolerances.cash_tolerance (o.abs_float cash_delta) || is_some_drift drifts);
        cash_delta = cash_delta;
        total_asset_delta =
            o.sub (o.add snapshot.cash (position_value_from zero_float prices snapshot.positions))
              local_equity;
        max_notional_drift = max_notional_from zero_float notional symbols;
        position_drifts = drifts;
      }

  -- `reconcile_broker_positions`
  unfoldable pub reconcile_broker_positions :
      ℕ → Text → Dict Text ℤ → List BrokerPosition → BrokerReconciliationResult F
  unfolding drifts_for volumes_from broker_type_from_positions
  reconcile_broker_positions share_tolerance broker_type local_holdings broker_positions =
      let volumes = volumes_from [] broker_positions in
      let drifts =
        drifts_for
          (λ symbol. leb (abs (share_delta_of local_holdings volumes symbol)) share_tolerance)
          local_holdings volumes (λ _. zero_float) (symbols_of local_holdings volumes) in
      record {
        broker_type = broker_type_from_positions broker_positions broker_type;
        status = status_with (is_some_drift drifts);
        cash_delta = zero_float;
        total_asset_delta = zero_float;
        max_notional_drift = zero_float;
        position_drifts = drifts;
      }
