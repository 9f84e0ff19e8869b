-- ===== src/Live/Reconcile/Agreement.antt =====
-- When the reconciliations of ez/live/qmt/reconcile.py find no drift.
use backtesting_framework.Common.{
  ℕ, ℤ, pos, abs, ◌-ℤ◌, leb, Bool, true, false, ◌||◌, ◌≡◌, ◌≤◌, ◌↔◌, inl, inr, refl, sym, ap, ◌∙◌,
  List, [], ◌∷◌, ◌++◌, Float, zero_float, contains, arith, Bool-cases, ◌==◌, ==_eq, ==_refl,
}
use backtesting_framework.Common.Text.{Text, text_eq, text_le, codes}
use backtesting_framework.Common.Dict.{Dict, keys, get_or}
use backtesting_framework.Common.Sort.{sort_by, insert_by}
use backtesting_framework.Portfolio.Execution.Legs.{sorted_union, add_new}
use backtesting_framework.Live.Oms.Targets.{contains-append, shares_of-absent}
use backtesting_framework.Portfolio.Execution.Trades.{shares_of}
use backtesting_framework.Live.Reconcile.Snapshot.{
  BrokerPosition, BrokerAccountSnapshot, PositionDrift, Tolerances, volumes_from, share_delta_of,
  symbols_of, status_with, is_some_drift, drifts_for, is_within, notional_delta_of,
  reconcile_broker_positions, reconcile_broker_snapshot,
}

pub contains-insert_by :
    (s : Text) (symbols : List Text) (symbol : Text)
    → contains (insert_by text_le s symbols) symbol ≡ (s == symbol) || contains symbols symbol
unfolding insert_by
contains-insert_by s [] symbol = refl
contains-insert_by s (t ∷ symbols) symbol = ground (arith, contains-insert_by s symbols symbol)

pub contains-sort_by :
    (symbols : List Text) (symbol : Text)
    → contains (sort_by text_le symbols) symbol ≡ contains symbols symbol
unfolding sort_by
contains-sort_by [] symbol = refl
contains-sort_by (s ∷ symbols) symbol =
    contains-insert_by s (sort_by text_le symbols) symbol
    ∙ ap (λ b. (s == symbol) || b) (contains-sort_by symbols symbol)

contains-add_new :
    (seen symbols : List Text) (symbol : Text)
    → contains seen symbol ≡ false
    → contains (add_new seen symbols) symbol ≡ contains symbols symbol
unfolding add_new
contains-add_new seen [] symbol h = refl
contains-add_new seen (s ∷ symbols) symbol h = elim (Bool-cases (contains seen s)) [
  | inl known ↦ elim (Bool-cases (s == symbol)) [
    | inl same ↦
        let met : contains seen symbol ≡ true = rw (← ==_eq s symbol same) known in absurd (cc)
    | inr other ↦ rw (known, other) (contains-add_new seen symbols symbol h)
  ]
  | inr unknown ↦ elim (Bool-cases (s == symbol)) [
    | inl same ↦ rw (unknown, same) refl
    | inr other ↦
        rw (unknown, other) (contains-add_new (s ∷ seen) symbols symbol (rw (other, h) refl))
  ]
]

contains-symbols_of :
    (local_holdings broker_shares : Dict Text ℤ) (symbol : Text)
    → contains (symbols_of local_holdings broker_shares) symbol
      ≡ contains (keys local_holdings) symbol || contains (keys broker_shares) symbol
unfolding sorted_union
contains-symbols_of local_holdings broker_shares symbol =
    let names = keys local_holdings ++ keys broker_shares in
    contains-sort_by (add_new [] names) symbol
    ∙ contains-add_new [] names symbol refl
    ∙ contains-append (keys local_holdings) (keys broker_shares) symbol

-- A symbol that neither side has does not differ.
share_delta_of-absent :
    (local_holdings broker_shares : Dict Text ℤ) (symbol : Text)
    → contains (symbols_of local_holdings broker_shares) symbol ≡ false
    → share_delta_of local_holdings broker_shares symbol ≡ pos 0
unfolding ◌-ℤ◌
share_delta_of-absent local_holdings broker_shares symbol h =
    let both = sym (contains-symbols_of local_holdings broker_shares symbol) ∙ h in
    let here = shares_of-absent symbol local_holdings (ground arith) in
    let there = shares_of-absent symbol broker_shares (ground arith) in rw (here, there) refl

status_with-ok : (drifted : Bool) → (status_with drifted ≡ codes "ok") ↔ (drifted ≡ false)
status_with-ok drifted = ground arith

pub or_right : (b c : Bool) → c ≡ true → b || c ≡ true
or_right b c h = ground arith

or_false : (b c : Bool) → (b || c ≡ false) ↔ ((b ≡ false) × (c ≡ false))
or_false b c = ground arith

module _ {F : Type 0} ⦃o : Float F⦄ where
  no_drift :
      (within : Text → Bool) (local_holdings broker_shares : Dict Text ℤ) (notional : Text → F)
      (symbols : List Text)
      → ((symbol : Text) → contains symbols symbol ≡ true → within symbol ≡ true)
      → is_some_drift (drifts_for within local_holdings broker_shares notional symbols) ≡ false
  unfolding drifts_for
  no_drift within local_holdings broker_shares notional [] h = refl
  no_drift within local_holdings broker_shares notional (s ∷ symbols) h =
      let first = h s (rw (==_refl s) refl) in
      rw first (
        no_drift within local_holdings broker_shares notional symbols
          (λ symbol m. h symbol (or_right (s == symbol) (contains symbols symbol) m)))

  all_within :
      (within : Text → Bool) (local_holdings broker_shares : Dict Text ℤ) (notional : Text → F)
      (symbols : List Text) (symbol : Text)
      → is_some_drift (drifts_for within local_holdings broker_shares notional symbols) ≡ false
      → contains symbols symbol ≡ true
      → within symbol ≡ true
  unfolding drifts_for
  all_within within local_holdings broker_shares notional [] symbol h m = absurd (cc)
  all_within within local_holdings broker_shares notional (s ∷ symbols) symbol h m =
      elim (Bool-cases (within s)) [
        | inl e ↦ elim (Bool-cases (s == symbol)) [
          | inl same ↦ ap within (sym (==_eq s symbol same)) ∙ e
          | inr other ↦
              all_within within local_holdings broker_shares notional symbols symbol (rw e at h)
                (rw other at m)
        ]
        | inr e ↦ absurd (let no : true ≡ false = rw e at h in cc)
      ]

  -- The shares of a symbol and their value differ by at most the tolerances.
  pub record IsAgreed (tolerances : Tolerances F) (local_holdings broker_shares : Dict Text ℤ)
      (prices : Dict Text F) (symbol : Text) : Type 0 where
    pub shares_agree :
        abs (shares_of symbol broker_shares -ℤ shares_of symbol local_holdings)
        ≤ tolerances.share_tolerance
    pub value_agrees :
        o.lt tolerances.notional_tolerance (
          o.abs_float (
            o.mul
              (o.of_int (shares_of symbol broker_shares -ℤ shares_of symbol local_holdings))
              (get_or symbol zero_float prices)))
        ≡ false

  is_within-IsAgreed :
      (tolerances : Tolerances F) (local_holdings broker_shares : Dict Text ℤ)
      (prices : Dict Text F) (symbol : Text)
      → (is_within tolerances local_holdings broker_shares prices symbol ≡ true)
        ↔ IsAgreed tolerances local_holdings broker_shares prices symbol
  is_within-IsAgreed tolerances local_holdings broker_shares prices symbol = (
    (λ h. record { shares_agree = ground arith; value_agrees = ground arith }),
    (λ agreed. ground (arith, agreed.shares_agree, agreed.value_agrees)),
  )

  -- A reconciliation of a snapshot is ok exactly if the cash of the two sides differs by at most its tolerance and
  -- for every symbol that the ledger or the broker holds, the shares and their value differ by at most theirs.
  pub reconcile_broker_snapshot_ok :
      (tolerances : Tolerances F) (local_cash : F) (local_holdings : Dict Text ℤ) (local_equity : F)
      (prices : Dict Text F) (snapshot : BrokerAccountSnapshot F)
      → ((reconcile_broker_snapshot tolerances local_cash local_holdings local_equity prices
            snapshot).status
          ≡ codes "ok")
        ↔ ((o.lt tolerances.cash_tolerance (o.abs_float (o.sub snapshot.cash local_cash)) ≡ false)
            × ((symbol : Text)
                → contains (keys local_holdings) symbol || contains (keys snapshot.positions) symbol
                  ≡ true
                → IsAgreed tolerances local_holdings snapshot.positions prices symbol))
  unfolding reconcile_broker_snapshot
  reconcile_broker_snapshot_ok tolerances local_cash local_holdings local_equity prices snapshot =
      let symbols = symbols_of local_holdings snapshot.positions in
      let notional = notional_delta_of local_holdings snapshot.positions prices in
      let within = is_within tolerances local_holdings snapshot.positions prices in
      let cash = o.lt tolerances.cash_tolerance (o.abs_float (o.sub snapshot.cash local_cash)) in
      let drifted =
        is_some_drift (drifts_for within local_holdings snapshot.positions notional symbols) in
      let agreed = is_within-IsAgreed tolerances local_holdings snapshot.positions prices in
      let listed = contains-symbols_of local_holdings snapshot.positions in
      (
        (λ ok.
            (let (no_cash, no_position) =
                (or_false cash drifted).0 ((status_with-ok (cash || drifted)).0 ok) in
              (
                no_cash,
                λ symbol held. (agreed symbol).0 (
                    all_within within local_holdings snapshot.positions notional symbols symbol
                      no_position (listed symbol ∙ held)),
              ))),
        (λ (no_cash, h). (status_with-ok (cash || drifted)).1 (
            (or_false cash drifted).1 (
              no_cash,
              no_drift within local_holdings snapshot.positions notional symbols
                  (λ symbol m. (agreed symbol).1 (h symbol (sym (listed symbol) ∙ m))),
            ))),
      )

-- A reconciliation of positions is ok exactly if for every symbol, held or not, the shares at the broker and
-- those in the ledger differ by at most the tolerance.
pub reconcile_broker_positions_ok :
    (F : Type 0) ⦃o : Float F⦄ (share_tolerance : ℕ) (broker_type : Text)
    (local_holdings : Dict Text ℤ) (broker_positions : List BrokerPosition)
    → ((reconcile_broker_positions {F = F} share_tolerance broker_type local_holdings
          broker_positions).status
        ≡ codes "ok")
      ↔ ((symbol : Text)
          → leb
              (abs (share_delta_of local_holdings (volumes_from [] broker_positions) symbol))
              share_tolerance
            ≡ true)
unfolding reconcile_broker_positions
reconcile_broker_positions_ok F share_tolerance broker_type local_holdings broker_positions =
    let volumes = volumes_from [] broker_positions in
    let symbols = symbols_of local_holdings volumes in
    let within : Text → Bool =
      λ symbol. leb (abs (share_delta_of local_holdings volumes symbol)) share_tolerance in
    let drifts : List (PositionDrift F) =
      drifts_for within local_holdings volumes (λ _. zero_float) symbols in
    (
      (λ ok symbol. elim (Bool-cases (contains symbols symbol)) [
        | inl listed ↦
            all_within within local_holdings volumes (λ _. zero_float) symbols symbol
              ((status_with-ok (is_some_drift drifts)).0 ok) listed
        | inr absent ↦
            rw (share_delta_of-absent local_holdings volumes symbol absent) (ground arith)
      ]),
      (λ h. (status_with-ok (is_some_drift drifts)).1 (
          no_drift within local_holdings volumes (λ _. zero_float) symbols (λ symbol _. h symbol))),
    )
