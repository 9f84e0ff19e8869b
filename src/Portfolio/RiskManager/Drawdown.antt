-- ===== src/Portfolio/RiskManager/Drawdown.antt =====
-- The circuit breaker of ez/portfolio/risk_manager.py against the history of drawdowns.
use backtesting_framework.Common.{
  Bool, true, false, ◌≡◌, refl, ap, ◌∙◌, none, some, List, [], ◌∷◌, if◌then◌else◌, Float,
  zero_float, one_float, larger, Bool-cases, inl, inr, arith,
}
use backtesting_framework.Portfolio.RiskManager.Manager.{
  RiskConfig, Manager, Check, RiskEvent, fresh, drawdown_from, check_state, check_drawdown,
  replay_curve, replay_equity,
}

-- A drawdown over the threshold is not a recovery.
pub record IsOrdered {F : Type 0} ⦃o : Float F⦄ (config : RiskConfig F) : Type 0 where
  pub apart :
      (drawdown : F)
      → o.lt config.max_drawdown_threshold drawdown ≡ true
      → o.lt drawdown config.drawdown_recovery_ratio ≡ false

module _ {F : Type 0} ⦃o : Float F⦄ where
  -- The drawdowns of an equity curve, the latest first, from a peak and the drawdowns before.
  abbrev pub drawdowns_from : F → List F → List F → List F
  drawdowns_from peak before [] = before
  drawdowns_from peak before (equity ∷ curve) =
      let high = larger peak equity in
      drawdowns_from high
        (if o.le high zero_float then before else drawdown_from high equity ∷ before) curve

  -- The latest drawdown that is over the threshold or below the recovery ratio decides.
  abbrev pub is_in_drawdown : RiskConfig F → List F → Bool
  is_in_drawdown config [] = false
  is_in_drawdown config (drawdown ∷ before) =
      if o.lt config.max_drawdown_threshold drawdown
      then true
      else if o.lt drawdown config.drawdown_recovery_ratio
      then false
      else is_in_drawdown config before

  check_state-is_breached :
      (config : RiskConfig F) (b : Bool) (peak drawdown : F)
      → IsOrdered config
      → (check_state config b peak drawdown).manager ≡ record {
        peak_equity = peak;
        is_breached =
            if o.lt config.max_drawdown_threshold drawdown
            then true
            else if o.lt drawdown config.drawdown_recovery_ratio
            then false
            else b;
      }
  unfolding check_state
  check_state-is_breached config false peak drawdown ordered = ground arith
  check_state-is_breached config true peak drawdown ordered =
      elim (Bool-cases (o.lt config.max_drawdown_threshold drawdown)) [
        | inl over ↦ rw (over, ordered.apart drawdown over) refl
        | inr e ↦ rw e (ground arith)
      ]

  -- What the manager makes of a drawdown.
  abbrev next_breached : RiskConfig F → F → Bool → Bool
  next_breached config drawdown b =
      if o.lt config.max_drawdown_threshold drawdown
      then true
      else if o.lt drawdown config.drawdown_recovery_ratio
      then false
      else b

  check_drawdown-worthless :
      (config : RiskConfig F) (manager : Manager F) (equity : F)
      → o.le (larger manager.peak_equity equity) zero_float ≡ true
      → (check_drawdown config manager equity).manager
        ≡ record manager { peak_equity = larger manager.peak_equity equity }
  unfolding check_drawdown
  check_drawdown-worthless config manager equity h = rw h refl

  check_drawdown-next :
      (config : RiskConfig F) (manager : Manager F) (equity : F)
      → IsOrdered config
      → o.le (larger manager.peak_equity equity) zero_float ≡ false
      → (check_drawdown config manager equity).manager ≡ record {
        peak_equity = larger manager.peak_equity equity;
        is_breached =
            next_breached config
              (drawdown_from (larger manager.peak_equity equity) equity)
              manager.is_breached;
      }
  unfolding check_drawdown
  check_drawdown-next config manager equity ordered h = rw h (
      check_state-is_breached config manager.is_breached (larger manager.peak_equity equity)
        (drawdown_from (larger manager.peak_equity equity) equity) ordered)

  replay_curve-is_in_drawdown :
      (config : RiskConfig F) (manager : Manager F) (before curve : List F)
      → IsOrdered config
      → manager.is_breached ≡ is_in_drawdown config before
      → (replay_curve config manager curve).is_breached
        ≡ is_in_drawdown config (drawdowns_from manager.peak_equity before curve)
  unfolding replay_curve
  replay_curve-is_in_drawdown config manager before [] ordered h = h
  replay_curve-is_in_drawdown config manager before (equity ∷ curve) ordered h =
      let high = larger manager.peak_equity equity in
      let drawdown = drawdown_from high equity in
      elim (Bool-cases (o.le high zero_float)) [
        | inl low ↦
            ap (λ m. (replay_curve config m curve).is_breached)
              (check_drawdown-worthless config manager equity low)
            ∙ rw low (
                replay_curve-is_in_drawdown config (record manager { peak_equity = high }) before
                  curve ordered h)
        | inr positive ↦
            ap (λ m. (replay_curve config m curve).is_breached)
              (check_drawdown-next config manager equity ordered positive)
            ∙ rw positive (
                replay_curve-is_in_drawdown config
                  (record {
                    peak_equity = high;
                    is_breached = next_breached config drawdown manager.is_breached;
                  })
                  (drawdown ∷ before) curve ordered (ap (next_breached config drawdown) h))
      ]

  -- If no drawdown is both over the threshold and below the recovery ratio, then after a replay of an equity
  -- curve the manager is breached exactly if the latest drawdown that is over the threshold or below the
  -- recovery ratio is over the threshold; days before the first positive peak do not count.
  pub replay_equity-is_in_drawdown :
      (config : RiskConfig F) (manager : Manager F) (curve : List F)
      → IsOrdered config
      → (replay_equity config manager curve).is_breached
        ≡ is_in_drawdown config (drawdowns_from zero_float [] curve)
  unfolding replay_equity
  replay_equity-is_in_drawdown config manager curve ordered =
      replay_curve-is_in_drawdown config fresh [] curve ordered refl

  -- What a check says, given whether the manager was breached before it.
  pub record IsScaled (config : RiskConfig F) (before : Bool) (check : Check F) : Type 0 where
    pub scaled :
        check.scale
        ≡ (if (check.manager).is_breached then config.drawdown_reduce_ratio else one_float)
    pub told : check.event ≡ (
        if before
        then (if (check.manager).is_breached then none else some RiskEvent.recovered)
        else if (check.manager).is_breached
        then some RiskEvent.breached
        else none)

  check_state-IsScaled :
      (config : RiskConfig F) (b : Bool) (peak drawdown : F)
      → IsScaled config b (check_state config b peak drawdown)
  unfolding check_state
  check_state-IsScaled config false peak drawdown =
      elim (Bool-cases (o.lt config.max_drawdown_threshold drawdown)) [
        | inl e ↦ rw e (record { scaled = refl; told = refl })
        | inr e ↦ rw e (record { scaled = refl; told = refl })
      ]
  check_state-IsScaled config true peak drawdown =
      elim (Bool-cases (o.lt drawdown config.drawdown_recovery_ratio)) [
        | inl e ↦ rw e (record { scaled = refl; told = refl })
        | inr e ↦ rw e (record { scaled = refl; told = refl })
      ]

  -- Once the peak is positive, a daily check scales the weights down exactly if the manager is breached after
  -- it, and reports an event exactly if that has changed.
  pub check_drawdown-IsScaled :
      (config : RiskConfig F) (manager : Manager F) (equity : F)
      → o.le (larger manager.peak_equity equity) zero_float ≡ false
      → IsScaled config manager.is_breached (check_drawdown config manager equity)
  unfolding check_drawdown
  check_drawdown-IsScaled config manager equity h = rw h (
      check_state-IsScaled config manager.is_breached (larger manager.peak_equity equity)
        (drawdown_from (larger manager.peak_equity equity) equity))
