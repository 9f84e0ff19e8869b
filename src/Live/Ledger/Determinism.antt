-- ===== src/Live/Ledger/Determinism.antt =====
-- `LiveLedger.replay` of ez/live/ledger.py on two logs.
use backtesting_framework.Common.{ℤ, List, ◌≡◌, ◌↔◌, refl, Float}
use backtesting_framework.Common.Text.{Text, text_eq}
use backtesting_framework.Common.Dict.{Dict}
use backtesting_framework.Common.Sort.{In}
use backtesting_framework.Live.Events.Event.{DeploymentEvent}
use backtesting_framework.Live.Ledger.Replay.{replay}
use backtesting_framework.Live.Ledger.Fresh.{IsIdentified, fresh_sorted_unique, replay-fresh_sorted}

module _ {F : Type 0} ⦃o : Float F⦄ where
  -- Two logs with the same events, in any order and with any repetitions, replay to the same state,
  -- from any initial cash and holdings, provided that every event has an event_id and that an event_id
  -- names one event.
  pub replay_same_events :
      (es fs : List (DeploymentEvent F)) (cash : F) (holdings : Dict Text ℤ)
      → IsIdentified es
      → ((a : DeploymentEvent F) → In a es ↔ In a fs)
      → replay es cash holdings ≡ replay fs cash holdings
  unfolding replay
  replay_same_events es fs cash holdings known same =
      let known' : IsIdentified fs = record {
        has_id = λ a m. known.has_id a ((same a).1 m);
        unique = λ a b m n. known.unique a b ((same a).1 m) ((same b).1 n);
      } in
      rw (replay-fresh_sorted, replay-fresh_sorted, fresh_sorted_unique es fs known known' same)
        refl
