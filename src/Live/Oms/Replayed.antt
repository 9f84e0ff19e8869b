-- ===== src/Live/Oms/Replayed.antt =====
-- Replays of ez/live/ledger.py over events whose fills are booked once, in their order.
use backtesting_framework.Common.{
  ℤ, true, false, ltb, ◌≡◌, refl, sym, ap, ◌∙◌, ◌⊎◌, inl, inr, List, [], ◌∷◌, ◌++◌, foldl,
  if◌then◌else◌, contains, arith, Bool-cases, All, Float,
}
use backtesting_framework.Common.Text.{Text, text_eq}
use backtesting_framework.Common.Dict.{Dict}
use backtesting_framework.Common.Sort.{sort_by, insert_by}
use backtesting_framework.Live.Events.Event.{DeploymentEvent, Payload, Fill}
use backtesting_framework.Live.Ledger.State.{LiveLedgerState}
use backtesting_framework.Live.Ledger.Apply.{apply_event, cash_after_fill, holdings_after_fill}
use backtesting_framework.Live.Ledger.Account.{Account, account}
use backtesting_framework.Live.Ledger.Replay.{
  event_le, sort_key_le, is_repeated, mark_seen, replay_from, replay, initial_state,
}

module _ {F : Type 0} where
  -- The events were made one after the other.
  abbrev pub AreInTime : List (DeploymentEvent F) → Type 0
  AreInTime [] = Unit
  AreInTime (event ∷ events) =
      All (λ later. ltb event.event_ts later.event_ts ≡ true) events × AreInTime events

  event_le-ltb : (a b : DeploymentEvent F) → ltb a.event_ts b.event_ts ≡ true → event_le a b ≡ true
  unfolding event_le sort_key_le
  event_le-ltb a b h = rw h refl

  insert_by-first :
      (event : DeploymentEvent F) (events : List (DeploymentEvent F))
      → All (λ later. ltb event.event_ts later.event_ts ≡ true) events
      → insert_by event_le event events ≡ event ∷ events
  unfolding insert_by
  insert_by-first event [] h = refl
  insert_by-first event (later ∷ events) h = rw (event_le-ltb event later h.0) refl

  sort_by-AreInTime :
      (events : List (DeploymentEvent F)) → AreInTime events → sort_by event_le events ≡ events
  unfolding sort_by
  sort_by-AreInTime [] h = refl
  sort_by-AreInTime (event ∷ events) h =
      rw (sort_by-AreInTime events h.1) (insert_by-first event events h.0)

  -- The trade of an event.
  abbrev pub filled_in : Payload F → List (Fill F)
  filled_in (Payload.order_filled fill) = fill ∷ []
  filled_in (Payload.order_partially_filled fill) = fill ∷ []
  filled_in _ = []

  abbrev pub filled : List (DeploymentEvent F) → List (Fill F)
  filled [] = []
  filled (event ∷ events) = filled_in event.payload ++ filled events

  -- The ids before the events that follow.
  abbrev pub ids_after : List Text → List (DeploymentEvent F) → List Text
  ids_after ids [] = ids
  ids_after ids (event ∷ events) = ids_after (event.event_id ∷ ids) events

module _ {F : Type 0} ⦃o : Float F⦄ where
  -- A trade booked on an account.
  abbrev pub book_trade : Account F → Fill F → Account F
  book_trade (cash, holdings, trades) fill =
      (cash_after_fill fill cash, holdings_after_fill fill holdings, trades ++ fill ∷ [])

  -- An event that books its fill, if it has one, and nothing else.
  pub record Books (event : DeploymentEvent F) : Type 0 where
    pub books :
        (state : LiveLedgerState F)
        → account (apply_event state event)
          ≡ foldl book_trade (account state) (filled_in event.payload)

  -- No fill has an id that came before it.
  abbrev pub AreNew : List Text → List (DeploymentEvent F) → Type 0
  AreNew ids [] = Unit
  AreNew ids (event ∷ events) =
      Books event
      × ((filled_in event.payload ≡ []) ⊎ (contains ids event.event_id ≡ false))
      × AreNew (event.event_id ∷ ids) events

  pub AreNew-append :
      (ids : List Text) (events later : List (DeploymentEvent F))
      → AreNew ids events
      → AreNew (ids_after ids events) later
      → AreNew ids (events ++ later)
  AreNew-append ids [] later h k = k
  AreNew-append ids (event ∷ events) later (b, n, h) k =
      (b, n, AreNew-append (event.event_id ∷ ids) events later h k)

  foldl_trades :
      (acc : Account F) (xs ys : List (Fill F))
      → foldl book_trade acc (xs ++ ys) ≡ foldl book_trade (foldl book_trade acc xs) ys
  foldl_trades acc [] ys = refl
  foldl_trades acc (x ∷ xs) ys = foldl_trades (book_trade acc x) xs ys

  -- A fill that is new is not skipped, and an event without a fill may be.
  step :
      (state : LiveLedgerState F) (seen ids : List Text) (event : DeploymentEvent F)
      → Books event
      → ((filled_in event.payload ≡ []) ⊎ (contains ids event.event_id ≡ false))
      → ((i : Text) → contains ids i ≡ false → contains seen i ≡ false)
      → account (if is_repeated seen event then state else apply_event state event)
        ≡ foldl book_trade (account state) (filled_in event.payload)
  step state seen ids event b n sub = elim (Bool-cases (is_repeated seen event)) [
    | inr new ↦ rw new (b.books state)
    | inl old ↦ elim n [
      | inl no_fill ↦ rw (old, no_fill) refl
      | inr fresh ↦ absurd (ground (arith, sub event.event_id fresh, old))
    ]
  ]

  still_within :
      (seen ids : List Text) (event : DeploymentEvent F)
      → ((i : Text) → contains ids i ≡ false → contains seen i ≡ false)
      → (i : Text) → contains (event.event_id ∷ ids) i ≡ false
      → contains (if is_repeated seen event then seen else mark_seen seen event) i ≡ false
  still_within seen ids event sub i h = ground (arith, sub i)

  replay_from-AreNew :
      (state : LiveLedgerState F) (seen ids : List Text) (events : List (DeploymentEvent F))
      → ((i : Text) → contains ids i ≡ false → contains seen i ≡ false)
      → AreNew ids events
      → account (replay_from state seen events).0 ≡ foldl book_trade (account state) (filled events)
  unfolding replay_from
  replay_from-AreNew state seen ids [] sub h = refl
  replay_from-AreNew state seen ids (event ∷ events) sub (b, n, h) =
      replay_from-AreNew (if is_repeated seen event then state else apply_event state event)
        (if is_repeated seen event then seen else mark_seen seen event) (event.event_id ∷ ids)
        events (still_within seen ids event sub) h
      ∙ ap (λ acc. foldl book_trade acc (filled events)) (step state seen ids event b n sub)
      ∙ sym (foldl_trades (account state) (filled_in event.payload) (filled events))

  pub replay-AreNew :
      (events : List (DeploymentEvent F)) (cash : F) (holdings : Dict Text ℤ)
      → AreInTime events
      → AreNew [] events
      → account (replay events cash holdings)
        ≡ foldl book_trade (cash, holdings, []) (filled events)
  unfolding replay initial_state
  replay-AreNew events cash holdings in_time h =
      ap (λ es. account (replay_from (initial_state cash holdings) [] es).0)
        (sort_by-AreInTime events in_time)
      ∙ replay_from-AreNew (initial_state cash holdings) [] [] events (λ i e. e) h
