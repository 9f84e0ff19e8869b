-- ===== src/Live/OrderLinks/Stored.antt =====
-- The log of ez/live/deployment_store.py when a batch of events is appended.
use mathlib.Core.List.{append-nil, append_assoc}
use backtesting_framework.Common.{
  ℕ, ◌+◌, ◌≡◌, refl, sym, ap, ◌∙◌, Bool, true, false, List, [], ◌∷◌, ◌++◌, arith, Bool-cases, inl,
  inr, length, ==_refl, ◌&&◌, ◌≢◌, All,
}
use backtesting_framework.Common.Text.{Text, text_eq, text_beq_iff}
use backtesting_framework.Common.Sort.{In}
use backtesting_framework.Common.Sort.Laws.{HasDistinctKeys}
use backtesting_framework.Live.OrderLinks.Table.{link_key_eq}
use backtesting_framework.Live.OrderLinks.Log.{
  LoggedEvent, Store, is_logged, append_event, append_events,
}

-- Whether the events of a batch are all stored.
abbrev pub all_logged : List (ℕ × LoggedEvent) → List LoggedEvent → Bool
all_logged [] log = true
all_logged ((_, event) ∷ events) log = is_logged event.event_id log && all_logged events log

is_logged-append :
    (i : Text) (log more : List LoggedEvent)
    → is_logged i log ≡ true
    → is_logged i (log ++ more) ≡ true
unfolding is_logged
is_logged-append i [] more h = cc
is_logged-append i (event ∷ log) more h = ground (arith, is_logged-append i log more)

is_logged-last :
    (log : List LoggedEvent) (event : LoggedEvent)
    → is_logged event.event_id (log ++ event ∷ []) ≡ true
unfolding is_logged
is_logged-last [] event = simp ==_refl
is_logged-last (e ∷ log) event = ground (arith, is_logged-last log event)

append_event-known :
    (isoformat : ℕ → Text) (now : ℕ) (event : LoggedEvent) (state : Store × ℕ)
    → is_logged event.event_id state.0.log ≡ true
    → ((append_event isoformat (now, event) state).0.log ≡ state.0.log)
      × ((append_event isoformat (now, event) state).1 ≡ state.1)
unfolding append_event
append_event-known isoformat now event state h = (rw h refl, rw h refl)

append_event-unknown :
    (isoformat : ℕ → Text) (now : ℕ) (event : LoggedEvent) (state : Store × ℕ)
    → is_logged event.event_id state.0.log ≡ false
    → ((append_event isoformat (now, event) state).0.log ≡ state.0.log ++ event ∷ [])
      × ((append_event isoformat (now, event) state).1 ≡ state.1 + 1)
unfolding append_event
append_event-unknown isoformat now event state h = (rw h refl, rw h refl)

-- Events of the tail of a batch are events of the batch.
from_tail :
    (first : ℕ × LoggedEvent) (events : List (ℕ × LoggedEvent)) (added : List LoggedEvent)
    → All (λ event. (now : ℕ) × In (now, event) events) added
    → All (λ event. (now : ℕ) × In (now, event) (first ∷ events)) added
from_tail first events [] all = tt
from_tail first events (event ∷ added) all =
    ((all.0.0, inr all.0.1), from_tail first events added all.1)

-- The log only grows, at its end, by events of the batch, and by as many as are counted as inserted.
append_events-log :
    (isoformat : ℕ → Text) (events : List (ℕ × LoggedEvent)) (state : Store × ℕ)
    → (added : List LoggedEvent) × ((append_events isoformat events state).0.log
        ≡ state.0.log ++ added)
      × ((append_events isoformat events state).1 ≡ state.1 + length added)
      × All (λ event. (now : ℕ) × In (now, event) events) added
unfolding append_events
append_events-log isoformat [] state = ([], sym (append-nil state.0.log), omega arith, tt)
append_events-log isoformat ((now, event) ∷ events) state =
    let (added, same, count, given) =
      append_events-log isoformat events (append_event isoformat (now, event) state) in
    let in_batch = from_tail (now, event) events added given in
    elim (Bool-cases (is_logged event.event_id state.0.log)) [
      | inl known ↦
          let (kept, as_many) = append_event-known isoformat now event state known in
          (added, same ∙ ap (λ log. log ++ added) kept, omega (arith, count, as_many), in_batch)
      | inr unknown ↦
          let (grown, one_more) = append_event-unknown isoformat now event state unknown in
          (
            event ∷ added,
            same ∙ ap (λ log. log ++ added) grown ∙ append_assoc state.0.log (event ∷ []) added,
            omega (arith, count, one_more),
            ((now, inl refl), in_batch),
          )
    ]

append_events-all_logged :
    (isoformat : ℕ → Text) (events : List (ℕ × LoggedEvent)) (state : Store × ℕ) (i : Text)
    → is_logged i state.0.log ≡ true
    → is_logged i (append_events isoformat events state).0.log ≡ true
append_events-all_logged isoformat events state i h =
    let (added, same, count, given) = append_events-log isoformat events state in
    rw same (is_logged-append i state.0.log added h)

append_event-is_logged :
    (isoformat : ℕ → Text) (now : ℕ) (event : LoggedEvent) (state : Store × ℕ)
    → is_logged event.event_id (append_event isoformat (now, event) state).0.log ≡ true
append_event-is_logged isoformat now event state =
    elim (Bool-cases (is_logged event.event_id state.0.log)) [
      | inl known ↦ rw (append_event-known isoformat now event state known).0 known
      | inr unknown ↦
          rw (append_event-unknown isoformat now event state unknown).0
            (is_logged-last state.0.log event)
    ]

-- Every event of a batch is stored once the batch is appended.
pub append_events-is_logged :
    (isoformat : ℕ → Text) (events : List (ℕ × LoggedEvent)) (state : Store × ℕ)
    → all_logged events (append_events isoformat events state).0.log ≡ true
unfolding append_events
append_events-is_logged isoformat [] state = refl
append_events-is_logged isoformat ((now, event) ∷ events) state =
    let next = append_event isoformat (now, event) state in
    rw
      (append_events-all_logged isoformat events next event.event_id
        (append_event-is_logged isoformat now event state))
      (append_events-is_logged isoformat events next)

logged_again :
    (isoformat : ℕ → Text) (events : List (ℕ × LoggedEvent)) (state : Store × ℕ)
    → all_logged events state.0.log ≡ true
    → ((append_events isoformat events state).0.log ≡ state.0.log)
      × ((append_events isoformat events state).1 ≡ state.1)
unfolding append_events
logged_again isoformat [] state h = (refl, refl)
logged_again isoformat ((now, event) ∷ events) state h =
    let known : is_logged event.event_id state.0.log ≡ true = ground arith in
    let rest : all_logged events state.0.log ≡ true = ground arith in
    let (kept, as_many) = append_event-known isoformat now event state known in
    let again =
      logged_again isoformat events (append_event isoformat (now, event) state) (rw kept rest) in
    (again.0 ∙ kept, again.1 ∙ as_many)

abbrev id_of : LoggedEvent → Text
id_of event = event.event_id

unlogged_id :
    (log : List LoggedEvent) (event : LoggedEvent)
    → is_logged event.event_id log ≡ false
    → All (λ old. old.event_id ≢ event.event_id) log
unfolding is_logged
unlogged_id [] event h = tt
unlogged_id (old ∷ log) event h = (
  (λ same. ground (arith, text_beq_iff old.event_id event.event_id, same)),
  unlogged_id log event (ground arith),
)

All-last :
    (P : LoggedEvent → Type 0) (log : List LoggedEvent) (event : LoggedEvent)
    → All P log
    → P event
    → All P (log ++ event ∷ [])
All-last P [] event all p = (p, tt)
All-last P (old ∷ log) event all p = (all.0, All-last P log event all.1 p)

HasDistinctKeys-last :
    (log : List LoggedEvent) (event : LoggedEvent)
    → HasDistinctKeys id_of log
    → All (λ old. old.event_id ≢ event.event_id) log
    → HasDistinctKeys id_of (log ++ event ∷ [])
HasDistinctKeys-last [] event d new = (tt, tt)
HasDistinctKeys-last (old ∷ log) event d new =
    (All-last _ log event d.0 new.0, HasDistinctKeys-last log event d.1 new.1)

append_events-HasDistinctKeys :
    (isoformat : ℕ → Text) (events : List (ℕ × LoggedEvent)) (state : Store × ℕ)
    → HasDistinctKeys id_of state.0.log
    → HasDistinctKeys id_of (append_events isoformat events state).0.log
unfolding append_events
append_events-HasDistinctKeys isoformat [] state d = d
append_events-HasDistinctKeys isoformat ((now, event) ∷ events) state d =
    append_events-HasDistinctKeys isoformat events (append_event isoformat (now, event) state)
      (elim (Bool-cases (is_logged event.event_id state.0.log)) [
        | inl known ↦ rw (append_event-known isoformat now event state known).0 d
        | inr unknown ↦
            rw (append_event-unknown isoformat now event state unknown).0
              (HasDistinctKeys-last state.0.log event d (unlogged_id state.0.log event unknown))
      ])

-- What appending a batch makes of the log: `once` is the store and the count after it.
pub record IsStoredOnce (events : List (ℕ × LoggedEvent)) (before once : Store × ℕ) : Type 0 where
  pub all_stored : all_logged events once.0.log ≡ true
  pub distinct : HasDistinctKeys (λ (event : LoggedEvent). event.event_id) once.0.log
  pub grown :
      (added : List LoggedEvent) × (once.0.log ≡ before.0.log ++ added)
      × (once.1 ≡ before.1 + length added)
      × All (λ event. (now : ℕ) × In (now, event) events) added

-- If the event ids of the log differ, then after a batch is appended, whatever repetitions it has, the log has
-- every id of the batch and still no id twice, has grown at its end by events of the batch alone, and as
-- many as are counted; and appending the batch a second time changes neither log nor count.
pub append_events_once :
    (isoformat : ℕ → Text) (events : List (ℕ × LoggedEvent)) (state : Store × ℕ) (n : ℕ)
    → HasDistinctKeys (λ (event : LoggedEvent). event.event_id) state.0.log
    → let once = append_events isoformat events state in
      IsStoredOnce events state once
      × ((append_events isoformat events (once.0, n)).0.log ≡ once.0.log)
      × ((append_events isoformat events (once.0, n)).1 ≡ n)
append_events_once isoformat events state n d =
    let once = (append_events isoformat events state).0 in
    let stored = append_events-is_logged isoformat events state in
    let again = logged_again isoformat events (once, n) stored in
    (
      record {
        all_stored = stored;
        distinct = append_events-HasDistinctKeys isoformat events state d;
        grown = append_events-log isoformat events state;
      },
      again.0,
      again.1,
    )
