-- ===== src/Live/Ledger/Fresh.antt =====
-- The events that the loop of `LiveLedger.replay` applies, for a log in any order: the sorted log without
-- repetitions.
use backtesting_framework.Common.{
  Bool, true, false, List, [], ◌∷◌, foldl, ◌≡◌, ◌↔◌, refl, ◌⊎◌, inl, inr, arith, Bool-cases,
  if◌then◌else◌, contains, Float, ◌==◌, ==_eq,
}
use backtesting_framework.Common.Text.{Text, text_eq, text_beq_iff, is_empty}
use backtesting_framework.Common.Text.Order.{text_le_total, text_le_trans, text_le_antisymm}
use backtesting_framework.Common.Sort.{sort_by, In, IsSorted}
use backtesting_framework.Common.Sort.Laws.{
  All-In, All-of_In, In-sort_by, In-sort_by_intro, sort_by-IsSorted, HasDistinctKeys,
  IsSorted-unique,
}
use backtesting_framework.Common.Sort.Filter.{
  filter_by, In-filter_by, In-filter_by_intro, IsSorted-filter_by, HasDistinctKeys-filter_by,
}
use backtesting_framework.Live.Events.Event.{DeploymentEvent}
use backtesting_framework.Live.Ledger.State.{LiveLedgerState}
use backtesting_framework.Live.Ledger.Apply.{apply_event}
use backtesting_framework.Live.Ledger.Replay.{
  sort_key_le, event_le, is_repeated, mark_seen, replay_from,
}

module _ {F : Type 0} where
  event_le_total : (a b : DeploymentEvent F) → (event_le a b ≡ true) ⊎ (event_le b a ≡ true)
  unfolding event_le sort_key_le
  event_le_total a b = ground (arith, text_le_total a.event_id b.event_id)

  event_le_trans :
      (a b c : DeploymentEvent F) → event_le a b ≡ true → event_le b c ≡ true → event_le a c ≡ true
  unfolding event_le sort_key_le
  event_le_trans a b c h k = ground (arith, text_le_trans a.event_id b.event_id c.event_id)

  event_le_antisymm :
      (a b : DeploymentEvent F)
      → event_le a b ≡ true
      → event_le b a ≡ true
      → a.event_id ≡ b.event_id
  unfolding event_le sort_key_le
  event_le_antisymm a b h k = ground (arith, text_le_antisymm a.event_id b.event_id)

-- A log in which every event has an event_id, and an event_id names one event.
pub record IsIdentified {F : Type 0} (events : List (DeploymentEvent F)) : Type 0 where
  pub has_id : (a : DeploymentEvent F) → In a events → is_empty a.event_id ≡ false
  pub unique :
      (a b : DeploymentEvent F) → In a events → In b events → a.event_id ≡ b.event_id → a ≡ b

module _ {F : Type 0} ⦃o : Float F⦄ where
  -- The events that the loop applies.
  fresh : List Text → List (DeploymentEvent F) → List (DeploymentEvent F)
  fresh seen [] = []
  fresh seen (e ∷ es) =
      let rest = fresh (if is_repeated seen e then seen else mark_seen seen e) es in
      if is_repeated seen e then rest else e ∷ rest

  replay_from-fresh :
      (state : LiveLedgerState F) (seen : List Text) (es : List (DeploymentEvent F))
      → replay_from state seen es
        ≡ (foldl apply_event state (fresh seen es), foldl mark_seen seen (fresh seen es))
  unfolding replay_from fresh
  replay_from-fresh state seen [] = refl
  replay_from-fresh state seen (e ∷ es) = elim (Bool-cases (is_repeated seen e)) [
    | inl old ↦ rw old (replay_from-fresh state seen es)
    | inr new ↦ rw new (replay_from-fresh (apply_event state e) (mark_seen seen e) es)
  ]

  In-fresh :
      (seen : List Text) (es : List (DeploymentEvent F)) (a : DeploymentEvent F)
      → In a (fresh seen es)
      → In a es
  unfolding fresh
  In-fresh seen [] a m = m
  In-fresh seen (e ∷ es) a m = elim (Bool-cases (is_repeated seen e)) [
    | inl old ↦ inr (In-fresh seen es a (rw old at m))
    | inr new ↦ ground (arith, In-fresh (mark_seen seen e) es a)
  ]

  -- An event whose id has not been seen is applied at its first place.
  In-fresh_intro :
      (seen : List Text) (es : List (DeploymentEvent F)) (a : DeploymentEvent F)
      → ((b : DeploymentEvent F) → In b es → b.event_id ≡ a.event_id → b ≡ a)
      → In a es
      → is_empty a.event_id ≡ false
      → contains seen a.event_id ≡ false
      → In a (fresh seen es)
  unfolding fresh
  In-fresh_intro seen [] a same m i c = m
  In-fresh_intro seen (e ∷ es) a same (inl p) i c = rw (p, i, c) (inl refl)
  In-fresh_intro seen (e ∷ es) a same (inr m) i c = elim (Bool-cases (is_repeated seen e)) [
    | inl old ↦ rw old (In-fresh_intro seen es a (λ b n. same b (inr n)) m i c)
    | inr new ↦ rw new (elim (Bool-cases (e.event_id == a.event_id)) [
      | inl hit ↦ inl (same e (inl refl) (==_eq e.event_id a.event_id hit))
      | inr miss ↦
          inr (In-fresh_intro (mark_seen seen e) es a (λ b n. same b (inr n)) m i (ground arith))
    ])
  ]

  not_repeated :
      (seen : List Text) (e : DeploymentEvent F)
      → is_repeated seen e ≡ false
      → is_empty e.event_id ≡ false
      → contains seen e.event_id ≡ false
  not_repeated seen e new i = ground arith

  seen_before :
      (seen : List Text) (e a : DeploymentEvent F)
      → contains (mark_seen seen e) a.event_id ≡ false
      → contains seen a.event_id ≡ false
  seen_before seen e a h = ground arith

  marked_unseen :
      (seen : List Text) (e a : DeploymentEvent F)
      → e.event_id ≡ a.event_id
      → is_empty e.event_id ≡ false
      → contains (mark_seen seen e) a.event_id ≡ false
      → ⊥
  marked_unseen seen e a p i h = ground (arith, text_beq_iff e.event_id a.event_id)

  -- No applied event has an id that had been seen.
  fresh_unseen :
      (seen : List Text) (es : List (DeploymentEvent F)) (a : DeploymentEvent F)
      → In a (fresh seen es)
      → is_empty a.event_id ≡ false
      → contains seen a.event_id ≡ false
  unfolding fresh
  fresh_unseen seen [] a m i = absurd m
  fresh_unseen seen (e ∷ es) a m i = elim (Bool-cases (is_repeated seen e)) [
    | inl old ↦ fresh_unseen seen es a (rw old at m) i
    | inr new ↦
        let split : (e ≡ a) ⊎ In a (fresh (mark_seen seen e) es) = rw new at m in
        elim split [
          | inl p ↦ rw (← p) (not_repeated seen e new (rw p i))
          | inr n ↦ seen_before seen e a (fresh_unseen (mark_seen seen e) es a n i)
        ]
  ]

  fresh-HasDistinctKeys :
      (seen : List Text) (es : List (DeploymentEvent F))
      → ((a : DeploymentEvent F) → In a es → is_empty a.event_id ≡ false)
      → HasDistinctKeys (λ (e : DeploymentEvent F). e.event_id) (fresh seen es)
  unfolding fresh
  fresh-HasDistinctKeys seen [] i = tt
  fresh-HasDistinctKeys seen (e ∷ es) i = elim (Bool-cases (is_repeated seen e)) [
    | inl old ↦ rw old (fresh-HasDistinctKeys seen es (λ a m. i a (inr m)))
    | inr new ↦ rw new (
      All-of_In _ (fresh (mark_seen seen e) es) (λ a m p.
          marked_unseen seen e a p (i e (inl refl)) (
            fresh_unseen (mark_seen seen e) es a m
              (i a (inr (In-fresh (mark_seen seen e) es a m))))),
      fresh-HasDistinctKeys (mark_seen seen e) es (λ a m. i a (inr m)),
    )
  ]

  fresh-IsSorted :
      (seen : List Text) (es : List (DeploymentEvent F))
      → IsSorted event_le es
      → IsSorted event_le (fresh seen es)
  unfolding fresh
  fresh-IsSorted seen [] s = s
  fresh-IsSorted seen (e ∷ es) s = elim (Bool-cases (is_repeated seen e)) [
    | inl old ↦ rw old (fresh-IsSorted seen es s.1)
    | inr new ↦ rw new (
      All-of_In _ (fresh (mark_seen seen e) es)
          (λ a m. All-In _ es s.0 a (In-fresh (mark_seen seen e) es a m)),
      fresh-IsSorted (mark_seen seen e) es s.1,
    )
  ]

  pub fresh_sorted : List (DeploymentEvent F) → List (DeploymentEvent F)
  fresh_sorted es = fresh [] (sort_by event_le es)

  In-fresh_sorted :
      (es : List (DeploymentEvent F)) (a : DeploymentEvent F) → In a (fresh_sorted es) → In a es
  unfolding fresh_sorted
  In-fresh_sorted es a m = In-sort_by event_le es a (In-fresh [] (sort_by event_le es) a m)

  In-fresh_sorted_intro :
      (es : List (DeploymentEvent F))
      → IsIdentified es
      → (a : DeploymentEvent F) → In a es
      → In a (fresh_sorted es)
  unfolding fresh_sorted
  In-fresh_sorted_intro es known a m =
      In-fresh_intro [] (sort_by event_le es) a
        (λ b k p. known.unique b a (In-sort_by event_le es b k) m p)
        (In-sort_by_intro event_le es a m) (known.has_id a m) refl

  fresh_sorted-IsSorted : (es : List (DeploymentEvent F)) → IsSorted event_le (fresh_sorted es)
  unfolding fresh_sorted
  fresh_sorted-IsSorted es =
      fresh-IsSorted [] (sort_by event_le es)
        (sort_by-IsSorted event_le event_le_total event_le_trans es)

  fresh_sorted-HasDistinctKeys :
      (es : List (DeploymentEvent F))
      → IsIdentified es
      → HasDistinctKeys (λ (e : DeploymentEvent F). e.event_id) (fresh_sorted es)
  unfolding fresh_sorted
  fresh_sorted-HasDistinctKeys es known =
      fresh-HasDistinctKeys [] (sort_by event_le es)
        (λ a m. known.has_id a (In-sort_by event_le es a m))

  pub fresh_sorted_unique :
      (es fs : List (DeploymentEvent F))
      → IsIdentified es
      → IsIdentified fs
      → ((a : DeploymentEvent F) → In a es ↔ In a fs)
      → fresh_sorted es ≡ fresh_sorted fs
  fresh_sorted_unique es fs known known' same =
      IsSorted-unique event_le (λ e. e.event_id) event_le_antisymm (fresh_sorted es)
        (fresh_sorted fs) (fresh_sorted-IsSorted es) (fresh_sorted-IsSorted fs)
        (fresh_sorted-HasDistinctKeys es known) (fresh_sorted-HasDistinctKeys fs known')
        (λ a m. In-fresh_sorted_intro fs known' a ((same a).0 (In-fresh_sorted es a m)))
        (λ a m. In-fresh_sorted_intro es known a ((same a).1 (In-fresh_sorted fs a m)))

  pub replay-fresh_sorted :
      (state : LiveLedgerState F) (es : List (DeploymentEvent F))
      → replay_from state [] (sort_by event_le es)
        ≡ (foldl apply_event state (fresh_sorted es), foldl mark_seen [] (fresh_sorted es))
  unfolding fresh_sorted
  replay-fresh_sorted state es = replay_from-fresh state [] (sort_by event_le es)

  IsIdentified-filter_by :
      (p : DeploymentEvent F → Bool) (es : List (DeploymentEvent F))
      → IsIdentified es
      → IsIdentified (filter_by p es)
  IsIdentified-filter_by p es known = record {
    has_id = λ a m. known.has_id a (In-filter_by p es a m).0;
    unique = λ a b m n. known.unique a b (In-filter_by p es a m).0 (In-filter_by p es b n).0;
  }

  -- Filtering a log and then dropping repetitions gives what dropping them first does.
  pub fresh_sorted-filter_by :
      (p : DeploymentEvent F → Bool) (es : List (DeploymentEvent F))
      → IsIdentified es
      → fresh_sorted (filter_by p es) ≡ filter_by p (fresh_sorted es)
  fresh_sorted-filter_by p es known =
      let known' = IsIdentified-filter_by p es known in
      IsSorted-unique event_le (λ e. e.event_id) event_le_antisymm (fresh_sorted (filter_by p es))
        (filter_by p (fresh_sorted es)) (fresh_sorted-IsSorted (filter_by p es))
        (IsSorted-filter_by p event_le (fresh_sorted es) (fresh_sorted-IsSorted es))
        (fresh_sorted-HasDistinctKeys (filter_by p es) known')
        (HasDistinctKeys-filter_by p (λ e. e.event_id) (fresh_sorted es)
          (fresh_sorted-HasDistinctKeys es known))
        (λ a m.
          let (n, q) = In-filter_by p es a (In-fresh_sorted (filter_by p es) a m) in
          In-filter_by_intro p (fresh_sorted es) a (In-fresh_sorted_intro es known a n) q)
        (λ a m.
          let (n, q) = In-filter_by p (fresh_sorted es) a m in
          In-fresh_sorted_intro (filter_by p es) known' a
            (In-filter_by_intro p es a (In-fresh_sorted es a n) q))
