-- ===== src/Live/Events/Normalize.antt =====
-- Lemmas on `normalize_broker_order_status` of ez/live/events.py.
use backtesting_framework.Common.{
  ℤ, pos, ◌≡◌, refl, ap, ◌∙◌, inl, inr, true, some, none, Option, [], ◌∷◌, arith, Bool, all,
  Bool-cases, is_some, ◌==◌,
}
use backtesting_framework.Common.Text.{Text, text_eq, text_beq, strip, lower, lower_char}
use backtesting_framework.Common.Text.Strip.{strip_idem, lower_idem, strip-lower}
use backtesting_framework.Common.Dict.{Dict, get, get_or}
use backtesting_framework.Live.Events.Status.{
  Status, other, text, guess_spelling, guess_status, ranked_or_guess, normalize_stripped,
  normalize_broker_order_status, broker_order_status_aliases, ranked_statuses, can_transition,
  broker_order_status_can_transition,
}

guess_spelling-other : (raw t : Text) → guess_spelling raw ≡ other t → t ≡ raw
unfolding guess_spelling
guess_spelling-other raw t h = ground arith

-- A text that the rules leave unrecognised is unrecognised with no shares too.
guess_status-other :
    (raw t : Text) (f r : ℤ)
    → guess_status raw f r ≡ other t
    → (t ≡ raw) × (guess_status raw (pos 0) (pos 0) ≡ other raw)
unfolding guess_status
guess_status-other raw t f r h = ground (arith, guess_spelling-other raw t)

-- Every alias names a ranked status.
abbrev is_ranked : Text × Text → Bool
is_ranked e = is_some (get e.1 ranked_statuses)

aliases_ranked : all is_ranked broker_order_status_aliases ≡ true
unfolding broker_order_status_aliases ranked_statuses get text_beq
aliases_ranked = refl

-- So a text whose alias is not ranked has no alias.
alias_unranked :
    (raw : Text) (table : Dict Text Text)
    → all is_ranked table ≡ true
    → get (get_or raw raw table) ranked_statuses ≡ none
    → get_or raw raw table ≡ raw
unfolding get_or
alias_unranked raw [] ok h = refl
alias_unranked raw ((a, v) ∷ table) ok h = elim (Bool-cases (a == raw)) [
  | inl hit ↦ ground arith
  | inr miss ↦ ground (arith, alias_unranked raw table)
]

ranked_statuses-other : (key t : Text) → get key ranked_statuses ≡ some (other t) → ⊥
unfolding get ranked_statuses
ranked_statuses-other key t h = ground arith

ranked_or_guess-other :
    (found : Option Status) (raw t : Text) (f r : ℤ)
    → (found ≡ some (other t) → ⊥)
    → ranked_or_guess found raw f r ≡ other t
    → (found ≡ none) × (t ≡ raw) × (ranked_or_guess found raw (pos 0) (pos 0) ≡ other raw)
unfolding ranked_or_guess
ranked_or_guess-other none raw t f r named h = ground (arith, guess_status-other raw t f r h)
ranked_or_guess-other (some st) raw t f r named h = absurd (named (ap some h))

-- The unrecognised result is the stripped and lowered text, and it is unrecognised again.
normalize_stripped-other :
    (raw t : Text) (f r : ℤ)
    → normalize_stripped raw f r ≡ other t
    → (t ≡ raw) × (normalize_stripped raw (pos 0) (pos 0) ≡ other raw)
unfolding normalize_stripped
normalize_stripped-other [] t f r h = cc
normalize_stripped-other (c ∷ s) t f r h =
    let raw : Text = c ∷ s in
    let key : Text = get_or raw raw broker_order_status_aliases in
    let parts =
      ranked_or_guess-other (get key ranked_statuses) key t f r (ranked_statuses-other key t) h in
    let fixed = alias_unranked raw broker_order_status_aliases aliases_ranked parts.0 in
    (parts.1 ∙ fixed, parts.2 ∙ ap other fixed)

strip-lower_fixed : (s : Text) → lower (strip (lower (strip s))) ≡ lower (strip s)
strip-lower_fixed s = rw (strip-lower, strip_idem) (lower_idem (strip s))

normalize-other :
    (s t : Text) (f r : ℤ)
    → normalize_broker_order_status s f r ≡ other t
    → normalize_broker_order_status t (pos 0) (pos 0) ≡ other t
unfolding normalize_broker_order_status
normalize-other s t f r h =
    let (same, again) = normalize_stripped-other (lower (strip s)) t f r h in
    rw (same, strip-lower_fixed) again

-- A status that equals a normalized one is normalized to itself.
normal_of :
    (st : Status) (s : Text) (f r : ℤ)
    → normalize_broker_order_status s f r ≡ st
    → normalize_broker_order_status (text st) (pos 0) (pos 0) ≡ st
unfolding normalize_broker_order_status normalize_stripped strip lower_char get get_or text_beq
    ranked_statuses broker_order_status_aliases ranked_or_guess
normal_of Status.unknown s f r h = refl
normal_of (other t) s f r h = normalize-other s t f r h
normal_of _ s f r h = refl

-- Normalizing is idempotent: the text of a normalized status, whatever the raw text and the share
-- counts it came from, is normalized to that same status when no share counts are given.
pub normalize_idem :
    (s : Text) (filled_shares remaining_shares : ℤ)
    → let st = normalize_broker_order_status s filled_shares remaining_shares in
      normalize_broker_order_status (text st) (pos 0) (pos 0) ≡ st
normalize_idem s filled_shares remaining_shares =
    normal_of (normalize_broker_order_status s filled_shares remaining_shares) s filled_shares
      remaining_shares refl

-- `broker_order_status_can_transition`, which normalizes the two texts again, agrees on the texts of
-- normalized statuses with the guard on statuses.
pub can_transition-text :
    (s t : Text) (f r g q : ℤ)
    → let cur = normalize_broker_order_status s f r in
      let inc = normalize_broker_order_status t g q in
      broker_order_status_can_transition (text cur) (text inc) ≡ can_transition cur inc
unfolding broker_order_status_can_transition
can_transition-text s t f r g q = rw (normalize_idem s f r, normalize_idem t g q)
