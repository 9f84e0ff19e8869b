-- ===== src/Live/Events/Status.antt =====
-- Broker order statuses of ez/live/events.py: the alias and rank tables, `normalize_broker_order_status`,
-- the forward-only guard and the map to `OrderStatus`. A normalized status is a value of `Status`:
-- one constructor for each key of the rank table, and `other` for a text that no rule recognises.
use backtesting_framework.Common.{
  ℕ, ℤ, pos, ltb_ℤ, leb_ℤ, Bool, true, false, ◌&&◌, ◌||◌, Option, none, some, [], ◌∷◌, leb, ltb,
  if◌then◌else◌, contains,
}
use backtesting_framework.Common.Text.{Text, text_eq, codes, is_empty, strip, lower, has}
use backtesting_framework.Common.Dict.{Dict, get, get_or}

pub data Status : Type 0 where
  unknown cancel_error unreported reported reported_cancel_pending : Status
  partially_filled partially_filled_cancel_pending partially_canceled : Status
  filled canceled junk order_error : Status
  other : Text → Status

-- The text of a normalized status, as the source stores it.
abbrev pub text : Status → Text
text unknown = codes "unknown"
text cancel_error = codes "cancel_error"
text unreported = codes "unreported"
text reported = codes "reported"
text reported_cancel_pending = codes "reported_cancel_pending"
text partially_filled = codes "partially_filled"
text partially_filled_cancel_pending = codes "partially_filled_cancel_pending"
text partially_canceled = codes "partially_canceled"
text filled = codes "filled"
text canceled = codes "canceled"
text junk = codes "junk"
text order_error = codes "order_error"
text (other s) = s

-- `_BROKER_ORDER_STATUS_ALIASES`
unfoldable pub broker_order_status_aliases : Dict Text Text
broker_order_status_aliases =
    (codes "waiting_reporting", codes "unreported")
    ∷ (codes "waiting_report", codes "unreported")
    ∷ (codes "wait_reporting", codes "unreported")
    ∷ (codes "submitted", codes "reported")
    ∷ (codes "accepted", codes "reported")
    ∷ (codes "active", codes "reported")
    ∷ (codes "working", codes "reported")
    ∷ (codes "queued", codes "reported")
    ∷ (codes "partially_cancelled", codes "partially_canceled")
    ∷ (codes "partial_canceled", codes "partially_canceled")
    ∷ (codes "partial_cancelled", codes "partially_canceled")
    ∷ (codes "cancelled", codes "canceled")
    ∷ (codes "order_rejected", codes "order_error")
    ∷ (codes "order_failed", codes "order_error")
    ∷ (codes "cancel_rejected", codes "cancel_error")
    ∷ (codes "cancel_failed", codes "cancel_error")
    ∷ (codes "error", codes "order_error")
    ∷ []

-- The keys of `_BROKER_ORDER_STATUS_RANK`, with the status that each one names.
unfoldable pub ranked_statuses : Dict Text Status
ranked_statuses =
    (codes "unknown", unknown)
    ∷ (codes "cancel_error", cancel_error)
    ∷ (codes "unreported", unreported)
    ∷ (codes "reported", reported)
    ∷ (codes "reported_cancel_pending", reported_cancel_pending)
    ∷ (codes "partially_filled", partially_filled)
    ∷ (codes "partially_filled_cancel_pending", partially_filled_cancel_pending)
    ∷ (codes "partially_canceled", partially_canceled)
    ∷ (codes "filled", filled)
    ∷ (codes "canceled", canceled)
    ∷ (codes "junk", junk)
    ∷ (codes "order_error", order_error)
    ∷ []

-- The values of `_BROKER_ORDER_STATUS_RANK`; a status outside the table has rank 0.
unfoldable pub status_rank : Status → ℕ
status_rank unknown = 0
status_rank cancel_error = 5
status_rank unreported = 10
status_rank reported = 12
status_rank reported_cancel_pending = 14
status_rank partially_filled = 20
status_rank partially_filled_cancel_pending = 22
status_rank partially_canceled = 30
status_rank filled = 30
status_rank canceled = 30
status_rank junk = 30
status_rank order_error = 30
status_rank (other _) = 0

-- `_BROKER_ORDER_TERMINAL_STATUSES`
unfoldable pub is_terminal : Status → Bool
is_terminal partially_canceled = true
is_terminal filled = true
is_terminal canceled = true
is_terminal junk = true
is_terminal order_error = true
is_terminal _ = false

-- `_BROKER_ORDER_TERMINAL_RANK`
abbrev pub terminal_rank : ℕ
terminal_rank = 30

-- Membership in `_BROKER_ORDER_TERMINAL_FOLLOWUPS.get(cur, frozenset())`.
unfoldable pub is_followup : Status → Status → Bool
is_followup partially_canceled canceled = true
is_followup _ _ = false

-- The spellings that `normalize_broker_order_status` tests last.
unfoldable pub guess_spelling : Text → Status
guess_spelling raw =
    if contains (codes "reject" ∷ codes "rejected" ∷ codes "rejecting" ∷ []) raw
    then order_error
    else if contains (codes "junk" ∷ codes "discarded" ∷ []) raw
    then junk
    else if contains (codes "pending" ∷ codes "report_pending" ∷ codes "reported_pending" ∷ []) raw
    then reported
    else if contains
        (codes "reported"
          ∷ codes "report"
          ∷ codes "ack"
          ∷ codes "acknowledged"
          ∷ codes "submitted"
          ∷ [])
        raw
    then reported
    else other raw

-- The rules of `normalize_broker_order_status` for a text outside the rank table.
unfoldable pub guess_status : Text → ℤ → ℤ → Status
guess_status raw filled_shares remaining_shares =
    if has (codes "cancel") raw && has (codes "pending") raw
    then (if ltb_ℤ (pos 0) filled_shares || ltb_ℤ (pos 0) remaining_shares
        then partially_filled_cancel_pending
        else reported_cancel_pending)
    else if has (codes "partial") raw && has (codes "fill") raw
    then partially_filled
    else if has (codes "partial") raw && has (codes "cancel") raw
    then partially_canceled
    else if has (codes "fill") raw && ltb_ℤ (pos 0) filled_shares
    then (if leb_ℤ remaining_shares (pos 0) then filled else partially_filled)
    else guess_spelling raw

-- `if raw in _BROKER_ORDER_STATUS_RANK: return raw`
unfoldable pub ranked_or_guess : Option Status → Text → ℤ → ℤ → Status
ranked_or_guess (some st) raw filled_shares remaining_shares = st
ranked_or_guess none raw filled_shares remaining_shares =
    guess_status raw filled_shares remaining_shares

-- The rest of `normalize_broker_order_status` once the text is stripped and lowered.
unfoldable pub normalize_stripped : Text → ℤ → ℤ → Status
normalize_stripped raw filled_shares remaining_shares =
    if is_empty raw
    then unknown
    else (let key = get_or raw raw broker_order_status_aliases in
        ranked_or_guess (get key ranked_statuses) key filled_shares remaining_shares)

unfoldable pub normalize_broker_order_status : Text → ℤ → ℤ → Status
normalize_broker_order_status status = normalize_stripped (lower (strip status))

unfoldable pub broker_order_status_rank : Text → ℕ
broker_order_status_rank status = status_rank (normalize_broker_order_status status (pos 0) (pos 0))

unfoldable pub broker_order_status_is_terminal : Text → Bool
broker_order_status_is_terminal status =
    is_terminal (normalize_broker_order_status status (pos 0) (pos 0))

-- `broker_order_status_can_transition` on normalized statuses.
unfoldable pub can_transition : Status → Status → Bool
unfolding status_rank is_followup
can_transition cur inc =
    if leb terminal_rank (status_rank cur)
    then is_followup cur inc
    else ltb (status_rank cur) (status_rank inc)

unfoldable pub broker_order_status_can_transition : Text → Text → Bool
broker_order_status_can_transition current incoming =
    can_transition (normalize_broker_order_status current (pos 0) (pos 0))
      (normalize_broker_order_status incoming (pos 0) (pos 0))

-- `OrderStatus`, the statuses of the order management system.
pub data OrderStatus : Type 0 where
  new submitted partially_filled filled canceled rejected : OrderStatus

-- `broker_order_status_to_order_status` on a normalized status.
unfoldable pub to_order_status : Status → OrderStatus
to_order_status Status.filled = OrderStatus.filled
to_order_status Status.partially_filled = OrderStatus.partially_filled
to_order_status Status.partially_filled_cancel_pending = OrderStatus.partially_filled
to_order_status Status.canceled = OrderStatus.canceled
to_order_status Status.partially_canceled = OrderStatus.canceled
to_order_status Status.junk = OrderStatus.rejected
to_order_status Status.order_error = OrderStatus.rejected
to_order_status _ = OrderStatus.submitted

unfoldable pub broker_order_status_to_order_status : Text → OrderStatus
broker_order_status_to_order_status status =
    to_order_status (normalize_broker_order_status status (pos 0) (pos 0))
