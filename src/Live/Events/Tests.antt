-- ===== src/Live/Events/Tests.antt =====
-- Runs of the status normalization and of the life cycle.
use backtesting_framework.Common.{pos, refl, ◌≡◌, ◌≤◌}
use backtesting_framework.Common.Text.{codes, has, lower_char, strip, text_beq}
use backtesting_framework.Live.Events.Status.{
  Status, text, normalize_broker_order_status, can_transition, broker_order_status_aliases,
  guess_status, normalize_stripped, ranked_or_guess, ranked_statuses,
}
use backtesting_framework.Live.Events.Normalize.{normalize_idem}
use backtesting_framework.Live.Events.Lifecycle.{Moves, Moves-le}
use backtesting_framework.Common.Dict.{get, get_or}

alias_test : normalize_broker_order_status (codes " Cancelled ") (pos 3) (pos 4) ≡ Status.canceled
unfolding normalize_broker_order_status normalize_stripped strip ranked_or_guess get ranked_statuses
    text_beq get_or broker_order_status_aliases lower_char
alias_test = refl

guess_test :
    normalize_broker_order_status (codes "partial_fill") (pos 3) (pos 4) ≡ Status.partially_filled
unfolding normalize_broker_order_status normalize_stripped strip ranked_or_guess get ranked_statuses
    text_beq get_or broker_order_status_aliases lower_char guess_status has
guess_test = refl

normalize_idem_example :
    let st = normalize_broker_order_status (codes " Cancelled ") (pos 3) (pos 4) in
    normalize_broker_order_status (text st) (pos 0) (pos 0) ≡ st
normalize_idem_example = normalize_idem (codes " Cancelled ") (pos 3) (pos 4)

abbrev two_moves : Moves Status.reported Status.filled 2
unfolding can_transition
two_moves =
    Moves.move {t = Status.partially_filled} refl (Moves.move {t = Status.filled} refl Moves.stay)

Moves-le_example : 2 ≤ 8
Moves-le_example = Moves-le two_moves
