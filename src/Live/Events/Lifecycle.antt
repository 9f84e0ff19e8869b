-- ===== src/Live/Events/Lifecycle.antt =====
-- The broker life cycle of ez/live/events.py as chains of legal moves, and the ranks of the coarse order
-- statuses of ez/live/ledger.py.
use backtesting_framework.Common.{ℕ, suc, ◌+◌, ◌≤◌, ◌<◌, ◌≡◌, ◌≢◌, ap, ◌↔◌, true, arith}
use backtesting_framework.Live.Events.Status.{
  Status, other, status_rank, is_terminal, can_transition, OrderStatus, to_order_status,
  terminal_rank,
}

-- A status is terminal exactly when its rank is in the terminal band.
pub is_terminal-rank : (st : Status) → (is_terminal st ≡ true) ↔ (terminal_rank ≤ status_rank st)
unfolding is_terminal status_rank
is_terminal-rank st = ground arith

-- From a terminal status the one legal move is `partially_canceled` to `canceled`.
pub terminal_moves :
    (cur inc : Status)
    → is_terminal cur ≡ true
    → (can_transition cur inc ≡ true)
      ↔ ((cur ≡ Status.partially_canceled) × (inc ≡ Status.canceled))
unfolding is_terminal can_transition
terminal_moves cur inc h = ground arith

-- How far along a status is: no status is further than 8.
level : Status → ℕ
level Status.unknown = 0
level Status.cancel_error = 1
level Status.unreported = 2
level Status.reported = 3
level Status.reported_cancel_pending = 4
level Status.partially_filled = 5
level Status.partially_filled_cancel_pending = 6
level Status.partially_canceled = 7
level Status.filled = 8
level Status.canceled = 8
level Status.junk = 8
level Status.order_error = 8
level (other _) = 0

level-can_transition : (cur inc : Status) → can_transition cur inc ≡ true → level cur < level inc
unfolding level can_transition
level-can_transition cur inc h = ground arith

level-le : (st : Status) → level st ≤ 8
unfolding level
level-le st = ground arith

-- Chains of legal moves from one status to another, with their number of moves.
pub data Moves : Status → Status → ℕ → Type 0 where
  stay : {s : Status} → Moves s s 0
  move : {s t u : Status} {n : ℕ} → can_transition s t ≡ true → Moves t u n → Moves s u (suc n)

level-Moves : {s t : Status} {n : ℕ} → Moves s t n → level s + n ≤ level t
level-Moves stay = omega arith
level-Moves (move {s = s} {t = t} ok rest) =
    omega (arith, level-can_transition s t ok, level-Moves rest)

-- No life cycle is endless: a chain of legal moves has at most eight of them.
pub Moves-le : {s t : Status} {n : ℕ} → Moves s t n → n ≤ 8
Moves-le {s} {t} chain = omega (arith, level-Moves chain, level-le t)

-- No legal move leads back: a status that a chain of one move or more reaches is another status.
pub Moves-ne : {s t : Status} {n : ℕ} → Moves s t (suc n) → s ≢ t
Moves-ne chain same = omega (arith, level-Moves chain, ap level same)

-- `_LOCAL_ORDER_STATUS_RANK` of ez/live/ledger.py.
unfoldable pub local_order_status_rank : OrderStatus → ℕ
local_order_status_rank OrderStatus.new = 0
local_order_status_rank OrderStatus.submitted = 10
local_order_status_rank OrderStatus.partially_filled = 20
local_order_status_rank OrderStatus.filled = 30
local_order_status_rank OrderStatus.canceled = 30
local_order_status_rank OrderStatus.rejected = 30

-- A legal move of the broker status never lowers the rank of the order status it maps to, and a
-- terminal broker status maps to a terminal order status.
pub to_order_status_monotone :
    (cur inc : Status)
    → can_transition cur inc ≡ true
    → (local_order_status_rank (to_order_status cur)
        ≤ local_order_status_rank (to_order_status inc))
      × (is_terminal inc ≡ true → terminal_rank ≤ local_order_status_rank (to_order_status inc))
unfolding can_transition to_order_status local_order_status_rank is_terminal
to_order_status_monotone cur inc h = ground arith
