-- ===== src/Live/Oms/Apart.antt =====
-- Client order ids of the accepted and the rejected orders of ez/live/oms.py that are apart.
use backtesting_framework.Common.{List, [], ◌∷◌, map, All}
use backtesting_framework.Live.Risk.Rules.{Order}
use backtesting_framework.Live.Risk.Evaluate.{RejectedOrder}
use backtesting_framework.Live.Risk.Partition.{Interleaves, done, left, right, rejected_order}
use backtesting_framework.Live.Oms.EventIds.{IsApart, AreApart}

-- Some orders keep a property of all.
pub All-accepted :
    (P : Order → Type 0) {orders accepted rejected : List Order}
    → Interleaves orders accepted rejected
    → All P orders
    → All P accepted × All P rejected
All-accepted P done h = (tt, tt)
All-accepted P (left order split) (p, h) = let (a, r) = All-accepted P split h in ((p, a), r)
All-accepted P (right order split) (p, h) = let (a, r) = All-accepted P split h in (a, (p, r))

pub All-rejected :
    (P : Order → Type 0) (rejected : List RejectedOrder)
    → All P (map rejected_order rejected)
    → All (λ r. P r.order) rejected
All-rejected P [] h = tt
All-rejected P (r ∷ rejected) h = (h.0, All-rejected P rejected h.1)

abbrev pub IsApartFrom : List Order → Order → Type 0
IsApartFrom rejected order = All (λ r. IsApart r.client_order_id order.client_order_id) rejected

seconds :
    (order : Order) (orders : List Order)
    → All
        (λ later.
          IsApart order.client_order_id later.client_order_id
          × IsApart later.client_order_id order.client_order_id)
        orders
    → IsApartFrom orders order
seconds order [] h = tt
seconds order (later ∷ orders) h = (h.0.1, seconds order orders h.1)

one_more :
    (order : Order) (rejected accepted : List Order)
    → All
        (λ later.
          IsApart order.client_order_id later.client_order_id
          × IsApart later.client_order_id order.client_order_id)
        accepted
    → All (IsApartFrom rejected) accepted
    → All (IsApartFrom (order ∷ rejected)) accepted
one_more order rejected [] h k = tt
one_more order rejected (later ∷ accepted) h k =
    ((h.0.0, k.0), one_more order rejected accepted h.1 k.1)

-- Accepted orders are apart from each other and from the rejected ones.
pub Interleaves-AreApart :
    {orders accepted rejected : List Order}
    → Interleaves orders accepted rejected
    → AreApart orders
    → AreApart accepted × All (IsApartFrom rejected) accepted
Interleaves-AreApart done h = (tt, tt)
Interleaves-AreApart (left order split) h =
    let (a, r) = All-accepted _ split h.0 in
    let (apart, cross) = Interleaves-AreApart split h.1 in ((a, apart), (seconds order _ r, cross))
Interleaves-AreApart (right order split) h =
    let (a, r) = All-accepted _ split h.0 in
    let (apart, cross) = Interleaves-AreApart split h.1 in (apart, one_more order _ _ a cross)
