-- ===== src/Live/Reconcile/OpenOrders.antt =====
-- When `reconcile_broker_orders` of ez/live/qmt/reconcile.py finds no drift.
use mathlib.Core.Path.{subst, ap₂}
use backtesting_framework.Common.{
  is_some, map, Bool, true, false, not, ◌⊎◌, Option, none, some, pos, ◌&&◌, ◌≡◌, ◌↔◌, refl, sym, ap,
  ◌∙◌, List, [], ◌∷◌, contains, arith, ◌==◌,
}
use backtesting_framework.Common.Text.{Text, text_eq, text_beq_iff, is_empty, codes}
use backtesting_framework.Common.Dict.{Dict, get, member, keys}
use backtesting_framework.Live.Events.Status.{Status, text, normalize_broker_order_status}
use backtesting_framework.Live.Events.Normalize.{normalize_idem}
use backtesting_framework.Live.Reconcile.OpenRows.{
  order_seen, link_seen, last_open, status_at, get-broker_rows, get-local_rows, IsNormal,
  IsNormal-orders, IsNormal-links,
}
use backtesting_framework.Live.Reconcile.Orders.{
  comparable_open_status, row_status, uncancelled, OpenRow, OrderReport, RawOrder, RawLink, differs,
  latest_reports_from, local_rows, broker_rows, reconcile_broker_orders,
}
use backtesting_framework.Live.Reconcile.Alike.{AreAlike, compare_rows_ok}

-- A status that is compared: a pending cancellation does not count.
abbrev pub compared : Status → Status
compared Status.reported_cancel_pending = Status.reported
compared Status.partially_filled_cancel_pending = Status.partially_filled
compared status = status

-- Two sides agree on a key if nothing is open under it on either, or if statuses are open under it on both
-- whose texts, pending cancellations aside, are equal, or one of which is empty.
abbrev pub Agree : Option Status → Option Status → Type 0
Agree none none = Unit
Agree none (some there) = ⊥
Agree (some here) none = ⊥
Agree (some here) (some there) =
    (text (compared here) ≡ text (compared there))
    ⊎ (is_empty (text (compared here)) ≡ true)
    ⊎ (is_empty (text (compared there)) ≡ true)

uncancelled-compared : (status : Status) → uncancelled status ≡ compared status
uncancelled-compared status = ground arith

comparable_open_status-compared :
    (status : Status)
    → IsNormal (some status)
    → comparable_open_status (text status) ≡ text (compared status)
unfolding comparable_open_status
comparable_open_status-compared status (raw, f, r, e) =
    ap (λ s. text (uncancelled s))
      (subst (λ s. normalize_broker_order_status (text s) (pos 0) (pos 0) ≡ s) e
        (normalize_idem raw f r))
    ∙ ap text (uncancelled-compared status)

abbrev texts_differ : Text → Text → Bool
texts_differ a b = not (is_empty a) && not (is_empty b) && not (a == b)

texts_differ_iff :
    (a b : Text)
    → (texts_differ a b ≡ false) ↔ ((a ≡ b) ⊎ (is_empty a ≡ true) ⊎ (is_empty b ≡ true))
texts_differ_iff a b = ground (arith, text_beq_iff a b)

differs_iff :
    (local broker : Dict Text OpenRow) (key : Text) (here there : OpenRow)
    → get key local ≡ some here
    → get key broker ≡ some there
    → IsNormal (some (here.status))
    → IsNormal (some (there.status))
    → (differs local broker key ≡ false) ↔ Agree (some (here.status)) (some (there.status))
unfolding differs
differs_iff local broker key here there h k p q =
    let local_text =
      ap (λ row. comparable_open_status (row_status row)) h
      ∙ comparable_open_status-compared here.status p in
    let broker_text =
      ap (λ row. comparable_open_status (row_status row)) k
      ∙ comparable_open_status-compared there.status q in
    let same : differs local broker key
        ≡ texts_differ (text (compared here.status)) (text (compared there.status)) =
      ap₂ texts_differ local_text broker_text in
    let iff = texts_differ_iff (text (compared here.status)) (text (compared there.status)) in
    (λ e. iff.0 (sym same ∙ e), λ a. same ∙ iff.1 a)

contains-keys : {V : Type 0} (d : Dict Text V) (key : Text) → contains (keys d) key ≡ member key d
unfolding member get
contains-keys [] key = refl
contains-keys ((k, v) ∷ d) key = ground (arith, contains-keys d key)

member-get :
    (d : Dict Text OpenRow) (key : Text) (found : Option OpenRow)
    → get key d ≡ found
    → member key d ≡ is_some found
unfolding member
member-get d key found h = ap is_some h

contradiction : false ≡ true → ⊥
contradiction h = cc

subst2 : {a b c d : Option Status} → a ≡ b → c ≡ d → Agree a c → Agree b d
subst2 {a} {b} {c} {d} e f h = subst (λ x. Agree b x) f (subst (λ x. Agree x c) e h)

-- One key of rows that are alike.
Agree-status_at :
    (local broker : Dict Text OpenRow) (key : Text) (here there : Option OpenRow)
    → get key local ≡ here
    → get key broker ≡ there
    → IsNormal (status_at here)
    → IsNormal (status_at there)
    → AreAlike local broker
    → Agree (status_at here) (status_at there)
Agree-status_at local broker key none none h k p q alike = tt
Agree-status_at local broker key none (some there) h k p q alike =
    let listed = contains-keys broker key ∙ member-get broker key (some there) k in
    absurd (contradiction (sym (member-get local key none h) ∙ alike.tracked key listed))
Agree-status_at local broker key (some here) none h k p q alike =
    let listed = contains-keys local key ∙ member-get local key (some here) h in
    absurd (contradiction (sym (member-get broker key none k) ∙ alike.opened key listed))
Agree-status_at local broker key (some here) (some there) h k p q alike =
    let listed = contains-keys local key ∙ member-get local key (some here) h in
    (differs_iff local broker key here there h k p q).0
      (alike.same_status key listed (member-get broker key (some there) k))

other_side :
    (here there : Option OpenRow)
    → Agree (status_at here) (status_at there)
    → is_some here ≡ is_some there
other_side none none a = refl
other_side none (some there) a = absurd a
other_side (some here) none a = absurd a
other_side (some here) (some there) a = refl

same_members :
    (local broker : Dict Text OpenRow) (key : Text)
    → Agree (status_at (get key local)) (status_at (get key broker))
    → member key local ≡ member key broker
unfolding member
same_members local broker key a = other_side (get key local) (get key broker) a

not_differing :
    (local broker : Dict Text OpenRow) (key : Text) (here there : Option OpenRow)
    → get key local ≡ here
    → get key broker ≡ there
    → IsNormal (status_at here)
    → IsNormal (status_at there)
    → Agree (status_at here) (status_at there)
    → member key broker ≡ true
    → differs local broker key ≡ false
not_differing local broker key here none h k p q a m =
    absurd (contradiction (sym (member-get broker key none k) ∙ m))
not_differing local broker key none (some there) h k p q a m = absurd a
not_differing local broker key (some here) (some there) h k p q a m =
    (differs_iff local broker key here there h k p q).1 a

AreAlike-Agree :
    (local broker : Dict Text OpenRow)
    → ((key : Text) → IsNormal (status_at (get key local)))
    → ((key : Text) → IsNormal (status_at (get key broker)))
    → AreAlike local broker
      ↔ ((key : Text) → Agree (status_at (get key local)) (status_at (get key broker)))
AreAlike-Agree local broker p q = (
  (λ alike key.
      Agree-status_at local broker key (get key local) (get key broker) refl refl (p key) (q key)
        alike),
  (λ agree. record {
    tracked =
        λ key m. same_members local broker key (agree key) ∙ sym (contains-keys broker key) ∙ m;
    opened = λ key m.
        sym (same_members local broker key (agree key)) ∙ sym (contains-keys local key) ∙ m;
    same_status = λ key m n.
        not_differing local broker key (get key local) (get key broker) refl refl (p key) (q key)
          (agree key) n;
  }),
)

-- A reconciliation of orders is ok exactly if the two sides agree on every key: the status of the last local link
-- under the key that is not terminal and the status of the last order of the broker under it that is not
-- terminal are both missing, or have equal texts, a pending cancellation aside, or one of the texts is empty.
-- The status of a link or an order is that of the report on it that no later one supersedes by its rank or, at
-- the same rank, by its time, and else its own.
pub reconcile_broker_orders_ok :
    (open_orders : List RawOrder) (local_order_links : List RawLink)
    (broker_reports : List OrderReport)
    → ((reconcile_broker_orders open_orders local_order_links broker_reports).status ≡ codes "ok")
      ↔ ((key : Text)
          → Agree
              (last_open key none (map (link_seen broker_reports) local_order_links))
              (last_open key none (map (order_seen broker_reports) open_orders)))
unfolding reconcile_broker_orders
reconcile_broker_orders_ok open_orders local_order_links broker_reports =
    let reports = latest_reports_from [] broker_reports in
    let local = local_rows reports [] local_order_links in
    let broker = broker_rows reports [] open_orders in
    let here = get-local_rows broker_reports local_order_links in
    let there = get-broker_rows broker_reports open_orders in
    let alike =
      AreAlike-Agree local broker
        (λ key.
          subst IsNormal (sym (here key))
            (IsNormal-links broker_reports local_order_links key none tt))
        (λ key.
          subst IsNormal (sym (there key))
            (IsNormal-orders broker_reports open_orders key none tt)) in
    let ok = compare_rows_ok local broker in
    (
      (λ e key. subst2 (here key) (there key) (alike.0 (ok.0 e) key)),
      (λ agree. ok.1 (alike.1 (λ key. subst2 (sym (here key)) (sym (there key)) (agree key)))),
    )
