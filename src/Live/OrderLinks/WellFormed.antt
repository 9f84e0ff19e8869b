-- ===== src/Live/OrderLinks/WellFormed.antt =====
-- The primary keys of the link table under each upsert of ez/live/_broker_order_links.py that an appended
-- event selects.
use backtesting_framework.Common.{
  ℕ, ◌≡◌, refl, sym, ◌∙◌, ap, ◌⊎◌, inl, inr, Bool, true, false, Option, none, some, List, [], ◌∷◌,
  arith, Bool-cases, ◌==◌, ==_eq, ==_refl, if◌then◌else◌,
}
use backtesting_framework.Common.Text.{Text, text_eq, is_empty, strip}
use backtesting_framework.Common.Text.Strip.{strip_idem}
use backtesting_framework.Common.Dict.{get, put}
use backtesting_framework.Common.Sort.{In}
use backtesting_framework.Common.Sort.Laws.{All-In, All-of_In, HasDistinctKeys}
use backtesting_framework.Live.Events.Status.{Status}
use backtesting_framework.Live.OrderLinks.Table.{LinkKey, link_key_eq, Link, Links}
use backtesting_framework.Live.OrderLinks.Upsert.{
  ExecutionReport, upsert_report, upsert_broker_order_links,
}
use backtesting_framework.Live.OrderLinks.Cancel.{
  RuntimeEvent, CancelRequest, request_key, pending_link, upsert_cancel_requested, find_link,
  upsert_cancel_ack, upsert_cancel_failed, restore, fail_cancel, acknowledge, restored_status,
}
use backtesting_framework.Live.OrderLinks.Find.{IsWellFormed, find_link-In}
use backtesting_framework.Live.OrderLinks.Log.{
  LoggedPayload, LoggedEvent, execution, cancel_requested, runtime, unrelated,
  upsert_execution_event, upsert_submit_ack, is_submit_ack, is_cancel_ack, dispatch,
}
use backtesting_framework.Live.OrderLinks.Cancel.{is_cancel_failed}

In-put :
    (key : LinkKey) (link : Link) (links : Links) (e : LinkKey × Link)
    → In e (put key link links)
    → (key ≡ e.0) ⊎ In e links
unfolding put
In-put key link [] e (inl p) = inl (ap (λ (x : LinkKey × Link). x.0) p)
In-put key link [] e (inr m) = absurd m
In-put key link ((j, old) ∷ links) e m = elim (Bool-cases (j == key)) [
  | inl hit ↦
      let here : ((j, link) ≡ e) ⊎ In e links = rw hit at m in
      elim here [
        | inl p ↦ inl (sym (==_eq j key hit) ∙ ap (λ (x : LinkKey × Link). x.0) p)
        | inr n ↦ inr (inr n)
      ]
  | inr miss ↦
      let there : ((j, old) ≡ e) ⊎ In e (put key link links) = rw miss at m in
      elim there [
        | inl p ↦ inr (inl p)
        | inr n ↦ elim (In-put key link links e n) [ inl p ↦ inl p | inr k ↦ inr (inr k) ]
      ]
]

abbrev IsKeyed : Links → Type 0
IsKeyed links = HasDistinctKeys (λ (e : LinkKey × Link). e.0) links

put-HasDistinctKeys :
    (key : LinkKey) (link : Link) (links : Links) → IsKeyed links → IsKeyed (put key link links)
unfolding put
put-HasDistinctKeys key link [] d = (tt, tt)
put-HasDistinctKeys key link ((j, old) ∷ links) d = elim (Bool-cases (j == key)) [
  | inl hit ↦ rw hit d
  | inr miss ↦ rw miss (
    All-of_In _ (put key link links) (λ e m same. elim (In-put key link links e m) [
      | inl p ↦
          let equal : j ≡ key = same ∙ sym p in
          let other : (key == key) ≡ false = rw equal at miss in
          let itself : (key == key) ≡ true = ==_refl key in cc
      | inr n ↦ All-In _ links d.0 e n same
    ]),
    put-HasDistinctKeys key link links d.1,
  )
]

put-IsWellFormed :
    (key : LinkKey) (link : Link) (links : Links)
    → strip key.client_order_id ≡ key.client_order_id
    → IsWellFormed links
    → IsWellFormed (put key link links)
put-IsWellFormed key link links s w = record {
  distinct = put-HasDistinctKeys key link links w.distinct;
  stripped_ids =
      λ e m. elim (In-put key link links e m) [ inl p ↦ rw (← p) s | inr n ↦ w.stripped_ids e n ];
}

if-IsWellFormed :
    (b : Bool) {x y : Links} → IsWellFormed x → IsWellFormed y → IsWellFormed (if b then x else y)
if-IsWellFormed true w v = w
if-IsWellFormed false w v = v

upsert_report-IsWellFormed :
    (deployment_id : Text) (now : ℕ) (report : ExecutionReport) (links : Links) (n : ℕ)
    → strip report.client_order_id ≡ report.client_order_id
    → IsWellFormed links
    → IsWellFormed (upsert_broker_order_links deployment_id now (report ∷ []) (links, n)).0
unfolding upsert_broker_order_links upsert_report
upsert_report-IsWellFormed deployment_id now report links n s w =
    elim (Bool-cases (is_empty report.client_order_id)) [
      | inl nameless ↦ rw nameless w
      | inr named ↦ rw named (put-IsWellFormed _ _ links s w)
    ]

upsert_cancel_requested-IsWellFormed :
    (now : ℕ) (events : List RuntimeEvent) (request : CancelRequest) (links : Links)
    → IsWellFormed links
    → IsWellFormed (upsert_cancel_requested now events request links)
unfolding upsert_cancel_requested
upsert_cancel_requested-IsWellFormed now events request links w =
    let key = request_key request in
    let written =
      put-IsWellFormed key
        (pending_link (get key links) (strip request.broker_order_id) request.symbol
          (strip request.account_id) now)
        links (strip_idem request.client_order_id) w in
    ground (arith, w, written)

acknowledge-IsWellFormed :
    (found : Option (LinkKey × Link)) (deployment_id : Text) (now : ℕ) (event : RuntimeEvent)
    (links : Links)
    → IsWellFormed links
    → IsWellFormed (acknowledge found deployment_id now event links)
unfolding acknowledge
acknowledge-IsWellFormed none deployment_id now event links w =
    if-IsWellFormed _ w (put-IsWellFormed _ _ links (strip_idem _) w)
acknowledge-IsWellFormed (some (key, link)) deployment_id now event links w =
    if-IsWellFormed _ w
      (if-IsWellFormed _ w (put-IsWellFormed _ _ links (strip_idem key.client_order_id) w))

restore-IsWellFormed :
    (key : LinkKey) (link : Link) (next : Option Status) (now : ℕ) (links : Links)
    → strip key.client_order_id ≡ key.client_order_id
    → IsWellFormed links
    → IsWellFormed (restore key link next now links)
unfolding restore
restore-IsWellFormed key link none now links s w = w
restore-IsWellFormed key link (some status) now links s w = put-IsWellFormed key _ links s w

fail_cancel-IsWellFormed :
    (found : Option (LinkKey × Link)) (now : ℕ) (links : Links)
    → ((e : LinkKey × Link) → found ≡ some e → In e links)
    → IsWellFormed links
    → IsWellFormed (fail_cancel found now links)
unfolding fail_cancel
fail_cancel-IsWellFormed none now links m w = w
fail_cancel-IsWellFormed (some (key, link)) now links m w =
    restore-IsWellFormed key link (restored_status link.latest_status) now links
      (w.stripped_ids (key, link) (m (key, link) refl)) w

-- The upsert that an appended event selects keeps the table well formed.
pub dispatch-IsWellFormed :
    (isoformat : ℕ → Text) (log : List LoggedEvent) (deployment_id : Text) (now : ℕ)
    (payload : LoggedPayload) (links : Links)
    → IsWellFormed links
    → IsWellFormed (dispatch isoformat log deployment_id now payload links)
unfolding dispatch upsert_execution_event upsert_submit_ack upsert_cancel_ack upsert_cancel_failed
dispatch-IsWellFormed isoformat log deployment_id now (execution report) links w =
    if-IsWellFormed _ w
      (upsert_report-IsWellFormed deployment_id now _ links 0 (strip_idem report.client_order_id) w)
dispatch-IsWellFormed isoformat log deployment_id now (cancel_requested request) links w =
    upsert_cancel_requested-IsWellFormed now _ _ links w
dispatch-IsWellFormed isoformat log deployment_id now (runtime event) links w =
    if-IsWellFormed (is_submit_ack event)
      (if-IsWellFormed _ w
        (upsert_report-IsWellFormed deployment_id now _ links 0 (strip_idem _) w))
      (if-IsWellFormed (is_cancel_ack event)
        (if-IsWellFormed (is_empty event.broker_type) w (
          acknowledge-IsWellFormed (find_link deployment_id event links) deployment_id now event
            links w))
        (if-IsWellFormed (is_cancel_failed event)
          (if-IsWellFormed (is_empty event.broker_type) w (
            fail_cancel-IsWellFormed (find_link deployment_id event links) now links
              (find_link-In deployment_id event links) w))
          w))
dispatch-IsWellFormed isoformat log deployment_id now unrelated links w = w
