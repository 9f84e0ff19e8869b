-- ===== src/Live/OrderLinks/Forward.antt =====
-- Execution reports and the rows that were there before, in ez/live/_broker_order_links.py.
use backtesting_framework.Common.{
  ℕ, ◌≤◌, ◌≡◌, refl, inl, inr, false, Option, none, some, List, [], ◌∷◌, arith, Bool-cases, ◌==◌,
  ==_eq,
}
use backtesting_framework.Common.Text.{Text, is_empty, text_or}
use backtesting_framework.Common.Dict.{get, put, get-put}
use backtesting_framework.Live.Events.Status.{Status, status_rank}
use backtesting_framework.Live.OrderLinks.Table.{LinkKey, link_key_eq, Link, Links, or_blank}
use backtesting_framework.Live.OrderLinks.Upsert.{
  ExecutionReport, should_advance, report_status, merged_status, merged_link, report_key,
  upsert_report, upsert_broker_order_links,
}

-- What reports do to a row: its rank does not fall, its creation time stays, and a broker order id,
-- symbol or account that is known is not lost.
abbrev pub Follows : Option Link → Option Link → Type 0
Follows none after = Unit
Follows (some before) none = ⊥
Follows (some before) (some after) =
    (status_rank before.latest_status ≤ status_rank after.latest_status)
    × (after.created_at ≡ before.created_at)
    × (is_empty before.broker_order_id ≡ false → is_empty after.broker_order_id ≡ false)
    × (is_empty before.symbol ≡ false → is_empty after.symbol ≡ false)
    × (is_empty before.account_id ≡ false → is_empty after.account_id ≡ false)

Follows-refl : (a : Option Link) → Follows a a
Follows-refl none = tt
Follows-refl (some a) = (omega arith, refl, λ h. h, λ h. h, λ h. h)

Follows-trans : (a b c : Option Link) → Follows a b → Follows b c → Follows a c
Follows-trans none b c h k = tt
Follows-trans (some a) none c h k = absurd h
Follows-trans (some a) (some b) none h k = absurd k
Follows-trans (some a) (some b) (some c) h k = ground arith

text_or_known : (new old : Text) → is_empty old ≡ false → is_empty (text_or new old) ≡ false
text_or_known [] old h = h
text_or_known (c ∷ new) old h = refl

rank-merged_status :
    (before : Option Link) (status : Status) (incoming : ℕ)
    → status_rank (or_blank before).latest_status
      ≤ status_rank (merged_status before status (should_advance before status incoming))
unfolding merged_status should_advance
rank-merged_status none status incoming = unfold status_rank in omega arith
rank-merged_status (some link) status incoming = ground arith

Follows-merged_link :
    (before : Option Link) (report : ExecutionReport) (now : ℕ)
    → Follows before (some (merged_link before report now))
unfolding merged_link
Follows-merged_link none report now = tt
Follows-merged_link (some link) report now = (
  rank-merged_status (some link) (report_status (some link) report) report.as_of,
  refl,
  text_or_known report.broker_order_id link.broker_order_id,
  text_or_known report.symbol link.symbol,
  text_or_known report.account_id link.account_id,
)

pub Follows-put :
    (links : Links) (key : LinkKey) (after : Link) (k : LinkKey)
    → Follows (get key links) (some after)
    → Follows (get k links) (get k (put key after links))
Follows-put links key after k h = elim (Bool-cases (key == k)) [
  | inl hit ↦ rw (get-put, hit, ← ==_eq key k hit) h
  | inr miss ↦ rw (get-put, miss) (Follows-refl (get k links))
]

Follows-upsert_report :
    (deployment_id : Text) (now : ℕ) (report : ExecutionReport) (state : Links × ℕ) (k : LinkKey)
    → Follows (get k state.0) (get k (upsert_report deployment_id now report state).0)
unfolding upsert_report
Follows-upsert_report deployment_id now report state k =
    let key = report_key deployment_id report in
    elim (Bool-cases (is_empty report.client_order_id)) [
      | inl nameless ↦ rw nameless (Follows-refl (get k state.0))
      | inr named ↦
          rw named (Follows-put state.0 key _ k (Follows-merged_link (get key state.0) report now))
    ]

-- After any reports, each row that was there still is: its status has not fallen in rank, its creation
-- time is unchanged, and no broker order id, symbol or account id that it had has been emptied.
pub upsert_broker_order_links-Follows :
    (deployment_id : Text) (now : ℕ) (reports : List ExecutionReport) (state : Links × ℕ)
    (k : LinkKey)
    → Follows (get k state.0) (get k (upsert_broker_order_links deployment_id now reports state).0)
unfolding upsert_broker_order_links
upsert_broker_order_links-Follows deployment_id now [] state k = Follows-refl (get k state.0)
upsert_broker_order_links-Follows deployment_id now (report ∷ reports) state k =
    Follows-trans _ _ _ (Follows-upsert_report deployment_id now report state k) (
      upsert_broker_order_links-Follows deployment_id now reports
        (upsert_report deployment_id now report state) k)
