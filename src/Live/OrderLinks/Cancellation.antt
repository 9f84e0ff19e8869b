-- ===== src/Live/OrderLinks/Cancellation.antt =====
-- The stages of a cancellation in ez/live/_broker_order_links.py, and links with a terminal status.
use backtesting_framework.Common.{
  ℕ, ◌≡◌, refl, ap, inl, inr, true, false, Option, none, some, List, arith, Bool-cases, ◌==◌, ==_eq,
}
use backtesting_framework.Common.Text.{Text, text_eq, is_empty, strip}
use backtesting_framework.Common.Dict.{get, put, get-put}
use backtesting_framework.Common.Sort.{In}
use backtesting_framework.Live.Events.Status.{Status, is_terminal}
use backtesting_framework.Live.OrderLinks.Table.{LinkKey, link_key_eq, Link, Links, or_blank}
use backtesting_framework.Live.OrderLinks.Cancel.{
  RuntimeEvent, CancelRequest, pending_link, is_ahead, request_key, upsert_cancel_requested,
  find_link, event_client_order_id, restored_status, restore, fail_cancel, upsert_cancel_failed,
  acknowledge, upsert_cancel_ack,
}
use backtesting_framework.Live.OrderLinks.Find.{
  IsWellFormed, get_of_In, find_link-In, find_link-none,
}

-- Writing to the key of a row that is not terminal leaves every terminal row as it is.
put_not_terminal :
    (links : Links) (key : LinkKey) (after : Link) (k : LinkKey) (link : Link)
    → is_terminal (or_blank (get key links)).latest_status ≡ false
    → get k links ≡ some link
    → is_terminal link.latest_status ≡ true
    → get k (put key after links) ≡ some link
put_not_terminal links key after k link open_row here over = elim (Bool-cases (key == k)) [
  | inl hit ↦
      let other : is_terminal link.latest_status ≡ false = rw (==_eq key k hit, here) at open_row in
      cc
  | inr miss ↦ rw (get-put, miss) here
]

-- A cancel request leaves every link with a terminal status exactly as it is.
pub cancel_requested_keeps_terminal :
    (now : ℕ) (events : List RuntimeEvent) (request : CancelRequest) (links : Links) (k : LinkKey)
    (link : Link)
    → get k links ≡ some link
    → is_terminal link.latest_status ≡ true
    → get k (upsert_cancel_requested now events request links) ≡ some link
unfolding upsert_cancel_requested
cancel_requested_keeps_terminal now events request links k link here over =
    let key = request_key request in
    ground (
      arith,
      put_not_terminal links key
          (pending_link (get key links) (strip request.broker_order_id) request.symbol
            (strip request.account_id) now)
          k link,
    )

terminal_or_blank :
    (links : Links) (key : LinkKey) (link : Link)
    → get key links ≡ some link
    → is_terminal link.latest_status ≡ false
    → is_terminal (or_blank (get key links)).latest_status ≡ false
terminal_or_blank links key link g h = rw g h

abbrev Keeps : Links → Links → LinkKey → Link → Type 0
Keeps before after k link =
    get k before ≡ some link → is_terminal link.latest_status ≡ true → get k after ≡ some link

absent_not_terminal :
    (links : Links) (key : LinkKey)
    → get key links ≡ none
    → is_terminal (or_blank (get key links)).latest_status ≡ false
unfolding is_terminal
absent_not_terminal links key g = rw g refl

acknowledge-Keeps :
    (found : Option (LinkKey × Link)) (deployment_id : Text) (now : ℕ) (event : RuntimeEvent)
    (links : Links) (k : LinkKey) (link : Link)
    → IsWellFormed links
    → find_link deployment_id event links ≡ found
    → Keeps links (acknowledge found deployment_id now event links) k link
unfolding acknowledge
acknowledge-Keeps none deployment_id now event links k link w f here over =
    elim (Bool-cases (is_empty (event_client_order_id event))) [
      | inl nameless ↦ rw nameless here
      | inr named ↦ rw named (
          put_not_terminal links _ _ k link
            (absent_not_terminal links _ (find_link-none deployment_id event links f named)) here
            over)
    ]
acknowledge-Keeps (some (key, l)) deployment_id now event links k link w f here over =
    let m : In (key, l) links = find_link-In deployment_id event links (key, l) f in
    let g : get key links ≡ some l = get_of_In links (key, l) w.distinct m in
    let same : record key { client_order_id = strip key.client_order_id } ≡ key =
      ap (λ (t : Text). record key { client_order_id = t }) (w.stripped_ids (key, l) m) in
    elim (Bool-cases (is_terminal l.latest_status)) [
      | inl done ↦ rw done here
      | inr live ↦ elim (Bool-cases (is_ahead (some l))) [
        | inl ahead ↦ rw (live, ahead) here
        | inr behind ↦
            rw (live, behind, same)
              (put_not_terminal links key _ k link (terminal_or_blank links key l g live) here over)
      ]
    ]

-- An acknowledged cancellation leaves every link with a terminal status exactly as it is.
pub cancel_ack_keeps_terminal :
    (deployment_id : Text) (now : ℕ) (event : RuntimeEvent) (links : Links) (k : LinkKey)
    (link : Link)
    → IsWellFormed links
    → get k links ≡ some link
    → is_terminal link.latest_status ≡ true
    → get k (upsert_cancel_ack deployment_id now event links) ≡ some link
unfolding upsert_cancel_ack
cancel_ack_keeps_terminal deployment_id now event links k link w here over =
    elim (Bool-cases (is_empty event.broker_type)) [
      | inl nameless ↦ rw nameless here
      | inr named ↦ rw named (
          acknowledge-Keeps (find_link deployment_id event links) deployment_id now event links k
            link w refl here over)
    ]

pending_not_terminal : (st next : Status) → restored_status st ≡ some next → is_terminal st ≡ false
unfolding restored_status is_terminal
pending_not_terminal st next h = ground arith

restore-Keeps :
    (key : LinkKey) (l : Link) (next : Option Status) (now : ℕ) (links : Links) (k : LinkKey)
    (link : Link)
    → get key links ≡ some l
    → restored_status l.latest_status ≡ next
    → Keeps links (restore key l next now links) k link
unfolding restore
restore-Keeps key l none now links k link g r here over = here
restore-Keeps key l (some next) now links k link g r here over =
    put_not_terminal links key _ k link
      (terminal_or_blank links key l g (pending_not_terminal l.latest_status next r)) here over

fail_cancel-Keeps :
    (found : Option (LinkKey × Link)) (now : ℕ) (links : Links) (k : LinkKey) (link : Link)
    → ((e : LinkKey × Link) → found ≡ some e → get e.0 links ≡ some e.1)
    → Keeps links (fail_cancel found now links) k link
unfolding fail_cancel
fail_cancel-Keeps none now links k link g here over = here
fail_cancel-Keeps (some (key, l)) now links k link g here over =
    restore-Keeps key l (restored_status l.latest_status) now links k link (g (key, l) refl) refl
      here over

-- A failed cancellation leaves every link with a terminal status exactly as it is.
pub cancel_failed_keeps_terminal :
    (deployment_id : Text) (now : ℕ) (event : RuntimeEvent) (links : Links) (k : LinkKey)
    (link : Link)
    → IsWellFormed links
    → get k links ≡ some link
    → is_terminal link.latest_status ≡ true
    → get k (upsert_cancel_failed deployment_id now event links) ≡ some link
unfolding upsert_cancel_failed
cancel_failed_keeps_terminal deployment_id now event links k link w here over =
    elim (Bool-cases (is_empty event.broker_type)) [
      | inl nameless ↦ rw nameless here
      | inr named ↦ rw named (
          fail_cancel-Keeps (find_link deployment_id event links) now links k link
            (λ e f. get_of_In links e w.distinct (find_link-In deployment_id event links e f)) here
            over)
    ]
