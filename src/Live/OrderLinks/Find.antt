-- ===== src/Live/OrderLinks/Find.antt =====
-- The row that a cancel acknowledgement or failure is about, in ez/live/_broker_order_links.py.
use mathlib.Core.Path.{ap₂, subst}
use backtesting_framework.Common.{
  ◌≡◌, refl, inl, inr, false, Option, none, some, List, [], ◌∷◌, arith, Bool-cases, ◌==◌, ==_eq,
  ==_refl,
}
use backtesting_framework.Common.Text.{Text, text_eq, is_empty, strip}
use backtesting_framework.Common.Dict.{get}
use backtesting_framework.Common.Sort.{In}
use backtesting_framework.Common.Sort.Laws.{All-In, HasDistinctKeys}
use backtesting_framework.Live.OrderLinks.Table.{
  LinkKey, link_key_eq, Link, Links, links_by_broker_order_id, the_only,
}
use backtesting_framework.Live.OrderLinks.Cancel.{
  RuntimeEvent, find_link, event_client_order_id, event_broker_order_id, event_key, keyed,
}

-- A table as the database holds it: its primary keys differ, and the client order ids are stripped.
pub record IsWellFormed (links : Links) : Type 0 where
  pub distinct : HasDistinctKeys (λ (e : LinkKey × Link). e.0) links
  pub stripped_ids :
      (e : LinkKey × Link) → In e links → strip e.0.client_order_id ≡ e.0.client_order_id

pub get_of_In :
    (links : Links) (e : LinkKey × Link)
    → HasDistinctKeys (λ (e : LinkKey × Link). e.0) links
    → In e links
    → get e.0 links ≡ some e.1
unfolding get
get_of_In [] e d m = absurd m
get_of_In ((j, v) ∷ links) e d (inl p) = rw (← p, ==_refl j) refl
get_of_In ((j, v) ∷ links) e d (inr m) = elim (Bool-cases (j == e.0)) [
  | inl hit ↦ absurd (All-In _ links d.0 e m (==_eq j e.0 hit))
  | inr miss ↦ rw miss (get_of_In links e d.1 m)
]

In-of_get :
    (links : Links) (k : LinkKey) (link : Link) → get k links ≡ some link → In (k, link) links
unfolding get
In-of_get [] k link h = cc
In-of_get ((j, v) ∷ links) k link h = elim (Bool-cases (j == k)) [
  | inl hit ↦
      inl (let got : some v ≡ some link = rw hit at h in ap₂ (λ a b. (a, b)) (==_eq j k hit) cc)
  | inr miss ↦ inr (In-of_get links k link (rw miss at h))
]

In-links_by_broker_order_id :
    (d b o a : Text) (links : Links) (e : LinkKey × Link)
    → In e (links_by_broker_order_id d b o a links)
    → In e links
unfolding links_by_broker_order_id
In-links_by_broker_order_id d b o a [] e m = m
In-links_by_broker_order_id d b o a ((key, link) ∷ links) e m =
    ground (arith, In-links_by_broker_order_id d b o a links e)

the_only-In : (es : List (LinkKey × Link)) (e : LinkKey × Link) → the_only es ≡ some e → In e es
the_only-In [] e h = cc
the_only-In (x ∷ []) e h = inl (cc)
the_only-In (x ∷ y ∷ es) e h = cc

keyed-In :
    (links : Links) (key : LinkKey) (found : Option Link) (e : LinkKey × Link)
    → get key links ≡ found
    → keyed key found ≡ some e
    → In e links
keyed-In links key none e g h = cc
keyed-In links key (some link) e g h =
    let same : (key, link) ≡ e = cc in subst (λ x. In x links) same (In-of_get links key link g)

-- The row that an event is about is a row of the table.
pub find_link-In :
    (deployment_id : Text) (event : RuntimeEvent) (links : Links) (e : LinkKey × Link)
    → find_link deployment_id event links ≡ some e
    → In e links
unfolding find_link
find_link-In deployment_id event links e h =
    let key = event_key deployment_id event (event_client_order_id event) in
    let matches =
      links_by_broker_order_id deployment_id event.broker_type (event_broker_order_id event)
        (strip event.account_id) links in
    ground (
      arith,
      keyed-In links key (get key links) e refl,
      the_only-In matches e,
      In-links_by_broker_order_id deployment_id event.broker_type (event_broker_order_id event)
          (strip event.account_id) links e,
    )

keyed-none : (key : LinkKey) (found : Option Link) → keyed key found ≡ none → found ≡ none
keyed-none key none h = refl
keyed-none key (some link) h = cc

-- An event with a client order id that finds no row names a key that is not in the table.
pub find_link-none :
    (deployment_id : Text) (event : RuntimeEvent) (links : Links)
    → find_link deployment_id event links ≡ none
    → is_empty (event_client_order_id event) ≡ false
    → get (event_key deployment_id event (event_client_order_id event)) links ≡ none
unfolding find_link
find_link-none deployment_id event links f named =
    let key = event_key deployment_id event (event_client_order_id event) in
    ground (arith, keyed-none key (get key links))
