-- ===== src/Live/OrderLinks/Table.antt =====
-- The table deployment_broker_order_links as a dictionary on its primary key. Every writer stores a
-- normalized status, so a row holds a `Status`; timestamps are numbers in their order.
use backtesting_framework.Common.{
  ℕ, ◌≡◌, ◌↔◌, Bool, true, ◌&&◌, ◌||◌, Option, none, some, List, [], ◌∷◌, arith, Eq, ◌==◌,
  if◌then◌else◌,
}
use backtesting_framework.Common.Text.{Text, text_eq, text_beq, text_beq_iff, is_empty, strip}
use backtesting_framework.Common.Dict.{Dict}
use backtesting_framework.Live.Events.Status.{Status}

-- The primary key.
pub record LinkKey : Type 0 where
  pub deployment_id : Text
  pub broker_type : Text
  pub client_order_id : Text

abbrev pub link_key_beq : LinkKey → LinkKey → Bool
link_key_beq a b =
    text_beq a.deployment_id b.deployment_id
    && text_beq a.broker_type b.broker_type
    && text_beq a.client_order_id b.client_order_id

pub link_key_beq_iff : (a b : LinkKey) → (link_key_beq a b ≡ true) ↔ (a ≡ b)
link_key_beq_iff a b = ground (
  arith,
  text_beq_iff a.deployment_id b.deployment_id,
  text_beq_iff a.broker_type b.broker_type,
  text_beq_iff a.client_order_id b.client_order_id,
)

instance abbrev pub link_key_eq : Eq LinkKey
link_key_eq = record { beq = link_key_beq; beq_iff = link_key_beq_iff }

pub record Link : Type 0 where
  pub broker_order_id : Text
  pub symbol : Text
  pub account_id : Text
  pub latest_report_id : Text
  pub latest_status : Status
  pub last_report_ts : Option ℕ
  pub created_at : ℕ
  pub updated_at : ℕ

abbrev pub Links : Type 0
Links = Dict LinkKey Link

-- What the upserts read of the row before, with their defaults where there is none.
abbrev pub blank : Link
blank = record {
  broker_order_id = [];
  symbol = [];
  account_id = [];
  latest_report_id = [];
  latest_status = Status.unknown;
  last_report_ts = none;
  created_at = 0;
  updated_at = 0;
}

abbrev pub or_blank : Option Link → Link
or_blank none = blank
or_blank (some link) = link

-- `COALESCE((SELECT created_at …), now)`
abbrev pub created : Option Link → ℕ → ℕ
created none now = now
created (some link) now = link.created_at

-- The account condition of `list_broker_order_links_by_broker_order_id`.
abbrev pub account_fits : Text → Text → Bool
account_fits wanted stored = is_empty (strip wanted) || stored == strip wanted || is_empty stored

-- The rows that `list_broker_order_links_by_broker_order_id` selects. The callers here use the result
-- only if it has one row, so its order is left out.
unfoldable pub links_by_broker_order_id : Text → Text → Text → Text → Links → List (LinkKey × Link)
links_by_broker_order_id deployment_id broker_type broker_order_id account_id [] = []
links_by_broker_order_id deployment_id broker_type broker_order_id account_id
      ((key, link) ∷ links) =
    let rest =
      links_by_broker_order_id deployment_id broker_type broker_order_id account_id links in
    if key.deployment_id == deployment_id
      && key.broker_type == broker_type
      && link.broker_order_id == broker_order_id
      && account_fits account_id link.account_id
    then (key, link) ∷ rest
    else rest

-- `if len(matches) == 1`
abbrev pub the_only : List (LinkKey × Link) → Option (LinkKey × Link)
the_only (entry ∷ []) = some entry
the_only _ = none
