-- ===== src/Live/PaperBroker/Reported.antt =====
-- The order reports of ez/live/paper_broker.py against the fills they are made of.
use backtesting_framework.Common.{
  ℤ, pos, ◌+ℤ◌, ◌-ℤ◌, ltb_ℤ, leb_ℤ, ◌≡◌, ◌≢◌, refl, sym, ap, ◌∙◌, Bool, true, false, arith, List,
  [], ◌∷◌, ◌++◌, if◌then◌else◌, Float, ◌==◌, Eq, Bool-cases, inl, inr, ==_eq,
}
use mathlib.Core.List.{append-nil, append_assoc}
use backtesting_framework.Common.Text.{Text, text_eq, codes}
use backtesting_framework.Common.Dict.{Dict, get_or, put}
use backtesting_framework.Common.Sort.Filter.{filter_by}
use backtesting_framework.Live.Risk.Rules.{Order}
use backtesting_framework.Live.PaperBroker.Fills.{BrokerFillReport, left_of}
use backtesting_framework.Live.PaperBroker.Reports.{
  BrokerOrderReport, group_key, groups_from, shares_from, status_of, report_on, reports_on,
  build_order_reports,
}

module _ {ℓ κ} {K : Type ℓ} {V : Type κ} ⦃e : Eq K⦄ where
  get_or-put :
      (k j : K) (v w : V) (d : Dict K V)
      → get_or j w (put k v d) ≡ (if k == j then v else get_or j w d)
  unfolding get_or put
  get_or-put k j v w [] = refl
  get_or-put k j v w ((i, u) ∷ d) =
      ground (arith, e.beq_iff k j, e.beq_iff i k, e.beq_iff i j, get_or-put k j v w d)

balanced_lem :
    (requested filled : ℤ)
    → leb_ℤ filled requested ≡ true
    → filled +ℤ left_of requested filled ≡ requested
unfolding ◌+ℤ◌ ◌-ℤ◌
balanced_lem requested filled h = ground arith

module _ {F : Type 0} where
  -- The fills of an order.
  abbrev pub is_of : Text → BrokerFillReport F → Bool
  is_of key fill = group_key fill == key

  abbrev pub fills_of : Text → List (BrokerFillReport F) → List (BrokerFillReport F)
  fills_of key fills = filter_by (is_of key) fills

  get_or-groups_from :
      (key : Text) (groups : Dict Text (List (BrokerFillReport F)))
      (fills : List (BrokerFillReport F))
      → get_or key [] (groups_from groups fills) ≡ get_or key [] groups ++ fills_of key fills
  unfolding groups_from filter_by
  get_or-groups_from key groups [] = sym (append-nil (get_or key [] groups))
  get_or-groups_from key groups (fill ∷ fills) =
      let own = group_key fill in
      let group = get_or own [] groups ++ fill ∷ [] in
      get_or-groups_from key (put own group groups) fills
      ∙ ap (λ before. before ++ fills_of key fills) (get_or-put own key group [] groups)
      ∙ elim (Bool-cases (own == key)) [
        | inl same ↦
            rw (same, ==_eq own key same)
              (append_assoc (get_or key [] groups) (fill ∷ []) (fills_of key fills))
        | inr other ↦ rw other refl
      ]

  groups_from-fills_of :
      (key : Text) (fills : List (BrokerFillReport F))
      → get_or key [] (groups_from [] fills) ≡ fills_of key fills
  unfolding get_or
  groups_from-fills_of key fills = get_or-groups_from key [] fills

  -- What a report says of an order, given all fills.
  pub record IsReportOf (fills : List (BrokerFillReport F)) (order : Order)
      (report : BrokerOrderReport F) : Type 0 where
    pub named : report.client_order_id ≡ order.client_order_id
    pub requested : report.requested_shares ≡ order.shares
    pub filled : report.filled_shares ≡ shares_from (pos 0) (fills_of order.client_order_id fills)
    pub balanced :
        leb_ℤ report.filled_shares order.shares ≡ true
        → report.filled_shares +ℤ report.remaining_shares ≡ order.shares
    pub rejected : fills_of order.client_order_id fills ≡ [] → report.status ≡ codes "rejected"
    pub partial :
        fills_of order.client_order_id fills ≢ []
        → ltb_ℤ report.filled_shares order.shares ≡ true
        → report.status ≡ codes "partially_filled"
    pub full :
        fills_of order.client_order_id fills ≢ []
        → leb_ℤ order.shares report.filled_shares ≡ true
        → report.status ≡ codes "filled"

  -- One report for each order, in their order.
  abbrev pub AreReportsOf :
      List (BrokerFillReport F) → List Order → List (BrokerOrderReport F) → Type 0
  AreReportsOf fills [] [] = Unit
  AreReportsOf fills (order ∷ orders) (report ∷ reports) =
      IsReportOf fills order report × AreReportsOf fills orders reports
  AreReportsOf fills _ _ = ⊥

  status_of-partial :
      (requested filled : ℤ) (own : List (BrokerFillReport F))
      → own ≢ []
      → ltb_ℤ filled requested ≡ true
      → status_of requested filled own ≡ codes "partially_filled"
  status_of-partial requested filled [] h k = absurd (h refl)
  status_of-partial requested filled (fill ∷ own) h k = rw k refl

  status_of-full :
      (requested filled : ℤ) (own : List (BrokerFillReport F))
      → own ≢ []
      → leb_ℤ requested filled ≡ true
      → status_of requested filled own ≡ codes "filled"
  status_of-full requested filled [] h k = absurd (h refl)
  status_of-full requested filled (fill ∷ own) h k =
      let no : ltb_ℤ filled requested ≡ false = ground arith in rw no refl

module _ {F : Type 0} ⦃o : Float F⦄ where
  report_on-IsReportOf :
      (fills : List (BrokerFillReport F)) (order : Order)
      → IsReportOf fills order (report_on order (fills_of order.client_order_id fills))
  unfolding report_on
  report_on-IsReportOf fills order =
      let own = fills_of order.client_order_id fills in
      let filled = shares_from (pos 0) own in
      record {
        named = refl;
        requested = refl;
        filled = refl;
        balanced = balanced_lem order.shares filled;
        rejected = λ e. ap (status_of order.shares filled) e;
        partial = status_of-partial order.shares filled own;
        full = status_of-full order.shares filled own;
      }

  reports_on-AreReportsOf :
      (fills : List (BrokerFillReport F)) (orders : List Order)
      → AreReportsOf fills orders (reports_on (groups_from [] fills) orders)
  unfolding reports_on
  reports_on-AreReportsOf fills [] = tt
  reports_on-AreReportsOf fills (order ∷ orders) = (
    rw (groups_from-fills_of order.client_order_id fills) (report_on-IsReportOf fills order),
    reports_on-AreReportsOf fills orders,
  )

  -- Each requested order has its report, in the order of the requests: the filled shares are those of the
  -- fills that carry the order's id, or its id as symbol and side if they carry none; they and the remaining
  -- shares make up the order, unless it is overfilled; and the status is rejected if there is no such fill,
  -- and otherwise partially_filled or filled by the number of shares.
  pub build_order_reports-AreReportsOf :
      (orders : List Order) (fills : List (BrokerFillReport F))
      → AreReportsOf fills orders (build_order_reports orders fills)
  unfolding build_order_reports
  build_order_reports-AreReportsOf orders fills = reports_on-AreReportsOf fills orders
