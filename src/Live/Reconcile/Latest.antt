-- ===== src/Live/Reconcile/Latest.antt =====
-- The latest report on a key in ez/live/qmt/reconcile.py.
use backtesting_framework.Common.{
  ℕ, Bool, true, false, not, ◌&&◌, ◌||◌, ltb, leb, nat_beq, ◌≡◌, refl, sym, ap, ◌∙◌, inl, inr,
  Option, none, some, List, [], ◌∷◌, if◌then◌else◌, contains, arith, Bool-cases, ◌==◌, ==_eq,
}
use backtesting_framework.Common.Text.{Text, text_eq, text_beq, strip, is_empty}
use backtesting_framework.Common.Dict.{Dict, get, put, get-put}
use backtesting_framework.Live.Events.Status.{Status, status_rank, normalize_broker_order_status}
use backtesting_framework.Live.Reconcile.Orders.{
  OrderReport, LatestReport, add_key, keys_of_report, is_later, record_under, latest_reports_from,
}

-- The status that a report shows.
abbrev pub reported_status : OrderReport → Status
reported_status report =
    normalize_broker_order_status report.status report.filled_shares report.remaining_shares

-- A report is on a key, which is not empty, if one of its two ids is the key.
abbrev pub is_on : Text → OrderReport → Bool
is_on key report =
    not (is_empty key)
    && (strip report.client_order_id == key || strip report.broker_order_id == key)

-- A report supersedes another if its status has a higher rank, or the same rank and it is not older.
abbrev pub supersedes : OrderReport → Option OrderReport → Bool
supersedes report none = true
supersedes report (some before) =
    ltb (status_rank (reported_status before)) (status_rank (reported_status report))
    || (nat_beq (status_rank (reported_status before)) (status_rank (reported_status report))
        && leb before.as_of report.as_of)

-- The report on a key that no later one in the list supersedes.
abbrev pub latest_on : Text → Option OrderReport → List OrderReport → Option OrderReport
latest_on key found [] = found
latest_on key found (report ∷ reports) =
    latest_on key (if is_on key report && supersedes report found then some report else found)
      reports

abbrev pub as_latest : OrderReport → LatestReport
as_latest report = record { report = report; status = reported_status report }

abbrev pub recorded : Option OrderReport → Option LatestReport
recorded none = none
recorded (some report) = some (as_latest report)

if_same : {A : Type 0} (b : Bool) (a : A) → (if b then a else a) ≡ a
if_same b a = ground arith

if_same_false :
    (c : Bool) (found : Option OrderReport) (report : OrderReport)
    → (if c && false then some report else found) ≡ found
if_same_false c found report = ground arith

nat_swap : (a b : ℕ) (c : Bool) → ltb a b || (nat_beq b a && c) ≡ ltb a b || (nat_beq a b && c)
nat_swap a b c = ground arith

or_same : (b : Bool) → b || false ≡ b || b
or_same b = ground arith

or_swap : (b c : Bool) → b || (c || false) ≡ c || b
or_swap b c = ground arith

either :
    (b c : Bool) (report : OrderReport) (found : Option OrderReport)
    → (let next = if b && supersedes report found then some report else found in
        if c && supersedes report next then some report else next)
      ≡ (if (b || c) && supersedes report found then some report else found)
either true c report found = elim (Bool-cases (supersedes report found)) [
  | inl new ↦ rw new (if_same (c && supersedes report (some report)) (some report))
  | inr old ↦ rw (old, old) (if_same_false c found report)
]
either false c report found = refl

-- The ids of a report that has both.
two_ids :
    (a b key : Text)
    → contains (if (b == a) || false then b ∷ [] else b ∷ a ∷ []) key ≡ (a == key) || (b == key)
two_ids a b key = elim (Bool-cases (b == a)) [
  | inl same ↦ rw same (
      ap (λ c. (c == key) || false) (==_eq b a same)
      ∙ or_same (a == key)
      ∙ ap (λ c. (a == key) || (c == key)) (sym (==_eq b a same)))
  | inr other ↦ rw other (or_swap (b == key) (a == key))
]

contains-add_key :
    (a b key : Text)
    → contains (add_key a (add_key b [])) key ≡ not (is_empty key) && (a == key || b == key)
unfolding text_beq
contains-add_key [] [] [] = refl
contains-add_key [] [] (k ∷ key) = refl
contains-add_key [] (d ∷ b) [] = refl
contains-add_key [] (d ∷ b) (k ∷ key) = ground arith
contains-add_key (c ∷ a) [] [] = refl
contains-add_key (c ∷ a) [] (k ∷ key) = ground arith
contains-add_key (c ∷ a) (d ∷ b) [] = two_ids (c ∷ a) (d ∷ b) []
contains-add_key (c ∷ a) (d ∷ b) (k ∷ key) = two_ids (c ∷ a) (d ∷ b) (k ∷ key)

contains-keys_of_report :
    (report : OrderReport) (key : Text) → contains (keys_of_report report) key ≡ is_on key report
contains-keys_of_report report key =
    contains-add_key (strip report.client_order_id) (strip report.broker_order_id) key

supersedes-is_later :
    (report : OrderReport) (found : Option OrderReport)
    → is_later (as_latest report) (recorded found) ≡ supersedes report found
supersedes-is_later report none = refl
supersedes-is_later report (some before) =
    nat_swap (status_rank (reported_status before)) (status_rank (reported_status report))
      (leb before.as_of report.as_of)

if_found :
    (b : Bool) (report : OrderReport) (found : Option OrderReport)
    → recorded (if b then some report else found)
      ≡ (if b then some (as_latest report) else recorded found)
if_found true report found = refl
if_found false report found = refl

-- One key of a report.
get-record :
    (report : OrderReport) (k : Text) (reports : Dict Text LatestReport) (key : Text)
    (found : Option OrderReport)
    → get key reports ≡ recorded found
    → get key (
        if is_later (as_latest report) (get k reports)
        then put k (as_latest report) reports
        else reports)
      ≡ recorded (if (k == key) && supersedes report found then some report else found)
get-record report k reports key found h = elim (Bool-cases (k == key)) [
  | inl same ↦
      let sameness = ==_eq k key same in
      let later =
        ap (λ j. is_later (as_latest report) (get j reports)) sameness
        ∙ ap (is_later (as_latest report)) h
        ∙ supersedes-is_later report found in
      elim (Bool-cases (supersedes report found)) [
        | inl new ↦ rw (later ∙ new, same, new, get-put, same) refl
        | inr old ↦ rw (later ∙ old, same, old) h
      ]
  | inr other ↦ elim (Bool-cases (is_later (as_latest report) (get k reports))) [
    | inl new ↦ rw (new, other, get-put, other) h
    | inr old ↦ rw (old, other) h
  ]
]

get-record_under :
    (report : OrderReport) (report_keys : List Text) (reports : Dict Text LatestReport) (key : Text)
    (found : Option OrderReport)
    → get key reports ≡ recorded found
    → get key (record_under (as_latest report) report_keys reports)
      ≡ recorded
          (if contains report_keys key && supersedes report found then some report else found)
unfolding record_under
get-record_under report [] reports key found h = h
get-record_under report (k ∷ report_keys) reports key found h =
    get-record_under report report_keys
      (if is_later (as_latest report) (get k reports)
        then put k (as_latest report) reports
        else reports)
      key (if (k == key) && supersedes report found then some report else found)
      (get-record report k reports key found h)
    ∙ ap recorded (either (k == key) (contains report_keys key) report found)

pub get-latest_reports_from :
    (reports : Dict Text LatestReport) (list : List OrderReport) (key : Text)
    (found : Option OrderReport)
    → get key reports ≡ recorded found
    → get key (latest_reports_from reports list) ≡ recorded (latest_on key found list)
unfolding latest_reports_from
get-latest_reports_from reports [] key found h = h
get-latest_reports_from reports (report ∷ list) key found h =
    get-latest_reports_from (record_under (as_latest report) (keys_of_report report) reports) list
      key (if is_on key report && supersedes report found then some report else found)
      (get-record_under report (keys_of_report report) reports key found h
        ∙ ap (λ on. recorded (if on && supersedes report found then some report else found))
            (contains-keys_of_report report key))
