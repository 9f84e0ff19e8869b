-- ===== src/Live/PaperBroker/Booked.antt =====
-- The fills that `PaperBroker.execute_target_weights` of ez/live/paper_broker.py reports against the
-- holdings it returns.
use Prim.Native.Nat.{max}
use backtesting_framework.Common.{
  ℕ, ℤ, pos, negsuc, suc, ◌≤◌, min, ◌+ℤ◌, ltb_ℤ, leb_ℤ, ◌≡◌, refl, ap, ◌∙◌, Bool, true, false,
  arith, Option, some, List, [], ◌∷◌, ◌++◌, if◌then◌else◌, All, Float,
}
use backtesting_framework.Common.Text.{Text, text_eq}
use backtesting_framework.Common.Dict.{Dict, get_or, put}
use backtesting_framework.Live.Events.Event.{Fill}
use backtesting_framework.Live.Ledger.Apply.{holdings_after_fill, holdings_after_sell}
use backtesting_framework.Live.Risk.Rules.{Order}
use backtesting_framework.Live.PaperBroker.Shares.{total, split_shares-IsSplitOf}
use backtesting_framework.Live.PaperBroker.Fills.{
  BrokerFillReport, OrderKey, Money, chunks_of, slices_from, slices_of, sliced, requested_order,
  split_broker_fills,
}
use backtesting_framework.Live.PaperBroker.Booking.{
  moved, moved_all, purchase_in_slices, sale_in_slices,
}
use backtesting_framework.Portfolio.Execution.Legs.{TradeResult, Market}
use backtesting_framework.Portfolio.Execution.Trades.{shares_of}
use backtesting_framework.Portfolio.Execution.Desk.{
  Desk, Trading, closed, traded, is_bought, fill_of,
}

-- The payload of the fill event that the OMS makes of a broker's fill.
abbrev pub payload_of : {F : Type 0} → BrokerFillReport F → Fill F
payload_of fill = record {
  symbol = fill.symbol;
  side = fill.side;
  shares = fill.shares;
  price = fill.price;
  amount = fill.amount;
  cost = fill.cost;
}

some_in_each :
    (lot_size n : ℕ) (xs : List ℕ)
    → 1 ≤ lot_size
    → 1 ≤ n
    → All (λ x. min lot_size n ≤ x) xs
    → All (λ x. 1 ≤ x) xs
some_in_each lot_size n [] h k all = tt
some_in_each lot_size n (x ∷ xs) h k all =
    (omega (arith, h, k, all.0), some_in_each lot_size n xs h k all.1)

moved_all-total :
    (bought : Bool) (symbol : Text) (chunks : List ℕ) (holdings : Dict Text ℤ)
    → 1 ≤ total chunks
    → All (λ c. 1 ≤ c) chunks
    → (bought ≡ false → leb_ℤ (pos (total chunks)) (shares_of symbol holdings) ≡ true)
    → moved_all bought symbol chunks holdings ≡ moved bought symbol (total chunks) holdings
moved_all-total bought symbol [] holdings h all covered = absurd (omega (arith, h))
moved_all-total true symbol (n ∷ chunks) holdings h all covered =
    purchase_in_slices symbol n chunks holdings
moved_all-total false symbol (n ∷ chunks) holdings h all covered =
    sale_in_slices symbol n chunks holdings all (covered refl)

-- A fill of an integer number of shares.
abbrev moved_ℤ : Bool → Text → ℤ → Dict Text ℤ → Dict Text ℤ
moved_ℤ bought symbol shares holdings =
    if bought
    then put symbol (get_or symbol (pos 0) holdings +ℤ shares) holdings
    else holdings_after_sell symbol shares holdings

some_total :
    (chunks : List ℕ) (shares : ℤ)
    → pos (total chunks) ≡ shares
    → ltb_ℤ (pos 0) shares ≡ true
    → 1 ≤ total chunks
some_total chunks shares h k = ground arith

given_chunks :
    (shares : ℤ) (slices lot_size : ℕ)
    → 1 ≤ lot_size
    → ltb_ℤ (pos 0) shares ≡ true
    → (chunks : List ℕ) × (chunks_of shares slices lot_size ≡ some chunks)
      × (pos (total chunks) ≡ shares)
      × All (λ c. 1 ≤ c) chunks
given_chunks (pos n) slices lot_size h k =
    let some_shares : 1 ≤ n = ground arith in
    let (chunks, given, split) = split_shares-IsSplitOf n slices lot_size some_shares h in
    (chunks, given, ap pos split.sum, some_in_each lot_size n chunks h some_shares split.large)
given_chunks (negsuc n) slices lot_size h k = absurd (ground arith)

module _ {F : Type 0} ⦃o : Float F⦄ where
  -- The ledger's holdings after a list of fills.
  abbrev pub booked_holdings : List (BrokerFillReport F) → Dict Text ℤ → Dict Text ℤ
  booked_holdings [] holdings = holdings
  booked_holdings (fill ∷ fills) holdings =
      booked_holdings fills (holdings_after_fill (payload_of fill) holdings)

  booked_holdings-append :
      (xs ys : List (BrokerFillReport F)) (holdings : Dict Text ℤ)
      → booked_holdings (xs ++ ys) holdings ≡ booked_holdings ys (booked_holdings xs holdings)
  booked_holdings-append [] ys holdings = refl
  booked_holdings-append (x ∷ xs) ys holdings =
      booked_holdings-append xs ys (holdings_after_fill (payload_of x) holdings)

  slices_from-moved :
      (trade : TradeResult F) (order : Option Order) (slices index : ℕ) (money : Money F)
      (filled : ℤ) (chunks : List ℕ) (holdings : Dict Text ℤ)
      → booked_holdings (slices_from trade order slices index money filled chunks) holdings
        ≡ moved_all (is_bought trade) trade.symbol chunks holdings
  unfolding slices_from moved_all holdings_after_fill
  slices_from-moved trade order slices index money filled [] holdings = refl
  slices_from-moved trade order slices index money filled (chunk ∷ []) holdings = refl
  slices_from-moved trade order slices index money filled (chunk ∷ next ∷ chunks) holdings =
      slices_from-moved trade order slices (suc index) _ _ (next ∷ chunks)
        (moved (is_bought trade) trade.symbol chunk holdings)

  -- The fills at hand lead from one holding to another.
  pub record IsBooked (found : Option (List (BrokerFillReport F))) (holdings end : Dict Text ℤ)
      : Type 0 where
    pub fills : List (BrokerFillReport F)
    pub given : found ≡ some fills
    pub booked : booked_holdings fills holdings ≡ end

  trade-IsBooked :
      (trade : TradeResult F) (order : Option Order) (slices lot_size : ℕ) (holdings : Dict Text ℤ)
      → 1 ≤ lot_size
      → ltb_ℤ (pos 0) trade.shares ≡ true
      → (is_bought trade ≡ false → leb_ℤ trade.shares (shares_of trade.symbol holdings) ≡ true)
      → IsBooked
          (sliced trade order (chunks_of trade.shares slices lot_size))
          holdings
          (holdings_after_fill (fill_of trade) holdings)
  unfolding slices_of holdings_after_fill
  trade-IsBooked trade order slices lot_size holdings h some_shares covered =
      let (chunks, given, sum, all) = given_chunks trade.shares slices lot_size h some_shares in
      let same =
        moved_all-total (is_bought trade) trade.symbol chunks holdings
          (some_total chunks trade.shares sum some_shares) all
          (λ sold. ap (λ n. leb_ℤ n (shares_of trade.symbol holdings)) sum ∙ covered sold) in
      record {
        fills = slices_of trade order chunks;
        given = rw given refl;
        booked =
            slices_from-moved trade order _ 0 _ (pos 0) chunks holdings
            ∙ same
            ∙ ap (λ n. moved_ℤ (is_bought trade) trade.symbol n holdings) sum;
      }

  -- If the lot size is positive, then the trades of any sequence of allowed trades that leads from one account to
  -- another can be split into fills, and the ledger, given these fills in their order, books the holdings of the
  -- second account if it started with those of the first.
  pub Trading-IsBooked :
      (market : Market F) (requested : Dict OrderKey Order) (slices lot_size : ℕ)
      {desk end : Desk F} {trades : List (TradeResult F)}
      → 1 ≤ lot_size
      → Trading market desk trades end
      → IsBooked (split_broker_fills requested slices lot_size trades) desk.holdings end.holdings
  unfolding split_broker_fills
  Trading-IsBooked market requested slices lot_size h closed = record {
    fills = [];
    given = refl;
    booked = refl;
  }
  Trading-IsBooked market requested slices lot_size {desk = desk} h (traded trade allowed rest) =
      let first =
        trade-IsBooked trade (requested_order requested trade) (max slices 1) lot_size desk.holdings
          h allowed.some_shares allowed.covered in
      let later = Trading-IsBooked market requested slices lot_size h rest in
      record {
        fills = first.fills ++ later.fills;
        given = rw (first.given, later.given) refl;
        booked =
            booked_holdings-append first.fills later.fills desk.holdings
            ∙ ap (booked_holdings later.fills) first.booked
            ∙ later.booked;
      }
