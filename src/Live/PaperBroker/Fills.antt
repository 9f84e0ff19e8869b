-- ===== src/Live/PaperBroker/Fills.antt =====
-- `_split_broker_fills` of ez/live/paper_broker.py. The business date and the deployment's name, which
-- every fill carries unchanged, are left out; so is the order id, which equals the client's.
use Prim.Native.Nat.{max}
use backtesting_framework.Common.{
  ℕ, ℤ, pos, negsuc, suc, ◌+ℤ◌, ◌-ℤ◌, ltb_ℤ, ◌≡◌, ◌↔◌, Bool, true, ◌&&◌, arith, Eq, Option, none,
  some, List, [], ◌∷◌, ◌++◌, if◌then◌else◌, length, Float, zero_float,
}
use backtesting_framework.Common.Text.{Text, text_eq, text_beq, text_beq_iff}
use backtesting_framework.Common.Dict.{Dict, get, put}
use backtesting_framework.Live.Risk.Rules.{Order}
use backtesting_framework.Live.PaperBroker.Shares.{split_shares}
use backtesting_framework.Portfolio.Execution.Legs.{TradeResult}

-- `BrokerFillReport`
pub record BrokerFillReport (F : Type 0) : Type 0 where
  pub client_order_id : Text
  pub symbol : Text
  pub side : Text
  pub shares : ℤ
  pub price : F
  pub amount : F
  pub commission : F
  pub stamp_tax : F
  pub cost : F
  pub requested_shares : ℤ
  pub remaining_shares : ℤ
  pub slice_index : ℕ
  pub total_slices : ℕ

-- The key of `requested_order_map`.
pub record OrderKey : Type 0 where
  pub symbol : Text
  pub side : Text

abbrev pub order_key_beq : OrderKey → OrderKey → Bool
order_key_beq a b = text_beq a.symbol b.symbol && text_beq a.side b.side

pub order_key_beq_iff : (a b : OrderKey) → (order_key_beq a b ≡ true) ↔ (a ≡ b)
order_key_beq_iff a b = ground (arith, text_beq_iff a.symbol b.symbol, text_beq_iff a.side b.side)

instance abbrev pub order_key_eq : Eq OrderKey
order_key_eq = record { beq = order_key_beq; beq_iff = order_key_beq_iff }

-- `requested_order_map`
unfoldable pub requested_from : Dict OrderKey Order → List Order → Dict OrderKey Order
requested_from found [] = found
requested_from found (order ∷ orders) =
    requested_from (put (record { symbol = order.symbol; side = order.side }) order found) orders

-- The money of a trade, or of its slices so far.
pub record Money (F : Type 0) : Type 0 where
  pub amount : F
  pub commission : F
  pub stamp_tax : F
  pub cost : F

-- `max(requested_shares - cumulative_filled, 0)`
abbrev pub left_of : ℤ → ℤ → ℤ
left_of requested filled =
    let remaining = requested -ℤ filled in if ltb_ℤ remaining (pos 0) then pos 0 else remaining

abbrev pub requested_shares_of : {F : Type 0} → TradeResult F → Option Order → ℤ
requested_shares_of trade none = trade.shares
requested_shares_of trade (some order) = order.shares

abbrev pub client_order_id_of : Option Order → Text
client_order_id_of none = []
client_order_id_of (some order) = order.client_order_id

-- `_split_shares(trade.shares, …)`
abbrev pub chunks_of : ℤ → ℕ → ℕ → Option (List ℕ)
chunks_of (pos n) slices lot_size = split_shares n slices lot_size
chunks_of (negsuc n) slices lot_size = some []

module _ {F : Type 0} ⦃o : Float F⦄ where
  abbrev pub no_money : Money F
  no_money = record {
    amount = zero_float;
    commission = zero_float;
    stamp_tax = zero_float;
    cost = zero_float;
  }

  -- A slice that is not the last takes its part by shares.
  abbrev pub ratio_of : TradeResult F → ℕ → F
  ratio_of trade chunk =
      if ltb_ℤ (pos 0) trade.shares
      then o.div (o.of_int (pos chunk)) (o.of_int trade.shares)
      else zero_float

  abbrev pub share_of : TradeResult F → ℕ → Money F
  share_of trade chunk = record {
    amount = o.mul trade.amount (ratio_of trade chunk);
    commission = o.mul trade.commission (ratio_of trade chunk);
    stamp_tax = o.mul trade.stamp_tax (ratio_of trade chunk);
    cost = o.mul trade.cost (ratio_of trade chunk);
  }

  abbrev pub allocated_after : Money F → Money F → Money F
  allocated_after allocated part = record {
    amount = o.add allocated.amount part.amount;
    commission = o.add allocated.commission part.commission;
    stamp_tax = o.add allocated.stamp_tax part.stamp_tax;
    cost = o.add allocated.cost part.cost;
  }

  -- The last slice takes what is left.
  abbrev pub rest_of : TradeResult F → Money F → Money F
  rest_of trade allocated = record {
    amount = o.sub trade.amount allocated.amount;
    commission = o.sub trade.commission allocated.commission;
    stamp_tax = o.sub trade.stamp_tax allocated.stamp_tax;
    cost = o.sub trade.cost allocated.cost;
  }

  abbrev pub fill_with : TradeResult F → Option Order → ℕ → ℕ → ℤ → ℕ → Money F → BrokerFillReport F
  fill_with trade order total_slices index filled chunk money = record {
    client_order_id = client_order_id_of order;
    symbol = trade.symbol;
    side = trade.side;
    shares = pos chunk;
    price = trade.price;
    amount = money.amount;
    commission = money.commission;
    stamp_tax = money.stamp_tax;
    cost = money.cost;
    requested_shares = requested_shares_of trade order;
    remaining_shares = left_of (requested_shares_of trade order) filled;
    slice_index = index;
    total_slices = total_slices;
  }

  -- The loop over the chunks, from the slice after `index` slices on.
  unfoldable pub slices_from :
      TradeResult F → Option Order → ℕ → ℕ → Money F → ℤ → List ℕ → List (BrokerFillReport F)
  slices_from trade order total_slices index allocated filled [] = []
  slices_from trade order total_slices index allocated filled (chunk ∷ []) =
      fill_with trade order total_slices (suc index) (filled +ℤ pos chunk) chunk
        (rest_of trade allocated)
      ∷ []
  slices_from trade order total_slices index allocated filled (chunk ∷ next ∷ chunks) =
      fill_with trade order total_slices (suc index) (filled +ℤ pos chunk) chunk
        (share_of trade chunk)
      ∷ slices_from trade order total_slices (suc index)
          (allocated_after allocated (share_of trade chunk)) (filled +ℤ pos chunk) (next ∷ chunks)

  -- The slices of one trade.
  unfoldable pub slices_of : TradeResult F → Option Order → List ℕ → List (BrokerFillReport F)
  unfolding slices_from
  slices_of trade order chunks = slices_from trade order (length chunks) 0 no_money (pos 0) chunks

  abbrev pub and_then :
      Option (List (BrokerFillReport F))
      → Option (List (BrokerFillReport F))
      → Option (List (BrokerFillReport F))
  and_then none later = none
  and_then (some fills) none = none
  and_then (some fills) (some later) = some (fills ++ later)

  abbrev pub sliced :
      TradeResult F → Option Order → Option (List ℕ) → Option (List (BrokerFillReport F))
  sliced trade order none = none
  sliced trade order (some chunks) = some (slices_of trade order chunks)

  abbrev pub requested_order : Dict OrderKey Order → TradeResult F → Option Order
  requested_order requested trade =
      get (record { symbol = trade.symbol; side = trade.side }) requested

  -- `_split_broker_fills`; no result where Python would divide by a lot size of 0.
  unfoldable pub split_broker_fills :
      Dict OrderKey Order → ℕ → ℕ → List (TradeResult F) → Option (List (BrokerFillReport F))
  unfolding slices_of
  split_broker_fills requested slices lot_size [] = some []
  split_broker_fills requested slices lot_size (trade ∷ trades) =
      and_then
        (sliced trade (requested_order requested trade)
          (chunks_of trade.shares (max slices 1) lot_size))
        (split_broker_fills requested slices lot_size trades)
