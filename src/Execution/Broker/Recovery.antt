-- ===== src/Execution/Broker/Recovery.antt =====
-- `modify`, `cancel`, `trip_kill_switch` and `reconcile_open` of
-- ntrade/execution/broker_executor.py.
use n_trade.Prelude.{
  ℕ, Bool, false, ◌||◌, String, Option, none, some, List, [], ◌∷◌, ◌++◌, ◌=?◌, string_eq,
  if◌then◌else◌,
}
use n_trade.Prelude.Dict.{Dict, lookup, insert, contains}
use n_trade.Prelude.Int.{ℤ, pos}
use n_trade.Prelude.Float.{Float}
use n_trade.Guard.Breaker.{trip_kill}
use n_trade.Domain.{
  Order, OrderSide, buy, sell, OrderStatus, pending, completed, rejected, cancelled,
  partially_filled, limit, mis, is_terminal, OrderIntentEvent, nought,
}
use n_trade.Execution.Text.{upper_is}
use n_trade.Execution.Broker.{Listing, Listings, OpenRecord, BrokerState, open_orders}

-- `OrderSide(side.upper())`; `none` is a `ValueError`.
abbrev pub side_of : String → Option OrderSide
side_of side =
    if upper_is side "BUY" then some buy else if upper_is side "SELL" then some sell else none

-- `OrderStatus(status)`; `none` is a `ValueError`.
abbrev pub status_of : String → Option OrderStatus
status_of status =
    if status =? "PENDING"
    then some pending
    else if status =? "COMPLETED"
    then some completed
    else if status =? "REJECTED"
    then some rejected
    else if status =? "CANCELLED"
    then some cancelled
    else if status =? "PARTIALLY_FILLED"
    then some partially_filled
    else none

module _ {W : Type 0} where
  -- `cancel` or `modify`: the broker's call may change the order; it answers with the order and
  -- its result, or raises, where the order stays. `none` stands for an order that is not tracked.
  unfoldable pub ask_broker :
      {A : Type 0}
      → (Order W → Option (Order W × A))
      → String
      → BrokerState W
      → Option (Option A) × BrokerState W
  ask_broker call order_id s = elim (lookup order_id s.tracked) [
    | none ↦ (none, s)
    | some r ↦ elim (call r.order) [
      | none ↦ (some none, s)
      | some (o, result) ↦ (
        some (some result),
        record s { tracked = insert order_id (record r { order = o }) s.tracked },
      )
    ]
  ]

  -- The loop of `trip_kill_switch`, where an exception of a cancellation is logged.
  unfoldable pub cancel_all :
      (Order W → Option (Order W × Unit {0})) → List String → BrokerState W → BrokerState W
  unfolding ask_broker
  cancel_all call [] s = s
  cancel_all call (id ∷ ids) s = cancel_all call ids (ask_broker call id s).1

  unfoldable pub trip_kill_switch :
      (Order W → Option (Order W × Unit {0})) → ℕ → BrokerState W → BrokerState W
  unfolding cancel_all open_orders
  trip_kill_switch call tick s =
      let asked = cancel_all call (open_orders s) s in
      record asked { breaker = trip_kill tick asked.breaker }

-- An entry of the broker's order book, as far as `reconcile_open` reads it.
pub record BookEntry (W : Type 0) : Type 0 where
  pub order_id : String
  pub symbol : String
  pub exchange : String
  pub side : String
  pub quantity : ℤ
  pub price : W
  pub status : String

abbrev pub adoptable : Option Listing → Option Listing
adoptable none = none
adoptable (some l) = if l.has_adapter then some l else none

abbrev pub is_ended : String → Bool
is_ended status = elim (status_of status) [ none ↦ false | some st ↦ is_terminal st ]

abbrev pub status_or_pending : String → Option OrderStatus
status_or_pending status = if status =? "" then some pending else status_of status

module _ {W : Type 0} ⦃fl : Float W⦄ where
  -- An order that the tracker makes itself, with the defaults of `Order`.
  unfoldable pub plain_order : String → String → OrderSide → ℤ → OrderStatus → ℤ → ℕ → Order W
  plain_order order_id symbol side quantity status filled created_at = record {
    symbol = symbol;
    side = side;
    quantity = quantity;
    order_type = limit;
    trade_type = mis;
    price = nought;
    reference_price = nought;
    trigger_price = nought;
    target_price = nought;
    stop_loss_price = nought;
    order_id = some order_id;
    status = status;
    filled_qty = filled;
    avg_price = nought;
    created_at = some created_at;
  }

  -- An intent that the tracker makes itself; `fresh_id` is the identifier that the event gets.
  unfoldable pub plain_intent :
      String → String → String → String → ℤ → W → String → ℕ → OrderIntentEvent W
  plain_intent fresh_id symbol exchange side quantity price strategy ts = record {
    event_id = fresh_id;
    correlation_id = none;
    symbol = symbol;
    exchange = exchange;
    side = side;
    quantity = quantity;
    order_type = "LIMIT";
    price = price;
    reference_price = nought;
    strategy = strategy;
    ts = ts;
  }

  unfoldable pub adopt : String → ℕ → Listing → BookEntry W → OrderSide → OrderStatus → OpenRecord W
  unfolding plain_order plain_intent
  adopt fresh_id now l entry side status = record {
    intent =
        plain_intent fresh_id entry.symbol
          (if entry.exchange =? "" then l.exchange else entry.exchange) entry.side entry.quantity
          entry.price "" now;
    order = plain_order entry.order_id entry.symbol side entry.quantity status (pos 0) now;
    filled = pos 0;
    status = status;
    placed_at = now;
    stale = 0;
  }

  -- The record for an entry of the book that is adopted.
  unfoldable pub adopted_record :
      (String → String) → Listings → ℕ → BookEntry W → Option (OpenRecord W)
  unfolding adopt
  adopted_record fresh_id listings now entry = elim (adoptable (listings entry.symbol)) [
    | none ↦ none
    | some l ↦ elim (side_of entry.side) [
      | none ↦ none
      | some side ↦ elim (status_or_pending entry.status) [
        | none ↦ none
        | some status ↦ some (adopt (fresh_id entry.order_id) now l entry side status)
      ]
    ]
  ]

  abbrev pub is_skipped : Dict String (OpenRecord W) → BookEntry W → Bool
  is_skipped existing entry =
      (entry.order_id =? "") || contains entry.order_id existing || is_ended entry.status

  unfoldable pub reconcile_entry :
      (String → String)
      → Listings
      → ℕ
      → Dict String (OpenRecord W)
      → BookEntry W
      → BrokerState W × List String
      → BrokerState W × List String
  unfolding adopted_record
  reconcile_entry fresh_id listings now existing entry (s, adopted) =
      if is_skipped existing entry
      then (s, adopted)
      else elim (adopted_record fresh_id listings now entry) [
        | none ↦ (s, adopted)
        | some r ↦ (
          record s { tracked = insert entry.order_id r s.tracked },
          adopted ++ entry.order_id ∷ [],
        )
      ]

  unfoldable pub reconcile_entries :
      (String → String)
      → Listings
      → ℕ
      → Dict String (OpenRecord W)
      → List (BookEntry W)
      → BrokerState W × List String
      → BrokerState W × List String
  unfolding reconcile_entry
  reconcile_entries fresh_id listings now existing [] out = out
  reconcile_entries fresh_id listings now existing (entry ∷ book) out =
      reconcile_entries fresh_id listings now existing book
        (reconcile_entry fresh_id listings now existing entry out)

  -- `reconcile_open`, with the order book that the broker returns: the adopted ids.
  unfoldable pub reconcile_open :
      (String → String)
      → Listings
      → ℕ
      → List (BookEntry W)
      → BrokerState W
      → BrokerState W × List String
  unfolding reconcile_entries
  reconcile_open fresh_id listings now book s =
      reconcile_entries fresh_id listings now s.tracked book (s, [])
