-- ===== src/Execution/Broker.antt =====
-- `BrokerExecution` of ntrade/execution/broker_executor.py: its state, and `_emit_fill`. The broker
-- adapter is a parameter: `Placement` and `Refresh` are what its calls come back with. Each call reads the
-- wall clock `now` (microseconds) and the monotonic clock `tick` once, and runs without another
-- thread in between. A call returns the new state and the events that it publishes, in order.
-- An order's figures are of their declared types, on which `to_int` and `to_float` change nothing.
pub mod Placing
pub mod Polling
pub mod Recovery
pub mod Restoring
use n_trade.Prelude.{
  ℕ, ◌+◌, ◌≡◌, Bool, true, false, String, Option, none, some, List, [], ◌∷◌, ◌++◌, if◌then◌else◌,
  map,
}
use n_trade.Prelude.Dict.{Dict, lookup, insert, erase}
use n_trade.Prelude.Int.{ℤ, pos, ◌+ℤ◌, ◌-ℤ◌, leb_ℤ}
use n_trade.Prelude.Float.{Float}
use n_trade.Guard.Idempotency.{IdempotencyGuard, new_guard}
use n_trade.Guard.Breaker.{CircuitBreaker}
use n_trade.Domain.{
  Order, OrderStatus, OrderIntentEvent, OrderFilledEvent, Event, order_filled, nought, or_zero,
  or_else,
}
use n_trade.Costs.{
  CommissionModel, InstrumentClass, IndianStatutoryCosts, apply_commission, total_cost,
  for_instrument,
}

-- What `instrument.order.place` does: the order that the venue accepted, or the text of the
-- exception.
pub data Placement (W : Type 0) : Type 0 where
  placed : Order W → Placement W
  refused : String → Placement W

-- What `broker.get_order_status(order)` does: it changes the order, or raises `RateLimited` or
-- another exception.
pub data Refresh (W : Type 0) : Type 0 where
  refreshed : Order W → Refresh W
  rate_limited failed : Refresh W

-- What the target reads of an instrument: its class, its exchange, and whether it has a
-- `broker_adapter`.
pub record Listing : Type 0 where
  pub kind : InstrumentClass
  pub exchange : String
  pub has_adapter : Bool

abbrev pub Listings : Type 0
Listings = String → Option Listing

-- The constructor's settings.
pub record BrokerConfig (W : Type 0) : Type 0 where
  pub commission : CommissionModel W
  pub statutory : Option (IndianStatutoryCosts W)
  pub stale_limit : ℕ
  pub order_timeout : ℕ

-- A value of `_open`.
pub record OpenRecord (W : Type 0) : Type 0 where
  pub intent : OrderIntentEvent W
  pub order : Order W
  pub filled : ℤ
  pub status : OrderStatus
  pub placed_at : ℕ
  pub stale : ℕ

pub record BrokerState (W : Type 0) : Type 0 where
  pub tracked : Dict String (OpenRecord W)
  pub seq : ℕ
  pub idem : IdempotencyGuard String String
  pub breaker : CircuitBreaker

unfoldable pub new_broker : {W : Type 0} → ℕ → CircuitBreaker → BrokerState W
new_broker max_entries breaker = record {
  tracked = [];
  seq = 0;
  idem = new_guard max_entries;
  breaker = breaker;
}

-- `list(self._open)`
unfoldable pub open_orders : {W : Type 0} → BrokerState W → List String
open_orders s = map (λ entry. entry.0) s.tracked

module _ {W : Type 0} ⦃fl : Float W⦄ where
  -- The charges of a fill, on the schedule of the instrument's class.
  unfoldable pub live_statutory : BrokerConfig W → Listings → OrderIntentEvent W → W → W → W
  live_statutory k listings i notional commission = elim (k.statutory) [
    | none ↦ nought
    | some m ↦
        let model : IndianStatutoryCosts W = elim (listings i.symbol) [
          | none ↦ m
          | some l ↦ for_instrument m l.kind none
        ] in
        fl.round4 (total_cost model notional i.side (some commission))
  ]

  -- The price of a fill: the broker's average, or else the intent's price.
  abbrev pub price_of_fill : OrderIntentEvent W → Order W → W
  price_of_fill i o = or_else o.avg_price (or_zero i.price)

  unfoldable pub fill_event :
      BrokerConfig W → Listings → ℕ → String → OrderIntentEvent W → W → ℤ → OrderFilledEvent W
  unfolding live_statutory
  fill_event k listings now order_id i price quantity =
      let notional = fl.fmul price (fl.of_int quantity) in
      let commission = fl.round4 (apply_commission k.commission notional) in
      record {
        order_id = order_id;
        symbol = i.symbol;
        exchange = i.exchange;
        side = i.side;
        quantity = quantity;
        fill_price = price;
        commission = commission;
        statutory = live_statutory k listings i notional commission;
        strategy = i.strategy;
        ts = now;
      }

  -- `_emit_fill` over the quantity that was filled before: the quantity that is filled now, and
  -- the events.
  unfoldable pub emit_fill :
      BrokerConfig W → Listings → ℕ → String → OrderIntentEvent W → Order W → ℤ → ℤ × List (Event W)
  unfolding fill_event
  emit_fill k listings now order_id i o already =
      let new_qty = o.filled_qty -ℤ already in
      let price = price_of_fill i o in
      if leb_ℤ new_qty (pos 0)
      then (already, [])
      else if fl.fle price nought
      then (already, [])
      else (
        already +ℤ new_qty,
        order_filled (fill_event k listings now order_id i price new_qty) ∷ [],
      )
