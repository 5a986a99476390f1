-- ===== src/Execution/Broker/Polling.antt =====
-- `poll` of ntrade/execution/broker_executor.py.
pub mod Replies
pub mod Account
pub mod Losses
use n_trade.Prelude.{
  ℕ, suc, ◌+◌, ◌-◌, ◌≡◌, Bool, true, false, not, ◌&&◌, String, Option, none, some, List, [], ◌∷◌,
  ◌++◌, if◌then◌else◌, ltb, leb, keep, string_eq,
}
use n_trade.Prelude.Dict.{Dict, lookup, insert, erase}
use n_trade.Prelude.Int.{ℤ, pos, ◌-ℤ◌, ltb_ℤ}
use n_trade.Prelude.Float.{Float}
use n_trade.Guard.Breaker.{CircuitBreaker, maybe_reset, on_success, on_failure, is_open}
use n_trade.Domain.{
  Order, OrderStatus, pending, completed, rejected, cancelled, partially_filled, same_status,
  OrderIntentEvent, OrderRejectedEvent, OrderUpdatedEvent, OrderTimeoutEvent, Event, order_rejected,
  order_filled, order_updated, order_timeout, order_ended,
}
use n_trade.Execution.Broker.{
  Refresh, refreshed, rate_limited, failed, Listings, BrokerConfig, OpenRecord, BrokerState,
  emit_fill, open_orders,
}

-- One call of `poll`: its clock readings, and what the broker answers.
pub record Round (W : Type 0) : Type 0 where
  pub now : ℕ
  pub tick : ℕ
  pub reply : String → Order W → Refresh W

module _ {W : Type 0} where
  -- One more consecutive failure; the order is dropped at the limit.
  unfoldable pub count_stale :
      BrokerConfig W → String → OpenRecord W → BrokerState W → BrokerState W
  count_stale k order_id r s =
      if leb k.stale_limit (suc r.stale)
      then record s { tracked = erase order_id s.tracked }
      else record s { tracked = insert order_id (record r { stale = suc r.stale }) s.tracked }

  -- The timeout warning of an order that is still pending.
  unfoldable pub timeout_events :
      BrokerConfig W → ℕ → String → OpenRecord W → Order W → List (Event W)
  timeout_events k now order_id r o =
      if same_status o.status pending && ltb (r.placed_at + k.order_timeout) now
      then order_timeout (record {
        order_id = order_id;
        symbol = r.intent.symbol;
        exchange = r.intent.exchange;
        side = r.intent.side;
        quantity = r.intent.quantity;
        age = now - r.placed_at;
        strategy = r.intent.strategy;
        ts = now;
      })
        ∷ []
      else []

  unfoldable pub update_events : ℕ → String → OpenRecord W → Order W → List (Event W)
  update_events now order_id r o =
      if same_status o.status r.status
      then []
      else order_updated (record {
        order_id = order_id;
        symbol = r.intent.symbol;
        exchange = r.intent.exchange;
        side = r.intent.side;
        status = o.status;
        filled_qty = o.filled_qty;
        avg_price = o.avg_price;
        strategy = r.intent.strategy;
        ts = now;
      })
        ∷ []

  -- The rejection of what an ended order leaves unfilled.
  unfoldable pub remainder_events :
      ℕ → String → OrderIntentEvent W → ℤ → OrderStatus → List (Event W)
  remainder_events now order_id i filled status =
      let remaining = i.quantity -ℤ filled in
      if ltb_ℤ (pos 0) remaining
      then order_rejected (record {
        order_id = order_id;
        symbol = i.symbol;
        exchange = i.exchange;
        side = i.side;
        quantity = remaining;
        reason = order_ended status;
        strategy = i.strategy;
        ts = now;
      })
        ∷ []
      else []

  -- What becomes of the record at the end: the events, and the record if it is kept.
  unfoldable pub conclude : ℕ → String → OpenRecord W → List (Event W) × Option (OpenRecord W)
  unfolding remainder_events
  conclude now order_id r = elim (r.order.status) [
    | pending ↦ ([], some r)
    | partially_filled ↦ ([], some r)
    | completed ↦ ([], none)
    | rejected ↦ (remainder_events now order_id r.intent r.filled rejected, none)
    | cancelled ↦ (remainder_events now order_id r.intent r.filled cancelled, none)
  ]

  abbrev pub store :
      String → Option (OpenRecord W) → Dict String (OpenRecord W) → Dict String (OpenRecord W)
  store order_id none tracked = erase order_id tracked
  store order_id (some r) tracked = insert order_id r tracked

module _ {W : Type 0} ⦃fl : Float W⦄ where
  -- The part of the loop after a successful refresh, on the record.
  unfoldable pub settle :
      BrokerConfig W
      → Listings
      → ℕ
      → String
      → OpenRecord W
      → Order W
      → List (Event W) × Option (OpenRecord W)
  unfolding timeout_events update_events conclude
  settle k listings now order_id r o =
      let (filled, fills) = emit_fill k listings now order_id r.intent o r.filled in
      let current = record r { order = o; filled = filled; status = o.status; stale = 0 } in
      let (endings, kept) = conclude now order_id current in
      (
        timeout_events k now order_id r o ++ update_events now order_id r o ++ fills ++ endings,
        kept,
      )

  -- The broker call and what follows it.
  unfoldable pub refresh_order :
      BrokerConfig W
      → Listings
      → ℕ
      → ℕ
      → String
      → OpenRecord W
      → Refresh W
      → BrokerState W
      → BrokerState W × List (Event W)
  unfolding settle count_stale
  refresh_order k listings now tick order_id r rate_limited s = (s, [])
  refresh_order k listings now tick order_id r failed s =
      (count_stale k order_id r (record s { breaker = on_failure tick s.breaker }), [])
  refresh_order k listings now tick order_id r (refreshed o) s =
      let (events, kept) = settle k listings now order_id r o in
      (record s { breaker = on_success s.breaker; tracked = store order_id kept s.tracked }, events)

  -- One order while the circuit is open: a failure is counted, and the broker is asked only if the
  -- order is kept and the cooldown is over.
  unfoldable pub poll_blocked :
      BrokerConfig W
      → Listings
      → ℕ
      → ℕ
      → String
      → OpenRecord W
      → Refresh W
      → BrokerState W
      → BrokerState W × List (Event W)
  unfolding count_stale refresh_order
  poll_blocked k listings now tick order_id r reply s =
      let counted = count_stale k order_id r s in
      if leb k.stale_limit (suc r.stale)
      then (counted, [])
      else let (probing, breaker) = maybe_reset tick s.breaker in
        let ready = record counted { breaker = breaker } in
        if probing
        then refresh_order k listings now tick order_id (record r { stale = suc r.stale }) reply
            ready
        else (ready, [])

  -- One round of the loop; `reply` is what the broker answers about each order.
  unfoldable pub poll_order :
      BrokerConfig W
      → Listings
      → ℕ
      → ℕ
      → (String → Order W → Refresh W)
      → String
      → BrokerState W
      → BrokerState W × List (Event W)
  unfolding poll_blocked refresh_order
  poll_order k listings now tick reply order_id s = elim (lookup order_id s.tracked) [
    | none ↦ (s, [])
    | some r ↦
        if is_open s.breaker.state
        then poll_blocked k listings now tick order_id r (reply order_id r.order) s
        else refresh_order k listings now tick order_id r (reply order_id r.order) s
  ]

  unfoldable pub poll_orders :
      BrokerConfig W
      → Listings
      → ℕ
      → ℕ
      → (String → Order W → Refresh W)
      → List String
      → BrokerState W
      → BrokerState W × List (Event W)
  unfolding poll_order
  poll_orders k listings now tick reply [] s = (s, [])
  poll_orders k listings now tick reply (id ∷ ids) s =
      let (next, events) = poll_order k listings now tick reply id s in
      let (after, more) = poll_orders k listings now tick reply ids next in (after, events ++ more)

  -- `poll`
  unfoldable pub poll :
      BrokerConfig W
      → Listings
      → ℕ
      → ℕ
      → (String → Order W → Refresh W)
      → BrokerState W
      → BrokerState W × List (Event W)
  unfolding poll_orders open_orders
  poll k listings now tick reply s = poll_orders k listings now tick reply (open_orders s) s
