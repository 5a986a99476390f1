-- ===== src/Execution/Broker/Placing.antt =====
-- `submit` and `_next_brk_id` of ntrade/execution/broker_executor.py.
pub mod Once
pub mod Halted
use n_trade.Prelude.{
  ℕ, zero, suc, ◌≡◌, Bool, true, false, not, ◌||◌, String, Option, none, some, List, [], ◌∷◌, ◌++◌,
  ◌=?◌, string_eq, if◌then◌else◌, length,
}
use n_trade.Prelude.Dict.{Dict, lookup, insert, contains}
use n_trade.Prelude.Int.{ℤ, pos}
use n_trade.Prelude.Float.{Float}
use n_trade.Guard.Idempotency.{
  IdempotencyGuard, Reply, duplicate, already_reserved, fresh, check_and_reserve, record_result,
  release,
}
use n_trade.Domain.{
  Order, OrderIntentEvent, OrderRejectedEvent, Event, order_accepted, no_broker, placement_failed,
  is_filled,
}
use n_trade.Execution.Ids.{brk_id}
use n_trade.Execution.Simulated.{reject, accept}
use n_trade.Execution.Broker.{
  Placement, placed, refused, Listing, Listings, BrokerConfig, OpenRecord, BrokerState, emit_fill,
}

-- What `submit` does: it returns `None` or a rejection, or raises `AlreadyReserved`.
pub data Submitted : Type 0 where
  returned : Option OrderRejectedEvent → Submitted
  raised : Submitted

abbrev pub Outcome : Type 0 → Type 0
Outcome W = BrokerState W × List (Event W) × Submitted

-- One call of `submit`.
pub record Attempt (W : Type 0) : Type 0 where
  pub intent : OrderIntentEvent W
  pub place : OrderIntentEvent W → Placement W
  pub now : ℕ

abbrev pub is_tradable : Option Listing → Bool
is_tradable none = false
is_tradable (some l) = l.has_adapter

module _ {W : Type 0} where
  -- `intent.correlation_id or intent.event_id`
  abbrev pub correlation : OrderIntentEvent W → String
  correlation i = elim (i.correlation_id) [
    | none ↦ i.event_id
    | some c ↦ if c =? "" then i.event_id else c
  ]

  -- The `while` loop of `_next_brk_id`: the last number tried.
  unfoldable pub next_seq : ℕ → Dict String (OpenRecord W) → ℕ → ℕ
  next_seq zero tracked seq = suc seq
  next_seq (suc fuel) tracked seq =
      let rest = next_seq fuel tracked (suc seq) in
      if contains (brk_id (suc seq)) tracked then rest else suc seq

  -- `_next_brk_id`: one round for each open order, and one more.
  unfoldable pub next_brk_id : BrokerState W → String × BrokerState W
  unfolding next_seq
  next_brk_id s =
      let seq = next_seq (length s.tracked) s.tracked s.seq in (brk_id seq, record s { seq = seq })

  -- The id under which the order is tracked.
  unfoldable pub tracked_id : Order W → BrokerState W → String × BrokerState W
  unfolding next_brk_id
  tracked_id o s = elim (o.order_id) [
    | none ↦ next_brk_id s
    | some id ↦ if (id =? "") || (id =? "None") then next_brk_id s else (id, s)
  ]

  abbrev pub filled_before : Option (OpenRecord W) → ℤ
  filled_before none = pos 0
  filled_before (some r) = r.filled

module _ {W : Type 0} ⦃fl : Float W⦄ where
  -- `_emit_fill` from `submit`, where `_open` is not changed unless it has the id already.
  unfoldable pub fill_at_once :
      BrokerConfig W
      → Listings
      → ℕ
      → String
      → OrderIntentEvent W
      → Order W
      → BrokerState W
      → BrokerState W × List (Event W)
  fill_at_once k listings now order_id i o s =
      let before = lookup order_id s.tracked in
      let (filled, events) = emit_fill k listings now order_id i o (filled_before before) in
      elim before [
        | none ↦ (s, events)
        | some r ↦ (
          record s { tracked = insert order_id (record r { filled = filled }) s.tracked },
          events,
        )
      ]

  -- `submit` after the venue accepted the order.
  unfoldable pub track :
      BrokerConfig W → Listings → ℕ → OrderIntentEvent W → Order W → BrokerState W → Outcome W
  unfolding tracked_id fill_at_once
  track k listings now i o s =
      let (order_id, numbered) = tracked_id o s in
      let known = record numbered { idem = record_result (correlation i) order_id numbered.idem } in
      let own = record o { order_id = some order_id } in
      if is_filled own
      then (let (filled, events) = fill_at_once k listings now order_id i own known in
          (filled, order_accepted (accept order_id i) ∷ events, returned none))
      else (
        record known {
          tracked =
              insert order_id
                (record {
                  intent = i;
                  order = own;
                  filled = pos 0;
                  status = own.status;
                  placed_at = now;
                  stale = 0;
                })
                known.tracked;
        },
        order_accepted (accept order_id i) ∷ [],
        returned none,
      )

  -- `submit` after `check_and_reserve`; `place` is asked only for a fresh reservation.
  unfoldable pub place_reserved :
      BrokerConfig W
      → Listings
      → (OrderIntentEvent W → Placement W)
      → ℕ
      → OrderIntentEvent W
      → Reply String
      → BrokerState W
      → Outcome W
  unfolding track
  place_reserved k listings place now i (duplicate _) s = (s, [], returned none)
  place_reserved k listings place now i already_reserved s = (s, [], raised)
  place_reserved k listings place now i fresh s = elim (place i) [
    | refused why ↦ (
      record s { idem = release (correlation i) s.idem },
      [],
      returned (some (reject i (placement_failed why))),
    )
    | placed o ↦ track k listings now i o s
  ]

  -- `submit`
  unfoldable pub submit :
      BrokerConfig W
      → Listings
      → (OrderIntentEvent W → Placement W)
      → ℕ
      → OrderIntentEvent W
      → BrokerState W
      → Outcome W
  unfolding place_reserved
  submit k listings place now i s =
      if not (is_tradable (listings i.symbol))
      then (s, [], returned (some (reject i no_broker)))
      else let (reply, idem) = check_and_reserve (correlation i) s.idem in
        place_reserved k listings place now i reply (record s { idem = idem })
