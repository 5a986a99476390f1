-- ===== src/EventStore.antt =====
-- `open_order_deltas` of ntrade/storage/event_store.py: what a recorded log says about the orders
-- that were open at a crash.
pub mod Recovery
pub mod Codec
pub mod Queries
pub mod Log
use n_trade.Prelude.{
  ℕ, ◌≡◌, Bool, true, false, not, ◌&&◌, String, Option, none, some, List, [], ◌∷◌, if◌then◌else◌,
  keep, string_eq, map,
}
use n_trade.Prelude.Dict.{Dict, lookup, insert}
use n_trade.Prelude.Int.{ℤ, pos, ◌+ℤ◌, ◌-ℤ◌, ltb_ℤ}
use n_trade.Domain.{
  OrderStatus, pending, rejected, is_terminal, Event, order_accepted, order_rejected, order_filled,
  order_updated,
}

pub record Delta : Type 0 where
  pub quantity : ℤ
  pub filled : ℤ
  pub symbol : String
  pub exchange : String
  pub side : String
  pub strategy : String
  pub status : OrderStatus
  pub placed_at : ℕ

-- A change to the delta of an order, if the order is known.
abbrev pub adjust : String → (Delta → Delta) → Dict String Delta → Dict String Delta
adjust id f deltas = elim (lookup id deltas) [ none ↦ deltas | some t ↦ insert id (f t) deltas ]

abbrev pub remaining : Delta → ℤ
remaining t = t.quantity -ℤ t.filled

abbrev pub is_open : Delta → Bool
is_open t = not (is_terminal t.status) && ltb_ℤ (pos 0) (remaining t)

module _ {W : Type 0} where
  -- One round of the loop over the events.
  unfoldable pub absorb : Event W → Dict String Delta → Dict String Delta
  absorb (order_accepted e) deltas =
      insert e.order_id
        (record {
          quantity = e.quantity;
          filled = pos 0;
          symbol = e.symbol;
          exchange = e.exchange;
          side = e.side;
          strategy = e.strategy;
          status = pending;
          placed_at = e.ts;
        })
        deltas
  absorb (order_filled e) deltas =
      adjust e.order_id (λ t. record t { filled = t.filled +ℤ e.quantity }) deltas
  absorb (order_updated e) deltas =
      adjust e.order_id
        (λ t. record t {
          status = e.status;
          filled = if ltb_ℤ t.filled e.filled_qty then e.filled_qty else t.filled;
        })
        deltas
  absorb (order_rejected e) deltas = adjust e.order_id (λ t. record t { status = rejected }) deltas
  absorb _ deltas = deltas

  unfoldable pub absorb_all : List (Event W) → Dict String Delta → Dict String Delta
  unfolding absorb
  absorb_all [] deltas = deltas
  absorb_all (e ∷ es) deltas = absorb_all es (absorb e deltas)

  -- `open_order_deltas`; the key "remaining" of an entry is `remaining` of its delta.
  unfoldable pub open_order_deltas : List (Event W) → Dict String Delta
  unfolding absorb_all
  open_order_deltas events = keep (λ entry. is_open entry.1) (absorb_all events [])
