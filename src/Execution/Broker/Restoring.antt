-- ===== src/Execution/Broker/Restoring.antt =====
-- `restore_open` of ntrade/execution/broker_executor.py.
pub mod Resumed
use n_trade.Prelude.{
  ℕ, ◌≡◌, Bool, true, false, String, Option, none, some, List, [], ◌∷◌, string_eq, if◌then◌else◌,
  ltb, suc,
}
use n_trade.Prelude.Dict.{Dict, lookup, insert, contains}
use n_trade.Prelude.Int.{ℤ}
use n_trade.Prelude.Float.{Float}
use n_trade.Domain.{OrderSide, nought}
use n_trade.EventStore.{Delta}
use n_trade.Execution.Text.{trailing_number}
use n_trade.Execution.Broker.{Listings, OpenRecord, BrokerState}
use n_trade.Execution.Broker.Recovery.{side_of, plain_order, plain_intent}

-- The number past which new ids are made.
abbrev pub bumped : String → ℕ → ℕ
bumped order_id seq = elim (trailing_number order_id) [
  | none ↦ seq
  | some n ↦ if ltb seq n then n else seq
]

module _ {W : Type 0} ⦃fl : Float W⦄ where
  unfoldable pub restored_record : String → String → Delta → OrderSide → OpenRecord W
  unfolding plain_order plain_intent
  restored_record fresh_id order_id delta side = record {
    intent =
        plain_intent fresh_id delta.symbol delta.exchange delta.side delta.quantity nought
          delta.strategy delta.placed_at;
    order =
        plain_order order_id delta.symbol side delta.quantity delta.status delta.filled
          delta.placed_at;
    filled = delta.filled;
    status = delta.status;
    placed_at = delta.placed_at;
    stale = 0;
  }

  -- `restore_open`: the number of orders restored, or `none` for the `ValueError` of a side that
  -- cannot be read, which leaves the orders before it restored.
  unfoldable pub restore_open :
      (String → String) → Listings → Dict String Delta → BrokerState W → BrokerState W × Option ℕ
  unfolding restored_record
  restore_open fresh_id listings [] s = (s, some 0)
  restore_open fresh_id listings ((order_id, delta) ∷ deltas) s =
      let skip = restore_open fresh_id listings deltas s in
      if contains order_id s.tracked then skip else elim (listings delta.symbol) [
        | none ↦ skip
        | some _ ↦ elim (side_of delta.side) [
          | none ↦ (s, none)
          | some side ↦
              let next = record s {
                tracked =
                    insert order_id (restored_record (fresh_id order_id) order_id delta side)
                      s.tracked;
                seq = bumped order_id s.seq;
              } in
              let (after, restored) = restore_open fresh_id listings deltas next in
              (after, elim restored [ none ↦ none | some n ↦ some (suc n) ])
        ]
      ]
