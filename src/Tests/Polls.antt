-- ===== src/Tests/Polls.antt =====
-- Polls of the broker target, and the deltas of the event store, at concrete inputs.
use n_trade.Prelude.{◌≡◌, ◌≢◌, refl, string_eq, none, some, List, [], ◌∷◌, ◌++◌, arith}
use n_trade.Prelude.Dict.{lookup, insert}
use n_trade.Prelude.Int.{ℤ, pos, ◌+ℤ◌, ◌-ℤ◌}
use n_trade.Prelude.Float.{int_float}
use n_trade.Domain.{Order, OrderIntentEvent, buy, market, mis, pending, partially_filled}
use n_trade.Costs.{flat_commission}
use n_trade.Guard.Breaker.{new_breaker, on_success}
use n_trade.Execution.Broker.{
  refreshed, failed, Listings, BrokerConfig, OpenRecord, BrokerState, new_broker, emit_fill,
  open_orders,
}
use n_trade.Execution.Broker.Polling.{
  Round, timeout_events, settle, poll, poll_orders, poll_order, refresh_order, conclude,
  update_events,
}
use n_trade.Execution.Broker.Polling.Replies.{settle-again}
use n_trade.Execution.Broker.Polling.Account.{filled_in, Agrees, polled, polled-filled_in}
use n_trade.Execution.Broker.Polling.Losses.{polls, HasFailed, polls-drop_lost}
use n_trade.EventStore.{Delta, absorb_all}
use n_trade.EventStore.Recovery.{settle-overcounts, settle-counts}

abbrev intent : OrderIntentEvent ℤ
intent = record {
  event_id = "e1";
  correlation_id = some "c1";
  symbol = "INFY";
  exchange = "NSE";
  side = "BUY";
  quantity = pos 10;
  order_type = "MARKET";
  price = pos 0;
  reference_price = pos 100;
  strategy = "orb";
  ts = 7;
}

abbrev live : BrokerConfig ℤ
live = record {
  commission = flat_commission (pos 2);
  statutory = none;
  stale_limit = 3;
  order_timeout = 300_000_000;
}

abbrev listings : Listings
listings symbol = none

abbrev order : Order ℤ
order = record {
  symbol = "INFY";
  side = buy;
  quantity = pos 10;
  order_type = market;
  trade_type = mis;
  price = pos 0;
  reference_price = pos 100;
  trigger_price = pos 0;
  target_price = pos 0;
  stop_loss_price = pos 0;
  order_id = some "7001";
  status = pending;
  filled_qty = pos 0;
  avg_price = pos 0;
  created_at = none;
}

-- The order after a fill of 4, and after a fill of 6.
abbrev four : Order ℤ
four = record order { status = partially_filled; filled_qty = pos 4; avg_price = pos 101 }

abbrev six : Order ℤ
six = record four { filled_qty = pos 6 }

abbrev waiting : OpenRecord ℤ
waiting = record {
  intent = intent;
  order = order;
  filled = pos 0;
  status = pending;
  placed_at = 10;
  stale = 0;
}

abbrev part_filled : OpenRecord ℤ
part_filled = record waiting { order = four; filled = pos 4; status = partially_filled }

abbrev one_open : BrokerState ℤ
one_open =
    record (new_broker 100
      (new_breaker (record { failure_threshold = 20; cooldown_ticks = 30; half_open_max = 1 }))) {
        tracked = ("7001", waiting) ∷ [];
      }

one_open-Agrees : Agrees one_open []
unfolding new_broker lookup
one_open-Agrees id r found = ground arith

abbrev two_reports : List (Round ℤ)
two_reports =
    record { now = 20; tick = 1; reply = λ id o. refreshed four }
    ∷ record { now = 30; tick = 2; reply = λ id o. refreshed six }
    ∷ []

polled-filled_in_example :
    filled_in "7001" ([] ++ (polled ⦃fl = int_float⦄ live listings two_reports one_open).1) ≡ pos 6
unfolding polled poll poll_orders poll_order refresh_order settle emit_fill open_orders new_broker
    new_breaker lookup insert conclude timeout_events update_events ◌+ℤ◌ ◌-ℤ◌ on_success
polled-filled_in_example =
    polled-filled_in ⦃fl = int_float⦄ live listings two_reports one_open [] "7001"
      (record part_filled { order = six; filled = pos 6 }) one_open-Agrees refl

settle-again_example :
    settle ⦃fl = int_float⦄ live listings 40 "7001" part_filled four
    ≡ (timeout_events live 40 "7001" part_filled four, some part_filled)
unfolding settle emit_fill conclude ◌+ℤ◌ ◌-ℤ◌
settle-again_example =
    settle-again ⦃fl = int_float⦄ live listings 30 40 "7001" waiting part_filled four refl

abbrev three_failures : List (Round ℤ)
three_failures =
    record { now = 20; tick = 1; reply = λ id o. failed }
    ∷ record { now = 30; tick = 2; reply = λ id o. failed }
    ∷ record { now = 40; tick = 3; reply = λ id o. failed }
    ∷ []

one_open-HasFailed : HasFailed live "7001" 0 one_open
unfolding new_broker lookup
one_open-HasFailed t found = ground arith

polls-drop_lost_example :
    lookup "7001" (polls ⦃fl = int_float⦄ live listings three_failures one_open).tracked ≡ none
polls-drop_lost_example =
    polls-drop_lost ⦃fl = int_float⦄ live listings three_failures "7001" one_open
      ((λ o. refl), ((λ o. refl), ((λ o. refl), tt))) refl one_open-HasFailed

abbrev delta : Delta
delta = record {
  quantity = pos 10;
  filled = pos 0;
  symbol = "INFY";
  exchange = "NSE";
  side = "BUY";
  strategy = "orb";
  status = pending;
  placed_at = 7;
}

settle-overcounts_example :
    (t : Delta) × (lookup "7001" (
        absorb_all
          (settle ⦃fl = int_float⦄ live listings 30 "7001" waiting four).0
          (("7001", delta) ∷ []))
      ≡ some t)
    × (t.filled ≡ pos 4 +ℤ (pos 4 -ℤ pos 0))
    × (t.filled ≢ pos 4)
unfolding lookup
settle-overcounts_example =
    settle-overcounts ⦃fl = int_float⦄ live listings 30 "7001" waiting four (("7001", delta) ∷ [])
      delta refl refl refl refl refl refl

abbrev partial_delta : Delta
partial_delta = record delta { filled = pos 4; status = partially_filled }

settle-counts_example :
    (t : Delta) × (lookup "7001" (
        absorb_all
          (settle ⦃fl = int_float⦄ live listings 40 "7001" part_filled six).0
          (("7001", partial_delta) ∷ []))
      ≡ some t)
    × (t.filled ≡ pos 6)
unfolding lookup
settle-counts_example =
    settle-counts ⦃fl = int_float⦄ live listings 40 "7001" part_filled six
      (("7001", partial_delta) ∷ []) partial_delta refl refl refl refl refl refl
