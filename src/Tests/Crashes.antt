-- ===== src/Tests/Crashes.antt =====
-- The recovery of open orders at a concrete input.
use n_trade.Prelude.{refl, true, String, string_eq, some, [], ◌∷◌}
use n_trade.Prelude.Dict.{Dict, lookup, insert}
use n_trade.Prelude.Int.{ℤ, pos}
use n_trade.Prelude.Float.{int_float}
use n_trade.Domain.{partially_filled, pending}
use n_trade.Costs.{other}
use n_trade.Guard.Breaker.{new_breaker}
use n_trade.EventStore.{Delta}
use n_trade.Execution.Text.{upper_is}
use n_trade.Execution.Broker.{Listing, Listings, BrokerState, new_broker}
use n_trade.Execution.Broker.Restoring.{restore_open}
use n_trade.Execution.Broker.Restoring.Resumed.{IsResumed, restore_open-resumes}

abbrev listing : Listing
listing = record { kind = other; exchange = "NSE"; has_adapter = true }

abbrev listings : Listings
listings symbol = some listing

abbrev first_delta : Delta
first_delta = record {
  quantity = pos 10;
  filled = pos 4;
  symbol = "INFY";
  exchange = "NSE";
  side = "BUY";
  strategy = "orb";
  status = partially_filled;
  placed_at = 7;
}

abbrev second_delta : Delta
second_delta = record first_delta { filled = pos 0; side = "SELL"; status = pending }

abbrev deltas : Dict String Delta
deltas = ("7001", first_delta) ∷ ("BRK-000042", second_delta) ∷ []

abbrev restarted : BrokerState ℤ
restarted =
    new_broker 100
      (new_breaker (record { failure_threshold = 20; cooldown_ticks = 30; half_open_max = 1 }))

restore_open-resumes_example :
    IsResumed ⦃fl = int_float⦄ "BRK-000042" second_delta
      (restore_open ⦃fl = int_float⦄ (λ id. id) listings deltas restarted).0
unfolding restore_open new_broker lookup insert upper_is
restore_open-resumes_example =
    restore_open-resumes ⦃fl = int_float⦄ (λ id. id) listings deltas restarted "BRK-000042"
      second_delta listing 2 refl refl refl refl
