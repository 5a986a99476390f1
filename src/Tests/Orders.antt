-- ===== src/Tests/Orders.antt =====
-- Intents on the simulated and the broker target, and through the router, at concrete inputs.
use n_trade.Prelude.{
  ◌≡◌, refl, true, String, string_eq, ◌=?◌, none, some, List, [], ◌∷◌, if◌then◌else◌, arith,
}
use n_trade.Prelude.Dict.{lookup, elem}
use n_trade.Prelude.Int.{ℤ, pos}
use n_trade.Prelude.Float.{int_float}
use n_trade.Domain.{
  Order, OrderIntentEvent, SignalGeneratedEvent, Event, buy, market, mis, pending, order_intent,
  order_accepted, placement_failed,
}
use n_trade.Costs.{fixed_slippage, flat_commission, other}
use n_trade.Guard.Idempotency.{new_guard, check_and_reserve}
use n_trade.Guard.Idempotency.Invariant.{Inv, new_guard-Inv}
use n_trade.Guard.Breaker.{new_breaker, trip_kill}
use n_trade.Execution.Simulated.{
  SimConfig, SimState, SimInstrument, Instruments, Bar, new_sim, submit, reject, accept,
}
use n_trade.Execution.Routing.{Target, new_router, intent_of, on_signal_approved}
use n_trade.Execution.Routing.Answers.{
  Setup, adds, defaults, set_up, last_added, last_default, chosen, answered,
  on_signal_approved-chosen,
}
use n_trade.Execution.Broker.{placed, refused, Listings, BrokerConfig, BrokerState, new_broker}
use n_trade.Execution.Broker.Placing.Halted.{submit-any_breaker}
use n_trade.Execution.Broker.Placing.{Attempt, returned, correlation}
use n_trade.Execution.Broker.Placing
use n_trade.Execution.Broker.Placing.Once.{submits, submit-never_twice, submit-places_again}

abbrev intent : OrderIntentEvent ℤ
intent = record {
  event_id = "e1";
  correlation_id = some "c1";
  symbol = "INFY";
  exchange = "NSE";
  side = "BUY";
  quantity = pos 10;
  order_type = "MARKET";
  price = pos 0;
  reference_price = pos 100;
  strategy = "orb";
  ts = 7;
}

abbrev instrument : SimInstrument ℤ
instrument = record { kind = other; ltp = pos 101 }

abbrev instruments : Instruments ℤ
instruments symbol = if symbol =? "INFY" then some instrument else none

abbrev settings : SimConfig ℤ
settings = record {
  slippage = fixed_slippage (pos 1);
  commission = flat_commission (pos 2);
  statutory = none;
  delivery_detection = true;
}

abbrev fresh_sim : SimState ℤ
fresh_sim = new_sim

abbrev limit_intent : OrderIntentEvent ℤ
limit_intent = record intent { order_type = "LIMIT"; price = pos 99 }

abbrev bar : Bar ℤ
bar = record { open_price = pos 98; high = pos 105; low = pos 97; close = pos 101 }

abbrev signal : SignalGeneratedEvent ℤ
signal = record {
  symbol = "TCS";
  exchange = "NSE";
  side = "BUY";
  quantity = pos 10;
  price = pos 100;
  order_type = "MARKET";
  strategy = "orb";
  reference_price = pos 100;
  ts = 7;
}

-- A target that publishes nothing.
abbrev silent : Target ℤ (SimState ℤ)
silent = record { submit = λ i s. (s, [], none) }

abbrev simulated : Target ℤ (SimState ℤ)
simulated = record { submit = submit ⦃fl = int_float⦄ settings instruments }

-- The default is named before its target is there, and replaced later.
abbrev registrations : List (Setup ℤ (SimState ℤ))
registrations =
    defaults "nobody"
    ∷ defaults "simulated"
    ∷ adds "vwap" silent
    ∷ adds "simulated" silent
    ∷ adds "simulated" simulated
    ∷ []

on_signal_approved-chosen_example :
    let i = intent_of "e2" none signal 8 in
    let (after, events) = answered (chosen signal.strategy registrations) i fresh_sim in
    on_signal_approved (set_up registrations new_router) "e2" none signal 8 (0, fresh_sim)
    ≡ ((1, after), order_intent i ∷ events)
on_signal_approved-chosen_example =
    on_signal_approved-chosen registrations "e2" none signal 8 0 fresh_sim

chosen_for_signal : chosen signal.strategy registrations ≡ some simulated
unfolding last_added last_default
chosen_for_signal = refl

abbrev live : BrokerConfig ℤ
live = record {
  commission = flat_commission (pos 2);
  statutory = none;
  stale_limit = 3;
  order_timeout = 300_000_000;
}

abbrev listings : Listings
listings symbol = some (record { kind = other; exchange = "NSE"; has_adapter = true })

abbrev order : Order ℤ
order = record {
  symbol = "INFY";
  side = buy;
  quantity = pos 10;
  order_type = market;
  trade_type = mis;
  price = pos 0;
  reference_price = pos 100;
  trigger_price = pos 0;
  target_price = pos 0;
  stop_loss_price = pos 0;
  order_id = some "7001";
  status = pending;
  filled_qty = pos 0;
  avg_price = pos 0;
  created_at = none;
}

abbrev idle : BrokerState ℤ
idle =
    new_broker 100
      (new_breaker (record { failure_threshold = 20; cooldown_ticks = 30; half_open_max = 1 }))

abbrev first_try : Attempt ℤ
first_try = record { intent = intent; place = λ _. placed order; now = 10 }

abbrev other_try : Attempt ℤ
other_try = record {
  intent = record intent { correlation_id = some "c2" };
  place = λ _. refused "margin";
  now = 11;
}

idle-Inv : Inv idle.idem
unfolding new_broker
idle-Inv = new_guard-Inv 100

submit-never_twice_example :
    let accepted =
      (Placing.submit ⦃fl = int_float⦄ live listings first_try.place 10 intent idle).0 in
    let later = submits ⦃fl = int_float⦄ live listings (other_try ∷ []) accepted in
    Placing.submit ⦃fl = int_float⦄ live listings (λ _. placed order) 12 intent later
    ≡ (later, [], returned none)
unfolding new_broker check_and_reserve new_guard lookup elem
submit-never_twice_example =
    submit-never_twice ⦃fl = int_float⦄ live listings first_try (record first_try { now = 12 })
      order (other_try ∷ []) idle idle-Inv refl refl refl (omega arith) refl refl

-- The connection drops after the venue took the order; the retry is a second order.
abbrev dropped : Attempt ℤ
dropped = record { intent = intent; now = 11; place = λ _. refused "connection dropped" }

submit-places_again_example :
    let (next, events, result) =
      Placing.submit ⦃fl = int_float⦄ live listings dropped.place 11 intent idle in
    let (_, again, retried) =
      Placing.submit ⦃fl = int_float⦄ live listings first_try.place first_try.now intent next in
    (events ≡ [])
    × (result ≡ returned (some (reject intent (placement_failed "connection dropped"))))
    × (next.tracked ≡ idle.tracked)
    × ((id : String) × (rest : List (Event ℤ)) × (again ≡ order_accepted (accept id intent) ∷ rest))
unfolding new_broker check_and_reserve new_guard lookup elem
submit-places_again_example =
    submit-places_again ⦃fl = int_float⦄ live listings dropped first_try "connection dropped" order
      idle refl refl refl refl refl refl

submit-any_breaker_example :
    let killed = trip_kill 9 idle.breaker in
    let after =
      Placing.submit ⦃fl = int_float⦄ live listings first_try.place 10 intent
        (record idle { breaker = killed }) in
    let before = Placing.submit ⦃fl = int_float⦄ live listings first_try.place 10 intent idle in
    (after.1 ≡ before.1) × (after.2 ≡ before.2)
submit-any_breaker_example =
    submit-any_breaker ⦃fl = int_float⦄ live listings first_try idle (trip_kill 9 idle.breaker)
