-- ===== src/Lib.antt =====
-- nTrade: a verification of the order path of a trading kernel.
--
-- A strategy publishes a signal. The risk engine screens it and either refuses it or passes it on
-- to the order engine, which makes an intent and routes it to an execution target. The simulated
-- target fills at once; the broker target places the order at a venue, tracks it, and is polled.
-- Fills move positions and cash in the portfolio engine and are recorded in the event store, from
-- which the open orders are recovered after a crash. Ticks become candles in the candle engine,
-- and everything travels over the event bus. The live runner turns the loop that polls the broker,
-- syncs positions and watches the feed. Guards stand around the broker: an idempotency
-- guard, a circuit breaker, a cooldown between logins, and a rate gate.
--
-- Files, with the code that they model:
--   Prelude, Prelude/*: shared names, tests on numbers, integers, dictionaries, and `Float`.
--   Guard/Idempotency, Guard/Breaker, Guard/Cooldown: ntrade/execution/_guard.py
--     (MemoryIdempotencyGuard, CircuitBreaker, TotpCooldownGuard).
--   RateGate: ntrade/execution/rate_limit.py (BrokerRateGate).
--   Domain, Domain/OrderTypes: ntrade/domain/orders/order.py, ntrade/domain/portfolio.py,
--     ntrade/events, ntrade/execution/order_types.py.
--   Portfolio: ntrade/engines/portfolio_engine.py (PortfolioEngine.on_filled).
--   Risk: ntrade/engines/risk_engine.py (RiskEngine).
--   Costs: ntrade/execution/costs.py.
--   Execution/Simulated: ntrade/execution/simulator.py and ntrade/backtest/fills.py.
--   Execution/Routing: ntrade/execution/router.py and ntrade/engines/order_engine.py.
--   Execution/Broker, Execution/Broker/Placing, Execution/Broker/Polling:
--     ntrade/execution/broker_executor.py (_emit_fill, submit, poll).
--   Execution/Broker/Recovery, Execution/Broker/Restoring: modify, cancel, trip_kill_switch,
--     reconcile_open and restore_open of the same file; Execution/Text: the texts they read.
--   Market, Candles: ntrade/events/market.py and ntrade/engines/candle_engine.py (CandleEngine).
--   Bus: ntrade/kernel/event_bus.py (EventBus), with ntrade/events/base.py.
--   EventStore: ntrade/storage/event_store.py (open_order_deltas); EventStore/Codec its _encode and
--     _decode, EventStore/Log its file, EventStore/Queries its queries.
--   Paper: ntrade/brokers/paper.py (PaperBroker).
--   Gaps: ntrade/data/gap_detector.py (GapDetector).
--   Positions: ntrade/engines/position_sync.py (PositionSyncEngine.sync).
--   Runner: ntrade/runner/live_runner.py (LiveRunner).
--   Gate: ntrade/runner/gate.py (the equity trace and the report of a paper run).
--   Strategies: ntrade/engines/strategy_engine.py (StrategyEngine, Strategy.emit_signal).
--   Retry, Retry/Limiter: ntrade/execution/retry.py (RetryPolicy, RateLimiter).
--   Tests: the theorems at concrete inputs.
-- A file below one of these proves what its name says.
--
-- An object is a record, and a method is a function from the record to the new record, with the
-- events that it publishes in order and its result or exception as a value. A lock makes a method
-- one step; where code runs outside of it, as the sleep of `acquire` does, the steps are separate.
-- The calls of several threads are lists of steps in any order. Clock readings are arguments, in
-- whole ticks. Python's `float` is any type with the operations of `Float`; no law is assumed
-- but where a theorem names it (Execution/Simulated/Fills), so what is shown holds for rounded
-- arithmetic; the tests use whole numbers. Python's `int` is ℤ.
--
-- Fuel: `acquire` has fuel for its rounds, and three are shown to be enough when no other thread
-- interferes. The decimal digits of an id have the number itself as fuel. `next_seq` has one
-- round for each open order and one more. A publish has fuel for the depth of publishes inside it,
-- and enough is a bound on what handlers answer with.
--
-- What a broker adapter answers is an argument: the order as the venue reports it, a rate limit or
-- another failure. So are JSON text, the ISO format of times and the zone of India. Its figures
-- have their declared types, so `to_int` and `to_float` on them change nothing. Not modelled are
-- network transport and authentication, indicators, the rules of strategies and the web interface.
-- Outside of Bus, a handler's calls are composed as the bus would make them.
pub mod Prelude
pub mod Guard
pub mod RateGate
pub mod Domain
pub mod Portfolio
pub mod Risk
pub mod Costs
pub mod Execution
pub mod Market
pub mod Candles
pub mod Bus
pub mod EventStore
pub mod Positions
pub mod Paper
pub mod Gaps
pub mod Gate
pub mod Retry
pub mod Strategies
pub mod Runner
pub mod Tests
