-- ===== src/Execution.antt =====
-- ntrade/execution and ntrade/backtest/fills.py: order ids, the router, the order engine, and the
-- simulated, bar-aware and broker targets.
pub mod Ids
pub mod Text
pub mod Simulated
pub mod Routing
pub mod Broker
