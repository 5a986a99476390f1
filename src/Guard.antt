-- ===== src/Guard.antt =====
-- The safety guards of ntrade/execution/_guard.py: the idempotency guard, the circuit breaker and
-- the TOTP cooldown guard.
pub mod Idempotency
pub mod Breaker
pub mod Cooldown
