-- ===== src/Guard/Breaker.antt =====
-- `CircuitBreaker` of ntrade/execution/_guard.py. The lock makes each method one step. Times are
-- readings of the monotonic clock in whole ticks, which a method that reads it takes as `now`.
pub mod States
pub mod Latch
use n_trade.Prelude.{ℕ, ◌+◌, Bool, true, false, List, [], ◌∷◌, leb, if◌then◌else◌, ◌&&◌}

pub data CircuitState : Type 0 where
  closed open_circuit half_open : CircuitState

pub record CircuitBreakerConfig : Type 0 where
  pub failure_threshold : ℕ
  pub cooldown_ticks : ℕ
  pub half_open_max : ℕ

pub record CircuitBreaker : Type 0 where
  pub config : CircuitBreakerConfig
  pub state : CircuitState
  pub failures : ℕ
  pub opened_at : ℕ
  pub half_open_probes : ℕ
  pub killed : Bool

-- `__init__`
unfoldable pub new_breaker : CircuitBreakerConfig → CircuitBreaker
new_breaker config = record {
  config = config;
  state = closed;
  failures = 0;
  opened_at = 0;
  half_open_probes = 0;
  killed = false;
}

abbrev pub is_open : CircuitState → Bool
is_open open_circuit = true
is_open _ = false

-- `now - opened_at >= cooldown`
abbrev pub should_attempt_reset : ℕ → CircuitBreaker → Bool
should_attempt_reset now b = leb (b.opened_at + b.config.cooldown_ticks) now

unfoldable pub maybe_reset : ℕ → CircuitBreaker → Bool × CircuitBreaker
maybe_reset now b =
    if is_open b.state && should_attempt_reset now b
    then (true, record b { state = half_open; half_open_probes = 0 })
    else (false, b)

unfoldable pub on_success : CircuitBreaker → CircuitBreaker
on_success b =
    if b.killed then b else record b { state = closed; failures = 0; half_open_probes = 0 }

unfoldable pub on_failure : ℕ → CircuitBreaker → CircuitBreaker
on_failure now b =
    let counted = record b { failures = b.failures + 1 } in
    if leb b.config.failure_threshold counted.failures
    then record counted { state = open_circuit; opened_at = now }
    else counted

unfoldable pub trip_kill : ℕ → CircuitBreaker → CircuitBreaker
trip_kill now b = record b {
  killed = true;
  state = open_circuit;
  opened_at = now;
  failures = b.config.failure_threshold;
}

unfoldable pub release_kill : CircuitBreaker → CircuitBreaker
release_kill b = record b { killed = false }

-- The calls that its owner makes, with the clock readings.
pub data Call : Type 0 where
  reset : ℕ → Call
  success : Call
  failure : ℕ → Call
  kill : ℕ → Call
  unkill : Call

unfoldable pub call : Call → CircuitBreaker → CircuitBreaker
unfolding maybe_reset on_success on_failure trip_kill release_kill
call (reset now) b = (maybe_reset now b).1
call success b = on_success b
call (failure now) b = on_failure now b
call (kill now) b = trip_kill now b
call unkill b = release_kill b

unfoldable pub run : List Call → CircuitBreaker → CircuitBreaker
run [] b = b
run (c ∷ cs) b = run cs (call c b)
