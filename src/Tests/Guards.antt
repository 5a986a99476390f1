-- ===== src/Tests/Guards.antt =====
-- The guards of ntrade/execution/_guard.py at concrete inputs.
use n_trade.Prelude.{◌≡◌, ◌≢◌, refl, String, string_eq, true, List, [], ◌∷◌, ◌+◌, arith}
use n_trade.Prelude.Dict.{lookup}
use n_trade.Guard.Idempotency.{
  IdempotencyGuard, duplicate, new_guard, check_and_reserve, record_result,
}
use n_trade.Guard.Idempotency.Invariant.{new_guard-Inv}
use n_trade.Guard.Idempotency.Retention.{
  Call, checks, records, releases, run, record_result-is_remembered,
}
use n_trade.Guard.Breaker.{
  CircuitBreakerConfig, CircuitBreaker, closed, open_circuit, half_open, new_breaker, maybe_reset,
  on_success, on_failure, trip_kill,
}
use n_trade.Guard.Breaker.States.{fail_all}
use n_trade.Guard.Breaker.Latch.{trip_kill-never_closes, trip_kill-leaves_open}
use n_trade.Guard.Cooldown.{absent, wall_clock_min}
use n_trade.Guard.Cooldown.Spacing.{Step, acquires, succeeds, IsSpaced, attempts-IsSpaced}
use n_trade.Guard.Breaker
use n_trade.Guard.Cooldown.Spacing

abbrev two_results : IdempotencyGuard String String
two_results = new_guard 2

abbrev one_more : List (Call String String)
one_more = checks "b" ∷ records "b" "ORD-2" ∷ releases "a" ∷ []

record_result-is_remembered_example :
    let g = run one_more (record_result "a" "ORD-1" two_results) in
    check_and_reserve "a" g ≡ (duplicate "ORD-1", g)
unfolding new_guard lookup
record_result-is_remembered_example =
    record_result-is_remembered "a" "ORD-1" one_more two_results (new_guard-Inv 2) refl
      (omega arith)

abbrev breaker : CircuitBreaker
breaker = new_breaker (record { failure_threshold = 3; cooldown_ticks = 30; half_open_max = 1 })

abbrev tripped : CircuitBreaker
tripped = fail_all (10 ∷ 20 ∷ 25 ∷ []) breaker

trip_kill-never_closes_example :
    (Breaker.run (Breaker.reset 100 ∷ Breaker.success ∷ []) (trip_kill 5 breaker)).state ≢ closed
trip_kill-never_closes_example =
    trip_kill-never_closes (Breaker.reset 100 ∷ Breaker.success ∷ []) breaker 5 tt

trip_kill-leaves_open_example :
    let after = (maybe_reset 40 (trip_kill 5 breaker)).1 in
    (after.killed ≡ true) × (after.state ≡ half_open) × (on_success after ≡ after)
unfolding new_breaker
trip_kill-leaves_open_example = trip_kill-leaves_open breaker 5 40 (omega arith)

abbrev attempts : List Step
attempts =
    acquires wall_clock_min (wall_clock_min + 1)
    ∷ succeeds (wall_clock_min + 2)
    ∷ acquires (wall_clock_min + 3) (wall_clock_min + 3)
    ∷ acquires (wall_clock_min + 200) (wall_clock_min + 201)
    ∷ []

attempts-IsSpaced_example : IsSpaced 120 (Spacing.run 120 attempts (absent, [])).1
attempts-IsSpaced_example = attempts-IsSpaced 120 0 attempts (
  omega arith,
  omega arith,
  omega arith,
  (
    omega arith,
    omega arith,
    (omega arith, omega arith, omega arith, (omega arith, omega arith, omega arith, tt)),
  ),
)
