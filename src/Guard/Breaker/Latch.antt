-- ===== src/Guard/Breaker/Latch.antt =====
-- The kill latch of the circuit breaker: what it holds, and what it does not.
use n_trade.Prelude.{ℕ, ◌+◌, ◌≤◌, ◌≡◌, ◌≢◌, refl, true, List, [], ◌∷◌, arith}
use n_trade.Guard.Breaker.{
  closed, half_open, CircuitBreaker, maybe_reset, on_success, trip_kill, Call, reset, success,
  failure, kill, unkill, call, run,
}

-- No call in the list releases the latch.
abbrev pub Holds : List Call → Type 0
Holds [] = Unit
Holds (unkill ∷ cs) = ⊥
Holds (_ ∷ cs) = Holds cs

record IsLatched (b : CircuitBreaker) : Type 0 where
  killed : b.killed ≡ true
  not_closed : b.state ≢ closed

run-IsLatched :
    (cs : List Call) (b : CircuitBreaker) → Holds cs → IsLatched b → IsLatched (run cs b)
unfolding run call
run-IsLatched [] b h v = v
run-IsLatched (reset now ∷ cs) b h v = run-IsLatched cs (call (reset now) b) h (ground arith)
run-IsLatched (success ∷ cs) b h v = run-IsLatched cs (call success b) h (ground arith)
run-IsLatched (failure now ∷ cs) b h v = run-IsLatched cs (call (failure now) b) h (ground arith)
run-IsLatched (kill now ∷ cs) b h v = run-IsLatched cs (call (kill now) b) h (ground arith)
run-IsLatched (unkill ∷ cs) b h v = absurd h

-- After a kill, no calls but a release of the latch bring the breaker back to closed.
pub trip_kill-never_closes :
    (cs : List Call) (b : CircuitBreaker) (now : ℕ)
    → Holds cs
    → (run cs (trip_kill now b)).state ≢ closed
unfolding trip_kill
trip_kill-never_closes cs b now h =
    (run-IsLatched cs (trip_kill now b) h (record { killed = refl; not_closed = cc })).not_closed

-- The latch does not hold the breaker open: once the cooldown has passed since a kill, a reset
-- moves the killed breaker to half open, where a success leaves it.
pub trip_kill-leaves_open :
    (b : CircuitBreaker) (now then : ℕ)
    → now + b.config.cooldown_ticks ≤ then
    → let after = (maybe_reset then (trip_kill now b)).1 in
      (after.killed ≡ true) × (after.state ≡ half_open) × (on_success after ≡ after)
unfolding trip_kill maybe_reset on_success
trip_kill-leaves_open b now then h = ground arith
