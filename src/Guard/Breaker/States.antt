-- ===== src/Guard/Breaker/States.antt =====
-- The states of the circuit breaker: closed below the threshold, open from it on, and back by a
-- probe after the cooldown.
use n_trade.Prelude.{
  ℕ, ◌+◌, ◌≤◌, ◌<◌, ◌≡◌, ◌≢◌, ◌↔◌, refl, true, false, List, [], ◌∷◌, leb, arith, length,
  if◌then◌else◌, Bool-cases, inl, inr,
}
use n_trade.Guard.Breaker.{
  closed, open_circuit, half_open, CircuitBreakerConfig, CircuitBreaker, new_breaker, maybe_reset,
  on_success, on_failure, Call, reset, success, failure, kill, unkill, call, run,
}

-- Closed means below the threshold, and any other state means at the threshold or above.
pub record Inv (b : CircuitBreaker) : Type 0 where
  pub below : b.state ≡ closed → b.failures < b.config.failure_threshold
  pub reached : b.state ≢ closed → b.config.failure_threshold ≤ b.failures

-- A new breaker with a positive threshold satisfies the invariant.
pub new_breaker-Inv : (c : CircuitBreakerConfig) → 0 < c.failure_threshold → Inv (new_breaker c)
unfolding new_breaker
new_breaker-Inv c h = ground arith

call-Inv : (c : Call) (b : CircuitBreaker) → 0 < b.config.failure_threshold → Inv b → Inv (call c b)
unfolding call
call-Inv (reset now) b h v = ground arith
call-Inv success b h v = ground arith
call-Inv (failure now) b h v = ground arith
call-Inv (kill now) b h v = ground arith
call-Inv unkill b h v = ground arith

pub call-config : (c : Call) (b : CircuitBreaker) → (call c b).config ≡ b.config
unfolding call
call-config (reset now) b = ground arith
call-config success b = ground arith
call-config (failure now) b = ground arith
call-config (kill now) b = refl
call-config unkill b = refl

-- After any calls, the breaker is closed exactly while its failure count is below the threshold.
pub run-Inv :
    (cs : List Call) (b : CircuitBreaker) → 0 < b.config.failure_threshold → Inv b → Inv (run cs b)
unfolding run
run-Inv [] b h v = v
run-Inv (c ∷ cs) b h v = run-Inv cs (call c b) (ground (arith, call-config c b)) (call-Inv c b h v)

-- `n` failures in a row at the times that `times` gives.
abbrev pub fail_all : List ℕ → CircuitBreaker → CircuitBreaker
fail_all [] b = b
fail_all (now ∷ times) b = fail_all times (on_failure now b)

-- Once open, further failures leave it open.
fail_all-open :
    (times : List ℕ) (b : CircuitBreaker)
    → b.config.failure_threshold ≤ b.failures
    → b.state ≡ open_circuit
    → (fail_all times b).state ≡ open_circuit
unfolding on_failure
fail_all-open [] b h o = o
fail_all-open (now ∷ times) b h o =
    fail_all-open times (on_failure now b) (ground arith) (ground arith)

fail_all-closed :
    (times : List ℕ) (b : CircuitBreaker)
    → b.state ≡ closed
    → 0 < length times
    → ((fail_all times b).state ≡ open_circuit)
      ↔ (b.config.failure_threshold ≤ b.failures + length times)
unfolding on_failure
fail_all-closed [] b c p = absurd (omega arith)
fail_all-closed (now ∷ []) b c p = ground arith
fail_all-closed (now ∷ first ∷ times) b c p =
    elim (Bool-cases (leb b.config.failure_threshold (b.failures + 1))) [
      | inl hit ↦ (
        λ o. ground arith,
        λ h. fail_all-open (first ∷ times) (on_failure now b) (ground arith) (ground arith),
      )
      | inr more ↦ (
        λ o. ground (
          arith,
          (fail_all-closed (first ∷ times) (on_failure now b) (ground arith) (omega arith)).0 (o),
        ),
        λ h.
            (fail_all-closed (first ∷ times) (on_failure now b) (ground arith) (omega arith)).1
              (ground arith),
      )
    ]

-- A run of failures on a breaker that has just succeeded opens it exactly when it is at least as
-- long as the threshold.
pub opens_at_threshold :
    (b : CircuitBreaker) (times : List ℕ)
    → b.killed ≡ false
    → 0 < length times
    → ((fail_all times (on_success b)).state ≡ open_circuit)
      ↔ (b.config.failure_threshold ≤ length times)
unfolding on_success
opens_at_threshold b times k p =
    let h = fail_all-closed times (on_success b) (ground arith) p in ground (arith, h)

-- An open breaker whose cooldown has passed becomes half open by a reset: a failed probe opens it
-- again from the probe's time on, and a successful one closes it and clears the count, unless the breaker
-- was killed, which stays half open.
pub probe_cycle :
    (b : CircuitBreaker) (now retried : ℕ)
    → Inv b
    → b.state ≡ open_circuit
    → b.opened_at + b.config.cooldown_ticks ≤ now
    → let (allowed, probing) = maybe_reset now b in
      (allowed ≡ true)
      × (probing.state ≡ half_open)
      × ((on_failure retried probing).state ≡ open_circuit)
      × ((on_failure retried probing).opened_at ≡ retried)
      × ((on_success probing).state ≡ (if b.killed then half_open else closed))
      × ((on_success probing).failures ≡ (if b.killed then b.failures else 0))
unfolding maybe_reset on_failure on_success
probe_cycle b now retried v o late = ground (arith, v.reached)
