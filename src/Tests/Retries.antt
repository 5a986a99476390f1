-- ===== src/Tests/Retries.antt =====
-- A retried call at a concrete input.
use n_trade.Prelude.{ℕ, zero, suc, ◌≡◌, ◌<◌, refl, true, false, List, [], ◌∷◌, arith, inl}
use n_trade.Prelude.Int.{ℤ, pos}
use n_trade.Prelude.Float.{int_float}
use n_trade.Retry.{RetryPolicy, Result, value, exception, returns, delay, execute}
use n_trade.Retry.Limiter.{RateLimiter, new_limiter, waits, IsHonest, IsApart, waits-IsApart}
use n_trade.Retry.Attempts.{IsRetried, execute-first_stop}

-- Errors are numbers; 0 stands for the rate limit, which is not retried.
abbrev policy : RetryPolicy ℤ ℕ
policy = record {
  max_retries = 3;
  base_delay = pos 2;
  max_delay = pos 30;
  multiplier = pos 2;
  is_no_retry = λ e. elim e [ zero ↦ true | suc _ ↦ false ];
}

-- The call fails once, and then gives 7.
abbrev flaky : ℕ → Result ℕ ℕ
flaky zero = exception 500
flaky (suc _) = value 7

flaky-IsRetried : (j : ℕ) → j < 1 → IsRetried policy flaky j
flaky-IsRetried zero less = (500, refl, refl)
flaky-IsRetried (suc j) less = absurd (omega arith)

execute-first_stop_example :
    execute ⦃fl = int_float⦄ (λ m i. m) (λ i. pos 1) policy flaky
    ≡ (returns 7, delay ⦃fl = int_float⦄ (λ m i. m) (λ i. pos 1) policy 0 ∷ [])
execute-first_stop_example =
    execute-first_stop ⦃fl = int_float⦄ (λ m i. m) (λ i. pos 1) policy flaky 1 (returns 7)
      (omega arith) flaky-IsRetried (inl (7, refl, refl))

abbrev limiter : RateLimiter
limiter = new_limiter 4

-- Three calls at 100, 101 and 110.
abbrev readings : List (ℕ × ℕ)
readings = (100, 100) ∷ (101, 105) ∷ (110, 110) ∷ []

let_through : waits readings limiter ≡ 100 ∷ 105 ∷ 110 ∷ []
unfolding waits
let_through = refl

readings-IsHonest : IsHonest readings limiter
unfolding IsHonest new_limiter
readings-IsHonest =
    (omega arith, omega arith, (omega arith, omega arith, (omega arith, omega arith, tt)))

waits-IsApart_example : IsApart limiter.interval limiter.last_time (waits readings limiter)
waits-IsApart_example = waits-IsApart readings limiter readings-IsHonest
