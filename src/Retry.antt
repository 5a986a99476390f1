-- ===== src/Retry.antt =====
-- `RetryPolicy` of ntrade/execution/retry.py. The callable's results are a function of the number of
-- the attempt, and `random.uniform` of that number too; `power` is `**`.
pub mod Attempts
pub mod Limiter
use n_trade.Prelude.{
  ℕ, zero, suc, ◌+◌, ◌≡◌, Bool, true, false, Option, none, some, List, [], ◌∷◌, if◌then◌else◌,
}
use n_trade.Prelude.Float.{Float}
use n_trade.Domain.{nought}

pub record RetryPolicy (W E : Type 0) : Type 0 where
  pub max_retries : ℕ
  pub base_delay : W
  pub max_delay : W
  pub multiplier : W
  pub is_no_retry : E → Bool

-- What a call of `fn` does.
pub data Result (A E : Type 0) : Type 0 where
  value : A → Result A E
  exception : E → Result A E

-- What `execute` does; with no attempt at all it raises `None`, which is a `TypeError`.
pub data Executed (A E : Type 0) : Type 0 where
  returns : A → Executed A E
  raises : E → Executed A E
  raises_none : Executed A E

abbrev pub raise_last : {A E : Type 0} → Option E → Executed A E
raise_last none = raises_none
raise_last (some e) = raises e

module _ {W E : Type 0} ⦃fl : Float W⦄ (power : W → ℕ → W) (uniform : ℕ → W) where
  -- The delay after an attempt, as `delays` yields it.
  unfoldable pub delay : RetryPolicy W E → ℕ → W
  delay p i =
      let grown = fl.fmul p.base_delay (power p.multiplier i) in
      let capped = if fl.flt p.max_delay grown then p.max_delay else grown in
      let moved = fl.fadd capped (uniform i) in if fl.flt nought moved then moved else nought

  -- The sleep after a failed attempt, unless it was the last.
  abbrev pub sleep_before : RetryPolicy W E → ℕ → ℕ → List W → List W
  sleep_before p attempt zero sleeps = sleeps
  sleep_before p attempt (suc left) sleeps = delay p attempt ∷ sleeps

module _ {W A E : Type 0} ⦃fl : Float W⦄ (power : W → ℕ → W) (uniform : ℕ → W) where
  -- The loop of `execute` with the attempts that are left: the outcome, and the sleeps.
  unfoldable pub attempts :
      RetryPolicy W E → (ℕ → Result A E) → ℕ → ℕ → Option E → Executed A E × List W
  unfolding delay
  attempts p fn zero attempt last = (raise_last last, [])
  attempts p fn (suc left) attempt last =
      let rest : E → Executed A E × List W = λ e. attempts p fn left (suc attempt) (some e) in
      elim (fn attempt) [
        | value a ↦ (returns a, [])
        | exception e ↦
            if p.is_no_retry e
            then (raises e, [])
            else ((rest e).0, sleep_before power uniform p attempt left (rest e).1)
      ]

  unfoldable pub execute : RetryPolicy W E → (ℕ → Result A E) → Executed A E × List W
  unfolding attempts
  execute p fn = attempts p fn p.max_retries 0 none
