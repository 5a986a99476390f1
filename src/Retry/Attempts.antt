-- ===== src/Retry/Attempts.antt =====
-- How `execute` of ntrade/execution/retry.py ends.
use n_trade.Prelude.{
  ℕ, zero, suc, ◌+◌, ◌<◌, ◌≡◌, refl, sym, ◌∙◌, ap, true, false, Option, none, some, List, [], ◌∷◌,
  arith, ◌⊎◌, inl, inr,
}
use n_trade.Prelude.Float.{Float}
use n_trade.Retry.{
  RetryPolicy, Result, value, exception, Executed, returns, raises, delay, attempts, execute,
}

module _ {W A E : Type 0} where
  -- An attempt that is retried.
  abbrev pub IsRetried : RetryPolicy W E → (ℕ → Result A E) → ℕ → Type 0
  IsRetried p fn i = (e : E) × (fn i ≡ exception e) × (p.is_no_retry e ≡ false)

  -- How an attempt ends the loop: with a value, or with an exception that is not retried.
  abbrev pub Stops : RetryPolicy W E → (ℕ → Result A E) → ℕ → Executed A E → Type 0
  Stops p fn i out =
      ((a : A) × (fn i ≡ value a) × (out ≡ returns a))
      ⊎ ((e : E) × (fn i ≡ exception e) × (p.is_no_retry e ≡ true) × (out ≡ raises e))

module _ {W E : Type 0} ⦃fl : Float W⦄ (power : W → ℕ → W) (uniform : ℕ → W) where
  -- The delays after the attempts from one on.
  abbrev pub waits : RetryPolicy W E → ℕ → ℕ → List W
  waits p attempt zero = []
  waits p attempt (suc n) = delay power uniform p attempt ∷ waits p (suc attempt) n

module _ {W A E : Type 0} ⦃fl : Float W⦄ (power : W → ℕ → W) (uniform : ℕ → W) where
  attempts-Stops :
      (p : RetryPolicy W E) (fn : ℕ → Result A E) (left k attempt : ℕ) (last : Option E)
      (out : Executed A E)
      → k < left
      → ((j : ℕ) → j < k → IsRetried p fn (attempt + j))
      → Stops p fn (attempt + k) out
      → attempts power uniform p fn left attempt last ≡ (out, waits power uniform p attempt k)
  unfolding attempts
  attempts-Stops p fn zero k attempt last out lt retried stop = absurd (omega arith)
  attempts-Stops p fn (suc left) zero attempt last out lt retried stop =
      let same : attempt + 0 ≡ attempt = omega arith in
      elim stop [
        | inl (a, got, is) ↦ rw (attempts, ap fn (sym same) ∙ got, is) refl
        | inr (e, got, fatal, is) ↦ rw (attempts, ap fn (sym same) ∙ got, fatal, is) refl
      ]
  attempts-Stops p fn (suc zero) (suc k) attempt last out lt retried stop = absurd (omega arith)
  attempts-Stops p fn (suc (suc left)) (suc k) attempt last out lt retried stop =
      let same : attempt + 0 ≡ attempt = omega arith in
      let (e, got, again) = retried 0 (omega arith) in
      let shift : (j : ℕ) → suc attempt + j ≡ attempt + suc j = λ j. omega arith in
      let rest =
        attempts-Stops p fn (suc left) k (suc attempt) (some e) out (omega arith)
          (λ j less. rw (shift j) (retried (suc j) (omega arith))) (rw (shift k) stop) in
      rw (attempts, ap fn (sym same) ∙ got, again, rest) refl

  -- The first attempt that gives a value, or raises what is not retried, ends `execute` with that
  -- value or exception, after the delays of the attempts before it.
  pub execute-first_stop :
      (p : RetryPolicy W E) (fn : ℕ → Result A E) (k : ℕ) (out : Executed A E)
      → k < p.max_retries
      → ((j : ℕ) → j < k → IsRetried p fn j)
      → Stops p fn k out
      → execute power uniform p fn ≡ (out, waits power uniform p 0 k)
  unfolding execute
  execute-first_stop p fn k out lt retried stop =
      let zero_plus : (j : ℕ) → 0 + j ≡ j = λ j. omega arith in
      attempts-Stops p fn p.max_retries k 0 none out lt
        (λ j less. rw (zero_plus j) (retried j less)) (rw (zero_plus k) stop)
