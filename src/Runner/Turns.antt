-- ===== src/Runner/Turns.antt =====
-- The three ends of a turn of ntrade/runner/live_runner.py.
use n_trade.Prelude.{
  ◌≡◌, ap, ◌∙◌, ◌⊎◌, inl, inr, true, false, not, Option, none, some, if◌then◌else◌, Bool-cases,
}
use n_trade.Runner.{RunnerConfig, Runner, Turn, Outcome, evaluate_risk, phases, ◌then_do◌, step}

step-stopped : (c : RunnerConfig) (t : Turn) (r : Runner) → r.started ≡ false → step c t r ≡ none
unfolding step
step-stopped c t r s =
    let checked = evaluate_risk c t r in
    let last : Option Outcome =
      if checked.0.halted then some checked else some (checked then_do phases c t) in
    ap (λ b. if not b then none else last) s

pub step-halted :
    (c : RunnerConfig) (t : Turn) (r : Runner)
    → r.started ≡ true
    → (evaluate_risk c t r).0.halted ≡ true
    → step c t r ≡ some (evaluate_risk c t r)
unfolding step
step-halted c t r s h =
    let checked = evaluate_risk c t r in
    let other = some (checked then_do phases c t) in
    ap (λ b. if not b then none else if checked.0.halted then some checked else other) s
    ∙ ap (λ b. if b then some checked else other) h

pub step-runs :
    (c : RunnerConfig) (t : Turn) (r : Runner)
    → r.started ≡ true
    → (evaluate_risk c t r).0.halted ≡ false
    → step c t r ≡ some (evaluate_risk c t r then_do phases c t)
unfolding step
step-runs c t r s h =
    let checked = evaluate_risk c t r in
    let other = some (checked then_do phases c t) in
    ap (λ b. if not b then none else if checked.0.halted then some checked else other) s
    ∙ ap (λ b. if b then some checked else other) h

-- A turn raises, ends after the risk check, or goes on to the phases.
pub step_cases :
    (c : RunnerConfig) (t : Turn) (r : Runner)
    → (step c t r ≡ none)
      ⊎ ((step c t r ≡ some (evaluate_risk c t r))
          ⊎ (((evaluate_risk c t r).0.halted ≡ false)
              × (step c t r ≡ some (evaluate_risk c t r then_do phases c t))))
step_cases c t r = elim (Bool-cases r.started) [
  | inl s ↦ elim (Bool-cases (evaluate_risk c t r).0.halted) [
    | inl h ↦ inr (inl (step-halted c t r s h))
    | inr h ↦ inr (inr (h, step-runs c t r s h))
  ]
  | inr s ↦ inl (step-stopped c t r s)
]
