-- ===== src/Risk/Halting.antt =====
-- The halt latch and the loss baseline.
use n_trade.Prelude.{
  ℕ, ◌+◌, ◌≡◌, Bool, true, false, List, [], ◌∷◌, ◌++◌, count, count-append, arith, Bool-cases,
  Option-cases, inl, inr,
}
use n_trade.Prelude.Float.{Float}
use n_trade.Domain.{SignalGeneratedEvent}
use n_trade.Risk.{
  RiskConfig, HaltReason, RiskState, new_risk, RiskEvent, halted_event, resumed_event,
  approved_event, rejected_event, Context, halt, resume, rebase, update_breakers, check,
  check_signal, not_mine, on_signal,
}

-- The calls on an engine, with what each reads.
pub data Call (W : Type 0) : Type 0 where
  signals : Context W → SignalGeneratedEvent W → Call W
  checks : Context W → Call W
  halts : HaltReason W → Context W → Call W
  resumes : Context W → Call W
  rebases : W → Call W

abbrev pub is_halted_event : {W : Type 0} → RiskEvent W → Bool
is_halted_event (halted_event _ _ _) = true
is_halted_event _ = false

abbrev pub is_resumed_event : {W : Type 0} → RiskEvent W → Bool
is_resumed_event (resumed_event _) = true
is_resumed_event _ = false

abbrev pub one_if : Bool → ℕ
one_if true = 1
one_if false = 0

module _ {W : Type 0} ⦃fl : Float W⦄ where
  unfoldable pub call : RiskConfig W → Call W → RiskState W → RiskState W × List (RiskEvent W)
  unfolding on_signal check halt resume rebase
  call k (signals c e) s = on_signal k c e s
  call k (checks c) s = let (answer, t, events) = check k c s in (t, events)
  call k (halts reason c) s = halt reason c s
  call k (resumes c) s = resume c s
  call k (rebases b) s = (rebase b s, [])

  -- The state after the calls, and all the events that they publish.
  unfoldable pub run : RiskConfig W → List (Call W) → RiskState W → RiskState W × List (RiskEvent W)
  run k [] s = (s, [])
  run k (a ∷ rest) s =
      let (t, events) = call k a s in let (u, later) = run k rest t in (u, events ++ later)

  -- What a call publishes of halts and resumptions is what it changes of the latch.
  abbrev Balanced : RiskState W → RiskState W × List (RiskEvent W) → Type 0
  Balanced s (t, events) =
      count is_halted_event events + one_if s.halted
      ≡ count is_resumed_event events + one_if t.halted

  update_breakers-Balanced :
      (k : RiskConfig W) (c : Context W) (s : RiskState W) → Balanced s (update_breakers k c s)
  unfolding update_breakers
  update_breakers-Balanced k c s = ground arith

  call-Balanced : (k : RiskConfig W) (a : Call W) (s : RiskState W) → Balanced s (call k a s)
  unfolding call
  call-Balanced k (signals c e) s =
      let (t, events) = update_breakers k c s in
      let before : Balanced s (t, events) = update_breakers-Balanced k c s in
      elim (Bool-cases (not_mine k.strategy e.strategy)) [
        | inl other ↦ rw (on_signal, other) (omega arith)
        | inr mine ↦ elim (Option-cases (check_signal k c e t)) [
          | inl pass ↦
              rw (on_signal, mine, pass)
                (omega (
                  arith,
                  before,
                  count-append is_halted_event events (approved_event e e.ts ∷ []),
                  count-append is_resumed_event events (approved_event e e.ts ∷ []),
                ))
          | inr (r, refused) ↦
              rw (on_signal, mine, refused)
                (omega (
                  arith,
                  before,
                  count-append is_halted_event events (rejected_event e r e.ts ∷ []),
                  count-append is_resumed_event events (rejected_event e r e.ts ∷ []),
                ))
        ]
      ]
  call-Balanced k (checks c) s = update_breakers-Balanced k c s
  call-Balanced k (halts reason c) s = ground arith
  call-Balanced k (resumes c) s = ground arith
  call-Balanced k (rebases b) s = ground arith

  run-Balanced :
      (k : RiskConfig W) (calls : List (Call W)) (s : RiskState W) → Balanced s (run k calls s)
  unfolding run
  run-Balanced k [] s = omega arith
  run-Balanced k (a ∷ rest) s =
      let (t, events) = call k a s in
      let (u, later) = run k rest t in
      omega (
        arith,
        call-Balanced k a s,
        run-Balanced k rest t,
        count-append is_halted_event events later,
        count-append is_resumed_event events later,
      )

  -- Halts and resumptions are published in turn: over any calls on a new engine, as many halts as
  -- resumptions while it runs, and one more while it is halted.
  pub run-halts_balance :
      (k : RiskConfig W) (balance : W) (calls : List (Call W))
      → let (s, events) = run k calls (new_risk balance) in
        count is_halted_event events ≡ count is_resumed_event events + one_if s.halted
  unfolding new_risk
  run-halts_balance k balance calls = omega (arith, run-Balanced k calls (new_risk balance))
