-- ===== src/Runner/Watchdog.antt =====
-- The feed watchdog of ntrade/runner/live_runner.py on a feed that has stopped.
use std.Path.{subst}
use n_trade.Runner.Turns.{step-runs, step_cases}
use n_trade.Prelude.{
  ℕ, suc, ◌-◌, ◌≡◌, refl, sym, ap, ◌∙◌, ◌⊎◌, inl, inr, Bool, true, false, ◌&&◌, ◌||◌, Option, some,
  List, [], ◌∷◌, map, if◌then◌else◌, leb, ltb, Bool-cases, arith, exists, All,
}
use n_trade.Runner.{
  RunnerConfig, Runner, Brokers, Turn, Outcome, on_risk_halted, halt_risk, halt_if, evaluate_risk,
  poll_phase, sync_phase, check_feed_watchdog, heartbeat, phases, ◌then_do◌, step, turned, on_move,
  run, seen_at, or_unchanged,
}

-- A turn on a feed that has shown `n` ticks and shows no more, where nothing else halts the engine.
unfoldable pub IsFrozen : ℕ → Turn → Type 0
IsFrozen n t =
    (t.trips ≡ false) × (t.poll_halts ≡ false) × (t.sync_halts ≡ false) × (t.total_ticks ≡ n)

-- Whether a halt would be ignored as one that has been published before.
unfoldable pub is_latched : RunnerConfig → Runner → Bool
is_latched c r = if c.has_risk_engine then r.engine_halted else r.halt_published

-- A runner at work that saw tick `n` at `t0`.
unfoldable pub IsLive : RunnerConfig → ℕ → ℕ → Runner → Type 0
unfolding is_latched
IsLive c t0 n r =
    (r.started ≡ true)
    × (r.halted ≡ false)
    × (r.last_tick_ts ≡ some t0)
    × (r.last_tick_count ≡ n)
    × (is_latched c r ≡ false)

-- Whether a turn comes too long after the last tick.
unfoldable pub is_overdue : RunnerConfig → ℕ → Turn → Bool
is_overdue c t0 t = leb c.watchdog_timeout (t.watch_now - t0)

and_false : (a b : Bool) → b ≡ false → (a && b) ≡ false
and_false true b e = e
and_false false b e = refl

halt_risk-halts :
    (c : RunnerConfig) (b : Brokers) (r : Runner)
    → is_latched c r ≡ false
    → (halt_risk c b r).0.halted ≡ true
unfolding is_latched on_risk_halted halt_risk
halt_risk-halts c b r armed = elim (Bool-cases c.has_risk_engine) [
  | inl e ↦
      let q : r.engine_halted ≡ false =
        sym (ap (λ x. if x then r.engine_halted else r.halt_published) e) ∙ armed in
      rw (halt_risk, e, q) refl
  | inr e ↦
      let q : r.halt_published ≡ false =
        sym (ap (λ x. if x then r.engine_halted else r.halt_published) e) ∙ armed in
      rw (halt_risk, e, q) refl
]

evaluate_risk-frozen :
    (c : RunnerConfig) (t : Turn) (r : Runner) → t.trips ≡ false → evaluate_risk c t r ≡ (r, [])
unfolding evaluate_risk
evaluate_risk-frozen c t r calm =
    ap (λ b. halt_if b c t.brokers r) (and_false c.has_risk_engine t.trips calm)

poll_phase-IsLive :
    (c : RunnerConfig) (t : Turn) (t0 n : ℕ) (r : Runner)
    → t.poll_halts ≡ false
    → IsLive c t0 n r
    → IsLive c t0 n (poll_phase c t r).0
unfolding IsLive is_latched poll_phase
poll_phase-IsLive c t t0 n r calm live =
    let q = and_false c.has_risk_engine t.poll_halts calm in
    elim (Bool-cases (leb c.poll_interval (t.now - r.last_poll))) [
      | inl e ↦ rw (poll_phase, q, e) live
      | inr e ↦ rw (poll_phase, q, e) live
    ]

sync_phase-IsLive :
    (c : RunnerConfig) (t : Turn) (t0 n : ℕ) (r : Runner)
    → t.sync_halts ≡ false
    → IsLive c t0 n r
    → IsLive c t0 n (sync_phase c t r).0
unfolding IsLive is_latched sync_phase
sync_phase-IsLive c t t0 n r calm live =
    let q = and_false c.has_risk_engine t.sync_halts calm in
    elim (Bool-cases (leb c.sync_interval (t.now - r.last_sync))) [
      | inl e ↦ rw (sync_phase, q, e) live
      | inr e ↦ rw (sync_phase, q, e) live
    ]

heartbeat-IsLive :
    (c : RunnerConfig) (t : Turn) (t0 n : ℕ) (r : Runner)
    → IsLive c t0 n r
    → IsLive c t0 n (heartbeat c t r).0
unfolding IsLive is_latched heartbeat
heartbeat-IsLive c t t0 n r live =
    elim (Bool-cases (leb c.heartbeat_interval (t.beat_now - r.last_heartbeat))) [
      | inl e ↦ rw (heartbeat, e) live
      | inr e ↦ rw (heartbeat, e) live
    ]

heartbeat-halted :
    (c : RunnerConfig) (t : Turn) (r : Runner) → (heartbeat c t r).0.halted ≡ r.halted
unfolding heartbeat
heartbeat-halted c t r =
    elim (Bool-cases (leb c.heartbeat_interval (t.beat_now - r.last_heartbeat))) [
      | inl e ↦ rw (heartbeat, e) refl
      | inr e ↦ rw (heartbeat, e) refl
    ]

-- After a step of the loop: still at work and not overdue, or overdue and halted.
unfoldable Judged : RunnerConfig → ℕ → ℕ → Turn → Runner → Type 0
unfolding is_overdue IsLive
Judged c t0 n t r =
    ((is_overdue c t0 t ≡ false) × IsLive c t0 n r)
    ⊎ ((is_overdue c t0 t ≡ true) × (r.halted ≡ true))

check_feed_watchdog-Judged :
    (c : RunnerConfig) (t : Turn) (t0 n : ℕ) (r : Runner)
    → IsFrozen n t
    → IsLive c t0 n r
    → Judged c t0 n t (check_feed_watchdog c t r).0
unfolding check_feed_watchdog Judged IsFrozen
check_feed_watchdog-Judged c t t0 n r (_, _, _, same) (started, running, seen, count, armed) =
    let since = seen_at t.watch_now r.last_tick_ts in
    let at : since ≡ t0 = ap (seen_at t.watch_now) seen in
    let stale : ltb r.last_tick_count t.total_ticks ≡ false = ground (arith, same, count) in
    let missed : Runner = record r {
      watchdog_missed = suc r.watchdog_missed;
      last_tick_ts = some since;
      last_tick_count = t.total_ticks;
    } in
    elim (Bool-cases (leb c.watchdog_timeout (t.watch_now - since))) [
      | inl e ↦
          rw (check_feed_watchdog, stale, e)
            (inr (
              ap (λ x. leb c.watchdog_timeout (t.watch_now - x)) (sym at) ∙ e,
              halt_risk-halts c t.brokers missed armed,
            ))
      | inr e ↦
          rw (check_feed_watchdog, stale, e)
            (inl (
              ap (λ x. leb c.watchdog_timeout (t.watch_now - x)) (sym at) ∙ e,
              (started, running, ap some at, same, armed),
            ))
    ]

then_do-Judged :
    (c : RunnerConfig) (t : Turn) (t0 n : ℕ) (r : Runner)
    → Judged c t0 n t r
    → Judged c t0 n t (heartbeat c t r).0
unfolding Judged
then_do-Judged c t t0 n r (inl (e, live)) = inl (e, heartbeat-IsLive c t t0 n r live)
then_do-Judged c t t0 n r (inr (e, h)) = inr (e, heartbeat-halted c t r ∙ h)

phases-Judged :
    (c : RunnerConfig) (t : Turn) (t0 n : ℕ) (r : Runner)
    → IsFrozen n t
    → IsLive c t0 n r
    → Judged c t0 n t (phases c t r).0
unfolding phases IsFrozen
phases-Judged c t t0 n r frozen live =
    let polled = (poll_phase c t r).0 in
    let synced = (sync_phase c t polled).0 in
    let still =
      sync_phase-IsLive c t t0 n polled frozen.2 (poll_phase-IsLive c t t0 n r frozen.1 live) in
    then_do-Judged c t t0 n (check_feed_watchdog c t synced).0
      (check_feed_watchdog-Judged c t t0 n synced frozen still)

step-Judged :
    (c : RunnerConfig) (t : Turn) (t0 n : ℕ) (r : Runner)
    → IsFrozen n t
    → IsLive c t0 n r
    → Judged c t0 n t (or_unchanged r (step c t r)).0
unfolding IsFrozen IsLive
step-Judged c t t0 n r frozen live =
    let calm = evaluate_risk-frozen c t r frozen.0 in
    let on = ap (λ (o : Outcome). o.0.halted) calm ∙ live.1 in
    let next = ap (λ (o : Outcome). (o then_do phases c t).0) calm in
    let after : (or_unchanged r (step c t r)).0 ≡ (phases c t r).0 =
      ap (λ (o : Option Outcome). (or_unchanged r o).0) (step-runs c t r live.0 on) ∙ next in
    subst (Judged c t0 n t) (sym after) (phases-Judged c t t0 n r frozen live)

-- A halted runner takes a frozen turn without a call.
step-stays :
    (c : RunnerConfig) (t : Turn) (r : Runner)
    → t.trips ≡ false
    → r.halted ≡ true
    → or_unchanged r (step c t r) ≡ (r, [])
step-stays c t r quiet h =
    let calm = evaluate_risk-frozen c t r quiet in
    elim (step_cases c t r) [
      | inl e ↦ ap (or_unchanged r) e
      | inr (inl e) ↦ ap (or_unchanged r) e ∙ calm
      | inr (inr (on, _)) ↦
          let off : false ≡ true = sym on ∙ ap (λ (o : Outcome). o.0.halted) calm ∙ h in
          ground (arith, off)
    ]

run-stays :
    (c : RunnerConfig) (n : ℕ) (ts : List Turn) (r : Runner)
    → All (IsFrozen n) ts
    → r.halted ≡ true
    → run c (map turned ts) r ≡ (r, [])
unfolding run on_move IsFrozen
run-stays c n [] r frozen h = refl
run-stays c n (t ∷ ts) r (frozen, rest) h =
    ap (λ (o : Outcome). o then_do run c (map turned ts)) (step-stays c t r frozen.0 h)
    ∙ run-stays c n ts r rest h

-- A runner at work that saw its last tick at `t0`, over turns in which no tick comes and nothing else
-- halts the engine: it ends as halted exactly when one of them comes the timeout or more after `t0`,
-- however many turns it takes in between.
pub run-halts_frozen :
    (c : RunnerConfig) (t0 n : ℕ) (ts : List Turn) (r : Runner)
    → All (IsFrozen n) ts
    → IsLive c t0 n r
    → (run c (map turned ts) r).0.halted ≡ exists (is_overdue c t0) ts
unfolding run on_move Judged IsLive
run-halts_frozen c t0 n [] r frozen live = live.1
run-halts_frozen c t0 n (t ∷ ts) r (frozen, rest) live =
    let r1 = (or_unchanged r (step c t r)).0 in
    elim (step-Judged c t t0 n r frozen live) [
      | inl (e, still) ↦
          run-halts_frozen c t0 n ts r1 rest still
          ∙ ap (λ b. b || exists (is_overdue c t0) ts) (sym e)
      | inr (e, h) ↦
          ap (λ (o : Outcome). o.0.halted) (run-stays c n ts r1 rest h)
          ∙ h
          ∙ ap (λ b. b || exists (is_overdue c t0) ts) (sym e)
    ]
