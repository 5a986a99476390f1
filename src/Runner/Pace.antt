-- ===== src/Runner/Pace.antt =====
-- How often the loop of ntrade/runner/live_runner.py polls the orders.
use std.Path.{subst}
use n_trade.Runner.Turns.{step_cases}
use n_trade.Prelude.{
  ℕ, suc, ◌+◌, ◌-◌, ◌≡◌, ◌≤◌, ◌<◌, refl, sym, ap, ◌∙◌, ◌⊎◌, inl, inr, Bool, true, false, ◌&&◌,
  Option, none, some, List, [], ◌∷◌, ◌++◌, map, leb, ltb, Bool-cases, arith, append_assoc, length,
}
use n_trade.Runner.{
  RunnerConfig, Runner, Brokers, Turn, Action, polled, reconciled, turned, resumed, disconnected,
  timed_out, on_feed_disconnected, activated, deactivated, Outcome, on_risk_halted, on_risk_resumed,
  halt_risk, halt_if, evaluate_risk, poll_phase, sync_phase, check_feed_watchdog, heartbeat, phases,
  ◌then_do◌, step, trip_actions, Move, on_move, run, seen_at, or_unchanged,
}

-- The times of the polls among the calls.
unfoldable polled_at : Action → List ℕ
polled_at (polled t) = t ∷ []
polled_at _ = []

unfoldable pub poll_times : List Action → List ℕ
unfolding polled_at
poll_times [] = []
poll_times (x ∷ xs) = polled_at x ++ poll_times xs

-- Each time is an interval or more after the one before.
unfoldable pub Paced : ℕ → ℕ → List ℕ → Type 0
Paced gap last [] = Unit
Paced gap last (t ∷ ts) = (last + gap ≤ t) × Paced gap t ts

-- What leaves the polls alone.
unfoldable Quiet : Runner → Outcome → Type 0
unfolding poll_times
Quiet r o = (o.0.last_poll ≡ r.last_poll) × (o.0.polls ≡ r.polls) × (poll_times o.1 ≡ [])

poll_times-append : (xs ys : List Action) → poll_times (xs ++ ys) ≡ poll_times xs ++ poll_times ys
unfolding poll_times
poll_times-append [] ys = refl
poll_times-append (x ∷ xs) ys =
    rw (poll_times-append xs ys) (sym (append_assoc (polled_at x) (poll_times xs) (poll_times ys)))

poll_times-activated : (bs : List Bool) → poll_times (map (λ (ok : Bool). activated) bs) ≡ []
unfolding poll_times
poll_times-activated [] = refl
poll_times-activated (b ∷ bs) = poll_times-activated bs

poll_times-deactivated : (bs : List Bool) → poll_times (map (λ (ok : Bool). deactivated) bs) ≡ []
unfolding poll_times
poll_times-deactivated [] = refl
poll_times-deactivated (b ∷ bs) = poll_times-deactivated bs

poll_times-trip : (t : Option Bool) → poll_times (trip_actions t) ≡ []
unfolding poll_times
poll_times-trip none = refl
poll_times-trip (some _) = refl

on_risk_halted-Quiet : (b : Brokers) (r : Runner) → Quiet r (on_risk_halted b r)
unfolding on_risk_halted Quiet
on_risk_halted-Quiet b r = (
  refl,
  refl,
  poll_times-append (map (λ (ok : Bool). activated) b.switches) (trip_actions b.target)
      ∙ (rw (poll_times-activated b.switches, poll_times-trip b.target) refl),
)

halt_risk-Quiet : (c : RunnerConfig) (b : Brokers) (r : Runner) → Quiet r (halt_risk c b r)
unfolding halt_risk Quiet
halt_risk-Quiet c b r =
    let by_engine = on_risk_halted-Quiet b (record r { engine_halted = true }) in
    let by_event = on_risk_halted-Quiet b (record r { halt_published = true }) in
    elim (Bool-cases c.has_risk_engine) [
      | inl e ↦ elim (Bool-cases r.engine_halted) [
        | inl h ↦ rw (halt_risk, e, h) (refl, refl, refl)
        | inr h ↦ rw (halt_risk, e, h) by_engine
      ]
      | inr e ↦ elim (Bool-cases r.halt_published) [
        | inl h ↦ rw (halt_risk, e, h) (refl, refl, refl)
        | inr h ↦ rw (halt_risk, e, h) by_event
      ]
    ]

halt_if-Quiet :
    (test : Bool) (c : RunnerConfig) (b : Brokers) (r : Runner) → Quiet r (halt_if test c b r)
unfolding Quiet
halt_if-Quiet false c b r = (refl, refl, refl)
halt_if-Quiet true c b r = halt_risk-Quiet c b r

on_risk_resumed-Quiet : (b : Brokers) (r : Runner) → Quiet r (on_risk_resumed b r)
unfolding on_risk_resumed Quiet
on_risk_resumed-Quiet b r = elim (Bool-cases r.kill_switched) [
  | inl e ↦ rw (on_risk_resumed, e) (refl, refl, poll_times-deactivated b.switches)
  | inr e ↦ rw (on_risk_resumed, e) (refl, refl, refl)
]

check_feed_watchdog-Quiet :
    (c : RunnerConfig) (t : Turn) (r : Runner) → Quiet r (check_feed_watchdog c t r)
unfolding check_feed_watchdog Quiet
check_feed_watchdog-Quiet c t r =
    let since = seen_at t.watch_now r.last_tick_ts in
    let missed : Runner = record r {
      watchdog_missed = suc r.watchdog_missed;
      last_tick_ts = some since;
      last_tick_count = t.total_ticks;
    } in
    elim (Bool-cases (ltb r.last_tick_count t.total_ticks)) [
      | inl e ↦ rw (check_feed_watchdog, e) (refl, refl, refl)
      | inr e ↦
          rw (check_feed_watchdog, e)
            (halt_if-Quiet (leb c.watchdog_timeout (t.watch_now - since)) c t.brokers missed)
    ]

heartbeat-Quiet : (c : RunnerConfig) (t : Turn) (r : Runner) → Quiet r (heartbeat c t r)
unfolding heartbeat Quiet
heartbeat-Quiet c t r =
    elim (Bool-cases (leb c.heartbeat_interval (t.beat_now - r.last_heartbeat))) [
      | inl e ↦ rw (heartbeat, e) (refl, refl, refl)
      | inr e ↦ rw (heartbeat, e) (refl, refl, refl)
    ]

sync_phase-Quiet : (c : RunnerConfig) (t : Turn) (r : Runner) → Quiet r (sync_phase c t r)
unfolding sync_phase Quiet
sync_phase-Quiet c t r = elim (Bool-cases (leb c.sync_interval (t.now - r.last_sync))) [
  | inl e ↦ rw (sync_phase, e) (halt_if-Quiet (c.has_risk_engine && t.sync_halts) c t.brokers r)
  | inr e ↦ rw (sync_phase, e) (refl, refl, refl)
]

-- What polls at most once, an interval or more after the last poll.
unfoldable PollsOnce : ℕ → Runner → Outcome → Type 0
unfolding Quiet poll_times
PollsOnce gap r o =
    Quiet r o
    ⊎ ((r.last_poll + gap ≤ o.0.last_poll)
        × (o.0.polls ≡ suc r.polls)
        × (poll_times o.1 ≡ o.0.last_poll ∷ []))

poll_phase-PollsOnce :
    (c : RunnerConfig) (t : Turn) (r : Runner)
    → 0 < c.poll_interval
    → PollsOnce c.poll_interval r (poll_phase c t r)
unfolding poll_phase PollsOnce
poll_phase-PollsOnce c t r positive =
    let o = halt_if (c.has_risk_engine && t.poll_halts) c t.brokers r in
    let quiet = halt_if-Quiet (c.has_risk_engine && t.poll_halts) c t.brokers r in
    elim (Bool-cases (leb c.poll_interval (t.now - r.last_poll))) [
      | inl e ↦
          let late : r.last_poll + c.poll_interval ≤ t.now = ground (arith, e) in
          let polls : poll_times (polled t.now ∷ o.1 ++ reconciled ∷ []) ≡ t.now ∷ [] =
            rw (poll_times-append o.1 (reconciled ∷ []), quiet.2) refl in
          rw (poll_phase, e) (inr (late, refl, polls))
      | inr e ↦ rw (poll_phase, e) (inl (refl, refl, refl))
    ]

then_do-Quiet :
    (r : Runner) (o : Outcome) (f : Runner → Outcome)
    → Quiet r o
    → Quiet o.0 (f o.0)
    → Quiet r (o then_do f)
unfolding Quiet
then_do-Quiet r o f first next = (
  next.0 ∙ first.0,
  next.1 ∙ first.1,
  poll_times-append o.1 (f o.0).1 ∙ (rw (first.2, next.2) refl),
)

then_do-PollsOnce :
    (gap : ℕ) (r : Runner) (o : Outcome) (f : Runner → Outcome)
    → PollsOnce gap r o
    → Quiet o.0 (f o.0)
    → PollsOnce gap r (o then_do f)
unfolding PollsOnce
then_do-PollsOnce gap r o f (inl first) next = inl (then_do-Quiet r o f first next)
then_do-PollsOnce gap r o f (inr (late, count, times)) next = inr (
  rw next.0 late,
  next.1 ∙ count,
  poll_times-append o.1 (f o.0).1 ∙ (rw (times, next.2, next.0) refl),
)

Quiet-then_do :
    (gap : ℕ) (r : Runner) (o : Outcome) (f : Runner → Outcome)
    → Quiet r o
    → PollsOnce gap o.0 (f o.0)
    → PollsOnce gap r (o then_do f)
unfolding PollsOnce
Quiet-then_do gap r o f first (inl next) = inl (then_do-Quiet r o f first next)
Quiet-then_do gap r o f first (inr (late, count, times)) = inr (
  rw (← first.0) late,
  rw (← first.1) count,
  poll_times-append o.1 (f o.0).1 ∙ (rw first.2 times),
)

phases-PollsOnce :
    (c : RunnerConfig) (t : Turn) (r : Runner)
    → 0 < c.poll_interval
    → PollsOnce c.poll_interval r (phases c t r)
unfolding phases
phases-PollsOnce c t r positive =
    let polled = poll_phase c t r in
    let synced = polled then_do sync_phase c t in
    let watched = synced then_do check_feed_watchdog c t in
    then_do-PollsOnce c.poll_interval r watched (heartbeat c t)
      (then_do-PollsOnce c.poll_interval r synced (check_feed_watchdog c t)
        (then_do-PollsOnce c.poll_interval r polled (sync_phase c t)
          (poll_phase-PollsOnce c t r positive) (sync_phase-Quiet c t polled.0))
        (check_feed_watchdog-Quiet c t synced.0))
      (heartbeat-Quiet c t watched.0)

evaluate_risk-Quiet : (c : RunnerConfig) (t : Turn) (r : Runner) → Quiet r (evaluate_risk c t r)
unfolding evaluate_risk
evaluate_risk-Quiet c t r = halt_if-Quiet (c.has_risk_engine && t.trips) c t.brokers r

step-PollsOnce :
    (c : RunnerConfig) (t : Turn) (r : Runner)
    → 0 < c.poll_interval
    → PollsOnce c.poll_interval r (or_unchanged r (step c t r))
unfolding PollsOnce
step-PollsOnce c t r positive =
    let checked = evaluate_risk c t r in
    let quiet = evaluate_risk-Quiet c t r in
    elim (step_cases c t r) [
      | inl e ↦ rw e (inl (refl, refl, refl))
      | inr (inl e) ↦ rw e (inl quiet)
      | inr (inr (_, e)) ↦ rw e (
          Quiet-then_do c.poll_interval r checked (phases c t) quiet
            (phases-PollsOnce c t checked.0 positive))
    ]

on_move-PollsOnce :
    (c : RunnerConfig) (m : Move) (r : Runner)
    → 0 < c.poll_interval
    → PollsOnce c.poll_interval r (on_move c m r)
unfolding on_move PollsOnce on_feed_disconnected
on_move-PollsOnce c (turned t) r positive = step-PollsOnce c t r positive
on_move-PollsOnce c (resumed b) r positive =
    inl (on_risk_resumed-Quiet b (record r { engine_halted = false }))
on_move-PollsOnce c (disconnected b) r positive = inl (halt_risk-Quiet c b r)
on_move-PollsOnce c (timed_out id) r positive = inl (refl, refl, refl)

-- With a positive interval, whatever turns, resumes, disconnects and timeouts a runner meets: the
-- orders are polled an interval or more after the poll before, and the runner counts its polls.
pub run-Paced :
    (c : RunnerConfig) (ms : List Move) (r : Runner)
    → 0 < c.poll_interval
    → Paced c.poll_interval r.last_poll (poll_times (run c ms r).1)
      × ((run c ms r).0.polls ≡ r.polls + length (poll_times (run c ms r).1))
unfolding run PollsOnce Paced
run-Paced c [] r positive = (tt, omega arith)
run-Paced c (m ∷ ms) r positive =
    let o = on_move c m r in
    let (paced, count) = run-Paced c ms o.0 positive in
    let split = poll_times-append o.1 (run c ms o.0).1 in
    elim (on_move-PollsOnce c m r positive) [
      | inl (last, polls, times) ↦
          let all : poll_times (run c (m ∷ ms) r).1 ≡ poll_times (run c ms o.0).1 =
            split ∙ (rw times refl) in
          let rest = poll_times (run c ms o.0).1 in
          rw all (
            subst (λ l. Paced c.poll_interval l rest) last paced,
            count ∙ ap (λ n. n + length rest) polls,
          )
      | inr (late, polls, times) ↦
          let all : poll_times (run c (m ∷ ms) r).1 ≡ o.0.last_poll ∷ poll_times (run c ms o.0).1 =
            split ∙ (rw times refl) in
          rw all ((late, paced), count ∙ (rw polls (omega arith)))
    ]
