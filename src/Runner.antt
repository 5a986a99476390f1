-- ===== src/Runner.antt =====
-- ntrade/runner/live_runner.py: `LiveRunner`, the loop of the live trading day. What the kernel, the
-- feed and the brokers do at a turn of the loop is an argument, and a turn answers with the calls
-- that it makes of them, in order. Times are whole ticks of the injected timer.
-- A difference of two readings stops at 0, which is short of a positive interval as a negative one is.
pub mod Turns
pub mod Pace
pub mod Watchdog
use n_trade.Prelude.{
  ℕ, suc, ◌+◌, ◌-◌, Bool, true, false, not, ◌&&◌, ◌||◌, String, Option, none, some, List, [], ◌∷◌,
  ◌++◌, map, if◌then◌else◌, leb, ltb, exists,
}

pub record RunnerConfig : Type 0 where
  pub poll_interval : ℕ
  pub sync_interval : ℕ
  pub watchdog_timeout : ℕ
  pub heartbeat_interval : ℕ
  pub cancel_on_stop : Bool
  pub has_risk_engine : Bool

-- The runner; `engine_halted` is the flag of the risk engine, whose halt is one-shot.
pub record Runner : Type 0 where
  pub polls : ℕ
  pub syncs : ℕ
  pub started : Bool
  pub halted : Bool
  pub kill_switched : Bool
  pub kill_switch_failed : Bool
  pub last_poll : ℕ
  pub last_sync : ℕ
  pub last_tick_count : ℕ
  pub watchdog_missed : ℕ
  pub last_tick_ts : Option ℕ
  pub halt_published : Bool
  pub last_heartbeat : ℕ
  pub engine_halted : Bool

-- The brokers of the instruments, by whether their kill switch answers, and the broker target, if
-- there is one, by whether its kill switch does.
pub record Brokers : Type 0 where
  pub switches : List Bool
  pub target : Option Bool

-- The calls that the runner makes.
pub data Action : Type 0 where
  attached kernel_started feed_started feed_stopped kernel_stopped runner_started : Action
  runner_stopped halt_published activated deactivated tripped reconciled beat : Action
  polled synced : ℕ → Action
  cancelled broker_stopped : String → Action

-- What one turn meets: whether the risk check trips, whether the events of a poll or of a sync halt
-- the risk engine, the three readings of the timer, and the ticks of all instruments.
pub record Turn : Type 0 where
  pub trips : Bool
  pub poll_halts : Bool
  pub sync_halts : Bool
  pub now : ℕ
  pub watch_now : ℕ
  pub beat_now : ℕ
  pub total_ticks : ℕ
  pub brokers : Brokers

abbrev pub Outcome : Type 0
Outcome = Runner × List Action

unfoldable pub new_runner : Runner
new_runner = record {
  polls = 0;
  syncs = 0;
  started = false;
  halted = false;
  kill_switched = false;
  kill_switch_failed = false;
  last_poll = 0;
  last_sync = 0;
  last_tick_count = 0;
  watchdog_missed = 0;
  last_tick_ts = none;
  halt_published = false;
  last_heartbeat = 0;
  engine_halted = false;
}

abbrev pub fails : Option Bool → Bool
fails none = false
fails (some ok) = not ok

abbrev pub trip_actions : Option Bool → List Action
trip_actions none = []
trip_actions (some _) = tripped ∷ []

-- `_on_risk_halted`
unfoldable pub on_risk_halted : Brokers → Runner → Outcome
on_risk_halted b r = (
  record r {
    halted = true;
    kill_switched = r.kill_switched || exists (λ ok. ok) b.switches;
    kill_switch_failed =
        (r.kill_switch_failed || exists (λ ok. not ok) b.switches) || fails b.target;
  },
  map (λ (ok : Bool). activated) b.switches ++ trip_actions b.target,
)

-- `_on_risk_resumed`
unfoldable pub on_risk_resumed : Brokers → Runner → Outcome
on_risk_resumed b r =
    let cleared : Runner = record r { halted = false; halt_published = false } in
    let failed = exists (λ ok. not ok) b.switches in
    if not r.kill_switched then (cleared, []) else (
      record cleared {
        kill_switched = failed;
        kill_switch_failed = r.kill_switch_failed || failed;
      },
      map (λ (ok : Bool). deactivated) b.switches,
    )

abbrev pub with_halt : Outcome → Outcome
with_halt o = (o.0, halt_published ∷ o.1)

-- `_halt_risk`: through the risk engine, or by a latched event of the runner's own.
unfoldable pub halt_risk : RunnerConfig → Brokers → Runner → Outcome
unfolding on_risk_halted
halt_risk c b r =
    if c.has_risk_engine
    then if r.engine_halted
      then (r, [])
      else with_halt (on_risk_halted b (record r { engine_halted = true }))
    else if r.halt_published
    then (r, [])
    else with_halt (on_risk_halted b (record r { halt_published = true }))

abbrev pub halt_if : Bool → RunnerConfig → Brokers → Runner → Outcome
halt_if test c b r = if test then halt_risk c b r else (r, [])

-- `_evaluate_risk`
unfoldable pub evaluate_risk : RunnerConfig → Turn → Runner → Outcome
unfolding halt_risk
evaluate_risk c t r = halt_if (c.has_risk_engine && t.trips) c t.brokers r

unfoldable pub poll_phase : RunnerConfig → Turn → Runner → Outcome
unfolding halt_risk
poll_phase c t r =
    let (r', events) = halt_if (c.has_risk_engine && t.poll_halts) c t.brokers r in
    if leb c.poll_interval (t.now - r.last_poll)
    then (
      record r' { polls = suc r.polls; last_poll = t.now },
      polled t.now ∷ events ++ reconciled ∷ [],
    )
    else (r, [])

unfoldable pub sync_phase : RunnerConfig → Turn → Runner → Outcome
unfolding halt_risk
sync_phase c t r =
    let (r', events) = halt_if (c.has_risk_engine && t.sync_halts) c t.brokers r in
    if leb c.sync_interval (t.now - r.last_sync)
    then (record r' { syncs = suc r.syncs; last_sync = t.now }, synced t.now ∷ events)
    else (r, [])

abbrev pub seen_at : ℕ → Option ℕ → ℕ
seen_at now none = now
seen_at now (some t) = t

-- `_check_feed_watchdog`
unfoldable pub check_feed_watchdog : RunnerConfig → Turn → Runner → Outcome
unfolding halt_risk
check_feed_watchdog c t r =
    let since = seen_at t.watch_now r.last_tick_ts in
    let fresh : Runner = record r {
      watchdog_missed = 0;
      last_tick_ts = some t.watch_now;
      last_tick_count = t.total_ticks;
    } in
    let missed : Runner = record r {
      watchdog_missed = suc r.watchdog_missed;
      last_tick_ts = some since;
      last_tick_count = t.total_ticks;
    } in
    if ltb r.last_tick_count t.total_ticks
    then (fresh, [])
    else halt_if (leb c.watchdog_timeout (t.watch_now - since)) c t.brokers missed

-- `_emit_heartbeat_if_due`
unfoldable pub heartbeat : RunnerConfig → Turn → Runner → Outcome
heartbeat c t r =
    if leb c.heartbeat_interval (t.beat_now - r.last_heartbeat)
    then (record r { last_heartbeat = t.beat_now }, beat ∷ [])
    else (r, [])

infixl 5 ◌then_do◌
abbrev pub ◌then_do◌ : Outcome → (Runner → Outcome) → Outcome
o then_do f = let next = f o.0 in (next.0, o.1 ++ next.1)

-- The phases of a turn that is not halted.
unfoldable pub phases : RunnerConfig → Turn → Runner → Outcome
unfolding poll_phase sync_phase check_feed_watchdog heartbeat
phases c t r =
    poll_phase c t r then_do sync_phase c t then_do check_feed_watchdog c t then_do heartbeat c t

-- `step`; `none` is the exception of a runner that has not started.
unfoldable pub step : RunnerConfig → Turn → Runner → Option Outcome
unfolding evaluate_risk phases
step c t r =
    let checked = evaluate_risk c t r in
    if not r.started
    then none
    else if checked.0.halted
    then some checked
    else some (checked then_do phases c t)

-- `start`, with what `wait_ready` of the feed answers, if the feed has it.
unfoldable pub start : Option Bool → ℕ → Runner → Outcome
start ready now r =
    if r.started
    then (r, [])
    else if fails ready
    then (r, attached ∷ kernel_started ∷ feed_started ∷ kernel_stopped ∷ runner_stopped ∷ [])
    else (
      record r { started = true; last_tick_ts = some now },
      attached ∷ kernel_started ∷ feed_started ∷ runner_started ∷ [],
    )

-- `stop`, with the open orders of the kernel and the instruments whose broker has a `stop`. A cancel
-- that fails is only logged.
unfoldable pub stop : RunnerConfig → List String → List String → Runner → Outcome
stop c open_orders stopping r =
    let cancels =
      if c.cancel_on_stop then map (λ (id : String). cancelled id) open_orders else [] in
    let stops = map (λ (s : String). broker_stopped s) stopping in
    if not r.started then (r, []) else (
      record r { started = false },
      cancels ++ feed_stopped ∷ kernel_stopped ∷ stops ++ runner_stopped ∷ [],
    )

-- `_on_feed_disconnected`
unfoldable pub on_feed_disconnected : RunnerConfig → Brokers → Runner → Outcome
unfolding halt_risk
on_feed_disconnected c b r = halt_risk c b r

-- `_on_order_timeout`: the order is cancelled, and nothing else.
unfoldable pub on_order_timeout : String → Runner → Outcome
on_order_timeout order_id r = (r, cancelled order_id ∷ [])

-- What reaches a runner: a turn of its loop, a resume of the risk engine, and the events that the
-- feed and the order engine publish.
pub data Move : Type 0 where
  turned : Turn → Move
  resumed disconnected : Brokers → Move
  timed_out : String → Move

abbrev pub or_unchanged : Runner → Option Outcome → Outcome
or_unchanged r none = (r, [])
or_unchanged r (some o) = o

unfoldable pub on_move : RunnerConfig → Move → Runner → Outcome
unfolding step on_risk_resumed on_feed_disconnected on_order_timeout
on_move c (turned t) r = or_unchanged r (step c t r)
on_move c (resumed b) r = on_risk_resumed b (record r { engine_halted = false })
on_move c (disconnected b) r = on_feed_disconnected c b r
on_move c (timed_out id) r = on_order_timeout id r

unfoldable pub run : RunnerConfig → List Move → Runner → Outcome
unfolding on_move
run c [] r = (r, [])
run c (m ∷ ms) r = on_move c m r then_do run c ms
