-- ===== src/Tests/Runners.antt =====
-- Turns of the live runner, for ntrade/runner/live_runner.py.
use n_trade.Prelude.{
  ℕ, ◌+◌, ◌≡◌, refl, true, false, none, some, List, [], ◌∷◌, map, length, exists, arith,
}
use n_trade.Runner.{
  RunnerConfig, Runner, Brokers, Turn, Move, turned, resumed, disconnected, timed_out, new_runner,
  start, run,
}
use n_trade.Runner.Pace.{Paced, poll_times, run-Paced}
use n_trade.Runner.Watchdog.{is_overdue, IsFrozen, IsLive, is_latched, run-halts_frozen}

abbrev usual : RunnerConfig
usual = record {
  poll_interval = 5;
  sync_interval = 10;
  watchdog_timeout = 20;
  heartbeat_interval = 30;
  cancel_on_stop = true;
  has_risk_engine = true;
}

abbrev one_broker : Brokers
one_broker = record { switches = true ∷ []; target = some true }

abbrev turn_at : ℕ → Turn
turn_at time = record {
  trips = false;
  poll_halts = false;
  sync_halts = false;
  now = time;
  watch_now = time;
  beat_now = time;
  total_ticks = 7;
  brokers = one_broker;
}

abbrev at_work : Runner
at_work = record (start none 100 new_runner).0 { last_tick_count = 7 }

abbrev moves : List Move
moves =
    turned (turn_at 101)
    ∷ turned (turn_at 103)
    ∷ turned (turn_at 106)
    ∷ disconnected one_broker
    ∷ turned (turn_at 112)
    ∷ resumed one_broker
    ∷ timed_out "BRK-1"
    ∷ turned (turn_at 113)
    ∷ []

polls_of_moves : poll_times (run usual moves at_work).1 ≡ 101 ∷ 106 ∷ 113 ∷ []
unfolding poll_times run start new_runner
polls_of_moves = refl

run-Paced_example :
    Paced usual.poll_interval at_work.last_poll (poll_times (run usual moves at_work).1)
    × ((run usual moves at_work).0.polls
        ≡ at_work.polls + length (poll_times (run usual moves at_work).1))
run-Paced_example = run-Paced usual moves at_work (omega arith)

abbrev frozen_turns : List Turn
frozen_turns = turn_at 110 ∷ turn_at 119 ∷ turn_at 120 ∷ turn_at 130 ∷ []

frozen_overdue : exists (is_overdue usual 100) frozen_turns ≡ true
unfolding is_overdue
frozen_overdue = refl

run-halts_frozen_example :
    (run usual (map turned frozen_turns) at_work).0.halted
    ≡ exists (is_overdue usual 100) frozen_turns
unfolding start new_runner IsFrozen IsLive is_latched
run-halts_frozen_example =
    run-halts_frozen usual 100 7 frozen_turns at_work
      (
        (refl, refl, refl, refl),
        ((refl, refl, refl, refl), ((refl, refl, refl, refl), ((refl, refl, refl, refl), tt))),
      )
      (refl, refl, refl, refl, refl)
