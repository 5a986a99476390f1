-- ===== src/Tests/Buses.antt =====
-- The event bus at concrete inputs: handlers that answer with a lower event, and ones that raise.
use n_trade.Prelude.{
  ℕ, zero, suc, ◌+◌, ◌≡◌, ◌<◌, ◌≤◌, ◌⊎◌, refl, Option, none, some, List, [], ◌∷◌, ◌++◌, map, ◌==◌,
  arith,
}
use n_trade.Prelude.Dict.{lookup, insert}
use n_trade.Bus.{
  Event, Script, done, raised, publishes, EventBus, World, Setting, new_bus, subscribe, publish,
}
use n_trade.Bus.Rule.{Publishes}
use n_trade.Bus.Causes.{Fresh, Forest, publish-Forest}
use n_trade.Bus.Halts.{limit_of, errors_of, halts_in, publish_all, publish_all-halts}
use n_trade.Bus.Returns.{publish-returns}

abbrev event_of : ℕ → Event ℕ
event_of n = record {
  mro = "TickEvent" ∷ "Event" ∷ "object" ∷ [];
  ts = 5;
  event_id = "e";
  correlation_id = none;
  causation_id = none;
  payload = n;
}

-- A handler that answers an event with the next lower one.
answer : ℕ → ℕ → Script ℕ ℕ
answer zero s = done s
answer (suc n) s = publishes (event_of n) (s + 1) (λ t. done t)

abbrev answering : Setting ℕ ℕ
answering = record {
  acts = λ h e s. answer e.payload s;
  new_id = λ n. "halt";
  halt_payload = λ n. 0;
}

answer-falls : (n s : ℕ) → Publishes (λ (y : Event ℕ). y.payload < n) (answer n s)
unfolding answer
answer-falls zero s = tt
answer-falls (suc n) s = (omega arith, λ t. tt)

answer-Fresh : (n s : ℕ) → Publishes Fresh (answer n s)
unfolding answer
answer-Fresh zero s = tt
answer-Fresh (suc n) s = ((refl, refl), λ t. tt)

abbrev bus_with : Option ℕ → EventBus ℕ
bus_with limit = subscribe "TickEvent" 1 (subscribe "Event" 2 (new_bus 100 limit))

abbrev start : World ℕ ℕ
start = record { bus = bus_with (some 2); state = 0; recorded = [] }

publish-returns_example : (w' : World ℕ ℕ) × (publish answering 5 (event_of 3) start ≡ some w')
publish-returns_example =
    publish-returns (λ n. n) answering 5 (event_of 3) start (λ i. refl)
      (λ h x s. answer-falls x.payload s) (omega arith)

-- An event is published from inside the dispatch of another, and answered by one more.
abbrev outer : Event ℕ
outer = record (event_of 9) { event_id = "o"; correlation_id = some "o" }

abbrev inside : World ℕ ℕ
inside = record start {
  bus = record (bus_with (some 2)) { stack = outer ∷ [] };
  recorded = outer ∷ [];
}

abbrev reached : World ℕ ℕ
reached = elim (publish answering 5 (event_of 1) inside) [ none ↦ inside | some w ↦ w ]

publish-Forest_example :
    (reached.bus.stack ≡ outer ∷ [])
    × ((events : List (Event ℕ)) × (reached.recorded ≡ (outer ∷ []) ++ events)
        × Forest (some outer) events)
unfolding publish new_bus subscribe lookup insert answer
publish-Forest_example =
    publish-Forest answering 5 (event_of 1) inside reached (λ h x s. answer-Fresh x.payload s)
      (refl, refl) refl

reached_causes :
    map (λ (e : Event ℕ). e.causation_id) reached.recorded
    ≡ none ∷ some "o" ∷ some "e" ∷ some "e" ∷ []
unfolding publish new_bus subscribe lookup insert answer
reached_causes = refl

-- A handler that always raises, under a halt that carries 9.
abbrev raising : Setting ℕ ℕ
raising = record { acts = λ h e s. raised s; new_id = λ n. "halt"; halt_payload = λ n. 9 }

abbrev events : List (Event ℕ)
events = event_of 1 ∷ event_of 1 ∷ []

abbrev failed : World ℕ ℕ
failed = elim (publish_all raising 5 events start) [ none ↦ start | some w ↦ w ]

publish_all-halts_example :
    ((limit_of failed ≡ some 2)
      × (errors_of failed < 2)
      × (halts_in (λ n. n == 9) failed.recorded ≡ halts_in (λ n. n == 9) start.recorded))
    ⊎ ((limit_of failed ≡ none)
        × (2 ≤ errors_of failed)
        × (halts_in (λ n. n == 9) failed.recorded ≡ halts_in (λ n. n == 9) start.recorded + 1))
unfolding publish publish_all new_bus subscribe lookup insert
publish_all-halts_example =
    publish_all-halts (λ n. n == 9) raising 5 2 events start failed (λ i. refl) (λ h x s. tt)
      (refl, (refl, tt)) refl (omega arith) refl

failed_halts : halts_in (λ n. n == 9) failed.recorded ≡ 1
unfolding publish publish_all new_bus subscribe lookup insert
failed_halts = refl
