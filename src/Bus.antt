-- ===== src/Bus.antt =====
-- ntrade/kernel/event_bus.py: `EventBus`. A handler is a script: it ends or raises, and until then
-- it publishes events, subscribes and unsubscribes, with a state `S` that the handlers share and `P`
-- for what else an event carries. The lock is reentrant and held across a publish, so other threads
-- wait. The fuel bounds the depth of publishes inside publishes.
pub mod Rule
pub mod Causes
pub mod Halts
pub mod Returns
use n_trade.Prelude.{
  ℕ, zero, suc, ◌+◌, ◌-◌, Bool, true, false, String, Option, none, some, List, [], ◌∷◌, ◌++◌, ◌==◌,
  if◌then◌else◌, ltb, leb, length, drop, string_eq,
}
use n_trade.Prelude.Dict.{Dict, lookup, insert}

-- `events/base.py`: an event, with the classes of `type(event).__mro__` and the rest of its fields.
pub record Event (P : Type 0) : Type 0 where
  pub mro : List String
  pub ts : ℕ
  pub event_id : String
  pub correlation_id : Option String
  pub causation_id : Option String
  pub payload : P

-- What a handler does, in order. The state is handed over to the handlers of an event that it
-- publishes, and comes back from them.
pub data Script (P S : Type 0) : Type 0 where
  done : S → Script P S
  raised : S → Script P S
  publishes : Event P → S → (S → Script P S) → Script P S
  subscribes : String → ℕ → Script P S → Script P S
  unsubscribes : String → ℕ → Script P S → Script P S

pub record EventBus (P : Type 0) : Type 0 where
  pub subscribers : Dict String (List ℕ)
  pub history : List (Event P)
  pub max_history : ℕ
  pub stack : List (Event P)
  pub handler_errors : ℕ
  pub max_handler_errors : Option ℕ

-- The bus, the handlers' state, and every event that has been recorded, in order.
pub record World (P S : Type 0) : Type 0 where
  pub bus : EventBus P
  pub state : S
  pub recorded : List (Event P)

-- The handlers, and what the bus makes of `uuid4` and of the reason of a halt at a count of errors.
pub record Setting (P S : Type 0) : Type 0 where
  pub acts : ℕ → Event P → S → Script P S
  pub new_id : ℕ → String
  pub halt_payload : ℕ → P

abbrev pub handlers_of : {P : Type 0} → String → EventBus P → List ℕ
handlers_of klass b = elim (lookup klass b.subscribers) [ none ↦ [] | some hs ↦ hs ]

-- `list.remove`: the first occurrence, if there is one.
unfoldable pub remove_first : ℕ → List ℕ → List ℕ
remove_first h [] = []
remove_first h (x ∷ xs) = if x == h then xs else x ∷ remove_first h xs

abbrev pub or_else : Option String → Option String → Option String
or_else none other = other
or_else (some a) other = some a

abbrev pub is_reached : ℕ → Option ℕ → Bool
is_reached errors none = false
is_reached errors (some limit) = leb limit errors

module _ {P : Type 0} where
  unfoldable pub new_bus : ℕ → Option ℕ → EventBus P
  new_bus max_history max_handler_errors = record {
    subscribers = [];
    history = [];
    max_history = max_history;
    stack = [];
    handler_errors = 0;
    max_handler_errors = max_handler_errors;
  }

  unfoldable pub subscribe : String → ℕ → EventBus P → EventBus P
  subscribe klass h b = record b {
    subscribers = insert klass (handlers_of klass b ++ h ∷ []) b.subscribers;
  }

  -- The `defaultdict` makes an empty entry for a class without one.
  unfoldable pub unsubscribe : String → ℕ → EventBus P → EventBus P
  unfolding remove_first
  unsubscribe klass h b = record b {
    subscribers = insert klass (remove_first h (handlers_of klass b)) b.subscribers;
  }

  unfoldable pub clear : EventBus P → EventBus P
  clear b = record b { subscribers = []; history = []; stack = [] }

  -- The innermost event in dispatch; the stack has its top first.
  abbrev pub parent_of : List (Event P) → Option (Event P)
  parent_of [] = none
  parent_of (p ∷ _) = some p

  -- The stamps of an event that is published.
  unfoldable pub stamp : Option (Event P) → Event P → Event P
  stamp none e = record e { correlation_id = or_else e.correlation_id (some e.event_id) }
  stamp (some p) e = record e {
    correlation_id = or_else e.correlation_id p.correlation_id;
    causation_id = or_else e.causation_id (some p.event_id);
  }

  -- `deque(maxlen=max_history).append`
  abbrev pub remember : Event P → EventBus P → EventBus P
  remember e b =
      let all = b.history ++ e ∷ [] in record b { history = drop (length all - b.max_history) all }

  abbrev pub tail_of : List (Event P) → List (Event P)
  tail_of [] = []
  tail_of (_ ∷ es) = es

  module _ {S : Type 0} where
    -- The stamped event goes on the stack and into the history.
    unfoldable pub enter : Event P → World P S → World P S
    enter e w = record w {
      bus = remember e (record w.bus { stack = e ∷ w.bus.stack });
      recorded = w.recorded ++ e ∷ [];
    }

    unfoldable pub leave : World P S → World P S
    leave w = record w { bus = record w.bus { stack = tail_of w.bus.stack } }

    abbrev pub on_bus : (EventBus P → EventBus P) → World P S → World P S
    on_bus f w = record w { bus = f w.bus }

    -- A run of a script, with the bus's own publish; `true` says that the handler raised.
    unfoldable pub run_script :
        (Event P → World P S → Option (World P S))
        → Script P S
        → World P S
        → Option (World P S × Bool)
    unfolding subscribe unsubscribe
    run_script publish (done s) w = some (record w { state = s }, false)
    run_script publish (raised s) w = some (record w { state = s }, true)
    run_script publish (publishes e s next) w = elim (publish e (record w { state = s })) [
      | none ↦ none
      | some w' ↦ run_script publish (next w'.state) w'
    ]
    run_script publish (subscribes klass h next) w =
        run_script publish next (on_bus (subscribe klass h) w)
    run_script publish (unsubscribes klass h next) w =
        run_script publish next (on_bus (unsubscribe klass h) w)

    -- The end of a publish: the event leaves the stack, and a halt that is due is published.
    unfoldable pub finish :
        (Event P → World P S → Option (World P S))
        → World P S × Option (Event P)
        → Option (World P S)
    unfolding leave
    finish publish (w, none) = some (leave w)
    finish publish (w, some halt) = publish halt (leave w)

    module _ (k : Setting P S) where
      abbrev pub halt_event : Event P → ℕ → Event P
      halt_event e errors = record {
        mro = "RiskHaltedEvent" ∷ "Event" ∷ "object" ∷ [];
        ts = e.ts;
        event_id = k.new_id errors;
        correlation_id = none;
        causation_id = none;
        payload = k.halt_payload errors;
      }

      -- The error count goes up, and the first time that it reaches the limit a halt is due.
      unfoldable pub count_error :
          Event P → World P S × Option (Event P) → World P S × Option (Event P)
      count_error e (w, halt) =
          let errors = w.bus.handler_errors + 1 in
          let counted : EventBus P = record w.bus { handler_errors = errors } in
          if is_reached errors w.bus.max_handler_errors
          then (
            record w { bus = record counted { max_handler_errors = none } },
            some (halt_event e errors),
          )
          else (record w { bus = counted }, halt)

      abbrev pub after_handler :
          Event P → Option (Event P) → World P S × Bool → World P S × Option (Event P)
      after_handler e halt (w, failed) = if failed then count_error e (w, halt) else (w, halt)

      unfoldable pub call_handlers :
          (Event P → World P S → Option (World P S))
          → Event P
          → List ℕ
          → World P S × Option (Event P)
          → Option (World P S × Option (Event P))
      unfolding run_script count_error
      call_handlers publish e [] (w, halt) = some (w, halt)
      call_handlers publish e (h ∷ hs) (w, halt) =
          elim (run_script publish (k.acts h e w.state) w) [
            | none ↦ none
            | some r ↦ call_handlers publish e hs (after_handler e halt r)
          ]

      -- The walk over the classes of the event, the most derived first.
      unfoldable pub walk :
          (Event P → World P S → Option (World P S))
          → Event P
          → List String
          → World P S × Option (Event P)
          → Option (World P S × Option (Event P))
      unfolding call_handlers
      walk publish e [] (w, halt) = some (w, halt)
      walk publish e (klass ∷ rest) (w, halt) =
          elim (call_handlers publish e (handlers_of klass w.bus) (w, halt)) [
            | none ↦ none
            | some r ↦ walk publish e rest r
          ]

      unfoldable pub publish : ℕ → Event P → World P S → Option (World P S)
      unfolding stamp enter walk finish
      publish zero e w = none
      publish (suc fuel) e w =
          let stamped : Event P = stamp (parent_of w.bus.stack) e in
          elim (walk (publish fuel) stamped stamped.mro (enter stamped w, none)) [
            | none ↦ none
            | some r ↦ finish (publish fuel) r
          ]
