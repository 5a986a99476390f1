-- ===== src/Execution/Routing.antt =====
-- `ExecutionRouter` (ntrade/execution/router.py) and `OrderEngine` (ntrade/engines/order_engine.py)
-- over any execution target: the simulated one, the broker one, or another.
pub mod Answers
use n_trade.Prelude.{
  ℕ, suc, ◌≡◌, refl, ◌⊎◌, inl, inr, ap, String, Option, none, some, List, [], ◌∷◌, ◌++◌, ◌=?◌,
  string_eq, if◌then◌else◌, exists, ◌||◌, ◌&&◌, Bool, true, false, Bool-cases, Option-cases, arith,
}
use n_trade.Prelude.Dict.{Dict, lookup, insert, lookup-insert, lookup-insert_self}
use n_trade.Domain.{
  OrderIntentEvent, OrderRejectedEvent, SignalGeneratedEvent, Event, order_intent, order_accepted,
  order_rejected, no_target,
}
use n_trade.Execution.Simulated.{reject}

-- What a target does with an intent: its new state, what it publishes, and its result.
abbrev pub Answer : Type 0 → Type 0 → Type 0
Answer W S = S × List (Event W) × Option OrderRejectedEvent

-- An execution target, over the state `S` that the targets share.
pub record Target (W S : Type 0) : Type 0 where
  pub submit : OrderIntentEvent W → S → Answer W S

pub record ExecutionRouter (W S : Type 0) : Type 0 where
  pub targets : Dict String (Target W S)
  pub default_name : Option String

module _ {W S : Type 0} where
  unfoldable pub new_router : ExecutionRouter W S
  new_router = record { targets = []; default_name = none }

  unfoldable pub add : String → Target W S → ExecutionRouter W S → ExecutionRouter W S
  add name target r = record r { targets = insert name target r.targets }

  unfoldable pub default : String → ExecutionRouter W S → ExecutionRouter W S
  default name r = record r { default_name = some name }

  -- The target of the default name.
  abbrev pub fallback : ExecutionRouter W S → Option (Target W S)
  fallback r = elim (r.default_name) [ none ↦ none | some name ↦ lookup name r.targets ]

  unfoldable pub target_for : String → ExecutionRouter W S → Option (Target W S)
  target_for strategy r = elim (lookup strategy r.targets) [ some t ↦ some t | none ↦ fallback r ]

  -- `ExecutionRouter.submit`
  unfoldable pub route : ExecutionRouter W S → OrderIntentEvent W → S → Answer W S
  unfolding target_for
  route r i s = elim (target_for i.strategy r) [
    | none ↦ (s, [], some (reject i (no_target i.strategy)))
    | some t ↦ t.submit i s
  ]

module _ {W : Type 0} where
  -- `OrderEngine.on_signal_approved`; `fresh_id` is the identifier that the event gets when it is
  -- made, and the bus makes it the correlation of an intent outside any other event.
  unfoldable pub intent_of :
      String → Option String → SignalGeneratedEvent W → ℕ → OrderIntentEvent W
  intent_of fresh_id correlation signal ts = record {
    event_id = fresh_id;
    correlation_id = correlation;
    symbol = signal.symbol;
    exchange = signal.exchange;
    side = signal.side;
    quantity = signal.quantity;
    order_type = signal.order_type;
    price = signal.price;
    reference_price = signal.reference_price;
    strategy = signal.strategy;
    ts = ts;
  }

  abbrev pub published_refusal : Option OrderRejectedEvent → List (Event W)
  published_refusal none = []
  published_refusal (some e) = order_rejected e ∷ []

module _ {W S : Type 0} where
  unfoldable pub on_signal_approved :
      ExecutionRouter W S
      → String
      → Option String
      → SignalGeneratedEvent W
      → ℕ
      → ℕ × S
      → (ℕ × S) × List (Event W)
  unfolding intent_of
  on_signal_approved r fresh_id correlation signal ts (intents, s) =
      let i = intent_of fresh_id correlation signal ts in
      let (after, events, refusal) = route r i s in
      ((suc intents, after), order_intent i ∷ events ++ published_refusal refusal)
