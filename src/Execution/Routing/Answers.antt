-- ===== src/Execution/Routing/Answers.antt =====
-- Which target the router of ntrade/execution/router.py takes after a series of registrations, and
-- what the order engine (ntrade/engines/order_engine.py) publishes of it.
use n_trade.Prelude.{
  ℕ, suc, ◌≡◌, refl, sym, ap, ◌∙◌, inl, inr, String, Option, none, some, List, [], ◌∷◌, ◌++◌, ◌=?◌,
  string_eq, if◌then◌else◌, Bool-cases, Option-cases,
}
use n_trade.Prelude.Dict.{lookup, insert, lookup-insert}
use n_trade.Domain.{
  OrderIntentEvent, SignalGeneratedEvent, Event, order_intent, order_rejected, no_target,
}
use n_trade.Execution.Simulated.{reject}
use n_trade.Execution.Routing.{
  Target, ExecutionRouter, new_router, add, default, fallback, target_for, route, intent_of,
  published_refusal, on_signal_approved,
}

-- A call that sets up a router.
pub data Setup (W S : Type 0) : Type 0 where
  adds : String → Target W S → Setup W S
  defaults : String → Setup W S

abbrev pub or_first : {A : Type 0} → Option A → Option A → Option A
or_first none first = first
or_first (some last) first = some last

or_first_assoc :
    {A : Type 0} (a b c : Option A) → or_first (or_first a b) c ≡ or_first a (or_first b c)
or_first_assoc none b c = refl
or_first_assoc (some x) b c = refl

or_first-none : {A : Type 0} (a : Option A) → or_first a none ≡ a
or_first-none none = refl
or_first-none (some x) = refl

module _ {W S : Type 0} where
  unfoldable pub set_up : List (Setup W S) → ExecutionRouter W S → ExecutionRouter W S
  unfolding add default
  set_up [] r = r
  set_up (adds name t ∷ rest) r = set_up rest (add name t r)
  set_up (defaults name ∷ rest) r = set_up rest (default name r)

  -- The last target that was added under a name, and the last default.
  unfoldable pub last_added : String → List (Setup W S) → Option (Target W S)
  last_added name [] = none
  last_added name (adds own t ∷ rest) =
      or_first (last_added name rest) (if own =? name then some t else none)
  last_added name (defaults _ ∷ rest) = last_added name rest

  unfoldable pub last_default : List (Setup W S) → Option String
  last_default [] = none
  last_default (adds _ _ ∷ rest) = last_default rest
  last_default (defaults name ∷ rest) = or_first (last_default rest) (some name)

  -- The target of a strategy: the last of its own name, else the last of the default name.
  abbrev pub chosen : String → List (Setup W S) → Option (Target W S)
  chosen strategy calls =
      or_first (last_added strategy calls)
        (elim (last_default calls) [ none ↦ none | some name ↦ last_added name calls ])

  set_up-targets :
      (name : String) (calls : List (Setup W S)) (r : ExecutionRouter W S)
      → lookup name (set_up calls r).targets
        ≡ or_first (last_added name calls) (lookup name r.targets)
  unfolding set_up last_added add default
  set_up-targets name [] r = refl
  set_up-targets name (adds own t ∷ rest) r =
      let added : lookup name (insert own t r.targets)
          ≡ or_first (if own =? name then some t else none) (lookup name r.targets) =
        lookup-insert own name t r.targets ∙ (elim (Bool-cases (own =? name)) [
          | inl same ↦ rw same refl
          | inr other ↦ rw other refl
        ]) in
      set_up-targets name rest (add own t r)
      ∙ ap (or_first (last_added name rest)) added
      ∙ sym (
          or_first_assoc (last_added name rest) (if own =? name then some t else none)
            (lookup name r.targets))
  set_up-targets name (defaults d ∷ rest) r = set_up-targets name rest (default d r)

  set_up-default :
      (calls : List (Setup W S)) (r : ExecutionRouter W S)
      → (set_up calls r).default_name ≡ or_first (last_default calls) r.default_name
  unfolding set_up last_default add default
  set_up-default [] r = refl
  set_up-default (adds own t ∷ rest) r = set_up-default rest (add own t r)
  set_up-default (defaults d ∷ rest) r =
      set_up-default rest (default d r)
      ∙ sym (or_first_assoc (last_default rest) (some d) r.default_name)

  target_for-chosen :
      (strategy : String) (calls : List (Setup W S))
      → target_for strategy (set_up calls new_router) ≡ chosen strategy calls
  unfolding new_router target_for lookup
  target_for-chosen strategy calls =
      let r = set_up calls new_router in
      let found : (name : String) → lookup name r.targets ≡ last_added name calls =
        λ name. set_up-targets name calls new_router ∙ or_first-none (last_added name calls) in
      let named : r.default_name ≡ last_default calls =
        set_up-default calls new_router ∙ or_first-none (last_default calls) in
      let fallback_of : Option String → Option (Target W S) =
        λ d. elim d [ none ↦ none | some name ↦ lookup name r.targets ] in
      let fallen : fallback r
          ≡ elim (last_default calls) [ none ↦ none | some name ↦ last_added name calls ] =
        ap fallback_of named ∙ (elim (Option-cases (last_default calls)) [
          | inl none_set ↦ rw none_set refl
          | inr (d, set) ↦ rw set (found d)
        ]) in
      ap (λ o. elim o as (λ _. Option (Target W S)) [ some t ↦ some t | none ↦ fallback r ])
        (found strategy)
      ∙ (elim (Option-cases (last_added strategy calls)) [
        | inl missing ↦ rw missing fallen
        | inr (t, own) ↦ rw own refl
      ])

  -- What a target does with an intent, or the router with none.
  abbrev pub answered : Option (Target W S) → OrderIntentEvent W → S → S × List (Event W)
  answered none i s = (s, order_rejected (reject i (no_target i.strategy)) ∷ [])
  answered (some t) i s =
      let (after, events, refusal) = t.submit i s in (after, events ++ published_refusal refusal)

  answered-by :
      (r : ExecutionRouter W S) (o : Option (Target W S)) (fresh_id : String)
      (correlation : Option String) (signal : SignalGeneratedEvent W) (ts n : ℕ) (s : S)
      → target_for signal.strategy r ≡ o
      → let i = intent_of fresh_id correlation signal ts in
        let (after, events) = answered o i s in
        on_signal_approved r fresh_id correlation signal ts (n, s)
        ≡ ((suc n, after), order_intent i ∷ events)
  unfolding on_signal_approved route intent_of
  answered-by r none fresh_id correlation signal ts n s picked =
      rw (on_signal_approved, route, picked) refl
  answered-by r (some t) fresh_id correlation signal ts n s picked =
      rw (on_signal_approved, route, picked) refl

  -- After any registrations on a new router, in any order: the order engine publishes the intent of an
  -- approved signal, and then what one target publishes and refuses of it, which is the last that was
  -- registered under the signal's strategy, or with none of that name the last under the name that was
  -- last made the default; with neither, the intent is refused for want of a target and no state
  -- changes. The engine counts one more intent.
  pub on_signal_approved-chosen :
      (calls : List (Setup W S)) (fresh_id : String) (correlation : Option String)
      (signal : SignalGeneratedEvent W) (ts : ℕ) (n : ℕ) (s : S)
      → let i = intent_of fresh_id correlation signal ts in
        let (after, events) = answered (chosen signal.strategy calls) i s in
        on_signal_approved (set_up calls new_router) fresh_id correlation signal ts (n, s)
        ≡ ((suc n, after), order_intent i ∷ events)
  on_signal_approved-chosen calls fresh_id correlation signal ts n s =
      answered-by (set_up calls new_router) (chosen signal.strategy calls) fresh_id correlation
        signal ts n s (target_for-chosen signal.strategy calls)
