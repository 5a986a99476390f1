-- ===== src/Bus/Causes.antt =====
-- The stamps of ntrade/kernel/event_bus.py make what a publish records a forest of causes.
use std.Path.{subst}
use n_trade.Prelude.{
  ℕ, ◌+◌, ◌≡◌, refl, sym, ap, ◌∙◌, inl, inr, Option, none, some, List, [], ◌∷◌, ◌++◌, Bool-cases,
  append_assoc, append-nil,
}
use n_trade.Bus.{
  Event, World, Setting, parent_of, stamp, enter, leave, subscribe, unsubscribe, count_error,
  is_reached, publish, tail_of,
}
use n_trade.Bus.Rule.{Point, Publishes, Rule, publish-keeps}

module _ {P : Type 0} where
  -- An event that the bus has not stamped.
  abbrev pub Fresh : Event P → Type 0
  Fresh e = (e.correlation_id ≡ none) × (e.causation_id ≡ none)

  -- An event under its parent: a root names itself, and any other event names its parent as its
  -- cause and shares the chain of it.
  abbrev pub IsChild : Option (Event P) → Event P → Type 0
  IsChild none e = (e.causation_id ≡ none) × (e.correlation_id ≡ some e.event_id)
  IsChild (some p) e = (e.causation_id ≡ some p.event_id) × (e.correlation_id ≡ p.correlation_id)

  -- Events in the order of their dispatch, all below one parent: each child is followed by the events
  -- below it, and those by the next child.
  pub data Forest : Option (Event P) → List (Event P) → Type 0 where
    empty : (parent : Option (Event P)) → Forest parent []
    grows :
        (parent : Option (Event P)) (e : Event P) (below rest : List (Event P))
        → IsChild parent e
        → Forest (some e) below
        → Forest parent rest
        → Forest parent (e ∷ below ++ rest)

  Forest-append :
      (parent : Option (Event P)) (xs ys : List (Event P))
      → Forest parent xs
      → Forest parent ys
      → Forest parent (xs ++ ys)
  Forest-append parent _ ys (empty _) g = g
  Forest-append parent _ ys (grows _ e below rest c f r) g =
      rw (append_assoc below rest ys)
        (grows parent e below (rest ++ ys) c f (Forest-append parent rest ys r g))

  Forest-tree :
      (parent : Option (Event P)) (e : Event P) (below : List (Event P))
      → IsChild parent e
      → Forest (some e) below
      → Forest parent (e ∷ below)
  Forest-tree parent e below c f =
      rw (append-nil below) at (grows parent e below [] c f (empty parent))

  stamp-IsChild :
      (e : Event P) (stack : List (Event P))
      → Fresh e
      → IsChild (parent_of stack) (stamp (parent_of stack) e)
  unfolding stamp
  stamp-IsChild e [] f = (f.1, rw (f.0) refl)
  stamp-IsChild e (p ∷ ps) f = (rw (f.1) refl, rw (f.0) refl)

module _ {P S : Type 0} where
  -- What is recorded between two points is a forest below the event in dispatch, which stays there.
  record Grown (x y : Point P S) : Type 0 where
    stack : y.0.bus.stack ≡ x.0.bus.stack
    events : List (Event P)
    recorded : y.0.recorded ≡ x.0.recorded ++ events
    forest : Forest (parent_of x.0.bus.stack) events

  -- A step that records nothing.
  quiet :
      (x y : Point P S) → y.0.bus.stack ≡ x.0.bus.stack → y.0.recorded ≡ x.0.recorded → Grown x y
  quiet x y s r = record {
    stack = s;
    events = [];
    recorded = r ∙ sym (append-nil x.0.recorded);
    forest = empty (parent_of x.0.bus.stack);
  }

  chained : (x y z : Point P S) → Grown x y → Grown y z → Grown x z
  chained x y z p q = record {
    stack = q.stack ∙ p.stack;
    events = p.events ++ q.events;
    recorded =
        q.recorded
        ∙ ap (λ l. l ++ q.events) p.recorded
        ∙ append_assoc x.0.recorded p.events q.events;
    forest =
        Forest-append (parent_of x.0.bus.stack) p.events q.events p.forest
          (subst (λ s. Forest (parent_of s) q.events) p.stack q.forest);
  }

  closed :
      (e : Event P) (w w' : World P S) (h : Option (Event P))
      → Fresh e
      → Grown (enter (stamp (parent_of w.bus.stack) e) w, none) (w', h)
      → Grown (w, none) (leave w', none)
  unfolding enter leave
  closed e w w' h f s =
      let stamped : Event P = stamp (parent_of w.bus.stack) e in
      record {
        stack = ap tail_of s.stack;
        events = stamped ∷ s.events;
        recorded = s.recorded ∙ append_assoc w.recorded (stamped ∷ []) s.events;
        forest =
            Forest-tree (parent_of w.bus.stack) stamped s.events (stamp-IsChild e w.bus.stack f)
              s.forest;
      }

  module _ (k : Setting P S)
      (fresh : (h : ℕ) (e : Event P) (s : S) → Publishes Fresh (k.acts h e s)) where
    on_error-Grown : (e : Event P) (x : Point P S) → Grown x (count_error k e x)
    unfolding count_error
    on_error-Grown e (w, h) =
        elim (Bool-cases (is_reached (w.bus.handler_errors + 1) w.bus.max_handler_errors)) [
          | inl reached ↦ quiet (w, h) _ (rw reached refl) (rw reached refl)
          | inr below ↦ quiet (w, h) _ (rw below refl) (rw below refl)
        ]

    forest_rule : Rule k Fresh Fresh (λ _. none) Grown
    unfolding subscribe unsubscribe
    forest_rule = record {
      stay = λ x. quiet x x refl refl;
      chain = chained;
      frame = λ w w' h p. record {
        stack = p.stack;
        events = p.events;
        recorded = p.recorded;
        forest = p.forest;
      };
      new_state = λ w s. quiet _ _ refl refl;
      on_subscribe = λ w klass h. quiet _ _ refl refl;
      on_unsubscribe = λ w klass h. quiet _ _ refl refl;
      on_error = on_error-Grown;
      handlers = fresh;
      halts = λ e n. (refl, refl);
      enters = λ e f. refl;
      close_plain = λ e w w' f s. closed e w w' none (elim f [ inl a ↦ a | inr a ↦ a ]) s;
      close_halt = λ e h w w' w2 f g s t.
          chained (w, none) (leave w', none) (w2, none)
            (closed e w w' (some h) (elim f [ inl a ↦ a | inr a ↦ a ]) s) t;
    }

-- A publish of an event that has no stamp, with handlers that publish only such events, also from
-- inside the dispatch of another event: when it returns, the events in dispatch are the same as
-- before, and what it recorded, in order, is a forest below the innermost of them. In a forest below
-- an event each child names that event as its cause and shares its chain, and is followed by the
-- events that were published while it was in dispatch, which are a forest below the child; with no
-- event in dispatch a child is the root of a chain under its own id and has no cause.
pub publish-Forest :
    {P S : Type 0} (k : Setting P S) (n : ℕ) (e : Event P) (w w' : World P S)
    → ((h : ℕ) (x : Event P) (s : S) → Publishes Fresh (k.acts h x s))
    → Fresh e
    → publish k n e w ≡ some w'
    → (w'.bus.stack ≡ w.bus.stack)
      × ((events : List (Event P)) × (w'.recorded ≡ w.recorded ++ events)
          × Forest (parent_of w.bus.stack) events)
publish-Forest k n e w w' scripts fresh returned =
    let grown = publish-keeps (forest_rule k scripts) n e w w' (inl fresh) returned in
    (grown.stack, (grown.events, grown.recorded, grown.forest))
