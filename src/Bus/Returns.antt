-- ===== src/Bus/Returns.antt =====
-- A publish of ntrade/kernel/event_bus.py ends, where handlers answer an event only with events of a
-- lower rank.
use n_trade.Prelude.{
  ℕ, zero, suc, ◌+◌, ◌≡◌, ◌≤◌, ◌<◌, refl, inl, inr, Bool, true, false, String, Option, none, some,
  List, [], ◌∷◌, Bool-cases, arith,
}
use n_trade.Bus.{
  Event, Script, done, raised, publishes, subscribes, unsubscribes, World, Setting, parent_of,
  on_bus, subscribe, unsubscribe, stamp, enter, leave, run_script, is_reached, count_error,
  after_handler, call_handlers, handlers_of, walk, finish, publish,
}
use n_trade.Bus.Rule.{Point, Publishes, Publisher, stamp-payload}

-- 2 while a halt can still come, else 1.
abbrev slack : Option ℕ → ℕ
slack none = 1
slack (some _) = 2

module _ {P S : Type 0} (rank : P → ℕ) where
  abbrev slack_of : World P S → ℕ
  slack_of w = slack w.bus.max_handler_errors

  -- The publishes that a bound on rank and slack lets return.
  abbrev Returning : ℕ → Publisher P S → Type 0
  Returning m send =
      (e : Event P) (w : World P S)
      → rank e.payload + slack_of w ≤ m
      → (w' : World P S) × (send e w ≡ some w') × (slack_of w' ≤ slack_of w)

  -- A due halt has been paid for, and is of rank zero.
  abbrev Paid : ℕ → Point P S → Type 0
  Paid c (w, none) = slack_of w ≤ c
  Paid c (w, some h) = (slack_of w + 1 ≤ c) × (rank h.payload ≡ 0)

  Paid-slack : {c : ℕ} (x : Point P S) → Paid c x → slack_of x.0 ≤ c
  Paid-slack (w, none) p = p
  Paid-slack (w, some h) p = omega (arith, p.0)

  module _ (k : Setting P S) (m : ℕ) (send : Publisher P S) (returning : Returning m send) where
    run_script-returns :
        (q : ℕ) (s : Script P S) (w : World P S)
        → Publishes (λ (e : Event P). rank e.payload < q) s
        → q + slack_of w ≤ m + 1
        → (o : World P S × Bool) × (run_script send s w ≡ some o) × (slack_of o.0 ≤ slack_of w)
    unfolding run_script subscribe unsubscribe
    run_script-returns q (done s) w low enough =
        ((record w { state = s }, false), refl, omega arith)
    run_script-returns q (raised s) w low enough =
        ((record w { state = s }, true), refl, omega arith)
    run_script-returns q (subscribes klass h next) w low enough =
        run_script-returns q next (on_bus (subscribe klass h) w) low enough
    run_script-returns q (unsubscribes klass h next) w low enough =
        run_script-returns q next (on_bus (unsubscribe klass h) w) low enough
    run_script-returns q (publishes e s next) w low enough =
        let (w', got, less) = returning e (record w { state = s }) (omega (arith, low.0)) in
        let (o, ran, last) =
          run_script-returns q (next w'.state) w' (low.1 w'.state) (omega arith) in
        (o, rw (run_script, got) ran, omega arith)

    module _ (quiet : (i : ℕ) → rank (k.halt_payload i) ≡ 0) (c : ℕ) (e : Event P) where
      count_error-Paid : (x : Point P S) → Paid c x → Paid c (count_error k e x)
      unfolding count_error
      count_error-Paid (w, none) p =
          elim (Bool-cases (is_reached (w.bus.handler_errors + 1) w.bus.max_handler_errors)) [
            | inl over ↦ rw over (ground arith, quiet (w.bus.handler_errors + 1))
            | inr below ↦ rw below p
          ]
      count_error-Paid (w, some h) p =
          elim (Bool-cases (is_reached (w.bus.handler_errors + 1) w.bus.max_handler_errors)) [
            | inl over ↦ rw over (ground arith, quiet (w.bus.handler_errors + 1))
            | inr below ↦ rw below p
          ]

      Paid-less :
          (w w' : World P S) (halt : Option (Event P))
          → slack_of w' ≤ slack_of w
          → Paid c (w, halt)
          → Paid c (w', halt)
      Paid-less w w' none less p = omega arith
      Paid-less w w' (some h) less p = (omega (arith, p.0), p.1)

      after_handler-Paid :
          (w : World P S) (halt : Option (Event P)) (o : World P S × Bool)
          → Paid c (w, halt)
          → slack_of o.0 ≤ slack_of w
          → Paid c (after_handler k e halt o)
      after_handler-Paid w halt (w', false) p less = Paid-less w w' halt less p
      after_handler-Paid w halt (w', true) p less =
          count_error-Paid (w', halt) (Paid-less w w' halt less p)

      module _
          (falls : (h : ℕ) (x : Event P) (s : S)
            → Publishes (λ (y : Event P). rank y.payload < rank x.payload) (k.acts h x s))
          (enough : rank e.payload + c ≤ m + 1) where
        call_handlers-returns :
            (hs : List ℕ) (x : Point P S)
            → Paid c x
            → (y : Point P S) × (call_handlers k send e hs x ≡ some y) × Paid c y
        unfolding call_handlers
        call_handlers-returns [] x p = (x, refl, p)
        call_handlers-returns (h ∷ hs) (w, halt) p =
            let (o, ran, less) =
              run_script-returns (rank e.payload) (k.acts h e w.state) w (falls h e w.state)
                (omega (arith, Paid-slack (w, halt) p)) in
            let (y, rest, last) =
              call_handlers-returns hs (after_handler k e halt o)
                (after_handler-Paid w halt o p less) in
            (y, rw (call_handlers, ran) rest, last)

        walk-returns :
            (ks : List String) (x : Point P S)
            → Paid c x
            → (y : Point P S) × (walk k send e ks x ≡ some y) × Paid c y
        unfolding walk
        walk-returns [] x p = (x, refl, p)
        walk-returns (klass ∷ ks) (w, halt) p =
            let (x, called, paid) = call_handlers-returns (handlers_of klass w.bus) (w, halt) p in
            let (y, rest, last) = walk-returns ks x paid in (y, rw (walk, called) rest, last)

        finish-returns :
            (x : Point P S)
            → Paid c x
            → (w' : World P S) × (finish send x ≡ some w') × (slack_of w' ≤ c)
        unfolding finish leave
        finish-returns (w, none) p = (leave w, refl, p)
        finish-returns (w, some h) p =
            let (w', sent, less) = returning h (leave w) (omega (arith, p.0, p.1)) in
            (w', sent, omega (arith, p.0))

  module _ (k : Setting P S) (quiet : (i : ℕ) → rank (k.halt_payload i) ≡ 0)
      (falls : (h : ℕ) (x : Event P) (s : S)
        → Publishes (λ (y : Event P). rank y.payload < rank x.payload) (k.acts h x s)) where
    publish-Returning : (n : ℕ) → Returning n (publish k n)
    unfolding publish enter
    publish-Returning zero e w enough = absurd (ground arith)
    publish-Returning (suc n) e w enough =
        let stamped : Event P = stamp (parent_of w.bus.stack) e in
        let bound : rank stamped.payload + slack_of w ≤ n + 1 =
          rw (stamp-payload (parent_of w.bus.stack) e) (omega arith) in
        let (x, walked, paid) =
          walk-returns k n (publish k n) (publish-Returning n) quiet (slack_of w) stamped falls
            bound stamped.mro (enter stamped w, none) (omega arith) in
        let (w', ended, less) =
          finish-returns k n (publish k n) (publish-Returning n) quiet (slack_of w) stamped falls
            bound x paid in
        (w', rw (publish, walked) ended, less)

-- With handlers that answer an event only with events of a lower rank, and a halt of the bus of rank
-- zero: a publish returns whenever its depth of nested publishes may exceed the rank of the event
-- by two.
pub publish-returns :
    {P S : Type 0} (rank : P → ℕ) (k : Setting P S) (n : ℕ) (e : Event P) (w : World P S)
    → ((i : ℕ) → rank (k.halt_payload i) ≡ 0)
    → ((h : ℕ) (x : Event P) (s : S)
        → Publishes (λ (y : Event P). rank y.payload < rank x.payload) (k.acts h x s))
    → rank e.payload + 2 ≤ n
    → (w' : World P S) × (publish k n e w ≡ some w')
publish-returns rank k n e w quiet falls enough =
    let most : slack w.bus.max_handler_errors ≤ 2 = ground arith in
    let (w', returned, _) = publish-Returning rank k quiet falls n e w (omega arith) in
    (w', returned)
