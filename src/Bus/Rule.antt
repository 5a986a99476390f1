-- ===== src/Bus/Rule.antt =====
-- A rule for what holds across a publish of ntrade/kernel/event_bus.py: what the bus does by itself
-- and one event in dispatch are checked, and scripts, walks and nested publishes follow.
use n_trade.Prelude.{
  ℕ, zero, suc, ◌≡◌, refl, ◌⊎◌, Bool, true, false, String, Option, none, some, List, [], ◌∷◌, inl,
  inr, Bool-cases, Option-cases, arith, ◌+◌,
}
use n_trade.Bus.{
  Event, Script, done, raised, publishes, subscribes, unsubscribes, World, Setting, parent_of,
  subscribe, unsubscribe, on_bus, stamp, enter, leave, run_script, halt_event, is_reached,
  count_error, after_handler, call_handlers, handlers_of, walk, finish, publish,
}

abbrev pub Point : Type 0 → Type 0 → Type 0
Point P S = World P S × Option (Event P)

abbrev pub Publisher : Type 0 → Type 0 → Type 0
Publisher P S = Event P → World P S → Option (World P S)

abbrev pub OkHalt : {P : Type 0} → (Event P → Type 0) → Option (Event P) → Type 0
OkHalt Ok none = Unit
OkHalt Ok (some e) = Ok e

pub stamp-payload :
    {P : Type 0} (o : Option (Event P)) (e : Event P) → (stamp o e).payload ≡ e.payload
unfolding stamp
stamp-payload none e = refl
stamp-payload (some p) e = refl

module _ {P S : Type 0} where
  -- Every event that the script can publish, whatever state it gets back.
  abbrev pub Publishes : (Event P → Type 0) → Script P S → Type 0
  Publishes Ok (done s) = Unit
  Publishes Ok (raised s) = Unit
  Publishes Ok (publishes e s next) = Ok e × ((s' : S) → Publishes Ok (next s'))
  Publishes Ok (subscribes klass h next) = Publishes Ok next
  Publishes Ok (unsubscribes klass h next) = Publishes Ok next

  -- A relation between the points of a publish that every step keeps, for handlers that publish
  -- only plain events. A point is a world with the halt that is due; `entry` is what is due when an
  -- event is published.
  pub record Rule (k : Setting P S) (Plain Halt : Event P → Type 0)
      (entry : Event P → Option (Event P)) (R : Point P S → Point P S → Type 0) : Type 0 where
    pub stay : (x : Point P S) → R x x
    pub chain : (x y z : Point P S) → R x y → R y z → R x z
    pub frame :
        (w w' : World P S) (h : Option (Event P)) → R (w, none) (w', none) → R (w, h) (w', h)
    pub new_state : (w : World P S) (s : S) → R (w, none) (record w { state = s }, none)
    pub on_subscribe :
        (w : World P S) (klass : String) (h : ℕ) → R (w, none) (on_bus (subscribe klass h) w, none)
    pub on_unsubscribe :
        (w : World P S) (klass : String) (h : ℕ)
        → R (w, none) (on_bus (unsubscribe klass h) w, none)
    pub on_error : (e : Event P) (x : Point P S) → R x (count_error k e x)
    pub handlers : (h : ℕ) (e : Event P) (s : S) → Publishes Plain (k.acts h e s)
    pub halts : (e : Event P) (n : ℕ) → Halt (halt_event k e n)
    pub enters : (e : Event P) → Plain e → entry e ≡ none
    pub close_plain :
        (e : Event P) (w w' : World P S)
        → Plain e ⊎ Halt e
        → R (enter (stamp (parent_of w.bus.stack) e) w, none) (w', none)
        → R (w, entry e) (leave w', none)
    pub close_halt :
        (e h : Event P) (w w' w2 : World P S)
        → Plain e ⊎ Halt e
        → Halt h
        → R (enter (stamp (parent_of w.bus.stack) e) w, none) (w', some h)
        → R (leave w', entry h) (w2, none)
        → R (w, entry e) (w2, none)

  module _ {k : Setting P S} {Plain Halt : Event P → Type 0} {entry : Event P → Option (Event P)}
      {R : Point P S → Point P S → Type 0} (r : Rule k Plain Halt entry R) where
    -- The rule for a function that stands for the nested publishes.
    abbrev Good : Publisher P S → Type 0
    Good send =
        (e : Event P) (w w' : World P S)
        → Plain e ⊎ Halt e
        → send e w ≡ some w'
        → R (w, entry e) (w', none)

    module _ (send : Publisher P S) (good : Good send) where
      run_script-keeps :
          (s : Script P S) (w : World P S) (o : World P S × Bool)
          → Publishes Plain s
          → run_script send s w ≡ some o
          → R (w, none) (o.0, none)
      unfolding run_script
      run_script-keeps (done s) w o ok e =
          let q : record w { state = s } ≡ o.0 = cc in rw (← q) (r.new_state w s)
      run_script-keeps (raised s) w o ok e =
          let q : record w { state = s } ≡ o.0 = cc in rw (← q) (r.new_state w s)
      run_script-keeps (subscribes klass h next) w o ok e =
          r.chain _ _ _ (r.on_subscribe w klass h) (run_script-keeps next _ o ok e)
      run_script-keeps (unsubscribes klass h next) w o ok e =
          r.chain _ _ _ (r.on_unsubscribe w klass h) (run_script-keeps next _ o ok e)
      run_script-keeps (publishes e s next) w o ok eq =
          elim (Option-cases (send e (record w { state = s }))) [
            | inl gone ↦ ground arith
            | inr (w', got) ↦ r.chain _ _ _ (r.new_state w s) (
                r.chain _ _ _ (rw (r.enters e ok.0) at (good e _ w' (inl ok.0) got))
                  (run_script-keeps (next w'.state) w' o (ok.1 w'.state) (ground arith)))
          ]

      after_handler-keeps :
          (e : Event P) (h : Option (Event P)) (w : World P S) (o : World P S × Bool)
          → OkHalt Halt h
          → R (w, none) (o.0, none)
          → R (w, h) (after_handler k e h o) × OkHalt Halt (after_handler k e h o).1
      unfolding count_error
      after_handler-keeps e h w (w', false) ok s = (r.frame w w' h s, ok)
      after_handler-keeps e h w (w', true) ok s = (
        r.chain _ _ _ (r.frame w w' h s) (r.on_error e (w', h)),
        elim (Bool-cases (is_reached (w'.bus.handler_errors + 1) w'.bus.max_handler_errors)) [
          | inl reached ↦ rw reached (r.halts e (w'.bus.handler_errors + 1))
          | inr below ↦ rw below ok
        ],
      )

      call_handlers-keeps :
          (e : Event P) (hs : List ℕ) (x y : Point P S)
          → OkHalt Halt x.1
          → call_handlers k send e hs x ≡ some y
          → R x y × OkHalt Halt y.1
      unfolding call_handlers
      call_handlers-keeps e [] (w, halt) y ok eq =
          let q : (◌≡◌ {A = Point P S} (w, halt) y) = cc in rw (← q) (r.stay (w, halt), ok)
      call_handlers-keeps e (h ∷ hs) (w, halt) y ok eq =
          elim (Option-cases (run_script send (k.acts h e w.state) w)) [
            | inl gone ↦ ground arith
            | inr (o, got) ↦
                let p =
                  after_handler-keeps e halt w o ok
                    (run_script-keeps (k.acts h e w.state) w o (r.handlers h e w.state) got) in
                let q = call_handlers-keeps e hs (after_handler k e halt o) y p.1 (ground arith) in
                (r.chain _ _ _ p.0 q.0, q.1)
          ]

      walk-keeps :
          (e : Event P) (ks : List String) (x y : Point P S)
          → OkHalt Halt x.1
          → walk k send e ks x ≡ some y
          → R x y × OkHalt Halt y.1
      unfolding walk
      walk-keeps e [] (w, halt) y ok eq =
          let q : (◌≡◌ {A = Point P S} (w, halt) y) = cc in rw (← q) (r.stay (w, halt), ok)
      walk-keeps e (klass ∷ ks) (w, halt) y ok eq =
          elim (Option-cases (call_handlers k send e (handlers_of klass w.bus) (w, halt))) [
            | inl gone ↦ ground arith
            | inr (x', got) ↦
                let p = call_handlers-keeps e (handlers_of klass w.bus) (w, halt) x' ok got in
                let q = walk-keeps e ks x' y p.1 (ground arith) in (r.chain _ _ _ p.0 q.0, q.1)
          ]

      finish-keeps :
          (e : Event P) (w w1 w' : World P S) (halt : Option (Event P))
          → Plain e ⊎ Halt e
          → R (enter (stamp (parent_of w.bus.stack) e) w, none) (w1, halt)
          → OkHalt Halt halt
          → finish send (w1, halt) ≡ some w'
          → R (w, entry e) (w', none)
      unfolding finish
      finish-keeps e w w1 w' none ok s h eq =
          let q : leave w1 ≡ w' = cc in rw (← q) (r.close_plain e w w1 ok s)
      finish-keeps e w w1 w' (some x) ok s h eq =
          r.close_halt e x w w1 w' ok h s (good x (leave w1) w' (inr h) eq)

    -- What every step keeps holds across a publish.
    pub publish-keeps : (n : ℕ) → Good (publish k n)
    unfolding publish
    publish-keeps zero e w w' ok eq = cc
    publish-keeps (suc n) e w w' ok eq =
        let stamped : Event P = stamp (parent_of w.bus.stack) e in
        elim (Option-cases (walk k (publish k n) stamped stamped.mro (enter stamped w, none))) [
          | inl gone ↦ ground arith
          | inr (x, got) ↦
              let p =
                walk-keeps (publish k n) (publish-keeps n) stamped stamped.mro
                  (enter stamped w, none) x tt got in
              finish-keeps (publish k n) (publish-keeps n) e w x.0 w' x.1 ok p.0 p.1 (ground arith)
        ]
