-- ===== src/Bus/Halts.antt =====
-- The error limit of ntrade/kernel/event_bus.py: one halt, and exactly when the limit is reached.
use n_trade.Prelude.{
  ℕ, ◌+◌, ◌≡◌, refl, ◌∙◌, ◌⊎◌, inl, inr, Bool, true, false, Option, none, some, List, [], ◌∷◌,
  if◌then◌else◌, leb, count, count-append, All, Bool-cases, Option-cases, arith, ◌<◌, ◌≤◌,
}
use n_trade.Bus.{
  Event, World, Setting, parent_of, stamp, enter, leave, subscribe, unsubscribe, on_bus,
  count_error, publish,
}
use n_trade.Bus.Rule.{Point, Publishes, Rule, publish-keeps, stamp-payload}

-- 1 for what is there, 0 for what is not.
abbrev pub one_if_some : {A : Type 0} → Option A → ℕ
one_if_some none = 0
one_if_some (some _) = 1

module _ {P S : Type 0} where
  abbrev pub limit_of : World P S → Option ℕ
  limit_of w = w.bus.max_handler_errors

  abbrev pub errors_of : World P S → ℕ
  errors_of w = w.bus.handler_errors

  -- Under a limit that the errors have not reached: it still stands, or it is gone and reached.
  abbrev Outlook : ℕ → World P S → Type 0
  Outlook m w =
      ((limit_of w ≡ some m) × (errors_of w < m)) ⊎ ((limit_of w ≡ none) × (m ≤ errors_of w))

-- The events that the producers publish, one after the other.
unfoldable pub publish_all :
    {P S : Type 0} → Setting P S → ℕ → List (Event P) → World P S → Option (World P S)
publish_all k n [] w = some w
publish_all k n (e ∷ es) w = elim (publish k n e w) [
  | none ↦ none
  | some w' ↦ publish_all k n es w'
]

-- The halts of the bus itself are told apart by a test on payloads.
module _ {P : Type 0} (own : P → Bool) where
  abbrev pub halts_in : List (Event P) → ℕ
  halts_in es = count (λ (e : Event P). own e.payload) es

  abbrev entry : Event P → Option (Event P)
  entry e = if own e.payload then some e else none

  if_plain : (h : Event P) → own h.payload ≡ false → entry h ≡ none
  if_plain h g = rw g refl

  if_own : (h : Event P) → own h.payload ≡ true → entry h ≡ some h
  if_own h g = rw g refl

one_if_some-le : {A : Type 0} (o : Option A) → one_if_some o ≤ 1
one_if_some-le none = omega arith
one_if_some-le (some a) = omega arith

module _ {P S : Type 0} (own : P → Bool) where
  -- A halt is due only when the limit is gone.
  abbrev Sound : Point P S → Type 0
  Sound x = one_if_some x.1 + one_if_some (limit_of x.0) ≤ 1

  -- The halts recorded, the one that is due, and the one that the limit can still bring.
  abbrev credit : Point P S → ℕ
  credit x = halts_in own x.0.recorded + one_if_some x.1 + one_if_some (limit_of x.0)

  record Spent (x y : Point P S) : Type 0 where
    sound : Sound x → Sound y
    kept : Sound x → credit y ≡ credit x
    errors : errors_of x.0 ≤ errors_of y.0
    off : limit_of x.0 ≡ none → limit_of y.0 ≡ none
    under : (m : ℕ) → limit_of x.0 ≡ some m → errors_of x.0 < m → Outlook m y.0

  Spent-stay : (x : Point P S) → Spent x x
  Spent-stay x = record {
    sound = λ s. s;
    kept = λ s. refl;
    errors = omega arith;
    off = λ h. h;
    under = λ m h b. inl (h, b);
  }

  Spent-chain : (x y z : Point P S) → Spent x y → Spent y z → Spent x z
  Spent-chain x y z p q = record {
    sound = λ s. q.sound (p.sound s);
    kept = λ s. q.kept (p.sound s) ∙ p.kept s;
    errors = omega (arith, p.errors, q.errors);
    off = λ h. q.off (p.off h);
    under = λ m h b. elim (p.under m h b) [
      | inl on ↦ q.under m on.0 on.1
      | inr out ↦ inr (q.off out.0, omega (arith, out.1, q.errors))
    ];
  }

  -- The limit never comes back.
  Spent-armed :
      (x y : Point P S) → Spent x y → one_if_some (limit_of y.0) ≤ one_if_some (limit_of x.0)
  Spent-armed x y p = elim (Option-cases (limit_of x.0)) [
    | inl gone ↦ rw (gone, p.off gone) (omega arith)
    | inr (m, on) ↦ rw on (one_if_some-le (limit_of y.0))
  ]

  Spent-frame :
      (w w' : World P S) (h : Option (Event P)) → Spent (w, none) (w', none) → Spent (w, h) (w', h)
  Spent-frame w w' h p =
      let armed = Spent-armed _ _ p in
      let at_most = one_if_some-le (limit_of w) in
      record {
        sound = λ s. omega arith;
        kept = λ s. omega (arith, p.kept (omega arith));
        errors = p.errors;
        off = p.off;
        under = p.under;
      }

  module _ (k : Setting P S) where
    Spent-error : (e : Event P) (x : Point P S) → Spent x (count_error k e x)
    unfolding count_error
    Spent-error e (w, h) = elim (Option-cases (limit_of w)) [
      | inl gone ↦ record {
        sound = λ s. ground arith;
        kept = λ s. ground arith;
        errors = ground arith;
        off = λ o. ground arith;
        under = λ m o b. absurd (ground arith);
      }
      | inr (limit, on) ↦ record {
        sound = λ s. ground arith;
        kept = λ s. ground arith;
        errors = ground arith;
        off = λ o. absurd (ground arith);
        under = λ m o b. elim (Bool-cases (leb limit (errors_of w + 1))) [
          | inl over ↦ inr (ground arith, ground arith)
          | inr below ↦ inl (ground arith, ground arith)
        ];
      }
    ]

  Spent-enter :
      (e : Event P) (w : World P S)
      → Spent (w, entry own e) (enter (stamp (parent_of w.bus.stack) e) w, none)
  unfolding enter
  Spent-enter e w = record {
    sound = λ s. omega arith;
    kept = λ s. ground (
      arith,
      count-append (λ (x : Event P). own x.payload) w.recorded
          (stamp (parent_of w.bus.stack) e ∷ []),
      stamp-payload (parent_of w.bus.stack) e,
    );
    errors = omega arith;
    off = λ h. h;
    under = λ m h b. inl (h, b);
  }

  -- A step that touches neither the errors, nor the limit, nor what is recorded.
  Spent-same :
      (w w' : World P S)
      → errors_of w' ≡ errors_of w
      → limit_of w' ≡ limit_of w
      → w'.recorded ≡ w.recorded
      → Spent (w, none) (w', none)
  Spent-same w w' e l r = record {
    sound = λ s. rw l s;
    kept = λ s. rw (l, r) refl;
    errors = omega (arith, e);
    off = λ h. l ∙ h;
    under = λ m h b. inl (l ∙ h, omega (arith, e));
  }

  Spent-leave : (w : World P S) → Spent (w, none) (leave w, none)
  unfolding leave
  Spent-leave w = record {
    sound = λ s. s;
    kept = λ s. refl;
    errors = omega arith;
    off = λ h. h;
    under = λ m h b. inl (h, b);
  }

  module _ (k : Setting P S) (known : (i : ℕ) → own (k.halt_payload i) ≡ true)
      (scripts : (h : ℕ) (x : Event P) (s : S)
        → Publishes (λ (e : Event P). own e.payload ≡ false) (k.acts h x s)) where
    halts_rule : Rule k (λ e. own e.payload ≡ false) (λ e. own e.payload ≡ true) (entry own) Spent
    unfolding subscribe unsubscribe
    halts_rule = record {
      stay = Spent-stay;
      chain = Spent-chain;
      frame = Spent-frame;
      new_state = λ w s. Spent-same w (record w { state = s }) refl refl refl;
      on_subscribe = λ w klass h. Spent-same w (on_bus (subscribe klass h) w) refl refl refl;
      on_unsubscribe = λ w klass h. Spent-same w (on_bus (unsubscribe klass h) w) refl refl refl;
      on_error = Spent-error k;
      handlers = scripts;
      halts = λ e i. known i;
      enters = λ e plain. rw plain refl;
      close_plain =
          λ e w w' f s. Spent-chain _ _ _ (Spent-enter e w) (Spent-chain _ _ _ s (Spent-leave w'));
      close_halt = λ e h w w' w2 f g s t. Spent-chain _ _ _ (Spent-enter e w) (
          Spent-chain _ _ _ s (
            Spent-chain _ _ _ (Spent-frame w' (leave w') (some h) (Spent-leave w')) rw
              (if_own own h g) at t));
    }

    publish_all-Spent :
        (n : ℕ) (es : List (Event P)) (w w' : World P S)
        → All (λ (e : Event P). own e.payload ≡ false) es
        → publish_all k n es w ≡ some w'
        → Spent (w, none) (w', none)
    unfolding publish_all
    publish_all-Spent n [] w w' plain eq = let q : w ≡ w' = cc in rw (← q) (Spent-stay (w, none))
    publish_all-Spent n (e ∷ es) w w' plain eq = elim (Option-cases (publish k n e w)) [
      | inl gone ↦ ground arith
      | inr (w1, got) ↦
          Spent-chain _ _ _
            (rw (if_plain own e plain.0) at (publish-keeps halts_rule n e w w1 (inl plain.0) got))
            (publish_all-Spent n es w1 w' plain.1 (ground arith))
    ]

-- For a bus with a limit that its errors have not reached, handlers and producers that publish no
-- halt of the bus's own, and events published one after the other: when the publishes return,
-- either the limit still stands, the errors are below it, and no halt of the bus has been recorded,
-- or the limit is gone, the errors have reached it, and exactly one halt has been recorded.
pub publish_all-halts :
    {P S : Type 0} (own : P → Bool) (k : Setting P S) (n m : ℕ) (es : List (Event P))
    (w w' : World P S)
    → ((i : ℕ) → own (k.halt_payload i) ≡ true)
    → ((h : ℕ) (x : Event P) (s : S)
        → Publishes (λ (e : Event P). own e.payload ≡ false) (k.acts h x s))
    → All (λ (e : Event P). own e.payload ≡ false) es
    → limit_of w ≡ some m
    → errors_of w < m
    → publish_all k n es w ≡ some w'
    → ((limit_of w' ≡ some m)
        × (errors_of w' < m)
        × (halts_in own w'.recorded ≡ halts_in own w.recorded))
      ⊎ ((limit_of w' ≡ none)
          × (m ≤ errors_of w')
          × (halts_in own w'.recorded ≡ halts_in own w.recorded + 1))
publish_all-halts own k n m es w w' known scripts plain limited below returned =
    let p = publish_all-Spent own k known scripts n es w w' plain returned in
    let credit = p.kept (ground arith) in
    elim (p.under m limited below) [
      | inl on ↦ inl (on.0, on.1, ground arith)
      | inr off ↦ inr (off.0, off.1, ground arith)
    ]
