-- ===== src/Execution/Broker/Placing/Once.antt =====
-- An intent that the venue accepted is not placed again by `submit`
-- (ntrade/execution/broker_executor.py), and one that failed can be.
use n_trade.Prelude.{
  ℕ, ◌∙◌, ◌≡◌, ◌≤◌, ◌<◌, ◌+◌, refl, true, inl, inr, String, none, some, List, [], ◌∷◌, ◌++◌,
  string_eq, Bool-cases, Option-cases, arith, ap, length,
}
use n_trade.Prelude.Dict.{lookup}
use n_trade.Prelude.Float.{Float}
use n_trade.Guard.Idempotency.{
  IdempotencyGuard, Reply, duplicate, already_reserved, fresh, check_and_reserve, record_result,
  release,
}
use n_trade.Guard.Idempotency.Invariant.{Inv, check_and_reserve-Inv}
use n_trade.Guard.Idempotency.Retention.{
  Call, checks, records, releases, recorded, run, record_result-is_remembered, release_frees,
}
use n_trade.Domain.{Order, OrderIntentEvent, Event, order_accepted, placement_failed, is_filled}
use n_trade.Execution.Simulated.{reject, accept}
use n_trade.Execution.Broker.{placed, refused, Listings, BrokerConfig, BrokerState}
use n_trade.Execution.Broker.Placing.{
  Attempt, returned, Outcome, is_tradable, correlation, next_brk_id, tracked_id, fill_at_once,
  track, place_reserved, submit,
}

run-append :
    (cs ds : List (Call String String)) (g : IdempotencyGuard String String)
    → run (cs ++ ds) g ≡ run ds (run cs g)
unfolding run
run-append [] ds g = refl
run-append (c ∷ cs) ds g = run-append cs ds (run (c ∷ []) g)

recorded-append :
    (cs ds : List (Call String String)) → recorded (cs ++ ds) ≡ recorded cs + recorded ds
recorded-append [] ds = omega arith
recorded-append (checks k ∷ cs) ds = recorded-append cs ds
recorded-append (records k r ∷ cs) ds = omega (arith, recorded-append cs ds)
recorded-append (releases k ∷ cs) ds = recorded-append cs ds

check-fresh :
    (key : String) (g : IdempotencyGuard String String)
    → (check_and_reserve key g).0 ≡ fresh
    → (lookup key (check_and_reserve key g).1.completed ≡ none)
      × ((check_and_reserve key g).1.max_entries ≡ g.max_entries)
unfolding check_and_reserve
check-fresh key g new = ground arith

module _ {W : Type 0} ⦃fl : Float W⦄ where
  -- `submit`, called again and again.
  unfoldable pub submits :
      BrokerConfig W → Listings → List (Attempt W) → BrokerState W → BrokerState W
  submits k listings [] s = s
  submits k listings (a ∷ as') s =
      submits k listings as' (submit k listings a.place a.now a.intent s).0

  tracked_id-idem : (o : Order W) (s : BrokerState W) → (tracked_id o s).1.idem ≡ s.idem
  unfolding tracked_id next_brk_id
  tracked_id-idem o s = ground arith

  track-idem :
      (k : BrokerConfig W) (listings : Listings) (now : ℕ) (i : OrderIntentEvent W) (o : Order W)
      (s : BrokerState W)
      → (track k listings now i o s).0.idem
        ≡ record_result (correlation i) (tracked_id o s).0 s.idem
  unfolding track fill_at_once
  track-idem k listings now i o s =
      let same = ap (record_result (correlation i) (tracked_id o s).0) (tracked_id-idem o s) in
      elim (Bool-cases (is_filled o)) [
        | inr waits ↦ rw (track, waits) same
        | inl filled ↦ elim (Option-cases (lookup (tracked_id o s).0 (tracked_id o s).1.tracked)) [
          | inl new ↦ rw (track, filled, fill_at_once, new) same
          | inr (r, known) ↦ rw (track, filled, fill_at_once, known) same
        ]
      ]

  -- What `submit` asks of the guard: at most one result is recorded.
  place_reserved-calls :
      (k : BrokerConfig W) (listings : Listings) (a : Attempt W) (reply : Reply String)
      (s : BrokerState W)
      → (cs : List (Call String String)) × ((place_reserved k listings a.place a.now a.intent reply
            s).0.idem
          ≡ run cs s.idem)
        × (recorded cs ≤ 1)
  unfolding place_reserved run
  place_reserved-calls k listings a (duplicate _) s = ([], refl, omega arith)
  place_reserved-calls k listings a already_reserved s = ([], refl, omega arith)
  place_reserved-calls k listings a fresh s =
      elim (a.place a.intent)
        as (λ p.
          (cs : List (Call String String)) × ((elim p as (λ _. Outcome W) [
            | refused why ↦ (
              record s { idem = release (correlation a.intent) s.idem },
              [],
              returned (some (reject a.intent (placement_failed why))),
            )
            | placed o ↦ track k listings a.now a.intent o s
          ]).0.idem
            ≡ run cs s.idem)
          × (recorded cs ≤ 1)) [
            | refused why ↦ (releases (correlation a.intent) ∷ [], refl, omega arith)
            | placed o ↦ (
              records (correlation a.intent) (tracked_id o s).0 ∷ [],
              track-idem k listings a.now a.intent o s,
              omega arith,
            )
          ]

  submit-calls :
      (k : BrokerConfig W) (listings : Listings) (a : Attempt W) (s : BrokerState W)
      → (cs : List (Call String String)) × ((submit k listings a.place a.now a.intent s).0.idem
          ≡ run cs s.idem)
        × (recorded cs ≤ 1)
  unfolding submit run
  submit-calls k listings a s = elim (Bool-cases (is_tradable (listings a.intent.symbol))) [
    | inr unknown ↦ rw (submit, unknown) ([], refl, omega arith)
    | inl known ↦
        let (reply, idem) = check_and_reserve (correlation a.intent) s.idem in
        let (cs, same, few) = place_reserved-calls k listings a reply (record s { idem = idem }) in
        rw (submit, known) (checks (correlation a.intent) ∷ cs, same, few)
  ]

  submits-calls :
      (k : BrokerConfig W) (listings : Listings) (attempts : List (Attempt W)) (s : BrokerState W)
      → (cs : List (Call String String)) × ((submits k listings attempts s).idem ≡ run cs s.idem)
        × (recorded cs ≤ length attempts)
  unfolding submits run
  submits-calls k listings [] s = ([], refl, omega arith)
  submits-calls k listings (a ∷ more) s =
      let (cs, same, few) = submit-calls k listings a s in
      let (ds, later, rest) =
        submits-calls k listings more (submit k listings a.place a.now a.intent s).0 in
      (
        cs ++ ds,
        rw (run-append cs ds s.idem, ← same) later,
        ground (arith, recorded-append cs ds, few, rest),
      )

  -- After the venue accepted an intent, a submission with the same correlation does not ask the
  -- broker again, whatever it would answer: nothing is published, nothing changes and `None` is returned. Fewer
  -- submissions than the guard's cap may stand between the two.
  pub submit-never_twice :
      (k : BrokerConfig W) (listings : Listings) (a b : Attempt W) (o : Order W)
      (attempts : List (Attempt W)) (s : BrokerState W)
      → Inv s.idem
      → is_tradable (listings a.intent.symbol) ≡ true
      → (check_and_reserve (correlation a.intent) s.idem).0 ≡ fresh
      → a.place a.intent ≡ placed o
      → length attempts < s.idem.max_entries
      → is_tradable (listings b.intent.symbol) ≡ true
      → correlation b.intent ≡ correlation a.intent
      → let accepted = (submit k listings a.place a.now a.intent s).0 in
        let later = submits k listings attempts accepted in
        submit k listings b.place b.now b.intent later ≡ (later, [], returned none)
  unfolding submit place_reserved
  submit-never_twice k listings a b o attempts s v known new asked few again same =
      let key = correlation a.intent in
      let g = (check_and_reserve key s.idem).1 in
      let r = (tracked_id o (record s { idem = g })).0 in
      let accepted = (submit k listings a.place a.now a.intent s).0 in
      let later = submits k listings attempts accepted in
      let (cs, calls, short) = submits-calls k listings attempts accepted in
      let (missing, size) = check-fresh key s.idem new in
      let first : accepted.idem ≡ record_result key r g =
        rw (submit, known, new, place_reserved, asked)
          (track-idem k listings a.now a.intent o (record s { idem = g })) in
      let answered : check_and_reserve (correlation b.intent) later.idem
          ≡ (duplicate r, later.idem) =
        rw (same, calls, first)
          (record_result-is_remembered key r cs g (check_and_reserve-Inv key s.idem v) missing
            (ground arith)) in
      rw (submit, again, answered) refl

  release-fresh :
      (k : BrokerConfig W) (listings : Listings) (a : Attempt W) (why : String) (s : BrokerState W)
      → is_tradable (listings a.intent.symbol) ≡ true
      → (check_and_reserve (correlation a.intent) s.idem).0 ≡ fresh
      → a.place a.intent ≡ refused why
      → let (next, events, result) = submit k listings a.place a.now a.intent s in
        (events ≡ [])
        × (result ≡ returned (some (reject a.intent (placement_failed why))))
        × (next.tracked ≡ s.tracked)
        × ((check_and_reserve (correlation a.intent) next.idem).0 ≡ fresh)
  unfolding submit place_reserved
  release-fresh k listings a why s known new failed =
      rw (submit, known, new, place_reserved, failed)
        (refl, refl, refl, release_frees (correlation a.intent) s.idem new)

  track-accepts :
      (k : BrokerConfig W) (listings : Listings) (now : ℕ) (i : OrderIntentEvent W) (o : Order W)
      (s : BrokerState W)
      → (rest : List (Event W)) × ((track k listings now i o s).1
          ≡ order_accepted (accept (tracked_id o s).0 i) ∷ rest)
  unfolding track
  track-accepts k listings now i o s = elim (Bool-cases (is_filled o)) [
    | inl filled ↦ rw (track, filled) (_, refl)
    | inr waits ↦ rw (track, waits) (_, refl)
  ]

  -- An intent for an instrument with a broker, whose correlation is not recorded or reserved: when its
  -- placement raises, whatever the exception, the intent is refused with its text, and nothing is
  -- published or tracked. A retry with the same correlation, for an instrument with a broker, asks the
  -- broker again, and when the broker takes the order, it is published as accepted: also when the first
  -- exception was a connection that dropped after the venue had taken the order.
  pub submit-places_again :
      (k : BrokerConfig W) (listings : Listings) (a b : Attempt W) (why : String) (o : Order W)
      (s : BrokerState W)
      → is_tradable (listings a.intent.symbol) ≡ true
      → (check_and_reserve (correlation a.intent) s.idem).0 ≡ fresh
      → a.place a.intent ≡ refused why
      → is_tradable (listings b.intent.symbol) ≡ true
      → correlation b.intent ≡ correlation a.intent
      → b.place b.intent ≡ placed o
      → let (next, events, result) = submit k listings a.place a.now a.intent s in
        let (_, again, retried) = submit k listings b.place b.now b.intent next in
        (events ≡ [])
        × (result ≡ returned (some (reject a.intent (placement_failed why))))
        × (next.tracked ≡ s.tracked)
        × ((id : String) × (rest : List (Event W)) × (again
              ≡ order_accepted (accept id b.intent) ∷ rest))
  unfolding submit place_reserved
  submit-places_again k listings a b why o s known new failed listed same asked =
      let first = release-fresh k listings a why s known new failed in
      let next = (submit k listings a.place a.now a.intent s).0 in
      let idem = (check_and_reserve (correlation b.intent) next.idem).1 in
      let free : (check_and_reserve (correlation b.intent) next.idem).0 ≡ fresh =
        ap (λ c. (check_and_reserve c next.idem).0) same ∙ first.3 in
      let (rest, accepted) =
        track-accepts k listings b.now b.intent o (record next { idem = idem }) in
      let again : (submit k listings b.place b.now b.intent next).1
          ≡ (track k listings b.now b.intent o (record next { idem = idem })).1 =
        rw (submit, listed, free, place_reserved, asked) refl in
      (first.0, first.1, first.2, (_, rest, again ∙ accepted))
