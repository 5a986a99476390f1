-- ===== src/Execution/Broker/Restoring/Resumed.antt =====
-- What `restore_open` (ntrade/execution/broker_executor.py) brings back after a crash.
use n_trade.Prelude.{
  ℕ, ◌≡◌, ◌≤◌, refl, ◌⊎◌, inl, inr, ◌∙◌, sym, ap, true, false, String, none, some, [], ◌∷◌, ◌=?◌,
  string_eq, =?_iff, if◌then◌else◌, ltb, arith, Bool-cases, Option-cases,
}
use n_trade.Prelude.Dict.{Dict, lookup, insert, contains, lookup-insert, lookup-insert_self}
use n_trade.Prelude.Float.{Float}
use n_trade.Domain.{OrderSide}
use n_trade.EventStore.{Delta}
use n_trade.Execution.Text.{trailing_number}
use n_trade.Execution.Broker.{Listing, Listings, OpenRecord, BrokerState}
use n_trade.Execution.Broker.Recovery.{side_of}
use n_trade.Execution.Broker.Restoring.{restored_record, bumped, restore_open}

bumped-some :
    (id : String) (n seq : ℕ)
    → trailing_number id ≡ some n
    → bumped id seq ≡ (if ltb seq n then n else seq)
bumped-some id n seq there = rw (bumped, there) refl

bumped-grows : (id : String) (seq : ℕ) → seq ≤ bumped id seq
bumped-grows id seq = elim (Option-cases (trailing_number id)) [
  | inl none_there ↦ rw (bumped, none_there) (omega arith)
  | inr (n, there) ↦ rw (bumped, there) (ground arith)
]

bumped-enough : (id : String) (seq later : ℕ) → bumped id seq ≤ later → bumped id later ≡ later
bumped-enough id seq later le = elim (Option-cases (trailing_number id)) [
  | inl none_there ↦ rw (bumped, none_there) refl
  | inr (n, there) ↦
      let small : (if ltb seq n then n else seq) ≤ later = rw (← bumped-some id n seq there) le in
      rw (bumped, there) (ground (arith, small))
]

module _ {W : Type 0} ⦃fl : Float W⦄ where
  abbrev pub restored_state :
      (String → String) → String → Delta → OrderSide → BrokerState W → BrokerState W
  restored_state fresh_id id delta side s = record s {
    tracked = insert id (restored_record (fresh_id id) id delta side) s.tracked;
    seq = bumped id s.seq;
  }

  -- What the first delta does.
  restore_open-cases :
      (fresh_id : String → String) (listings : Listings) (id : String) (delta : Delta)
      (deltas : Dict String Delta) (s : BrokerState W)
      → let all = restore_open fresh_id listings ((id, delta) ∷ deltas) s in
        let rest = restore_open fresh_id listings deltas s in
        (contains id s.tracked ≡ true) × (all ≡ rest)
        ⊎ (listings delta.symbol ≡ none) × (all ≡ rest)
        ⊎ (side_of delta.side ≡ none) × (all ≡ (s, none))
        ⊎ ((side : OrderSide) × (contains id s.tracked ≡ false)
            × (side_of delta.side ≡ some side)
            × (all.0
                ≡ (restore_open fresh_id listings deltas
                    (restored_state fresh_id id delta side s)).0)
            × ((n : ℕ)
                → all.1 ≡ some n
                → (m : ℕ) × ((restore_open fresh_id listings deltas
                      (restored_state fresh_id id delta side s)).1
                    ≡ some m)))
  unfolding restore_open
  restore_open-cases fresh_id listings id delta deltas s =
      elim (Bool-cases (contains id s.tracked)) [
        | inl known ↦ rw (restore_open, known) (inl (refl, refl))
        | inr new ↦ elim (Option-cases (listings delta.symbol)) [
          | inl unlisted ↦ rw (restore_open, new, unlisted) (inr (inl (refl, refl)))
          | inr (l, listed) ↦ elim (Option-cases (side_of delta.side)) [
            | inl unread ↦ rw (restore_open, new, listed, unread) (inr (inr (inl (refl, refl))))
            | inr (side, read) ↦
                rw (restore_open, new, listed, read)
                  (inr (
                    inr (
                      inr (
                        side,
                        refl,
                        refl,
                        refl,
                        λ n e.
                            elim (Option-cases
                              (restore_open fresh_id listings deltas
                                (restored_state fresh_id id delta side s)).1) [
                                  | inl stopped ↦ absurd (ground arith)
                                  | inr found ↦ found
                                ],
                      ))))
          ]
        ]
      ]

  -- A restored order stays as it is, and the sequence number only grows.
  restore_open-keeps :
      (fresh_id : String → String) (listings : Listings) (deltas : Dict String Delta)
      (s : BrokerState W) (id : String) (r : OpenRecord W)
      → lookup id s.tracked ≡ some r
      → let after = (restore_open fresh_id listings deltas s).0 in
        (lookup id after.tracked ≡ some r) × (s.seq ≤ after.seq)
  unfolding restore_open
  restore_open-keeps fresh_id listings [] s id r found = (found, omega arith)
  restore_open-keeps fresh_id listings ((j, d) ∷ deltas) s id r found =
      let rest = restore_open-keeps fresh_id listings deltas s id r found in
      elim (restore_open-cases fresh_id listings j d deltas s) [
        | inl (known, same) ↦ rw same rest
        | inr (inl (unlisted, same)) ↦ rw same rest
        | inr (inr (inl (unread, same))) ↦ rw same (found, omega arith)
        | inr (inr (inr (side, new, read, same, _))) ↦
            let next = restored_state fresh_id j d side s in
            let still : lookup id next.tracked ≡ some r = ground (
              arith,
              lookup-insert j id (restored_record (fresh_id j) j d side) s.tracked,
              =?_iff j id,
            ) in
            let later = restore_open-keeps fresh_id listings deltas next id r still in
            rw same (later.0, ground (arith, later.1, bumped-grows j s.seq))
      ]

  -- The order is tracked with what the delta says, and no new id gets a number up to its own.
  abbrev pub IsResumed : String → Delta → BrokerState W → Type 0
  IsResumed id delta s =
      (r : OpenRecord W) × (lookup id s.tracked ≡ some r)
      × (r.filled ≡ delta.filled)
      × (r.status ≡ delta.status)
      × (r.intent.quantity ≡ delta.quantity)
      × (bumped id s.seq ≡ s.seq)

  restored_state-IsResumed :
      (fresh_id : String → String) (listings : Listings) (deltas : Dict String Delta)
      (s : BrokerState W) (id : String) (delta : Delta) (side : OrderSide)
      → IsResumed id delta
          (restore_open fresh_id listings deltas (restored_state fresh_id id delta side s)).0
  unfolding restored_record
  restored_state-IsResumed fresh_id listings deltas s id delta side =
      let next = restored_state fresh_id id delta side s in
      let r = restored_record (fresh_id id) id delta side in
      let (found, more) =
        restore_open-keeps fresh_id listings deltas next id r (lookup-insert_self id r s.tracked) in
      (r, found, refl, refl, refl, bumped-enough id s.seq _ more)

  -- After a recovery that reads every side, each recovered order of a known instrument that was not
  -- tracked before is tracked with the status and the filled quantity of its delta, and the number
  -- in its id is not above the number from which new ids are made.
  pub restore_open-resumes :
      (fresh_id : String → String) (listings : Listings) (deltas : Dict String Delta)
      (s : BrokerState W) (id : String) (delta : Delta) (l : Listing) (n : ℕ)
      → lookup id deltas ≡ some delta
      → listings delta.symbol ≡ some l
      → lookup id s.tracked ≡ none
      → (restore_open fresh_id listings deltas s).1 ≡ some n
      → IsResumed id delta (restore_open fresh_id listings deltas s).0
  unfolding lookup
  restore_open-resumes fresh_id listings [] s id delta l n given listed new done = absurd (cc)
  restore_open-resumes fresh_id listings ((j, d) ∷ deltas) s id delta l n given listed new done =
      elim (restore_open-cases fresh_id listings j d deltas s) [
        | inl (known, same) ↦ rw same (
            restore_open-resumes fresh_id listings deltas s id delta l n
              (ground (arith, =?_iff j id)) listed new (ap (λ x. x.1) (sym same) ∙ done))
        | inr (inl (unlisted, same)) ↦ rw same (
            restore_open-resumes fresh_id listings deltas s id delta l n
              (ground (arith, =?_iff j id)) listed new (ap (λ x. x.1) (sym same) ∙ done))
        | inr (inr (inl (unread, same))) ↦
            let bad : none ≡ some n = ap (λ x. x.1) (sym same) ∙ done in absurd (cc)
        | inr (inr (inr (side, fresh, read, same, finished))) ↦
            rw same (elim (Bool-cases (j =? id)) [
              | inl own ↦
                  let e = (=?_iff j id).0 own in
                  let same_delta : d ≡ delta = ground arith in
                  rw (← e, ← same_delta)
                    (restored_state-IsResumed fresh_id listings deltas s j d side)
              | inr other ↦
                  let next = restored_state fresh_id j d side s in
                  let missing : lookup id next.tracked ≡ none =
                    rw (lookup-insert j id (restored_record (fresh_id j) j d side) s.tracked, other)
                      new in
                  let (m, done_too) = finished n done in
                  restore_open-resumes fresh_id listings deltas next id delta l m (ground arith)
                    listed missing done_too
            ])
      ]
