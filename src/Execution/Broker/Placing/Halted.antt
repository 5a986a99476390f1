-- ===== src/Execution/Broker/Placing/Halted.antt =====
-- `submit` of ntrade/execution/broker_executor.py against the circuit breaker of its target.
use n_trade.Prelude.{ℕ, ◌≡◌, refl, ◌⊎◌, inl, inr, String, string_eq, Bool-cases, arith}
use n_trade.Prelude.Float.{Float}
use n_trade.Guard.Idempotency.{Reply, duplicate, already_reserved, fresh, check_and_reserve}
use n_trade.Guard.Breaker.{CircuitBreaker}
use n_trade.Domain.{Order, OrderIntentEvent}
use n_trade.Execution.Broker.{Placement, placed, refused, Listings, BrokerConfig, BrokerState}
use n_trade.Execution.Broker.Placing.{
  Attempt, is_tradable, correlation, next_brk_id, tracked_id, fill_at_once, track, place_reserved,
  submit,
}

Placement-cases :
    {W : Type 0} (p : Placement W)
    → ((why : String) × (p ≡ refused why)) ⊎ ((o : Order W) × (p ≡ placed o))
Placement-cases (refused why) = inl (why, refl)
Placement-cases (placed o) = inr (o, refl)

module _ {W : Type 0} ⦃fl : Float W⦄ where
  track-any_breaker :
      (k : BrokerConfig W) (listings : Listings) (now : ℕ) (i : OrderIntentEvent W) (o : Order W)
      (s : BrokerState W) (b : CircuitBreaker)
      → let t = record s { breaker = b } in
        ((track k listings now i o t).1 ≡ (track k listings now i o s).1)
        × ((track k listings now i o t).2 ≡ (track k listings now i o s).2)
  unfolding track fill_at_once tracked_id next_brk_id
  track-any_breaker k listings now i o s b = ground arith

  place_reserved-any_breaker :
      (k : BrokerConfig W) (listings : Listings) (a : Attempt W) (reply : Reply String)
      (s : BrokerState W) (b : CircuitBreaker)
      → let with_b =
          place_reserved k listings a.place a.now a.intent reply (record s { breaker = b }) in
        let with_own = place_reserved k listings a.place a.now a.intent reply s in
        (with_b.1 ≡ with_own.1) × (with_b.2 ≡ with_own.2)
  unfolding place_reserved
  place_reserved-any_breaker k listings a (duplicate _) s b = (refl, refl)
  place_reserved-any_breaker k listings a already_reserved s b = (refl, refl)
  place_reserved-any_breaker k listings a fresh s b = elim (Placement-cases (a.place a.intent)) [
    | inl (why, raised_it) ↦ rw (place_reserved, raised_it) (refl, refl)
    | inr (o, went) ↦ rw (place_reserved, went) (track-any_breaker k listings a.now a.intent o s b)
  ]

  -- What a submission publishes and answers does not depend on the circuit breaker: an order is
  -- placed as well after the kill switch as before it.
  pub submit-any_breaker :
      (k : BrokerConfig W) (listings : Listings) (a : Attempt W) (s : BrokerState W)
      (b : CircuitBreaker)
      → let t = record s { breaker = b } in
        let with_b = submit k listings a.place a.now a.intent t in
        let with_own = submit k listings a.place a.now a.intent s in
        (with_b.1 ≡ with_own.1) × (with_b.2 ≡ with_own.2)
  unfolding submit
  submit-any_breaker k listings a s b = elim (Bool-cases (is_tradable (listings a.intent.symbol))) [
    | inr unknown ↦ rw (submit, unknown) (refl, refl)
    | inl known ↦
        let (reply, idem) = check_and_reserve (correlation a.intent) s.idem in
        rw (submit, known)
          (place_reserved-any_breaker k listings a reply (record s { idem = idem }) b)
  ]
