-- ===== src/EventStore/Recovery.antt =====
-- How the deltas of ntrade/storage/event_store.py follow the events that `poll` of
-- ntrade/execution/broker_executor.py publishes.
use n_trade.Prelude.{
  ℕ, ◌≡◌, ◌≢◌, refl, true, false, inl, inr, String, some, List, [], ◌∷◌, ◌++◌, if◌then◌else◌,
  string_eq, arith, sym, ◌∙◌,
}
use n_trade.Prelude.Dict.{Dict, lookup, lookup-insert_self}
use n_trade.Prelude.Int.{ℤ, pos, ◌+ℤ◌, ◌-ℤ◌, ltb_ℤ, leb_ℤ, int_laws}
use n_trade.Prelude.Float.{Float}
use n_trade.Domain.{
  Order, OrderIntentEvent, partially_filled, same_status, Event, order_filled, nought,
}
use n_trade.Execution.Broker.{
  Listings, BrokerConfig, OpenRecord, price_of_fill, emit_fill, fill_event,
}
use n_trade.Execution.Broker.Polling.{timeout_events, update_events, conclude, settle}
use n_trade.Execution.Broker.Polling.Replies.{emit_fill-cases, regain}
use n_trade.EventStore.{Delta, adjust, absorb, absorb_all}

module _ {W : Type 0} where
  absorb_all-append :
      (xs ys : List (Event W)) (d : Dict String Delta)
      → absorb_all (xs ++ ys) d ≡ absorb_all ys (absorb_all xs d)
  unfolding absorb_all
  absorb_all-append [] ys d = refl
  absorb_all-append (x ∷ xs) ys d = absorb_all-append xs ys (absorb x d)

adjust-found :
    (id : String) (f : Delta → Delta) (d : Dict String Delta) (t : Delta)
    → lookup id d ≡ some t
    → lookup id (adjust id f d) ≡ some (f t)
adjust-found id f d t known = rw (adjust, known) (lookup-insert_self id (f t) d)

gains : (held qty : ℤ) → ltb_ℤ held qty ≡ true → leb_ℤ (qty -ℤ held) (pos 0) ≡ false
unfolding ◌-ℤ◌
gains held qty more = ground arith

never_double : (held qty : ℤ) → ltb_ℤ held qty ≡ true → qty +ℤ (qty -ℤ held) ≢ qty
never_double held qty more same = grind int_laws

module _ {W : Type 0} ⦃fl : Float W⦄ where
  emit_fill-live :
      (k : BrokerConfig W) (listings : Listings) (now : ℕ) (id : String) (i : OrderIntentEvent W)
      (o : Order W) (already : ℤ)
      → ltb_ℤ already o.filled_qty ≡ true
      → fl.fle (price_of_fill i o) nought ≡ false
      → emit_fill k listings now id i o already ≡ (
        o.filled_qty,
        order_filled (fill_event k listings now id i (price_of_fill i o) (o.filled_qty -ℤ already))
            ∷ [],
      )
  emit_fill-live k listings now id i o already more live =
      elim (emit_fill-cases k listings now id i o already) [
        | inr (_, _, new) ↦ new
        | inl (dead, _) ↦ ground (arith, gains already o.filled_qty more)
      ]

  -- A partial fill that the poll sees together with the change of status is counted twice: the
  -- delta of the order ends at the broker's filled quantity plus the newly filled quantity.
  pub settle-overcounts :
      (k : BrokerConfig W) (listings : Listings) (now : ℕ) (id : String) (r : OpenRecord W)
      (o : Order W) (d : Dict String Delta) (t : Delta)
      → lookup id d ≡ some t
      → t.filled ≡ r.filled
      → o.status ≡ partially_filled
      → same_status partially_filled r.status ≡ false
      → ltb_ℤ r.filled o.filled_qty ≡ true
      → fl.fle (price_of_fill r.intent o) nought ≡ false
      → (t' : Delta) × (lookup id (absorb_all (settle k listings now id r o).0 d) ≡ some t')
        × (t'.filled ≡ o.filled_qty +ℤ (o.filled_qty -ℤ r.filled))
        × (t'.filled ≢ o.filled_qty)
  unfolding settle timeout_events update_events conclude absorb_all fill_event
  settle-overcounts k listings now id r o d t known agree part changed more live =
      let qty = o.filled_qty in
      let gained = qty -ℤ r.filled in
      let seen : Delta = record t {
        status = partially_filled;
        filled = if ltb_ℤ t.filled qty then qty else t.filled;
      } in
      let doubled : seen.filled +ℤ gained ≡ qty +ℤ gained = rw (agree, more) refl in
      let found =
        adjust-found id (λ x. record x { filled = x.filled +ℤ gained })
          (adjust id
            (λ x. record x {
              status = partially_filled;
              filled = if ltb_ℤ x.filled qty then qty else x.filled;
            })
            d)
          seen
          (adjust-found id
            (λ x. record x {
              status = partially_filled;
              filled = if ltb_ℤ x.filled qty then qty else x.filled;
            })
            d t known) in
      rw
        (
          settle,
          emit_fill-live k listings now id r.intent o r.filled more live,
          timeout_events,
          update_events,
          conclude,
          part,
          changed,
        )
        (_, found, doubled, (λ same. never_double r.filled qty more (sym doubled ∙ same)))

  -- A fill that the poll sees without a change of status is counted once: the delta of the order
  -- ends at the broker's filled quantity.
  pub settle-counts :
      (k : BrokerConfig W) (listings : Listings) (now : ℕ) (id : String) (r : OpenRecord W)
      (o : Order W) (d : Dict String Delta) (t : Delta)
      → lookup id d ≡ some t
      → t.filled ≡ r.filled
      → o.status ≡ partially_filled
      → r.status ≡ partially_filled
      → ltb_ℤ r.filled o.filled_qty ≡ true
      → fl.fle (price_of_fill r.intent o) nought ≡ false
      → (t' : Delta) × (lookup id (absorb_all (settle k listings now id r o).0 d) ≡ some t')
        × (t'.filled ≡ o.filled_qty)
  unfolding settle timeout_events update_events conclude absorb_all fill_event
  settle-counts k listings now id r o d t known agree part same more live =
      let gained = o.filled_qty -ℤ r.filled in
      let found = adjust-found id (λ x. record x { filled = x.filled +ℤ gained }) d t known in
      rw
        (
          settle,
          emit_fill-live k listings now id r.intent o r.filled more live,
          timeout_events,
          update_events,
          conclude,
          part,
          same,
        )
        (_, found, rw agree (regain o.filled_qty r.filled))
