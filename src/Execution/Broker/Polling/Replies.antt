-- ===== src/Execution/Broker/Polling/Replies.antt =====
-- What one refreshed order makes `poll` (ntrade/execution/broker_executor.py) publish.
use n_trade.Prelude.{
  ℕ, suc, ◌≡◌, refl, true, false, ◌||◌, ◌⊎◌, inl, inr, String, none, some, [], ◌∷◌, ◌++◌, leb,
  string_eq, Bool-cases, Option-cases, arith, ap, ◌∙◌, append-nil,
}
use n_trade.Prelude.Int.{ℤ, pos, ◌+ℤ◌, ◌-ℤ◌, leb_ℤ, int_laws}
use n_trade.Prelude.Float.{Float}
use n_trade.Domain.{
  Order, OrderIntentEvent, OrderStatus, pending, completed, rejected, cancelled, partially_filled,
  same_status, order_filled, nought,
}
use n_trade.Prelude.Dict.{lookup}
use n_trade.Guard.Breaker.{maybe_reset, is_open}
use n_trade.Execution.Broker.{
  Refresh, Listings, BrokerConfig, OpenRecord, BrokerState, price_of_fill, emit_fill, fill_event,
}
use n_trade.Execution.Broker.Polling.{
  timeout_events, update_events, conclude, settle, refresh_order, count_stale, poll_order,
  poll_blocked,
}

same_status_refl : (s : OrderStatus) → same_status s s ≡ true
same_status_refl pending = refl
same_status_refl completed = refl
same_status_refl rejected = refl
same_status_refl cancelled = refl
same_status_refl partially_filled = refl

pub regain : (a b : ℤ) → b +ℤ (a -ℤ b) ≡ a
regain a b = omega int_laws

no_gain : (a : ℤ) → leb_ℤ (a -ℤ a) (pos 0) ≡ true
unfolding ◌-ℤ◌
no_gain a = ground arith

module _ {W : Type 0} ⦃fl : Float W⦄ where
  -- An emission keeps the quantity and publishes nothing, or brings the quantity to the broker's
  -- with one fill for the difference.
  pub emit_fill-cases :
      (k : BrokerConfig W) (listings : Listings) (now : ℕ) (id : String) (i : OrderIntentEvent W)
      (o : Order W) (already : ℤ)
      → let dead = fl.fle (price_of_fill i o) nought in
        let gained = o.filled_qty -ℤ already in
        (leb_ℤ gained (pos 0) || dead ≡ true)
          × (emit_fill k listings now id i o already ≡ (already, []))
        ⊎ (leb_ℤ gained (pos 0) ≡ false)
          × (dead ≡ false)
          × (emit_fill k listings now id i o already ≡ (
            o.filled_qty,
            order_filled (fill_event k listings now id i (price_of_fill i o) gained) ∷ [],
          ))
  unfolding emit_fill
  emit_fill-cases k listings now id i o already =
      elim (Bool-cases (leb_ℤ (o.filled_qty -ℤ already) (pos 0))) [
        | inl none_new ↦ rw none_new (inl (refl, refl))
        | inr more ↦ elim (Bool-cases (fl.fle (price_of_fill i o) nought)) [
          | inl dead ↦ rw (more, dead) (inl (refl, refl))
          | inr live ↦ rw (more, live, regain o.filled_qty already) (inr (refl, refl, refl))
        ]
      ]

  -- A second emission over the quantity that the first one leaves publishes nothing.
  emit_fill-again :
      (k : BrokerConfig W) (listings : Listings) (now later : ℕ) (id : String)
      (i : OrderIntentEvent W) (o : Order W) (already : ℤ)
      → let filled = (emit_fill k listings now id i o already).0 in
        emit_fill k listings later id i o filled ≡ (filled, [])
  emit_fill-again k listings now later id i o already =
      elim (emit_fill-cases k listings now id i o already) [
        | inl (quiet, same) ↦ rw same (elim (emit_fill-cases k listings later id i o already) [
          | inl (_, still) ↦ still
          | inr (more, live, _) ↦ ground arith
        ])
        | inr (more, live, new) ↦
            rw new (elim (emit_fill-cases k listings later id i o o.filled_qty) [
              | inl (_, still) ↦ still
              | inr (again, _, _) ↦ grind (int_laws, no_gain o.filled_qty)
            ])
      ]

  conclude-kept :
      (now : ℕ) (id : String) (r after : OpenRecord W)
      → (conclude now id r).1 ≡ some after
      → (after ≡ r) × (conclude now id r ≡ ([], some r))
  unfolding conclude
  conclude-kept now id r after kept = ground arith

  conclude-later :
      (now later : ℕ) (id : String) (r : OpenRecord W)
      → conclude now id r ≡ ([], some r)
      → conclude later id r ≡ ([], some r)
  unfolding conclude
  conclude-later now later id r kept = ground arith

  -- When the broker reports the same order again, the next poll publishes at most the timeout
  -- warning: no fill, no update and no rejection is repeated.
  pub settle-again :
      (k : BrokerConfig W) (listings : Listings) (now later : ℕ) (id : String)
      (r after : OpenRecord W) (o : Order W)
      → (settle k listings now id r o).1 ≡ some after
      → settle k listings later id after o ≡ (timeout_events k later id after o, some after)
  unfolding settle update_events
  settle-again k listings now later id r after o kept =
      let again = emit_fill-again k listings now later id r.intent o r.filled in
      let filled = (emit_fill k listings now id r.intent o r.filled).0 in
      let current : OpenRecord W = record r {
        order = o;
        filled = filled;
        status = o.status;
        stale = 0;
      } in
      let t = timeout_events k later id current o in
      let (same, ended) = conclude-kept now id current after kept in
      rw (same, settle, again, update_events, same_status_refl o.status)
        (rw (conclude-later now later id current ended) (
          ap (λ es. (es, some current))
            (append-nil (t ++ [] ++ []) ∙ append-nil (t ++ []) ∙ append-nil t)))

  -- What a round of `poll` does with an order: nothing, a refresh, a count of one more failure, or
  -- such a count and then a refresh as the probe of the circuit.
  pub poll_order-cases :
      (k : BrokerConfig W) (listings : Listings) (now tick : ℕ)
      (reply : String → Order W → Refresh W) (id : String) (s : BrokerState W)
      → let out = poll_order k listings now tick reply id s in
        (lookup id s.tracked ≡ none) × (out ≡ (s, []))
        ⊎ ((r : OpenRecord W) × (lookup id s.tracked ≡ some r)
            × let answer = reply id r.order in
              let (probing, breaker) = maybe_reset tick s.breaker in
              let ready = record (count_stale k id r s) { breaker = breaker } in
              let worse = record r { stale = suc r.stale } in
              (is_open s.breaker.state ≡ false)
                × (out ≡ refresh_order k listings now tick id r answer s)
              ⊎ (out.1 ≡ []) × (out.0.tracked ≡ (count_stale k id r s).tracked)
              ⊎ (leb k.stale_limit (suc r.stale) ≡ false)
                × (out ≡ refresh_order k listings now tick id worse answer ready))
  unfolding poll_order poll_blocked count_stale
  poll_order-cases k listings now tick reply id s = elim (Option-cases (lookup id s.tracked)) [
    | inl missing ↦ rw (poll_order, missing) (inl (refl, refl))
    | inr (r, found) ↦ inr (
      r,
      found,
      elim (Bool-cases (is_open s.breaker.state)) [
        | inr asked ↦ rw (poll_order, found, asked) (inl (refl, refl))
        | inl blocked ↦ elim (Bool-cases (leb k.stale_limit (suc r.stale))) [
          | inl full ↦ rw (poll_order, found, blocked, full) (inr (inl (refl, refl)))
          | inr room ↦ elim (Bool-cases (maybe_reset tick s.breaker).0) [
            | inr waits ↦ rw (poll_order, found, blocked, room, waits) (inr (inl (refl, refl)))
            | inl probes ↦ rw (poll_order, found, blocked, room, probes) (inr (inr (refl, refl)))
          ]
        ]
      ],
    )
  ]
