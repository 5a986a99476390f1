-- ===== src/Execution/Broker/Polling/Account.antt =====
-- The fills that `poll` (ntrade/execution/broker_executor.py) publishes add up to the filled
-- quantity of each record, whatever the broker answers.
use n_trade.Prelude.{
  ℕ, suc, ◌≡◌, refl, true, false, ◌⊎◌, inl, inr, String, Option, none, some, List, [], ◌∷◌, ◌++◌,
  ◌=?◌, string_eq, =?_iff, if◌then◌else◌, Bool-cases, arith, ap, ◌∙◌, sym, append-nil, append_assoc,
  leb,
}
use n_trade.Prelude.Dict.{Dict, lookup, lookup-insert, lookup-erase}
use n_trade.Prelude.Int.{ℤ, pos, ◌+ℤ◌, ◌-ℤ◌, int_laws, +ℤ_zero}
use n_trade.Prelude.Float.{Float}
use n_trade.Guard.Breaker.{maybe_reset, on_failure}
use n_trade.Domain.{Order, OrderIntentEvent, Event, order_rejected, order_filled}
use n_trade.Execution.Broker.{
  Refresh, refreshed, rate_limited, failed, Listings, BrokerConfig, OpenRecord, BrokerState,
  emit_fill, fill_event, open_orders,
}
use n_trade.Execution.Broker.Polling.{
  Round, count_stale, timeout_events, update_events, remainder_events, conclude, settle, store,
  refresh_order, poll_order, poll_orders, poll,
}
use n_trade.Execution.Broker.Polling.Replies.{emit_fill-cases, regain, poll_order-cases}

module _ {W : Type 0} where
  abbrev pub total : (Event W → ℤ) → List (Event W) → ℤ
  total w [] = pos 0
  total w (e ∷ es) = w e +ℤ total w es

  abbrev pub fill_of : String → Event W → ℤ
  fill_of id (order_filled f) = if f.order_id =? id then f.quantity else pos 0
  fill_of id _ = pos 0

  abbrev pub rejection_of : String → Event W → ℤ
  rejection_of id (order_rejected e) = if e.order_id =? id then e.quantity else pos 0
  rejection_of id _ = pos 0

  -- The quantity that the fills, or the rejections, of an order add up to.
  abbrev pub filled_in : String → List (Event W) → ℤ
  filled_in id = total (fill_of id)

  abbrev pub rejected_in : String → List (Event W) → ℤ
  rejected_in id = total (rejection_of id)

  pub total-append :
      (w : Event W → ℤ) (xs ys : List (Event W)) → total w (xs ++ ys) ≡ total w xs +ℤ total w ys
  total-append w [] ys = omega int_laws
  total-append w (x ∷ xs) ys = rw (total-append w xs ys) (omega int_laws)

  -- The events of a settlement, in its four parts.
  total-parts :
      (w : Event W → ℤ) (xs ys zs us : List (Event W))
      → total w (xs ++ ys ++ zs ++ us) ≡ total w xs +ℤ total w ys +ℤ total w zs +ℤ total w us
  total-parts w xs ys zs us =
      rw (total-append w (xs ++ ys ++ zs) us, total-append w (xs ++ ys) zs, total-append w xs ys)
        refl

  -- Every record's filled quantity is what the fills in the log add up to.
  abbrev pub Agrees : BrokerState W → List (Event W) → Type 0
  Agrees s log =
      (id : String) (r : OpenRecord W) → lookup id s.tracked ≡ some r → filled_in id log ≡ r.filled

  count_stale-Agrees :
      (k : BrokerConfig W) (id : String) (r : OpenRecord W) (s : BrokerState W)
      (log : List (Event W))
      → Agrees s log
      → filled_in id log ≡ r.filled
      → Agrees (count_stale k id r s) log
  unfolding count_stale
  count_stale-Agrees k id r s log agree own j t found =
      elim (Bool-cases (leb k.stale_limit (suc r.stale))) [
        | inl full ↦ ground (arith, lookup-erase id j s.tracked, agree j t)
        | inr room ↦ ground (
          arith,
          lookup-insert id j (record r { stale = suc r.stale }) s.tracked,
          agree j t,
          =?_iff id j,
        )
      ]

module _ {W : Type 0} ⦃fl : Float W⦄ where
  emit_fill-filled_in :
      (k : BrokerConfig W) (listings : Listings) (now : ℕ) (id : String) (i : OrderIntentEvent W)
      (o : Order W) (already : ℤ) (j : String)
      → let (filled, events) = emit_fill k listings now id i o already in
        filled_in j events ≡ (if id =? j then filled -ℤ already else pos 0)
  unfolding fill_event ◌+ℤ◌
  emit_fill-filled_in k listings now id i o already j =
      elim (emit_fill-cases k listings now id i o already) [
        | inl (_, same) ↦ rw same (elim (Bool-cases (id =? j)) [
          | inl own ↦ rw own (omega int_laws)
          | inr other ↦ rw other refl
        ])
        | inr (_, _, new) ↦ rw new (elim (Bool-cases (id =? j)) [
          | inl own ↦ rw own (omega int_laws)
          | inr other ↦ rw other refl
        ])
      ]

  quiet_parts :
      (k : BrokerConfig W) (now : ℕ) (id : String) (r c : OpenRecord W) (o : Order W) (j : String)
      → (filled_in j (timeout_events k now id r o) ≡ pos 0)
        × (filled_in j (update_events now id r o) ≡ pos 0)
        × (filled_in j (conclude now id c).0 ≡ pos 0)
  unfolding timeout_events update_events conclude remainder_events ◌+ℤ◌
  quiet_parts k now id r c o j = ground arith

  settle-filled_in :
      (k : BrokerConfig W) (listings : Listings) (now : ℕ) (id : String) (r : OpenRecord W)
      (o : Order W) (j : String)
      → filled_in j (settle k listings now id r o).0 ≡ (
          if id =? j
          then (emit_fill k listings now id r.intent o r.filled).0 -ℤ r.filled
          else pos 0)
  unfolding settle
  settle-filled_in k listings now id r o j =
      let (filled, fills) = emit_fill k listings now id r.intent o r.filled in
      let c : OpenRecord W = record r {
        order = o;
        filled = filled;
        status = o.status;
        stale = 0;
      } in
      let (early, updated, ended) = quiet_parts k now id r c o j in
      rw
        (
          total-parts (fill_of j) (timeout_events k now id r o) (update_events now id r o) fills
              (conclude now id c).0,
          early,
          updated,
          ended,
          emit_fill-filled_in k listings now id r.intent o r.filled j,
        )
        (omega int_laws)

  settle-kept_filled :
      (k : BrokerConfig W) (listings : Listings) (now : ℕ) (id : String) (r t : OpenRecord W)
      (o : Order W)
      → (settle k listings now id r o).1 ≡ some t
      → t.filled ≡ (emit_fill k listings now id r.intent o r.filled).0
  unfolding settle conclude
  settle-kept_filled k listings now id r t o kept = ground arith

  store-found :
      (id j : String) (kept : Option (OpenRecord W)) (d : Dict String (OpenRecord W))
      (t : OpenRecord W)
      → lookup j (store id kept d) ≡ some t
      → ((id =? j) ≡ true) × (kept ≡ some t) ⊎ ((id =? j) ≡ false) × (lookup j d ≡ some t)
  store-found id j none d t found = ground (arith, lookup-erase id j d)
  store-found id j (some r) d t found = ground (arith, lookup-insert id j r d)

  refresh_order-Agrees :
      (k : BrokerConfig W) (listings : Listings) (now tick : ℕ) (id : String) (r : OpenRecord W)
      (reply : Refresh W) (s : BrokerState W) (log : List (Event W))
      → Agrees s log
      → filled_in id log ≡ r.filled
      → let (next, events) = refresh_order k listings now tick id r reply s in
        Agrees next (log ++ events)
  unfolding refresh_order
  refresh_order-Agrees k listings now tick id r rate_limited s log agree own j t found =
      rw (append-nil log) (agree j t found)
  refresh_order-Agrees k listings now tick id r failed s log agree own j t found =
      rw (append-nil log) (
        count_stale-Agrees k id r (record s { breaker = on_failure tick s.breaker }) log agree own j
          t found)
  refresh_order-Agrees k listings now tick id r (refreshed o) s log agree own j t found =
      rw
        (
          total-append (fill_of j) log (settle k listings now id r o).0,
          settle-filled_in k listings now id r o j,
        )
        (elim (store-found id j (settle k listings now id r o).1 s.tracked t found) [
          | inr (other, kept) ↦ rw (other, agree j t kept) (+ℤ_zero t.filled)
          | inl (same, kept) ↦
              rw
                (
                  same,
                  ap (λ i. filled_in i log) (sym ((=?_iff id j).0 same)) ∙ own,
                  settle-kept_filled k listings now id r t o kept,
                )
                (regain (emit_fill k listings now id r.intent o r.filled).0 r.filled)
        ])

  poll_order-Agrees :
      (k : BrokerConfig W) (listings : Listings) (now tick : ℕ)
      (reply : String → Order W → Refresh W) (id : String) (s : BrokerState W)
      (log : List (Event W))
      → Agrees s log
      → let (next, events) = poll_order k listings now tick reply id s in
        Agrees next (log ++ events)
  poll_order-Agrees k listings now tick reply id s log agree =
      elim (poll_order-cases k listings now tick reply id s) [
        | inl (missing, same) ↦ rw (same, append-nil log) agree
        | inr (r, found, way) ↦
            let own = agree id r found in
            let counted = count_stale-Agrees k id r s log agree own in
            elim way [
              | inl (_, asked) ↦
                  rw asked (
                    refresh_order-Agrees k listings now tick id r (reply id r.order) s log agree
                      own)
              | inr (inl (quiet, same)) ↦ rw (quiet, same, append-nil log) counted
              | inr (inr (_, probes)) ↦ rw probes (
                  refresh_order-Agrees k listings now tick id (record r { stale = suc r.stale })
                    (reply id r.order)
                    (record (count_stale k id r s) { breaker = (maybe_reset tick s.breaker).1 }) log
                    counted own)
            ]
      ]

  poll_orders-Agrees :
      (k : BrokerConfig W) (listings : Listings) (now tick : ℕ)
      (reply : String → Order W → Refresh W) (ids : List String) (s : BrokerState W)
      (log : List (Event W))
      → Agrees s log
      → let (next, events) = poll_orders k listings now tick reply ids s in
        Agrees next (log ++ events)
  unfolding poll_orders
  poll_orders-Agrees k listings now tick reply [] s log agree = rw (append-nil log) agree
  poll_orders-Agrees k listings now tick reply (id ∷ ids) s log agree =
      let (next, events) = poll_order k listings now tick reply id s in
      let (after, more) = poll_orders k listings now tick reply ids next in
      rw (sym (append_assoc log events more)) (
        poll_orders-Agrees k listings now tick reply ids next (log ++ events)
          (poll_order-Agrees k listings now tick reply id s log agree))

  poll-Agrees :
      (k : BrokerConfig W) (listings : Listings) (now tick : ℕ)
      (reply : String → Order W → Refresh W) (s : BrokerState W) (log : List (Event W))
      → Agrees s log
      → let (next, events) = poll k listings now tick reply s in Agrees next (log ++ events)
  unfolding poll
  poll-Agrees k listings now tick reply s log agree =
      poll_orders-Agrees k listings now tick reply (open_orders s) s log agree

  -- `poll`, called again and again, with what it publishes in all.
  unfoldable pub polled :
      BrokerConfig W → Listings → List (Round W) → BrokerState W → BrokerState W × List (Event W)
  polled k listings [] s = (s, [])
  polled k listings (round ∷ rounds) s =
      let (next, events) = poll k listings round.now round.tick round.reply s in
      let (after, more) = polled k listings rounds next in (after, events ++ more)

  polled-Agrees :
      (k : BrokerConfig W) (listings : Listings) (rounds : List (Round W)) (s : BrokerState W)
      (log : List (Event W))
      → Agrees s log
      → let (next, events) = polled k listings rounds s in Agrees next (log ++ events)
  unfolding polled
  polled-Agrees k listings [] s log agree = rw (append-nil log) agree
  polled-Agrees k listings (round ∷ rounds) s log agree =
      let (next, events) = poll k listings round.now round.tick round.reply s in
      rw (sym (append_assoc log events (polled k listings rounds next).1)) (
        polled-Agrees k listings rounds next (log ++ events)
          (poll-Agrees k listings round.now round.tick round.reply s log agree))

  -- When the fills in the event log add up to the filled quantity of every open order, then so
  -- they do for every order that is still open after any number of polls that add their events to
  -- the log, whatever the broker answers about each order and whatever the circuit does: no fill
  -- is published twice, and none is counted without being published.
  pub polled-filled_in :
      (k : BrokerConfig W) (listings : Listings) (rounds : List (Round W)) (s : BrokerState W)
      (log : List (Event W)) (id : String) (r : OpenRecord W)
      → Agrees s log
      → lookup id (polled k listings rounds s).0.tracked ≡ some r
      → filled_in id (log ++ (polled k listings rounds s).1) ≡ r.filled
  polled-filled_in k listings rounds s log id r agree found =
      polled-Agrees k listings rounds s log agree id r found
