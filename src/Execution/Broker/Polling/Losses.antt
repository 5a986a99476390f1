-- ===== src/Execution/Broker/Polling/Losses.antt =====
-- An order that the broker keeps failing to report is dropped by `poll`
-- (ntrade/execution/broker_executor.py), whatever the circuit breaker does meanwhile.
use n_trade.Prelude.{
  ℕ, suc, ◌≡◌, ◌≤◌, ◌<◌, ◌+◌, refl, true, false, inl, inr, String, Option, none, some, List, [],
  ◌∷◌, map, ◌=?◌, string_eq, =?_iff, =?_refl, Bool-cases, Option-cases, arith, ◌∙◌, sym, leb,
  length, All,
}
use n_trade.Prelude.Dict.{Dict, lookup, lookup-insert, lookup-erase, elem}
use n_trade.Prelude.Float.{Float}
use n_trade.Guard.Breaker.{maybe_reset, on_failure}
use n_trade.Domain.{Order}
use n_trade.Execution.Broker.{
  Refresh, refreshed, rate_limited, failed, Listings, BrokerConfig, OpenRecord, BrokerState,
  open_orders,
}
use n_trade.Execution.Broker.Polling.{
  Round, count_stale, settle, store, refresh_order, poll_order, poll_orders, poll,
}
use n_trade.Execution.Broker.Polling.Replies.{poll_order-cases}

module _ {W : Type 0} where
  -- The order, if it is still tracked, has failed `n` times in a row, and less often than allowed.
  abbrev pub HasFailed : BrokerConfig W → String → ℕ → BrokerState W → Type 0
  HasFailed k id n s =
      (t : OpenRecord W) → lookup id s.tracked ≡ some t → (n ≤ t.stale) × (t.stale < k.stale_limit)

  abbrev pub IsFailing : String → (String → Order W → Refresh W) → Type 0
  IsFailing id reply = (o : Order W) → reply id o ≡ failed

  count_stale-HasFailed :
      (k : BrokerConfig W) (id : String) (n : ℕ) (r : OpenRecord W) (s : BrokerState W)
      → n ≤ r.stale
      → HasFailed k id (suc n) (count_stale k id r s)
  unfolding count_stale
  count_stale-HasFailed k id n r s failures t found =
      elim (Bool-cases (leb k.stale_limit (suc r.stale))) [
        | inl full ↦ ground (arith, lookup-erase id id s.tracked, =?_refl id)
        | inr room ↦
            ground
              (arith, lookup-insert id id (record r { stale = suc r.stale }) s.tracked, =?_refl id)
      ]

  count_stale-elsewhere :
      (k : BrokerConfig W) (id j : String) (r : OpenRecord W) (s : BrokerState W)
      → (id =? j) ≡ false
      → lookup j (count_stale k id r s).tracked ≡ lookup j s.tracked
  unfolding count_stale
  count_stale-elsewhere k id j r s other = ground (
    arith,
    lookup-erase id j s.tracked,
    lookup-insert id j (record r { stale = suc r.stale }) s.tracked,
  )

  store-elsewhere :
      (id j : String) (kept : Option (OpenRecord W)) (d : Dict String (OpenRecord W))
      → (id =? j) ≡ false
      → lookup j (store id kept d) ≡ lookup j d
  store-elsewhere id j none d other = rw (lookup-erase id j d, other) refl
  store-elsewhere id j (some r) d other = rw (lookup-insert id j r d, other) refl

module _ {W : Type 0} ⦃fl : Float W⦄ where
  refresh_order-elsewhere :
      (k : BrokerConfig W) (listings : Listings) (now tick : ℕ) (id j : String) (r : OpenRecord W)
      (reply : Refresh W) (s : BrokerState W)
      → (id =? j) ≡ false
      → lookup j (refresh_order k listings now tick id r reply s).0.tracked ≡ lookup j s.tracked
  unfolding refresh_order
  refresh_order-elsewhere k listings now tick id j r rate_limited s other = refl
  refresh_order-elsewhere k listings now tick id j r failed s other =
      count_stale-elsewhere k id j r (record s { breaker = on_failure tick s.breaker }) other
  refresh_order-elsewhere k listings now tick id j r (refreshed o) s other =
      store-elsewhere id j (settle k listings now id r o).1 s.tracked other

  poll_order-elsewhere :
      (k : BrokerConfig W) (listings : Listings) (now tick : ℕ)
      (reply : String → Order W → Refresh W) (id j : String) (s : BrokerState W)
      → (id =? j) ≡ false
      → lookup j (poll_order k listings now tick reply id s).0.tracked ≡ lookup j s.tracked
  poll_order-elsewhere k listings now tick reply id j s other =
      elim (poll_order-cases k listings now tick reply id s) [
        | inl (missing, same) ↦ rw same refl
        | inr (r, found, inl (_, asked)) ↦
            rw asked (refresh_order-elsewhere k listings now tick id j r (reply id r.order) s other)
        | inr (r, found, inr (inl (quiet, same))) ↦ rw same (count_stale-elsewhere k id j r s other)
        | inr (r, found, inr (inr (room, probes))) ↦ rw probes (
            refresh_order-elsewhere k listings now tick id j (record r { stale = suc r.stale })
              (reply id r.order)
              (record (count_stale k id r s) { breaker = (maybe_reset tick s.breaker).1 }) other
            ∙ count_stale-elsewhere k id j r s other)
      ]

  poll_order-HasFailed :
      (k : BrokerConfig W) (listings : Listings) (now tick : ℕ)
      (reply : String → Order W → Refresh W) (id : String) (n : ℕ) (s : BrokerState W)
      → IsFailing id reply
      → HasFailed k id n s
      → HasFailed k id (suc n) (poll_order k listings now tick reply id s).0
  unfolding refresh_order
  poll_order-HasFailed k listings now tick reply id n s failing h =
      elim (poll_order-cases k listings now tick reply id s) [
        | inl (missing, same) ↦ rw same (λ t found. ground arith)
        | inr (r, found, inl (_, asked)) ↦
            rw (asked, failing r.order)
              (count_stale-HasFailed k id n r (record s { breaker = on_failure tick s.breaker })
                (h r found).0)
        | inr (r, found, inr (inl (quiet, same))) ↦
            rw same (count_stale-HasFailed k id n r s (h r found).0)
        | inr (r, found, inr (inr (room, probes))) ↦
            let ready = record (count_stale k id r s) {
              breaker = (maybe_reset tick s.breaker).1;
            } in
            let worse = record r { stale = suc r.stale } in
            let more : n ≤ worse.stale = ground (arith, h r found) in
            rw (probes, failing r.order)
              (count_stale-HasFailed k id n worse
                (record ready { breaker = on_failure tick ready.breaker }) more)
      ]

  poll_orders-HasFailed :
      (k : BrokerConfig W) (listings : Listings) (now tick : ℕ)
      (reply : String → Order W → Refresh W) (id : String) (n : ℕ) (ids : List String)
      (s : BrokerState W)
      → IsFailing id reply
      → HasFailed k id n s
      → HasFailed k id n (poll_orders k listings now tick reply ids s).0
        × (elem id ids ≡ true
            → HasFailed k id (suc n) (poll_orders k listings now tick reply ids s).0)
  unfolding poll_orders elem
  poll_orders-HasFailed k listings now tick reply id n [] s failing h = (h, λ e. ground arith)
  poll_orders-HasFailed k listings now tick reply id n (j ∷ ids) s failing h =
      let next = (poll_order k listings now tick reply j s).0 in
      elim (Bool-cases (j =? id)) [
        | inl same ↦
            let once : HasFailed k id (suc n) next =
              rw ((=?_iff j id).0 same)
                (poll_order-HasFailed k listings now tick reply id n s failing h) in
            let more =
              poll_orders-HasFailed k listings now tick reply id (suc n) ids next failing once in
            ((λ t found. ground (arith, more.0 t found)), (λ e. more.0))
        | inr other ↦
            let kept : HasFailed k id n next = λ t found.
              h t (sym (poll_order-elsewhere k listings now tick reply j id s other) ∙ found) in
            let more = poll_orders-HasFailed k listings now tick reply id n ids next failing kept in
            (more.0, λ e. more.1 (ground arith))
      ]

  elem-keys :
      (id : String) (d : Dict String (OpenRecord W)) (r : OpenRecord W)
      → lookup id d ≡ some r
      → elem id (map (λ entry. entry.0) d) ≡ true
  unfolding lookup elem
  elem-keys id [] r found = ground arith
  elem-keys id ((j, t) ∷ d) r found = ground (arith, elem-keys id d r)

  poll_orders-absent :
      (k : BrokerConfig W) (listings : Listings) (now tick : ℕ)
      (reply : String → Order W → Refresh W) (id : String) (ids : List String) (s : BrokerState W)
      → lookup id s.tracked ≡ none
      → lookup id (poll_orders k listings now tick reply ids s).0.tracked ≡ none
  unfolding poll_orders
  poll_orders-absent k listings now tick reply id [] s missing = missing
  poll_orders-absent k listings now tick reply id (j ∷ ids) s missing =
      poll_orders-absent k listings now tick reply id ids
        (poll_order k listings now tick reply j s).0
        (elim (Bool-cases (j =? id)) [
          | inl same ↦ rw ((=?_iff j id).0 same) (rw (poll_order, missing) missing)
          | inr other ↦ poll_order-elsewhere k listings now tick reply j id s other ∙ missing
        ])

  poll-HasFailed :
      (k : BrokerConfig W) (listings : Listings) (round : Round W) (id : String) (n : ℕ)
      (s : BrokerState W)
      → IsFailing id round.reply
      → HasFailed k id n s
      → HasFailed k id (suc n) (poll k listings round.now round.tick round.reply s).0
  unfolding poll open_orders
  poll-HasFailed k listings round id n s failing h =
      let ids = open_orders s in
      elim (Option-cases (lookup id s.tracked)) [
        | inl missing ↦
            let still =
              poll_orders-absent k listings round.now round.tick round.reply id ids s missing in
            λ t found. ground (arith, still, found)
        | inr (r, found) ↦
            (poll_orders-HasFailed k listings round.now round.tick round.reply id n ids s failing
                h).1
              (elem-keys id s.tracked r found)
      ]

  -- `poll`, called again and again.
  unfoldable pub polls : BrokerConfig W → Listings → List (Round W) → BrokerState W → BrokerState W
  polls k listings [] s = s
  polls k listings (round ∷ rounds) s =
      polls k listings rounds (poll k listings round.now round.tick round.reply s).0

  polls-HasFailed :
      (k : BrokerConfig W) (listings : Listings) (rounds : List (Round W)) (id : String) (n : ℕ)
      (s : BrokerState W)
      → All (λ round. IsFailing id round.reply) rounds
      → HasFailed k id n s
      → HasFailed k id (n + length rounds) (polls k listings rounds s)
  unfolding polls
  polls-HasFailed k listings [] id n s failing h = λ t found. ground (arith, h t found)
  polls-HasFailed k listings (round ∷ rounds) id n s failing h =
      let rest =
        polls-HasFailed k listings rounds id (suc n)
          (poll k listings round.now round.tick round.reply s).0 failing.1
          (poll-HasFailed k listings round id n s failing.0 h) in
      λ t found. ground (arith, rest t found)

  -- After as many polls as `stale_limit`, an order whose every refresh failed with another error
  -- than a rate limit is no longer tracked. The clock readings and the answers about other
  -- orders are arbitrary, so the circuit may open, cool down and be probed in between.
  pub polls-drop_lost :
      (k : BrokerConfig W) (listings : Listings) (rounds : List (Round W)) (id : String)
      (s : BrokerState W)
      → All (λ round. IsFailing id round.reply) rounds
      → length rounds ≡ k.stale_limit
      → HasFailed k id 0 s
      → lookup id (polls k listings rounds s).tracked ≡ none
  polls-drop_lost k listings rounds id s failing enough h =
      let failures = polls-HasFailed k listings rounds id 0 s failing h in
      elim (Option-cases (lookup id (polls k listings rounds s).tracked)) [
        | inl gone ↦ gone
        | inr (t, found) ↦ ground (arith, failures t found)
      ]
