-- ===== src/Guard/Idempotency/Retention.antt =====
-- At most one submission: what a second check of the same key answers, and how long the guard
-- remembers a recorded result.
use n_trade.Prelude.{
  ℕ, suc, ◌≤◌, ◌<◌, ◌+◌, ◌≡◌, refl, sym, ◌∙◌, List, [], ◌∷◌, ◌++◌, Option, none, some, Eq, ◌=?◌,
  =?_iff, =?_refl, false, length, length-append, ltb, if◌then◌else◌, Bool-cases, inl, inr, arith,
}
use n_trade.Prelude.Dict.{
  Dict, lookup, insert, erase, contains, elem, add_elem, discard, lookup-insert, lookup-erase,
  lookup-insert_self, elem-add_elem, elem-discard,
}
use n_trade.Guard.Idempotency.{
  IdempotencyGuard, duplicate, already_reserved, fresh, check_and_reserve, evict, evict_if_over_cap,
  record_result, release,
}
use n_trade.Guard.Idempotency.Invariant.{Inv, check_and_reserve-Inv, record_result-Inv, release-Inv}

module _ {K R : Type 0} ⦃e : Eq K⦄ where
  -- A key that was reserved and neither recorded nor released raises on a second check, which
  -- changes nothing.
  pub reserve_twice :
      (k : K) (g : IdempotencyGuard K R)
      → (check_and_reserve k g).0 ≡ fresh
      → check_and_reserve k (check_and_reserve k g).1
        ≡ (already_reserved, (check_and_reserve k g).1)
  unfolding check_and_reserve
  reserve_twice k g h = ground (arith, elem-add_elem k k g.reserved, =?_refl k)

  -- A reservation that is released can be taken again.
  pub release_frees :
      (k : K) (g : IdempotencyGuard K R)
      → (check_and_reserve k g).0 ≡ fresh
      → (check_and_reserve k (release k (check_and_reserve k g).1)).0 ≡ fresh
  unfolding check_and_reserve release
  release_frees k g h = ground (arith, elem-discard k k (add_elem k g.reserved), =?_refl k)

module _ {K : Type 0} ⦃e : Eq K⦄ where
  -- The number of keys listed behind `k`.
  abbrev pub behind : K → List K → Option ℕ
  behind k [] = none
  behind k (x ∷ xs) = if x =? k then some (length xs) else behind k xs

  behind-snoc :
      (k j : K) (xs : List K) (n : ℕ)
      → behind k xs ≡ some n
      → behind k (xs ++ j ∷ []) ≡ some (suc n)
  behind-snoc k j [] n h = cc
  behind-snoc k j (x ∷ xs) n h = ground (arith, behind-snoc k j xs n, length-append xs (j ∷ []))

  behind-snoc_self : (k : K) (xs : List K) → elem k xs ≡ false → behind k (xs ++ k ∷ []) ≡ some 0
  unfolding elem
  behind-snoc_self k [] h = ground (arith, =?_refl k)
  behind-snoc_self k (x ∷ xs) h = ground (arith, behind-snoc_self k xs)

  behind-le : (k : K) (xs : List K) (n : ℕ) → behind k xs ≡ some n → n < length xs
  behind-le k [] n h = cc
  behind-le k (x ∷ xs) n h = ground (arith, behind-le k xs n)

-- `k` has the result `r`, with at most `bound` newer keys.
record Remembers {K R : Type 0} ⦃e : Eq K⦄ (k : K) (r : R) (bound : ℕ) (g : IdempotencyGuard K R)
    : Type 0 where
  newer : ℕ
  position : behind k g.insertion_order ≡ some newer
  near : newer ≤ bound
  result : lookup k g.completed ≡ some r

-- The calls that the submitting code makes.
pub data Call (K R : Type 0) : Type 0 where
  checks : K → Call K R
  records : K → R → Call K R
  releases : K → Call K R

-- The number of results that the calls record.
abbrev pub recorded : {K R : Type 0} → List (Call K R) → ℕ
recorded [] = 0
recorded (checks k ∷ cs) = recorded cs
recorded (records k r ∷ cs) = suc (recorded cs)
recorded (releases k ∷ cs) = recorded cs

module _ {K R : Type 0} ⦃e : Eq K⦄ where
  abbrev pub call : Call K R → IdempotencyGuard K R → IdempotencyGuard K R
  call (checks k) g = (check_and_reserve k g).1
  call (records k r) g = record_result k r g
  call (releases k) g = release k g

  unfoldable pub run : List (Call K R) → IdempotencyGuard K R → IdempotencyGuard K R
  run [] g = g
  run (c ∷ cs) g = run cs (call c g)

  -- Eviction keeps what lies among the last `m` keys.
  evict-keeps :
      (m n : ℕ) (k : K) (order : List K) (d : Dict K R)
      → behind k order ≡ some n
      → n < m
      → let (order', d') = evict m order d in
        (behind k order' ≡ some n) × (lookup k d' ≡ lookup k d)
  unfolding evict
  evict-keeps m n k [] d h lt = absurd (cc)
  evict-keeps m n k (x ∷ order) d h lt = elim (Bool-cases (ltb m (length (x ∷ order)))) [
    | inl over ↦ rw over (ground (arith, evict-keeps m n k order (erase x d), lookup-erase x k d))
    | inr fits ↦ rw fits (h, refl)
  ]

  evict-Remembers :
      (k : K) (r : R) (b : ℕ) (g : IdempotencyGuard K R)
      → Remembers k r b g
      → b < g.max_entries
      → Remembers k r b (evict_if_over_cap g)
  unfolding evict_if_over_cap
  evict-Remembers k r b g v lt =
      let kept =
        evict-keeps g.max_entries v.newer k g.insertion_order g.completed v.position
          (ground (arith, v.near)) in
      record { newer = v.newer; position = kept.0; near = v.near; result = kept.1 ∙ v.result }

  record_result-Remembers :
      (k j : K) (r s : R) (b : ℕ) (g : IdempotencyGuard K R)
      → Remembers k r b g
      → suc b < g.max_entries
      → Remembers k r (suc b) (record_result j s g)
  unfolding record_result
  record_result-Remembers k j r s b g v lt = elim (Bool-cases (contains j g.completed)) [
    | inl old ↦ rw old (
        evict-Remembers k r (suc b) (record g { reserved = discard j g.reserved })
          (record {
            newer = v.newer;
            position = v.position;
            near = ground (arith, v.near);
            result = v.result;
          })
          lt)
    | inr new ↦ rw new (
        evict-Remembers k r (suc b)
          (record g {
            completed = insert j s g.completed;
            insertion_order = g.insertion_order ++ j ∷ [];
            reserved = discard j g.reserved;
          })
          (record {
            newer = suc v.newer;
            position = behind-snoc k j g.insertion_order v.newer v.position;
            near = ground (arith, v.near);
            result = ground (arith, v.result, lookup-insert j k s g.completed, =?_iff j k);
          })
          lt)
  ]

  evict-max_entries : (g : IdempotencyGuard K R) → (evict_if_over_cap g).max_entries ≡ g.max_entries
  unfolding evict_if_over_cap
  evict-max_entries g = refl

  call-max_entries :
      (c : Call K R) (g : IdempotencyGuard K R) → (call c g).max_entries ≡ g.max_entries
  unfolding check_and_reserve record_result release evict_if_over_cap
  call-max_entries (checks k) g = ground arith
  call-max_entries (records k r) g = ground arith
  call-max_entries (releases k) g = refl

  check_and_reserve-Remembers :
      (k j : K) (r : R) (b : ℕ) (g : IdempotencyGuard K R)
      → Remembers k r b g
      → Remembers k r b (check_and_reserve j g).1
  unfolding check_and_reserve
  check_and_reserve-Remembers k j r b g v = record {
    newer = v.newer;
    position = ground (arith, v.position);
    near = v.near;
    result = ground (arith, v.result);
  }

  run-Remembers :
      (k : K) (r : R) (cs : List (Call K R)) (b : ℕ) (g : IdempotencyGuard K R)
      → Remembers k r b g
      → b + recorded cs < g.max_entries
      → Remembers k r (b + recorded cs) (run cs g)
  unfolding run release
  run-Remembers k r [] b g v lt = record {
    newer = v.newer;
    position = v.position;
    near = ground (arith, v.near);
    result = v.result;
  }
  run-Remembers k r (checks j ∷ cs) b g v lt =
      run-Remembers k r cs b (call (checks j) g) (check_and_reserve-Remembers k j r b g v)
        (ground (arith, call-max_entries (checks j) g))
  run-Remembers k r (records j s ∷ cs) b g v lt =
      let e' : suc b + recorded cs ≡ b + recorded (records j s ∷ cs) = omega arith in
      rw (← e') (
        run-Remembers k r cs (suc b) (call (records j s) g)
          (record_result-Remembers k j r s b g v (ground arith))
          (ground (arith, call-max_entries (records j s) g)))
  run-Remembers k r (releases j ∷ cs) b g v lt =
      run-Remembers k r cs b (call (releases j) g)
        (record { newer = v.newer; position = v.position; near = v.near; result = v.result }) lt

  record_result-Remembers_self :
      (k : K) (r : R) (g : IdempotencyGuard K R)
      → Inv g
      → lookup k g.completed ≡ none
      → 0 < g.max_entries
      → Remembers k r 0 (record_result k r g)
  unfolding record_result
  record_result-Remembers_self k r g v new lt =
      let absent : contains k g.completed ≡ false = ground arith in
      rw absent (
        evict-Remembers k r 0
          (record g {
            completed = insert k r g.completed;
            insertion_order = g.insertion_order ++ k ∷ [];
            reserved = discard k g.reserved;
          })
          (record {
            newer = 0;
            position = behind-snoc_self k g.insertion_order (sym (v.listed k) ∙ absent);
            near = omega arith;
            result = lookup-insert_self k r g.completed;
          })
          lt)

  -- A result recorded for a new key is answered to every later check of that key, whatever calls
  -- stand between, as long as fewer than `max_entries` results were recorded since, itself
  -- included; the check changes nothing, so no second submission can be reserved.
  pub record_result-is_remembered :
      (k : K) (r : R) (cs : List (Call K R)) (g : IdempotencyGuard K R)
      → Inv g
      → lookup k g.completed ≡ none
      → recorded cs < g.max_entries
      → let g' = run cs (record_result k r g) in check_and_reserve k g' ≡ (duplicate r, g')
  unfolding check_and_reserve
  record_result-is_remembered k r cs g v new lt =
      let start = record_result-Remembers_self k r g v new (omega arith) in
      let after =
        run-Remembers k r cs 0 (record_result k r g) start
          (ground (arith, call-max_entries (records k r) g)) in
      rw (after.result, check_and_reserve) refl

  -- The guard never holds more than `max_entries` results, nor lists a key twice or as reserved
  -- and completed at once, after any calls on a guard of which this holds.
  pub run-Inv : (cs : List (Call K R)) (g : IdempotencyGuard K R) → Inv g → Inv (run cs g)
  unfolding run
  run-Inv [] g v = v
  run-Inv (checks k ∷ cs) g v = run-Inv cs (call (checks k) g) (check_and_reserve-Inv k g v)
  run-Inv (records k r ∷ cs) g v = run-Inv cs (call (records k r) g) (record_result-Inv k r g v)
  run-Inv (releases k ∷ cs) g v = run-Inv cs (call (releases k) g) (release-Inv k g v)
