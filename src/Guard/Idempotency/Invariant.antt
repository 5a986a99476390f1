-- ===== src/Guard/Idempotency/Invariant.antt =====
-- The invariant of `MemoryIdempotencyGuard`, kept by each of its methods, and what a check answers.
use n_trade.Prelude.{
  ℕ, ◌≤◌, ◌≡◌, refl, sym, ◌∙◌, List, [], ◌∷◌, ◌++◌, Eq, =?_iff, true, false, length, ltb,
  Bool-cases, Option-cases, inl, inr, arith,
}
use n_trade.Prelude.Dict.{
  Dict, lookup, insert, erase, contains, elem, discard, lookup-insert, lookup-erase, elem-add_elem,
  elem-discard, elem-snoc, Distinct, Distinct-snoc,
}
use n_trade.Guard.Idempotency.{
  IdempotencyGuard, new_guard, check_and_reserve, evict, evict_if_over_cap, record_result, release,
}

-- The insertion order lists exactly the completed keys.
abbrev pub Listed : {K R : Type 0} ⦃e : Eq K⦄ → List K → Dict K R → Type 0
Listed {K = K} order completed = (k : K) → contains k completed ≡ elem k order

pub record Inv {K R : Type 0} ⦃e : Eq K⦄ (g : IdempotencyGuard K R) : Type 0 where
  pub listed : Listed g.insertion_order g.completed
  pub distinct : Distinct g.insertion_order
  pub capped : length g.insertion_order ≤ g.max_entries
  pub disjoint : (k : K) → elem k g.reserved ≡ true → contains k g.completed ≡ false

module _ {K R : Type 0} ⦃e : Eq K⦄ where
  Listed-erase :
      (x : K) (order : List K) (d : Dict K R)
      → Listed (x ∷ order) d
      → elem x order ≡ false
      → Listed order (erase x d)
  unfolding elem
  Listed-erase x order d h new k = ground (arith, h k, lookup-erase x k d, =?_iff x k)

  evict-Listed :
      (m : ℕ) (order : List K) (d : Dict K R)
      → Listed order d
      → Distinct order
      → let (order', d') = evict m order d in
        Listed order' d' × Distinct order' × (length order' ≤ m)
  unfolding evict
  evict-Listed m [] d h u = (h, tt, omega arith)
  evict-Listed m (x ∷ order) d h u = elim (Bool-cases (ltb m (length (x ∷ order)))) [
    | inl over ↦ rw over (evict-Listed m order (erase x d) (Listed-erase x order d h u.0) u.1)
    | inr fits ↦ rw fits (h, u, ground arith)
  ]

  -- Eviction only forgets keys.
  pub evict-contains :
      (m : ℕ) (order : List K) (d : Dict K R) (k : K)
      → contains k d ≡ false
      → contains k (evict m order d).1 ≡ false
  unfolding evict
  evict-contains m [] d k h = h
  evict-contains m (x ∷ order) d k h = elim (Bool-cases (ltb m (length (x ∷ order)))) [
    | inl over ↦ rw over (evict-contains m order (erase x d) k (ground (arith, lookup-erase x k d)))
    | inr fits ↦ rw fits h
  ]

  evict_if_over_cap-Inv :
      (g : IdempotencyGuard K R)
      → Listed g.insertion_order g.completed
      → Distinct g.insertion_order
      → ((k : K) → elem k g.reserved ≡ true → contains k g.completed ≡ false)
      → Inv (evict_if_over_cap g)
  unfolding evict_if_over_cap
  evict_if_over_cap-Inv g l d x =
      let kept = evict-Listed g.max_entries g.insertion_order g.completed l d in
      record {
        listed = kept.0;
        distinct = kept.1;
        capped = kept.2;
        disjoint = λ k r. evict-contains g.max_entries g.insertion_order g.completed k (x k r);
      }

  pub new_guard-Inv : (m : ℕ) → Inv (new_guard {K = K} {R = R} m)
  unfolding new_guard elem lookup
  new_guard-Inv m = record {
    listed = λ k. refl;
    distinct = tt;
    capped = omega arith;
    disjoint = λ k r. cc;
  }

  pub check_and_reserve-Inv :
      (k : K) (g : IdempotencyGuard K R) → Inv g → Inv (check_and_reserve k g).1
  unfolding check_and_reserve
  check_and_reserve-Inv k g v = elim (Option-cases (lookup k g.completed)) [
    | inr (r, e) ↦ rw (e, check_and_reserve) v
    | inl e ↦ elim (Bool-cases (elem k g.reserved)) [
      | inl held ↦ rw (e, check_and_reserve, held) v
      | inr free ↦
          rw (e, check_and_reserve, free)
            (record {
              listed = v.listed;
              distinct = v.distinct;
              capped = v.capped;
              disjoint =
                  λ j r. ground (arith, v.disjoint j, elem-add_elem k j g.reserved, =?_iff k j);
            })
    ]
  ]

  pub record_result-Inv :
      (k : K) (r : R) (g : IdempotencyGuard K R) → Inv g → Inv (record_result k r g)
  unfolding record_result
  record_result-Inv k r g v = elim (Bool-cases (contains k g.completed)) [
    | inl old ↦ rw old (
        evict_if_over_cap-Inv (record g { reserved = discard k g.reserved }) v.listed v.distinct
          (λ j h. v.disjoint j (ground (arith, elem-discard k j g.reserved))))
    | inr new ↦ rw new (
        evict_if_over_cap-Inv
          (record g {
            completed = insert k r g.completed;
            insertion_order = g.insertion_order ++ k ∷ [];
            reserved = discard k g.reserved;
          })
          (λ j.
            ground
              (arith, v.listed j, lookup-insert k j r g.completed, elem-snoc g.insertion_order k j))
          (Distinct-snoc g.insertion_order k v.distinct (sym (v.listed k) ∙ new))
          (λ j h.
            ground
              (arith, v.disjoint j, elem-discard k j g.reserved, lookup-insert k j r g.completed)))
  ]

  pub release-Inv : (k : K) (g : IdempotencyGuard K R) → Inv g → Inv (release k g)
  unfolding release
  release-Inv k g v = record {
    listed = v.listed;
    distinct = v.distinct;
    capped = v.capped;
    disjoint = λ j h. v.disjoint j (ground (arith, elem-discard k j g.reserved));
  }
