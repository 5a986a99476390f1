-- ===== src/Guard/Idempotency.antt =====
-- `MemoryIdempotencyGuard` of ntrade/execution/_guard.py. The lock makes each method one step; a
-- method returns the new object. Keys are any hashable values, so any type with an equality test.
pub mod Invariant
pub mod Retention
use n_trade.Prelude.{ℕ, List, [], ◌∷◌, ◌++◌, Option, none, some, Eq, length, ltb, if◌then◌else◌}
use n_trade.Prelude.Dict.{elem, Dict, lookup, insert, erase, contains, add_elem, discard}

pub record IdempotencyGuard (K R : Type 0) : Type 0 where
  pub reserved : List K
  pub completed : Dict K R
  pub insertion_order : List K
  pub max_entries : ℕ

-- What `check_and_reserve` does: it returns `IdempotencyDuplicate`, raises, or returns `None`.
pub data Reply (R : Type 0) : Type 0 where
  duplicate : R → Reply R
  already_reserved : Reply R
  fresh : Reply R

-- `__init__`
unfoldable pub new_guard : {K R : Type 0} → ℕ → IdempotencyGuard K R
new_guard max_entries = record {
  reserved = [];
  completed = [];
  insertion_order = [];
  max_entries = max_entries;
}

module _ {K R : Type 0} ⦃e : Eq K⦄ where
  unfoldable pub check_and_reserve : K → IdempotencyGuard K R → Reply R × IdempotencyGuard K R
  check_and_reserve key g = elim (lookup key g.completed) [
    | some result ↦ (duplicate result, g)
    | none ↦
        if elem key g.reserved
        then (already_reserved, g)
        else (fresh, record g { reserved = add_elem key g.reserved })
  ]

  -- The `while` loop of `_evict_if_over_cap`, which drops the oldest key each round.
  unfoldable pub evict : ℕ → List K → Dict K R → List K × Dict K R
  evict max_entries [] completed = ([], completed)
  evict max_entries (oldest ∷ order) completed =
      if ltb max_entries (length (oldest ∷ order))
      then evict max_entries order (erase oldest completed)
      else (oldest ∷ order, completed)

  unfoldable pub evict_if_over_cap : IdempotencyGuard K R → IdempotencyGuard K R
  evict_if_over_cap g =
      let (order, completed) = evict g.max_entries g.insertion_order g.completed in
      record g { insertion_order = order; completed = completed }

  unfoldable pub record_result : K → R → IdempotencyGuard K R → IdempotencyGuard K R
  record_result key result g =
      let stored = if contains key g.completed then g else record g {
        completed = insert key result g.completed;
        insertion_order = g.insertion_order ++ key ∷ [];
      } in
      evict_if_over_cap (record stored { reserved = discard key stored.reserved })

  unfoldable pub release : K → IdempotencyGuard K R → IdempotencyGuard K R
  release key g = record g { reserved = discard key g.reserved }
