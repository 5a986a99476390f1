-- ===== src/EventStore/Queries.antt =====
-- The queries of ntrade/storage/event_store.py on the recorded events: `events`, `market_events`,
-- `recovery_events` and `replay`.
pub mod Order
use n_trade.Prelude.{
  ℕ, suc, ◌+◌, Bool, true, false, not, ◌&&◌, ◌||◌, String, Option, none, some, List, [], ◌∷◌, map,
  ◌=?◌, if◌then◌else◌, ltb, leb, ◌==◌, keep, string_eq,
}
use n_trade.Prelude.Sort.{sort_by}

-- The classes of events that the queries tell apart.
pub data Class : Type 0 where
  tick quote depth fill other : Class

-- A recorded event; `P` is the rest of it.
pub record Stored (P : Type 0) : Type 0 where
  pub class : Class
  pub ts : ℕ
  pub symbol : Option String
  pub body : P

-- `isinstance(e, (TickEvent, QuoteEvent, DepthEvent))`
abbrev pub is_market : Class → Bool
is_market tick = true
is_market quote = true
is_market depth = true
is_market _ = false

abbrev pub is_fill : Class → Bool
is_fill fill = true
is_fill _ = false

abbrev pub enumerate : {A : Type 0} → ℕ → List A → List (ℕ × A)
enumerate i [] = []
enumerate i (x ∷ xs) = (i, x) ∷ enumerate (suc i) xs

abbrev pub is_symbol : Option String → Option String → Bool
is_symbol none held = true
is_symbol (some s) none = false
is_symbol (some s) (some t) = t =? s

module _ {P : Type 0} where
  abbrev pub is_wanted : Option (Stored P → Bool) → Stored P → Bool
  is_wanted none e = true
  is_wanted (some is_instance) e = is_instance e

  -- `events(event_type, symbol)`; a type is its `isinstance` test.
  unfoldable pub events :
      Option (Stored P → Bool) → Option String → List (Stored P) → List (Stored P)
  events event_type symbol es =
      keep (λ (e : Stored P). is_wanted event_type e && is_symbol symbol e.symbol) es

  unfoldable pub market_events : List (Stored P) → List (Stored P)
  market_events es = keep (λ (e : Stored P). is_market e.class) es

  abbrev pub is_recoverable : Stored P → Bool
  is_recoverable e = is_market e.class || is_fill e.class

  abbrev pub rank : Stored P → ℕ
  rank e = if is_market e.class then 0 else 1

  -- The comparison of two keys `(e.ts, rank, i)`, as Python compares tuples.
  abbrev pub no_later : ℕ × Stored P → ℕ × Stored P → Bool
  no_later (i, a) (j, b) =
      ltb a.ts b.ts
      || ((a.ts == b.ts) && (ltb (rank a) (rank b) || ((rank a == rank b) && leb i j)))

  unfoldable pub recovery_events : List (Stored P) → List (Stored P)
  recovery_events es =
      map (λ (p : ℕ × Stored P). p.1)
        (sort_by no_later (keep (λ (p : ℕ × Stored P). is_recoverable p.1) (enumerate 0 es)))

  unfoldable pub replay : List (Stored P) → List (Stored P)
  replay es = sort_by (λ (a b : Stored P). leb a.ts b.ts) es
