-- ===== src/EventStore/Queries/Order.antt =====
-- The order in which `recovery_events` of ntrade/storage/event_store.py hands the events over.
use n_trade.Prelude.{
  ℕ, suc, ◌≡◌, ◌≤◌, refl, sym, ap, ◌∙◌, Bool, true, false, ◌&&◌, ◌||◌, inl, inr, List, [], ◌∷◌, map,
  if◌then◌else◌, ltb, leb, ◌==◌, keep, count, All, Bool-cases, arith,
}
use n_trade.Prelude.Sort.{
  sort_by, Ordered, count-sort_by, sort_by-Ordered, keep-sort_by, sort_by_of_Ordered,
}
use n_trade.EventStore.Queries.{Stored, is_recoverable, rank, no_later, enumerate, recovery_events}

-- Triples of numbers by their first difference.
abbrev lex : ℕ → ℕ → ℕ → ℕ → ℕ → ℕ → Bool
lex t r i u s j = ltb t u || ((t == u) && (ltb r s || ((r == s) && leb i j)))

lex_total : (t r i u s j : ℕ) → lex t r i u s j ≡ false → lex u s j t r i ≡ true
lex_total t r i u s j h = ground arith

lex_trans :
    (t r i u s j v q k : ℕ)
    → lex t r i u s j ≡ true
    → lex u s j v q k ≡ true
    → lex t r i v q k ≡ true
lex_trans t r i u s j v q k h g = ground arith

module _ {P : Type 0} where
  abbrev event : ℕ × Stored P → Stored P
  event p = p.1

  -- Cause before effect: an earlier time, and market data before fills at one time.
  abbrev pub precedes : Stored P → Stored P → Bool
  precedes a b = ltb a.ts b.ts || ((a.ts == b.ts) && leb (rank a) (rank b))

  -- The events of one time and one rank.
  abbrev pub stands_at : ℕ → ℕ → Stored P → Bool
  stands_at t r e = (e.ts == t) && (rank e == r)

  no_later_total : (x y : ℕ × Stored P) → no_later x y ≡ false → no_later y x ≡ true
  no_later_total (i, a) (j, b) h = lex_total a.ts (rank a) i b.ts (rank b) j h

  no_later_trans :
      (x y z : ℕ × Stored P) → no_later x y ≡ true → no_later y z ≡ true → no_later x z ≡ true
  no_later_trans (i, a) (j, b) (k, c) h g =
      lex_trans a.ts (rank a) i b.ts (rank b) j c.ts (rank c) k h g

  no_later-precedes : (x y : ℕ × Stored P) → no_later x y ≡ true → precedes x.1 y.1 ≡ true
  no_later-precedes (i, a) (j, b) h = ground arith

  keep-map :
      (q : Stored P → Bool) (ps : List (ℕ × Stored P))
      → keep q (map event ps) ≡ map event (keep (λ (p : ℕ × Stored P). q p.1) ps)
  keep-map q [] = refl
  keep-map q ((i, e) ∷ ps) = ground (arith, keep-map q ps)

  count-map :
      (q : Stored P → Bool) (ps : List (ℕ × Stored P))
      → count q (map event ps) ≡ count (λ (p : ℕ × Stored P). q p.1) ps
  count-map q [] = refl
  count-map q ((i, e) ∷ ps) = ground (arith, count-map q ps)

  keep-enumerate :
      (q : Stored P → Bool) (i : ℕ) (es : List (Stored P))
      → map event (keep (λ (p : ℕ × Stored P). q p.1) (enumerate i es)) ≡ keep q es
  keep-enumerate q i [] = refl
  keep-enumerate q i (e ∷ es) = ground (arith, keep-enumerate q (suc i) es)

  All-precedes :
      (p : ℕ × Stored P) (ps : List (ℕ × Stored P))
      → All (λ (q : ℕ × Stored P). no_later p q ≡ true) ps
      → All (λ (e : Stored P). precedes p.1 e ≡ true) (map event ps)
  All-precedes p [] a = tt
  All-precedes p (q ∷ ps) a = (no_later-precedes p q a.0, All-precedes p ps a.1)

  Ordered-map : (ps : List (ℕ × Stored P)) → Ordered no_later ps → Ordered precedes (map event ps)
  unfolding Ordered
  Ordered-map [] o = tt
  Ordered-map (p ∷ ps) o = (All-precedes p ps o.0, Ordered-map ps o.1)

  abbrev chosen : ℕ → ℕ → ℕ → List (Stored P) → List (ℕ × Stored P)
  chosen t r i es =
      keep (λ (p : ℕ × Stored P). stands_at t r p.1)
        (keep (λ (p : ℕ × Stored P). is_recoverable p.1) (enumerate i es))

  chosen-cons :
      (t r i : ℕ) (e : Stored P) (es : List (Stored P))
      → chosen t r i (e ∷ es) ≡ (
          if is_recoverable e && stands_at t r e
          then (i, e) ∷ chosen t r (suc i) es
          else chosen t r (suc i) es)
  chosen-cons t r i e es = ground arith

  chosen-after :
      (t r i j : ℕ) (a : Stored P) (es : List (Stored P))
      → stands_at t r a ≡ true
      → i ≤ j
      → All (λ (q : ℕ × Stored P). no_later (i, a) q ≡ true) (chosen t r j es)
  chosen-after t r i j a [] at le = tt
  chosen-after t r i j a (e ∷ es) at le = elim (Bool-cases (is_recoverable e && stands_at t r e)) [
    | inl here ↦
        rw (chosen-cons t r j e es, here)
          (ground arith, chosen-after t r i (suc j) a es at (omega arith))
    | inr gone ↦
        rw (chosen-cons t r j e es, gone) (chosen-after t r i (suc j) a es at (omega arith))
  ]

  -- Of one time and rank, the positions decide.
  chosen-Ordered : (t r i : ℕ) (es : List (Stored P)) → Ordered no_later (chosen t r i es)
  unfolding Ordered
  chosen-Ordered t r i [] = tt
  chosen-Ordered t r i (e ∷ es) = elim (Bool-cases (is_recoverable e && stands_at t r e)) [
    | inl here ↦
        rw (chosen-cons t r i e es, here)
          (
            chosen-after t r i (suc i) e es (ground arith) (omega arith),
            chosen-Ordered t r (suc i) es,
          )
    | inr gone ↦ rw (chosen-cons t r i e es, gone) (chosen-Ordered t r (suc i) es)
  ]

-- The events of a recovery are the recorded market events and fills, each as often as it was
-- recorded; earlier times come first, market data before fills at one time, and the events of one
-- time and rank in the order in which they were recorded.
pub recovery_events-order :
    {P : Type 0} (es : List (Stored P)) (p : Stored P → Bool) (t r : ℕ)
    → (count p (recovery_events es) ≡ count p (keep is_recoverable es))
      × Ordered precedes (recovery_events es)
      × (keep (stands_at t r) (recovery_events es) ≡ keep (stands_at t r) (keep is_recoverable es))
unfolding recovery_events
recovery_events-order {P} es p t r =
    let picked : List (ℕ × Stored P) =
      keep (λ (x : ℕ × Stored P). is_recoverable x.1) (enumerate 0 es) in
    let whole : map event picked ≡ keep is_recoverable es = keep-enumerate is_recoverable 0 es in
    (
      count-map p (sort_by no_later picked)
          ∙ count-sort_by no_later (λ (x : ℕ × Stored P). p x.1) picked
          ∙ sym (count-map p picked)
          ∙ ap (count p) whole,
      Ordered-map (sort_by no_later picked)
          (sort_by-Ordered no_later no_later_total no_later_trans picked),
      keep-map (stands_at t r) (sort_by no_later picked)
          ∙ ap (map event) (
              keep-sort_by no_later no_later_total no_later_trans
                (λ (x : ℕ × Stored P). stands_at t r x.1) picked
              ∙ sort_by_of_Ordered no_later no_later_total no_later_trans _
                  (chosen-Ordered t r 0 es))
          ∙ sym (keep-map (stands_at t r) picked)
          ∙ ap (keep (stands_at t r)) whole,
    )
