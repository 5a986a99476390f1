-- ===== src/Positions/Synced.antt =====
-- After `sync` (ntrade/engines/position_sync.py) the portfolio holds what the broker reports.
use n_trade.Prelude.{
  ℕ, ◌≡◌, ◌≢◌, refl, false, ◌||◌, String, Option, none, some, List, [], ◌∷◌, ◌=?◌, string_eq,
  =?_iff, =?_refl, if◌then◌else◌, arith, Bool-cases, Option-cases, inl, inr, map,
}
use n_trade.Prelude.Dict.{Dict, lookup, insert, contains, elem, lookup-insert, Distinct}
use n_trade.Prelude.Int.{ℤ}
use n_trade.Prelude.Float.{Float}
use n_trade.Domain.{Position}
use n_trade.Portfolio.{position, assign, Book}
use n_trade.Portfolio.Lookup.{position-snoc, position-snoc_ne}
use n_trade.Risk.{RiskState}
use n_trade.Positions.{
  by_symbol, take_figures, drop_unreported, empty_position, upsert, upsert_all, sync,
}

module _ {W : Type 0} where
  -- What the broker reports of a position.
  abbrev pub figures : Option (Position W) → Option (ℤ × W × W)
  figures none = none
  figures (some p) = some (p.quantity, p.avg_price, p.ltp)

  -- The last report of a symbol.
  abbrev pub last_report : String → List (Position W) → Option (Position W) → Option (Position W)
  last_report s [] found = found
  last_report s (p ∷ ps) found = last_report s ps (if p.symbol =? s then some p else found)

  by_symbol-last_report :
      (s : String) (ps : List (Position W)) (d : Dict String (Position W))
      → lookup s (by_symbol ps d) ≡ last_report s ps (lookup s d)
  unfolding by_symbol
  by_symbol-last_report s [] d = refl
  by_symbol-last_report s (p ∷ ps) d =
      rw (by_symbol-last_report s ps (insert p.symbol p d), lookup-insert p.symbol s p d) refl

  drop_unreported-position :
      (s : String) (d : Dict String (Position W)) (ps : List (Position W))
      → position s (drop_unreported d ps) ≡ (if contains s d then position s ps else none)
  unfolding drop_unreported position
  drop_unreported-position s d [] = ground arith
  drop_unreported-position s d (p ∷ ps) =
      ground (arith, drop_unreported-position s d ps, =?_iff p.symbol s)

  assign-figures :
      (s t : String) (bp : Position W) (ps : List (Position W)) (p : Position W)
      → position t ps ≡ some p
      → figures (position s (assign t (take_figures bp) ps))
        ≡ (if t =? s then figures (some bp) else figures (position s ps))
  unfolding assign position
  assign-figures s t bp [] p found = absurd (cc)
  assign-figures s t bp (q ∷ ps) p found =
      ground (arith, =?_iff q.symbol t, =?_iff t s, =?_iff q.symbol s, assign-figures s t bp ps p)

  -- No two entries of the dictionary have one key.
  abbrev pub Unique : Dict String (Position W) → Type 0
  Unique d = Distinct (map (λ entry. entry.0) d)

  keys-insert :
      (k s : String) (v : Position W) (d : Dict String (Position W))
      → elem s (map (λ entry. entry.0) (insert k v d))
        ≡ ((k =? s) || elem s (map (λ entry. entry.0) d))
  unfolding insert elem
  keys-insert k s v [] = ground arith
  keys-insert k s v ((j, w) ∷ d) =
      ground (arith, =?_iff j k, =?_iff k s, =?_iff j s, keys-insert k s v d)

  insert-Unique :
      (k : String) (v : Position W) (d : Dict String (Position W))
      → Unique d
      → Unique (insert k v d)
  unfolding insert elem
  insert-Unique k v [] u = (refl, tt)
  insert-Unique k v ((j, w) ∷ d) u = elim (Bool-cases (j =? k)) [
    | inl same ↦ rw same u
    | inr other ↦
        rw other (
          ground (arith, keys-insert k j v d, =?_iff j k, =?_iff k j, u.0),
          insert-Unique k v d u.1,
        )
  ]

  by_symbol-Unique :
      (ps : List (Position W)) (d : Dict String (Position W)) → Unique d → Unique (by_symbol ps d)
  unfolding by_symbol
  by_symbol-Unique [] d u = u
  by_symbol-Unique (p ∷ ps) d u =
      by_symbol-Unique ps (insert p.symbol p d) (insert-Unique p.symbol p d u)

  elem-lookup :
      (s : String) (d : Dict String (Position W))
      → elem s (map (λ entry. entry.0) d) ≡ false
      → lookup s d ≡ none
  unfolding elem lookup
  elem-lookup s [] h = refl
  elem-lookup s ((j, w) ∷ d) h = ground (arith, elem-lookup s d)

module _ {W : Type 0} ⦃fl : Float W⦄ where
  upsert-figures :
      (now : ℕ) (s t : String) (bp : Position W) (ps : List (Position W))
      → figures (position s (upsert now t bp ps).0)
        ≡ (if t =? s then figures (some bp) else figures (position s ps))
  unfolding upsert empty_position
  upsert-figures now s t bp ps = elim (Option-cases (position t ps)) [
    | inr (p, found) ↦ rw (upsert, found) (assign-figures s t bp ps p found)
    | inl missing ↦ elim (Bool-cases (t =? s)) [
      | inl same ↦
          rw (upsert, missing)
            (rw (← (=?_iff t s).0 same) (
              rw
                (
                  position-snoc t ps (take_figures bp (empty_position t bp)) missing,
                  empty_position,
                  =?_refl t,
                )
                refl))
      | inr other ↦
          let ne : t ≢ s = λ same. ground (arith, (=?_iff t s).1 same) in
          rw (upsert, missing)
            (rw (position-snoc_ne s ps (take_figures bp (empty_position t bp)) ne, other) refl)
    ]
  ]

  upsert_all-figures :
      (now : ℕ) (s : String) (d : Dict String (Position W)) (ps : List (Position W))
      → Unique d
      → figures (position s (upsert_all now d ps).0)
        ≡ (if contains s d then figures (lookup s d) else figures (position s ps))
  unfolding upsert_all lookup
  upsert_all-figures now s [] ps u = ground arith
  upsert_all-figures now s ((t, bp) ∷ d) ps u =
      let next = (upsert now t bp ps).0 in
      ground (
        arith,
        upsert_all-figures now s d next u.1,
        upsert-figures now s t bp ps,
        elem-lookup t d u.0,
        =?_iff t s,
      )

  -- After a synchronisation with a report, each symbol is held with the quantity, the average price
  -- and the last price of its last report, and not at all if the broker does not report it,
  -- whatever was held before.
  pub sync-figures :
      (now : ℕ) (reported : List (Position W)) (balance : Option W) (book : Book W)
      (risk : Option (RiskState W)) (s : String)
      → figures (position s (sync now (some reported) balance book risk).0.positions)
        ≡ figures (last_report s reported none)
  unfolding sync lookup
  sync-figures now reported balance book risk s =
      let d = by_symbol reported [] in
      let ps = (upsert_all now d book.positions).0 in
      let all = upsert_all-figures now s d book.positions (by_symbol-Unique reported [] tt) in
      let known : lookup s d ≡ last_report s reported none = by_symbol-last_report s reported [] in
      rw (drop_unreported-position s d ps, ← known)
        (elim (Option-cases (lookup s d)) [
          | inl missing ↦ rw (contains, missing) refl
          | inr (p, found) ↦ ground (arith, all, found)
        ])
