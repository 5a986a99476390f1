-- ===== src/Portfolio/Lookup.antt =====
-- What a lookup finds after a position is appended, assigned to or removed.
use n_trade.Prelude.{
  ◌≡◌, ◌≢◌, refl, sym, String, none, some, List, [], ◌∷◌, ◌++◌, ◌=?◌, string_eq, if◌then◌else◌,
  arith, Bool-cases, inl, inr, eq_iff, All, All-append,
}
use n_trade.Prelude.Int.{ℤ}
use n_trade.Domain.{Position}
use n_trade.Portfolio.{position, assign, remove, quantity_or_zero}

module _ {W : Type 0} where
  -- The portfolio has no position of the symbol.
  abbrev pub Lacks : String → List (Position W) → Type 0
  Lacks s ps = All (λ (p : Position W). p.symbol ≢ s) ps

  -- No two positions are of one symbol.
  abbrev pub Distinct : List (Position W) → Type 0
  Distinct [] = Unit
  Distinct (p ∷ ps) = Lacks p.symbol ps × Distinct ps

  -- The quantity held of a symbol.
  abbrev pub held : String → List (Position W) → ℤ
  held s ps = quantity_or_zero (position s ps)

  pub position-symbol :
      (s : String) (ps : List (Position W)) (p : Position W) → position s ps ≡ some p → p.symbol ≡ s
  unfolding position
  position-symbol s [] p h = absurd (cc)
  position-symbol s (q ∷ ps) p h = ground (arith, eq_iff q.symbol s, position-symbol s ps p)

  pub position-snoc :
      (s : String) (ps : List (Position W)) (q : Position W)
      → position s ps ≡ none
      → position s (ps ++ q ∷ []) ≡ (if q.symbol =? s then some q else none)
  unfolding position
  position-snoc s [] q h = refl
  position-snoc s (p ∷ ps) q h = ground (arith, position-snoc s ps q)

  pub position-snoc_ne :
      (s : String) (ps : List (Position W)) (q : Position W)
      → q.symbol ≢ s
      → position s (ps ++ q ∷ []) ≡ position s ps
  unfolding position
  position-snoc_ne s [] q h = ground (arith, eq_iff q.symbol s)
  position-snoc_ne s (p ∷ ps) q h = ground (arith, position-snoc_ne s ps q h)

  pub position-assign_self :
      (s : String) (f : Position W → Position W) (ps : List (Position W)) (p : Position W)
      → ((q : Position W) → (f q).symbol ≡ q.symbol)
      → position s ps ≡ some p
      → position s (assign s f ps) ≡ some (f p)
  unfolding position assign
  position-assign_self s f [] p k h = absurd (cc)
  position-assign_self s f (q ∷ ps) p k h = ground (arith, k q, position-assign_self s f ps p k)

  pub position-assign_ne :
      (s t : String) (f : Position W → Position W) (ps : List (Position W))
      → ((q : Position W) → (f q).symbol ≡ q.symbol)
      → s ≢ t
      → position s (assign t f ps) ≡ position s ps
  unfolding position assign
  position-assign_ne s t f [] k h = refl
  position-assign_ne s t f (q ∷ ps) k h =
      ground (arith, k q, eq_iff q.symbol s, eq_iff q.symbol t, position-assign_ne s t f ps k h)

  pub position-Lacks : (s : String) (ps : List (Position W)) → Lacks s ps → position s ps ≡ none
  unfolding position
  position-Lacks s [] h = refl
  position-Lacks s (p ∷ ps) h = ground (arith, eq_iff p.symbol s, position-Lacks s ps h.1)

  pub Lacks-position : (s : String) (ps : List (Position W)) → position s ps ≡ none → Lacks s ps
  unfolding position
  Lacks-position s [] h = tt
  Lacks-position s (p ∷ ps) h =
      (ground (arith, eq_iff p.symbol s), Lacks-position s ps (ground arith))

  pub position-remove_self :
      (s : String) (ps : List (Position W)) → Distinct ps → position s (remove s ps) ≡ none
  unfolding position remove
  position-remove_self s [] d = refl
  position-remove_self s (p ∷ ps) d = elim (Bool-cases (p.symbol =? s)) [
    | inl same ↦
        let e : p.symbol ≡ s = (eq_iff p.symbol s).0 same in
        rw same (position-Lacks s ps (rw e at (d.0)))
    | inr differ ↦ rw (differ, differ) (position-remove_self s ps d.1)
  ]

  pub position-remove_ne :
      (s t : String) (ps : List (Position W)) → s ≢ t → position s (remove t ps) ≡ position s ps
  unfolding position remove
  position-remove_ne s t [] h = refl
  position-remove_ne s t (p ∷ ps) h =
      ground (arith, eq_iff p.symbol s, eq_iff p.symbol t, position-remove_ne s t ps h)

  Lacks-assign :
      (s t : String) (f : Position W → Position W) (ps : List (Position W))
      → ((q : Position W) → (f q).symbol ≡ q.symbol)
      → Lacks s ps
      → Lacks s (assign t f ps)
  unfolding assign
  Lacks-assign s t f [] k h = tt
  Lacks-assign s t f (p ∷ ps) k h = elim (Bool-cases (p.symbol =? t)) [
    | inl same ↦ rw same (rw (k p) h.0, h.1)
    | inr differ ↦ rw differ (h.0, Lacks-assign s t f ps k h.1)
  ]

  pub Distinct-assign :
      (t : String) (f : Position W → Position W) (ps : List (Position W))
      → ((q : Position W) → (f q).symbol ≡ q.symbol)
      → Distinct ps
      → Distinct (assign t f ps)
  unfolding assign
  Distinct-assign t f [] k d = tt
  Distinct-assign t f (p ∷ ps) k d = elim (Bool-cases (p.symbol =? t)) [
    | inl same ↦ rw same (rw (k p) d.0, d.1)
    | inr differ ↦ rw differ (Lacks-assign p.symbol t f ps k d.0, Distinct-assign t f ps k d.1)
  ]

  Lacks-remove : (s t : String) (ps : List (Position W)) → Lacks s ps → Lacks s (remove t ps)
  unfolding remove
  Lacks-remove s t [] h = tt
  Lacks-remove s t (p ∷ ps) h = elim (Bool-cases (p.symbol =? t)) [
    | inl same ↦ rw same h.1
    | inr differ ↦ rw differ (h.0, Lacks-remove s t ps h.1)
  ]

  pub Distinct-remove : (t : String) (ps : List (Position W)) → Distinct ps → Distinct (remove t ps)
  unfolding remove
  Distinct-remove t [] d = tt
  Distinct-remove t (p ∷ ps) d = elim (Bool-cases (p.symbol =? t)) [
    | inl same ↦ rw same d.1
    | inr differ ↦ rw differ (Lacks-remove p.symbol t ps d.0, Distinct-remove t ps d.1)
  ]

  pub Distinct-snoc :
      (ps : List (Position W)) (q : Position W)
      → Distinct ps
      → Lacks q.symbol ps
      → Distinct (ps ++ q ∷ [])
  Distinct-snoc [] q d h = (tt, tt)
  Distinct-snoc (p ∷ ps) q d h = (
    All-append (λ (r : Position W). r.symbol ≢ p.symbol) ps (q ∷ []) d.0 ((λ e. h.0 (sym e)), tt),
    Distinct-snoc ps q d.1 h.1,
  )
