-- ===== src/Portfolio/Netting.antt =====
-- What fills do to the quantities of a portfolio.
use n_trade.Prelude.{
  ◌≡◌, ◌≢◌, refl, sym, ap, String, none, some, List, [], ◌∷◌, ◌++◌, ◌=?◌, string_eq, =?_refl,
  if◌then◌else◌, Option-cases, Bool-cases, inl, inr, eq_iff,
}
use n_trade.Prelude.Int.{ℤ, pos, pos_part, neg_part, ◌+ℤ◌, eqb_ℤ, eqb_ℤ_iff, int_laws}
use n_trade.Prelude.Float.{Float}
use n_trade.Domain.{Position, OrderFilledEvent}
use n_trade.Portfolio.Lookup.{
  Distinct, held, position-snoc, position-snoc_ne, position-assign_self, position-assign_ne,
  Lacks-position, position-remove_self, position-remove_ne, Distinct-assign, Distinct-remove,
  Distinct-snoc,
}
use n_trade.Portfolio.{
  position, assign, remove, signed, new_position, net, apply_fill, Book, on_filled, on_fills,
}

module _ {W : Type 0} ⦃fl : Float W⦄ where
  -- The three ways in which a fill changes the positions.
  pub data Fills (e : OrderFilledEvent W) (ps qs : List (Position W)) : Type 0 where
    opens : position e.symbol ps ≡ none → qs ≡ ps ++ new_position e ∷ [] → Fills e ps qs
    flattens :
        (p : Position W)
        → position e.symbol ps ≡ some p
        → p.quantity +ℤ signed e.side e.quantity ≡ pos 0
        → qs ≡ remove e.symbol ps
        → Fills e ps qs
    nets :
        (p : Position W)
        → position e.symbol ps ≡ some p
        → p.quantity +ℤ signed e.side e.quantity ≢ pos 0
        → qs ≡ assign e.symbol (net e) ps
        → Fills e ps qs

  pub apply_fill-Fills :
      (e : OrderFilledEvent W) (ps : List (Position W)) → Fills e ps (apply_fill e ps)
  unfolding apply_fill
  apply_fill-Fills e ps = elim (Option-cases (position e.symbol ps)) [
    | inl none_yet ↦ opens none_yet (rw (none_yet, apply_fill) refl)
    | inr (p, found) ↦
        let total = p.quantity +ℤ signed e.side e.quantity in
        elim (Bool-cases (eqb_ℤ total (pos 0))) [
          | inl flat ↦
              flattens p found ((eqb_ℤ_iff total (pos 0)).0 flat)
                (rw (found, apply_fill, flat) refl)
          | inr left ↦
              nets p found (λ z. cc ((eqb_ℤ_iff total (pos 0)).1 z))
                (rw (found, apply_fill, left) refl)
        ]
  ]

  net-symbol : (e : OrderFilledEvent W) (q : Position W) → (net e q).symbol ≡ q.symbol
  unfolding net
  net-symbol e q = refl

  Fills-Distinct :
      (e : OrderFilledEvent W) (ps qs : List (Position W))
      → Fills e ps qs
      → Distinct ps
      → Distinct qs
  unfolding new_position
  Fills-Distinct e ps qs (opens n eq) d =
      rw eq (Distinct-snoc ps (new_position e) d (Lacks-position e.symbol ps n))
  Fills-Distinct e ps qs (flattens p f z eq) d = rw eq (Distinct-remove e.symbol ps d)
  Fills-Distinct e ps qs (nets p f z eq) d =
      rw eq (Distinct-assign e.symbol (net e) ps (net-symbol e) d)

  Fills-held_self :
      (e : OrderFilledEvent W) (ps qs : List (Position W))
      → Fills e ps qs
      → Distinct ps
      → held e.symbol qs ≡ held e.symbol ps +ℤ signed e.side e.quantity
  unfolding new_position net
  Fills-held_self e ps qs (opens n eq) d =
      rw (eq, position-snoc e.symbol ps (new_position e) n, n, =?_refl e.symbol) (omega int_laws)
  Fills-held_self e ps qs (flattens p f z eq) d =
      rw (eq, position-remove_self e.symbol ps d, f, z) refl
  Fills-held_self e ps qs (nets p f z eq) d =
      rw (eq, position-assign_self e.symbol (net e) ps p (net-symbol e) f, f) refl

  Fills-position_ne :
      (s : String) (e : OrderFilledEvent W) (ps qs : List (Position W))
      → Fills e ps qs
      → s ≢ e.symbol
      → position s qs ≡ position s ps
  unfolding new_position
  Fills-position_ne s e ps qs (opens n eq) ne =
      rw eq (position-snoc_ne s ps (new_position e) (λ h. ne (sym h)))
  Fills-position_ne s e ps qs (flattens p f z eq) ne = rw eq (position-remove_ne s e.symbol ps ne)
  Fills-position_ne s e ps qs (nets p f z eq) ne =
      rw eq (position-assign_ne s e.symbol (net e) ps (net-symbol e) ne)

  -- What a fill adds to the quantity held of a symbol.
  abbrev pub traded : String → OrderFilledEvent W → ℤ
  traded s e = if e.symbol =? s then signed e.side e.quantity else pos 0

  -- A fill keeps the symbols distinct, moves the quantity held of its symbol by its signed quantity,
  -- and leaves every position of another symbol as it was.
  pub on_filled-nets :
      (s : String) (e : OrderFilledEvent W) (b : Book W)
      → Distinct b.positions
      → let b' = (on_filled e b).0 in
        Distinct b'.positions
        × (held s b'.positions ≡ held s b.positions +ℤ traded s e)
        × (s ≢ e.symbol → position s b'.positions ≡ position s b.positions)
  unfolding on_filled
  on_filled-nets s e b d =
      let f = apply_fill-Fills e b.positions in
      (
        Fills-Distinct e b.positions (apply_fill e b.positions) f d,
        elim (Bool-cases (e.symbol =? s)) [
          | inl same ↦
              let eq : e.symbol ≡ s = (eq_iff e.symbol s).0 same in
              rw (same, ← eq) (Fills-held_self e b.positions (apply_fill e b.positions) f d)
          | inr differ ↦
              let ne : s ≢ e.symbol = λ h. cc ((eq_iff e.symbol s).1 (sym h)) in
              rw (differ, Fills-position_ne s e b.positions (apply_fill e b.positions) f ne)
                (omega int_laws)
        ],
        Fills-position_ne s e b.positions (apply_fill e b.positions) f,
      )

  -- The sum of the signed quantities of a symbol's fills.
  abbrev pub traded_all : String → List (OrderFilledEvent W) → ℤ
  traded_all s [] = pos 0
  traded_all s (e ∷ es) = traded s e +ℤ traded_all s es

  -- After any fills the symbols are distinct, and each symbol is held in the sum of its fills'
  -- signed quantities on top of what was held before.
  pub on_fills-held :
      (s : String) (es : List (OrderFilledEvent W)) (b : Book W)
      → Distinct b.positions
      → let b' = on_fills es b in
        Distinct b'.positions × (held s b'.positions ≡ held s b.positions +ℤ traded_all s es)
  unfolding on_fills
  on_fills-held s [] b d = (d, omega int_laws)
  on_fills-held s (e ∷ es) b d =
      let one = on_filled-nets s e b d in
      let rest = on_fills-held s es (on_filled e b).0 one.0 in
      (
        rest.0,
        omega (
          int_laws,
          ap pos_part rest.1,
          ap neg_part rest.1,
          ap pos_part one.1,
          ap neg_part one.1,
        ),
      )
