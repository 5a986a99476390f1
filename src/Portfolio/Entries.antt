-- ===== src/Portfolio/Entries.antt =====
-- The entry price that a fill leaves, and the events that the engine publishes.
use n_trade.Prelude.{
  zero, suc, not, =?_refl, ◌≡◌, ◌≢◌, ◌⊎◌, ◌↔◌, refl, sym, ◌∙◌, Bool, true, some, List, [], ◌∷◌,
  arith, Option-cases, Bool-cases, inl, inr, string_eq,
}
use n_trade.Prelude.Int.{
  ℤ, pos, ◌+ℤ◌, ◌*ℤ◌, ltb_ℤ, eqb_ℤ_iff, negsuc, pos-mul-pos, pos-mul-negsuc, negsuc-mul-pos,
  negsuc-mul-negsuc,
}
use n_trade.Prelude.Float.{Float}
use n_trade.Domain.{
  Position, OrderFilledEvent, PositionUpdatedEvent, position_updated, balance_changed,
}
use n_trade.Portfolio.Lookup.{Distinct, held}
use n_trade.Portfolio.Netting.{on_filled-nets}
use n_trade.Portfolio.{
  position, signed, is_positive, same_bool, entry_price, apply_fill, Book, closes, on_filled,
}

same_bool_iff : (a b : Bool) → (same_bool a b ≡ true) ↔ (a ≡ b)
same_bool_iff a b = ground arith

-- The product test of the code is a test of signs.
reverses :
    (held new_qty : ℤ)
    → held ≢ pos 0
    → new_qty ≢ pos 0
    → ltb_ℤ (held *ℤ new_qty) (pos 0) ≡ not (same_bool (is_positive held) (is_positive new_qty))
reverses (pos zero) new_qty h n = absurd (h refl)
reverses (pos (suc m)) (pos zero) h n = absurd (n refl)
reverses (pos (suc m)) (pos (suc k)) h n = rw (pos-mul-pos m k) (ground arith)
reverses (pos (suc m)) (negsuc k) h n = rw (pos-mul-negsuc m k) (ground arith)
reverses (negsuc m) (pos zero) h n = absurd (n refl)
reverses (negsuc m) (pos (suc k)) h n = rw (negsuc-mul-pos m k) (ground arith)
reverses (negsuc m) (negsuc k) h n = rw (negsuc-mul-negsuc m k) (ground arith)

module _ {W : Type 0} ⦃fl : Float W⦄ where
  entry_price-branches :
      (held qty : ℤ) (avg fill_price : W)
      → held ≢ pos 0
      → held +ℤ qty ≢ pos 0
      → (is_positive held ≡ is_positive qty
          → entry_price held avg qty fill_price
            ≡ fl.fabs (
                fl.fdiv
                  (fl.fadd (fl.fmul avg (fl.of_int held)) (fl.fmul fill_price (fl.of_int qty)))
                  (fl.of_int (held +ℤ qty))))
        × (is_positive held ≢ is_positive qty
            → is_positive (held +ℤ qty) ≡ is_positive held
            → entry_price held avg qty fill_price ≡ avg)
        × (is_positive held ≢ is_positive qty
            → is_positive (held +ℤ qty) ≢ is_positive held
            → entry_price held avg qty fill_price ≡ fill_price)
  unfolding entry_price
  entry_price-branches held qty avg fill_price h n =
      let turn = reverses held (held +ℤ qty) h n in
      (
        λ same. ground (arith, same_bool_iff (is_positive held) (is_positive qty)),
        λ other side. ground (
          arith,
          turn,
          same_bool_iff (is_positive held) (is_positive qty),
          same_bool_iff (is_positive held) (is_positive (held +ℤ qty)),
        ),
        λ other side. ground (
          arith,
          turn,
          same_bool_iff (is_positive held) (is_positive qty),
          same_bool_iff (is_positive held) (is_positive (held +ℤ qty)),
        ),
      )

  closes-Fills :
      (e : OrderFilledEvent W) (ps : List (Position W))
      → closes e ps ≡ true
      → (p : Position W) × (position e.symbol ps ≡ some p)
        × (p.quantity +ℤ signed e.side e.quantity ≡ pos 0)
  unfolding closes
  closes-Fills e ps h = elim (Option-cases (position e.symbol ps)) [
    | inl none_yet ↦ absurd (ground arith)
    | inr (p, found) ↦
        (p, found, (eqb_ℤ_iff (p.quantity +ℤ signed e.side e.quantity) (pos 0)).0 (ground arith))
  ]

  -- A fill that leaves a position re-averages the entry price if it goes the way of the position,
  -- keeps it if it goes the other way and leaves the position on its side, and replaces it by the
  -- fill's price if it turns the position round.
  pub entry_price-three_ways :
      (held qty : ℤ) (avg fill_price : W)
      → held ≢ pos 0
      → held +ℤ qty ≢ pos 0
      → let entry = entry_price held avg qty fill_price in
        (is_positive held ≡ is_positive qty)
          × (entry
              ≡ fl.fabs (
                  fl.fdiv
                    (fl.fadd (fl.fmul avg (fl.of_int held)) (fl.fmul fill_price (fl.of_int qty)))
                    (fl.of_int (held +ℤ qty))))
        ⊎ (is_positive held ≢ is_positive qty)
          × (is_positive (held +ℤ qty) ≡ is_positive held)
          × (entry ≡ avg)
        ⊎ (is_positive held ≢ is_positive qty)
          × (is_positive (held +ℤ qty) ≢ is_positive held)
          × (entry ≡ fill_price)
  entry_price-three_ways held qty avg fill_price h n =
      let (joins, reduces, turns) = entry_price-branches held qty avg fill_price h n in
      elim (Bool-cases (same_bool (is_positive held) (is_positive qty))) [
        | inl same ↦
            let e = (same_bool_iff (is_positive held) (is_positive qty)).0 same in inl (e, joins e)
        | inr other ↦
            let ne : is_positive held ≢ is_positive qty =
              λ e. ground (arith, (same_bool_iff (is_positive held) (is_positive qty)).1 e) in
            elim (Bool-cases (same_bool (is_positive (held +ℤ qty)) (is_positive held))) [
              | inl stays ↦
                  let e = (same_bool_iff (is_positive (held +ℤ qty)) (is_positive held)).0 stays in
                  inr (inl (ne, e, reduces ne e))
              | inr moves ↦
                  let nt : is_positive (held +ℤ qty) ≢ is_positive held = λ e.
                    ground
                      (arith, (same_bool_iff (is_positive (held +ℤ qty)) (is_positive held)).1 e) in
                  inr (inr (ne, nt, turns ne nt))
            ]
      ]

  -- The two events that a fill publishes report the state that it leaves: the quantity held of the
  -- symbol, which is 0 for a closed position, and the balance.
  pub on_filled-reports :
      (e : OrderFilledEvent W) (b : Book W)
      → Distinct b.positions
      → let (b', events) = on_filled e b in
        (u : PositionUpdatedEvent W) × (events
          ≡ position_updated u ∷ balance_changed b'.balance e.ts ∷ [])
        × (u.symbol ≡ e.symbol)
        × (u.quantity ≡ held e.symbol b'.positions)
  unfolding on_filled
  on_filled-reports e b d = elim (Bool-cases (closes e b.positions)) [
    | inl closed ↦
        let (p, found, flat) = closes-Fills e b.positions closed in
        let nets = on_filled-nets e.symbol e b d in
        let nothing : held e.symbol (apply_fill e b.positions) ≡ pos 0 =
          nets.1 ∙ rw (found, =?_refl e.symbol) flat in
        (_, refl, refl, rw closed (sym nothing))
    | inr stays ↦ (_, refl, refl, rw stays refl)
  ]
