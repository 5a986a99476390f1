-- ===== src/Paper/Cancels.antt =====
-- What cancelling a filled order does to the trade book of ntrade/brokers/paper.py.
use n_trade.Prelude.{
  suc, ◌≡◌, refl, ap, ◌∙◌, Bool, false, String, Option, some, List, [], ◌∷◌, ◌++◌, string_eq, All,
  All-append, keep, keep-append, length, length-append, sym, append-nil, Option-cases, inl, inr,
  arith,
}
use n_trade.Prelude.Dict.{lookup}
use n_trade.Prelude.Float.{Float}
use n_trade.Domain.{Order, is_open, same_status, completed, cancelled, or_zero}
use n_trade.Paper.{
  PaperBroker, Handle, stored, get_at, cancel_stored, cancel_by, mark_at, cancel_order, trade_book,
  fill_price_of, filled_order, place_order, book_fill,
}
use n_trade.Paper.Ledger.{place_order-raises, place_order-fills}

module _ {W : Type 0} where
  get_at-last : (os : List (Order W)) (o : Order W) → get_at (length os) (os ++ o ∷ []) ≡ some o
  get_at-last [] o = refl
  get_at-last (x ∷ os) o = get_at-last os o

  mark_at-last :
      (os : List (Order W)) (o : Order W)
      → mark_at (length os) (os ++ o ∷ []) ≡ os ++ (record o { status = cancelled }) ∷ []
  unfolding mark_at
  mark_at-last [] o = refl
  mark_at-last (x ∷ os) o = ap (λ (l : List (Order W)). x ∷ l) (mark_at-last os o)

  -- Where no order is open, none is cancelled among the stored ones.
  cancel_stored-closed :
      (id : Option String) (os : List (Order W))
      → All (λ (o : Order W). is_open o ≡ false) os
      → cancel_stored id os ≡ os
  unfolding cancel_stored
  cancel_stored-closed id [] c = refl
  cancel_stored-closed id (o ∷ os) c = ground (arith, cancel_stored-closed id os c.1)

  closed-snoc :
      (os : List (Order W)) (o : Order W)
      → All (λ (x : Order W). is_open x ≡ false) os
      → is_open o ≡ false
      → All (λ (x : Order W). is_open x ≡ false) (os ++ o ∷ [])
  closed-snoc os o c h = All-append (λ (x : Order W). is_open x ≡ false) os (o ∷ []) c (h, tt)

  cancel_by-closed :
      (o : Order W) (os : List (Order W))
      → All (λ (x : Order W). is_open x ≡ false) os
      → cancel_by o os ≡ os
  unfolding cancel_by
  cancel_by-closed o os c = ground (arith, cancel_stored-closed o.order_id os c)

  cancel_order-last :
      (b : PaperBroker W) (os : List (Order W)) (o : Order W)
      → All (λ (x : Order W). is_open x ≡ false) os
      → is_open o ≡ false
      → (cancel_order (stored (length os)) (record b { orders = os ++ o ∷ [] })).0
        ≡ record b { orders = os ++ (record o { status = cancelled }) ∷ [] }
  unfolding cancel_order
  cancel_order-last b os o c h =
      rw
        (
          cancel_order,
          get_at-last os o,
          cancel_by-closed o (os ++ o ∷ []) (closed-snoc os o c h),
          mark_at-last os o,
        )
        refl

  abbrev is_done : Order W → Bool
  is_done o = same_status o.status completed

module _ {W : Type 0} ⦃fl : Float W⦄ where
  -- With no open order stored: an order that is placed is filled, and the trade book gains it; when
  -- the order is cancelled then, the trade book loses it again, and the position that the fill made
  -- stays.
  pub cancel_order-drops_trade :
      (normal : String → String) (o : Order W) (live : W) (b b1 : PaperBroker W) (h : Handle W)
      → All (λ (x : Order W). is_open x ≡ false) b.orders
      → place_order normal o live b ≡ some (b1, h)
      → let b2 = (cancel_order h b1).0 in
        (length (trade_book b1) ≡ suc (length (trade_book b)))
        × (trade_book b2 ≡ trade_book b)
        × (b2.positions ≡ b1.positions)
  unfolding trade_book
  cancel_order-drops_trade normal o live b b1 h closed placed =
      elim (Option-cases (fill_price_of o (or_zero live) (lookup (normal o.symbol) b.quotes))) [
        | inl gone ↦ ground (arith, place_order-raises normal o live b gone)
        | inr (price, found) ↦
            let x = filled_order o price b in
            let got = place_order-fills normal o live price b found in
            let made : b1 ≡ record b {
              orders = b.orders ++ x ∷ [];
              positions = book_fill o (fl.round2 price) b.positions;
            } =
              cc in
            let at : h ≡ stored (length b.orders) = cc in
            let after : (cancel_order h b1).0 ≡ record b {
              orders = b.orders ++ (record x { status = cancelled }) ∷ [];
              positions = book_fill o (fl.round2 price) b.positions;
            } =
              rw (made, at)
                (cancel_order-last
                  (record b { positions = book_fill o (fl.round2 price) b.positions }) b.orders x
                  closed refl) in
            (
              rw made (
                  rw (keep-append is_done b.orders (x ∷ []))
                    (omega (arith, length-append (keep is_done b.orders) (x ∷ [])))),
              ap trade_book after
                  ∙ keep-append is_done b.orders ((record x { status = cancelled }) ∷ [])
                  ∙ append-nil (keep is_done b.orders),
              ap (λ (c : PaperBroker W). c.positions) after
                  ∙ sym (ap (λ (c : PaperBroker W). c.positions) made),
            )
      ]
