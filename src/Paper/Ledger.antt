-- ===== src/Paper/Ledger.antt =====
-- The positions of the paper broker of ntrade/brokers/paper.py beside those that the portfolio engine
-- of ntrade/engines/portfolio_engine.py makes of the same fills.
use n_trade.Prelude.{
  ◌≡◌, refl, sym, ◌∙◌, true, false, String, Option, none, some, inl, inr, List, [], ◌∷◌, ◌++◌,
  length, map, ◌=?◌, =?_iff, =?_refl, string_eq, arith, Bool-cases, Option-cases,
}
use n_trade.Prelude.Dict.{Dict, lookup, lookup-insert, lookup-insert_self, lookup-erase}
use n_trade.Prelude.Int.{ℤ, pos, ◌+ℤ◌, eqb_ℤ, eqb_ℤ_iff, +ℤ_zero, +ℤ_assoc}
use n_trade.Prelude.Float.{Float}
use n_trade.Domain.{Order, OrderSide, buy, sell, OrderFilledEvent, Position, or_zero}
use n_trade.Portfolio.{on_fills, position, signed}
use n_trade.Portfolio.Lookup.{held}
use n_trade.Portfolio.Netting.{traded, traded_all, on_fills-held}
use n_trade.Paper.{
  PaperBroker, delta_of, held_of, paper_position, book_fill, fill_price_of, place_order, new_paper,
  filled_order, stored,
}

abbrev side_text : OrderSide → String
side_text buy = "BUY"
side_text sell = "SELL"

signed-side : (side : OrderSide) (q : ℤ) → signed (side_text side) q ≡ delta_of side q
signed-side buy q = refl
signed-side sell q = refl

module _ {W : Type 0} where
  -- The quantity that the paper broker holds of a symbol.
  abbrev pub paper_held : String → PaperBroker W → ℤ
  paper_held s b = held_of (lookup s b.positions)

module _ {W : Type 0} ⦃fl : Float W⦄ where
  -- The fill of an order, as a target reports it.
  abbrev pub fill_of : Order W → W → OrderFilledEvent W
  fill_of o price = record {
    order_id = "";
    symbol = o.symbol;
    exchange = "NSE";
    side = side_text o.side;
    quantity = o.quantity;
    fill_price = price;
    commission = fl.of_int (pos 0);
    statutory = fl.of_int (pos 0);
    strategy = "";
    ts = 0;
  }

  held_of-paper_position :
      (o : Order W) (price : W) (qty : ℤ) (before : Option (Position W))
      → (paper_position o price qty before).quantity ≡ qty
  held_of-paper_position o price qty none = refl
  held_of-paper_position o price qty (some p) = refl

  -- A fill moves the quantity of its symbol, and no other.
  book_fill-own :
      (o : Order W) (price : W) (ps : Dict String (Position W))
      → held_of (lookup o.symbol (book_fill o price ps))
        ≡ held_of (lookup o.symbol ps) +ℤ delta_of o.side o.quantity
  unfolding book_fill
  book_fill-own o price ps =
      let before = lookup o.symbol ps in
      let qty = held_of before +ℤ delta_of o.side o.quantity in
      elim (Bool-cases (eqb_ℤ qty (pos 0))) [
        | inl flat ↦
            rw (flat, lookup-erase o.symbol o.symbol ps, =?_refl o.symbol)
              (sym ((eqb_ℤ_iff qty (pos 0)).0 flat))
        | inr left ↦
            rw (left, lookup-insert_self o.symbol (paper_position o price qty before) ps)
              (held_of-paper_position o price qty before)
      ]

  book_fill-other :
      (s : String) (o : Order W) (price : W) (ps : Dict String (Position W))
      → (o.symbol =? s) ≡ false
      → lookup s (book_fill o price ps) ≡ lookup s ps
  unfolding book_fill
  book_fill-other s o price ps other =
      let before = lookup o.symbol ps in
      let qty = held_of before +ℤ delta_of o.side o.quantity in
      elim (Bool-cases (eqb_ℤ qty (pos 0))) [
        | inl flat ↦ rw (flat, lookup-erase o.symbol s ps, other) refl
        | inr left ↦
            rw (left, lookup-insert o.symbol s (paper_position o price qty before) ps, other) refl
      ]

  traded-own :
      (s : String) (o : Order W) (given : W)
      → (o.symbol =? s) ≡ true
      → traded s (fill_of o given) ≡ delta_of o.side o.quantity
  traded-own s o given same = rw same (signed-side o.side o.quantity)

  traded-other :
      (s : String) (o : Order W) (given : W)
      → (o.symbol =? s) ≡ false
      → traded s (fill_of o given) ≡ pos 0
  traded-other s o given other = rw other refl

  book_fill-held :
      (s : String) (o : Order W) (price given : W) (ps : Dict String (Position W))
      → held_of (lookup s (book_fill o price ps))
        ≡ held_of (lookup s ps) +ℤ traded s (fill_of o given)
  book_fill-held s o price given ps = elim (Bool-cases (o.symbol =? s)) [
    | inl same ↦
        rw (traded-own s o given same)
          (rw (← (=?_iff o.symbol s).0 same) (book_fill-own o price ps))
    | inr other ↦
        rw (traded-other s o given other, book_fill-other s o price ps other)
          (sym (+ℤ_zero (held_of (lookup s ps))))
  ]

  -- The orders that are placed one after the other, each with the live price of its instrument;
  -- `none` if one of them raises.
  unfoldable pub place_all :
      (String → String) → List (Order W × W) → PaperBroker W → Option (PaperBroker W)
  place_all normal [] b = some b
  place_all normal ((o, live) ∷ rest) b = elim (place_order normal o live b) [
    | none ↦ none
    | some r ↦ place_all normal rest r.0
  ]

  pub place_order-raises :
      (normal : String → String) (o : Order W) (live : W) (b : PaperBroker W)
      → fill_price_of o (or_zero live) (lookup (normal o.symbol) b.quotes) ≡ none
      → place_order normal o live b ≡ none
  unfolding place_order
  place_order-raises normal o live b gone = rw (place_order, gone) refl

  pub place_order-fills :
      (normal : String → String) (o : Order W) (live price : W) (b : PaperBroker W)
      → fill_price_of o (or_zero live) (lookup (normal o.symbol) b.quotes) ≡ some price
      → place_order normal o live b
        ≡ some (
          record b {
            orders = b.orders ++ filled_order o price b ∷ [];
            positions = book_fill o (fl.round2 price) b.positions;
          },
          stored (length b.orders),
        )
  unfolding place_order
  place_order-fills normal o live price b found = rw (place_order, found) refl

  place_all-held :
      (normal : String → String) (s : String) (os : List (Order W × W)) (b b' : PaperBroker W)
      → place_all normal os b ≡ some b'
      → paper_held s b'
        ≡ paper_held s b +ℤ traded_all s (map (λ (p : Order W × W). fill_of p.0 p.1) os)
  unfolding place_all
  place_all-held normal s [] b b' placed =
      let q : b ≡ b' = cc in rw (← q) (sym (+ℤ_zero (paper_held s b)))
  place_all-held normal s ((o, live) ∷ rest) b b' placed =
      elim (Option-cases (fill_price_of o (or_zero live) (lookup (normal o.symbol) b.quotes))) [
        | inl gone ↦ ground (arith, place_order-raises normal o live b gone)
        | inr (price, found) ↦
            let b1 : PaperBroker W = record b {
              orders = b.orders ++ filled_order o price b ∷ [];
              positions = book_fill o (fl.round2 price) b.positions;
            } in
            let next =
              place_all-held normal s rest b1 b' ground
                (arith, place_order-fills normal o live price b found) in
            let one = book_fill-held s o (fl.round2 price) live b.positions in
            next
            ∙ (rw one (
                +ℤ_assoc (paper_held s b) (traded s (fill_of o live))
                  (traded_all s (map (λ (p : Order W × W). fill_of p.0 p.1) rest))))
      ]

  -- Orders that the paper broker fills one after the other leave it, for every symbol, the quantity
  -- that the portfolio engine holds after the fills of the same orders, whatever their prices.
  pub place_all-matches :
      (normal : String → String) (s : String) (os : List (Order W × W)) (cash : W)
      (b : PaperBroker W)
      → place_all normal os (new_paper cash) ≡ some b
      → paper_held s b
        ≡ held s
            (on_fills
              (map (λ (p : Order W × W). fill_of p.0 p.1) os)
              (record { positions = []; balance = cash })).positions
  unfolding new_paper lookup position
  place_all-matches normal s os cash b placed =
      place_all-held normal s os (new_paper cash) b placed
      ∙ sym
          (on_fills-held s (map (λ (p : Order W × W). fill_of p.0 p.1) os)
            (record { positions = []; balance = cash }) tt).1
