-- ===== src/Portfolio.antt =====
-- ntrade/engines/portfolio_engine.py over the `Portfolio` of ntrade/domain/portfolio.py: fills net
-- positions, re-average the entry price and move cash.
pub mod Lookup
pub mod Netting
pub mod Entries
use n_trade.Prelude.{
  ℕ, ◌≡◌, Bool, true, false, String, Option, none, some, List, [], ◌∷◌, ◌++◌, ◌=?◌, string_eq,
  if◌then◌else◌, ◌==◌,
}
use n_trade.Prelude.Int.{ℤ, pos, neg, ◌+ℤ◌, ◌*ℤ◌, ltb_ℤ, eqb_ℤ}
use n_trade.Prelude.Float.{Float}
use n_trade.Domain.{
  Position, OrderFilledEvent, PositionUpdatedEvent, Event, position_updated, balance_changed,
  nought,
}

module _ {W : Type 0} where
  -- `Portfolio.position`: the first position of the symbol.
  unfoldable pub position : String → List (Position W) → Option (Position W)
  position symbol [] = none
  position symbol (p ∷ ps) = if p.symbol =? symbol then some p else position symbol ps

  -- An assignment to the fields of the object that `position` returns.
  unfoldable pub assign : String → (Position W → Position W) → List (Position W) → List (Position W)
  assign symbol f [] = []
  assign symbol f (p ∷ ps) = if p.symbol =? symbol then f p ∷ ps else p ∷ assign symbol f ps

  -- `positions.remove(p)` for the object that `position` returns.
  unfoldable pub remove : String → List (Position W) → List (Position W)
  remove symbol [] = []
  remove symbol (p ∷ ps) = if p.symbol =? symbol then ps else p ∷ remove symbol ps

  abbrev pub quantity_or_zero : Option (Position W) → ℤ
  quantity_or_zero none = pos 0
  quantity_or_zero (some p) = p.quantity

-- The quantity with the sign of the side.
abbrev pub signed : String → ℤ → ℤ
signed side quantity = if side =? "BUY" then quantity else neg quantity

abbrev pub is_positive : ℤ → Bool
is_positive a = ltb_ℤ (pos 0) a

abbrev pub same_bool : Bool → Bool → Bool
same_bool true b = b
same_bool false true = false
same_bool false false = true

-- The shared state that the engine writes.
pub record Book (W : Type 0) : Type 0 where
  pub positions : List (Position W)
  pub balance : W

module _ {W : Type 0} ⦃fl : Float W⦄ where
  unfoldable pub new_position : OrderFilledEvent W → Position W
  new_position e = record {
    symbol = e.symbol;
    quantity = signed e.side e.quantity;
    avg_price = e.fill_price;
    ltp = e.fill_price;
    product = "MIS";
    exchange = e.exchange;
    strategy = if e.strategy =? "" then none else some e.strategy;
  }

  -- The entry price after a fill that leaves a position.
  unfoldable pub entry_price : ℤ → W → ℤ → W → W
  entry_price held avg qty fill_price =
      let new_qty = held +ℤ qty in
      if same_bool (is_positive held) (is_positive qty)
      then fl.fabs (
          fl.fdiv (fl.fadd (fl.fmul avg (fl.of_int held)) (fl.fmul fill_price (fl.of_int qty)))
            (fl.of_int new_qty))
      else if ltb_ℤ (held *ℤ new_qty) (pos 0)
      then fill_price
      else avg

  unfoldable pub net : OrderFilledEvent W → Position W → Position W
  net e p =
      let qty = signed e.side e.quantity in
      record p {
        avg_price = entry_price p.quantity p.avg_price qty e.fill_price;
        quantity = p.quantity +ℤ qty;
        ltp = e.fill_price;
      }

  -- The positions after a fill.
  unfoldable pub apply_fill : OrderFilledEvent W → List (Position W) → List (Position W)
  unfolding position
  apply_fill e ps = elim (position e.symbol ps) [
    | none ↦ ps ++ new_position e ∷ []
    | some p ↦
        if eqb_ℤ (p.quantity +ℤ signed e.side e.quantity) (pos 0)
        then remove e.symbol ps
        else assign e.symbol (net e) ps
  ]

  unfoldable pub apply_cash : OrderFilledEvent W → W → W
  apply_cash e balance =
      let notional = fl.fmul e.fill_price (fl.of_int e.quantity) in
      let charges = fl.fadd e.commission e.statutory in
      if e.side =? "BUY"
      then fl.round4 (fl.fsub (fl.fsub balance notional) charges)
      else fl.round4 (fl.fsub (fl.fadd balance notional) charges)

  -- Whether the fill closes the position.
  unfoldable pub closes : OrderFilledEvent W → List (Position W) → Bool
  unfolding position
  closes e ps = elim (position e.symbol ps) [
    | none ↦ false
    | some p ↦ eqb_ℤ (p.quantity +ℤ signed e.side e.quantity) (pos 0)
  ]

  abbrev pub avg_or_zero : Option (Position W) → W
  avg_or_zero none = nought
  avg_or_zero (some p) = p.avg_price

  -- `on_filled`: the new state, and the events published, in order.
  unfoldable pub on_filled : OrderFilledEvent W → Book W → Book W × List (Event W)
  on_filled e b =
      let positions = apply_fill e b.positions in
      let balance = apply_cash e b.balance in
      let remaining = if closes e b.positions then none else position e.symbol positions in
      (
        record { positions = positions; balance = balance },
        position_updated (record {
          symbol = e.symbol;
          exchange = e.exchange;
          quantity = quantity_or_zero remaining;
          avg_price = avg_or_zero remaining;
          ltp = e.fill_price;
          ts = e.ts;
        })
            ∷ balance_changed balance e.ts
            ∷ [],
      )

  unfoldable pub on_fills : List (OrderFilledEvent W) → Book W → Book W
  on_fills [] b = b
  on_fills (e ∷ es) b = on_fills es (on_filled e b).0
