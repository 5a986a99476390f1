-- ===== src/Paper.antt =====
-- ntrade/brokers/paper.py: `PaperBroker`, an in-memory broker that fills an order when it is placed.
-- An order that has been placed is the object that the broker stores: a caller's order is either an
-- index into the stored ones or an object of its own. `normal` is `strip().upper()` of a symbol.
pub mod Ledger
pub mod Cancels
use Prim.Native.String.{String, ◌++◌ as join}
use n_trade.Prelude.{
  ℕ, zero, suc, ◌+◌, Bool, true, false, not, ◌&&◌, ◌||◌, Option, none, some, List, [], ◌∷◌, ◌++◌,
  map, ◌=?◌, if◌then◌else◌, ◌==◌, keep, length, string_eq,
}
use n_trade.Prelude.Dict.{Dict, lookup, insert, erase}
use n_trade.Prelude.Int.{ℤ, pos, neg, ◌+ℤ◌, ◌*ℤ◌, ltb_ℤ, eqb_ℤ}
use n_trade.Prelude.Float.{Float}
use n_trade.Domain.{
  Order, OrderSide, buy, sell, OrderType, market, TradeType, mis, cnc, margin, mtf, OrderStatus,
  pending, completed, cancelled, partially_filled, same_status, Position, nought, is_open, or_zero,
}
use n_trade.Execution.Ids.{digits}

pub record Quote (W : Type 0) : Type 0 where
  pub ltp : W
  pub bid : W
  pub ask : W
  pub prev_close : W

pub record PaperBroker (W : Type 0) : Type 0 where
  pub quotes : Dict String (Quote W)
  pub orders : List (Order W)
  pub balance : W
  pub positions : Dict String (Position W)

-- A caller's order: stored, by its index, or an object of its own.
pub data Handle (W : Type 0) : Type 0 where
  stored : ℕ → Handle W
  own : Order W → Handle W

-- `f"PAPER-{n}"`
unfoldable pub paper_id : ℕ → String
unfolding digits
paper_id n = join "PAPER-" (digits n n)

abbrev pub product_of : TradeType → String
product_of mis = "MIS"
product_of cnc = "CNC"
product_of margin = "MARGIN"
product_of mtf = "MTF"

abbrev pub is_type_market : OrderType → Bool
is_type_market market = true
is_type_market _ = false

-- `order.quantity if order.side.value == "BUY" else -order.quantity`
abbrev pub delta_of : OrderSide → ℤ → ℤ
delta_of buy quantity = quantity
delta_of sell quantity = neg quantity

abbrev pub or_keep {ℓ} : {A : Type ℓ} → Option A → A → A
or_keep none old = old
or_keep (some new) old = new

abbrev pub same_id : Option String → Option String → Bool
same_id none none = true
same_id (some a) (some b) = a =? b
same_id _ _ = false

abbrev pub magnitude : ℤ → ℤ
magnitude a = if ltb_ℤ a (pos 0) then neg a else a

module _ {W : Type 0} where
  abbrev pub held_of : Option (Position W) → ℤ
  held_of none = pos 0
  held_of (some p) = p.quantity

  abbrev pub get_at : ℕ → List (Order W) → Option (Order W)
  get_at i [] = none
  get_at zero (o ∷ os) = some o
  get_at (suc i) (o ∷ os) = get_at i os

  -- The first stored order of the id that is still open is cancelled.
  unfoldable pub cancel_stored : Option String → List (Order W) → List (Order W)
  cancel_stored id [] = []
  cancel_stored id (o ∷ os) =
      if same_id o.order_id id && is_open o
      then (record o { status = cancelled }) ∷ os
      else o ∷ cancel_stored id os

  abbrev pub has_id : Order W → Bool
  has_id o = elim o.order_id [ none ↦ false | some _ ↦ true ]

  unfoldable pub cancel_by : Order W → List (Order W) → List (Order W)
  unfolding cancel_stored
  cancel_by o os = if has_id o then cancel_stored o.order_id os else os

  -- The stored object itself ends as cancelled.
  unfoldable pub mark_at : ℕ → List (Order W) → List (Order W)
  mark_at i [] = []
  mark_at zero (o ∷ os) = (record o { status = cancelled }) ∷ os
  mark_at (suc i) (o ∷ os) = o ∷ mark_at i os

  -- `cancel_order`: whatever is found, the order itself ends as cancelled.
  unfoldable pub cancel_order : Handle W → PaperBroker W → PaperBroker W × Handle W
  unfolding cancel_by mark_at
  cancel_order (own o) b =
      (record b { orders = cancel_by o b.orders }, own (record o { status = cancelled }))
  cancel_order (stored i) b = elim (get_at i b.orders) [
    | none ↦ (b, stored i)
    | some o ↦ (record b { orders = mark_at i (cancel_by o b.orders) }, stored i)
  ]

  -- What an order takes of a modification.
  unfoldable pub modified : Option W → Option ℤ → Option OrderType → Option W → Order W → Order W
  modified price quantity order_type trigger o = record o {
    price = or_keep price o.price;
    quantity = or_keep quantity o.quantity;
    order_type = or_keep order_type o.order_type;
    trigger_price = or_keep trigger o.trigger_price;
  }

  -- The stored orders of the id of the modified order take its figures.
  unfoldable pub spread : Order W → List (Order W) → List (Order W)
  spread o [] = []
  spread o (x ∷ xs) =
      (if same_id x.order_id o.order_id
        then record x {
          price = o.price;
          quantity = o.quantity;
          order_type = o.order_type;
          trigger_price = o.trigger_price;
        }
        else x)
      ∷ spread o xs

  -- `modify_order`. A stored object is of its own id, so it takes the figures with the others.
  unfoldable pub modify_order :
      Option W
      → Option ℤ
      → Option OrderType
      → Option W
      → Handle W
      → PaperBroker W
      → PaperBroker W × Handle W
  unfolding modified spread
  modify_order price quantity order_type trigger (own o) b =
      let changed : Order W = modified price quantity order_type trigger o in
      (record b { orders = spread changed b.orders }, own changed)
  modify_order price quantity order_type trigger (stored i) b = elim (get_at i b.orders) [
    | none ↦ (b, stored i)
    | some o ↦ (
      record b { orders = spread (modified price quantity order_type trigger o) b.orders },
      stored i,
    )
  ]

  -- The stored order that an order's status is read from: the last of its id.
  unfoldable pub order_status : Order W → List (Order W) → Order W
  order_status o [] = o
  order_status o (x ∷ xs) =
      order_status
        (if has_id o && same_id x.order_id o.order_id
          then record o { status = x.status; filled_qty = x.filled_qty; avg_price = x.avg_price }
          else o)
        xs

  unfoldable pub order_detail : String → List (Order W) → Option (Order W)
  order_detail id [] = none
  order_detail id (o ∷ os) = if same_id o.order_id (some id) then some o else order_detail id os

  -- `get_trade_book`: the stored orders that are completed.
  unfoldable pub trade_book : PaperBroker W → List (Order W)
  trade_book b = keep (λ (o : Order W). same_status o.status completed) b.orders

module _ {W : Type 0} ⦃fl : Float W⦄ where
  unfoldable pub new_paper : W → PaperBroker W
  new_paper initial_cash = record {
    quotes = [];
    orders = [];
    balance = initial_cash;
    positions = [];
  }

  unfoldable pub seed_quote : (String → String) → String → W → PaperBroker W → PaperBroker W
  seed_quote normal symbol ltp b =
      let step = fl.decimal 5 2 in
      let q : Quote W = record {
        ltp = ltp;
        bid = fl.fsub ltp step;
        ask = fl.fadd ltp step;
        prev_close = ltp;
      } in
      record b { quotes = insert (normal symbol) q b.quotes }

  -- `get_quote`; `none` is the exception.
  unfoldable pub get_quote : (String → String) → String → PaperBroker W → Option (Quote W)
  get_quote normal symbol b = lookup (normal symbol) b.quotes

  -- The price of a fill, from the live quote of the instrument; `none` is the exception.
  unfoldable pub fill_price_of : Order W → W → Option (Quote W) → Option W
  fill_price_of o live seated =
      if not (is_type_market o.order_type) && not (fl.feq o.price nought)
      then some o.price
      else if fl.flt nought o.reference_price
      then some o.reference_price
      else if fl.flt nought live
      then some live
      else elim seated [ none ↦ none | some q ↦ some q.ltp ]

  -- The entry price after a fill that leaves the quantity `qty`.
  unfoldable pub paper_entry : ℤ → W → ℤ → ℤ → W → W
  paper_entry held avg qty ordered price =
      if ltb_ℤ (pos 0) (held *ℤ qty) && ltb_ℤ (magnitude held) (magnitude qty)
      then fl.round4 (
          fl.fdiv
            (fl.fadd (fl.fmul avg (fl.of_int (magnitude held))) (fl.fmul price (fl.of_int ordered)))
            (fl.of_int (magnitude qty)))
      else if ltb_ℤ (held *ℤ qty) (pos 0)
      then price
      else avg

  -- The position of a symbol after a fill, where one is left.
  abbrev pub paper_position : Order W → W → ℤ → Option (Position W) → Position W
  paper_position o price qty none = record {
    symbol = o.symbol;
    quantity = qty;
    avg_price = price;
    ltp = price;
    product = product_of o.trade_type;
    exchange = "NSE";
    strategy = none;
  }
  paper_position o price qty (some p) = record p {
    avg_price = paper_entry p.quantity p.avg_price qty o.quantity price;
    quantity = qty;
    ltp = price;
  }

  unfoldable pub book_fill : Order W → W → Dict String (Position W) → Dict String (Position W)
  unfolding paper_entry
  book_fill o price ps =
      let before = lookup o.symbol ps in
      let qty = held_of before +ℤ delta_of o.side o.quantity in
      if eqb_ℤ qty (pos 0)
      then erase o.symbol ps
      else insert o.symbol (paper_position o price qty before) ps

  -- The order as it is stored.
  abbrev pub filled_order : Order W → W → PaperBroker W → Order W
  filled_order o price b = record o {
    order_id = some (paper_id (length b.orders + 1));
    status = completed;
    filled_qty = o.quantity;
    avg_price = fl.round2 price;
  }

  -- `place_order` of a new order, with the live price of its instrument.
  unfoldable pub place_order :
      (String → String) → Order W → W → PaperBroker W → Option (PaperBroker W × Handle W)
  unfolding fill_price_of book_fill
  place_order normal o live b =
      elim (fill_price_of o (or_zero live) (lookup (normal o.symbol) b.quotes)) [
        | none ↦ none
        | some price ↦ some (
          record b {
            orders = b.orders ++ filled_order o price b ∷ [];
            positions = book_fill o (fl.round2 price) b.positions;
          },
          stored (length b.orders),
        )
      ]
