-- ===== src/Domain.antt =====
-- The order model (ntrade/domain/orders/order.py), positions (ntrade/domain/portfolio.py) and the
-- kernel's events (ntrade/events). `W` is Python's `float`. Times are wall-clock times in whole
-- microseconds since a midnight. A side or an order type in an event is the source's string.
pub mod OrderTypes
use n_trade.Prelude.{
  ℕ, ◌+◌, ◌-◌, ◌/◌, ◌*◌, ◌≡◌, Bool, true, false, ◌&&◌, ◌||◌, String, Option, none, some, List, [],
  ◌∷◌, ◌=?◌, if◌then◌else◌, leb,
}
use n_trade.Prelude.Int.{ℤ, pos, neg}
use n_trade.Prelude.Float.{Float}

pub data OrderSide : Type 0 where
  buy sell : OrderSide

pub data OrderType : Type 0 where
  limit market stop_limit stop_market cover bracket : OrderType

pub data TradeType : Type 0 where
  mis cnc margin mtf : TradeType

pub data OrderStatus : Type 0 where
  pending completed rejected cancelled partially_filled : OrderStatus

-- `status in OrderStatus.TERMINAL`
abbrev pub is_terminal : OrderStatus → Bool
is_terminal completed = true
is_terminal rejected = true
is_terminal cancelled = true
is_terminal _ = false

abbrev pub same_status : OrderStatus → OrderStatus → Bool
same_status pending pending = true
same_status completed completed = true
same_status rejected rejected = true
same_status cancelled cancelled = true
same_status partially_filled partially_filled = true
same_status _ _ = false

pub record Order (W : Type 0) : Type 0 where
  pub symbol : String
  pub side : OrderSide
  pub quantity : ℤ
  pub order_type : OrderType
  pub trade_type : TradeType
  pub price : W
  pub reference_price : W
  pub trigger_price : W
  pub target_price : W
  pub stop_loss_price : W
  pub order_id : Option String
  pub status : OrderStatus
  pub filled_qty : ℤ
  pub avg_price : W
  pub created_at : Option ℕ

-- `Order.is_open`
abbrev pub is_open : {W : Type 0} → Order W → Bool
is_open o = same_status o.status pending || same_status o.status partially_filled

-- `Order.is_filled`
abbrev pub is_filled : {W : Type 0} → Order W → Bool
is_filled o = same_status o.status completed

pub record OrderIntentEvent (W : Type 0) : Type 0 where
  pub event_id : String
  pub correlation_id : Option String
  pub symbol : String
  pub exchange : String
  pub side : String
  pub quantity : ℤ
  pub order_type : String
  pub price : W
  pub reference_price : W
  pub strategy : String
  pub ts : ℕ

pub record OrderAcceptedEvent : Type 0 where
  pub order_id : String
  pub symbol : String
  pub exchange : String
  pub side : String
  pub quantity : ℤ
  pub strategy : String
  pub ts : ℕ

-- Why an order is refused: one constructor for each text that the code makes.
pub data Reason : Type 0 where
  unknown_instrument no_market_price invalid_fill_price limit_not_touched no_broker : Reason
  no_target : String → Reason
  placement_failed : String → Reason
  order_ended : OrderStatus → Reason

pub record OrderRejectedEvent : Type 0 where
  pub order_id : String
  pub symbol : String
  pub exchange : String
  pub side : String
  pub quantity : ℤ
  pub reason : Reason
  pub strategy : String
  pub ts : ℕ

pub record OrderFilledEvent (W : Type 0) : Type 0 where
  pub order_id : String
  pub symbol : String
  pub exchange : String
  pub side : String
  pub quantity : ℤ
  pub fill_price : W
  pub commission : W
  pub statutory : W
  pub strategy : String
  pub ts : ℕ

pub record OrderUpdatedEvent (W : Type 0) : Type 0 where
  pub order_id : String
  pub symbol : String
  pub exchange : String
  pub side : String
  pub status : OrderStatus
  pub filled_qty : ℤ
  pub avg_price : W
  pub strategy : String
  pub ts : ℕ

pub record OrderTimeoutEvent : Type 0 where
  pub order_id : String
  pub symbol : String
  pub exchange : String
  pub side : String
  pub quantity : ℤ
  pub age : ℕ
  pub strategy : String
  pub ts : ℕ

-- `reference_price` is `metadata.get("reference_price", 0.0)`.
pub record SignalGeneratedEvent (W : Type 0) : Type 0 where
  pub symbol : String
  pub exchange : String
  pub side : String
  pub quantity : ℤ
  pub price : W
  pub order_type : String
  pub strategy : String
  pub reference_price : W
  pub ts : ℕ

pub record PositionUpdatedEvent (W : Type 0) : Type 0 where
  pub symbol : String
  pub exchange : String
  pub quantity : ℤ
  pub avg_price : W
  pub ltp : W
  pub ts : ℕ

-- The events that the modelled components publish.
pub data Event (W : Type 0) : Type 0 where
  order_intent : OrderIntentEvent W → Event W
  order_accepted : OrderAcceptedEvent → Event W
  order_rejected : OrderRejectedEvent → Event W
  order_filled : OrderFilledEvent W → Event W
  order_updated : OrderUpdatedEvent W → Event W
  order_timeout : OrderTimeoutEvent → Event W
  signal_approved : SignalGeneratedEvent W → ℕ → Event W
  position_updated : PositionUpdatedEvent W → Event W
  balance_changed : W → ℕ → Event W

-- One position; `strategy` is `metadata.get("strategy")`, the only key that the kernel uses.
pub record Position (W : Type 0) : Type 0 where
  pub symbol : String
  pub quantity : ℤ
  pub avg_price : W
  pub ltp : W
  pub product : String
  pub exchange : String
  pub strategy : Option String

module _ {W : Type 0} ⦃fl : Float W⦄ where
  abbrev pub nought : W
  nought = fl.of_int (pos 0)

  -- `x or 0.0`
  abbrev pub or_zero : W → W
  or_zero x = if fl.feq x nought then nought else x

  -- `x or y`
  abbrev pub or_else : W → W → W
  or_else x y = if fl.feq x nought then y else x

  -- `Position.market_value`
  abbrev pub market_value : Position W → W
  market_value p = fl.round2 (fl.fmul (fl.of_int p.quantity) p.ltp)

  -- `Position.pnl`
  abbrev pub pnl : Position W → W
  pnl p = fl.round2 (fl.fmul (fl.fsub p.ltp p.avg_price) (fl.of_int p.quantity))

-- `datetime.date()`
abbrev pub date_of : ℕ → ℕ
date_of ts = ts / 86_400_000_000
