-- ===== src/Execution/Simulated.antt =====
-- `SimulatedExecution` (ntrade/execution/simulator.py) with the `FillPolicy` and
-- `BarAwareExecution` of ntrade/backtest/fills.py. `submit` returns the new state, the events that
-- it publishes in order, and its result.
pub mod Fills
use n_trade.Prelude.{
  ℕ, suc, ◌≡◌, Bool, true, false, not, ◌&&◌, ◌||◌, String, Option, none, some, List, [], ◌∷◌, ◌++◌,
  ◌=?◌, string_eq, if◌then◌else◌, ltb,
}
use n_trade.Prelude.Dict.{Dict, lookup, insert}
use n_trade.Prelude.Int.{ℤ, pos}
use n_trade.Prelude.Float.{Float}
use n_trade.Domain.{
  OrderIntentEvent, OrderAcceptedEvent, OrderRejectedEvent, OrderFilledEvent, Event, order_accepted,
  order_filled, Reason, unknown_instrument, no_market_price, invalid_fill_price, limit_not_touched,
  nought, or_zero, or_else, date_of,
}
use n_trade.Costs.{
  SlippageModel, CommissionModel, InstrumentClass, IndianStatutoryCosts, apply_slippage,
  apply_commission, stt, stamp, total_cost, for_instrument,
}
use n_trade.Execution.Ids.{sim_id}

-- The constructor's settings, after its defaults.
pub record SimConfig (W : Type 0) : Type 0 where
  pub slippage : SlippageModel W
  pub commission : CommissionModel W
  pub statutory : Option (IndianStatutoryCosts W)
  pub delivery_detection : Bool

pub record SimState (W : Type 0) : Type 0 where
  pub entry_date : Dict String ℕ
  pub entry_notional : Dict String W
  pub seq : ℕ
  pub fills : List (OrderFilledEvent W)

-- What the target reads of an instrument.
pub record SimInstrument (W : Type 0) : Type 0 where
  pub kind : InstrumentClass
  pub ltp : W

-- `ctx.instrument`
abbrev pub Instruments : Type 0 → Type 0
Instruments W = String → Option (SimInstrument W)

abbrev pub Outcome : Type 0 → Type 0
Outcome W = SimState W × List (Event W) × Option OrderRejectedEvent

unfoldable pub new_sim : {W : Type 0} → SimState W
new_sim = record { entry_date = []; entry_notional = []; seq = 0; fills = [] }

-- Whether the position was entered on an earlier date.
abbrev pub entered_before : Option ℕ → ℕ → Bool
entered_before none today = false
entered_before (some entry) today = ltb entry today

module _ {W : Type 0} where
  unfoldable pub reject : OrderIntentEvent W → Reason → OrderRejectedEvent
  reject i reason = record {
    order_id = "";
    symbol = i.symbol;
    exchange = i.exchange;
    side = i.side;
    quantity = i.quantity;
    reason = reason;
    strategy = i.strategy;
    ts = i.ts;
  }

  unfoldable pub accept : String → OrderIntentEvent W → OrderAcceptedEvent
  accept order_id i = record {
    order_id = order_id;
    symbol = i.symbol;
    exchange = i.exchange;
    side = i.side;
    quantity = i.quantity;
    strategy = i.strategy;
    ts = i.ts;
  }

module _ {W : Type 0} ⦃fl : Float W⦄ where
  abbrev pub entry_or_zero : Option W → W
  entry_or_zero none = nought
  entry_or_zero (some n) = n

  -- The uplift of the entry leg, from intraday to delivery.
  unfoldable pub delivery_uplift : IndianStatutoryCosts W → InstrumentClass → W → W
  delivery_uplift m kind notional =
      let intraday = for_instrument m kind none in
      let delivery = for_instrument m kind (some true) in
      fl.round4 (
        fl.fsub
          (fl.fsub (fl.fadd (stt delivery notional "BUY") (stamp delivery notional "BUY"))
            (stt intraday notional "BUY"))
          (stamp intraday notional "BUY"))

  -- The statutory charges of a fill, with what the delivery detection finds.
  unfoldable pub statutory_charges :
      SimConfig W → SimState W → SimInstrument W → OrderIntentEvent W → W → W → W
  unfolding delivery_uplift
  statutory_charges k s inst i notional commission = elim (k.statutory) [
    | none ↦ nought
    | some m ↦
        let overnight =
          not (i.side =? "BUY")
          && k.delivery_detection
          && entered_before (lookup i.symbol s.entry_date) (date_of i.ts) in
        let uplift =
          if overnight
          then delivery_uplift m inst.kind (entry_or_zero (lookup i.symbol s.entry_notional))
          else nought in
        fl.round4 (
          fl.fadd
            (total_cost (for_instrument m inst.kind (some overnight)) notional i.side
              (some commission))
            uplift)
  ]

  -- The dictionaries of the delivery detection after a fill.
  unfoldable pub note_entry : SimConfig W → OrderIntentEvent W → W → SimState W → SimState W
  note_entry k i notional s =
      if (i.side =? "BUY") && k.delivery_detection
      then record s {
        entry_date = insert i.symbol (date_of i.ts) s.entry_date;
        entry_notional = insert i.symbol notional s.entry_notional;
      }
      else s

  -- The part of `submit` from `self._seq += 1` on.
  unfoldable pub fill :
      SimConfig W → SimInstrument W → OrderIntentEvent W → W → SimState W → Outcome W
  unfolding statutory_charges note_entry accept
  fill k inst i fill_price s =
      let order_id = sim_id (suc s.seq) in
      let notional = fl.fmul fill_price (fl.of_int i.quantity) in
      let commission = fl.round4 (apply_commission k.commission notional) in
      let filled : OrderFilledEvent W = record {
        order_id = order_id;
        symbol = i.symbol;
        exchange = i.exchange;
        side = i.side;
        quantity = i.quantity;
        fill_price = fl.round4 fill_price;
        commission = commission;
        statutory = statutory_charges k s inst i notional commission;
        strategy = i.strategy;
        ts = i.ts;
      } in
      let noted = note_entry k i notional s in
      (
        record noted { seq = suc s.seq; fills = s.fills ++ filled ∷ [] },
        order_accepted (accept order_id i) ∷ order_filled filled ∷ [],
        none,
      )

  unfoldable pub price_and_fill :
      SimConfig W → SimInstrument W → OrderIntentEvent W → W → SimState W → Outcome W
  unfolding fill reject
  price_and_fill k inst i fill_price s =
      if fl.fle fill_price nought
      then (s, [], some (reject i invalid_fill_price))
      else fill k inst i fill_price s

  unfoldable pub submit_to :
      SimConfig W → SimInstrument W → OrderIntentEvent W → SimState W → Outcome W
  unfolding price_and_fill reject
  submit_to k inst i s =
      let base = or_else i.reference_price (or_zero inst.ltp) in
      if i.order_type =? "MARKET"
      then (if fl.fle base nought
          then (s, [], some (reject i no_market_price))
          else price_and_fill k inst i (apply_slippage k.slippage base i.side) s)
      else price_and_fill k inst i (or_zero i.price) s

  -- `SimulatedExecution.submit`
  unfoldable pub submit : SimConfig W → Instruments W → OrderIntentEvent W → SimState W → Outcome W
  unfolding submit_to reject
  submit k instruments i s = elim (instruments i.symbol) [
    | none ↦ (s, [], some (reject i unknown_instrument))
    | some inst ↦ submit_to k inst i s
  ]

-- The bar that `bar_provider` returns.
pub record Bar (W : Type 0) : Type 0 where
  pub open_price : W
  pub high : W
  pub low : W
  pub close : W

pub data MarketOn : Type 0 where
  at_open at_close : MarketOn

module _ {W : Type 0} ⦃fl : Float W⦄ where
  -- `FillPolicy.market_price`
  unfoldable pub market_price : MarketOn → Bar W → W
  market_price at_open bar = bar.open_price
  market_price at_close bar = bar.close

  -- `min` and `max` of Python
  abbrev pub min_of : W → W → W
  min_of x y = if fl.flt y x then y else x

  abbrev pub max_of : W → W → W
  max_of x y = if fl.flt x y then y else x

  -- `FillPolicy.limit_fill`
  unfoldable pub limit_fill : OrderIntentEvent W → Bar W → Option W
  limit_fill i bar =
      if i.side =? "BUY"
      then (if fl.fle bar.low i.price then some (min_of i.price bar.open_price) else none)
      else (if fl.fle i.price bar.high then some (max_of i.price bar.open_price) else none)

  -- `BarAwareExecution.submit`, with the bar that is being processed.
  unfoldable pub submit_on_bar :
      SimConfig W → Instruments W → Option (Bar W) → OrderIntentEvent W → SimState W → Outcome W
  unfolding submit limit_fill reject
  submit_on_bar k instruments none i s = submit k instruments i s
  submit_on_bar k instruments (some bar) i s =
      if i.order_type =? "MARKET" then submit k instruments i s else elim (limit_fill i bar) [
        | none ↦ (s, [], some (reject i limit_not_touched))
        | some price ↦ submit k instruments (record i { price = price }) s
      ]
