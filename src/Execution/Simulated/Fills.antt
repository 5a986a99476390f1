-- ===== src/Execution/Simulated/Fills.antt =====
-- What `submit` of ntrade/execution/simulator.py publishes and keeps, and when an order of
-- ntrade/backtest/fills.py fills on a bar.
use n_trade.Prelude.{
  suc, ◌≡◌, refl, ◌⊎◌, inl, inr, true, false, none, some, [], ◌∷◌, ◌++◌, ◌=?◌, String, string_eq,
  if◌then◌else◌, Bool-cases,
}
use n_trade.Prelude.Float.{Float}
use n_trade.Domain.{
  OrderIntentEvent, OrderFilledEvent, order_accepted, order_filled, Reason, no_market_price,
  invalid_fill_price, limit_not_touched, nought, or_zero, or_else,
}
use n_trade.Prelude.Int.{pos}
use n_trade.Costs.{SlippageModel, fixed_slippage, percentage_slippage, apply_slippage}
use n_trade.Execution.Ids.{sim_id}
use n_trade.Execution.Simulated.{
  SimConfig, SimState, SimInstrument, Instruments, Outcome, Bar, reject, accept, fill,
  price_and_fill, submit_to, submit, limit_fill, submit_on_bar,
}

-- What Python promises of rounded sums and products, for a price that is a finite number:
-- its difference with itself is 0.
pub record PriceLaws (W : Type 0) (fl : Float W) : Type 0 where
  pub add_raises :
      (x p : W)
      → fl.feq (fl.fsub x x) (fl.of_int (pos 0)) ≡ true
      → fl.fle (fl.of_int (pos 0)) p ≡ true
      → fl.fle x (fl.fadd x p) ≡ true
  pub sub_lowers :
      (x p : W)
      → fl.feq (fl.fsub x x) (fl.of_int (pos 0)) ≡ true
      → fl.fle (fl.of_int (pos 0)) p ≡ true
      → fl.fle (fl.fsub x p) x ≡ true
  pub mul_raises :
      (x p : W)
      → fl.feq (fl.fsub x x) (fl.of_int (pos 0)) ≡ true
      → fl.fle x (fl.of_int (pos 0)) ≡ false
      → fl.fle (fl.of_int (pos 0)) p ≡ true
      → fl.fle x (fl.fmul x (fl.fadd (fl.of_int (pos 1)) p)) ≡ true
  pub mul_lowers :
      (x p : W)
      → fl.feq (fl.fsub x x) (fl.of_int (pos 0)) ≡ true
      → fl.fle x (fl.of_int (pos 0)) ≡ false
      → fl.fle (fl.of_int (pos 0)) p ≡ true
      → fl.fle (fl.fmul x (fl.fsub (fl.of_int (pos 1)) p)) x ≡ true

-- Nothing is published or kept, and the intent comes back as a rejection for a reason.
abbrev pub IsRefusal : {W : Type 0} → OrderIntentEvent W → SimState W → Reason → Outcome W → Type 0
IsRefusal i s r out = out ≡ (s, [], some (reject i r))

module _ {W : Type 0} ⦃fl : Float W⦄ where
  -- The events are an acceptance and a fill of the whole quantity, under the next id.
  abbrev pub IsWholeFill :
      OrderIntentEvent W → W → SimState W → Outcome W → OrderFilledEvent W → Type 0
  IsWholeFill i price s out f =
      (out.1 ≡ order_accepted (accept (sim_id (suc s.seq)) i) ∷ order_filled f ∷ [])
      × (out.2 ≡ none)
      × (out.0.seq ≡ suc s.seq)
      × (out.0.fills ≡ s.fills ++ f ∷ [])
      × (f.order_id ≡ sim_id (suc s.seq))
      × (f.symbol ≡ i.symbol)
      × (f.side ≡ i.side)
      × (f.quantity ≡ i.quantity)
      × (f.fill_price ≡ fl.round4 price)

  fill-IsWholeFill :
      (k : SimConfig W) (inst : SimInstrument W) (i : OrderIntentEvent W) (price : W)
      (s : SimState W)
      → (f : OrderFilledEvent W) × IsWholeFill i price s (fill k inst i price s) f
  unfolding fill
  fill-IsWholeFill k inst i price s = (_, (refl, refl, refl, refl, refl, refl, refl, refl, refl))

  -- A number that is not infinite: the difference with itself is 0.
  abbrev pub IsFinite : W → Type 0
  IsFinite x = fl.feq (fl.fsub x x) nought ≡ true

  -- A slippage of 0 or more.
  abbrev pub IsCost : SlippageModel W → Type 0
  IsCost (fixed_slippage points) = fl.fle nought points ≡ true
  IsCost (percentage_slippage pct) = fl.fle nought pct ≡ true

  -- The price of a fill: for a market order the reference or worse for the side, else the limit.
  abbrev pub IsFairPrice : OrderIntentEvent W → W → W → Type 0
  IsFairPrice i base price =
      ((i.order_type =? "MARKET") ≡ true)
        × (fl.fle base nought ≡ false)
        × ((if i.side =? "BUY" then fl.fle base price else fl.fle price base) ≡ true)
      ⊎ ((i.order_type =? "MARKET") ≡ false) × (price ≡ or_zero i.price)

  apply_slippage-worse :
      (m : SlippageModel W) (base : W) (side : String)
      → PriceLaws W fl
      → IsCost m
      → IsFinite base
      → fl.fle base nought ≡ false
      → let price = apply_slippage m base side in
        (if side =? "BUY" then fl.fle base price else fl.fle price base) ≡ true
  unfolding apply_slippage
  apply_slippage-worse (fixed_slippage points) base side laws cost finite live =
      elim (Bool-cases (side =? "BUY")) [
        | inl buys ↦ rw buys (laws.add_raises base points finite cost)
        | inr sells ↦ rw sells (laws.sub_lowers base points finite cost)
      ]
  apply_slippage-worse (percentage_slippage pct) base side laws cost finite live =
      elim (Bool-cases (side =? "BUY")) [
        | inl buys ↦ rw buys (laws.mul_raises base pct finite live cost)
        | inr sells ↦ rw sells (laws.mul_lowers base pct finite live cost)
      ]

  submit_to-outcome :
      (k : SimConfig W) (inst : SimInstrument W) (i : OrderIntentEvent W) (s : SimState W)
      → PriceLaws W fl
      → IsCost k.slippage
      → IsFinite (or_else i.reference_price (or_zero inst.ltp))
      → let base = or_else i.reference_price (or_zero inst.ltp) in
        let out = submit_to k inst i s in
        ((price : W) × (f : OrderFilledEvent W) × IsFairPrice i base price
          × (fl.fle price nought ≡ false)
          × IsWholeFill i price s out f)
        ⊎ (((i.order_type =? "MARKET") ≡ true)
            × (fl.fle base nought ≡ true)
            × IsRefusal i s no_market_price out)
        ⊎ ((price : W) × IsFairPrice i base price
            × (fl.fle price nought ≡ true)
            × IsRefusal i s invalid_fill_price out)
  unfolding submit_to price_and_fill
  submit_to-outcome k inst i s laws cost finite =
      let base = or_else i.reference_price (or_zero inst.ltp) in
      let slipped = apply_slippage k.slippage base i.side in
      elim (Bool-cases (i.order_type =? "MARKET")) [
        | inl market ↦ elim (Bool-cases (fl.fle base nought)) [
          | inl dead ↦ rw (market, dead) (inr (inl (refl, refl, refl)))
          | inr live ↦
              let worse = apply_slippage-worse k.slippage base i.side laws cost finite live in
              elim (Bool-cases (fl.fle slipped nought)) [
                | inl under ↦
                    rw (market, live, under)
                      (inr (inr (slipped, inl (refl, refl, worse), under, refl)))
                | inr over ↦
                    let (f, whole) = fill-IsWholeFill k inst i slipped s in
                    rw (market, live, over) (inl (slipped, f, inl (refl, refl, worse), over, whole))
              ]
        ]
        | inr priced ↦ elim (Bool-cases (fl.fle (or_zero i.price) nought)) [
          | inl under ↦
              rw (priced, under) (inr (inr (or_zero i.price, inr (refl, refl), under, refl)))
          | inr over ↦
              let (f, whole) = fill-IsWholeFill k inst i (or_zero i.price) s in
              rw (priced, over) (inl (or_zero i.price, f, inr (refl, refl), over, whole))
        ]
      ]

  -- With rounded sums and products that keep the order, as Python's do, a slippage of 0 or more, and a
  -- reference price (the last price when there is none) that is a finite number: an order for a known
  -- instrument is filled whole, under the next id and at its price rounded, or refused with nothing
  -- published or kept. A market order fills at the reference price or, for its side, at a worse one: a
  -- buy not below it, anything else not above it; it is refused for want of a market price when the
  -- reference is not above 0. Every other order fills at its limit. Where the price that comes out is
  -- not above 0, the order is refused as invalid.
  pub submit-outcome :
      (k : SimConfig W) (instruments : Instruments W) (inst : SimInstrument W)
      (i : OrderIntentEvent W) (s : SimState W)
      → PriceLaws W fl
      → IsCost k.slippage
      → instruments i.symbol ≡ some inst
      → IsFinite (or_else i.reference_price (or_zero inst.ltp))
      → let base = or_else i.reference_price (or_zero inst.ltp) in
        let out = submit k instruments i s in
        ((price : W) × (f : OrderFilledEvent W) × IsFairPrice i base price
          × (fl.fle price nought ≡ false)
          × IsWholeFill i price s out f)
        ⊎ (((i.order_type =? "MARKET") ≡ true)
            × (fl.fle base nought ≡ true)
            × IsRefusal i s no_market_price out)
        ⊎ ((price : W) × IsFairPrice i base price
            × (fl.fle price nought ≡ true)
            × IsRefusal i s invalid_fill_price out)
  unfolding submit
  submit-outcome k instruments inst i s laws cost known finite =
      rw (known, submit) (submit_to-outcome k inst i s laws cost finite)

  -- A limit order is refused on a bar whose range does not reach its limit, with the state
  -- unchanged. Otherwise it is submitted at a price that is the limit itself, or the bar's open where that is better
  -- for its side.
  pub submit_on_bar-limit :
      (k : SimConfig W) (instruments : Instruments W) (bar : Bar W) (i : OrderIntentEvent W)
      (s : SimState W)
      → (i.order_type =? "MARKET") ≡ false
      → let out = submit_on_bar k instruments (some bar) i s in
        let buys = i.side =? "BUY" in
        let touched = if buys then fl.fle bar.low i.price else fl.fle i.price bar.high in
        (touched ≡ false) × IsRefusal i s limit_not_touched out
        ⊎ (touched ≡ true)
          × ((price : W) × (out ≡ submit k instruments (record i { price = price }) s)
              × ((price ≡ i.price)
                  ⊎ (price ≡ bar.open_price)
                    × ((if buys
                          then fl.flt bar.open_price i.price
                          else fl.flt i.price bar.open_price)
                        ≡ true)))
  unfolding submit_on_bar limit_fill
  submit_on_bar-limit k instruments bar i s limit = elim (Bool-cases (i.side =? "BUY")) [
    | inl buys ↦ elim (Bool-cases (fl.fle bar.low i.price)) [
      | inl hit ↦ elim (Bool-cases (fl.flt bar.open_price i.price)) [
        | inl better ↦ rw (limit, buys, hit, better) (inr (refl, (_, refl, inr (refl, refl))))
        | inr worse ↦ rw (limit, buys, hit, worse) (inr (refl, (_, refl, inl refl)))
      ]
      | inr miss ↦ rw (limit, buys, miss) (inl (refl, refl))
    ]
    | inr sells ↦ elim (Bool-cases (fl.fle i.price bar.high)) [
      | inl hit ↦ elim (Bool-cases (fl.flt i.price bar.open_price)) [
        | inl better ↦ rw (limit, sells, hit, better) (inr (refl, (_, refl, inr (refl, refl))))
        | inr worse ↦ rw (limit, sells, hit, worse) (inr (refl, (_, refl, inl refl)))
      ]
      | inr miss ↦ rw (limit, sells, miss) (inl (refl, refl))
    ]
  ]
