-- ===== src/Tests/Fills.antt =====
-- Orders on the simulated target with whole prices, for ntrade/execution/simulator.py.
use n_trade.Prelude.{
  ℕ, zero, suc, ◌+◌, ◌-◌, ◌*◌, ◌≤◌, ◌≡◌, ◌⊎◌, refl, true, false, string_eq, ◌=?◌, none, some, ◌==◌,
  leb, ltb, if◌then◌else◌, arith,
}
use Prim.Native.Nat.{◌/◌, ◌^◌}
use n_trade.Prelude.Int.{ℤ, pos, negsuc}
use n_trade.Prelude.Float.{Float}
use n_trade.Domain.{OrderIntentEvent, OrderFilledEvent, no_market_price, invalid_fill_price}
use n_trade.Costs.{percentage_slippage, flat_commission, other}
use n_trade.Execution.Simulated.{SimConfig, SimState, SimInstrument, Instruments, new_sim, submit}
use n_trade.Execution.Simulated.Fills.{
  PriceLaws, IsFairPrice, IsRefusal, IsWholeFill, submit-outcome,
}

abbrev magnitude : ℤ → ℕ
magnitude (pos n) = n
magnitude (negsuc n) = n + 1

abbrev whole : Float ℕ
whole = record {
  of_int = magnitude;
  decimal = λ m k. m / 10 ^ k;
  fadd = ◌+◌;
  fsub = ◌-◌;
  fmul = ◌*◌;
  fdiv = ◌/◌;
  fabs = λ x. x;
  round4 = λ x. x;
  round2 = λ x. x;
  flt = ltb;
  fle = leb;
  feq = ◌==◌;
}

times_more : (x p : ℕ) → x ≤ x * (1 + p)
times_more x p = grind arith

times_less : (x p : ℕ) → x * (1 - p) ≤ x
times_less x zero = grind arith
times_less x (suc p) = let none_left : 1 - suc p ≡ 0 = omega arith in rw none_left (grind arith)

leb-true : (a b : ℕ) → a ≤ b → leb a b ≡ true
leb-true a b le = ground (arith, le)

whole-PriceLaws : PriceLaws ℕ whole
whole-PriceLaws = record {
  add_raises = λ x p finite cost. leb-true x (x + p) (omega arith);
  sub_lowers = λ x p finite cost. leb-true (x - p) x (omega arith);
  mul_raises = λ x p finite live cost. leb-true x (x * (1 + p)) (times_more x p);
  mul_lowers = λ x p finite live cost. leb-true (x * (1 - p)) x (times_less x p);
}

-- A buy at 50, with a slippage of the whole price.
abbrev bid : OrderIntentEvent ℕ
bid = record {
  event_id = "e7";
  correlation_id = some "c7";
  symbol = "TCS";
  exchange = "NSE";
  side = "BUY";
  quantity = pos 3;
  order_type = "MARKET";
  price = 0;
  reference_price = 0;
  strategy = "vwap";
  ts = 4;
}

abbrev listed : SimInstrument ℕ
listed = record { kind = other; ltp = 50 }

abbrev listings : Instruments ℕ
listings symbol = if symbol =? "TCS" then some listed else none

abbrev costly : SimConfig ℕ
costly = record {
  slippage = percentage_slippage 1;
  commission = flat_commission 2;
  statutory = none;
  delivery_detection = true;
}

abbrev opened : SimState ℕ
opened = new_sim

submit-outcome_example :
    let out = submit ⦃fl = whole⦄ costly listings bid opened in
    ((price : ℕ) × (f : OrderFilledEvent ℕ) × IsFairPrice ⦃fl = whole⦄ bid 50 price
      × (leb price 0 ≡ false)
      × IsWholeFill ⦃fl = whole⦄ bid price opened out f)
    ⊎ (((bid.order_type =? "MARKET") ≡ true)
        × (leb 50 0 ≡ true)
        × IsRefusal bid opened no_market_price out)
    ⊎ ((price : ℕ) × IsFairPrice ⦃fl = whole⦄ bid 50 price
        × (leb price 0 ≡ true)
        × IsRefusal bid opened invalid_fill_price out)
submit-outcome_example =
    submit-outcome ⦃fl = whole⦄ costly listings listed bid opened whole-PriceLaws refl refl refl
