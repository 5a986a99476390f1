-- ===== src/Costs.antt =====
-- ntrade/execution/costs.py: slippage, commission and the statutory charges of Indian markets.
pub mod Schedules
use n_trade.Prelude.{
  ℕ, ◌≡◌, Bool, true, false, not, ◌&&◌, ◌||◌, String, Option, none, some, List, [], ◌∷◌, ◌=?◌,
  string_eq, if◌then◌else◌, leb,
}
use n_trade.Prelude.Dict.{Dict, lookup}
use n_trade.Execution.Text.{upper_is}
use n_trade.Prelude.Int.{ℤ, pos, ◌-ℤ◌, leb_ℤ}
use n_trade.Prelude.Float.{Float}
use n_trade.Domain.{nought}

-- The subclasses of `SlippageModel`.
pub data SlippageModel (W : Type 0) : Type 0 where
  fixed_slippage percentage_slippage : W → SlippageModel W

-- The subclasses of `CommissionModel`; a percentage has its minimum.
pub data CommissionModel (W : Type 0) : Type 0 where
  flat_commission : W → CommissionModel W
  percentage_commission : W → W → CommissionModel W

-- The class of an instrument, as far as `for_instrument` looks.
pub data InstrumentClass : Type 0 where
  option future other : InstrumentClass

pub record IndianStatutoryCosts (W : Type 0) : Type 0 where
  pub product : String
  pub delivery : Bool
  pub brokerage : W
  pub stt_rates : Dict String W
  pub exchange_rates : Dict String W
  pub sebi_fee : W
  pub gst_rate : W
  pub stamp_rates : Dict String W

-- `side.upper() == "SELL"`
abbrev pub is_sell : String → Bool
is_sell side = upper_is side "SELL"

abbrev pub is_fno : String → Bool
is_fno product = product =? "futures" || product =? "options"

abbrev pub or_given : Option Bool → Bool → Bool
or_given none d = d
or_given (some b) d = b

module _ {W : Type 0} ⦃fl : Float W⦄ where
  unfoldable pub apply_slippage : SlippageModel W → W → String → W
  apply_slippage (fixed_slippage points) price side =
      if side =? "BUY" then fl.fadd price points else fl.fsub price points
  apply_slippage (percentage_slippage pct) price side =
      let one = fl.of_int (pos 1) in
      if side =? "BUY" then fl.fmul price (fl.fadd one pct) else fl.fmul price (fl.fsub one pct)

  -- `max(x, y)` of Python: the first unless the second is greater.
  abbrev pub max_float : W → W → W
  max_float x y = if fl.flt x y then y else x

  unfoldable pub apply_commission : CommissionModel W → W → W
  apply_commission (flat_commission amount) notional = amount
  apply_commission (percentage_commission pct minimum) notional =
      max_float (fl.fmul notional pct) minimum

  -- The class's tables `STT`, `EXCHANGE_CHARGE` and `STAMP_DUTY`, and `__init__` with no argument.
  unfoldable pub default_costs : IndianStatutoryCosts W
  default_costs = record {
    product = "equity";
    delivery = false;
    brokerage = nought;
    stt_rates =
        ("equity_delivery_buy", fl.decimal 25 5)
        ∷ ("equity_delivery_sell", fl.decimal 1 3)
        ∷ ("equity_intraday_sell", fl.decimal 25 5)
        ∷ ("fno_buy", fl.decimal 625 6)
        ∷ ("fno_sell", fl.decimal 125 5)
        ∷ [];
    exchange_rates =
        ("equity", fl.decimal 297 7)
        ∷ ("futures", fl.decimal 173 7)
        ∷ ("options", fl.decimal 503 6)
        ∷ [];
    sebi_fee = fl.decimal 1 6;
    gst_rate = fl.decimal 18 2;
    stamp_rates =
        ("equity_delivery_buy", fl.decimal 3 5)
        ∷ ("equity_intraday", fl.decimal 2 5)
        ∷ ("fno", fl.decimal 1 4)
        ∷ [];
  }

  -- `rates.get(key, 0.0)`
  abbrev pub rate : Dict String W → String → W
  rate rates key = elim (lookup key rates) [ none ↦ nought | some r ↦ r ]

  unfoldable pub stt_key : IndianStatutoryCosts W → String → String
  stt_key m side =
      if is_fno m.product
      then (if is_sell side then "fno_sell" else "fno_buy")
      else if m.delivery
      then (if is_sell side then "equity_delivery_sell" else "equity_delivery_buy")
      else (if is_sell side then "equity_intraday_sell" else "equity_intraday_buy")

  unfoldable pub stt : IndianStatutoryCosts W → W → String → W
  unfolding stt_key
  stt m notional side = fl.fmul notional (rate m.stt_rates (stt_key m side))

  unfoldable pub exchange_charge : IndianStatutoryCosts W → W → W
  exchange_charge m notional = fl.fmul notional (rate m.exchange_rates m.product)

  unfoldable pub sebi : IndianStatutoryCosts W → W → W
  sebi m notional = fl.fmul notional m.sebi_fee

  unfoldable pub stamp : IndianStatutoryCosts W → W → String → W
  stamp m notional side =
      let key =
        if is_fno m.product
        then "fno"
        else if m.delivery
        then "equity_delivery_buy"
        else "equity_intraday" in
      if is_sell side then nought else fl.fmul notional (rate m.stamp_rates key)

  -- `brokerage` is the keyword argument, or `none` for the model's own.
  unfoldable pub gst : IndianStatutoryCosts W → W → Option W → W
  unfolding exchange_charge sebi
  gst m notional brokerage =
      let brk : W = elim brokerage [ none ↦ m.brokerage | some b ↦ b ] in
      fl.fmul (fl.fadd (fl.fadd brk (exchange_charge m notional)) (sebi m notional)) m.gst_rate

  unfoldable pub total_cost : IndianStatutoryCosts W → W → String → Option W → W
  unfolding stt exchange_charge sebi stamp gst
  total_cost m notional side brokerage =
      fl.fadd
        (fl.fadd
          (fl.fadd (fl.fadd (stt m notional side) (exchange_charge m notional)) (sebi m notional))
          (stamp m notional side))
        (gst m notional brokerage)

  abbrev pub product_of : InstrumentClass → IndianStatutoryCosts W → String × Bool
  product_of option m = ("options", false)
  product_of future m = ("futures", false)
  product_of other m = (m.product, m.delivery)

  -- The source returns `self` when product and delivery stay as they are, which is the same value.
  unfoldable pub for_instrument :
      IndianStatutoryCosts W → InstrumentClass → Option Bool → IndianStatutoryCosts W
  for_instrument m c delivery =
      let (product, d) = product_of c m in
      record m { product = product; delivery = or_given delivery d }

-- `FuturesCarryCosts`
pub record FuturesCarryCosts (W : Type 0) : Type 0 where
  pub risk_free : W
  pub dividend_yield : W
  pub roll_pct : W
  pub carry_window_days : ℤ

module _ {W : Type 0} ⦃fl : Float W⦄ where
  unfoldable pub daily_carry : FuturesCarryCosts W → W → ℤ → W
  daily_carry f notional days =
      if leb_ℤ days (pos 0)
      then nought
      else fl.fdiv
          (fl.fmul (fl.fmul notional (fl.fsub f.risk_free f.dividend_yield)) (fl.of_int days))
          (fl.decimal 365 0)

  unfoldable pub roll_cost : FuturesCarryCosts W → W → W
  roll_cost f notional = fl.fmul notional f.roll_pct

  -- `expiry` and `now` are dates, as day numbers.
  unfoldable pub within_window : FuturesCarryCosts W → Option ℤ → ℤ → Bool
  within_window f expiry now = elim expiry [
    | none ↦ false
    | some e ↦ leb_ℤ (pos 0) (e -ℤ now) && leb_ℤ (e -ℤ now) f.carry_window_days
  ]
