-- ===== src/Costs/Schedules.antt =====
-- Which schedule a leg is charged by.
use n_trade.Prelude.{◌≡◌, refl, Bool, false, String, Option, none, some, string_eq}
use n_trade.Prelude.Float.{Float}
use n_trade.Domain.{nought}
use n_trade.Prelude.Dict.{lookup}
use n_trade.Costs.{
  IndianStatutoryCosts, InstrumentClass, option, future, other, is_sell, stt, total_cost,
  for_instrument, default_costs,
}

module _ {W : Type 0} ⦃fl : Float W⦄ where
  -- For futures and options the delivery flag changes no charge, so the overnight detection of the
  -- simulated target leaves them on the same schedule.
  pub total_cost-fno_delivery :
      (m : IndianStatutoryCosts W) (notional : W) (side : String) (brokerage : Option W) (d : Bool)
      → (total_cost (for_instrument m option (some d)) notional side brokerage
          ≡ total_cost (for_instrument m option none) notional side brokerage)
        × (total_cost (for_instrument m future (some d)) notional side brokerage
            ≡ total_cost (for_instrument m future none) notional side brokerage)
  unfolding total_cost for_instrument
  total_cost-fno_delivery m notional side brokerage d = (refl, refl)

  -- Adjusting a model to an instrument again, with no delivery flag, changes nothing, and a given
  -- flag is the one that counts.
  pub for_instrument-again :
      (m : IndianStatutoryCosts W) (c : InstrumentClass) (d e : Option Bool)
      → (for_instrument (for_instrument m c none) c none ≡ for_instrument m c none)
        × ((b : Bool)
            → for_instrument (for_instrument m c d) c (some b) ≡ for_instrument m c (some b))
  unfolding for_instrument
  for_instrument-again m option d e = (refl, λ b. refl)
  for_instrument-again m future d e = (refl, λ b. refl)
  for_instrument-again m other d e = (refl, λ b. refl)

  -- By the default rates an intraday equity buy is charged no STT: its key is not in the table.
  pub stt-intraday_buy :
      (notional : W) (side : String)
      → is_sell side ≡ false
      → stt default_costs notional side ≡ fl.fmul notional nought
  unfolding stt default_costs lookup
  stt-intraday_buy notional side h = rw (stt, h) refl
