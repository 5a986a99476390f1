-- ===== src/Tests/Books.antt =====
-- The portfolio, the risk engine, the costs and the order types at concrete inputs.
use n_trade.Prelude.{
  suc, ◌+◌, ◌≡◌, ◌≢◌, ◌↔◌, ◌⊎◌, refl, true, false, string_eq, none, some, List, [], ◌∷◌, ◌++◌,
  count, map, false,
}
use n_trade.Prelude.Int.{ℤ, pos, negsuc, ◌+ℤ◌, ◌-ℤ◌, ◌*ℤ◌}
use n_trade.Prelude.Float.{int_float}
use n_trade.Domain.{OrderFilledEvent, SignalGeneratedEvent}
use n_trade.Portfolio.{Book, on_fills}
use n_trade.Portfolio.Lookup.{Distinct, held}
use n_trade.Portfolio.Netting.{traded_all, on_fills-held}
use n_trade.Risk.{
  RiskConfig, RiskState, Context, Refusal, new_risk, check, check_signal, on_signal,
  update_breakers, equity, approved_event, rejected_event,
}
use n_trade.Risk.Screening.{IsWithinLimits, check_signal_iff, on_signal-verdict}
use n_trade.Risk.Breakers.{checked, wealth, peak_of, fall, IsAbove, checked-trips}
use n_trade.Risk.Halting.{
  Call, run, signals, checks, resumes, is_halted_event, is_resumed_event, one_if, run-halts_balance,
}

abbrev bought : OrderFilledEvent ℤ
bought = record {
  order_id = "SIM-000001";
  symbol = "INFY";
  exchange = "NSE";
  side = "BUY";
  quantity = pos 10;
  fill_price = pos 100;
  commission = pos 2;
  statutory = pos 1;
  strategy = "orb";
  ts = 5;
}

abbrev sold : OrderFilledEvent ℤ
sold = record bought {
  order_id = "SIM-000002";
  side = "SELL";
  quantity = pos 15;
  fill_price = pos 120;
}

abbrev book : Book ℤ
book = record { positions = []; balance = pos 10000 }

on_fills-held_example :
    let b = on_fills ⦃fl = int_float⦄ (bought ∷ sold ∷ []) book in
    Distinct b.positions
    × (held "INFY" b.positions
        ≡ held "INFY" book.positions +ℤ traded_all ⦃fl = int_float⦄ "INFY" (bought ∷ sold ∷ []))
on_fills-held_example = on_fills-held ⦃fl = int_float⦄ "INFY" (bought ∷ sold ∷ []) book tt

not_flat : pos 10 ≢ pos 0
not_flat = cc

turns_round : pos 10 +ℤ negsuc 14 ≢ pos 0
unfolding ◌+ℤ◌
turns_round = cc

abbrev limits : RiskConfig ℤ
limits = record {
  max_quantity = some (pos 20);
  max_notional = some (pos 5000);
  max_positions = some 3;
  allowlist = some ("INFY" ∷ []);
  strategy = some "orb";
  max_daily_loss = some (pos 500);
  max_drawdown_pct = none;
  price_deviation_pct = none;
}

abbrev signal : SignalGeneratedEvent ℤ
signal = record {
  symbol = "INFY";
  exchange = "NSE";
  side = "BUY";
  quantity = pos 10;
  price = pos 100;
  order_type = "LIMIT";
  strategy = "orb";
  reference_price = pos 100;
  ts = 7;
}

abbrev quiet : Context ℤ
quiet = record { balance = pos 10000; positions = []; instrument = λ _. none; now = 7 }

-- The account after a loss of 600.
abbrev losing : Context ℤ
losing = record quiet { balance = pos 9400; now = 9 }

abbrev engine : RiskState ℤ
engine = new_risk ⦃fl = int_float⦄ (pos 10000)

check_signal_iff_example :
    (check_signal ⦃fl = int_float⦄ limits quiet signal engine ≡ none)
    ↔ IsWithinLimits ⦃fl = int_float⦄ limits quiet signal engine
check_signal_iff_example = check_signal_iff ⦃fl = int_float⦄ limits quiet signal engine

on_signal-verdict_example :
    let (t, breaker_events) = update_breakers ⦃fl = int_float⦄ limits losing engine in
    let (u, events) = on_signal ⦃fl = int_float⦄ limits losing signal engine in
    ((events ≡ breaker_events ++ approved_event signal 7 ∷ [])
      × IsWithinLimits ⦃fl = int_float⦄ limits losing signal t
      × (u.approved ≡ suc t.approved)
      × (u.rejected ≡ t.rejected))
    ⊎ ((r : Refusal ℤ) × (events ≡ breaker_events ++ rejected_event signal r 7 ∷ [])
        × ¬ IsWithinLimits ⦃fl = int_float⦄ limits losing signal t
        × (u.approved ≡ t.approved)
        × (u.rejected ≡ suc t.rejected))
on_signal-verdict_example = on_signal-verdict ⦃fl = int_float⦄ limits losing signal engine refl

-- An account that rises and then falls by more than a tenth, below the cap of the loss.
abbrev falling : RiskConfig ℤ
falling = record limits { max_drawdown_pct = some (pos 10) }

abbrev balance_of : ℤ → Context ℤ
balance_of balance = record quiet { balance = balance }

checked-trips_example :
    let s = checked ⦃fl = int_float⦄ falling (quiet ∷ balance_of (pos 12000) ∷ []) engine in
    let peak =
      peak_of ⦃fl = int_float⦄
        (map (wealth ⦃fl = int_float⦄) (quiet ∷ balance_of (pos 12000) ∷ []))
        (wealth ⦃fl = int_float⦄ (balance_of (pos 9600))) in
    ((check ⦃fl = int_float⦄ falling (balance_of (pos 9600)) s).1.halted ≡ true) ↔ (
      IsAbove ⦃fl = int_float⦄
        (some (pos 500))
        (int_float.fsub (pos 10000) (wealth ⦃fl = int_float⦄ (balance_of (pos 9600))))
      ⊎ ((int_float.feq peak (pos 0) ≡ false)
          × IsAbove ⦃fl = int_float⦄
              (some (pos 10))
              (fall ⦃fl = int_float⦄ peak (wealth ⦃fl = int_float⦄ (balance_of (pos 9600))))))
unfolding checked check update_breakers new_risk equity ◌+ℤ◌ ◌-ℤ◌ ◌*ℤ◌
checked-trips_example =
    checked-trips ⦃fl = int_float⦄ falling (pos 10000) (quiet ∷ balance_of (pos 12000) ∷ [])
      (balance_of (pos 9600)) refl

abbrev calls : List (Call ℤ)
calls = checks losing ∷ signals quiet signal ∷ resumes quiet ∷ signals losing signal ∷ []

run-halts_balance_example :
    let (s, events) = run ⦃fl = int_float⦄ limits calls (new_risk ⦃fl = int_float⦄ (pos 10000)) in
    count is_halted_event events ≡ count is_resumed_event events + one_if s.halted
run-halts_balance_example = run-halts_balance ⦃fl = int_float⦄ limits (pos 10000) calls
