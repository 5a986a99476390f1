-- ===== src/Tests/Reports.antt =====
-- A paper run of two fills, for ntrade/runner/gate.py.
use n_trade.Prelude.{◌≡◌, ◌≢◌, refl, string_eq, List, [], ◌∷◌}
use n_trade.Prelude.Int.{ℤ, pos, neg, ◌+ℤ◌, ◌-ℤ◌, ◌*ℤ◌}
use n_trade.Prelude.Dict.{insert, erase}
use n_trade.Prelude.Float.{int_float}
use n_trade.Domain.{OrderFilledEvent}
use n_trade.Portfolio.{Book, on_fills, apply_cash, closes, apply_fill, new_position}
use n_trade.Gate.{new_trace, trace_events, equity_trace}
use n_trade.Gate.Mirror.{spots, published, marks, equities, equity_trace-follows}

abbrev opening : OrderFilledEvent ℤ
opening = record {
  order_id = "SIM-000001";
  symbol = "TCS";
  exchange = "NSE";
  side = "BUY";
  quantity = pos 4;
  fill_price = pos 300;
  commission = pos 3;
  statutory = pos 2;
  strategy = "orb";
  ts = 7;
}

abbrev closing : OrderFilledEvent ℤ
closing = record opening { side = "SELL"; fill_price = pos 310 }

abbrev fills : List (OrderFilledEvent ℤ)
fills = opening ∷ closing ∷ []

abbrev started : Book ℤ
started = record { positions = []; balance = pos 5000 }

abbrev history : List ℤ
history =
    equities (equity_trace ⦃fl = int_float⦄ (published ⦃fl = int_float⦄ fills started) (pos 5000))

equity_of_run : history ≡ pos 5000 ∷ pos 4995 ∷ pos 5030 ∷ []
unfolding equity_trace published ◌+ℤ◌ ◌-ℤ◌ ◌*ℤ◌ neg apply_cash closes apply_fill new_position insert
    erase
equity_of_run = refl

sells : neg (pos 4) ≢ pos 0
unfolding neg
sells = cc

equity_trace-follows_example :
    let events = published ⦃fl = int_float⦄ fills started in
    ((trace_events ⦃fl = int_float⦄ events (new_trace ⦃fl = int_float⦄ (pos 5000))).0.positions
      ≡ spots (on_fills ⦃fl = int_float⦄ fills started).positions)
    × (history ≡ pos 5000 ∷ marks ⦃fl = int_float⦄ fills started)
equity_trace-follows_example =
    equity_trace-follows ⦃fl = int_float⦄ fills (pos 5000) (cc, (sells, tt))
