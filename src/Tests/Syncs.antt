-- ===== src/Tests/Syncs.antt =====
-- A reconciliation with the broker's positions at a concrete input.
use n_trade.Prelude.{◌≡◌, none, some, List, [], ◌∷◌}
use n_trade.Prelude.Int.{ℤ, pos}
use n_trade.Prelude.Float.{int_float}
use n_trade.Domain.{Position}
use n_trade.Portfolio.{position, Book}
use n_trade.Positions.{sync}
use n_trade.Positions.Synced.{figures, sync-figures}

abbrev holding : Position ℤ
holding = record {
  symbol = "INFY";
  quantity = pos 10;
  avg_price = pos 100;
  ltp = pos 101;
  product = "MIS";
  exchange = "NSE";
  strategy = some "orb";
}

abbrev book : Book ℤ
book = record { positions = holding ∷ record holding { symbol = "TCS" } ∷ []; balance = pos 5000 }

abbrev reported : List (Position ℤ)
reported =
    record holding { quantity = pos 7; strategy = none } ∷ record holding { symbol = "SBIN" } ∷ []

sync-figures_example :
    figures (
      position "INFY"
        (sync ⦃fl = int_float⦄ 9 (some reported) (some (pos 4000)) book none).0.positions)
    ≡ some (pos 7, pos 100, pos 101)
sync-figures_example = sync-figures ⦃fl = int_float⦄ 9 reported (some (pos 4000)) book none "INFY"
