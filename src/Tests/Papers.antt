-- ===== src/Tests/Papers.antt =====
-- The paper broker and the gap detector at concrete inputs.
use n_trade.Prelude.{
  suc, ◌+◌, ◌*◌, ◌≡◌, refl, not, none, some, List, [], ◌∷◌, map, length, string_eq, nat_eq, arith,
  String,
}
use n_trade.Prelude.Dict.{lookup, insert, elem}
use n_trade.Prelude.Int.{ℤ, pos, ◌+ℤ◌}
use n_trade.Prelude.Float.{int_float}
use n_trade.Domain.{Order, buy, sell, market, mis, pending}
use n_trade.Portfolio.{on_fills}
use n_trade.Portfolio.Lookup.{held}
use n_trade.Paper.{PaperBroker, new_paper, place_order, cancel_order, trade_book, stored}
use n_trade.Paper.Ledger.{place_all, paper_held, fill_of, place_all-matches}
use n_trade.Paper.Cancels.{cancel_order-drops_trade}
use n_trade.Gaps.{missing_ranges, missing_times, date_range}
use n_trade.Gaps.Ranges.{expand, Apart, missing_ranges-cover}

abbrev bought : Order ℤ
bought = record {
  symbol = "INFY";
  side = buy;
  quantity = pos 10;
  order_type = market;
  trade_type = mis;
  price = pos 0;
  reference_price = pos 100;
  trigger_price = pos 0;
  target_price = pos 0;
  stop_loss_price = pos 0;
  order_id = none;
  status = pending;
  filled_qty = pos 0;
  avg_price = pos 0;
  created_at = none;
}

abbrev sold : Order ℤ
sold = record bought { side = sell; quantity = pos 4 }

abbrev plain : String → String
plain s = s

abbrev start : PaperBroker ℤ
start = new_paper ⦃fl = int_float⦄ (pos 1000)

abbrev orders : List (Order ℤ × ℤ)
orders = (bought, pos 0) ∷ (sold, pos 120) ∷ []

abbrev traded : PaperBroker ℤ
traded = elim (place_all ⦃fl = int_float⦄ plain orders start) [ none ↦ start | some b ↦ b ]

place_all-matches_example :
    paper_held "INFY" traded
    ≡ held "INFY"
        (on_fills ⦃fl = int_float⦄
          (map (λ (p : Order ℤ × ℤ). fill_of ⦃fl = int_float⦄ p.0 p.1) orders)
          (record { positions = []; balance = pos 1000 })).positions
unfolding place_all place_order new_paper lookup insert ◌+ℤ◌
place_all-matches_example =
    place_all-matches ⦃fl = int_float⦄ plain "INFY" orders (pos 1000) traded refl

abbrev placed : PaperBroker ℤ
placed = elim (place_order ⦃fl = int_float⦄ plain bought (pos 0) start) [
  | none ↦ start
  | some r ↦ r.0
]

cancel_order-drops_trade_example :
    let b2 = (cancel_order (stored 0) placed).0 in
    (length (trade_book placed) ≡ suc (length (trade_book start)))
    × (trade_book b2 ≡ trade_book start)
    × (b2.positions ≡ placed.positions)
unfolding place_order new_paper
cancel_order-drops_trade_example =
    cancel_order-drops_trade ⦃fl = int_float⦄ plain bought (pos 0) start placed (stored 0) tt refl

-- Bars at 0, 5, 10, 15 and 20, of which 5 and 15 are stored.
missing_ranges_runs : missing_ranges 0 20 5 (5 ∷ 15 ∷ []) ≡ (0, 0) ∷ (10, 10) ∷ (20, 20) ∷ []
unfolding missing_ranges elem
missing_ranges_runs = refl

missing_ranges-cover_example :
    let gaps = missing_ranges 0 20 5 (5 ∷ 15 ∷ []) in
    (expand 5 gaps ≡ missing_times (5 ∷ 15 ∷ []) (date_range 21 0 20 5))
    × Apart 5 gaps
    × (elem (0 + 2 * 5) (expand 5 gaps) ≡ not (elem (0 + 2 * 5) (5 ∷ 15 ∷ [])))
missing_ranges-cover_example = missing_ranges-cover 0 20 5 5 (15 ∷ []) 2 (omega arith) (omega arith)
