-- ===== src/Tests/Feeds.antt =====
-- The candle engine at concrete inputs.
use n_trade.Prelude.{ℕ, ◌*◌, ◌≡◌, refl, none, some, List, [], ◌∷◌, ◌++◌, map, keep, string_eq}
use n_trade.Prelude.Dict.{lookup, insert, erase}
use n_trade.Prelude.Int.{ℤ, pos, ◌+ℤ◌}
use n_trade.Prelude.Float.{int_float}
use n_trade.Market.{TickEvent, CandleClosedEvent, aware}
use n_trade.Candles.{
  CandleEngine, new_engine, closed_event, close_previous, take_tick, on_ticks, flush,
}
use n_trade.Candles.Runs.{Run, bucket, on_time, runs, ticks_of, Ascend, candle_of}
use n_trade.Candles.Steps.{is_of}
use n_trade.Candles.Series.{is_on, on_ticks-runs}

abbrev tick : ℕ → ℕ → TickEvent ℤ
tick second price = record {
  symbol = "INFY";
  exchange = "NSE";
  price = pos price;
  quantity = pos 2;
  ts = aware (second * 1_000_000);
}

abbrev ticks : List (TickEvent ℤ)
ticks = tick 61 100 ∷ tick 70 90 ∷ tick 125 95 ∷ tick 80 1 ∷ tick 126 97 ∷ []

abbrev minutes : CandleEngine ℤ
minutes = new_engine "1m" 60 100 "live"

abbrev same_clock : ℕ → ℕ
same_clock t = t

-- The tick at second 80 is late.
volumes_of_ticks :
    map
      (λ (e : CandleClosedEvent ℤ). e.volume)
      ((on_ticks ⦃fl = int_float⦄ same_clock ticks minutes).1
        ++ (flush none (on_ticks ⦃fl = int_float⦄ same_clock ticks minutes).0).1)
    ≡ pos 4 ∷ pos 4 ∷ []
unfolding new_engine on_ticks flush lookup insert erase ◌+ℤ◌ close_previous take_tick
volumes_of_ticks = refl

on_ticks-runs_example :
    let mine = on_time same_clock 60 0 (keep (is_on "INFY") ticks) in
    let after = on_ticks ⦃fl = int_float⦄ same_clock ticks minutes in
    (keep (is_of "INFY") after.1 ++ (flush (some "INFY") after.0).1
      ≡ map
          (λ (r : Run ℤ).
            closed_event 60 "1m" "INFY" (candle_of ⦃fl = int_float⦄ (bucket same_clock 60 r.0) r))
          (runs same_clock 60 mine))
    × (ticks_of (runs same_clock 60 mine) ≡ mine)
    × Ascend same_clock 60 0 (runs same_clock 60 mine)
unfolding new_engine lookup
on_ticks-runs_example = on_ticks-runs ⦃fl = int_float⦄ same_clock "INFY" ticks minutes refl refl
