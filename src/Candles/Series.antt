-- ===== src/Candles/Series.antt =====
-- In live mode the engine of ntrade/engines/candle_engine.py publishes, for each symbol, the candles
-- of the runs of its ticks.
use n_trade.Prelude.{
  ℕ, ◌≡◌, refl, ap, ◌∙◌, Bool, true, false, String, Option, none, some, List, [], ◌∷◌, ◌++◌, ◌=?◌,
  inl, inr, ltb, ◌==◌, string_eq, keep, keep-append, map, Bool-cases, arith, =?_iff, =?_refl,
  append_assoc, ==_iff,
}
use n_trade.Prelude.Dict.{lookup}
use n_trade.Prelude.Float.{Float}
use n_trade.Market.{TickEvent, CandleClosedEvent, epoch}
use n_trade.Candles.{
  Candle, CandleEngine, bucket_of, closed_event, close_candle, settle_tick, ingest, on_tick,
  on_ticks, flush, flush_symbol, flush_all,
}
use n_trade.Candles.Runs.{
  Run, bucket, on_time, runs, runs_from, ticks_of, Ascend, candle_of, runs-ticks, runs-Ascend,
  take_tick-more, take_tick-first,
}
use n_trade.Candles.Steps.{
  Same, is_of, settle_tick-Same, settle_tick-other, settle_tick-first, settle_tick-late,
  settle_tick-same, settle_tick-next,
}

abbrev pub is_on : {W : Type 0} → String → TickEvent W → Bool
is_on s t = t.symbol =? s

module _ {W : Type 0} ⦃fl : Float W⦄ (ist : ℕ → ℕ) (s : String) where
  -- What is published of the symbol, to the end of a session that flushes it.
  abbrev series : List (TickEvent W) → CandleEngine W → List (CandleClosedEvent W)
  series ts k = keep (is_of s) (on_ticks ist ts k).1 ++ (flush (some s) (on_ticks ist ts k).0).1

  abbrev IsLive : CandleEngine W → Type 0
  IsLive k = (k.mode =? "backtest") ≡ false

  abbrev stepped : TickEvent W → CandleEngine W → CandleEngine W
  stepped t k = (ingest ist t k).0

  on_tick-live :
      (t : TickEvent W) (k : CandleEngine W) → IsLive k → on_tick ist t k ≡ ingest ist t k
  unfolding on_tick
  on_tick-live t k live = rw live refl

  series-step :
      (t : TickEvent W) (ts : List (TickEvent W)) (k : CandleEngine W)
      → IsLive k
      → series (t ∷ ts) k ≡ keep (is_of s) (ingest ist t k).1 ++ series ts (stepped t k)
  unfolding on_ticks
  series-step t ts k live =
      rw
        (
          on_tick-live t k live,
          keep-append (is_of s) (ingest ist t k).1 (on_ticks ist ts (stepped t k)).1,
        )
        (append_assoc (keep (is_of s) (ingest ist t k).1)
          (keep (is_of s) (on_ticks ist ts (stepped t k)).1)
          (flush (some s) (on_ticks ist ts (stepped t k)).0).1)

  ingest-Same : (t : TickEvent W) (k : CandleEngine W) → Same k (stepped t k)
  unfolding ingest
  ingest-Same t k =
      settle_tick-Same t k (bucket_of k.seconds (epoch ist t.ts)) (lookup t.symbol k.open_candles)

  series-none : (k : CandleEngine W) → lookup s k.open_candles ≡ none → series [] k ≡ []
  unfolding on_ticks flush flush_all flush_symbol
  series-none k unseen = rw (flush_symbol, unseen) refl

  series-last :
      (k : CandleEngine W) (c : Candle W)
      → lookup s k.open_candles ≡ some c
      → series [] k ≡ closed_event k.seconds k.timeframe s c ∷ []
  unfolding on_ticks flush flush_all flush_symbol close_candle
  series-last k c opened = rw (flush_symbol, opened) refl

  series-skip :
      (t : TickEvent W) (ts : List (TickEvent W)) (k : CandleEngine W)
      → IsLive k
      → (t.symbol =? s) ≡ false
      → (series (t ∷ ts) k ≡ series ts (stepped t k))
        × (lookup s (stepped t k).open_candles ≡ lookup s k.open_candles)
  unfolding ingest
  series-skip t ts k live other =
      let p =
        settle_tick-other t k s (bucket_of k.seconds (epoch ist t.ts))
          (lookup t.symbol k.open_candles) other in
      (
        (series-step t ts k live)
            ∙ ap (λ (l : List (CandleClosedEvent W)). l ++ series ts (stepped t k)) p.1,
        p.0,
      )

module _ {W : Type 0} ⦃fl : Float W⦄ (ist : ℕ → ℕ) (s : String) (n : ℕ) (frame : String) where
  -- An engine of the interval and the frame, in live mode.
  record Live (k : CandleEngine W) : Type 0 where
    seconds : k.seconds ≡ n
    timeframe : k.timeframe ≡ frame
    live : (k.mode =? "backtest") ≡ false

  Live-stepped : (t : TickEvent W) {k : CandleEngine W} → Live k → Live (ingest ist t k).0
  Live-stepped t {k} l =
      let p = ingest-Same ist s t k in
      record {
        seconds = p.seconds ∙ l.seconds;
        timeframe = p.timeframe ∙ l.timeframe;
        live = rw p.mode l.live;
      }

  abbrev event_of : Run W → CandleClosedEvent W
  event_of r = closed_event n frame s (candle_of (bucket ist n r.0) r)

  abbrev Holds : CandleEngine W → Run W → Type 0
  Holds k r = lookup s k.open_candles ≡ some (candle_of (bucket ist n r.0) r)

  abbrev expected : Run W → List (TickEvent W) → List (CandleClosedEvent W)
  expected r ts =
      map event_of (runs_from ist n r (on_time ist n (bucket ist n r.0) (keep (is_on s) ts)))

  -- A tick of the symbol, by its bucket: the first, late, of the open candle, or of a later one.
  module _ (t : TickEvent W) (k : CandleEngine W) (l : Live k) (own : t.symbol ≡ s) where
    ingest-at :
        (o : Option (Candle W))
        → lookup s k.open_candles ≡ o
        → ingest ist t k ≡ settle_tick (bucket ist n t) o t k
    unfolding ingest bucket
    ingest-at o h = rw (own, l.seconds, h) refl

    abbrev Turns : Run W → List (CandleClosedEvent W) → Type 0
    Turns r sent = (Holds (ingest ist t k).0 r) × ((ingest ist t k).1 ≡ sent)

    run_first : lookup s k.open_candles ≡ none → Turns (t, []) []
    run_first unseen =
        let p = settle_tick-first t k (bucket ist n t) in
        rw (ingest-at none unseen)
          (rw (← own) (p.0 ∙ ap some (take_tick-first (bucket ist n t) t)), p.1)

    module _ (r : Run W) (h : Holds k r) where
      run_late : ltb (bucket ist n t) (bucket ist n r.0) ≡ true → Turns r []
      unfolding candle_of
      run_late late =
          rw
            (
              ingest-at _ h,
              settle_tick-late t k (bucket ist n t) (candle_of (bucket ist n r.0) r) late,
            )
            (h, refl)

      run_same : (bucket ist n r.0 == bucket ist n t) ≡ true → Turns (r.0, r.1 ++ t ∷ []) []
      unfolding candle_of
      run_same same =
          let p = settle_tick-same t k (bucket ist n t) (candle_of (bucket ist n r.0) r) same in
          rw (ingest-at _ h)
            (rw (← own) (p.0 ∙ ap some (take_tick-more (bucket ist n r.0) r t)), p.1)

      run_next : ltb (bucket ist n r.0) (bucket ist n t) ≡ true → Turns (t, []) (event_of r ∷ [])
      unfolding candle_of
      run_next later =
          let p = settle_tick-next t k (bucket ist n t) (candle_of (bucket ist n r.0) r) later in
          rw (ingest-at _ h) (
            rw (← own) (p.0 ∙ ap some (take_tick-first (bucket ist n t) t)),
            rw (p.1, l.seconds, l.timeframe, own) refl,
          )

  series-own :
      (t : TickEvent W) (ts : List (TickEvent W)) (k : CandleEngine W) (l : Live k)
      (own : (t.symbol =? s) ≡ true) (r : Run W) (sent : List (CandleClosedEvent W))
      → Turns t k l ((=?_iff t.symbol s).0 own) r sent
      → series ist s (t ∷ ts) k ≡ keep (is_of s) sent ++ series ist s ts (ingest ist t k).0
  series-own t ts k l own r sent p = rw (← p.1) (series-step ist s t ts k l.live)

  series-from :
      (ts : List (TickEvent W)) (k : CandleEngine W) (r : Run W)
      → Live k
      → Holds k r
      → series ist s ts k ≡ expected r ts
  unfolding on_time runs_from
  series-from [] k r l h = series-last ist s k _ h ∙ (rw (l.seconds, l.timeframe) refl)
  series-from (t ∷ ts) k r l h = elim (Bool-cases (t.symbol =? s)) [
    | inr other ↦
        let q = series-skip ist s t ts k l.live other in
        q.0 ∙ series-from ts (ingest ist t k).0 r (Live-stepped t l) (q.1 ∙ h) ∙ (rw other refl)
    | inl own ↦ elim (Bool-cases (ltb (bucket ist n t) (bucket ist n r.0))) [
      | inl late ↦
          let p = run_late t k l ((=?_iff t.symbol s).0 own) r h late in
          series-own t ts k l own r [] p
          ∙ series-from ts (ingest ist t k).0 r (Live-stepped t l) p.0
          ∙ (rw (own, on_time, late) refl)
      | inr kept ↦ elim (Bool-cases (bucket ist n r.0 == bucket ist n t)) [
        | inl same ↦
            let p = run_same t k l ((=?_iff t.symbol s).0 own) r h same in
            series-own t ts k l own (r.0, r.1 ++ t ∷ []) [] p
            ∙ series-from ts (ingest ist t k).0 (r.0, r.1 ++ t ∷ []) (Live-stepped t l) p.0
            ∙ (rw (own, on_time, kept, runs_from, same) (rw (← (==_iff _ _).0 same) refl))
        | inr new ↦
            let p = run_next t k l ((=?_iff t.symbol s).0 own) r h (ground arith) in
            series-own t ts k l own (t, []) (event_of r ∷ []) p
            ∙ (rw (=?_refl s, own, on_time, kept, runs_from, new)
                (ap (λ (es : List (CandleClosedEvent W)). event_of r ∷ es)
                  (series-from ts (ingest ist t k).0 (t, []) (Live-stepped t l) p.0)))
      ]
    ]
  ]

  series-fresh :
      (ts : List (TickEvent W)) (k : CandleEngine W)
      → Live k
      → lookup s k.open_candles ≡ none
      → series ist s ts k ≡ map event_of (runs ist n (on_time ist n 0 (keep (is_on s) ts)))
  unfolding on_time runs
  series-fresh [] k l unseen = series-none ist s k unseen
  series-fresh (t ∷ ts) k l unseen = elim (Bool-cases (t.symbol =? s)) [
    | inr other ↦
        let q = series-skip ist s t ts k l.live other in
        q.0 ∙ series-fresh ts (ingest ist t k).0 (Live-stepped t l) (q.1 ∙ unseen) ∙ (rw other refl)
    | inl own ↦
        let p = run_first t k l ((=?_iff t.symbol s).0 own) unseen in
        let zero_first : ltb (bucket ist n t) 0 ≡ false = ground arith in
        series-own t ts k l own (t, []) [] p
        ∙ series-from ts (ingest ist t k).0 (t, []) (Live-stepped t l) p.0
        ∙ (rw (own, on_time, zero_first) refl)
  ]

-- In live mode, from an engine that has no open candle of the symbol: what the ticks and a final
-- flush of the symbol publish of it is one candle for each run of its ticks that are on time, with
-- the first price, the highest and the lowest, the last, and the traded volume. The runs hold the
-- ticks that are on time in their order, each run those of one bucket, in growing buckets.
pub on_ticks-runs :
    {W : Type 0} ⦃fl : Float W⦄ (ist : ℕ → ℕ) (s : String) (ts : List (TickEvent W))
    (k : CandleEngine W)
    → (k.mode =? "backtest") ≡ false
    → lookup s k.open_candles ≡ none
    → let mine = on_time ist k.seconds 0 (keep (is_on s) ts) in
      (keep (is_of s) (on_ticks ist ts k).1 ++ (flush (some s) (on_ticks ist ts k).0).1
        ≡ map
            (λ (r : Run W).
              closed_event k.seconds k.timeframe s (candle_of (bucket ist k.seconds r.0) r))
            (runs ist k.seconds mine))
      × (ticks_of (runs ist k.seconds mine) ≡ mine)
      × Ascend ist k.seconds 0 (runs ist k.seconds mine)
on_ticks-runs ist s ts k live unseen = (
  series-fresh ist s k.seconds k.timeframe ts k
      (record { seconds = refl; timeframe = refl; live = live }) unseen,
  runs-ticks ist k.seconds (on_time ist k.seconds 0 (keep (is_on s) ts)),
  runs-Ascend ist k.seconds 0 (keep (is_on s) ts),
)
