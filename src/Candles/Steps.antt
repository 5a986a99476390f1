-- ===== src/Candles/Steps.antt =====
-- One tick or quote of ntrade/engines/candle_engine.py: what it does to the open candle of each
-- symbol, to the closed rows and to what is published.
use n_trade.Prelude.{
  ℕ, ◌+◌, ◌≡◌, refl, ap, ◌∙◌, Bool, true, false, String, Option, none, some, [], ◌∷◌, ◌=?◌, inl,
  inr, ltb, ◌==◌, string_eq, keep, Bool-cases, arith,
}
use n_trade.Prelude.Dict.{lookup, lookup-insert, lookup-insert_self}
use n_trade.Prelude.Float.{Float}
use n_trade.Market.{TickEvent, CandleClosedEvent}
use n_trade.Candles.{
  Candle, CandleEngine, closed_event, close_candle, close_previous, is_late, fresh_candle,
  take_tick, settle_tick,
}

module _ {W : Type 0} where
  -- What the operations never change.
  pub record Same (k k' : CandleEngine W) : Type 0 where
    pub seconds : k'.seconds ≡ k.seconds
    pub timeframe : k'.timeframe ≡ k.timeframe
    pub mode : k'.mode ≡ k.mode

  abbrev pub is_of : String → CandleClosedEvent W → Bool
  is_of s e = e.symbol =? s

  -- The open candles stay, and nothing of another symbol is published.
  pub close_previous-opens :
      (symbol : String) (b : ℕ) (o : Option (Candle W)) (k : CandleEngine W)
      → (close_previous symbol b o k).0.open_candles ≡ k.open_candles
  unfolding close_previous
  close_previous-opens symbol b none k = refl
  close_previous-opens symbol b (some c) k = ground arith

  pub close_previous-other :
      (s symbol : String) (b : ℕ) (o : Option (Candle W)) (k : CandleEngine W)
      → (symbol =? s) ≡ false
      → keep (is_of s) (close_previous symbol b o k).1 ≡ []
  unfolding close_previous
  close_previous-other s symbol b none k other = refl
  close_previous-other s symbol b (some c) k other = elim (Bool-cases (c.bucket == b)) [
    | inl same ↦ rw same refl
    | inr new ↦ rw (new, other) refl
  ]

  pub close_previous-Same :
      (symbol : String) (b : ℕ) (o : Option (Candle W)) (k : CandleEngine W)
      → Same k (close_previous symbol b o k).0
  unfolding close_previous
  close_previous-Same symbol b none k = record { seconds = refl; timeframe = refl; mode = refl }
  close_previous-Same symbol b (some c) k = record {
    seconds = ground arith;
    timeframe = ground arith;
    mode = ground arith;
  }

module _ {W : Type 0} ⦃fl : Float W⦄ (t : TickEvent W) (k : CandleEngine W) where
  pub settle_tick-Same : (b : ℕ) (before : Option (Candle W)) → Same k (settle_tick b before t k).0
  unfolding settle_tick
  settle_tick-Same b before =
      let p = close_previous-Same t.symbol b before k in
      elim (Bool-cases (is_late b before)) [
        | inl late ↦ rw late (record { seconds = refl; timeframe = refl; mode = refl })
        | inr kept ↦
            rw kept (record { seconds = p.seconds; timeframe = p.timeframe; mode = p.mode })
      ]

  pub settle_tick-other :
      (s : String) (b : ℕ) (before : Option (Candle W))
      → (t.symbol =? s) ≡ false
      → (lookup s (settle_tick b before t k).0.open_candles ≡ lookup s k.open_candles)
        × (keep (is_of s) (settle_tick b before t k).1 ≡ [])
  unfolding settle_tick
  settle_tick-other s b before other = elim (Bool-cases (is_late b before)) [
    | inl late ↦ rw late (refl, refl)
    | inr kept ↦ rw kept (
      lookup-insert t.symbol s _ _
          ∙ (rw other (ap (lookup s) (close_previous-opens t.symbol b before k))),
      close_previous-other s t.symbol b before k other,
    )
  ]

  pub settle_tick-first :
      (b : ℕ)
      → (lookup t.symbol (settle_tick b none t k).0.open_candles
          ≡ some (take_tick t (fresh_candle b t)))
        × ((settle_tick b none t k).1 ≡ [])
  unfolding settle_tick close_previous
  settle_tick-first b = (lookup-insert_self t.symbol _ k.open_candles, refl)

  module _ (b : ℕ) (c : Candle W) where
    pub settle_tick-late :
        ltb b c.bucket ≡ true
        → settle_tick b (some c) t k ≡ (record k { late_ticks = k.late_ticks + 1 }, [])
    unfolding settle_tick
    settle_tick-late late = rw late refl

    pub settle_tick-same :
        (c.bucket == b) ≡ true
        → (lookup t.symbol (settle_tick b (some c) t k).0.open_candles ≡ some (take_tick t c))
          × ((settle_tick b (some c) t k).1 ≡ [])
    unfolding settle_tick close_previous
    settle_tick-same same =
        let kept : ltb b c.bucket ≡ false = ground arith in
        rw (kept, same) (lookup-insert_self t.symbol _ k.open_candles, refl)

    pub settle_tick-next :
        ltb c.bucket b ≡ true
        → (lookup t.symbol (settle_tick b (some c) t k).0.open_candles
            ≡ some (take_tick t (fresh_candle b t)))
          × ((settle_tick b (some c) t k).1 ≡ closed_event k.seconds k.timeframe t.symbol c ∷ [])
    unfolding settle_tick close_previous close_candle
    settle_tick-next later =
        let kept : ltb b c.bucket ≡ false = ground arith in
        let new : (c.bucket == b) ≡ false = ground arith in
        rw (kept, new) (lookup-insert_self t.symbol _ k.open_candles, refl)
