-- ===== src/Candles.antt =====
-- ntrade/engines/candle_engine.py: `CandleEngine`, which aggregates ticks into candles, one engine
-- for a time frame. A candle that closes is published: an operation returns what it publishes. The
-- handlers of a closed candle publish no tick and no quote, so no operation runs inside another.
pub mod Steps
pub mod Runs
pub mod Series
use n_trade.Prelude.{
  ℕ, ◌+◌, ◌-◌, ◌%◌, Bool, true, false, not, ◌&&◌, String, Option, none, some, List, [], ◌∷◌, ◌++◌,
  ◌=?◌, if◌then◌else◌, ltb, ◌==◌, length, drop, string_eq,
}
use n_trade.Prelude.Dict.{Dict, lookup, insert, erase}
use n_trade.Prelude.Int.{ℤ, pos, negsuc, ◌+ℤ◌}
use n_trade.Prelude.Float.{Float}
use n_trade.Market.{Stamp, TickEvent, QuoteEvent, CandleClosedEvent, epoch}

-- The dict of an open candle.
pub record Candle (W : Type 0) : Type 0 where
  pub bucket : ℕ
  pub exchange : String
  pub open_price : W
  pub high : W
  pub low : W
  pub close_price : W
  pub volume : ℤ

pub record CandleEngine (W : Type 0) : Type 0 where
  pub seconds : ℕ
  pub timeframe : String
  pub open_candles : Dict String (Candle W)
  pub closed : Dict String (List (CandleClosedEvent W))
  pub max_candles : ℕ
  pub bar_seeded : Dict String ℕ
  pub mode : String
  pub late_ticks : ℕ

-- The engine after an operation, with the candles that it publishes.
abbrev pub Outcome : Type 0 → Type 0
Outcome W = CandleEngine W × List (CandleClosedEvent W)

-- `self._bucket(ts)`, from the seconds since the epoch.
abbrev pub bucket_of : ℕ → ℕ → ℕ
bucket_of seconds t = t - t % seconds

-- `del buf[:len(buf) - self._max_candles]`
abbrev pub trim {ℓ} : {A : Type ℓ} → ℕ → List A → List A
trim n rows = if ltb n (length rows) then drop (length rows - n) rows else rows

-- Whether a quote of the tick's bucket has already seeded the candle.
abbrev pub is_seeded : ℕ → Option ℕ → Bool
is_seeded bucket none = false
is_seeded bucket (some b) = b == bucket

module _ {W : Type 0} where
  unfoldable pub new_engine : String → ℕ → ℕ → String → CandleEngine W
  new_engine timeframe seconds max_candles mode = record {
    seconds = seconds;
    timeframe = timeframe;
    open_candles = [];
    closed = [];
    max_candles = max_candles;
    bar_seeded = [];
    mode = mode;
    late_ticks = 0;
  }

  abbrev pub rows_of : String → CandleEngine W → List (CandleClosedEvent W)
  rows_of symbol k = elim (lookup symbol k.closed) [ none ↦ [] | some rows ↦ rows ]

  -- The event of a candle that closes.
  abbrev pub closed_event : ℕ → String → String → Candle W → CandleClosedEvent W
  closed_event seconds timeframe symbol c = record {
    symbol = symbol;
    exchange = c.exchange;
    timeframe = timeframe;
    open_price = c.open_price;
    high = c.high;
    low = c.low;
    close_price = c.close_price;
    volume = c.volume;
    ts = c.bucket + seconds;
  }

  unfoldable pub close_candle : String → Candle W → CandleEngine W → Outcome W
  close_candle symbol c k =
      let rows =
        trim k.max_candles (rows_of symbol k ++ closed_event k.seconds k.timeframe symbol c ∷ []) in
      (
        record k { closed = insert symbol rows k.closed },
        closed_event k.seconds k.timeframe symbol c ∷ [],
      )

  -- The open candle of a symbol is closed, if there is one and it is of another bucket.
  unfoldable pub close_previous : String → ℕ → Option (Candle W) → CandleEngine W → Outcome W
  unfolding close_candle
  close_previous symbol bucket none k = (k, [])
  close_previous symbol bucket (some c) k =
      if c.bucket == bucket then (k, []) else close_candle symbol c k

  -- The candle that takes an update: the open one if it is of the bucket, else a fresh one.
  abbrev pub current : ℕ → Option (Candle W) → Candle W → Candle W
  current bucket none fresh = fresh
  current bucket (some c) fresh = if c.bucket == bucket then c else fresh

  -- Whether a tick of the bucket comes after the open candle's bucket has begun to be over.
  abbrev pub is_late : ℕ → Option (Candle W) → Bool
  is_late bucket none = false
  is_late bucket (some c) = ltb bucket c.bucket

  unfoldable pub ingest_bar : (ℕ → ℕ) → QuoteEvent W → CandleEngine W → Outcome W
  unfolding close_previous
  ingest_bar ist q k =
      let bucket : ℕ = bucket_of k.seconds (epoch ist q.ts) in
      let (k', published) = close_previous q.symbol bucket (lookup q.symbol k.open_candles) k in
      let bar : Candle W = record {
        bucket = bucket;
        exchange = q.exchange;
        open_price = q.open_price;
        high = q.high;
        low = q.low;
        close_price = q.ltp;
        volume = pos 0;
      } in
      let target = current bucket (lookup q.symbol k.open_candles) bar in
      let filled : Candle W = record target {
        open_price = q.open_price;
        high = q.high;
        low = q.low;
        close_price = q.ltp;
        volume = q.volume;
      } in
      (
        record k' {
          open_candles = insert q.symbol filled k'.open_candles;
          bar_seeded = insert q.symbol bucket k'.bar_seeded;
        },
        published,
      )

  unfoldable pub on_quote : (ℕ → ℕ) → QuoteEvent W → CandleEngine W → Outcome W
  unfolding ingest_bar
  on_quote ist q k = if k.mode =? "backtest" then ingest_bar ist q k else (k, [])

  -- `candles(symbol, limit)`
  unfoldable pub candles : String → Option ℤ → CandleEngine W → List (CandleClosedEvent W)
  candles symbol none k = rows_of symbol k
  candles symbol (some (negsuc n)) k = drop (n + 1) (rows_of symbol k)
  candles symbol (some (pos n)) k =
      let rows = rows_of symbol k in if n == 0 then rows else drop (length rows - n) rows

  -- One round of the loop of `flush`.
  unfoldable pub flush_symbol : String → CandleEngine W → Outcome W
  unfolding close_candle
  flush_symbol symbol k = elim (lookup symbol k.open_candles) [
    | none ↦ (k, [])
    | some c ↦ close_candle symbol c (record k { open_candles = erase symbol k.open_candles })
  ]

  unfoldable pub flush_all : List String → CandleEngine W → Outcome W
  unfolding flush_symbol
  flush_all [] k = (k, [])
  flush_all (s ∷ ss) k =
      let (k1, first) = flush_symbol s k in let (k2, rest) = flush_all ss k1 in (k2, first ++ rest)

  abbrev pub symbols_of : Dict String (Candle W) → List String
  symbols_of [] = []
  symbols_of ((s, _) ∷ d) = s ∷ symbols_of d

  unfoldable pub flush : Option String → CandleEngine W → Outcome W
  unfolding flush_all
  flush none k = flush_all (symbols_of k.open_candles) k
  flush (some s) k = flush_all (s ∷ []) k

module _ {W : Type 0} ⦃fl : Float W⦄ where
  -- Python's `max(a, b)` and `min(a, b)`
  abbrev pub fmax : W → W → W
  fmax a b = if fl.flt a b then b else a

  abbrev pub fmin : W → W → W
  fmin a b = if fl.flt b a then b else a

  abbrev pub fresh_candle : ℕ → TickEvent W → Candle W
  fresh_candle bucket t = record {
    bucket = bucket;
    exchange = t.exchange;
    open_price = t.price;
    high = t.price;
    low = t.price;
    close_price = t.price;
    volume = pos 0;
  }

  unfoldable pub take_tick : TickEvent W → Candle W → Candle W
  take_tick t c = record c {
    high = fmax c.high t.price;
    low = fmin c.low t.price;
    close_price = t.price;
    volume = c.volume +ℤ t.quantity;
  }

  -- `_ingest` from the bucket of the tick and the open candle of its symbol.
  unfoldable pub settle_tick : ℕ → Option (Candle W) → TickEvent W → CandleEngine W → Outcome W
  settle_tick bucket before t k =
      let (k', published) = close_previous t.symbol bucket before k in
      let target = current bucket before (fresh_candle bucket t) in
      if is_late bucket before then (record k { late_ticks = k.late_ticks + 1 }, []) else (
        record k' { open_candles = insert t.symbol (take_tick t target) k'.open_candles },
        published,
      )

  unfoldable pub ingest : (ℕ → ℕ) → TickEvent W → CandleEngine W → Outcome W
  unfolding settle_tick
  ingest ist t k =
      settle_tick (bucket_of k.seconds (epoch ist t.ts)) (lookup t.symbol k.open_candles) t k

  unfoldable pub on_tick : (ℕ → ℕ) → TickEvent W → CandleEngine W → Outcome W
  unfolding ingest
  on_tick ist t k =
      if (k.mode =? "backtest")
        && is_seeded (bucket_of k.seconds (epoch ist t.ts)) (lookup t.symbol k.bar_seeded)
      then (k, [])
      else ingest ist t k

  -- The ticks that the bus delivers, one after the other.
  unfoldable pub on_ticks : (ℕ → ℕ) → List (TickEvent W) → CandleEngine W → Outcome W
  unfolding on_tick
  on_ticks ist [] k = (k, [])
  on_ticks ist (t ∷ ts) k =
      let (k1, first) = on_tick ist t k in
      let (k2, rest) = on_ticks ist ts k1 in (k2, first ++ rest)
