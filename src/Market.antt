-- ===== src/Market.antt =====
-- The market events of ntrade/events/market.py, with the timestamps that ntrade/domain/types.py
-- tells apart. `W` is Python's `float`.
use n_trade.Prelude.{ℕ, ◌/◌, String}
use n_trade.Prelude.Int.{ℤ}

-- A `datetime` in whole microseconds: since the epoch if it has a time zone, of its wall clock if
-- it has none.
pub data Stamp : Type 0 where
  aware naive : ℕ → Stamp

pub record TickEvent (W : Type 0) : Type 0 where
  pub symbol : String
  pub exchange : String
  pub price : W
  pub quantity : ℤ
  pub ts : Stamp

pub record QuoteEvent (W : Type 0) : Type 0 where
  pub symbol : String
  pub exchange : String
  pub ltp : W
  pub open_price : W
  pub high : W
  pub low : W
  pub volume : ℤ
  pub ts : Stamp

-- `ts` is the wall clock of UTC in whole seconds.
pub record CandleClosedEvent (W : Type 0) : Type 0 where
  pub symbol : String
  pub exchange : String
  pub timeframe : String
  pub open_price : W
  pub high : W
  pub low : W
  pub close_price : W
  pub volume : ℤ
  pub ts : ℕ

-- `int(ts.timestamp())`, a naive time first read in the zone of India by `ist`, which takes the
-- microseconds of a wall clock there to the microseconds since the epoch.
abbrev pub epoch : (ℕ → ℕ) → Stamp → ℕ
epoch ist (aware t) = t / 1_000_000
epoch ist (naive t) = ist t / 1_000_000
