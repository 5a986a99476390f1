-- ===== src/Positions.antt =====
-- `PositionSyncEngine.sync` of ntrade/engines/position_sync.py over the portfolio and the risk
-- engine. What the broker's calls return is an argument; `none` stands for a call that failed. The
-- figures of a broker's position are of their declared types, on which `to_int` and `to_float` give
-- back what they are given.
pub mod Synced
use n_trade.Prelude.{
  ℕ, ◌≡◌, Bool, true, false, not, ◌&&◌, ◌||◌, String, Option, none, some, List, [], ◌∷◌, ◌++◌, ◌=?◌,
  string_eq, if◌then◌else◌, keep, length,
}
use n_trade.Prelude.Dict.{Dict, lookup, insert, contains}
use n_trade.Prelude.Int.{ℤ, pos, eqb_ℤ}
use n_trade.Prelude.Float.{Float}
use n_trade.Domain.{
  Position, PositionUpdatedEvent, Event, position_updated, balance_changed, nought,
}
use n_trade.Portfolio.{position, assign, Book}
use n_trade.Risk.{RiskState, rebase}

abbrev pub or_text : String → String → String
or_text x y = if x =? "" then y else x

module _ {W : Type 0} where
  -- `{p.symbol: p for p in reported}`
  unfoldable pub by_symbol : List (Position W) → Dict String (Position W) → Dict String (Position W)
  by_symbol [] d = d
  by_symbol (p ∷ ps) d = by_symbol ps (insert p.symbol p d)

  -- The figures that the broker reports, written to the local position.
  abbrev pub take_figures : Position W → Position W → Position W
  take_figures bp local = record local {
    quantity = bp.quantity;
    avg_price = bp.avg_price;
    ltp = bp.ltp;
    strategy = elim (bp.strategy) [ none ↦ local.strategy | some s ↦ some s ];
  }

  -- The positions without those that the broker does not report.
  unfoldable pub drop_unreported : Dict String (Position W) → List (Position W) → List (Position W)
  drop_unreported d [] = []
  drop_unreported d (p ∷ ps) =
      let rest = drop_unreported d ps in if contains p.symbol d then p ∷ rest else rest

module _ {W : Type 0} ⦃fl : Float W⦄ where
  -- The position that is made for a symbol that is not held.
  unfoldable pub empty_position : String → Position W → Position W
  empty_position symbol bp = record {
    symbol = symbol;
    quantity = pos 0;
    avg_price = nought;
    ltp = bp.ltp;
    product = or_text bp.product "MIS";
    exchange = or_text bp.exchange "NSE";
    strategy = bp.strategy;
  }

  abbrev pub has_changed : Position W → Position W → Bool
  has_changed bp local =
      not (eqb_ℤ local.quantity bp.quantity)
      || not (fl.feq local.avg_price bp.avg_price)
      || not (fl.feq local.ltp bp.ltp)

  unfoldable pub change_events : ℕ → String → Position W → Position W → List (Event W)
  change_events now symbol bp local =
      if has_changed bp local
      then position_updated (record {
        symbol = symbol;
        exchange = local.exchange;
        quantity = bp.quantity;
        avg_price = bp.avg_price;
        ltp = bp.ltp;
        ts = now;
      })
        ∷ []
      else []

  -- One round of the upsert loop.
  unfoldable pub upsert :
      ℕ → String → Position W → List (Position W) → List (Position W) × List (Event W)
  unfolding empty_position change_events position assign
  upsert now symbol bp ps = elim (position symbol ps) [
    | none ↦ (
      ps ++ take_figures bp (empty_position symbol bp) ∷ [],
      change_events now symbol bp (empty_position symbol bp),
    )
    | some local ↦ (assign symbol (take_figures bp) ps, change_events now symbol bp local)
  ]

  unfoldable pub upsert_all :
      ℕ → Dict String (Position W) → List (Position W) → List (Position W) × List (Event W)
  unfolding upsert
  upsert_all now [] ps = (ps, [])
  upsert_all now ((symbol, bp) ∷ d) ps =
      let (next, events) = upsert now symbol bp ps in
      let (after, more) = upsert_all now d next in (after, events ++ more)

  unfoldable pub drop_events : ℕ → Dict String (Position W) → List (Position W) → List (Event W)
  drop_events now d [] = []
  drop_events now d (p ∷ ps) =
      let rest = drop_events now d ps in
      if contains p.symbol d
      then rest
      else position_updated (record {
        symbol = p.symbol;
        exchange = p.exchange;
        quantity = pos 0;
        avg_price = nought;
        ltp = nought;
        ts = now;
      })
        ∷ rest

  -- The cash part: `balance` is `none` if the broker reports no cash or none that can be read.
  unfoldable pub sync_cash : ℕ → Option W → W → W × List (Event W)
  sync_cash now none cash = (cash, [])
  sync_cash now (some balance) cash =
      if fl.feq balance cash
      then (cash, [])
      else (fl.round4 balance, balance_changed (fl.round4 balance) now ∷ [])

  abbrev pub rebased_risk : Option W → Option (RiskState W) → Option (RiskState W)
  rebased_risk none risk = risk
  rebased_risk (some balance) none = none
  rebased_risk (some balance) (some s) = some (rebase balance s)

  -- `sync`: the book, the risk engine's state, the events and the number of positions.
  unfoldable pub sync :
      ℕ
      → Option (List (Position W))
      → Option W
      → Book W
      → Option (RiskState W)
      → Book W × Option (RiskState W) × List (Event W) × ℕ
  unfolding by_symbol upsert_all drop_unreported drop_events sync_cash
  sync now none balance book risk = (book, risk, [], length book.positions)
  sync now (some reported) balance book risk =
      let d = by_symbol reported [] in
      let (upserted, changes) = upsert_all now d book.positions in
      let kept = drop_unreported d upserted in
      let (cash, cash_events) = sync_cash now balance book.balance in
      (
        record { positions = kept; balance = cash },
        rebased_risk balance risk,
        changes ++ drop_events now d upserted ++ cash_events,
        length kept,
      )
