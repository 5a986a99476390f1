-- ===== src/Gate.antt =====
-- ntrade/runner/gate.py: the report of a paper run, from the recorded events. The texts and the
-- constants of its checklist are left out.
pub mod Mirror
use n_trade.Prelude.{
  ℕ, Bool, String, Option, none, some, List, [], ◌∷◌, ◌++◌, string_eq, if◌then◌else◌, length,
}
use n_trade.Prelude.Dict.{Dict, insert, erase}
use n_trade.Prelude.Int.{ℤ, pos, eqb_ℤ}
use n_trade.Prelude.Float.{Float}
use n_trade.Domain.{
  Position, OrderFilledEvent, PositionUpdatedEvent, Event, position_updated, balance_changed,
  order_filled, nought,
}

-- The state of `_equity_trace`.
pub record Trace (W : Type 0) : Type 0 where
  pub cash : W
  pub positions : Dict String (ℤ × W)
  pub peak : W

pub record PaperReport (W : Type 0) : Type 0 where
  pub n_trades : ℕ
  pub fills : List (OrderFilledEvent W)
  pub final_equity : W
  pub max_drawdown_pct : W
  pub total_charges : W

module _ {W : Type 0} ⦃fl : Float W⦄ where
  unfoldable pub new_trace : W → Trace W
  new_trace cash = record { cash = cash; positions = []; peak = cash }

  abbrev pub max_of : W → W → W
  max_of a b = if fl.flt a b then b else a

  -- The sum of the values of the positions, in their order.
  abbrev pub add_spots : W → Dict String (ℤ × W) → W
  add_spots acc [] = acc
  add_spots acc ((_, v) ∷ ps) = add_spots (fl.fadd acc (fl.fmul (fl.of_int v.0) v.1)) ps

  unfoldable pub trace_position : PositionUpdatedEvent W → Trace W → Trace W
  trace_position e t = record t {
    positions =
        if eqb_ℤ e.quantity (pos 0)
        then erase e.symbol t.positions
        else insert e.symbol (e.quantity, e.ltp) t.positions;
  }

  unfoldable pub trace_balance : W → Trace W → Trace W
  trace_balance balance t = record t {
    cash = balance;
    peak = max_of t.peak (fl.fadd balance (add_spots nought t.positions));
  }

  -- One event, with the peak and the equity that it yields, if it does.
  unfoldable pub trace_event : Event W → Trace W → Trace W × List (W × W)
  unfolding trace_position trace_balance
  trace_event (position_updated e) t = (trace_position e t, [])
  trace_event (balance_changed balance _) t =
      let after = trace_balance balance t in
      (after, (after.peak, fl.fadd balance (add_spots nought t.positions)) ∷ [])
  trace_event _ t = (t, [])

  unfoldable pub trace_events : List (Event W) → Trace W → Trace W × List (W × W)
  unfolding trace_event
  trace_events [] t = (t, [])
  trace_events (e ∷ es) t =
      let first = trace_event e t in
      let rest = trace_events es first.0 in (rest.0, first.1 ++ rest.1)

  -- `_equity_trace`, from the start on.
  unfoldable pub equity_trace : List (Event W) → W → List (W × W)
  unfolding trace_events new_trace
  equity_trace history initial_cash =
      (initial_cash, initial_cash) ∷ (trace_events history (new_trace initial_cash)).1

  unfoldable pub max_drawdown : W → List (W × W) → W
  max_drawdown drawdown [] = drawdown
  max_drawdown drawdown ((peak, eq) ∷ rest) =
      max_drawdown
        (if fl.flt nought peak
          then max_of drawdown (fl.fmul (fl.fdiv (fl.fsub peak eq) peak) (fl.of_int (pos 100)))
          else drawdown)
        rest

  unfoldable pub fills_of : List (Event W) → List (OrderFilledEvent W)
  fills_of [] = []
  fills_of (order_filled f ∷ es) = f ∷ fills_of es
  fills_of (_ ∷ es) = fills_of es

  abbrev pub add_charges : W → List (OrderFilledEvent W) → W
  add_charges acc [] = acc
  add_charges acc (f ∷ fs) = add_charges (fl.fadd acc (fl.fadd f.commission f.statutory)) fs

  -- `p.ltp or p.avg_price`
  abbrev pub price_of : Position W → W
  price_of p = if fl.feq p.ltp nought then p.avg_price else p.ltp

  abbrev pub add_positions : W → List (Position W) → W
  add_positions acc [] = acc
  add_positions acc (p ∷ ps) =
      add_positions (fl.fadd acc (fl.fmul (fl.of_int p.quantity) (price_of p))) ps

  unfoldable pub build_paper_report : List (Event W) → List (Position W) → W → W → PaperReport W
  unfolding equity_trace max_drawdown fills_of
  build_paper_report history positions balance initial_cash =
      let fills = fills_of history in
      record {
        n_trades = length fills;
        fills = fills;
        final_equity = fl.round2 (add_positions balance positions);
        max_drawdown_pct = fl.round2 (max_drawdown nought (equity_trace history initial_cash));
        total_charges = fl.round2 (add_charges nought fills);
      }
