-- ===== src/Risk.antt =====
-- ntrade/engines/risk_engine.py: screens signals by static limits and circuit breakers. What the
-- engine reads of the context (balance, positions, market prices) is a record that a call takes;
-- the events that a method publishes are returned in order.
pub mod Screening
pub mod Halting
pub mod Breakers
use n_trade.Prelude.{
  ℕ, suc, ◌≡◌, Bool, true, false, not, ◌&&◌, ◌||◌, String, Option, none, some, List, [], ◌∷◌, ◌++◌,
  ◌=?◌, string_eq, if◌then◌else◌, leb, length, count,
}
use n_trade.Prelude.Dict.{elem}
use n_trade.Prelude.Int.{ℤ, pos, ltb_ℤ}
use n_trade.Prelude.Float.{Float}
use n_trade.Domain.{Position, SignalGeneratedEvent, market_value, nought, or_zero, or_else}

-- The keyword arguments of `__init__`; an empty allowlist counts as none.
pub record RiskConfig (W : Type 0) : Type 0 where
  pub max_quantity : Option ℤ
  pub max_notional : Option W
  pub max_positions : Option ℕ
  pub allowlist : Option (List String)
  pub strategy : Option String
  pub max_daily_loss : Option W
  pub max_drawdown_pct : Option W
  pub price_deviation_pct : Option W

pub data HaltReason (W : Type 0) : Type 0 where
  daily_loss : W → HaltReason W
  drawdown : W → HaltReason W
  requested : String → HaltReason W

pub data Refusal (W : Type 0) : Type 0 where
  risk_halted : Option (HaltReason W) → Refusal W
  not_in_allowlist over_quantity notional_unverifiable positions_reached price_unverifiable :
      Refusal W
  over_notional : W → Refusal W
  price_deviates : W → Refusal W

-- `halt_reason` is `none` for the empty text.
pub record RiskState (W : Type 0) : Type 0 where
  pub halted : Bool
  pub halt_reason : Option (HaltReason W)
  pub start_balance : W
  pub rebased : Bool
  pub peak_equity : Option W
  pub approved : ℕ
  pub rejected : ℕ

pub data RiskEvent (W : Type 0) : Type 0 where
  halted_event : HaltReason W → W → ℕ → RiskEvent W
  resumed_event : ℕ → RiskEvent W
  approved_event : SignalGeneratedEvent W → ℕ → RiskEvent W
  rejected_event : SignalGeneratedEvent W → Refusal W → ℕ → RiskEvent W

pub record Quote (W : Type 0) : Type 0 where
  pub ltp : W
  pub prev_close : W

-- `instrument` is `ctx.instrument`, with the prices of the instrument's market capability.
pub record Context (W : Type 0) : Type 0 where
  pub balance : W
  pub positions : List (Position W)
  pub instrument : String → Option (Quote W)
  pub now : ℕ

abbrev pub is_none : {A : Type 0} → Option A → Bool
is_none none = true
is_none (some _) = false

abbrev pub not_allowed : Option (List String) → String → Bool
not_allowed none symbol = false
not_allowed (some allowed) symbol = not (elem symbol allowed)

abbrev pub over_max : Option ℤ → ℤ → Bool
over_max none quantity = false
over_max (some m) quantity = ltb_ℤ m quantity

abbrev pub reached : Option ℕ → ℕ → Bool
reached none n = false
reached (some m) n = leb m n

abbrev pub or_check : {A : Type 0} → Option A → Option A → Option A
or_check (some r) next = some r
or_check none next = next

abbrev pub not_mine : Option String → String → Bool
not_mine none strategy = false
not_mine (some mine) strategy = not (strategy =? mine)

module _ {W : Type 0} ⦃fl : Float W⦄ where
  -- `__init__`
  unfoldable pub new_risk : W → RiskState W
  new_risk balance = record {
    halted = false;
    halt_reason = none;
    start_balance = balance;
    rebased = false;
    peak_equity = none;
    approved = 0;
    rejected = 0;
  }

  abbrev pub add_values : W → List (Position W) → W
  add_values acc [] = acc
  add_values acc (p ∷ ps) = add_values (fl.fadd acc (market_value p)) ps

  unfoldable pub equity : Context W → W
  equity c = fl.fadd c.balance (add_values nought c.positions)

  unfoldable pub halt : HaltReason W → Context W → RiskState W → RiskState W × List (RiskEvent W)
  halt reason c s = if s.halted then (s, []) else (
    record s { halted = true; halt_reason = some reason },
    halted_event reason (equity c) c.now ∷ [],
  )

  unfoldable pub resume : Context W → RiskState W → RiskState W × List (RiskEvent W)
  resume c s =
      if s.halted
      then (
        record s {
          halted = false;
          halt_reason = none;
          peak_equity = none;
          start_balance = c.balance;
        },
        resumed_event c.now ∷ [],
      )
      else (s, [])

  unfoldable pub rebase : W → RiskState W → RiskState W
  rebase balance s = if s.rebased then s else record s { start_balance = balance; rebased = true }

  abbrev pub raise_peak : W → Option W → W
  raise_peak equity none = equity
  raise_peak equity (some peak) = if fl.flt peak equity then equity else peak

  -- `x > limit`, for a limit that is set
  abbrev pub exceeds : Option W → W → Bool
  exceeds none x = false
  exceeds (some limit) x = fl.flt limit x

  abbrev pub drawdown_of : W → W → W
  drawdown_of peak equity = fl.fmul (fl.fdiv (fl.fsub peak equity) peak) (fl.of_int (pos 100))

  unfoldable pub update_breakers :
      RiskConfig W → Context W → RiskState W → RiskState W × List (RiskEvent W)
  unfolding halt
  update_breakers k c s =
      let now = equity c in
      let peak = raise_peak now s.peak_equity in
      let t = record s { peak_equity = some peak } in
      let loss = fl.fsub s.start_balance now in
      let dd = drawdown_of peak now in
      if s.halted
      then (s, [])
      else if exceeds k.max_daily_loss loss
      then halt (daily_loss loss) c t
      else if not (fl.feq peak nought) && exceeds k.max_drawdown_pct dd
      then halt (drawdown dd) c t
      else (t, [])

  -- `check`
  unfoldable pub check :
      RiskConfig W
      → Context W
      → RiskState W
      → Option (Option (HaltReason W)) × RiskState W × List (RiskEvent W)
  check k c s =
      let (t, events) = update_breakers k c s in
      (if t.halted then some t.halt_reason else none, t, events)

  abbrev pub price_or_zero : Option (Quote W) → W
  price_or_zero none = nought
  price_or_zero (some q) = or_zero (or_else q.ltp q.prev_close)

  unfoldable pub reference_price : Context W → SignalGeneratedEvent W → W
  reference_price c e = price_or_zero (c.instrument e.symbol)

  abbrev pub opened_by : String → Position W → Bool
  opened_by strategy p = elim (p.strategy) [ none ↦ false | some s ↦ s =? strategy ]

  unfoldable pub position_count : RiskConfig W → Context W → ℕ
  position_count k c = elim (k.strategy) [
    | none ↦ length c.positions
    | some strategy ↦ count (opened_by strategy) c.positions
  ]

  -- The first tests of `_check`: halt, allowlist and quantity.
  unfoldable pub check_static :
      RiskConfig W → RiskState W → SignalGeneratedEvent W → Option (Refusal W)
  check_static k s e =
      if s.halted
      then some (risk_halted s.halt_reason)
      else if not_allowed k.allowlist e.symbol
      then some not_in_allowlist
      else if over_max k.max_quantity e.quantity
      then some over_quantity
      else none

  -- The price that the notional is estimated with.
  unfoldable pub notional_price : Context W → SignalGeneratedEvent W → W
  notional_price c e =
      if fl.fle (or_zero e.price) nought then reference_price c e else or_zero e.price

  unfoldable pub check_notional :
      RiskConfig W → Context W → SignalGeneratedEvent W → Option (Refusal W)
  check_notional k c e =
      let px = notional_price c e in
      let notional = fl.fmul px (fl.of_int e.quantity) in
      if fl.fle (or_zero e.price) nought && fl.fle px nought && not (is_none k.max_notional)
      then some notional_unverifiable
      else if exceeds k.max_notional notional
      then some (over_notional notional)
      else none

  unfoldable pub check_positions : RiskConfig W → Context W → Option (Refusal W)
  check_positions k c =
      if reached k.max_positions (position_count k c) then some positions_reached else none

  abbrev pub deviation : W → W → W
  deviation price ref = fl.fmul (fl.fdiv (fl.fabs (fl.fsub price ref)) ref) (fl.of_int (pos 100))

  unfoldable pub check_deviation :
      RiskConfig W → Context W → SignalGeneratedEvent W → Option (Refusal W)
  check_deviation k c e =
      let ref = reference_price c e in
      if is_none k.price_deviation_pct || fl.feq e.price nought
      then none
      else if fl.feq ref nought
      then some price_unverifiable
      else if exceeds k.price_deviation_pct (deviation e.price ref)
      then some (price_deviates (deviation e.price ref))
      else none

  -- `_check`: the first reason to refuse, after the breakers have been evaluated.
  unfoldable pub check_signal :
      RiskConfig W → Context W → SignalGeneratedEvent W → RiskState W → Option (Refusal W)
  check_signal k c e s =
      or_check (check_static k s e)
        (or_check (check_notional k c e) (or_check (check_positions k c) (check_deviation k c e)))

  abbrev pub decide_signal :
      SignalGeneratedEvent W → Option (Refusal W) → RiskState W → RiskState W × List (RiskEvent W)
  decide_signal e none s = (record s { approved = suc s.approved }, approved_event e e.ts ∷ [])
  decide_signal e (some reason) s =
      (record s { rejected = suc s.rejected }, rejected_event e reason e.ts ∷ [])

  unfoldable pub on_signal :
      RiskConfig W
      → Context W
      → SignalGeneratedEvent W
      → RiskState W
      → RiskState W × List (RiskEvent W)
  on_signal k c e s =
      let (t, breaker_events) = update_breakers k c s in
      let (u, verdict) = decide_signal e (check_signal k c e t) t in
      if not_mine k.strategy e.strategy then (s, []) else (u, breaker_events ++ verdict)
