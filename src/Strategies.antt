-- ===== src/Strategies.antt =====
-- ntrade/engines/strategy_engine.py: `Strategy.emit_signal` and `StrategyEngine`. A strategy is an
-- object, here a number; the engine's list holds numbers, and `objects` is what they stand for. What
-- a strategy's hook does is the code of its user, and any function of the world.
pub mod Isolation
use n_trade.Prelude.{
  ℕ, suc, Bool, true, false, String, Option, none, some, List, [], ◌∷◌, ◌++◌, ◌=?◌, ◌==◌,
  if◌then◌else◌, map, exists, string_eq,
}
use n_trade.Prelude.Int.{ℤ}
use n_trade.Domain.{SignalGeneratedEvent}

pub record Strategy : Type 0 where
  pub name : String
  pub enabled : Bool
  pub error_count : ℕ

pub record StrategyEngine : Type 0 where
  pub strategies : List ℕ
  pub objects : ℕ → Strategy

-- What `remove` is given: a strategy or a name.
pub data Reference : Type 0 where
  object : ℕ → Reference
  named : String → Reference

-- `emit_signal`, at the time of the context; the event is published and returned.
unfoldable pub emit_signal :
    {W : Type 0}
    → ℕ
    → Strategy
    → String
    → String
    → String
    → ℤ
    → W
    → W
    → String
    → SignalGeneratedEvent W
emit_signal now s symbol exchange side quantity price reference_price order_type = record {
  symbol = symbol;
  exchange = exchange;
  side = side;
  quantity = quantity;
  price = price;
  order_type = order_type;
  strategy = s.name;
  reference_price = reference_price;
  ts = now;
}

unfoldable pub register : ℕ → StrategyEngine → StrategyEngine
register i e = record e { strategies = e.strategies ++ i ∷ [] }

abbrev pub is_meant : Reference → StrategyEngine → ℕ → Bool
is_meant (object j) e i = i == j
is_meant (named s) e i = (e.objects i).name =? s

unfoldable pub remove_first : (ℕ → Bool) → List ℕ → List ℕ
remove_first p [] = []
remove_first p (i ∷ is) = if p i then is else i ∷ remove_first p is

-- `remove`, with whether a strategy was found.
unfoldable pub remove : Reference → StrategyEngine → StrategyEngine × Bool
unfolding remove_first
remove ref e = (
  record e { strategies = remove_first (is_meant ref e) e.strategies },
  exists (is_meant ref e) e.strategies,
)

unfoldable pub names : StrategyEngine → List String
names e = map (λ (i : ℕ). (e.objects i).name) e.strategies

abbrev pub set_object : ℕ → Strategy → StrategyEngine → StrategyEngine
set_object i s e = record e { objects = λ (j : ℕ). if i == j then s else e.objects j }

-- The count of a hook that failed.
unfoldable pub bump : Bool → ℕ → StrategyEngine → StrategyEngine
bump false i e = e
bump true i e =
    set_object i (record (e.objects i) { error_count = suc (e.objects i).error_count }) e

-- The engine with whatever else a hook can change: the bus, the context, the strategies' own fields.
abbrev pub World : Type 0 → Type 0
World S = StrategyEngine × S

-- A hook at an event, and whether it raises. What it does goes through the world: it may register and
-- remove strategies, and publish events, which dispatches other hooks inside of it.
abbrev pub Hook : Type 0 → Type 0
Hook S = World S → World S × Bool

module _ {S : Type 0} where
  -- One strategy of the snapshot, with the hooks that are called and whether each raised.
  unfoldable pub call_hook : (ℕ → Option (Hook S)) → ℕ → World S → World S × List (ℕ × Bool)
  unfolding bump
  call_hook hooks i w =
      if (w.0.objects i).enabled
      then elim (hooks i) [
        | none ↦ (w, [])
        | some hook ↦
            let (after, failed) = hook w in ((bump failed i after.0, after.1), (i, failed) ∷ [])
      ]
      else (w, [])

  unfoldable pub call_hooks : (ℕ → Option (Hook S)) → List ℕ → World S → World S × List (ℕ × Bool)
  unfolding call_hook
  call_hooks hooks [] w = (w, [])
  call_hooks hooks (i ∷ is) w =
      let first = call_hook hooks i w in
      let rest = call_hooks hooks is first.0 in (rest.0, first.1 ++ rest.1)

  -- The handler that `_dispatch` makes, on a snapshot of the strategies.
  unfoldable pub dispatch : (ℕ → Option (Hook S)) → World S → World S × List (ℕ × Bool)
  unfolding call_hooks
  dispatch hooks w = call_hooks hooks w.0.strategies w
