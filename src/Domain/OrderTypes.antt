-- ===== src/Domain/OrderTypes.antt =====
-- ntrade/execution/order_types.py: the routing table and the strategy table of the order types.
use n_trade.Prelude.{ℕ, ◌≡◌, refl, Bool, true, false, Option, none, some}
use n_trade.Domain.{OrderType, limit, market, stop_limit, stop_market, cover, bracket}

pub data Route : Type 0 where
  order_placement super_order : Route

pub record OrderStrategy : Type 0 where
  pub route : Route
  pub requires_price : Bool
  pub requires_trigger : Bool
  pub legs : Option ℕ

-- `ROUTE_MAP`
unfoldable pub route_for_broker : OrderType → Route
route_for_broker market = order_placement
route_for_broker limit = order_placement
route_for_broker stop_limit = order_placement
route_for_broker stop_market = order_placement
route_for_broker cover = order_placement
route_for_broker bracket = super_order

abbrev row : Route → Bool → Bool → Option ℕ → OrderStrategy
row r p t l = record { route = r; requires_price = p; requires_trigger = t; legs = l }

-- `_STRATEGIES`
unfoldable pub strategy_for : OrderType → OrderStrategy
strategy_for market = row order_placement false false none
strategy_for limit = row order_placement true false none
strategy_for stop_limit = row order_placement true true none
strategy_for stop_market = row order_placement false true none
strategy_for cover = row order_placement false true (some 2)
strategy_for bracket = row super_order true false (some 3)

-- The two tables agree on the route of every order type.
pub strategy_for-route : (t : OrderType) → (strategy_for t).route ≡ route_for_broker t
unfolding strategy_for route_for_broker
strategy_for-route limit = refl
strategy_for-route _ = refl
