-- ===== src/Tests/Hooks.antt =====
-- Three strategies, for ntrade/engines/strategy_engine.py.
use n_trade.Prelude.{
  ℕ, suc, ◌≡◌, refl, true, false, Option, none, some, [], ◌∷◌, ◌==◌, if◌then◌else◌,
}
use n_trade.Strategies.{Strategy, StrategyEngine, Hook, named, remove, dispatch, names}

abbrev strategy_of : ℕ → Strategy
strategy_of i =
    if i == 1
    then record { name = "orb"; enabled = true; error_count = 4 }
    else if i == 2
    then record { name = "vwap"; enabled = false; error_count = 0 }
    else record { name = "screener"; enabled = true; error_count = 0 }

abbrev three : StrategyEngine
three = record { strategies = 1 ∷ 2 ∷ 3 ∷ []; objects = strategy_of }

-- The screener raises at every event.
abbrev inner : ℕ → Option (Hook ℕ)
inner i = if i == 3 then some (λ w. (w, true)) else none

-- At another event, the first strategy publishes one that the screener raises at, removes the
-- screener, and raises; the screener counts that it is called.
abbrev publishing : Hook ℕ
publishing w =
    let after = (dispatch inner w).0 in (((remove (named "screener") after.0).0, after.1), true)

abbrev counting : Hook ℕ
counting w = ((w.0, suc w.1), false)

abbrev hostile : ℕ → Option (Hook ℕ)
hostile i = if i == 1 then some publishing else some counting

calls_of_three : (dispatch hostile (three, 0)).1 ≡ (1, true) ∷ (3, false) ∷ []
unfolding dispatch remove
calls_of_three = refl

after_three :
    (names (dispatch hostile (three, 0)).0.0 ≡ "orb" ∷ "vwap" ∷ [])
    × (((dispatch hostile (three, 0)).0.0.objects 3).error_count ≡ 1)
unfolding dispatch names remove
after_three = (refl, refl)
