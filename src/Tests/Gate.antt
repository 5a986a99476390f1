-- ===== src/Tests/Gate.antt =====
-- The rate gate of ntrade/execution/rate_limit.py at concrete inputs.
use n_trade.Prelude.{◌+◌, refl, List, [], ◌∷◌, All, arith}
use n_trade.RateGate.{QuotaState, empty_window}
use n_trade.RateGate.Safety.{Step, tries, penalizes, run, IsLimited, limits, run-IsLimited}
use n_trade.RateGate.Progress.{Ends, acquire_returns}

abbrev orders : QuotaState
orders = record { windows = empty_window 10 1 ∷ empty_window 60 2 ∷ []; cooldown_until = 0 }

abbrev steps : List Step
steps = tries 1 2 ∷ tries 5 5 ∷ penalizes 6 1 ∷ tries 13 14 ∷ tries 30 31 ∷ []

run-IsLimited_example : All (IsLimited (run steps orders []).1) (limits orders.windows)
run-IsLimited_example =
    run-IsLimited steps orders (refl, (refl, tt))
      (
        omega arith,
        omega arith,
        (
          omega arith,
          omega arith,
          (omega arith, (omega arith, omega arith, (omega arith, omega arith, tt))),
        ),
      )

abbrev busy : QuotaState
busy = record {
  windows =
      record { span = 10; limit = 1; stamps = 3 ∷ [] }
      ∷ record { span = 60; limit = 2; stamps = 3 ∷ [] }
      ∷ [];
  cooldown_until = 8;
}

acquire_returns_example : Ends (λ t. t + 1) (λ now wait. now + wait + 1) 3 5 busy
acquire_returns_example =
    acquire_returns (λ t. t + 1) (λ now wait. now + wait + 1) (λ now wait. omega arith) 5 busy
      (omega arith, (omega arith, tt)) (omega arith, (omega arith, tt))

abbrev idle : QuotaState
idle = record busy { cooldown_until = 0 }
