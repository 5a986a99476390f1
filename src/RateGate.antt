-- ===== src/RateGate.antt =====
-- ntrade/execution/rate_limit.py: `BrokerRateGate`, sliding windows per quota class with a
-- cooldown. Times and spans are whole ticks of the injected clock. The lock makes each round of
-- `acquire`, each `penalize` and each `status` one step; the sleep stands outside of it.
pub mod Windows
pub mod Kept
pub mod Safety
pub mod Progress
pub mod Status
use n_trade.Prelude.{
  ℕ, zero, suc, ◌+◌, ◌-◌, ◌*◌, max, List, [], ◌∷◌, ◌++◌, map, Option, none, some, Bool, true, false,
  ◌&&◌, ◌||◌, length, count, exists, ltb, leb, if◌then◌else◌,
}

pub data Quota : Type 0 where
  quote data_quota order non_trading : Quota

-- One entry of `_windows[quota]` with its deque of `_history[quota]`, the oldest time first.
pub record Window : Type 0 where
  pub span : ℕ
  pub limit : ℕ
  pub stamps : List ℕ

pub record QuotaState : Type 0 where
  pub windows : List Window
  pub cooldown_until : ℕ

abbrev pub Gate : Type 0
Gate = Quota → QuotaState

abbrev pub same_quota : Quota → Quota → Bool
same_quota quote quote = true
same_quota data_quota data_quota = true
same_quota order order = true
same_quota non_trading non_trading = true
same_quota _ _ = false

abbrev pub set_quota : Quota → QuotaState → Gate → Gate
set_quota q s g = λ p. if same_quota q p then s else g p

abbrev pub empty_window : ℕ → ℕ → Window
empty_window span limit = record { span = span; limit = limit; stamps = [] }

-- `DEFAULT_WINDOWS`, with the given number of ticks to a second.
abbrev pub default_windows : ℕ → Quota → List Window
default_windows second quote = empty_window second 1 ∷ []
default_windows second data_quota =
    empty_window second 5 ∷ empty_window (86400 * second) 100000 ∷ []
default_windows second order =
    empty_window second 10
    ∷ empty_window (60 * second) 250
    ∷ empty_window (3600 * second) 1000
    ∷ empty_window (86400 * second) 7000
    ∷ []
default_windows second non_trading = empty_window second 20 ∷ []

-- `__init__`: windows with no history, and no cooldown.
unfoldable pub new_gate : (Quota → List Window) → Gate
new_gate windows q = record { windows = windows q; cooldown_until = 0 }

-- The inner `while`: entries that have left the window are dropped from the left.
unfoldable pub prune : ℕ → ℕ → List ℕ → List ℕ
prune now span [] = []
prune now span (t ∷ ts) = if leb (t + span) now then prune now span ts else t ∷ ts

abbrev pub prune_window : ℕ → Window → Window
prune_window now w = record w { stamps = prune now w.span w.stamps }

abbrev pub and_then : {A B : Type 0} → Option A → (A → Option B) → Option B
and_then none f = none
and_then (some a) f = f a

-- `max(wait, window[0] + span - now)`; `none` is the `IndexError` of `window[0]` on an empty
-- deque, which a limit of 0 leads to.
abbrev pub until_oldest_leaves : ℕ → ℕ → ℕ → List ℕ → Option ℕ
until_oldest_leaves now wait span [] = none
until_oldest_leaves now wait span (t ∷ ts) = some (max wait (t + span - now))

-- The wait after one more (pruned) window.
unfoldable pub window_wait : ℕ → ℕ → Window → Option ℕ
window_wait now wait w =
    if leb w.limit (length w.stamps)
    then until_oldest_leaves now wait w.span w.stamps
    else some wait

abbrev pub keep_first : Window → ℕ × List Window → Option (ℕ × List Window)
keep_first w (wait, ws) = some (wait, w ∷ ws)

-- The loop of `_compute_wait`, which prunes the windows on its way.
unfoldable pub scan : ℕ → ℕ → List Window → Option (ℕ × List Window)
scan now wait [] = some (wait, [])
scan now wait (w ∷ ws) =
    and_then (window_wait now wait (prune_window now w))
      λ wait'. and_then (scan now wait' ws) (keep_first (prune_window now w))

-- `_compute_wait`: the wait, and the state with its windows pruned. The source compares the
-- difference `cooldown_until - now` with 0.
unfoldable pub compute_wait : ℕ → QuotaState → Option (ℕ × QuotaState)
compute_wait now s =
    if ltb now s.cooldown_until
    then some (s.cooldown_until - now, s)
    else and_then (scan now 0 s.windows) (λ r. some (r.0, record s { windows = r.1 }))

abbrev pub append_stamp : ℕ → Window → Window
append_stamp now w = record w { stamps = w.stamps ++ now ∷ [] }

-- What one round of the loop of `acquire` does under the lock: it returns, or releases the lock to
-- sleep, or fails.
pub data Round : Type 0 where
  acquired : Round
  sleeps : ℕ → Round
  index_error : Round

abbrev pub finish_round : ℕ → QuotaState → Option (ℕ × QuotaState) → Round × QuotaState
finish_round stamp s none = (index_error, s)
finish_round stamp s (some (zero, t)) =
    (acquired, record t { windows = map (append_stamp stamp) t.windows })
finish_round stamp s (some (suc wait, t)) = (sleeps (suc wait), t)

-- The clock is read at `now` for the wait, and at `stamp` for the entries.
unfoldable pub acquire_round : ℕ → ℕ → QuotaState → Round × QuotaState
acquire_round now stamp s = finish_round stamp s (compute_wait now s)

-- The loop of `acquire` with fuel, when no other thread comes between: `tick` is the clock at its
-- next reading, and `wake` the clock after a sleep. `none` means that the fuel ran out.
unfoldable pub acquire :
    (tick : ℕ → ℕ) (wake : ℕ → ℕ → ℕ) → ℕ → ℕ → QuotaState → Option (Round × ℕ × QuotaState)
acquire tick wake zero now s = none
acquire tick wake (suc fuel) now s =
    let (r, t) = acquire_round now (tick now) s in
    elim r [
      | acquired ↦ some (acquired, tick now, t)
      | index_error ↦ some (index_error, now, t)
      | sleeps wait ↦ acquire tick wake fuel (wake now wait) t
    ]

unfoldable pub penalize : ℕ → ℕ → QuotaState → QuotaState
penalize now seconds s = record s { cooldown_until = max s.cooldown_until (now + seconds) }

-- The methods on the gate, which touch the state of one class.
unfoldable pub acquire_round_on : Quota → ℕ → ℕ → Gate → Round × Gate
acquire_round_on q now stamp g = let (r, s) = acquire_round now stamp (g q) in (r, set_quota q s g)

unfoldable pub penalize_on : Quota → ℕ → ℕ → Gate → Gate
penalize_on q now seconds g = set_quota q (penalize now seconds (g q)) g

-- One row of `status`.
pub record WindowStatus : Type 0 where
  pub span_s : ℕ
  pub limit : ℕ
  pub used : ℕ

pub record QuotaStatus : Type 0 where
  pub windows : List WindowStatus
  pub cooldown_remaining : ℕ
  pub blocked : Bool

-- An entry counts while `t > now - span`.
unfoldable pub window_status : ℕ → Window → WindowStatus
window_status now w = record {
  span_s = w.span;
  limit = w.limit;
  used = count (λ t. ltb now (t + w.span)) w.stamps;
}

-- `min_span` is `BLOCKED_MIN_WINDOW_SPAN_S`.
abbrev pub is_long_and_full : ℕ → WindowStatus → Bool
is_long_and_full min_span w = leb w.limit w.used && leb min_span w.span_s

unfoldable pub status : ℕ → ℕ → QuotaState → QuotaStatus
status min_span now s =
    let rows = map (window_status now) s.windows in
    record {
      windows = rows;
      cooldown_remaining = s.cooldown_until - now;
      blocked = ltb 0 (s.cooldown_until - now) || exists (is_long_and_full min_span) rows;
    }
