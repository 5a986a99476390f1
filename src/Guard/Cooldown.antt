-- ===== src/Guard/Cooldown.antt =====
-- `TotpCooldownGuard` of ntrade/execution/_guard.py. The process lock and the file lock make each
-- method one step on the state file, for every process; the object's own fields are reloaded from
-- the file at the start of each. Times are wall-clock readings in whole microseconds.
pub mod Spacing
use n_trade.Prelude.{
  ℕ, ◌+◌, ◌-◌, ◌*◌, ◌<◌, Bool, true, false, Option, none, some, ltb, if◌then◌else◌, ◌≡◌,
}

-- The JSON object in the state file, with each value as `float(...)` reads it; `none` stands for
-- an absent key and for what `float` refuses.
pub record Payload : Type 0 where
  pub last_attempt_at : Option ℕ
  pub last_success_at : Option ℕ
  pub rate_limited_at : Option ℕ

-- The state file: none, or none that can be read and parsed; a JSON object; or other JSON.
pub data StateFile : Type 0 where
  absent : StateFile
  object : Payload → StateFile
  no_object : StateFile

-- 1_000_000_000 seconds
abbrev pub wall_clock_min : ℕ
wall_clock_min = 1_000_000_000 * 1_000_000

pub record CooldownState : Type 0 where
  pub last_attempt : Option ℕ
  pub last_success : Option ℕ

abbrev pub coerce_wall_clock : Option ℕ → Option ℕ
coerce_wall_clock none = none
coerce_wall_clock (some ts) = if ltb ts wall_clock_min then none else some ts

abbrev pub first_of_two : Option ℕ → Option ℕ → Option ℕ
first_of_two none y = y
first_of_two (some x) y = some x

-- `_load_state`; `none` is the `AttributeError` of `data.get` on JSON that is no object.
unfoldable pub load_state : StateFile → Option CooldownState
load_state absent = some (record { last_attempt = none; last_success = none })
load_state (object p) = some (record {
  last_attempt =
      first_of_two (coerce_wall_clock p.last_attempt_at) (coerce_wall_clock p.rate_limited_at);
  last_success = coerce_wall_clock p.last_success_at;
})
load_state no_object = none

unfoldable pub persist_state : CooldownState → StateFile
persist_state s = object (record {
  last_attempt_at = s.last_attempt;
  last_success_at = s.last_success;
  rate_limited_at = none;
})

-- `max(0.0, cooldown - (now - last))`
abbrev pub remaining_unlocked : ℕ → ℕ → CooldownState → ℕ
remaining_unlocked cooldown now s = elim (s.last_attempt) [
  | none ↦ 0
  | some last ↦ cooldown + last - now
]

-- A method returns, or raises `TotpRateLimitError` with the remaining time, or an `AttributeError`.
pub data Outcome (A : Type 0) : Type 0 where
  returned : A → Outcome A
  rate_limit_error : ℕ → Outcome A
  attribute_error : Outcome A

unfoldable pub check_allowed : ℕ → ℕ → StateFile → Outcome (Unit {0})
unfolding load_state
check_allowed cooldown now file = elim (load_state file) [
  | none ↦ attribute_error
  | some s ↦
      let remaining = remaining_unlocked cooldown now s in
      if ltb 0 remaining then rate_limit_error remaining else returned tt
]

-- The method reads the clock twice: `now` for the check and `reserved_at` for the reservation.
unfoldable pub acquire_attempt : ℕ → ℕ → ℕ → StateFile → Outcome ℕ × StateFile
unfolding load_state persist_state
acquire_attempt cooldown now reserved_at file = elim (load_state file) [
  | none ↦ (attribute_error, file)
  | some s ↦
      let remaining = remaining_unlocked cooldown now s in
      if ltb 0 remaining
      then (rate_limit_error remaining, file)
      else (returned reserved_at, persist_state (record s { last_attempt = some reserved_at }))
]

unfoldable pub record_success : ℕ → StateFile → Outcome (Unit {0}) × StateFile
unfolding load_state persist_state
record_success now file = elim (load_state file) [
  | none ↦ (attribute_error, file)
  | some _ ↦
      (returned tt, persist_state (record { last_attempt = some now; last_success = some now }))
]
