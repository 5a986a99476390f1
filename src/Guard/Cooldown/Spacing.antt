-- ===== src/Guard/Cooldown/Spacing.antt =====
-- Attempts are spaced by the cooldown, over every process that shares the state file.
use n_trade.Prelude.{
  ℕ, Option, false, ◌+◌, ◌≤◌, ◌≡◌, ◌⊎◌, sym, some, List, [], ◌∷◌, ltb, arith, Bool-cases,
  Option-cases, inl, inr, refl,
}
use mathlib.Core.Path.{subst}
use n_trade.Guard.Cooldown.{
  StateFile, absent, CooldownState, wall_clock_min, load_state, persist_state, remaining_unlocked,
  Outcome, returned, rate_limit_error, attribute_error, acquire_attempt, record_success,
}

-- A call by some process, with its clock readings.
pub data Step : Type 0 where
  acquires : ℕ → ℕ → Step
  succeeds : ℕ → Step

abbrev grant : Outcome ℕ → List ℕ → List ℕ
grant (returned at) granted = at ∷ granted
grant (rate_limit_error _) granted = granted
grant attribute_error granted = granted

-- The file after the calls, with the reservations granted, the latest first.
unfoldable pub run : ℕ → List Step → StateFile × List ℕ → StateFile × List ℕ
run cooldown [] s = s
run cooldown (acquires now at ∷ steps) (file, granted) =
    let (outcome, file') = acquire_attempt cooldown now at file in
    run cooldown steps (file', grant outcome granted)
run cooldown (succeeds now ∷ steps) (file, granted) =
    run cooldown steps ((record_success now file).1, granted)

-- The clock readings never go back, from `t` on, and none is below `wall_clock_min`, under which
-- `_coerce_wall_clock` drops a stored time.
abbrev pub IsTimed : ℕ → List Step → Type 0
IsTimed t [] = Unit
IsTimed t (acquires now at ∷ steps) =
    (t ≤ now) × (now ≤ at) × (wall_clock_min ≤ now) × IsTimed at steps
IsTimed t (succeeds now ∷ steps) = (t ≤ now) × (wall_clock_min ≤ now) × IsTimed now steps

-- Any two neighbours of a list, the latest first, lie a cooldown apart.
abbrev pub IsSpaced : ℕ → List ℕ → Type 0
IsSpaced cooldown [] = Unit
IsSpaced cooldown (t ∷ []) = Unit
IsSpaced cooldown (t ∷ u ∷ ts) = (u + cooldown ≤ t) × IsSpaced cooldown (u ∷ ts)

-- The file remembers an attempt at or after the last reservation.
abbrev Covers : StateFile → List ℕ → Type 0
Covers file [] = Unit
Covers file (t ∷ ts) =
    (last : ℕ) × (s : CooldownState) × (load_state file ≡ some s)
    × (s.last_attempt ≡ some last)
    × (t ≤ last)

-- The last reservation lies at or before `t`.
abbrev Before : ℕ → List ℕ → Type 0
Before t [] = Unit
Before t (u ∷ us) = u ≤ t

acquire_attempt-IsSpaced :
    (cooldown now at : ℕ) (file : StateFile) (granted : List ℕ)
    → now ≤ at
    → Covers file granted
    → IsSpaced cooldown granted
    → (acquire_attempt cooldown now at file).0 ≡ returned at
    → IsSpaced cooldown (at ∷ granted)
unfolding acquire_attempt
acquire_attempt-IsSpaced cooldown now at file [] le c s h = tt
acquire_attempt-IsSpaced cooldown now at file (t ∷ ts) le (last, st, loaded, known, after) s h =
    (ground (arith, h, rw (acquire_attempt, loaded) at h), s)

persist_state-loads :
    (at : ℕ) (success : Option ℕ)
    → wall_clock_min ≤ at
    → (s : CooldownState) × (load_state
          (persist_state (record { last_attempt = some at; last_success = success }))
        ≡ some s)
      × (s.last_attempt ≡ some at)
unfolding load_state persist_state
persist_state-loads at success le =
    let kept : ltb at wall_clock_min ≡ false = ground (arith, le) in (_, refl, rw kept refl)

acquire_attempt-Covers :
    (cooldown now at : ℕ) (file : StateFile) (granted : List ℕ)
    → wall_clock_min ≤ at
    → (acquire_attempt cooldown now at file).0 ≡ returned at
    → Covers (acquire_attempt cooldown now at file).1 (at ∷ granted)
unfolding acquire_attempt
acquire_attempt-Covers cooldown now at file granted le h = elim (Option-cases (load_state file)) [
  | inl bad ↦ let q = rw (acquire_attempt, bad) at h in absurd (cc)
  | inr (s, loaded) ↦ elim (Bool-cases (ltb 0 (remaining_unlocked cooldown now s))) [
    | inl wait ↦ let q = rw (acquire_attempt, loaded, wait) at h in absurd (cc)
    | inr go ↦
        let (st, found, last) = persist_state-loads at s.last_success le in
        rw (acquire_attempt, loaded, go) (at, st, found, last, omega arith)
  ]
]

acquire_attempt-cases :
    (cooldown now at : ℕ) (file : StateFile)
    → ((acquire_attempt cooldown now at file).0 ≡ returned at)
      ⊎ (((r : ℕ) × (acquire_attempt cooldown now at file ≡ (rate_limit_error r, file)))
          ⊎ (acquire_attempt cooldown now at file ≡ (attribute_error, file)))
unfolding acquire_attempt
acquire_attempt-cases cooldown now at file = elim (Option-cases (load_state file)) [
  | inl bad ↦ inr (inr (rw (acquire_attempt, bad) refl))
  | inr (s, loaded) ↦ elim (Bool-cases (ltb 0 (remaining_unlocked cooldown now s))) [
    | inl wait ↦
        inr (inl (remaining_unlocked cooldown now s, rw (acquire_attempt, loaded, wait) refl))
    | inr go ↦ inl (rw (acquire_attempt, loaded, go) refl)
  ]
]

Before-mono : (t u : ℕ) (granted : List ℕ) → t ≤ u → Before t granted → Before u granted
Before-mono t u [] le b = tt
Before-mono t u (x ∷ xs) le b = omega arith

record_success-Covers :
    (now : ℕ) (file : StateFile) (granted : List ℕ)
    → wall_clock_min ≤ now
    → Before now granted
    → Covers file granted
    → Covers (record_success now file).1 granted
unfolding record_success load_state
record_success-Covers now file [] le b c = tt
record_success-Covers now file (t ∷ ts) le b (last, st, loaded, known, after) =
    let (st', found, stored) = persist_state-loads now (some now) le in
    rw (record_success, loaded) (now, st', found, stored, b)

run-IsSpaced :
    (cooldown t : ℕ) (steps : List Step) (file : StateFile) (granted : List ℕ)
    → IsTimed t steps
    → Before t granted
    → Covers file granted
    → IsSpaced cooldown granted
    → IsSpaced cooldown (run cooldown steps (file, granted)).1
unfolding run
run-IsSpaced cooldown t [] file granted timed before covers spaced = spaced
run-IsSpaced cooldown t (acquires now at ∷ steps) file granted timed before covers spaced =
    elim (acquire_attempt-cases cooldown now at file) [
      | inl ok ↦
          subst
            (λ o.
              IsSpaced cooldown
                (run cooldown steps ((acquire_attempt cooldown now at file).1, grant o granted)).1)
            (sym ok)
            (run-IsSpaced cooldown at steps (acquire_attempt cooldown now at file).1 (at ∷ granted)
              timed.3 (omega arith)
              (acquire_attempt-Covers cooldown now at file granted (omega arith) ok)
              (acquire_attempt-IsSpaced cooldown now at file granted timed.1 covers spaced ok))
      | inr (inl (r, e)) ↦
          subst (λ p. IsSpaced cooldown (run cooldown steps (p.1, grant p.0 granted)).1) (sym e)
            (run-IsSpaced cooldown at steps file granted timed.3
              (Before-mono t at granted (omega arith) before) covers spaced)
      | inr (inr e) ↦
          subst (λ p. IsSpaced cooldown (run cooldown steps (p.1, grant p.0 granted)).1) (sym e)
            (run-IsSpaced cooldown at steps file granted timed.3
              (Before-mono t at granted (omega arith) before) covers spaced)
    ]
run-IsSpaced cooldown t (succeeds now ∷ steps) file granted timed before covers spaced =
    run-IsSpaced cooldown now steps (record_success now file).1 granted timed.2
      (Before-mono t now granted timed.0 before)
      (record_success-Covers now file granted timed.1 (Before-mono t now granted timed.0 before)
        covers)
      spaced

-- Reservations of TOTP attempts are at least the cooldown apart, whichever processes make them and
-- however they and the recorded successes are interleaved, if the file starts absent, and the clock
-- readings do not go back and are all at `wall_clock_min`, a thousand million seconds, or later.
pub attempts-IsSpaced :
    (cooldown t : ℕ) (steps : List Step)
    → IsTimed t steps
    → IsSpaced cooldown (run cooldown steps (absent, [])).1
attempts-IsSpaced cooldown t steps timed = run-IsSpaced cooldown t steps absent [] timed tt tt tt
