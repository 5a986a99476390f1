-- ===== src/RateGate/Safety.antt =====
-- The gate's promise: in no interval as long as a window's span are more calls let through than
-- the window's limit, whatever rounds and penalties of however many threads stand in whatever
-- order.
use n_trade.Prelude.{
  ℕ, zero, suc, ◌≤◌, ◌≡◌, refl, sym, ap, ◌∙◌, List, [], ◌∷◌, ◌++◌, map, Option, none, some, ltb,
  arith, All, Bool-cases, Option-cases, inl, inr,
}
use n_trade.RateGate.Windows.{HasRoom, scan-HasRoom}
use n_trade.RateGate.Kept.{calls_within, IsKept, IsKept-prune, IsKept-append, IsKept-later}
use n_trade.RateGate.{
  Window, QuotaState, prune_window, scan, compute_wait, append_stamp, Round, acquired, sleeps,
  index_error, acquire_round, penalize, finish_round,
}

-- A thread's step, with the readings of the clock.
pub data Step : Type 0 where
  tries : ℕ → ℕ → Step
  penalizes : ℕ → ℕ → Step

abbrev pub log_round : Round → ℕ → List ℕ → List ℕ
log_round acquired stamp log = log ++ stamp ∷ []
log_round (sleeps _) stamp log = log
log_round index_error stamp log = log

-- The state after the steps, and the times at which calls were let through.
unfoldable pub run : List Step → QuotaState → List ℕ → QuotaState × List ℕ
run [] s log = (s, log)
run (tries now stamp ∷ steps) s log =
    let (r, t) = acquire_round now stamp s in run steps t (log_round r stamp log)
run (penalizes now seconds ∷ steps) s log = run steps (penalize now seconds s) log

-- The readings of the monotonic clock, from `t` on.
abbrev pub IsTimed : ℕ → List Step → Type 0
IsTimed t [] = Unit
IsTimed t (tries now stamp ∷ steps) = (t ≤ now) × (now ≤ stamp) × IsTimed stamp steps
IsTimed t (penalizes now seconds ∷ steps) = (t ≤ now) × IsTimed now steps

-- Every window of a class keeps to the log.
abbrev AllKept : ℕ → List ℕ → List Window → Type 0
AllKept t log ws = All (IsKept t log) ws

AllKept-prune :
    (t now : ℕ) (log : List ℕ) (ws : List Window)
    → t ≤ now
    → AllKept t log ws
    → AllKept now log (map (prune_window now) ws)
AllKept-prune t now log [] le h = tt
AllKept-prune t now log (w ∷ ws) le h =
    (IsKept-prune t now log w le h.0, AllKept-prune t now log ws le h.1)

AllKept-later :
    (t now : ℕ) (log : List ℕ) (ws : List Window) → t ≤ now → AllKept t log ws → AllKept now log ws
AllKept-later t now log [] le h = tt
AllKept-later t now log (w ∷ ws) le h =
    (IsKept-later t now log w le h.0, AllKept-later t now log ws le h.1)

AllKept-append :
    (now stamp : ℕ) (log : List ℕ) (ws : List Window)
    → now ≤ stamp
    → All HasRoom ws
    → AllKept now log ws
    → AllKept stamp (log ++ stamp ∷ []) (map (append_stamp stamp) ws)
AllKept-append now stamp log [] le room h = tt
AllKept-append now stamp log (w ∷ ws) le room h =
    (IsKept-append now stamp log w le room.0 h.0, AllKept-append now stamp log ws le room.1 h.1)

-- What `_compute_wait` gives keeps to the log, and has room if the wait is 0.
compute_wait-AllKept :
    (t now : ℕ) (log : List ℕ) (s : QuotaState) {wait : ℕ} {s' : QuotaState}
    → t ≤ now
    → AllKept t log s.windows
    → compute_wait now s ≡ some (wait, s')
    → AllKept now log s'.windows × (wait ≡ 0 → All HasRoom s'.windows)
unfolding compute_wait
compute_wait-AllKept t now log s {wait = wait} {s' = s'} le h e =
    elim (Bool-cases (ltb now s.cooldown_until)) [
      | inl cool ↦
          let same : s ≡ s' = ground arith in
          (rw (← same) (AllKept-later t now log s.windows le h), λ z. absurd (ground arith))
      | inr clear ↦ elim (Option-cases (scan now 0 s.windows)) [
        | inl e' ↦ absurd (ground arith)
        | inr ((n, vs), e') ↦
            let found = scan-HasRoom now 0 s.windows e' in
            let same : s'.windows ≡ vs = ground arith in
            let pruned : s'.windows ≡ map (prune_window now) s.windows = same ∙ found.0 in
            (
              rw pruned (AllKept-prune t now log s.windows le h),
              λ z. rw same (found.2 (ground arith)),
            )
      ]
    ]

acquire_round-AllKept :
    (t now stamp : ℕ) (log : List ℕ) (s : QuotaState)
    → t ≤ now
    → now ≤ stamp
    → AllKept t log s.windows
    → let (r, s') = acquire_round now stamp s in AllKept stamp (log_round r stamp log) s'.windows
unfolding acquire_round
acquire_round-AllKept t now stamp log s le le' h = go (compute_wait now s) refl
  where
    go :
        (o : Option (ℕ × QuotaState))
        → compute_wait now s ≡ o
        → let (r, s') = finish_round stamp s o in AllKept stamp (log_round r stamp log) s'.windows
    go none e = AllKept-later t stamp log s.windows (omega arith) h
    go (some (zero, s')) e =
        let found = compute_wait-AllKept t now log s le h e in
        AllKept-append now stamp log s'.windows le' (found.1 refl) found.0
    go (some (suc wait, s')) e =
        let found = compute_wait-AllKept t now log s le h e in
        AllKept-later now stamp log s'.windows le' found.0

run-AllKept :
    (steps : List Step) (t : ℕ) (log : List ℕ) (s : QuotaState)
    → IsTimed t steps
    → AllKept t log s.windows
    → (u : ℕ) × (let (s', log') = run steps s log in AllKept u log' s'.windows)
unfolding run penalize
run-AllKept [] t log s timed h = (t, h)
run-AllKept (tries now stamp ∷ steps) t log s timed h =
    let (r, s') = acquire_round now stamp s in
    run-AllKept steps stamp (log_round r stamp log) s' timed.2
      (acquire_round-AllKept t now stamp log s timed.0 timed.1 h)
run-AllKept (penalizes now seconds ∷ steps) t log s timed h =
    run-AllKept steps now log (penalize now seconds s) timed.1
      (AllKept-later t now log s.windows timed.0 h)

-- The windows with their deques left out.
abbrev pub limits : List Window → List (ℕ × ℕ)
limits ws = map (λ w. (w.span, w.limit)) ws

limits-prune : (now : ℕ) (ws : List Window) → limits (map (prune_window now) ws) ≡ limits ws
limits-prune now [] = refl
limits-prune now (w ∷ ws) = ap (λ l. (w.span, w.limit) ∷ l) (limits-prune now ws)

limits-append : (stamp : ℕ) (ws : List Window) → limits (map (append_stamp stamp) ws) ≡ limits ws
limits-append stamp [] = refl
limits-append stamp (w ∷ ws) = ap (λ l. (w.span, w.limit) ∷ l) (limits-append stamp ws)

compute_wait-limits :
    (now : ℕ) (s : QuotaState) {wait : ℕ} {s' : QuotaState}
    → compute_wait now s ≡ some (wait, s')
    → limits s'.windows ≡ limits s.windows
unfolding compute_wait
compute_wait-limits now s {s' = s'} e = elim (Bool-cases (ltb now s.cooldown_until)) [
  | inl cool ↦ let same : s' ≡ s = ground arith in ap (λ (q : QuotaState). limits q.windows) same
  | inr clear ↦ elim (Option-cases (scan now 0 s.windows)) [
    | inl e' ↦ absurd (ground arith)
    | inr ((n, vs), e') ↦
        let same : s'.windows ≡ vs = ground arith in
        ap limits (same ∙ (scan-HasRoom now 0 s.windows e').0) ∙ limits-prune now s.windows
  ]
]

acquire_round-limits :
    (now stamp : ℕ) (s : QuotaState)
    → limits (acquire_round now stamp s).1.windows ≡ limits s.windows
unfolding acquire_round
acquire_round-limits now stamp s = go (compute_wait now s) refl
  where
    go :
        (o : Option (ℕ × QuotaState))
        → compute_wait now s ≡ o
        → limits (finish_round stamp s o).1.windows ≡ limits s.windows
    go none e = refl
    go (some (zero, s')) e = limits-append stamp s'.windows ∙ compute_wait-limits now s e
    go (some (suc wait, s')) e = compute_wait-limits now s e

run-limits :
    (steps : List Step) (s : QuotaState) (log : List ℕ)
    → limits (run steps s log).0.windows ≡ limits s.windows
unfolding run penalize
run-limits [] s log = refl
run-limits (tries now stamp ∷ steps) s log =
    let (r, s') = acquire_round now stamp s in
    run-limits steps s' (log_round r stamp log) ∙ acquire_round-limits now stamp s
run-limits (penalizes now seconds ∷ steps) s log = run-limits steps (penalize now seconds s) log

-- The log has at most the limit in every interval as long as the span.
abbrev pub IsLimited : List ℕ → ℕ × ℕ → Type 0
IsLimited log (span, limit) = (start : ℕ) → calls_within start span log ≤ limit

AllKept-IsLimited :
    (t : ℕ) (log : List ℕ) (ws : List Window) → AllKept t log ws → All (IsLimited log) (limits ws)
AllKept-IsLimited t log [] h = tt
AllKept-IsLimited t log (w ∷ ws) h = (h.0.bounded, AllKept-IsLimited t log ws h.1)

-- A window as `__init__` makes it.
abbrev pub IsEmptyWindow : Window → Type 0
IsEmptyWindow w = w.stamps ≡ []

AllKept-start : (ws : List Window) → All IsEmptyWindow ws → AllKept 0 [] ws
AllKept-start [] h = tt
AllKept-start (w ∷ ws) h = (
  record {
    gone = [];
    split = sym h.0;
    left = tt;
    fits = rw h.0 (omega arith);
    bounded = λ start. omega arith;
  },
  AllKept-start ws h.1,
)

-- From empty windows on, after any interleaving of rounds and penalties at clock readings that do
-- not go back, each configured window's limit holds over every interval as long as its span.
pub run-IsLimited :
    (steps : List Step) (s : QuotaState)
    → All IsEmptyWindow s.windows
    → IsTimed 0 steps
    → All (IsLimited (run steps s []).1) (limits s.windows)
run-IsLimited steps s empty timed =
    let (u, kept) = run-AllKept steps 0 [] s timed (AllKept-start s.windows empty) in
    rw (← run-limits steps s [])
      (AllKept-IsLimited u (run steps s []).1 (run steps s []).0.windows kept)
