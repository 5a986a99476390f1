-- ===== src/RateGate/Progress.antt =====
-- The loop of `acquire` ends: a caller that no other thread gets in the way of is let through in
-- the third round at the latest.
use n_trade.Prelude.{
  ℕ, zero, suc, ◌+◌, ◌-◌, ◌≤◌, ◌<◌, ◌≡◌, ◌⊎◌, refl, ap, List, map, some, ltb, ltb→lt, arith, All,
  Bool-cases, inl, inr,
}
use n_trade.RateGate.Windows.{HasRoom, IsPositive, Fits, scan-total, scan-zero, scan-enough}
use n_trade.RateGate.{
  Window, QuotaState, prune_window, scan, compute_wait, Round, acquired, sleeps, acquire_round,
  acquire,
}

-- A round that finds no cooldown and room in every window lets the call through.
acquire_round-acquired :
    (now stamp : ℕ) (s : QuotaState)
    → s.cooldown_until ≤ now
    → All HasRoom (map (prune_window now) s.windows)
    → (acquire_round now stamp s).0 ≡ acquired
unfolding acquire_round compute_wait
acquire_round-acquired now stamp s cool room = ground (arith, scan-zero now s.windows room)

module _ (tick : ℕ → ℕ) (wake : ℕ → ℕ → ℕ) where
  abbrev pub Ends : ℕ → ℕ → QuotaState → Type 0
  Ends fuel now s =
      (later : ℕ) × (s' : QuotaState) × (acquire tick wake fuel now s
        ≡ some (acquired, tick later, s'))

  acquire-acquired :
      (fuel now : ℕ) (s : QuotaState)
      → (acquire_round now (tick now) s).0 ≡ acquired
      → Ends (suc fuel) now s
  unfolding acquire
  acquire-acquired fuel now s e = (now, (acquire_round now (tick now) s).1, ground arith)

  acquire-sleeps :
      (fuel now wait : ℕ) (s t : QuotaState)
      → acquire_round now (tick now) s ≡ (sleeps wait, t)
      → Ends fuel (wake now wait) t
      → Ends (suc fuel) now s
  unfolding acquire
  acquire-sleeps fuel now wait s t e (later, s', r) =
      let round : (acquire_round now (tick now) s).0 ≡ sleeps wait =
        ap (λ (p : Round × QuotaState). p.0) e in
      let state : (acquire_round now (tick now) s).1 ≡ t = ap (λ (p : Round × QuotaState). p.1) e in
      (later, s', rw (round, acquire, state) r)

-- A round with no cooldown lets the call through, or sleeps so long that every window has room.
acquire_round-cases :
    (now stamp : ℕ) (s : QuotaState)
    → s.cooldown_until ≤ now
    → All IsPositive s.windows
    → All Fits s.windows
    → ((acquire_round now stamp s).0 ≡ acquired)
      ⊎ ((wait : ℕ) × (ws : List Window) × (acquire_round now stamp s
            ≡ (sleeps wait, record s { windows = ws }))
          × ((later : ℕ) → now + wait ≤ later → All HasRoom (map (prune_window later) ws)))
unfolding acquire_round compute_wait
acquire_round-cases now stamp s cool p f =
    let ((wait, ws), e) = scan-total now 0 s.windows p in go wait ws e
  where
    go :
        (wait : ℕ) (ws : List Window)
        → scan now 0 s.windows ≡ some (wait, ws)
        → ((acquire_round now stamp s).0 ≡ acquired)
          ⊎ ((wait : ℕ) × (ws : List Window) × (acquire_round now stamp s
                ≡ (sleeps wait, record s { windows = ws }))
              × ((later : ℕ) → now + wait ≤ later → All HasRoom (map (prune_window later) ws)))
    go zero ws e = inl (ground arith)
    go (suc wait) ws e =
        inr (suc wait, ws, ground arith, λ later le. scan-enough now 0 later s.windows p f e le)

module _ (tick : ℕ → ℕ) (wake : ℕ → ℕ → ℕ)
    (wake_after : (now wait : ℕ) → now + wait ≤ wake now wait) where
  -- Without a cooldown two rounds are enough.
  acquire_two :
      (fuel now : ℕ) (s : QuotaState)
      → s.cooldown_until ≤ now
      → All IsPositive s.windows
      → All Fits s.windows
      → Ends tick wake (suc (suc fuel)) now s
  acquire_two fuel now s cool p f = elim (acquire_round-cases now (tick now) s cool p f) [
    | inl e ↦ acquire-acquired tick wake (suc fuel) now s e
    | inr (wait, ws, e, room) ↦
        let later = wake now wait in
        let le : now + wait ≤ later = wake_after now wait in
        acquire-sleeps tick wake (suc fuel) now wait s (record s { windows = ws }) e
          (acquire-acquired tick wake fuel later (record s { windows = ws })
            (acquire_round-acquired later (tick later) (record s { windows = ws }) (omega arith)
              (room later le)))
  ]

  acquire_round-cooling :
      (now stamp : ℕ) (s : QuotaState)
      → now < s.cooldown_until
      → acquire_round now stamp s ≡ (sleeps (s.cooldown_until - now), s)
  unfolding acquire_round compute_wait
  acquire_round-cooling now stamp s h = go (s.cooldown_until - now) refl
    where
      go :
          (k : ℕ)
          → s.cooldown_until - now ≡ k
          → acquire_round now stamp s ≡ (sleeps (s.cooldown_until - now), s)
      go zero e = absurd (omega arith)
      go (suc k) e = ground arith

  -- With positive limits, deques within them and a sleep that lasts at least as long as asked for,
  -- `acquire` returns within three rounds when no other thread uses the class meanwhile.
  pub acquire_returns :
      (now : ℕ) (s : QuotaState)
      → All IsPositive s.windows
      → All Fits s.windows
      → Ends tick wake 3 now s
  acquire_returns now s p f = elim (Bool-cases (ltb now s.cooldown_until)) [
    | inl cool ↦
        let wait = s.cooldown_until - now in
        acquire-sleeps tick wake 2 now wait s s
          (acquire_round-cooling now (tick now) s (ltb→lt _ _ cool))
          (acquire_two 0 (wake now wait) s (omega (arith, wake_after now wait, ltb→lt _ _ cool)) p
            f)
    | inr clear ↦ acquire_two 1 now s (ground arith) p f
  ]
