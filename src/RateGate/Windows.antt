-- ===== src/RateGate/Windows.antt =====
-- What pruning leaves of a window, and what the wait over the windows says of their room.
use n_trade.Prelude.{
  max, ℕ, ◌+◌, ◌-◌, ◌≤◌, ◌<◌, ◌≡◌, refl, List, [], ◌∷◌, map, some, length, leb, leb→le, arith, All,
  Bool-cases, Option-cases, inl, inr,
}
use n_trade.RateGate.{Window, prune, prune_window, window_wait, until_oldest_leaves, scan}

-- An entry that `prune` leaves at the front is still in the window.
pub prune-head :
    (now span : ℕ) (ts : List ℕ) {u : ℕ} {us : List ℕ} → prune now span ts ≡ u ∷ us → now < u + span
unfolding prune
prune-head now span [] h = absurd (cc)
prune-head now span (t ∷ ts) h = elim (Bool-cases (leb (t + span) now)) [
  | inl old ↦ prune-head now span ts (rw old at h)
  | inr new ↦ ground arith
]

abbrev pub HasRoom : Window → Type 0
HasRoom w = length w.stamps < w.limit

-- The wait only grows over the windows, and is 0 at the end only if each has room.
window_wait-HasRoom :
    (now wait wait' : ℕ) (w : Window)
    → window_wait now wait (prune_window now w) ≡ some wait'
    → (wait ≤ wait') × (wait' ≡ 0 → HasRoom (prune_window now w))
unfolding window_wait
window_wait-HasRoom now wait wait' w h = go (prune now w.span w.stamps) refl
  where
    go :
        (ts : List ℕ)
        → prune now w.span w.stamps ≡ ts
        → (wait ≤ wait') × (wait' ≡ 0 → HasRoom (prune_window now w))
    go [] e = (ground arith, λ z. ground arith)
    go (t ∷ ts) e = (ground arith, λ z. ground (arith, prune-head now w.span w.stamps e))

-- `scan` prunes every window, and a wait of 0 means that each has room.
pub scan-HasRoom :
    (now wait : ℕ) (ws : List Window) {wait' : ℕ} {ws' : List Window}
    → scan now wait ws ≡ some (wait', ws')
    → (ws' ≡ map (prune_window now) ws) × (wait ≤ wait') × (wait' ≡ 0 → All HasRoom ws')
unfolding scan
scan-HasRoom now wait [] h = ground arith
scan-HasRoom now wait (w ∷ ws) {wait' = wait'} h =
    elim (Option-cases (window_wait now wait (prune_window now w))) [
      | inl e ↦ absurd (ground arith)
      | inr (m, e) ↦ elim (Option-cases (scan now m ws)) [
        | inl e' ↦ absurd (ground arith)
        | inr ((n, vs), e') ↦
            let rest = scan-HasRoom now m ws e' in
            let first = window_wait-HasRoom now wait m w e in ground (arith, rest, first)
      ]
    ]

length-prune : (now span : ℕ) (ts : List ℕ) → length (prune now span ts) ≤ length ts
unfolding prune
length-prune now span [] = omega arith
length-prune now span (t ∷ ts) = ground (arith, length-prune now span ts)

abbrev pub IsPositive : Window → Type 0
IsPositive w = 0 < w.limit

abbrev pub Fits : Window → Type 0
Fits w = length w.stamps ≤ w.limit

until_oldest_leaves-total :
    (now wait span limit : ℕ) (ts : List ℕ)
    → 0 < limit
    → limit ≤ length ts
    → (m : ℕ) × (until_oldest_leaves now wait span ts ≡ some m)
until_oldest_leaves-total now wait span limit [] p full = absurd (omega arith)
until_oldest_leaves-total now wait span limit (t ∷ ts) p full = (max wait (t + span - now), refl)

window_wait-total :
    (now wait : ℕ) (w : Window) → IsPositive w → (m : ℕ) × (window_wait now wait w ≡ some m)
unfolding window_wait
window_wait-total now wait w p = elim (Bool-cases (leb w.limit (length w.stamps))) [
  | inr room ↦ (wait, ground arith)
  | inl full ↦
      let (m, e) = until_oldest_leaves-total now wait w.span w.limit w.stamps p (leb→le _ _ full) in
      (m, ground arith)
]

-- With positive limits the scan raises no `IndexError`.
pub scan-total :
    (now wait : ℕ) (ws : List Window)
    → All IsPositive ws
    → (r : ℕ × List Window) × (scan now wait ws ≡ some r)
unfolding scan
scan-total now wait [] p = ((wait, []), refl)
scan-total now wait (w ∷ ws) p =
    let (m, e) = window_wait-total now wait (prune_window now w) p.0 in
    let ((n, vs), e') = scan-total now m ws p.1 in ((n, prune_window now w ∷ vs), ground arith)

-- When every window has room the wait is 0.
pub scan-zero :
    (now : ℕ) (ws : List Window)
    → All HasRoom (map (prune_window now) ws)
    → scan now 0 ws ≡ some (0, map (prune_window now) ws)
unfolding scan window_wait
scan-zero now [] h = refl
scan-zero now (w ∷ ws) h = ground (arith, scan-zero now ws h.1)

window_wait-enough :
    (now wait m later : ℕ) (w : Window)
    → IsPositive w
    → Fits w
    → window_wait now wait (prune_window now w) ≡ some m
    → now + m ≤ later
    → HasRoom (prune_window later (prune_window now w))
unfolding window_wait prune
window_wait-enough now wait m later w p f h le = go (prune now w.span w.stamps) refl
  where
    go :
        (ts : List ℕ)
        → prune now w.span w.stamps ≡ ts
        → HasRoom (prune_window later (prune_window now w))
    go [] e = ground arith
    go (t ∷ ts) e = ground (
      arith,
      length-prune now w.span w.stamps,
      length-prune later w.span ts,
      length-prune later w.span (t ∷ ts),
    )

-- After the wait that a scan asks for, every window has room.
pub scan-enough :
    (now wait later : ℕ) (ws : List Window) {wait' : ℕ} {ws' : List Window}
    → All IsPositive ws
    → All Fits ws
    → scan now wait ws ≡ some (wait', ws')
    → now + wait' ≤ later
    → All HasRoom (map (prune_window later) ws')
unfolding scan
scan-enough now wait later [] {ws' = ws'} p f h le =
    let none_left : [] ≡ ws' = ground arith in rw (← none_left) tt
scan-enough now wait later (w ∷ ws) {wait' = wait'} {ws' = ws'} p f h le =
    elim (Option-cases (window_wait now wait (prune_window now w))) [
      | inl e ↦ absurd (ground arith)
      | inr (m, e) ↦ elim (Option-cases (scan now m ws)) [
        | inl e' ↦ absurd (ground arith)
        | inr ((n, vs), e') ↦
            let rest = scan-enough now m later ws p.1 f.1 e' (ground arith) in
            let grows = scan-HasRoom now m ws e' in
            let first = window_wait-enough now wait m later w p.0 f.0 e (ground arith) in
            let whole : prune_window now w ∷ vs ≡ ws' = ground arith in rw (← whole) (first, rest)
      ]
    ]
