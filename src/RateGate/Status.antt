-- ===== src/RateGate/Status.antt =====
-- `status` against what a fresh `acquire` would find.
use n_trade.Prelude.{
  ℕ, ◌+◌, ◌≤◌, ◌<◌, ◌≡◌, refl, List, [], ◌∷◌, map, some, Bool, false, ◌||◌, length, count, exists,
  ltb, leb, arith, All, Bool-cases, Option-cases, inl, inr,
}
use n_trade.RateGate.{
  Window, QuotaState, prune, prune_window, window_wait, scan, compute_wait, window_status,
  is_long_and_full, status,
}

or_left : (a b : Bool) → (a || b) ≡ false → a ≡ false
or_left a b h = ground arith

or_right : (a b : Bool) → (a || b) ≡ false → b ≡ false
or_right a b h = ground arith

-- The entries were appended in the order of the clock, and none lies ahead of it.
abbrev pub IsOrdered : ℕ → List ℕ → Type 0
IsOrdered now [] = Unit
IsOrdered now (t ∷ ts) = (t ≤ now) × All (λ u. t ≤ u) ts × IsOrdered now ts

count-every :
    (now span t : ℕ) (ts : List ℕ)
    → now < t + span
    → All (λ u. t ≤ u) ts
    → count (λ u. ltb now (u + span)) ts ≡ length ts
count-every now span t [] lt h = refl
count-every now span t (u ∷ ts) lt h = ground (arith, count-every now span t ts lt h.1)

-- The entries that `status` counts are those that `_compute_wait` keeps.
used-eq-length :
    (now span : ℕ) (ts : List ℕ)
    → IsOrdered now ts
    → count (λ u. ltb now (u + span)) ts ≡ length (prune now span ts)
unfolding prune
used-eq-length now span [] h = refl
used-eq-length now span (t ∷ ts) h = elim (Bool-cases (leb (t + span) now)) [
  | inl old ↦ rw old (ground (arith, used-eq-length now span ts h.2))
  | inr new ↦ rw new (ground (arith, count-every now span t ts (ground arith) h.1))
]

prune-past :
    (now span : ℕ) (ts : List ℕ) {u : ℕ} {us : List ℕ}
    → IsOrdered now ts
    → prune now span ts ≡ u ∷ us
    → u ≤ now
unfolding prune
prune-past now span [] h e = absurd (cc)
prune-past now span (t ∷ ts) h e = elim (Bool-cases (leb (t + span) now)) [
  | inl old ↦ prune-past now span ts h.2 (rw old at e)
  | inr new ↦ ground arith
]

window_wait-lt :
    (min_span now wait m : ℕ) (w : Window)
    → IsOrdered now w.stamps
    → is_long_and_full min_span (window_status now w) ≡ false
    → wait < min_span
    → window_wait now wait (prune_window now w) ≡ some m
    → m < min_span
unfolding window_wait window_status
window_wait-lt min_span now wait m w h e lt got = go (prune now w.span w.stamps) refl
  where
    go : (ts : List ℕ) → prune now w.span w.stamps ≡ ts → m < min_span
    go [] p = ground (arith, used-eq-length now w.span w.stamps h)
    go (t ∷ ts) p =
        ground (arith, used-eq-length now w.span w.stamps h, prune-past now w.span w.stamps h p)

scan-lt :
    (min_span now wait : ℕ) (ws : List Window) {wait' : ℕ} {ws' : List Window}
    → All (λ w. IsOrdered now w.stamps) ws
    → exists (is_long_and_full min_span) (map (window_status now) ws) ≡ false
    → wait < min_span
    → scan now wait ws ≡ some (wait', ws')
    → wait' < min_span
unfolding scan
scan-lt min_span now wait [] h e lt got = ground arith
scan-lt min_span now wait (w ∷ ws) {wait' = wait'} h e lt got =
    elim (Option-cases (window_wait now wait (prune_window now w))) [
      | inl e' ↦ absurd (ground arith)
      | inr (m, e') ↦ elim (Option-cases (scan now m ws)) [
        | inl e'' ↦ absurd (ground arith)
        | inr ((n, vs), e'') ↦
            let first = window_wait-lt min_span now wait m w h.0 (or_left _ _ e) lt e' in
            let rest = scan-lt min_span now m ws h.1 (or_right _ _ e) first e'' in
            ground (arith, rest)
      ]
    ]

-- A class that `status` does not report as blocked makes a fresh `acquire` wait for less than the
-- reporting span.
pub status-wait :
    (min_span now : ℕ) (s : QuotaState) {wait : ℕ} {s' : QuotaState}
    → 0 < min_span
    → All (λ w. IsOrdered now w.stamps) s.windows
    → (status min_span now s).blocked ≡ false
    → compute_wait now s ≡ some (wait, s')
    → wait < min_span
unfolding status compute_wait
status-wait min_span now s {wait = wait} p h e got = elim (Option-cases (scan now 0 s.windows)) [
  | inl e' ↦ absurd (ground arith)
  | inr ((n, vs), e') ↦
      let small = scan-lt min_span now 0 s.windows h (or_right _ _ e) p e' in ground (arith, small)
]
