-- ===== src/Retry/Limiter.antt =====
-- `RateLimiter` of ntrade/execution/retry.py, in ticks of the monotonic clock. The clock is read at
-- the start of a wait and at its end; the lock makes a wait one step.
use n_trade.Prelude.{ℕ, ◌+◌, ◌-◌, ◌≤◌, List, [], ◌∷◌, if◌then◌else◌, ltb, arith}

pub record RateLimiter : Type 0 where
  pub interval : ℕ
  pub last_time : ℕ

-- The interval is what the rate comes to, and zero for a rate that is not positive.
unfoldable pub new_limiter : ℕ → RateLimiter
new_limiter interval = record { interval = interval; last_time = 0 }

-- What `wait` sleeps.
unfoldable pub slept : ℕ → RateLimiter → ℕ
slept now l = if ltb (now - l.last_time) l.interval then l.interval - (now - l.last_time) else 0

-- `wait`, with the two readings of the clock.
unfoldable pub wait : ℕ → ℕ → RateLimiter → RateLimiter
wait now woken l = record l { last_time = woken }

unfoldable pub waits : List (ℕ × ℕ) → RateLimiter → List ℕ
unfolding wait
waits [] l = []
waits ((now, woken) ∷ rest) l = let after = wait now woken l in after.last_time ∷ waits rest after

-- The clock does not go back, and a sleep lasts as long as asked for or longer.
unfoldable pub IsHonest : List (ℕ × ℕ) → RateLimiter → Type 0
unfolding slept wait
IsHonest [] l = Unit
IsHonest ((now, woken) ∷ rest) l =
    (l.last_time ≤ now) × (now + slept now l ≤ woken) × IsHonest rest (wait now woken l)

-- Each time is the interval or more after the one before.
unfoldable pub IsApart : ℕ → ℕ → List ℕ → Type 0
IsApart gap last [] = Unit
IsApart gap last (t ∷ ts) = (last + gap ≤ t) × IsApart gap t ts

slept-enough :
    (now woken last gap : ℕ)
    → last ≤ now
    → now + (if ltb (now - last) gap then gap - (now - last) else 0) ≤ woken
    → last + gap ≤ woken
slept-enough now woken last gap forward long = ground arith

-- Whatever calls wait on a limiter, one after the other: each is let through the interval or more
-- after the one before.
pub waits-IsApart :
    (rs : List (ℕ × ℕ)) (l : RateLimiter)
    → IsHonest rs l
    → IsApart l.interval l.last_time (waits rs l)
unfolding IsHonest IsApart waits wait slept
waits-IsApart [] l honest = tt
waits-IsApart ((now, woken) ∷ rest) l (forward, long, later) = (
  slept-enough now woken l.last_time l.interval forward long,
  waits-IsApart rest (record l { last_time = woken }) later,
)
