-- ===== src/RateGate/Kept.antt =====
-- The times at which calls were let through, and how a window's deque keeps to them.
use n_trade.Prelude.{
  ℕ, ◌+◌, ◌≤◌, ◌<◌, ◌≡◌, refl, ap, ◌∙◌, List, [], ◌∷◌, ◌++◌, append_assoc, Bool, ◌&&◌, length,
  length-append, count, count-append, ltb, leb, if◌then◌else◌, arith, All, All-append, Bool-cases,
  inl, inr,
}
use n_trade.RateGate.{Window, prune, prune_window, append_stamp}

-- The number of calls let through from `start` on, for as long as `span`.
abbrev pub calls_within : ℕ → ℕ → List ℕ → ℕ
calls_within start span log = count (λ t. leb start t && ltb t (start + span)) log

count-le-length {ℓ} : {A : Type ℓ} (p : A → Bool) (xs : List A) → count p xs ≤ length xs
count-le-length p [] = omega arith
count-le-length p (x ∷ xs) = ground (arith, count-le-length p xs)

-- The entries that `prune` drops.
dropped : ℕ → ℕ → List ℕ → List ℕ
dropped now span [] = []
dropped now span (t ∷ ts) = if leb (t + span) now then t ∷ dropped now span ts else []

dropped-append-prune : (now span : ℕ) (ts : List ℕ) → dropped now span ts ++ prune now span ts ≡ ts
unfolding dropped prune
dropped-append-prune now span [] = refl
dropped-append-prune now span (t ∷ ts) = ground (arith, dropped-append-prune now span ts)

abbrev pub LeftBy : ℕ → ℕ → List ℕ → Type 0
LeftBy now span ts = All (λ t. t + span ≤ now) ts

dropped-LeftBy : (now span : ℕ) (ts : List ℕ) → LeftBy now span (dropped now span ts)
unfolding dropped
dropped-LeftBy now span [] = tt
dropped-LeftBy now span (t ∷ ts) = elim (Bool-cases (leb (t + span) now)) [
  | inl old ↦ rw old (ground arith, dropped-LeftBy now span ts)
  | inr new ↦ rw new tt
]

LeftBy-mono : (t u span : ℕ) (ts : List ℕ) → t ≤ u → LeftBy t span ts → LeftBy u span ts
LeftBy-mono t u span [] le h = tt
LeftBy-mono t u span (x ∷ ts) le h = (omega arith, LeftBy-mono t u span ts le h.1)

-- What has left a window by `now` does not count in an interval that reaches beyond `now`.
count-LeftBy :
    (now start span : ℕ) (ts : List ℕ)
    → LeftBy now span ts
    → now < start + span
    → calls_within start span ts ≡ 0
count-LeftBy now start span [] h lt = refl
count-LeftBy now start span (t ∷ ts) h lt = ground (arith, count-LeftBy now start span ts h.1)

-- A window's deque is the end of the log, what stands before it has left the window, and the
-- log is within the limit in every interval.
pub record IsKept (t : ℕ) (log : List ℕ) (w : Window) : Type 0 where
  pub gone : List ℕ
  pub split : log ≡ gone ++ w.stamps
  pub left : LeftBy t w.span gone
  pub fits : length w.stamps ≤ w.limit
  pub bounded : (start : ℕ) → calls_within start w.span log ≤ w.limit

pub IsKept-prune :
    (t now : ℕ) (log : List ℕ) (w : Window)
    → t ≤ now
    → IsKept t log w
    → IsKept now log (prune_window now w)
IsKept-prune t now log w le h =
    let cut = dropped-append-prune now w.span w.stamps in
    record {
      gone = h.gone ++ dropped now w.span w.stamps;
      split = rw (append_assoc, cut) h.split;
      left =
          All-append (λ x. x + w.span ≤ now) h.gone (dropped now w.span w.stamps)
            (LeftBy-mono t now w.span h.gone le h.left) (dropped-LeftBy now w.span w.stamps);
      fits = omega (
        arith,
        length-append (dropped now w.span w.stamps) (prune now w.span w.stamps),
        ap length cut,
        h.fits,
      );
      bounded = h.bounded;
    }

pub IsKept-append :
    (now stamp : ℕ) (log : List ℕ) (w : Window)
    → now ≤ stamp
    → length w.stamps < w.limit
    → IsKept now log w
    → IsKept stamp (log ++ stamp ∷ []) (append_stamp stamp w)
IsKept-append now stamp log w le room h = record {
  gone = h.gone;
  split = ap (λ l. l ++ stamp ∷ []) h.split ∙ append_assoc h.gone w.stamps (stamp ∷ []);
  left = LeftBy-mono now stamp w.span h.gone le h.left;
  fits = omega (arith, length-append w.stamps (stamp ∷ []));
  bounded = λ start.
      let p : ℕ → Bool = λ t. leb start t && ltb t (start + w.span) in
      ground (
        arith,
        h.bounded start,
        count-append p log (stamp ∷ []),
        ap (count p) h.split,
        count-append p h.gone w.stamps,
        count-LeftBy now start w.span h.gone h.left,
        count-le-length p w.stamps,
      );
}

pub IsKept-later :
    (t now : ℕ) (log : List ℕ) (w : Window) → t ≤ now → IsKept t log w → IsKept now log w
IsKept-later t now log w le h = record {
  gone = h.gone;
  split = h.split;
  left = LeftBy-mono t now w.span h.gone le h.left;
  fits = h.fits;
  bounded = h.bounded;
}
