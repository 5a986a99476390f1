-- ===== src/Risk/Breakers.antt =====
-- When the breakers of ntrade/engines/risk_engine.py halt the engine, over a series of checks.
use std.Path.{subst}
use n_trade.Prelude.{
  ◌≡◌, ◌↔◌, ◌⊎◌, refl, sym, ap, ◌∙◌, true, false, Option, none, some, List, [], ◌∷◌, ◌++◌, map,
  if◌then◌else◌, arith, Bool-cases, inl, inr,
}
use n_trade.Prelude.Int.{pos}
use n_trade.Prelude.Float.{Float}
use n_trade.Domain.{Position}
use n_trade.Risk.{
  RiskConfig, RiskState, new_risk, Context, equity, add_values, raise_peak, exceeds, drawdown_of,
  update_breakers, check,
}

module _ {W : Type 0} ⦃fl : Float W⦄ where
  -- The state of the engine after a series of checks.
  unfoldable pub checked : RiskConfig W → List (Context W) → RiskState W → RiskState W
  unfolding check
  checked k [] s = s
  checked k (c ∷ cs) s = checked k cs (check k c s).1

  -- What the positions are worth at their last prices, each to two places.
  abbrev pub add_worth : W → List (Position W) → W
  add_worth total [] = total
  add_worth total (p ∷ ps) =
      add_worth (fl.fadd total (fl.round2 (fl.fmul (fl.of_int p.quantity) p.ltp))) ps

  -- The cash and the positions.
  abbrev pub wealth : Context W → W
  wealth c = fl.fadd c.balance (add_worth (fl.of_int (pos 0)) c.positions)

  -- The highest of a series of values, the later one only when it is greater.
  abbrev pub highest : W → List W → W
  highest top [] = top
  highest top (x ∷ xs) = highest (if fl.flt top x then x else top) xs

  -- Above a cap that is set.
  abbrev pub IsAbove : Option W → W → Type 0
  IsAbove none x = ⊥
  IsAbove (some cap) x = fl.flt cap x ≡ true

  -- A fall from a peak, in per cent of it.
  abbrev pub fall : W → W → W
  fall peak x = fl.fmul (fl.fdiv (fl.fsub peak x) peak) (fl.of_int (pos 100))

  add_worth-values : (total : W) (ps : List (Position W)) → add_values total ps ≡ add_worth total ps
  add_worth-values total [] = refl
  add_worth-values total (p ∷ ps) =
      add_worth-values (fl.fadd total (fl.round2 (fl.fmul (fl.of_int p.quantity) p.ltp))) ps

  equity-wealth : (c : Context W) → equity c ≡ wealth c
  unfolding equity
  equity-wealth c = ap (fl.fadd c.balance) (add_worth-values (fl.of_int (pos 0)) c.positions)

  exceeds-IsAbove : (cap : Option W) (x : W) → (exceeds cap x ≡ true) ↔ IsAbove cap x
  exceeds-IsAbove none x = ((λ h. absurd (cc)), (λ h. elim h [ ]))
  exceeds-IsAbove (some cap) x = ((λ h. h), (λ h. h))

  check-halted :
      (k : RiskConfig W) (c : Context W) (s : RiskState W) → s.halted ≡ true → (check k c s).1 ≡ s
  unfolding check update_breakers
  check-halted k c s h = rw h refl

  check-running :
      (k : RiskConfig W) (c : Context W) (s : RiskState W)
      → s.halted ≡ false
      → (check k c s).1.halted ≡ false
      → ((check k c s).1.peak_equity ≡ some (raise_peak (equity c) s.peak_equity))
        × ((check k c s).1.start_balance ≡ s.start_balance)
  unfolding check update_breakers
  check-running k c s h after = (ground arith, ground arith)

  -- What trips the breakers, as the engine computes it.
  abbrev Trips : RiskConfig W → W → W → W → Type 0
  Trips k start now peak =
      (exceeds k.max_daily_loss (fl.fsub start now) ≡ true)
      ⊎ ((fl.feq peak (fl.of_int (pos 0)) ≡ false)
          × (exceeds k.max_drawdown_pct (drawdown_of peak now) ≡ true))

  check-Trips :
      (k : RiskConfig W) (c : Context W) (s : RiskState W)
      → s.halted ≡ false
      → ((check k c s).1.halted ≡ true)
        ↔ Trips k s.start_balance (equity c) (raise_peak (equity c) s.peak_equity)
  unfolding check update_breakers
  check-Trips k c s h = (λ t. ground arith, λ t. ground arith)

  checked-halted :
      (k : RiskConfig W) (cs : List (Context W)) (s : RiskState W)
      → s.halted ≡ true
      → checked k cs s ≡ s
  unfolding checked
  checked-halted k [] s h = refl
  checked-halted k (c ∷ cs) s h = ap (checked k cs) (check-halted k c s h) ∙ checked-halted k cs s h

  -- The highest value so far, if there is one.
  abbrev raised : Option W → List W → Option W
  raised peak [] = peak
  raised peak (x ∷ xs) = raised (some (raise_peak x peak)) xs

  checked-peak :
      (k : RiskConfig W) (cs : List (Context W)) (s : RiskState W)
      → s.halted ≡ false
      → (checked k cs s).halted ≡ false
      → ((checked k cs s).peak_equity ≡ raised s.peak_equity (map wealth cs))
        × ((checked k cs s).start_balance ≡ s.start_balance)
  unfolding checked
  checked-peak k [] s h after = (refl, refl)
  checked-peak k (c ∷ cs) s h after =
      let t = (check k c s).1 in
      elim (Bool-cases t.halted) [
        | inl stops ↦
            let still =
              sym after
              ∙ ap (λ (r : RiskState W). r.halted) (checked-halted k cs t stops)
              ∙ stops in
            absurd (cc)
        | inr runs ↦
            let one = check-running k c s h runs in
            let rest = checked-peak k cs t runs after in
            let peak : t.peak_equity ≡ some (raise_peak (wealth c) s.peak_equity) =
              one.0 ∙ ap (λ e. some (raise_peak e s.peak_equity)) (equity-wealth c) in
            (rest.0 ∙ ap (λ p. raised p (map wealth cs)) peak, rest.1 ∙ one.1)
      ]

  raised-highest : (top : W) (xs : List W) → raised (some top) xs ≡ some (highest top xs)
  raised-highest top [] = refl
  raised-highest top (x ∷ xs) = raised-highest (if fl.flt top x then x else top) xs

  highest-snoc :
      (top x : W) (xs : List W) → highest top (xs ++ x ∷ []) ≡ raise_peak x (some (highest top xs))
  highest-snoc top x [] = refl
  highest-snoc top x (y ∷ ys) = highest-snoc (if fl.flt top y then y else top) x ys

  -- The highest of the values, of which there is one at least.
  abbrev pub peak_of : List W → W → W
  peak_of [] last = last
  peak_of (x ∷ xs) last = highest x (xs ++ last ∷ [])

  raised-peak_of : (xs : List W) (last : W) → raise_peak last (raised none xs) ≡ peak_of xs last
  raised-peak_of [] last = refl
  raised-peak_of (x ∷ xs) last =
      ap (raise_peak last) (raised-highest x xs) ∙ sym (highest-snoc x last xs)

  -- An engine that is new and then checked any number of times, and still runs: the next check halts it
  -- exactly when the loss since the start, in cash and positions at their last prices, is above its cap,
  -- or the fall from the highest of the values at all the checks, this one included, is above its cap
  -- in per cent of that highest value, which is not 0.
  pub checked-trips :
      (k : RiskConfig W) (start : W) (cs : List (Context W)) (c : Context W)
      → (checked k cs (new_risk start)).halted ≡ false
      → let s = checked k cs (new_risk start) in
        let peak = peak_of (map wealth cs) (wealth c) in
        ((check k c s).1.halted ≡ true) ↔ (
          IsAbove k.max_daily_loss (fl.fsub start (wealth c))
          ⊎ ((fl.feq peak (fl.of_int (pos 0)) ≡ false)
              × IsAbove k.max_drawdown_pct (fall peak (wealth c))))
  unfolding new_risk
  checked-trips k start cs c runs =
      let s = checked k cs (new_risk start) in
      let kept = checked-peak k cs (new_risk start) refl runs in
      let peak : raise_peak (equity c) s.peak_equity ≡ peak_of (map wealth cs) (wealth c) =
        ap (λ p. raise_peak (equity c) p) kept.0
        ∙ ap (λ e. raise_peak e (raised none (map wealth cs))) (equity-wealth c)
        ∙ raised-peak_of (map wealth cs) (wealth c) in
      let top = peak_of (map wealth cs) (wealth c) in
      let halts : Type 0 = (check k c s).1.halted ≡ true in
      let by_start =
        subst (λ b. halts ↔ Trips k b (equity c) (raise_peak (equity c) s.peak_equity)) kept.1
          (check-Trips k c s runs) in
      let by_peak = subst (λ p. halts ↔ Trips k start (equity c) p) peak by_start in
      let trips = subst (λ e. halts ↔ Trips k start e top) (equity-wealth c) by_peak in
      let loss = exceeds-IsAbove k.max_daily_loss (fl.fsub start (wealth c)) in
      let falls = exceeds-IsAbove k.max_drawdown_pct (fall top (wealth c)) in
      (
        λ h. elim (trips.0 h) [
          | inl l ↦ inl (loss.0 l)
          | inr (some_peak, d) ↦ inr (some_peak, falls.0 d)
        ],
        λ h.
            trips.1
              (elim h [ inl l ↦ inl (loss.1 l) | inr (some_peak, d) ↦ inr (some_peak, falls.1 d) ]),
      )
