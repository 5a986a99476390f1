-- ===== src/Risk/Screening.antt =====
-- What an approval means, and what a refusal leaves.
use n_trade.Prelude.{
  ℕ, suc, ◌<◌, ◌≡◌, ◌↔◌, ◌⊎◌, refl, true, false, String, Option, none, some, List, [], ◌∷◌, ◌++◌,
  string_eq, arith, Option-cases, inl, inr,
}
use n_trade.Prelude.Dict.{elem}
use n_trade.Prelude.Int.{ℤ, ltb_ℤ}
use n_trade.Prelude.Float.{Float}
use n_trade.Domain.{SignalGeneratedEvent, nought, or_zero}
use n_trade.Risk.{
  RiskConfig, Refusal, RiskState, approved_event, rejected_event, Context, update_breakers,
  reference_price, position_count, check_static, notional_price, check_notional, check_positions,
  deviation, check_deviation, or_check, check_signal, not_mine, on_signal,
}

or_check-none : {A : Type 0} (x y : Option A) → or_check x y ≡ none → (x ≡ none) × (y ≡ none)
or_check-none none y h = (refl, h)
or_check-none (some a) y h = absurd (cc)

module _ {W : Type 0} ⦃fl : Float W⦄ where
  -- Every limit that is set holds for the signal, in the state after the breakers were evaluated.
  pub record IsWithinLimits (k : RiskConfig W) (c : Context W) (e : SignalGeneratedEvent W)
      (s : RiskState W) : Type 0 where
    pub running : s.halted ≡ false
    pub allowed :
        (symbols : List String) → k.allowlist ≡ some symbols → elem e.symbol symbols ≡ true
    pub quantity : (m : ℤ) → k.max_quantity ≡ some m → ltb_ℤ m e.quantity ≡ false
    pub priced :
        (m : W)
        → k.max_notional ≡ some m
        → fl.fle (or_zero e.price) nought ≡ true
        → fl.fle (notional_price c e) nought ≡ false
    pub notional :
        (m : W)
        → k.max_notional ≡ some m
        → fl.flt m (fl.fmul (notional_price c e) (fl.of_int e.quantity)) ≡ false
    pub positions : (m : ℕ) → k.max_positions ≡ some m → position_count k c < m
    pub close_to_market :
        (m : W)
        → k.price_deviation_pct ≡ some m
        → fl.feq e.price nought ≡ false
        → (fl.feq (reference_price c e) nought ≡ false)
          × (fl.flt m (deviation e.price (reference_price c e)) ≡ false)

  check_static-none :
      (k : RiskConfig W) (s : RiskState W) (e : SignalGeneratedEvent W)
      → check_static k s e ≡ none
      → (s.halted ≡ false)
        × ((symbols : List String) → k.allowlist ≡ some symbols → elem e.symbol symbols ≡ true)
        × ((m : ℤ) → k.max_quantity ≡ some m → ltb_ℤ m e.quantity ≡ false)
  unfolding check_static
  check_static-none k s e h = (ground arith, λ a p. ground arith, λ m p. ground arith)

  check_notional-none :
      (k : RiskConfig W) (c : Context W) (e : SignalGeneratedEvent W) (m : W)
      → check_notional k c e ≡ none
      → k.max_notional ≡ some m
      → (fl.fle (or_zero e.price) nought ≡ true → fl.fle (notional_price c e) nought ≡ false)
        × (fl.flt m (fl.fmul (notional_price c e) (fl.of_int e.quantity)) ≡ false)
  unfolding check_notional
  check_notional-none k c e m h p = (λ z. ground arith, ground arith)

  check_positions-none :
      (k : RiskConfig W) (c : Context W) (m : ℕ)
      → check_positions k c ≡ none
      → k.max_positions ≡ some m
      → position_count k c < m
  unfolding check_positions
  check_positions-none k c m h p = ground arith

  check_deviation-none :
      (k : RiskConfig W) (c : Context W) (e : SignalGeneratedEvent W) (m : W)
      → check_deviation k c e ≡ none
      → k.price_deviation_pct ≡ some m
      → fl.feq e.price nought ≡ false
      → (fl.feq (reference_price c e) nought ≡ false)
        × (fl.flt m (deviation e.price (reference_price c e)) ≡ false)
  unfolding check_deviation
  check_deviation-none k c e m h p z = (ground arith, ground arith)

  check_signal-IsWithinLimits :
      (k : RiskConfig W) (c : Context W) (e : SignalGeneratedEvent W) (s : RiskState W)
      → check_signal k c e s ≡ none
      → IsWithinLimits k c e s
  unfolding check_signal
  check_signal-IsWithinLimits k c e s h =
      let (static, rest) = or_check-none _ _ h in
      let (notional, rest') = or_check-none _ _ rest in
      let (positions, deviates) = or_check-none _ _ rest' in
      let (running, allowed, quantity) = check_static-none k s e static in
      record {
        running = running;
        allowed = allowed;
        quantity = quantity;
        priced = λ m p. (check_notional-none k c e m notional p).0;
        notional = λ m p. (check_notional-none k c e m notional p).1;
        positions = λ m p. check_positions-none k c m positions p;
        close_to_market = λ m p. check_deviation-none k c e m deviates p;
      }

  check_static-some :
      (k : RiskConfig W) (c : Context W) (e : SignalGeneratedEvent W) (s : RiskState W)
      → IsWithinLimits k c e s
      → check_static k s e ≡ none
  unfolding check_static
  check_static-some k c e s v = elim (Option-cases k.allowlist) [
    | inl no_list ↦ elim (Option-cases k.max_quantity) [
      | inl no_max ↦ ground (arith, v.running)
      | inr (m, e') ↦ ground (arith, v.running, v.quantity m e')
    ]
    | inr (l, e'') ↦ elim (Option-cases k.max_quantity) [
      | inl no_max ↦ ground (arith, v.running, v.allowed l e'')
      | inr (m, e') ↦ ground (arith, v.running, v.allowed l e'', v.quantity m e')
    ]
  ]

  check_notional-some :
      (k : RiskConfig W) (c : Context W) (e : SignalGeneratedEvent W) (s : RiskState W)
      → IsWithinLimits k c e s
      → check_notional k c e ≡ none
  unfolding check_notional
  check_notional-some k c e s v = elim (Option-cases k.max_notional) [
    | inl no_max ↦ ground arith
    | inr (m, e') ↦ ground (arith, v.priced m e', v.notional m e')
  ]

  check_positions-some :
      (k : RiskConfig W) (c : Context W) (e : SignalGeneratedEvent W) (s : RiskState W)
      → IsWithinLimits k c e s
      → check_positions k c ≡ none
  unfolding check_positions
  check_positions-some k c e s v = elim (Option-cases k.max_positions) [
    | inl no_max ↦ ground arith
    | inr (m, e') ↦ ground (arith, v.positions m e')
  ]

  check_deviation-some :
      (k : RiskConfig W) (c : Context W) (e : SignalGeneratedEvent W) (s : RiskState W)
      → IsWithinLimits k c e s
      → check_deviation k c e ≡ none
  unfolding check_deviation
  check_deviation-some k c e s v = elim (Option-cases k.price_deviation_pct) [
    | inl no_max ↦ ground arith
    | inr (m, e') ↦ ground (arith, v.close_to_market m e')
  ]

  -- The screening lets a signal pass exactly when every limit that is set holds for it.
  pub check_signal_iff :
      (k : RiskConfig W) (c : Context W) (e : SignalGeneratedEvent W) (s : RiskState W)
      → (check_signal k c e s ≡ none) ↔ IsWithinLimits k c e s
  unfolding check_signal
  check_signal_iff k c e s = (
    check_signal-IsWithinLimits k c e s,
    λ v.
        rw
          (
            check_static-some k c e s v,
            check_notional-some k c e s v,
            check_positions-some k c e s v,
            check_deviation-some k c e s v,
          )
          refl,
  )

  -- A signal of this engine's strategy is approved, by the last event published, exactly when it is
  -- within every limit once the breakers have been evaluated, and refused by it otherwise.
  pub on_signal-verdict :
      (k : RiskConfig W) (c : Context W) (e : SignalGeneratedEvent W) (s : RiskState W)
      → not_mine k.strategy e.strategy ≡ false
      → let (t, breaker_events) = update_breakers k c s in
        let (u, events) = on_signal k c e s in
        ((events ≡ breaker_events ++ approved_event e e.ts ∷ [])
          × IsWithinLimits k c e t
          × (u.approved ≡ suc t.approved)
          × (u.rejected ≡ t.rejected))
        ⊎ ((r : Refusal W) × (events ≡ breaker_events ++ rejected_event e r e.ts ∷ [])
            × ¬ IsWithinLimits k c e t
            × (u.approved ≡ t.approved)
            × (u.rejected ≡ suc t.rejected))
  unfolding on_signal
  on_signal-verdict k c e s mine =
      let t = (update_breakers k c s).0 in
      elim (Option-cases (check_signal k c e t)) [
        | inl pass ↦
            rw (mine, pass) (inl (refl, check_signal-IsWithinLimits k c e t pass, refl, refl))
        | inr (r, refused) ↦
            rw (mine, refused)
              (inr (r, refl, (λ v. cc ((check_signal_iff k c e t).1 v)), refl, refl))
      ]

  -- A signal of another strategy is left alone.
  pub on_signal-not_mine :
      (k : RiskConfig W) (c : Context W) (e : SignalGeneratedEvent W) (s : RiskState W)
      → not_mine k.strategy e.strategy ≡ true
      → on_signal k c e s ≡ (s, [])
  unfolding on_signal
  on_signal-not_mine k c e s other = rw other refl
