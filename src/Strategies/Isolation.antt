-- ===== src/Strategies/Isolation.antt =====
-- That a hook of ntrade/engines/strategy_engine.py does not keep an event from its siblings.
use n_trade.Prelude.{
  ℕ, suc, ◌+◌, ◌≤◌, ◌≡◌, refl, ap, ◌∙◌, Bool, true, false, ◌&&◌, Option, none, some, List, [], ◌∷◌,
  ◌==◌, count, count-append, arith, Bool-cases, Option-cases, inl, inr,
}
use n_trade.Strategies.{
  Strategy, StrategyEngine, World, Hook, bump, call_hook, call_hooks, dispatch, set_object,
}

module _ {S : Type 0} where
  -- Whether the strategy of an event is called.
  unfoldable pub is_called : (ℕ → Option (Hook S)) → StrategyEngine → ℕ → Bool
  is_called hooks e i = (e.objects i).enabled && elim (hooks i) [ none ↦ false | some _ ↦ true ]

  -- A hook switches no strategy on or off, and lowers no error count.
  unfoldable pub IsSteady : (ℕ → Option (Hook S)) → Type 0
  IsSteady hooks =
      (i j : ℕ) (hook : Hook S) (w : World S)
      → hooks i ≡ some hook
      → (((hook w).0.0.objects j).enabled ≡ (w.0.objects j).enabled)
        × ((w.0.objects j).error_count ≤ ((hook w).0.0.objects j).error_count)

-- The failed calls of a strategy.
abbrev pub is_failure : ℕ → ℕ × Bool → Bool
is_failure j (i, failed) = (i == j) && failed

set_object-keeps :
    {A : Type 0} (f : Strategy → A) (i j : ℕ) (s : Strategy) (e : StrategyEngine)
    → f s ≡ f (e.objects i)
    → f ((set_object i s e).objects j) ≡ f (e.objects j)
set_object-keeps f i j s e same = elim (Bool-cases (i == j)) [
  | inl q ↦ let at : i ≡ j = ground (arith, q) in rw q (same ∙ ap (λ k. f (e.objects k)) at)
  | inr q ↦ rw q refl
]

bump-enabled :
    (fails : Bool) (i j : ℕ) (e : StrategyEngine)
    → ((bump fails i e).objects j).enabled ≡ (e.objects j).enabled
unfolding bump
bump-enabled false i j e = refl
bump-enabled true i j e =
    set_object-keeps (λ s. s.enabled) i j
      (record (e.objects i) { error_count = suc (e.objects i).error_count }) e refl

bump-errors :
    (failed : Bool) (i j : ℕ) (e : StrategyEngine)
    → ((bump failed i e).objects j).error_count
      ≡ (e.objects j).error_count + count (is_failure j) ((i, failed) ∷ [])
unfolding bump
bump-errors false i j e = ground arith
bump-errors true i j e = elim (Bool-cases (i == j)) [
  | inl q ↦
      let at : i ≡ j = ground (arith, q) in
      rw q (ap (λ k. suc (e.objects k).error_count) at ∙ (omega arith))
  | inr q ↦ rw q (omega arith)
]

add_under : (a b c n : ℕ) → a ≤ b → c ≡ b + n → a + n ≤ c
add_under a b c n under exact = omega arith

module _ {S : Type 0} where
  call_hook-enabled :
      (hooks : ℕ → Option (Hook S)) (i j : ℕ) (w : World S)
      → IsSteady hooks
      → ((call_hook hooks i w).0.0.objects j).enabled ≡ (w.0.objects j).enabled
  unfolding call_hook IsSteady
  call_hook-enabled hooks i j w steady = elim (Bool-cases (w.0.objects i).enabled) [
    | inl on ↦ elim (Option-cases (hooks i)) [
      | inl h ↦ rw (on, h) refl
      | inr (hook, h) ↦
          rw (on, h) (bump-enabled (hook w).1 i j (hook w).0.0 ∙ (steady i j hook w h).0)
    ]
    | inr off ↦ rw off refl
  ]

  call_hook-errors :
      (hooks : ℕ → Option (Hook S)) (i j : ℕ) (w : World S)
      → IsSteady hooks
      → (w.0.objects j).error_count + count (is_failure j) (call_hook hooks i w).1
        ≤ ((call_hook hooks i w).0.0.objects j).error_count
  unfolding call_hook IsSteady
  call_hook-errors hooks i j w steady = elim (Bool-cases (w.0.objects i).enabled) [
    | inl on ↦ elim (Option-cases (hooks i)) [
      | inl h ↦ rw (on, h) (omega arith)
      | inr (hook, h) ↦
          let grown = (steady i j hook w h).1 in
          let exact = bump-errors (hook w).1 i j (hook w).0.0 in
          rw (on, h) (add_under _ _ _ _ grown exact)
    ]
    | inr off ↦ rw off (omega arith)
  ]

  -- A dispatch of steady hooks is as steady as they are, also as a part of another hook.
  pub call_hooks-enabled :
      (hooks : ℕ → Option (Hook S)) (is : List ℕ) (j : ℕ) (w : World S)
      → IsSteady hooks
      → ((call_hooks hooks is w).0.0.objects j).enabled ≡ (w.0.objects j).enabled
  unfolding call_hooks
  call_hooks-enabled hooks [] j w steady = refl
  call_hooks-enabled hooks (i ∷ is) j w steady =
      call_hooks-enabled hooks is j (call_hook hooks i w).0 steady
      ∙ call_hook-enabled hooks i j w steady

  pub call_hooks-errors :
      (hooks : ℕ → Option (Hook S)) (is : List ℕ) (j : ℕ) (w : World S)
      → IsSteady hooks
      → (w.0.objects j).error_count + count (is_failure j) (call_hooks hooks is w).1
        ≤ ((call_hooks hooks is w).0.0.objects j).error_count
  unfolding call_hooks
  call_hooks-errors hooks [] j w steady = omega arith
  call_hooks-errors hooks (i ∷ is) j w steady =
      let w1 = (call_hook hooks i w).0 in
      omega (
        arith,
        call_hook-errors hooks i j w steady,
        call_hooks-errors hooks is j w1 steady,
        count-append (is_failure j) (call_hook hooks i w).1 (call_hooks hooks is w1).1,
      )

  -- What a hook does that publishes an event, whose dispatch is inside of it.
  pub nested-IsSteady :
      (inner : ℕ → Option (Hook S)) (j : ℕ) (w : World S)
      → IsSteady inner
      → (((dispatch inner w).0.0.objects j).enabled ≡ (w.0.objects j).enabled)
        × ((w.0.objects j).error_count ≤ ((dispatch inner w).0.0.objects j).error_count)
  unfolding dispatch
  nested-IsSteady inner j w steady = (
    call_hooks-enabled inner w.0.strategies j w steady,
    omega (arith, call_hooks-errors inner w.0.strategies j w steady),
  )
