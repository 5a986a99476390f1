-- ===== src/Candles/Runs.antt =====
-- An account of the candles of one symbol that does not go by the engine of
-- ntrade/engines/candle_engine.py: the ticks in runs, each the ticks of one bucket, and the candle
-- of a run.
use n_trade.Prelude.{
  ℕ, ◌+◌, ◌≤◌, ◌≡◌, refl, sym, ap, ◌∙◌, true, false, List, [], ◌∷◌, ◌++◌, inl, inr, ltb, ◌==◌,
  string_eq, Bool-cases, arith, All, All-append, append_assoc, ==_iff,
}
use n_trade.Prelude.Int.{ℤ, pos, ◌+ℤ◌, +ℤ_zero, +ℤ_comm}
use n_trade.Prelude.Float.{Float}
use n_trade.Market.{TickEvent, epoch}
use n_trade.Candles.{Candle, bucket_of, fmax, fmin, fresh_candle, take_tick}

-- The ticks of one candle: the first, and those after it.
abbrev pub Run : Type 0 → Type 0
Run W = TickEvent W × List (TickEvent W)

unfoldable pub ticks_of : {W : Type 0} → List (Run W) → List (TickEvent W)
ticks_of [] = []
ticks_of (r ∷ rs) = r.0 ∷ r.1 ++ ticks_of rs

module _ {W : Type 0} (ist : ℕ → ℕ) (seconds : ℕ) where
  unfoldable pub bucket : TickEvent W → ℕ
  bucket t = bucket_of seconds (epoch ist t.ts)

  -- The ticks that come in no earlier bucket than one before them.
  unfoldable pub on_time : ℕ → List (TickEvent W) → List (TickEvent W)
  on_time latest [] = []
  on_time latest (t ∷ ts) = elim (ltb (bucket t) latest) [
    | true ↦ on_time latest ts
    | false ↦ t ∷ on_time (bucket t) ts
  ]

  -- A list of ticks cut where the bucket changes, behind a run that has begun.
  unfoldable pub runs_from : Run W → List (TickEvent W) → List (Run W)
  runs_from r [] = r ∷ []
  runs_from r (t ∷ ts) = elim (bucket r.0 == bucket t) [
    | true ↦ runs_from (r.0, r.1 ++ t ∷ []) ts
    | false ↦ r ∷ runs_from (t, []) ts
  ]

  unfoldable pub runs : List (TickEvent W) → List (Run W)
  unfolding runs_from
  runs [] = []
  runs (t ∷ ts) = runs_from (t, []) ts

  -- Every run lies in one bucket, and the buckets grow from run to run.
  unfoldable pub Ascend : ℕ → List (Run W) → Type 0
  Ascend least [] = Unit
  Ascend least (r ∷ rs) =
      (least ≤ bucket r.0)
      × All (λ (t : TickEvent W). bucket t ≡ bucket r.0) r.1
      × Ascend (bucket r.0 + 1) rs

  runs_from-ticks :
      (r : Run W) (ts : List (TickEvent W)) → ticks_of (runs_from r ts) ≡ r.0 ∷ r.1 ++ ts
  unfolding runs_from ticks_of
  runs_from-ticks r [] = refl
  runs_from-ticks r (t ∷ ts) = elim (Bool-cases (bucket r.0 == bucket t)) [
    | inl same ↦
        rw (runs_from, same)
          (runs_from-ticks (r.0, r.1 ++ t ∷ []) ts
            ∙ ap (λ (l : List (TickEvent W)). r.0 ∷ l) (append_assoc r.1 (t ∷ []) ts))
    | inr new ↦
        rw (runs_from, new)
          (ap (λ (l : List (TickEvent W)). r.0 ∷ r.1 ++ l) (runs_from-ticks (t, []) ts))
  ]

  runs_from-Ascend :
      (least : ℕ) (r : Run W) (ts : List (TickEvent W))
      → least ≤ bucket r.0
      → All (λ (t : TickEvent W). bucket t ≡ bucket r.0) r.1
      → Ascend least (runs_from r (on_time (bucket r.0) ts))
  unfolding runs_from Ascend on_time
  runs_from-Ascend least r [] low one = (low, one, tt)
  runs_from-Ascend least r (t ∷ ts) low one = elim (Bool-cases (ltb (bucket t) (bucket r.0))) [
    | inl late ↦ rw (on_time, late) (runs_from-Ascend least r ts low one)
    | inr kept ↦ elim (Bool-cases (bucket r.0 == bucket t)) [
      | inl same ↦
          rw (on_time, kept, runs_from, same)
            (rw (← (==_iff _ _).0 same) (
              runs_from-Ascend least (r.0, r.1 ++ t ∷ []) ts low
                (All-append _ r.1 (t ∷ []) one (sym ((==_iff _ _).0 same), tt))))
      | inr new ↦
          rw (on_time, kept, runs_from, new)
            (low, one, runs_from-Ascend (bucket r.0 + 1) (t, []) ts (ground arith) tt)
    ]
  ]

  pub runs-ticks : (ts : List (TickEvent W)) → ticks_of (runs ts) ≡ ts
  unfolding runs ticks_of
  runs-ticks [] = refl
  runs-ticks (t ∷ ts) = runs_from-ticks (t, []) ts

  pub runs-Ascend :
      (latest : ℕ) (ts : List (TickEvent W)) → Ascend latest (runs (on_time latest ts))
  unfolding runs Ascend on_time
  runs-Ascend latest [] = tt
  runs-Ascend latest (t ∷ ts) = elim (Bool-cases (ltb (bucket t) latest)) [
    | inl late ↦ rw (on_time, late) (runs-Ascend latest ts)
    | inr kept ↦ rw (on_time, kept) (runs_from-Ascend latest (t, []) ts (ground arith) tt)
  ]

module _ {W : Type 0} ⦃fl : Float W⦄ where
  pub highest : W → List (TickEvent W) → W
  highest a [] = a
  highest a (t ∷ ts) = highest (fmax a t.price) ts

  pub lowest : W → List (TickEvent W) → W
  lowest a [] = a
  lowest a (t ∷ ts) = lowest (fmin a t.price) ts

  pub last_price : W → List (TickEvent W) → W
  last_price a [] = a
  last_price a (t ∷ ts) = last_price t.price ts

  pub traded : ℤ → List (TickEvent W) → ℤ
  traded v [] = v
  traded v (t ∷ ts) = traded (v +ℤ t.quantity) ts

  -- The candle of a run.
  unfoldable pub candle_of : ℕ → Run W → Candle W
  unfolding highest lowest last_price traded
  candle_of b r = record {
    bucket = b;
    exchange = r.0.exchange;
    open_price = r.0.price;
    high = highest r.0.price r.1;
    low = lowest r.0.price r.1;
    close_price = last_price r.0.price r.1;
    volume = traded r.0.quantity r.1;
  }

  highest-snoc :
      (a : W) (ts : List (TickEvent W)) (t : TickEvent W)
      → highest a (ts ++ t ∷ []) ≡ fmax (highest a ts) t.price
  unfolding highest
  highest-snoc a [] t = refl
  highest-snoc a (u ∷ ts) t = highest-snoc (fmax a u.price) ts t

  lowest-snoc :
      (a : W) (ts : List (TickEvent W)) (t : TickEvent W)
      → lowest a (ts ++ t ∷ []) ≡ fmin (lowest a ts) t.price
  unfolding lowest
  lowest-snoc a [] t = refl
  lowest-snoc a (u ∷ ts) t = lowest-snoc (fmin a u.price) ts t

  last_price-snoc :
      (a : W) (ts : List (TickEvent W)) (t : TickEvent W) → last_price a (ts ++ t ∷ []) ≡ t.price
  unfolding last_price
  last_price-snoc a [] t = refl
  last_price-snoc a (u ∷ ts) t = last_price-snoc u.price ts t

  traded-snoc :
      (v : ℤ) (ts : List (TickEvent W)) (t : TickEvent W)
      → traded v (ts ++ t ∷ []) ≡ traded v ts +ℤ t.quantity
  unfolding traded
  traded-snoc v [] t = refl
  traded-snoc v (u ∷ ts) t = traded-snoc (v +ℤ u.quantity) ts t

  pub take_tick-more :
      (b : ℕ) (r : Run W) (t : TickEvent W)
      → take_tick t (candle_of b r) ≡ candle_of b (r.0, r.1 ++ t ∷ [])
  unfolding take_tick candle_of
  take_tick-more b r t = simp (highest-snoc, lowest-snoc, last_price-snoc, traded-snoc)

  pub take_tick-first :
      (b : ℕ) (t : TickEvent W) → take_tick t (fresh_candle b t) ≡ candle_of b (t, [])
  unfolding take_tick candle_of
  take_tick-first b t = ground (arith, +ℤ_comm (pos 0) t.quantity, +ℤ_zero t.quantity)
