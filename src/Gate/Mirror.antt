-- ===== src/Gate/Mirror.antt =====
-- That the trace of ntrade/runner/gate.py follows the portfolio engine.
use n_trade.Prelude.{
  ◌≡◌, ◌≢◌, refl, sym, ap, ◌∙◌, Bool, true, false, String, none, some, List, [], ◌∷◌, ◌++◌, ◌=?◌,
  string_eq, =?_refl, if◌then◌else◌, map, arith, Bool-cases, Option-cases, inl, inr, eq_iff, All,
}
use n_trade.Prelude.Dict.{Dict, insert, erase}
use n_trade.Prelude.Int.{ℤ, pos, ◌+ℤ◌, eqb_ℤ, eqb_ℤ_iff}
use n_trade.Prelude.Float.{Float}
use n_trade.Domain.{Position, OrderFilledEvent, Event, nought}
use n_trade.Portfolio.{
  position, assign, remove, signed, new_position, net, apply_fill, closes, quantity_or_zero, Book,
  on_filled, on_fills,
}
use n_trade.Portfolio.Lookup.{Lacks, Distinct, position-snoc, position-assign_self}
use n_trade.Portfolio.Netting.{on_filled-nets}
use n_trade.Gate.{
  Trace, new_trace, add_spots, trace_position, trace_balance, trace_events, equity_trace,
}

module _ {W : Type 0} where
  -- What the trace keeps of a position.
  abbrev pub spot : Position W → String × (ℤ × W)
  spot p = (p.symbol, (p.quantity, p.ltp))

  abbrev pub spots : List (Position W) → Dict String (ℤ × W)
  spots ps = map spot ps

  abbrev pub equities : List (W × W) → List W
  equities ys = map (λ (y : W × W). y.1) ys

  insert-snoc :
      (q : Position W) (ps : List (Position W))
      → position q.symbol ps ≡ none
      → insert q.symbol (q.quantity, q.ltp) (spots ps) ≡ spots (ps ++ q ∷ [])
  unfolding position insert
  insert-snoc q [] h = refl
  insert-snoc q (p ∷ ps) h = ground (arith, insert-snoc q ps)

  insert-assign :
      (s : String) (f : Position W → Position W) (p : Position W) (ps : List (Position W))
      → ((q : Position W) → (f q).symbol ≡ q.symbol)
      → position s ps ≡ some p
      → insert s ((f p).quantity, (f p).ltp) (spots ps) ≡ spots (assign s f ps)
  unfolding position insert assign
  insert-assign s f p [] k h = absurd (cc)
  insert-assign s f p (q ∷ ps) k h = elim (Bool-cases (q.symbol =? s)) [
    | inl same ↦
        let at : q ≡ p = ground (arith, same, h) in
        let entry : W → ℤ → String → Dict String (ℤ × W) = λ l n x. (x, (n, l)) ∷ spots ps in
        rw same (
          ap (λ x. entry (f x).ltp (f x).quantity q.symbol) (sym at)
          ∙ ap (entry (f q).ltp (f q).quantity) (sym (k q)))
    | inr differ ↦
        let later : position s ps ≡ some p = ground (arith, differ, h) in
        rw differ (ap (λ r. spot q ∷ r) (insert-assign s f p ps k later))
  ]

  erase-Lacks : (s : String) (ps : List (Position W)) → Lacks s ps → erase s (spots ps) ≡ spots ps
  unfolding erase
  erase-Lacks s [] h = refl
  erase-Lacks s (p ∷ ps) h = ground (arith, eq_iff p.symbol s, erase-Lacks s ps h.1)

  erase-remove :
      (s : String) (ps : List (Position W)) → Distinct ps → erase s (spots ps) ≡ spots (remove s ps)
  unfolding erase remove
  erase-remove s [] d = refl
  erase-remove s (p ∷ ps) d = elim (Bool-cases (p.symbol =? s)) [
    | inl same ↦
        let at : p.symbol ≡ s = (eq_iff p.symbol s).0 same in
        rw same (ap (λ x. erase x (spots ps)) (sym at) ∙ erase-Lacks p.symbol ps d.0)
    | inr differ ↦ rw differ (ap (λ r. spot p ∷ r) (erase-remove s ps d.1))
  ]

module _ {W : Type 0} ⦃fl : Float W⦄ where
  -- What the trace makes of the symbol of a fill, from what the portfolio engine says remains.
  after_fill : OrderFilledEvent W → ℤ → List (Position W) → Dict String (ℤ × W)
  after_fill e n ps =
      if eqb_ℤ n (pos 0)
      then erase e.symbol (spots ps)
      else insert e.symbol (n, e.fill_price) (spots ps)

  -- The quantity that the engine publishes.
  published_quantity : OrderFilledEvent W → List (Position W) → ℤ
  published_quantity e ps =
      quantity_or_zero (if closes e ps then none else position e.symbol (apply_fill e ps))

  after_fill-kept :
      (e : OrderFilledEvent W) (n : ℤ) (ps : List (Position W)) (b : Bool)
      → eqb_ℤ n (pos 0) ≡ b
      → after_fill e n ps
        ≡ (if b then erase e.symbol (spots ps) else insert e.symbol (n, e.fill_price) (spots ps))
  unfolding after_fill
  after_fill-kept e n ps b h =
      ap
        (λ b. if b then erase e.symbol (spots ps) else insert e.symbol (n, e.fill_price) (spots ps))
        h

  -- The end of each way in which a fill changes the positions.
  mirrored_by :
      (e : OrderFilledEvent W) (ps qs : List (Position W)) (c : Bool) (n : ℤ)
      → closes e ps ≡ c
      → apply_fill e ps ≡ qs
      → quantity_or_zero (if c then none else position e.symbol qs) ≡ n
      → after_fill e n ps ≡ spots qs
      → after_fill e (published_quantity e ps) ps ≡ spots (apply_fill e ps)
  unfolding published_quantity
  mirrored_by e ps qs c n closed filled left same =
      let first =
        ap (λ x. quantity_or_zero (if x then none else position e.symbol (apply_fill e ps)))
          closed in
      let second = ap (λ x. quantity_or_zero (if c then none else position e.symbol x)) filled in
      ap (λ m. after_fill e m ps) (first ∙ second ∙ left) ∙ same ∙ ap spots (sym filled)

  fill-mirrored :
      (e : OrderFilledEvent W) (ps : List (Position W))
      → Distinct ps
      → signed e.side e.quantity ≢ pos 0
      → after_fill e (published_quantity e ps) ps ≡ spots (apply_fill e ps)
  unfolding closes apply_fill new_position net
  fill-mirrored e ps d moved = elim (Option-cases (position e.symbol ps)) [
    | inl new ↦
        let q = new_position e in
        let some_left : eqb_ℤ (signed e.side e.quantity) (pos 0) ≡ false =
          ground (arith, eqb_ℤ_iff (signed e.side e.quantity) (pos 0), moved) in
        mirrored_by e ps (ps ++ q ∷ []) false (signed e.side e.quantity) (rw (closes, new) refl)
          (rw (apply_fill, new) refl) (rw (position-snoc e.symbol ps q new, =?_refl e.symbol) refl)
          (after_fill-kept e (signed e.side e.quantity) ps false some_left ∙ insert-snoc q ps new)
    | inr (p, found) ↦
        let total = p.quantity +ℤ signed e.side e.quantity in
        elim (Bool-cases (eqb_ℤ total (pos 0))) [
          | inl flat ↦
              mirrored_by e ps (remove e.symbol ps) true (pos 0) (rw (closes, found, flat) refl)
                (rw (apply_fill, found, flat) refl) refl
                (after_fill-kept e (pos 0) ps true refl ∙ erase-remove e.symbol ps d)
          | inr left ↦
              mirrored_by e ps (assign e.symbol (net e) ps) false total
                (rw (closes, found, left) refl) (rw (apply_fill, found, left) refl)
                (rw (position-assign_self e.symbol (net e) ps p (λ q. refl) found) refl)
                (after_fill-kept e total ps false left
                  ∙ insert-assign e.symbol (net e) p ps (λ q. refl) found)
        ]
  ]

  -- What the portfolio engine publishes of fills.
  unfoldable pub published : List (OrderFilledEvent W) → Book W → List (Event W)
  unfolding on_filled
  published [] b = []
  published (e ∷ es) b = (on_filled e b).1 ++ published es (on_filled e b).0

  abbrev pub add_marks : W → List (Position W) → W
  add_marks acc [] = acc
  add_marks acc (p ∷ ps) = add_marks (fl.fadd acc (fl.fmul (fl.of_int p.quantity) p.ltp)) ps

  -- The cash and the positions at their last prices, after each of the fills.
  unfoldable pub marks : List (OrderFilledEvent W) → Book W → List W
  unfolding on_filled
  marks [] b = []
  marks (e ∷ es) b =
      let after = (on_filled e b).0 in
      fl.fadd after.balance (add_marks nought after.positions) ∷ marks es after

  -- The fill is of some shares.
  abbrev pub IsMoving : OrderFilledEvent W → Type 0
  IsMoving e = signed e.side e.quantity ≢ pos 0

  add_spots-marks : (acc : W) (ps : List (Position W)) → add_spots acc (spots ps) ≡ add_marks acc ps
  add_spots-marks acc [] = refl
  add_spots-marks acc (p ∷ ps) =
      add_spots-marks (fl.fadd acc (fl.fmul (fl.of_int p.quantity) p.ltp)) ps

  trace_events-follows :
      (es : List (OrderFilledEvent W)) (b : Book W) (t : Trace W)
      → Distinct b.positions
      → All IsMoving es
      → t.positions ≡ spots b.positions
      → let traced = trace_events (published es b) t in
        (traced.0.positions ≡ spots (on_fills es b).positions) × (equities traced.1 ≡ marks es b)
  unfolding published marks on_fills on_filled trace_events trace_position trace_balance after_fill
      published_quantity
  trace_events-follows [] b t d moving same = (same, refl)
  trace_events-follows (e ∷ es) b t d moving same =
      let b1 = (on_filled e b).0 in
      let n = published_quantity e b.positions in
      let now =
        ap
          (λ ps.
            if eqb_ℤ n (pos 0) then erase e.symbol ps else insert e.symbol (n, e.fill_price) ps)
          same
        ∙ fill-mirrored e b.positions d moving.0 in
      let t1 = (trace_events (on_filled e b).1 t).0 in
      let rest = trace_events-follows es b1 t1 (on_filled-nets e.symbol e b d).0 moving.1 now in
      let later = equities (trace_events (published es b1) t1).1 in
      let marked : Dict String (ℤ × W) → List W =
        λ ps. fl.fadd b1.balance (add_spots nought ps) ∷ later in
      (
        rest.0,
        ap marked now
            ∙ ap (λ m. fl.fadd b1.balance m ∷ later) (add_spots-marks nought b1.positions)
            ∙ ap (λ l. fl.fadd b1.balance (add_marks nought b1.positions) ∷ l) rest.1,
      )

  -- For fills of some shares each, from an empty portfolio and the same cash: the trace that is built
  -- from what the portfolio engine publishes keeps its positions, in its order, and yields the initial
  -- cash and then, after each fill, the engine's cash and positions at their last prices, not rounded.
  pub equity_trace-follows :
      (es : List (OrderFilledEvent W)) (cash : W)
      → All IsMoving es
      → let b : Book W = record { positions = []; balance = cash } in
        ((trace_events (published es b) (new_trace cash)).0.positions
          ≡ spots (on_fills es b).positions)
        × (equities (equity_trace (published es b) cash) ≡ cash ∷ marks es b)
  unfolding equity_trace new_trace
  equity_trace-follows es cash moving =
      let b : Book W = record { positions = []; balance = cash } in
      let followed = trace_events-follows es b (new_trace cash) tt moving refl in
      (followed.0, ap (λ l. cash ∷ l) followed.1)
