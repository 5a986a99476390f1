-- ===== src/Gaps/Ranges.antt =====
-- The gaps of ntrade/data/gap_detector.py, told by the times that they span.
use native.Mathlib.Nat.{mul-div_cancel}
use n_trade.Prelude.{
  ℕ, zero, suc, ◌+◌, ◌-◌, ◌*◌, ◌/◌, ◌≡◌, ◌≢◌, ◌≤◌, ◌<◌, refl, sym, ap, ◌∙◌, Bool, true, not, ◌&&◌,
  List, [], ◌∷◌, ◌++◌, leb, ◌==◌, ==_iff, keep, Bool-cases, arith, inl, inr, append_assoc, nat_eq,
  =?_refl,
}
use n_trade.Prelude.Dict.{elem}
use n_trade.Gaps.{Gap, group, gaps_of, date_range, missing_times, missing_ranges}

-- The times from one at the cadence, as many as given after the first.
times_from : ℕ → ℕ → ℕ → List ℕ
times_from freq start zero = start ∷ []
times_from freq start (suc n) = start ∷ times_from freq (start + freq) n

-- The times that a gap spans, and those of all gaps.
pub times_of : ℕ → Gap → List ℕ
unfolding times_from
times_of freq (first, last) = times_from freq first ((last - first) / freq)

unfoldable pub expand : ℕ → List Gap → List ℕ
unfolding times_of
expand freq [] = []
expand freq (g ∷ gs) = times_of freq g ++ expand freq gs

-- No gap begins one bar after the one before it.
unfoldable pub Apart : ℕ → List Gap → Type 0
Apart freq [] = Unit
Apart freq (g ∷ []) = Unit
Apart freq (g ∷ h ∷ gs) = (h.0 ≢ g.1 + freq) × Apart freq (h ∷ gs)

times_from-snoc :
    (freq start n : ℕ)
    → times_from freq start (suc n) ≡ times_from freq start n ++ (start + suc n * freq) ∷ []
unfolding times_from
times_from-snoc freq start zero = ap (λ (t : ℕ). start ∷ t ∷ []) (grind arith)
times_from-snoc freq start (suc n) =
    ap (λ (l : List ℕ). start ∷ l)
      (times_from-snoc freq (start + freq) n
        ∙ ap (λ (t : ℕ). times_from freq (start + freq) n ++ t ∷ []) (grind arith))

times_of-bars :
    (freq start n : ℕ)
    → 0 < freq
    → times_of freq (start, start + n * freq) ≡ times_from freq start n
unfolding times_of
times_of-bars freq start n positive =
    let span : start + n * freq - start ≡ n * freq = omega arith in
    rw (span, mul-div_cancel n positive) refl

group-expand :
    (freq start prev n : ℕ) (ts : List ℕ)
    → 0 < freq
    → prev ≡ start + n * freq
    → expand freq (group freq start prev ts) ≡ times_from freq start n ++ ts
unfolding group expand
group-expand freq start prev n [] positive at = rw (at, times_of-bars freq start n positive) refl
group-expand freq start prev n (t ∷ ts) positive at = elim (Bool-cases (t == prev + freq)) [
  | inl next ↦
      let next_time : t ≡ start + suc n * freq = (==_iff t (prev + freq)).0 next ∙ (grind arith) in
      rw next (
        group-expand freq start t (suc n) ts positive next_time
        ∙ ap (λ (l : List ℕ). l ++ ts) (times_from-snoc freq start n)
        ∙ append_assoc (times_from freq start n) ((start + suc n * freq) ∷ []) ts
        ∙ ap (λ (u : ℕ). times_from freq start n ++ u ∷ ts) (sym next_time))
  | inr jump ↦
      rw (jump, at, times_of-bars freq start n positive)
        (ap (λ (l : List ℕ). times_from freq start n ++ l)
          (group-expand freq t t zero ts positive (grind arith)))
]

-- The first of the grouped gaps begins where the grouping began.
group-head :
    (freq start prev : ℕ) (ts : List ℕ)
    → (last : ℕ) × (gs : List Gap) × (group freq start prev ts ≡ (start, last) ∷ gs)
unfolding group
group-head freq start prev [] = (prev, [], refl)
group-head freq start prev (t ∷ ts) = elim (Bool-cases (t == prev + freq)) [
  | inl next ↦ rw next (group-head freq start t ts)
  | inr jump ↦ rw jump (prev, group freq t t ts, refl)
]

Apart-cons :
    (freq : ℕ) (g h : Gap) (l gs : List Gap)
    → l ≡ h ∷ gs
    → h.0 ≢ g.1 + freq
    → Apart freq l
    → Apart freq (g ∷ l)
unfolding Apart
Apart-cons freq g h l gs e ne a = let b : Apart freq (h ∷ gs) = rw e at a in rw e (ne, b)

group-Apart : (freq start prev : ℕ) (ts : List ℕ) → Apart freq (group freq start prev ts)
unfolding group Apart
group-Apart freq start prev [] = tt
group-Apart freq start prev (t ∷ ts) = elim (Bool-cases (t == prev + freq)) [
  | inl next ↦ rw next (group-Apart freq start t ts)
  | inr jump ↦
      let (last, gs, e) = group-head freq t t ts in
      rw jump (
        Apart-cons freq (start, prev) (t, last) (group freq t t ts) gs e (ground arith)
          (group-Apart freq t t ts))
]

gaps_of-expand : (freq : ℕ) (ts : List ℕ) → 0 < freq → expand freq (gaps_of freq ts) ≡ ts
unfolding gaps_of expand times_from
gaps_of-expand freq [] positive = refl
gaps_of-expand freq (t ∷ ts) positive = group-expand freq t t zero ts positive (grind arith)

gaps_of-Apart : (freq : ℕ) (ts : List ℕ) → Apart freq (gaps_of freq ts)
unfolding gaps_of Apart
gaps_of-Apart freq [] = tt
gaps_of-Apart freq (t ∷ ts) = group-Apart freq t t ts

elem-keep : (p : ℕ → Bool) (t : ℕ) (ts : List ℕ) → elem t (keep p ts) ≡ (p t && elem t ts)
unfolding elem
elem-keep p t [] = ground arith
elem-keep p t (u ∷ ts) = ground (arith, elem-keep p t ts, ap p)

elem-date_range :
    (n start end freq i : ℕ)
    → i < n
    → start + i * freq ≤ end
    → elem (start + i * freq) (date_range n start end freq) ≡ true
unfolding elem date_range
elem-date_range zero start end freq i few low = elim few [ ]
elem-date_range (suc n) start end freq zero few low =
    let at : start + 0 * freq ≡ start = grind arith in
    let within : leb start end ≡ true = ground (arith, at) in rw (at, within, =?_refl start) refl
elem-date_range (suc n) start end freq (suc i) few low =
    let at : start + suc i * freq ≡ start + freq + i * freq = grind arith in
    let within : leb start end ≡ true = ground (arith, at) in
    let later = elem-date_range n (start + freq) end freq i (omega arith) (omega (arith, at)) in
    rw (at, within, later) (ground arith)

-- For an instrument with stored bars and a positive cadence: the gaps span exactly the expected
-- times that are not stored, in their order; no gap begins one bar after the one before it; and a
-- time of the cadence in the range is in a gap exactly when it is not stored.
pub missing_ranges-cover :
    (start end freq e : ℕ) (es : List ℕ) (i : ℕ)
    → 0 < freq
    → start + i * freq ≤ end
    → let gaps = missing_ranges start end freq (e ∷ es) in
      (expand freq gaps ≡ missing_times (e ∷ es) (date_range (suc end) start end freq))
      × Apart freq gaps
      × (elem (start + i * freq) (expand freq gaps) ≡ not (elem (start + i * freq) (e ∷ es)))
unfolding missing_ranges
missing_ranges-cover start end freq e es i positive within =
    let expected = date_range (suc end) start end freq in
    let covered : expand freq (gaps_of freq (missing_times (e ∷ es) expected))
        ≡ missing_times (e ∷ es) expected =
      gaps_of-expand freq (missing_times (e ∷ es) expected) positive in
    let t = start + i * freq in
    (
      covered,
      gaps_of-Apart freq (missing_times (e ∷ es) expected),
      ap (elem t) covered
          ∙ elem-keep (λ (u : ℕ). not (elem u (e ∷ es))) t expected
          ∙ (rw (elem-date_range (suc end) start end freq i (grind arith) within) (ground arith)),
    )
