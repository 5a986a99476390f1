-- ===== src/Gaps.antt =====
-- ntrade/data/gap_detector.py: `GapDetector`. The store is a parameter: what it has of a symbol in a
-- range, as times. A time is a whole number of the smallest unit; `bar_freq` is a span of it.
pub mod Ranges
use n_trade.Prelude.{
  ℕ, zero, suc, ◌+◌, Bool, true, false, not, String, Option, none, some, List, [], ◌∷◌, ◌++◌, keep,
  leb, ltb, ◌==◌, if◌then◌else◌, nat_eq,
}
use n_trade.Prelude.Dict.{elem}

-- A range of missing times, from its first to its last.
abbrev pub Gap : Type 0
Gap = ℕ × ℕ

-- The loop that groups the missing times, from the start of the gap and the time before.
unfoldable pub group : ℕ → ℕ → ℕ → List ℕ → List Gap
group freq gap_start prev [] = (gap_start, prev) ∷ []
group freq gap_start prev (t ∷ ts) =
    let rest = group freq (if t == prev + freq then gap_start else t) t ts in
    if t == prev + freq then rest else (gap_start, prev) ∷ rest

unfoldable pub gaps_of : ℕ → List ℕ → List Gap
unfolding group
gaps_of freq [] = []
gaps_of freq (t ∷ ts) = group freq t t ts

-- `pd.date_range(start, end, freq)`, with as many rounds as there are bars at most.
unfoldable pub date_range : ℕ → ℕ → ℕ → ℕ → List ℕ
date_range zero start end freq = []
date_range (suc n) start end freq =
    if leb start end then start ∷ date_range n (start + freq) end freq else []

abbrev pub missing_times : List ℕ → List ℕ → List ℕ
missing_times existing expected = keep (λ (t : ℕ). not (elem t existing)) expected

-- The ranges of one instrument; the expected times are as many as the span has units at most.
unfoldable pub missing_ranges : ℕ → ℕ → ℕ → List ℕ → List Gap
unfolding gaps_of date_range
missing_ranges start end freq [] = (start, end) ∷ []
missing_ranges start end freq (e ∷ es) =
    gaps_of freq (missing_times (e ∷ es) (date_range (suc end) start end freq))

abbrev pub report : {I : Type 0} → I → List Gap → List (I × List Gap) → List (I × List Gap)
report inst [] rest = rest
report inst (g ∷ gs) rest = (inst, g ∷ gs) ∷ rest

abbrev pub is_empty : List ℕ → Bool
is_empty [] = true
is_empty (_ ∷ _) = false

module _ {I : Type 0} (read : String → ℕ → ℕ → List ℕ) (symbol_of : I → String) where
  unfoldable pub detect : List I → ℕ → ℕ → ℕ → List (I × List Gap)
  unfolding missing_ranges
  detect [] start end freq = []
  detect (inst ∷ rest) start end freq =
      report inst (missing_ranges start end freq (read (symbol_of inst) start end))
        (detect rest start end freq)

  unfoldable pub missing_symbols : List I → ℕ → ℕ → List I
  missing_symbols insts start end =
      keep (λ (inst : I). is_empty (read (symbol_of inst) start end)) insts

unfoldable pub first_stored : (String → Option (ℕ × ℕ)) → String → Option ℕ
first_stored date_range_of s = elim (date_range_of s) [ none ↦ none | some r ↦ some r.0 ]

unfoldable pub last_stored : (String → Option (ℕ × ℕ)) → String → Option ℕ
last_stored date_range_of s = elim (date_range_of s) [ none ↦ none | some r ↦ some r.1 ]
