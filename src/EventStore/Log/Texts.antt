-- ===== src/EventStore/Log/Texts.antt =====
-- The file of ntrade/storage/event_store.py as lines: how a text of whole lines is split.
use n_trade.Prelude.{
  ℕ, ◌≡◌, refl, sym, ap, ◌∙◌, false, List, [], ◌∷◌, ◌++◌, append-nil, append_assoc, ◌==◌, All,
  All-append,
}
use n_trade.EventStore.Log.{lines_from}

-- No newline stands in the text.
abbrev pub OneLine : List ℕ → Type 0
OneLine l = All (λ (c : ℕ). (c == 10) ≡ false) l

-- A text of whole lines.
unfoldable pub text_of : List (List ℕ) → List ℕ
text_of [] = []
text_of (l ∷ ls) = l ++ 10 ∷ text_of ls

pub lines_from-line :
    (begun l rest : List ℕ)
    → OneLine l
    → lines_from begun (l ++ 10 ∷ rest) ≡ (begun ++ l) ∷ lines_from [] rest
unfolding lines_from
lines_from-line begun [] rest one = rw (append-nil begun) refl
lines_from-line begun (c ∷ l) rest one = rw (one.0) (
    lines_from-line (begun ++ c ∷ []) l rest one.1
    ∙ ap (λ (x : List ℕ). x ∷ lines_from [] rest) (append_assoc begun (c ∷ []) l))

pub lines_from-text :
    (ls : List (List ℕ)) (rest : List ℕ)
    → All OneLine ls
    → lines_from [] (text_of ls ++ rest) ≡ ls ++ lines_from [] rest
unfolding text_of
lines_from-text [] rest one = refl
lines_from-text (l ∷ ls) rest one = rw (append_assoc l (10 ∷ text_of ls) rest) (
    lines_from-line [] l (text_of ls ++ rest) one.0
    ∙ ap (λ (x : List (List ℕ)). l ∷ x) (lines_from-text ls rest one.1))

pub lines_from-begun :
    (b : ℕ) (begun l : List ℕ) → OneLine l → lines_from (b ∷ begun) l ≡ (b ∷ begun ++ l) ∷ []
unfolding lines_from
lines_from-begun b begun [] one = rw (append-nil begun) refl
lines_from-begun b begun (c ∷ l) one =
    rw (one.0)
      (lines_from-begun b (begun ++ c ∷ []) l one.1 ∙ (rw (append_assoc begun (c ∷ []) l) refl))

pub OneLine-append : (l m : List ℕ) → OneLine l → OneLine m → OneLine (l ++ m)
OneLine-append l m a b = All-append (λ (c : ℕ). (c == 10) ≡ false) l m a b

pub text_of-append : (ls ms : List (List ℕ)) → text_of (ls ++ ms) ≡ text_of ls ++ text_of ms
unfolding text_of
text_of-append [] ms = refl
text_of-append (l ∷ ls) ms =
    rw (text_of-append ls ms) (sym (append_assoc l (10 ∷ text_of ls) (text_of ms)))
