-- ===== src/Execution/Text.antt =====
-- The text operations of Python that the broker target makes, for ASCII texts: `split("-")[-1]`
-- with `isdigit` and `int`, and `upper`.
use Prim.Native.String.{[], ◌∷◌}
use Prim.Native.Char.{code}
use n_trade.Prelude.{
  ℕ, ◌+◌, ◌-◌, ◌*◌, ◌≡◌, refl, Bool, true, false, ◌&&◌, String, Option, none, some, if◌then◌else◌,
  leb, ◌==◌,
}

-- The part of a text behind its last hyphen so far: nothing, digits, or something else.
pub data Token : Type 0 where
  blank : Token
  digits_read : ℕ → Token
  no_number : Token

abbrev pub is_digit : ℕ → Bool
is_digit c = leb 48 c && leb c 57

abbrev pub read_digit : Token → ℕ → Token
read_digit blank d = digits_read d
read_digit (digits_read n) d = digits_read (10 * n + d)
read_digit no_number d = no_number

abbrev pub read_code : Token → ℕ → Token
read_code token c =
    if c == 45 then blank else if is_digit c then read_digit token (c - 48) else no_number

read_text : Token → String → Token
read_text token [] = token
read_text token (c ∷ s) = read_text (read_code token (code c)) s

abbrev pub number_of : Token → Option ℕ
number_of blank = none
number_of (digits_read n) = some n
number_of no_number = none

-- The number behind the last hyphen, if digits alone stand there.
unfoldable pub trailing_number : String → Option ℕ
unfolding read_text
trailing_number s = number_of (read_text blank s)

abbrev pub upper_code : ℕ → ℕ
upper_code c = if leb 97 c && leb c 122 then c - 32 else c

-- `s.upper() == t`
unfoldable pub upper_is : String → String → Bool
upper_is [] [] = true
upper_is [] (d ∷ t) = false
upper_is (c ∷ s) [] = false
upper_is (c ∷ s) (d ∷ t) = (upper_code (code c) == code d) && upper_is s t

trailing_number_runs : trailing_number "BRK-000042" ≡ some 42
unfolding trailing_number
trailing_number_runs = refl

upper_is_runs : upper_is "Buy" "BUY" ≡ true
unfolding upper_is
upper_is_runs = refl
