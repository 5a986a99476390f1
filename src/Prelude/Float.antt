-- ===== src/Prelude/Float.antt =====
-- Python's `float`: the operations that the code makes, with no law assumed.
use Prim.Native.Nat.{ℕ, ◌/◌, ◌^◌}
use mathlib.Core.Bool.{Bool}
use n_trade.Prelude.Int.{ℤ, pos, ◌+ℤ◌, ◌-ℤ◌, ◌*ℤ◌, ltb_ℤ, leb_ℤ, eqb_ℤ}
use n_trade.Prelude.Tests.{if◌then◌else◌}

-- `of_int` is the conversion of an `int`, `decimal m k` the literal m / 10 ^ k, and `round4` and
-- `round2` are `round(x, 4)` and `round(x, 2)`.
pub record Float (W : Type 0) : Type 0 where
  pub of_int : ℤ → W
  pub decimal : ℕ → ℕ → W
  pub fadd : W → W → W
  pub fsub : W → W → W
  pub fmul : W → W → W
  pub fdiv : W → W → W
  pub fabs : W → W
  pub round4 : W → W
  pub round2 : W → W
  pub flt : W → W → Bool
  pub fle : W → W → Bool
  pub feq : W → W → Bool

-- The operations at exact integers, where rounding does nothing. The tests use it.
abbrev pub int_float : Float ℤ
int_float = record {
  of_int = λ a. a;
  decimal = λ m k. pos (m / 10 ^ k);
  fadd = ◌+ℤ◌;
  fsub = ◌-ℤ◌;
  fmul = ◌*ℤ◌;
  fdiv = λ a b. a;
  fabs = λ a. if ltb_ℤ a (pos 0) then pos 0 -ℤ a else a;
  round4 = λ a. a;
  round2 = λ a. a;
  flt = ltb_ℤ;
  fle = leb_ℤ;
  feq = eqb_ℤ;
}
