-- ===== src/Execution/Ids.antt =====
-- The order ids that the targets make: a prefix and `:06d`.
use Prim.Native.String.{String, ◌++◌, count}
use n_trade.Prelude.{ℕ, zero, suc, ◌-◌, ◌/◌, ◌%◌, ◌≡◌, refl, if◌then◌else◌, ltb, ◌==◌}

abbrev digit : ℕ → String
digit n =
    if n == 0
    then "0"
    else if n == 1
    then "1"
    else if n == 2
    then "2"
    else if n == 3
    then "3"
    else if n == 4
    then "4"
    else if n == 5
    then "5"
    else if n == 6
    then "6"
    else if n == 7
    then "7"
    else if n == 8
    then "8"
    else "9"

-- The decimal digits; the fuel `n` is enough, since each round divides by 10.
unfoldable pub digits : ℕ → ℕ → String
digits zero n = digit n
digits (suc fuel) n =
    let front = digits fuel (n / 10) in if ltb n 10 then digit n else front ++ digit (n % 10)

zeros : ℕ → String
zeros zero = ""
zeros (suc n) = "0" ++ zeros n

unfoldable pub pad_six : ℕ → String
unfolding digits zeros
pad_six n = let s = digits n n in zeros (6 - count s) ++ s

-- `f"SIM-{seq:06d}"` and `f"BRK-{seq:06d}"`
unfoldable pub sim_id : ℕ → String
unfolding pad_six
sim_id n = "SIM-" ++ pad_six n

unfoldable pub brk_id : ℕ → String
unfolding pad_six
brk_id n = "BRK-" ++ pad_six n

sim_id_runs : sim_id 1042 ≡ "SIM-001042"
unfolding sim_id
sim_id_runs = refl

brk_id_runs : brk_id 1234567 ≡ "BRK-1234567"
unfolding brk_id
brk_id_runs = refl
