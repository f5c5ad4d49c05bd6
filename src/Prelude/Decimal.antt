-- ===== src/Prelude/Decimal.antt =====
-- The text of a number, as in an f-string.
use Prim.Native.Nat.{◌≤◌, ℕ, zero, suc, ◌/◌, ◌%◌}
use Prim.Native.String.{String, ◌++◌}
use mathlib.Core.Path.{◌≡◌, refl, ap}
use mathlib.Core.Logic.{inl, inr}
use native.Mathlib.Omega.{arith}
use lite_checker.Prelude.Tests.{Bool-cases, ltb, nat_beq, if◌then◌else◌}

abbrev digit : ℕ → String
digit n =
    if nat_beq n 0
    then "0"
    else if nat_beq n 1
    then "1"
    else if nat_beq n 2
    then "2"
    else if nat_beq n 3
    then "3"
    else if nat_beq n 4
    then "4"
    else if nat_beq n 5
    then "5"
    else if nat_beq n 6
    then "6"
    else if nat_beq n 7
    then "7"
    else if nat_beq n 8
    then "8"
    else "9"

-- Each step takes the last digit off, so that there are no more steps than the number says.
unfoldable decimal_within : ℕ → ℕ → String
decimal_within zero n = digit (n % 10)
decimal_within (suc fuel) n =
    let rest = decimal_within fuel (n / 10) in if ltb n 10 then digit n else rest ++ digit (n % 10)

unfoldable pub decimal : ℕ → String
unfolding decimal_within
decimal n = decimal_within n n

-- steps beyond the number change nothing
decimal_within-enough : (k j n : ℕ) → n ≤ k → n ≤ j → decimal_within k n ≡ decimal_within j n
unfolding decimal_within
decimal_within-enough zero zero n h g = refl
decimal_within-enough zero (suc j) n h g = let small : n ≡ 0 = omega arith in rw small refl
decimal_within-enough (suc k) zero n h g = let small : n ≡ 0 = omega arith in rw small refl
decimal_within-enough (suc k) (suc j) n h g = elim (Bool-cases (ltb n 10)) [
  | inl e ↦ rw e refl
  | inr e ↦ rw e (
      ap (λ s. s ++ digit (n % 10))
        (decimal_within-enough k j (n / 10) (ground arith) (ground arith)))
]
