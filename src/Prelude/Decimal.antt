-- ===== src/Prelude/Decimal.antt =====
-- `str(n)` of Python for a natural number.
use Prim.Native.String.{String, ◌++◌ as ◌<>◌}
use Prim.Native.Nat.{ℕ, zero, suc, ◌+◌, ◌/◌, ◌%◌}
use community_edition_setup.Prelude.Tests.{ltb, ◌=ℕ◌, if◌then◌else◌}

unfoldable pub digit : ℕ → String
digit d =
    if d =ℕ 0
    then "0"
    else if d =ℕ 1
    then "1"
    else if d =ℕ 2
    then "2"
    else if d =ℕ 3
    then "3"
    else if d =ℕ 4
    then "4"
    else if d =ℕ 5
    then "5"
    else if d =ℕ 6
    then "6"
    else if d =ℕ 7
    then "7"
    else if d =ℕ 8
    then "8"
    else "9"

-- A number has at most as many digits as its size and one.
unfoldable pub decimal_digits : ℕ → ℕ → String
unfolding digit
decimal_digits zero n = ""
decimal_digits (suc f) n =
    let rest = decimal_digits f (n / 10) <> digit (n % 10) in if ltb n 10 then digit n else rest

unfoldable pub decimal : ℕ → String
unfolding decimal_digits
decimal n = decimal_digits (n + 1) n
