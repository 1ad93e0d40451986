-- ===== src/Prelude/Int.antt =====
-- Signed integers, and Python's `int` of a text.
use Prim.Native.Nat.{ℕ, zero, suc, ◌+◌, ◌-◌, ◌*◌, ◌/◌, ◌%◌}
use Prim.Native.Char.{code}
use Prim.Native.String.{String, [], ◌∷◌}
use mathlib.Core.Bool.{Bool, true, false, ◌&&◌}
use mathlib.Core.Option.{Option, none, some}
use mathlib.Core.Option
use community_edition_setup.Prelude.Tests.{leb, ltb, ◌=ℕ◌, if◌then◌else◌}
use community_edition_setup.Prelude.Text.{strip, is_space}

-- `negsuc n` is -(n + 1).
pub data ℤ : Type 0 where
  pos : ℕ → ℤ
  negsuc : ℕ → ℤ

abbrev pub negate : ℕ → ℤ
negate zero = pos 0
negate (suc n) = negsuc n

abbrev pub is_digit : ℕ → Bool
is_digit c = leb b'0' c && leb c b'9'

-- Digits, with single `_` between two of them; the flag says that a digit stands before.
digits : Bool → ℕ → String → Option ℕ
digits true acc [] = some acc
digits false acc [] = none
digits before acc (c ∷ s) =
    let more = digits true (acc * 10 + (code c - b'0')) s in
    let joint = digits false acc s in
    if is_digit (code c) then more else if before && code c =ℕ b'_' then joint else none

signed : String → Option ℤ
signed [] = none
signed (c ∷ s) =
    if code c =ℕ b'-'
    then Option.map negate (digits false 0 s)
    else if code c =ℕ b'+'
    then Option.map pos (digits false 0 s)
    else Option.map pos (digits false 0 (c ∷ s))

-- `int(s)`; `none` stands for its `ValueError`.
unfoldable pub parse_int : String → Option ℤ
unfolding signed digits strip
parse_int s = signed (strip is_space s)

-- The parts of an integer, and the difference of two numbers.
abbrev pub pos_part : ℤ → ℕ
pos_part (pos n) = n
pos_part (negsuc n) = 0

abbrev pub neg_part : ℤ → ℕ
neg_part (pos n) = 0
neg_part (negsuc n) = suc n

abbrev pub sub_ℕ : ℕ → ℕ → ℤ
sub_ℕ a b = if leb b a then pos (a - b) else negsuc (b - a - 1)

-- `round(a / b)` for b > 0: to the nearest number, and to the even one of two that are as near.
-- The quotients of the program are of numbers far below 2 ^ 53, where the floating-point quotient
-- and the exact one round alike.
unfoldable pub round_div : ℕ → ℕ → ℕ
round_div a b =
    let q = a / b in
    let r = a % b in if ltb (2 * r) b then q else if ltb b (2 * r) then q + 1 else q + q % 2

-- The same for a negative `a`: rounding is symmetric.
unfoldable pub round_div_ℤ : ℤ → ℕ → ℤ
unfolding round_div
round_div_ℤ (pos a) b = pos (round_div a b)
round_div_ℤ (negsuc a) b = negate (round_div (suc a) b)
