-- ===== src/Prelude/Rounding.antt =====
-- Bounds of the rounded quotient.
use Prim.Native.Nat.{ℕ, ◌+◌, ◌*◌, ◌/◌, ◌%◌, ◌≤◌, ◌<◌}
use native.Mathlib.Omega.{arith}
use native.Mathlib.Nat.{div-add-mod, mul-add}
use community_edition_setup.Prelude.Int.{round_div}

-- Twice the rounded quotient is at most half a unit off twice the exact one, on each side.
pub round_div_upper : (a b : ℕ) → 0 < b → b * round_div a b + b * round_div a b ≤ a + a + b
unfolding round_div
round_div_upper a b h =
    grind (arith, div-add-mod a b, mul-add b (a / b) 1, mul-add b (a / b) (a / b % 2))

pub round_div_lower : (a b : ℕ) → 0 < b → a + a ≤ b * round_div a b + b * round_div a b + b
unfolding round_div
round_div_lower a b h =
    grind (arith, div-add-mod a b, mul-add b (a / b) 1, mul-add b (a / b) (a / b % 2))
