-- ===== src/Prelude/Division.antt =====
-- `math.ceil(a / b)` and Python's `round(a / b)`, to the even neighbour.
use Prim.Native.Nat.{ℕ, ◌+◌, ◌-◌, ◌*◌, ◌/◌, ◌%◌, ◌≤◌, ◌<◌}
use native.Mathlib.Omega.{arith}
use native.Mathlib.Nat.{div-add-mod, mod-lt}
use prismux.Prelude.Tests.{ltb, if◌then◌else◌}

unfoldable pub ceil_div : ℕ → ℕ → ℕ
ceil_div a b = (a + b - 1) / b

unfoldable pub round_div : ℕ → ℕ → ℕ
round_div a b =
    let twice = 2 * (a % b) in
    if ltb twice b then a / b else if ltb b twice then a / b + 1 else a / b + (a / b) % 2

pub ceil_div_bounds : (a b : ℕ) → 0 < b → (a ≤ ceil_div a b * b) × (ceil_div a b * b < a + b)
unfolding ceil_div
ceil_div_bounds a b h = let n : ℕ = a + b - 1 in grind (arith, div-add-mod n b, mod-lt n h)
