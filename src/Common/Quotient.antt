-- ===== src/Common/Quotient.antt =====
-- A quotient as bounds on the number divided.
use Prim.Native.Nat.{ℕ, ◌+◌, ◌*◌, ◌/◌, ◌≤◌, ◌<◌}
use mathlib.Core.Path.{◌≡◌, ◌∙◌}
use native.Mathlib.Nat.{div-add-mod, mod-lt, mul-add}
use native.Mathlib.Omega.{arith}

pub div_bounds : (n d : ℕ) → 0 < d → (d * (n / d) ≤ n) × (n < d * (n / d + 1))
div_bounds n d h =
    let more : d * (n / d + 1) ≡ d * (n / d) + d = mul-add d (n / d) 1 ∙ omega arith in
    (omega (arith, div-add-mod n d), omega (arith, div-add-mod n d, mod-lt n h, more))
