-- ===== src/Math/Sqrt.antt =====
-- epic-math/src/common/pic_math_sqrt.c. `modulus` is 2 to the width of the C type `unsigned`, which
-- is 16 bits in XC8 and 32 on the host.
use pic8_hal.Common.{ℕ, zero, suc, ◌+◌, ◌/◌, ◌%◌, Option, none, some, ltb, if◌then◌else◌, u16}
use pic8_hal.Math.{divmod_u16}

-- The loop, with fuel; `none` is that it still runs.
unfoldable pub newton : ℕ → ℕ → ℕ → ℕ → ℕ → Option ℕ
newton modulus zero value x y = if ltb y x then none else some x
newton modulus (suc fuel) value x y =
    let rest =
      newton modulus fuel value y (u16 ((y + (divmod_u16 value y).quotient) % modulus / 2)) in
    if ltb y x then rest else some x

unfoldable pub sqrt_u16 : ℕ → ℕ → ℕ → Option ℕ
sqrt_u16 modulus fuel value =
    let root = newton modulus fuel value value (u16 ((value + 1) % modulus / 2)) in
    if ltb value 2 then some value else root
