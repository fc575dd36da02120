-- ===== src/Math/Rand.antt =====
-- epic-math/src/common/pic_math_rand.c: a 16-bit shift register with feedback.
use pic8_hal.Common.{
  ℕ, zero, suc, ◌+◌, ◌*◌, ◌/◌, ◌^◌, bit_and, bit_or, bit_xor, ◌==◌, if◌then◌else◌, u16,
}
use pic8_hal.Common.Int.{ℤ, pos, negsuc, sub_ℕ, s16}

abbrev pub seed : ℕ
seed = 0xace1

unfoldable pub rand_next : ℕ → ℕ
rand_next state =
    let s = if state == 0 then seed else state in
    let bit = u16 (bit_and (bit_xor (bit_xor (bit_xor s (s / 4)) (s / 8)) (s / 32)) 1) in
    u16 (bit_or (s / 2) (bit * 2 ^ 15))

-- The sum of the next `n` values, and the state after them.
unfoldable pub sum_next : ℕ → ℕ → ℕ → ℕ × ℕ
sum_next zero state sum = (sum, state)
sum_next (suc n) state sum = let s = rand_next state in sum_next n s (sum + s)

-- `>> 2` on an int32_t rounds down.
abbrev pub shr2 : ℤ → ℤ
shr2 (pos n) = pos (n / 4)
shr2 (negsuc n) = negsuc (n / 4)

-- The mean of four values is taken off, and the rest scaled to 16 bits.
unfoldable pub rand_gauss : ℕ → ℤ × ℕ
rand_gauss state = let (sum, s) = sum_next 4 state 0 in (s16 (shr2 (sub_ℕ sum 131072)), s)
