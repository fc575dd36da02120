-- ===== src/Math/Tests.antt =====
-- Small runs of epic-math, and its theorems at concrete arguments.
use pic8_hal.Common.{ℕ, ◌+◌, ◌*◌, ◌^◌, ◌≤◌, ◌<◌, ◌≡◌, refl, ◌≢◌, some, arith}
use pic8_hal.Common.Int.{pos, negsuc, s16}
use pic8_hal.Math.{divmod_u16, divmod_s16}
use pic8_hal.Math.Sqrt.{newton, sqrt_u16}
use pic8_hal.Math.Newton.{sqrt_u16-floor}
use pic8_hal.Math.Bcd.{bin_to_bcd16, to_digits}
use pic8_hal.Math.Rand.{seed, rand_next, rand_gauss, sum_next}
use pic8_hal.Math.Period.{iterate, rand_next-period}

-- The one quotient that does not fit wraps.
divmod_s16_least : (divmod_s16 (negsuc 32767) (negsuc 0)).quotient ≡ negsuc 32767
unfolding divmod_s16 s16
divmod_s16_least = refl

-- -7 / 2 rounds to -3, with the remainder -1.
divmod_s16_negative : (divmod_s16 (negsuc 6) (pos 2)).remainder ≡ negsuc 0
unfolding divmod_s16 s16
divmod_s16_negative = refl

digits_of_65535 : bin_to_bcd16 65535 ≡ 0x65535
unfolding bin_to_bcd16 to_digits
digits_of_65535 = refl

-- With the 16-bit `unsigned` of XC8, the root of 65535 comes out as 0.
sqrt_u16_wraps : sqrt_u16 (2 ^ 16) 65535 65535 ≡ some 0
unfolding sqrt_u16 newton divmod_u16
sqrt_u16_wraps = refl

gauss_from_seed : (rand_gauss seed).1 ≡ 10958
unfolding rand_gauss sum_next rand_next s16
gauss_from_seed = refl

sqrt_u16-floor_example :
    (r : ℕ) × (sqrt_u16 (2 ^ 32) 65535 65535 ≡ some r)
    × (r * r ≤ 65535)
    × (65535 < (r + 1) * (r + 1))
sqrt_u16-floor_example = sqrt_u16-floor (2 ^ 32) 65535 (omega arith) (omega arith)

rand_next-period_example :
    (iterate (2 + 65535) seed ≡ iterate 2 seed) × (iterate 2 seed ≢ iterate 1000 seed)
rand_next-period_example = rand_next-period 2 1000 (omega arith) (omega arith)
