-- ===== src/Math/Bcd.antt =====
-- epic-math/src/host/pic_math_bcd.c: binary-coded decimals.
use pic8_hal.Common.{
  ℕ, zero, suc, ◌+◌, ◌-◌, ◌*◌, ◌/◌, ◌%◌, ◌^◌, bit_and, bit_or, ltb, leb, if◌then◌else◌, u8, u16,
  u32,
}
use pic8_hal.Math.{Flagged}

unfoldable pub bcd8_to_bin : ℕ → ℕ
bcd8_to_bin bcd2 = u8 (bcd2 / 16 * 10 + bit_and bcd2 0x0f)

unfoldable pub bin_to_bcd8 : ℕ → ℕ
bin_to_bcd8 value = u8 (bit_or (value / 10 * 16) (value % 10))

-- The loop over the digits, from the lowest.
unfoldable pub from_digits : ℕ → ℕ → ℕ → ℕ → ℕ
from_digits zero bcd5 mult bin = bin
from_digits (suc left) bcd5 mult bin =
    from_digits left (bcd5 / 16) (u32 (mult * 10)) (u32 (bin + u32 (bit_and bcd5 0x0f * mult)))

unfoldable pub bcd16_to_bin : ℕ → ℕ
bcd16_to_bin bcd5 = u16 (from_digits 5 bcd5 1 0)

-- The loop from the digit `i` on.
unfoldable pub to_digits : ℕ → ℕ → ℕ → ℕ → ℕ
to_digits zero i value bcd = bcd
to_digits (suc left) i value bcd =
    to_digits left (i + 1) (u16 (value / 10)) (bit_or bcd (u32 (value % 10 * 2 ^ (i * 4))))

unfoldable pub bin_to_bcd16 : ℕ → ℕ
bin_to_bcd16 value = to_digits 5 0 value 0

-- The two digits of a packed byte as a number.
abbrev pub unpacked : ℕ → ℕ
unpacked a = u16 (u16 (a / 16 * 10) + bit_and a 0x0f)

unfoldable pub bcd_add8 : ℕ → ℕ → Flagged
bcd_add8 a b =
    let sum = u16 (unpacked a + unpacked b) in
    let lo = sum % 100 in
    record { value = u8 (bit_or (u8 (lo / 10) * 16) (u8 (lo % 10))); flag = leb 100 sum }

-- The difference, with 100 added where it is negative.
unfoldable pub bcd_sub8 : ℕ → ℕ → Flagged
bcd_sub8 a b =
    let da = a / 16 * 10 + bit_and a 0x0f in
    let db = b / 16 * 10 + bit_and b 0x0f in
    let diff = if ltb da db then da + 100 - db else da - db in
    record { value = u8 (bit_or (u8 (diff / 10) * 16) (u8 (diff % 10))); flag = ltb da db }
