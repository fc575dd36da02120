-- ===== src/Math/Decimal.antt =====
-- Packed decimals and the numbers that they stand for.
use pic8_hal.Common.{
  ℕ, ◌+◌, ◌-◌, ◌*◌, ◌/◌, ◌%◌, ◌^◌, ◌<◌, bit_and, bit_or, ◌≡◌, refl, ap, ◌∙◌, arith, ltb,
  if◌then◌else◌, u8, u16, u32, bit_and_15, bit_or_shift, bit_or_nibbles, bit_or_comm,
}
use pic8_hal.Math.Bcd.{
  from_digits, bcd16_to_bin, to_digits, bin_to_bcd16, unpacked, bcd_add8, bcd_sub8,
}

-- A byte of two decimal digits, and its number.
abbrev pub IsBcd : ℕ → Type 0
IsBcd a = (a / 16 < 10) × (a % 16 < 10)

abbrev pub decimal : ℕ → ℕ
decimal a = a / 16 * 10 + a % 16

packed :
    (tens ones : ℕ)
    → tens < 10
    → ones < 10
    → u8 (bit_or (u8 tens * 16) (u8 ones)) ≡ tens * 16 + ones
packed tens ones h k =
    let small : u8 ones ≡ ones = omega arith in
    let small' : u8 tens ≡ tens = omega arith in
    rw (small, small', bit_or_nibbles tens ones (omega arith)) (omega arith)

packed_number :
    (n : ℕ) → n < 100 → u8 (bit_or (u8 (n / 10) * 16) (u8 (n % 10))) ≡ n / 10 * 16 + n % 10
packed_number n h = packed (n / 10) (n % 10) (omega arith) (omega arith)

unpacked_lem : (a : ℕ) → IsBcd a → unpacked a ≡ decimal a
unpacked_lem a h = omega (arith, bit_and_15 a, h.0, h.1)

bcd_add8-decimal :
    (a b : ℕ)
    → IsBcd a
    → IsBcd b
    → let r = bcd_add8 a b in
      IsBcd r.value × (decimal r.value + (if r.flag then 100 else 0) ≡ decimal a + decimal b)
unfolding bcd_add8
bcd_add8-decimal a b h k =
    let sum : u16 (unpacked a + unpacked b) ≡ decimal a + decimal b =
      omega (arith, unpacked_lem a h, unpacked_lem b k, h, k) in
    ground (arith, sum, packed_number (u16 (unpacked a + unpacked b) % 100) (omega arith))

bcd_sub8-decimal :
    (a b : ℕ)
    → IsBcd a
    → IsBcd b
    → let r = bcd_sub8 a b in
      IsBcd r.value × (decimal r.value + decimal b ≡ decimal a + (if r.flag then 100 else 0))
unfolding bcd_sub8
bcd_sub8-decimal a b h k =
    let da : a / 16 * 10 + bit_and a 0x0f ≡ decimal a = omega (arith, bit_and_15 a) in
    let db : b / 16 * 10 + bit_and b 0x0f ≡ decimal b = omega (arith, bit_and_15 b) in
    rw (da, db) (difference (decimal a) (decimal b) (omega (arith, h)) (omega (arith, k)))
  where
    difference :
        (x y : ℕ)
        → x < 100
        → y < 100
        → let d = if ltb x y then x + 100 - y else x - y in
          let v = u8 (bit_or (u8 (d / 10) * 16) (u8 (d % 10))) in
          IsBcd v × (decimal v + y ≡ x + (if ltb x y then 100 else 0))
    difference x y h k =
        let d = if ltb x y then x + 100 - y else x - y in
        ground (arith, packed_number d (ground arith))

-- The sum of two packed decimals, with its carry, and their difference modulo 100, with its borrow,
-- are exact; both are packed decimals again.
bcd8-decimal :
    (a b : ℕ)
    → IsBcd a
    → IsBcd b
    → let sum = bcd_add8 a b in
      let difference = bcd_sub8 a b in
      IsBcd sum.value
      × (decimal sum.value + (if sum.flag then 100 else 0) ≡ decimal a + decimal b)
      × IsBcd difference.value
      × (decimal difference.value + decimal b ≡ decimal a + (if difference.flag then 100 else 0))
bcd8-decimal a b h k =
    let add = bcd_add8-decimal a b h k in
    let sub = bcd_sub8-decimal a b h k in (add.0, add.1, sub.0, sub.1)

-- A digit above those that are there.
above :
    (k low d : ℕ)
    → low < 2 ^ k
    → d * 2 ^ k < 2 ^ 32
    → bit_or low (u32 (d * 2 ^ k)) ≡ low + d * 2 ^ k
above k low d h l =
    let whole : u32 (d * 2 ^ k) ≡ d * 2 ^ k = omega (arith, l) in
    rw whole (bit_or_comm low (d * 2 ^ k) ∙ bit_or_shift k d low h ∙ omega arith)

stacked :
    (k low low' d d' : ℕ)
    → low ≡ low'
    → d ≡ d'
    → low' < 2 ^ k
    → d' * 2 ^ k < 2 ^ 32
    → bit_or low (u32 (d * 2 ^ k)) ≡ low' + d' * 2 ^ k
stacked k low low' d d' e f h l = rw (e, f) (above k low' d' h l)

-- Five digits, packed.
abbrev five : ℕ → ℕ → ℕ → ℕ → ℕ → ℕ
five d0 d1 d2 d3 d4 = d0 + d1 * 16 + d2 * 256 + d3 * 4096 + d4 * 65536

to_lem :
    (v : ℕ)
    → v < 2 ^ 16
    → bin_to_bcd16 v ≡ five (v % 10) (v / 10 % 10) (v / 100 % 10) (v / 1000 % 10) (v / 10000)
unfolding bin_to_bcd16 to_digits
to_lem v h =
    let d0 = v % 10 in
    let d1 = v / 10 % 10 in
    let d2 = v / 100 % 10 in
    let d3 = v / 1000 % 10 in
    let d4 = v / 10000 in
    let one = stacked 0 0 0 (v % 10) d0 refl refl (omega arith) (omega arith) in
    let two =
      stacked 4 _ (0 + d0 * 1) (u16 (v / 10) % 10) d1 one (omega arith) (omega arith)
        (omega arith) in
    let three =
      stacked 8 _ (0 + d0 * 1 + d1 * 16) (u16 (u16 (v / 10) / 10) % 10) d2 two (omega arith)
        (omega arith) (omega arith) in
    let four =
      stacked 12 _ (0 + d0 * 1 + d1 * 16 + d2 * 256) (u16 (u16 (u16 (v / 10) / 10) / 10) % 10) d3
        three (omega arith) (omega arith) (omega arith) in
    stacked 16 _ (0 + d0 * 1 + d1 * 16 + d2 * 256 + d3 * 4096)
      (u16 (u16 (u16 (u16 (v / 10) / 10) / 10) / 10) % 10) d4 four (omega arith) (omega arith)
      (omega arith)
    ∙ omega arith

from_lem :
    (d0 d1 d2 d3 d4 : ℕ)
    → d0 < 10
    → d1 < 10
    → d2 < 10
    → d3 < 10
    → d4 < 10
    → bcd16_to_bin (five d0 d1 d2 d3 d4) ≡ u16 (d0 + d1 * 10 + d2 * 100 + d3 * 1000 + d4 * 10000)
unfolding bcd16_to_bin from_digits
from_lem d0 d1 d2 d3 d4 h0 h1 h2 h3 h4 =
    let n = five d0 d1 d2 d3 d4 in
    let r0 : bit_and n 15 ≡ d0 = omega (arith, bit_and_15 n) in
    let r1 : bit_and (n / 16) 15 ≡ d1 = omega (arith, bit_and_15 (n / 16)) in
    let r2 : bit_and (n / 16 / 16) 15 ≡ d2 = omega (arith, bit_and_15 (n / 16 / 16)) in
    let r3 : bit_and (n / 16 / 16 / 16) 15 ≡ d3 = omega (arith, bit_and_15 (n / 16 / 16 / 16)) in
    let r4 : bit_and (n / 16 / 16 / 16 / 16) 15 ≡ d4 =
      omega (arith, bit_and_15 (n / 16 / 16 / 16 / 16)) in
    rw (r0, r1, r2, r3, r4) (omega arith)

-- Every 16-bit number comes back from its five digits.
bcd16_to_bin-bin_to_bcd16 : (value : ℕ) → value < 2 ^ 16 → bcd16_to_bin (bin_to_bcd16 value) ≡ value
bcd16_to_bin-bin_to_bcd16 v h =
    ap bcd16_to_bin (to_lem v h)
    ∙ from_lem (v % 10) (v / 10 % 10) (v / 100 % 10) (v / 1000 % 10) (v / 10000) (omega arith)
        (omega arith) (omega arith) (omega arith) (omega arith)
    ∙ omega arith
