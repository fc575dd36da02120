-- ===== src/Common/Bits.antt =====
-- Bit operations of C at a constant mask, as arithmetic.
use Prim.Native.Nat.{
  ℕ, zero, suc, ◌+◌, ◌*◌, ◌/◌, ◌%◌, ◌^◌, ◌≤◌, ◌<◌, min, max, digits, bitwise, bit_and, bit_or,
  bit_and-bitwise, bit_or-bitwise,
}
use mathlib.Core.Path.{◌≡◌, refl, ap, ◌∙◌}
use mathlib.Core.Logic.{inl, inr}
use pic8_hal.Common.Tests.{leb, Bool-cases}
use native.Mathlib.Nat.{le_refl, pow-suc}
use native.Mathlib.Omega.{arith}

-- Casts to the fixed widths.
abbrev pub u8 : ℕ → ℕ
u8 n = n % 2 ^ 8

abbrev pub u16 : ℕ → ℕ
u16 n = n % 2 ^ 16

abbrev pub u32 : ℕ → ℕ
u32 n = n % 2 ^ 32

-- Induction on the halves of a number.
by_halves {ℓ} :
    (P : ℕ → Type ℓ) → P 0 → ((n : ℕ) → P (suc n / 2) → P (suc n)) → (bound n : ℕ) → n ≤ bound → P n
by_halves P base more bound zero h = base
by_halves P base more zero (suc n) h = absurd (omega arith)
by_halves P base more (suc bound) (suc n) h =
    more n (by_halves P base more bound (suc n / 2) (omega arith))

-- The native operations stand for a recursion on binary digits, `digits`, whose fuel is the number.
module _ (rest : ℕ → ℕ) (bit : ℕ → ℕ → ℕ) where
  one_more : (fuel x y : ℕ) → x ≤ fuel → digits rest bit (suc fuel) x y ≡ digits rest bit fuel x y
  one_more zero zero y h = refl
  one_more zero (suc x) y h = absurd (omega arith)
  one_more (suc fuel) zero y h = refl
  one_more (suc fuel) (suc x) y h = rw (one_more fuel (suc x / 2) (y / 2) (omega arith)) refl

  least_fuel : (fuel x y : ℕ) → x ≤ fuel → digits rest bit fuel x y ≡ digits rest bit x x y
  least_fuel zero zero y h = refl
  least_fuel zero (suc x) y h = absurd (omega arith)
  least_fuel (suc fuel) x y h = elim (Bool-cases (leb x fuel)) [
    | inl enough ↦
        let le : x ≤ fuel = ground (arith, enough) in one_more fuel x y le ∙ least_fuel fuel x y le
    | inr short ↦ let e : suc fuel ≡ x = ground (arith, short) in ap (λ k. digits rest bit k x y) e
  ]

  -- The lowest digit, and the rest by the halves.
  lowest_digit :
      (x y : ℕ)
      → bitwise rest bit (suc x) y
        ≡ bitwise rest bit (suc x / 2) (y / 2) * 2 + bit (suc x % 2) (y % 2)
  lowest_digit x y = rw (least_fuel x (suc x / 2) (y / 2) (omega arith)) refl

pub bit_and_step : (a b : ℕ) → bit_and a b ≡ bit_and (a / 2) (b / 2) * 2 + min (a % 2) (b % 2)
bit_and_step zero b = rw (bit_and-bitwise 0 b, bit_and-bitwise (0 / 2) (b / 2)) (omega arith)
bit_and_step (suc a) b =
    rw (bit_and-bitwise (suc a) b, bit_and-bitwise (suc a / 2) (b / 2))
      (lowest_digit (λ y. 0) min a b)

pub bit_or_step : (a b : ℕ) → bit_or a b ≡ bit_or (a / 2) (b / 2) * 2 + max (a % 2) (b % 2)
bit_or_step zero b = rw (bit_or-bitwise 0 b, bit_or-bitwise (0 / 2) (b / 2)) (omega arith)
bit_or_step (suc a) b =
    rw (bit_or-bitwise (suc a) b, bit_or-bitwise (suc a / 2) (b / 2))
      (lowest_digit (λ y. y) max a b)

pub bit_and-zero : (a : ℕ) → bit_and a 0 ≡ 0
bit_and-zero a =
    by_halves (λ n. bit_and n 0 ≡ 0) refl (λ n ih. omega (arith, ih, bit_and_step (suc n) 0)) a a
      (le_refl a)

pub bit_or-zero : (a : ℕ) → bit_or a 0 ≡ a
bit_or-zero a =
    by_halves (λ n. bit_or n 0 ≡ n) refl (λ n ih. omega (arith, ih, bit_or_step (suc n) 0)) a a
      (le_refl a)

pub bit_and_one : (a : ℕ) → bit_and a 1 ≡ a % 2
bit_and_one a = omega (arith, bit_and_step a 1, bit_and-zero (a / 2))

pub bit_and_three : (a : ℕ) → bit_and a 3 ≡ a % 4
bit_and_three a = omega (arith, bit_and_step a 3, bit_and_one (a / 2))

pub bit_and_seven : (a : ℕ) → bit_and a 7 ≡ a % 8
bit_and_seven a = omega (arith, bit_and_step a 7, bit_and_three (a / 2))

pub bit_and_15 : (a : ℕ) → bit_and a 15 ≡ a % 16
bit_and_15 a = omega (arith, bit_and_step a 15, bit_and_seven (a / 2))

pub bit_and_31 : (a : ℕ) → bit_and a 31 ≡ a % 32
bit_and_31 a = omega (arith, bit_and_step a 31, bit_and_step (a / 2) 15, bit_and_seven (a / 2 / 2))

pub bit_and_255 : (a : ℕ) → bit_and a 255 ≡ a % 256
bit_and_255 a = omega (
  arith,
  bit_and_step a 255,
  bit_and_step (a / 2) 127,
  bit_and_step (a / 2 / 2) 63,
  bit_and_31 (a / 2 / 2 / 2),
)

-- One bit: its test, and what setting it makes of the number.
pub bit_and_two : (a : ℕ) → bit_and a 2 ≡ a / 2 % 2 * 2
bit_and_two a = omega (arith, bit_and_step a 2, bit_and_one (a / 2))

pub bit_and_four : (a : ℕ) → bit_and a 4 ≡ a / 4 % 2 * 4
bit_and_four a = omega (arith, bit_and_step a 4, bit_and_two (a / 2))

pub bit_or_one : (a : ℕ) → bit_or a 1 ≡ a / 2 * 2 + 1
bit_or_one a = omega (arith, bit_or_step a 1, bit_or-zero (a / 2))

pub bit_or_two : (a : ℕ) → bit_or a 2 ≡ a / 4 * 4 + 2 + a % 2
bit_or_two a = omega (arith, bit_or_step a 2, bit_or_one (a / 2))

pub bit_or_four : (a : ℕ) → bit_or a 4 ≡ a / 8 * 8 + 4 + a % 4
bit_or_four a = omega (arith, bit_or_step a 4, bit_or_two (a / 2))

-- Clearing one bit of a byte.
bit_and_63 : (a : ℕ) → bit_and a 63 ≡ a % 64
bit_and_63 a = omega (arith, bit_and_step a 63, bit_and_31 (a / 2))

bit_and_127 : (a : ℕ) → bit_and a 127 ≡ a % 128
bit_and_127 a = omega (arith, bit_and_step a 127, bit_and_63 (a / 2))

bit_and_126 : (a : ℕ) → bit_and a 126 ≡ a / 2 % 64 * 2
bit_and_126 a = omega (arith, bit_and_step a 126, bit_and_63 (a / 2))

bit_and_125 : (a : ℕ) → bit_and a 125 ≡ a / 4 % 32 * 4 + a % 2
bit_and_125 a = omega (arith, bit_and_step a 125, bit_and_step (a / 2) 62, bit_and_31 (a / 2 / 2))

bit_and_124 : (a : ℕ) → bit_and a 124 ≡ a / 4 % 32 * 4
bit_and_124 a = omega (arith, bit_and_step a 124, bit_and_step (a / 2) 62, bit_and_31 (a / 2 / 2))

pub bit_and_254 : (a : ℕ) → bit_and a 254 ≡ a % 256 / 2 * 2
bit_and_254 a = omega (arith, bit_and_step a 254, bit_and_127 (a / 2))

pub bit_and_253 : (a : ℕ) → bit_and a 253 ≡ a % 256 / 4 * 4 + a % 2
bit_and_253 a = omega (arith, bit_and_step a 253, bit_and_126 (a / 2))

pub bit_and_251 : (a : ℕ) → bit_and a 251 ≡ a % 256 / 8 * 8 + a % 4
bit_and_251 a = omega (arith, bit_and_step a 251, bit_and_125 (a / 2))

pub bit_and_249 : (a : ℕ) → bit_and a 249 ≡ a % 256 / 8 * 8 + a % 2
bit_and_249 a = omega (arith, bit_and_step a 249, bit_and_124 (a / 2))

-- A number shifted by 8 with a byte below it.
pub bit_or_shift : (k q r : ℕ) → r < 2 ^ k → bit_or (q * 2 ^ k) r ≡ q * 2 ^ k + r
bit_or_shift zero q r h =
    let none : r ≡ 0 = omega arith in rw none (omega (arith, bit_or-zero (q * 2 ^ 0)))
bit_or_shift (suc k) q r h =
    let p : 2 ^ suc k ≡ 2 * 2 ^ k = omega (arith, pow-suc 2 k) in
    let w : q * 2 ^ suc k ≡ 2 * (q * 2 ^ k) = omega (arith, ap (λ (t : ℕ). q * t) p) in
    let half : q * 2 ^ suc k / 2 ≡ q * 2 ^ k = omega arith in
    bit_or_step (q * 2 ^ suc k) r
    ∙ ap (λ n. bit_or n (r / 2) * 2 + max (q * 2 ^ suc k % 2) (r % 2)) half
    ∙ omega (arith, bit_or_shift k q (r / 2) (omega arith))

pub bit_or_bytes : (hi lo : ℕ) → lo < 256 → bit_or (hi * 256) lo ≡ hi * 256 + lo
bit_or_bytes hi lo h = bit_or_shift 8 hi lo h

pub bit_or_nibbles : (hi lo : ℕ) → lo < 16 → bit_or (hi * 16) lo ≡ hi * 16 + lo
bit_or_nibbles hi lo h = bit_or_shift 4 hi lo h

pub bit_or_comm : (a b : ℕ) → bit_or a b ≡ bit_or b a
bit_or_comm a b = by_sum (a + b) a b (omega arith)
  where
    by_sum : (bound a b : ℕ) → a + b ≤ bound → bit_or a b ≡ bit_or b a
    by_sum zero zero zero h = refl
    by_sum zero zero (suc b) h = absurd (omega arith)
    by_sum zero (suc a) b h = absurd (omega arith)
    by_sum (suc bound) zero zero h = refl
    by_sum (suc bound) zero (suc b) h = omega (
      arith,
      bit_or_step 0 (suc b),
      bit_or_step (suc b) 0,
      by_sum bound (0 / 2) (suc b / 2) (omega arith),
    )
    by_sum (suc bound) (suc a) b h = omega (
      arith,
      bit_or_step (suc a) b,
      bit_or_step b (suc a),
      by_sum bound (suc a / 2) (b / 2) (omega arith),
    )
