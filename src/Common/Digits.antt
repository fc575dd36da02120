-- ===== src/Common/Digits.antt =====
-- The binary digits of a number, and those of the bit operations.
use pic8_hal.Common.Bits.{u8, bit_and_step, bit_or_step}
use Prim.Native.Nat.{ℕ, zero, suc, ◌-◌, ◌*◌, ◌/◌, ◌%◌, ◌^◌, ◌<◌, min, max, bit_and, bit_or}
use mathlib.Core.Path.{◌≡◌, refl, ap, ◌∙◌, sym}
use mathlib.Core.Logic.{inl, inr}
use mathlib.Core.Bool.{Bool, true, false, ◌&&◌}
use native.Mathlib.Nat.{pow-suc, pow-succ', div-div-eq-div-mul}
use native.Mathlib.Omega.{arith}
use pic8_hal.Common.Tests.{ltb, ◌==◌, Bool-cases}
use pic8_hal.Common.Tests.{if◌then◌else◌}

pub bit_or_half : (a b : ℕ) → bit_or a b / 2 ≡ bit_or (a / 2) (b / 2)
bit_or_half a b = omega (arith, bit_or_step a b)

pub bit_and_half : (a b : ℕ) → bit_and a b / 2 ≡ bit_and (a / 2) (b / 2)
bit_and_half a b = omega (arith, bit_and_step a b)

-- The digit of `a` at `k`.
unfoldable pub digit : ℕ → ℕ → ℕ
digit a zero = a % 2
digit a (suc k) = digit (a / 2) k

pub digit-bit_or : (a b k : ℕ) → digit (bit_or a b) k ≡ max (digit a k) (digit b k)
unfolding digit
digit-bit_or a b zero = omega (arith, bit_or_step a b)
digit-bit_or a b (suc k) = rw (bit_or_half a b) (digit-bit_or (a / 2) (b / 2) k)

pub digit-bit_and : (a b k : ℕ) → digit (bit_and a b) k ≡ min (digit a k) (digit b k)
unfolding digit
digit-bit_and a b zero = omega (arith, bit_and_step a b)
digit-bit_and a b (suc k) = rw (bit_and_half a b) (digit-bit_and (a / 2) (b / 2) k)

pub digit_zero : (k : ℕ) → digit 0 k ≡ 0
unfolding digit
digit_zero zero = refl
digit_zero (suc k) = digit_zero k

pub digit-pow : (j k : ℕ) → digit (2 ^ j) k ≡ (if j == k then 1 else 0)
unfolding digit
digit-pow zero zero = refl
digit-pow zero (suc k) = digit_zero k ∙ ground arith
digit-pow (suc j) zero =
    let even : 2 ^ suc j % 2 ≡ 0 = omega (arith, pow-suc 2 j) in even ∙ ground arith
digit-pow (suc j) (suc k) =
    let half : 2 ^ suc j / 2 ≡ 2 ^ j = omega (arith, pow-suc 2 j) in
    let rest : digit (2 ^ suc j / 2) k ≡ (if j == k then 1 else 0) = rw half (digit-pow j k) in
    rest ∙ ground arith

-- `a >> k` and its lowest bit.
pub digit_lem : (a k : ℕ) → a / 2 ^ k % 2 ≡ digit a k
unfolding digit
digit_lem a zero = omega arith
digit_lem a (suc k) =
    let halved : a / 2 ^ suc k ≡ a / 2 / 2 ^ k =
      ap (λ d. a / d) {x = 2 ^ suc k} {y = 2 * 2 ^ k} (pow-succ' 2 k)
      ∙ sym (div-div-eq-div-mul a 2 (2 ^ k)) in
    rw halved (digit_lem (a / 2) k)

-- A test of all numbers below a bound.
abbrev pub every : ℕ → (ℕ → Bool) → Bool
every zero f = true
every (suc n) f = f n && every n f

pub every_lem : (n k : ℕ) (f : ℕ → Bool) → every n f ≡ true → k < n → f k ≡ true
every_lem zero k f e h = absurd (omega arith)
every_lem (suc n) k f e h = elim (Bool-cases (k == n)) [
  | inl same ↦ let at : k ≡ n = ground (arith, same) in ap f {x = k} {y = n} at ∙ ground (arith, e)
  | inr other ↦ every_lem n k f (ground (arith, e)) (ground (arith, other))
]

abbrev agrees : ℕ → ℕ → Bool
agrees j k = digit (255 - 2 ^ j) k == (if j == k then 0 else 1)

agrees-every : every 8 (λ j. every 8 (agrees j)) ≡ true
unfolding digit
agrees-every = refl

-- The complement within a byte: `(uint8_t)~(1u << j)`.
pub digit-complement : (j k : ℕ) → j < 8 → k < 8 → digit (255 - 2 ^ j) k ≡ (if j == k then 0 else 1)
digit-complement j k h l =
    ground
      (arith, every_lem 8 k (agrees j) (every_lem 8 j (λ i. every 8 (agrees i)) agrees-every h) l)

-- A cast to 8 bits keeps the digits below 8.
pub digit-u8 : (a k : ℕ) → k < 8 → digit (u8 a) k ≡ digit a k
unfolding digit
digit-u8 a zero h = omega arith
digit-u8 a (suc zero) h = omega arith
digit-u8 a (suc (suc zero)) h = omega arith
digit-u8 a (suc (suc (suc zero))) h = omega arith
digit-u8 a (suc (suc (suc (suc zero)))) h = omega arith
digit-u8 a (suc (suc (suc (suc (suc zero))))) h = omega arith
digit-u8 a (suc (suc (suc (suc (suc (suc zero)))))) h = omega arith
digit-u8 a (suc (suc (suc (suc (suc (suc (suc zero))))))) h = omega arith
digit-u8 a (suc (suc (suc (suc (suc (suc (suc (suc k)))))))) h = absurd (omega arith)

pub digit-bound : (a k : ℕ) → digit a k < 2
unfolding digit
digit-bound a zero = omega arith
digit-bound a (suc k) = digit-bound (a / 2) k

pub pow-lt : (k : ℕ) → k < 8 → 2 ^ k < 256
pow-lt k h = ground (arith, every_lem 8 k (λ j. ltb (2 ^ j) 256) refl h)

pub and-true : (a b : Bool) → (a && b) ≡ true → (a ≡ true) × (b ≡ true)
and-true true true e = (refl, refl)
and-true true false e = cc
and-true false b e = cc
